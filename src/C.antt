-- ===== src/C.antt =====
-- The C code that src/c_stuff_sack.py writes, and what it does when it runs.
pub mod Syntax
pub mod Generate
pub mod Memory
pub mod Run
pub mod Unpack
pub mod Log
pub mod Messages
pub mod Enums
pub mod Asserts
pub mod Generated
pub mod RoundTrip
pub mod Inspect
pub mod Tests
