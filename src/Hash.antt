-- ===== src/Hash.antt =====
-- The unique ids: src/crc32.h, src/uid_hash.cc and the ctypes wrappers of src/uid_hash.py.
pub mod Crc
pub mod Uid
pub mod Bounds
