-- ===== src/Spec.antt =====
-- Reading a message specification: the class methods of src/stuff_sack.py that build types from
-- YAML, and the registry `DataType.all_types` that they fill.
pub mod Build
pub mod FromYaml
pub mod Parse
pub mod WellFormed
pub mod Parsed
pub mod Tests
