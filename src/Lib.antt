-- ===== src/Lib.antt =====
-- stuff_sack: a generator of packing and unpacking libraries for messages that a YAML file specifies.
--
-- The reader (src/stuff_sack.py) turns the YAML file into message types: primitives, bitfields, enums,
-- structs, messages and arrays of these. Every type has a name, a packed size and a 32-bit unique id
-- that is a CRC of its contents (src/uid_hash.py over src/uid_hash.cc and src/crc32.h). The C back end
-- (src/c_stuff_sack.py) writes a packing and an unpacking function for each type, in the order of the
-- types, and tables by which a receiver finds a message's type from the unique id in its header. The
-- C++ back end (src/cc_stuff_sack.py) writes the same functions as methods, and a dispatcher that
-- calls back for each message received. The Python back end (src/py_stuff_sack.py) calls the C
-- functions.
--
-- Files, and the code they model:
--   Prelude, Errors: text as lists of code points, lists, results; an error value for each
--     exception.
--   Yaml: YAML values and the `_yaml_*` checks of src/stuff_sack.py.
--   Hash: Crc is src/crc32.h, Uid is src/uid_hash.cc with the wrappers of src/uid_hash.py.
--   Types: the classes under `DataType`, and `Array`; Types/Sizes is `_bytes_for_bits` and
--     `_bytes_for_value`.
--   Spec: Build is the registry `DataType.all_types` with the constructors and `add_*` methods,
--     FromYaml the `from_yaml` methods, Parse `reset_types` and `parse_yaml`. WellFormed says what a
--     registry satisfies, Parsed what `parse_yaml` shows.
--   Names: src/utils.py and the names of the C functions.
--   C: Generate holds the `*_pack` functions of src/c_stuff_sack.py, which give statement trees in
--     place of text; Memory and Run give the statements their meaning in C, over objects and byte
--     buffers; Run/Spec says what bytes a value is packed to. Messages is the search of
--     `GetSsMsgTypeFromUid`, Enums the enumerators of `SsMsgType` with `get_extra_enums`, Asserts
--     the static assertions, Generated joins the reader and the back end. Unpack holds the
--     `*_unpack` functions; below it Run gives them their meaning, Spec says what object comes back,
--     Members to Headers are about the bodies and functions of one type, Files and Located about
--     whole files, and Rejects about headers. RoundTrip joins packing and unpacking, Inspect is
--     `SsInspectHeader`, Log the search of `SsFindLogDelimiter`, and Log/Write the functions that
--     write a log.
--   Cc: the functions and methods of src/cc_stuff_sack.py. Run gives the methods their meaning, with
--     `UnpackMessage`, and Dispatch is `MessageDispatcher`. Flat turns enums into bitfields and
--     messages into structs, which makes the C++ functions those of a C file; Wire compares the two
--     back ends.
--   Py: the enum and message classes of src/py_stuff_sack.py, over functions of the C library.
--     Library gives them the generated ones, Logger is the class of that name, and Logger/Sessions
--     the step relation of its methods.
--
-- State: the class attributes of `DataType` are passed from step to step; a registry is the list of
-- its types in the order of the dict. An object under construction stands at the end of the registry,
-- so that what refers to it finds it, as in the source. A Python exception is an error value.
--
-- Bounds: the loops recurse on their lists. `decimal_loop` and `bit_length_loop` have the number
-- itself as fuel, and each round at least halves it. C integers keep their widths: an enum is an
-- `int` of 32 bits, conversions are of two's complement, and bytes are taken modulo 256. A loop
-- over an `int32_t` with 2^31 rounds and an offset that an `int` does not hold are faults, as are a
-- store outside the buffer and a read of a missing member. `SsFindLogDelimiter` has an outcome of
-- its own for a `file_index` that overflows. The local `buf` of a log function is an argument of
-- the model. A packing function in which the copy of an aliased field is not declared with the type
-- that the function called on it takes, or with a type that C does not know, does not compile,
-- which is a fault too. The copies of aliased fields are local objects with the layout of the
-- members: those of an unpacking function start with the values of the members, and each call
-- writes over one of them before it is copied back. The fuel of `find_loop` counts its rounds; a
-- round for each byte of the file is enough. `SsReadFile`, `SsWriteFile` and the C functions that
-- the Python library calls are parameters, with whether `fopen` and `fclose` succeed; a callback of
-- the C++ dispatcher is known by a number.
--
-- Not modelled: the layout of the ctypes structures of src/py_stuff_sack.py, the text of the YAML
-- header of a log, and the documentation (src/stuff_sack_docs.py). The declarations that the C and
-- C++ compilers read, argument parsing, file access and the YAML reader itself are text, input and
-- output only. Letters outside ASCII have no case in Names, where the theorems are about ASCII
-- names. What an aliased type looks like is the user's: it has the layout of the type that it
-- stands for.
pub mod Prelude
pub mod Errors
pub mod Yaml
pub mod Hash
pub mod Types
pub mod Spec
pub mod Names
pub mod C
pub mod Cc
pub mod Py
