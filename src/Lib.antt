-- ===== src/Lib.antt =====
-- ReflectC: reflection for C. A Clang plugin (plugin/) writes the struct, union and enum types of
-- each source file, merge/merge.py merges them into one file reflection.dat, and the C library
-- loads that file and answers questions by name. This is a development about the C library
-- (src/reflect.c with include/reflect.h, src/hashtable.c and src/reader.c), the plugin, what the
-- merge script writes, and the example programs.
--
-- Base holds the names that all modules share: the libraries', tests into Bool, lists over the
-- native numbers, and `Run`, the outcome of C code: a value, or the fault that it meets (a read
-- outside a block, of memory never written, through NULL, a division by zero, the wrong member of
-- a union, a byte that is no bool).
--
-- Memory is the memory of strings: blocks of bytes, and `char*` as a block and an offset. The
-- buffer with the file is a block, each string that `read_c_string` allocates is one, and so are
-- the strings of the program. Memory.Strings says what string a pointer stands for, and how memory
-- may grow.
--
-- Reader is src/reader.c: `reader_t` is `Reader`, `read_byte` to `read_string` keep their names.
-- The offset is a `size_t` and wraps at 2^64. Machine: little-endian, `size_t` of 64 bits, loads
-- at any alignment.
--
-- Hashtable is src/hashtable.c: `hash_t`, `hash_bucket_t`, `hashtable_t`, `hash_fnv1a`,
-- `hashtable_create`, `hashtable_get`, `hashtable_insert`. A bucket is its node in the array with
-- the list of the nodes that `next` leads through, so each loop is recursion on that list. In
-- Hashtable.View a table is valid if its array has as many buckets as its capacity, which is not
-- 0, and each node of a chain has a name, which no other node of the chain has; the map that it
-- stands for is `view`.
--
-- Types is the static state of src/reflect.c and the functions add_base_type_info,
-- add_struct_type_info, add_enum_type_info, add_struct_field_type, add_enum_field_type and
-- add_type_alias. A `const type_info_t*` is an index in `type_table`; an entry, a slot of a member
-- array and the `field_table` of an entry are `none` until the code writes them, since `malloc`
-- leaves them unset. Products of sizes wrap at 2^64. Types.Describes and Types.Models say when the
-- tables in memory are what a list of types says.
--
-- Format describes a reflection.dat apart from the C code: the types that it lists, and their
-- bytes, in the order in which `write_reflection_dat` of merge/merge.py writes them for a 64-bit
-- target. The names stand in the file wherever the file says. Format.Names has what a name stands
-- for: of two members of a type, or of two types of a file, with one name, the last. Format.Lookup
-- says when an earlier type is not hidden.
--
-- Load is `reflect_load_bytes` and `reflect_load`. `Load.Monad` passes the reader and the state
-- along. Each `for` loop is recursion on the number of rounds that are left, so no fuel is needed
-- and no bound on a count is assumed but that the arrays fit 64 bits. The address of the linked
-- file is given by the linker, and is an argument of `reflect_load`. In Load.File a file is
-- well-formed (`IsImage`) if it has the two sizes of the header and, where the second says, the
-- types; there is one type at least, ids are at most the number of types, each name is a string in
-- the file, and all numbers fit their C types. The files Cursor, Members, Aliases, Composite and
-- Table of Load go from single reads to the loop over the types; Short is about buffers that end
-- within the header.
--
-- Query is the questions on the tables: reflect_type_info_from_name, reflect_get_field_type,
-- reflect_field_info_iter_begin and _end, reflect_get_enum_value, reflect_enum_info_iter_begin and
-- _end. A pointer into a member array is the type and an index; `field_ptr` and `enumerator_ptr`
-- make one, in steps of the size of what it points at, whichever array the union holds, and
-- `load_field` and `load_enumerator` read through one. `reflect_get_enum_value` returns a pointer
-- to a value, and the model the value.
--
-- Object is reflect_alloc, reflect_free, reflect_get_type_info, reflect_get_field_manual and
-- reflect_get_field. Addresses are numbers, and `Heap` says which header the 32 bytes at an
-- address hold, if they may be read. `malloc`, `free` and the functions of the program are
-- arguments, and what is asked of an allocator is `Allocates`: that it gives NULL, or an address
-- whose header may be written, and changes no other memory. Object.Release is what becomes of an
-- object that is freed.
--
-- Owned is about copy mode. A pointer is owned if it leads to a block that memory did not have
-- before the load. Owned.Tables and Owned.Types go through the operations on the tables,
-- Owned.Load and Owned.Steps through the loader, for any buffer, well-formed or not; Owned.Release
-- says what tables with owned pointers keep as other blocks change, and Owned.Copy what is left
-- when the buffer is freed.
--
-- Plugin is the Clang plugin. Plugin.Clang is the interface to Clang: `Clang` has the methods that
-- the plugin calls on syntax trees, by their names, and `IsFinite` says that the trees are finite,
-- so that the loops and the recursion over them, which run on fuel, end. Plugin.Types is
-- plugin/ReflectionTypes.hpp and ReflectionTypes.cpp. Plugin.Field is `CreateFieldInfo`, and
-- Plugin.Field.Shape and Plugin.Field.Names say what its three loops and its last steps look for;
-- Plugin.Visitor has the two maps of `ReflectClangVisitor`, `RegisterBaseType` and the two merges
-- of aliases; Plugin.Visit is `VisitRecordDecl` with `ReflectNestedFields`, `VisitEnumDecl` and
-- `VisitTypedefDecl`. An `std::unordered_map` is a list of pairs, and where the code walks one,
-- the order is an argument. Plugin.Visit.Paths says in Clang's own terms which fields a record
-- has: one for each path through complete records. Plugin.Serializer is
-- `ReflectionDataSerializer::serialize`; Plugin.Serializer.Commands describes the format of its
-- output apart from the code. Plugin.Consumer is `HandleTranslationUnit`, over the list of
-- declarations that Clang's traversal visits. Plugin.Action is the name of the file that is
-- written.
--
-- Merge is the writing half of merge/merge.py: `BinWriter`, and the bytes that
-- `write_reflection_dat` puts in reflection.dat. A Python dictionary is a list in the order of
-- insertion, and an exception is `none`. Merge.Says describes which types a file has to list for a
-- dictionary, apart from the code, and Merge.Listed has that these are the ones listed.
-- Merge.Writes says what a step appends, Merge.Fields, Merge.Counts and Merge.Table go through the
-- loops, and Merge.File has the whole file. The writer's room is 10000000 bytes, as in the script.
--
-- Sample is examples/sample/sample.c: `load_reflection`, where what fopen, ftell, malloc and fread
-- answer is an argument, and in Sample.Program its `main` and that of
-- examples/inlinetest/inline.c. The integers that they store in objects are cells by address,
-- apart from the headers of Object; they may be touched only inside the block of the object.
-- `Room`, an argument, is how large the C library's blocks are, and the theorems ask nothing of it
-- after a block is freed. What the programs print is a list of numbers.
--
-- Tests has one file with types of all four variants, runs of the code on it, and the theorems at
-- it; the file of the example programs; a dictionary of the merge script; and a translation unit
-- with two structs, an enum and a typedef.
--
-- Not modelled: the failure of `malloc` and `calloc` inside the library, which the code does not
-- test; reflect_hotreload_get_state_ptr, which returns the address of a static variable; in the
-- plugin, the warnings and the registration with Clang (ReflectPluginAction); in the merge script,
-- how it reads the .reflection.dat files, and the copies of its output in other formats; and the
-- tests and the benchmark.
pub mod Base
pub mod Memory
pub mod Hashtable
pub mod Reader
pub mod Types
pub mod Format
pub mod Load
pub mod Query
pub mod Object
pub mod Owned
pub mod Plugin
pub mod Merge
pub mod Sample
pub mod Tests
