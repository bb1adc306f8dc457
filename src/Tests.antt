-- ===== src/Tests.antt =====
-- Runs of the definitions on concrete inputs, and an example of each theorem. The inputs of the
-- tests on relocations and on structures are those of tests/test_reloc.py and tests/test_abi.py.
mod Memory
mod Containers
mod Structures
mod Options
mod Resources
mod Guest
mod Exports
mod Vfs
mod Session
mod Includes
