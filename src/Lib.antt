-- ===== src/Lib.antt =====
-- A model of cwhost, which hosts the CodeWarrior compilers' PowerPC plug-ins: it loads a plug-in's
-- PEF container into an emulated guest, serves the plug-in's calls, and gives it memory, files and
-- structures in the layout of classic Mac OS. The model covers the parts that compute.
--
-- The parts and the files. Paths are from the repository's root.
--   Memory is src/cwhost/memory.py. Memory/Heap is class Heap, less realloc: the free list and the
--     allocations are the record Heap, a method is a function from the heap to a result and the
--     heap after it. Memory/Realloc is Heap.realloc, whose state also has the guest's memory.
--     Memory/Handles is class Handles, on top of both. The children Invariant, Alloc, Free, Resize
--     and Laws hold the proofs.
--   Guest is the part of src/cwhost/guest.py that other parts build on: reading and writing the
--     guest's memory (Guest/Memory), the arguments of a call (Guest/Arguments, Guest.args) and the
--     trap page (Guest/Traps, Guest.alloc_trap_slot). The emulator, Unicorn, is no part of the
--     repository: it is the parameter Emulator, with what its documentation says of mem_read and
--     mem_write on mapped memory. What they do where memory is not mapped stays open. Its registers
--     are parameters of Guest.args.
--   AppleDouble is src/cwhost/appledouble.py: AppleDouble.read is `parse` on the bytes of the file,
--     AppleDouble.write is `serialize` before the file is written.
--   Pef is src/cwhost/pef.py: Pef/Container is class PEF with its tables, Pef/Exports its exports,
--     Pef/Varint and Pef/Pidata are the expansion of packed sections, Pef/Reloc is
--     apply_relocations.
--   Abi is src/cwhost/abi.py: Abi is the layout of Struct, Abi/Scalars its codec of scalars,
--     Abi/Structs the tables of structures.
--   Panels is src/cwhost/panels.py, the records of the compiler's preferences: Panels has the C/C++
--     warnings, Panels/Compiler the C/C++ compiler and the optimizer, Panels/CodeGen the code
--     generator and the defaults. Flags is from_flags of src/cwhost/cli/flags.py, which turns a
--     command line into these records; Flags/Commands has the branches, Flags/Table the flags.
--   Resources is src/cwhost/resources.py: Resources is class ResourceFork, Resources/Chain is class
--     ResourceChain, whose state is the record Chain; the relation Reachable of its child Invariant
--     is any sequence of its calls. What a node is and how its fork is read are parameters.
--   Vfs is src/cwhost/vfs.py: Vfs has class VFS with its table of nodes, Vfs/Listing the cached
--     listings, Vfs/Paths HFS paths and the FSSpec and FSRef records. The state is a VFS with the
--     table of references that all VFS objects share; what the host's file system answers is the
--     parameter Disk. The relation Reachable of Vfs/Reach is any sequence of calls of one VFS and
--     of local changes on the host that invalidate_path reports: those to the listings of the
--     reported path and of the directories above it.
--   Session is src/cwhost/session.py: Session has the state of a session and the memory handles of the
--     plug-in, Session/Requests the requests, Session/Includes the search for includes. Plugin is
--     src/cwhost/pluginlib.py: Plugin/Callbacks has the callbacks, Plugin/Table their table and the
--     relation Calls, which is any run of the plug-in's code that calls the modelled callbacks and
--     otherwise leaves the request's state alone. The call of that code is a parameter.
--     Guest/Scratch is Guest.alloc.
--   Base has the shared helpers, Tests runs the definitions on concrete inputs.
--
-- Conventions. A raised exception is an error value: one constructor for each exception that the
-- code raises, and constructors of their own for Python's struct.error, IndexError and
-- OverflowError, so that a theorem can tell them apart. Python's integers are ℕ where the code has
-- checked that they are not negative, ℤ where it has not. Bytes are lists of numbers; a file's or a
-- name's text stays the bytes before decoding. Tests such as isinstance have no counterpart.
-- A command line is native text; str.casefold, int and the encoding to MacRoman, whose tables the
-- source does not hold, are the parameter Tables.
--
-- Loops. Those over a list, a table or a range are structural. Five loops take fuel: the
-- interpreter of relocations gets one round more than the stream has words, and the expansion of a
-- section one round more than it has packed bytes; each round takes at least one. The search for a
-- free reference number in ResourceChain.open may pass over as many numbers as files are open. The
-- theorems on these show this to be enough. A C string is read up to the code's own bound of
-- 2 ^ 20 bytes, and the climb from a node to the root of a search takes one step more than its
-- path has names.
--
-- Not modelled: src/cwhost/loader.py, api.py, config.py, carbon/ and cli/cwcc.py, which dispatch
-- calls of the emulator or read and write files; of guest.py the mapping of memory, hooks, guest
-- calls, tracing and setjmp, which drive the emulator; of session.py load and the decoding of the
-- plug-in's tables; of pluginlib.py the callbacks that pack structures or ask the
-- file system; of vfs.py the reading and writing of forks, deleting, renaming and hfs_path; of pef.py
-- the fields that are only reported; of abi.py the codec of whole structures.
pub mod Base
pub mod Memory
pub mod Guest
pub mod AppleDouble
pub mod Pef
pub mod Resources
pub mod Vfs
pub mod Abi
pub mod Panels
pub mod Flags
pub mod Tests
pub mod Session
pub mod Plugin
