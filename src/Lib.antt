-- ===== src/Lib.antt =====
-- The core of vardoger, an emulator that runs Android native libraries to unpack protected code.
--
-- The program runs a library on a Unicorn CPU. A memory manager lays out the guest's address space, a
-- scheduler runs the guest's threads on the one CPU in slices, stubs and system calls serve libc and
-- the kernel from a virtual file system and a model of Android, a JNI layer and an ART runtime stand
-- for the Java side, and an extractor and the DEX tools rebuild what the guest unpacks. RC4 is run
-- natively in place of the guest's own loop.
--
-- Files, and the code that each is about:
--   Vfs: core/android/vfs.cpp and include/vardoger/android/vfs.hpp. The record `Vfs` has the fields
--   of class Vfs (store_, dirs_, handles_, next_fd_), and one function stands for each member
--   function, by its name (`open_file` for open). Child modules: Paths (directories), Validity,
--   Steps and Operations (the invariant), Handles (open, dup, close), Contents (write), Gives and
--   Reads (read, seek), Lines (gets).
--   Scheduler: core/engine/scheduler.cpp and include/vardoger/engine/scheduler.hpp. The record
--   `Sched` has the fields of class Scheduler (threads_, mutex_owner_, cur_, next_tid_, rr_,
--   prefer_, running_, stop_), the registers of the CPU, the writes to guest memory that were made,
--   and which ones the engine accepts, which the guest may change. Calls has what the pthread stubs
--   and the clone and exit system calls do, Slices the loop of run. What the guest does in a slice
--   is a list of actions, and `loop` recurses on the list of slices, one for each round, so it
--   needs no fuel: a list that runs out is a loop that is still going. Scans, Picking, Joins,
--   Soundness, Rounds, Mutexes, Endings and Contexts have the proofs.
--   Memory: core/engine/memory.cpp, include/vardoger/engine/memory.hpp and address_space.hpp. The
--   record `Memory` has the list of regions and the cursors. uc_mem_map and uc_mem_unmap are
--   parameters that succeed or refuse. The search of mmap_alloc keeps the code's bound of 4096
--   tries, which is enough for 4096 regions (Gaps). Regions, Maps and Unmaps have the other proofs.
--   Arenas has heap_alloc and java_alloc, with Arenas.Bumps about them, Protect has protect, and
--   Tls the constructor and setup_tls.
--   JavaRuntime: core/jni/java_runtime.cpp and include/vardoger/jni/java_runtime.hpp. The record
--   `Java` has the maps of class JavaRuntime, the writes it made to guest memory and the memory
--   manager, which it uses through the interface `Arena`; Shadows shows that java_alloc fills it.
--   Objects, Methods and Android have the operations, in a monad of state and exceptions
--   (Prelude.Act). Handles, Fresh and Made are about handles, Classes about the class hierarchy and
--   the natives.
--   Dex: core/dex/dex_file.cpp, include/vardoger/dex/dex_file.hpp and rebuilder.hpp. File and Parse
--   have class DexFile, Rebuilder and Sha1 class DexRebuilder; zlib's adler32 is a parameter. Loops
--   over a count in the file recurse on it; a 32-bit uleb128 number has five groups at most. Leb,
--   Words, Bounds, Seal, Relink and Build have the proofs.
--   Dalvik: core/dex/dalvik.cpp and include/vardoger/dex/dalvik.hpp, the interpreter. Actions
--   decodes an instruction into what it does, Machine does it. The callbacks are parameters that
--   change a state of the host and the interpreter's depth, and may throw; an access outside the
--   registers or the file, undefined in C++, is an outcome of its own. The loop has the code's own
--   bound of 200000 rounds. Outcomes, Rounds, Balance, Plain and Safety have the proofs.
--   Devirt: include/vardoger/dex/devirt_rebuild.hpp. Table and Encode have the assembler (md_ops,
--   md_encode, md_assemble), Families the bridge from families to instructions (md_to_dalvik),
--   Methods the decoding of a method (md_decode_method), Signatures the registers and the bodies of
--   methods without code (sig_ins, sig_ret, minimal_body), Classify the classification of opcodes
--   (md_classify), Rebuild the code item of a method (devirt_rebuild). Layout, Fetches, Files,
--   Codes, Decoded, Branching, Jumps and Landing follow an assembled branch into the interpreter of
--   Dalvik; Known, Sound and Decoding are about a decoded method, Places, Meanings, Plains, Walks and
--   Rebuilt about a run of rebuilt code, Params, Runs and Bodies about signatures and bodies,
--   Counts, Sorts and Ranks about md_classify.
--   Extractor: core/extract/extractor.cpp and include/vardoger/extract/extractor.hpp, over reads of
--   guest memory that are a parameter and may throw. A loop over a buffer has the buffer's length
--   as its fuel, since every round of it takes four bytes at least. Scans and Strings have the
--   proofs.
--   Trampoline: core/engine/trampoline.cpp and include/vardoger/engine/trampoline.hpp; a handler is
--   a value, and what it does is a parameter. Stubs has the proofs.
--   Rc4: include/vardoger/util/rc4.hpp, with Swaps (the S-box and the saved state) and Streams.
--   Prelude: shared names; lists and bits of native numbers, ordered association lists for
--   std::map, bytes written over a part of a list, texts, and a monad of state and exceptions.
--   Tests: runs at fixed inputs, a test vector, and uses of the theorems at concrete data.
--
-- std::map is an association list in the order of its keys. Bytes, descriptors, addresses and
-- thread numbers are natural numbers; the sums of the memory manager and the bytes of RC4 wrap as
-- in the code, and so do descriptors, which are the 32 bits of an int; the positions of the file
-- system and the thread numbers do not wrap. Exceptions are values. Debug output and logs are left out.
--
-- Not modelled: of the devirtualiser the reading of the log with strtol and streams, its files, the
-- union of its sources (build_op_family) and the method index; the engine and its debugger stub,
-- the ELF loader, the stubs and system calls, the Android, JNI and ART layers and the class
-- lifecycle driver; the C and Python interfaces, which only pass calls on.
pub mod Prelude
pub mod Vfs
pub mod Scheduler
pub mod Memory
pub mod Rc4
pub mod JavaRuntime
pub mod Dex
pub mod Extractor
pub mod Trampoline
pub mod Dalvik
pub mod Devirt
mod Tests
