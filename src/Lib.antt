-- ===== src/Lib.antt =====
-- A verification library for Dancy, an operating system in C: models of parts of its kernel and of the
-- code that the kernel and the programs share, and theorems about them.
--
-- The program. Boot loaders (boot/) start the kernel (kernel/) with a map of the memory. The kernel keeps
-- the physical pages in a bitmap (kernel/base/mm.c), its own memory in a heap (kernel/base/heap.c), runs
-- tasks (kernel/base/task.c, kernel/sched/), and offers files through a virtual file system (kernel/vfs/),
-- whose nodes are FAT files, devices, terminals and pipes, by system calls (kernel/syscall/). Code without
-- state of the kernel is shared in common/. The C library and the programs, with the shell, are in
-- arctic/, the tools of the build in tools/.
--
-- The files. Each file names its source at its top; the names of definitions are those of the source.
--   Base and its children: names of the libraries, lists and ints over the native numbers, `&` and `|` at
--   variables, checks of finite tables.
--   Utf8: common/utf8.c. `decode` takes the state as a number and returns it beside the result; `encode`
--   returns the bytes it writes. Utf8/Exact and Utf8/State are on whole sequences and on the states.
--   Pipe: kernel/vfs/pipe.c, with `vfs_increment_count` and `vfs_decrement_count` of kernel/vfs/vfs.c. The
--   shared data is a record; a section under its lock is a function on it, and what other tasks do between
--   two sections is an argument (`Others`), so that every interleaving of sections is a choice of it.
--   Mm: kernel/base/mm.c over the static variables as a record, from the bit loops (Mm/Runs) to allocating
--   and freeing pages (Mm/Page) and blocks of pages (Mm/AllocPages, Mm/FreePages).
--   Heap: kernel/base/heap.c over its map of sections, a list of words. Heap/Sections says which addresses
--   are owned; Heap/Alloc and Heap/Free are on allocating and freeing.
--   Mtx: kernel/base/mtx.c, the array of mutexes; Mtx/Steps has the steps of many tasks, Mtx/Exclusion who
--   holds one of them, and Mtx/Lock what other tasks do while `mtx_lock` waits.
--   Epoch: common/epoch.c, seconds and the text of a date. Stack: common/stack.c.
--   CText: kernel/lib/string.c and kernel/lib/ctype.c.
--   Bitarray: kernel/lib/bitarray.c. A reader holds the bytes that it has and those that its callback gives in
--   later calls, a writer what it has written. Bitarray/Stream has the bits of both in their order.
--   Huffman: kernel/lib/huffman.c, from its loop on a stream of bits (Huffman/Fetch, Huffman/Canonical) to code
--   words on the line of all words of 15 bits (Huffman/Kraft, Huffman/Decode). Inflate: kernel/lib/inflate.c over
--   the list of what is in the buffer; an access beyond it is a `fault` of the model. Deflate:
--   tools/dy-zip/deflate.c; its children go from finding a match (Deflate/Search) and writing one
--   (Deflate/Encoding) to reading symbols back (Deflate/Symbols, Deflate/Rounds, Deflate/RoundTrip).
--   Fat: common/fat.c, its allocation table and what changes it. The device is a state with operations given
--   by a parameter (`Io`), which stands for `fat_io_read`, `fat_io_write` and `malloc`. Fat/Parameters has the
--   parameters in the first sector, Fat/Entries and Fat/Allocate the entries, Fat/Chains the chains of clusters,
--   Fat/Marks the sectors that are marked to be written, Fat/Descriptors the open files and their positions.
-- The children called Tests hold runs and the theorems at concrete inputs.
--
-- Interaction. Compression makes its codes with the functions of huffman.c and writes them to a bit array, and
-- decompression reads them from one, so that the two are composed over the modelled parts. The other parts do not
-- call one another but for `malloc` and `free`: where a part calls them (the pipe, the stack), whether memory is
-- given is an argument. A mutex or spin lock enters as the atomicity of the section under it; where taking a
-- mutex can fail, `locked` says whether it does.
--
-- Numbers are natural numbers. Wrap-around is written out where the source can reach it (`% 2 ^ 64` for a
-- `size_t`, `% 2 ^ 32` for an entry of the heap map, `% 256` for a byte). A `size_t` has 64 bits.
--
-- Loops that do not follow a list or a count recurse on fuel. It is enough because: a section of a pipe
-- that is not the last one moves a byte, so that one round more than bytes are asked for is enough
-- (Pipe/Read, Pipe/Write); a round of `take_pages` goes down by a block of one frame or more, from the
-- frame that is its fuel (Mm/AllocPages); a round of `merge_loop` drops an entry or passes one
-- (Heap/Merge); a year takes off 365 days or more, and twelve months are a year (Epoch/Loops).
-- `bitarray_fetch` has three rounds for each bit; `huffman_fetch` takes fifteen bits at most. A round of
-- `inflate` takes a bit or more, so that one round more than bits is enough (Inflate/Bounds); a round of
-- `lz77_compress` takes a byte of the text or more. `delete_clusters` sets an entry to 0 in each round,
-- so that one round for each entry, and one more, is enough for a chain (Fat/Chains). `mtx_lock` may
-- wait for ever; its fuel is the number of attempts, and it says when they did not do.
--
-- Not modelled: `mm_init`, which reads the map of the loader; the memory that is handed out, but for the
-- bytes that `calloc`, `strdup` and `heap_alloc_static_page` write; of the FAT file system, names, directories, what is read and
-- written in files, and the reading and writing of the counters; tasks, paging, interrupts, devices and
-- their input and output; fonts, terminals, system calls and the shell; the boot loaders, the C library
-- of the programs, the other programs and the tools.
pub mod Base
pub mod Utf8
pub mod Pipe
pub mod Mm
pub mod Heap
pub mod Epoch
pub mod CText
pub mod Stack
pub mod Mtx
pub mod Bitarray
pub mod Huffman
pub mod Inflate
pub mod Deflate
pub mod Fat
