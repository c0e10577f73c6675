-- ===== src/Lib.antt =====
-- xbks, a freestanding x86_64 kernel: its memory manager, its read-only file system, its program
-- loaders, and its processes with their system calls.
--
-- The parts and how they interact. The boot loader's memory map fills the frame allocator
-- (mm/mm.c), which also keeps the page tables of every address space. The boot loader's module is
-- a tar archive, in which the ramdisk (fs/ramdisk.c) finds files and lists directories.
-- kernel/process.c starts the first process from /bin/xsh in the archive and then serves system
-- calls: it keeps the table of processes, loads programs through the ramdisk and the page tables,
-- and hands the processor from a parent to its vfork child and back. fs/elf.c loads an image into
-- an arena of memory for programs without an address space of their own, which kernel/userland.c
-- starts and serves. Where there is no archive, kernel/shell.c reads lines from drivers/keyboard.c
-- and runs its own commands. drivers/font_ttf.c reads the font of the terminal. Output goes
-- through kernel/log.c to the debug console, the serial line and the terminal, formatted by
-- lib/format.c. All of them use lib/string.c.
--
-- Which file models which part:
--   Prelude     the shared names: tests on numbers, lists, bit operations, integers
--   CString     lib/string.c: memset, memcpy, memmove, memcmp, strlen, strcmp, strncmp; the proofs
--               are in CString/Memory and CString/Text
--   Ramdisk     fs/ramdisk.c: Path has the path routines, Tar the headers and the step from one
--               entry to the next, Files xbks_ramdisk_init, xbks_ramdisk_find and
--               xbks_ramdisk_read_dir; Members, Prefix, Below, Children, Shown, Find, Listing, ReadDir,
--               Terminated, Normal and Bounds have the proofs
--   Elf         fs/elf.c: Headers has the structures, Image xbks_elf_load_image; Bounds the proofs
--   Mm          mm/mm.c: Frames has the allocator, Tables xbks_vmm_map_page and
--               xbks_vmm_translate, Spaces the copy and the release of address spaces, Init
--               xbks_mm_init; FreeList has the proofs on the allocator; Tree states what holds of
--               the page tables, Lookup is the walk through them, and Ensured, Fresh, Ensure, Leaf,
--               Mapping and MapPage have the proofs on xbks_vmm_map_page
--   Format      lib/format.c: Sink has the sink and the numbers, Printf xbks_vsnprintf; Text,
--               Numbers and Renders have the proofs
--   Drivers     Keyboard has drivers/keyboard.c and the read of drivers/serial.c, Console
--               kernel/log.c and the writes of drivers/serial.c and drivers/tty.c; Typing, Lines and
--               Log have the proofs
--   Font        drivers/font_ttf.c: Reads has the reads of the file, Tables the tables and the choice
--               of the character map, Parse parse_ttf, Glyphs the glyph of a character; Inside,
--               Located, Sound and Lookups have the proofs
--   Shell       kernel/shell.c: Commands has the commands, Line the loop; Buffer, Editing and Defined
--               have the proofs
--   Process     kernel/process.c: Types has the data, User the access to user memory, Table the
--               two tables, Memory and Load the image of a program, Files the file system calls,
--               Life the calls on memory and processes, Dispatch the dispatcher; Invariant states
--               what holds of the table, Calls, Positions, Images, Changes, Endings, Forked,
--               Exited, Cleared, Lifecycle, Sound, Pids and Reach show it, and Descriptors, Segments and
--               Waiting have the proofs on single calls
--   Userland    kernel/userland.c: Api has the calls on files and the console, Exec the programs and
--               the start of the first; Nesting and Files have the proofs
-- The module Tests of each part has concrete runs.
--
-- State. The static variables of a file are a record (Ramdisk, Mm, Kernel), and a function that
-- changes them takes the record and returns it. A pointer to a process is the index of its slot. A
-- pointer into the archive is an offset. The memory of mm/mm.c is a function from the address of a
-- word to the word. A C string is the list of its characters; a function that fills a buffer
-- returns the text that the buffer then holds. A system call returns the value for rax with the
-- kernel, and the calls that change the frame return an Outcome. Numbers of 64 bits are natural
-- numbers with the wrap-around written out. The pids are C's int, kept as 32 bits and extended by
-- their sign where the code turns them into 64: the increment of next_pid at INT_MAX, which C
-- leaves undefined, wraps around in the model, and the theorems on pids are about the calls before
-- that. An argument of a format is a number of 32 bits, a number or pointer of 64, or a string; a
-- directive that finds another kind or size has no result, and arguments that are left over are
-- not read.
--
-- Parameters. Hardware stands for the processor and the devices: the bytes of user memory that the
-- current address space shows, the register CR3, the keyboard with its shift state, and the
-- console. Ports stands for what the ports of the keyboard and the serial line give in one round.
-- A program that kernel/userland.c runs is a tree of changes of the memory and calls of exec,
-- which a function from entry points gives.
--
-- Bounds and fuel. A loop over the archive has a round for each block and one more; a copy from
-- user memory has a round for each byte of its buffer; the page loops have a round for each page
-- that a range can touch; the loop of getdents64 has a round for each byte of the buffer, where
-- every record takes more than one. A number has 64 rounds for its digits, as it has at most 64 in
-- any base. The wait for a character has as many rounds as it is given, and the depth of nested
-- calls of exec is an argument, of which one level is enough.
--
-- Not modelled: the log messages of the other parts; the set-up of the serial port and of the
-- terminal, whose library flanterm is third-party code; the wait for the serial line before each
-- byte; the outlines of glyphs and the rasteriser of drivers/font_ttf.c; and the set-up of the
-- machine in boot, arch and syscall/syscall.c.
pub mod Prelude
pub mod CString
pub mod Ramdisk
pub mod Elf
pub mod Mm
pub mod Format
pub mod Font
pub mod Drivers
pub mod Shell
pub mod Process
pub mod Userland
