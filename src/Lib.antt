-- ===== src/Lib.antt =====
-- The FireballOS kernel: the file system, the paging, the processes and the devices.
--
-- The program. A 32-bit x86 teaching kernel. A file system image that the boot loader leaves in
-- memory holds the programs and their data (student-distrib/filesys.c). The system calls
-- (student-distrib/systemcalls.c) start a program from that image in a page directory of its own
-- (student-distrib/paging.c), keep an array of open files for each process, and switch between
-- processes. Text goes through the buffers of three terminals (student-distrib/buffer.c,
-- student-distrib/lib.c), of which student-distrib/terminal.c shows one, above a status bar with a
-- clock that the timer drives (student-distrib/pit.c). The keyboard (student-distrib/keyboard.c) fills
-- the command line of the terminal that is shown and, with alt, switches terminals and their processes;
-- the mouse (student-distrib/mouse.c) switches terminals too. student-distrib/lib.c also has the memory
-- and string routines, printf and cout; student-distrib/rtc.c and student-distrib/i8259.c drive the
-- real-time clock and the interrupt controllers, and student-distrib/int_handler.c fills the table of
-- the interrupts. student-distrib/kernel.c starts it all up, student-distrib/music.c plays on the speaker,
-- and the programs of the directory syscalls run on it. No interrupt calls scheduling: the call in the
-- timer's handler is a comment.
--
-- The files.
--   Base: numbers, tests, options, 32-bit words, and facts decided by evaluation.
--   Memory: byte memory and memset, memset_word, memset_dword, memcpy and memmove of
--     student-distrib/lib.c, by the loops of their assembly. Copy, Move and Fill compare them with
--     plain copies and fills.
--   CString: strlen, strncmp, strcpy, strncpy, strrev and itoa of student-distrib/lib.c, with the
--     modules Length, Compare and Bounded on the first, the second and the fourth, Reverse on strrev,
--     and Digits and Numeral on itoa.
--   OpenFile: file_t of student-distrib/systemcalls.h and the jump tables.
--   FileSystem: read_dentry_by_name, read_dentry_by_index and read_data of
--     student-distrib/filesys.c. Image says what a well-formed image is and what a read leaves in
--     memory; Rounds, ReadData and Wraps are about read_data, Lookup and Names about the look-up.
--   FileOps: the operations of files and directories and program_load of the same file, with Reading
--     and Loading; Listing is about one dir_read, Names about the listing of a whole directory.
--   Paging: student-distrib/paging.c and paging.h. Walk is the translation of an address by the
--     processor, Invariant the well-formed tables, Tasks and Kernel what they let a program and the
--     kernel reach.
--   Descriptors: open, close, stdin, stdout and the dispatch of read and write of
--     student-distrib/systemcalls.c, with Slots.
--   Calls: read, write, getargs and vidmap of the same file on the running process, with rtc_read of
--     student-distrib/rtc.c; Reading is about read on a file, Arguments about getargs. Gate is the entry
--     of the system calls in student-distrib/wrapper.S.
--   Process: execute, halt, scheduling and context_switch of student-distrib/systemcalls.c, with
--     parse and get_arg. State has the control blocks and the global variables; Bitmap is about the
--     process numbers, Lifecycle about execute and halt, Queue and Turn about the queue of tasks,
--     Arguments about parse and get_arg.
--   Console: student-distrib/buffer.c and put_cout of student-distrib/lib.c, with Cursor, Scroll and
--     Typing.
--   Video: the screen's memory: clear, set_palette, set_colour, putc, puts and the like of
--     student-distrib/lib.c, and printb of student-distrib/buffer.c, with Draw.
--   Terminal: student-distrib/terminal.c, with Switching and Writing; Terminal/Read has terminal_read,
--     and Line what it makes of a line.
--   StatusBar: the status bar of the same file and student-distrib/pit.c. Time is about the clock, Bar
--     and Embed about what is drawn and written, Ticks about runs of interrupts.
--   Mouse: student-distrib/mouse.c, with Moving and Clicks.
--   Keyboard: student-distrib/keyboard.c: the tables, the keys that are held, and the command line,
--     with Held, Line and Typing. Keyboard/Machine has kbd_logic and kbd_int_handler on the state of
--     the kernel's processes and of the terminals together, with Letter, the way of a letter to the
--     screen, and Switch, the way of alt and a function key to another process.
--   Format: printf, cout and puts_cout of student-distrib/lib.c, with Plain.
--   Idt: student-distrib/int_handler.c, with Gates.
--   Rtc and Pic: student-distrib/rtc.c and student-distrib/i8259.c, with Rate and Masks.
--   Music: student-distrib/music.c, with Tone.
--   StartUp: entry of student-distrib/kernel.c: the checks of the boot loader's data, and all from the
--     interrupt table to the first shell; and student-distrib/bootscreen.c. Ready is what the parts are
--     left in.
--   Programs: the programs of the directory syscalls, over an operating system that is a record of the
--     calls: its support routines, with Compare on ece391_strcmp, and in SysErr, Files and Talk the
--     programs. OnKernel has the kernel as such an operating system; Quiet, Errors, Refusing and
--     Passing are about the programs of SysErr on it.
--   Tests: concrete inputs.
--
-- How the code is written down. An operation takes the state that it reads and returns the state that
-- it leaves. uint32_t, and int32_t as its bit pattern, are numbers below 2 ^ 32; sums and differences
-- wrap where the code lets them, and -1 is 2 ^ 32 - 1. Byte memory is a function from addresses, which
-- do not wrap; a local structure stands at an address that is an argument. The control blocks of the
-- processes and the page tables are records of their own, apart from byte memory. A result in Option is
-- none when a loop does not end, or an access leaves an array of the kernel that is not in byte memory;
-- in byte memory, as in the image of the file system, an access goes on to whatever stands behind.
--
-- Loops. A loop with a counter is a recursion on the rounds that are left. strlen and strcpy search
-- through the 2 ^ 32 addresses at most. read_data runs for one round more than the bytes it copies, as
-- each round copies one or more; program_load for 2 ^ 32 rounds, as each reads a byte or more of a
-- file that is shorter. The loop of rtc_write is followed for the 31 shifts that C defines. The search
-- of open for a free slot stops behind the last of the eight. The loops over strings and formats are
-- followed for 2 ^ 32 characters. The loops of cat, ls, grep and the shell have a fuel that is an
-- argument, as a terminal or a clock may go on for ever; pingpong is followed for a number of rounds.
-- The loop in which terminal_read waits for the enter key is a list of what its rounds see, as
-- interrupts change that between them, and so is the loop in which rtc_read waits for a tick; a list
-- that does not end the loop is none.
--
-- Parameters. The addresses at which the linker puts the page tables are a parameter, aligned as their
-- attribute asks; so are the addresses of the interrupt handlers, of string literals and of local
-- variables, and the stack pointers that assembly stores. What a device's port gives is an argument,
-- and what goes to a port is a list of pairs of a byte and a port.
--
-- Jumps. A call that does not come back, to a program's entry point or to another process's stack, ends
-- the operation with a result that says so: user of execute, leaves of kbd_logic.
--
-- Not modelled. The processor's segment descriptors, the assembly that saves registers at an interrupt,
-- and the routines that only test; fish, which draws pictures into the video memory, emulate, which
-- stands for the system calls by those of Linux, and sigtest, which uses signals that the kernel does
-- not have. Messages
-- that are printed, the masking of interrupts around an operation, and invalidations of the TLB are
-- left out; context_switch alone is without its end-of-interrupt command, which Keyboard/Machine adds,
-- rtc_open without its call of init_rtc, which has a definition of its own in Rtc, and the mouse's
-- handler without the end-of-interrupt commands of its branches, which are sent again at its end.
pub mod Base
pub mod Memory
pub mod CString
pub mod OpenFile
pub mod FileSystem
pub mod FileOps
pub mod Paging
pub mod Console
pub mod Music
pub mod Video
pub mod Terminal
pub mod StatusBar
pub mod Mouse
pub mod Keyboard
pub mod Format
pub mod StartUp
pub mod Idt
pub mod Calls
pub mod Programs
pub mod Descriptors
pub mod Process
pub mod Rtc
pub mod Pic
mod Tests
