-- ===== src/Lib.antt =====
-- Deep space detection: the serial protocol between the ground and the board, and the driver of
-- the accelerator card, of https://github.com/dongeliu/deep-space-detection.
--
-- The program has three parts. `project-spec/meta-user/recipes-apps/autostart` is what runs on
-- the board and on its counterpart: two programs that exchange frames over a serial line, each
-- closed by a CRC-16. `project-spec/meta-user/recipes-modules/axi-tangxi` is a kernel driver,
-- which cuts a transfer between the processor's memory and the card's into bursts, writes their
-- registers, and is told of their ends by interrupts; a user-space library prepares the
-- transfers and calls it. In the first directory there is also an arithmetic coder in C++, which
-- is to compress the images.
--
-- Files and sources (paths below project-spec/meta-user):
--   Crc, Crc/Table           crc.c `crc16`, crc.h `table_crc_hi`, `table_crc_lo`
--   Crc/Reference            CRC-16/MODBUS bit by bit, the reference for `crc16`
--   Crc/Detect               what the checksum notices
--   Protocol/Frame           transmission_protocol.h
--   Protocol/Stream          transmission_protocol.c `frame2bit_stream`, `bit_stream2frame`
--   Protocol/Link            transmission_protocol.c `send_frame`, `receive_frame`, `wait_frame`
--   Protocol/Wire            a line between two terminals, by the laws of its bytes on the way
--   Master, Master/Loop      master.c, the case of a request, and the loop of `main` around it
--   Master/Main              master.c `parse` and `main`, master.h
--   Slave, Slave/Loop        main.c, the case of a frame of data, and `main` from its first request on
--   Slave/Main               main.c `parse` and `main`, main.h
--   Options                  the loop around `getopt` in both
--   Session                  both programs over one line
--   Driver/Registers         axitangxi_dev.h register numbers, axitangxi_dev.c `reg_map`, `reg_unmap`
--   Driver/Commands          axi_tangxi.c, the functions that write the registers of one burst
--   Driver/Burst             axi_tangxi.c, the loop that four functions have in common
--   Driver/Device, Driver/Irq  the shared flags and completion, axitangxi_dev.c `irq_handler`
--   Driver/Memory            axitangxi_dev.c `axitangxi_mmap`, `axitangxi_vma_close`,
--                            `axitangxi_uservirt_to_phys`
--   Driver/Loopback          axi_tangxi.c, the transfers and `axitangxi_psddr_plddr_loopback`
--   Driver/Ioctl             axitangxi_dev.c `axitangxi_ioctl`, axi_tangxi.c `acc_config`,
--                            `acc_start`, `acc_get`
--   Driver/Calls             axitangxi_dev.c `axitangxi_open`, `axitangxi_release`, and the calls of
--                            `axitangxi_fops` and the interrupt in any order
--   Driver/Setup             axitangxi_dev.c `axitangxi_init`, `axitangxi_exit`
--   Driver/Accelerator       axi_tangxi.c, the functions that take `struct network_acc_args`
--   Library                  include/libaxitangxi.c and .h
--   Library/Accelerator      the calls for the network accelerator in libaxitangxi.c
--   Library/Example          examples/axitangxi_test.c
--   Coder/Output, Coder/Counting, Coder/Input  the bit streams of arithmetic_coding.h and .cpp
--   Coder/Encoder            `ArithmeticCoderBase`, `ArithmeticEncoder`; below it Bits for the tests
--                            and masks, Offset and Spans for the interval, Loops and Update for `update`, and
--                            Codeword for the end of the file
--   Coder/Coding             coding.cpp `coding`
--   Coder/Message            messages of several symbols, and Unique for those over one table;
--                            Coder/RoundTrip, bits to a file and back
--   Base                     lists, words, signed integers, bits, and memory with bounds, for all
-- Functions keep their names. In files of the autostart directory the sources stand in `src`.
--
-- State and errors. An array is a list of bytes; `Run` is a result or a fault, and a fault is
-- any access outside an array, through a null or freed pointer, or a failed assertion. Pointers
-- that a function writes through are part of its result. The runs of the two main programs are
-- an `Outcome`, which has NULL and an exit with a failure besides. The card is the log of the
-- writes to its registers, in order. What interrupts arrive is a list of lists: those before the
-- first `init_completion`, those after each burst, and those before each wait. The pointer to
-- the completion is null, dangling, or leads to one that is initialised or is not. Of the user's
-- memory it is known which words can be read, which mappings change. Words are numbers, reduced
-- modulo 2 ^ 8, 2 ^ 16, 2 ^ 32 or 2 ^ 64 where the source's types do; of the coder's `long
-- long`, results that do not fit are faults. The coder's `Exec` has exceptions too, and loops
-- that have not ended in the rounds given. Its interval is followed as two numbers within the
-- whole message: the bits that are written and those that wait stand before `m_low` and
-- `m_high`, and each round of a loop doubles both.
--
-- What the sources only call is a parameter: `malloc`, the terminal's `read` and `write`,
-- `open`, `getopt` on a command line without `--` (with the laws that its options come to an
-- end, and that it stays there), `wordexp`, `stat`, the contents of the files, the conversion
-- `%d`, `basename`, whether `fopen` succeeds, `mmap`, `munmap` and `close`, what the card leaves
-- in a buffer, the frequencies that `coding` computes in floating point, the kernel's allocators
-- and its answers to `axitangxi_init`, `ioremap` among them, `remap_pfn_range`, `virt_to_phys`,
-- the completion (with the laws that a wait after `complete` succeeds and one after
-- `init_completion` times out), and the macros for the numbers of ioctls (with the law that they
-- decode what they encode). A line between the programs is two terminals with the laws of
-- `Wire`: bytes arrive in the order in which they were written, a `read` takes what there is up
-- to the number asked for, and the two directions leave each other alone. Memory is
-- little-endian.
--
-- Loops. `crc16` recurses on its length. The bursts and `wait_frame` run on fuel: for the bursts
-- one round for each burst begun is enough, and for `wait_frame` one round more than there are
-- failing reads. The master's answer recurses on the frames that are left; the endless loops of
-- both programs run for a number of rounds, which the theorems leave open. The loops around
-- `getopt` need one round more than there are options. The two loops of `update` have 33 rounds
-- each, since 33 doublings of a part of the interval make it longer than 2 ^ 32; the loop of
-- `close` has 7, the bits that can be missing to a byte.
--
-- Not modelled: the delays, and the messages, except for what they read through unchecked or
-- unterminated pointers; a write to a register whose mapping was refused, since outside
-- Driver/Setup the registers are taken as mapped; the order of an interrupt and the four writes
-- of a single burst; memory that is never freed; the arithmetic decoder, which has no code, and
-- the floating-point sums before the encoder; the scripts, and the hardware in Verilog.
pub mod Base
pub mod Crc
pub mod Protocol
pub mod Session
pub mod Driver
pub mod Library
pub mod Master
pub mod Slave
pub mod Options
pub mod Coder
