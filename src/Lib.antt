-- ===== src/Lib.antt =====
-- computer_systems_labs: models and proofs for the C and C++ programs of the repository.
--
-- Four of the labs carry logic of their own. lab6-malloclab has an allocator on a simulated heap
-- (mm.c, memlib.c), a driver that runs traces on it and checks what it returns (mdriver.c), and the
-- timing scheme of that driver (fcyc.c). lab1-datalab has puzzles on 32-bit words (bits.c), the
-- functions they are compared with (tests.c), and the harness that compares them (btest.c).
-- lab5-shell-lab is a shell with job control: a job list (jobs.cc), the reading of a command line
-- (helper-routines.cc), and commands and signal handlers that share the list (tsh.cc). lab4-perflab
-- applies a filter to an image with an unrolled loop (Filter.cpp, FilterMain.cpp).
--
-- The files:
--   Base        shared names: tests and conditionals, lists, C integers as bit patterns, bit laws
--   Datalab     Puzzles: the functions of bits.c (bit_nor is bitNor, and so on)
--               Reference: the functions of tests.c (ref_bit_nor is test_bitNor)
--               Logic, Arithmetic, Parity: the puzzles against their test functions
--               Harness: gen_vals, test_0_arg to test_3_arg and test_function of btest.c
--   Malloc      Bytes: the storage, a byte for each address
--               Memlib: mem_init, mem_reset_brk, mem_sbrk and the bounds of memlib.c
--               Heap: heap_listp and free_listp of mm.c, with the storage and the break
--               Tags: the macros and inline functions at the head of mm.c
--               FreeList: insertBlock, removeBlock and find_fit
--               Alloc: coalesce, extend_heap, place, mm_init, mm_malloc, mm_free, mm_realloc
--               Blocks: the heap as a row of blocks with equal tags at both ends; what a change
--               of links or of tags leaves of it
--               Invariant: such a row from edge to edge, and a free list with its free blocks
--               Invariant/Edges: what the tests of coalesce read; Free: mm_free without a merge
--               Invariant/Hole, Merge, Cases, Release: a block whose tags are to be written, the
--               cases of coalesce, and mm_free
--               Invariant/Cut, Place, Placed: place; Extend, Extended: extend_heap; Words, Init: mm_init
--               Invariant/Views, Walk: the row from another block, and as its tags tell it
--               Invariant/Found, Request: find_fit and mm_malloc; Payload: stores of the user
--               Invariant/Links, Members: the free list in the row
--               Runs: the heaps that mm_init, mm_malloc, mm_free and stores of the user lead to
--   Driver      Ranges: add_range, remove_range, clear_ranges of mdriver.c
--               Trace: read_trace
--               Valid, Utilisation, Speed: eval_mm_valid, eval_mm_util, eval_mm_speed
--   Sampler     init_sampler, add_sample, has_converged and fcyc of fcyc.c
--   Shell       Jobs: the functions of jobs.cc; Laws and Map: the list as a map from process numbers
--               Line: parseline; Quoted: what it makes of a line written with quotes
--               Control: eval, builtin_cmd, do_bgfg, waitfg and the signal handlers of tsh.cc
--               Control/Runs: the steps of the shell, and what is so in the shells they reach
--               Control/Signals, Control/Full: whom signals reach, when waitfg ends, a full job list
--   Image       Filter: the class Filter and readFilter; Printed: a file that holds a filter
--               Apply: applyFilter and the loop with one column a round; Unrolled: that they agree
--               Apply/Sums: a colour as a sum over the filter; Interior, Written: what is written,
--               and where
--   Tests       runs on concrete inputs, and the theorems applied to concrete inputs
--
-- How the state is modelled. A 32-bit integer is its bit pattern, a natural number below 2 ^ 32, and
-- every sum and shift has its wrap-around written out; a signed comparison adds the sign bit to both
-- sides. A pointer is its address, 64 bits wide. The functions of mm.c map a heap to a heap: memory is
-- a function from addresses to bytes, and a store of 4 or 8 bytes writes them in little-endian order,
-- so that tags and links of blocks share the memory with the payloads. mdriver.c passes a record of
-- the heap, the payload list and the trace arrays from request to request, and each run ends in one of
-- several outcomes: it goes on, reports an error, or fails an assertion.
--
-- The shell is a record of the job list, what it is doing (reading commands, in the loop of waitfg for
-- a job, between the signal of bg or fg to a job and the store of its state, ended, or crashed by a
-- store through NULL) and what it has sent and printed. Between commands, between rounds of that loop
-- and at that place of bg and fg, its steps are the handlers, in any order: sigchld_handler gets the
-- reports that waitpid returns, and a command gets the number of the child that fork returns. A pointer
-- to an entry of the job list is its index, and a text is the list of its character codes.
--
-- Fuel. The search of find_fit follows links and might not end on a broken list; it has one round more
-- than the heap has bytes, which are more rounds than blocks fit, and mm_malloc and mm_realloc give
-- `none` when that runs out. The loop of gen_vals over a range has two rounds more than the array has
-- places. fcyc has one round more than the samples it may take. The loop of parseline has a round more
-- than the line has characters. The loops over rows and columns have the rounds that are left as an
-- argument, and the other loops follow their data.
--
-- Parameters. What malloc returns for the storage, what random_val and pow of btest.c compute, the
-- samples of fcyc with their comparisons, and the initial content of the trace arrays are arguments.
-- The file that read_trace reads is the sequence of numbers and words that fscanf finds in it.
--
-- Not modelled: messages and exits by a message beyond their outcome; mm_check, which only a debug
-- build has; main, the runs of the C library's allocator and the reports of mdriver.c; the cycle
-- counters and timers of clock.c, ftimer.c and fsecs.c; the timeout and options of btest.c; ilog2 and
-- the floating-point puzzles of bits.c, which are unfinished; decl.c, ishow.c and fshow.c; the labs
-- whose code is a binary (bomb and attack lab). Of the shell, the child behind fork, signals inside a
-- handler or at other places of a command, the signal masks, main and its options; of the filters, the
-- bitmap library cs1300bmp.cc, the times and the file names of main.
pub mod Base
pub mod Datalab
pub mod Driver
pub mod Image
pub mod Malloc
pub mod Sampler
pub mod Shell
pub mod Tests
