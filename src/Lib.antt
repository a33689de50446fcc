-- ===== src/Lib.antt =====
-- A verification of programs in this repository of computer systems labs: the cache simulator and
-- the matrix transposition of the cache lab, the shell of the shell lab, the proxy of the proxy
-- lab, the memory allocator of the malloc lab and the bit puzzles of the data lab. The programs do
-- not call each other.
--
-- Csim: the cache simulator, cache lab/cachelab-handout/csim.c. `parse_arg` is parseArg,
--   `create_cache` createCache, `execute_inst` executeInst and `run_trace` the loop of main. A
--   cache is a list of sets, a set a list of lines. executeInst is split where it returns:
--   `search_lines` is its loop, and `on_hit`, `on_miss` and `on_evict` are its three ends. A read
--   outside an array is the result none, and a -t whose text is longer than the buffer of the file
--   name is the result `overruns`.
-- Trans: cache lab/cachelab-handout/trans.c. A matrix is a function of row and column, a write
--   makes a new function, and `for_step` is a for loop with a fixed number of rounds. The eight
--   variables that hold elements between reads and writes are written out as the reads that fill
--   them.
-- Tsh: the shell, shell lab/tsh.c. Tsh.Jobs is the job list with its helper routines, Tsh.ParseLine
--   is parseline, and Tsh.Eval has eval, the commands and the signal handlers, and Tsh.Main is
--   main, for a list of what the shell meets at its prompt. The globals are the record `Shell`,
--   which the functions take and return; what is printed and the signals that are sent are messages
--   in it.
-- Proxy.Cache: proxy lab/proxylab-handout/cache.c. The lines stand in a store from addresses to
--   lines, with their prev and next pointers; `Cache` holds the globals and the store. A freed
--   address has no line, and an access to it is the outcome `crashed`, as is a write past the end of
--   the tag or of the object of a line.
-- Proxy.Request: the text of requests in proxy lab/proxylab-handout/proxy.c: the command line,
--   parse_uri, the header lines and the request that is sent on. A write past the end of an array
--   is the result none. Proxy.Handle: handle_request and forward_request, which use Proxy.Request
--   and Proxy.Cache. What the client sends behind the first line and what the server answers are
--   arguments.
-- Proxy.Threads: the threads that proxy lab/proxylab-handout/proxy.c creates, one for each client, on
--   the cache, with the locks read_insert_lock and read_update_lock of cache.c. `advance` is a step
--   of one thread, `Step` a step of some thread; Proxy.Threads.Locks says what is asked of a lock. A
--   lock may refuse a reader while a writer waits, but is not refused while nobody holds it.
-- Malloc: malloc lab/mm.c. Memory is a function from addresses to 32-bit words, and the macros that
--   compute addresses are functions of it; `first` is first_listp. Malloc has the blocks and the
--   free lists, place, coalesce, extend_heap and free, Malloc.Alloc has find_fit, mm_init and
--   malloc, Malloc.Bytes realloc and calloc, which read and write single bytes of the words, and
--   Malloc.Check the heap checker, whose messages are values. Malloc.Row, Malloc.Cycle and
--   Malloc.Heaps say what a well-formed heap is: a row of blocks with equal tags at both ends, and
--   the free ones in cycles through the entries of the table.
-- Bits: data lab/bits.c, one function for each puzzle, on 32-bit words as numbers below 2 ^ 32.
-- Prelude: shared names, and lemmas on lists, powers of two and text.
--
-- The loop of parseline runs on fuel, one more than the length of the line: every round takes a
-- character. The walks of cache.c run on a number of rounds too, since the list may be a circle; as
-- many rounds as lines are enough on a well-formed list. The walks of find_fit and of the heap
-- checker have rounds as well, as many as blocks; for malloc in a well-formed heap the bound is
-- `limit` of its lists, which grows by one with every insertion. list_index shifts a size_t at most
-- 64 times.
-- normalize, the loop of float_i2f, has 31 rounds. The other loops are recursion on a list or on a
-- number of rounds. The waits of the shell end with the list of reports of SIGCHLD that they are
-- given, and say whether the shell still waits.
--
-- Counters and access marks are not bounded: their overflow is undefined in C. getopt, atoi,
-- sscanf, fork, waitpid, open and mem_sbrk are arguments of the functions that use them. Not
-- modelled: the texts of help, summaries and error reports, the installation and masking of signals
-- in the shell, where children are reaped in a wait and at the prompt only, a failing malloc or write, and what the child of fork does after the redirection; the accept loop and the sockets
-- of proxy.c; and the drivers, binaries and libraries that come with the labs.
pub mod Prelude
pub mod Bits
pub mod Csim
pub mod Malloc
pub mod Proxy
pub mod Trans
pub mod Tsh
