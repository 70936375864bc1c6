-- ===== src/Lib.antt =====
-- A model of a message broker and of the in-memory file system that it keeps its boxes in.
--
-- The program. fs/ is TecnicoFS, a file system in memory: fs/state.c keeps the tables of inodes,
-- of data blocks and of open files, with the root directory in one data block, and
-- fs/operations.c builds tfs_init, tfs_open, tfs_close, tfs_read, tfs_write and tfs_unlink on
-- them, each under one mutex. producer-consumer/ is a bounded queue between threads. mbroker/ is
-- the broker: a thread that reads requests from a named pipe and puts them into the queue, and
-- worker threads that take them out and serve publishers and subscribers, each box being a file
-- of the file system. manager/, publisher/ and subscriber/ are the clients; utils/ is the format
-- of the requests, the log and an assertion.
--
-- The files.
-- - Base (Base/Tests, Lists, Ints, Search): Boolean tests, lists and options over the native
--   numbers, the values of int, size_t and ssize_t, and the loop that looks for the first index.
-- - Fs/Memory (Frame, RoundTrip): the bytes of fs_data, with memcpy, strncpy, strcmp, strncmp,
--   and an int as four bytes, the lowest first.
-- - Fs/Exec: the static variables of fs/state.c as the record Fs, its types, and commands. A
--   command takes the state to a value and a new state, or to panic (a failed ALWAYS_ASSERT,
--   which ends the process), fault (an access outside an array) or blocked (a mutex that is held
--   already). The size of fs_data and the address of a block are products of size_t, which wrap; a
--   block that is not inside fs_data is a fault as soon as its address is asked for, and the
--   strcmp of clear_dir_entry is one where it reads on past the end. The sizes of the tables of
--   inodes and of open files are taken not to wrap.
-- - Fs/Blocks, Fs/Inodes, Fs/OpenFiles, Fs/Dir, Fs/Setup: the functions of fs/state.c, by their
--   names; tfs_init, tfs_destroy and tfs_default_params of fs/operations.c. Fs/Dir/Entries, Map,
--   WellFormed, Lookup, Naming, Listing and Blank show a directory to be a map from names to
--   inumbers;
--   Fs/Init is about the root directory that tfs_init makes.
-- - Fs/Ops: the other functions of fs/operations.c, each cut where the code branches. Below it
--   are Handles, Write, WriteNew, Read, ReadBack, Isolation and PastEnd about the operations on a
--   handle, Close about its end, Paths, Create, Truncate and Unlink about those on a path, Append
--   and WriteEnd about both together, Kept, Gives and Mutex about the library mutex.
-- - Fs/Inv: the invariant of the state between the calls of fs/operations.c. Below it are Tables,
--   Nodes and Blocks about the tables of inodes and blocks, Names and Frame about the root
--   directory, Handles about the open file table, Returns, Paths, Write, Read, Unlink, Open and
--   Create about the operations, each of which keeps the invariant, Start about tfs_init, and
--   Session about any sequence of calls.
-- - Fs/View: the abstract view, a map from names to the bytes of their files. Overwrite and Frame
--   are about bytes in memory; Write, Refine, Read, Unlink, Open and Create show the operations to
--   be operations on that map.
-- - Pcq: the queue of producer-consumer/producer-consumer.c. Pcq/Ring is its ring of slots,
--   Pcq/Threads the steps of any number of threads in pcq_enqueue and pcq_dequeue, lock by lock;
--   Pcq/Invariant, Fifo and Deadlock are about every interleaving of them, Pcq/Calls about calls
--   that nothing disturbs.
-- - Os: the system calls of the programs. A program over a state gets the results of its calls in
--   order and adds to the list of the calls that it has made; it ends with a value, by exit, in a
--   call that has not returned, or with an access outside an object.
-- - Task: a task of utils/lib.h as the bytes of its struct, and task_to_string of the three
--   clients. Task/Scan is sscanf and string_to_task; Text, Exits and Request are about what is
--   printed and read.
-- - Broker: the state of mbroker/mbroker.c. Broker/Boxes has box_create_request and
--   box_remove_request, Broker/Listing box_list_boxes, Broker/Messages pub_connect_request and
--   sub_connect_request, Broker/Serve init_server, task_handler, and of main the opening of the
--   pipe and a round of the loop without the queue, Broker/Main initialize_threads and main.
--   Remove, Names, Listing/Response, Serve/Create and Serve/Place are about the table of boxes,
--   Messages/Append and Stale about the files of boxes, Messages/Calls, Messages/Fuel and
--   Serve/Fuel about the loops without end, Serve/Accept about the reads of the main loop,
--   Main/First about main up to the first request.
-- - Publisher, Manager, Subscriber: publisher/pub.c, manager/manager.c and subscriber/sub.c as
--   programs of system calls. Publisher/Login, Manager/Requests and Subscriber/Receive put them
--   together with the broker.
-- - Fs/Tests (Directory, Files, Paths, Session), Pcq/Tests, Task/Tests, Broker/Tests (Requests, Messages),
--   Publisher/Tests, Manager/Tests and Subscriber/Tests run small examples; Broker/Samples has
--   their data.
--
-- How the code is rendered. A pointer into a table is its index; a table is a function of its
-- index, of which the first max_..._count values count. A C string is its bytes without the NUL,
-- and an absent pointer is none. size_t is 64 bits and int is 32 bits, with the wrap written out
-- (add_size, sub_size, mul_size, int_of_size, ssize_of_size). What malloc returns is an argument of
-- state_init and of pcq_create: NULL, or memory with any contents; what the calls that destroy
-- mutexes return is an argument of pcq_destroy. pthread_mutex_lock and pthread_mutex_unlock of a
-- valid mutex return 0. pthread_cond_wait gives up the mutex that is passed to it, and may end at
-- any time, as POSIX allows for it. The elements of the queue are numbers, as the queue never
-- looks at them. A task that a pointer leads to is given by its opcode and its strings;
-- string_to_task and the clients work on the bytes of the struct, in the layout of a 64-bit
-- machine. One function, junk, stands for the contents of memory that is not initialised, and
-- what qsort does to the table is an argument of box_list_boxes. An answer of the system has the
-- result, the bytes that a read puts into the buffer, and whether errno is ENOENT; nothing is
-- asked of it but what a theorem states.
--
-- Fuel. The loops without end of the broker and of the clients run on fuel, and the fuel of a
-- loop that has run out is a call that does not return; each round makes a system call, so that
-- more fuel than calls that return is enough. All other loops count up to a bound, or go through
-- a list, and are recursions on what is left.
--
-- What is not modelled. insert_delay has no effect on the state; the warnings that are printed are
-- left out, as is the log in utils/. Of mbroker/mbroker.c atoi, pthread_create and the results of
-- malloc are parameters of main, and so is what pcq_enqueue does there while the workers run;
-- end_mbroker, which prints, and the memory that is given back before an exit are left out. A
-- pointer that the queue gives to a worker is an address, and what the main loop stores there
-- later is not interleaved with the worker. A request is served without the other workers: what
-- they write into the box of a subscriber between two rounds of its loop is not interleaved. The handlers of signals in publisher/ and subscriber/
-- may run at any time and are left out, so that the loops of these programs have no end. What
-- strcpu, which subscriber/sub.c calls and no file declares, puts into the buffer of the request
-- is a parameter of the subscriber's main.
pub mod Base
pub mod Fs
pub mod Pcq
pub mod Broker
pub mod Publisher
pub mod Manager
pub mod Subscriber
pub mod Os
pub mod Task
