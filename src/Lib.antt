-- ===== src/Lib.antt =====
-- zzFTP: a small FTP server (server/) and a client with a graphical interface (client/).
--
-- The program. server/main.c accepts connections and runs serve_client in a thread for each: it
-- creates the connection record (client_create of server/client.c), reads command lines from the
-- control connection through a read-line buffer (server/io_utils.c), splits each into a verb and
-- an argument (client_run_loop), and hands it to process_command (server/client_cmds.c), which
-- calls one of nineteen handlers. A handler answers with marks and may change the record, resolve
-- paths (server/path_utils.c), call the file system, or start and stop the data thread
-- (server/client_xfer_thr.h), which transfers one file and then cleans up. The client sends
-- commands and reads marks (client/xfer.c) from callbacks of its widgets (client/main.c).
--
-- The files. Prelude: shared names, numbers, lists and bytes; a C string is a list of bytes. Text:
-- the decimal numbers of printf and scanf that the program uses. Io (server/io_utils.c): Io/Rlb is
-- the read-line buffer, Io/Transfer the loops read_all and write_all, Io/Mark the bytes of a
-- reply. Server/Path (server/path_utils.c): path_cat over its buffer, whose every access is
-- checked, and Server/Path/Resolve the specification, a stack of directory names. Server/Client
-- (server/client.h, server/client.c, server/auth.h): the connection record. Server/System: what
-- the system answers during one command (System), the replies and calls that a command makes
-- (Ctl), and the macros of server/client_cmds.c; a handler is a function from System and Ctl to an
-- Outcome, which is a new Ctl, a join that never returns, or a fault. Server/Thread: the end of
-- the data thread, Server/Transfer its loops in active mode and, in Server/Transfer/Passive, in
-- passive mode. Server/Threads: the command thread and the data thread of a session, interleaved a
-- shared access at a time, as a step relation, with the waits for a file (pthread_cond_wait) and for
-- the end of the data thread (pthread_join); Server/Threads/Refines compares it with the sequential
-- account of a join in Server/Thread. Server/Handlers: the handlers. Server/Commands:
-- process_command. Server/Loop: parsing of command lines and whole sessions. Server/Main: main of
-- server/main.c, its options and the loop that accepts connections. Gui (client/):
-- Gui/Address is how the client makes and reads the addresses of data connections (client/main.c),
-- Gui/Marks how it reads replies (client/xfer.c). Gui/State is the state of client/main.c, its
-- static variables and what its widgets show, Gui/Listing what it reads from listings, Gui/Actions
-- and Gui/Events its actions and callbacks, each a function on that state that lists the calls of
-- client/xfer.c, and handle_event, which of them an event calls. Gui/Window is the window over
-- time: a step relation in which a pending call is answered, reports progress, or the user clicks.
-- Gui/FileList is the table of files (client/model_filelist.c), Gui/Transfer the threads that move
-- data (client/xfer.c), Gui/Calls the functions that start them, and Gui/Connect how connections are
-- made and ended, with the descriptors that are open. Misc/Binfc is a tool that compares two files
-- (misc/binfc.c).
--
-- Bounds and fuel. show has fuel n + 1 for a number n, which has no more digits; drain has fuel
-- for all characters that are left, and Io/Rlb/Lines shows that this is enough; grow has fuel for
-- more doublings than a size_t has bits. client_run_loop, read_mark and active_transfer take the
-- number of rounds as an argument: theorems about sessions hold for every number, the others for
-- every number above a bound that they name. Results of read() and write() are lists, one entry
-- for each call. malloc() may fail in path_cat where it is called by itself; the handlers take
-- every allocation to succeed. ssize_t is 64 bits.
--
-- In the sessions of Server/Loop the data thread acts between two commands (Turn) or while a command
-- waits for it (ThreadEnd in Server/System). Server/Threads has the steps of both threads in any
-- order instead; there the user has logged in, pthread_create() succeeds, a block of crit() is one
-- step, and of a command there is what it does to the fields that both threads use. A stream is a
-- number, a reply its code, and what calls give comes with each step: also whether connect() or
-- process_block, where the data thread is in one, returns by then, which process_block need not do.
-- in_join lets the data thread make the given number of steps. In
-- Server/Transfer a block is not over, and has no status, where the results of write() that are
-- given do not bring write_all to its end.
--
-- In Gui/Events threads start and allocations succeed; a call of client/xfer.c that fails at once
-- is one whose callback comes later. qsort(), the dialogs and widgets of libui, open() and the
-- texts of get_size_str() are parameters. An access out of bounds in a listing is `none`.
--
-- Not modelled: main of client/main.c and file_list_table of client/model_filelist.c, which set up
-- libui, a submodule. Freed memory has no value in the model, locks have none but in Server/Threads,
-- and descriptors none but in Gui/Connect. Confinement is about the text of paths: what a symbolic
-- link in the root directory points at is up to the file system. client/res.c is image data.
pub mod Prelude
pub mod Text
pub mod Io
pub mod Server
pub mod Gui
pub mod Misc
