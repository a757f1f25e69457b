-- ===== src/Lib.antt =====
-- FreeCLI: a terminal client for language models, in C, of two processes. The terminal UI keeps the
-- chat sessions and draws them; the backend talks to the providers and runs worker threads, of
-- which the file worker reads and changes files in a sandbox. The two exchange framed messages on
-- one socket, and a worker that wants to change a file waits until the user has approved that.
--
-- The files and the code they are about:
-- - Base: names that the libraries provide, Boolean tests, lists over native numbers, C integers as
--   ℤ, and C strings as the bytes before the terminator.
-- - Ipc: the channel. Ipc.Wire has buffers and their integers; Ipc.Payload the eight encoders and
--   decoders of src/core/ipc.c, one function each under the name it has there; Ipc.Frame ipc_send
--   and ipc_recv of the same file and net_send_all and net_recv_all of src/core/net.h, over an
--   arbitrary kernel (the record Kernel) that cuts the bytes as it likes. A decoder's read pointer
--   is the list of the bytes from it on, and a read behind the buffer's end is the outcome `fault`.
--   What ipc_recv sees of the stream is all that the peer will have sent, on a socket that blocks,
--   and what has arrived, on the socket of the UI, which does not.
-- - Utf8: src/core/utf8.c. Offsets count from the text's start; a read behind the terminator is
--   `overrun`.
-- - Chat: the message buffer of src/core/chat.c. Session: src/ui/session.c, whose array of 32
--   slots, count, active index and next id are the fields of SessionManager. Input: src/ui/input.c; what
--   isprint answers beyond 255, where C does not define it, is a field of Keys.
-- - Worker: src/core/backend_worker.c. The reply helpers give the messages that they send, in
--   order; Worker.Approval has the table of pending approvals, with the steps of other threads as a
--   list of events in the order in which they hold the mutex.
-- - Fs: src/workers/fs_worker.c. The file system and cJSON are the records FileOs and CJson; an
--   operation gives the file system that it leaves and what it sends. While a worker waits for an
--   answer the file system may become any other, and the content to write, whose memory is freed
--   by then, any text (`freed` of an Answer).
-- - Overlay: the key loop of src/ui/overlay.c. Providers: src/providers/registry.c and the model
--   lists. Commands: src/ui/commands.c; the callbacks of its context are effects, listed in the
--   order of their calls.
-- - Persist: src/ui/persist.c, over a file system of paths and contents and an arbitrary CJson.
-- - Tui: src/ui/main.c. The static variables are the record Ui; a step gives the new state and what
--   goes out, in order (Turn). Tui.Keys has the start, the loop with its keys, and the end;
--   Tui.Receive check_ipc, with Tui.Rename for the topic of a session; Tui.Submit the sending of a
--   request; Tui.Command submit_message with the callbacks of the commands; Tui.Delete
--   do_delete_session; Tui.Choices detect_choices; Tui.Requests the table of requests in flight.
--   Tui.Valid has the invariant of the state; Tui.Finish the blocks of memory that the end of main
--   frees and then reads.
-- - Backend: the handling of a chat request in src/backend/backend.c, function for function; the
--   providers' init and send are the record Providers, with a state of the world that they change.
--   Backend.Loop has what the loop of main does with a message.
-- - Tests: concrete runs.
--
-- How the parts meet: a message of Worker has a payload of Ipc.Payload and goes out by Ipc.Frame;
-- the operations of Fs send by the reply helpers of Worker; a Session holds a ChatBuffer of Chat.
-- The Ui holds a SessionManager of Session and an InputLine of Input; it runs the effects of
-- Commands, and its messages go to Backend.Loop and come from Backend and Worker. What Persist
-- wrote and read is its output and its start.
--
-- Bounds and fuel: net_send_all and net_recv_all get as much fuel as there are bytes to move, which
-- is enough as each call that does not fail moves at least one; wrap_line_end one more than the
-- bytes of the text, as each turn takes a byte, and detect_choices as much as the bytes of the
-- text. The agent loop has the five rounds of MAX_TOOL_ITERS. count_rows takes its fuel as an
-- argument, since it does not end on every text. Lengths on the wire wrap at 2^32 as in the code.
-- The ids of sessions are ints in the code and natural numbers here; the two agree below 2^31.
--
-- Not modelled: drawing (ncurses), the HTTP providers, the vendored cJSON, the start of the
-- backend's process and the set-up of the socket, failing allocations, and the Windows branches.
-- Integers on the wire are little-endian, the order of the host.
pub mod Base
pub mod Ipc
pub mod Utf8
pub mod Chat
pub mod Session
pub mod Input
pub mod Worker
pub mod Fs
pub mod Overlay
pub mod Persist
pub mod Providers
pub mod Commands
pub mod Tui
pub mod Backend
pub mod Tests
