-- ===== src/Lib.antt =====
-- flora: a service that passes posts, remote calls and their answers between the clients that are
-- connected to it.
--
-- The parts. A client and the service talk in frames. A frame is a message of the Caps library, and
-- src/ser-helper.cc puts every message together and takes it apart. On the service's side
-- `SocketAdapter` (src/sock-adap.cc) buffers what a socket delivers and cuts it into frames;
-- `SocketPoll::do_read` (src/sock-poll.cc) hands each to `Dispatcher::put` (src/disp.cc). The
-- dispatcher queues the parsed message with its adapter, and one thread handles the queue: clients
-- register under a name, subscribe to names, post, declare methods, call the methods of a named
-- client and answer. Monitors receive the list of clients. On the other side `Client` (src/cli.cc)
-- sends the requests, and its thread reads the answers, matches them with the calls that wait and
-- runs the callbacks. `Agent` (src/flora-agent.cc) keeps a client connected and its handlers known.
--
-- The files.
--   Base: tests, lists, integers and association lists that the others share.
--   Caps: the operations of the Caps library as a record, `CapsApi`, and what the code relies on as
--     another, `CapsLaws`. The library is not part of the repository, so the whole development is
--     over these two. An object holds values; a write appends one, a read takes the first. What
--     `serialize` wrote, `parse` reads back, and the first eight bytes tell the length.
--   Protocol: the constants of src/defs.h and include/flora-cli.h.
--   Message: src/ser-helper.cc. MonitorParser has the parsers of the lists for monitors. A serializer
--     returns `none` for -1. A parser returns `none` for -1, with the object as the reads have left
--     it; an out parameter is a field of the result.
--   Adapter: `SocketAdapter` and the read loop. `bytes` is the buffer up to `cur_size`; positions are
--     32-bit numbers, and their subtraction and addition wrap around.
--   Dispatcher: src/disp.cc. State is the dispatcher's members and the adapters, which are named by
--     their addresses; Subscription, Client, Call and Handle are the handlers, the queue and the
--     loop. A handler returns its Boolean result with the new state. `none` is undefined behaviour:
--     a pointer that dangles is followed, or the table of handlers is read out of bounds.
--   Poll: Socket is `SocketPoll` (src/sock-poll.cc) with its run thread, which stands at a `Thread` and
--     goes on one step at a time, each number that the loop looks at being one; the outcomes of `select`,
--     `accept` and reading are its input. `Serving.Reached` is the states that it reaches. Keepalive is
--     the list of active connections of src/beep-sock-poll.h, which closes the silent ones;
--     `Activity.Reached` is the states of the list. Instance is src/poll.cc and the options.
--   Client: src/cli.cc, and the reply object of src/cli.h. Requests are those that wait for no answer,
--     with the outcome of the connection's `send` as an argument; State, Handlers, Receive and Calls
--     are the session, the handlers of what the service sends, the receive thread with the closing,
--     and `connect`, `auth` and `call`; Reply is `ReplyImpl`, and Tags is `TagHelper` of
--     src/ser-helper.h. `Histories.Reached` is the states that a client reaches. Service leads the
--     requests through the service's queue to its handlers.
--   Agent: src/flora-agent.cc over a client, `ClientOps`, of which `ClientLaws` says what the service
--     makes of its requests. State is the members and the user's operations, Options the
--     configuration, Run the run thread, which stands at a `Phase` and goes on one step at a time.
--     Clients is the client above as the agent's, with the outcomes of its sends; Served has the
--     dispatcher's `handle_cmd` handle the requests that it sent and that name something, in their
--     order (posts and calls are left out, and other clients change nothing in between), and Mirrored
--     puts the three together.
--   Tests: a concrete message library that has the laws, and the theorems at concrete inputs.
--
-- The environment. `os` gives the outcome of each call of `::write`; a write is taken whole, fails or
-- runs into the send timeout. Times are milliseconds and arguments. Each operation that the code
-- guards by a mutex is one step, and so is a round of the dispatcher's loop, in which the adapters
-- change by its own writes alone. A thread that is blocked is a state with a step that takes it on,
-- and other steps come between.
-- `Client::close` is two steps, shutting the connection and failing the calls. A blocked
-- caller that has the mutex again has timed out, and returns, or goes through the loop once more.
--
-- Fuel. The read loop of `do_read` has one round for each frame in the buffer. A frame has at least
-- eight bytes, so two rounds more than the buffer has bytes are enough, as is proved. The client's
-- `handle_received` has one for each byte for the same reason, and its receive loop one for each
-- outcome of `recv`, which are a list. The loop over a list for monitors has one round for each item,
-- and is proved to end for any larger fuel.
--
-- Not modelled: log lines, with the names that they read; the calls that make the poll's listening
-- socket, but for their outcome; the thread of the client that pings, but for the ping; the C
-- interfaces and the bindings, which forward; the printing of tags; spurious wake-ups; the overflow of
-- the dispatcher's count of calls, and of the client's, after 2 ^ 31 calls; the agent's maps while
-- another thread changes them during `init_cli`; two threads in `stop` of a poll at once; a `::write`
-- that takes a part of a frame, which the code counts as a success; the vector's `reserve` in the
-- parser of the list for monitors.
pub mod Base
pub mod Caps
pub mod Protocol
pub mod Message
pub mod Adapter
pub mod Dispatcher
pub mod Poll
pub mod Client
pub mod Agent
pub mod Tests
