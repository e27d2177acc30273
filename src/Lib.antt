-- ===== src/Lib.antt =====
-- The ESPHome native API server for Linux (`esphome-linux`): a daemon that speaks the ESPHome native
-- API over TCP to Home Assistant and hands messages to plugins.
--
-- Parts and files, with paths from the root of the repository:
--
-- - src/esphome_proto.c, src/include/esphome_proto.h: Proto. The `pb_buffer_t` is Proto/Buffer.antt,
--   with the contract of an encoder in Proto/Buffer/Views.antt; the varint routines are
--   Proto/Varint.antt, the field codecs Proto/Field.antt, the request decoders Proto/Message.antt,
--   the response encoders Proto/Response.antt and Proto/Advertisements.antt, and the framing
--   `esphome_frame_message` and `esphome_decode_frame_header` Proto/Frame.antt. A protobuf message as
--   a list of fields, which the codecs are measured against, is Proto/Message/Wire.antt.
-- - src/esphome_plugin.c, src/include/esphome_plugin.h: Plugin. The linked list from `plugins_head`
--   on is a list; a callback is a function of its context and of a world `W`, all that it can change.
-- - src/esphome_api.c, src/include/esphome_api.h: Api. Api/Server.antt is the state (`struct
--   esphome_api_server`, `client_connection_t`) and the calls of the operating system, a record
--   `System` that the definitions take; Api/Receive.antt is `handle_client_data` and the loop of
--   `client_thread_func`; Api/Send.antt is `send_message` and the functions by which plugins send;
--   Api/Handlers.antt is the handlers and `dispatch_message`; Api/Connections.antt is starting,
--   accepting, the end of a client thread, stopping and freeing; Api/Connections/Session.antt is a
--   run of a client thread with this dispatch, for plugins that keep the connection open, which
--   Plugin/Invariant.antt and Api/Handlers/Keeps.antt are about. Api/Connections/Descriptors.antt says
--   which field of the server holds which socket, and Api/Connections/Interleave.antt is the threads
--   as a step relation: accepting, dispatching, leaving, starting and stopping in any order.
--   Api/Receive/Room.antt is about the room that `recv` is given.
-- - plugins/bluetooth_proxy/bluetooth_proxy_plugin.c: Proxy. Proxy/Batch.antt is its batch of
--   advertisements against a queue, Proxy/Run.antt any run of reports and flushes, Proxy/Flush.antt
--   the loop and the clock of the flush thread, Proxy/Subscription.antt its subscription; the scanner
--   is a record `Scanner` that the definitions take.
-- - plugins/bluetooth_proxy/ble_scanner.cpp, ble_scanner.h: Scanner. Scanner.antt is the cache of
--   devices and what an advertisement does to it, Scanner/Loops.antt the loops of the two threads, and
--   Scanner/Control.antt the life of the scanner over a record `Driver` for libblepp and the threads,
--   which fills the record that the plugin takes. Scanner/Reach.antt is the cache under both threads;
--   Scanner/Forward.antt and Scanner/Subscription.antt put scanner and plugin together.
-- - src/main.c: Daemon, over a record `Host` of what it asks of the system. What happens until the
--   signal comes is a parameter.
-- - The parts put together: Service. Service.antt is the plugin that bluetooth_proxy_plugin.c
--   registers, with its state behind the context, and the threads that call it; Service/Life.antt is
--   its life under the plugin manager, the server, the scanner and the flush thread, and
--   Service/Sockets.antt is `main` with it.
-- - nimble/os/os_eventq.c: Nimble. Nimble/Fifo.antt is the event queue against a list, and
--   Nimble/Pool.antt the making and releasing of queues over the pool of their blocks.
--
-- How they interact: the client thread stores what `recv` returns in the receive buffer and cuts it
-- into frames by the frame decoder; each message is dispatched to a handler, which encodes a response
-- and sends it as one frame, or to the plugins, which send through the server again. The proxy
-- collects what the scanner reports and broadcasts it in batches; a client's subscription starts the
-- scanner, whose event thread fills the cache that its report thread forwards. `main` starts the
-- server and the plugins, and ends both.
--
-- Conventions. Functions keep the names of the C functions. A buffer is a list of bytes with the size
-- and position of `pb_buffer_t`; `size_t` has 64 bits, and its sums wrap around (`add_size`). An array
-- of C is shorter than 2 ^ 63 bytes, which is a hypothesis where it matters. An `int` is its bit
-- pattern, so that `minus_one` is 2 ^ 32 - 1. A `char` array is the list of the characters before its
-- NUL, and a null pointer is `none`. A decoder returns what it stores through its out parameters.
-- Arrays on the stack are zeros before they are written (`uninitialised`).
--
-- Fuel. The loops of the three request decoders and of `handle_client_data` run on fuel, and answer
-- `none` when it runs out. A decoder takes one round for each field, and `handle_client_data` one for
-- each byte that is pending, and one more; the results below say so. The varint encoder recurses on
-- its value, the varint decoder on the bytes that are left.
--
-- A thread's loop is a function of the list of its rounds, each with what it reads of the clock and of
-- the flags by which it is stopped, and the list ends where the thread waits.
--
-- Not modelled: the log output and log levels; the mutexes and thread identifiers, since each
-- operation, and each round of a thread, is one step here; memory allocation, but for the contexts of
-- plugins and the structures whose allocation can fail visibly; the signals of src/main.c; the tasks,
-- mutexes and critical sections of nimble/os; libblepp and the block allocator of NimBLE; the build
-- scripts.
pub mod Base
pub mod Proto
pub mod Plugin
pub mod Api
pub mod Proxy
pub mod Scanner
pub mod Daemon
pub mod Nimble
pub mod Service
