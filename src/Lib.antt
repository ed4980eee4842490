-- ===== src/Lib.antt =====
-- Vectro: the parts of a server and client library over asio. Bytes of a connection pass through a
-- framer, which cuts them into messages; a session owns one connection with its timers and its two
-- ways to write; a registry holds the sessions; plugins are found by key; a server keeps a loop
-- that accepts connections for each of its ports; a controller registers the sessions and
-- dispatches messages to channels, each a queue over a pool of workers; a logger has a worker of
-- its own.
--
-- Files and what they model, with paths from the root of the repository:
--   Common        the names, tests on numbers, and lemmas on lists and sums that the others share
--   HashMap       absl::node_hash_map as an interface of operations and laws; HashMap/Assoc meets it
--                 with lists of pairs, and HashMap/Order compares orders of iteration
--   Plugin        src/vectro/plugin/plugin_bundle.h and .cc: `set` is Set, `merge_from` MergeFrom,
--                 and so on
--   Frame/RawBuffer   src/vectro/frame/raw_buffer.h and .cc: `make` is Make, `reset` Reset,
--                 `move_from` MoveFrom, over a store of objects
--   Frame/LineFramer  src/vectro/frame/simple_line_framer.h: `prepare_read` is PrepareRead, `on_data`
--                 OnData with its loop `scan`; `read_chunk` is the protocol that
--                 src/vectro/frame/framer_base.h documents for the caller
--   Frame/InternalMessage  src/vectro/frame/internal_message.h and .cc, over the same store of objects
--   Stream/WriteQueue src/vectro/stream/write_queue_sg.h: `async_send` is AsyncSend, `do_write`
--                 DoWrite, `on_written` its completion handler
--   Session       src/vectro/session.h: `start`, `close`, `shutdown`, `write_next` and the handlers
--                 of the reads, the writes and the two timers; it contains a write queue;
--                 Session/Framed reads through the line framer
--   SessionManager    src/vectro/session_manager.h; SessionManager/Sessions puts it over the sessions of
--                 Session, and SessionManager/Order is about the order of iteration
--   Pool          src/vectro/pool/task_multi_processor.h: `move` in Pool/System is one step of a
--                 thread in SubmitImpl, ProcessLoop or HandleDrops, and UpdateConfig and
--                 GetDroppedCount are actions, like RegisterCallback and SetThreadAffinity;
--                 Pool/Futures has Submit, SubmitWithTimeout and SubmitWithResult, whose promise it
--                 computes from the calls of the wrapper that a run makes, Pool/Teardown
--                 the destructor, of which `proceed` is one step; Pool/Affinity has the binding of
--                 the threads in the constructor
--   Log           src/vectro/log/log_adapter.h: `enqueue` is a step of a thread in Enqueue, `process` one
--                 of the worker in ProcessLoop, Dispatch and HandleDrops; Log/Teardown has the
--                 destructor, of which `proceed` is one step
--   Tcp/Client    src/vectro/tcp/tcp_client.h: `connect`, `send_request`, `close` and the handlers of
--                 the resolver, the connection, the handshake, the reads and the timers;
--                 Tcp/Client/Construction has the constructor
--   Tcp/Acceptor  src/vectro/tcp/tcp_acceptor_loop.h: `do_accept` is DoAccept, `on_accept` and
--                 `on_timer` its two handlers, `create_session` CreateSession with
--                 OnSessionAccepted
--   Tcp/Server    src/vectro/tcp/tcp_server.h, over the loops of Tcp/Acceptor
--   Channel       src/vectro/channel.h: `shut` is ShutdownGraceful and ShutdownForce, `destroy` the
--                 destructor; Channel/Manager is the ChannelManager
--   Controller    src/vectro/controller.h, over Channel/Manager and SessionManager
--   Tls           src/vectro/tls/reloadable_tls_context_provider.cc, and in Tls/ServerContext its calls
--                 of the TLS library; Tls/ClientContext has the providers of a client; Tls/Ssl is
--                 the interface of asio::ssl::context
-- Child modules hold the theorems and are named for what they prove; Tests hold runs and examples.
--
-- State is passed explicitly. A handler of a strand is one step; the pool interleaves its threads
-- at each atomic access and each critical section, except that the raising of the high-water mark
-- belongs to the push, the reads of the queue sizes by a thief are one step, and so are the two
-- last accesses of a worker, and the calls of a task's callbacks, those under the lock and its
-- own. `SendRequest` of the client is one step, though its accesses to the counters and to the map are
-- separate ones. A handler that was due when its timer was set again or cancelled still runs, in the
-- session and the acceptor; the client drops it. Runs are lists of actions, so no run needs fuel. The loop of OnData recurses on the number
-- of its rounds, which is `write_pos_`. A `size_t` that the code may wrap is taken modulo `2 ^
-- 64`; sizes of lists that memory bounds are plain numbers.
--
-- Parameters: the hash map and its iteration order, what fresh memory holds, the addresses that
-- allocators return, what a moved-from callback holds, the plugin that a cast yields, the answers
-- of the interceptor and the framer of a session or a client, the results of the operating system,
-- of the TLS library and of the hooks, what the controller reads and calls that no file declares,
-- the times and the schedule.
--
-- Not modelled: sleeps and jitter, the plugins of the client, the text of log lines, the failure
-- of `operator new` in the framer, data races on fields that are not atomic, and the reload timer
-- of the TLS context, which depends on a function that was not initialised.
pub mod Common
pub mod HashMap
pub mod Plugin
pub mod Channel
pub mod Controller
pub mod Frame
pub mod Stream
pub mod Pool
pub mod Session
pub mod SessionManager
pub mod Log
pub mod Tcp
pub mod Tls
