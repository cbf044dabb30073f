-- ===== src/Lib.antt =====
-- redis-plus, a key-value server that speaks the redis protocol: a model of its keyspace, its
-- commands, its wire format, its persistence, its replication and its connections, with the theorems
-- that make them correct.
--
-- The parts and how they interact. A connection's bytes arrive in a Buffer
-- (include/rp/buffer.hpp). RespHandler::on_data (src/commands.cpp) takes whole requests from it
-- with parse_request (src/resp.cpp), runs each through CommandTable::dispatch, appends the reply,
-- and hands the canonical form of every write to a hook, which feeds the append-only file
-- (src/aof.cpp) and the replicas. The commands work on the Store (src/store.cpp), whose snapshot
-- goes into an RDB payload (src/rdb.cpp) or a rewritten log, and comes back when the server starts.
--
-- The files:
--   Prelude      shared names; lists, Boolean tests and bytes over the native numbers; Prelude/Int
--                has int64 with its wrap-around as two's complement (signed overflow is undefined
--                in C++; this is what the build's targets compute)
--   Dict         std::unordered_map as an association list; its order of iteration is the list's
--   Decimal      parse_int, to_int64 and std::to_string
--   Resp         parse_request of src/resp.cpp by its branches; Resp/Reply has the encoders of
--                include/rp/resp.hpp and Aof::encode
--   Glob         glob_match; Glob/Fuel is about its rounds
--   Store        include/rp/store.hpp and src/store.cpp; a method takes the store and gives its
--                result and the new store; Store/Expire has sampling, the active cycle and
--                reap_expired; Store/View has what a client can see, and Store/Valid the invariant
--   Stats        include/rp/stats.hpp and src/stats.cpp
--   Buffer       include/rp/buffer.hpp
--   Commands     src/commands.cpp: Set and Keyspace the cmd_ functions, Admin the server's commands,
--                Verb and Dispatch CommandTable::dispatch, Ops the interfaces PersistenceOps and
--                ReplicationOps as records of operations; Propagate what the writes propagate
--   Handler      RespHandler::on_data; Handler/Table has it with the command table;
--                Handler/PingPong is src/handler.cpp
--   Aof          src/aof.cpp; what fopen, fwrite and rename do are arguments; Aof/Replay, Aof/Restore,
--                Aof/Flush and Aof/Durable are about replaying
--   Rdb          src/rdb.cpp: Crc, Write, Reader and Parse for the code, Fields and RoundTrip for
--                reading back what was written
--   Persistence  src/persistence.cpp: saving, the background save, the log and the schedule of cron;
--                Persistence/Load has the start of the server; Persistence/Saves and
--                Persistence/Background follow a background save to the cron behind it
--   Replication  include/rp/replication.hpp and src/replication.cpp: Master the master's operations,
--                Reader, Handshake and Stream the replica's thread, Tasks what it posts to the event
--                loop; Resync and Catchup follow a replica from its handshake to the end of the stream
--   Server       include/rp/server.hpp: Session the connection of src/asio_server.cpp, with the
--                completions of the library as arguments, and Poll the back end of
--                src/poll_server.cpp, with the answers of the socket calls as arguments;
--                Server/Session/Commands is RespHandler::on_data for a session, which is its link and
--                whose buffers it uses; Server/Session/Speech and Server/Session/Pipeline are about
--                what such a session writes, Server/Session/Apart compares it with Handler, and
--                Server/Session/Linked puts in the command table and the hook
--   Program      the options and the hook of src/main.cpp
--   Examples     the theorems at concrete data
--
-- State and time. The store's clock is a field of the store and stands still during a call; between
-- calls it may move forward (Store/Reach). The bucket layout of std::unordered_map, by which the
-- active cycle samples, is a parameter. Operations of persistence and replication that dispatch
-- calls are parameters too. A background save is two steps, its start and the end of its thread.
-- The bytes of the log are in the program's buffer, or with the C library, which keeps them until
-- fflush, fsync_handle or its own choice hands them on, or in the file, which is what replay reads;
-- fflush and fsync, whose answers the code does not look at, are taken to succeed. What the master
-- hands to a client's link stands in an outbox, in order; the model's links do not close while they
-- are sent to. A client is the number of its connection. A session is driven by the events that it
-- meets, each a function on the session, the counters and the handler's state, and a run is a list
-- of them in any order (Server/Session/Wire). strtoll, strtoull and what a socket answers are
-- parameters.
--
-- Fuel. on_data has one round more than the readable bytes, and replay one more than the file's
-- bytes; each request takes at least one byte. rdb_parse has one round more than the bytes between
-- the header and the end mark, and each opcode takes at least one; but a payload with a 64-bit
-- length near 2 ^ 64 moves the code's own position backwards, and the model then gives none.
-- glob_match has a round for every place of the pattern, of the last star's start and of the text,
-- since every round moves on in one of them, and a new star is behind the last. The loop over a
-- replica's stream has one round more than the stream's bytes, and that of the first handler one
-- round more than the readable bytes; each request takes at least one.
--
-- Not modelled: AsioServer and the constructor and stop of PollServer, src/server.cpp, and the
-- construction of the objects in src/main.cpp, which are calls of the socket libraries and wiring; the
-- outer loop of replica_thread with its pauses, and a send that closes a client in the middle of
-- propagate; the constructor and shutdown of src/persistence.cpp; the file operations of
-- rdb_save_file; tests, fuzzers and benchmarks.
mod Prelude
pub mod Dict
pub mod Decimal
pub mod Resp
pub mod Glob
pub mod Store
pub mod Stats
pub mod Buffer
pub mod Commands
pub mod Handler
pub mod Aof
pub mod Rdb
pub mod Persistence
pub mod Replication
pub mod Server
pub mod Program
mod Examples
