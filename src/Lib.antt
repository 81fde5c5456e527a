-- ===== src/Lib.antt =====
-- NOVA DB: a model of the database's formats, its log, its indexes and its queries.
--
-- The parts, bottom up, with the paths of the code from the repository's root:
--
-- Base     Shared helpers: lists, bytes (big-endian numbers, read_exact), text (UTF-8, trim), maps as
--          association lists, and i64 arithmetic with its overflow.
-- Core     crates/nova-core/src. Core/Error is error.rs: codes and the data that messages carry; a
--          Result is ok or err. Core/DocumentId and Core/Document are document.rs. Core/Value is
--          value.rs: Value, its equality (value_eq for `eq`), order (value_cmp for `cmp`), conversions
--          and get_path. Core/Value/Hash is what it feeds a hasher (hash_value for `hash`), and
--          Core/Value/Json is its conversion to serde_json's values and back. Core/Event is event.rs.
--          Core/Outcome is what code may end in that can also panic.
-- Wire     The crates byteorder, crc32fast and bytes, as one parameter, with what they document.
-- Protocol crates/nova-protocol/src. Protocol/Frame is frame.rs: NvpFrame::encode and
--          decode_from_slice; Protocol/Payload is its RequestPayload and ResponsePayload.
--          Protocol/Codec is codec.rs: the decoder and encoder over a buffer, which the server and the
--          client run on their sockets.
-- Storage  crates/nova-storage/src. Storage/Format is format.rs: NbfRecord::encode and decode.
--          Storage/Wal is wal.rs: open (open_wal), append, flush and rotate_segment over the state
--          WriteAheadLog. Storage/Recovery is recovery.rs: recover, recover_segment and
--          apply_record_to_state, which rebuild the collections from the segments that append wrote.
--          Storage/Snapshot is snapshot.rs: create, list and restore on a directory of files, with the
--          names of collections in Storage/Snapshot/Names.
-- Index    crates/nova-index/src. Index is traits.rs, Index/Entries is hash.rs and ordered.rs,
--          Index/Manager is manager.rs: on_insert, on_update and on_remove keep the indexes of a
--          collection in step with its documents. Index/Kept has the writes that a manager is told of as
--          a relation (IsKept) between a collection and an index on it; Index/Held follows the index that
--          a manager finds for a field.
-- Query    crates/nova-query/src. Query/Ast is ast.rs, Query/Evaluator is evaluator.rs (eval,
--          matches_filter, apply_assignments), Query/Planner is planner.rs: plan chooses between an
--          index lookup, a range scan and a full scan. Query/Token and Query/Lexer are lexer.rs:
--          tokenize, one round of whose loop is lex_step, with the loops over characters in
--          Query/Lexer/Scan. Query/Parser is parser.rs, whose cursor is the current token and the
--          tokens ahead: Query/Parser/Literals has parse_value_literal, Query/Parser/Expressions has
--          parse_expr and the levels of precedence below it, Query/Parser/Statements has
--          parse_statement, and parse_nql of lib.rs. Query/Kinds compares tokens.
-- Server   crates/nova-server/src. Server/Metrics is metrics.rs. Server/Engine is engine.rs: the state
--          DatabaseEngine over the collections, the indexes, the log, the events that were sent and
--          the counters, and open (open_engine). Server/Engine/Inserts has execute_insert,
--          Server/Engine/Writes has execute_update, Server/Engine/Removes has execute_remove,
--          Server/Engine/Reads has execute_find, execute_count and execute_exists,
--          Server/Engine/Indexes has execute_create_index and execute_drop_index, and
--          Server/Engine/Execute has execute, which counts a statement and runs it. The engine writes
--          each change with Storage/Wal's append, and opens on what Storage/Recovery reads back.
--          Server/Connection is connection.rs: the state ConnectionHandler and handle_frame, which runs
--          the statements of requests on the engine. Server/Connection/Run is its run, on what the
--          socket delivers; Server/Connection/Stream is the task that start_watch spawns, on the
--          events that the broadcast channel hands it.
--          Server/Engine/Tracking, Tracked and Maintained follow an index through the loops of the
--          statements, and Server/Engine/IndexRuns through any run of them (IsRun). Server/Status is
--          config.rs and get_system_status. Server/Web is web.rs: execute_query_api and its JSON, with the
--          text of a request in Server/Web/Request, seed_sample_data in Server/Web/Seed, the events in
--          Server/Web/Events, and handle_http_connection in Server/Web/Http.
-- Client   crates/nova-client/src/client.rs. Client is NovaClient: send_request and register_watch up to
--          where they wait, and the task of connect_internal that reads frames (receive).
--          Client/Collection is collection.rs: the texts that CollectionHandle sends and what it makes of
--          the answers. Client/Asked and Client/Found follow find_by_id through the lexer, the parser, the
--          planner and the engine.
-- Cli      crates/nova-cli/src/main.rs: the commands backup, compact, doctor and inspect, on the segments
--          and snapshots of a data directory (DataDir). Cli/Backup follows a backup from an engine to
--          what restore reads.
-- Tests    Concrete runs, with the theorems at concrete inputs.
--
-- Numbers are natural numbers; a field of w bytes is written modulo 256 ^ w, and a record or a frame
-- in range (IsRecord, IsFrame) has fields that fit. An i64 is an integer with its bounds checked where
-- the code checks or wraps. A u64 that is counted up wraps, as in a release build. f64 and its
-- operations are a parameter (Float), and so are serde_json's writer and readers (Json, PayloadJson,
-- ClientJson, SnapshotJson), serde_json's numbers and UUIDs (JsonCrates), Unicode's classes of letters
-- (Chars), the clock, and what the log's buffered writer has spilt (Environment). A hash index finds a
-- key that equals the one it looks for and hashes alike; values that feed the hasher different bytes
-- are taken to hash differently. The engine's maps are hash maps: their order is that of the
-- association list, whichever it is. Bytes are numbers, and a text is the list of its characters' code
-- points.
--
-- Storage/Recovery reads records in a loop with fuel, the length of the file plus one. Every record that
-- is read takes bytes off the reader, so the loop ends before the fuel does, on any file.
-- Query/Lexer has the number of characters plus one as fuel; every round takes a character at least.
-- Query/Parser has the number of tokens as fuel; between two calls of one method a token is taken.
-- Server/Status prints a number in as many rounds as the number and one more (decimal-digits).
-- All other loops are structural recursion.
--
-- Not modelled: failures of the file system and the names of the segment files; statements that
-- interleave, as each runs to its end under the engine's locks except for the test of a new id, which
-- execute_insert makes before it logs; how the tasks of a connection interleave, and receivers that lag
-- behind; the server's listeners and their sockets; the command line's shell, demo and printing.
pub mod Base
pub mod Core
pub mod Wire
pub mod Protocol
pub mod Storage
pub mod Index
pub mod Query
pub mod Server
pub mod Client
pub mod Cli
mod Tests
