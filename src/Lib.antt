-- ===== src/Lib.antt =====
-- Verification of the matchmaking API of this repository, services/api, written in Python with
-- FastAPI, PostgreSQL, Redis and NATS.
--
-- Parts of the program, and the files that model them:
-- - db/migrations/init.sql and services/api/models/schemas.py: `Schema` has a record for the rows of
--   each table; `Tables` and `MatchTables` have a function for each SQL statement that a handler
--   sends, with the rows of a table as a list in insertion order.
-- - services/api/routes/party.py: `Party` (types, rows and tests), `Party/Membership` (create_party,
--   get_party, join_party, leave_party), `Party/Response` (PartyResponse, as it is made of a cached
--   object) and `Party/Queueing` (toggle_ready, enter_queue, leave_queue). The statements of an
--   endpoint are a definition of their own (`join_rows`, `leave_rows`, `enqueue_rows`, ...), which
--   the endpoint calls between its other effects.
-- - services/api/routes/session.py: `Session` (get_session, session_heartbeat,
--   submit_match_result).
-- - services/api/consumers/match_consumer.py: `MatchConsumer` (handle_match_found).
-- - services/api/utils/session_manager.py: `SessionManager` (allocator, tokens, lifecycle).
-- - services/api/utils/mmr_calculator.py: `MmrCalculator`.
-- - services/api/utils/redis_cache.py: `Cache`; heartbeat_tracker.py: `HeartbeatTracker`.
-- - services/api/routes/websocket.py: `Sockets` (ConnectionManager and its broadcasts) and
--   `PartySocket` (party_websocket, from the handshake to the end of the connection).
-- - services/api/utils/auth.py: `Auth` (tokens and password hashes); routes/auth.py and
--   utils/dependencies.py: `Accounts` (register, login, refresh_token, get_current_user,
--   get_optional_user); `Accounts/Usernames` has the constraints on a user name.
-- - services/api/routes/profile.py: `Profile`; routes/leaderboard.py: `Leaderboard`, over the
--   ORDER BY, LIMIT and OFFSET of `OrderBy`.
-- - services/api/config.py, main.py and utils/nats_client.py: `Startup`, how the process starts and
--   with what.
-- - services/api/middleware/rate_limit.py: `RateLimit`, with a Redis server whose keys run out.
-- - services/api/utils/nats_events.py: `Events`.
--
-- How they interact: a handler is an action on a `World` (`Api`), which holds the database, the
-- Redis server, the connections and what was sent to them, the published events, the server
-- allocator, the session secret and the clock. An action returns a result or raises, and the world
-- comes back either way. A statement outside a transaction is committed at once; a raise inside a
-- transaction gives the database back as it was, and nothing else. Every command to PostgreSQL,
-- Redis or NATS takes entries of a list of faults: it may fail before it is executed, and one that
-- writes to PostgreSQL (COMMIT among them) or to Redis may also be executed and lose its reply, which
-- raises with the change made. A theorem for all worlds is one for all such failures. `Api/Triple`,
-- `Api/Quiet` and `Api/Steady` have the rules by which a proof walks along the statements of a handler,
-- `Api/Effect` what it says of the tables in the end; `System` puts the handlers together.
--
-- Parameters, for what is not in this repository: `RedisServer` (the client package, with the
-- documented effect of each command; `Redis/Memory` is an instance), `Floats` (Python's floating
-- point, without laws), `hmac` and `id_text` (HMAC-SHA256, whose hex
-- digests are in ASCII, and `str` of a UUID), `calendar` (year and
-- month of a time), `jsonb_as_object` (whether the driver decodes JSONB columns, which asyncpg does
-- only with a codec), `Jwt` (PyJWT: a token is decoded under its key until it expires), `Passwords`
-- (passlib: a password verifies against its hash), `OrderBy` (PostgreSQL: rows in the order of their
-- keys, ties in any order; `OrderBy/Insertion` is an instance), `CounterServer` (Redis keys with the
-- time they have left) and the texts of a UniqueViolationError.
--
-- Bounds and fuel: a UUID is a number that is only compared; times are seconds. `print_from`, the
-- digits of a number, runs on one unit of fuel for each digit, and n + 1 are more than n has.
-- Everything else recurses on lists. Ratings are signed integers without a bound, as in Python; the
-- bounds of the INT columns are not modelled.
--
-- Interleaving: in `System` the handlers run one after another. `Party/Interleaving` has the
-- transactions of join_party and create_party while several are at work, with the advisory lock, the
-- lock of FOR UPDATE and READ COMMITTED; `lock` changes no table elsewhere. A broadcast runs to its
-- end before another task touches the connections.
--
-- Not modelled: the other handlers while they interleave; requests that FastAPI refuses before a
-- handler runs, but for the bounds of CreatePartyRequest and of a user name; the pool of database
-- connections and the tables of routes; services/common, which the API does not import; log lines;
-- exceptions of PyJWT while it encodes a token.
-- Columns that no statement names are left out. party_websocket and the rate limiter are not among
-- the steps of `System`.
pub mod Prelude
pub mod Schema
pub mod Text
pub mod Tables
pub mod Redis
pub mod Sockets
pub mod SessionManager
pub mod Api
pub mod Cache
pub mod Events
pub mod MatchTables
pub mod MmrCalculator
pub mod Party
pub mod MatchConsumer
pub mod HeartbeatTracker
pub mod Session
pub mod System
pub mod Auth
pub mod Accounts
pub mod OrderBy
pub mod Leaderboard
pub mod RateLimit
pub mod PartySocket
pub mod Profile
pub mod Startup
pub mod Tests
