-- ===== src/Lib.antt =====
-- A model of the server of vps-monitor-webui: a web interface that watches one machine, behind a
-- login. The parts of the program and the files that model them:
--
-- - Error and Error/Response: src/error.rs, the errors of the handlers and their responses.
-- - Config and Config/Bind: src/config.rs, the configuration, its defaults, and `is_safe_bind`, which
--   keeps the server off public addresses.
-- - Db, Db/Users, Db/Sessions and Db/Audit: src/db and migrations/001_init.sql. A table is a list of
--   rows; a statement is a function on the tables that fails with nothing written or does what its
--   SQL says. `Env` answers what the machine is asked for, the n-th request by its n-th answer: the
--   time, random bytes, and whether a connection or a statement fails. So one run is determined, and
--   a theorem over all `Env` speaks of every failure and every clock, also one that runs backwards.
--   Db/Stable says what a property of the tables needs to survive every operation; Db/History has the
--   statements of the program as a relation on the tables, in any order; Db/Sessions/Store is the map
--   that the table of sessions stands for.
-- - Auth/Password, Auth/Session and Auth/Middleware: src/auth. argon2 and hex are the record
--   `Crypto`; what their documentation says of them is `CryptoLaws`. The extractor
--   `from_request_parts` is what a handler with an `AuthUser` runs first.
-- - Handlers/Auth: src/handlers/auth.rs. `login` is the whole handler; `authenticate` is the closure
--   that runs on the blocking pool, cut at its returns into `unknown_user`, `check_lock`,
--   `wrong_password` and `open_session`. What is written before an error stays written.
-- - State: src/state.rs, `AppState::new` and one tick of each of the two purges. State/Service puts
--   requests, ticks, the tasks that write to the audit log and the commands of other processes one after
--   another.
-- - Cli and Cli/Serve: src/main.rs, the commands, and the start of the server; what the two prompts
--   return is an argument, and so is axum's loop.
-- - Handlers/Audit and Handlers/Listings: src/handlers/audit.rs, metrics.rs, processes.rs, services.rs,
--   pm2.rs and docker.rs, each handler with its extractor. Machine is one reading of the host.
-- - Handlers/Logs: src/handlers/logs.rs, the handlers that open a stream; Handlers/Logs/Tail and
--   Handlers/Logs/Streams are the loops `tail_file`, `stream_docker` and `stream_journal`, each over the
--   list of what wakes it, a branch of `select!` for each. tokio's child process is the record `Tokio`,
--   with `TokioLaws`.
-- - Handlers/Router and Handlers/StaticFiles: src/handlers/mod.rs and static_files.rs, the table of
--   routes, the handler that a path and a method go to, and the fallback to the files of the browser.
--   axum's router is the record `Axum`, what it documents of a nested table is `AxumLaws`
--   (Handlers/Router/Laws), and Handlers/Router/Matcher is one that meets it.
-- - Collectors/Docker, Collectors/Systemd, Collectors/Pm2 and Collectors/System: src/collectors, over
--   what the daemon, the commands and sysinfo answer. Collectors/System/Collector is `SystemCollector`
--   with its state, over the types and methods of sysinfo.
-- - Regex: the patterns of src/collectors/systemd.rs, as a relation and a matcher.
--
-- Exec is the shape of code that changes a state and may fail by `?`: a function from the state to a
-- result and the state after it. Exec/Keeps, Exec/Inversion and Exec/Atomic hold the rules by which
-- proofs follow such code. Prelude has the shared names, 64-bit integers among them, which wrap around
-- as in a release build (Prelude/Int), and a stable sort (Prelude/Sort, Prelude/Top). The Tests files run the
-- definitions on small inputs, on the machine of Example.
--
-- The only fuel is that of `show_u64`, twenty digits, as many as a u64 can have. Integers of the
-- tables are 64 bits wide; a theorem that needs room below a bound says so.
--
-- Not modelled: rejections by axum's own extractors (a body, a query, an upgrade that it does not
-- accept), the layers of compression and tracing, the pace of the tasks and of the streams, the text that
-- is printed or logged, the parsing of arguments by clap, the browser's files (static) and the
-- installation (scripts). Of the network, of tokio's scheduling and of SQLite's files nothing is said.
-- Statements of several requests may interleave: Db/History has every order of them, Db/Users/Race the
-- case of failed logins. The messages of a log stream are bytes; the text that is made of them is not
-- modelled.
pub mod Prelude
pub mod Example
pub mod Result
pub mod Exec
pub mod Error
pub mod Db
pub mod Config
pub mod Auth
pub mod Handlers
pub mod Regex
pub mod Collectors
pub mod Machine
pub mod State
pub mod Cli
mod Tests
