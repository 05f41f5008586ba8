-- ===== src/Lib.antt =====
-- A model of the connector agent of chaop (crates/agent): the program that runs on a host beside a
-- local Codex app-server, keeps that server running, and reports to a control plane over a web
-- socket.
--
-- The parts and how they interact. A configuration (crates/agent/src/config.rs) is read and
-- validated once. The app-server manager (crates/agent/src/app_server_manager.rs) owns the child
-- process of a managed app-server: it starts it, checks its health, restarts it on a schedule or
-- for an upgrade once the turns in progress are over, and gives the rest of the agent a
-- configuration with a URL only while that server is healthy. The connector
-- (crates/agent/src/connector.rs) announces its capabilities, the sessions of the host and the
-- state of the instance, which it takes from the manager's snapshot, and sends each again until it
-- is acknowledged. The session inventory (crates/agent/src/session_inventory.rs) speaks the app-
-- server's protocol. The command line (crates/agent/src/main.rs) checks a configuration before it
-- is deployed.
--
-- The files.
--   Base: names of the libraries, Boolean tests, results, and a state monad; Base/Preserve has the
--     rules by which a relation along a computation, or a property of its outcome, is proved along
--     the structure of a do block.
--   Config, Config/Url: the records of config.rs, their defaults, `validate` and `capabilities`,
--     and the tests of URLs and listen addresses that config.rs and app_server_manager.rs share.
--     The parsers of the http crate and of std::net are the parameter `Urls`.
--   Manager/Types, Host, Process, Ready, Restart, Runtime, Calls: the manager. `AppServerManager`
--     is the struct of the source; `Host` is the operating system, the clock and the health check
--     over the network, where every call leaves another world; a method with `&mut self` is a
--     function in `M host`, with the state of the manager and the world. One call of the source
--     that reads the clock is one `now` of the model. Calls lists the manager's public methods, for
--     runs of them. Manager/Frame shows once that every operation is made of a few moves, so that
--     an invariant is proved by its moves; Generation, Turns, Health, Drain, Backoff, Startup and
--     Exit have the theorems.
--   Deployment: the checks of main.rs.
--   Json, Json/Codec: JSON values, with the keys of an object sorted, as serde_json has them without
--     the feature preserve_order. The crate is the parameter `Serde`; what is relied on is that a
--     value with ascending keys, integers of 64 bits and no deep nesting is read back as it was
--     printed, and the codec shows that this can be had.
--   Connector/Message, Ready, Sessions, Instances: the messages of connector.rs, the send state of
--     each, when it is sent again and what an acknowledgement changes. The socket is a function
--     that takes a text or fails. Connector/Replies: which text acknowledges an event, and which
--     response to an interaction of a turn reaches the turn; the worker of the turn, and what it does to the shared mutex meanwhile, is a
--     parameter.
--     Connector/Dispatch: the events of a command and the order in which they are sent.
--     Connector/Waiting: the wait for the acknowledgement of an event, and what it does with the
--     other messages meanwhile; the socket is the parameter `Surroundings`, over a world.
--   Inventory/Interaction, Inventory/Archive: of session_inventory.rs, the answers to the app-
--     server's interaction requests and the scan of the thread list for an archive request; the
--     socket and the time budget are the parameter `AppServer`.
--   Inventory/RolloutPaths: of session_inventory.rs, which rollouts are read and in which order; the
--     directory is a tree.
--   Inventory/Calendar, Title, Sessions, Rollouts, Report, AppServer: of session_inventory.rs, the
--     report of the host's sessions: time stamps, titles, what the index, the history and the
--     rollouts tell of a session, the app-server's thread list, and how they become one report. The
--     map of drafts is a list with one draft for each id; the files, with their errors, and the
--     derived serde readers are the parameters `CodexHome` and `Readers`.
--   Inventory/RecentLines, Hash, EventText, Backfill: of session_inventory.rs, the last lines of a
--     file, which is read backwards, and the events that are made of them. A file is its bytes.
--   Inventory/Resolver: of session_inventory.rs, the worker threads that resolve host names. Which
--     threads have ended, what the channels answer, and what the other threads do between two
--     sections under the lock are arguments.
--   Executor, Executor/Capped, Executor/Events: of executor.rs, the cap on the output of a Codex
--     command, the summary of its JSON lines and the events of its result.
--   Executor/Process: of executor.rs, the wait for the process, on the rounds that it is given, with
--     the outcomes of the spawn and of the threads that read its pipes.
--   Shutdown: of shutdown.rs, the flag and the installation of the signal handlers on Unix.
--
-- Numbers. Times are nanoseconds. The sums that the source makes with `checked_add` have the bound
-- `instant_max`. The deadlines of the waits (`Instant::now() + timeout`) have no bound here: beyond
-- the range of an `Instant`, so for extreme timeouts only, the source panics. The generation and the report number saturate at 2 ^ 64 - 1, the
-- count of turns at 2 ^ 32 - 1, as the code's do.
--
-- Fuel. `wait_until_ready` loops on as many rounds as fit in the startup timeout, and two more: a
-- round that goes on lasts a tenth of a second, since it sleeps that long or up to the deadline.
-- The wait for a child's exit has the fuel of its timeout over its sleep of 50 ms, and two more.
-- The scan of pages and the attempts to spawn have the source's own bounds. The backwards reading
-- of a file has the fuel of its length, since a round reads a byte at least, and the reaping of
-- workers that of their number, since a round removes one or steps over one. The wait for an
-- acknowledgement has no bound of its own: it is given a number of rounds, and says when it has
-- not ended by then.
--
-- What is not modelled. In app_server_manager.rs the preflight endpoint, which makes directories;
-- in connector.rs the session loop and the choice of how a command runs; in session_inventory.rs
-- the sockets, the turns and the requests that create, ensure and rename a thread; the web
-- application and the worker, which are in another language.
pub mod Base
pub mod Config
pub mod Manager
pub mod Deployment
pub mod Json
pub mod Connector
pub mod Inventory
pub mod Executor
pub mod Shutdown
