-- ===== src/Lib.antt =====
-- The agent runtime of the Xeneon Edge portal: a daemon that collects the coding agents of two
-- managers (Herdr and T3 Code) into one snapshot, publishes it to clients, and acts on their
-- commands.
--
-- Parts, with the file that models each (paths below crates/xeneon-agent-core/src):
--   Base            equality tests, lists, sorting, maps, results and text that all parts share
--   Model           model.rs: cards, snapshot, commands, results and the attention order
--   Protocol        protocol.rs: which commands are accepted
--   Herdr           herdr.rs: Json (values), Wire (answers), Actions (`actions_from_extra`), Client
--                   (`discover`, the ordering calls, `perform`), Observe (`observe_session`)
--   T3code          t3code.rs: Rows (feed and database rows), Classify, Labels, Roster
--                   (`observation_from_rows`), Source (feed, database, liveness), Observe, Url
--   Voice           voice.rs: the controller, the marker file and the cleanup, over a `Host`
--   Desktop         desktop.rs: Selection (`select_desktop_candidate`), Controller (remembered window,
--                   launches, the wait for a window), Processes and Sessions (`activate_herdr`: the
--                   window of a Herdr session in the table of processes)
--   Config          config.rs: defaults, intervals, `validate`, `apply_runtime_output`, `load`
--   Micro           micro.rs: the samples of the device
--   Runtime.State, Runtime.Daemon
--                   runtime.rs: the state behind the lock, the published snapshot, the queue of
--                   invalidations (64 messages, as the channel; a full queue drops a message)
--   Runtime.Services
--                   what the handlers call outside the state, as one record of operations on a
--                   world: the Herdr, T3 Code, desktop and voice clients, the file of the chosen
--                   manager, JSON. `IsHerdr` names what Herdr promises of its ordering setting
--   Runtime.Observation
--                   `apply_agent_observations`: review badges, focus, time in a state
--   Runtime.Order   `process_agent_order_command`: one ordering for all Herdr sessions, or a
--                   compensation
--   Runtime.Backend, Runtime.Voice, Runtime.Collect
--                   `process_backend_command`; the voice handlers; the samples of health, device and
--                   usage, and `acknowledge_review_ready`
--   Runtime.Refresh `refresh_agents`: subscriptions, the loop over sessions, the commit
--   Runtime.Command `process_command`: from a line of a client to a result
--   Runtime.Steps   the handlers as steps of one transition system, in any order; what they keep
--   Tests           runs on concrete inputs
--
-- Correspondence. A handler takes the daemon and the world and returns both; what it awaits happens
-- in between on the world. A handler is one step; a collection, which waits longest, reads the
-- daemon of its start and commits to the daemon of its end. Locks are left out, logging too. A
-- failed call is `none`, `false` or an error value. An `Instant` is a number of nanoseconds, an
-- `f64` the number of its 64 bits, a path or a Uuid its text. A hash map is an association list.
-- Fields named `ok`, `open` and `zoom` are called `succeeded`, `can_open` and `can_zoom`.
--
-- Bounds. The sequence number saturates at the largest 64-bit number, as in the source. All loops
-- but one are structural recursion on the lists and texts that the source goes through. The wait
-- for a launched window runs on fuel: a sleep lasts 100 ms and the deadline is 12 s off, so 121
-- rounds are enough, which is proved. `decimal` gives a number more fuel than it has digits.
--
-- What the adapters take from elsewhere (sockets, files, processes, the database, serde, Uuids, the
-- RFC 3339 parser) are records of operations: `HerdrHost`, `External`, `Machine`, `Host`,
-- `ConfigFiles`, `Compositor`. Promises on them are records named with `Is`.
--
-- Not modelled: the sockets and the framing of lines, heartbeats, the parsers of JSON and TOML, the
-- texts of the SQL queries, the reading of /proc into the table of processes, the event stream of
-- Herdr (its reports are the step `event`), the collectors of usage and health, the two programs,
-- and the user interface. They do input and output, or their results enter the handlers only as
-- values, over which the theorems quantify.
mod Base
pub mod Model
pub mod Protocol
pub mod Herdr
pub mod T3code
pub mod Voice
pub mod Config
pub mod Micro
pub mod Desktop
pub mod Runtime
mod Tests
