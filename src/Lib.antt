-- ===== src/Lib.antt =====
-- A verification library for sounding, a monitor of servers: agents report the state of their
-- machine, the server keeps it in SQLite, probes hosts, and sends alerts.
--
-- Parts and files:
-- * Alert (internal/alert): `Rules` has Rule.silenced, SetRule and DeleteRule, `Manager` the manager
--   and Evaluate, `Watcher` one round of Watch. An alert is a pair of a channel and a message that
--   Evaluate hands to Send; what Send answers changes nothing.
-- * Notify (internal/notify): the message and the channels; `Send` has what each of them sends,
--   `Telegram` the escaping of Markdown.
-- * Contract (internal/api, the types): the records between handlers and store.
-- * Arithmetic (the operations on float64): their results, as terms.
-- * Stats (summarizePing of internal/store/adapters.go, percentile and stats of
--   internal/api/rpc_komari.go).
-- * Store (internal/store): `Db` has the tables and a monad of statements; `Nodes`, `Probes`,
--   `Records`, `Rules` and `Secrets` have the methods of *Store, a statement for each Exec or Query.
--   `Status` has LatestStatus and AlertSnapshots, `Opening` the migration of the schema, `Seeds` the rows that
--   are seeded.
-- * Auth (internal/auth): Issue and Verify.
-- * Api (internal/api, the endpoints): `Agent`, `Admin` and `Login` have the handlers; a handler takes
--   the request, with what it reads of the clock and other packages (Api.Env), to a response and
--   a new state.
-- * Rpc (internal/api, rpc.go and rpc_komari.go): `Dispatch` has the handler and its methods, `Tasks` the
--   summaries of the probe tasks, `Metrics` the series, `Records` the methods on the histories, `Settings` the
--   public settings (public_settings.go), and `Socket` the websocket (ws.go, ws_push.go).
-- * Collector (internal/collect): Collect and GetOSInfo, over the readings of gopsutil.
-- * Probing (internal/probe): Run and the probes by ICMP, TCP, HTTP and DNS; `Address` has the functions
--   of package net on addresses.
-- * Agent (cmd/agent): `Probes` has fetchRemoteProbes, past the request, and parseProbes; `Config` the
--   settings and their reload, `Watching` the reload on signals and ticks; `Report` the reports that the loop sends, one for each tick, and
--   `ReportLaws` what they hold.
-- * Scheduler (internal/probe/scheduler.go): the probes that each tick starts.
-- * Server (cmd/server/main.go): `Rules` has the rules with which the server starts, and the hooks of the
--   administrator, which change the manager and the table; `Routes` the channels, the secrets,
--   /agent/config and /healthz (internal/api/health.go). `Steps` has the running server, whose requests
--   and loops are the steps of a relation on the manager and the database; `Kept`, `AdminKept`
--   and `Invariants` what they keep, and `Ordering` and `Race` the two calls of a hook.
--   `Pages` has the routes, with the order of http.ServeMux, the pages that main answers itself and the files
--   of the dashboard, and the version (internal/version); `PageLaws` where paths lead. `Pipeline` joins the
--   agent and the server: the tasks that are handed out, and reported back.
-- Prelude, Strings, Decimal, Clock and Json have what these share; Samples has data for the tests.
--
-- How the parts interact: the agent reads the server's tasks as text, reports them back, and the store
-- upserts them; the watcher asks the store for snapshots and calls the manager; the administrator's
-- hooks change the manager's rules and then the table of rules, and the server starts with the
-- rules of the table.
--
-- Conventions:
-- * Text is a list of UTF-8 bytes; Go compares strings by bytes. White space is ASCII.
-- * A float64 that is read or stored is an integer number of thousandths. What the statistics compute with it is the
--   term of the operations (Arithmetic.Computed), since each of them rounds; an arithmetic gives its value. The
--   rates of the collector are rounded down. Neither NaN nor infinities are modelled.
-- * Time is nanoseconds; a call that reads the clock takes one instant, which it uses wherever the
--   code calls time.Now or time.Since, but that the store reads it by itself for the window of a query
--   (Rpc.Types.Handler has these instants as read_at). Time zones, and the RFC 3339 texts, are a parameter (Clock.Zone);
--   a day is 24 hours, so AddDate is exact in a zone without changes of its offset.
-- * Base64 and HMAC are a parameter (Auth.Crypto), with the laws of Auth.Laws.CryptoLaws; decoding the
--   body of a request is one too (Api.Decoders).
-- * encoding/json is a parameter (Json.Json), with the round trip of lists of texts as the law
--   that proofs use (Server.Agreement.JsonLaws).
-- * A statement of SQLite acts on the rows as its text says, or fails and changes nothing. Which
--   statements fail is the field `faults` of Store.Db; a theorem "on a database that works" has none
--   that fails.
-- * A Go map that is iterated is a list; a theorem over it holds for any order.
-- * A mutex makes each method of the manager one step; a hook of the administrator is two.
-- * The texts of errors of encoding/json and encoding/base64 are left out or shortened.
-- * The readings of gopsutil (Collector.Readings) and the network (Probing.Network) are parameters, and so is the
--   decoding of the parameters of a method (Rpc.Types.Decoders).
-- * A float64 that the code converts to an int is one that the int holds.
-- No definition needs fuel but Decimal.decimal, whose fuel is the number; each loop goes over a list.
--
-- Not modelled: sockets, HTTP, SMTP, websockets, flags and logging, which are input and output;
-- goroutines and tickers, whose bodies are called once for each tick; time limits of requests, and the
-- type NodeRecord, which no code uses; nor is the scheduler's semaphore, on
-- which a tick waits for a free slot.
pub mod Prelude
pub mod Strings
pub mod Decimal
pub mod Clock
pub mod Json
pub mod Arithmetic
pub mod Contract
pub mod Notify
pub mod Auth
pub mod Alert
pub mod Stats
pub mod Store
pub mod Scheduler
pub mod Agent
pub mod Server
pub mod Api
pub mod Rpc
pub mod Collector
pub mod Probing
pub mod Samples
