-- ===== src/Lib.antt =====
-- The PushSDK gateway: a server that face recognition terminals log into and report events to, and
-- that delivers the events to receivers. Paths are from the repository's root.
--
-- The parts and the files that model them:
--
--   Prelude, Result, Encoding   lists over native numbers, texts as code points, tables, a result type,
--                               hexadecimal and base64, as the standard library gives them to the code
--   Config                      internal/config/config.go: Validate, the lookups, the fingerprints
--   Crypto, PushSdk/Envelope    internal/pushsdk/crypto.go: padding, random texts, digests, payloads
--   Protocol                    the protocol errors of internal/pushsdk/events.go
--   PushSdk/Events, Commands    ParseEventBatch and ParseCommandResultBatch
--   PushSdk/Route               parseRoute of internal/pushsdk/service.go
--   PushSdk/Session             internal/pushsdk/session.go: a session, its deadlines, its checkpoint
--   PushSdk/World               what the service reads and changes, and its steps
--   PushSdk/Service             internal/pushsdk/service.go: AuthInfo, Login, Exchange (authenticated),
--                               Maintenance (MaintainSessions and Restore), Http (ServeHTTP)
--   Store/Tables, Terminals     the transactions of internal/store/store.go that the service calls
--   Store/IsapiCommands         internal/store/isapi_commands.go: claim, results, deadlines; Queueing has a
--                               new command and its identifier
--   AccessControl               internal/accesscontrol: the events that terminals declare, their pictures,
--                               and the search of a terminal's own archive
--   Store/EventSync             internal/store/access_event_sync.go: a run that reads a terminal's archive;
--                               Start queues it, Search and Pages handle the results of its commands
--   Store/Archive               internal/store/store.go: Insert has InsertDeviceEventBatch, Backfill the
--                               projections of older rows; Queues puts the store together
--   Delivery                    internal/delivery/worker.go and internal/store/event_deliveries.go;
--                               Queue/Attachments has internal/store/event_attachments.go
--   Examples                    concrete inputs
--
-- How they interact. A request goes through Http, which finds the route and the terminal and calls the
-- handler of the action. A handler reads the session map, calls transactions of the store and publishes
-- activity records. A step of the service is a function from a world (sessions, database, counters,
-- published records) to a result and a world: what was changed before an error stays changed, as in the
-- code. A transaction either fails as a whole or gives a new database. The environment answers by the
-- number of the question: whether a store call fails, what the clock says, what the random reader
-- delivers; theorems hold for every environment. The requests of one terminal follow one another, as
-- its lock orders them. The transactions of commands and events are an interface, QueueStore, which the
-- exchange takes as a parameter, with the law that they write no session checkpoint; the command queue
-- fills it. What follows a command is the interface SyncStore of that queue, which the synchronisation
-- of retained events fills: a result of one of its commands moves a run on, which queues the next
-- command in the same transaction. The archive takes the events; Store/Archive/Queues is the whole.
--
-- The delivery queue is a state machine: its calls are the steps of a relation, and the worker's tick
-- is a sequence of rounds, each a claim, a request and a saved result. A row is leased for a minute,
-- and its number of attempts tells one lease from the next.
--
-- Conventions. Times are nanoseconds and natural numbers. Bytes are lists of numbers; where a theorem
-- needs them below 256 it says so. The numbers of a configuration are not negative. Hashes, the block
-- cipher, JSON, media types, query strings and HTTP are parameters, with their documented laws as
-- named hypotheses. A loop over the blocks of the random reader is a recursion on the list of blocks
-- that it delivers and fails where that list ends; the worker's rounds are a bound that the code sets
-- to 25. The record Readers stands for the standard library's JSON, XML, MIME, JPEG and time formats.
-- A transaction sees one time, and its random identifiers follow from that time and the number drawn.
-- The errors of a queued command are of two kinds, since a run survives a refusal but not an error of
-- the database, after which the transaction is void. A time that comes back from the database has lost
-- its zone and carries the gateway's. The two times of a checkpoint come back as TIMESTAMPTZ keeps
-- them, to the whole microsecond; the rows of the model hold the times as they were sent, and what
-- restores a session cuts them. The times that reach other columns are taken as whole microseconds. A
-- number that an INTEGER column cannot hold fails the insertion; texts hold no code point zero, which
-- PostgreSQL refuses. The loop over outdated projections has fuel, and more of it than there are
-- outdated rows is enough.
--
-- Not modelled: the backfills of deliveries (internal/store/event_backfills.go), and the queries of
-- internal/store, which change nothing; internal/httpapi; internal/monitor; the loading of the
-- configuration; the migrations; cmd/gateway, which only wires the parts together.
pub mod Prelude
pub mod Result
pub mod Encoding
pub mod Crypto
pub mod Config
pub mod Protocol
pub mod PushSdk
pub mod Store
pub mod AccessControl
pub mod Delivery
pub mod Examples
