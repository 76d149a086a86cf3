-- ===== src/Lib.antt =====
-- A model of the Fn Flow service, with its correctness theorems.
--
-- A flow is a graph of completion stages. A client adds stages to it through commands, functions are
-- invoked for the stages that are ready, and their results complete the stages. Each flow is owned
-- by an actor, which validates a command against the graph, journals an event for it, and applies
-- the event to the graph; the graph calls back into its actor to run a stage, to complete one, or to
-- end the flow. An actor that is restarted replays its journal. A supervisor per shard keeps the
-- actors of its flows, and the cluster's nodes share the shards. A call of the service is forwarded
-- to the supervisor of the flow's shard. The executor calls functions over HTTP and keeps what they
-- answer as blobs, and a client may stream the events of a flow as they are journaled.
--
-- Files, with the code that they are about:
--   Prelude         shared names, tests, lists, decimal numbers, and results of code that may panic
--   Model/          the data of model/model.pb.go, model/mixins.go, model/results.go and
--                   model/errors.go: results (Datum), journal events (Event), commands and errors
--                   (Command), events of streams (Stream)
--   Graph/Stage     graph/stage.go and the types of graph/graph.go
--   Graph/Strategy  graph/stage_strategy.go, with theorems in WaitForAll, TriggerAny and Table
--   Graph/Engine    the event handlers of graph/graph.go: UpdateWithEvent is update_with_event, and
--                   each handler has its name in this spelling
--   Graph/Validate  ValidateCommand of graph/graph.go, with theorems in Acceptance and
--                   Addition
--   Graph/Progress/ proofs on how the handlers change a graph
--   Graph/Replay    what a journaled event stands for, as a change of the graph without triggers and
--                   calls (effect, replay), with proofs that the handlers have it
--   Persistence/    persistence/persistence_provider.go, persistence/in_memory_provider.go
--                   (Provider), persistence/sql_provider.go (Provider/Sql), persistence/plugin.go
--                   (Mixin), and persistence/streaming.go: SubscribeActorJournal (Streaming) and the
--                   provider that publishes what it persists (Streaming/Provider)
--   Actor/          actor/graph.go: the messages it sends (State), the graph's calls back into the
--                   actor (Updates) and the receiving functions (Commands); actor/supervisor.go
--                   (Supervisor); a flow as the fold of its journal and its restarts
--                   (Commands/Sourcing, Restart and DurableRestart); actor/executor.go
--                   (Executor); actor/api.go (Api): the supervisors of a node and forwarding, its
--                   Calls, the time-outs (Await) and the Streams; actor/strategy.go (Strategy);
--                   proofs in the folders
--   Blobs/          blobs/blobs.go, blobs/inmem_blob_store.go (InMemory), blobs/sql_blob_store.go
--                   (Sql) and blobs/blobapi.go (Api); Contract is what a store promises
--   Sharding        sharding/sharding.go
--   Cluster         cluster/cluster.go, with cluster/cluster_proxy.go (Proxy)
--   Setup/          setup/setup.go (Config and Service, with the parts of cluster/cluster.go,
--                   actor/api.go, server/internal_server.go and server/server.go that the start
--                   runs) and persistence/sql_init.go (Database); proofs in Shards and Storage
--   Telemetry/      server/fntracer.go (FnSpan) and server/prom_zip_collector.go (Collector)
--   Examples        the theorems at concrete inputs, in the folder of each component
--
-- How the state corresponds. A World is a graph with the host, the state of its actor: the
-- persistence mixin with its journal, and the messages sent. The handlers pass it on, and give an
-- Outcome: a world, a panic of the source, or out of fuel. A pointer to a stage is the stage's ID,
-- which is the number that strconv.Itoa prints. The map of stages is a list in the order of
-- insertion; the order in which Go ranges over it is the parameter `range`, which takes the number
-- of the loop and the keys, and about which nothing is assumed: an ID that it gives and the map
-- does not have is passed over.
--
-- Fuel. A call of the listener journals an event and applies it, which may call the listener again.
-- The fuel bounds the depth of these calls only. A call that is made for a stage marks the stage
-- as triggered or resolves it, and one made for the graph moves its lifecycle on, so that twice the
-- number of stages and three are enough, whatever the order; the bound asked for is
-- 2 * stages + 5. A graph has at most 1000 stages, so that 2005 is enough for every command.
--
-- Parameters. The journal's storage is the record ProviderState, whose operations may fail, which
-- panics as the SQL provider does; the in-memory provider is one of its values. `parse` stands for
-- uuid.Parse, `spawn` for SpawnNamed of the actor system, and `persists` for whether the supervisor's
-- PersistReceive returns or panics. The record Backend stands for the HTTP
-- client and the JSON codec of the executor, BlobsTable and JournalDb for the tables of the database,
-- and Codec for the protocol buffers; what is relied on of the tables is in BlobsTableLaws and
-- JournalDbLaws, that a statement may fail included, and that the iteration over the rows of a query
-- may end early on an error, which GetEvents does not look at. What the future of a request to a supervisor
-- comes to is the parameter `ask`, and `rpc` is the call of a gRPC client. RestartStatistics stands for
-- the statistics that the actor system keeps of a child's failures, with RestartStatisticsLaws. The
-- record System holds what the start asks of the system and of libraries, of which Driver is the SQL
-- driver, with DriverLaws; strconv.Atoi is read for numbers that are not negative. Prometheus stands
-- for its registry, with PrometheusLaws, and Span for the span that FnSpan wraps.
--
-- Not modelled: gRPC, HTTP, and generated code; the servers themselves and their metrics; the clock
-- except where a delay is scheduled, a call awaits a stage or an actor is restarted; code locations
-- and logs; the actor system's own mailboxes and restarts, so that a message is handled whole before
-- the next. A result whose datum is a nil pointer is not told apart from one whose datum has no
-- value. The snapshot interval is not zero, nor are, outside of the set-up, the numbers of shards and
-- nodes. The delay of a delayed stage is at least zero, as the request's validator demands.
pub mod Prelude
pub mod Model
pub mod Graph
pub mod Persistence
pub mod Actor
pub mod Sharding
pub mod Cluster
pub mod Blobs
pub mod Setup
pub mod Telemetry
