-- ===== src/Lib.antt =====
-- yb-doctor reads a snapshot of a YugabyteDB universe, judges it, and prints its judgement. This library models
-- the program from the flags of its command line to the exit code and the text that is written, and proves what
-- the parts promise to each other.
--
-- The parts, and how they work together. A command of internal/adapter/inbound/cli/root.go loads its
-- configuration from the defaults, a file, the environment and the flags, validates it, and builds a service with
-- one of two collectors: a scenario of the disk, or a client of the masters, the servers' metrics and the SQL
-- catalog. A collector gives a Snapshot (internal/domain/cluster.go and tablet.go). Service.Analyze
-- (internal/app/service.go) derives from it the tablet summary, the Raft summary and the performance summary,
-- collects the findings, attaches differing flags to them, sorts them, and computes the score.
-- Service.Resilience simulates the loss of each server, zone, pair of zones and region. Service.POC judges
-- both reports by acceptance criteria. Service.Explain looks a code up in the catalog. WatchAnalyze repeats the
-- analysis and ends with the difference of its last report from its first. A report becomes a page of text or JSON.
--
--   Domain/Ids, Domain/Cluster, Domain/Report   internal/domain: the types, as records with the fields of the
--                       source, and the methods; Domain/Places and Domain/Quorum are about the methods.
--   Config              internal/config/config.go: the types and Defaults; Config/Env has Load, WithEnv and
--                       splitCSV, Config/Validate has Validate. Config/File is internal/config/file.go.
--   App/Raft            internal/app/raft.go: analyzeRaft, and countIDsOr of tablets.go.
--   App/Tally           internal/app/tablets.go: the counters of each node in analyzeTablets.
--   App/Skew            internal/app/tablets.go: maxMinRatio, extremeAliveNames, sstSkew.
--   App/Tablets         internal/app/tablets.go: analyzeTablets and the texts of its evidence.
--   App/Pressure        internal/app/findings.go: analyzePerformance and the findings of the nodes.
--   App/Findings        internal/app/findings.go: collectFindings, one definition for each block.
--   App/Flags           internal/app/flags.go: attachFlagEvidence.
--   App/Score           internal/app/score.go: scoreReport; App/Score/Loop follows its loop.
--   App/Groups          internal/app/resilience.go: groupList, idsOf, namesOf, and displayName.
--   App/Resilience      internal/app/resilience.go: simulateResilience, evalFailure, recommendation.
--   App/Poc             internal/app/poc.go: buildPOC.
--   App/Diff            internal/app/diff.go: DiffReports.
--   App/Explain         internal/app/explain.go: Explain; its catalog in Explain/Articles and MoreArticles.
--   App/Service         internal/app/service.go: analyzeSnapshot and the entries of the service.
--   App/Watch           internal/app/watch.go: WatchAnalyze.
--   Yugabyte/Client     internal/adapter/outbound/yugabyte/client.go: New, findLeader, get and Collect, the
--                       last in Client/Collect; Client/Metrics has enrichMetrics.
--   Yugabyte/Bodies, Servers, Entities, Snapshots, Prom   parse.go beside it: the bodies of the answers, and
--                       the readers of servers, of tablets, of the whole snapshot and of metrics.
--   Yugabyte/Ysql, Queries   ysql.go beside it: the overlay of the catalog and of the statements; the queries.
--   Fixture             internal/adapter/outbound/fixture/collector.go: Fixture/Tablets has expandTablets,
--                       Fixture/Faults applyFaults, Fixture/Plans the rest.
--   Cli/Render          internal/adapter/inbound/cli/render/text.go: the numbers, the parts of a page, the health
--                       page, and the other reports.
--   Cli/Flags, Service, Runs, Commands   internal/adapter/inbound/cli/root.go: withFlags; buildService and the files; the
--                       commands and Execute. Cli/World is what the process gives to them.
--   Base, Float         shared types and lemmas.
--   Witnesses           a small universe, and runs on it.
--
-- How the code is read. A struct is a record; a map is an association list, whose order stands for the order
-- in which Go visits it, so a theorem for all lists holds for every such order. A pointer to a report is a
-- value, and a nil report is `none`. Counts and lengths are natural numbers; an `int` from outside is an integer,
-- and the score's arithmetic wraps at 64 bits. float64 is a type with the operations of Float64, an instance
-- argument: nothing is assumed of its arithmetic, so no theorem rests on rounding. The select of WatchAnalyze is
-- a list of events; an emitted report is logged as it is at the moment it is emitted. Goroutines that share a
-- lock are the order in which they take it, a parameter. sort.Slice, which is not stable, is a stable sort here.
-- A loop is structural recursion, or recursion on the rounds that are left: the replication factor less one for
-- the peers of a tablet, and the length of the text for its groups of digits and its decimal form, each of which
-- is as many rounds as the loop can take.
--
-- Parameters: the network, the file system, the SQL driver, the TLS certificates, the decoders and the encoder
-- of JSON and TOML, the parsers of numbers and durations, float64, the clock, and the context's end.
--
-- Not modelled: the reading of the arguments, which a third party's package does, with its help; the signals of
-- cmd/yb-doctor/main.go and the standard error; the log, of which Logging has the level
-- (internal/observability/logging.go), and which has no part in a result.
-- A context that ends in the midst of one collection, and the bound on the requests at one time, are not modelled
-- either: a collection's requests are each answered or not, and the same address the same way throughout
-- one. Texts are folded and trimmed on ASCII.
-- Of the panics of Go, the model tells one apart: `no_report`, where a command goes on with the nil report of a watch.
-- An index out of range or another nil pointer is not represented: `first_placement` gives an empty placement on an
-- empty group, which `groupList` never makes.
pub mod Base
pub mod Float
pub mod Domain
pub mod Config
pub mod App
pub mod Cli
pub mod Yugabyte
pub mod Fixture
pub mod Logging
pub mod Witnesses
