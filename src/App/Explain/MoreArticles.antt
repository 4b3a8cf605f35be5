-- ===== src/App/Explain/MoreArticles.antt =====
-- internal/app/explain.go: the entries of `catalog`, the others.
use yb_doctor.Base.{[], ◌∷◌}
use yb_doctor.Domain.Ids.{
  code_hot_tablets, code_dead_tserver, code_master_quorum, code_disk_pressure, code_single_region,
  code_p99_latency,
}
use yb_doctor.Domain.Report.{Explanation}

abbrev pub hot_tablets_article : Explanation
hot_tablets_article = record {
  code = code_hot_tablets;
  what = "A few tablets receive a disproportionate share of read/write ops.";
  why_it_matters =
      "YugabyteDB shards by tablet. A hot tablet is a hot Raft group: one leader, one WAL, one CPU path.";
  current_cluster = [];
  possible_causes =
      ("sequential / low-cardinality primary key" ∷ "range hotspot (time-series without hash)"
        ∷ "uneven hash distribution" ∷ "a single large tenant or partition" ∷ []);
  next_steps =
      ("Identify the table behind the hot tablet"
        ∷ "Consider hash sharding or a better partition key"
        ∷ "Check whether tablet splitting is enabled and catching up" ∷ []);
}

abbrev pub dead_tserver_article : Explanation
dead_tserver_article = record {
  code = code_dead_tserver;
  what = "A YB-TServer has stopped heartbeating to the Master leader.";
  why_it_matters =
      "Tablets with a replica on that node become under-replicated. After follower_unavailable_considered_failed_sec, Master will remote-bootstrap a replacement if capacity exists.";
  current_cluster = [];
  possible_causes =
      ("process crash or OOM" ∷ "host or disk failure" ∷ "network isolation"
        ∷ "deliberate stop for maintenance" ∷ []);
  next_steps =
      ("Confirm the process and host are down"
        ∷ "If planned, wait for under-replication to clear after replacement"
        ∷ "If unplanned, restore the node or add a new TServer in the same placement" ∷ []);
}

abbrev pub master_quorum_article : Explanation
master_quorum_article = record {
  code = code_master_quorum;
  what = "The YB-Master Raft group does not have a healthy majority.";
  why_it_matters =
      "Without Master quorum the control plane cannot place tablets, run the balancer, or accept DDL. The data plane may still serve already-placed tablets.";
  current_cluster = [];
  possible_causes =
      ("two of three masters down" ∷ "clock / network issues among masters"
        ∷ "misconfigured master addresses" ∷ []);
  next_steps =
      ("Restore Master processes until a majority is healthy"
        ∷ "Do not change cluster config until quorum is back" ∷ []);
}

abbrev pub disk_pressure_article : Explanation
disk_pressure_article = record {
  code = code_disk_pressure;
  what = "A TServer's data disk is filling up.";
  why_it_matters =
      "YugabyteDB needs headroom for WAL, SST flushes, and compaction. Crossing ~85-90% is a common path to a stuck node.";
  current_cluster = [];
  possible_causes =
      ("compaction backlog" ∷ "unbounded WAL retention" ∷ "tablet imbalance onto this node"
        ∷ "undersized volume" ∷ []);
  next_steps =
      ("Check disk utilization per data path" ∷ "Relieve compaction pressure"
        ∷ "Add disk or a TServer in the same AZ" ∷ []);
}

abbrev pub single_region_article : Explanation
single_region_article = record {
  code = code_single_region;
  what = "Every TServer is in a single cloud region.";
  why_it_matters =
      "RF=3 across three AZs survives an AZ loss, not a regional loss. That is a product conversation, not a bug.";
  current_cluster = [];
  possible_causes =
      ("POC or single-region production design"
        ∷ "latency constraints that keep all writes in one region" ∷ []);
  next_steps =
      ("Confirm RPO/RTO with the customer"
        ∷ "If regional DR is required, discuss sync multi-region vs xCluster" ∷ []);
}

abbrev pub p99_latency_article : Explanation
p99_latency_article = record {
  code = code_p99_latency;
  what = "YSQL tail latency is above the configured target.";
  why_it_matters = "Tail latency usually matters more than average TPS in a POC acceptance bar.";
  current_cluster = [];
  possible_causes =
      ("hot tablets or leader imbalance" ∷ "compaction / disk pressure" ∷ "undersized nodes"
        ∷ "chatty SQL (missing indexes, high row counts)" ∷ []);
  next_steps =
      ("Correlate with hot tablets and compaction findings"
        ∷ "Capture pg_stat_statements / yb_terminated_queries"
        ∷ "Revisit hardware sizing against the workload" ∷ []);
}
