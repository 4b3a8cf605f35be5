-- ===== src/Yugabyte/Bodies.antt =====
-- internal/adapter/outbound/yugabyte/parse.go and client.go: the bodies into which the answers of a cluster
-- are decoded. `json.Unmarshal` is a parameter: one decoder for each body, from the text of an answer.
use yb_doctor.Base.{String, Bool, Option, List, ℤ, Dict, Result}
use yb_doctor.Domain.Ids.{Placement}

pub record ConfigBody : Type 0 where
  pub num_replicas : ℤ
  pub placement_blocks : List Placement

pub record Address : Type 0 where
  pub host : String
  pub port : ℤ

-- `error` is the text that `fmt.Sprint` gives of an error that is there.
pub record MasterBody : Type 0 where
  pub permanent_uuid : String
  pub private_rpc : List Address
  pub http : List Address
  pub placement : Placement
  pub role : String
  pub error : Option String

pub record PathMetric : Type 0 where
  pub used_space : ℤ
  pub total_space : ℤ
  pub space_used : ℤ
  pub total_space_size : ℤ

pub record TServerBody (F : Type 0) : Type 0 where
  pub status : String
  pub uptime_seconds : ℤ
  pub ram_used_bytes : ℤ
  pub read_ops_per_sec : F
  pub write_ops_per_sec : F
  pub path_metrics : List PathMetric
  pub cloud_info : Placement
  pub cloud : String
  pub region : String
  pub zone : String
  pub uuid : String
  pub permanent_uuid : String

pub record KeyspaceBody : Type 0 where
  pub id : String
  pub name : String

pub record TableBody : Type 0 where
  pub id : String
  pub keyspace_id : String
  pub name : String
  pub table_type : String
  pub state : String

pub record ReplicaBody : Type 0 where
  pub server_uuid : String
  pub addr : String
  pub role : String

pub record TabletBody : Type 0 where
  pub table_id : String
  pub tablet_id : String
  pub state : String
  pub leader : String
  pub replicas : List ReplicaBody

pub record EntitiesBody : Type 0 where
  pub keyspaces : List KeyspaceBody
  pub tables : List TableBody
  pub tablets : List TabletBody

-- The ids of `under_replicated_tablets` and `leaderless_tablets`, and those of `tablet-replication`.
pub record TabletsBody : Type 0 where
  pub under_replicated : List String
  pub leaderless : List String

pub record IdleBody : Type 0 where
  pub is_idle : Option Bool
  pub idle : Option Bool

pub record FlagBody : Type 0 where
  pub name : String
  pub value : String

-- The decoders of the bodies.
pub record Json (F : Type 0) : Type 0 where
  pub config : String → Result ConfigBody
  pub masters : String → Result (List MasterBody)
  -- The groups of servers, by address, with the text of each server's object, in the order in which
  -- `range` visits the Go map.
  pub tservers : String → Result (Dict (Dict String))
  pub tserver : String → Result (TServerBody F)
  pub entities : String → Result EntitiesBody
  pub health : String → Result TabletsBody
  pub replication : String → Result TabletsBody
  pub idle : String → Result IdleBody
  pub flags : String → Result (List FlagBody)
  pub is_leader : String → Result Bool
