-- ===== src/Domain/Ids.antt =====
-- internal/domain/ids.go: identifiers, roles, codes and placements. The open sets of texts (roles,
-- statuses and codes can come from JSON) stay texts; severities and check results are closed.
use yb_doctor.Base.{String, Bool, ◌&&◌, [], ◌∷◌, str_eq, concat, if◌then◌else◌}

abbrev pub NodeId : Type 0
NodeId = String

abbrev pub TabletId : Type 0
TabletId = String

abbrev pub TableId : Type 0
TableId = String

abbrev pub FindingCode : Type 0
FindingCode = String

abbrev pub ReplicaRole : Type 0
ReplicaRole = String

abbrev pub NodeStatus : Type 0
NodeStatus = String

pub data Severity : Type 0 where
  severity_high severity_medium severity_low : Severity

pub data CheckStatus : Type 0 where
  check_pass check_fail check_warn : CheckStatus

abbrev pub check_text : CheckStatus → String
check_text check_pass = "PASS"
check_text check_fail = "FAIL"
check_text check_warn = "WARN"

abbrev pub is_pass : CheckStatus → Bool
is_pass check_pass = Bool.true
is_pass _ = Bool.false

abbrev pub is_fail : CheckStatus → Bool
is_fail check_fail = Bool.true
is_fail _ = Bool.false

abbrev pub is_warn : CheckStatus → Bool
is_warn check_warn = Bool.true
is_warn _ = Bool.false

abbrev pub role_leader : ReplicaRole
role_leader = "LEADER"

abbrev pub role_follower : ReplicaRole
role_follower = "FOLLOWER"

abbrev pub status_alive : NodeStatus
status_alive = "ALIVE"

abbrev pub status_dead : NodeStatus
status_dead = "DEAD"

abbrev pub code_leader_imbalance : FindingCode
code_leader_imbalance = "leader-imbalance"

abbrev pub code_tablet_imbalance : FindingCode
code_tablet_imbalance = "tablet-imbalance"

abbrev pub code_under_replicated : FindingCode
code_under_replicated = "under-replicated"

abbrev pub code_leaderless : FindingCode
code_leaderless = "leaderless-tablets"

abbrev pub code_slow_followers : FindingCode
code_slow_followers = "slow-followers"

abbrev pub code_compaction_pressure : FindingCode
code_compaction_pressure = "compaction-pressure"

abbrev pub code_sst_imbalance : FindingCode
code_sst_imbalance = "sst-imbalance"

abbrev pub code_hot_tablets : FindingCode
code_hot_tablets = "hot-tablets"

abbrev pub code_dead_tserver : FindingCode
code_dead_tserver = "dead-tserver"

abbrev pub code_master_quorum : FindingCode
code_master_quorum = "master-quorum"

abbrev pub code_disk_pressure : FindingCode
code_disk_pressure = "disk-pressure"

abbrev pub code_single_region : FindingCode
code_single_region = "single-region"

abbrev pub code_p99_latency : FindingCode
code_p99_latency = "p99-latency"

pub record Placement : Type 0 where
  pub cloud : String
  pub region : String
  pub zone : String

unfoldable pub key : Placement → String
key p =
    if str_eq p.cloud "" && str_eq p.region "" && str_eq p.zone ""
    then "unspecified"
    else concat (p.cloud ∷ "." ∷ p.region ∷ "." ∷ p.zone ∷ [])

unfoldable pub region_key : Placement → String
region_key p =
    if str_eq p.cloud "" && str_eq p.region ""
    then "unspecified"
    else concat (p.cloud ∷ "." ∷ p.region ∷ [])
