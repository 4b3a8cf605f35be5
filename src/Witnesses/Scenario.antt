-- ===== src/Witnesses/Scenario.antt =====
-- A scenario of three servers, one leaderless and two under-replicated tablets.
use Prim.Native.Nat.{min}
use yb_doctor.Base.{
  ◌≡◌, refl, [], ◌∷◌, length, ltb, All, Dict, ℤ, pos, get, put, count, str_eq, arith,
}
use yb_doctor.Float.{Fraction, fraction_float}
use yb_doctor.Config.{default_thresholds, defaults}
use yb_doctor.App.Raft.{analyze_raft}
use yb_doctor.Fixture.Tablets.{expand_tablets, number_of}
use yb_doctor.Fixture.Plans.{Plan, expanded, planned_counts, factor_of, remap_counts, ids_by_name}
use yb_doctor.Fixture.Leaders.{expanded-leaders}
use yb_doctor.Fixture.Shape.{IsDealt, expand_tablets-IsDealt}
use yb_doctor.Fixture.Found.{expanded-leaderless}
use yb_doctor.Fixture.Exact.{expanded-under_replicated_exact}
use yb_doctor.Fixture.Reported.{expanded-analyze_snapshot}
use yb_doctor.App.Service.{analyze_snapshot}
use yb_doctor.App.Findings.Codes.{reports}
use yb_doctor.Domain.Ids.{code_under_replicated}
use yb_doctor.Witnesses.Data.{town}

abbrev led : Dict ℤ
led = ("n1", pos 2) ∷ ("n2", pos 1) ∷ []

abbrev followed : Dict ℤ
followed = ("n2", pos 2) ∷ ("n3", pos 3) ∷ []

abbrev pub plan : Plan Fraction
plan = record {
  replication_factor = pos 0;
  masters = [];
  tservers = town.tservers;
  leaders = led;
  followers = followed;
  slow_followers = pos 0;
  hot_tablets = pos 1;
  leaderless = pos 0;
  under_replicated = pos 2;
  performance = town.performance;
  workload = town.workload;
  placement_blocks = [];
}

-- The second server leads one tablet, as planned.
expanded-leaders_example : count (λ t. str_eq t.leader_id "n2") (expanded plan).tablets ≡ 1
unfolding planned_counts factor_of remap_counts ids_by_name number_of get put
expanded-leaders_example = expanded-leaders plan "n2" refl

expand_tablets-IsDealt_example :
    All (IsDealt (pos 2)) (expand_tablets {F = Fraction} led followed (pos 2))
expand_tablets-IsDealt_example = expand_tablets-IsDealt Fraction led followed (pos 2)

expanded-leaderless_example :
    (analyze_raft (expanded (record plan { leaderless = pos 1 })) default_thresholds).leaderless
    ≡ min 1 (length (expanded (record plan { leaderless = pos 1 })).tablets)
expanded-leaderless_example =
    expanded-leaderless (record plan { leaderless = pos 1 }) default_thresholds

-- Two replicas, of two servers that lead.
abbrev small : Plan Fraction
small = record plan { replication_factor = pos 2 }

expanded-under_replicated_exact_example :
    (analyze_raft (expanded small) default_thresholds).under_replicated
    ≡ min 2 (length (expanded small).tablets)
unfolding planned_counts factor_of remap_counts ids_by_name get put
expanded-under_replicated_exact_example =
    expanded-under_replicated_exact small default_thresholds (omega arith) (omega arith) refl

expanded-analyze_snapshot_example :
    reports code_under_replicated (analyze_snapshot defaults (expanded small)).findings
    ≡ ltb 0 (length (expanded small).tablets)
unfolding planned_counts factor_of remap_counts ids_by_name get put
expanded-analyze_snapshot_example =
    (expanded-analyze_snapshot defaults small (omega arith) (omega arith) refl).1
