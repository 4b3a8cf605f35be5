-- ===== src/Fixture/Tablets.antt =====
-- internal/adapter/outbound/fixture/collector.go: `expandTablets`, which deals the planned numbers of leaders
-- and followers to tablets. The loop that picks the peers of a tablet adds one in each round, so it
-- recurs on the rounds that are left.
use Prim.Native.String.{count as char_count}
use yb_doctor.Base.{
  ℕ, zero, suc, ◌+◌, ◌-◌, String, ◌&&◌, ◌||◌, none, some, List, [], ◌∷◌, ◌++◌, map, Dict, get, put,
  keys, has, ℤ, pos, negsuc, pos_part, ◌-ℤ◌, ltb_ℤ, leb_ℤ, eqb_ℤ, str_eq, str_ltb, sort_strings,
  show_ℕ, concat, if◌then◌else◌,
}
use yb_doctor.Float.{Float64, nought, whole}
use yb_doctor.Domain.Ids.{NodeId, ReplicaRole, role_leader, role_follower}
use yb_doctor.Domain.Cluster.{Tablet, TabletPeer}

-- `m[id]` of a map of numbers: 0 where there is no entry.
unfoldable pub number_of : NodeId → Dict ℤ → ℤ
number_of id m = elim (get id m) [ none ↦ pos 0 | some n ↦ n ]

unfoldable pub repeat_id : ℕ → NodeId → List NodeId
repeat_id zero id = []
repeat_id (suc n) id = id ∷ repeat_id n id

-- `leaderQ`: each leader as often as it is planned.
unfoldable pub leader_queue : Dict ℤ → List NodeId → List NodeId
unfolding repeat_id
leader_queue leaders [] = []
leader_queue leaders (id ∷ ids) =
    repeat_id (pos_part (number_of id leaders)) id ++ leader_queue leaders ids

-- The loop over `remainF`: of the servers that are not picked and have followers left, one with most of
-- them, and the least id among those.
unfoldable pub best_follower : List NodeId → Dict ℤ → NodeId → ℤ → NodeId
best_follower picked [] best best_n = best
best_follower picked ((id, n) ∷ remain) best best_n =
    let skip = has id picked || leb_ℤ n (pos 0) in
    let better = ltb_ℤ best_n n || (eqb_ℤ n best_n && str_ltb id best) in
    best_follower picked remain (if skip then best else if better then id else best)
      (if skip then best_n else if better then n else best_n)

-- The first of the ids that is not picked.
unfoldable pub first_other : List NodeId → List NodeId → NodeId
first_other picked [] = ""
first_other picked (id ∷ ids) = if has id picked then first_other picked ids else id

unfoldable pub next_peer : List NodeId → Dict ℤ → List NodeId → NodeId
next_peer ids remain picked =
    let best = best_follower picked remain "" (negsuc 0) in
    if str_eq best "" then first_other picked ids else best

unfoldable pub take_one : NodeId → Dict ℤ → Dict ℤ
take_one id m = put id (number_of id m -ℤ pos 1) m

-- `for len(picked) < rf`, by the rounds that are left.
unfoldable pub pick_peers : List NodeId → ℕ → Dict ℤ → List NodeId → List NodeId × Dict ℤ
pick_peers ids zero remain picked = (picked, remain)
pick_peers ids (suc rounds) remain picked =
    let best = next_peer ids remain picked in
    let rest = pick_peers ids rounds (take_one best remain) (picked ++ (best ∷ [])) in
    if str_eq best "" then (picked, remain) else rest

unfoldable pub peer_of : ReplicaRole → NodeId → TabletPeer
peer_of role id = record { tserver_id = id; role = role; state = ""; lag = pos 0 }

-- The first that is picked leads.
unfoldable pub peers_of : List NodeId → List TabletPeer
peers_of [] = []
peers_of (id ∷ ids) = peer_of role_leader id ∷ map (peer_of role_follower) ids

unfoldable pub zeros : ℕ → String
zeros zero = ""
zeros (suc n) = concat ("0" ∷ zeros n ∷ [])

-- `t%04d`
unfoldable pub tablet_name : ℕ → String
tablet_name i = concat ("t" ∷ zeros (4 - char_count (show_ℕ i)) ∷ show_ℕ i ∷ [])

module _ {F : Type 0} ⦃f : Float64 F⦄ where
  unfoldable pub synthetic_tablet : ℕ → NodeId → List NodeId → Tablet F
  synthetic_tablet i leader picked = record {
    id = tablet_name i;
    table_id = "";
    table_name = "";
    state = "";
    leader_id = leader;
    peers = peers_of picked;
    size_bytes = pos 0;
    read_ops = whole 10;
    write_ops = nought;
  }

  -- The loop over the queue. A picked list starts with the leader, so that `rf - 1` rounds are left.
  unfoldable pub deal_tablets : List NodeId → ℕ → ℕ → Dict ℤ → List NodeId → List (Tablet F)
  deal_tablets ids rounds i remain [] = []
  deal_tablets ids rounds i remain (leader ∷ queue) =
      let (picked, left) = pick_peers ids rounds remain (leader ∷ []) in
      synthetic_tablet i leader picked ∷ deal_tablets ids rounds (i + 1) left queue

  unfoldable pub expand_tablets : Dict ℤ → Dict ℤ → ℤ → List (Tablet F)
  expand_tablets leaders followers rf =
      let ids = sort_strings (keys leaders) in
      deal_tablets ids (pos_part rf - 1) 0 followers (leader_queue leaders ids)
