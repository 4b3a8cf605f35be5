-- ===== src/Fixture/Faults.antt =====
-- internal/adapter/outbound/fixture/collector.go: `applyFaults`, with the planned numbers of faults. A loop
-- `for i := 0; i < n && i < len(tablets); i++` treats the first n tablets.
use yb_doctor.Base.{
  ℕ, zero, suc, Bool, List, [], ◌∷◌, map, any, length, ltb, pos, str_eq, if◌then◌else◌,
}
use yb_doctor.Float.{Float64, whole}
use yb_doctor.Domain.Ids.{role_follower}
use yb_doctor.Domain.Cluster.{Tablet, TabletPeer}

abbrev pub map_first : {A : Type 0} → ℕ → (A → A) → List A → List A
map_first zero g xs = xs
map_first (suc n) g [] = []
map_first (suc n) g (x ∷ xs) = g x ∷ map_first n g xs

abbrev pub is_follower : TabletPeer → Bool
is_follower p = str_eq p.role role_follower

-- 1500 milliseconds.
unfoldable pub slow_first : List TabletPeer → List TabletPeer
slow_first [] = []
slow_first (p ∷ ps) =
    let rest = slow_first ps in
    if is_follower p then record p { lag = pos 1500000000 } ∷ ps else p ∷ rest

abbrev pub demote : TabletPeer → TabletPeer
demote p = record p { role = role_follower }

unfoldable pub drop_last_peer : List TabletPeer → List TabletPeer
drop_last_peer [] = []
drop_last_peer (p ∷ []) = []
drop_last_peer (p ∷ q ∷ ps) = p ∷ drop_last_peer (q ∷ ps)

module _ {F : Type 0} where
  -- The counter falls with each tablet that has a follower.
  unfoldable pub slow_tablets : ℕ → List (Tablet F) → List (Tablet F)
  slow_tablets zero ts = ts
  slow_tablets (suc n) [] = []
  slow_tablets (suc n) (t ∷ ts) =
      record t { peers = slow_first t.peers }
      ∷ slow_tablets (if any is_follower t.peers then n else suc n) ts

  unfoldable pub without_leader : Tablet F → Tablet F
  without_leader t = record t { leader_id = ""; peers = map demote t.peers }

  unfoldable pub under_replicate : Tablet F → Tablet F
  unfolding drop_last_peer
  under_replicate t =
      if ltb 1 (length t.peers) then record t { peers = drop_last_peer t.peers } else t

module _ {F : Type 0} ⦃f : Float64 F⦄ where
  unfoldable pub heat : Tablet F → Tablet F
  heat t = record t { write_ops = whole 5000 }

  -- The four loops, with the numbers of slow followers, and of hot, leaderless and under-replicated tablets.
  unfoldable pub apply_faults : ℕ → ℕ → ℕ → ℕ → List (Tablet F) → List (Tablet F)
  apply_faults slow hot leaderless under ts =
      map_first under under_replicate
        (map_first leaderless without_leader (map_first hot heat (slow_tablets slow ts)))
