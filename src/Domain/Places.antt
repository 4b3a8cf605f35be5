-- ===== src/Domain/Places.antt =====
-- `Snapshot.Regions` and `Snapshot.Zones`: which keys they list.
use yb_doctor.Base.{
  String, Bool, ◌≡◌, List, [], ◌∷◌, ◌++◌, has, any, ◌∙◌, arith, str_eq, eq_iff, has-append,
  IsDistinct, IsDistinct-snoc, if◌then◌else◌, ◌||◌,
}
use yb_doctor.Domain.Ids.{Placement, key, region_key}
use yb_doctor.Domain.Cluster.{TServer, Snapshot, collect_keys, regions, zones}

module _ {F : Type 0} (of : Placement → String) where
  -- Some server stands at the place `k`.
  abbrev pub is_place : String → List (TServer F) → Bool
  is_place k ts = any (λ t. str_eq (of t.placement) k) ts

  collect_keys-IsDistinct :
      (ts : List (TServer F)) (out : List String)
      → IsDistinct out
      → IsDistinct (collect_keys of ts out)
  unfolding collect_keys
  collect_keys-IsDistinct [] out d = d
  collect_keys-IsDistinct (t ∷ ts) out d =
      let k = of t.placement in
      collect_keys-IsDistinct ts (if has k out then out else out ++ (k ∷ []))
        (ground (arith, IsDistinct-snoc out k d))

  has-collect_keys :
      (k : String) (ts : List (TServer F)) (out : List String)
      → has k (collect_keys of ts out) ≡ (has k out || is_place k ts)
  unfolding collect_keys
  has-collect_keys k [] out = ground arith
  has-collect_keys k (t ∷ ts) out =
      let j = of t.placement in
      has-collect_keys k ts (if has j out then out else out ++ (j ∷ []))
      ∙ ground (arith, eq_iff j k, has-append k out (j ∷ []))

-- The regions of a snapshot are listed once each, and they are those of its servers; so with the
-- zones.
pub regions_zones_exact :
    {F : Type 0} (s : Snapshot F) (k : String)
    → IsDistinct (regions s)
      × IsDistinct (zones s)
      × (has k (regions s) ≡ is_place region_key k s.tservers)
      × (has k (zones s) ≡ is_place key k s.tservers)
unfolding regions zones
regions_zones_exact s k = (
  collect_keys-IsDistinct region_key s.tservers [] tt,
  collect_keys-IsDistinct key s.tservers [] tt,
  has-collect_keys region_key k s.tservers [],
  has-collect_keys key k s.tservers [],
)
