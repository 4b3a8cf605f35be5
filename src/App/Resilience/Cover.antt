-- ===== src/App/Resilience/Cover.antt =====
-- The simulations of a snapshot: the loss of a zone or a region covers the loss of its servers.
use yb_doctor.Base.{
  String, Bool, true, false, ◌≡◌, refl, ◌∙◌, ◌↔◌, ◌&&◌, ◌||◌, List, [], ◌∷◌, ◌++◌, map, filter, any,
  any_iff, any-append, Any-witness, Any-of_IsIn, IsIn, keys, has, has-sort_strings, sort_strings,
  any-of_has, str_eq, eq_refl, eq_iff, arith, inl, inr,
}
use yb_doctor.Domain.Ids.{CheckStatus, NodeId, check_fail, is_fail}
use yb_doctor.Domain.Cluster.{Snapshot, TServer}
use yb_doctor.Domain.Report.{FailureSim}
use yb_doctor.App.Groups.{group_list, group_at, ids_of, group_list_exact, has-keys-group_list}
use yb_doctor.App.Resilience.{
  eval_failure, node_sim, zone_sim, pair_sims, region_sim, simulations, kind_fails, zone_key,
  region_of, zone_names, region_names,
}
use yb_doctor.App.Resilience.Quorum.{eval_failure_mono}

is_fail_iff : (c : CheckStatus) → (is_fail c ≡ true) ↔ (c ≡ check_fail)
is_fail_iff c = ground arith

kind_fails-map :
    {B : Type 0} (k kind : String) (f : B → FailureSim) (xs : List B)
    → ((b : B) → (f b).kind ≡ kind)
    → kind_fails k (map f xs) ≡ (str_eq kind k && any (λ b. is_fail (f b).status) xs)
kind_fails-map k kind f [] h = ground arith
kind_fails-map k kind f (x ∷ xs) h = rw (h x) (ground (arith, kind_fails-map k kind f xs h))

has-ids_of :
    {F : Type 0} (p : TServer F → Bool) (t : TServer F) (ts : List (TServer F))
    → IsIn t ts
    → p t ≡ true
    → has t.id (ids_of (filter p ts)) ≡ true
unfolding ids_of
has-ids_of p t [] m h = absurd m
has-ids_of p t (u ∷ ts) (inl e) h = rw e (rw h (ground (arith, eq_refl t.id)))
has-ids_of p t (u ∷ ts) (inr m) h = ground (arith, has-ids_of p t ts m h)

module _ {F : Type 0} (s : Snapshot F) where
  kind_fails-pair_sims :
      (k : String) (zs : List String)
      → str_eq "az-pair" k ≡ false
      → kind_fails k (pair_sims s zs) ≡ false
  unfolding pair_sims eval_failure
  kind_fails-pair_sims k [] h = refl
  kind_fails-pair_sims k (a ∷ []) h = refl
  kind_fails-pair_sims k (a ∷ b ∷ r) h = ground arith

  node_kind : (t : TServer F) → (node_sim s t).kind ≡ "node"
  unfolding node_sim eval_failure
  node_kind t = refl

  zone_kind : (z : String) → (zone_sim s z).kind ≡ "az"
  unfolding zone_sim eval_failure
  zone_kind z = refl

  region_kind : (r : String) → (region_sim s r).kind ≡ "region"
  unfolding region_sim eval_failure
  region_kind r = refl

  -- The failures of a kind, over the parts of the report.
  kind_fails-simulations :
      (k : String)
      → kind_fails k (simulations s) ≡ (
          kind_fails k (map (node_sim s) s.tservers)
          || (kind_fails k (map (zone_sim s) (zone_names s))
              || (kind_fails k (pair_sims s (zone_names s))
                  || kind_fails k (map (region_sim s) (region_names s)))))
  unfolding simulations
  kind_fails-simulations k =
      let p = λ (f : FailureSim). is_fail f.status && str_eq f.kind k in
      let zs = map (zone_sim s) (zone_names s) in
      let rs = map (region_sim s) (region_names s) in
      let pair = pair_sims s (zone_names s) in
      cc (
        any-append p (map (node_sim s) s.tservers) (zs ++ (pair ++ rs)),
        any-append p zs (pair ++ rs),
        any-append p pair rs,
      )

  -- One simulation for each server, zone and region.
  abbrev node_fails : Bool
  node_fails = any (λ t. is_fail (node_sim s t).status) s.tservers

  abbrev zone_fails : Bool
  zone_fails = any (λ z. is_fail (zone_sim s z).status) (zone_names s)

  abbrev region_fails : Bool
  region_fails = any (λ r. is_fail (region_sim s r).status) (region_names s)

  fails_cases :
      (k : String)
      → str_eq "az-pair" k ≡ false
      → kind_fails k (simulations s) ≡ (
          str_eq "node" k && node_fails
          || (str_eq "az" k && zone_fails || (str_eq "region" k && region_fails)))
  fails_cases k h = ground (
    arith,
    kind_fails-simulations k,
    kind_fails-map k "node" (node_sim s) s.tservers node_kind,
    kind_fails-map k "az" (zone_sim s) (zone_names s) zone_kind,
    kind_fails-map k "region" (region_sim s) (region_names s) region_kind,
    kind_fails-pair_sims k (zone_names s) h,
  )

  -- A group of servers by a key loses at least the server that it holds.
  group_covers :
      (of : TServer F → String) (t : TServer F) (i : NodeId)
      → IsIn t s.tservers
      → has i (t.id ∷ []) ≡ true
      → has i (ids_of (group_at (of t) (group_list s.tservers of))) ≡ true
  group_covers of t i m h =
      let same : t.id ≡ i = ground (arith, eq_iff t.id i) in
      rw (group_list_exact s.tservers of (of t))
        (rw (← same) (has-ids_of (λ u. str_eq (of u) (of t)) t s.tservers m (eq_refl (of t))))

  is_key :
      (of : TServer F → String) (t : TServer F)
      → IsIn t s.tservers
      → has (of t) (sort_strings (keys (group_list s.tservers of))) ≡ true
  is_key of t m =
      has-sort_strings (of t) (keys (group_list s.tservers of))
      ∙ (has-keys-group_list s.tservers of (of t)
          ∙ (any_iff (λ u. str_eq (of u) (of t)) s.tservers).1
              (Any-of_IsIn (λ u. str_eq (of u) (of t) ≡ true) t s.tservers m (eq_refl (of t))))

  zone_covers :
      (t : TServer F)
      → IsIn t s.tservers
      → is_fail (node_sim s t).status ≡ true
      → is_fail (zone_sim s (zone_key t)).status ≡ true
  unfolding node_sim zone_sim
  zone_covers t m h = (is_fail_iff _).1 (
      (eval_failure_mono s _ _ _ _ _ _ _ _ (λ i. group_covers zone_key t i m)).1
        ((is_fail_iff _).0 h))

  region_covers :
      (t : TServer F)
      → IsIn t s.tservers
      → is_fail (node_sim s t).status ≡ true
      → is_fail (region_sim s (region_of t)).status ≡ true
  unfolding node_sim region_sim
  region_covers t m h = (is_fail_iff _).1 (
      (eval_failure_mono s _ _ _ _ _ _ _ _ (λ i. group_covers region_of t i m)).1
        ((is_fail_iff _).0 h))

  node_fails-zone_fails : node_fails ≡ true → (zone_fails ≡ true) × (region_fails ≡ true)
  node_fails-zone_fails h =
      let (t, m, f) = Any-witness _ s.tservers ((any_iff _ s.tservers).0 h) in
      (
        any-of_has (λ z. is_fail (zone_sim s z).status) (zone_key t) (zone_names s)
            (is_key zone_key t m) (zone_covers t m f),
        any-of_has (λ r. is_fail (region_sim s r).status) (region_of t) (region_names s)
            (is_key region_of t m) (region_covers t m f),
      )

-- If the simulated loss of some single server breaks a quorum, so does the simulated loss of some
-- zone, and that of some region.
pub simulations_cover :
    {F : Type 0} (s : Snapshot F)
    → kind_fails "node" (simulations s) ≡ true
    → (kind_fails "az" (simulations s) ≡ true) × (kind_fails "region" (simulations s) ≡ true)
simulations_cover s h = ground (
  arith,
  node_fails-zone_fails s,
  fails_cases s "node" refl,
  fails_cases s "az" refl,
  fails_cases s "region" refl,
)
