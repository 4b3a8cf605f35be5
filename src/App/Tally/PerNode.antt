-- ===== src/App/Tally/PerNode.antt =====
-- internal/app/tablets.go, `analyzeTablets`: what the counters of a node hold at the end of the loops.
use yb_doctor.Base.{
  ℕ, ◌+◌, String, Bool, true, ◌≡◌, refl, sym, ◌∙◌, ap, ◌&&◌, not, none, some, List, [], ◌∷◌, count,
  sum_by, sum_by_congr, Dict, get, put, get-put, str_eq, eq_iff, Bool-cases, Option-cases, ◌++◌,
  inl, inr, arith, if◌then◌else◌,
}
use yb_doctor.Domain.Ids.{NodeId}
use yb_doctor.Domain.Cluster.{Snapshot, TServer, Tablet, TabletPeer, voting_peers}
use yb_doctor.Domain.Report.{NodeTabletStats}
use yb_doctor.App.Groups.{display_name}
use yb_doctor.App.Tally.{
  Tally, fresh, bump, add_to, leads_tablet, add_peers, add_tablets, add_servers, tally,
}

-- A counter of a node; a node without an entry has 0.
abbrev pub counter : (NodeTabletStats → ℕ) → NodeId → Dict NodeTabletStats → ℕ
counter of k m = elim (get k m) [ none ↦ 0 | some st ↦ of st ]

counter-put :
    (of : NodeTabletStats → ℕ) (i k : NodeId) (v : NodeTabletStats) (m : Dict NodeTabletStats)
    → counter of k (put i v m) ≡ (if str_eq i k then of v else counter of k m)
counter-put of i k v m =
    rw (get-put i k v m, counter)
      (elim (Bool-cases (str_eq i k)) [ inl e ↦ rw e refl | inr e ↦ rw e refl ])

counter-at :
    (of : NodeTabletStats → ℕ) (i k : NodeId) (m : Dict NodeTabletStats)
    → str_eq i k ≡ true
    → counter of k m ≡ counter of i m
counter-at of i k m h = ap (λ j. counter of j m) (sym ((eq_iff i k).0 h))

step_or_keep :
    (b c : Bool) (v x y : ℕ)
    → (b ≡ true → x ≡ y)
    → v ≡ y + (if c then 1 else 0)
    → (if b then v else x) ≡ x + (if b && c then 1 else 0)
step_or_keep b c v x y h e = ground arith

-- A field that starts at 0 and counts the peers for which `adds` holds.
module _ (of : NodeTabletStats → ℕ) (adds : Bool → Bool)
    (starts : (name : String) (i : NodeId) → of (fresh name i) ≡ 0)
    (steps : (l : Bool) (st : NodeTabletStats)
      → of (bump l st) ≡ of st + (if adds l then 1 else 0)) where
  counter-add_to :
      (i k : NodeId) (l : Bool) (a : Tally)
      → counter of k (add_to i l a).per_node
        ≡ counter of k a.per_node + (if str_eq i k && adds l then 1 else 0)
  unfolding add_to
  counter-add_to i k l a = elim (Option-cases (get i a.per_node)) [
    | inl e ↦
        rw (e, add_to)
          (counter-put of i k (bump l (fresh i i)) a.per_node
            ∙ step_or_keep (str_eq i k) (adds l) _ (counter of k a.per_node) 0
                (λ h. counter-at of i k a.per_node h ∙ rw (e, counter) refl)
                (steps l (fresh i i) ∙ ap (λ n. n + (if adds l then 1 else 0)) (starts i i)))
    | inr (st, e) ↦
        rw (e, add_to)
          (counter-put of i k (bump l st) a.per_node
            ∙ step_or_keep (str_eq i k) (adds l) _ (counter of k a.per_node) (of st)
                (λ h. counter-at of i k a.per_node h ∙ rw (e, counter) refl) (steps l st))
  ]

  module _ {F : Type 0} where
    -- A peer on the node that the field counts.
    abbrev counts : NodeId → Tablet F → TabletPeer → Bool
    counts k t p = str_eq p.tserver_id k && adds (leads_tablet t p)

    counter-add_peers :
        (k : NodeId) (t : Tablet F) (ps : List TabletPeer) (a : Tally)
        → counter of k (add_peers t ps a).per_node ≡ counter of k a.per_node + count (counts k t) ps
    unfolding add_peers
    counter-add_peers k t [] a = omega arith
    counter-add_peers k t (p ∷ ps) a = omega (
      arith,
      counter-add_peers k t ps (add_to p.tserver_id (leads_tablet t p) a),
      counter-add_to p.tserver_id k (leads_tablet t p) a,
    )

    counter-add_tablets :
        (k : NodeId) (ts : List (Tablet F)) (a : Tally)
        → counter of k (add_tablets ts a).per_node
          ≡ counter of k a.per_node + sum_by (λ t. count (counts k t) (voting_peers t)) ts
    unfolding add_tablets
    counter-add_tablets k [] a = omega arith
    counter-add_tablets k (t ∷ ts) a = omega (
      arith,
      counter-add_tablets k ts (add_peers t (voting_peers t) a),
      counter-add_peers k t (voting_peers t) a,
    )

    counter-add_servers :
        (k : NodeId) (ts : List (TServer F)) (a : Tally)
        → counter of k a.per_node ≡ 0
        → counter of k (add_servers ts a).per_node ≡ 0
    unfolding add_servers
    counter-add_servers k [] a h = h
    counter-add_servers k (t ∷ ts) a h =
        counter-add_servers k ts
          (record {
            per_node = put t.id (fresh (display_name t) t.id) a.per_node;
            order = a.order ++ (t.id ∷ []);
          })
          (counter-put of t.id k (fresh (display_name t) t.id) a.per_node
            ∙ ground (arith, starts (display_name t) t.id))

    counter-tally :
        (k : NodeId) (s : Snapshot F)
        → counter of k (tally s).per_node
          ≡ sum_by (λ t. count (counts k t) (voting_peers t)) s.tablets
    unfolding tally get
    counter-tally k s = omega (
      arith,
      counter-add_tablets k s.tablets
          (add_servers s.tservers (record { per_node = []; order = [] })),
      counter-add_servers k s.tservers (record { per_node = []; order = [] }) refl,
    )

count-and_true :
    {A : Type 0} (p : A → Bool) (xs : List A) → count (λ x. p x && true) xs ≡ count p xs
count-and_true p [] = refl
count-and_true p (x ∷ xs) = ground (arith, count-and_true p xs)

-- For every node and whichever servers there are: its leaders are the voting peers on it that lead their
-- tablet, its followers the others on it, and its total both together.
pub tally_exact :
    {F : Type 0} (s : Snapshot F) (k : NodeId)
    → let on = λ (p : TabletPeer). str_eq p.tserver_id k in
      (counter (λ st. st.leaders) k (tally s).per_node
        ≡ sum_by (λ t. count (λ p. on p && leads_tablet t p) (voting_peers t)) s.tablets)
      × (counter (λ st. st.followers) k (tally s).per_node
          ≡ sum_by (λ t. count (λ p. on p && not (leads_tablet t p)) (voting_peers t)) s.tablets)
      × (counter (λ st. st.total) k (tally s).per_node
          ≡ sum_by (λ t. count on (voting_peers t)) s.tablets)
unfolding bump
tally_exact s k = (
  counter-tally (λ st. st.leaders) (λ l. l) (λ _ _. refl) (λ l st. ground arith) k s,
  counter-tally (λ st. st.followers) not (λ _ _. refl) (λ l st. ground arith) k s,
  counter-tally (λ st. st.total) (λ _. true) (λ _ _. refl) (λ l st. ground arith) k s
      ∙ sum_by_congr _ _ s.tablets
          (λ t. count-and_true (λ (p : TabletPeer). str_eq p.tserver_id k) (voting_peers t)),
)
