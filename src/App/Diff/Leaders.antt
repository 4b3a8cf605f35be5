-- ===== src/App/Diff/Leaders.antt =====
-- internal/app/diff.go: what `leaderDeltas` returns.
use yb_doctor.Base.{
  ℕ, String, Bool, false, ◌≡◌, refl, ◌∙◌, ap, ◌&&◌, ◌||◌, not, List, [], ◌∷◌, map, any, has,
  has-sort_strings, str_eq, eq_iff, Dict, get, put, sort_by, get-put, sort_strings, Bool-cases, inl,
  inr, arith, ◌==◌, if◌then◌else◌,
}
use yb_doctor.Domain.Report.{NodeTabletStats, NodeCountDelta}
use yb_doctor.App.Diff.{keys_into, leaders_into, count_at, changed, leader_deltas}
use yb_doctor.App.Diff.Delta.{has-keys_into}

abbrev names_of : List NodeTabletStats → List String
names_of = map (λ r. r.name)

-- The leaders of a node in a list of rows: those of the last row of its name, and 0 if there is none.
abbrev pub last_leaders : String → List NodeTabletStats → ℕ → ℕ
last_leaders k [] n = n
last_leaders k (r ∷ rs) n = last_leaders k rs (if str_eq r.name k then r.leaders else n)

-- The entry of a change of the node's leaders.
abbrev pub is_change : String → ℕ → ℕ → NodeCountDelta → Bool
is_change k a b d = str_eq d.name k && d.from == a && d.to == b

count_at-put :
    (k j : String) (n : ℕ) (m : Dict ℕ)
    → count_at k (put j n m) ≡ (if str_eq j k then n else count_at k m)
count_at-put k j n m =
    rw (get-put j k n m, count_at)
      (elim (Bool-cases (str_eq j k)) [ inl e ↦ rw e refl | inr e ↦ rw e refl ])

count_at-leaders_into :
    (k : String) (rs : List NodeTabletStats) (m : Dict ℕ)
    → count_at k (leaders_into rs m) ≡ last_leaders k rs (count_at k m)
unfolding leaders_into
count_at-leaders_into k [] m = refl
count_at-leaders_into k (r ∷ rs) m =
    count_at-leaders_into k rs (put r.name r.leaders m)
    ∙ ap (last_leaders k rs) (count_at-put k r.name r.leaders m)

any-changed :
    (k : String) (a b : ℕ) (from curr : Dict ℕ) (names : List String)
    → any (is_change k a b) (changed from curr names)
      ≡ (has k names && not (a == b) && count_at k from == a && count_at k curr == b)
unfolding changed
any-changed k a b from curr [] = refl
any-changed k a b from curr (n ∷ names) =
    ground (arith, any-changed k a b from curr names, eq_iff n k)

absent-last_leaders :
    (k : String) (rs : List NodeTabletStats) (n : ℕ)
    → has k (names_of rs) ≡ false
    → last_leaders k rs n ≡ n
absent-last_leaders k [] n h = refl
absent-last_leaders k (r ∷ rs) n h = ground (arith, absent-last_leaders k rs n)

present_or_zero :
    (h i : Bool) (a b x y : ℕ)
    → (h ≡ false → x ≡ 0)
    → (i ≡ false → y ≡ 0)
    → ((h || i) && not (a == b) && x == a && y == b) ≡ (not (a == b) && x == a && y == b)
present_or_zero h i a b x y p q = ground arith

has-all_names :
    (k : String) (prev curr : List NodeTabletStats)
    → has k (sort_strings (keys_into (names_of prev) (keys_into (names_of curr) [])))
      ≡ (has k (names_of prev) || has k (names_of curr))
has-all_names k prev curr =
    has-sort_strings k (keys_into (names_of prev) (keys_into (names_of curr) []))
    ∙ ground (
      arith,
      has-keys_into k (names_of prev) (keys_into (names_of curr) []),
      has-keys_into k (names_of curr) [],
    )

-- A change of a node from `a` to `b` leaders is listed exactly if the old report gives the node `a`
-- leaders, the new one gives it `b`, and these differ; a report without the node gives it 0.
pub leader_deltas_exact :
    (k : String) (a b : ℕ) (prev curr : List NodeTabletStats)
    → any (is_change k a b) (leader_deltas prev curr)
      ≡ (not (a == b) && last_leaders k prev 0 == a && last_leaders k curr 0 == b)
unfolding leader_deltas sort_by keys_into get
leader_deltas_exact k a b prev curr =
    any-changed k a b (leaders_into prev []) (leaders_into curr [])
      (sort_strings (keys_into (names_of prev) (keys_into (names_of curr) [])))
    ∙ cc (
      has-all_names k prev curr,
      count_at-leaders_into k prev [],
      count_at-leaders_into k curr [],
    )
    ∙ present_or_zero (has k (names_of prev)) (has k (names_of curr)) a b (last_leaders k prev 0)
        (last_leaders k curr 0) (absent-last_leaders k prev 0) (absent-last_leaders k curr 0)
