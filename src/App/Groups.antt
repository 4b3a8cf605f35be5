-- ===== src/App/Groups.antt =====
-- internal/app/resilience.go: `groupList`, `idsOf`, `namesOf` and `sortedKeys`, with `displayName`
-- of findings.go.
use yb_doctor.Base.{
  Bool, true, false, length, ◌==◌, String, ◌≡◌, refl, ◌∙◌, sym, ◌||◌, none, some, List, [], ◌∷◌,
  ◌++◌, map, filter, any, Dict, get, put, keys, get-put, keys-put, has, IsDistinct, IsDistinct-snoc,
  sort_strings, str_eq, eq_iff, arith, if◌then◌else◌, Bool-cases, inl, inr, has-append,
}
use mathlib.Core.List.{append-nil, append_assoc}
use yb_doctor.Domain.Ids.{NodeId}
use yb_doctor.Domain.Cluster.{TServer}

module _ {F : Type 0} where
  unfoldable pub display_name : TServer F → String
  display_name t = if str_eq t.name "" then t.host else t.name

  -- A missing key reads as the empty slice.
  abbrev pub group_at : String → Dict (List (TServer F)) → List (TServer F)
  group_at k m = elim (get k m) [ none ↦ [] | some g ↦ g ]

  -- The loop of `groupList`.
  unfoldable pub group_into :
      (TServer F → String) → List (TServer F) → Dict (List (TServer F)) → Dict (List (TServer F))
  group_into key [] out = out
  group_into key (t ∷ ts) out =
      group_into key ts (put (key t) (group_at (key t) out ++ (t ∷ [])) out)

  unfoldable pub group_list : List (TServer F) → (TServer F → String) → Dict (List (TServer F))
  group_list nodes key = group_into key nodes []

  unfoldable pub ids_of : List (TServer F) → List NodeId
  ids_of nodes = map (λ t. t.id) nodes

  unfoldable pub names_of : List (TServer F) → List String
  names_of nodes = sort_strings (map display_name nodes)

  group_at-put :
      (k j : String) (v : List (TServer F)) (m : Dict (List (TServer F)))
      → group_at k (put j v m) ≡ (if str_eq j k then v else group_at k m)
  group_at-put k j v m = ground (arith, get-put j k v m)

  -- The part of a group that the nodes still to come add.
  group_into_lem :
      (key : TServer F → String) (nodes : List (TServer F)) (out : Dict (List (TServer F)))
      (k : String)
      → group_at k (group_into key nodes out)
        ≡ group_at k out ++ filter (λ t. str_eq (key t) k) nodes
  unfolding group_into
  group_into_lem key [] out k = sym (append-nil _)
  group_into_lem key (t ∷ ts) out k =
      group_into_lem key ts (put (key t) (group_at (key t) out ++ (t ∷ [])) out) k
      ∙ elim (Bool-cases (str_eq (key t) k)) [
        | inl e ↦
            let same : key t ≡ k = (eq_iff (key t) k).0 e in
            rw (group_at-put k (key t) (group_at (key t) out ++ (t ∷ [])) out, e)
              (rw same (append_assoc (group_at k out) (t ∷ []) (filter (λ t. str_eq (key t) k) ts)))
        | inr e ↦ rw (group_at-put k (key t) (group_at (key t) out ++ (t ∷ [])) out, e) refl
      ]

  -- Each group holds exactly the nodes with its key, in the order of the list.
  pub group_list_exact :
      (nodes : List (TServer F)) (key : TServer F → String) (k : String)
      → group_at k (group_list nodes key) ≡ filter (λ t. str_eq (key t) k) nodes
  unfolding group_list get
  group_list_exact nodes key k = group_into_lem key nodes [] k

  filter-filled :
      (p : TServer F → Bool) (nodes : List (TServer F))
      → any p nodes ≡ true
      → length (filter p nodes) == 0 ≡ false
  filter-filled p [] h = cc
  filter-filled p (t ∷ ts) h = elim (Bool-cases (p t)) [
    | inl e ↦ rw e (ground arith)
    | inr e ↦ rw e (filter-filled p ts (ground arith))
  ]

  has-keys-group_into :
      (key : TServer F → String) (nodes : List (TServer F)) (out : Dict (List (TServer F)))
      (k : String)
      → has k (keys (group_into key nodes out))
        ≡ (has k (keys out) || any (λ t. str_eq (key t) k) nodes)
  unfolding group_into
  has-keys-group_into key [] out k = ground arith
  has-keys-group_into key (t ∷ ts) out k =
      has-keys-group_into key ts (put (key t) (group_at (key t) out ++ (t ∷ [])) out) k
      ∙ ground (
        arith,
        keys-put (key t) (group_at (key t) out ++ (t ∷ [])) out,
        has-append k (keys out) (key t ∷ []),
        eq_iff (key t) k,
      )

  -- The groups' keys are those of the nodes.
  pub has-keys-group_list :
      (nodes : List (TServer F)) (key : TServer F → String) (k : String)
      → has k (keys (group_list nodes key)) ≡ any (λ t. str_eq (key t) k) nodes
  unfolding group_list
  has-keys-group_list nodes key k = has-keys-group_into key nodes [] k

  -- The group of a key is not empty.
  group_list-filled :
      (nodes : List (TServer F)) (key : TServer F → String) (k : String)
      → has k (keys (group_list nodes key)) ≡ true
      → length (group_at k (group_list nodes key)) == 0 ≡ false
  group_list-filled nodes key k h =
      rw (group_list_exact nodes key k)
        (filter-filled (λ t. str_eq (key t) k) nodes (sym (has-keys-group_list nodes key k) ∙ h))

  keys-group_into-IsDistinct :
      (key : TServer F → String) (nodes : List (TServer F)) (out : Dict (List (TServer F)))
      → IsDistinct (keys out)
      → IsDistinct (keys (group_into key nodes out))
  unfolding group_into
  keys-group_into-IsDistinct key [] out d = d
  keys-group_into-IsDistinct key (t ∷ ts) out d =
      keys-group_into-IsDistinct key ts (put (key t) (group_at (key t) out ++ (t ∷ [])) out) (
        ground (
          arith,
          keys-put (key t) (group_at (key t) out ++ (t ∷ [])) out,
          IsDistinct-snoc (keys out) (key t) d,
        ))

  -- No key has two groups.
  pub keys-group_list-IsDistinct :
      (nodes : List (TServer F)) (key : TServer F → String)
      → IsDistinct (keys (group_list nodes key))
  unfolding group_list
  keys-group_list-IsDistinct nodes key = keys-group_into-IsDistinct key nodes [] tt
