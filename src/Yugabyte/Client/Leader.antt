-- ===== src/Yugabyte/Client/Leader.antt =====
-- internal/adapter/outbound/yugabyte/client.go: which master the search for the leader gives, and when it
-- gives none, whatever the order of the answers.
use yb_doctor.Base.{
  String, Bool, true, false, ◌≡◌, refl, ◌∙◌, sym, ap, not, ◌||◌, ◌⊎◌, inl, inr, List, [], ◌∷◌, any,
  any-count, any-of_has, ltb, Perm, count-perm, has, has-count, str_eq, eq_iff, eq_refl, arith,
  Bool-cases, if◌then◌else◌, ok, is_err, ok_inj,
}
use yb_doctor.Yugabyte.Bodies.{Json}
use yb_doctor.Yugabyte.Client.{Http, claims_lead, last_claim, answers, first_answer, find_leader}

pub any-Perm : {A : Type 0} (p : A → Bool) {xs ys : List A} → Perm xs ys → any p xs ≡ any p ys
any-Perm p {xs} {ys} h = sym (any-count p xs) ∙ ap (ltb 0) (count-perm p h) ∙ any-count p ys

has-Perm : (k : String) {xs ys : List String} → Perm xs ys → has k xs ≡ has k ys
has-Perm k {xs} {ys} h =
    has-count k xs ∙ ap (ltb 0) (count-perm (λ j. str_eq j k) h) ∙ sym (has-count k ys)

module _ {F : Type 0} (json : Json F) (http : Http) where
  last_claim-step :
      (a : String) (order : List String) (found : String)
      → last_claim json http (a ∷ order) found
        ≡ last_claim json http order (if claims_lead json http a then a else found)
  unfolding last_claim
  last_claim-step a order found = refl

  -- Nobody claims, and the variable is as it was, or it is one that claims.
  last_claim-cases :
      (order : List String) (found : String)
      → ((any (claims_lead json http) order ≡ false) × (last_claim json http order found ≡ found))
        ⊎ ((any (claims_lead json http) order ≡ true)
            × (has (last_claim json http order found) order ≡ true)
            × (claims_lead json http (last_claim json http order found) ≡ true))
  last_claim-cases [] found = inl (refl, unfold last_claim in refl)
  last_claim-cases (a ∷ order) found = elim (Bool-cases (claims_lead json http a)) [
    | inl e ↦ ground (arith, last_claim-step a order found, last_claim-cases order a, eq_refl a, e)
    | inr e ↦ ground (arith, last_claim-step a order found, last_claim-cases order found, e)
  ]

  first_answer-cases :
      (masters : List String)
      → ((any (answers json http) masters ≡ false)
          × (is_err (first_answer json http masters) ≡ true))
        ⊎ ((m : String) × (first_answer json http masters ≡ ok m)
            × (has m masters ≡ true)
            × (answers json http m ≡ true))
  unfolding first_answer
  first_answer-cases [] = inl (refl, refl)
  first_answer-cases (a ∷ masters) = elim (Bool-cases (answers json http a)) [
    | inl e ↦ inr (a, rw e refl, ground (arith, eq_refl a), e)
    | inr e ↦ elim (first_answer-cases masters) [
      | inl (n, r) ↦ inl (rw e n, rw e r)
      | inr (m, r, h, w) ↦ inr (m, rw e r, ground (arith, h), w)
    ]
  ]

  module _ (masters order : List String) (p : Perm order masters)
      (named : has "" masters ≡ false) where
    -- The master that the search finds claims to lead, or nobody does and the search asks who answers.
    find_leader-cases :
        ((any (claims_lead json http) masters ≡ false)
          × (find_leader json http masters order ≡ first_answer json http masters))
        ⊎ ((any (claims_lead json http) masters ≡ true)
            × (x : String) × (find_leader json http masters order ≡ ok x)
            × (has x masters ≡ true)
            × (claims_lead json http x ≡ true))
    unfolding find_leader
    find_leader-cases = elim (last_claim-cases order "") [
      | inl (n, e) ↦ inl (sym (any-Perm (claims_lead json http) p) ∙ n, rw e refl)
      | inr (n, h, c) ↦ inr (
        sym (any-Perm (claims_lead json http) p) ∙ n,
        last_claim json http order "",
        (let nonempty : str_eq (last_claim json http order "") "" ≡ false = ground (
          arith,
          has-Perm (last_claim json http order "") p,
          named,
          h,
          eq_iff (last_claim json http order "") "",
        ) in
            rw nonempty refl),
        sym (has-Perm (last_claim json http order "") p) ∙ h,
        c,
      )
    ]

    -- The search gives a configured master: one that claims to lead if there is any, and else one that answers,
    -- in whatever order the masters answer, if no address is empty.
    pub find_leader_ok :
        (m : String)
        → find_leader json http masters order ≡ ok m
        → (has m masters ≡ true)
          × ((claims_lead json http m ≡ true)
              ⊎ ((any (claims_lead json http) masters ≡ false) × (answers json http m ≡ true)))
    find_leader_ok m h = elim find_leader-cases [
      | inl (n, e) ↦ elim (first_answer-cases masters) [
        | inl (a, r) ↦ cc
        | inr (x, r, k, w) ↦ rw (sym (ok_inj (sym r ∙ sym e ∙ h))) (k, inr (n, w))
      ]
      | inr (n, x, e, k, w) ↦ rw (sym (ok_inj (sym e ∙ h))) (k, inl w)
    ]

    -- The search fails exactly if no master claims to lead and none answers, in whatever order they answer,
    -- if no address is empty.
    pub find_leader_fails :
        is_err (find_leader json http masters order)
        ≡ not (any (claims_lead json http) masters || any (answers json http) masters)
    find_leader_fails = elim find_leader-cases [
      | inl (n, e) ↦ elim (first_answer-cases masters) [
        | inl (a, r) ↦ rw (n, a, e) r
        | inr (x, r, k, w) ↦ rw (n, e, r, any-of_has (answers json http) x masters k w) refl
      ]
      | inr (n, x, e, k, w) ↦ rw (n, e) refl
    ]
