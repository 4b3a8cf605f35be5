-- ===== src/Yugabyte/Client/Order.antt =====
-- internal/adapter/outbound/yugabyte/client.go: the runtimes of the nodes after `enrichMetrics` do not depend
-- on the order in which the requests take the lock.
use mathlib.Core.List.{Permᴰ}
use mathlib.Core.Path.{subst}
use yb_doctor.Base.{
  String, true, false, ◌≡◌, refl, ◌∙◌, sym, ap, inl, inr, Option, none, some, List, [], ◌∷◌, Dict,
  get, put, get-put, keys, has, IsDistinct, str_eq, eq_iff, arith, Bool-cases,
}
use yb_doctor.Float.{Float64, gt}
use yb_doctor.Domain.Cluster.{NodeRuntime, Performance}
use yb_doctor.Yugabyte.Prom.{ParsedRuntime}
use yb_doctor.Yugabyte.Client.Metrics.{entry, write_metrics, write_all}

IsDistinct-swap :
    (x y : String) (ks : List String) → IsDistinct (x ∷ y ∷ ks) → IsDistinct (y ∷ x ∷ ks)
IsDistinct-swap x y ks (n, (m, d)) = (ground (arith, eq_iff x y, eq_iff y x), (ground (arith), d))

module _ {V : Type 0} where
  get-absent : (k : String) (m : Dict V) → has k (keys m) ≡ false → get k m ≡ none
  unfolding get
  get-absent k [] h = refl
  get-absent k ((j, v) ∷ m) h = elim (Bool-cases (str_eq j k)) [
    | inl e ↦ cc (h, (let found : has k (keys ((j, v) ∷ m)) ≡ true = rw e refl in found))
    | inr e ↦ rw e (get-absent k m (ground (arith, h, e)))
  ]

  get-cons :
      (k : String) (a : String × V) (xs ys : Dict V)
      → get k xs ≡ get k ys
      → get k (a ∷ xs) ≡ get k (a ∷ ys)
  unfolding get
  get-cons k (j, v) xs ys h = rw h refl

  get-swap :
      (k : String) (a b : String × V) (m : Dict V)
      → str_eq b.0 a.0 ≡ false
      → get k (a ∷ b ∷ m) ≡ get k (b ∷ a ∷ m)
  unfolding get
  get-swap k (i, v) (j, w) m h = ground (arith, h, eq_iff i k, eq_iff j k, eq_iff j i)

  -- A permutation of a map without repeated keys is the same map.
  has-Permᴰ : (k : String) {xs ys : Dict V} → Permᴰ xs ys → has k (keys xs) ≡ has k (keys ys)
  has-Permᴰ k Permᴰ.nil = refl
  has-Permᴰ k (Permᴰ.cons e h) = ground (arith, has-Permᴰ k h, ap (λ x. x.0) e)
  has-Permᴰ k (Permᴰ.swap e f) = ground (arith, ap (λ x. x.0) e, ap (λ x. x.0) f)
  has-Permᴰ k (Permᴰ.trans h g) = has-Permᴰ k h ∙ has-Permᴰ k g

  IsDistinct-Permᴰ : {xs ys : Dict V} → Permᴰ xs ys → IsDistinct (keys xs) → IsDistinct (keys ys)
  IsDistinct-Permᴰ Permᴰ.nil d = d
  IsDistinct-Permᴰ (Permᴰ.cons {a = a} {b = b} e h) (n, d) =
      (sym (has-Permᴰ b.0 h) ∙ rw (sym e) n, IsDistinct-Permᴰ h d)
  IsDistinct-Permᴰ (Permᴰ.swap {a = a} {b = b} {b' = b'} {l = l} e f) (n, (m, d)) =
      subst (λ x. IsDistinct (keys (x ∷ b' ∷ l))) f
        (subst (λ x. IsDistinct (keys (b ∷ x ∷ l))) e
          (IsDistinct-swap a.0 b.0 (keys l) (n, (m, d))))
  IsDistinct-Permᴰ (Permᴰ.trans h g) d = IsDistinct-Permᴰ g (IsDistinct-Permᴰ h d)

  get-Permᴰ :
      (k : String) {xs ys : Dict V} → Permᴰ xs ys → IsDistinct (keys xs) → get k xs ≡ get k ys
  get-Permᴰ k Permᴰ.nil d = refl
  get-Permᴰ k (Permᴰ.cons {a = a} {b = b} e h) (n, d) =
      rw (sym e) (get-cons k a _ _ (get-Permᴰ k h d))
  get-Permᴰ k (Permᴰ.swap {a = a} {b = b} e f) (n, (m, d)) =
      rw (sym e, sym f) (get-swap k a b _ (ground (arith, n)))
  get-Permᴰ k (Permᴰ.trans h g) d = get-Permᴰ k h d ∙ get-Permᴰ k g (IsDistinct-Permᴰ h d)

module _ {F : Type 0} ⦃f : Float64 F⦄ where
  write_metrics-nodes :
      (p : Performance F) (name : String) (rt : ParsedRuntime F)
      → (write_metrics p (name, rt)).nodes
        ≡ put name (entry (get name p.nodes) rt.node_runtime) p.nodes
  unfolding write_metrics
  write_metrics-nodes p name rt = elim (Bool-cases (gt rt.p99_ms p.p99_ysql_ms)) [
    | inl e ↦ rw e refl
    | inr e ↦ rw e refl
  ]

  -- The entry of a node, after the write of its name, if there is one.
  abbrev settled : Option (ParsedRuntime F) → Option (NodeRuntime F) → Option (NodeRuntime F)
  settled none old = old
  settled (some rt) old = some (entry old rt.node_runtime)

  get-write_all :
      (ws : Dict (ParsedRuntime F)) (p : Performance F) (k : String)
      → IsDistinct (keys ws)
      → get k (write_all ws p).nodes ≡ settled (get k ws) (get k p.nodes)
  unfolding write_all get
  get-write_all [] p k d = refl
  get-write_all ((n, rt) ∷ ws) p k (h, d) =
      get-write_all ws (write_metrics p (n, rt)) k d
      ∙ ap (settled (get k ws)) (
          ap (get k) (write_metrics-nodes p n rt)
          ∙ get-put n k (entry (get n p.nodes) rt.node_runtime) p.nodes)
      ∙ elim (Bool-cases (str_eq n k)) [
        | inl e ↦
            rw (e, get-absent k ws (sym (ap (λ x. has x (keys ws)) ((eq_iff n k).0 e)) ∙ h))
              (ap (λ x. some (entry (get x p.nodes) rt.node_runtime)) ((eq_iff n k).0 e))
        | inr e ↦ rw e refl
      ]

  -- The runtime of every node after the requests is the same, in whatever order they take the lock, if no two
  -- of them write under one name.
  pub write_all_order :
      (ws ws' : Dict (ParsedRuntime F)) (p : Performance F) (k : String)
      → Permᴰ ws ws'
      → IsDistinct (keys ws)
      → get k (write_all ws p).nodes ≡ get k (write_all ws' p).nodes
  write_all_order ws ws' p k h d =
      get-write_all ws p k d
      ∙ ap (λ o. settled o (get k p.nodes)) (get-Permᴰ k h d)
      ∙ sym (get-write_all ws' p k (IsDistinct-Permᴰ h d))
