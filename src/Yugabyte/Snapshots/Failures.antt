-- ===== src/Yugabyte/Snapshots/Failures.antt =====
-- internal/adapter/outbound/yugabyte/parse.go: when `parseSnapshot` fails.
use yb_doctor.Base.{
  String, Bool, true, ◌≡◌, refl, ◌∙◌, ap, not, ◌||◌, inl, inr, List, [], ◌∷◌, ◌++◌, any, Dict, ℤ,
  Bool-cases, has_prefix, Result, ok, err, is_err, and_then, ◌>>=◌, concat,
}
use yb_doctor.Float.{Float64}
use yb_doctor.Domain.Cluster.{TServer}
use yb_doctor.Yugabyte.Bodies.{Json}
use yb_doctor.Yugabyte.Servers.{
  decoded, parse_cluster_config, parse_masters, parse_one_tserver, parse_group, parse_groups,
  parse_tservers, read_tserver,
}
use yb_doctor.Yugabyte.Entities.{parse_entities, read_entities}
use yb_doctor.Yugabyte.Snapshots.{Answers, parse_snapshot}

-- The context that is put before an error does not make one.
is_err-and_then :
    {A B : Type 0} (op : String) (r : Result A) (g : A → B) → is_err (and_then op r g) ≡ is_err r
is_err-and_then op (ok a) g = refl
is_err-and_then op (err e) g = refl

pub is_err-decoded : {A : Type 0} (op : String) (r : Result A) → is_err (decoded op r) ≡ is_err r
is_err-decoded op r = is_err-and_then op r (λ body. body)

any_of_four :
    {a b c d a' b' c' d' : Bool}
    → a ≡ a'
    → b ≡ b'
    → c ≡ c'
    → d ≡ d'
    → (a || (b || (c || d))) ≡ (a' || (b' || (c' || d')))
any_of_four p q r s = cc

-- The first of two steps fails, or the second, whatever value it is given.
pub is_err->>= :
    {A B : Type 0} (r : Result A) (k : A → Result B) (b : Bool)
    → ((a : A) → r ≡ ok a → is_err (k a) ≡ b)
    → is_err (r >>= k) ≡ (is_err r || b)
is_err->>= (ok a) k b h = h a refl
is_err->>= (err e) k b h = refl

is_err-chain :
    {A B C D E : Type 0} (p : Result A) (q : Result B) (r : Result C) (s : Result D)
    (k : A → B → C → D → E)
    → is_err (p >>= (λ a. q >>= (λ b. r >>= (λ c. s >>= (λ d. ok (k a b c d))))))
      ≡ (is_err p || (is_err q || (is_err r || is_err s)))
is_err-chain (err e) q r s k = refl
is_err-chain (ok a) (err e) r s k = refl
is_err-chain (ok a) (ok b) (err e) s k = refl
is_err-chain (ok a) (ok b) (ok c) (err e) k = refl
is_err-chain (ok a) (ok b) (ok c) (ok d) k = refl

module _ {F : Type 0} ⦃f : Float64 F⦄ (json : Json F) where
  -- The object of some server of the group does not decode.
  abbrev pub bad_group : Dict String → Bool
  bad_group = any (λ e. is_err (json.tserver e.1))

  -- The list of the servers does not decode, or the object of one of them.
  abbrev pub bad_tservers : Result (Dict (Dict String)) → Bool
  bad_tservers (err e) = true
  bad_tservers (ok nested) = any (λ g. bad_group g.1) nested

  is_err-parse_group :
      (group : Dict String) (out : List (TServer F))
      → is_err (parse_group json group out) ≡ bad_group group
  unfolding parse_group parse_one_tserver
  is_err-parse_group [] out = refl
  is_err-parse_group ((addr, item) ∷ group) out =
      is_err->>= (parse_one_tserver json addr item) _ (bad_group group)
        (λ ts e. is_err-parse_group group (out ++ (ts ∷ [])))
      ∙ ap (λ b. b || bad_group group)
          (is_err-and_then (concat ("unmarshal tserver " ∷ addr ∷ [])) (json.tserver item)
            (read_tserver addr))

  is_err-parse_groups :
      (groups : Dict (Dict String)) (out : List (TServer F))
      → is_err (parse_groups json groups out) ≡ any (λ g. bad_group g.1) groups
  unfolding parse_groups
  is_err-parse_groups [] out = refl
  is_err-parse_groups ((name, group) ∷ groups) out =
      is_err->>= (parse_group json group out) (parse_groups json groups)
        (any (λ g. bad_group g.1) groups) (λ ts e. is_err-parse_groups groups ts)
      ∙ ap (λ b. b || any (λ g. bad_group g.1) groups) (is_err-parse_group group out)

  is_err-parse_tservers :
      (raw : String) → is_err (parse_tservers json raw) ≡ bad_tservers (json.tservers raw)
  unfolding parse_tservers
  is_err-parse_tservers raw = by_result (json.tservers raw)
    where
      by_result :
          (r : Result (Dict (Dict String)))
          → is_err
              (decoded "unmarshal tablet-servers" r >>= (λ nested. parse_groups json nested []))
            ≡ bad_tservers r
      by_result (ok nested) = is_err-parse_groups nested []
      by_result (err e) = refl

  is_err-parse_entities :
      (raw : String)
      → is_err (parse_entities json raw) ≡ (not (has_prefix raw "{") || is_err (json.entities raw))
  unfolding parse_entities
  is_err-parse_entities raw = elim (Bool-cases (has_prefix raw "{")) [
    | inl e ↦ rw e (by_result (json.entities raw))
    | inr e ↦ rw e refl
  ]
    where
      by_result :
          (r : Result _)
          → is_err
              (decoded "unmarshal dump-entities" r >>= (λ body. ok (read_entities {F = F} body)))
            ≡ is_err r
      by_result (ok b) = refl
      by_result (err e) = refl

  -- The snapshot of the answers is refused exactly if the configuration, the masters, the list of the servers or
  -- one server's object does not decode, or the entities are no JSON object or do not decode; the answers
  -- on health and replication never make it fail.
  pub parse_snapshot_fails :
      (now : ℤ) (a : Answers)
      → is_err (parse_snapshot json now a) ≡ (
          is_err (json.config a.config)
          || (is_err (json.masters a.masters)
              || (bad_tservers (json.tservers a.tservers)
                  || (not (has_prefix a.entities "{") || is_err (json.entities a.entities)))))
  unfolding parse_snapshot parse_cluster_config parse_masters
  parse_snapshot_fails now a =
      is_err-chain (decoded "parse cluster-config" (parse_cluster_config json a.config))
        (decoded "parse masters" (parse_masters json a.masters))
        (decoded "parse tablet-servers" (parse_tservers json a.tservers))
        (decoded "parse dump-entities" (parse_entities json a.entities)) _
      ∙ any_of_four
          (is_err-decoded "parse cluster-config" (parse_cluster_config json a.config)
            ∙ is_err-and_then "unmarshal cluster-config" (json.config a.config) _)
          (is_err-decoded "parse masters" (parse_masters json a.masters)
            ∙ is_err-and_then "unmarshal masters" (json.masters a.masters) _)
          (is_err-decoded "parse tablet-servers" (parse_tservers json a.tservers)
            ∙ is_err-parse_tservers a.tservers)
          (is_err-decoded "parse dump-entities" (parse_entities json a.entities)
            ∙ is_err-parse_entities a.entities)
