-- ===== src/Yugabyte/Client/Failures.antt =====
-- internal/adapter/outbound/yugabyte/client.go: when `Collect` fails.
use yb_doctor.Base.{
  String, Bool, ◌≡◌, refl, ◌∙◌, ap, ◌||◌, List, [], ◌∷◌, map, any, Perm, ℤ, Result, ok, err, is_err,
  ◌>>=◌,
}
use yb_doctor.Float.{Float64}
use yb_doctor.Yugabyte.Bodies.{Json}
use yb_doctor.Yugabyte.Servers.{decoded}
use yb_doctor.Yugabyte.Snapshots.{parse_snapshot}
use yb_doctor.Yugabyte.Snapshots.Failures.{is_err-decoded, is_err->>=}
use yb_doctor.Yugabyte.Ysql.{Catalog}
use yb_doctor.Yugabyte.Client.{Client, Http, find_leader}
use yb_doctor.Yugabyte.Client.Leader.{any-Perm}
use yb_doctor.Yugabyte.Client.Collect.{
  Api, masters_api, tservers_api, config_api, entities_api, Schedule, required, wait, gather,
  enrich, collect,
}

is_err-wait : (rs : List (Result String)) → is_err (wait rs) ≡ any is_err rs
unfolding wait
is_err-wait [] = refl
is_err-wait (ok a ∷ rs) = is_err-wait rs
is_err-wait (err e ∷ rs) = refl

any-map :
    {A B : Type 0} (p : B → Bool) (g : A → B) (xs : List A)
    → any p (map g xs) ≡ any (λ x. p (g x)) xs
any-map p g [] = refl
any-map p g (x ∷ xs) = ap (λ b. p (g x) || b) (any-map p g xs)

is_err-last : {A B : Type 0} (m : Result A) (g : A → B) → is_err (m >>= (λ a. ok (g a))) ≡ is_err m
is_err-last (ok a) g = refl
is_err-last (err e) g = refl

-- The requests that the collection needs.
abbrev pub apis : List Api
apis = masters_api ∷ tservers_api ∷ config_api ∷ entities_api ∷ []

-- Once a leader is found, the collection fails exactly if one of the four requests that it needs fails, or if
-- the snapshot of their answers is refused: in whatever order the requests end, and whatever the other
-- requests, the servers' metrics and the SQL catalog give.
pub collect_fails :
    {F : Type 0} ⦃f : Float64 F⦄ (json : Json F) (http : Http) (catalog : Catalog F)
    (schedule : Schedule F) (now : ℤ) (c : Client F) (leader : String)
    → find_leader json http c.masters (schedule.leaders c.masters) ≡ ok leader
    → Perm schedule.apis apis
    → is_err (collect json http catalog schedule now c) ≡ (
        any (λ api. is_err (required http leader api)) apis
        || is_err (parse_snapshot json now (gather http leader)))
unfolding collect
collect_fails json http catalog schedule now c leader h p =
    rw (h, decoded)
      (is_err->>= (decoded "collect master apis" (wait (map (required http leader) schedule.apis)))
          _ (is_err (parse_snapshot json now (gather http leader)))
          (λ _ _.
            is_err-last (decoded "parse snapshot" (parse_snapshot json now (gather http leader)))
              (enrich json http catalog schedule c leader)
            ∙ is_err-decoded "parse snapshot" (parse_snapshot json now (gather http leader)))
        ∙ ap (λ b. b || is_err (parse_snapshot json now (gather http leader)))
            (is_err-decoded "collect master apis" (wait (map (required http leader) schedule.apis))
              ∙ is_err-wait (map (required http leader) schedule.apis)
              ∙ any-map is_err (required http leader) schedule.apis
              ∙ any-Perm (λ api. is_err (required http leader api)) p))
