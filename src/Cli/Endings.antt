-- ===== src/Cli/Endings.antt =====
-- internal/adapter/inbound/cli/root.go: whether a chain of steps fails, and the texts and the code with which a run ends.
use mathlib.Core.Path.{subst}
use yb_doctor.Base.{
  arith, String, Bool, true, false, not, ◌&&◌, ◌||◌, is_err, err, if◌then◌else◌, ◌>>=◌, ◌≡◌, refl,
  none, some, [], ◌∷◌, length, concat, List, Option, ℕ, str_eq, Result, ok,
}
use yb_doctor.Cli.Render.Pieces.{Options, page, write_page}
use yb_doctor.Cli.Service.{within, failure}
use yb_doctor.Cli.Runs.{Run, faulted, shown, exit_code}

-- The step fails, or what is done next with its value.
abbrev pub fails_then : {A : Type 0} → Result A → (A → Bool) → Bool
fails_then (err e) next = true
fails_then (ok a) next = next a

abbrev pub is_some : {A : Type 0} → Option A → Bool
is_some none = false
is_some (some a) = true

-- The next step of a chain decides, if the one before it gave a value.
pub is_err-fails_then :
    {A B : Type 0} (op : String) (r : Result A) (next : A → Result B) (fails : A → Bool)
    → ((a : A) → is_err (next a) ≡ fails a)
    → is_err (within op r >>= next) ≡ fails_then r fails
is_err-fails_then op (err e) next fails h = refl
is_err-fails_then op (ok a) next fails h = h a

pub is_err-within : {A : Type 0} (op : String) (r : Result A) → is_err (within op r) ≡ is_err r
is_err-within op (ok a) = refl
is_err-within op (err e) = refl

-- How a run ends that writes one text and succeeds, or writes none and fails.
abbrev pub EndsAs : Bool → List String × Option ℕ → Type 0
EndsAs bad (texts, code) =
    (code ≡ some (if bad then 1 else 0)) × (length texts ≡ (if bad then 0 else 1))

abbrev pub Ends : Bool → Run → Type 0
Ends bad (texts, exit) = EndsAs bad (texts, exit_code exit)

-- What is done with a value, if there is one.
result-Ends :
    {A : Type 0} (r : Result A) (run : A → Run) (bad : Bool)
    → ((a : A) → Ends bad (run a))
    → Ends
        (is_err r || bad)
        (elim r as (λ x. Run) [ err e ↦ ([], faulted (failure e)) | ok a ↦ run a ])
unfolding exit_code
result-Ends (err e) run bad h = (refl, refl)
result-Ends (ok a) run bad h = h a

pub fallible-Ends :
    {A : Type 0} (r : Result A) (run : A → Run) (bad fails : Bool)
    → is_err r ≡ fails
    → ((a : A) → Ends bad (run a))
    → Ends
        (fails || bad)
        (elim r as (λ x. Run) [ err e ↦ ([], faulted (failure e)) | ok a ↦ run a ])
fallible-Ends r run bad fails e h =
    subst
      (λ b.
        Ends (b || bad) (elim r as (λ x. Run) [ err e ↦ ([], faulted (failure e)) | ok a ↦ run a ]))
      e (result-Ends r run bad h)

or_false : (b : Bool) → b || false ≡ b
or_false b = ground arith

pub last_step-Ends :
    {A : Type 0} (r : Result A) (run : A → Run) (fails : Bool)
    → is_err r ≡ fails
    → ((a : A) → Ends false (run a))
    → Ends fails (elim r as (λ x. Run) [ err e ↦ ([], faulted (failure e)) | ok a ↦ run a ])
last_step-Ends r run fails e h =
    subst (λ b. Ends b (elim r as (λ x. Run) [ err e ↦ ([], faulted (failure e)) | ok a ↦ run a ]))
      (or_false fails) (fallible-Ends r run false fails e h)

pub unless-Ends :
    (b : Bool) (x y : Run) (bad : Bool)
    → Ends false x
    → Ends bad y
    → Ends (not b && bad) (if b then x else y)
unless-Ends true x y bad h k = h
unless-Ends false x y bad h k = k

-- A page that can be written is one text.
one_shown :
    (op : String) (write : String → Option String) (p : Result String)
    → elim p as (λ x. Option String) [
      | err e ↦ some e
      | ok s ↦ elim (write s) as (λ x. Option String) [
        | none ↦ none
        | some e ↦ some (concat (op ∷ ": " ∷ e ∷ []))
      ]
    ]
      ≡ none
    → length (shown p) ≡ 1
one_shown op write (err e) h = cc
one_shown op write (ok s) h = refl

pub one_shown-page :
    (opt : Options) (write : String → Option String) (encoded : Result String) (text : String)
    → write_page write opt encoded text ≡ none
    → length (shown (page opt encoded text)) ≡ 1
unfolding write_page
one_shown-page opt write encoded text h =
    one_shown (if str_eq opt.format "json" then "encode json" else "write report") write
      (page opt encoded text) h
