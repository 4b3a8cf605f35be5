-- ===== src/Yugabyte/Client/Hosts.antt =====
-- internal/adapter/outbound/yugabyte/client.go: which masters are taken to be on this machine.
use Prim.Native.Char.{code}
use yb_doctor.Base.{
  ℕ, String, Bool, false, ◌≡◌, refl, ap, ◌||◌, inl, inr, List, [], ◌∷◌, any, ◌==◌, str_eq, eq_iff,
  arith, Bool-cases, cut_before, trim_prefix,
}
use yb_doctor.Yugabyte.Client.{loopback_host, any_loopback}

-- The text does not start with the character.
abbrev starts_with_char : ℕ → String → Bool
starts_with_char sep String.[] = false
starts_with_char sep (String.◌∷◌ c s) = code c == sep

cut_before-start : (sep : ℕ) (s : String) → starts_with_char sep (cut_before sep s) ≡ false
unfolding cut_before
cut_before-start sep String.[] = refl
cut_before-start sep (String.◌∷◌ c s) = elim (Bool-cases (code c == sep)) [
  | inl e ↦ rw e refl
  | inr e ↦ rw e e
]

-- The host of an address is never "::1", since it is cut before the first colon.
not_ipv6 : (addr : String) → str_eq (loopback_host addr) "::1" ≡ false
unfolding loopback_host
not_ipv6 addr = elim (Bool-cases (str_eq (loopback_host addr) "::1")) [
  | inl e ↦ cc (
    ap (starts_with_char b':') ((eq_iff (loopback_host addr) "::1").0 e),
    cut_before-start b':' (cut_before b'/' (trim_prefix (trim_prefix addr "http://") "https://")),
  )
  | inr e ↦ e
]

-- The masters count as local exactly if the host of one is "127.0.0.1" or "localhost": the test for "::1" never
-- holds, for any address.
pub any_loopback_ipv4 :
    (addrs : List String)
    → any_loopback addrs
      ≡ any
          (λ addr.
            str_eq (loopback_host addr) "127.0.0.1" || str_eq (loopback_host addr) "localhost")
          addrs
unfolding any_loopback
any_loopback_ipv4 [] = refl
any_loopback_ipv4 (a ∷ addrs) = ground (arith, not_ipv6 a, any_loopback_ipv4 addrs)
