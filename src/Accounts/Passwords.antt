-- ===== src/Accounts/Passwords.antt =====
-- control/internal/auth/password.go: the hash of a password as a text in the PHC format.
use flyc.Base.{
  ℕ, ◌+◌, ◌-◌, ◌*◌, ◌^◌, Bool, false, ◌&&◌, List, [], ◌∷◌, Option, none, some, ltb, if◌then◌else◌,
  length, Str, codes, str_eq, split, join, has_prefix, drop, is_digit, ◌==◌, ◌||◌,
}
use flyc.Accounts.{Crypto}

infixl 5 ◌>>=◌
abbrev ◌>>=◌ : {A B : Type 0} → Option A → (A → Option B) → Option B
none >>= f = none
some a >>= f = f a

-- The leading digits of a text, as a number, and what stands behind them.
digits_from : ℕ → Str → ℕ × Str
digits_from acc [] = (acc, [])
digits_from acc (c ∷ s) =
    let rest = digits_from (10 * acc + (c - b'0')) s in if is_digit c then rest else (acc, c ∷ s)

abbrev bounded : ℕ → ℕ × Str → Option (ℕ × Str)
bounded limit (n, s) = if ltb n limit then some (n, s) else none

-- The blanks that Sscanf skips before a number.
abbrev is_blank : ℕ → Bool
is_blank c = c == 32 || (c == 9 || (c == 11 || (c == 12 || c == 13)))

skip_blanks : Str → Str
skip_blanks [] = []
skip_blanks (c ∷ s) = let rest = skip_blanks s in if is_blank c then rest else c ∷ s

-- A number behind a fixed text, below a limit: one verb of Sscanf.
scan_field : Str → ℕ → Str → Option (ℕ × Str)
unfolding has_prefix skip_blanks digits_from
scan_field prefix limit s =
    if has_prefix prefix s
    then elim (skip_blanks (drop (length prefix) s)) [
      | [] ↦ none
      | c ∷ r ↦ if is_digit c then bounded limit (digits_from 0 (c ∷ r)) else none
    ]
    else none

-- `m=%d,t=%d,p=%d` into two uint32 and a uint8; what follows is not read.
unfoldable pub scan_params : Str → Option (ℕ × ℕ × ℕ)
unfolding scan_field
scan_params s = do
  (m, s1) ← scan_field (codes "m=") (2 ^ 32) s
  (t, s2) ← scan_field (codes ",t=") (2 ^ 32) s1
  (p, s3) ← scan_field (codes ",p=") (2 ^ 8) s2
  some (m, t, p)

module _ (C : Crypto) where
  open C use {id_key, encode, decode}

  abbrev pub phc : Str → Str → List Str
  phc salt key =
      [] ∷ codes "argon2id" ∷ codes "v=19" ∷ codes "m=65536,t=3,p=2" ∷ encode salt ∷ encode key ∷ []

  -- The salt is what rand.Read gives.
  unfoldable pub hash_password : Str → Str → Str
  unfolding join
  hash_password salt password = join b'$' (phc salt (id_key password salt 3 65536 2 32))

  abbrev pub same_key : Str → Option (ℕ × ℕ × ℕ) → Option Str → Option Str → Bool
  same_key password none salt want = false
  same_key password (some params) none want = false
  same_key password (some params) (some salt) none = false
  same_key password (some (m, t, p)) (some salt) (some want) =
      str_eq (id_key password salt t m p (length want)) want

  abbrev pub verify_parts : Str → List Str → Bool
  verify_parts password (a ∷ name ∷ version ∷ params ∷ salt ∷ key ∷ []) =
      str_eq name (codes "argon2id")
      && same_key password (scan_params params) (decode salt) (decode key)
  verify_parts password _ = false

  unfoldable pub verify_password : Str → Str → Bool
  unfolding split scan_params
  verify_password hash password = verify_parts password (split b'$' hash)

pub data PolicyError : Type 0 where
  too_short too_long : PolicyError

unfoldable pub check_password_policy : Str → Option PolicyError
check_password_policy pw =
    if ltb (length pw) 12
    then some too_short
    else if ltb 200 (length pw)
    then some too_long
    else none
