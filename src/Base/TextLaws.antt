-- ===== src/Base/TextLaws.antt =====
-- Cut, Join and Split on texts that do not hold the separator.
use Prim.Native.Nat.{ℕ}
use mathlib.Core.Path.{◌≡◌, refl, sym, ap, ◌∙◌}
use mathlib.Core.Bool.{false}
use mathlib.Core.Logic.{inl, inr}
use mathlib.Core.Option.{Option, none, some}
use mathlib.Core.List.{List, [], ◌∷◌, ◌++◌}
use native.Mathlib.Omega.{arith}
use flyc.Base.Tests.{◌==◌, Option-cases}
use flyc.Base.Lists.{All}
use flyc.Base.Text.{Str, cut, join, split}

-- The separator does not occur.
abbrev pub Avoids : ℕ → Str → Type 0
Avoids sep s = All (λ c. (c == sep) ≡ false) s

pub cut_at_separator : (sep : ℕ) (s t : Str) → Avoids sep s → cut sep (s ++ sep ∷ t) ≡ some (s, t)
unfolding cut
cut_at_separator sep [] t h = ground arith
cut_at_separator sep (c ∷ s) t h = ground (arith, cut_at_separator sep s t h.1)

pub cut_without : (sep : ℕ) (s : Str) → Avoids sep s → cut sep s ≡ none
unfolding cut
cut_without sep [] h = refl
cut_without sep (c ∷ s) h = ground (arith, cut_without sep s h.1)

-- What Cut returns, put together, is the text.
pub cut_parts : (sep : ℕ) (s a b : Str) → cut sep s ≡ some (a, b) → s ≡ a ++ sep ∷ b
unfolding cut
cut_parts sep [] a b h = cc
cut_parts sep (c ∷ s) a b h = elim (Option-cases (cut sep s)) [
  | inl e ↦ ground arith
  | inr ((a', b'), e) ↦ ground (arith, cut_parts sep s a' b' e)
]

pub split_without : (sep : ℕ) (s : Str) → Avoids sep s → split sep s ≡ s ∷ []
unfolding split
split_without sep [] h = refl
split_without sep (c ∷ s) h = ground (arith, split_without sep s h.1)

pub split_at_separator :
    (sep : ℕ) (s t : Str) → Avoids sep s → split sep (s ++ sep ∷ t) ≡ s ∷ split sep t
unfolding split
split_at_separator sep [] t h = ground arith
split_at_separator sep (c ∷ s) t h = ground (arith, split_at_separator sep s t h.1)

-- Split undoes Join on a list that is not empty and whose members do not hold the separator.
pub split-join :
    (sep : ℕ) (s : Str) (r : List Str)
    → All (Avoids sep) (s ∷ r)
    → split sep (join sep (s ∷ r)) ≡ s ∷ r
unfolding join
split-join sep s [] h = split_without sep s h.0
split-join sep s (t ∷ r) h =
    split_at_separator sep s (join sep (t ∷ r)) h.0 ∙ ap (◌∷◌ s) (split-join sep t r h.1)

-- A text with a separator behind a front that avoids it splits in one way only.
pub separated-injective :
    (sep : ℕ) (s t s' t' : Str)
    → Avoids sep s
    → Avoids sep s'
    → s ++ sep ∷ t ≡ s' ++ sep ∷ t'
    → (s ≡ s') × (t ≡ t')
separated-injective sep s t s' t' h h' e =
    let p : ◌≡◌ {A = Option (Str × Str)} (some (s, t)) (some (s', t')) =
      sym (cut_at_separator sep s t h) ∙ ap (cut sep) e ∙ cut_at_separator sep s' t' h' in
    (cc, cc)
