-- ===== src/Store/Shuffle.antt =====
-- The shuffle of a closed wave, in queue/internal/store/store.go.
use mathlib.Core.List.{Perm}
use mathlib.Core.List.Perm
use flyc.Base.{
  ℕ, zero, suc, ◌+◌, ◌-◌, ◌%◌, ◌≡◌, refl, ◌∙◌, ◌≤◌, ◌<◌, List, [], ◌∷◌, length, get_or, set,
  length-set, Str, arith, subst,
}
use flyc.Store.{swap, next_draw, other_draws, shuffle_from, shuffle}

set-perm :
    {A : Type 0} (xs : List A) (i : ℕ) (v d : A)
    → i < length xs
    → Perm (get_or xs i d ∷ set xs i v) (v ∷ xs)
set-perm [] i v d h = elim h [ ]
set-perm (x ∷ xs) zero v d h = Perm.swap v x xs
set-perm (x ∷ xs) (suc i) v d h =
    Perm.trans (Perm.swap x (get_or xs i d) (set xs i v))
      (Perm.trans (Perm.cons x (set-perm xs i v d (omega arith))) (Perm.swap v x xs))

get_or-set :
    {A : Type 0} (xs : List A) (i j : ℕ) (v d : A) → get_or xs j d ≡ v → get_or (set xs i v) j d ≡ v
get_or-set [] i j v d e = e
get_or-set (x ∷ xs) zero zero v d e = refl
get_or-set (x ∷ xs) zero (suc j) v d e = e
get_or-set (x ∷ xs) (suc i) zero v d e = e
get_or-set (x ∷ xs) (suc i) (suc j) v d e = get_or-set xs i j v d e

swap-perm : (i j : ℕ) (ids : List Str) → i < length ids → j < length ids → Perm (swap i j ids) ids
swap-perm i j ids hi hj = Perm.cons_inv (Perm.trans second first)
  where
    a : Str
    a = get_or ids i []

    b : Str
    b = get_or ids j []

    first : Perm (a ∷ set ids i b) (b ∷ ids)
    first = set-perm ids i b [] hi

    second : Perm (b ∷ swap i j ids) (a ∷ set ids i b)
    second =
        subst (λ x. Perm (x ∷ swap i j ids) (a ∷ set ids i b)) (get_or-set ids i j b [] refl)
          (set-perm (set ids i b) j a [] (omega (arith, length-set ids i b)))

length-swap : (i j : ℕ) (ids : List Str) → length (swap i j ids) ≡ length ids
length-swap i j ids = length-set (set ids i _) j _ ∙ length-set ids i _

shuffle_from-perm :
    (i : ℕ) (draws : List ℕ) (ids : List Str)
    → i ≤ length ids - 1
    → Perm (shuffle_from i draws ids) ids
unfolding shuffle_from
shuffle_from-perm zero draws ids h = Perm.refl ids
shuffle_from-perm (suc i) draws ids h =
    let j : ℕ = next_draw draws % (suc i + 1) in
    Perm.trans
      (shuffle_from-perm i (other_draws draws) (swap (suc i) j ids)
        (omega (arith, length-swap (suc i) j ids)))
      (swap-perm (suc i) j ids (omega arith) (omega arith))

-- Whatever numbers are drawn, the shuffle loses no ticket and makes none up.
pub shuffle-perm : (draws : List ℕ) (ids : List Str) → Perm (shuffle draws ids) ids
unfolding shuffle
shuffle-perm draws ids = shuffle_from-perm (length ids - 1) draws ids (omega arith)
