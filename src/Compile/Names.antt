-- ===== src/Compile/Names.antt =====
-- BackendName of control/internal/compile/compile.go.
use mathlib.Core.List.{append_assoc}
use flyc.Base.{
  ◌≡◌, refl, ap, [], ◌∷◌, ◌++◌, if◌then◌else◌, ◌==◌, Str, codes, Avoids, separated-injective,
}
use flyc.Compile.{underscored, backend_name}

underscored-append : (s t : Str) → underscored (s ++ t) ≡ underscored s ++ underscored t
unfolding underscored
underscored-append [] t = refl
underscored-append (c ∷ s) t = ap (◌∷◌ (if c == b'-' then b'_' else c)) (underscored-append s t)

underscored_same : (s : Str) → Avoids b'-' s → underscored s ≡ s
unfolding underscored
underscored_same [] h = refl
underscored_same (c ∷ s) h = rw (h.0, underscored_same s h.1) refl

tail_of : Str → Str
tail_of [] = []
tail_of (c ∷ s) = s

-- Two backends of one name on the load balancers are the same backend of the same tenant, where no
-- slug has a dash or an underscore.
pub backend_name-injective :
    (t n t' n' : Str)
    → Avoids b'-' t
    → Avoids b'_' t
    → Avoids b'-' n
    → Avoids b'-' t'
    → Avoids b'_' t'
    → Avoids b'-' n'
    → backend_name t n ≡ backend_name t' n'
    → (t ≡ t') × (n ≡ n')
unfolding backend_name tail_of
backend_name-injective t n t' n' a b c a' b' c' e =
    let whole : t ++ (codes "__" ++ n) ≡ t' ++ (codes "__" ++ n') = ap tail_of (
      ap tail_of (
        ap tail_of (
          rw
            (
              underscored_same t a,
              underscored_same n c,
              underscored_same t' a',
              underscored_same n' c',
            )
            at e))) in
    let parts = separated-injective b'_' t (b'_' ∷ n) t' (b'_' ∷ n') b b' whole in
    (parts.0, ap tail_of parts.1)

-- A pair of dashes, which the slugs may hold, reads as the separator: the backend `n` of the tenant
-- `a--b` and the backend `b--n` of the tenant `a` have one name on the load balancers.
pub backend_name_collides :
    (a b n : Str)
    → backend_name (a ++ (codes "--" ++ b)) n ≡ backend_name a (b ++ (codes "--" ++ n))
unfolding backend_name underscored
backend_name_collides a b n =
    ap (λ s. codes "bk_" ++ s)
      (rw (underscored-append a (codes "--" ++ b), underscored-append b (codes "--" ++ n))
        (append_assoc (underscored a) (codes "__" ++ underscored b) (codes "__" ++ underscored n)))
