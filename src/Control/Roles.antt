-- ===== src/Control/Roles.antt =====
-- The order of the roles of a membership: roleRank of control/internal/api/api.go.
use flyc.Base.{
  ℕ, ◌≡◌, ◌≢◌, ◌≤◌, refl, ◌⊎◌, inl, inr, Str, codes, str_eq, str_eq→eq, str_eq_refl, subst, false,
  arith, Bool-cases,
}
use flyc.Control.Access.{role_rank}

-- A role and its place: viewer, operator, admin, owner, and 0 for any other text.
abbrev pub Place : Str → ℕ → Type 0
Place role n =
    ((role ≡ codes "viewer") × (n ≡ 1))
    ⊎ ((role ≡ codes "operator") × (n ≡ 2))
    ⊎ ((role ≡ codes "admin") × (n ≡ 3))
    ⊎ ((role ≡ codes "owner") × (n ≡ 4))
    ⊎ ((role ≢ codes "viewer")
        × (role ≢ codes "operator")
        × (role ≢ codes "admin")
        × (role ≢ codes "owner")
        × (n ≡ 0))

-- The second role may do what the first may.
abbrev pub Covers : Str → Str → Type 0
Covers min_role role = (m n : ℕ) × Place min_role m × Place role n × (m ≤ n)

other : (a b : Str) → str_eq a b ≡ false → a ≢ b
other a b e same =
    let t : str_eq b b ≡ false = subst (λ z. str_eq z b ≡ false) same e in
    absurd (ground (arith, str_eq_refl b))

role_rank-Place : (role : Str) → Place role (role_rank role)
unfolding role_rank
role_rank-Place role = elim (Bool-cases (str_eq role (codes "viewer"))) [
  | inl v ↦ inl (str_eq→eq role (codes "viewer") v, rw v refl)
  | inr v ↦ elim (Bool-cases (str_eq role (codes "operator"))) [
    | inl o ↦ inr (inl (str_eq→eq role (codes "operator") o, rw (v, o) refl))
    | inr o ↦ elim (Bool-cases (str_eq role (codes "admin"))) [
      | inl a ↦ inr (inr (inl (str_eq→eq role (codes "admin") a, rw (v, o, a) refl)))
      | inr a ↦ elim (Bool-cases (str_eq role (codes "owner"))) [
        | inl w ↦ inr (inr (inr (inl (str_eq→eq role (codes "owner") w, rw (v, o, a, w) refl))))
        | inr w ↦ inr (
            inr (
              inr (
                inr (
                  other role (codes "viewer") v,
                  other role (codes "operator") o,
                  other role (codes "admin") a,
                  other role (codes "owner") w,
                  rw (v, o, a, w) refl,
                ))))
      ]
    ]
  ]
]

pub role_rank-Covers :
    (min_role role : Str) → role_rank min_role ≤ role_rank role → Covers min_role role
role_rank-Covers min_role role h =
    (role_rank min_role, role_rank role, role_rank-Place min_role, role_rank-Place role, h)
