-- ===== src/Control/References.antt =====
-- What the domain, the backend and the date of a room's row refer to: upsertRoom of
-- control/internal/api/tenant.go.
use mathlib.Core.List.{Memᴰ}
use mathlib.Core.List.Memᴰ.{head, tail}
use flyc.Base.{
  ℕ, ◌≡◌, refl, sym, ap, subst, ◌∙◌, ◌⊎◌, inl, inr, Bool, true, false, ◌&&◌, List, [], ◌∷◌, Option,
  none, some, if◌then◌else◌, Str, str_eq, str_eq→eq, to_lower, arith, Bool-cases,
}
use flyc.Control.{Db, Domain, BackendRow}
use flyc.Control.Account.{is_empty}
use flyc.Control.Rooms.{find_domain, find_backend}
use flyc.Control.RoomRoutes.{
  Reference, absent, found, opening, domain_reference, backend_reference, is_unknown,
}

-- What a row refers to as its domain: none where the request names none, and else the domain of
-- the tenant with that name, in lower case.
abbrev pub RefersToDomain : Str → Str → Db → Reference → Type 0
RefersToDomain tenant fqdn db r =
    ((fqdn ≡ []) × (r ≡ absent))
    ⊎ ((d : Domain) × (r ≡ found d.id)
        × Memᴰ d db.domains
        × (d.tenant_id ≡ tenant)
        × (d.fqdn ≡ to_lower fqdn))

abbrev pub RefersToBackend : Str → Str → Db → Reference → Type 0
RefersToBackend tenant name db r =
    ((name ≡ []) × (r ≡ absent))
    ⊎ ((b : BackendRow) × (r ≡ found b.id)
        × Memᴰ b db.backends
        × (b.tenant_id ≡ tenant)
        × (b.name ≡ name))

-- The instant of the opening is that of the request, where it gives one.
abbrev pub OpensAt : (Str → Option ℕ) → Option Str → Option ℕ → Type 0
OpensAt parse_time none opens = opens ≡ none
OpensAt parse_time (some text) opens =
    ((text ≡ []) × (opens ≡ none)) ⊎ ((t : ℕ) × (parse_time text ≡ some t) × (opens ≡ some t))

find_domain_sound :
    (tenant fqdn : Str) (ds : List Domain) (d : Domain)
    → find_domain tenant fqdn ds ≡ some d
    → Memᴰ d ds × (d.tenant_id ≡ tenant) × (d.fqdn ≡ fqdn)
unfolding find_domain
find_domain_sound tenant fqdn [] d h = absurd cc
find_domain_sound tenant fqdn (x ∷ ds) d h =
    elim (Bool-cases (str_eq x.tenant_id tenant && str_eq x.fqdn fqdn)) [
      | inl e ↦
          let p : ◌≡◌ {A = Option Domain} (some x) (some d) =
            sym (ap (λ b. if b then some x else find_domain tenant fqdn ds) e) ∙ h in
          let q : x ≡ d = cc in
          (
            subst (λ y. Memᴰ y (x ∷ ds)) q (head refl),
            sym (ap (λ y. y.tenant_id) q) ∙ str_eq→eq x.tenant_id tenant (ground arith),
            sym (ap (λ y. y.fqdn) q) ∙ str_eq→eq x.fqdn fqdn (ground arith),
          )
      | inr e ↦
          let (m, t, f) =
            find_domain_sound tenant fqdn ds d
              (sym (ap (λ b. if b then some x else find_domain tenant fqdn ds) e) ∙ h) in
          (tail m, t, f)
    ]

find_backend_sound :
    (tenant name : Str) (bs : List BackendRow) (b : BackendRow)
    → find_backend tenant name bs ≡ some b
    → Memᴰ b bs × (b.tenant_id ≡ tenant) × (b.name ≡ name)
unfolding find_backend
find_backend_sound tenant name [] b h = absurd cc
find_backend_sound tenant name (x ∷ bs) b h =
    elim (Bool-cases (str_eq x.tenant_id tenant && str_eq x.name name)) [
      | inl e ↦
          let p : ◌≡◌ {A = Option BackendRow} (some x) (some b) =
            sym (ap (λ t. if t then some x else find_backend tenant name bs) e) ∙ h in
          let q : x ≡ b = cc in
          (
            subst (λ y. Memᴰ y (x ∷ bs)) q (head refl),
            sym (ap (λ y. y.tenant_id) q) ∙ str_eq→eq x.tenant_id tenant (ground arith),
            sym (ap (λ y. y.name) q) ∙ str_eq→eq x.name name (ground arith),
          )
      | inr e ↦
          let (m, t, f) =
            find_backend_sound tenant name bs b
              (sym (ap (λ t. if t then some x else find_backend tenant name bs) e) ∙ h) in
          (tail m, t, f)
    ]

-- A reference that the checks let pass.
abbrev pub looked_up_domain : Str → Str → Db → Bool → Reference
looked_up_domain tenant fqdn db ok =
    if is_empty fqdn
    then absent
    else domain_reference (if ok then find_domain tenant (to_lower fqdn) db.domains else none)

abbrev pub looked_up_backend : Str → Str → Db → Bool → Reference
looked_up_backend tenant name db ok =
    if is_empty name
    then absent
    else backend_reference (if ok then find_backend tenant name db.backends else none)

pub looked_up_domain_sound :
    (tenant fqdn : Str) (db : Db) (ok : Bool)
    → is_unknown (looked_up_domain tenant fqdn db ok) ≡ false
    → RefersToDomain tenant fqdn db (looked_up_domain tenant fqdn db ok)
looked_up_domain_sound tenant [] db ok h = inl (refl, refl)
looked_up_domain_sound tenant (c ∷ s) db false h = absurd cc
looked_up_domain_sound tenant (c ∷ s) db true h =
    known (find_domain tenant (to_lower (c ∷ s)) db.domains) refl h
  where
    known :
        (o : Option Domain)
        → find_domain tenant (to_lower (c ∷ s)) db.domains ≡ o
        → is_unknown (domain_reference o) ≡ false
        → RefersToDomain tenant (c ∷ s) db (domain_reference o)
    known none e h = absurd cc
    known (some d) e h =
        let (m, t, n) = find_domain_sound tenant (to_lower (c ∷ s)) db.domains d e in
        inr (d, refl, m, t, n)

pub looked_up_backend_sound :
    (tenant name : Str) (db : Db) (ok : Bool)
    → is_unknown (looked_up_backend tenant name db ok) ≡ false
    → RefersToBackend tenant name db (looked_up_backend tenant name db ok)
looked_up_backend_sound tenant [] db ok h = inl (refl, refl)
looked_up_backend_sound tenant (c ∷ s) db false h = absurd cc
looked_up_backend_sound tenant (c ∷ s) db true h =
    known (find_backend tenant (c ∷ s) db.backends) refl h
  where
    known :
        (o : Option BackendRow)
        → find_backend tenant (c ∷ s) db.backends ≡ o
        → is_unknown (backend_reference o) ≡ false
        → RefersToBackend tenant (c ∷ s) db (backend_reference o)
    known none e h = absurd cc
    known (some b) e h =
        let (m, t, n) = find_backend_sound tenant (c ∷ s) db.backends b e in inr (b, refl, m, t, n)

pub opening_sound :
    (parse_time : Str → Option ℕ) (text : Option Str) (opens : Option ℕ)
    → opening parse_time text ≡ some opens
    → OpensAt parse_time text opens
opening_sound parse_time none opens h = cc
opening_sound parse_time (some []) opens h = inl (refl, cc)
opening_sound parse_time (some (c ∷ s)) opens h = at (parse_time (c ∷ s)) refl h
  where
    at :
        (o : Option ℕ)
        → parse_time (c ∷ s) ≡ o
        → ◌≡◌ {A = Option (Option ℕ)} (elim o [ none ↦ none | some t ↦ some (some t) ]) (some opens)
        → OpensAt parse_time (some (c ∷ s)) opens
    at none e h = absurd cc
    at (some t) e h = inr (t, e, cc)
