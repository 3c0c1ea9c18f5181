-- ===== src/Control/AccessLaws.antt =====
-- Who reaches the handler of a tenant's route: control/internal/api/api.go and session.go.
use flyc.Base.{
  ◌≤◌, ◌≡◌, refl, sym, ap, subst, ◌∙◌, ◌⊎◌, inl, inr, Bool, true, false, ◌&&◌, not, List, [], ◌∷◌,
  Option, none, some, leb→le, if◌then◌else◌, drop, All, Str, codes, str_eq, str_eq→eq, has_prefix,
  trim_space, arith, Bool-cases,
}
use flyc.Accounts.{Crypto, User}
use flyc.Accounts.Sessions.{Found, broken, nobody, known_as, current}
use flyc.Control.{Db, Tenant, Membership, ApiKey, Answer, answer}
use flyc.Control.Account.{is_empty}
use flyc.Control.Roles.{Covers, role_rank-Covers}
use flyc.Control.Access.{
  Principal, no_one, role_rank, allows, Auth, denied, granted, db_error, header_missing, Request,
  AuthLuck, tenant_by_slug, tenant_by_id, key_by_hash, member_rows, joined_row, slug_fits,
  in_tenant, asked_tenant, as_member, of_user, of_found, of_owner, of_key, authenticate_session,
  authenticate, Handler, tenant_only, tenant,
}

-- Some member satisfies a predicate.
abbrev pub Any : {A : Type 0} → (A → Type 0) → List A → Type 0
Any P [] = ⊥
Any P (x ∷ xs) = P x ⊎ Any P xs

-- `limit 1` gives one of the rows.
abbrev pub IsFirst : (List (Tenant × Str) → Option (Tenant × Str)) → Type 1
IsFirst first =
    (P : Tenant × Str → Type 0) (rows : List (Tenant × Str)) (x : Tenant × Str)
    → first rows ≡ some x
    → All P rows
    → P x

-- A membership of a user in a tenant, with its role.
abbrev pub Member : Str → Str → Str → Membership → Type 0
Member user id role m = (m.user_id ≡ user) × (m.tenant_id ≡ id) × (m.role ≡ role)

abbrev Backed : Str → List Membership → Tenant × Str → Type 0
Backed user ms (t, role) = Any (Member user t.id role) ms

weaken :
    (user : Str) (m : Membership) (ms : List Membership) (rows : List (Tenant × Str))
    → All (Backed user ms) rows
    → All (Backed user (m ∷ ms)) rows
weaken user m ms [] a = tt
weaken user m ms (r ∷ rows) a = (inr a.0, weaken user m ms rows a.1)

tenant_by_id-id :
    (id : Str) (ts : List Tenant) (t : Tenant) → tenant_by_id id ts ≡ some t → t.id ≡ id
unfolding tenant_by_id
tenant_by_id-id id [] t h = absurd cc
tenant_by_id-id id (x ∷ ts) t h = elim (Bool-cases (str_eq x.id id)) [
  | inl e ↦
      let p : ◌≡◌ {A = Option Tenant} (some x) (some t) =
        sym (ap (λ b. if b then some x else tenant_by_id id ts) e) ∙ h in
      let q : x ≡ t = cc in ap (λ y. y.id) (sym q) ∙ str_eq→eq x.id id e
  | inr e ↦ tenant_by_id-id id ts t (sym (ap (λ b. if b then some x else tenant_by_id id ts) e) ∙ h)
]

joined_row-Backed :
    (user slug : Str) (ts : List Tenant) (m : Membership) (ms : List Membership) (o : Option Tenant)
    (rows : List (Tenant × Str))
    → tenant_by_id m.tenant_id ts ≡ o
    → All (Backed user (m ∷ ms)) rows
    → All (Backed user (m ∷ ms)) (joined_row user slug m o rows)
joined_row-Backed user slug ts m ms none rows e a = a
joined_row-Backed user slug ts m ms (some t) rows e a =
    elim (Bool-cases (str_eq m.user_id user && slug_fits slug t)) [
      | inr b ↦ rw b a
      | inl b ↦ rw b (
        inl (
          str_eq→eq m.user_id user (ground arith),
          sym (tenant_by_id-id m.tenant_id ts t e),
          refl,
        ),
        a,
      )
    ]

member_rows-Backed :
    (user slug : Str) (ts : List Tenant) (ms : List Membership)
    → All (Backed user ms) (member_rows user slug ts ms)
unfolding member_rows
member_rows-Backed user slug ts [] = tt
member_rows-Backed user slug ts (m ∷ ms) =
    joined_row-Backed user slug ts m ms (tenant_by_id m.tenant_id ts) (member_rows user slug ts ms)
      refl (weaken user m ms (member_rows user slug ts ms) (member_rows-Backed user slug ts ms))

only_read :
    (b : Bool) (o : Option ApiKey) (k : ApiKey) → (if b then o else none) ≡ some k → o ≡ some k
only_read true o k h = h
only_read false o k h = absurd cc

module _ (C : Crypto) (first : List (Tenant × Str) → Option (Tenant × Str)) where
  abbrev key_hash : Request → Str
  key_hash q = C.hash_token (trim_space (drop 7 q.authorization))

  -- A principal of an API key, or of a user with a live session, who is an administrator of the
  -- platform or has no tenant or a membership with the principal's role.
  abbrev pub IsKnown : AuthLuck → Request → Db → Principal → Type 0
  IsKnown l q db p =
      ((p.session ≡ false)
        × ((k : ApiKey) × (key_by_hash (key_hash q) db.keys ≡ some k)
            × ((k.tenant_id ≡ some p.tenant_id) ⊎ (k.tenant_id ≡ none))))
      ⊎ ((u : User) × ((current C l.session_ok l.slide_ok q.visit l.now db.tables).0 ≡ known_as u)
          × (p.session ≡ true)
          × (p.platform ≡ u.platform_admin)
          × ((u.platform_admin ≡ true)
              ⊎ ((p.tenant_id ≡ []) ⊎ Any (Member u.id p.tenant_id p.role) db.memberships)))

  -- What an authentication that is granted went through.
  abbrev Grants : (Principal → Type 0) → Auth → Type 0
  Grants P (denied e) = Unit
  Grants P (granted p) = P p

  asked_tenant-Grants :
      (P : Principal → Type 0) (l : AuthLuck) (p : Principal) (slug : Str) (ts : List Tenant)
      → P p
      → ((id name : Str) → P (record p { tenant_id = id; tenant = name }))
      → Grants P (asked_tenant C first l p slug ts)
  asked_tenant-Grants P l p slug ts a b = elim (Bool-cases (is_empty slug)) [
    | inl e ↦ rw e a
    | inr e ↦ rw e (by_tenant (if l.tenant_ok then tenant_by_slug slug ts else none))
  ]
    where
      by_tenant : (o : Option Tenant) → Grants P (in_tenant C first p o)
      by_tenant none = tt
      by_tenant (some t) = b t.id t.slug

  as_member-Grants :
      (P : Principal → Type 0) (p : Principal) (slug : Str) (o : Option (Tenant × Str))
      → P p
      → ((t : Tenant) (role : Str)
          → o ≡ some (t, role)
          → P (record p { tenant_id = t.id; tenant = t.slug; role = role }))
      → Grants P (as_member C first p slug o)
  as_member-Grants P p slug none a b = elim (Bool-cases (is_empty slug)) [
    | inl e ↦ rw e a
    | inr e ↦ rw e tt
  ]
  as_member-Grants P p slug (some (t, role)) a b = b t role refl

  of_user-Grants :
      (l : AuthLuck) (q : Request) (db : Db) (u : User)
      → IsFirst first
      → (current C l.session_ok l.slide_ok q.visit l.now db.tables).0 ≡ known_as u
      → Grants (IsKnown l q db) (of_user C first l q db u)
  of_user-Grants l q db u law known =
      elim (Bool-cases
        (not (str_eq q.method (codes "GET")) && not (str_eq q.requested_with (codes "flyc")))) [
          | inl e ↦
              subst (λ b. Grants (IsKnown l q db) (if b then denied header_missing else rest))
                (sym e) tt
          | inr e ↦
              subst (λ b. Grants (IsKnown l q db) (if b then denied header_missing else rest))
                (sym e) granted_rest
        ]
    where
      p : Principal
      p = record no_one { user = some u; session = true; platform = u.platform_admin }

      owner : Auth
      owner = asked_tenant C first l (record p { role = codes "owner" }) q.tenant db.tenants

      member : Auth
      member =
          as_member C first p q.tenant (first (member_rows u.id q.tenant db.tenants db.memberships))

      rest : Auth
      rest = if u.platform_admin then owner else if l.member_ok then member else denied db_error

      mine :
          (v : Principal)
          → v.session ≡ true
          → v.platform ≡ u.platform_admin
          → (u.platform_admin ≡ true)
            ⊎ ((v.tenant_id ≡ []) ⊎ Any (Member u.id v.tenant_id v.role) db.memberships)
          → IsKnown l q db v
      mine v s f h = inr (u, known, s, f, h)

      granted_rest : Grants (IsKnown l q db) rest
      granted_rest = elim (Bool-cases u.platform_admin) [
        | inl a ↦
            subst
              (λ b.
                Grants (IsKnown l q db)
                  (if b then owner else if l.member_ok then member else denied db_error))
              (sym a)
              (asked_tenant-Grants (IsKnown l q db) l (record p { role = codes "owner" }) q.tenant
                db.tenants (mine (record p { role = codes "owner" }) refl refl (inl a))
                (λ id name.
                  mine (record p { role = codes "owner"; tenant_id = id; tenant = name }) refl refl
                    (inl a)))
        | inr a ↦
            subst
              (λ b.
                Grants (IsKnown l q db)
                  (if b then owner else if l.member_ok then member else denied db_error))
              (sym a)
              (elim (Bool-cases l.member_ok) [
                | inl m ↦
                    subst (λ b. Grants (IsKnown l q db) (if b then member else denied db_error))
                      (sym m)
                      (as_member-Grants (IsKnown l q db) p q.tenant
                        (first (member_rows u.id q.tenant db.tenants db.memberships))
                        (mine p refl refl (inr (inl refl)))
                        (λ t role e.
                          mine (record p { tenant_id = t.id; tenant = t.slug; role = role }) refl
                            refl
                            (inr (
                              inr (
                                law (Backed u.id db.memberships)
                                  (member_rows u.id q.tenant db.tenants db.memberships) (t, role) e
                                  (member_rows-Backed u.id q.tenant db.tenants db.memberships))))))
                | inr m ↦
                    subst (λ b. Grants (IsKnown l q db) (if b then member else denied db_error))
                      (sym m) tt
              ])
      ]

  of_key-Grants :
      (l : AuthLuck) (q : Request) (db : Db) (o : Option ApiKey)
      → ((k : ApiKey) → o ≡ some k → key_by_hash (key_hash q) db.keys ≡ some k)
      → Grants (IsKnown l q db) (of_key C first l q db o)
  of_key-Grants l q db none h = tt
  of_key-Grants l q db (some k) h = by_owner k.tenant_id refl
    where
      by_owner :
          (o : Option Str)
          → k.tenant_id ≡ o
          → Grants (IsKnown l q db) (of_owner C first l q db (record no_one { key_id = k.id }) o)
      by_owner none e =
          asked_tenant-Grants (IsKnown l q db) l (record no_one { key_id = k.id; platform = true })
            q.tenant db.tenants (inl (refl, (k, h k refl, inr e)))
            (λ id name. inl (refl, (k, h k refl, inr e)))
      by_owner (some id) e = inl (refl, (k, h k refl, inl e))

  of_found-Grants :
      (l : AuthLuck) (q : Request) (db : Db) (f : Found)
      → IsFirst first
      → (current C l.session_ok l.slide_ok q.visit l.now db.tables).0 ≡ f
      → Grants (IsKnown l q db) (of_found C first l q db f)
  of_found-Grants l q db broken law e = tt
  of_found-Grants l q db nobody law e = tt
  of_found-Grants l q db (known_as u) law e = of_user-Grants l q db u law e

  authenticate-Grants :
      (l : AuthLuck) (q : Request) (db : Db)
      → IsFirst first
      → Grants (IsKnown l q db) (authenticate C first l q db).0
  unfolding authenticate authenticate_session
  authenticate-Grants l q db law =
      elim (Bool-cases (has_prefix (codes "Bearer ") q.authorization)) [
        | inl e ↦
            subst
              (λ b.
                Grants (IsKnown l q db)
                  (if◌then◌else◌ {A = Auth × Db} b (of_key C first l q db row, db)
                    (authenticate_session C first l q db)).0)
              (sym e) (of_key-Grants l q db row found)
        | inr e ↦
            subst
              (λ b.
                Grants (IsKnown l q db)
                  (if◌then◌else◌ {A = Auth × Db} b (of_key C first l q db row, db)
                    (authenticate_session C first l q db)).0)
              (sym e)
              (of_found-Grants l q db (current C l.session_ok l.slide_ok q.visit l.now db.tables).0
                law refl)
      ]
    where
      row : Option ApiKey
      row = if l.key_ok then key_by_hash (key_hash q) db.keys else none

      found : (k : ApiKey) → row ≡ some k → key_by_hash (key_hash q) db.keys ≡ some k
      found k h = only_read l.key_ok (key_by_hash (key_hash q) db.keys) k h

  -- The principal may do what the route's role stands for.
  abbrev pub IsEntitled : AuthLuck → Request → Db → Str → Principal → Type 0
  IsEntitled l q db min_role p =
      IsKnown l q db p
      × (is_empty p.tenant_id ≡ false)
      × (((p.session ≡ false) ⊎ (p.platform ≡ true)) ⊎ Covers min_role p.role)

  allows-cases :
      (p : Principal) (min_role : Str)
      → allows p min_role ≡ true
      → ((p.session ≡ false) ⊎ (p.platform ≡ true)) ⊎ Covers min_role p.role
  unfolding allows
  allows-cases p min_role h = elim (Bool-cases p.session) [
    | inr s ↦ inl (inl s)
    | inl s ↦ elim (Bool-cases p.platform) [
      | inl f ↦ inl (inr f)
      | inr f ↦ inr (
          role_rank-Covers min_role p.role
            (leb→le (role_rank min_role) (role_rank p.role) (ground arith)))
    ]
  ]

  tenant_only-lem :
      (P : Principal → Type 0) (min_role : Str) (h : Handler C first) (a : Auth) (db : Db)
      → Grants P a
      → ((p : Principal) × (P p × (is_empty p.tenant_id ≡ false) × (allows p min_role ≡ true))
          × (tenant_only C first min_role h a db ≡ h p db))
        ⊎ ((r : Answer) × (400 ≤ r.status) × (tenant_only C first min_role h a db ≡ (r, db)))
  tenant_only-lem P min_role h (denied e) db g =
      inr (answer 401 (codes "unauthorized"), omega arith, refl)
  tenant_only-lem P min_role h (granted p) db g = elim (Bool-cases (is_empty p.tenant_id)) [
    | inl e ↦
        inr (answer 400 (codes "no_tenant"), omega arith, ap (λ b. pick b (allows p min_role)) e)
    | inr e ↦ elim (Bool-cases (allows p min_role)) [
      | inl a ↦ inl (p, (g, e, a), ap (λ b. pick b (allows p min_role)) e ∙ ap (pick false) a)
      | inr a ↦ inr (
        answer 403 (codes "forbidden"),
        omega arith,
        ap (λ b. pick b (allows p min_role)) e ∙ ap (pick false) a,
      )
    ]
  ]
    where
      pick : Bool → Bool → Answer × Db
      pick b d =
          if b
          then (answer 400 (codes "no_tenant"), db)
          else if d
          then h p db
          else (answer 403 (codes "forbidden"), db)

  -- A route of a tenant either refuses the request, and changes nothing but the session that it
  -- prolongs, or runs its handler for a principal of a tenant: one with an API key of the tenant or of the
  -- platform, or a user with a live session who is an administrator of the platform or has a
  -- membership in this very tenant with a role that ranks as high as the route asks, in the order
  -- viewer, operator, admin, owner.
  pub tenant-IsEntitled :
      (min_role : Str) (h : Handler C first) (l : AuthLuck) (q : Request) (db : Db)
      → IsFirst first
      → let db' = (authenticate C first l q db).1 in
        ((p : Principal) × IsEntitled l q db min_role p
          × (tenant C first min_role h l q db ≡ h p db'))
        ⊎ ((r : Answer) × (400 ≤ r.status) × (tenant C first min_role h l q db ≡ (r, db')))
  unfolding tenant
  tenant-IsEntitled min_role h l q db law =
      elim (tenant_only-lem (IsKnown l q db) min_role h (authenticate C first l q db).0
        (authenticate C first l q db).1 (authenticate-Grants l q db law)) [
          | inl (p, (known, filled, allowed), runs) ↦
              inl (p, (known, filled, allows-cases p min_role allowed), runs)
          | inr r ↦ inr r
        ]
