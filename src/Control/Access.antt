-- ===== src/Control/Access.antt =====
-- control/internal/api/api.go and session.go: who makes a request, and what the routes ask of it.
use flyc.Base.{
  ℕ, Bool, true, false, ◌&&◌, ◌||◌, not, List, [], ◌∷◌, Option, none, some, leb, if◌then◌else◌,
  drop, Str, codes, str_eq, has_prefix, trim_space,
}
use flyc.Accounts.{Crypto, User}
use flyc.Accounts.Sessions.{Visit, Found, broken, nobody, known_as, current}
use flyc.Control.{Db, Tenant, Membership, ApiKey, Answer, answer}
use flyc.Control.Account.{is_empty, with_tables}

pub record Principal : Type 0 where
  pub key_id : Str
  pub tenant_id : Str
  pub tenant : Str
  pub platform : Bool
  pub role : Str
  pub user : Option User
  pub session : Bool

abbrev pub no_one : Principal
no_one = record {
  key_id = [];
  tenant_id = [];
  tenant = [];
  platform = false;
  role = [];
  user = none;
  session = false;
}

unfoldable pub role_rank : Str → ℕ
role_rank role =
    if str_eq role (codes "viewer")
    then 1
    else if str_eq role (codes "operator")
    then 2
    else if str_eq role (codes "admin")
    then 3
    else if str_eq role (codes "owner")
    then 4
    else 0

unfoldable pub allows : Principal → Str → Bool
unfolding role_rank
allows p min_role = (not p.session || p.platform) || leb (role_rank min_role) (role_rank p.role)

pub data AuthError : Type 0 where
  db_error not_connected header_missing unknown_tenant not_member bad_key : AuthError

pub data Auth : Type 0 where
  denied : AuthError → Auth
  granted : Principal → Auth

pub record Request : Type 0 where
  pub method : Str
  pub authorization : Str
  pub requested_with : Str
  pub tenant : Str
  pub visit : Visit

-- Which statements of the authentication succeed.
pub record AuthLuck : Type 0 where
  pub key_ok : Bool
  pub session_ok : Bool
  pub slide_ok : Bool
  pub tenant_ok : Bool
  pub member_ok : Bool
  pub now : ℕ

pub tenant_by_slug : Str → List Tenant → Option Tenant
tenant_by_slug slug [] = none
tenant_by_slug slug (t ∷ ts) =
    let rest = tenant_by_slug slug ts in if str_eq t.slug slug then some t else rest

unfoldable pub tenant_by_id : Str → List Tenant → Option Tenant
tenant_by_id id [] = none
tenant_by_id id (t ∷ ts) = let rest = tenant_by_id id ts in if str_eq t.id id then some t else rest

pub key_by_hash : Str → List ApiKey → Option ApiKey
key_by_hash h [] = none
key_by_hash h (k ∷ ks) = let rest = key_by_hash h ks in if str_eq k.key_hash h then some k else rest

abbrev pub slug_fits : Str → Tenant → Bool
slug_fits slug t = is_empty slug || str_eq t.slug slug

abbrev pub joined_row :
    Str → Str → Membership → Option Tenant → List (Tenant × Str) → List (Tenant × Str)
joined_row user slug m none rest = rest
joined_row user slug m (some t) rest =
    if str_eq m.user_id user && slug_fits slug t then (t, m.role) ∷ rest else rest

-- `memberships m join tenants t on t.id=m.tenant_id where m.user_id=$1`, and `and t.slug=$2` where a
-- tenant is asked for.
unfoldable pub member_rows : Str → Str → List Tenant → List Membership → List (Tenant × Str)
unfolding tenant_by_id
member_rows user slug ts [] = []
member_rows user slug ts (m ∷ ms) =
    joined_row user slug m (tenant_by_id m.tenant_id ts) (member_rows user slug ts ms)

-- `order by t.slug limit 1` is the parameter `first`.
module _ (C : Crypto) (first : List (Tenant × Str) → Option (Tenant × Str)) where
  abbrev pub in_tenant : Principal → Option Tenant → Auth
  in_tenant p none = denied unknown_tenant
  in_tenant p (some t) = granted (record p { tenant_id = t.id; tenant = t.slug })

  -- A tenant that is asked for by its slug, on the platform's behalf.
  abbrev pub asked_tenant : AuthLuck → Principal → Str → List Tenant → Auth
  asked_tenant l p slug ts =
      if is_empty slug
      then granted p
      else in_tenant p (if l.tenant_ok then tenant_by_slug slug ts else none)

  abbrev pub as_member : Principal → Str → Option (Tenant × Str) → Auth
  as_member p slug none = if is_empty slug then granted p else denied not_member
  as_member p slug (some (t, role)) =
      granted (record p { tenant_id = t.id; tenant = t.slug; role = role })

  abbrev pub of_user : AuthLuck → Request → Db → User → Auth
  of_user l q db u =
      let p = record no_one { user = some u; session = true; platform = u.platform_admin } in
      if not (str_eq q.method (codes "GET")) && not (str_eq q.requested_with (codes "flyc"))
      then denied header_missing
      else if u.platform_admin
      then asked_tenant l (record p { role = codes "owner" }) q.tenant db.tenants
      else if l.member_ok
      then as_member p q.tenant (first (member_rows u.id q.tenant db.tenants db.memberships))
      else denied db_error

  abbrev pub of_found : AuthLuck → Request → Db → Found → Auth
  of_found l q db broken = denied db_error
  of_found l q db nobody = denied not_connected
  of_found l q db (known_as u) = of_user l q db u

  unfoldable pub authenticate_session : AuthLuck → Request → Db → Auth × Db
  unfolding current member_rows tenant_by_slug
  authenticate_session l q db =
      let (found, t) = current C l.session_ok l.slide_ok q.visit l.now db.tables in
      (of_found l q db found, with_tables t db)

  abbrev slug_of : Option Tenant → Str
  slug_of none = []
  slug_of (some t) = t.slug

  abbrev pub of_owner : AuthLuck → Request → Db → Principal → Option Str → Auth
  of_owner l q db p none = asked_tenant l (record p { platform = true }) q.tenant db.tenants
  of_owner l q db p (some id) =
      granted (record p { tenant_id = id; tenant = slug_of (tenant_by_id id db.tenants) })

  abbrev pub of_key : AuthLuck → Request → Db → Option ApiKey → Auth
  of_key l q db none = denied bad_key
  of_key l q db (some k) = of_owner l q db (record no_one { key_id = k.id }) k.tenant_id

  -- The key behind `Bearer `; without it the cookie decides.
  unfoldable pub authenticate : AuthLuck → Request → Db → Auth × Db
  unfolding authenticate_session key_by_hash tenant_by_id tenant_by_slug has_prefix
  authenticate l q db =
      if has_prefix (codes "Bearer ") q.authorization
      then (
        of_key l q db (
            if l.key_ok
            then key_by_hash (C.hash_token (trim_space (drop 7 q.authorization))) db.keys
            else none),
        db,
      )
      else authenticate_session l q db

  abbrev pub Handler : Type 0
  Handler = Principal → Db → Answer × Db

  abbrev pub platform_only : Handler → Auth → Db → Answer × Db
  platform_only h (denied e) db = (answer 401 (codes "unauthorized"), db)
  platform_only h (granted p) db =
      if p.platform then h p db else (answer 403 (codes "forbidden"), db)

  unfoldable platform : Handler → AuthLuck → Request → Db → Answer × Db
  unfolding authenticate
  platform h l q db = let (a, db') = authenticate l q db in platform_only h a db'

  abbrev pub tenant_only : Str → Handler → Auth → Db → Answer × Db
  tenant_only min_role h (denied e) db = (answer 401 (codes "unauthorized"), db)
  tenant_only min_role h (granted p) db =
      if is_empty p.tenant_id
      then (answer 400 (codes "no_tenant"), db)
      else if allows p min_role
      then h p db
      else (answer 403 (codes "forbidden"), db)

  -- A route of a tenant, with the least role that a session needs for it.
  unfoldable pub tenant : Str → Handler → AuthLuck → Request → Db → Answer × Db
  unfolding authenticate allows
  tenant min_role h l q db = let (a, db') = authenticate l q db in tenant_only min_role h a db'

  abbrev pub session_only : Handler → Auth → Db → Answer × Db
  session_only h (denied e) db = (answer 401 (codes "unauthorized"), db)
  session_only h (granted p) db = h p db

  unfoldable session : Handler → AuthLuck → Request → Db → Answer × Db
  unfolding authenticate_session
  session h l q db = let (a, db') = authenticate_session l q db in session_only h a db'
