-- ===== src/Control/Rooms.antt =====
-- control/internal/api/tenant.go: the domains and the rooms of a tenant, of which the principal `p` is.
-- `ok` says which statements of SQL succeed; the journal and the push that follow a change are left out.
use flyc.Base.{
  ℕ, Bool, true, false, ◌&&◌, ◌||◌, not, List, [], ◌∷◌, Option, none, some, leb, ltb, ◌==◌,
  if◌then◌else◌, length, Str, codes, str_eq, to_lower, trim_space, split, ℤ, pos, negsuc,
}
use flyc.Control.{Db, Domain, BackendRow, RoomRow, Answer, answer}
use flyc.Control.Access.{Principal}

-- The errors of a write that dbErr tells apart.
pub data WriteError : Type 0 where
  conflict invalid other : WriteError

abbrev pub db_err : WriteError → Answer
db_err conflict = answer 409 (codes "conflict")
db_err invalid = answer 400 (codes "invalid")
db_err other = answer 500 (codes "db")

unfoldable pub one_of : Str → List Str → Bool
one_of s [] = false
one_of s (x ∷ xs) = str_eq s x || one_of s xs

abbrev is_lower_or_digit : ℕ → Bool
is_lower_or_digit c = (leb b'a' c && leb c b'z') || (leb b'0' c && leb c b'9')

-- The rest of a label: a dash does not stand last.
label_rest : Str → Bool
label_rest [] = true
label_rest (c ∷ []) = is_lower_or_digit c
label_rest (c ∷ d ∷ s) = let rest = label_rest (d ∷ s) in (is_lower_or_digit c || c == b'-') && rest

is_label : Str → Bool
unfolding label_rest
is_label [] = false
is_label (c ∷ s) = is_lower_or_digit c && (label_rest s && leb (length s) 62)

all_letters : Str → Bool
all_letters [] = true
all_letters (c ∷ s) = (leb b'a' c && leb c b'z') && all_letters s

are_labels : List Str → Bool
unfolding is_label all_letters
are_labels [] = false
are_labels (top ∷ []) = false
are_labels (l ∷ top ∷ []) =
    is_label l && (all_letters top && (leb 2 (length top) && leb (length top) 63))
are_labels (l ∷ m ∷ n ∷ ls) = let rest = are_labels (m ∷ n ∷ ls) in is_label l && rest

-- fqdnRe
is_fqdn : Str → Bool
unfolding are_labels split
is_fqdn s = are_labels (split b'.' s)

-- strings.TrimSuffix with ".".
trim_dot : Str → Str
trim_dot [] = []
trim_dot (c ∷ []) = if c == b'.' then [] else c ∷ []
trim_dot (c ∷ d ∷ s) = c ∷ trim_dot (d ∷ s)

pub record DomainIn : Type 0 where
  pub fqdn : Str
  pub mode : Str
  pub tls : Str

has_fqdn : Str → List Domain → Bool
has_fqdn fqdn [] = false
has_fqdn fqdn (d ∷ ds) = str_eq d.fqdn fqdn || has_fqdn fqdn ds

abbrev pub or_default : Str → Str → Str
or_default d [] = d
or_default d (c ∷ s) = c ∷ s

-- The constraints of the table: the modes, the ways of TLS, and one row for a name.
abbrev insert_domain : Bool → Domain → Db → Answer × Db
insert_domain ok d db =
    if not ok
    then (db_err other, db)
    else if not (
        one_of d.mode (codes "dns" ∷ codes "iframe" ∷ [])
        && one_of d.tls (codes "auto" ∷ codes "none" ∷ []))
    then (db_err invalid, db)
    else if has_fqdn d.fqdn db.domains
    then (db_err conflict, db)
    else (answer 201 (codes "created"), record db { domains = d ∷ db.domains })

unfoldable create_domain : Bool → Str → Principal → Option DomainIn → Db → Answer × Db
unfolding is_fqdn trim_dot has_fqdn one_of to_lower trim_space
create_domain ok id p none db = (answer 400 (codes "bad_json"), db)
create_domain ok id p (some i) db =
    let fqdn = to_lower (trim_dot (trim_space i.fqdn)) in
    if not (is_fqdn fqdn)
    then (answer 400 (codes "invalid"), db)
    else insert_domain ok
        (record {
          id = id;
          tenant_id = p.tenant_id;
          fqdn = fqdn;
          mode = or_default (codes "dns") i.mode;
          tls = or_default (codes "auto") i.tls;
        })
        db

-- `where tenant_id=$1 and fqdn=$2`
unfoldable pub find_domain : Str → Str → List Domain → Option Domain
find_domain tenant fqdn [] = none
find_domain tenant fqdn (d ∷ ds) =
    let rest = find_domain tenant fqdn ds in
    if str_eq d.tenant_id tenant && str_eq d.fqdn fqdn then some d else rest

unfoldable pub find_backend : Str → Str → List BackendRow → Option BackendRow
find_backend tenant name [] = none
find_backend tenant name (b ∷ bs) =
    let rest = find_backend tenant name bs in
    if str_eq b.tenant_id tenant && str_eq b.name name then some b else rest

pub record RoomIn : Type 0 where
  pub slug : Str
  pub title : Str
  pub domain : Str
  pub backend : Str
  pub state : Str
  pub rate : ℤ
  pub max_active : ℤ
  pub wave_s : ℤ
  pub pass_ttl_s : ℤ
  pub opens_at : Option Str
  pub theme : List (Str × Str)
  pub auto_on : ℤ
  pub auto_off : ℤ

abbrev pub is_positive : ℤ → Bool
is_positive (pos n) = ltb 0 n
is_positive (negsuc n) = false

abbrev pub below : ℤ → ℤ → Bool
below (pos m) (pos n) = ltb m n
below (pos m) (negsuc n) = false
below (negsuc m) (pos n) = true
below (negsuc m) (negsuc n) = ltb n m

abbrev pub or_positive : ℤ → ℤ → ℤ
or_positive d n = if is_positive n then n else d

unfoldable pub known_theme : List (Str × Str) → List (Str × Str)
unfolding one_of
known_theme [] = []
known_theme ((k, v) ∷ t) =
    let rest = known_theme t in
    if one_of k (codes "accent" ∷ codes "logo_url" ∷ codes "message" ∷ codes "lang" ∷ [])
    then (k, v) ∷ rest
    else rest

abbrev pub is_room : Str → Str → RoomRow → Bool
is_room tenant slug r = str_eq r.tenant_id tenant && str_eq r.slug slug

unfoldable pub find_room : Str → Str → List RoomRow → Option RoomRow
find_room tenant slug [] = none
find_room tenant slug (r ∷ rs) =
    let rest = find_room tenant slug rs in if is_room tenant slug r then some r else rest

abbrev pub same_domain : Option Str → Option Str → Bool
same_domain (some a) (some b) = str_eq a b
same_domain _ _ = false

-- rooms_domain_idx: another room of the domain.
unfoldable pub domain_taken : RoomRow → List RoomRow → Bool
domain_taken new [] = false
domain_taken new (r ∷ rs) =
    (not (is_room new.tenant_id new.slug r) && same_domain r.domain_id new.domain_id)
    || domain_taken new rs

abbrev pub is_auto : Str → Bool
is_auto s = str_eq s (codes "auto")

-- `on conflict (tenant_id, slug) do update`
abbrev pub merged : RoomRow → RoomRow → RoomRow
merged new old =
    if is_auto new.state then record new { effective_state = old.effective_state } else new

unfoldable pub upsert_row : RoomRow → List RoomRow → List RoomRow
upsert_row new [] = new ∷ []
upsert_row new (r ∷ rs) =
    let rest = upsert_row new rs in
    if is_room new.tenant_id new.slug r then merged new r ∷ rs else r ∷ rest

abbrev pub room_states : List Str
room_states = codes "open" ∷ codes "queue" ∷ codes "closed" ∷ codes "auto" ∷ []

abbrev pub write_room : Bool → RoomRow → Db → Answer × Db
write_room ok new db =
    if not ok
    then (db_err other, db)
    else if not (one_of new.state room_states)
    then (db_err invalid, db)
    else if domain_taken new db.rooms
    then (db_err conflict, db)
    else (answer 200 (codes "room"), record db { rooms = upsert_row new db.rooms })
