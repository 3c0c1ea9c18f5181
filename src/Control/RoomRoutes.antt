-- ===== src/Control/RoomRoutes.antt =====
-- control/internal/api/tenant.go: the routes on rooms, and those that delete.
use flyc.Base.{
  ℕ, Bool, true, false, ◌&&◌, ◌||◌, not, List, [], ◌∷◌, Option, none, some, if◌then◌else◌, Str,
  codes, to_lower, ℤ, pos,
}
use flyc.Room.{is_slug}
use flyc.Control.{Db, Domain, BackendRow, RoomRow, Answer, answer}
use flyc.Control.Account.{is_empty}
use flyc.Control.Access.{Principal}
use flyc.Control.Rooms.{
  other, db_err, one_of, find_domain, find_backend, RoomIn, is_positive, below, or_positive,
  or_default, known_theme, is_room, is_auto, write_room, room_states,
}

-- Which statements of a request succeed.
pub record RoomLuck : Type 0 where
  pub domain_ok : Bool
  pub backend_ok : Bool
  pub write_ok : Bool

-- A reference that is left empty, one that was found, and one that was not.
pub data Reference : Type 0 where
  absent unknown : Reference
  found : Str → Reference

abbrev pub domain_reference : Option Domain → Reference
domain_reference none = unknown
domain_reference (some d) = found d.id

abbrev pub backend_reference : Option BackendRow → Reference
backend_reference none = unknown
backend_reference (some b) = found b.id

abbrev pub referred : Reference → Option Str
referred (found id) = some id
referred _ = none

abbrev pub is_unknown : Reference → Bool
is_unknown unknown = true
is_unknown _ = false

-- The instant of opens_at: none where it cannot be read.
abbrev pub opening : (Str → Option ℕ) → Option Str → Option (Option ℕ)
opening parse_time none = some none
opening parse_time (some []) = some none
opening parse_time (some (c ∷ s)) = elim (parse_time (c ∷ s)) [
  | none ↦ none
  | some t ↦ some (some t)
]

-- `in.AutoOn <= 0 || in.AutoOff < 0 || in.AutoOff >= in.AutoOn`
abbrev pub has_thresholds : ℤ → ℤ → Bool
has_thresholds on off = is_positive on && (not (below off (pos 0)) && below off on)

abbrev pub effective : Str → Str
effective state = if is_auto state then codes "open" else state

abbrev pub room_row : Principal → Str → RoomIn → Reference → Reference → Option ℕ → RoomRow
room_row p slug i domain backend opens = record {
  tenant_id = p.tenant_id;
  slug = slug;
  title = i.title;
  domain_id = referred domain;
  backend_id = referred backend;
  state = or_default (codes "open") i.state;
  rate = or_positive (pos 10000) i.rate;
  max_active = i.max_active;
  wave_s = or_positive (pos 30) i.wave_s;
  pass_ttl_s = or_positive (pos 1200) i.pass_ttl_s;
  opens_at = opens;
  theme = known_theme i.theme;
  auto_on = i.auto_on;
  auto_off = i.auto_off;
  effective_state = effective (or_default (codes "open") i.state);
}

-- time.Parse is `parse_time`; the slug of the path goes before that of the body.
module _ (parse_time : Str → Option ℕ) where
  abbrev pub opened_room :
      RoomLuck
      → Principal
      → Str
      → RoomIn
      → Reference
      → Reference
      → Option (Option ℕ)
      → Db
      → Answer × Db
  opened_room l p slug i domain backend none db = (answer 400 (codes "invalid"), db)
  opened_room l p slug i domain backend (some opens) db =
      if is_auto i.state && not (has_thresholds i.auto_on i.auto_off)
      then (answer 400 (codes "invalid"), db)
      else write_room l.write_ok (room_row p slug i domain backend opens) db

  unfoldable pub upsert_room : RoomLuck → Principal → Str → Option RoomIn → Db → Answer × Db
  unfolding is_slug find_domain find_backend to_lower known_theme
  upsert_room l p path none db = (answer 400 (codes "bad_json"), db)
  upsert_room l p path (some i) db =
      let slug = or_default i.slug path in
      let domain =
        if is_empty i.domain
        then absent
        else domain_reference (
            if l.domain_ok then find_domain p.tenant_id (to_lower i.domain) db.domains else none) in
      let backend =
        if is_empty i.backend
        then absent
        else backend_reference
            (if l.backend_ok then find_backend p.tenant_id i.backend db.backends else none) in
      if not (is_slug slug)
      then (answer 400 (codes "invalid"), db)
      else if is_unknown domain
      then (answer 400 (codes "invalid_domain"), db)
      else if is_unknown backend
      then (answer 400 (codes "invalid_backend"), db)
      else opened_room l p slug i domain backend (opening parse_time i.opens_at) db

-- `update rooms set state=$3, effective_state=$3 where tenant_id=$1 and slug=$2`, and the
-- rows that it meets.
unfoldable pub update_rooms : (RoomRow → Bool) → (RoomRow → RoomRow) → List RoomRow → List RoomRow
update_rooms test f [] = []
update_rooms test f (r ∷ rs) = (if test r then f r else r) ∷ update_rooms test f rs

unfoldable pub any_room : (RoomRow → Bool) → List RoomRow → Bool
any_room test [] = false
any_room test (r ∷ rs) = test r || any_room test rs

abbrev pub with_state : Str → RoomRow → RoomRow
with_state s r = record r { state = s; effective_state = s }

abbrev pub set_auto : RoomRow → RoomRow
set_auto r = record r { state = codes "auto" }

-- A room that may go to auto has its first threshold.
abbrev pub may_auto : Str → Str → RoomRow → Bool
may_auto tenant slug r = is_room tenant slug r && is_positive r.auto_on

abbrev pub switched : Bool → (RoomRow → Bool) → (RoomRow → RoomRow) → Answer → Db → Answer × Db
switched ok test f missing db =
    if not ok
    then (db_err other, db)
    else if not (any_room test db.rooms)
    then (missing, db)
    else (answer 200 (codes "room"), record db { rooms = update_rooms test f db.rooms })

unfoldable pub room_state : Bool → Principal → Str → Option Str → Db → Answer × Db
unfolding one_of any_room update_rooms
room_state ok p slug none db = (answer 400 (codes "bad_json"), db)
room_state ok p slug (some state) db =
    if not (one_of state room_states)
    then (answer 400 (codes "invalid"), db)
    else if is_auto state
    then switched ok (may_auto p.tenant_id slug) set_auto (answer 400 (codes "invalid")) db
    else switched ok (is_room p.tenant_id slug) (with_state state) (answer 404 (codes "not_found"))
        db

unfoldable pub delete_rooms : (RoomRow → Bool) → List RoomRow → List RoomRow
delete_rooms test [] = []
delete_rooms test (r ∷ rs) = let rest = delete_rooms test rs in if test r then rest else r ∷ rest

unfoldable pub delete_room : Bool → Principal → Str → Db → Answer × Db
unfolding any_room delete_rooms
delete_room ok p slug db =
    if not ok
    then (db_err other, db)
    else if not (any_room (is_room p.tenant_id slug) db.rooms)
    then (answer 404 (codes "not_found"), db)
    else (answer 204 [], record db { rooms = delete_rooms (is_room p.tenant_id slug) db.rooms })
