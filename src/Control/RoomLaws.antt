-- ===== src/Control/RoomLaws.antt =====
-- What the routes on rooms leave: control/internal/api/tenant.go.
use flyc.Base.{
  ℕ, ◌≡◌, refl, sym, ap, ◌∙◌, inl, inr, Bool, true, false, ◌&&◌, not, List, [], ◌∷◌, Option, none,
  some, if◌then◌else◌, if-elim, Str, codes, str_eq, str_eq→eq, arith, Bool-cases,
}
use flyc.Control.{Db, RoomRow, Answer, answer}
use flyc.Control.Access.{Principal}
use flyc.Control.Rooms.{
  RoomIn, is_room, merged, upsert_row, is_auto, write_room, room_states, one_of, domain_taken,
  db_err, other, invalid, conflict, or_default,
}
use flyc.Control.RoomRoutes.{
  RoomLuck, Reference, upsert_room, room_state, delete_room, update_rooms, delete_rooms, any_room,
  room_row, may_auto, set_auto, with_state, switched, has_thresholds, opened_room, opening,
}

-- The rooms of one tenant.
pub rooms_of : Str → List RoomRow → List RoomRow
rooms_of tenant [] = []
rooms_of tenant (r ∷ rs) =
    let rest = rooms_of tenant rs in if str_eq r.tenant_id tenant then r ∷ rest else rest

-- A test that only meets rooms of one tenant.
abbrev MeetsOnly : Str → (RoomRow → Bool) → Type 0
MeetsOnly tenant test = (r : RoomRow) → test r ≡ true → str_eq r.tenant_id tenant ≡ true

update_rooms-other :
    (tenant k : Str) (test : RoomRow → Bool) (f : RoomRow → RoomRow) (rs : List RoomRow)
    → MeetsOnly tenant test
    → ((r : RoomRow) → (f r).tenant_id ≡ r.tenant_id)
    → str_eq tenant k ≡ false
    → rooms_of k (update_rooms test f rs) ≡ rooms_of k rs
unfolding rooms_of update_rooms
update_rooms-other tenant k test f [] m s n = refl
update_rooms-other tenant k test f (r ∷ rs) m s n =
    let rest = update_rooms-other tenant k test f rs m s n in
    elim (Bool-cases (test r)) [
      | inl e ↦
          let off : str_eq r.tenant_id k ≡ false =
            ap (λ z. str_eq z k) (str_eq→eq r.tenant_id tenant (m r e)) ∙ n in
          let off' : str_eq (f r).tenant_id k ≡ false = ap (λ z. str_eq z k) (s r) ∙ off in
          ap (λ b. rooms_of k ((if b then f r else r) ∷ update_rooms test f rs)) e
          ∙ ap
              (λ b.
                if b
                then f r ∷ rooms_of k (update_rooms test f rs)
                else rooms_of k (update_rooms test f rs))
              off'
          ∙ rest
          ∙ sym (ap (λ b. if b then r ∷ rooms_of k rs else rooms_of k rs) off)
      | inr e ↦
          ap (λ b. rooms_of k ((if b then f r else r) ∷ update_rooms test f rs)) e
          ∙ ap (λ t. if str_eq r.tenant_id k then r ∷ t else t) rest
    ]

delete_rooms-other :
    (tenant k : Str) (test : RoomRow → Bool) (rs : List RoomRow)
    → MeetsOnly tenant test
    → str_eq tenant k ≡ false
    → rooms_of k (delete_rooms test rs) ≡ rooms_of k rs
unfolding rooms_of delete_rooms
delete_rooms-other tenant k test [] m n = refl
delete_rooms-other tenant k test (r ∷ rs) m n =
    let rest = delete_rooms-other tenant k test rs m n in
    elim (Bool-cases (test r)) [
      | inl e ↦
          let off : str_eq r.tenant_id k ≡ false =
            ap (λ z. str_eq z k) (str_eq→eq r.tenant_id tenant (m r e)) ∙ n in
          ap (λ b. rooms_of k (if b then delete_rooms test rs else r ∷ delete_rooms test rs)) e
          ∙ rest
          ∙ sym (ap (λ b. if b then r ∷ rooms_of k rs else rooms_of k rs) off)
      | inr e ↦
          ap (λ b. rooms_of k (if b then delete_rooms test rs else r ∷ delete_rooms test rs)) e
          ∙ ap (λ t. if str_eq r.tenant_id k then r ∷ t else t) rest
    ]

merged-tenant : (new old : RoomRow) → (merged new old).tenant_id ≡ new.tenant_id
merged-tenant new old = by_test (is_auto new.state)
  where
    by_test :
        (b : Bool)
        → (if◌then◌else◌ {A = RoomRow} b
            (record new { effective_state = old.effective_state })
            new).tenant_id
          ≡ new.tenant_id
    by_test true = refl
    by_test false = refl

upsert_row-other :
    (new : RoomRow) (k : Str) (rs : List RoomRow)
    → str_eq new.tenant_id k ≡ false
    → rooms_of k (upsert_row new rs) ≡ rooms_of k rs
unfolding rooms_of upsert_row
upsert_row-other new k [] n = ap (λ b. if b then new ∷ [] else []) n
upsert_row-other new k (r ∷ rs) n = elim (Bool-cases (is_room new.tenant_id new.slug r)) [
  | inl e ↦
      let off : str_eq r.tenant_id k ≡ false =
        ap (λ z. str_eq z k) (str_eq→eq r.tenant_id new.tenant_id (ground arith)) ∙ n in
      let off' : str_eq (merged new r).tenant_id k ≡ false =
        ap (λ z. str_eq z k) (merged-tenant new r) ∙ n in
      ap (λ b. rooms_of k (if b then merged new r ∷ rs else r ∷ upsert_row new rs)) e
      ∙ ap (λ b. if b then merged new r ∷ rooms_of k rs else rooms_of k rs) off'
      ∙ sym (ap (λ b. if b then r ∷ rooms_of k rs else rooms_of k rs) off)
  | inr e ↦
      ap (λ b. rooms_of k (if b then merged new r ∷ rs else r ∷ upsert_row new rs)) e
      ∙ ap (λ t. if str_eq r.tenant_id k then r ∷ t else t) (upsert_row-other new k rs n)
]

-- The rooms of another tenant are as they were.
abbrev pub LeavesOther : Str → Db → Answer × Db → Type 0
LeavesOther k db r = rooms_of k r.1.rooms ≡ rooms_of k db.rooms

is_room-MeetsOnly : (tenant slug : Str) → MeetsOnly tenant (is_room tenant slug)
is_room-MeetsOnly tenant slug r e = ground arith

may_auto-MeetsOnly : (tenant slug : Str) → MeetsOnly tenant (may_auto tenant slug)
may_auto-MeetsOnly tenant slug r e = ground arith

switched-LeavesOther :
    (ok : Bool) (tenant k : Str) (test : RoomRow → Bool) (f : RoomRow → RoomRow) (missing : Answer)
    (db : Db)
    → MeetsOnly tenant test
    → ((r : RoomRow) → (f r).tenant_id ≡ r.tenant_id)
    → str_eq tenant k ≡ false
    → LeavesOther k db (switched ok test f missing db)
switched-LeavesOther ok tenant k test f missing db m s n =
    if-elim (LeavesOther k db) (not ok) (db_err other, db) _ refl
      (if-elim (LeavesOther k db) (not (any_room test db.rooms)) (missing, db) _ refl
        (update_rooms-other tenant k test f db.rooms m s n))

room_state-LeavesOther :
    (ok : Bool) (p : Principal) (slug state k : Str) (db : Db)
    → str_eq p.tenant_id k ≡ false
    → LeavesOther k db (room_state ok p slug (some state) db)
unfolding room_state
room_state-LeavesOther ok p slug state k db n =
    if-elim (LeavesOther k db) (not (one_of state room_states)) (answer 400 (codes "invalid"), db) _
      refl
      (if-elim (LeavesOther k db) (is_auto state)
        (switched ok (may_auto p.tenant_id slug) set_auto (answer 400 (codes "invalid")) db)
        (switched ok (is_room p.tenant_id slug) (with_state state) (answer 404 (codes "not_found"))
          db)
        (switched-LeavesOther ok p.tenant_id k (may_auto p.tenant_id slug) set_auto
          (answer 400 (codes "invalid")) db (may_auto-MeetsOnly p.tenant_id slug) (λ r. refl) n)
        (switched-LeavesOther ok p.tenant_id k (is_room p.tenant_id slug) (with_state state)
          (answer 404 (codes "not_found")) db (is_room-MeetsOnly p.tenant_id slug) (λ r. refl) n))

delete_room-LeavesOther :
    (ok : Bool) (p : Principal) (slug k : Str) (db : Db)
    → str_eq p.tenant_id k ≡ false
    → LeavesOther k db (delete_room ok p slug db)
unfolding delete_room
delete_room-LeavesOther ok p slug k db n =
    if-elim (LeavesOther k db) (not ok) (db_err other, db) _ refl
      (if-elim (LeavesOther k db) (not (any_room (is_room p.tenant_id slug) db.rooms))
        (answer 404 (codes "not_found"), db) _ refl
        (delete_rooms-other p.tenant_id k (is_room p.tenant_id slug) db.rooms
          (is_room-MeetsOnly p.tenant_id slug) n))

write_room-LeavesOther :
    (ok : Bool) (new : RoomRow) (k : Str) (db : Db)
    → str_eq new.tenant_id k ≡ false
    → LeavesOther k db (write_room ok new db)
write_room-LeavesOther ok new k db n =
    if-elim (LeavesOther k db) (not ok) (db_err other, db) _ refl
      (if-elim (LeavesOther k db) (not (one_of new.state room_states)) (db_err invalid, db) _ refl
        (if-elim (LeavesOther k db) (domain_taken new db.rooms) (db_err conflict, db) _ refl
          (upsert_row-other new k db.rooms n)))

opened_room-LeavesOther :
    (parse_time : Str → Option ℕ) (l : RoomLuck) (p : Principal) (slug : Str) (i : RoomIn)
    (domain backend : Reference) (o : Option (Option ℕ)) (k : Str) (db : Db)
    → str_eq p.tenant_id k ≡ false
    → LeavesOther k db (opened_room parse_time l p slug i domain backend o db)
opened_room-LeavesOther parse_time l p slug i domain backend none k db n = refl
opened_room-LeavesOther parse_time l p slug i domain backend (some opens) k db n =
    if-elim (LeavesOther k db) (is_auto i.state && not (has_thresholds i.auto_on i.auto_off))
      (answer 400 (codes "invalid"), db) _ refl
      (write_room-LeavesOther l.write_ok (room_row p slug i domain backend opens) k db n)

upsert_room-LeavesOther :
    (parse_time : Str → Option ℕ) (l : RoomLuck) (p : Principal) (path : Str) (i : RoomIn) (k : Str)
    (db : Db)
    → str_eq p.tenant_id k ≡ false
    → LeavesOther k db (upsert_room parse_time l p path (some i) db)
unfolding upsert_room
upsert_room-LeavesOther parse_time l p path i k db n =
    if-elim (LeavesOther k db) _ (answer 400 (codes "invalid"), db) _ refl
      (if-elim (LeavesOther k db) _ (answer 400 (codes "invalid_domain"), db) _ refl
        (if-elim (LeavesOther k db) _ (answer 400 (codes "invalid_backend"), db) _ refl
          (opened_room-LeavesOther parse_time l p (or_default i.slug path) i _ _
            (opening parse_time i.opens_at) k db n)))

-- The routes that create, change, switch and delete a room leave the rooms of every other tenant as
-- they were, on each of their branches.
pub rooms_isolated :
    (parse_time : Str → Option ℕ) (l : RoomLuck) (p : Principal) (slug state k : Str) (i : RoomIn)
    (db : Db)
    → str_eq p.tenant_id k ≡ false
    → LeavesOther k db (upsert_room parse_time l p slug (some i) db)
      × LeavesOther k db (room_state l.write_ok p slug (some state) db)
      × LeavesOther k db (delete_room l.write_ok p slug db)
rooms_isolated parse_time l p slug state k i db n = (
  upsert_room-LeavesOther parse_time l p slug i k db n,
  room_state-LeavesOther l.write_ok p slug state k db n,
  delete_room-LeavesOther l.write_ok p slug k db n,
)
