-- ===== src/Control/Thresholds.antt =====
-- What a room that is written or switched reads as afterwards, and its thresholds:
-- control/internal/api/tenant.go.
use flyc.Base.{
  ◌≡◌, refl, sym, ap, ◌∙◌, ◌⊎◌, inl, inr, Bool, true, false, not, List, [], ◌∷◌, Option, none, some,
  if◌then◌else◌, if-elim, Str, str_eq_refl, arith, Bool-cases,
}
use flyc.Control.{Db, RoomRow, Answer}
use flyc.Control.Rooms.{
  is_room, find_room, merged, upsert_row, is_auto, write_room, room_states, one_of, domain_taken,
  db_err, other, invalid, conflict,
}
use flyc.Control.RoomRoutes.{has_thresholds}

-- The row that a write leaves, over the one that was there.
abbrev pub stored : RoomRow → Option RoomRow → RoomRow
stored new none = new
stored new (some old) = merged new old

is_room_self : (r : RoomRow) → is_room r.tenant_id r.slug r ≡ true
is_room_self r = rw (str_eq_refl r.tenant_id, str_eq_refl r.slug) refl

merged-is_room : (new old : RoomRow) → is_room new.tenant_id new.slug (merged new old) ≡ true
merged-is_room new old = by_test (is_auto new.state)
  where
    by_test :
        (b : Bool)
        → is_room new.tenant_id new.slug (
            if◌then◌else◌ {A = RoomRow} b
              (record new { effective_state = old.effective_state })
              new)
          ≡ true
    by_test true = is_room_self new
    by_test false = is_room_self new

find_room-upsert_row :
    (new : RoomRow) (rs : List RoomRow)
    → find_room new.tenant_id new.slug (upsert_row new rs)
      ≡ some (stored new (find_room new.tenant_id new.slug rs))
unfolding find_room upsert_row
find_room-upsert_row new [] = ap (λ b. if b then some new else none) (is_room_self new)
find_room-upsert_row new (r ∷ rs) =
    let rest = find_room new.tenant_id new.slug rs in
    elim (Bool-cases (is_room new.tenant_id new.slug r)) [
      | inl e ↦
          ap
            (λ b.
              find_room new.tenant_id new.slug
                (if b then merged new r ∷ rs else r ∷ upsert_row new rs))
            e
          ∙ ap (λ b. if b then some (merged new r) else rest) (merged-is_room new r)
          ∙ sym (ap (λ b. some (stored new (if b then some r else rest))) e)
      | inr e ↦
          ap
            (λ b.
              find_room new.tenant_id new.slug
                (if b then merged new r ∷ rs else r ∷ upsert_row new rs))
            e
          ∙ ap (λ b. if b then some r else find_room new.tenant_id new.slug (upsert_row new rs)) e
          ∙ find_room-upsert_row new rs
          ∙ sym (ap (λ b. some (stored new (if b then some r else rest))) e)
    ]

-- A room in the mode auto has its thresholds in order.
abbrev pub IsOrdered : RoomRow → Type 0
IsOrdered r = (is_auto r.state ≡ false) ⊎ (has_thresholds r.auto_on r.auto_off ≡ true)

-- What a write that is answered 200 leaves under the tenant and the slug.
abbrev pub Reads : Str → Str → RoomRow → Answer × Db → Type 0
Reads tenant slug r x = x.0.status ≡ 200 → find_room tenant slug x.1.rooms ≡ some r

pub write_room-Reads :
    (ok : Bool) (new : RoomRow) (db : Db)
    → Reads new.tenant_id new.slug
        (stored new (find_room new.tenant_id new.slug db.rooms))
        (write_room ok new db)
write_room-Reads ok new db =
    let P = Reads new.tenant_id new.slug (stored new (find_room new.tenant_id new.slug db.rooms)) in
    if-elim P (not ok) (db_err other, db) _ (λ h. absurd (omega (arith, h)))
      (if-elim P (not (one_of new.state room_states)) (db_err invalid, db) _
        (λ h. absurd (omega (arith, h)))
        (if-elim P (domain_taken new db.rooms) (db_err conflict, db) _
          (λ h. absurd (omega (arith, h))) (λ h. find_room-upsert_row new db.rooms)))
