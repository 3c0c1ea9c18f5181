-- ===== src/Control/RoomStored.antt =====
-- The row that a room is written as, read back: upsertRoom of control/internal/api/tenant.go.
use flyc.Base.{ℕ, ◌≡◌, Option, some, Str}
use flyc.Control.{Db, Answer}
use flyc.Control.Access.{Principal}
use flyc.Control.Rooms.{RoomIn, find_room}
use flyc.Control.RoomRoutes.{Reference, room_row}
use flyc.Control.Thresholds.{stored, IsOrdered}
use flyc.Control.References.{RefersToDomain, RefersToBackend, OpensAt}

-- The row that a room is written as, read back.
abbrev pub Stores : (Str → Option ℕ) → Principal → Str → RoomIn → Db → Db → Type 0
Stores parse_time p slug i db db' =
    (domain backend : Reference) × (opens : Option ℕ) × RefersToDomain p.tenant_id i.domain db
      domain
    × RefersToBackend p.tenant_id i.backend db backend
    × OpensAt parse_time i.opens_at opens
    × (find_room p.tenant_id slug db'.rooms
        ≡ some
            (stored (room_row p slug i domain backend opens) (find_room p.tenant_id slug db.rooms)))
    × IsOrdered (room_row p slug i domain backend opens)

abbrev IsStored : (Str → Option ℕ) → Principal → Str → RoomIn → Db → Answer × Db → Type 0
IsStored parse_time p slug i db x = x.0.status ≡ 200 → Stores parse_time p slug i db x.1
