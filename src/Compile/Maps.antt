-- ===== src/Compile/Maps.antt =====
-- The maps and the configurations of rooms that Build of control/internal/compile/compile.go makes.
use flyc.Base.{
  ◌≡◌, refl, ap, ◌∙◌, ◌⊎◌, inl, inr, List, [], ◌∷◌, Option, none, some, if◌then◌else◌, Str, str_eq,
  str_eq_iff, All, Option-cases, arith,
}
use flyc.Compile.{
  MapEntry, RoomRow, RoomConfig, room_id, room_map, state_map, queue_map, queue_put, queue_config,
  seen_domain,
}

-- Some entry has this key.
abbrev pub HasKey : Str → List MapEntry → Type 0
HasKey k [] = ⊥
HasKey k (e ∷ es) = (e.key ≡ k) ⊎ HasKey k es

later :
    (k : Str) (e : MapEntry) (rooms states : List MapEntry)
    → All (λ r. HasKey r.value states) rooms
    → All (λ r. HasKey r.value (e ∷ states)) rooms
later k e [] states h = tt
later k e (r ∷ rs) states h = (inr h.0, later k e rs states h.1)

-- Every domain that the load balancers know leads to a room whose state they know.
pub room_map-has_state :
    (rows : List RoomRow) → All (λ e. HasKey e.value (state_map rows)) (room_map rows)
unfolding room_map state_map
room_map-has_state [] = tt
room_map-has_state (r ∷ rows) = elim (Option-cases (seen_domain r)) [
  | inl e ↦ rw e (room_map-has_state rows)
  | inr (f, e) ↦ rw e (
    inl refl,
    later f (record { key = room_id r; value = r.state }) (room_map rows) (state_map rows)
        (room_map-has_state rows),
  )
]

-- The configuration of a room in the queue, where it has one.
configured : Str → List (Str × RoomConfig) → Option RoomConfig
configured k [] = none
configured k ((j, c) ∷ m) = if str_eq j k then some c else configured k m

configured-queue_put :
    (k j : Str) (c : RoomConfig) (m : List (Str × RoomConfig))
    → configured j (queue_put k c m) ≡ (if str_eq k j then some c else configured j m)
unfolding configured queue_put
configured-queue_put k j c [] = refl
configured-queue_put k j c ((i, d) ∷ m) =
    ground (arith, str_eq_iff k j, str_eq_iff i k, str_eq_iff i j, configured-queue_put k j c m)

-- The last row of a room, which the code keeps.
abbrev pub last_row : Str → List RoomRow → Option RoomConfig → Option RoomConfig
last_row k [] found = found
last_row k (r ∷ rows) found =
    last_row k rows (if str_eq (room_id r) k then some (queue_config r) else found)

-- A room's configuration in the queue is the one of its last row.
configured-queue_map :
    (k : Str) (m : List (Str × RoomConfig)) (rows : List RoomRow)
    → configured k (queue_map m rows) ≡ last_row k rows (configured k m)
unfolding queue_map
configured-queue_map k m [] = refl
configured-queue_map k m (r ∷ rows) =
    configured-queue_map k (queue_put (room_id r) (queue_config r) m) rows
    ∙ ap (last_row k rows) (configured-queue_put (room_id r) k (queue_config r) m)
