-- ===== src/Hub.antt =====
-- queue/internal/hub/hub.go: what a waiting visitor is told, and who is told what. A channel is the
-- list of its messages; a subscription is known by a number, as the code knows it by its pointer.
pub mod Waiting
pub mod Fanout
use flyc.Base.{
  ℕ, zero, suc, ◌+◌, ◌*◌, ◌/◌, Bool, true, false, ◌||◌, List, [], ◌∷◌, ◌++◌, map, Option, none,
  some, ltb, ◌==◌, if◌then◌else◌, length, take, drop, Str, codes, str_eq,
}
use flyc.Room.{RoomId, to_string, Config, State, state_text}
use flyc.Redis.{Redis, Event, EventType, M, ◌>>=◌, pure, attempt}
use flyc.Store.{Counted, load_config, counts, ranks}

pub record Status : Type 0 where
  pub state : State
  pub position : ℕ
  pub ahead : ℕ
  pub pending : ℕ
  pub eta : ℕ
  pub wave_in : ℕ
  pub rate : ℕ

-- int64(float64(n) / rate) for a rate in thousandths.
abbrev pub seconds_for : ℕ → ℕ → ℕ
seconds_for n rate = n * 1000 / rate

-- `none` is the rank -1: not ranked yet, or admitted.
pub build_status : Config → ℕ → Option ℕ → ℕ → Status
build_status cfg pending (some rank) wave_in = record {
  state = cfg.state;
  position = rank + 1;
  ahead = rank;
  pending = pending;
  eta = seconds_for rank cfg.rate + 1;
  wave_in = 0;
  rate = cfg.rate;
}
build_status cfg pending none wave_in = record {
  state = cfg.state;
  position = 0;
  ahead = 0;
  pending = pending;
  eta = wave_in + seconds_for pending cfg.rate + 1;
  wave_in = wave_in;
  rate = cfg.rate;
}

pub data Msg : Type 0 where
  admitted_msg : Str → Msg
  refresh : EventType → Msg
  status_msg : Status → Msg

pub record Sub : Type 0 where
  pub number : ℕ
  pub ticket : Str
  pub ch : List Msg

-- A full channel drops the message.
send : Sub → Msg → Sub
send s m = if ltb (length s.ch) 8 then record s { ch = s.ch ++ m ∷ [] } else s

unfoldable pub listed : Str → List Str → Bool
listed t [] = false
listed t (x ∷ xs) = str_eq x t || listed t xs

-- One event of the room's channel, at one subscription.
on_event : EventType → List Str → Sub → Sub
unfolding send listed
on_event EventType.admitted ids s =
    if listed s.ticket ids then send s (admitted_msg s.ticket) else s
on_event EventType.config ids s = send s (refresh EventType.config)
on_event EventType.flush ids s = send s (refresh EventType.flush)

pub pump : Event → List Sub → List Sub
unfolding on_event
pump ev subs = map (on_event ev.type ev.admitted_ids) subs

pub record RoomHub : Type 0 where
  pub id : RoomId
  pub subs : List Sub

-- The rooms that have subscribers on this replica, and the number of the next subscription.
pub record Hub : Type 0 where
  pub rooms : List RoomHub
  pub next : ℕ

add_sub : RoomId → Sub → List RoomHub → List RoomHub
add_sub id s [] = record { id = id; subs = s ∷ [] } ∷ []
add_sub id s (r ∷ rs) =
    if str_eq (to_string r.id) (to_string id)
    then record r { subs = r.subs ++ s ∷ [] } ∷ rs
    else r ∷ add_sub id s rs

pub subscribe : RoomId → Str → Hub → Hub × ℕ
unfolding add_sub
subscribe id ticket h = (
  record {
    rooms = add_sub id (record { number = h.next; ticket = ticket; ch = [] }) h.rooms;
    next = h.next + 1;
  },
  h.next,
)

without : ℕ → List Sub → List Sub
without n [] = []
without n (s ∷ ss) = let rest = without n ss in if s.number == n then rest else s ∷ rest

-- A room that has lost its last subscriber is removed.
abbrev unless_empty : RoomHub → List Sub → List RoomHub → List RoomHub
unless_empty r [] rs = rs
unless_empty r (s ∷ ss) rs = record r { subs = s ∷ ss } ∷ rs

remove_sub : RoomId → ℕ → List RoomHub → List RoomHub
unfolding without
remove_sub id n [] = []
remove_sub id n (r ∷ rs) =
    if str_eq (to_string r.id) (to_string id)
    then unless_empty r (without n r.subs) rs
    else r ∷ remove_sub id n rs

pub unsubscribe : RoomId → ℕ → Hub → Hub
unfolding remove_sub
unsubscribe id n h = record h { rooms = remove_sub id n h.rooms }

abbrev tickets_of : List Sub → List Str
tickets_of = map λ s. s.ticket

-- The statuses of a batch: each subscription with its rank.
send_statuses : Config → ℕ → List Sub → List (Option ℕ) → List Sub
unfolding send build_status
send_statuses cfg pending [] rs = []
send_statuses cfg pending (s ∷ ss) [] = s ∷ ss
send_statuses cfg pending (s ∷ ss) (r ∷ rs) =
    send s (status_msg (build_status cfg pending r 0)) ∷ send_statuses cfg pending ss rs

abbrev ranked_batch : Config → ℕ → List Sub → Option (List (Option ℕ)) → List Sub
ranked_batch cfg pending subs none = subs
ranked_batch cfg pending subs (some rs) = send_statuses cfg pending subs rs

module _ (R : Redis) where
  open R use {Db}

  -- Five hundred subscriptions to a pipeline; a batch whose ranks fail is passed over.
  status_batches : ℕ → RoomId → Config → ℕ → List Sub → M Db (List Sub)
  unfolding send_statuses
  status_batches zero id cfg pending subs = pure subs
  status_batches (suc fuel) id cfg pending [] = pure []
  status_batches (suc fuel) id cfg pending (s ∷ ss) = do
    found ← attempt (ranks R id (tickets_of (take 500 (s ∷ ss))))
    rest ← status_batches fuel id cfg pending (drop 500 (s ∷ ss))
    pure (ranked_batch cfg pending (take 500 (s ∷ ss)) found ++ rest)

  -- One round of the status loop.
  unfoldable status_round : RoomId → ℕ → List Sub → M Db (List Sub)
  unfolding status_batches
  status_round id now [] = pure []
  status_round id now (s ∷ ss) = do
    (cfg, found) ← load_config R id
    c ← counts R id now
    status_batches (length (s ∷ ss)) id cfg c.pending (s ∷ ss)
