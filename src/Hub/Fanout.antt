-- ===== src/Hub/Fanout.antt =====
-- Subscribe and pump of queue/internal/hub/hub.go.
use flyc.Base.{
  ℕ, ◌≡◌, refl, ap, ◌≤◌, ◌<◌, ◌≢◌, inl, inr, List, [], ◌∷◌, ◌++◌, length, length-append, All, ltb,
  if◌then◌else◌, arith, Str, str_eq, str_eq_refl, Bool-cases,
}
use flyc.Room.{RoomId, to_string}
use flyc.Redis.{Event, EventType}
use flyc.Hub.{
  Sub, Msg, admitted_msg, on_event, pump, listed, Hub, RoomHub, subscribe, unsubscribe, add_sub,
  remove_sub, without, unless_empty,
}

abbrev pub IsBounded : List Sub → Type 0
IsBounded = All λ s. length s.ch ≤ 8

on_event-bounded :
    (t : EventType) (ids : List Str) (s : Sub) → length s.ch ≤ 8 → length (on_event t ids s).ch ≤ 8
unfolding on_event
on_event-bounded EventType.admitted ids s h =
    ground (arith, length-append s.ch (admitted_msg s.ticket ∷ []))
on_event-bounded EventType.config ids s h =
    ground (arith, length-append s.ch (Msg.refresh EventType.config ∷ []))
on_event-bounded EventType.flush ids s h =
    ground (arith, length-append s.ch (Msg.refresh EventType.flush ∷ []))

-- No event makes a channel longer than its capacity.
pub pump-IsBounded : (ev : Event) (subs : List Sub) → IsBounded subs → IsBounded (pump ev subs)
unfolding pump
pump-IsBounded ev [] h = tt
pump-IsBounded ev (s ∷ ss) h =
    (on_event-bounded ev.type ev.admitted_ids s h.0, pump-IsBounded ev ss h.1)

-- An admission reaches exactly the subscriptions of the admitted tickets: theirs get the message if
-- there is room for it, and those of the others stay as they were.
pump_admitted :
    (ev : Event) (s : Sub)
    → ev.type ≡ EventType.admitted
    → pump ev (s ∷ []) ≡ (
        if listed s.ticket ev.admitted_ids
        then (if ltb (length s.ch) 8
            then record s { ch = s.ch ++ admitted_msg s.ticket ∷ [] }
            else s)
          ∷ []
        else s ∷ [])
unfolding pump
pump_admitted ev s e = rw e (ground arith)

without-append :
    (n : ℕ) (ss : List Sub) (s : Sub)
    → s.number ≡ n
    → All (λ x. x.number < n) ss
    → without n (ss ++ s ∷ []) ≡ ss
unfolding without
without-append n [] s e h = ground arith
without-append n (x ∷ ss) s e h = ground (arith, without-append n ss s e h.1)

-- Every subscription of every room is older than the next number, and no room is empty.
abbrev pub IsFresh : ℕ → List RoomHub → Type 0
IsFresh n = All λ r. All (λ s. s.number < n) r.subs × (r.subs ≢ [])

unless_empty-subs :
    (r : RoomHub) (ss : List Sub) (rs : List RoomHub)
    → ss ≢ []
    → unless_empty r ss rs ≡ record r { subs = ss } ∷ rs
unless_empty-subs r [] rs h = absurd (h refl)
unless_empty-subs r (s ∷ ss) rs h = refl

remove_sub-add_sub :
    (id : RoomId) (s : Sub) (rs : List RoomHub)
    → IsFresh s.number rs
    → remove_sub id s.number (add_sub id s rs) ≡ rs
unfolding remove_sub add_sub
remove_sub-add_sub id s [] f = ground (arith, str_eq_refl (to_string id))
remove_sub-add_sub id s (r ∷ rs) f = elim (Bool-cases (str_eq (to_string r.id) (to_string id))) [
  | inl same ↦
      rw (same, same, without-append s.number r.subs s refl f.0.0)
        (unless_empty-subs r r.subs rs f.0.1)
  | inr other ↦ rw (other, other) (ap (◌∷◌ r) (remove_sub-add_sub id s rs f.1))
]

-- A subscription that is opened and closed leaves the hub's rooms as they were.
pub unsubscribe-subscribe :
    (id : RoomId) (ticket : Str) (h : Hub)
    → IsFresh h.next h.rooms
    → let (h', n) = subscribe id ticket h in (unsubscribe id n h').rooms ≡ h.rooms
unfolding subscribe unsubscribe
unsubscribe-subscribe id ticket h f =
    remove_sub-add_sub id (record { number = h.next; ticket = ticket; ch = [] }) h.rooms f
