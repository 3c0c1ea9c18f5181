-- ===== src/Admitter.antt =====
-- queue/internal/admitter/admitter.go: the loop of one room, its waves and its admissions.
-- Tokens are counted in 10^-12 of an admission, so that a rate in thousandths times a duration in
-- nanoseconds is exact.
pub mod Waves
pub mod Budget
pub mod Loop
use flyc.Base.{
  ℕ, zero, suc, ◌+◌, ◌-◌, ◌*◌, ◌/◌, ◌%◌, Bool, true, false, ◌||◌, List, [], ◌∷◌, ◌++◌, Option, none,
  some, ltb, leb, ◌==◌, if◌then◌else◌, length, Str,
}
use flyc.Room.{RoomId, to_string, Config, State, queue, second, unix, wave}
use flyc.Redis.{Redis, EventType, M, ◌>>=◌, ◌>>◌, pure, attempt}
use flyc.Pass.{Crypto, Claims, mint}
use flyc.Store.{
  Ticket, Counted, load_config, last_wave, set_last_wave, close_wave, stray_waves, counts,
  pop_pending, get_ticket, mark_admitted, requeue, publish_event, acquire, release,
}

abbrev pub token : ℕ
token = 1_000_000_000_000

abbrev pub lock_ttl : ℕ
lock_ttl = 5

abbrev pub wave_grace : ℕ
wave_grace = second

-- What a tick takes from outside: the time, the time since the last one, the signing key, the
-- random draws of a wave and the randomness of a signature, and the fuel of the loops on Redis.
pub record Tick : Type 0 where
  pub now : ℕ
  pub dt : ℕ
  pub kid : Str
  pub priv : Str
  pub draws : ℕ → List ℕ
  pub nonce : Str → ℕ
  pub fuel : ℕ

-- The first wave to close: behind the last one, or from the wave before this one where the counter
-- is absent, too old, or of another numbering.
unfoldable pub first_wave : Option ℕ → ℕ → ℕ
first_wave none cur = cur - 1
first_wave (some v) cur = if ltb (v + 200) cur || leb cur v then cur - 1 else v + 1

-- The window of wave n is over, and so is the grace.
abbrev pub is_due : ℕ → ℕ → ℕ → Bool
is_due now wave_sec n = leb ((n + 1) * wave_sec * second + wave_grace) now

-- The loop's waves: from n on, at most `rounds`, up to the first that is not over.
pub due_waves : ℕ → ℕ → ℕ → ℕ → List ℕ
due_waves now wave_sec zero n = []
due_waves now wave_sec (suc rounds) n =
    let rest = due_waves now wave_sec rounds (n + 1) in
    if is_due now wave_sec n then n ∷ rest else []

abbrev pub waves_to_close : Config → ℕ → Option ℕ → List ℕ
waves_to_close cfg now last =
    let cur = wave now cfg.wave_sec in
    due_waves now cfg.wave_sec (cur - first_wave last cur) (first_wave last cur)

-- The bucket fills at the rate, up to five seconds' worth.
unfoldable pub refill : Config → ℕ → ℕ → ℕ
refill cfg dt tokens =
    if ltb (tokens + cfg.rate * dt) (cfg.rate * (5 * second))
    then tokens + cfg.rate * dt
    else cfg.rate * (5 * second)

abbrev at_most : ℕ → ℕ → ℕ
at_most bound k = if ltb bound k then bound else k

-- How many tickets a tick admits: whole tokens, free places where they are limited, tickets.
unfoldable pub budget : Config → ℕ → Counted → ℕ
budget cfg tokens c = at_most c.pending (
    if ltb 0 cfg.max_active
    then at_most (cfg.max_active - c.active) (tokens / token)
    else tokens / token)

abbrev pub is_queueing : State → Bool
is_queueing queue = true
is_queueing _ = false

abbrev pub kept_if : Bool → Str → List Str → List Str
kept_if true tid ids = tid ∷ ids
kept_if false tid ids = ids

-- The state of a loop between two rounds.
pub record LoopState : Type 0 where
  pub tokens : ℕ
  pub last : ℕ
  pub leader : Bool

module _ (R : Redis) (C : Crypto) where
  open R use {Db}

  -- Each closed wave becomes the last wave.
  close_waves : Tick → RoomId → List ℕ → M Db (Unit {0})
  close_waves k id [] = pure tt
  close_waves k id (n ∷ ns) = do
    _ ← close_wave R k.fuel (k.draws n) id n
    set_last_wave R id n
    close_waves k id ns

  close_strays : Tick → RoomId → List ℕ → M Db (Unit {0})
  close_strays k id [] = pure tt
  close_strays k id (n ∷ ns) = do _ ← close_wave R k.fuel (k.draws n) id n; close_strays k id ns

  abbrev found_strays : Option (List ℕ) → List ℕ
  found_strays none = []
  found_strays (some ns) = ns

  -- Every thirty seconds, the waves of another numbering. A failed scan is only logged.
  sweep : Tick → RoomId → ℕ → M Db (Unit {0})
  unfolding close_strays
  sweep k id cur =
      if unix k.now % 30 == 0
      then (attempt (stray_waves R id cur) >>= λ found. close_strays k id (found_strays found))
      else pure tt

  -- The first half of a tick: close what is over, and count.
  prepare : Tick → RoomId → Config → M Db Counted
  unfolding close_waves sweep
  prepare k id cfg = do
    last ← last_wave R id
    close_waves k id (waves_to_close cfg k.now last)
    sweep k id (wave k.now cfg.wave_sec)
    counts R id k.now

  -- A ticket whose pass is signed is marked; where that fails it goes back, and the tick ends.
  give : Tick → RoomId → Config → Ticket → Option Str → M Db Bool
  give k id cfg t none = do _ ← attempt (requeue R id t); pure false
  give k id cfg t (some tok) = do
    marked ← attempt (mark_admitted R id t.id tok (unix (k.now + cfg.pass_ttl)) (unix k.now))
    elim marked [ some u ↦ pure true | none ↦ do _ ← attempt (requeue R id t); λ db. (none, db) ]

  offer : Tick → RoomId → Config → Option (Option Ticket) → M Db Bool
  unfolding give
  offer k id cfg none = pure false
  offer k id cfg (some none) = pure false
  offer k id cfg (some (some t)) = give k id cfg t (
      mint C k.priv k.kid
        (record {
          sub = t.id;
          tenant = id.tenant;
          dom = t.dom;
          room = to_string id;
          ttl = cfg.pass_ttl;
        })
        [] (k.nonce t.id) k.now)

  -- Whether a popped ticket was admitted.
  unfoldable pub admit_one : Tick → RoomId → Config → Str → M Db Bool
  unfolding offer
  admit_one k id cfg tid = do found ← attempt (get_ticket R id tid); offer k id cfg found

  pub admit_all : Tick → RoomId → Config → List Str → M Db (List Str)
  admit_all k id cfg [] = pure []
  admit_all k id cfg (tid ∷ ids) = do
    done ← admit_one k id cfg tid
    rest ← admit_all k id cfg ids
    pure (kept_if done tid rest)

  -- Takes up to n tickets, and returns those that were admitted.
  unfoldable pub admit : Tick → RoomId → Config → ℕ → M Db (List Str)
  unfolding admit_all
  admit k id cfg n = do ids ← pop_pending R id n; admit_all k id cfg ids

  announce : RoomId → Config → Counted → List Str → M Db (Unit {0})
  announce id cfg c [] = pure tt
  announce id cfg c (tid ∷ ids) = publish_event R id (record {
    type = EventType.admitted;
    admitted_ids = tid ∷ ids;
    pending = c.pending - length (tid ∷ ids);
    head = c.head;
    rate = cfg.rate;
  })

  -- With a budget and a key: tokens are taken for the tickets that were admitted, and only if no
  -- error ended the round.
  spend : Tick → RoomId → Config → Counted → ℕ → ℕ → Db → ℕ × Db
  unfolding admit announce
  spend k id cfg c tokens n db =
      let (out, db') = admit k id cfg n db in
      elim out [
        | none ↦ (tokens, db')
        | some ids ↦ (tokens - length ids * token, (announce id cfg c ids db').1)
      ]

  -- The second half: the tokens that are left, and the database. A budget of none, or no key,
  -- leaves the tokens in the bucket.
  pub admissions : Tick → RoomId → Config → Counted → ℕ → Db → ℕ × Db
  unfolding spend
  admissions k id cfg c tokens db =
      let full = refill cfg k.dt tokens in
      let n = budget cfg full c in
      let given = spend k id cfg c full n db in
      if is_queueing cfg.state
      then (if c.pending == 0 || n == 0 || length k.kid == 0 then (full, db) else given)
      else (full, db)

  -- One tick, whose errors are only logged by the loop.
  tick_once : Tick → RoomId → ℕ → Db → ℕ × Db
  unfolding prepare admissions
  tick_once k id tokens db =
      let (loaded, db1) = load_config R id db in
      elim loaded [
        | none ↦ (tokens, db1)
        | some (cfg, found) ↦
            let (counted, db2) = prepare k id cfg db1 in
            elim counted [ none ↦ (tokens, db2) | some c ↦ admissions k id cfg c tokens db2 ]
      ]

  -- A round of the loop, after the answer to Acquire; `asked` is the time when it came.
  pub led_round : Tick → RoomId → ℕ → LoopState → Option Bool → Db → LoopState × Db
  unfolding tick_once
  led_round k id asked s none db = (s, db)
  led_round k id asked s (some false) db = (record { tokens = 0; last = asked; leader = false }, db)
  led_round k id asked s (some true) db =
      let last = if s.leader then s.last else asked in
      let (tokens, db') = tick_once (record k { dt = k.now - last }) id s.tokens db in
      (record { tokens = tokens; last = k.now; leader = true }, db')

  pub loop_round : Tick → RoomId → Str → ℕ → LoopState → Db → LoopState × Db
  unfolding led_round
  loop_round k id owner asked s db =
      let (answer, db') = acquire R id owner lock_ttl db in led_round k id asked s answer db'

  -- The end of the loop: the lease goes back if it is held.
  unfoldable loop_end : RoomId → Str → LoopState → Db → Db
  loop_end id owner s db = if s.leader then (release R id owner db).1 else db
