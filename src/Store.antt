-- ===== src/Store.antt =====
-- queue/internal/store/store.go: every operation of the queue on Redis, over an arbitrary service.
-- The tickets' random identifiers and the draws of the shuffle are arguments.
pub mod Shuffle
pub mod Lease
pub mod Tickets
pub mod Ranking
use mathlib.Core.List.{reverse}
use flyc.Base.{
  ℕ, zero, suc, ◌+◌, ◌-◌, ◌*◌, ◌/◌, ◌%◌, Bool, true, false, List, [], ◌∷◌, ◌++◌, map, Option, none,
  some, ltb, leb, ◌==◌, ◌||◌, if◌then◌else◌, length, get_or, set, take, drop, Str, codes, str_eq,
  format_int, parse_int,
}
use flyc.Room.{
  RoomId, to_string, key, Config, validate, to_hash, from_hash, field, Hash, wave, wave_score, unix,
}
use flyc.Redis.{
  Redis, Cmd, hset, hgetall, hincrby, expire, sadd, smembers, scard, spopn, setnx, get, del,
  del_if_eq, zadd, zremrangebyscore, zcard, zfirst, zpopmin, zrank, publish, scan, Reply, Event,
  EventType, reply_at, as_int, as_text, as_texts, as_fields, as_scored, as_rank, M, ◌>>=◌, ◌>>◌,
  pure, attempt,
}

abbrev pub status_waiting : Str
status_waiting = codes "waiting"

abbrev pub status_admitted : Str
status_admitted = codes "admitted"

abbrev pub ticket_ttl : ℕ
ticket_ttl = 24 * 3600

abbrev pub rooms_key : Str
rooms_key = codes "rooms"

pub record Ticket : Type 0 where
  pub id : Str
  pub created : ℕ
  pub wave : ℕ
  pub status : Str
  -- 0 while its wave has not been closed.
  pub score : ℕ
  pub dom : Str
  pub ret : Str
  pub pass : Str
  pub exp : ℕ
  pub admitted : ℕ

abbrev pub ticket_key : RoomId → Str → Str
ticket_key id tid = key id (codes "t:" ++ tid)

abbrev pub wave_key : RoomId → ℕ → Str
wave_key id n = key id (codes "wave:" ++ format_int n)

-- "t_" and the hexadecimal text of sixteen random bytes, which is the argument.
abbrev pub new_id : Str → Str
new_id random = codes "t_" ++ random

-- Shuffle: the loop from the last place down to 1. `draws` are the random numbers, in their order.
abbrev pub swap : ℕ → ℕ → List Str → List Str
swap i j ids = set (set ids i (get_or ids j [])) j (get_or ids i [])

abbrev next_draw : List ℕ → ℕ
next_draw [] = 0
next_draw (r ∷ rs) = r

abbrev other_draws : List ℕ → List ℕ
other_draws [] = []
other_draws (r ∷ rs) = rs

unfoldable pub shuffle_from : ℕ → List ℕ → List Str → List Str
shuffle_from zero draws ids = ids
shuffle_from (suc i) draws ids =
    shuffle_from i (other_draws draws) (swap (suc i) (next_draw draws % (suc i + 1)) ids)

unfoldable pub shuffle : List ℕ → List Str → List Str
unfolding shuffle_from
shuffle draws ids = shuffle_from (length ids - 1) draws ids

-- The scores of a run of tickets, from a rank on.
pub ranked : ℕ → ℕ → List Str → List (ℕ × Str)
ranked n j [] = []
ranked n j (tid ∷ ids) = (wave_score n j, tid) ∷ ranked n (j + 1) ids

-- The pipeline of one batch: the score of each ticket, then one ZADD.
unfoldable pub score_cmds : RoomId → List (ℕ × Str) → List Cmd
score_cmds id [] = []
score_cmds id ((s, tid) ∷ zs) =
    hset (ticket_key id tid) ((codes "score", format_int s) ∷ []) ∷ score_cmds id zs

unfoldable pub place_cmds : RoomId → List (ℕ × Str) → List Cmd
unfolding score_cmds
place_cmds id zs = score_cmds id zs ++ zadd (key id (codes "pending")) zs ∷ []

-- The number behind the last ':' of a key, or none.
last_part : Str → Str → Str
last_part acc [] = acc
last_part acc (c ∷ s) = last_part (if c == b':' then [] else acc ++ c ∷ []) s

abbrev stray_number : ℕ → ℕ × Bool → List ℕ → List ℕ
stray_number cur (n, false) rest = rest
stray_number cur (n, true) rest = if n == cur || (n + 1 == cur) then rest else n ∷ rest

unfoldable pub stray_numbers : ℕ → List Str → List ℕ
unfolding last_part
stray_numbers cur [] = []
stray_numbers cur (k ∷ ks) = stray_number cur (parse_int (last_part [] k)) (stray_numbers cur ks)

abbrev read_ticket : Str → Hash → Ticket
read_ticket tid h = record {
  id = tid;
  created = (parse_int (field h (codes "created"))).0;
  wave = (parse_int (field h (codes "wave"))).0;
  status = field h (codes "status");
  score = (parse_int (field h (codes "score"))).0;
  dom = field h (codes "dom");
  ret = field h (codes "ret");
  pass = field h (codes "pass");
  exp = (parse_int (field h (codes "exp"))).0;
  admitted = (parse_int (field h (codes "admitted"))).0;
}

abbrev ticket_of : Str → Hash → Option Ticket
ticket_of tid [] = none
ticket_of tid (p ∷ h) = some (read_ticket tid (p ∷ h))

-- The keys of the waves that Flush deletes: from cur - 200 up to cur + 1.
flush_cmds : RoomId → ℕ → ℕ → List Cmd
flush_cmds id zero n = []
flush_cmds id (suc k) n = del (wave_key id n) ∷ flush_cmds id k (n + 1)

abbrev head_score : List (ℕ × Str) → ℕ
head_score [] = 0
head_score ((s, m) ∷ zs) = s

abbrev pub members : List (ℕ × Str) → List Str
members = map λ z. z.1

pub record Counted : Type 0 where
  pub pending : ℕ
  pub active : ℕ
  pub head : ℕ

module _ (R : Redis) where
  open R use {Db, exec}

  unfoldable pub load_config : RoomId → M Db (Config × Bool)
  load_config id = do
    rs ← exec (hgetall (key id (codes "cfg")) ∷ [])
    pure (from_hash (as_fields (reply_at rs 0)))

  pub publish_event : RoomId → Event → M Db (Unit {0})
  publish_event id ev = do _ ← exec (publish (key id (codes "ev")) ev ∷ []); pure tt

  write_config : RoomId → Config → M Db (Unit {0})
  unfolding publish_event
  write_config id c = do
    _ ← exec (hset (key id (codes "cfg")) (to_hash c) ∷ sadd rooms_key (to_string id) ∷ [])
    publish_event id (record {
      type = EventType.config;
      admitted_ids = [];
      pending = 0;
      head = 0;
      rate = c.rate;
    })

  -- An invalid config is refused before anything is written; Validate has normalised the others.
  unfoldable pub set_config : RoomId → Config → M Db (Unit {0})
  unfolding write_config
  set_config id c =
      let (c', refused) = validate c in
      elim refused [ some e ↦ λ db. (none, db) | none ↦ write_config id c' ]

  unfoldable rooms : M Db (List Str)
  rooms = do rs ← exec (smembers rooms_key ∷ []); pure (as_texts (reply_at rs 0))

  -- In the wave of this moment; `random` is the text of the random bytes.
  unfoldable pub create_ticket : RoomId → Config → Str → Str → Str → ℕ → M Db Ticket
  create_ticket id cfg random dom ret now = do
    _ ← exec (
        hset (ticket_key id t.id) (
          (codes "created", format_int t.created)
          ∷ (codes "wave", format_int t.wave)
          ∷ (codes "status", t.status)
          ∷ (codes "dom", dom)
          ∷ (codes "ret", ret)
          ∷ [])
        ∷ expire (ticket_key id t.id) ticket_ttl
        ∷ sadd (wave_key id t.wave) t.id
        ∷ expire (wave_key id t.wave) 7200
        ∷ hincrby (key id (codes "stats")) (codes "tickets_total") 1
        ∷ sadd rooms_key (to_string id)
        ∷ [])
    pure t
    where
      t : Ticket
      t = record {
        id = new_id random;
        created = unix now;
        wave = wave now cfg.wave_sec;
        status = status_waiting;
        score = 0;
        dom = dom;
        ret = ret;
        pass = [];
        exp = 0;
        admitted = 0;
      }

  -- A room in the state open: the pass is given at once.
  unfoldable pub admit_direct : RoomId → Str → Str → Str → Str → ℕ → ℕ → M Db Ticket
  admit_direct id random dom ret pass exp now = do
    _ ← exec (
        hset (ticket_key id t.id) (
          (codes "created", format_int t.created)
          ∷ (codes "status", t.status)
          ∷ (codes "dom", dom)
          ∷ (codes "ret", ret)
          ∷ (codes "pass", pass)
          ∷ (codes "exp", format_int exp)
          ∷ (codes "admitted", format_int t.admitted)
          ∷ [])
        ∷ expire (ticket_key id t.id) ticket_ttl
        ∷ hincrby (key id (codes "stats")) (codes "tickets_total") 1
        ∷ hincrby (key id (codes "stats")) (codes "admitted_total") 1
        ∷ [])
    pure t
    where
      t : Ticket
      t = record {
        id = new_id random;
        created = unix now;
        wave = 0;
        status = status_admitted;
        score = 0;
        dom = dom;
        ret = ret;
        pass = pass;
        exp = exp;
        admitted = unix now;
      }

  -- `some none` is a ticket that is not known.
  unfoldable pub get_ticket : RoomId → Str → M Db (Option Ticket)
  get_ticket id tid = do
    rs ← exec (hgetall (ticket_key id tid) ∷ [])
    pure (ticket_of tid (as_fields (reply_at rs 0)))

  -- The last wave that was closed; `none` is the -1 of a room that has closed none. A text that is
  -- no number is an error.
  parsed_wave : Option Str → M Db (Option ℕ)
  parsed_wave none = pure none
  parsed_wave (some v) =
      let (n, good) = parse_int v in elim good [ true ↦ pure (some n) | false ↦ λ db. (none, db) ]

  unfoldable pub last_wave : RoomId → M Db (Option ℕ)
  unfolding parsed_wave
  last_wave id = do
    rs ← exec (get (key id (codes "lastwave")) ∷ [])
    parsed_wave (as_text (reply_at rs 0))

  unfoldable pub set_last_wave : RoomId → ℕ → M Db (Unit {0})
  set_last_wave id n = do
    _ ← exec (Cmd.set (key id (codes "lastwave")) (format_int n) ∷ [])
    pure tt

  -- An empty batch ends the loop.
  abbrev next_batch : (List Str → M Db (List Str)) → List Str → List Str → M Db (List Str)
  next_batch again ids [] = pure ids
  next_batch again ids (tid ∷ batch) = again (ids ++ tid ∷ batch)

  -- SPOP in batches until the set is empty. `none` also when the fuel is used up.
  pub pop_all : ℕ → Str → List Str → M Db (List Str)
  pop_all zero k ids = λ db. (none, db)
  pop_all (suc fuel) k ids = do
    rs ← exec (spopn k 1000 ∷ [])
    next_batch (pop_all fuel k) ids (as_texts (reply_at rs 0))

  -- A thousand tickets to a pipeline.
  unfoldable pub place_all : ℕ → RoomId → List (ℕ × Str) → M Db (Unit {0})
  place_all zero id zs = pure tt
  place_all (suc fuel) id [] = pure tt
  place_all (suc fuel) id (z ∷ zs) = do
    _ ← exec (place_cmds id (take 1000 (z ∷ zs)))
    place_all fuel id (drop 1000 (z ∷ zs))

  rank_wave : RoomId → ℕ → List Str → M Db ℕ
  unfolding place_all ranked
  rank_wave id n [] = pure 0
  rank_wave id n (tid ∷ ids) = do
    place_all (length (tid ∷ ids)) id (ranked n 0 (tid ∷ ids))
    _ ← attempt (exec (del (wave_key id n) ∷ []))
    pure (length (tid ∷ ids))

  -- Empties wave n, shuffles its tickets and ranks them in pending.
  unfoldable pub close_wave : ℕ → List ℕ → RoomId → ℕ → M Db ℕ
  unfolding pop_all shuffle rank_wave
  close_wave fuel draws id n = do
    ids ← pop_all fuel (wave_key id n) []
    rank_wave id n (shuffle draws ids)

  unfoldable pub stray_waves : RoomId → ℕ → M Db (List ℕ)
  stray_waves id cur = do
    rs ← exec (scan (key id (codes "wave:*")) ∷ [])
    pure (stray_numbers cur (as_texts (reply_at rs 0)))

  -- Passes that have run out are removed before anything is counted.
  unfoldable pub counts : RoomId → ℕ → M Db Counted
  counts id now = do
    rs ← exec (
        zremrangebyscore (key id (codes "active")) (unix now)
        ∷ zcard (key id (codes "pending"))
        ∷ zcard (key id (codes "active"))
        ∷ zfirst (key id (codes "pending"))
        ∷ [])
    pure (record {
      pending = as_int (reply_at rs 1);
      active = as_int (reply_at rs 2);
      head = head_score (as_scored (reply_at rs 3));
    })

  unfoldable pub pop_pending : RoomId → ℕ → M Db (List Str)
  pop_pending id zero = pure []
  pop_pending id (suc k) = do
    rs ← exec (zpopmin (key id (codes "pending")) (suc k) ∷ [])
    pure (members (as_scored (reply_at rs 0)))

  unfoldable pub mark_admitted : RoomId → Str → Str → ℕ → ℕ → M Db (Unit {0})
  mark_admitted id tid pass exp now = do
    _ ← exec (
        hset (ticket_key id tid) (
          (codes "status", status_admitted)
          ∷ (codes "pass", pass)
          ∷ (codes "exp", format_int exp)
          ∷ (codes "admitted", format_int now)
          ∷ [])
        ∷ zadd (key id (codes "active")) ((exp, tid) ∷ [])
        ∷ hincrby (key id (codes "stats")) (codes "admitted_total") 1
        ∷ [])
    pure tt

  -- A ticket that has a score goes back to its place.
  unfoldable pub requeue : RoomId → Ticket → M Db (Unit {0})
  requeue id t =
      if t.score == 0
      then pure tt
      else exec (zadd (key id (codes "pending")) ((t.score, t.id) ∷ []) ∷ []) >> pure tt

  -- `none` is the -1 of a ticket that is not in pending.
  unfoldable pub rank : RoomId → Str → M Db (Option ℕ)
  rank id tid = do
    rs ← exec (zrank (key id (codes "pending")) tid ∷ [])
    pure (as_rank (reply_at rs 0))

  abbrev rank_cmds : RoomId → List Str → List Cmd
  rank_cmds id = map (zrank (key id (codes "pending")))

  abbrev ranks_from : ℕ → List Str → List Reply → List (Option ℕ)
  ranks_from i [] rs = []
  ranks_from i (t ∷ ts) rs = as_rank (reply_at rs i) ∷ ranks_from (suc i) ts rs

  unfoldable pub ranks : RoomId → List Str → M Db (List (Option ℕ))
  ranks id tids = do rs ← exec (rank_cmds id tids); pure (ranks_from 0 tids rs)

  unfoldable pub wave_size : RoomId → ℕ → M Db ℕ
  wave_size id n = do rs ← exec (scard (wave_key id n) ∷ []); pure (as_int (reply_at rs 0))

  -- The lease of the admitter, in seconds. A lease that runs out between SETNX and GET is an error.
  unfoldable pub held_by : RoomId → Str → ℕ → Option Str → M Db Bool
  held_by id owner ttl none = λ db. (none, db)
  held_by id owner ttl (some cur) =
      if str_eq cur owner
      then exec (expire (key id (codes "lock")) ttl ∷ []) >> pure true
      else pure false

  unfoldable pub taken : RoomId → Str → ℕ → ℕ → M Db Bool
  unfolding held_by
  taken id owner ttl zero = do
    rs ← exec (get (key id (codes "lock")) ∷ [])
    held_by id owner ttl (as_text (reply_at rs 0))
  taken id owner ttl (suc n) = pure true

  unfoldable pub acquire : RoomId → Str → ℕ → M Db Bool
  unfolding taken
  acquire id owner ttl = do
    rs ← exec (setnx (key id (codes "lock")) owner ttl ∷ [])
    taken id owner ttl (as_int (reply_at rs 0))

  unfoldable pub release : RoomId → Str → M Db (Unit {0})
  release id owner = do _ ← attempt (exec (del_if_eq (key id (codes "lock")) owner ∷ [])); pure tt

  unfoldable pub stats : RoomId → M Db Hash
  stats id = do rs ← exec (hgetall (key id (codes "stats")) ∷ []); pure (as_fields (reply_at rs 0))

  -- Empties the room; the passes that were given stay.
  unfoldable pub flush_room : RoomId → ℕ → ℕ → M Db (Unit {0})
  unfolding flush_cmds publish_event
  flush_room id now wave_sec =
      let cur = wave now wave_sec in
      do
        _ ← exec (
            del (key id (codes "pending"))
            ∷ (flush_cmds id (cur + 2 - (cur - 200)) (cur - 200)
                ++ Cmd.set (key id (codes "lastwave")) (format_int (cur - 1)) ∷ []))
        publish_event id
            (record { type = EventType.flush; admitted_ids = []; pending = 0; head = 0; rate = 0 })
