-- ===== src/Api.antt =====
-- queue/internal/api/api.go: the public handlers of the waiting room and the internal ones.
-- Base64, HMAC, URL parsing and escaping and the anti-robot service are parameters.
pub mod Cookie
pub mod Return
pub mod Access
pub mod Requeue
use flyc.Base.{
  ℕ, zero, suc, ◌+◌, ◌-◌, ◌*◌, Bool, true, false, ◌&&◌, ◌||◌, not, List, [], ◌∷◌, ◌++◌, Option,
  none, some, ltb, leb, ◌==◌, if◌then◌else◌, length, take, drop, Str, codes, str_eq, cut,
  has_prefix, to_lower, trim_space,
}
use flyc.Room.{
  RoomId, parse, to_string, Config, defaults, validate, State, opened, queue, closed, other, unix,
  wave, allows_domain, second, Hash,
}
use flyc.Redis.{Redis, M, ◌>>=◌, ◌>>◌, pure, attempt}
use flyc.Pass.{Crypto, Claims, mint}
use flyc.Store.{
  Ticket, Counted, status_waiting, status_admitted, load_config, set_config, create_ticket,
  admit_direct, get_ticket, counts, rank, requeue, flush_room, wave_size, stats,
}
use flyc.Hub.{Status, build_status}

-- A parsed URL.
pub record Url : Type 0 where
  pub host : Str
  pub hostname : Str
  pub escaped_path : Str
  pub raw_query : Str

pub record Web : Type 0 where
  pub hmac_hex : Str → Str → Str
  pub b64_std : Str → Option Str
  pub b64_url : Str → Option Str
  pub b64_encode : Str → Str
  pub parse_url : Str → Option Url
  pub query_escape : Str → Str
  pub turnstile : Str → Str → Bool

pub record Options : Type 0 where
  pub internal_token : Str
  pub cookie_secret : Str
  pub turnstile_secret : Str

-- What the handlers read of a request: the room of the path, the parameter t, the ticket cookie of
-- the room, three headers, and the body of a ticket request (empty where it is no JSON).
pub record Request : Type 0 where
  pub room : Str
  pub t : Str
  pub cookie : Option Str
  pub authorization : Str
  pub real_ip : Str
  pub degraded : Str
  pub h : Str
  pub r : Str
  pub turnstile_token : Str

pub data Body : Type 0 where
  error : Str → Body
  room_config : RoomId → Config → Body
  is_closed : Config → Body
  is_admitted : RoomId → Str → Body
  is_waiting : Str → Status → Body
  redirect : Str → Body
  a_pass : Ticket → RoomId → Body
  room_report : RoomId → Config → Counted → ℕ → Hash → Body
  stored : Config → Body
  flushed : Body

pub record Response : Type 0 where
  pub code : ℕ
  pub body : Body
  pub set_cookie : Option Str

abbrev pub reply : ℕ → Body → Response
reply code body = record { code = code; body = body; set_cookie = none }

abbrev pub is_closed_state : State → Bool
is_closed_state closed = true
is_closed_state _ = false

abbrev pub is_open_state : State → Bool
is_open_state opened = true
is_open_state _ = false

abbrev pub is_queue_state : State → Bool
is_queue_state queue = true
is_queue_state _ = false

abbrev pub is_admitted_ticket : Ticket → Bool
is_admitted_ticket t = str_eq t.status status_admitted

abbrev is_empty : Str → Bool
is_empty [] = true
is_empty (c ∷ s) = false

-- What a handler takes from outside: the time, random bytes and the signing key.
pub record Env : Type 0 where
  pub now : ℕ
  pub random : Str
  pub nonce : ℕ
  pub kid : Str
  pub priv : Str

module _ (W : Web) where
  open W use {hmac_hex, b64_std, b64_url, b64_encode, parse_url, query_escape, turnstile}

  -- The mark of a ticket: the first 32 hexadecimal digits of the HMAC of room and ticket.
  ticket_mark : Options → RoomId → Str → Str
  ticket_mark o id tid = take 32 (hmac_hex o.cookie_secret (to_string id ++ b'|' ∷ tid))

  pub sign_ticket : Options → RoomId → Str → Str
  unfolding ticket_mark
  sign_ticket o id tid = tid ++ b'.' ∷ ticket_mark o id tid

  -- TrimPrefix of the signed ticket by the ticket and its dot leaves the mark.
  checked_mark : Options → RoomId → Option (Str × Str) → Option Str
  unfolding ticket_mark
  checked_mark o id none = none
  checked_mark o id (some (tid, sig)) =
      if is_empty tid then none else if str_eq sig (ticket_mark o id tid) then some tid else none

  pub verify_ticket : Options → RoomId → Str → Option Str
  unfolding checked_mark
  verify_ticket o id v = checked_mark o id (cut b'.' v)

  cookie_ticket : Options → RoomId → Option Str → Option Str
  unfolding verify_ticket
  cookie_ticket o id none = none
  cookie_ticket o id (some v) = verify_ticket o id v

  abbrev text_or_empty : Option Str → Str
  text_or_empty none = []
  text_or_empty (some s) = s

  -- The parameter t, or the signed cookie.
  pub ticket_from_request : Options → RoomId → Request → Str
  unfolding cookie_ticket
  ticket_from_request o id q =
      if is_empty q.t then text_or_empty (cookie_ticket o id q.cookie) else q.t

  abbrev first_some : Option Str → Option Str → Str → Str
  first_some (some b) c raw = b
  first_some none (some c) raw = c
  first_some none none raw = raw

  abbrev path_or_root : Str → Str
  path_or_root [] = b'/' ∷ []
  path_or_root (c ∷ p) = c ∷ p

  abbrev with_query : Str → Str → Str
  with_query p [] = p
  with_query p (c ∷ q) = p ++ b'?' ∷ (c ∷ q)

  -- An absolute URL is accepted on the protected domain alone, and gives its path and query.
  from_url : Str → Option Url → Str
  from_url dom none = b'/' ∷ []
  from_url dom (some u) =
      if not (is_empty u.host) && str_eq (to_lower u.hostname) (to_lower dom)
      then with_query (path_or_root u.escaped_path) u.raw_query
      else b'/' ∷ []

  decoded_return : Str → Str → Str
  unfolding from_url
  decoded_return raw dom =
      if has_prefix (codes "/") raw && not (has_prefix (codes "//") raw)
      then raw
      else from_url dom (parse_url raw)

  pub normalize_return : Str → Str → Str
  unfolding decoded_return
  normalize_return [] dom = b'/' ∷ []
  normalize_return (c ∷ raw) dom =
      decoded_return (first_some (b64_std (c ∷ raw)) (b64_url (c ∷ raw)) (c ∷ raw)) dom

  pub go_url : Str → Str → Str → Str
  go_url dom ret tok =
      codes "https://"
      ++ (dom
          ++ (codes "/__flyc/go?p="
              ++ (query_escape tok ++ (codes "&r=" ++ query_escape (b64_encode ret)))))

  -- The form is only sent with a token; an unreachable service is a refusal.
  verify_turnstile : Str → Str → Bool
  verify_turnstile [] ip = false
  verify_turnstile (c ∷ t) ip = turnstile (c ∷ t) ip

  pub authorized : Options → Request → Bool
  authorized o q =
      not (is_empty o.internal_token)
      && str_eq q.authorization (codes "Bearer " ++ o.internal_token)

  module _ (R : Redis) where
    open R use {Db}

    -- A handler answers always, whatever the database does.
    abbrev pub Handler : Type 0
    Handler = Db → Response × Db

    found_room : (RoomId → Config → Handler) → RoomId → Option (Config × Bool) → Handler
    found_room next id none db = (reply 503 (error (codes "store")), db)
    found_room next id (some (cfg, false)) db = (reply 404 (error (codes "unknown_room")), db)
    found_room next id (some (cfg, true)) db = next id cfg db

    parsed_room : (RoomId → Config → Handler) → Option RoomId → Handler
    unfolding found_room
    parsed_room next none db = (reply 404 (error (codes "unknown_room")), db)
    parsed_room next (some id) db =
        let (loaded, db') = load_config R id db in found_room next id loaded db'

    -- roomOf, and the handler behind it.
    unfoldable pub with_room : Request → (RoomId → Config → Handler) → Handler
    unfolding parsed_room
    with_room q next = parsed_room next (parse q.room)

    -- `t, _ := GetTicket`: an error counts as a ticket that is not known.
    abbrev known : Option (Option Ticket) → Option Ticket
    known none = none
    known (some t) = t

    pub lookup_ticket : RoomId → Str → Db → Option Ticket × Db
    lookup_ticket id tid db = let (t, db') = get_ticket R id tid db in (known t, db')

    -- A ticket without a place in pending: one that has a score goes back, one that has none waits
    -- for its wave.
    wave_in : Config → Ticket → ℕ → ℕ
    wave_in cfg t now = (t.wave + 1) * cfg.wave_sec + 1 - unix now

    -- An error of the second Rank is dropped, and the rank is then 0.
    abbrev rank_or_none : Option (Option ℕ) → Option ℕ
    rank_or_none none = some 0
    rank_or_none (some r) = r

    pub unranked_status : RoomId → Config → Ticket → ℕ → ℕ → M Db Status
    unfolding wave_in
    unranked_status id cfg t pending now =
        if ltb 0 t.score
        then (attempt (requeue R id t) >>= λ u.
            attempt (rank R id t.id) >>= λ r. pure (build_status cfg pending (rank_or_none r) 0))
        else pure (build_status cfg pending none (wave_in cfg t now))

    pub ranked_status : RoomId → Config → Ticket → ℕ → ℕ → Option ℕ → M Db Status
    unfolding unranked_status
    ranked_status id cfg t pending now (some r) = pure (build_status cfg pending (some r) 0)
    ranked_status id cfg t pending now none = unranked_status id cfg t pending now

    pub status_of : RoomId → Config → Ticket → ℕ → M Db Status
    unfolding ranked_status
    status_of id cfg t now = do
      c ← counts R id now
      r ← rank R id t.id
      ranked_status id cfg t c.pending now r

    -- `st, _ := statusOf`: an error leaves the zero status.
    abbrev status_or_zero : Option Status → Status
    status_or_zero (some st) = st
    status_or_zero none = record {
      state = other [];
      position = 0;
      ahead = 0;
      pending = 0;
      eta = 0;
      wave_in = 0;
      rate = 0;
    }

    respond_ticket : Env → RoomId → Config → Ticket → Handler
    unfolding status_of
    respond_ticket e id cfg t db =
        let (st, db') = status_of id cfg t e.now db in
        if is_admitted_ticket t
        then (reply 200 (is_admitted id t.id), db)
        else (reply 200 (is_waiting t.id (status_or_zero st)), db')

    abbrev with_cookie : Options → RoomId → Str → Response × Db → Response × Db
    with_cookie o id tid (r, db) = (record r { set_cookie = some (sign_ticket o id tid) }, db)

    opened_ticket : Options → RoomId → Option Ticket → Handler
    unfolding sign_ticket
    opened_ticket o id none db = (reply 503 (error (codes "store")), db)
    opened_ticket o id (some t) db = with_cookie o id t.id (reply 200 (is_admitted id t.id), db)

    module _ (C : Crypto) where
      signed_ticket : Options → Env → RoomId → Config → Str → Str → Option Str → Handler
      unfolding opened_ticket
      signed_ticket o e id cfg dom ret none db = (reply 500 (error (codes "sign")), db)
      signed_ticket o e id cfg dom ret (some tok) db =
          let (t, db') =
            admit_direct R id e.random dom ret tok (unix (e.now + cfg.pass_ttl)) e.now db in
          opened_ticket o id t db'

      -- A room that is open: the pass is signed and given at once.
      give_open : Options → Env → RoomId → Config → Str → Str → Handler
      unfolding signed_ticket
      give_open o e id cfg dom ret db =
          if is_empty e.kid
          then (reply 503 (error (codes "no_key")), db)
          else signed_ticket o e id cfg dom ret
              (mint C e.priv e.kid
                (record {
                  sub = [];
                  tenant = id.tenant;
                  dom = dom;
                  room = to_string id;
                  ttl = cfg.pass_ttl;
                })
                e.random e.nonce e.now)
              db

      created_ticket : Options → Env → RoomId → Config → Option Ticket → Handler
      unfolding respond_ticket sign_ticket
      created_ticket o e id cfg none db = (reply 503 (error (codes "store")), db)
      created_ticket o e id cfg (some t) db = with_cookie o id t.id (respond_ticket e id cfg t db)

      -- A new ticket, behind the anti-robot check of a queueing room.
      new_ticket : Options → Env → Request → RoomId → Config → Str → Str → Handler
      unfolding give_open created_ticket verify_turnstile
      new_ticket o e q id cfg dom ret db =
          let (t, db') = create_ticket R id cfg e.random dom ret e.now db in
          if (not (is_empty o.turnstile_secret) && is_queue_state cfg.state)
            && not (verify_turnstile q.turnstile_token q.real_ip)
          then (reply 403 (error (codes "captcha")), db)
          else if is_open_state cfg.state
          then give_open o e id cfg dom ret db
          else created_ticket o e id cfg t db'

      -- A ticket that is still good is given back as it is.
      abbrev is_usable : Env → Ticket → Bool
      is_usable e t = str_eq t.status status_waiting || ltb (unix e.now) t.exp

      kept_ticket : Options → Env → Request → RoomId → Config → Str → Str → Option Ticket → Handler
      unfolding respond_ticket new_ticket
      kept_ticket o e q id cfg dom ret none db = new_ticket o e q id cfg dom ret db
      kept_ticket o e q id cfg dom ret (some t) db =
          if is_usable e t then respond_ticket e id cfg t db else new_ticket o e q id cfg dom ret db

      with_cookie_ticket :
          Options → Env → Request → RoomId → Config → Str → Str → Option Str → Handler
      unfolding kept_ticket lookup_ticket
      with_cookie_ticket o e q id cfg dom ret none db = new_ticket o e q id cfg dom ret db
      with_cookie_ticket o e q id cfg dom ret (some tid) db =
          let (t, db') = lookup_ticket id tid db in kept_ticket o e q id cfg dom ret t db'

      -- POST ticket, once the room is known.
      pub ticket_in : Options → Env → Request → RoomId → Config → Handler
      unfolding with_cookie_ticket cookie_ticket normalize_return
      ticket_in o e q id cfg db =
          let dom = to_lower (trim_space q.h) in
          if not (allows_domain cfg dom)
          then (reply 400 (error (codes "bad_domain")), db)
          else if is_closed_state cfg.state
          then (reply 200 (is_closed cfg), db)
          else with_cookie_ticket o e q id cfg dom (normalize_return q.r dom)
              (cookie_ticket o id q.cookie) db

      unfoldable pub ticket : Options → Env → Request → Handler
      unfolding ticket_in
      ticket o e q = with_room q (ticket_in o e q)

    unfoldable config_page : Request → Handler
    config_page q = with_room q (λ id cfg db. (reply 200 (room_config id cfg), db))

    status_reply : Option Status → Ticket → Response
    status_reply none t = reply 503 (error (codes "store"))
    status_reply (some st) t = reply 200 (is_waiting t.id st)

    status_for : Env → RoomId → Config → Option Ticket → Handler
    unfolding status_reply
    status_for e id cfg none db = (reply 404 (error (codes "unknown_ticket")), db)
    status_for e id cfg (some t) db =
        let (st, db') = status_of id cfg t e.now db in
        if is_closed_state cfg.state
        then (reply 200 (is_closed cfg), db)
        else if is_admitted_ticket t
        then (reply 200 (is_admitted id t.id), db)
        else (status_reply st t, db')

    unfoldable status : Options → Env → Request → Handler
    unfolding status_for lookup_ticket ticket_from_request
    status o e q = with_room q λ id cfg db.
        let (t, db') = lookup_ticket id (ticket_from_request o id q) db in status_for e id cfg t db'

    -- The stream before the first message of the hub: an answer, or the ticket to subscribe for
    -- with the first status.
    pub data Stream : Type 0 where
      answered : Response → Stream
      follows : Ticket → Option Status → Stream

    events_for : Env → RoomId → Config → Option Ticket → Db → Stream × Db
    events_for e id cfg none db = (answered (reply 404 (error (codes "unknown_ticket"))), db)
    events_for e id cfg (some t) db =
        let (st, db') = status_of id cfg t e.now db in
        if is_closed_state cfg.state
        then (answered (reply 200 (is_closed cfg)), db)
        else if is_admitted_ticket t
        then (answered (reply 200 (is_admitted id t.id)), db)
        else (follows t st, db')

    -- A load balancer near its limit asks for polling in place of a stream.
    unfoldable events_in : Options → Env → Request → RoomId → Config → Db → Stream × Db
    unfolding events_for lookup_ticket ticket_from_request
    events_in o e q id cfg db =
        let (t, db') = lookup_ticket id (ticket_from_request o id q) db in
        if not (is_empty q.degraded)
        then (answered (reply 503 (error (codes "degraded"))), db)
        else events_for e id cfg t db'

    not_admitted : Response
    not_admitted = reply 403 (error (codes "not_admitted"))

    abbrev pub has_pass : Ticket → Bool
    has_pass t = is_admitted_ticket t && not (is_empty t.pass)

    pub go_for : Env → RoomId → Config → Option Ticket → Response
    unfolding go_url not_admitted
    go_for e id cfg none = not_admitted
    go_for e id cfg (some t) =
        if not (has_pass t)
        then not_admitted
        else if leb t.exp (unix e.now)
        then reply 410 (error (codes "expired"))
        else if is_closed_state cfg.state
        then reply 302 (
            redirect (
              codes "/w/"
              ++ (to_string id ++ (codes "?h=" ++ (query_escape t.dom ++ codes "&closed=1")))))
        else reply 302 (redirect (go_url t.dom t.ret t.pass))

    -- The redirection to the protected domain, with the pass.
    unfoldable pub go_to : Options → Env → Request → Handler
    unfolding go_for lookup_ticket ticket_from_request
    go_to o e q = with_room q λ id cfg db.
        let (t, db') = lookup_ticket id (ticket_from_request o id q) db in (go_for e id cfg t, db')

    pub pass_for : Env → RoomId → Config → Option Ticket → Response
    unfolding not_admitted
    pass_for e id cfg none = not_admitted
    pass_for e id cfg (some t) =
        if not (has_pass t)
        then not_admitted
        else if leb t.exp (unix e.now) || is_closed_state cfg.state
        then reply 410 (error (codes "expired"))
        else reply 200 (a_pass t id)

    unfoldable pub pass_json : Options → Env → Request → Handler
    unfolding pass_for lookup_ticket ticket_from_request
    pass_json o e q = with_room q λ id cfg db.
        let (t, db') = lookup_ticket id (ticket_from_request o id q) db in
        (pass_for e id cfg t, db')

    -- The internal routes. The body of putRoom, decoded over the defaults, is the argument `input`:
    -- none where it is no JSON, else the config and the validity in seconds.
    abbrev with_ttl : Config → ℕ → Config
    with_ttl c zero = c
    with_ttl c (suc s) = record c { pass_ttl = suc s * second }

    stored_reply : Config → Option (Unit {0}) → Response
    stored_reply c none = reply 503 (error (codes "store"))
    stored_reply c (some u) = reply 200 (stored c)

    store_config : RoomId → Config → Handler
    unfolding stored_reply
    store_config id c db =
        let (c', refused) = validate c in
        let (done, db') = set_config R id c' db in
        elim refused [
          | some e ↦ (reply 400 (error (codes "invalid")), db)
          | none ↦ (stored_reply c' done, db')
        ]

    put_parsed : Option RoomId → Option (Config × ℕ) → Handler
    unfolding store_config
    put_parsed none input db = (reply 400 (error (codes "bad_room")), db)
    put_parsed (some id) none db = (reply 400 (error (codes "bad_json")), db)
    put_parsed (some id) (some (c, ttl_s)) db = store_config id (with_ttl c ttl_s) db

    unfoldable pub put_room : Options → Request → Option (Config × ℕ) → Handler
    unfolding put_parsed authorized
    put_room o q input db =
        if authorized o q
        then put_parsed (parse q.room) input db
        else (reply 401 (error (codes "unauthorized")), db)

    abbrev counted_or_zero : Option Counted → Counted
    counted_or_zero (some c) = c
    counted_or_zero none = record { pending = 0; active = 0; head = 0 }

    abbrev size_or_zero : Option ℕ → ℕ
    size_or_zero (some n) = n
    size_or_zero none = 0

    abbrev stats_or_empty : Option Hash → Hash
    stats_or_empty (some h) = h
    stats_or_empty none = []

    pub get_room : Options → Env → Request → Handler
    unfolding authorized
    get_room o e q db =
        if authorized o q
        then with_room q
            (λ id cfg db.
              let (c, db1) = counts R id e.now db in
              let (n, db2) = wave_size R id (wave e.now cfg.wave_sec) db1 in
              let (st, db3) = stats R id db2 in
              (
                reply 200
                    (room_report id cfg (counted_or_zero c) (size_or_zero n) (stats_or_empty st)),
                db3,
              ))
            db
        else (reply 401 (error (codes "unauthorized")), db)

    abbrev flush_reply : Option (Unit {0}) → Response
    flush_reply none = reply 503 (error (codes "store"))
    flush_reply (some u) = reply 200 flushed

    pub flush : Options → Env → Request → Handler
    unfolding authorized
    flush o e q db =
        if authorized o q
        then with_room q
            (λ id cfg db.
              let (done, db') = flush_room R id e.now cfg.wave_sec db in (flush_reply done, db'))
            db
        else (reply 401 (error (codes "unauthorized")), db)
