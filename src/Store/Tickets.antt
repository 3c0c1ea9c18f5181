-- ===== src/Store/Tickets.antt =====
-- The tickets of queue/internal/store/store.go: what is written, and what GetTicket reads.
use flyc.Base.{
  ℕ, ◌≡◌, refl, ap, ◌∙◌, sym, ◌≤◌, false, List, [], ◌∷◌, ◌++◌, Option, none, some, Str, codes,
  str_eq, str_eq_refl, arith, format_int, parse_int, max_int64, Bool-cases, inl, inr,
}
use flyc.Base.Decimal.RoundTrip.{parse-format_int}
use mathlib.Core.Option.{some-injective}
use flyc.Room.{RoomId, to_string, key, Hash, field, Config, unix, wave}
use flyc.Redis.{
  Redis, Reply, Cmd, hset, hgetall, expire, hincrby, sadd, zadd, ◌>>=◌, pure, as_fields, reply_at,
}
use flyc.Redis.Laws.{IsLawful, >>=-eq-some, hash_after, put, field-put}
use flyc.Store.{
  Ticket, ticket_key, ticket_of, read_ticket, new_id, status_waiting, status_admitted, admit_direct,
  create_ticket, get_ticket, mark_admitted, wave_key, rooms_key,
}

str_eq-append : (p s t : Str) → str_eq (p ++ s) (p ++ t) ≡ str_eq s t
unfolding str_eq
str_eq-append [] s t = refl
str_eq-append (c ∷ p) s t = ground (arith, str_eq-append p s t)

-- Within a room two keys are equal when their suffixes are.
str_eq-key : (id : RoomId) (s t : Str) → str_eq (key id s) (key id t) ≡ str_eq s t
unfolding key
str_eq-key id s t =
    str_eq-append (codes "{r:") _ _
    ∙ str_eq-append id.tenant _ _
    ∙ str_eq-append (b':' ∷ []) _ _
    ∙ str_eq-append id.room _ _
    ∙ str_eq-append (codes "}:") s t

parse_int-nil : parse_int [] ≡ (0, false)
unfolding parse_int
parse_int-nil = refl

abbrev admitted_cmds : (id : RoomId) (tid dom ret pass : Str) (created exp : ℕ) → List Cmd
admitted_cmds id tid dom ret pass created exp =
    hset (ticket_key id tid) (
      (codes "created", format_int created)
      ∷ (codes "status", status_admitted)
      ∷ (codes "dom", dom)
      ∷ (codes "ret", ret)
      ∷ (codes "pass", pass)
      ∷ (codes "exp", format_int exp)
      ∷ (codes "admitted", format_int created)
      ∷ [])
    ∷ expire (ticket_key id tid) 86400
    ∷ hincrby (key id (codes "stats")) (codes "tickets_total") 1
    ∷ hincrby (key id (codes "stats")) (codes "admitted_total") 1
    ∷ []

abbrev given : (tid dom ret pass : Str) (created exp : ℕ) → Ticket
given tid dom ret pass created exp = record {
  id = tid;
  created = created;
  wave = 0;
  status = status_admitted;
  score = 0;
  dom = dom;
  ret = ret;
  pass = pass;
  exp = exp;
  admitted = created;
}

ticket_of-admitted :
    (id : RoomId) (tid dom ret pass : Str) (created exp : ℕ)
    → created ≤ max_int64
    → exp ≤ max_int64
    → ticket_of tid
        (hash_after (admitted_cmds id tid dom ret pass created exp) (ticket_key id tid) [])
      ≡ some (given tid dom ret pass created exp)
unfolding str_eq field
ticket_of-admitted id tid dom ret pass created exp h k =
    simp
      (str_eq-key, str_eq_refl, parse-format_int created h, parse-format_int exp k, parse_int-nil)

abbrev created_cmds : (id : RoomId) (tid dom ret room : Str) (created w : ℕ) → List Cmd
created_cmds id tid dom ret room created w =
    hset (ticket_key id tid) (
      (codes "created", format_int created)
      ∷ (codes "wave", format_int w)
      ∷ (codes "status", status_waiting)
      ∷ (codes "dom", dom)
      ∷ (codes "ret", ret)
      ∷ [])
    ∷ expire (ticket_key id tid) 86400
    ∷ sadd (wave_key id w) tid
    ∷ expire (wave_key id w) 7200
    ∷ hincrby (key id (codes "stats")) (codes "tickets_total") 1
    ∷ sadd rooms_key room
    ∷ []

abbrev waiting_ticket : (tid dom ret : Str) (created w : ℕ) → Ticket
waiting_ticket tid dom ret created w = record {
  id = tid;
  created = created;
  wave = w;
  status = status_waiting;
  score = 0;
  dom = dom;
  ret = ret;
  pass = [];
  exp = 0;
  admitted = 0;
}

ticket_of-created :
    (id : RoomId) (tid dom ret room : Str) (created w : ℕ)
    → created ≤ max_int64
    → w ≤ max_int64
    → ticket_of tid (hash_after (created_cmds id tid dom ret room created w) (ticket_key id tid) [])
      ≡ some (waiting_ticket tid dom ret created w)
unfolding str_eq field
ticket_of-created id tid dom ret room created w h k =
    simp (str_eq-key, str_eq_refl, parse-format_int created h, parse-format_int w k, parse_int-nil)

abbrev marked_cmds : (id : RoomId) (tid pass : Str) (exp now : ℕ) → List Cmd
marked_cmds id tid pass exp now =
    hset (ticket_key id tid) (
      (codes "status", status_admitted)
      ∷ (codes "pass", pass)
      ∷ (codes "exp", format_int exp)
      ∷ (codes "admitted", format_int now)
      ∷ [])
    ∷ zadd (key id (codes "active")) ((exp, tid) ∷ [])
    ∷ hincrby (key id (codes "stats")) (codes "admitted_total") 1
    ∷ []

ticket_of-put :
    (tid k v : Str) (h : Hash) → ticket_of tid (put k v h) ≡ some (read_ticket tid (put k v h))
ticket_of-put tid k v [] = refl
ticket_of-put tid k v ((j, w) ∷ h) = elim (Bool-cases (str_eq j k)) [ inl e ↦ rw e | inr e ↦ rw e ]

ticket_of-marked :
    (id : RoomId) (tid pass : Str) (exp now : ℕ) (h : Hash)
    → exp ≤ max_int64
    → now ≤ max_int64
    → ticket_of tid (hash_after (marked_cmds id tid pass exp now) (ticket_key id tid) h)
      ≡ some (record (read_ticket tid h) {
        status = status_admitted;
        pass = pass;
        exp = exp;
        admitted = now;
      })
unfolding str_eq
ticket_of-marked id tid pass exp now h k l =
    simp (str_eq-key, str_eq_refl)
      (rw ticket_of-put (simp (field-put, parse-format_int exp k, parse-format_int now l)))

read_ticket-of :
    (tid : Str) (h : Hash) (t : Ticket) → ticket_of tid h ≡ some t → read_ticket tid h ≡ t
read_ticket-of tid [] t e = cc
read_ticket-of tid (p ∷ h) t e = some-injective (read_ticket tid (p ∷ h)) t e

module _ (R : Redis) (L : IsLawful R) (id : RoomId) where
  -- What HGETALL of the ticket returns.
  get_ticket_result :
      (tid : Str) (d d' : R.Db) (r : Option Ticket)
      → get_ticket R id tid d ≡ (some r, d')
      → r ≡ ticket_of tid (L.hash_of d (ticket_key id tid))
  unfolding get_ticket
  get_ticket_result tid d d' r e =
      let (rs, d1, p, q) =
        >>=-eq-some (R.exec (hgetall (ticket_key id tid) ∷ []))
          (λ (rs : List Reply). pure (ticket_of tid (as_fields (reply_at rs 0)))) d e in
      let said = L.hgetall_replies (ticket_key id tid) rs d d1 p in
      let said' : as_fields (reply_at rs 0) ≡ L.hash_of d (ticket_key id tid) = rw said in
      cc (ap (ticket_of tid) said')

  -- The ticket of a result, looked up in the database of that result.
  abbrev reread : Option Ticket × R.Db → Option Ticket
  reread (none, d) = none
  reread (some t, d) = ticket_of t.id (L.hash_of d (ticket_key id t.id))

  -- A call that wrote a new ticket by a pipeline, and returned it, left it to be read back.
  read_back :
      (cmds : List Cmd) (t₀ : Ticket) (d d' d'' : R.Db) (t : Ticket) (r : Option Ticket)
      → L.hash_of d (ticket_key id t₀.id) ≡ []
      → ticket_of t₀.id (hash_after cmds (ticket_key id t₀.id) []) ≡ some t₀
      → (R.exec cmds >>= λ (rs : List Reply). pure t₀) d ≡ (some t, d')
      → get_ticket R id t.id d' ≡ (some r, d'')
      → r ≡ some t
  read_back cmds t₀ d d' d'' t r fresh stored e g =
      let (rs, d1, p, q) =
        >>=-eq-some (R.exec cmds) (λ (rs : List Reply). pure {D = R.Db} t₀) d e in
      let after = L.exec_hash cmds rs d d1 (ticket_key id t₀.id) p in
      let found : ticket_of t₀.id (L.hash_of d1 (ticket_key id t₀.id)) ≡ some t₀ =
        rw (after, fresh) stored in
      get_ticket_result t.id d' d'' r g
      ∙ sym (ap reread q)
      ∙ found
      ∙ ap (λ (v : Option Ticket × R.Db). v.0) q

  -- A ticket given in an open room is read back as it was returned.
  pub get_ticket-admit_direct :
      (random dom ret pass : Str) (exp now : ℕ) (d d' d'' : R.Db) (t : Ticket) (r : Option Ticket)
      → L.hash_of d (ticket_key id (new_id random)) ≡ []
      → unix now ≤ max_int64
      → exp ≤ max_int64
      → admit_direct R id random dom ret pass exp now d ≡ (some t, d')
      → get_ticket R id t.id d' ≡ (some r, d'')
      → r ≡ some t
  unfolding admit_direct
  get_ticket-admit_direct random dom ret pass exp now d d' d'' t r fresh h k e g =
      read_back (admitted_cmds id (new_id random) dom ret pass (unix now) exp)
        (given (new_id random) dom ret pass (unix now) exp) d d' d'' t r fresh
        (ticket_of-admitted id (new_id random) dom ret pass (unix now) exp h k) e g

  -- A ticket created in a queueing room is read back as it was returned: waiting, without a score.
  pub get_ticket-create_ticket :
      (cfg : Config) (random dom ret : Str) (now : ℕ) (d d' d'' : R.Db) (t : Ticket)
      (r : Option Ticket)
      → L.hash_of d (ticket_key id (new_id random)) ≡ []
      → unix now ≤ max_int64
      → wave now cfg.wave_sec ≤ max_int64
      → create_ticket R id cfg random dom ret now d ≡ (some t, d')
      → get_ticket R id t.id d' ≡ (some r, d'')
      → r ≡ some t
  unfolding create_ticket
  get_ticket-create_ticket cfg random dom ret now d d' d'' t r fresh h k e g =
      read_back
        (created_cmds id (new_id random) dom ret (to_string id) (unix now) (wave now cfg.wave_sec))
        (waiting_ticket (new_id random) dom ret (unix now) (wave now cfg.wave_sec)) d d' d'' t r
        fresh
        (ticket_of-created id (new_id random) dom ret (to_string id) (unix now)
          (wave now cfg.wave_sec) h k)
        e g

  -- After a MarkAdmitted that ends without an error, with times that fit an int64, a ticket that can
  -- be read reads as before, but for its status, pass, expiry and time of admission.
  pub get_ticket-mark_admitted :
      (tid pass : Str) (exp now : ℕ) (d₀ d d' d'' : R.Db) (t : Ticket) (r : Option Ticket)
      → get_ticket R id tid d ≡ (some (some t), d₀)
      → exp ≤ max_int64
      → now ≤ max_int64
      → mark_admitted R id tid pass exp now d ≡ (some tt, d')
      → get_ticket R id tid d' ≡ (some r, d'')
      → r ≡ some (record t { status = status_admitted; pass = pass; exp = exp; admitted = now })
  unfolding mark_admitted
  get_ticket-mark_admitted tid pass exp now d₀ d d' d'' t r b h k e g =
      let (rs, d1, p, q) =
        >>=-eq-some (R.exec (marked_cmds id tid pass exp now))
          (λ (rs : List Reply). pure {D = R.Db} {A = Unit {0}} tt) d e in
      let after = L.exec_hash (marked_cmds id tid pass exp now) rs d d1 (ticket_key id tid) p in
      let before = get_ticket_result tid d d₀ (some t) b in
      let d1d' : d1 ≡ d' = ap (λ (v : Option (Unit {0}) × R.Db). v.1) q in
      get_ticket_result tid d' d'' r g
      ∙ ap (λ x. ticket_of tid (L.hash_of x (ticket_key id tid))) (sym d1d')
      ∙ ap (ticket_of tid) after
      ∙ ticket_of-marked id tid pass exp now (L.hash_of d (ticket_key id tid)) h k
      ∙ ap {A = Ticket}
          (λ x.
            some (record x { status = status_admitted; pass = pass; exp = exp; admitted = now }))
          (read_ticket-of tid (L.hash_of d (ticket_key id tid)) t (sym before))
