-- ===== src/Api/Access.antt =====
-- The handlers pass, ticket and the internal routes of queue/internal/api/api.go.
use flyc.Base.{
  ℕ, leb, ◌≡◌, refl, ◌≢◌, ◌<◌, ◌⊎◌, ◌++◌, ap, sym, subst, ◌∙◌, Bool, Bool-cases, Str, not, inl, inr,
  true, false, [], Option, none, some, if◌then◌else◌, codes, str_eq→eq, arith, Option-cases,
  to_lower, trim_space,
}
use flyc.Room.{RoomId, to_string, Config, closed, parse, unix, allows_domain}
use flyc.Redis.{Redis}
use flyc.Store.{Ticket, status_admitted, load_config, get_ticket}
use flyc.Api.{
  Web, Options, Request, Env, error, reply, pass_json, pass_for, with_room, parsed_room, found_room,
  has_pass, lookup_ticket, ticket_from_request, put_room, get_room, flush, authorized, not_admitted,
  go_for, go_url, go_to, redirect, ticket, Response, is_closed_state, is_closed, ticket_in,
}
use flyc.Pass.{Crypto}

module _ (W : Web) (R : Redis) where
  -- A pass that may be shown.
  abbrev pub MayPass : Env → Config → Ticket → Type 0
  MayPass e cfg t =
      (t.status ≡ status_admitted)
      × (t.pass ≢ [])
      × (unix e.now < t.exp)
      × (is_closed_state cfg.state ≡ false)

  pass_for_only_admitted :
      (e : Env) (id : RoomId) (cfg : Config) (t : Ticket)
      → (pass_for W R e id cfg (some t)).code ≡ 200
      → MayPass e cfg t
  unfolding pass_for not_admitted
  pass_for_only_admitted e id cfg t h = (
    str_eq→eq t.status status_admitted (ground arith),
    λ p. ground (arith, p),
    ground arith,
    ground arith,
  )

  -- What stands behind a pass that is shown: the room is known, the ticket of the request is one of
  -- the room, it is admitted and not over, and the room is not closed.
  abbrev pub PassShown : Options → Env → Request → R.Db → Type 0
  PassShown o e q d =
      (id : RoomId) × (cfg : Config) × (t : Ticket) × (parse q.room ≡ some id)
      × ((load_config R id d).0 ≡ some (cfg, true))
      × ((get_ticket R id (ticket_from_request W o id q) (load_config R id d).1).0 ≡ some (some t))
      × MayPass e cfg t

  -- Whoever is answered with a pass asked for an admitted ticket of a known room that is not
  -- closed, before the end of the pass.
  pub pass_json_only_admitted :
      (o : Options) (e : Env) (q : Request) (d : R.Db)
      → (pass_json W R o e q d).0.code ≡ 200
      → PassShown o e q d
  unfolding pass_json with_room parsed_room found_room lookup_ticket pass_for not_admitted
  pass_json_only_admitted o e q d h = elim (Option-cases (parse q.room)) [
    | inl bad ↦ absurd (ground arith)
    | inr (id, good) ↦ elim (Option-cases (load_config R id d).0) [
      | inl lost ↦ absurd (ground arith)
      | inr ((cfg, false), absent) ↦ absurd (ground arith)
      | inr ((cfg, true), here) ↦
          elim (Option-cases
            (get_ticket R id (ticket_from_request W o id q) (load_config R id d).1).0) [
              | inl lost ↦ absurd (ground arith)
              | inr (none, unknown) ↦ absurd (ground arith)
              | inr (some t, found) ↦
                  (id, cfg, t, good, here, found, pass_for_only_admitted e id cfg t (ground arith))
            ]
    ]
  ]

  -- Without the internal token no internal route does anything: the answer is 401, and the database
  -- is as it was.
  pub internal_routes_refused :
      (o : Options) (e : Env) (q : Request) (input : Option (Config × ℕ)) (d : R.Db)
      → authorized W o q ≡ false
      → (put_room W R o q input d ≡ (reply 401 (error (codes "unauthorized")), d))
        × (get_room W R o e q d ≡ (reply 401 (error (codes "unauthorized")), d))
        × (flush W R o e q d ≡ (reply 401 (error (codes "unauthorized")), d))
  unfolding put_room get_room flush
  internal_routes_refused o e q input d h = (rw h refl, rw h refl, rw h refl)

  -- The answers of a closed room to a request for a ticket: neither has a ticket.
  abbrev pub IsRefused : Config → Response → Type 0
  IsRefused cfg r = (r ≡ reply 200 (is_closed cfg)) ⊎ (r ≡ reply 400 (error (codes "bad_domain")))

  -- A redirection, if the answer is one, leads to the waiting page of the room.
  abbrev pub StaysHere : RoomId → Response → Type 0
  StaysHere id r =
      (u : Str)
      → r.body ≡ redirect u
      → (dom : Str) × (u
          ≡ codes "/w/"
            ++ (to_string id ++ (codes "?h=" ++ (W.query_escape dom ++ codes "&closed=1"))))

  go_for-StaysHere :
      (e : Env) (id : RoomId) (cfg : Config) (t : Option Ticket)
      → cfg.state ≡ closed
      → StaysHere id (go_for W R e id cfg t)
  unfolding go_for not_admitted
  go_for-StaysHere e id cfg none h u k = absurd cc
  go_for-StaysHere e id cfg (some t) h u k =
      let back =
        codes "/w/"
        ++ (to_string id ++ (codes "?h=" ++ (W.query_escape t.dom ++ codes "&closed=1"))) in
      let last = λ (b : Bool).
        if◌then◌else◌ {A = Response} b (reply 302 (redirect back))
          (reply 302 (redirect (go_url W t.dom t.ret t.pass))) in
      let second = λ (b : Bool).
        if◌then◌else◌ {A = Response} b (reply 410 (error (codes "expired")))
          (last (is_closed_state cfg.state)) in
      let first = λ (b : Bool).
        if◌then◌else◌ {A = Response} (not b) (not_admitted W R) (second (leb t.exp (unix e.now))) in
      elim (Bool-cases (has_pass W R t)) [
        | inr no_pass ↦ let r = ap (λ b. (first b).body) (sym no_pass) ∙ k in absurd cc
        | inl given ↦ elim (Bool-cases (leb t.exp (unix e.now))) [
          | inl over ↦
              let r =
                ap (λ b. (second b).body) (sym over) ∙ ap (λ b. (first b).body) (sym given) ∙ k in
              absurd cc
          | inr valid ↦
              let r : redirect back ≡ redirect u =
                ap (λ s. (last (is_closed_state s)).body) (sym h)
                ∙ ap (λ b. (second b).body) (sym valid)
                ∙ ap (λ b. (first b).body) (sym given)
                ∙ k in
              (t.dom, cc)
        ]
      ]

  ticket_in-IsRefused :
      (C : Crypto) (o : Options) (e : Env) (q : Request) (id : RoomId) (cfg : Config) (d : R.Db)
      → cfg.state ≡ closed
      → ((ticket_in W R C o e q id cfg d).1 ≡ d) × IsRefused cfg (ticket_in W R C o e q id cfg d).0
  unfolding ticket_in
  ticket_in-IsRefused C o e q id cfg d h =
      elim (Bool-cases (allows_domain cfg (to_lower (trim_space q.h)))) [
        | inl e ↦ (ground (arith, e, h), inl (ground (arith, e, h)))
        | inr e ↦ (ground (arith, e), inr (ground (arith, e)))
      ]

  pass_for_refuses :
      (e : Env) (id : RoomId) (cfg : Config) (t : Option Ticket)
      → cfg.state ≡ closed
      → (pass_for W R e id cfg t).code ≢ 200
  unfolding pass_for not_admitted
  pass_for_refuses e id cfg none h k = absurd (omega (arith, k))
  pass_for_refuses e id cfg (some t) h k =
      let (a, b, c, is_open) = pass_for_only_admitted e id cfg t k in
      let q : is_closed_state cfg.state ≡ true = ap (λ s. is_closed_state s) h in absurd cc

  with_room-known :
      (next : RoomId → Config → R.Db → Response × R.Db) (q : Request) (id : RoomId) (cfg : Config)
      (d : R.Db)
      → parse q.room ≡ some id
      → (load_config R id d).0 ≡ some (cfg, true)
      → with_room W R q next d ≡ next id cfg (load_config R id d).1
  unfolding with_room parsed_room found_room
  with_room-known next q id cfg d p l =
      ap (λ r. parsed_room W R next r d) p
      ∙ ap (λ r. found_room W R next id r (load_config R id d).1) l

  -- A room that is known and closed lets nobody in: a request for a ticket has no effect behind the
  -- reading of the configuration, and is told that the room is closed or that the domain is not the
  -- room's; no request for a pass is answered with 200; and if the request to go on is answered
  -- with a redirection, it leads to the waiting page of the room.
  pub closed_room_refuses :
      (C : Crypto) (o : Options) (e : Env) (q : Request) (id : RoomId) (cfg : Config) (d : R.Db)
      → parse q.room ≡ some id
      → (load_config R id d).0 ≡ some (cfg, true)
      → cfg.state ≡ closed
      → ((ticket W R C o e q d).1 ≡ (load_config R id d).1)
        × IsRefused cfg (ticket W R C o e q d).0
        × ((pass_json W R o e q d).0.code ≢ 200)
        × StaysHere id (go_to W R o e q d).0
  unfolding ticket pass_json go_to lookup_ticket pass_for not_admitted
  closed_room_refuses C o e q id cfg d p l h =
      let d' = (load_config R id d).1 in
      let tid = ticket_from_request W o id q in
      let known = lookup_ticket W R id tid d' in
      let at_ticket = with_room-known (ticket_in W R C o e q) q id cfg d p l in
      let (kept, refused) = ticket_in-IsRefused C o e q id cfg d' h in
      let at_pass =
        with_room-known
          (λ id cfg db.
            let (t, db') = lookup_ticket W R id (ticket_from_request W o id q) db in
            (pass_for W R e id cfg t, db'))
          q id cfg d p l in
      let at_go =
        with_room-known
          (λ id cfg db.
            let (t, db') = lookup_ticket W R id (ticket_from_request W o id q) db in
            (go_for W R e id cfg t, db'))
          q id cfg d p l in
      (
        ap (λ r. r.1) at_ticket ∙ kept,
        subst (λ r. IsRefused cfg r.0) (sym at_ticket) refused,
        λ z. pass_for_refuses e id cfg known.0 h (ap (λ r. r.0.code) (sym at_pass) ∙ z),
        subst (λ r. StaysHere id r.0) (sym at_go) (go_for-StaysHere e id cfg known.0 h),
      )
