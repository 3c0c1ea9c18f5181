-- ===== src/Accounts/SessionLaws.antt =====
-- What a session opens and what revokes it: control/internal/auth/session.go.
use flyc.Base.{
  ℕ, ◌+◌, ◌<◌, ◌≡◌, ◌≢◌, refl, sym, ap, subst, ◌∙◌, inl, inr, Bool, true, false, ◌&&◌, ◌||◌, not,
  List, [], ◌∷◌, Option, none, some, ltb, lt→ltb, if◌then◌else◌, All, Str, str_eq, str_eq_refl,
  str_eq→eq, arith, Bool-cases,
}
use flyc.Accounts.{Crypto, User, Session}
use flyc.Accounts.Sessions.{
  Tables, Visit, session_ttl, user_by_id, live_session, sessions_without, has_session, known_as,
  new_session, create, current, found_user, found_session, with_cookie, destroy_all, is_none,
}

user_by_id-id : (id : Str) (us : List User) (u : User) → user_by_id id us ≡ some u → u.id ≡ id
unfolding user_by_id
user_by_id-id id [] u h = absurd cc
user_by_id-id id (x ∷ us) u h = elim (Bool-cases (str_eq x.id id)) [
  | inl e ↦
      let p : ◌≡◌ {A = Option User} (some x) (some u) =
        sym (ap (λ b. if b then some x else user_by_id id us) e) ∙ h in
      let q : x ≡ u = cc in ap (λ y. y.id) (sym q) ∙ str_eq→eq x.id id e
  | inr e ↦ user_by_id-id id us u (sym (ap (λ b. if b then some x else user_by_id id us) e) ∙ h)
]

-- A live session stands in the table.
live_session-All :
    (h : Str) (now : ℕ) (ss : List Session) (s : Session) (P : Session → Type 0)
    → live_session h now ss ≡ some s
    → All P ss
    → P s × (s.id ≡ h)
unfolding live_session
live_session-All h now [] s P e a = absurd cc
live_session-All h now (x ∷ ss) s P e a =
    elim (Bool-cases (str_eq x.id h && ltb now x.expires_at)) [
      | inl b ↦
          let p : ◌≡◌ {A = Option Session} (some x) (some s) =
            sym (ap (λ b. if b then some x else live_session h now ss) b) ∙ e in
          let q : x ≡ s = cc in
          (subst P q a.0, subst (λ y. y.id ≡ h) q (str_eq→eq x.id h (ground arith)))
      | inr b ↦
          live_session-All h now ss s P
            (sym (ap (λ b. if b then some x else live_session h now ss) b) ∙ e) a.1
    ]

unequal_ids : (a b : Str) → str_eq a b ≡ false → a ≢ b
unequal_ids a b e h = let p : str_eq b b ≡ true = str_eq_refl b in cc

-- No session of the user is left.
pub without-All :
    (user : Str) (ss : List Session) → All (λ s. s.user_id ≢ user) (sessions_without user ss)
unfolding sessions_without
without-All user [] = tt
without-All user (s ∷ ss) = elim (Bool-cases (str_eq s.user_id user)) [
  | inl e ↦ rw e (without-All user ss)
  | inr e ↦ rw e (unequal_ids s.user_id user e, without-All user ss)
]

live_first :
    (s : Session) (ss : List Session) (now : ℕ)
    → now < s.expires_at
    → live_session s.id now (s ∷ ss) ≡ some s
unfolding live_session
live_first s ss now h =
    ap (λ b. if b && ltb now s.expires_at then some s else live_session s.id now ss)
      (str_eq_refl s.id)
    ∙ ap (λ b. if b then some s else live_session s.id now ss) (lt→ltb now s.expires_at h)

module _ (C : Crypto) where
  -- The cookie is that of a session of the user with a predicate.
  abbrev pub HasCookie : (Session → Type 0) → Option Str → User → Type 0
  HasCookie P cookie u =
      (s : Session) × P s
      × (s.user_id ≡ u.id)
      × ((token : Str) × (cookie ≡ some token) × (s.id ≡ C.hash_token token))

  found_user_sound :
      (update_ok : Bool) (h : Str) (now : ℕ) (t : Tables) (s : Session) (o : Option User) (u : User)
      → user_by_id s.user_id t.users ≡ o
      → (found_user C update_ok h now t s o).0 ≡ known_as u
      → s.user_id ≡ u.id
  found_user_sound update_ok h now t s none u e r = absurd cc
  found_user_sound update_ok h now t s (some x) u e r =
      let q : x ≡ u = cc in sym (ap (λ y. y.id) (sym q) ∙ user_by_id-id s.user_id t.users x e)

  found_session_sound :
      (update_ok : Bool) (h : Str) (now : ℕ) (t : Tables) (o : Option Session) (u : User)
      (P : Session → Type 0)
      → live_session h now t.sessions ≡ o
      → (found_session C update_ok h now t o).0 ≡ known_as u
      → All P t.sessions
      → (s : Session) × P s × (s.user_id ≡ u.id) × (s.id ≡ h)
  found_session_sound update_ok h now t none u P e r a = absurd cc
  found_session_sound update_ok h now t (some s) u P e r a =
      let (held, key) = live_session-All h now t.sessions s P e a in
      (s, held, found_user_sound update_ok h now t s (user_by_id s.user_id t.users) u refl r, key)

  -- The user that a cookie leads to has a session in the table under the hash of the cookie.
  pub current_sound :
      (query_ok update_ok : Bool) (v : Visit) (now : ℕ) (t : Tables) (u : User)
      (P : Session → Type 0)
      → (current C query_ok update_ok v now t).0 ≡ known_as u
      → All P t.sessions
      → HasCookie P v.cookie u
  unfolding current
  current_sound query_ok update_ok v now t u P h a = by_cookie v.cookie query_ok h
    where
      by_cookie :
          (cookie : Option Str) (query_ok : Bool)
          → (with_cookie C query_ok update_ok cookie now t).0 ≡ known_as u
          → HasCookie P cookie u
      by_cookie none query_ok h = absurd cc
      by_cookie (some []) query_ok h = absurd cc
      by_cookie (some (b ∷ token)) false h = absurd cc
      by_cookie (some (b ∷ token)) true h =
          let k = C.hash_token (b ∷ token) in
          let (s, held, user, key) =
            found_session_sound update_ok k now t (live_session k now t.sessions) u P refl h a in
          (s, held, user, (b ∷ token, refl, key))

  -- Behind a DestroyAll no cookie leads to the user any more.
  pub current-destroy_all :
      (query_ok update_ok : Bool) (user : Str) (v : Visit) (now : ℕ) (t : Tables) (u : User)
      → (current C query_ok update_ok v now (destroy_all true user t)).0 ≡ known_as u
      → u.id ≢ user
  unfolding destroy_all
  current-destroy_all query_ok update_ok user v now t u h same =
      let (s, other, mine, key) =
        current_sound query_ok update_ok v now (destroy_all true user t) u (λ s. s.user_id ≢ user) h
          (without-All user t.sessions) in
      other (mine ∙ same)

  -- Behind a Create the new cookie, which is not empty, leads to the user until twelve hours are over.
  pub current-create :
      (update_ok insert_ok : Bool) (b : ℕ) (token : Str) (u : User) (made now : ℕ) (v v' : Visit)
      (t : Tables)
      → user_by_id u.id t.users ≡ some u
      → (create C insert_ok (b ∷ token) u.id made v t).0 ≡ true
      → v'.cookie ≡ some (b ∷ token)
      → now < made + session_ttl
      → (current C true update_ok v' now (create C insert_ok (b ∷ token) u.id made v t).1).0
        ≡ known_as u
  unfolding create current
  current-create update_ok insert_ok b token u made now v v' t known done cookie soon =
      elim (Bool-cases (
        not insert_ok
        || (has_session (C.hash_token (b ∷ token)) t.sessions
            || is_none (user_by_id u.id t.users)))) [
              | inl e ↦ absurd (ground arith)
              | inr e ↦
                  let s = new_session C (b ∷ token) u.id made v in
                  let t' : Tables = record t { sessions = s ∷ t.sessions } in
                  ap
                    (λ z.
                      (with_cookie C true update_ok v'.cookie now
                        (if◌then◌else◌ {A = Bool × Tables} z (false, t) (true, t')).1).0)
                    e
                  ∙ ap (λ cookie. (with_cookie C true update_ok cookie now t').0) cookie
                  ∙ ap (λ o. (found_session C update_ok s.id now t' o).0)
                      (live_first s t.sessions now soon)
                  ∙ ap (λ o. (found_user C update_ok s.id now t' s o).0) known
            ]
