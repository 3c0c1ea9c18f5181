-- ===== src/Control/AccountLaws.antt =====
-- What a connection and a change of password ask for, and what they leave:
-- control/internal/api/session.go.
use flyc.Base.{
  ℕ, ◌≡◌, ◌≢◌, refl, sym, ap, subst, ◌∙◌, ◌⊎◌, inl, inr, Bool, true, false, ◌&&◌, ◌||◌, not, List,
  [], ◌∷◌, Option, none, some, if◌then◌else◌, All, Str, codes, to_lower, trim_space, arith,
  Bool-cases,
}
use flyc.Accounts.{Crypto, User, Session}
use flyc.Accounts.Passwords.{verify_password, check_password_policy, PolicyError}
use flyc.Accounts.Sessions.{
  Tables, Visit, create, current, destroy_all, known_as, sessions_without, new_session, has_session,
  user_by_id, is_none,
}
use flyc.Accounts.SessionLaws.{current_sound, without-All}
use flyc.Control.{Db, Answer, answer}
use flyc.Control.Account.{
  Luck, LoginIn, PasswordIn, Otp, login, login_user, factored, second_factor, checked_code,
  secret_of, is_empty, user_by_email, change_password, read_hash, weak_or, renewed, changed,
  with_users, with_tables, update_user,
}

module _ (C : Crypto) (O : Otp) where
  -- The code is that of the account's secret, where the account has a second factor.
  abbrev pub HasFactor : User → Str → Type 0
  HasFactor u code =
      (u.totp_enabled ≡ false)
      ⊎ ((secret : Str) × (O.open_secret (secret_of C O u.totp_secret) ≡ some secret)
          × (O.validate secret (trim_space code) ≡ true))

  checked_code_sound :
      (o : Option Str) (code : Str)
      → checked_code C O o code ≡ none
      → (secret : Str) × (o ≡ some secret) × (O.validate secret (trim_space code) ≡ true)
  checked_code_sound none code h = absurd cc
  checked_code_sound (some secret) code h = (secret, refl, ground arith)

  second_factor_sound : (u : User) (code : Str) → second_factor C O u code ≡ none → HasFactor u code
  unfolding second_factor
  second_factor_sound u code h = elim (Bool-cases u.totp_enabled) [
    | inr e ↦ inl e
    | inl e ↦ elim (Bool-cases (is_empty code)) [
      | inl b ↦ absurd (ground arith)
      | inr b ↦
          inr (checked_code_sound (O.open_secret (secret_of C O u.totp_secret)) code (ground arith))
    ]
  ]

  abbrev Refuses : Option Answer → Type 0
  Refuses none = Unit
  Refuses (some a) = a.status ≢ 200

  checked_code-Refuses : (o : Option Str) (code : Str) → Refuses (checked_code C O o code)
  checked_code-Refuses none code = λ h. omega (arith, h)
  checked_code-Refuses (some secret) code =
      elim (Bool-cases (O.validate secret (trim_space code))) [
        | inl e ↦ rw e tt
        | inr e ↦ rw e (λ h. omega (arith, h))
      ]

  second_factor-Refuses : (u : User) (code : Str) → Refuses (second_factor C O u code)
  unfolding second_factor
  second_factor-Refuses u code = elim (Bool-cases u.totp_enabled) [
    | inr e ↦
        subst
          (λ b. Refuses (
            if not b
            then none
            else if is_empty code
            then some (answer 428 (codes "totp_required"))
            else checked_code C O (O.open_secret (secret_of C O u.totp_secret)) code))
          (sym e) tt
    | inl e ↦
        subst
          (λ b. Refuses (
            if not b
            then none
            else if is_empty code
            then some (answer 428 (codes "totp_required"))
            else checked_code C O (O.open_secret (secret_of C O u.totp_secret)) code))
          (sym e)
          (elim (Bool-cases (is_empty code)) [
            | inl b ↦ rw b (λ h. omega (arith, h))
            | inr b ↦ rw b (checked_code-Refuses (O.open_secret (secret_of C O u.totp_secret)) code)
          ])
  ]

  factored_sound :
      (l : Luck) (id : Str) (v : Visit) (db : Db) (o : Option Answer)
      → Refuses o
      → (factored C O l id v db o).0.status ≡ 200
      → o ≡ none
  factored_sound l id v db (some a) n h = absurd (n h)
  factored_sound l id v db none n h = refl

  abbrev IsProved : LoginIn → User → Type 0
  IsProved i u =
      (is_empty u.password_hash ≡ false)
      × (verify_password C u.password_hash i.password ≡ true)
      × HasFactor u i.totp

  login_user_sound :
      (l : Luck) (i : LoginIn) (v : Visit) (db : Db) (o : Option User)
      → (login_user C O l i v db o).0.status ≡ 200
      → (u : User) × (o ≡ some u) × IsProved i u
  login_user_sound l i v db none h = absurd (omega (arith, h))
  login_user_sound l i v db (some u) h =
      elim (Bool-cases
        (is_empty u.password_hash || not (verify_password C u.password_hash i.password))) [
          | inl e ↦ absurd (refused e)
          | inr e ↦ (
            u,
            refl,
            (
              ground arith,
              ground arith,
              second_factor_sound u i.totp (
                  factored_sound l u.id v db (second_factor C O u i.totp)
                    (second_factor-Refuses u i.totp) (accepted e)),
            ),
          )
        ]
    where
      choose : Bool → Answer × Db
      choose b =
          if b
          then (answer 401 (codes "bad_credentials"), db)
          else factored C O l u.id v db (second_factor C O u i.totp)

      refused :
          (is_empty u.password_hash || not (verify_password C u.password_hash i.password)) ≡ true
          → ⊥
      refused e = let q : 401 ≡ 200 = ap (λ b. (choose b).0.status) (sym e) ∙ h in omega (arith, q)

      accepted :
          (is_empty u.password_hash || not (verify_password C u.password_hash i.password)) ≡ false
          → (factored C O l u.id v db (second_factor C O u i.totp)).0.status ≡ 200
      accepted e = ap (λ b. (choose b).0.status) (sym e) ∙ h

  -- Whoever is answered 200 by the login gave the address of an account that has a password, that
  -- password and, where the account has a second factor, a code of its secret.
  pub login_sound :
      (l : Luck) (i : LoginIn) (v : Visit) (db : Db)
      → (login C O l (some i) v db).0.status ≡ 200
      → (u : User) × (user_by_email (to_lower (trim_space i.email)) db.tables.users ≡ some u)
        × IsProved i u
  unfolding login
  login_sound l i v db h =
      let found = user_by_email (to_lower (trim_space i.email)) db.tables.users in
      elim (Bool-cases l.select_ok) [
        | inl e ↦
            login_user_sound l i v db found
              (ap (λ b. (login_user C O l i v db (if b then found else none)).0.status) (sym e) ∙ h)
        | inr e ↦
            let q : 401 ≡ 200 =
              ap (λ b. (login_user C O l i v db (if b then found else none)).0.status) (sym e)
              ∙ h in
            absurd (omega (arith, q))
      ]

  abbrev Stronger : PasswordIn → Str → Type 0
  Stronger i hash =
      ((is_empty hash ≡ true) ⊎ (verify_password C hash i.current ≡ true))
      × (check_password_policy i.new ≡ none)

  weak_or_sound :
      (o : Option PolicyError) (r : Answer × Db) (db : Db)
      → (weak_or C O o (answer 400 (codes "weak_password"), db) r).0.status ≡ 200
      → (o ≡ none) × (r.0.status ≡ 200)
  weak_or_sound none r db h = (refl, h)
  weak_or_sound (some e) r db h = absurd (omega (arith, h))

  -- What a change of password that is answered 200 went through: the current password was verified
  -- against the hash that was read, unless that was empty, the new one follows the policy, and the
  -- tables are those of the update, the revocation and the new session.
  pub change_password-steps :
      (l : Luck) (i : PasswordIn) (id : Str) (v : Visit) (db : Db)
      → (change_password C O l (some i) id v db).0.status ≡ 200
      → Stronger i (read_hash l.select_ok id db.tables.users)
        × ((change_password C O l (some i) id v db).1.tables
            ≡ renewed C O l id v (with_users (update_user id (changed C O l.salt i.new)) db.tables))
  unfolding change_password
  change_password-steps l i id v db h =
      let hash = read_hash l.select_ok id db.tables.users in
      let done : Answer × Db = (
        answer 200 (codes "changed"),
        with_tables
            (renewed C O l id v (with_users (update_user id (changed C O l.salt i.new)) db.tables))
            db,
      ) in
      let last =
        λ (b : Bool). if◌then◌else◌ {A = Answer × Db} b done (answer 500 (codes "db"), db) in
      let weak : Option PolicyError → Answer × Db =
        λ o. weak_or C O o (answer 400 (codes "weak_password"), db) (last l.update_ok) in
      let first = λ (b : Bool).
        if◌then◌else◌ {A = Answer × Db} b (answer 401 (codes "bad_credentials"), db)
          (weak (check_password_policy i.new)) in
      elim (Bool-cases (not (is_empty hash) && not (verify_password C hash i.current))) [
        | inl e ↦
            let q : 401 ≡ 200 = ap (λ b. (first b).0.status) (sym e) ∙ h in
            absurd (omega (arith, q))
        | inr e ↦
            let (strong, ends) =
              weak_or_sound (check_password_policy i.new) (last l.update_ok) db
                (ap (λ b. (first b).0.status) (sym e) ∙ h) in
            elim (Bool-cases l.update_ok) [
              | inl w ↦ (
                (either e, strong),
                ap (λ b. (first b).1.tables) e
                    ∙ ap (λ o. (weak o).1.tables) strong
                    ∙ ap (λ b. (last b).1.tables) w,
              )
              | inr w ↦
                  let q : 500 ≡ 200 = ap (λ b. (last b).0.status) (sym w) ∙ ends in
                  absurd (omega (arith, q))
            ]
      ]
    where
      either :
          (not (is_empty (read_hash l.select_ok id db.tables.users))
              && not (verify_password C (read_hash l.select_ok id db.tables.users) i.current))
            ≡ false
          → (is_empty (read_hash l.select_ok id db.tables.users) ≡ true)
            ⊎ (verify_password C (read_hash l.select_ok id db.tables.users) i.current ≡ true)
      either e = ground arith

  -- Of the sessions behind the change, those of the user are under the new token.
  abbrev IsOther : Str → Str → Session → Type 0
  IsOther id token s = (s.user_id ≢ id) ⊎ (s.id ≡ C.hash_token token)

  create-All :
      (insert_ok : Bool) (token user : Str) (now : ℕ) (v : Visit) (t : Tables)
      (P : Session → Type 0)
      → All P t.sessions
      → P (new_session C token user now v)
      → All P (create C insert_ok token user now v t).1.sessions
  unfolding create
  create-All insert_ok token user now v t P a p = by_test (
      not insert_ok
      || (has_session (C.hash_token token) t.sessions || is_none (user_by_id user t.users)))
    where
      by_test :
          (b : Bool)
          → All P
              (if◌then◌else◌ {A = Bool × Tables} b
                (false, t)
                (
                  true,
                  record t { sessions = new_session C token user now v ∷ t.sessions },
                )).1.sessions
      by_test true = a
      by_test false = (p, a)

  revoked-All :
      (id token : Str) (delete_ok : Bool) (t : Tables)
      → delete_ok ≡ true
      → All (IsOther id token) (destroy_all delete_ok id t).sessions
  unfolding destroy_all
  revoked-All id token true t d = lefts (sessions_without id t.sessions) (without-All id t.sessions)
    where
      lefts : (ss : List Session) → All (λ s. s.user_id ≢ id) ss → All (IsOther id token) ss
      lefts [] a = tt
      lefts (s ∷ ss) a = (inl a.0, lefts ss a.1)
  revoked-All id token false t d = absurd cc

  -- A change of password that is answered 200, and whose revocation succeeds, leaves the user's
  -- account to the new session alone: a cookie that leads to it has the hash of the new token.
  pub change_password-revokes :
      (l : Luck) (i : PasswordIn) (id : Str) (v : Visit) (db : Db)
      → (change_password C O l (some i) id v db).0.status ≡ 200
      → l.delete_ok ≡ true
      → (query_ok update_ok : Bool) (w : Visit) (now : ℕ) (u : User)
      → (current C query_ok update_ok w now (change_password C O l (some i) id v db).1.tables).0
        ≡ known_as u
      → u.id ≡ id
      → (token : Str) × (w.cookie ≡ some token) × (C.hash_token token ≡ C.hash_token l.token)
  change_password-revokes l i id v db h d query_ok update_ok w now u k same =
      let (strong, tables) = change_password-steps l i id v db h in
      let before = with_users (update_user id (changed C O l.salt i.new)) db.tables in
      let all =
        create-All l.insert_ok l.token id l.now v (destroy_all l.delete_ok id before)
          (IsOther id l.token) (revoked-All id l.token l.delete_ok before d) (inr refl) in
      let (s, other, mine, (token, cookie, key)) =
        current_sound C query_ok update_ok w now (renewed C O l id v before) u (IsOther id l.token)
          (ap (λ t. (current C query_ok update_ok w now t).0) (sym tables) ∙ k) all in
      (token, cookie, elim other [ inl n ↦ absurd (n (mine ∙ same)) | inr e ↦ sym key ∙ e ])
