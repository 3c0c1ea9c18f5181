-- ===== src/Control/Account.antt =====
-- control/internal/api/session.go: the connection and the account of a user.
use flyc.Base.{
  ℕ, Bool, true, false, ◌&&◌, ◌||◌, not, List, [], ◌∷◌, Option, none, some, if◌then◌else◌, Str,
  codes, str_eq, to_lower, trim_space,
}
use flyc.Accounts.{Crypto, User}
use flyc.Accounts.Passwords.{hash_password, verify_password, check_password_policy, PolicyError}
use flyc.Accounts.Sessions.{Tables, Visit, user_by_id, create, destroy_all}
use flyc.Control.{Db, Answer, answer}

-- `where lower(email)=$1`
unfoldable pub user_by_email : Str → List User → Option User
user_by_email email [] = none
user_by_email email (u ∷ us) =
    let rest = user_by_email email us in if str_eq (to_lower u.email) email then some u else rest

-- `update users .. where id=$1`
unfoldable pub update_user : Str → (User → User) → List User → List User
update_user id f [] = []
update_user id f (u ∷ us) = (if str_eq u.id id then f u else u) ∷ update_user id f us

abbrev pub with_users : (List User → List User) → Tables → Tables
with_users f t = record t { users = f t.users }

abbrev pub with_tables : Tables → Db → Db
with_tables t db = record db { tables = t }

pub record LoginIn : Type 0 where
  pub email : Str
  pub password : Str
  pub totp : Str

pub record PasswordIn : Type 0 where
  pub current : Str
  pub new : Str

-- key.Seal with the nonce of the request, key.Open, and totp.Validate.
pub record Otp : Type 0 where
  pub seal : Str → Option Str
  pub open_secret : Str → Option Str
  pub validate : Str → Str → Bool

-- Which statements of a request succeed, and what is drawn for it.
pub record Luck : Type 0 where
  pub select_ok : Bool
  pub update_ok : Bool
  pub delete_ok : Bool
  pub insert_ok : Bool
  pub token : Str
  pub salt : Str
  pub now : ℕ

abbrev bad_credentials : Answer
bad_credentials = answer 401 (codes "bad_credentials")

abbrev user_hash : Option User → Str
user_hash none = []
user_hash (some u) = u.password_hash

-- The error of the reading is dropped: the hash is then empty.
unfoldable pub read_hash : Bool → Str → List User → Str
unfolding user_by_id
read_hash select_ok id us = if select_ok then user_hash (user_by_id id us) else []

abbrev pub is_empty : Str → Bool
is_empty [] = true
is_empty (c ∷ s) = false

module _ (C : Crypto) (O : Otp) where
  abbrev pub checked_code : Option Str → Str → Option Answer
  checked_code none code = some (answer 401 (codes "bad_totp"))
  checked_code (some secret) code =
      if O.validate secret (trim_space code) then none else some (answer 401 (codes "bad_totp"))

  -- A column without a secret is opened as no bytes.
  abbrev pub secret_of : Option Str → Str
  secret_of none = []
  secret_of (some enc) = enc

  -- Without a second factor the code is not read.
  unfoldable pub second_factor : User → Str → Option Answer
  second_factor u code =
      if not u.totp_enabled
      then none
      else if is_empty code
      then some (answer 428 (codes "totp_required"))
      else checked_code (O.open_secret (secret_of u.totp_secret)) code

  abbrev pub opened : Db → Bool × Tables → Answer × Db
  opened db (false, t) = (answer 500 (codes "session"), with_tables t db)
  opened db (true, t) = (answer 200 (codes "ok"), with_tables t db)

  abbrev pub factored : Luck → Str → Visit → Db → Option Answer → Answer × Db
  factored l id v db (some a) = (a, db)
  factored l id v db none = opened db (create C l.insert_ok l.token id l.now v db.tables)

  abbrev pub login_user : Luck → LoginIn → Visit → Db → Option User → Answer × Db
  login_user l i v db none = (bad_credentials, db)
  login_user l i v db (some u) =
      if is_empty u.password_hash || not (verify_password C u.password_hash i.password)
      then (bad_credentials, db)
      else factored l u.id v db (second_factor u i.totp)

  unfoldable pub login : Luck → Option LoginIn → Visit → Db → Answer × Db
  unfolding user_by_email create second_factor verify_password to_lower trim_space
  login l none v db = (answer 400 (codes "bad_json"), db)
  login l (some i) v db =
      login_user l i v db (
        if l.select_ok then user_by_email (to_lower (trim_space i.email)) db.tables.users else none)

  abbrev pub changed : Str → Str → User → User
  changed salt new u = record u {
    password_hash = hash_password C salt new;
    must_change_password = false;
  }

  -- The other sessions are revoked, and one is opened anew; their errors are dropped.
  abbrev pub renewed : Luck → Str → Visit → Tables → Tables
  renewed l id v t = (create C l.insert_ok l.token id l.now v (destroy_all l.delete_ok id t)).1

  abbrev pub weak_or : Option PolicyError → Answer × Db → Answer × Db → Answer × Db
  weak_or none weak next = next
  weak_or (some e) weak next = weak

  -- The session of the request belongs to the user `id`.
  unfoldable pub change_password : Luck → Option PasswordIn → Str → Visit → Db → Answer × Db
  unfolding read_hash verify_password check_password_policy hash_password update_user destroy_all
      create
  change_password l none id v db = (answer 400 (codes "bad_json"), db)
  change_password l (some i) id v db =
      let hash = read_hash l.select_ok id db.tables.users in
      if not (is_empty hash) && not (verify_password C hash i.current)
      then (bad_credentials, db)
      else weak_or (check_password_policy i.new) (answer 400 (codes "weak_password"), db)
          (if l.update_ok
            then (
              answer 200 (codes "changed"),
              with_tables
                  (renewed l id v (with_users (update_user id (changed l.salt i.new)) db.tables))
                  db,
            )
            else (answer 500 (codes "db"), db))

  abbrev pub set_secret : Option Str → User → User
  set_secret enc u = record u { totp_secret = enc; totp_enabled = false }

  abbrev sealed : Luck → Str → Db → Option Str → Answer × Db
  sealed l id db none = (answer 500 (codes "crypt"), db)
  sealed l id db (some enc) =
      if l.update_ok
      then (
        answer 200 (codes "secret"),
        with_tables (with_users (update_user id (set_secret (some enc))) db.tables) db,
      )
      else (answer 500 (codes "db"), db)

  -- The secret is what totp.Generate gives.
  unfoldable totp_setup : Luck → Option Str → Str → Db → Answer × Db
  unfolding update_user
  totp_setup l none id db = (answer 500 (codes "totp"), db)
  totp_setup l (some secret) id db = sealed l id db (O.seal secret)

  abbrev pub set_enabled : User → User
  set_enabled u = record u { totp_enabled = true }

  abbrev secret_row : Option User → Option Str
  secret_row none = none
  secret_row (some u) = u.totp_secret

  abbrev enabled_by : Luck → Str → Str → Db → Option Answer → Answer × Db
  enabled_by l code id db (some a) = (answer 400 (codes "bad_totp"), db)
  enabled_by l code id db none = (
    answer 200 (codes "enabled"),
    if l.update_ok then with_tables (with_users (update_user id set_enabled) db.tables) db else db,
  )

  abbrev enable_secret : Luck → Str → Str → Db → Option Str → Answer × Db
  enable_secret l code id db none = (answer 404 (codes "no_totp"), db)
  enable_secret l code id db (some []) = (answer 404 (codes "no_totp"), db)
  enable_secret l code id db (some (b ∷ enc)) =
      enabled_by l code id db (checked_code (O.open_secret (b ∷ enc)) code)

  unfoldable totp_enable : Luck → Option Str → Str → Db → Answer × Db
  unfolding user_by_id update_user trim_space
  totp_enable l none id db = (answer 400 (codes "bad_json"), db)
  totp_enable l (some code) id db =
      enable_secret l code id db
        (if l.select_ok then secret_row (user_by_id id db.tables.users) else none)

  unfoldable totp_disable : Luck → Option Str → Str → Db → Answer × Db
  unfolding read_hash verify_password update_user
  totp_disable l none id db = (answer 400 (codes "bad_json"), db)
  totp_disable l (some password) id db =
      let hash = read_hash l.select_ok id db.tables.users in
      if not (is_empty hash) && not (verify_password C hash password)
      then (bad_credentials, db)
      else (
        answer 200 (codes "disabled"),
        if l.update_ok
            then with_tables (with_users (update_user id (set_secret none)) db.tables) db
            else db,
      )
