-- ===== src/Tests/AccountRuns.antt =====
-- A small platform with one tenant, and runs of control's handlers on it.
use flyc.Base.{
  ℕ, zero, suc, ◌+◌, ◌-◌, ◌≤◌, ◌≡◌, refl, ap, subst, ◌⊎◌, true, false, List, [], ◌∷◌, Option, none,
  some, Str, codes, str_eq, to_lower, trim_space, length, pos, negsuc, arith, Avoids, map,
}
use flyc.Accounts.{Crypto, User, Session}
use flyc.Accounts.Passwords.{hash_password, verify_password, check_password_policy}
use flyc.Accounts.PasswordLaws.{IsCodec, verify_password-hash_password}
use flyc.Accounts.Sessions.{Visit, current, user_by_id}
use flyc.Control.{Db, Tenant, RoomRow, Answer, answer}
use flyc.Control.Account.{
  Luck, LoginIn, PasswordIn, Otp, login, change_password, is_empty, user_by_email,
}
use flyc.Control.AccountLaws.{login_sound, change_password-revokes, HasFactor}
use flyc.Control.PasswordChange.{change_password_fails_open}
use flyc.Control.Access.{Principal, no_one, Request, AuthLuck, tenant, authenticate}
use flyc.Control.AccessLaws.{tenant-IsEntitled, IsFirst, IsEntitled}
use flyc.Control.RoomLaws.{rooms_isolated, LeavesOther}
use flyc.Control.RoomRoutes.{RoomLuck, upsert_room, room_state, delete_room}
use flyc.Control.Rooms.{RoomIn}

-- A derivation that keeps the first byte, base64 that moves the bytes past the separator.
abbrev padded : ℕ → Str → Str
padded zero s = []
padded (suc n) [] = 0 ∷ padded n []
padded (suc n) (c ∷ s) = c ∷ padded n s

padded-length : (n : ℕ) (s : Str) → length (padded n s) ≡ n
padded-length zero s = refl
padded-length (suc n) [] = ap suc (padded-length n [])
padded-length (suc n) (c ∷ s) = ap suc (padded-length n s)

abbrev toy_crypto : Crypto
toy_crypto = record {
  id_key = λ pw salt t m p n. padded n pw;
  encode = map (λ c. c + 37);
  decode = λ s. some (map (λ c. c - 37) s);
  hash_token = λ s. s;
}

moved_back : (s : Str) → map (λ c. c - 37) (map (λ c. c + 37) s) ≡ s
moved_back [] = refl
moved_back (c ∷ s) = ground (arith, moved_back s)

moved-Avoids : (s : Str) → Avoids b'$' (map (λ c. c + 37) s)
moved-Avoids [] = tt
moved-Avoids (c ∷ s) = (ground arith, moved-Avoids s)

toy_crypto-IsCodec : IsCodec toy_crypto
toy_crypto-IsCodec = record {
  decode_encode = λ x. ap some (moved_back x);
  encode_avoids = moved-Avoids;
  key_length = λ pw salt t m p n. padded-length n pw;
}

verify_password-hash_password_example :
    verify_password toy_crypto
      (hash_password toy_crypto (codes "salt") (codes "secret"))
      (codes "other")
    ≡ str_eq
        (toy_crypto.id_key (codes "other") (codes "salt") 3 65536 2 32)
        (toy_crypto.id_key (codes "secret") (codes "salt") 3 65536 2 32)
verify_password-hash_password_example =
    verify_password-hash_password toy_crypto toy_crypto-IsCodec (codes "salt") (codes "secret")
      (codes "other")

abbrev ada : User
ada = record {
  id = codes "u1";
  email = codes "ada@x.io";
  password_hash = hash_password toy_crypto (codes "salt") (codes "a long secret");
  platform_admin = false;
  totp_enabled = false;
  totp_secret = none;
  must_change_password = false;
}

abbrev sale : RoomRow
sale = record {
  tenant_id = codes "t1";
  slug = codes "sale";
  title = [];
  domain_id = none;
  backend_id = none;
  state = codes "open";
  rate = pos 10000;
  max_active = pos 0;
  wave_s = pos 30;
  pass_ttl_s = pos 1200;
  opens_at = none;
  theme = [];
  auto_on = pos 5;
  auto_off = pos 9;
  effective_state = codes "open";
}

abbrev ada_session : Session
ada_session = record {
  id = codes "tok";
  user_id = codes "u1";
  expires_at = 9;
  ip = [];
  user_agent = [];
}

abbrev platform_db : Db
platform_db = record {
  tables = record { users = ada ∷ []; sessions = ada_session ∷ [] };
  tenants = record { id = codes "t1"; slug = codes "acme" } ∷ [];
  memberships = record { tenant_id = codes "t1"; user_id = codes "u1"; role = codes "admin" } ∷ [];
  keys = [];
  domains = [];
  backends = [];
  rooms = sale ∷ [];
}

abbrev no_otp : Otp
no_otp = record { seal = λ s. some s; open_secret = λ s. some s; validate = λ s c. str_eq s c }

abbrev lucky : Luck
lucky = record {
  select_ok = true;
  update_ok = true;
  delete_ok = true;
  insert_ok = true;
  token = codes "new";
  salt = codes "salt2";
  now = 3;
}

abbrev visit_of : Str → Visit
visit_of token = record {
  cookie = some token;
  real_ip = [];
  remote_addr = codes "::1";
  user_agent = [];
}

abbrev acme_admin : Principal
acme_admin = record no_one { tenant_id = codes "t1"; tenant = codes "acme" }

abbrev guessed : PasswordIn
guessed = record { current = codes "wrong"; new = codes "another secret" }

abbrev failing : Luck
failing = record lucky { select_ok = false }

change_password_fails_open_example :
    let r =
      change_password toy_crypto no_otp failing
        (some guessed)
        (codes "u1")
        (visit_of (codes "tok"))
        platform_db in
    (r.0 ≡ answer 200 (codes "changed"))
    × (w : User) × (user_by_id (codes "u1") r.1.tables.users ≡ some w)
    × (verify_password toy_crypto w.password_hash (codes "another secret") ≡ true)
    × (w.must_change_password ≡ false)
unfolding check_password_policy user_by_id str_eq
change_password_fails_open_example =
    change_password_fails_open toy_crypto no_otp toy_crypto-IsCodec failing guessed (codes "u1")
      (visit_of (codes "tok")) platform_db ada refl refl refl refl

abbrev by_mail : LoginIn
by_mail = record { email = codes "Ada@x.io "; password = codes "a long secret"; totp = [] }

login_sound_example :
    (u : User) × (user_by_email (to_lower (trim_space by_mail.email)) platform_db.tables.users
      ≡ some u)
    × ((is_empty u.password_hash ≡ false)
        × (verify_password toy_crypto u.password_hash by_mail.password ≡ true)
        × HasFactor toy_crypto no_otp u by_mail.totp)
unfolding login str_eq user_by_email to_lower trim_space hash_password verify_password
login_sound_example =
    login_sound toy_crypto no_otp lucky by_mail (visit_of (codes "tok")) platform_db refl

abbrev own_change : PasswordIn
own_change = record { current = codes "a long secret"; new = codes "another secret" }

change_password-revokes_example :
    (token : Str) × (some (codes "new") ≡ some token)
    × (toy_crypto.hash_token token ≡ toy_crypto.hash_token (codes "new"))
unfolding change_password current str_eq hash_password verify_password
change_password-revokes_example =
    change_password-revokes toy_crypto no_otp lucky own_change (codes "u1") (visit_of (codes "tok"))
      platform_db refl refl true true (visit_of (codes "new")) 4 _ refl refl

abbrev one_of_rows : List (Tenant × Str) → Option (Tenant × Str)
one_of_rows [] = none
one_of_rows (r ∷ rs) = some r

one_of_rows-IsFirst : IsFirst one_of_rows
one_of_rows-IsFirst P [] x h a = absurd cc
one_of_rows-IsFirst P (r ∷ rs) x h a = let q : r ≡ x = cc in subst P q a.0

abbrev ada_request : Request
ada_request = record {
  method = codes "POST";
  authorization = [];
  requested_with = codes "flyc";
  tenant = [];
  visit = visit_of (codes "tok");
}

abbrev auth_lucky : AuthLuck
auth_lucky = record {
  key_ok = true;
  session_ok = true;
  slide_ok = true;
  tenant_ok = true;
  member_ok = true;
  now = 3;
}

abbrev switch_sale : Principal → Db → Answer × Db
switch_sale p db = room_state true p (codes "sale") (some (codes "queue")) db

tenant-IsEntitled_example :
    let db' = (authenticate toy_crypto one_of_rows auth_lucky ada_request platform_db).1 in
    ((p : Principal) × IsEntitled toy_crypto one_of_rows auth_lucky ada_request platform_db
        (codes "operator")
        p
      × (tenant toy_crypto one_of_rows
            (codes "operator")
            switch_sale
            auth_lucky
            ada_request
            platform_db
          ≡ switch_sale p db'))
    ⊎ ((r : Answer) × (400 ≤ r.status)
        × (tenant toy_crypto one_of_rows
              (codes "operator")
              switch_sale
              auth_lucky
              ada_request
              platform_db
            ≡ (r, db')))
tenant-IsEntitled_example =
    tenant-IsEntitled toy_crypto one_of_rows (codes "operator") switch_sale auth_lucky ada_request
      platform_db one_of_rows-IsFirst

abbrev new_sale : RoomIn
new_sale = record {
  slug = codes "sale";
  title = codes "Sale";
  domain = [];
  backend = [];
  state = codes "auto";
  rate = pos 0;
  max_active = pos 0;
  wave_s = pos 0;
  pass_ttl_s = negsuc 0;
  opens_at = none;
  theme = [];
  auto_on = pos 9;
  auto_off = pos 5;
}

abbrev no_time : Str → Option ℕ
no_time s = none

abbrev room_lucky : RoomLuck
room_lucky = record { domain_ok = true; backend_ok = true; write_ok = true }

rooms_isolated_example :
    LeavesOther
      (codes "t22")
      platform_db
      (upsert_room no_time room_lucky acme_admin (codes "sale") (some new_sale) platform_db)
    × LeavesOther
        (codes "t22")
        platform_db
        (room_state true acme_admin (codes "sale") (some (codes "closed")) platform_db)
    × LeavesOther (codes "t22") platform_db (delete_room true acme_admin (codes "sale") platform_db)
unfolding str_eq
rooms_isolated_example =
    rooms_isolated no_time room_lucky acme_admin (codes "sale") (codes "closed") (codes "t22")
      new_sale platform_db refl

abbrev domain_db : Db
domain_db = record platform_db {
  domains =
      record {
        id = codes "d1";
        tenant_id = codes "t1";
        fqdn = codes "shop.io";
        mode = [];
        tls = [];
      }
      ∷ [];
}

abbrev shop_sale : RoomIn
shop_sale = record new_sale { domain = codes "Shop.io" }
