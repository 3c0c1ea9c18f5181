-- ===== src/Control/PasswordChange.antt =====
-- A change of password for which the present hash cannot be read: changePassword of
-- control/internal/api/session.go.
use flyc.Base.{
  ◌≡◌, refl, sym, ap, ◌∙◌, inl, inr, Bool, true, false, List, [], ◌∷◌, Option, none, some,
  if◌then◌else◌, Str, codes, str_eq, str_eq_refl, arith, Bool-cases,
}
use flyc.Accounts.{Crypto, User}
use flyc.Accounts.Passwords.{verify_password, check_password_policy}
use flyc.Accounts.PasswordLaws.{IsCodec, verify_password-hash_password}
use flyc.Accounts.Sessions.{Tables, Visit, create, destroy_all, user_by_id}
use flyc.Control.{Db, answer}
use flyc.Control.Account.{
  Luck, PasswordIn, Otp, change_password, read_hash, renewed, changed, with_users, update_user,
}
use flyc.Control.AccountLaws.{change_password-steps}

module _ (C : Crypto) (O : Otp) where
  -- The row of a user under the update.
  user_by_id-update_user :
      (id salt new : Str) (us : List User) (u : User)
      → user_by_id id us ≡ some u
      → user_by_id id (update_user id (changed C O salt new) us) ≡ some (changed C O salt new u)
  unfolding user_by_id update_user
  user_by_id-update_user id salt new [] u h = absurd cc
  user_by_id-update_user id salt new (x ∷ us) u h =
      let rest = user_by_id id (update_user id (changed C O salt new) us) in
      let head = λ (b : Bool).
        user_by_id id
          ((if b then changed C O salt new x else x) ∷ update_user id (changed C O salt new) us) in
      elim (Bool-cases (str_eq x.id id)) [
        | inl e ↦
            let p : ◌≡◌ {A = Option User} (some x) (some u) =
              sym (ap (λ b. if b then some x else user_by_id id us) e) ∙ h in
            let q : x ≡ u = cc in
            ap head e
            ∙ ap (λ b. if b then some (changed C O salt new x) else rest) e
            ∙ ap (λ y. some (changed C O salt new y)) q
        | inr e ↦
            ap head e
            ∙ ap (λ b. if b then some x else rest) e
            ∙ user_by_id-update_user id salt new us u
                (sym (ap (λ b. if b then some x else user_by_id id us) e) ∙ h)
      ]

  renewed_users :
      (l : Luck) (id : Str) (v : Visit) (t : Tables) → (renewed C O l id v t).users ≡ t.users
  unfolding create destroy_all
  renewed_users l id v t = elim (Bool-cases (l.delete_ok)) [
    | inl e ↦ rw e (ground arith)
    | inr e ↦ rw e (ground arith)
  ]

  -- Where the reading of the present hash fails, the change goes on as for an account without a
  -- password: whatever is sent as the current password, where the update succeeds and the new
  -- password follows the policy, the answer is 200 and the new password is the one that the account
  -- accepts from then on. The codecs of the hash are lawful.
  pub change_password_fails_open :
      (K : IsCodec C) (l : Luck) (i : PasswordIn) (id : Str) (v : Visit) (db : Db) (u : User)
      → user_by_id id db.tables.users ≡ some u
      → l.select_ok ≡ false
      → l.update_ok ≡ true
      → check_password_policy i.new ≡ none
      → ((change_password C O l (some i) id v db).0 ≡ answer 200 (codes "changed"))
        × (w : User) × (user_by_id id (change_password C O l (some i) id v db).1.tables.users
            ≡ some w)
        × (verify_password C w.password_hash i.new ≡ true)
        × (w.must_change_password ≡ false)
  unfolding change_password read_hash
  change_password_fails_open K l i id v db u found s p k =
      let before = with_users (update_user id (changed C O l.salt i.new)) db.tables in
      let ok : (change_password C O l (some i) id v db).0 ≡ answer 200 (codes "changed") =
        rw (s, k, p) refl in
      let answered : (change_password C O l (some i) id v db).0.status ≡ 200 =
        ap (λ a. a.status) ok in
      (
        ok,
        changed C O l.salt i.new u,
        ap (λ t. user_by_id id t.users) (change_password-steps C O l i id v db answered).1
            ∙ ap (user_by_id id) (renewed_users l id v before)
            ∙ user_by_id-update_user id l.salt i.new db.tables.users u found,
        verify_password-hash_password C K l.salt i.new i.new ∙ str_eq_refl _,
        refl,
      )
