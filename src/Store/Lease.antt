-- ===== src/Store/Lease.antt =====
-- Acquire of queue/internal/store/store.go: the lease of a room.
use flyc.Base.{
  ℕ, zero, ◌≡◌, refl, ap, ◌∙◌, sym, ◌≢◌, Bool, true, false, List, [], ◌∷◌, Option, none, some, Str,
  codes, str_eq, arith, inl, inr, Bool-cases, ◌⊎◌, str_eq_refl,
}
use flyc.Room.{RoomId, key}
use flyc.Redis.{Redis, Reply, setnx, get, expire, as_int, as_text, reply_at, ◌>>=◌, pure}
use flyc.Redis.Laws.{IsLawful, >>=-eq-some, setnx_reply, get_reply, after_text, str_eq-false}
use flyc.Store.{acquire, held_by, taken}

abbrev pub lock_key : RoomId → Str
lock_key id = key id (codes "lock")

as_text-get_reply : (o : Option Str) → as_text (get_reply o) ≡ o
as_text-get_reply none = refl
as_text-get_reply (some x) = refl

module _ (R : Redis) (L : IsLawful R) (id : RoomId) where
  abbrev holder : R.Db → Option Str
  holder d = L.text_of d (lock_key id)

  -- The comparison with the text that GET returned; a renewal changes no text.
  held_by_result :
      (owner : Str) (ttl : ℕ) (cur : Option Str) (d d' : R.Db) (r : Bool)
      → held_by R id owner ttl cur d ≡ (some r, d')
      → (x : Str) × (cur ≡ some x) × (holder d' ≡ holder d) × (str_eq x owner ≡ r)
  unfolding held_by
  held_by_result owner ttl none d d' r e = cc
  held_by_result owner ttl (some x) d d' r e = elim (Bool-cases (str_eq x owner)) [
    | inl same ↦
        let e' : (R.exec (expire (lock_key id) ttl ∷ []) >>= λ (rs : List Reply). pure true) d
            ≡ (some r, d') =
          rw same at e in
        let (rs, d1, p, q) =
          >>=-eq-some (R.exec (expire (lock_key id) ttl ∷ [])) (λ (rs : List Reply). pure true) d
            e' in
        let kept = L.exec_text (expire (lock_key id) ttl ∷ []) rs d d1 (lock_key id) p in
        (x, refl, cc, cc)
    | inr differ ↦
        let e' : ◌≡◌ {A = Option Bool × R.Db} (some false, d) (some r, d') = rw differ at e in
        (x, refl, cc, cc)
  ]

  -- After a SETNX that set nothing, the answer says whether the holder is the caller.
  taken_result :
      (owner : Str) (ttl : ℕ) (d d' : R.Db) (r : Bool)
      → taken R id owner ttl zero d ≡ (some r, d')
      → (x : Str) × (holder d ≡ some x) × (holder d' ≡ some x) × (str_eq x owner ≡ r)
  unfolding taken
  taken_result owner ttl d d' r e =
      let (rs, d1, p, q) =
        >>=-eq-some (R.exec (get (lock_key id) ∷ []))
          (λ (rs : List Reply). held_by R id owner ttl (as_text (reply_at rs 0))) d e in
      let kept = L.exec_text (get (lock_key id) ∷ []) rs d d1 (lock_key id) p in
      let said = L.get_replies (lock_key id) rs d d1 p in
      let (x, a, b, c) = held_by_result owner ttl (as_text (reply_at rs 0)) d1 d' r q in
      let h : holder d ≡ some x = sym (as_text-get_reply (holder d)) ∙ ap as_text (sym said) ∙ a in
      (x, h, b ∙ kept ∙ h, c)

  setnx_result :
      (o : Option Str) (owner : Str) (ttl : ℕ)
      → ((as_int (setnx_reply o) ≡ 1)
          × (after_text (setnx (lock_key id) owner ttl) (lock_key id) o ≡ some owner)
          × (o ≡ none))
        ⊎ ((as_int (setnx_reply o) ≡ 0)
            × (after_text (setnx (lock_key id) owner ttl) (lock_key id) o ≡ o))
  setnx_result none owner ttl = inl (refl, rw (str_eq_refl (lock_key id)), refl)
  setnx_result (some x) owner ttl = inr (refl, refl)

  -- Acquire answers true exactly to the holder after the call: the room was free, and is now the
  -- caller's, or it had a holder, who keeps it.
  pub acquire_result :
      (owner : Str) (ttl : ℕ) (d d' : R.Db) (r : Bool)
      → acquire R id owner ttl d ≡ (some r, d')
      → (x : Str) × (L.text_of d' (lock_key id) ≡ some x)
        × (str_eq x owner ≡ r)
        × (((L.text_of d (lock_key id) ≡ none) × (r ≡ true)) ⊎ (L.text_of d (lock_key id) ≡ some x))
  unfolding acquire
  acquire_result owner ttl d d' r e =
      let (rs, d1, p, q) =
        >>=-eq-some (R.exec (setnx (lock_key id) owner ttl ∷ []))
          (λ (rs : List Reply). taken R id owner ttl (as_int (reply_at rs 0))) d e in
      let t = L.exec_text (setnx (lock_key id) owner ttl ∷ []) rs d d1 (lock_key id) p in
      let said = L.setnx_replies (lock_key id) owner ttl rs d d1 p in
      elim (setnx_result (holder d) owner ttl) [
        | inl (one, mine, free) ↦
            let q' : taken R id owner ttl 1 d1 ≡ (some r, d') = rw (said, one) at q in
            let q'' : ◌≡◌ {A = Option Bool × R.Db} (some true, d1) (some r, d') =
              unfold taken in q' in
            (
              owner,
              ap (λ (v : Option Bool × R.Db). holder v.1) (sym q'') ∙ t ∙ mine,
              cc (str_eq_refl owner),
              inl (free, cc),
            )
        | inr (nought, kept) ↦
            let q' : taken R id owner ttl 0 d1 ≡ (some r, d') = rw (said, nought) at q in
            let (x, a, b, c) = taken_result owner ttl d1 d' r q' in
            (x, b, c, inr (sym kept ∙ sym t ∙ a))
      ]

  -- While one owner holds the lease, a call of Acquire that ends without an error tells no other
  -- owner that it does, and leaves the lease where it is.
  pub acquire_excluded :
      (a b : Str) (ttl : ℕ) (d d' : R.Db) (r : Bool)
      → L.text_of d (lock_key id) ≡ some a
      → a ≢ b
      → acquire R id b ttl d ≡ (some r, d')
      → (r ≡ false) × (L.text_of d' (lock_key id) ≡ some a)
  acquire_excluded a b ttl d d' r h ne e =
      let (x, now, same, before) = acquire_result b ttl d d' r e in
      elim before [
        | inl (free, mine) ↦ absurd (ground (arith, h, free))
        | inr held ↦
            let q : a ≡ x = cc in
            (sym same ∙ ap (λ v. str_eq v b) (sym q) ∙ str_eq-false a b ne, now ∙ ap some (sym q))
      ]
