-- ===== src/Admitter/Budget.antt =====
-- The tokens and the admissions of tickOnce of queue/internal/admitter/admitter.go.
use flyc.Base.{
  ◌-◌, ℕ, zero, suc, ◌+◌, ◌*◌, ◌≡◌, refl, ap, ◌≤◌, ◌≢◌, ◌⊎◌, Bool, true, false, List, [], ◌∷◌,
  length, Option, none, some, ◌==◌, arith, Str, codes,
}
use flyc.Room.{RoomId, Config, State, queue, second, key}
use flyc.Redis.{Redis, Reply, zpopmin, as_scored, reply_at, ◌>>=◌, pure}
use flyc.Redis.Laws.{>>=-eq-some}
use flyc.Pass.{Crypto}
use flyc.Store.{Counted, pop_pending, members}
use flyc.Admitter.{
  spend, Tick, token, refill, budget, admit_one, admit_all, admit, admissions, kept_if, is_queueing,
}

-- The bucket never holds more than five seconds' worth, and gains no more than the rate allows.
refill_bounds :
    (cfg : Config) (dt tokens : ℕ)
    → (refill cfg dt tokens ≤ cfg.rate * (5 * second))
      × (refill cfg dt tokens ≤ tokens + cfg.rate * dt)
unfolding refill
refill_bounds cfg dt tokens = ground arith

-- The budget is covered by the tokens and by the tickets, and where the number of valid passes is
-- limited the limit is not passed.
pub budget_bounds :
    (cfg : Config) (tokens : ℕ) (c : Counted)
    → (budget cfg tokens c * token ≤ tokens)
      × (budget cfg tokens c ≤ c.pending)
      × ((cfg.max_active ≡ 0)
          ⊎ (budget cfg tokens c ≡ 0)
          ⊎ (c.active + budget cfg tokens c ≤ cfg.max_active))
unfolding budget
budget_bounds cfg tokens c = ground arith

-- ZPOPMIN with a count returns no more than that.
abbrev pub PopsAtMost : Redis → Type 0
PopsAtMost R =
    (k : Str) (n : ℕ) (rs : List Reply) (d d' : R.Db)
    → R.exec (zpopmin k n ∷ []) d ≡ (some rs, d')
    → length (as_scored (reply_at rs 0)) ≤ n

length-members : (zs : List (ℕ × Str)) → length (members zs) ≡ length zs
length-members [] = refl
length-members (z ∷ zs) = ap suc (length-members zs)

length-kept_if :
    (b : Bool) (tid : Str) (ids : List Str) → length (kept_if b tid ids) ≤ length ids + 1
length-kept_if true tid ids = omega arith
length-kept_if false tid ids = omega arith

no_length : (s : Str) → s ≡ [] → (length s == 0) ≡ true
no_length [] e = refl
no_length (c ∷ s) e = cc

has_length : (s : Str) → s ≢ [] → (length s == 0) ≡ false
has_length [] h = absurd (h refl)
has_length (c ∷ s) h = ground arith

not_queueing : (s : State) → s ≢ queue → is_queueing s ≡ false
not_queueing queue h = absurd (h refl)
not_queueing _ h = refl

module _ (R : Redis) (C : Crypto) where
  admit_all-le :
      (k : Tick) (id : RoomId) (cfg : Config) (ids out : List Str) (d d' : R.Db)
      → admit_all R C k id cfg ids d ≡ (some out, d')
      → length out ≤ length ids
  unfolding admit_all
  admit_all-le k id cfg [] out d d' e =
      omega (arith, ap (λ (v : Option (List Str) × R.Db). size v.0) e)
    where
      size : Option (List Str) → ℕ
      size none = 0
      size (some l) = length l
  admit_all-le k id cfg (tid ∷ ids) out d d' e =
      let (done, d1, p, q) =
        >>=-eq-some (admit_one R C k id cfg tid)
          (λ (done : Bool).
            admit_all R C k id cfg ids >>= λ (rest : List Str). pure (kept_if done tid rest))
          d e in
      let (rest, d2, p', q') =
        >>=-eq-some (admit_all R C k id cfg ids)
          (λ (rest : List Str). pure {D = R.Db} (kept_if done tid rest)) d1 q in
      let kept : kept_if done tid rest ≡ out = cc in
      omega (
        arith,
        admit_all-le k id cfg ids rest d1 d2 p',
        length-kept_if done tid rest,
        ap (length {0}) kept,
      )

  pop_pending-le :
      PopsAtMost R
      → (id : RoomId) (n : ℕ) (ids : List Str) (d d' : R.Db) → pop_pending R id n d ≡ (some ids, d')
      → length ids ≤ n
  unfolding pop_pending
  pop_pending-le pops id zero ids d d' e =
      let none_popped : [] ≡ ids = cc in omega (arith, ap (length {0}) none_popped)
  pop_pending-le pops id (suc n) ids d d' e =
      let (rs, d1, p, q) =
        >>=-eq-some (R.exec (zpopmin (key id (codes "pending")) (suc n) ∷ []))
          (λ (rs : List Reply). pure {D = R.Db} (members (as_scored (reply_at rs 0)))) d e in
      let popped : members (as_scored (reply_at rs 0)) ≡ ids = cc in
      omega (
        arith,
        ap (length {0}) popped,
        length-members (as_scored (reply_at rs 0)),
        pops (key id (codes "pending")) (suc n) rs d d1 p,
      )

  -- A tick admits no more tickets than its budget.
  pub admit-le-budget :
      PopsAtMost R
      → (k : Tick) (id : RoomId) (cfg : Config) (n : ℕ) (out : List Str) (d d' : R.Db)
      → admit R C k id cfg n d ≡ (some out, d')
      → length out ≤ n
  unfolding admit
  admit-le-budget pops k id cfg n out d d' e =
      let (ids, d1, p, q) =
        >>=-eq-some (pop_pending R id n) (λ (ids : List Str). admit_all R C k id cfg ids) d e in
      omega (arith, admit_all-le k id cfg ids out d1 d' q, pop_pending-le pops id n ids d d1 p)

  -- A room that does not queue, or has nobody waiting, or no budget, or no signing key: nothing is
  -- popped or written, and the bucket keeps its tokens.
  pub admissions_idle :
      (k : Tick) (id : RoomId) (cfg : Config) (c : Counted) (tokens : ℕ) (d : R.Db)
      → (cfg.state ≢ queue)
        ⊎ (c.pending ≡ 0)
        ⊎ (budget cfg (refill cfg k.dt tokens) c ≡ 0)
        ⊎ (k.kid ≡ [])
      → admissions R C k id cfg c tokens d ≡ (refill cfg k.dt tokens, d)
  unfolding admissions
  admissions_idle k id cfg c tokens d h = ground (arith, h, no_length k.kid, not_queueing cfg.state)

  paid :
      (full tokens_out bound : ℕ)
      → tokens_out ≤ bound
      → bound ≤ full
      → full - tokens_out + tokens_out ≡ full
  paid full tokens_out bound h k = omega arith

  -- In a room that queues, with tickets, a budget and a key, a tick whose admissions end without an
  -- error pays one token for each ticket that it admitted, out of the bucket as it was filled, and
  -- the bucket never falls short.
  pub admissions_pays :
      PopsAtMost R
      → (k : Tick) (id : RoomId) (cfg : Config) (c : Counted) (tokens : ℕ) (out : List Str)
        (d d' : R.Db)
      → cfg.state ≡ queue
      → k.kid ≢ []
      → c.pending ≢ 0
      → budget cfg (refill cfg k.dt tokens) c ≢ 0
      → admit R C k id cfg (budget cfg (refill cfg k.dt tokens) c) d ≡ (some out, d')
      → (admissions R C k id cfg c tokens d).0 + length out * token ≡ refill cfg k.dt tokens
  unfolding admissions spend
  admissions_pays pops k id cfg c tokens out d d' q kid p n e =
      let full : ℕ = refill cfg k.dt tokens in
      let fits : length out ≤ budget cfg full c =
        admit-le-budget pops k id cfg (budget cfg full c) out d d' e in
      let covered : budget cfg full c * token ≤ full = (budget_bounds cfg full c).0 in
      let sum : full - length out * token + length out * token ≡ full =
        paid full (length out * token) (budget cfg full c * token) (omega arith) covered in
      ground (arith, q, p, n, e, sum, has_length k.kid kid)
