-- ===== src/Admitter/Loop.antt =====
-- A round of loop of queue/internal/admitter/admitter.go without the lease.
use flyc.Base.{ℕ, ◌≡◌, ap, ◌∙◌, ◌≢◌, Bool, false, Option, some, Str}
use flyc.Room.{RoomId}
use flyc.Redis.{Redis}
use flyc.Redis.Laws.{IsLawful}
use flyc.Pass.{Crypto}
use flyc.Store.{acquire}
use flyc.Store.Lease.{lock_key, acquire_excluded}
use flyc.Admitter.{Tick, LoopState, led_round, loop_round, lock_ttl}

module _ (R : Redis) (C : Crypto) where
  -- While another replica holds the lease, a round whose call of Acquire succeeds admits nobody: it
  -- makes no further call, empties the bucket, knows that it does not lead, and leaves the lease.
  pub loop_round_follower :
      (L : IsLawful R) (k : Tick) (id : RoomId) (holder owner : Str) (asked : ℕ) (s : LoopState)
      (d d' : R.Db) (r : Bool)
      → L.text_of d (lock_key id) ≡ some holder
      → holder ≢ owner
      → acquire R id owner lock_ttl d ≡ (some r, d')
      → (loop_round R C k id owner asked s d
          ≡ (record { tokens = 0; last = asked; leader = false }, d'))
        × (L.text_of d' (lock_key id) ≡ some holder)
  unfolding loop_round led_round
  loop_round_follower L k id holder owner asked s d d' r held ne e =
      let (refused, kept) = acquire_excluded R L id holder owner lock_ttl d d' r held ne e in
      (
        ap (λ (v : Option Bool × R.Db). led_round R C k id asked s v.0 v.1) e
            ∙ ap (λ b. led_round R C k id asked s (some b) d') refused,
        kept,
      )
