-- ===== src/Tests/AdmitterRuns.antt =====
-- Runs of the theorems on the admissions.
use flyc.Base.{
  ℕ, zero, suc, ◌+◌, ◌-◌, ◌*◌, ◌≡◌, refl, ap, ◌≤◌, ◌⊎◌, false, List, [], ◌∷◌, Option, none, some,
  Str, codes, arith, length, take, str_eq,
}
use flyc.Room.{key, second, wave}
use flyc.Pass.{mint}
use flyc.Redis.{Reply, as_scored, reply_at}
use flyc.Redis.Memory.{Memory, empty, memory, memory-IsLawful}
use flyc.Store.{Counted, pop_pending, get_ticket, mark_admitted, acquire, taken, held_by}
use flyc.Store.Lease.{lock_key}
use flyc.Admitter.{
  admissions, refill, Tick, LoopState, token, waves_to_close, budget, admit, admit_one, loop_round,
  lock_ttl,
}
use flyc.Admitter.Waves.{IsSweep, StartsAt, waves_to_close-IsSweep}
use flyc.Admitter.Budget.{admissions_pays, budget_bounds, PopsAtMost}
use flyc.Admitter.Loop.{loop_round_follower}
use flyc.Tests.Codec.{toy}
use flyc.Tests.Data.{sale, sale_config, noon}

waves_to_close-IsSweep_example :
    (n : ℕ) × StartsAt (some 56_666_664) 56_666_667 n
    × IsSweep noon 30 (56_666_667 - n) n (waves_to_close sale_config noon (some 56_666_664))
unfolding wave
waves_to_close-IsSweep_example = waves_to_close-IsSweep sale_config noon (some 56_666_664)

abbrev forty : Counted
forty = record { pending = 40; active = 98; head = 7 }

budget_bounds_example :
    (budget sale_config (9 * token) forty * token ≤ 9 * token)
    × (budget sale_config (9 * token) forty ≤ 40)
    × ((sale_config.max_active ≡ 0)
        ⊎ (budget sale_config (9 * token) forty ≡ 0)
        ⊎ (98 + budget sale_config (9 * token) forty ≤ 100))
budget_bounds_example = budget_bounds sale_config (9 * token) forty

length-take : {A : Type 0} (n : ℕ) (l : List A) → length (take n l) ≤ n
length-take zero l = omega arith
length-take (suc n) [] = omega arith
length-take (suc n) (x ∷ l) = omega (arith, length-take n l)

abbrev first_of : Option (List Reply) → Reply
first_of none = Reply.nil
first_of (some rs) = reply_at rs 0

memory-PopsAtMost : PopsAtMost memory
memory-PopsAtMost k n rs d d' e =
    let r = ap (λ (p : Option (List Reply) × Memory). length (as_scored (first_of p.0))) e in
    omega (arith, length-take n (d.zsets_at k), r)

abbrev tick : Tick
tick = record {
  now = noon;
  dt = second;
  kid = codes "k1";
  priv = codes "key";
  draws = λ n. [];
  nonce = λ t. 5;
  fuel = 10;
}

abbrev two_pending : Memory
two_pending = record empty {
  zsets_at = λ k. (1, codes "t_a") ∷ (2, codes "t_b") ∷ [];
  hashes_at = λ k. (codes "status", codes "waiting") ∷ (codes "dom", codes "shop.example") ∷ [];
}

abbrev or_nobody : Option (List Str) → List Str
or_nobody none = []
or_nobody (some l) = l

abbrev held : Memory
held = record empty { texts_at = λ k. some (codes "a") }

abbrev follower : LoopState
follower = record { tokens = 9 * token; last = 0; leader = false }

loop_round_follower_example :
    (loop_round memory toy tick sale (codes "ab") noon follower held ≡ (
      record { tokens = 0; last = noon; leader = false },
      (acquire memory sale (codes "ab") lock_ttl held).1,
    ))
    × ((acquire memory sale (codes "ab") lock_ttl held).1.texts_at (lock_key sale)
        ≡ some (codes "a"))
loop_round_follower_example =
    loop_round_follower memory toy memory-IsLawful tick sale (codes "a") (codes "ab") noon follower
      held (acquire memory sale (codes "ab") lock_ttl held).1 false refl (λ e. cc e)
      (unfold acquire taken held_by str_eq in refl)

abbrev two_waiting : Counted
two_waiting = record { pending = 2; active = 0; head = 1 }

admissions_pays_example :
    (admissions memory toy tick sale sale_config two_waiting 0 two_pending).0
      + length (
          or_nobody
            (admit memory toy tick sale sale_config
              (budget sale_config (refill sale_config second 0) two_waiting)
              two_pending).0)
        * token
    ≡ refill sale_config second 0
unfolding admit pop_pending admit_one get_ticket mint mark_admitted budget refill str_eq key
admissions_pays_example =
    admissions_pays memory toy memory-PopsAtMost tick sale sale_config two_waiting 0
      (or_nobody
        (admit memory toy tick sale sale_config
          (budget sale_config (refill sale_config second 0) two_waiting) two_pending).0)
      two_pending
      (admit memory toy tick sale sale_config
        (budget sale_config (refill sale_config second 0) two_waiting) two_pending).1
      refl (λ e. cc e) (λ e. omega (arith, e)) (λ e. omega (arith, e)) refl
