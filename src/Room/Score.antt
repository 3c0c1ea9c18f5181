-- ===== src/Room/Score.antt =====
-- WaveScore of queue/internal/room/room.go: scores as float64 values.
use flyc.Base.{ℕ, zero, suc, ◌+◌, ◌*◌, ◌%◌, ◌^◌, ◌≡◌, refl, ◌≤◌, ◌<◌, arith, ◌⊎◌, inl, inr, ◌∙◌, ap}
use flyc.Room.{wave_score, to_float64, round_even, float_shift}

float_shift_small : (f m : ℕ) → m < 2 ^ 53 → float_shift f m ≡ 0
unfolding float_shift
float_shift_small zero m h = refl
float_shift_small (suc f) m h = ground arith

round_even_one : (n : ℕ) → round_even n 1 ≡ n
unfolding round_even
round_even_one n = ground arith

to_float64_exact : (n : ℕ) → n < 2 ^ 53 → to_float64 n ≡ n
unfolding to_float64
to_float64_exact n h = rw (float_shift_small 10 n h) (round_even_one n)

pub wave_score_exact :
    (w r : ℕ)
    → r < 10_000_000
    → w * 10_000_000 + 10_000_000 ≤ 2 ^ 53
    → wave_score w r ≡ w * 10_000_000 + r
unfolding wave_score
wave_score_exact w r h k = to_float64_exact (w * 10_000_000 + r) (omega arith)

-- Below 2^53, with ranks below ten million, the scores are in the order of the waves first and of
-- the ranks within a wave.
pub wave_score_order :
    (v w r s : ℕ)
    → r < 10_000_000
    → s < 10_000_000
    → v * 10_000_000 + 10_000_000 ≤ 2 ^ 53
    → w * 10_000_000 + 10_000_000 ≤ 2 ^ 53
    → (v < w) ⊎ ((v ≡ w) × (r < s))
    → wave_score v r < wave_score w s
wave_score_order v w r s hr hs hv hw order =
    let a = wave_score_exact v r hr hv in
    let b = wave_score_exact w s hs hw in
    elim order [ inl h ↦ omega arith | inr (e, h) ↦ omega arith ]

float_shift_one : (m : ℕ) → 2 ^ 53 ≤ m → m < 2 ^ 54 → float_shift 10 m ≡ 1
unfolding float_shift
float_shift_one m h k = ground arith

round_even_two : (n : ℕ) → n % 4 ≡ 0 → round_even (n + 1) 2 ≡ round_even n 2
unfolding round_even
round_even_two n h = ground arith

to_float64_tie :
    (n : ℕ) → 2 ^ 53 ≤ n → n + 1 < 2 ^ 54 → n % 4 ≡ 0 → to_float64 (n + 1) ≡ to_float64 n
unfolding to_float64
to_float64_tie n h k e =
    rw (float_shift_one (n + 1) (omega arith) k, float_shift_one n h (omega arith))
      (round_even_two n e)

-- From 2^53 to 2^54 a rank that is a multiple of four and its successor have one score.
pub wave_score_tie :
    (w r : ℕ)
    → 2 ^ 53 ≤ w * 10_000_000 + r
    → w * 10_000_000 + r + 1 < 2 ^ 54
    → r % 4 ≡ 0
    → wave_score w (r + 1) ≡ wave_score w r
unfolding wave_score
wave_score_tie w r h k e =
    ap to_float64 (omega arith) ∙ to_float64_tie (w * 10_000_000 + r) h k (omega arith)
