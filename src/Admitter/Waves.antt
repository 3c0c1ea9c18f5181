-- ===== src/Admitter/Waves.antt =====
-- The waves that tickOnce of queue/internal/admitter/admitter.go closes.
use flyc.Base.{
  ℕ, zero, suc, ◌+◌, ◌-◌, ◌*◌, ◌/◌, ◌≡◌, refl, ap, ◌≤◌, ◌<◌, ◌⊎◌, inl, inr, true, List, [], ◌∷◌,
  length, All, Option, none, some, arith, Bool-cases, ltb, leb,
}
use flyc.Room.{Config, second, wave}
use flyc.Admitter.{wave_grace, is_due, due_waves, first_wave, waves_to_close}

-- The numbers from n on.
abbrev pub range : ℕ → ℕ → List ℕ
range n zero = []
range n (suc k) = n ∷ range (n + 1) k

-- The loop takes consecutive waves, all of them over; it stops only at its last round or at a wave
-- that is not over.
pub record IsSweep (now wave_sec rounds n : ℕ) (ns : List ℕ) : Type 0 where
  pub consecutive : ns ≡ range n (length ns)
  pub over : All (λ m. (m + 1) * wave_sec * second + wave_grace ≤ now) ns
  pub within : length ns ≤ rounds
  pub complete : (length ns ≡ rounds) ⊎ (now < (n + length ns + 1) * wave_sec * second + wave_grace)

due_waves-IsSweep :
    (now wave_sec rounds n : ℕ) → IsSweep now wave_sec rounds n (due_waves now wave_sec rounds n)
unfolding due_waves
due_waves-IsSweep now wave_sec zero n = record {
  consecutive = refl;
  over = tt;
  within = omega arith;
  complete = inl refl;
}
due_waves-IsSweep now wave_sec (suc rounds) n =
    let ih = due_waves-IsSweep now wave_sec rounds (n + 1) in
    elim (Bool-cases (is_due now wave_sec n)) [
      | inl due ↦ record {
        consecutive = rw due (ap (◌∷◌ n) ih.consecutive);
        over = rw due (ground arith, ih.over);
        within = rw due (omega (arith, ih.within));
        complete = rw due (elim ih.complete [ inl e ↦ inl (ap suc e) | inr h ↦ inr (omega arith) ]);
      }
      | inr not_due ↦ record {
        consecutive = rw not_due refl;
        over = rw not_due tt;
        within = rw not_due (omega arith);
        complete = rw not_due (inr (ground arith));
      }
    ]

-- Where a tick starts: behind the last wave that was closed, where that wave is one of the last two
-- hundred, and at the wave before the present one otherwise.
abbrev pub StartsAt : Option ℕ → ℕ → ℕ → Type 0
StartsAt none cur n = n ≡ cur - 1
StartsAt (some v) cur n =
    ((v < cur) × (cur ≤ v + 200) × (n ≡ v + 1)) ⊎ (((v + 200 < cur) ⊎ (cur ≤ v)) × (n ≡ cur - 1))

first_wave-StartsAt : (last : Option ℕ) (cur : ℕ) → StartsAt last cur (first_wave last cur)
unfolding first_wave
first_wave-StartsAt none cur = refl
first_wave-StartsAt (some v) cur = elim (Bool-cases (ltb (v + 200) cur)) [
  | inl far ↦ inr (inl (ground arith), ground arith)
  | inr near ↦ elim (Bool-cases (leb cur v)) [
    | inl ahead ↦ inr (inr (ground arith), ground arith)
    | inr behind ↦ inl (ground arith, ground arith, ground arith)
  ]
]

-- A tick starts with the wave behind the last one that was closed, where that one is behind the
-- present wave by two hundred at most, and with the wave before the present one otherwise. From there
-- it closes consecutive waves, each over for a second at least and earlier than the present one, and
-- it stops only at one that is not.
pub waves_to_close-IsSweep :
    (cfg : Config) (now : ℕ) (last : Option ℕ)
    → (n : ℕ) × StartsAt last (wave now cfg.wave_sec) n
      × IsSweep now cfg.wave_sec (wave now cfg.wave_sec - n) n (waves_to_close cfg now last)
waves_to_close-IsSweep cfg now last =
    let cur = wave now cfg.wave_sec in
    (
      first_wave last cur,
      first_wave-StartsAt last cur,
      due_waves-IsSweep now cfg.wave_sec (cur - first_wave last cur) (first_wave last cur),
    )

-- A wave that is closed is over for good: no later moment falls into it or an earlier one.
pub closed_wave_over :
    (now later wave_sec n : ℕ)
    → 0 < wave_sec
    → is_due now wave_sec n ≡ true
    → now ≤ later
    → n < wave later wave_sec
unfolding wave
closed_wave_over now later wave_sec n w h k =
    let due : (n + 1) * wave_sec * second + wave_grace ≤ now = ground arith in
    let passed : (n + 1) * wave_sec ≤ later / second = omega arith in grind arith
