-- ===== src/Dataplane/Names.antt =====
-- The Go maps that SyncMap builds from lists of entries.
use flyc.Base.{
  ◌≡◌, ◌≢◌, refl, sym, ap, ◌∙◌, inl, inr, true, false, List, [], ◌∷◌, Option, none, some,
  if◌then◌else◌, All, Str, str_eq, str_eq_refl, differ_sym, str_eq→eq, arith, Bool-cases,
  Option-cases,
}
use flyc.Compile.{MapEntry}
use flyc.Dataplane.{has_key, to_map, value_of, has_duplicate}

-- The value of the last entry of a key.
abbrev pub last_value : Str → List MapEntry → Option Str
last_value k [] = none
last_value k (e ∷ es) = elim (last_value k es) [
  | some v ↦ some v
  | none ↦ if str_eq e.key k then some e.value else none
]

last_value-none : (k : Str) (es : List MapEntry) → has_key k es ≡ false → last_value k es ≡ none
unfolding has_key
last_value-none k [] h = refl
last_value-none k (e ∷ es) h = ground (arith, last_value-none k es)

last_value-some : (k : Str) (es : List MapEntry) → has_key k es ≡ true → last_value k es ≢ none
unfolding has_key
last_value-some k [] h = absurd cc
last_value-some k (e ∷ es) h = ground (arith, last_value-some k es)

pub value_of-to_map : (k : Str) (es : List MapEntry) → value_of k (to_map es) ≡ last_value k es
unfolding to_map value_of
value_of-to_map k [] = refl
value_of-to_map k (e ∷ es) = elim (Bool-cases (has_key e.key es)) [
  | inl d ↦ elim (Bool-cases (str_eq e.key k)) [
    | inl s ↦
        let there : last_value k es ≢ none =
          last_value-some k es (ap (λ z. has_key z es) (sym (str_eq→eq e.key k s)) ∙ d) in
        elim (Option-cases (last_value k es)) [
          | inl z ↦ absurd (there z)
          | inr (v, z) ↦ rw (d, value_of-to_map k es, z) refl
        ]
    | inr s ↦ elim (Option-cases (last_value k es)) [
      | inl z ↦ rw (d, value_of-to_map k es, z, s) refl
      | inr (v, z) ↦ rw (d, value_of-to_map k es, z) refl
    ]
  ]
  | inr d ↦ elim (Bool-cases (str_eq e.key k)) [
    | inl s ↦
        let z : last_value k es ≡ none =
          last_value-none k es (ap (λ z. has_key z es) (sym (str_eq→eq e.key k s)) ∙ d) in
        rw (d, z, s) refl
    | inr s ↦ elim (Option-cases (last_value k es)) [
      | inl z ↦ rw (d, z, s) (value_of-to_map k es ∙ z)
      | inr (v, z) ↦ rw (d, z, s) (value_of-to_map k es ∙ z)
    ]
  ]
]

pub value_of_absent : (k : Str) (es : List MapEntry) → has_key k es ≡ false → value_of k es ≡ none
unfolding has_key value_of
value_of_absent k [] h = refl
value_of_absent k (e ∷ es) h = ground (arith, value_of_absent k es)

pub to_map_distinct : (es : List MapEntry) → has_duplicate es ≡ false → to_map es ≡ es
unfolding has_duplicate to_map
to_map_distinct [] h = refl
to_map_distinct (e ∷ es) h = ground (arith, to_map_distinct es)

-- An entry with a key's value, among entries that have a predicate.
pub value_of-All :
    (k : Str) (es : List MapEntry) (v : Str) (P : MapEntry → Type 0)
    → value_of k es ≡ some v
    → All P es
    → (e : MapEntry) × P e × (e.key ≡ k)
unfolding value_of
value_of-All k [] v P h a = absurd cc
value_of-All k (e ∷ es) v P h a = elim (Bool-cases (str_eq e.key k)) [
  | inl s ↦ (e, a.0, str_eq→eq e.key k s)
  | inr s ↦ value_of-All k es v P (rw s at h) a.1
]

to_map_absent :
    (k : Str) (es : List MapEntry) → has_key k es ≡ false → has_key k (to_map es) ≡ false
unfolding to_map has_key
to_map_absent k [] h = refl
to_map_absent k (e ∷ es) h = ground (arith, to_map_absent k es)

value_behind :
    (e : MapEntry) (m ys : List MapEntry)
    → has_key e.key ys ≡ false
    → All (λ x. value_of x.key m ≡ some x.value) ys
    → All (λ x. value_of x.key (e ∷ m) ≡ some x.value) ys
unfolding has_key value_of
value_behind e m [] h a = tt
value_behind e m (y ∷ ys) h a = elim (Bool-cases (str_eq y.key e.key)) [
  | inl s ↦ absurd (ground arith)
  | inr s ↦ (
    ap (λ b. if b then some e.value else value_of y.key m) (differ_sym y.key e.key s) ∙ a.0,
    value_behind e m ys (ground arith) a.1,
  )
]

-- The map holds each of its entries.
pub to_map-values :
    (es : List MapEntry) → All (λ e. value_of e.key (to_map es) ≡ some e.value) (to_map es)
unfolding to_map value_of
to_map-values [] = tt
to_map-values (e ∷ es) = elim (Bool-cases (has_key e.key es)) [
  | inl d ↦ rw d (to_map-values es)
  | inr d ↦ rw d (
    ap (λ b. if b then some e.value else value_of e.key (to_map es)) (str_eq_refl e.key),
    value_behind e (to_map es) (to_map es) (to_map_absent e.key es d) (to_map-values es),
  )
]

keyed : (k : Str) (es : List MapEntry) → has_key k (to_map es) ≡ true → has_key k es ≡ true
keyed k es h = elim (Bool-cases (has_key k es)) [
  | inl e ↦ e
  | inr e ↦ let p = to_map_absent k es e in absurd cc
]

pub unkeyed :
    (es : List MapEntry) (k j : Str)
    → j ≡ k
    → value_of k (to_map es) ≡ none
    → has_key j (to_map es) ≡ false
unkeyed es k j same h = elim (Bool-cases (has_key j (to_map es))) [
  | inl e ↦ absurd (
      last_value-some k es (keyed k es (ap (λ z. has_key z (to_map es)) (sym same) ∙ e))
        (sym (value_of-to_map k es) ∙ h))
  | inr e ↦ e
]
