-- ===== src/Dataplane/MapIdle.antt =====
-- SyncMap on a map that is as desired: control/internal/dataplane/client.go.
use flyc.Base.{
  ℕ, if◌then◌else◌, ◌≡◌, ◌≢◌, refl, sym, ap, ◌∙◌, inl, inr, true, false, List, [], ◌∷◌, none, some,
  All, Str, str_eq, str_eq_refl, Bool-cases,
}
use flyc.Compile.{MapEntry}
use flyc.Dataplane.{
  let_through, continue_with, ◌>>=◌, pure, has_key, to_map, value_of, has_duplicate,
}
use flyc.Dataplane.Requests.{Reply, ok, failed, Http, Json, Client}
use flyc.Dataplane.Operations.{
  map_entries, set_entry, put_entry, put_entries, drop_entry, drop_entries, cleared, or_empty,
  sync_map,
}
use flyc.Dataplane.MapResult.{IsWalk}
use flyc.Dataplane.Names.{
  last_value, value_of-to_map, to_map_distinct, to_map-values, value_of_absent,
}

let_through_ok :
    {N A : Type 0} (code : ℕ) (zero : A) (p : Reply A × N) (a : A)
    → p.0 ≡ ok a
    → let_through code zero p ≡ (ok a, p.1)
let_through_ok code zero (ok b, n) a h = ap (λ r. (r, n)) h
let_through_ok code zero (failed e, n) a h = absurd cc

all_same :
    (es want : List MapEntry)
    → ((k : Str) → value_of k es ≡ value_of k want)
    → (ys : List MapEntry) → All (λ e. value_of e.key want ≡ some e.value) ys
    → All (λ e. value_of e.key es ≡ some e.value) ys
all_same es want h [] a = tt
all_same es want h (y ∷ ys) a = (h y.key ∙ a.0, all_same es want h ys a.1)

-- An entry's key has a value.
keyed_behind :
    (e : MapEntry) (m ys : List MapEntry)
    → All (λ x. value_of x.key m ≢ none) ys
    → All (λ x. value_of x.key (e ∷ m) ≢ none) ys
unfolding value_of
keyed_behind e m [] a = tt
keyed_behind e m (y ∷ ys) a = elim (Bool-cases (str_eq e.key y.key)) [
  | inl s ↦ (rw s (λ p. absurd cc), keyed_behind e m ys a.1)
  | inr s ↦ (rw s a.0, keyed_behind e m ys a.1)
]

all_keyed : (es : List MapEntry) → All (λ e. value_of e.key es ≢ none) es
unfolding value_of
all_keyed [] = tt
all_keyed (e ∷ es) = (rw (str_eq_refl e.key) (λ p. absurd cc), keyed_behind e es es (all_keyed es))

all_wanted :
    (es want ys : List MapEntry)
    → ((k : Str) → value_of k es ≡ value_of k want)
    → All (λ e. value_of e.key es ≢ none) ys
    → All (λ e. has_key e.key want ≡ true) ys
all_wanted es want [] h a = tt
all_wanted es want (y ∷ ys) h a = elim (Bool-cases (has_key y.key want)) [
  | inl e ↦ (e, all_wanted es want ys h a.1)
  | inr e ↦ absurd (a.0 (h y.key ∙ value_of_absent y.key want e))
]

module _ (H : Http) (J : Json) (c : Client) (name : Str) where
  puts_nothing :
      (cur es : List MapEntry) (n : H.Net)
      → All (λ e. value_of e.key cur ≡ some e.value) es
      → put_entries H J c name cur es n ≡ (ok [], n)
  unfolding put_entries
  puts_nothing cur [] n a = refl
  puts_nothing cur (e ∷ es) n a =
      ap (λ o. (put_entry H J c name e o >>= λ _. put_entries H J c name cur es) n) a.0
      ∙ ap
          (λ b.
            ((if b then pure [] else set_entry H J c name e) >>= λ _. put_entries H J c name cur es)
              n)
          (str_eq_refl e.value)
      ∙ puts_nothing cur es n a.1

  drops_nothing :
      (want es : List MapEntry) (n : H.Net)
      → All (λ e. has_key e.key want ≡ true) es
      → drop_entries H J c name want es n ≡ (ok [], n)
  unfolding drop_entries
  drops_nothing want [] n a = refl
  drops_nothing want (e ∷ es) n a =
      ap (λ b. (drop_entry H J c name e.key b >>= λ _. drop_entries H J c name want es) n) a.0
      ∙ drops_nothing want es n a.1

  read_ok :
      (es : List MapEntry) (n : H.Net)
      → (map_entries H J c name n).0 ≡ ok es
      → or_empty H J c (map_entries H J c name) n ≡ (ok es, (map_entries H J c name n).1)
  read_ok es n h = let_through_ok 404 [] (map_entries H J c name n) es h

  -- A map that has no key twice and holds what is desired is only read: SyncMap ends well behind
  -- this one request and writes nothing.
  pub sync_map-idle :
      (desired es : List MapEntry) (n : H.Net)
      → IsWalk J.visit
      → (map_entries H J c name n).0 ≡ ok es
      → has_duplicate es ≡ false
      → ((k : Str) → value_of k es ≡ last_value k desired)
      → sync_map H J c name desired n ≡ (ok [], (map_entries H J c name n).1)
  unfolding sync_map
  sync_map-idle desired es n walk h d same =
      let want = to_map desired in
      let n1 = (map_entries H J c name n).1 in
      let loops = λ (cur : List MapEntry). put_entries H J c name cur (J.visit want) >>= λ _.
      drop_entries H J c name want (J.visit cur) in
      let as_wanted : (k : Str) → value_of k es ≡ value_of k want =
        λ k. same k ∙ sym (value_of-to_map k desired) in
      ap (continue_with (λ es. cleared H J c name es (has_duplicate es) >>= loops)) (read_ok es n h)
      ∙ ap (λ b. (cleared H J c name es b >>= loops) n1) d
      ∙ ap (λ cur. loops cur n1) (to_map_distinct es d)
      ∙ ap (continue_with (λ _. drop_entries H J c name want (J.visit es))) (
          puts_nothing es (J.visit want) n1 (
            walk.only (λ e. value_of e.key es ≡ some e.value) want
              (all_same es want (λ k. as_wanted k) want (to_map-values desired))))
      ∙ drops_nothing want (J.visit es) n1 (
          walk.only (λ e. has_key e.key want ≡ true) es
            (all_wanted es want es (λ k. as_wanted k) (all_keyed es)))
