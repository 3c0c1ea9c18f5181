-- ===== src/Dataplane/MapSync.antt =====
-- What SyncMap leaves on a load balancer: control/internal/dataplane/client.go, SyncMap.
use flyc.Base.{
  ℕ, ◌≡◌, ◌≢◌, refl, sym, ap, subst, ◌∙◌, ◌⊎◌, inl, inr, true, false, List, Option, none, some,
  if◌then◌else◌, Str, str_eq, str_eq_refl, str_eq→eq, Bool-cases,
}
use flyc.Compile.{MapEntry}
use flyc.Dataplane.{Call, ◌>>=◌, continue_with, let_through, tolerate, value_of, has_duplicate}
use flyc.Dataplane.Requests.{Failure, Reply, ok, failed, is_status, Http, Json, Client}
use flyc.Dataplane.Operations.{map_entries, clear_map, add_entry, set_entry, delete_entry}

-- An entry written over another.
abbrev pub put : Str → MapEntry → Option Str → Option Str
put k e old = if str_eq k e.key then some e.value else old

abbrev pub erased : Str → Str → Option Str → Option Str
erased k key old = if str_eq k key then none else old

-- What the load balancer holds under a map's name and a key, and what its answers say of it: a write
-- that is answered well is done, and an entry that is in conflict is there already.
pub record MapService (H : Http) (J : Json) (c : Client) : Type 0 where
  pub view : H.Net → Str → Str → Option Str
  pub read_law :
      (name : Str) (n : H.Net) (es : List MapEntry)
      → (map_entries H J c name n).0 ≡ ok es
      → has_duplicate es ≡ false
      → (k : Str) → view (map_entries H J c name n).1 name k ≡ value_of k es
  pub missing_law :
      (name : Str) (n : H.Net) (e : Failure)
      → (map_entries H J c name n).0 ≡ failed e
      → is_status e 404 ≡ true
      → (k : Str) → view (map_entries H J c name n).1 name k ≡ none
  pub clear_law :
      (name : Str) (n : H.Net) (r : Str)
      → (tolerate 404 (clear_map H J c name) n).0 ≡ ok r
      → (k : Str) → view (tolerate 404 (clear_map H J c name) n).1 name k ≡ none
  pub add_law :
      (name : Str) (e : MapEntry) (n : H.Net) (r : Str)
      → (add_entry H J c name e n).0 ≡ ok r
      → (k : Str) → view (add_entry H J c name e n).1 name k ≡ put k e (view n name k)
  pub conflict_law :
      (name : Str) (e : MapEntry) (n : H.Net) (f : Failure)
      → (add_entry H J c name e n).0 ≡ failed f
      → is_status f 409 ≡ true
      → ((k : Str) → view (add_entry H J c name e n).1 name k ≡ view n name k)
        × (view n name e.key ≢ none)
  pub set_law :
      (name : Str) (e : MapEntry) (n : H.Net) (r : Str)
      → (set_entry H J c name e n).0 ≡ ok r
      → (k : Str) → view (set_entry H J c name e n).1 name k ≡ put k e (view n name k)
  pub delete_law :
      (name key : Str) (n : H.Net) (r : Str)
      → (tolerate 404 (delete_entry H J c name key) n).0 ≡ ok r
      → (k : Str)
      → view (tolerate 404 (delete_entry H J c name key) n).1 name k ≡ erased k key (view n name k)

-- A sequence that ends well, ends well in both parts.
pub bind_ok :
    {N A B : Type 0} (m : Call N A) (f : A → Call N B) (n : N) (b : B)
    → ((m >>= f) n).0 ≡ ok b
    → (a : A) × ((m n).0 ≡ ok a) × ((m >>= f) n ≡ f a (m n).1)
bind_ok {N} {A} {B} m f n b h = by_reply (m n) h
  where
    by_reply :
        (p : Reply A × N)
        → (continue_with f p).0 ≡ ok b
        → (a : A) × (p.0 ≡ ok a) × (continue_with f p ≡ f a p.1)
    by_reply (ok a, n') h = (a, refl, refl)
    by_reply (failed e, n') h = absurd cc

pub let_through-cases :
    {N A : Type 0} (code : ℕ) (zero : A) (p : Reply A × N) (r : A)
    → (let_through code zero p).0 ≡ ok r
    → ((let_through code zero p).1 ≡ p.1)
      × ((p.0 ≡ ok r) ⊎ ((f : Failure) × (p.0 ≡ failed f) × (is_status f code ≡ true) × (r ≡ zero)))
let_through-cases {N} {A} code zero (ok a, n) r h = (refl, inl h)
let_through-cases {N} {A} code zero (failed e, n) r h = elim (Bool-cases (is_status e code)) [
  | inl t ↦ let q : ◌≡◌ {A = Reply A} (ok zero) (ok r) = rw t at h in (refl, inr (e, refl, t, cc))
  | inr t ↦ let q : ◌≡◌ {A = Reply A} (failed e) (ok r) = rw t at h in absurd cc
]

pub put_same :
    (k : Str) (e : MapEntry) (old : Option Str) → str_eq k e.key ≡ false → put k e old ≡ old
put_same k e old h = ap (λ b. if b then some e.value else old) h

pub put_own : (e : MapEntry) (old : Option Str) → put e.key e old ≡ some e.value
put_own e old = ap (λ b. if b then some e.value else old) (str_eq_refl e.key)

-- Between the views `before` and `after`, the key came to its wanted value and the others stayed.
pub record Touched (wanted before after : Str → Option Str) (key : Str) : Type 0 where
  pub settled : after key ≡ wanted key
  pub others : (k : Str) → str_eq k key ≡ false → after k ≡ before k

-- A view that is the old one or the wanted one at every key, and what a write makes of it.
pub record Progress (wanted old before after : Str → Option Str) : Type 0 where
  pub between :
      ((k : Str) → (before k ≡ old k) ⊎ (before k ≡ wanted k))
      → (k : Str) → (after k ≡ old k) ⊎ (after k ≡ wanted k)
  pub kept : (k : Str) → before k ≡ wanted k → after k ≡ wanted k

pub Progress-refl : (wanted old v : Str → Option Str) → Progress wanted old v v
Progress-refl wanted old v = record { between = λ h. h; kept = λ k h. h }

pub Progress-trans :
    (wanted old a b c : Str → Option Str)
    → Progress wanted old a b
    → Progress wanted old b c
    → Progress wanted old a c
Progress-trans wanted old a b c p q = record {
  between = λ h. q.between (p.between h);
  kept = λ k h. q.kept k (p.kept k h);
}

pub Touched-Progress :
    (wanted old before after : Str → Option Str) (key : Str)
    → Touched wanted before after key
    → Progress wanted old before after
Touched-Progress wanted old before after key t = record {
  between = λ h k. elim (Bool-cases (str_eq k key)) [
    | inl e ↦ inr (at_key k e)
    | inr e ↦ elim (h k) [ inl p ↦ inl (t.others k e ∙ p) | inr p ↦ inr (t.others k e ∙ p) ]
  ];
  kept = λ k h. elim (Bool-cases (str_eq k key)) [ inl e ↦ at_key k e | inr e ↦ t.others k e ∙ h ];
}
  where
    at_key : (k : Str) → str_eq k key ≡ true → after k ≡ wanted k
    at_key k e = subst (λ z. after z ≡ wanted z) (sym (str_eq→eq k key e)) t.settled
