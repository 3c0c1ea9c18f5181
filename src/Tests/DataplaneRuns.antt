-- ===== src/Tests/DataplaneRuns.antt =====
-- A load balancer in memory with one map and one file, and runs of the client on it.
use flyc.Base.{
  ℕ, ◌≡◌, refl, sym, ap, ◌∙◌, inl, inr, Bool, true, false, ◌&&◌, List, [], ◌∷◌, Option, none, some,
  if◌then◌else◌, Str, codes, trim_space, str_eq, str_eq→eq, differ_sym, Bool-cases,
}
use flyc.Compile.{MapEntry}
use flyc.Dataplane.{value_of, has_duplicate}
use flyc.Dataplane.Requests.{
  Body, no_body, json_entry, Request, Failure, api_error, Reply, ok, failed, is_status, Http, Json,
  Client,
}
use flyc.Dataplane.Operations.{
  map_entries, clear_map, add_entry, set_entry, delete_entry, answer, sync_map,
}
use flyc.Dataplane.MapSync.{MapService, put}
use flyc.Dataplane.MapResult.{IsWalk, sync_map-desired}
use flyc.Dataplane.MapIdle.{sync_map-idle}
use flyc.Dataplane.Names.{last_value}

abbrev shop : MapEntry
shop = record { key = codes "shop.example"; value = codes "acme.sale" }

-- The map is empty, or holds the one entry; it takes that entry and refuses every other change.
abbrev answered : Bool → Request → Bool → Option (ℕ × Str) × Bool
answered true q n = (some (200, if n then codes "1" else []), n)
answered false q n = (some (500, []), n)

abbrev added : Bool → Bool → Option (ℕ × Str) × Bool
added true false = (some (200, []), true)
added _ n = (some (500, []), n)

abbrev is_shop : MapEntry → Bool
is_shop e = str_eq e.key shop.key && str_eq e.value shop.value

abbrev by_body : Body → Request → Bool → Option (ℕ × Str) × Bool
by_body (json_entry e) q n = added (is_shop e) n
by_body no_body q n = answered (str_eq q.method (codes "GET")) q n
by_body _ q n = (some (500, []), n)

abbrev balancer : Http
balancer = record { Net = Bool; send = λ q n. by_body q.body q n }

abbrev toy_json : Json
toy_json = record {
  info = λ s. none;
  version = λ s. none;
  transaction = λ s. none;
  backends = λ s. none;
  servers = λ s. none;
  entries = λ s. some (shop ∷ []);
  certs = λ s. none;
  raw = λ s. none;
  stats_object = λ s. none;
  stats_list = λ s. none;
  path_escape = λ s. s;
  visit = λ es. es;
}

abbrev client : Client
client = record { base = codes "http://lb"; user = codes "admin"; pass = [] }

abbrev held : Bool → Str → Option Str
held false k = none
held true k = if str_eq k shop.key then some shop.value else none

never : {A : Type 0} (f : Failure) (a : A) → ◌≡◌ {A = Reply A} (failed f) (ok a) → ⊥
never f a h = cc

fine : {A : Type 0} (a b : A) → ◌≡◌ {A = Reply A} (ok a) (ok b) → a ≡ b
fine a b h = cc

str_eq_comm : (s t : Str) → str_eq s t ≡ str_eq t s
str_eq_comm s t = elim (Bool-cases (str_eq s t)) [
  | inl e ↦ ap (λ z. str_eq s z) (sym (str_eq→eq s t e)) ∙ ap (λ z. str_eq z s) (str_eq→eq s t e)
  | inr e ↦ e ∙ sym (differ_sym s t e)
]

read_held :
    (name : Str) (n : Bool) (es : List MapEntry)
    → (map_entries balancer toy_json client name n).0 ≡ ok es
    → (k : Str) → held n k ≡ value_of k es
unfolding map_entries value_of str_eq
read_held name false es h k = ap (value_of k) (fine [] es h)
read_held name true es h k =
    ap (λ b. if b then some shop.value else none) (str_eq_comm k shop.key)
    ∙ ap (value_of k) (fine (shop ∷ []) es h)

added_view :
    (e : MapEntry) (b n : Bool) (r : Str)
    → (b ≡ true → (e.key ≡ shop.key) × (e.value ≡ shop.value))
    → answer balancer toy_json client (added b n).0 ≡ ok r
    → (k : Str) → held (added b n).1 k ≡ put k e (held n k)
added_view e true false r same h k =
    let (key, value) = same refl in
    ap (λ z. if str_eq k z then some shop.value else none) (sym key)
    ∙ ap (λ v. if str_eq k e.key then some v else none) (sym value)
added_view e true true r same h k = absurd (never _ r h)
added_view e false false r same h k = absurd (never _ r h)
added_view e false true r same h k = absurd (never _ r h)

is_shop-same : (e : MapEntry) → is_shop e ≡ true → (e.key ≡ shop.key) × (e.value ≡ shop.value)
is_shop-same e h = elim (Bool-cases (str_eq e.key shop.key)) [
  | inl k ↦ elim (Bool-cases (str_eq e.value shop.value)) [
    | inl v ↦ (str_eq→eq e.key shop.key k, str_eq→eq e.value shop.value v)
    | inr v ↦
        absurd (differ (sym (ap (λ b. str_eq e.key shop.key && b) v ∙ ap (λ b. b && false) k) ∙ h))
  ]
  | inr k ↦ absurd (differ (sym (ap (λ b. b && str_eq e.value shop.value) k) ∙ h))
]
  where
    differ : false ≡ true → ⊥
    differ h = cc

not_conflict :
    (x : Str) (f : Failure)
    → ◌≡◌ {A = Reply Str} (failed (api_error 500 x)) (failed f)
    → is_status f 409 ≡ true
    → ⊥
unfolding is_status
not_conflict x f h t =
    let q : api_error 500 x ≡ f = cc in let z : false ≡ true = ap (λ f. is_status f 409) q ∙ t in cc

never_conflict :
    (b n : Bool) (f : Failure)
    → answer balancer toy_json client (added b n).0 ≡ failed f
    → is_status f 409 ≡ true
    → ⊥
unfolding is_status
never_conflict true false f h t = absurd (never f [] (sym h))
never_conflict true true f h t = not_conflict (trim_space []) f h t
never_conflict false false f h t = not_conflict (trim_space []) f h t
never_conflict false true f h t = not_conflict (trim_space []) f h t

balancer-MapService : MapService balancer toy_json client
unfolding map_entries clear_map add_entry set_entry delete_entry str_eq is_status
balancer-MapService = record {
  view = λ n name k. held n k;
  read_law = λ name n es h d k. read_held name n es h k;
  missing_law = λ name n e h t k. absurd (never_missing n e h);
  clear_law = λ name n r h k. absurd (never _ r h);
  add_law = λ name e n r h k. added_view e (is_shop e) n r (is_shop-same e) h k;
  conflict_law = λ name e n f h t. absurd (never_conflict (is_shop e) n f h t);
  set_law = λ name e n r h k. absurd (never _ r h);
  delete_law = λ name key n r h k. absurd (never _ r h);
}
  where
    never_missing :
        (n : Bool) (e : Failure) → (map_entries balancer toy_json client [] n).0 ≡ failed e → ⊥
    never_missing false e h = never e [] (sym h)
    never_missing true e h = never e (shop ∷ []) (sym h)

in_order : IsWalk toy_json.visit
in_order = record { only = λ P es a. a; whole = λ P es a. a }

sync_map-desired_example :
    balancer-MapService.view
      (sync_map balancer toy_json client (codes "rooms.map") (shop ∷ []) false).1
      (codes "rooms.map")
      (codes "shop.example")
    ≡ last_value (codes "shop.example") (shop ∷ [])
unfolding sync_map str_eq trim_space add_entry
sync_map-desired_example =
    sync_map-desired balancer toy_json client balancer-MapService (codes "rooms.map") (shop ∷ [])
      false [] in_order refl (codes "shop.example")

sync_map-idle_example :
    sync_map balancer toy_json client (codes "rooms.map") (shop ∷ []) true
    ≡ (ok [], (map_entries balancer toy_json client (codes "rooms.map") true).1)
unfolding map_entries has_duplicate value_of str_eq trim_space
sync_map-idle_example =
    sync_map-idle balancer toy_json client (codes "rooms.map") (shop ∷ []) (shop ∷ []) true in_order
      refl refl (λ k. refl)
