-- ===== src/Dataplane/MapResult.antt =====
-- SyncMap as a whole: control/internal/dataplane/client.go.
use flyc.Base.{
  ◌≡◌, refl, sym, ap, subst, ◌∙◌, inl, inr, Bool, true, false, List, [], Option, none, some, All,
  Str, Option-cases,
}
use flyc.Compile.{MapEntry}
use flyc.Dataplane.{tolerate, ◌>>=◌, pure, has_key, to_map, value_of, has_duplicate}
use flyc.Dataplane.Requests.{Reply, ok, Http, Json, Client}
use flyc.Dataplane.Operations.{
  map_entries, clear_map, put_entries, drop_entries, cleared, or_empty, sync_map,
}
use flyc.Dataplane.MapSync.{MapService, bind_ok, let_through-cases}
use flyc.Dataplane.MapLoops.{put_entries-Settles, drop_entries-Settles}
use flyc.Dataplane.Names.{
  last_value, value_of-to_map, value_of_absent, to_map_distinct, value_of-All, to_map-values,
  unkeyed,
}

-- A walk through a map visits what the map holds.
pub record IsWalk (visit : List MapEntry → List MapEntry) : Type 1 where
  pub only : (P : MapEntry → Type 0) (es : List MapEntry) → All P es → All P (visit es)
  pub whole : (P : MapEntry → Type 0) (es : List MapEntry) → All P (visit es) → All P es

module _ (H : Http) (J : Json) (c : Client) (S : MapService H J c) (name : Str) where
  none_in : (k : Str) → none ≡ value_of k []
  unfolding value_of
  none_in k = refl

  -- What stands behind the reading and the clearing, and the map that SyncMap has in mind.
  cleared_view :
      (es : List MapEntry) (n : H.Net) (b : Bool) (cur : List MapEntry)
      → has_duplicate es ≡ b
      → (b ≡ false → (k : Str) → S.view n name k ≡ value_of k es)
      → (cleared H J c name es b n).0 ≡ ok cur
      → (k : Str) → S.view (cleared H J c name es b n).1 name k ≡ value_of k cur
  cleared_view es n true cur d v h k =
      let (a, good, whole) = bind_ok (tolerate 404 (clear_map H J c name)) (λ _. pure []) n cur h in
      let empty : ◌≡◌ {A = Reply (List MapEntry)} (ok []) (ok cur) =
        sym (ap (λ m. m.0) whole) ∙ h in
      let nothing : [] ≡ cur = cc in
      ap (λ m. S.view m.1 name k) whole
      ∙ S.clear_law name n a good k
      ∙ subst (λ es. none ≡ value_of k es) nothing (none_in k)
  cleared_view es n false cur d v h k =
      let same : ◌≡◌ {A = Reply (List MapEntry)} (ok (to_map es)) (ok cur) = h in
      let here : to_map es ≡ cur = cc in
      v refl k ∙ ap (value_of k) (sym (to_map_distinct es d) ∙ here)

  -- What stands behind the reading.
  read_view :
      (es : List MapEntry) (n : H.Net)
      → (or_empty H J c (map_entries H J c name) n).0 ≡ ok es
      → has_duplicate es ≡ false
      → (k : Str) → S.view (or_empty H J c (map_entries H J c name) n).1 name k ≡ value_of k es
  read_view es n h d k =
      let (same, end) = let_through-cases 404 [] (map_entries H J c name n) es h in
      elim end [
        | inl good ↦ ap (λ m. S.view m name k) same ∙ S.read_law name n es good d k
        | inr (f, bad, t, nothing) ↦
            ap (λ m. S.view m name k) same
            ∙ S.missing_law name n f bad t k
            ∙ none_in k
            ∙ ap (value_of k) (sym nothing)
      ]

  -- The two loops, from a view that is the map in mind.
  loops_view :
      (desired cur : List MapEntry) (n : H.Net) (r : Str)
      → IsWalk J.visit
      → ((k : Str) → S.view n name k ≡ value_of k cur)
      → ((put_entries H J c name cur (J.visit (to_map desired)) >>= λ _.
            drop_entries H J c name (to_map desired) (J.visit cur))
          n).0
        ≡ ok r
      → (k : Str)
      → S.view
          ((put_entries H J c name cur (J.visit (to_map desired)) >>= λ _.
              drop_entries H J c name (to_map desired) (J.visit cur))
            n).1
          name
          k
        ≡ value_of k (to_map desired)
  loops_view desired cur n r walk v h k =
      let want = to_map desired in
      let puts = put_entries H J c name cur (J.visit want) in
      let drops = drop_entries H J c name want (J.visit cur) in
      let wanted : Str → Option Str = λ k. value_of k want in
      let old : Str → Option Str = λ k. value_of k cur in
      let (a, good, whole) = bind_ok puts (λ _. drops) n r h in
      let n1 = (puts n).1 in
      let n2 = (drops n1).1 in
      let (p, settled) =
        put_entries-Settles H J c S name wanted old cur (J.visit want) n a (λ k. refl)
          (walk.only (λ e. wanted e.key ≡ some e.value) want (to_map-values desired))
          (λ k. inl (v k)) good in
      let (q, gone) =
        drop_entries-Settles H J c S name wanted old want (J.visit cur) n1 r
          (λ k. value_of_absent k want) (sym (ap (λ m. m.0) whole) ∙ h) in
      ap (λ m. S.view m.1 name k) whole ∙ elim (Option-cases (wanted k)) [
        | inr (w, there) ↦
            let (e, put_there, key) =
              value_of-All k want w (λ e. S.view n1 name e.key ≡ wanted e.key) there
                (walk.whole (λ e. S.view n1 name e.key ≡ wanted e.key) want settled) in
            q.kept k (subst (λ z. S.view n1 name z ≡ wanted z) key put_there)
        | inl absent ↦ elim (q.between (p.between (λ k. inl (v k))) k) [
          | inr done ↦ done
          | inl still ↦ elim (Option-cases (old k)) [
            | inl never ↦ still ∙ never ∙ sym absent
            | inr (o, was) ↦
                let (e, dropped, key) =
                  value_of-All k cur o
                    (λ e. has_key e.key want ≡ false → S.view n2 name e.key ≡ wanted e.key) was
                    (walk.whole
                      (λ e. has_key e.key want ≡ false → S.view n2 name e.key ≡ wanted e.key) cur
                      gone) in
                subst (λ z. S.view n2 name z ≡ wanted z) key
                  (dropped (unkeyed desired k e.key key absent))
          ]
        ]
      ]

  -- Where SyncMap ends without an error, the load balancer holds under every key the value of the
  -- key's last entry among the desired ones, and nothing under the other keys, whatever the map
  -- held before, in whatever order Go walks through it, and also where the map was not there or
  -- held a key twice.
  pub sync_map-desired :
      (desired : List MapEntry) (n : H.Net) (r : Str)
      → IsWalk J.visit
      → (sync_map H J c name desired n).0 ≡ ok r
      → (k : Str) → S.view (sync_map H J c name desired n).1 name k ≡ last_value k desired
  unfolding sync_map
  sync_map-desired desired n r walk h k =
      let read = or_empty H J c (map_entries H J c name) in
      let loops = λ (cur : List MapEntry).
        put_entries H J c name cur (J.visit (to_map desired)) >>= λ _.
        drop_entries H J c name (to_map desired) (J.visit cur) in
      let ready = λ (es : List MapEntry). cleared H J c name es (has_duplicate es) in
      let (es, good, whole) = bind_ok read (λ es. ready es >>= loops) n r h in
      let n1 = (read n).1 in
      let h1 = sym (ap (λ m. m.0) whole) ∙ h in
      let (cur, good2, whole2) = bind_ok (ready es) loops n1 r h1 in
      let n2 = (ready es n1).1 in
      let v = cleared_view es n1 (has_duplicate es) cur refl (λ d. read_view es n good d) good2 in
      ap (λ m. S.view m.1 name k) (whole ∙ whole2)
      ∙ loops_view desired cur n2 r walk v (sym (ap (λ m. m.0) whole2) ∙ h1) k
      ∙ value_of-to_map k desired
