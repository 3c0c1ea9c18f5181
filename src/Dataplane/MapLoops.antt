-- ===== src/Dataplane/MapLoops.antt =====
-- The two loops of SyncMap: control/internal/dataplane/client.go.
use flyc.Base.{
  ◌≡◌, ◌≢◌, refl, sym, ap, subst, ◌∙◌, ◌⊎◌, inl, inr, Bool, true, false, List, [], ◌∷◌, Option,
  none, some, if◌then◌else◌, All, Str, str_eq, str_eq_refl, str_eq→eq, Bool-cases,
}
use flyc.Compile.{MapEntry}
use flyc.Dataplane.{tolerate, has_key, value_of}
use flyc.Dataplane.Requests.{ok, Http, Json, Client}
use flyc.Dataplane.Operations.{
  add_entry, set_entry, delete_entry, put_entry, put_entries, drop_entry, drop_entries,
}
use flyc.Dataplane.MapSync.{
  put, MapService, Touched, Progress, Progress-refl, Progress-trans, Touched-Progress, put_same,
  put_own, bind_ok, let_through-cases,
}

module _ (H : Http) (J : Json) (c : Client) (S : MapService H J c) (name : Str)
    (wanted old : Str → Option Str) where
  abbrev seen : H.Net → Str → Option Str
  seen n = S.view n name

  written-Touched :
      (e : MapEntry) (n n' : H.Net)
      → wanted e.key ≡ some e.value
      → ((k : Str) → S.view n' name k ≡ put k e (S.view n name k))
      → Touched wanted (seen n) (seen n') e.key
  written-Touched e n n' w h = record {
    settled = h e.key ∙ put_own e (S.view n name e.key) ∙ sym w;
    others = λ k d. h k ∙ put_same k e (S.view n name k) d;
  }

  abbrev Settles : H.Net → H.Net → Str → Type 0
  Settles n n' key = Progress wanted old (seen n) (seen n') × (seen n' key ≡ wanted key)

  Touched-Settles :
      (n n' : H.Net) (key : Str) → Touched wanted (seen n) (seen n') key → Settles n n' key
  Touched-Settles n n' key t = (Touched-Progress wanted old (seen n) (seen n') key t, t.settled)

  -- Old and wanted views of the map, of which the present one is a mixture.
  abbrev IsMixed : H.Net → Type 0
  IsMixed n = (k : Str) → (seen n k ≡ old k) ⊎ (seen n k ≡ wanted k)

  conflict-Touched :
      (e : MapEntry) (n n' : H.Net)
      → old e.key ≡ none
      → IsMixed n
      → ((k : Str) → seen n' k ≡ seen n k)
      → seen n e.key ≢ none
      → Touched wanted (seen n) (seen n') e.key
  conflict-Touched e n n' absent g h there = record {
    settled = elim (g e.key) [ inl p ↦ absurd (there (p ∙ absent)) | inr p ↦ h e.key ∙ p ];
    others = λ k d. h k;
  }

  -- One wanted entry.
  put_entry-Settles :
      (e : MapEntry) (n : H.Net) (r : Str) (o : Option Str)
      → old e.key ≡ o
      → wanted e.key ≡ some e.value
      → IsMixed n
      → (put_entry H J c name e o n).0 ≡ ok r
      → Settles n (put_entry H J c name e o n).1 e.key
  put_entry-Settles e n r none absent w g h =
      let n' = (tolerate 409 (add_entry H J c name e) n).1 in
      let (same, end) = let_through-cases 409 [] (add_entry H J c name e n) r h in
      Touched-Settles n n' e.key (elim end [
        | inl good ↦
            written-Touched e n n' w
              (λ k. ap (λ m. S.view m name k) same ∙ S.add_law name e n r good k)
        | inr (f, bad, conflict, z) ↦
            let (stay, there) = S.conflict_law name e n f bad conflict in
            conflict-Touched e n n' absent g (λ k. ap (λ m. S.view m name k) same ∙ stay k) there
      ])
  put_entry-Settles e n r (some v) present w g h = elim (Bool-cases (str_eq v e.value)) [
    | inl same ↦ rw same (
        Touched-Settles n n e.key (record {
          settled = elim (g e.key) [
            | inl p ↦ p ∙ present ∙ ap some (str_eq→eq v e.value same) ∙ sym w
            | inr p ↦ p
          ];
          others = λ k d. refl;
        }))
    | inr differs ↦ rw differs (
        Touched-Settles n (set_entry H J c name e n).1 e.key (
          written-Touched e n (set_entry H J c name e n).1 w
            (S.set_law name e n r (rw differs at h))))
  ]

  settled_later :
      (n n' : H.Net) (es : List MapEntry)
      → Progress wanted old (seen n) (seen n')
      → All (λ e. seen n e.key ≡ wanted e.key) es
      → All (λ e. seen n' e.key ≡ wanted e.key) es
  settled_later n n' [] p a = tt
  settled_later n n' (e ∷ es) p a = (p.kept e.key a.0, settled_later n n' es p a.1)

  -- The wanted entries, one after the other.
  pub put_entries-Settles :
      (cur es : List MapEntry) (n : H.Net) (r : Str)
      → ((k : Str) → old k ≡ value_of k cur)
      → All (λ e. wanted e.key ≡ some e.value) es
      → IsMixed n
      → (put_entries H J c name cur es n).0 ≡ ok r
      → let n' = (put_entries H J c name cur es n).1 in
        Progress wanted old (seen n) (seen n') × All (λ e. seen n' e.key ≡ wanted e.key) es
  unfolding put_entries
  put_entries-Settles cur [] n r o w g h = (Progress-refl wanted old (seen n), tt)
  put_entries-Settles cur (e ∷ es) n r o w g h =
      let first = put_entry H J c name e (value_of e.key cur) in
      let (a, good, whole) = bind_ok first (λ _. put_entries H J c name cur es) n r h in
      let n1 = (first n).1 in
      let n' = (put_entries H J c name cur es n1).1 in
      let (p, s) = put_entry-Settles e n a (value_of e.key cur) (o e.key) w.0 g good in
      let (q, t) =
        put_entries-Settles cur es n1 r o w.1 (p.between g) (sym (ap (λ m. m.0) whole) ∙ h) in
      subst
        (λ m.
          Progress wanted old (seen n) (seen m) × All (λ e. seen m e.key ≡ wanted e.key) (e ∷ es))
        (sym (ap (λ m. m.1) whole))
        (Progress-trans wanted old (seen n) (seen n1) (seen n') p q, (q.kept e.key s, t))

  drop_entry-Settles :
      (key : Str) (keep : Bool) (n : H.Net) (r : Str)
      → (keep ≡ false → wanted key ≡ none)
      → (drop_entry H J c name key keep n).0 ≡ ok r
      → let n' = (drop_entry H J c name key keep n).1 in
        Progress wanted old (seen n) (seen n') × (keep ≡ false → seen n' key ≡ wanted key)
  drop_entry-Settles key true n r w h = (Progress-refl wanted old (seen n), λ e. absurd cc)
  drop_entry-Settles key false n r w h =
      let n' = (tolerate 404 (delete_entry H J c name key) n).1 in
      let gone = S.delete_law name key n r h in
      let t : Touched wanted (seen n) (seen n') key = record {
        settled =
            gone key ∙ ap (λ b. if b then none else seen n key) (str_eq_refl key) ∙ sym (w refl);
        others = λ k d. gone k ∙ ap (λ b. if b then none else seen n k) d;
      } in
      (Touched-Progress wanted old (seen n) (seen n') key t, λ e. t.settled)

  -- The present entries, one after the other.
  pub drop_entries-Settles :
      (want es : List MapEntry) (n : H.Net) (r : Str)
      → ((k : Str) → has_key k want ≡ false → wanted k ≡ none)
      → (drop_entries H J c name want es n).0 ≡ ok r
      → let n' = (drop_entries H J c name want es n).1 in
        Progress wanted old (seen n) (seen n')
        × All (λ e. has_key e.key want ≡ false → seen n' e.key ≡ wanted e.key) es
  unfolding drop_entries
  drop_entries-Settles want [] n r w h = (Progress-refl wanted old (seen n), tt)
  drop_entries-Settles want (e ∷ es) n r w h =
      let first = drop_entry H J c name e.key (has_key e.key want) in
      let (a, good, whole) = bind_ok first (λ _. drop_entries H J c name want es) n r h in
      let n1 = (first n).1 in
      let n' = (drop_entries H J c name want es n1).1 in
      let (p, s) = drop_entry-Settles e.key (has_key e.key want) n a (w e.key) good in
      let (q, t) = drop_entries-Settles want es n1 r w (sym (ap (λ m. m.0) whole) ∙ h) in
      subst
        (λ m.
          Progress wanted old (seen n) (seen m)
          × All (λ e. has_key e.key want ≡ false → seen m e.key ≡ wanted e.key) (e ∷ es))
        (sym (ap (λ m. m.1) whole))
        (Progress-trans wanted old (seen n) (seen n1) (seen n') p q, ((λ b. q.kept e.key (s b)), t))
