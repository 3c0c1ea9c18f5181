-- ===== src/Reconcile/Servers.antt =====
-- The servers of a backend in pushEdge of control/internal/reconcile/reconcile.go.
use flyc.Base.{
  ℕ, ◌≡◌, refl, sym, ap, subst, ◌∙◌, ◌⊎◌, inl, inr, true, false, List, [], ◌∷◌, Option, none, some,
  if◌then◌else◌, Str, str_eq, str_eq_refl, str_eq_iff, str_eq→eq, arith, Bool-cases, Option-cases,
}
use flyc.Compile.{Server}
use flyc.Reconcile.{
  Op, create_server, replace_server, delete_server, find_server, drop_server, differs, server_ops,
  server_op, delete_ops, names_of, listed, weight_differs,
}

-- What a write does to the server of a name.
abbrev pub after_op : Op → Str → Option Server → Option Server
after_op (create_server b s) j x = if str_eq s.name j then some s else x
after_op (replace_server b s) j x = if str_eq s.name j then some s else x
after_op (delete_server b k) j x = if str_eq k j then none else x
after_op _ j x = x

abbrev pub after_ops : List Op → Str → Option Server → Option Server
after_ops [] j x = x
after_ops (o ∷ os) j x = after_ops os j (after_op o j x)

-- No two servers of one name.
abbrev pub Distinct : List Server → Type 0
Distinct [] = Unit
Distinct (s ∷ ss) = (find_server s.name ss ≡ none) × Distinct ss

deletes :
    (b : Str) (names : List Str) (j : Str) (x : Option Server)
    → after_ops (delete_ops b names) j x ≡ (if listed j names then none else x)
unfolding listed
deletes b [] j x = refl
deletes b (k ∷ ks) j x = ground (arith, deletes b ks j none, deletes b ks j x)

absent : (j : Str) (cur : List Server) → listed j (names_of cur) ≡ false → find_server j cur ≡ none
unfolding listed find_server
absent j [] h = refl
absent j (s ∷ ss) h = ground (arith, absent j ss)

unlisted :
    (j : Str) (cur : List Server) → find_server j cur ≡ none → listed j (names_of cur) ≡ false
unfolding listed find_server
unlisted j [] h = refl
unlisted j (s ∷ ss) h = elim (Option-cases (find_server j ss)) [
  | inl e ↦ ground (arith, unlisted j ss e)
  | inr (t, e) ↦ ground arith
]

find-drop :
    (j k : Str) (cur : List Server)
    → find_server j (drop_server k cur) ≡ (if str_eq k j then none else find_server j cur)
unfolding find_server drop_server
find-drop j k [] = ground arith
find-drop j k (s ∷ ss) =
    ground (arith, find-drop j k ss, str_eq_iff s.name k, str_eq_iff s.name j, str_eq_iff k j)

same_weight : (w : Option ℕ) → weight_differs w w ≡ false
same_weight none = refl
same_weight (some v) = ground arith

find_rest :
    (j : Str) (s : Server) (ss : List Server)
    → find_server j (s ∷ ss) ≡ none
    → (str_eq s.name j ≡ false) × (find_server j ss ≡ none)
unfolding find_server
find_rest j s ss h = elim (Option-cases (find_server j ss)) [
  | inl e ↦ (ground arith, e)
  | inr (t, e) ↦ absurd (ground arith)
]

-- The server of a name after the push, from the desired one and the one that was there.
abbrev pub pushed : Option Server → Option Server → Option Server
pushed none old = none
pushed (some s) none = some s
pushed (some s) (some old) = if differs old s then some s else some old

-- What is there is as desired: its address, its port, and its weight if one is desired.
abbrev pub Meets : Option Server → Option Server → Type 0
Meets none last = last ≡ none
Meets (some s) last =
    (t : Server) × (last ≡ some t)
    × (t.address ≡ s.address)
    × (t.port ≡ s.port)
    × ((s.weight ≡ none) ⊎ (t.weight ≡ s.weight))

weight_kept : (old new : Option ℕ) → weight_differs old new ≡ false → (new ≡ none) ⊎ (old ≡ new)
weight_kept old none h = inl refl
weight_kept none (some w) h = absurd cc
weight_kept (some v) (some w) h = inr (ap some (ground arith))

pushed-Meets : (want old : Option Server) → Meets want (pushed want old)
pushed-Meets none old = refl
pushed-Meets (some s) none = (s, refl, refl, refl, inr refl)
pushed-Meets (some s) (some old) = elim (Bool-cases (differs old s)) [
  | inl e ↦ (s, ap (λ b. if b then some s else some old) e, refl, refl, inr refl)
  | inr e ↦ (
    old,
    ap (λ b. if b then some s else some old) e,
    str_eq→eq old.address s.address (ground arith),
    ground arith,
    weight_kept old.weight s.weight (ground arith),
  )
]

module _ (visit : List Str → List Str)
    (same : (j : Str) (ks : List Str) → listed j (visit ks) ≡ listed j ks) (b : Str) where
  one_op :
      (j : Str) (s : Server) (old : Option Server) (os : List Op) (x : Option Server)
      → str_eq s.name j ≡ false
      → after_ops (server_op b s old os) j x ≡ after_ops os j x
  one_op j s none os x h = ap (λ z. after_ops os j (if z then some s else x)) h
  one_op j s (some old) os x h = elim (Bool-cases (differs old s)) [
    | inl e ↦ rw e (ap (λ z. after_ops os j (if z then some s else x)) h)
    | inr e ↦ rw e refl
  ]

  untouched :
      (j : Str) (ss cur : List Server) (x : Option Server)
      → find_server j ss ≡ none
      → find_server j cur ≡ none
      → after_ops (server_ops visit b ss cur) j x ≡ x
  unfolding server_ops
  untouched j [] cur x h k =
      deletes b (visit (names_of cur)) j x
      ∙ ap (λ z. if z then none else x) (same j (names_of cur) ∙ unlisted j cur k)
  untouched j (s ∷ ss) cur x h k =
      let (ne, rest) = find_rest j s ss h in
      one_op j s (find_server s.name cur) _ x ne
      ∙ untouched j ss (drop_server s.name cur) x rest (find-drop j s.name cur ∙ rw ne k)

  first_op :
      (j : Str) (s : Server) (old : Option Server) (os : List Op)
      → str_eq s.name j ≡ true
      → after_ops (server_op b s old os) j old ≡ after_ops os j (pushed (some s) old)
  first_op j s none os h = ap (λ z. after_ops os j (if z then some s else none)) h
  first_op j s (some old) os h = elim (Bool-cases (differs old s)) [
    | inl e ↦ rw e (ap (λ z. after_ops os j (if z then some s else some old)) h)
    | inr e ↦ rw e refl
  ]

  find_first :
      (j : Str) (s : Server) (ss : List Server)
      → find_server j ss ≡ none
      → find_server j (s ∷ ss) ≡ (if str_eq s.name j then some s else none)
  unfolding find_server
  find_first j s ss h = rw h refl

  find_other :
      (j : Str) (s : Server) (ss : List Server)
      → str_eq s.name j ≡ false
      → find_server j (s ∷ ss) ≡ find_server j ss
  unfolding find_server
  find_other j s ss h = elim (Option-cases (find_server j ss)) [
    | inl e ↦ rw e (rw h refl)
    | inr (t, e) ↦ rw e refl
  ]

  server_ops-pushed :
      (j : Str) (ss cur : List Server)
      → Distinct ss
      → after_ops (server_ops visit b ss cur) j (find_server j cur)
        ≡ pushed (find_server j ss) (find_server j cur)
  unfolding server_ops
  server_ops-pushed j [] cur d = elim (Bool-cases (listed j (names_of cur))) [
    | inl e ↦
        deletes b (visit (names_of cur)) j _
        ∙ rw (same j (names_of cur), e) (unfold find_server in refl)
    | inr e ↦
        deletes b (visit (names_of cur)) j _
        ∙ rw (same j (names_of cur), e) (unfold find_server in absent j cur e)
  ]
  server_ops-pushed j (s ∷ ss) cur d = elim (Bool-cases (str_eq s.name j)) [
    | inl e ↦
        let mine : s.name ≡ j = str_eq→eq s.name j e in
        let gone : find_server j ss ≡ none = subst (λ k. find_server k ss ≡ none) mine d.0 in
        let dropped : find_server j (drop_server s.name cur) ≡ none =
          find-drop j s.name cur ∙ rw e refl in
        let here : find_server j (s ∷ ss) ≡ some s = find_first j s ss gone ∙ rw e refl in
        ap
          (λ (x : Option Server).
            after_ops (server_op b s x (server_ops visit b ss (drop_server s.name cur))) j
              (find_server j cur))
          (ap (λ k. find_server k cur) mine)
        ∙ first_op j s (find_server j cur) _ e
        ∙ untouched j ss (drop_server s.name cur) _ gone dropped
        ∙ ap (λ x. pushed x (find_server j cur)) (sym here)
    | inr e ↦
        let kept : find_server j (drop_server s.name cur) ≡ find_server j cur =
          find-drop j s.name cur ∙ rw e refl in
        one_op j s (find_server s.name cur) _ _ e
        ∙ ap (after_ops (server_ops visit b ss (drop_server s.name cur)) j) (sym kept)
        ∙ server_ops-pushed j ss (drop_server s.name cur) d.1
        ∙ ap (pushed (find_server j ss)) kept
        ∙ ap (λ x. pushed x (find_server j cur)) (sym (find_other j s ss e))
  ]

  -- The writes of the push leave, under each name, nothing where no server is desired, and else the
  -- desired server, or the one that was there where it has the address, the port and, if one is
  -- desired, the weight of the desired one; no two desired servers have one name.
  pub server_ops_reach :
      (j : Str) (ss cur : List Server)
      → Distinct ss
      → let last = after_ops (server_ops visit b ss cur) j (find_server j cur) in
        (last ≡ pushed (find_server j ss) (find_server j cur)) × Meets (find_server j ss) last
  server_ops_reach j ss cur d =
      let e = server_ops-pushed j ss cur d in
      (
        e,
        subst (Meets (find_server j ss)) (sym e)
            (pushed-Meets (find_server j ss) (find_server j cur)),
      )

-- A server whose limit of connections alone differs is not written again.
server_op_ignores_maxconn :
    (b : Str) (s : Server) (m : Option ℕ) (os : List Op)
    → server_op b s (some (record s { maxconn = m })) os ≡ os
server_op_ignores_maxconn b s m os = ground (arith, str_eq_refl s.address, same_weight s.weight)
