-- ===== src/Jobs/OneAtATime.antt =====
-- The table of tasks under the steps of control and of the runner.
use flyc.Base.{
  ℕ, ◌+◌, ◌≡◌, ◌≢◌, ◌≤◌, refl, sym, ap, subst, ◌∙◌, inl, inr, true, false, List, [], ◌∷◌, Option,
  none, some, if◌then◌else◌, Str, str_eq, str_eq→eq, arith, Bool-cases,
}
use flyc.Jobs.{Job, is_done, World, any_active, known, update}

abbrev pub weight : Job → ℕ
weight j = if is_done j.status then 0 else 1

abbrev pub active : List Job → ℕ
active [] = 0
active (j ∷ js) = weight j + active js

-- The row of a task.
abbrev pub row_of : Str → List Job → Option Job
row_of id [] = none
row_of id (j ∷ js) = let rest = row_of id js in if str_eq j.id id then some j else rest

abbrev pub Distinct : List Job → Type 0
Distinct [] = Unit
Distinct (j ∷ js) = (known j.id js ≡ false) × Distinct js

-- At most one task is active, identifiers are different, and no task that is done has a request
-- left for the runner.
pub record IsOrderly (w : World) : Type 0 where
  pub one : active w.table ≤ 1
  pub distinct : Distinct w.table
  pub cleaned :
      (id : Str) (j : Job)
      → row_of id w.table ≡ some j
      → is_done j.status ≡ true
      → (w.folder id).request ≡ none

pub any_active-none : (js : List Job) → any_active js ≡ false → active js ≡ 0
unfolding any_active
any_active-none [] h = refl
any_active-none (j ∷ js) h = ground (arith, any_active-none js)

known-update :
    (k id : Str) (f : Job → Job) (js : List Job)
    → ((j : Job) → (f j).id ≡ j.id)
    → known k (update id f js) ≡ known k js
unfolding known update
known-update k id f [] h = refl
known-update k id f (j ∷ js) h = elim (Bool-cases (str_eq j.id id)) [
  | inl e ↦ rw (e, h j, known-update k id f js h) refl
  | inr e ↦ rw (e, known-update k id f js h) refl
]

pub Distinct-update :
    (id : Str) (f : Job → Job) (js : List Job)
    → ((j : Job) → (f j).id ≡ j.id)
    → Distinct js
    → Distinct (update id f js)
unfolding update
Distinct-update id f [] h d = tt
Distinct-update id f (j ∷ js) h d = elim (Bool-cases (str_eq j.id id)) [
  | inl e ↦ rw e (rw (h j) (known-update j.id id f js h ∙ d.0), Distinct-update id f js h d.1)
  | inr e ↦ rw e (known-update j.id id f js h ∙ d.0, Distinct-update id f js h d.1)
]

-- An update of a task that the table does not hold changes nothing.
update_unknown :
    (id : Str) (f : Job → Job) (js : List Job) → known id js ≡ false → update id f js ≡ js
unfolding known update
update_unknown id f [] h = refl
update_unknown id f (j ∷ js) h = ground (arith, update_unknown id f js)

pub row_of_unknown : (id : Str) (js : List Job) → known id js ≡ false → row_of id js ≡ none
unfolding known
row_of_unknown id [] h = refl
row_of_unknown id (j ∷ js) h = ground (arith, row_of_unknown id js)

pub head_row :
    (id : Str) (x : Job) (js : List Job) (j : Job)
    → str_eq x.id id ≡ true
    → row_of id (x ∷ js) ≡ some j
    → x ≡ j
head_row id x js j e r =
    let p : ◌≡◌ {A = Option Job} (some x) (some j) =
      sym (ap (λ b. if b then some x else row_of id js) e) ∙ r in
    cc

pub row_of-update :
    (id : Str) (f : Job → Job) (js : List Job) (j : Job)
    → ((x : Job) → (f x).id ≡ x.id)
    → row_of id js ≡ some j
    → row_of id (update id f js) ≡ some (f j)
unfolding update
row_of-update id f [] j h r = cc
row_of-update id f (x ∷ js) j h r = elim (Bool-cases (str_eq x.id id)) [
  | inl e ↦
      let same : str_eq (f x).id id ≡ true = ap (λ k. str_eq k id) (h x) ∙ e in
      let mine : x ≡ j = head_row id x js j e r in
      ap (λ b. row_of id ((if b then f x else x) ∷ update id f js)) e
      ∙ ap (λ b. if b then some (f x) else row_of id (update id f js)) same
      ∙ ap (λ y. some (f y)) mine
  | inr e ↦
      ap (λ b. row_of id ((if b then f x else x) ∷ update id f js)) e
      ∙ ap (λ b. if b then some x else row_of id (update id f js)) e
      ∙ row_of-update id f js j h (sym (ap (λ b. if b then some x else row_of id js) e) ∙ r)
]

pub row_of-other :
    (id k : Str) (f : Job → Job) (js : List Job)
    → ((x : Job) → (f x).id ≡ x.id)
    → str_eq id k ≡ false
    → row_of k (update id f js) ≡ row_of k js
unfolding update
row_of-other id k f [] h n = refl
row_of-other id k f (x ∷ js) h n = elim (Bool-cases (str_eq x.id id)) [
  | inl e ↦
      let same : x.id ≡ id = str_eq→eq x.id id e in
      let off : str_eq x.id k ≡ false = ap (λ z. str_eq z k) same ∙ n in
      rw (e, h x, off) (row_of-other id k f js h n)
  | inr e ↦ rw (e, row_of-other id k f js h n) refl
]

-- An update that makes no finished task active makes no more tasks active.
pub active-update :
    (id : Str) (f : Job → Job) (js : List Job) (j : Job)
    → Distinct js
    → row_of id js ≡ some j
    → weight (f j) ≤ weight j
    → active (update id f js) ≤ active js
unfolding update
active-update id f [] j d r h = omega arith
active-update id f (x ∷ js) j d r h = elim (Bool-cases (str_eq x.id id)) [
  | inl e ↦
      let mine : ◌≡◌ {A = Option Job} (some x) (some j) = rw e at r in
      let gone : known id js ≡ false = subst (λ k. known k js ≡ false) (str_eq→eq x.id id e) d.0 in
      let le : weight (f x) ≤ weight x = grind (arith, mine, h) in
      rw (e, update_unknown id f js gone) (omega (arith, le))
  | inr e ↦ rw e (omega (arith, active-update id f js j d.1 (rw e at r) h))
]

row_of_id : (id : Str) (js : List Job) (j : Job) → row_of id js ≡ some j → str_eq j.id id ≡ true
row_of_id id [] j r = cc
row_of_id id (x ∷ js) j r = elim (Bool-cases (str_eq x.id id)) [
  | inl e ↦ subst (λ y. str_eq y.id id ≡ true) (head_row id x js j e r) e
  | inr e ↦ row_of_id id js j (sym (ap (λ b. if b then some x else row_of id js) e) ∙ r)
]

str_eq_differs : (s t : Str) → s ≢ t → str_eq s t ≡ false
str_eq_differs s t n = elim (Bool-cases (str_eq s t)) [
  | inl e ↦ absurd (n (str_eq→eq s t e))
  | inr e ↦ e
]

-- The rows of a task that is done and of one that is not have different identifiers.
pub apart :
    (id k : Str) (js : List Job) (j d : Job)
    → row_of id js ≡ some j
    → row_of k js ≡ some d
    → is_done j.status ≡ false
    → is_done d.status ≡ true
    → str_eq id k ≡ false
apart id k js j d r r' a b = str_eq_differs id k (λ e. cc)
