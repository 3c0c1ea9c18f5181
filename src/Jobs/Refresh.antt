-- ===== src/Jobs/Refresh.antt =====
-- What a round of refresh leaves: control/internal/jobs/jobs.go, refresh.
use flyc.Base.{
  ℕ, ◌≡◌, ◌≤◌, refl, sym, ap, subst, ◌∙◌, inl, inr, true, false, ◌&&◌, List, [], ◌∷◌, Option, none,
  some, if◌then◌else◌, All, Str, differ_sym, str_eq, str_eq→eq, str_eq_refl, ℤ, pos, negsuc, arith,
  Bool-cases,
}
use flyc.Jobs.{
  Job, is_done, World, Folder, known, update, RefreshLuck, mark_running, mark_finished, claimed,
  finished, refresh_one, refresh_all, is_pending, or_null, status_of_code, put_folder, cleanup,
}
use flyc.Jobs.OneAtATime.{
  weight, row_of, Distinct, IsOrderly, Distinct-update, row_of-update, row_of-other, active-update,
  apart, head_row,
}

-- The worlds before and behind a change of one task that was active.
pub record Changed (id : Str) (w v : World) : Type 0 where
  pub orderly : IsOrderly v
  pub keeps :
      (k : Str) (d : Job)
      → row_of k w.table ≡ some d
      → is_done d.status ≡ true
      → row_of k v.table ≡ some d
  pub others : (k : Str) → str_eq id k ≡ false → row_of k v.table ≡ row_of k w.table
  pub elsewhere : (k : Str) → str_eq id k ≡ false → v.folder k ≡ w.folder k

Changed-refl : (id : Str) (w : World) → IsOrderly w → Changed id w w
Changed-refl id w o = record {
  orderly = o;
  keeps = λ k d r b. r;
  others = λ k n. refl;
  elsewhere = λ k n. refl;
}

Changed-trans : (id : Str) (u v w : World) → Changed id u v → Changed id v w → Changed id u w
Changed-trans id u v w a b = record {
  orderly = b.orderly;
  keeps = λ k d r e. b.keeps k d (a.keeps k d r e) e;
  others = λ k n. b.others k n ∙ a.others k n;
  elsewhere = λ k n. b.elsewhere k n ∙ a.elsewhere k n;
}

weight_le : (j i : Job) → is_done j.status ≡ false → weight i ≤ weight j
weight_le j i a = ground arith

-- What put_folder writes.
pub written_folder :
    (id k : Str) (f g : Folder) → str_eq id k ≡ true → (if str_eq k id then f else g) ≡ f
written_folder id k f g e =
    ap (λ b. if b then f else g) (ap (λ z. str_eq k z) (str_eq→eq id k e) ∙ str_eq_refl k)

pub other_folder :
    (id k : Str) (f g : Folder) → str_eq id k ≡ false → (if str_eq k id then f else g) ≡ g
other_folder id k f g e = ap (λ b. if b then f else g) (differ_sym id k e)

updated_row :
    (id k : Str) (f : Job → Job) (js : List Job) (j d : Job)
    → ((x : Job) → (f x).id ≡ x.id)
    → row_of id js ≡ some j
    → str_eq id k ≡ true
    → row_of k (update id f js) ≡ some d
    → f j ≡ d
updated_row id k f js j d same r e r' =
    let p : ◌≡◌ {A = Option Job} (some (f j)) (some d) =
      sym (row_of-update id f js j same r)
      ∙ ap (λ z. row_of z (update id f js)) (str_eq→eq id k e)
      ∙ r' in
    cc

-- An update of an active task, which has no request left where the update makes it done.
Changed-update :
    (id : Str) (f : Job → Job) (j : Job) (w : World) (folder : Str → Folder)
    → IsOrderly w
    → row_of id w.table ≡ some j
    → is_done j.status ≡ false
    → ((x : Job) → (f x).id ≡ x.id)
    → ((k : Str) → str_eq id k ≡ false → folder k ≡ w.folder k)
    → ((k : Str) → str_eq id k ≡ true → is_done (f j).status ≡ true → (folder k).request ≡ none)
    → Changed id w (record { table = update id f w.table; folder = folder })
Changed-update id f j w folder o r a same off clean = record {
  orderly = record {
    one = omega (arith, active-update id f w.table j o.distinct r (weight_le j (f j) a), o.one);
    distinct = Distinct-update id f w.table same o.distinct;
    cleaned = λ k d r' b. elim (Bool-cases (str_eq id k)) [
      | inl e ↦
          clean k e (ap (λ x. is_done x.status) (updated_row id k f w.table j d same r e r') ∙ b)
      | inr e ↦
          ap (λ x. x.request) (off k e)
          ∙ o.cleaned k d (sym (row_of-other id k f w.table same e) ∙ r') b
    ];
  };
  keeps = λ k d r' b. row_of-other id k f w.table same (apart id k w.table j d r r' a b) ∙ r';
  others = λ k n. row_of-other id k f w.table same n;
  elsewhere = off;
}

-- The rows of the other tasks are as they were read.
rows_keep :
    (j : Job) (js : List Job) (w v : World)
    → Changed j.id w v
    → known j.id js ≡ false
    → All (λ x. row_of x.id w.table ≡ some x) js
    → All (λ x. row_of x.id v.table ≡ some x) js
unfolding known
rows_keep j [] w v c n h = tt
rows_keep j (x ∷ js) w v c n h = elim (Bool-cases (str_eq x.id j.id)) [
  | inl e ↦ absurd (ground arith)
  | inr e ↦ (c.others x.id (differ_sym x.id j.id e) ∙ h.0, rows_keep j js w v c (ground arith) h.1)
]

later :
    (id : Str) (x : Job) (js : List Job) (j : Job)
    → str_eq x.id id ≡ false
    → row_of id (x ∷ js) ≡ some j
    → row_of id js ≡ some j
later id x js j e r = sym (ap (λ b. if b then some x else row_of id js) e) ∙ r

code_done :
    (now : ℕ) (rc : ℤ) (detail : Str) (k : Job)
    → is_done (mark_finished now rc detail k).status ≡ true
unfolding mark_finished status_of_code
code_done now (negsuc n) detail k = refl
code_done now (pos n) detail k = ground arith

module _ (parse : Str → Option (ℤ × Str)) where
  -- The row of the task behind the first statement is active still.
  claimed_row :
      (l : RefreshLuck) (now : ℕ) (j : Job) (w : World)
      → IsOrderly w
      → row_of j.id w.table ≡ some j
      → is_done j.status ≡ false
      → Changed j.id w (claimed parse l now j w)
        × ((i : Job) × (row_of j.id (claimed parse l now j w).table ≡ some i)
            × (is_done i.status ≡ false))
  unfolding claimed
  claimed_row l now j w o r a =
      elim (Bool-cases (is_pending j.status && ((w.folder j.id).claim && l.mark_ok))) [
        | inl e ↦ rw e (
          Changed-update j.id (mark_running now) j w w.folder o r a (λ x. refl) (λ k n. refl)
              (λ k n b. cc),
          (mark_running now j, row_of-update j.id (mark_running now) w.table j (λ x. refl) r, refl),
        )
        | inr e ↦ rw e (Changed-refl j.id w o, (j, r, a))
      ]

  finished-Changed :
      (l : RefreshLuck) (now : ℕ) (j i : Job) (result : Option (ℤ × Str)) (w : World)
      → l.remove_request ≡ true
      → IsOrderly w
      → row_of j.id w.table ≡ some i
      → is_done i.status ≡ false
      → Changed j.id w (finished parse l now j result w)
  unfolding finished cleanup mark_finished
  finished-Changed l now j i none w c o r a = Changed-refl j.id w o
  finished-Changed l now j i (some (rc, detail)) w c o r a = elim (Bool-cases l.finish_ok) [
    | inl e ↦ rw e (
        Changed-update j.id (mark_finished now rc detail) i w
          (λ k. if str_eq k j.id then cleanup l (w.folder j.id) else w.folder k) o r a (λ x. refl)
          (λ k n. other_folder j.id k (cleanup l (w.folder j.id)) (w.folder k) n)
          (λ k m b.
            ap (λ x. x.request) (written_folder j.id k (cleanup l (w.folder j.id)) (w.folder k) m)
            ∙ ap (λ b. if b then none else (w.folder j.id).request) c))
    | inr e ↦ rw e (Changed-refl j.id w o)
  ]

  refresh_one-Changed :
      (l : RefreshLuck) (now : ℕ) (j : Job) (w : World)
      → l.remove_request ≡ true
      → IsOrderly w
      → row_of j.id w.table ≡ some j
      → is_done j.status ≡ false
      → Changed j.id w (refresh_one parse l now j w)
  unfolding refresh_one
  refresh_one-Changed l now j w c o r a =
      let (first, (i, row, active_still)) = claimed_row l now j w o r a in
      let w' = claimed parse l now j w in
      Changed-trans j.id w w' (refresh_one parse l now j w) first (
        finished-Changed l now j i (or_null (w'.folder j.id).result parse) w' c first.orderly row
          active_still)

  claimed_folder :
      (l : RefreshLuck) (now : ℕ) (j : Job) (w : World)
      → (claimed parse l now j w).folder ≡ w.folder
  unfolding claimed
  claimed_folder l now j w =
      elim (Bool-cases (is_pending j.status && ((w.folder j.id).claim && l.mark_ok))) [
        | inl e ↦ rw e refl
        | inr e ↦ rw e refl
      ]

  refresh_one-finishes :
      (l : RefreshLuck) (now : ℕ) (j : Job) (rc : ℤ) (detail : Str) (w : World)
      → l.finish_ok ≡ true
      → IsOrderly w
      → row_of j.id w.table ≡ some j
      → is_done j.status ≡ false
      → or_null (w.folder j.id).result parse ≡ some (rc, detail)
      → (i : Job) × (row_of j.id (refresh_one parse l now j w).table
          ≡ some (mark_finished now rc detail i))
  unfolding refresh_one finished
  refresh_one-finishes l now j rc detail w ok o r a res =
      let (first, (i, row, active_still)) = claimed_row l now j w o r a in
      let w' = claimed parse l now j w in
      let read : or_null (w'.folder j.id).result parse ≡ some (rc, detail) =
        ap (λ f. or_null (f j.id).result parse) (claimed_folder l now j w) ∙ res in
      (
        i,
        ap (λ o. row_of j.id (finished parse l now j o w').table) read
            ∙ ap
                (λ b.
                  row_of j.id
                    (if b
                      then put_folder j.id (cleanup l (w'.folder j.id))
                          (record w' { table = update j.id (mark_finished now rc detail) w'.table })
                      else w').table)
                ok
            ∙ row_of-update j.id (mark_finished now rc detail) w'.table i (λ x. refl) row,
      )

  -- A round over the rows that were read, each of which the table holds.
  pub refresh_all-lem :
      (luck : Str → RefreshLuck) (now : ℕ) (js : List Job) (w : World)
      → ((id : Str) → (luck id).remove_request ≡ true)
      → Distinct js
      → All (λ x. row_of x.id w.table ≡ some x) js
      → IsOrderly w
      → IsOrderly (refresh_all parse luck now js w)
        × ((k : Str) (d : Job)
            → row_of k w.table ≡ some d
            → is_done d.status ≡ true
            → row_of k (refresh_all parse luck now js w).table ≡ some d)
  unfolding refresh_all
  refresh_all-lem luck now [] w c d rows o = (o, λ k d r b. r)
  refresh_all-lem luck now (j ∷ js) w c d rows o = elim (Bool-cases (is_done j.status)) [
    | inl e ↦ rw e (refresh_all-lem luck now js w c d.1 rows.1 o)
    | inr e ↦
        let w' = refresh_one parse (luck j.id) now j w in
        let step = refresh_one-Changed (luck j.id) now j w (c j.id) o rows.0 e in
        let rest =
          refresh_all-lem luck now js w' c d.1 (rows_keep j js w w' step d.0 rows.1) step.orderly in
        rw e (rest.0, λ k d r b. rest.1 k d (step.keeps k d r b) b)
  ]

  pub refresh_all-finishes :
      (luck : Str → RefreshLuck) (now : ℕ) (js : List Job) (w : World) (i : Job) (rc : ℤ)
      (detail : Str)
      → ((id : Str) → (luck id).remove_request ≡ true)
      → Distinct js
      → All (λ x. row_of x.id w.table ≡ some x) js
      → IsOrderly w
      → row_of i.id js ≡ some i
      → row_of i.id w.table ≡ some i
      → is_done i.status ≡ false
      → (luck i.id).finish_ok ≡ true
      → or_null (w.folder i.id).result parse ≡ some (rc, detail)
      → (k : Job) × (row_of i.id (refresh_all parse luck now js w).table
          ≡ some (mark_finished now rc detail k))
  unfolding refresh_all
  refresh_all-finishes luck now [] w i rc detail c d rows o m r a ok res = absurd cc
  refresh_all-finishes luck now (j ∷ js) w i rc detail c d rows o m r a ok res =
      elim (Bool-cases (str_eq j.id i.id)) [
        | inl e ↦
            let same : j ≡ i = head_row i.id j js i e m in
            let a' : is_done j.status ≡ false = ap (λ x. is_done x.status) same ∙ a in
            let ok' = subst (λ x. (luck x.id).finish_ok ≡ true) (sym same) ok in
            let res' =
              subst (λ x. or_null (w.folder x.id).result parse ≡ some (rc, detail)) (sym same)
                res in
            let w' = refresh_one parse (luck j.id) now j w in
            let step = refresh_one-Changed (luck j.id) now j w (c j.id) o rows.0 a' in
            let (k, row) =
              refresh_one-finishes (luck j.id) now j rc detail w ok' o rows.0 a' res' in
            let rest =
              refresh_all-lem luck now js w' c d.1 (rows_keep j js w w' step d.0 rows.1)
                step.orderly in
            subst
              (λ x.
                (k : Job) × (row_of x.id (refresh_all parse luck now (j ∷ js) w).table
                  ≡ some (mark_finished now rc detail k)))
              same
              (rw a'
                (k, rest.1 j.id (mark_finished now rc detail k) row (code_done now rc detail k)))
        | inr e ↦ elim (Bool-cases (is_done j.status)) [
          | inl b ↦ rw b (
              refresh_all-finishes luck now js w i rc detail c d.1 rows.1 o (later i.id j js i e m)
                r a ok res)
          | inr b ↦
              let w' = refresh_one parse (luck j.id) now j w in
              let step = refresh_one-Changed (luck j.id) now j w (c j.id) o rows.0 b in
              rw b (
                refresh_all-finishes luck now js w' i rc detail c d.1
                  (rows_keep j js w w' step d.0 rows.1) step.orderly (later i.id j js i e m)
                  (step.others i.id e ∙ r) a ok
                  (ap (λ f. or_null f.result parse) (step.elsewhere i.id e) ∙ res))
        ]
      ]
