-- ===== src/Jobs/Invariant.antt =====
-- The steps of control (control/internal/jobs/jobs.go) and of the runner (runner/run.py), in any
-- order.
use flyc.Base.{
  ℕ, ◌≡◌, ◌≢◌, ◌≤◌, ◌⊎◌, refl, sym, ap, subst, ◌∙◌, inl, inr, Bool, true, false, List, [], ◌∷◌,
  Option, none, some, if◌then◌else◌, All, Str, str_eq, str_eq_refl, str_eq→eq, differ_sym, ℤ, pos,
  negsuc, ◌==◌, arith, Bool-cases,
}
use flyc.Jobs.{
  Job, JobStatus, succeeded, interrupted, failed, is_done, World, Folder, put_folder, any_active,
  known, new_job, submit, refresh, RefreshLuck, Request, or_null, SubmitLuck, Submitted, accepted,
  refused, busy, db_error, not_deposited, not_found, mark_finished, status_of_code,
}
use flyc.Jobs.OneAtATime.{active, row_of, Distinct, IsOrderly, any_active-none, row_of_unknown}
use flyc.Jobs.Protocol.{
  Step, Reach, submits, refreshes, claims, logs, results, here, next, with_claim, with_log,
  with_result,
}
use flyc.Jobs.Outcome.{Ends, submit-Ends, submit_elsewhere}
use flyc.Jobs.Refresh.{refresh_all-lem, refresh_all-finishes, other_folder, written_folder}

-- Behind a step: the invariant, and the rows of the tasks that were done.
pub record Preserved (w v : World) : Type 0 where
  pub orderly : IsOrderly v
  pub keeps :
      (k : Str) (d : Job)
      → row_of k w.table ≡ some d
      → is_done d.status ≡ true
      → row_of k v.table ≡ some d

unchanged-Preserved : (w : World) → IsOrderly w → Preserved w w
unchanged-Preserved w o = record { orderly = o; keeps = λ k d r b. r }

-- A task that the table does not hold has no row, and a new task is active.
unheld :
    (id k : Str) (js : List Job) (d : Job)
    → known id js ≡ false
    → str_eq id k ≡ true
    → row_of k js ≡ some d
    → ⊥
unheld id k js d u e r =
    let p : row_of id js ≡ none = row_of_unknown id js u in
    let q : row_of id js ≡ some d = ap (λ z. row_of z js) (str_eq→eq id k e) ∙ r in cc

new_active :
    (a : Job) (k : Str) (js : List Job) (d : Job)
    → is_done a.status ≡ false
    → str_eq a.id k ≡ true
    → row_of k (a ∷ js) ≡ some d
    → is_done d.status ≡ true
    → ⊥
new_active a k js d n e r b =
    let p : ◌≡◌ {A = Option Job} (some a) (some d) =
      sym (ap (λ z. if z then some a else row_of k js) e) ∙ r in
    cc

-- A change of the directory that leaves the requests.
folder-Preserved :
    (w : World) (id : Str) (f : Folder)
    → f.request ≡ (w.folder id).request
    → IsOrderly w
    → Preserved w (put_folder id f w)
folder-Preserved w id f h o = record {
  orderly = record {
    one = o.one;
    distinct = o.distinct;
    cleaned = λ k d r b. elim (Bool-cases (str_eq id k)) [
      | inl e ↦
          ap (λ g. g.request) (written_folder id k f (w.folder k) e)
          ∙ h
          ∙ ap (λ z. (w.folder z).request) (str_eq→eq id k e)
          ∙ o.cleaned k d r b
      | inr e ↦ ap (λ g. g.request) (other_folder id k f (w.folder k) e) ∙ o.cleaned k d r b
    ];
  };
  keeps = λ k d r b. r;
}

-- The rows of a table whose identifiers are different.
row_behind :
    (a : Job) (js ys : List Job)
    → known a.id ys ≡ false
    → All (λ x. row_of x.id js ≡ some x) ys
    → All (λ x. row_of x.id (a ∷ js) ≡ some x) ys
unfolding known
row_behind a js [] h r = tt
row_behind a js (y ∷ ys) h r = elim (Bool-cases (str_eq y.id a.id)) [
  | inl e ↦ absurd (ground arith)
  | inr e ↦ (
    ap (λ b. if b then some a else row_of y.id js) (differ_sym y.id a.id e) ∙ r.0,
    row_behind a js ys (ground arith) r.1,
  )
]

rows_of_self : (js : List Job) → Distinct js → All (λ x. row_of x.id js ≡ some x) js
rows_of_self [] d = tt
rows_of_self (a ∷ js) d = (
  ap (λ b. if b then some a else row_of a.id js) (str_eq_refl a.id),
  row_behind a js js d.0 (rows_of_self js d.1),
)

-- A table that is left as it was, under a directory that differs at a task that it does not hold.
same_table-Preserved :
    (id : Str) (w v : World)
    → IsOrderly w
    → ((k : Str) → str_eq id k ≡ false → v.folder k ≡ w.folder k)
    → known id w.table ≡ false
    → v.table ≡ w.table
    → Preserved w v
same_table-Preserved id w v o off u t = record {
  orderly = record {
    one = subst (λ js. active js ≤ 1) (sym t) o.one;
    distinct = subst Distinct (sym t) o.distinct;
    cleaned = λ k d r b. elim (Bool-cases (str_eq id k)) [
      | inl e ↦ absurd (unheld id k w.table d u e (ap (row_of k) (sym t) ∙ r))
      | inr e ↦ ap (λ g. g.request) (off k e) ∙ o.cleaned k d (ap (row_of k) (sym t) ∙ r) b
    ];
  };
  keeps = λ k d r b. ap (row_of k) t ∙ r;
}

-- A new row.
grown-Preserved :
    (id kind : Str) (req : Request) (by : Str) (now : ℕ) (w v : World)
    → IsOrderly w
    → ((k : Str) → str_eq id k ≡ false → v.folder k ≡ w.folder k)
    → any_active w.table ≡ false
    → known id w.table ≡ false
    → v.table ≡ new_job id kind req by now ∷ w.table
    → Preserved w v
grown-Preserved id kind req by now w v o off a u t = record {
  orderly = record {
    one = subst (λ js. active js ≤ 1) (sym t) (omega (arith, any_active-none w.table a));
    distinct = subst Distinct (sym t) (u, o.distinct);
    cleaned = λ k d r b. elim (Bool-cases (str_eq id k)) [
      | inl e ↦
          absurd (
            new_active (new_job id kind req by now) k w.table d refl e (ap (row_of k) (sym t) ∙ r)
              b)
      | inr e ↦
          ap (λ g. g.request) (off k e)
          ∙ o.cleaned k d
              (sym (ap (λ z. if z then some (new_job id kind req by now) else row_of k w.table) e)
                ∙ ap (row_of k) (sym t)
                ∙ r)
              b
    ];
  };
  keeps = λ k d r b. elim (Bool-cases (str_eq id k)) [
    | inl e ↦ absurd (unheld id k w.table d u e r)
    | inr e ↦
        ap (row_of k) t
        ∙ ap (λ z. if z then some (new_job id kind req by now) else row_of k w.table) e
        ∙ r
  ];
}

submit-Preserved :
    (l : SubmitLuck) (id kind : Str) (req : Request) (by : Str) (now : ℕ) (w : World)
    → IsOrderly w
    → Preserved w (submit l id kind req by now w).1
submit-Preserved l id kind req by now w o =
    by_end (submit l id kind req by now w) (submit-Ends l id kind req by now w)
      (submit_elsewhere l id kind req by now w)
  where
    grown :
        (v : World)
        → ((k : Str) → str_eq id k ≡ false → v.folder k ≡ w.folder k)
        → any_active w.table ≡ false
        → known id w.table ≡ false
        → v.table ≡ new_job id kind req by now ∷ w.table
        → Preserved w v
    grown v = grown-Preserved id kind req by now w v o

    by_end :
        (r : Submitted × World)
        → Ends l id kind req by now w r
        → ((k : Str) → str_eq id k ≡ false → r.1.folder k ≡ w.folder k)
        → Preserved w r.1
    by_end (accepted j, v) (e, t, q, (a, u)) off = grown v off a u t
    by_end (refused busy, v) (e, b) off = subst (Preserved w) (sym e) (unchanged-Preserved w o)
    by_end (refused db_error, v) (inl e) off = subst (Preserved w) (sym e) (unchanged-Preserved w o)
    by_end (refused db_error, v) (inr (e, t, q, (a, u))) off = grown v off a u t
    by_end (refused not_deposited, v) (q, (a, u), inl (e, t)) off =
        same_table-Preserved id w v o off u t
    by_end (refused not_deposited, v) (q, (a, u), inr (e, t)) off = grown v off a u t
    by_end (refused not_found, v) e off = absurd e

refresh-Preserved :
    (parse : Str → Option (ℤ × Str)) (read_ok : Bool) (luck : Str → RefreshLuck) (now : ℕ)
    (w : World)
    → ((id : Str) → (luck id).remove_request ≡ true)
    → IsOrderly w
    → Preserved w (refresh parse read_ok luck now w)
unfolding refresh
refresh-Preserved parse false luck now w c o = unchanged-Preserved w o
refresh-Preserved parse true luck now w c o =
    let round =
      refresh_all-lem parse luck now w.table w c o.distinct (rows_of_self w.table o.distinct) o in
    record { orderly = round.0; keeps = round.1 }

Step-Preserved :
    (parse : Str → Option (ℤ × Str)) (w v : World) → Step parse w v → IsOrderly w → Preserved w v
Step-Preserved parse w v (submits l id kind req by now e) o =
    subst (Preserved w) (sym e) (submit-Preserved l id kind req by now w o)
Step-Preserved parse w v (refreshes ok luck now c e) o =
    subst (Preserved w) (sym e) (refresh-Preserved parse ok luck now w c o)
Step-Preserved parse w v (claims id q r c e) o =
    subst (Preserved w) (sym e) (folder-Preserved w id (with_claim (w.folder id)) refl o)
Step-Preserved parse w v (logs id text e) o =
    subst (Preserved w) (sym e) (folder-Preserved w id (with_log text (w.folder id)) refl o)
Step-Preserved parse w v (results id body c e) o =
    subst (Preserved w) (sym e) (folder-Preserved w id (with_result body (w.folder id)) refl o)

Reach-Preserved :
    (parse : Str → Option (ℤ × Str)) (w v : World) → Reach parse w v → IsOrderly w → Preserved w v
Reach-Preserved parse w v here o = unchanged-Preserved w o
Reach-Preserved parse w v (next {t = t} r s) o =
    let before = Reach-Preserved parse w t r o in
    let step = Step-Preserved parse t v s before.orderly in
    record { orderly = step.orderly; keeps = λ k d r b. step.keeps k d (before.keeps k d r b) b }

-- Whatever control and the runner do, in any order, from an orderly world, where control's
-- removals of requests succeed: at most one task is active, identifiers stay different, and no
-- task that is done has a request left for the runner.
pub Reach-IsOrderly :
    (parse : Str → Option (ℤ × Str)) (w v : World) → Reach parse w v → IsOrderly w → IsOrderly v
Reach-IsOrderly parse w v r o = (Reach-Preserved parse w v r o).orderly

-- A task that is done in an orderly world keeps its row, whatever control and the runner do from
-- then on, where control's removals of requests succeed.
pub Reach-keeps :
    (parse : Str → Option (ℤ × Str)) (w v : World) (k : Str) (d : Job)
    → Reach parse w v
    → IsOrderly w
    → row_of k w.table ≡ some d
    → is_done d.status ≡ true
    → row_of k v.table ≡ some d
Reach-keeps parse w v k d r o row b = (Reach-Preserved parse w v r o).keeps k d row b

-- What an exit code of the runner means: 0 is a success, 75 an interruption, any other a failure.
abbrev pub Means : ℤ → JobStatus → Type 0
Means rc s =
    ((rc ≡ pos 0) × (s ≡ succeeded))
    ⊎ ((rc ≡ pos 75) × (s ≡ interrupted))
    ⊎ ((rc ≢ pos 0) × (rc ≢ pos 75) × (s ≡ failed))

status_of_code-Means : (rc : ℤ) → Means rc (status_of_code rc)
unfolding status_of_code
status_of_code-Means (negsuc n) = inr (inr (λ e. cc e, λ e. cc e, refl))
status_of_code-Means (pos n) = elim (Bool-cases (n == 75)) [
  | inl e ↦ inr (inl (ap pos (ground arith), rw e refl))
  | inr e ↦ elim (Bool-cases (n == 0)) [
    | inl z ↦ inl (ap pos (ground arith), rw (e, z) refl)
    | inr z ↦ inr (inr (λ p. off 0 z p, λ p. off 75 e p, rw (e, z) refl))
  ]
]
  where
    off : (k : ℕ) → (n == k) ≡ false → pos n ≡ pos k → ⊥
    off k h p = let q : n ≡ k = cc in ground arith

-- In an orderly world, where every removal of a request succeeds: an active task whose result can
-- be read, and whose row can be updated, is finished by a round of refresh. Its status is that of
-- a success where the exit code is 0, of an interruption where it is 75, of a failure otherwise.
pub refresh-finishes :
    (parse : Str → Option (ℤ × Str)) (luck : Str → RefreshLuck) (now : ℕ) (w : World)
    → IsOrderly w
    → ((id : Str) → (luck id).remove_request ≡ true)
    → (j : Job) (rc : ℤ) (detail : Str) → row_of j.id w.table ≡ some j
    → is_done j.status ≡ false
    → (luck j.id).finish_ok ≡ true
    → or_null (w.folder j.id).result parse ≡ some (rc, detail)
    → (i : Job) × (row_of j.id (refresh parse true luck now w).table ≡ some i)
      × Means rc i.status
      × (i.exit_code ≡ some rc)
      × (i.finished_at ≡ some now)
unfolding refresh mark_finished
refresh-finishes parse luck now w o c j rc detail r a ok res =
    let (i, e) =
      refresh_all-finishes parse luck now w.table w j rc detail c o.distinct
        (rows_of_self w.table o.distinct) o r r a ok res in
    (mark_finished now rc detail i, e, status_of_code-Means rc, refl, refl)
