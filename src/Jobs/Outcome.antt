-- ===== src/Jobs/Outcome.antt =====
-- What a Submit leaves in the table and in the directory, on each of its ends:
-- control/internal/jobs/jobs.go, Submit and write.
use flyc.Base.{
  ℕ, ◌≡◌, refl, ap, ◌∙◌, ◌⊎◌, inl, inr, true, false, ◌&&◌, ◌||◌, List, [], ◌∷◌, none, some,
  if◌then◌else◌, Str, str_eq, str_eq_refl, arith, Bool-cases,
}
use flyc.Jobs.{
  Job, Request, World, Folder, put_folder, any_active, known, delete, find, shown, get, write,
  new_job, submit, deposit, SubmitLuck, Submitted, accepted, refused, busy, db_error, not_deposited,
  not_found,
}
use flyc.Jobs.Refresh.{other_folder, written_folder}

module _ (l : SubmitLuck) (id kind : Str) (req : Request) (by : Str) (now : ℕ) (w : World) where
  abbrev row : Job
  row = new_job id kind req by now

  -- The queue was free for the row.
  abbrev Free : Type 0
  Free = (any_active w.table ≡ false) × (known id w.table ≡ false)

  abbrev pub Ends : Submitted × World → Type 0
  Ends (accepted j, v) =
      (j ≡ shown row) × (v.table ≡ row ∷ w.table) × ((v.folder id).request ≡ some req) × Free
  Ends (refused busy, v) = (v ≡ w) × ((any_active w.table || known id w.table) ≡ true)
  Ends (refused db_error, v) =
      (v ≡ w)
      ⊎ ((l.read_ok ≡ false)
          × (v.table ≡ row ∷ w.table)
          × ((v.folder id).request ≡ some req)
          × Free)
  Ends (refused not_deposited, v) =
      ((v.folder id).request ≡ (w.folder id).request)
      × Free
      × (((l.delete_ok ≡ true) × (v.table ≡ w.table))
          ⊎ ((l.delete_ok ≡ false) × (v.table ≡ row ∷ w.table)))
  Ends (refused not_found, v) = ⊥

  delete_unknown : (js : List Job) → known id js ≡ false → delete id js ≡ js
  unfolding known delete
  delete_unknown [] h = refl
  delete_unknown (j ∷ js) h = ground (arith, delete_unknown js)

  delete_new : known id w.table ≡ false → delete id (row ∷ w.table) ≡ w.table
  unfolding delete
  delete_new h = rw (str_eq_refl id) (delete_unknown w.table h)

  get_new : l.read_ok ≡ true → get l.read_ok id (row ∷ w.table) ≡ accepted (shown row)
  unfolding get find
  get_new h = rw (h, str_eq_refl id) refl

  get_failed : l.read_ok ≡ false → get l.read_ok id (row ∷ w.table) ≡ refused db_error
  unfolding get
  get_failed h = rw h refl

  mine : (f : Folder) → (put_folder id f w).folder id ≡ f
  mine f = written_folder id id f (w.folder id) (str_eq_refl id)

  written-Ends :
      Free
      → (f : Folder) → f.request ≡ some req
      → Ends
          (get l.read_ok id (row ∷ w.table), put_folder id f (record w { table = row ∷ w.table }))
  written-Ends a f h = elim (Bool-cases l.read_ok) [
    | inl e ↦ rw (get_new e) (refl, refl, ap (λ g. g.request) (mine f) ∙ h, a)
    | inr e ↦ rw (get_failed e) (inr (e, refl, ap (λ g. g.request) (mine f) ∙ h, a))
  ]

  unwritten-Ends :
      Free
      → (f : Folder) → f.request ≡ (w.folder id).request
      → let w' = put_folder id f (record w { table = row ∷ w.table }) in
        Ends (
          refused not_deposited,
          if l.delete_ok then record w' { table = delete id w'.table } else w',
        )
  unwritten-Ends k f h = elim (Bool-cases l.delete_ok) [
    | inl e ↦ rw e (ap (λ g. g.request) (mine f) ∙ h, k, inl (refl, delete_new k.1))
    | inr e ↦ rw e (ap (λ g. g.request) (mine f) ∙ h, k, inr (refl, refl))
  ]

  deposit-Ends : Free → Ends (deposit l id req (record w { table = row ∷ w.table }))
  unfolding deposit write
  deposit-Ends a = elim (Bool-cases (l.mkdir_ok && l.write_ok)) [
    | inl e ↦ elim (Bool-cases l.rename_ok) [
      | inl e' ↦
          rw (e, e') (written-Ends a (record (w.folder id) { tmp = none; request = some req }) refl)
      | inr e' ↦ rw (e, e') (unwritten-Ends a (record (w.folder id) { tmp = some req }) refl)
    ]
    | inr e ↦ rw e (unwritten-Ends a (w.folder id) refl)
  ]

  -- Submit ends in one of five ways: a task that is accepted stands in the table as pending, is read
  -- back, and its request is in the directory, and no other task was active; where a task is active, or
  -- holds the identifier, nothing changes; where the request could not be deposited, none is
  -- there, and the row is gone unless its removal failed as well; an error of the database leaves all as
  -- it was, or comes from the last reading, behind the deposit.
  pub submit-Ends : Ends (submit l id kind req by now w)
  unfolding submit
  submit-Ends = elim (Bool-cases l.insert_ok) [
    | inl e ↦ elim (Bool-cases (any_active w.table || known id w.table)) [
      | inl b ↦ rw (e, b) (refl, b)
      | inr b ↦ rw (e, b) (deposit-Ends (ground arith, ground arith))
    ]
    | inr e ↦ rw e (inl refl)
  ]

  write_elsewhere :
      (k : Str) → str_eq id k ≡ false → (f : Folder) → (put_folder id f w).folder k ≡ w.folder k
  write_elsewhere k n f = other_folder id k f (w.folder k) n

  -- The files of the other tasks stay.
  pub submit_elsewhere :
      (k : Str) → str_eq id k ≡ false → (submit l id kind req by now w).1.folder k ≡ w.folder k
  unfolding submit deposit write
  submit_elsewhere k n = elim (Bool-cases l.insert_ok) [
    | inr e ↦ rw e refl
    | inl e ↦ elim (Bool-cases (any_active w.table || known id w.table)) [
      | inl b ↦ rw (e, b) refl
      | inr b ↦ elim (Bool-cases (l.mkdir_ok && l.write_ok)) [
        | inr d ↦ elim (Bool-cases l.delete_ok) [
          | inl z ↦ rw (e, b, d, z) (write_elsewhere k n (w.folder id))
          | inr z ↦ rw (e, b, d, z) (write_elsewhere k n (w.folder id))
        ]
        | inl d ↦ elim (Bool-cases l.rename_ok) [
          | inl z ↦
              rw (e, b, d, z)
                (write_elsewhere k n (record (w.folder id) { tmp = none; request = some req }))
          | inr z ↦ elim (Bool-cases l.delete_ok) [
            | inl y ↦
                rw (e, b, d, z, y) (write_elsewhere k n (record (w.folder id) { tmp = some req }))
            | inr y ↦
                rw (e, b, d, z, y) (write_elsewhere k n (record (w.folder id) { tmp = some req }))
          ]
        ]
      ]
    ]
  ]
