-- ===== src/HydrateJobs/Lives.antt =====
-- A job of src/hydrate_jobs.rs is shown while it runs and for an hour after, as it stands.
use blobcache.Prelude.{
  ℕ, ◌-◌, ◌*◌, ◌/◌, ◌%◌, ◌^◌, ltb, ◌≡◌, refl, ap, sym, ◌∙◌, [], ◌∷◌, Option, none, some, Bytes,
  if◌then◌else◌, ◌⊎◌, inl, inr, arith, subst, Option-cases,
}
use blobcache.Prelude.Assoc.{
  get, insert, modify, Distinct, get-insert, get-modify, insert-Distinct, modify-Distinct,
}
use blobcache.Cluster.State.{text_discrete}
use blobcache.HydrateJobs.Table.{
  pending, running, completed, failed, JobState, JobView, Jobs, gc, create, fresh_job, view,
  view_of, begin, begun, finish, ended,
}

module _ {R : Type 0} where
  -- A job as a garbage collection at a time, in nanoseconds, leaves it: it goes an hour after its end.
  abbrev pub survives : ℕ → Option (JobState R) → Option (JobState R)
  survives now o = elim o [
    | none ↦ none
    | some s ↦ elim s.finished_at [
      | none ↦ some s
      | some t ↦ if ltb (now - t) (60 * 60 * 10 ^ 9) then some s else none
    ]
  ]

  -- What a client is shown of a job: its fields, and the milliseconds from its start to its end, or to
  -- the call while it has none, as a `u64`.
  pub record IsShown (id : Bytes) (now : ℕ) (s : JobState R) (v : JobView R) : Type 0 where
    pub same_id : v.job_id ≡ id
    pub same_status : v.shown_status ≡ s.status
    pub same_result : v.shown_result ≡ s.result
    pub same_error : v.shown_error ≡ s.error
    pub took :
        v.elapsed_ms
        ≡ (((elim s.finished_at [ none ↦ now | some t ↦ t ]) - s.started_at) / 1000000) % 2 ^ 64

  -- What an answer for a job has to be: the job's view if the table has it, or else nothing.
  abbrev pub IsViewOf : Bytes → ℕ → Option (JobState R) → Option (JobView R) → Type 0
  IsViewOf id now o r = elim o [
    | none ↦ r ≡ none
    | some s ↦ (v : JobView R) × (r ≡ some v) × IsShown id now s v
  ]

  get-gc :
      (now : ℕ) (q : Bytes) (jobs : Jobs R)
      → Distinct text_discrete jobs
      → get text_discrete q (gc now jobs) ≡ survives now (get text_discrete q jobs)
  unfolding get gc
  get-gc now q [] d = refl
  get-gc now q ((id, s) ∷ jobs) (fresh, d) = ground (arith, get-gc now q jobs d)

  gc-Distinct :
      (now : ℕ) (jobs : Jobs R) → Distinct text_discrete jobs → Distinct text_discrete (gc now jobs)
  unfolding gc
  gc-Distinct now [] d = tt
  gc-Distinct now ((id, s) ∷ jobs) (fresh, d) =
      ground (arith, gc-Distinct now jobs d, get-gc now id jobs d)

  -- The fields of a job fit its status.
  abbrev pub IsJob : JobState R → Type 0
  IsJob s = elim s.status [
    | pending ↦ (s.finished_at ≡ none) × (s.result ≡ none) × (s.error ≡ none)
    | running ↦ (s.finished_at ≡ none) × (s.result ≡ none) × (s.error ≡ none)
    | completed ↦
        ((t : ℕ) × (s.finished_at ≡ some t)) × ((r : R) × (s.result ≡ some r)) × (s.error ≡ none)
    | failed ↦
        ((t : ℕ) × (s.finished_at ≡ some t))
        × (s.result ≡ none)
        × ((e : Bytes) × (s.error ≡ some e))
  ]

  pub record IsTable (jobs : Jobs R) : Type 0 where
    pub distinct : Distinct text_discrete jobs
    pub fitting : (id : Bytes) (s : JobState R) → get text_discrete id jobs ≡ some s → IsJob s

  -- A job's task runs once: it begins a job that is pending, and finishes it when it runs.
  pub data Step : Jobs R → Jobs R → Type 0 where
    creates : {jobs : Jobs R} (id : Bytes) (now at_gc : ℕ) → Step jobs (create id now at_gc jobs)
    views : {jobs : Jobs R} (id : Bytes) (at_gc now : ℕ) → Step jobs (view id at_gc now jobs).0
    begins :
        {jobs : Jobs R} (id : Bytes) (s : JobState R)
        → get text_discrete id jobs ≡ some s
        → s.status ≡ pending
        → Step jobs (begin id jobs)
    finishes :
        {jobs : Jobs R} (id : Bytes) (now : ℕ) (outcome : Bytes ⊎ R) (s : JobState R)
        → get text_discrete id jobs ≡ some s
        → s.status ≡ running
        → Step jobs (finish id now outcome jobs)

  pub data Reach : Jobs R → Jobs R → Type 0 where
    here : {jobs : Jobs R} → Reach jobs jobs
    next : {a b c : Jobs R} → Reach a b → Step b c → Reach a c

  gc-IsTable : (now : ℕ) (jobs : Jobs R) → IsTable jobs → IsTable (gc now jobs)
  gc-IsTable now jobs v = record {
    distinct = gc-Distinct now jobs v.distinct;
    fitting = λ id s h.
        let e = sym (get-gc now id jobs v.distinct) ∙ h in
        elim (Option-cases (get text_discrete id jobs)) [
          | inl missing ↦ ground arith
          | inr (t, found) ↦ v.fitting id s (ground arith)
        ];
  }

  begun-IsJob : (s : JobState R) → s.status ≡ pending → IsJob s → IsJob (begun s)
  begun-IsJob s e j = rw e at j

  ended-IsJob :
      (now : ℕ) (outcome : Bytes ⊎ R) (s : JobState R)
      → s.status ≡ running
      → IsJob s
      → IsJob (ended now outcome s)
  ended-IsJob now (inl text) s e j =
      let (unfinished, no_result, no_error) = rw e at j in ((now, refl), no_result, (text, refl))
  ended-IsJob now (inr r) s e j =
      let (unfinished, no_result, no_error) = rw e at j in ((now, refl), (r, refl), no_error)

  modify-IsTable :
      (id : Bytes) (f : JobState R → JobState R) (s : JobState R) (jobs : Jobs R)
      → get text_discrete id jobs ≡ some s
      → IsJob (f s)
      → IsTable jobs
      → IsTable (modify text_discrete id f jobs)
  modify-IsTable id f s jobs found j v = record {
    distinct = modify-Distinct text_discrete id f jobs v.distinct;
    fitting = λ q t h.
        let e = sym (get-modify text_discrete q id f jobs) ∙ h in
        elim (text_discrete id q) [
          | yes same ↦
              let at_q = ap (λ i. get text_discrete i jobs) (sym same) ∙ found in
              let t_is : f s ≡ t = ground arith in subst IsJob t_is j
          | no other ↦ v.fitting q t (ground arith)
        ];
  }

  insert-IsTable :
      (id : Bytes) (now : ℕ) (jobs : Jobs R)
      → IsTable jobs
      → IsTable (insert text_discrete id (fresh_job now) jobs)
  insert-IsTable id now jobs v = record {
    distinct = insert-Distinct text_discrete id (fresh_job now) jobs v.distinct;
    fitting = λ q t h.
        let e = sym (get-insert text_discrete q id (fresh_job now) jobs) ∙ h in
        elim (text_discrete id q) [
          | yes same ↦
              let t_is : fresh_job now ≡ t = ground arith in subst IsJob t_is (refl, refl, refl)
          | no other ↦ v.fitting q t (ground arith)
        ];
  }

  view-table :
      (id : Bytes) (at_gc now : ℕ) (jobs : Jobs R) → (view id at_gc now jobs).0 ≡ gc at_gc jobs
  unfolding view
  view-table id at_gc now jobs = ground arith

  Step-IsTable : {a b : Jobs R} → Step a b → IsTable a → IsTable b
  unfolding create begin finish
  Step-IsTable (creates {jobs} id now at_gc) v =
      gc-IsTable at_gc (insert text_discrete id (fresh_job now) jobs) (insert-IsTable id now jobs v)
  Step-IsTable (views {jobs} id at_gc now) v =
      subst IsTable (sym (view-table id at_gc now jobs)) (gc-IsTable at_gc jobs v)
  Step-IsTable (begins {jobs} id s found e) v =
      modify-IsTable id begun s jobs found (begun-IsJob s e (v.fitting id s found)) v
  Step-IsTable (finishes {jobs} id now outcome s found e) v =
      modify-IsTable id (ended now outcome) s jobs found
        (ended-IsJob now outcome s e (v.fitting id s found)) v

  -- In a table that calls and tasks have made in any order, no id has two jobs; and a job has an end
  -- if and only if it completed or failed, a result if and only if it completed, and an error if and
  -- only if it failed.
  pub Reach-IsTable : {jobs : Jobs R} → Reach [] jobs → IsTable jobs
  unfolding get
  Reach-IsTable here = record { distinct = tt; fitting = λ id s h. ground arith }
  Reach-IsTable (next r s) = Step-IsTable s (Reach-IsTable r)

  view_of-IsShown : (id : Bytes) (now : ℕ) (s : JobState R) → IsShown id now s (view_of id now s)
  view_of-IsShown id now s = record {
    same_id = refl;
    same_status = refl;
    same_result = refl;
    same_error = refl;
    took = refl;
  }

  view-IsViewOf :
      (id : Bytes) (at_gc now : ℕ) (jobs : Jobs R)
      → IsViewOf id now (get text_discrete id (gc at_gc jobs)) (view id at_gc now jobs).1
  unfolding view
  view-IsViewOf id at_gc now jobs = elim (Option-cases (get text_discrete id (gc at_gc jobs))) [
    | inl gone ↦ rw (gone, view) refl
    | inr (s, found) ↦ rw (found, view) (view_of id now s, refl, view_of-IsShown id now s)
  ]

  -- In a table where no id has two jobs, a client is shown a job exactly when it is there and has no
  -- end, or one less than 3600 seconds before the collection that the call makes: its id, status,
  -- result and error as they stand, and the milliseconds from its start to its end, or to the call if
  -- it has none, as a `u64`. The call leaves in the table the jobs with no end or such an end, as they
  -- were, and no others.
  pub view_lem :
      (id q : Bytes) (at_gc now : ℕ) (jobs : Jobs R)
      → Distinct text_discrete jobs
      → IsViewOf id now (survives at_gc (get text_discrete id jobs)) (view id at_gc now jobs).1
        × (get text_discrete q (view id at_gc now jobs).0
            ≡ survives at_gc (get text_discrete q jobs))
  view_lem id q at_gc now jobs d = (
    subst (λ o. IsViewOf id now o (view id at_gc now jobs).1) (get-gc at_gc id jobs d)
        (view-IsViewOf id at_gc now jobs),
    ap (get text_discrete q) (view-table id at_gc now jobs) ∙ get-gc at_gc q jobs d,
  )
