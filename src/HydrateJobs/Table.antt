-- ===== src/HydrateJobs/Table.antt =====
-- `HydrateJobs` (src/hydrate_jobs.rs), and what the task of a job (src/stats.rs) does to its entry.
-- Times are nanoseconds; the time of a call, and the new id of `create`, are arguments. A response is
-- any type: the table only hands it on.
use blobcache.Prelude.{
  ℕ, ◌*◌, ◌/◌, ◌%◌, ◌^◌, List, [], ◌∷◌, Option, none, some, Bytes, Bool, true, ltb, if◌then◌else◌,
  ◌⊎◌, inl, inr,
}
use blobcache.Prelude.Assoc.{get, insert, modify}
use blobcache.Prelude.Word.{u64_mod, saturating_sub}
use blobcache.Cluster.State.{text_discrete}

pub data JobStatus : Type 0 where
  pending running completed failed : JobStatus

abbrev pub completed_ttl : ℕ
completed_ttl = 3600 * 10 ^ 9

module _ (R : Type 0) where
  pub record JobState : Type 0 where
    pub status : JobStatus
    pub started_at : ℕ
    pub finished_at : Option ℕ
    pub result : Option R
    pub error : Option Bytes

  pub record JobView : Type 0 where
    pub job_id : Bytes
    pub shown_status : JobStatus
    pub elapsed_ms : ℕ
    pub shown_result : Option R
    pub shown_error : Option Bytes

  -- `inner`
  abbrev pub Jobs : Type 0
  Jobs = List (Bytes × JobState)

module _ {R : Type 0} where
  -- The test of `gc` on one job.
  abbrev pub retained : ℕ → JobState R → Bool
  retained now s = elim s.finished_at [
    | some t ↦ ltb (saturating_sub now t) completed_ttl
    | none ↦ true
  ]

  unfoldable pub gc : ℕ → Jobs R → Jobs R
  gc now [] = []
  gc now ((id, s) ∷ jobs) =
      let rest = gc now jobs in if retained now s then (id, s) ∷ rest else rest

  abbrev pub fresh_job : ℕ → JobState R
  fresh_job now = record {
    status = pending;
    started_at = now;
    finished_at = none;
    result = none;
    error = none;
  }

  -- `create()`, whose job starts at `now`, before the time that `gc` reads.
  unfoldable pub create : Bytes → ℕ → ℕ → Jobs R → Jobs R
  unfolding gc
  create id now at_gc jobs = gc at_gc (insert text_discrete id (fresh_job now) jobs)

  abbrev pub view_of : Bytes → ℕ → JobState R → JobView R
  view_of id now s =
      let last : ℕ = elim s.finished_at [ none ↦ now | some t ↦ t ] in
      record {
        job_id = id;
        shown_status = s.status;
        elapsed_ms = (saturating_sub last s.started_at / 10 ^ 6) % u64_mod;
        shown_result = s.result;
        shown_error = s.error;
      }

  -- `view(id)`
  unfoldable pub view : Bytes → ℕ → ℕ → Jobs R → Jobs R × Option (JobView R)
  unfolding gc
  view id at_gc now jobs =
      let kept = gc at_gc jobs in
      elim (get text_discrete id kept) [
        | none ↦ (kept, none)
        | some s ↦ (kept, some (view_of id now s))
      ]

  -- The two writes of a job's task.
  abbrev pub begun : JobState R → JobState R
  begun s = record s { status = running }

  abbrev pub ended : ℕ → Bytes ⊎ R → JobState R → JobState R
  ended now outcome s = elim outcome [
    | inr r ↦ record s { finished_at = some now; status = completed; result = some r }
    | inl e ↦ record s { finished_at = some now; status = failed; error = some e }
  ]

  unfoldable pub begin : Bytes → Jobs R → Jobs R
  begin id jobs = modify text_discrete id begun jobs

  unfoldable pub finish : Bytes → ℕ → Bytes ⊎ R → Jobs R → Jobs R
  finish id now outcome jobs = modify text_discrete id (ended now outcome) jobs
