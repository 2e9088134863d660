-- ===== src/HydrateJobs/Tests.antt =====
-- The theorems on src/hydrate_jobs.rs at concrete inputs, and a run of the code.
use blobcache.Prelude.{ℕ, ◌≡◌, refl, [], ◌∷◌, some, none, Bytes, inr, ◌^◌, ◌*◌, ◌+◌, ℕ_discrete}
use blobcache.Prelude.Assoc.{get, insert, remove, modify}
use blobcache.Cluster.State.{text_discrete}
use blobcache.HydrateJobs.Table.{completed, Jobs, gc, create, begin, finish, view, fresh_job, begun}
use blobcache.HydrateJobs.Lives
use blobcache.HydrateJobs.Lives.{IsTable, survives, IsViewOf, here, next, creates, begins, finishes}

program : Unit {0}
unfolding text_discrete ℕ_discrete get insert remove modify gc create begin finish view
program = tt

abbrev id : Bytes
id = b'j' ∷ []

abbrev one : Jobs ℕ
one = create id (5 * 10 ^ 6) (5 * 10 ^ 6) []

abbrev done : Jobs ℕ
done = finish id (12 * 10 ^ 6) (inr 42) (begin id one)

shown :
    (view id (13 * 10 ^ 6) (14 * 10 ^ 6) done).1
    ≡ some (record {
      job_id = id;
      shown_status = completed;
      elapsed_ms = 7;
      shown_result = some 42;
      shown_error = none;
    })
unfolding program
shown = refl

gone : (view id (12 * 10 ^ 6 + 3600 * 10 ^ 9) 0 done).1 ≡ none
unfolding program
gone = refl

one_job : get text_discrete id one ≡ some (fresh_job (5 * 10 ^ 6))
unfolding program
one_job = refl

running_job : get text_discrete id (begin id one) ≡ some (begun (fresh_job (5 * 10 ^ 6)))
unfolding program
running_job = refl

Reach-IsTable_example : IsTable done
Reach-IsTable_example = Lives.Reach-IsTable (
    next
      (next (next here (creates id (5 * 10 ^ 6) (5 * 10 ^ 6)))
        (begins id (fresh_job (5 * 10 ^ 6)) one_job refl))
      (finishes id (12 * 10 ^ 6) (inr 42) (begun (fresh_job (5 * 10 ^ 6))) running_job refl))

-- The job took seven milliseconds, and its view is shown.
shown_done :
    (view id (13 * 10 ^ 6) (14 * 10 ^ 6) done).1
    ≡ some (record {
      job_id = id;
      shown_status = completed;
      elapsed_ms = 7;
      shown_result = some 42;
      shown_error = none;
    })
unfolding program
shown_done = refl

view_lem_example :
    IsViewOf id
      (14 * 10 ^ 6)
      (survives (13 * 10 ^ 6) (get text_discrete id done))
      (view id (13 * 10 ^ 6) (14 * 10 ^ 6) done).1
    × (get text_discrete id (view id (13 * 10 ^ 6) (14 * 10 ^ 6) done).0
        ≡ survives (13 * 10 ^ 6) (get text_discrete id done))
view_lem_example =
    Lives.view_lem id id (13 * 10 ^ 6) (14 * 10 ^ 6) done Reach-IsTable_example.distinct
