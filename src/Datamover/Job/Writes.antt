-- ===== src/Datamover/Job/Writes.antt =====
-- datamover/pkg/db/drivers/mongo/mongo.go, `UpdateJob`, as datamover/pkg/drivers/https/migration.go calls
-- it: what is stored after a write of a job.
use multi_cloud.Common.{ℕ, Text, [], is_empty, ◌≡◌, ◌∙◌, refl, ap, false, Option, none, some}
use multi_cloud.Common.Actions.{Result, done, failed, panicked, ◌>>=◌, or_fail}
use multi_cloud.Datamover.Job.{Job, JobCollection, JobStore, merge_job, update_job_db, save}

-- What the collection of the jobs promises while the database answers: a job that is stored under an id
-- has it, is found, and can be replaced.
pub record JobLaws {W : Type 0} (c : JobCollection W) : Type 0 where
  pub at : W → Text → Option Job
  pub id_law : (w : W) (id : Text) (job : Job) → at w id ≡ some job → job.id ≡ id
  pub find_law : (w : W) (id : Text) (job : Job) → at w id ≡ some job → c.find id w ≡ (w, done job)
  pub update_law :
      (w : W) (id : Text) (old job : Job)
      → at w id ≡ some old
      → job.id ≡ id
      → (w' : W) × (c.update id job w ≡ (w', done tt)) × (at w' id ≡ some job)

abbrev pub answer_of : {W : Type 0} → W × Result (Unit {0}) → W × Option Text
answer_of (w, done u) = (w, none)
answer_of (w, failed e) = (w, some e)
answer_of (w, panicked) = (w, some [])

-- The adapter of the database, over its collection of jobs.
abbrev pub store_of : {W : Type 0} → JobCollection W → (W → ℕ) → (W → Text) → JobStore W
store_of c now stamp = record {
  update = λ j w. answer_of (update_job_db c j w);
  now = now;
  stamp = stamp;
}

module _ {W : Type 0} (c : JobCollection W) (laws : JobLaws c) (id : Text) where
  -- The job is stored with the status.
  abbrev pub HasStatus : Text → W → Type 0
  HasStatus status w = (job : Job) × (laws.at w id ≡ some job) × (job.status ≡ status)

  merge_job-status : (j old : Job) → is_empty j.status ≡ false → (merge_job j old).status ≡ j.status
  unfolding merge_job
  merge_job-status j old given = rw (given) refl

  merge_job-id : (j old : Job) → (merge_job j old).id ≡ old.id
  unfolding merge_job
  merge_job-id j old = refl

  ran-update :
      (j : Job) (w : W) (old : Job)
      → laws.at w id ≡ some old
      → j.id ≡ id
      → (w' : W) × (update_job_db c j w ≡ (w', done tt)) × (laws.at w' id ≡ some (merge_job j old))
  unfolding update_job_db or_fail ◌>>=◌
  ran-update j w old there its_id =
      let (w', ran, after) =
        laws.update_law w id old (merge_job j old) there
          (merge_job-id j old ∙ laws.id_law w id old there) in
      let found = ap (λ i. c.find i w) its_id ∙ laws.find_law w id old there in
      let replaced = ap (λ i. c.update i (merge_job j old) w) (laws.id_law w id old there) ∙ ran in
      (w', rw (found, replaced) refl, after)

  -- A write has no error, and leaves the job with the status of the one that is written.
  pub update-HasStatus :
      (now : W → ℕ) (stamp : W → Text) (j : Job) (w : W) (old : Job)
      → laws.at w id ≡ some old
      → j.id ≡ id
      → is_empty j.status ≡ false
      → (((store_of c now stamp).update j w).1 ≡ none)
        × HasStatus j.status (save (store_of c now stamp) j w)
  update-HasStatus now stamp j w old there its_id given =
      let (w', ran, after) = ran-update j w old there its_id in
      (
        ap (λ o. (answer_of o).1) ran,
        (
          merge_job j old,
          ap (λ o. laws.at (answer_of o).0 id) ran ∙ after,
          merge_job-status j old given,
        ),
      )
