-- ===== src/Datamover/Messages/Twice.antt =====
-- `HandleMsg` of datamover/pkg/drivers/https/migration.go: which messages start a run, and how often.
use multi_cloud.Common.{
  true, Text, text_eq, Option, none, some, ◌≡◌, ◌∙◌, Bool-cases, inl, inr, refl, ap, sym, arith,
}
use multi_cloud.Common.Actions.{
  Result, done, failed, panicked, return, tried, taken, continue, ◌>>=◌,
}
use multi_cloud.Common.Promises.{done-injective}
use multi_cloud.Datamover.Job.{Job, JobCollection}
use multi_cloud.Datamover.RunJob.{RunRequest}
use multi_cloud.Datamover.Messages.{
  pending, status_found, status_of_id, get_job_status, start_pending, handle_request, handle_msg,
}

module _ {W : Type 0} (jobs : JobCollection W) (object_id_hex : Text → Option Text)
    (unmarshal : Text → Option RunRequest) where
  -- The message is a request for a job that the database has as pending.
  abbrev pub IsPending : Text → W → RunRequest → Type 0
  IsPending msg w r =
      (unmarshal msg ≡ some r)
      × (id : Text) × (object_id_hex r.id ≡ some id)
      × (job : Job) × ((jobs.find id w).1 ≡ done job)
      × (text_eq job.status pending ≡ true)

  -- A look-up leaves the world as it is.
  abbrev pub Reads : Type 0
  Reads = (id : Text) (w : W) → (jobs.find id w).0 ≡ w

  found_pending :
      (r : RunRequest) (o : W × Result Job) (w' : W) (r' : RunRequest)
      → continue (start_pending r) (continue (λ found. return (status_found found)) (taken o))
        ≡ (w', done r')
      → (job : Job) × (o.1 ≡ done job) × (text_eq job.status pending ≡ true) × (r ≡ r') × (o.0 ≡ w')
  unfolding start_pending status_found
  found_pending r (w, done job) w' r' h = elim (Bool-cases (text_eq job.status pending)) [
    | inl e ↦ (job, refl, e, done-injective (rw e at h), ap (λ p. p.0) (rw e at h))
    | inr e ↦ ground (arith, h, e)
  ]
  found_pending r (w, failed e) w' r' h = ground (arith, h)
  found_pending r (w, panicked) w' r' h = ground (arith, h)

  started_by_id :
      (r : RunRequest) (o : Option Text) (w w' : W) (r' : RunRequest)
      → Reads
      → (status_of_id jobs object_id_hex unmarshal o >>= start_pending r) w ≡ (w', done r')
      → (id : Text) × (o ≡ some id)
        × (job : Job) × ((jobs.find id w).1 ≡ done job)
        × (text_eq job.status pending ≡ true)
        × (r ≡ r')
        × (w' ≡ w)
  unfolding status_of_id ◌>>=◌ tried
  started_by_id r none w w' r' reads h = ground (arith, h)
  started_by_id r (some id) w w' r' reads h =
      let (job, at_id, is_pending, same, ends) = found_pending r (jobs.find id w) w' r' h in
      (id, refl, job, at_id, is_pending, same, sym ends ∙ reads id w)

  handled :
      (o : Option RunRequest) (w w' : W) (r : RunRequest)
      → Reads
      → handle_request jobs object_id_hex unmarshal o w ≡ (w', done r)
      → (o ≡ some r)
        × (id : Text) × (object_id_hex r.id ≡ some id)
        × (job : Job) × ((jobs.find id w).1 ≡ done job)
        × (text_eq job.status pending ≡ true)
        × (w' ≡ w)
  unfolding handle_request get_job_status
  handled none w w' r reads h = ground (arith, h)
  handled (some q) w w' r reads h =
      let (id, has_id, job, at_id, is_pending, same, ends) =
        started_by_id q (object_id_hex q.id) w w' r reads h in
      (
        ap some same,
        id,
        ap (λ x. object_id_hex x.id) (sym same) ∙ has_id,
        job,
        at_id,
        is_pending,
        ends,
      )

  -- If the look-up of a job leaves the world as it is, then a message starts a run only for a request
  -- whose job the database has as pending, and the handling leaves it pending: the same message starts
  -- the same run once more if it comes again before the first run has written the job.
  pub handle_msg-IsPending :
      (msg : Text) (w w' : W) (r : RunRequest)
      → Reads
      → handle_msg jobs object_id_hex unmarshal msg w ≡ (w', done r)
      → IsPending msg w r
        × IsPending msg w' r
        × (handle_msg jobs object_id_hex unmarshal msg w' ≡ (w', done r))
  unfolding handle_msg
  handle_msg-IsPending msg w w' r reads h =
      let (decoded, id, has_id, job, at_id, is_pending, same) =
        handled (unmarshal msg) w w' r reads h in
      (
        (decoded, id, has_id, job, at_id, is_pending),
        (decoded, id, has_id, job, ap (λ v. (jobs.find id v).1) same ∙ at_id, is_pending),
        ap (λ v. handle_msg jobs object_id_hex unmarshal msg v) same ∙ h,
      )
