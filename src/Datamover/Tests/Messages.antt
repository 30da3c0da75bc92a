-- ===== src/Datamover/Tests/Messages.antt =====
-- datamover: a message that comes twice, and one of another topic.
use multi_cloud.Common.{◌≡◌, refl, Text, codes, [], ◌∷◌, Option, some}
use multi_cloud.Common.Actions.{done, tried, ◌>>=◌}
use multi_cloud.Datamover.Job.{Job, JobCollection}
use multi_cloud.Datamover.RunJob.{RunRequest}
use multi_cloud.Datamover.Messages.{
  Message, pending, handle_msg, loop_consume, get_job_status, status_of_id, start_pending, consume,
}
use multi_cloud.Datamover.Messages.Twice.{IsPending, handle_msg-IsPending}
use multi_cloud.Datamover.Tests.Runs.{request}

-- The database has one job, which no one writes.
abbrev one_job : Job
one_job = record {
  id = codes "j1";
  start_time = 0;
  end_time = 0;
  total_capacity = 0;
  total_count = 0;
  passed_count = 0;
  passed_capacity = 0;
  status = pending;
  progress = 0;
  step_desc = [];
}

abbrev jobs : JobCollection (Unit {0})
jobs = record { find = λ id w. (w, done one_job); update = λ id job w. (w, done tt) }

abbrev plain_request : RunRequest
plain_request = request []

abbrev decode : Text → Option RunRequest
decode msg = some plain_request

handles : handle_msg jobs some decode (codes "{}") tt ≡ (tt, done plain_request)
unfolding handle_msg get_job_status status_of_id start_pending ◌>>=◌ tried
handles = refl

starts_again :
    IsPending jobs some decode (codes "{}") tt plain_request
    × IsPending jobs some decode (codes "{}") tt plain_request
    × (handle_msg jobs some decode (codes "{}") tt ≡ (tt, done plain_request))
starts_again =
    handle_msg-IsPending jobs some decode (codes "{}") tt tt plain_request (λ id w. refl) handles

abbrev to_migrate : Message
to_migrate = record { topic = codes "migration"; value = codes "{}" }

starts_twice :
    loop_consume jobs some decode
      (to_migrate ∷ (record { topic = codes "other"; value = [] }) ∷ to_migrate ∷ [])
      tt
    ≡ (tt, done (plain_request ∷ plain_request ∷ []))
unfolding loop_consume consume handle_msg get_job_status status_of_id start_pending ◌>>=◌ tried
starts_twice = refl
