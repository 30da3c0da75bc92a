-- ===== src/Datamover/Messages.antt =====
-- The messages of the queue: `HandleMsg` of datamover/pkg/drivers/https/migration.go, `GetJobStatus` of
-- datamover/pkg/db/drivers/mongo/mongo.go, and the loop of datamover/pkg/kafka/consumer.go over what it
-- receives.
pub mod Twice
use multi_cloud.Common.{
  Bool, true, false, Text, codes, text_eq, List, [], ◌∷◌, Option, none, some, if◌then◌else◌,
}
use multi_cloud.Common.Actions.{Act, return, fail, panic, ◌>>=◌, tried}
use multi_cloud.Datamover.Job.{Job, JobCollection}
use multi_cloud.Datamover.RunJob.{RunRequest}

abbrev pub pending : Text
pending = codes "pending"

pub record Message : Type 0 where
  pub topic : Text
  pub value : Text

-- What the loop does with a message: whether its offset is marked, and the run that was started.
pub record Consumed : Type 0 where
  pub marked : Bool
  pub started : Option RunRequest

unfoldable pub status_found : Option Job → Text
status_found none = []
status_found (some job) = job.status

unfoldable pub taken_as : Option RunRequest → Consumed
taken_as none = record { marked = false; started = none }
taken_as (some r) = record { marked = true; started = some r }

abbrev pub with_started : Option RunRequest → List RunRequest → List RunRequest
with_started none rs = rs
with_started (some r) rs = r ∷ rs

-- The request whose run is started, by `go runjob`.
unfoldable pub start_pending : {W : Type 0} → RunRequest → Text → Act W RunRequest
start_pending r status =
    if text_eq status pending then return r else fail (codes "Job already running.")

-- `object_id_hex` is `bson.ObjectIdHex`, `none` for its panic, and `unmarshal` is `json.Unmarshal`.
module _ {W : Type 0} (jobs : JobCollection W) (object_id_hex : Text → Option Text)
    (unmarshal : Text → Option RunRequest) where
  unfoldable pub status_of_id : Option Text → Act W Text
  unfolding status_found
  status_of_id none = panic
  status_of_id (some id) = tried (jobs.find id) >>= λ found. return (status_found found)

  unfoldable pub get_job_status : Text → Act W Text
  unfolding status_of_id
  get_job_status job_id = status_of_id (object_id_hex job_id)

  unfoldable pub handle_request : Option RunRequest → Act W RunRequest
  unfolding start_pending get_job_status
  handle_request none = fail (codes "Unmarshal failed")
  handle_request (some r) = get_job_status r.id >>= start_pending r

  unfoldable pub handle_msg : Text → Act W RunRequest
  unfolding handle_request
  handle_msg data_of_msg = handle_request (unmarshal data_of_msg)

  -- A message of another topic is marked and dropped.
  unfoldable pub consume : Message → Act W Consumed
  unfolding handle_msg taken_as
  consume msg =
      if text_eq msg.topic (codes "migration")
      then (tried (handle_msg msg.value) >>= λ started. return (taken_as started))
      else return (record { marked = true; started = none })

  -- The runs that a sequence of messages starts.
  unfoldable pub loop_consume : List Message → Act W (List RunRequest)
  unfolding consume
  loop_consume [] = return []
  loop_consume (msg ∷ msgs) =
      let rest = loop_consume msgs in
      consume msg >>= λ c. rest >>= λ rs. return (with_started c.started rs)
