-- ===== src/Datamover/Tests/Runs.antt =====
-- datamover: whole jobs over the small storage.
use multi_cloud.Common.{
  ap, sym, ◌∙◌, some_cancel, ◌≡◌, refl, true, false, Text, codes, List, [], ◌∷◌, none, some,
}
use multi_cloud.Common.Int.{pos}
use multi_cloud.Common.Actions.{Result, done, failed, ◌>>=◌, or_fail}
use multi_cloud.Datamover.Types.{aws_s3, LocationInfo, Object, Connector}
use multi_cloud.Datamover.Move.{Services, get_conn_location}
use multi_cloud.Datamover.Sources.{Listing, get_source_objs}
use multi_cloud.Datamover.Job.{Job, JobCollection, JobStore, update_job, running}
use multi_cloud.Datamover.Job.Writes.{JobLaws, store_of, HasStatus}
use multi_cloud.Datamover.Collect.{received, timeout, do_migration}
use multi_cloud.Datamover.RunJob.{RunRequest, Analyst, new_job, prepare4_run, runjob}
use multi_cloud.Datamover.RunJob.Final.{Settled, runjob-Settled}
use multi_cloud.Datamover.RunJob.Ends.{runjob-ends}

abbrev Log : Type 0
Log = List Job

abbrev clients : Services Log
clients = record {
  get_bucket = λ name w. (w, done (codes "b1"));
  list_objects = λ bucket w. (w, done []);
  create_object = λ obj w. (w, done tt);
  delete_object = λ bucket key w. (w, done tt);
  get_backend_by_name = λ name w. (w, failed (codes "not found"));
}

abbrev one_object : Listing Log
one_object = record {
  list_objs = λ d loca prefix w. (w, done ((codes "key", 5) ∷ []));
  match_string = λ pattern text. true;
}

abbrev journal : JobStore Log
journal = record { update = λ j w. (j ∷ w, none); now = λ w. 7; stamp = λ w. codes "[now] " }

abbrev no_analyst : Analyst Log
no_analyst = record {
  marshal = λ r. none;
  init = λ d w. (w, none);
  handle = λ r bucket j w. (w, j, none);
}

abbrev s3_conn : Connector
s3_conn = record { type = aws_s3; bucket_name = []; conn_config = [] }

abbrev pub request : Text → RunRequest
request asist_type = record {
  id = codes "5b";
  source_conn = s3_conn;
  dest_conn = s3_conn;
  filt = some [];
  remain_source = true;
  asist_type = asist_type;
}

-- The job of an id as it was written last.
abbrev latest : Text → Log → Job
latest id [] = new_job id 0
latest id (j ∷ js) = record j { id = id }

abbrev rows : JobCollection Log
rows = record { find = λ id w. (w, done (latest id w)); update = λ id j w. (j ∷ w, done tt) }

latest-id : (id : Text) (w : Log) → (latest id w).id ≡ id
latest-id id [] = refl
latest-id id (j ∷ js) = refl

abbrev rows_laws : JobLaws rows
rows_laws = record {
  at = λ w id. some (latest id w);
  id_law = λ w id job e. ap (λ j. j.id) (sym (some_cancel e)) ∙ latest-id id w;
  find_law = λ w id job e. ap (λ j. (w, done j)) (some_cancel e);
  update_law = λ w id old job e same. (job ∷ w, refl, λ i. some (record job { id = sym same i }));
}

stored_status : Settled (HasStatus rows rows_laws (codes "5b")) (
    runjob clients one_object
      (store_of rows (λ w. 100) (λ w. []))
      no_analyst
      (received (pos 5) ∷ [])
      []
      (request [])
      [])
stored_status =
    runjob-Settled clients one_object rows rows_laws (λ w. 100) (λ w. []) no_analyst
      (received (pos 5) ∷ []) [] (request []) [] (λ v. (latest (codes "5b") v, refl)) refl

ended_run :
    (out : Log × Job × Result (Unit {0})) × (runjob clients one_object journal no_analyst
        (timeout ∷ [])
        (timeout ∷ [])
        (request [])
        []
      ≡ some out)
ended_run = runjob-ends clients one_object journal no_analyst [] [] (request []) []

abbrev prepared_job : Job
prepared_job = record (new_job (codes "5b") 7) {
  total_count = 1;
  total_capacity = 5;
  status = running;
}

abbrev started_job : Job
started_job = record prepared_job { step_desc = codes "[now] migrate ...\n" }

abbrev moved_job : Job
moved_job = record started_job { passed_count = 1; passed_capacity = 5; progress = 100 }

abbrev loca : LocationInfo
loca = record {
  stor_type = aws_s3;
  region = [];
  end_point = [];
  bucket_name = [];
  vir_bucket = [];
  access = [];
  security = [];
  bakend_name = [];
}

abbrev object : Object
object = record {
  object_key = codes "key";
  bucket_name = [];
  size = 5;
  backend = [];
  last_modified = [];
}

is_prepared :
    prepare4_run clients one_object journal
      (request (codes "virus_scan"))
      (new_job (codes "5b") 7)
      []
    ≡ (prepared_job ∷ [], prepared_job, done (loca, loca, object ∷ []))
unfolding prepare4_run get_conn_location get_source_objs ◌>>=◌ or_fail
is_prepared = refl

is_moved :
    do_migration journal
      (received (pos 5) ∷ timeout ∷ [])
      (update_job journal running (codes "migrate ...") prepared_job (prepared_job ∷ [])).1
      (update_job journal running (codes "migrate ...") prepared_job (prepared_job ∷ [])).0
    ≡ some (moved_job ∷ started_job ∷ prepared_job ∷ [], moved_job, some false)
unfolding do_migration update_job
is_moved = refl
