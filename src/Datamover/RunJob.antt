-- ===== src/Datamover/RunJob.antt =====
-- datamover/pkg/drivers/https/migration.go: a job from its request to its last status. What the moves
-- send in `doMigration` and `migrateResult` are the two lists of events.
pub mod Final
pub mod Ends
use multi_cloud.Common.{
  ℕ, zero, suc, ◌+◌, ◌/◌, ◌%◌, ◌==◌, ltb, Bool, ◌||◌, true, false, Text, codes, text_eq, is_empty,
  List, [], ◌∷◌, ◌++◌, length, Option, none, some, if◌then◌else◌,
}
use multi_cloud.Common.Actions.{Result, done, failed, panicked}
use multi_cloud.Datamover.Types.{StorType, hw_obs, LocationInfo, Object, Connector}
use multi_cloud.Datamover.Move.{Services, get_conn_location}
use multi_cloud.Datamover.Sources.{Listing, get_source_objs}
use multi_cloud.Datamover.Job.{Job, JobStore, save, update_job, running, succeed, failed_status}
use multi_cloud.Datamover.Collect.{Event, do_migration, migrate_result}

-- `pb.RunJobRequest`, with the prefix of its filter and the type of its `Asist`.
pub record RunRequest : Type 0 where
  pub id : Text
  pub source_conn : Connector
  pub dest_conn : Connector
  pub filt : Option Text
  pub remain_source : Bool
  pub asist_type : Text

-- The analysis: `json.Marshal` of the details, and the two methods of `AssistHandler`; the handler may
-- change the job.
pub record Analyst (W : Type 0) : Type 0 where
  pub marshal : RunRequest → Option Text
  pub init : Text → W → W × Option Text
  pub handle : RunRequest → Text → Job → W → W × Job × Option Text

abbrev pub Prepared : Type 0 → Type 0
Prepared W = W × Job × Result (LocationInfo × LocationInfo × List Object)

abbrev pub sum_sizes : List Object → ℕ
sum_sizes [] = 0
sum_sizes (obj ∷ objs) = obj.size + sum_sizes objs

unfoldable pub count_objs : List Object → Job → Job
count_objs objs j = record j {
  total_count = j.total_count + length objs;
  total_capacity = j.total_capacity + sum_sizes objs;
}

-- The job of the list, as it is written before the migration.
unfoldable pub begun : ℕ → List Object → Job → Job
begun now objs j =
    if length objs == 0 || j.total_capacity == 0
    then record j { status = succeed; end_time = now; progress = 100 }
    else record j { status = running }

abbrev pub new_job : Text → ℕ → Job
new_job id now = record {
  id = id;
  start_time = now;
  end_time = 0;
  total_capacity = 0;
  total_count = 0;
  passed_count = 0;
  passed_capacity = 0;
  status = [];
  progress = 0;
  step_desc = [];
}

-- The digits of `strconv.FormatInt`, at most `n` of them.
unfoldable pub digits : ℕ → ℕ → Text
digits zero k = []
digits (suc n) k =
    let rest = digits n (k / 10) in
    if ltb k 10 then (b'0' + k) ∷ [] else rest ++ (b'0' + k % 10) ∷ []

unfoldable pub failure_text : Job → Text
unfolding digits
failure_text j =
    codes "migrate failed:"
    ++ digits 20 j.total_count
    ++ codes " objects, passed "
    ++ digits 20 j.passed_count

abbrev pub analysis_type : Text
analysis_type = codes "data_analysis"

module _ {W : Type 0} (sv : Services W) (ls : Listing W) (store : JobStore W) where
  -- `j.Status = FAILED; j.EndTime = time.Now(); UpdateJob(j)`
  unfoldable pub failed_job : Job → W → W × Job
  failed_job j w =
      let j' = record j { status = failed_status; end_time = store.now w } in (save store j' w, j')

  unfoldable pub with_objs :
      LocationInfo → LocationInfo → Job → W × Result (List Object) → Prepared W
  unfolding count_objs begun failed_job
  with_objs src dest j (w, done objs) =
      let j' = begun (store.now w) objs (count_objs objs j) in
      (save store j' w, j', done (src, dest, objs))
  with_objs src dest j (w, failed e) = let (w', j') = failed_job j w in (w', j', failed e)
  with_objs src dest j (w, panicked) = (w, j, panicked)

  unfoldable pub with_dest : RunRequest → LocationInfo → Job → W × Result LocationInfo → Prepared W
  unfolding with_objs
  with_dest r src j (w, done dest) =
      with_objs src dest j (get_source_objs sv ls r.source_conn r.filt src w)
  with_dest r src j (w, failed e) = let (w', j') = failed_job j w in (w', j', failed e)
  with_dest r src j (w, panicked) = (w, j, panicked)

  unfoldable pub with_src : RunRequest → Job → W × Result LocationInfo → Prepared W
  unfolding with_dest
  with_src r j (w, done src) = with_dest r src j (get_conn_location sv r.dest_conn w)
  with_src r j (w, failed e) = let (w', j') = failed_job j w in (w', j', failed e)
  with_src r j (w, panicked) = (w, j, panicked)

  unfoldable pub prepare4_run : RunRequest → Job → W → Prepared W
  unfolding with_src
  prepare4_run r j w = with_src r j (get_conn_location sv r.source_conn w)

module _ {W : Type 0} (sv : Services W) (ls : Listing W) (store : JobStore W) (an : Analyst W) where
  -- `handler.Init` and `handler.Handle` on the details; the error of `analysisHandle` is not read.
  unfoldable pub after_handle : W × Job × Option Text → W × Job
  after_handle (w, j, none) = (w, j)
  after_handle (w, j, some e) = update_job store failed_status e j w

  unfoldable pub after_init : RunRequest → Text → Job → W × Option Text → W × Job
  unfolding after_handle
  after_init r bucket j (w, none) = after_handle (an.handle r bucket j w)
  after_init r bucket j (w, some e) =
      update_job store failed_status (codes "Failed: Init handler failed.") j w

  unfoldable pub analysis_by : RunRequest → LocationInfo → Option Text → W × Job → W × Job
  unfolding after_init
  analysis_by r dest none (w, j) =
      update_job store failed_status (codes "Failed:internal error.") j w
  analysis_by r dest (some details) (w, j) = after_init r dest.bucket_name j (an.init details w)

  unfoldable pub analysis_on : RunRequest → LocationInfo → StorType → W × Job → W × Job
  unfolding analysis_by
  analysis_on r dest hw_obs (w, j) = analysis_by r dest (an.marshal r) (w, j)
  analysis_on r dest _ (w, j) =
      update_job store failed_status (codes "Failed:the analysis of target cloud is not support.") j
        w

  unfoldable pub analysis_handle : RunRequest → LocationInfo → Job → W → W × Job
  unfolding analysis_on
  analysis_handle r dest j w =
      analysis_on r dest dest.stor_type
        (update_job store (codes "Running") (codes "analysis ...") j w)

  -- What a run comes to; `none` is a loop that still waits.
  abbrev pub Run : Type 0
  Run = Option (W × Job × Result (Unit {0}))

  unfoldable pub with_result : Option (W × Job) → Run
  with_result none = none
  with_result (some (w, j)) = some (w, j, done tt)

  unfoldable pub result_objs : List Event → Job → W × Result (List Object) → Run
  unfolding with_result
  result_objs es j (w, failed e) = some (w, j, failed (codes "Failed: Get result failed."))
  result_objs es j (w, panicked) = some (w, j, panicked)
  result_objs es j (w, done []) = some (w, j, failed (codes "Failed: No result got."))
  result_objs es j (w, done (obj ∷ objs)) =
      with_result (migrate_result store (length (obj ∷ objs)) es j w)

  -- `dataAnalysisPostHandle`, from the destination back to the source.
  unfoldable pub post_handle : List Event → LocationInfo → Job → W → Run
  unfolding result_objs
  post_handle es src j w =
      let (w', j') = update_job store running (codes "getting analysis result") j w in
      let conn : Connector = record { type = src.stor_type; bucket_name = []; conn_config = [] } in
      result_objs es j' (
        get_source_objs sv ls conn (some (src.vir_bucket ++ codes "/output/"))
          (record src { vir_bucket = [] }) w')

  abbrev unsupported_analysis : Text → Text
  unsupported_analysis type =
      codes "Failed: the analysis type[" ++ (type ++ codes "] is not supported.")

  -- The error of `analysisHandle` is not read.
  unfoldable pub asist_handle : RunRequest → LocationInfo → Job → W → W × Job × Option Text
  unfolding analysis_handle
  asist_handle r dest j w =
      if text_eq r.asist_type analysis_type
      then (let (w', j') = analysis_handle r dest j w in (w', j', none))
      else (let e = unsupported_analysis r.asist_type in
          let (w', j') = update_job store failed_status e j w in (w', j', some e))

  unfoldable pub asist_post_handle : List Event → RunRequest → LocationInfo → Job → W → Run
  unfolding post_handle
  asist_post_handle es r src j w =
      if text_eq r.asist_type analysis_type
      then post_handle es src j w
      else some (w, j, failed (unsupported_analysis r.asist_type))

  -- The destination and the source are swapped.
  unfoldable pub after_asist : List Event → RunRequest → LocationInfo → W × Job × Option Text → Run
  unfolding asist_post_handle
  after_asist es r dest (w, j, none) = asist_post_handle es r dest j w
  after_asist es r dest (w, j, some e) = some (w, j, failed e)

  -- After the migration, with no error.
  unfoldable pub assist : List Event → RunRequest → LocationInfo → Job → W → Run
  unfolding asist_handle after_asist
  assist es r dest j w =
      if is_empty r.asist_type
      then (let (w', j') = update_job store succeed (codes "migrate sucecessfully.") j w in
          some (w', j', done tt))
      else if text_eq r.asist_type analysis_type
      then after_asist es r dest (asist_handle r dest j w)
      else some (w, j, failed (codes "Unsupport asist type."))

  unfoldable pub after_migration :
      List Event → RunRequest → LocationInfo → Option (W × Job × Option Bool) → Run
  unfolding assist failure_text
  after_migration es r dest none = none
  after_migration es r dest (some (w, j, none)) = some (w, j, panicked)
  after_migration es r dest (some (w, j, some true)) =
      let (w', j') = update_job store failed_status (failure_text j) j w in
      some (w', j', failed (failure_text j))
  after_migration es r dest (some (w, j, some false)) = assist es r dest j w

  unfoldable pub run_prepared : List Event → List Event → RunRequest → Prepared W → Run
  unfolding after_migration
  run_prepared es₁ es₂ r (w, j, failed e) = some (w, j, failed e)
  run_prepared es₁ es₂ r (w, j, panicked) = some (w, j, panicked)
  run_prepared es₁ es₂ r (w, j, done (src, dest, objs)) =
      let (w', j') = update_job store running (codes "migrate ...") j w in
      if j.total_count == 0 || j.total_capacity == 0
      then some (w, j, done tt)
      else after_migration es₂ r dest (do_migration store es₁ j' w')

  unfoldable pub runjob : List Event → List Event → RunRequest → W → Run
  unfolding run_prepared prepare4_run
  runjob es₁ es₂ r w =
      run_prepared es₁ es₂ r (prepare4_run sv ls store r (new_job r.id (store.now w)) w)
