-- ===== src/Dataflow/Convert.antt =====
-- dataflow/pkg/service.go: the messages of dataflow/proto and what they become in the service.
pub mod RoundTrip
use multi_cloud.Common.{
  ℕ, Bool, false, ◌||◌, Text, codes, text_eq, is_empty, List, [], ◌∷◌, Option, none, some,
  if◌then◌else◌,
}
use multi_cloud.Common.Actions.{Act, return, fail, panic, ◌>>=◌}
use multi_cloud.Datamover.Types.{
  StorType, opensds, aws_s3, azure_blob, hw_obs, ceph_s3, hw_fusionstorage, hw_fusioncloud,
  other_type, Kv, Connector,
}
use multi_cloud.Dataflow.Types.{Schedule, Policy, Filter, AsistInfo, Plan, Job}

-- `pb.Plan`. A message inside it may be nil.
pub record PbPlan : Type 0 where
  pub id : Text
  pub name : Text
  pub description : Text
  pub type : Text
  pub policy_id : Text
  pub policy_name : Text
  pub source_conn : Option Connector
  pub dest_conn : Option Connector
  pub filter : Option Filter
  pub remain_source : Bool
  pub tenant_id : Text
  pub user_id : Text
  pub policy_enabled : Bool
  pub asist : Option AsistInfo

-- `pb.Policy`.
pub record PbPolicy : Type 0 where
  pub id : Text
  pub name : Text
  pub tenant : Text
  pub description : Text
  pub schedule : Option Schedule

-- `pb.Job`, with the times in seconds.
pub record PbJob : Type 0 where
  pub id : Text
  pub type : Text
  pub plan_name : Text
  pub plan_id : Text
  pub description : Text
  pub source_location : Text
  pub dest_location : Text
  pub create_time : ℕ
  pub start_time : ℕ
  pub end_time : ℕ
  pub status : Text
  pub total_capacity : ℕ
  pub passed_capacity : ℕ
  pub total_count : ℕ
  pub passed_count : ℕ
  pub progress : ℕ
  pub step_desc : Text

-- The loops that copy keys and values.
unfoldable pub copy_kvs : List Kv → List Kv
copy_kvs [] = []
copy_kvs (kv ∷ kvs) = record { key = kv.key; value = kv.value } ∷ copy_kvs kvs

unfoldable pub policy_model2_resp : Policy → PbPolicy
policy_model2_resp policy = record {
  id = policy.id;
  name = policy.name;
  tenant = policy.tenant;
  description = policy.description;
  schedule = some (record {
    type = policy.schedule.type;
    trigger_properties = policy.schedule.trigger_properties;
  });
}

abbrev with_bucket : StorType → Connector → Connector
with_bucket t conn = record { type = t; bucket_name = conn.bucket_name; conn_config = [] }

abbrev with_config : StorType → Connector → Connector
with_config t conn = record { type = t; bucket_name = []; conn_config = copy_kvs conn.conn_config }

-- A connector of a type that is not known comes out with its type alone.
unfoldable pub rsp_conn_by : StorType → Connector → Connector
unfolding copy_kvs
rsp_conn_by opensds conn = with_bucket opensds conn
rsp_conn_by aws_s3 conn = with_config aws_s3 conn
rsp_conn_by azure_blob conn = with_config azure_blob conn
rsp_conn_by hw_obs conn = with_config hw_obs conn
rsp_conn_by ceph_s3 conn = with_config ceph_s3 conn
rsp_conn_by hw_fusionstorage conn = with_config hw_fusionstorage conn
rsp_conn_by hw_fusioncloud conn = with_config hw_fusioncloud conn
rsp_conn_by (other_type t) conn = record { type = other_type t; bucket_name = []; conn_config = [] }

unfoldable pub fill_rsp_connector : Connector → Connector
unfolding rsp_conn_by
fill_rsp_connector conn = rsp_conn_by conn.type conn

unfoldable pub plan_model2_resp : Plan → PbPlan
unfolding fill_rsp_connector copy_kvs
plan_model2_resp plan = record {
  id = plan.id;
  name = plan.name;
  description = plan.description;
  type = plan.type;
  policy_id = plan.policy_id;
  policy_name = plan.policy_name;
  source_conn = some (fill_rsp_connector plan.source_conn);
  dest_conn = some (fill_rsp_connector plan.dest_conn);
  filter = some (record { prefix = plan.filter.prefix; tag = copy_kvs plan.filter.tag });
  remain_source = plan.remain_source;
  tenant_id = plan.tenant_id;
  user_id = plan.user_id;
  policy_enabled = plan.policy_enabled;
  asist = some (record { type = plan.asist.type; details = copy_kvs plan.asist.details });
}

unfoldable pub req_conn_by : {W : Type 0} → StorType → Connector → Act W Connector
unfolding copy_kvs
req_conn_by opensds conn = return (with_bucket opensds conn)
req_conn_by aws_s3 conn = return (with_config aws_s3 conn)
req_conn_by azure_blob conn = return (with_config azure_blob conn)
req_conn_by hw_obs conn = return (with_config hw_obs conn)
req_conn_by ceph_s3 conn = return (with_config ceph_s3 conn)
req_conn_by hw_fusionstorage conn = return (with_config hw_fusionstorage conn)
req_conn_by hw_fusioncloud conn = return (with_config hw_fusioncloud conn)
req_conn_by (other_type t) conn = fail (codes "Invalid connector type.")

-- `fillReqConnector`, for a connector that is there.
unfoldable pub fill_req_connector : {W : Type 0} → Text → Option Connector → Act W Connector
unfolding req_conn_by
fill_req_connector absent none = fail absent
fill_req_connector absent (some conn) = req_conn_by conn.type conn

unfoldable pub req_filter : Option Filter → Filter
unfolding copy_kvs
req_filter none = record { prefix = []; tag = [] }
req_filter (some f) = record { prefix = f.prefix; tag = copy_kvs f.tag }

unfoldable pub req_asist : Option AsistInfo → AsistInfo
unfolding copy_kvs
req_asist none = record { type = []; details = [] }
req_asist (some a) = record { type = a.type; details = copy_kvs a.details }

-- The call of `checkAsistVlidation`, whose error is not looked at; it reads through the pointer.
unfoldable pub check_asist_vlidation : {W : Type 0} → Option AsistInfo → Act W (Unit {0})
check_asist_vlidation none = panic
check_asist_vlidation (some a) = return tt

unfoldable pub check_filled : {W : Type 0} → Text → Text → Act W (Unit {0})
check_filled name type =
    if is_empty name || is_empty type then fail (codes "Name or type is null.") else return tt

-- The plan that `CreatePlan` makes of its request.
unfoldable pub plan_of_request : {W : Type 0} → PbPlan → Act W Plan
unfolding fill_req_connector req_filter req_asist check_asist_vlidation check_filled
plan_of_request req = do
  src ← fill_req_connector (codes "Invalid source connector.") req.source_conn
  dest ← fill_req_connector (codes "Invalid destination connector.") req.dest_conn
  checked ← check_asist_vlidation req.asist
  filled ← check_filled req.name req.type
  return (record {
    id = [];
    name = req.name;
    description = req.description;
    type = req.type;
    source_conn = src;
    dest_conn = dest;
    filter = req_filter req.filter;
    remain_source = req.remain_source;
    last_sched_time = 0;
    policy_id = req.policy_id;
    policy_ref = none;
    policy_name = [];
    policy_enabled = req.policy_enabled;
    tenant_id = req.tenant_id;
    user_id = req.user_id;
    asist = req_asist req.asist;
  })

-- `GetJob` and `ListJob` make it field by field; a listing leaves out the description and the step,
-- and the answer for one job has no start time.
unfoldable pub job_model2_resp : Job → PbJob
job_model2_resp jb = record {
  id = jb.id;
  type = jb.type;
  plan_name = jb.plan_name;
  plan_id = jb.plan_id;
  description = codes "for test";
  source_location = jb.source_location;
  dest_location = jb.dest_location;
  create_time = jb.create_time;
  start_time = 0;
  end_time = jb.end_time;
  status = jb.status;
  total_capacity = jb.total_capacity;
  passed_capacity = jb.passed_capacity;
  total_count = jb.total_count;
  passed_count = jb.passed_count;
  progress = jb.progress;
  step_desc = jb.step_desc;
}

unfoldable pub job_model2_item : Job → PbJob
unfolding job_model2_resp
job_model2_item jb = record (job_model2_resp jb) {
  description = [];
  start_time = jb.start_time;
  step_desc = [];
}
