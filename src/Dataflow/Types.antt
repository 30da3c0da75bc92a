-- ===== src/Dataflow/Types.antt =====
-- dataflow/pkg/model/dataflow_type.go: the documents of the service, its errors, and the request
-- context of api/pkg/filters/context. An id is the hexadecimal form of a `bson.ObjectId`.
use multi_cloud.Common.{ℕ, Bool, true, Text, codes, List, Option}
use multi_cloud.Datamover.Types.{Kv, Connector}

pub record Schedule : Type 0 where
  pub type : Text
  pub trigger_properties : Text

pub record Policy : Type 0 where
  pub id : Text
  pub name : Text
  pub description : Text
  pub schedule : Schedule
  pub tenant : Text

pub record Filter : Type 0 where
  pub prefix : Text
  pub tag : List Kv

pub record AsistInfo : Type 0 where
  pub type : Text
  pub details : List Kv

-- `policy_ref` is the id in a reference to a policy, and none is the empty reference.
pub record Plan : Type 0 where
  pub id : Text
  pub name : Text
  pub description : Text
  pub type : Text
  pub source_conn : Connector
  pub dest_conn : Connector
  pub filter : Filter
  pub remain_source : Bool
  pub last_sched_time : ℕ
  pub policy_id : Text
  pub policy_ref : Option Text
  pub policy_name : Text
  pub policy_enabled : Bool
  pub tenant_id : Text
  pub user_id : Text
  pub asist : AsistInfo

-- The counts and times of a job are the data mover's; a new job has zeros there.
pub record Job : Type 0 where
  pub id : Text
  pub trigger_type : Text
  pub type : Text
  pub plan_name : Text
  pub plan_id : Text
  pub total_count : ℕ
  pub passed_count : ℕ
  pub total_capacity : ℕ
  pub passed_capacity : ℕ
  pub source_location : Text
  pub dest_location : Text
  pub create_time : ℕ
  pub start_time : ℕ
  pub end_time : ℕ
  pub remain_source : Bool
  pub status : Text
  pub tenant : Text
  pub progress : ℕ
  pub step_desc : Text

pub record Context : Type 0 where
  pub tenant_id : Text
  pub is_admin : Bool
  pub user_id : Text

-- `NewAdminContext`.
abbrev pub admin_context : Context
admin_context = record {
  tenant_id = codes "adminTenantId";
  is_admin = true;
  user_id = codes "unkown";
}

abbrev pub err_inner_err : Text
err_inner_err = codes "inner error"

abbrev pub err_db_err : Text
err_db_err = codes "database error"

abbrev pub err_invalid_policy_name : Text
err_invalid_policy_name = codes "invalid policy name"

abbrev pub err_policy_not_exist : Text
err_policy_not_exist = codes "policy does not exist"

abbrev pub err_plan_not_exist : Text
err_plan_not_exist = codes "plan does not exist"

abbrev pub err_invalid_plan_name : Text
err_invalid_plan_name = codes "invalid plan name"

abbrev pub err_dest_src_conn_equal : Text
err_dest_src_conn_equal = codes "source is the same as destination"

abbrev pub err_dest_conn_not_exist : Text
err_dest_conn_not_exist = codes "invalid destination connector"

abbrev pub err_src_conn_not_exist : Text
err_src_conn_not_exist = codes "invalid source connector"

abbrev pub err_is_used_by_plan : Text
err_is_used_by_plan = codes "is used by plan"

abbrev pub err_run_plan_busy : Text
err_run_plan_busy = codes "is scheduling"

abbrev pub err_job_not_exist : Text
err_job_not_exist = codes "job not exist"

abbrev pub err_plan_not_in_trigger : Text
err_plan_not_in_trigger = codes "specified plan is not in trigger"
