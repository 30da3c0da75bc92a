-- ===== src/Dataflow/Tests/Stored.antt =====
-- dataflow: a database that keeps lists of plans and policies.
use multi_cloud.Common.{
  ℕ, ◌+◌, ◌≡◌, ◌∙◌, refl, ap, sym, arith, Text, codes, text_eq, text_eq_refl, contained, List, [],
  ◌∷◌, length, Option, none, some, if◌then◌else◌,
}
use multi_cloud.Datamover.Types.{other_type}
use multi_cloud.Dataflow.Types.{Policy, Plan, Job}
use multi_cloud.Dataflow.Driver.{
  Selector, all_of, one_of, Reply, found, missing, written, not_found, Collection, Mongo,
}
use multi_cloud.Dataflow.Driver.Used.{plan_keys, CountsKeys}
use multi_cloud.Dataflow.Plans.Created.{PlanLaws}
use multi_cloud.Dataflow.Updates.{Json}
use multi_cloud.Dataflow.Triggers.{CronTrigger}
use multi_cloud.Dataflow.Triggers.TimeTables.{IsTidy}
use multi_cloud.Dataflow.Triggers.Manager.{Service}
use multi_cloud.Dataflow.Tests.{Rows, one_row, firsts, remove_row-plans}

abbrev pub first : {A : Type 0} → List A → Reply A
first [] = missing
first (a ∷ as_are) = found a

abbrev pub plan_by_id : Text → List Plan → Option Plan
plan_by_id id [] = none
plan_by_id id (p ∷ ps) = if text_eq p.id id then some p else plan_by_id id ps

-- A query is for a plan if its first key is one of a plan.
abbrev pub count_for : Selector → ℕ → ℕ
count_for (all_of []) n = n
count_for (all_of ((k, v) ∷ more)) n = if contained k plan_keys then n else 0
count_for (one_of qs) n = n

abbrev pub no_jobs : Collection Rows Job
no_jobs = record {
  insert = λ j w. (w, written);
  find_one = λ sel w. (w, missing);
  find_all = λ sel skip limit w. (w, missing);
  count = λ sel w. (w, found 0);
  update = λ id j w. (w, not_found);
  remove = λ id w. (w, not_found);
}

abbrev pub policy_rows : Collection Rows Policy
policy_rows = record {
  insert = λ p w. (record w { policies = p ∷ w.policies }, written);
  find_one = λ sel w. (w, first w.policies);
  find_all = λ sel skip limit w. (w, found w.policies);
  count = λ sel w. (w, found (length w.policies));
  update = λ id p w. (record w { policies = p ∷ [] }, written);
  remove = λ id w. (record w { policies = [] }, written);
}

abbrev pub plan_rows : Collection Rows Plan
plan_rows = record {
  insert = λ p w. (record w { plans = p ∷ w.plans }, written);
  find_one = λ sel w. (w, first w.plans);
  find_all = λ sel skip limit w. (w, found w.plans);
  count = λ sel w. (w, found (count_for sel (length w.plans)));
  update = λ id p w. (record w { plans = p ∷ [] }, written);
  remove = λ id w. (record w { plans = [] }, written);
}

abbrev pub rows_db : Mongo Rows
rows_db = record {
  locks = one_row;
  policies = policy_rows;
  plans = plan_rows;
  jobs = no_jobs;
  find_ref = λ ref w. (w, first w.policies);
  object_id_hex = λ id. some id;
  new_object_id = λ w. (record w { ids = w.ids + 1 }, w.ids ∷ []);
  sleep_second = λ w. record w { time = w.time + 1 };
}

pub rows_insert :
    (p : Plan) (w w' : Rows)
    → plan_rows.insert p w ≡ (w', written)
    → plan_by_id p.id w'.plans ≡ some p
rows_insert p w w' e =
    ap (λ v. plan_by_id p.id v.plans) (sym (firsts e)) ∙ ground (arith, text_eq_refl p.id)

abbrev pub rows_laws : PlanLaws rows_db
rows_laws = record {
  plan_at = λ w id. plan_by_id id w.plans;
  insert_law = rows_insert;
  unlock_keeps = λ n w id. ap (plan_by_id id) (remove_row-plans w w.row);
  policy_keeps = λ sel w id. refl;
}

pub rows_counts : CountsKeys rows_db
rows_counts key value more w n unknown e = ground (arith, unknown, e)

abbrev pub nightly : Policy
nightly = record {
  id = codes "c1";
  name = codes "nightly";
  description = [];
  schedule = record { type = codes "cron"; trigger_properties = codes "@daily" };
  tenant = codes "t1";
}

-- A cron library that takes every time table but the empty one.
abbrev pub not_empty : Text → Option Text
not_empty [] = some (codes "Empty spec string")
not_empty (c ∷ s) = none

abbrev pub no_crons : CronTrigger
no_crons = record { plans = λ id. none; running = []; next = 0 }

pub no_crons-IsTidy : IsTidy no_crons
no_crons-IsTidy = record {
  owned = tt;
  apart = λ i j h e. absurd (ground (arith, e));
  below = λ i h e. absurd (ground (arith, e));
}

abbrev pub service : Rows → Service Rows
service w = record { world = w; cron = no_crons }

-- JSON of texts alone.
abbrev pub texts : Json Text
texts = record {
  as_text = λ t. some t;
  as_bool = λ t. none;
  to_connector = λ t. record { type = other_type t; bucket_name = []; conn_config = [] };
  to_filter = λ t. record { prefix = t; tag = [] };
  to_schedule = λ t. record { type = codes "cron"; trigger_properties = t };
}

abbrev pub entry : Text → Text → Text → Option Text
entry key value k = if text_eq key k then some value else none
