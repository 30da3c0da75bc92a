-- ===== src/Dataflow/Policies/Schedules.antt =====
-- dataflow/pkg/policy/policy.go and dataflow/pkg/db/drivers/mongo/mongo.go: a policy whose schedule is
-- changed.
use multi_cloud.Common.{ℕ, suc, ◌≡◌, ◌∙◌, refl, ap, true, Text, codes, Option, some}
use multi_cloud.Common.Actions.{failed, fail, ◌>>=◌}
use multi_cloud.Common.Promises.{Keeps, bind-Keeps, return-Keeps, fail-Keeps}
use multi_cloud.Dataflow.Types.{Policy, Context, err_inner_err}
use multi_cloud.Dataflow.Driver.{Mongo}
use multi_cloud.Dataflow.Driver.Policies.{get_policy, update_policy}
use multi_cloud.Dataflow.Driver.Plans.{plans_by, do_list_plan, get_plan_by_policy}
use multi_cloud.Dataflow.Updates.{Json, UpdateMap, is_given}
use multi_cloud.Dataflow.Plans.Entries.{in_db-Keeps, new_name-Keeps, new_text-Keeps}
use multi_cloud.Dataflow.Triggers.{CronTrigger}
use multi_cloud.Dataflow.Triggers.Manager.{Service, in_db}
use multi_cloud.Dataflow.Policies.{
  merge_policy, reschedule_pages, update_policy_in_trigger, after_update, update,
}

module _ {J : Type 0} (json : Json J) {W : Type 0} where
  merge_policy-Keeps :
      {P : W → Type 0} (map : UpdateMap J) (cur_pol : Policy)
      → Keeps P (merge_policy json map cur_pol)
  unfolding merge_policy
  merge_policy-Keeps map cur_pol =
      bind-Keeps _ (new_name-Keeps json (map (codes "name")) cur_pol.name) (λ name.
        bind-Keeps _ (new_text-Keeps json (map (codes "description")) cur_pol.description)
          (λ description. return-Keeps))

module _ {W : Type 0} (db : Mongo W) (cron_error : Text → Option Text) (turns : ℕ)
    (ctx : Context) where
  after_update-fails :
      (resp : Policy)
      → after_update db cron_error (suc turns) ctx true resp ≡ (λ s. (s, failed err_inner_err))
  unfolding after_update update_policy_in_trigger reschedule_pages get_plan_by_policy do_list_plan
      plans_by in_db ◌>>=◌
  after_update-fails resp = refl

  after_given :
      {J : Type 0} (json : Json J) (map : UpdateMap J) (v : J)
      → map (codes "schedule") ≡ some v
      → (resp : Policy)
      → after_update db cron_error (suc turns) ctx (is_given json (map (codes "schedule"))) resp
        ≡ fail err_inner_err
  unfolding is_given
  after_given json map v given resp =
      ap (λ j. after_update db cron_error (suc turns) ctx (is_given json j) resp) given
      ∙ after_update-fails resp

  storing-Keeps :
      {J : Type 0} (json : Json J) (policy_id : Text) (map : UpdateMap J) (c : CronTrigger)
      → Keeps
          (λ (s : Service W). s.cron ≡ c)
          (do
            cur_pol ← in_db (get_policy db ctx policy_id)
            pol ← merge_policy json map cur_pol
            resp ← in_db (update_policy db pol)
            fail {A = Option Policy} err_inner_err)
  storing-Keeps json policy_id map c =
      bind-Keeps _ (in_db-Keeps (λ d. d ≡ c) (get_policy db ctx policy_id)) (λ cur_pol.
        bind-Keeps _ (merge_policy-Keeps json map cur_pol) (λ pol.
          bind-Keeps _ (in_db-Keeps (λ d. d ≡ c) (update_policy db pol)) (λ resp. fail-Keeps)))

  -- An update of the schedule of a policy stores the policy and then fails with an inner error: the
  -- plans of the policy are listed by a `bson.M`, which the driver takes for no filter that it knows.
  -- No trigger is touched, so the plans go on by the old schedule.
  pub update_schedule_fails :
      {J : Type 0} (json : Json J) (policy_id : Text) (map : UpdateMap J) (v : J)
      → map (codes "schedule") ≡ some v
      → (update db cron_error json (suc turns) ctx policy_id map ≡ (do
        cur_pol ← in_db (get_policy db ctx policy_id)
        pol ← merge_policy json map cur_pol
        resp ← in_db (update_policy db pol)
        fail err_inner_err))
        × ((s : Service W)
            → (update db cron_error json (suc turns) ctx policy_id map s).0.cron ≡ s.cron)
  unfolding update is_given
  update_schedule_fails json policy_id map v given =
      let failing : update db cron_error json (suc turns) ctx policy_id map ≡ (do
        cur_pol ← in_db (get_policy db ctx policy_id)
        pol ← merge_policy json map cur_pol
        resp ← in_db (update_policy db pol)
        fail err_inner_err) =
        (λ i. do
          cur_pol ← in_db (get_policy db ctx policy_id)
          pol ← merge_policy json map cur_pol
          resp ← in_db (update_policy db pol)
          after_given json map v given resp i) in
      (
        failing,
        λ s.
            ap (λ act. (act s).0.cron) failing
            ∙ (storing-Keeps json policy_id map s.cron).keep s refl,
      )
