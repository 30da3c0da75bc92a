-- ===== src/Dataflow/Plans/Unset.antt =====
-- dataflow/pkg/plan/plan.go, `Update`: a plan whose policy is taken away.
use multi_cloud.Common.{
  ◌≡◌, ◌∙◌, refl, ap, sym, Bool, true, Text, codes, is_empty, [], Option, some,
}
use multi_cloud.Common.Promises.{
  Ensures, Keeps, bind-Ensures, bind-Keeps, bind-Keeps_given, any-Ensures, given-Ensures,
  return-Ensures, return-Keeps, fail-Keeps, if-Keeps, attempt-Keeps, done-injective,
}
use multi_cloud.Dataflow.Types.{Plan, Context}
use multi_cloud.Dataflow.Driver.{Mongo}
use multi_cloud.Dataflow.Driver.Plans.{get_plan, update_plan}
use multi_cloud.Dataflow.Triggers.{CronTrigger}
use multi_cloud.Dataflow.Triggers.Manager.{Service, manager_remove, with_policy}
use multi_cloud.Dataflow.Plans.{add_trigger, move_trigger, finish_update, update}
use multi_cloud.Dataflow.Updates.{Json, UpdateMap, merge_plan, new_text, new_ends, text_or_panic}
use multi_cloud.Dataflow.Plans.Entries.{in_db-Keeps, new_name-Keeps, new_text-Keeps, new_bool-Keeps}

module _ {J : Type 0} (json : Json J) {W : Type 0} where
  new_ends-Keeps :
      {P : W → Type 0} (map : UpdateMap J) (plan : Plan) → Keeps P (new_ends json map plan)
  unfolding new_ends
  new_ends-Keeps map plan = if-Keeps _ fail-Keeps return-Keeps

  -- Reading the request does not touch the world.
  pub merge_plan-Keeps :
      {P : W → Type 0} (map : UpdateMap J) (cur_plan : Plan)
      → Keeps P (merge_plan json map cur_plan)
  unfolding merge_plan
  merge_plan-Keeps map cur_plan =
      bind-Keeps _ (new_name-Keeps json (map (codes "name")) cur_plan.name) (λ name.
        bind-Keeps _ (new_ends-Keeps map (record cur_plan { name = name })) (λ plan.
          bind-Keeps _ (new_bool-Keeps json (map (codes "policyEnabled")) plan.policy_enabled)
            (λ enabled.
              bind-Keeps _ (new_text-Keeps json (map (codes "policyId")) plan.policy_id)
                (λ policy_id.
                  bind-Keeps _ (new_text-Keeps json (map (codes "description")) plan.description)
                    (λ text.
                      bind-Keeps _
                        (new_bool-Keeps json (map (codes "remainSource")) plan.remain_source)
                        (λ remain. return-Keeps))))))

  new_text-empty :
      (o : Option J) (v : J) (old : Text)
      → o ≡ some v
      → json.as_text v ≡ some []
      → Ensures (λ (w : W). Unit {0}) (new_text json o old) (λ t w. Unit {0} × (t ≡ []))
  unfolding new_text text_or_panic
  new_text-empty o v old given empty = record {
    ensure = λ w w' t e p. (
      tt,
      sym (
          done-injective (
            ap (λ x. text_or_panic {W = W} x w) (sym empty)
            ∙ ap (λ x. new_text json {W = W} x old w) (sym given)
            ∙ e)),
    );
  }

  -- An entry with an empty policy takes the policy away.
  merge_plan-unset :
      (map : UpdateMap J) (v : J) (cur_plan : Plan)
      → map (codes "policyId") ≡ some v
      → json.as_text v ≡ some []
      → Ensures (λ (w : W). Unit {0}) (merge_plan json map cur_plan) (λ p w. p.policy_id ≡ [])
  unfolding merge_plan
  merge_plan-unset map v cur_plan given empty =
      bind-Ensures _ (λ a w. Unit {0}) any-Ensures
        (λ name.
          bind-Ensures _ (λ a w. Unit {0}) any-Ensures
            (λ plan.
              bind-Ensures _ (λ a w. Unit {0}) any-Ensures
                (λ enabled.
                  bind-Ensures _ (λ t w. Unit {0} × (t ≡ [])) (new_text-empty _ v _ given empty)
                    (λ t. given-Ensures (λ is_empty_text.
                      bind-Ensures _ (λ a w. Unit {0}) any-Ensures
                        (λ text.
                          bind-Ensures _ (λ a w. Unit {0}) any-Ensures
                            (λ remain. return-Ensures (λ w p. is_empty_text))))))))

module _ {W : Type 0} (db : Mongo W) (cron_error : Text → Option Text) (ctx : Context)
    (c : CronTrigger) where
  -- Without a policy neither the removal nor the addition finds a trigger.
  move_trigger-Keeps :
      (plan : Plan)
      → is_empty plan.policy_id ≡ true
      → Keeps (λ (s : Service W). s.cron ≡ c) (move_trigger db cron_error ctx plan)
  unfolding move_trigger manager_remove add_trigger with_policy
  move_trigger-Keeps plan none_left =
      rw (none_left) (bind-Keeps _ (attempt-Keeps _ fail-Keeps) (λ removed. return-Keeps))

  finish_update-Keeps :
      (needed : Bool) (plan : Plan)
      → is_empty plan.policy_id ≡ true
      → Keeps (λ (s : Service W). s.cron ≡ c) (finish_update db cron_error ctx needed plan)
  unfolding finish_update
  finish_update-Keeps needed plan none_left =
      bind-Keeps _ (if-Keeps needed (move_trigger-Keeps plan none_left) return-Keeps)
        (λ moved. in_db-Keeps (λ d. d ≡ c) (update_plan db plan))

-- An update that takes the policy of a plan away touches no cron, however it ends: a cron that ran the
-- plan by that policy goes on running it.
pub update_unset-keeps_cron :
    {W J : Type 0} (db : Mongo W) (cron_error : Text → Option Text) (json : Json J) (ctx : Context)
    (plan_id : Text) (map : UpdateMap J) (v : J)
    → map (codes "policyId") ≡ some v
    → json.as_text v ≡ some []
    → (s : Service W) → (update db cron_error json ctx plan_id map s).0.cron ≡ s.cron
unfolding update
update_unset-keeps_cron db cron_error json ctx plan_id map v given empty s =
    (bind-Keeps _ (in_db-Keeps (λ d. d ≡ s.cron) (get_plan db ctx plan_id)) (λ cur_plan.
        bind-Keeps_given _ (λ p. p.policy_id ≡ []) (merge_plan-Keeps json map cur_plan)
          (merge_plan-unset json map v cur_plan given empty)
          (λ plan unset.
            finish_update-Keeps db cron_error ctx s.cron _ plan (ap is_empty unset)))).keep
      s refl
