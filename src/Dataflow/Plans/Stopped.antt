-- ===== src/Dataflow/Plans/Stopped.antt =====
-- dataflow/pkg/plan/plan.go: what `Delete` and `Update` do to the crons that run a plan.
use mathlib.Core.Path.{subst}
use multi_cloud.Common.{
  ◌≡◌, ◌∙◌, refl, ap, sym, arith, Bool, true, false, Text, text_eq, is_empty, [], Option, none,
  some, if◌then◌else◌,
}
use multi_cloud.Common.Actions.{
  Act, Result, done, failed, panicked, continue, caught, fail, attempt, ◌>>=◌,
}
use multi_cloud.Common.Promises.{Ensures, bind-Ensures, Keeps-Ensures}
use multi_cloud.Dataflow.Types.{Policy, Plan, Context, err_plan_not_exist}
use multi_cloud.Dataflow.Driver.{Reply, found, missing, broken, Mongo, hex_id, id_or_panic}
use multi_cloud.Dataflow.Driver.Policies.{get_policy, find_policy, read_policy}
use multi_cloud.Dataflow.Driver.Plans.{get_plan, delete_plan}
use multi_cloud.Dataflow.Triggers.{CronTrigger, remove}
use multi_cloud.Dataflow.Triggers.Tidy.{remove-Sets}
use multi_cloud.Dataflow.Triggers.TimeTables.{IsTidy, Sets}
use multi_cloud.Dataflow.Triggers.Manager.{
  Service, in_db, in_cron, get_trigger, no_trigger, manager_remove, with_policy, by_policy,
}
use multi_cloud.Dataflow.Plans.Entries.{in_db-Keeps}
use multi_cloud.Dataflow.Plans.{trigger_error, remove_trigger, delete_found, after_get, delete}

-- The error, if there is one, is not the absence of a plan.
abbrev Fails : {A : Type 0} → Result A → Type 0
Fails (done a) = Unit {0}
Fails (failed e) = text_eq e err_plan_not_exist ≡ false
Fails panicked = Unit {0}

module _ {W : Type 0} (db : Mongo W) (cron_error : Text → Option Text) (ctx : Context) where
  read_policy-Fails : (o : W × Reply Policy) → Fails (read_policy o).1
  unfolding read_policy
  read_policy-Fails (w, found pol) = tt
  read_policy-Fails (w, missing) = refl
  read_policy-Fails (w, broken) = tt

  hex-Fails : (o : Option Text) (w : W) → Fails ((id_or_panic o >>= find_policy db ctx) w).1
  unfolding id_or_panic find_policy ◌>>=◌
  hex-Fails none w = tt
  hex-Fails (some hex) w = read_policy-Fails _

  get_policy-Fails : (id : Text) (w : W) → Fails (get_policy db ctx id w).1
  unfolding get_policy hex_id
  get_policy-Fails id w = hex-Fails (db.object_id_hex id) w

  module _ (c : CronTrigger) (tidy : IsTidy c) (plan : Plan) where
    abbrev remove_by : Policy → Act (Service W) (Unit {0})
    remove_by policy =
        if get_trigger policy.schedule.type
        then in_cron (remove plan.id)
        else fail (no_trigger policy.schedule.type)

    by_trigger-Sets :
        (known : Bool) (type : Text) (s0 s : Service W)
        → s0.cron ≡ c
        → continue
            (trigger_error db cron_error)
            (caught ((if known then in_cron (remove plan.id) else fail (no_trigger type)) s0))
          ≡ (s, done tt)
        → Sets c plan.id [] s.cron
    unfolding trigger_error in_cron remove
    by_trigger-Sets true type s0 s at r =
        subst (Sets c plan.id []) (ap (λ o. o.0.cron) r) (
          subst (λ d. Sets c plan.id [] (remove plan.id d).0) (sym at) (remove-Sets c plan.id tidy))
    by_trigger-Sets false type s0 s at r = ground (arith, r)

    removed-Sets :
        (o : Service W × Result Policy) (s : Service W)
        → o.0.cron ≡ c
        → Fails o.1
        → continue (trigger_error db cron_error) (caught (continue remove_by o)) ≡ (s, done tt)
        → Sets c plan.id [] s.cron
    unfolding trigger_error
    removed-Sets (s0, done policy) s at ok r =
        by_trigger-Sets (get_trigger policy.schedule.type) policy.schedule.type s0 s at r
    removed-Sets (s0, failed e) s at ok r = ground (arith, r, ok)
    removed-Sets (s0, panicked) s at ok r = ground (arith, r)

    -- A plan whose trigger is removed without an error is run by no cron afterwards.
    remove_trigger-Sets :
        is_empty plan.policy_id ≡ false
        → Ensures
            (λ (s : Service W). s.cron ≡ c)
            (remove_trigger db cron_error ctx plan)
            (λ a s. Sets c plan.id [] s.cron)
    unfolding remove_trigger manager_remove with_policy by_policy in_db attempt ◌>>=◌
    remove_trigger-Sets has_policy = record {
      ensure = λ s s' a r at.
          removed-Sets
            (
              record s { world = (get_policy db ctx plan.policy_id s.world).0 },
              (get_policy db ctx plan.policy_id s.world).1,
            )
            s' at (get_policy-Fails plan.policy_id s.world) (rw (has_policy) at r);
    }

    delete_found-Sets :
        (id : Text)
        → is_empty plan.policy_id ≡ false
        → Ensures
            (λ (s : Service W). s.cron ≡ c)
            (delete_found db cron_error ctx id plan)
            (λ a s. Sets c plan.id [] s.cron)
    unfolding delete_found
    delete_found-Sets id has_policy =
        bind-Ensures _ (λ a s. Sets c plan.id [] s.cron) (remove_trigger-Sets has_policy)
          (λ removed. Keeps-Ensures (in_db-Keeps (Sets c plan.id []) (delete_plan db ctx id)))

-- If the plan that `Delete` reads has a policy, then after a deletion without an error no cron runs the
-- plan any more, and every other plan is run by the time tables that it was run by before.
pub delete-stops :
    {W : Type 0} (db : Mongo W) (cron_error : Text → Option Text) (ctx : Context) (id : Text)
    (plan : Plan) (w : W) (s s' : Service W)
    → IsTidy s.cron
    → get_plan db ctx id s.world ≡ (w, done plan)
    → is_empty plan.policy_id ≡ false
    → delete db cron_error ctx id s ≡ (s', done tt)
    → Sets s.cron plan.id [] s'.cron
unfolding delete after_get in_db
delete-stops {W} db cron_error ctx id plan w s s' tidy read has_policy r =
    (delete_found-Sets db cron_error ctx s.cron tidy plan id has_policy).ensure
      (record s { world = w }) s' tt
      (sym (
          ap
            (λ (o : W × Result Plan).
              after_get db cron_error ctx id (record s { world = o.0 }, o.1))
            read)
        ∙ r)
      refl
