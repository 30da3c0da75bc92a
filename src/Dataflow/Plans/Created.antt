-- ===== src/Dataflow/Plans/Created.antt =====
-- dataflow/pkg/plan/plan.go, `Create`: what is in the database once a plan has been created.
use mathlib.Core.Path.{subst}
use multi_cloud.Common.{
  ℕ, zero, suc, ◌≡◌, ◌∙◌, refl, ap, sym, arith, true, not, ◌&&◌, Text, is_empty, Option, none, some,
  [],
}
use multi_cloud.Common.Actions.{done}
use multi_cloud.Common.Promises.{
  Ensures, Keeps, bind-Ensures, bind-Keeps, any-Ensures, return-Ensures, return-Keeps, fail-Keeps,
  panic-Keeps, given-Ensures, if-Keeps, Keeps-Ensures, done-injective,
}
use multi_cloud.Dataflow.Types.{Policy, Plan, Context}
use multi_cloud.Dataflow.Connectors.Valid.{has_keys, check_conn_validation-has_keys}
use multi_cloud.Dataflow.Driver.{
  Selector, Reply, found, missing, broken, Write, written, not_found, duplicate, write_error, Mongo,
  hex_id, id_or_panic, lock_manager,
}
use multi_cloud.Dataflow.Driver.Held.{managed-Ensures}
use multi_cloud.Dataflow.Driver.Policies.{get_policy, find_policy, read_policy}
use multi_cloud.Dataflow.Driver.Plans.{insert_turns, insert_plan, add_plan, create_plan}
use multi_cloud.Dataflow.Triggers.Manager.{
  Service, in_db, in_cron, get_trigger, manager_add, with_policy, by_policy,
}
use multi_cloud.Dataflow.Plans.{check_plan, add_trigger, store_plan, create_by, create}
use multi_cloud.Dataflow.Plans.Checked.{
  HasNameChar, match_name-HasNameChar, SameBucket, is_equal-SameBucket, check_plan_passed,
}

-- What the collection of plans promises: `plan_at` is the plan that it holds under an id.
pub record PlanLaws {W : Type 0} (db : Mongo W) : Type 0 where
  pub plan_at : W → Text → Option Plan
  pub insert_law :
      (p : Plan) (w w' : W) → db.plans.insert p w ≡ (w', written) → plan_at w' p.id ≡ some p
  -- The locks and the reads of policies leave the plans alone.
  pub unlock_keeps :
      (n : Text) (w : W) (id : Text) → plan_at (db.locks.remove n w).0 id ≡ plan_at w id
  pub policy_keeps :
      (sel : Selector) (w : W) (id : Text)
      → plan_at (db.policies.find_one sel w).0 id ≡ plan_at w id

module _ {W : Type 0} (db : Mongo W) (laws : PlanLaws db) where
  -- The plan is stored, and is the given one but for its id.
  abbrev Inserted : Plan → Plan → W → Type 0
  Inserted plan p w = (laws.plan_at w p.id ≡ some p) × (p ≡ record plan { id = p.id })

  insert_turns-Inserted :
      (n : ℕ) (plan : Plan) (w0 w1 : W) (wrote : Write)
      → db.plans.insert plan w0 ≡ (w1, wrote)
      → (w : W) (p : Plan) → insert_turns db n plan (w1, wrote) ≡ (w, done p)
      → Inserted plan p w
  unfolding insert_turns
  insert_turns-Inserted n plan w0 w1 written e w p r =
      let same = done-injective r in
      subst (λ q. Inserted plan q w) same
        (subst (λ v. Inserted plan plan v) (ap (λ o. o.0) r) (laws.insert_law plan w0 w1 e, refl))
  insert_turns-Inserted n plan w0 w1 not_found e w p r = ground (arith, r)
  insert_turns-Inserted n plan w0 w1 (write_error m) e w p r = ground (arith, r)
  insert_turns-Inserted zero plan w0 w1 (duplicate m) e w p r = ground (arith, r)
  insert_turns-Inserted (suc n) plan w0 w1 (duplicate m) e w p r =
      let again =
        insert_turns-Inserted n (record plan { id = (db.new_object_id w1).1 })
          (db.new_object_id w1).0 _ _ refl w p r in
      (again.0, again.1)

  insert_plan-Ensures :
      (plan : Plan) → Ensures (λ w. Unit {0}) (insert_plan db plan) (Inserted plan)
  unfolding insert_plan
  insert_plan-Ensures plan = record {
    ensure = λ w w' p e q.
        let got =
          insert_turns-Inserted 2 (record plan { id = (db.new_object_id w).1 })
            (db.new_object_id w).0 _ _ refl w' p e in
        (got.0, got.1);
  }

  -- The plan is stored, and is the given one but for what the database sets.
  abbrev Added : Plan → Plan → W → Type 0
  Added plan p w =
      (laws.plan_at w p.id ≡ some p) × (p ≡ record plan { id = p.id; policy_ref = p.policy_ref })

  referred :
      (plan p : Plan) (ref : Option Text) (w : W)
      → Inserted (record plan { policy_ref = ref }) p w
      → Added plan p w
  referred plan p ref w (at, same) = (
    at,
    same ∙ (λ i. record plan { id = p.id; policy_ref = ap (λ q. q.policy_ref) (sym same) i }),
  )

  add_plan-Ensures : (plan : Plan) → Ensures (λ w. Unit {0}) (add_plan db plan) (Added plan)
  unfolding add_plan
  add_plan-Ensures plan =
      bind-Ensures _ (λ a w. Unit {0}) any-Ensures
        (λ fresh.
          bind-Ensures _ (λ a w. Unit {0}) any-Ensures
            (λ fine.
              bind-Ensures _ (λ a w. Unit {0}) any-Ensures
                (λ ref. record {
                  ensure = λ w w' p e q.
                      referred plan p ref w' (
                        (insert_plan-Ensures (record plan { policy_ref = ref })).ensure w w' p e q);
                })))

  create_plan-Ensures :
      (ctx : Context) (plan : Plan)
      → Ensures
          (λ w. Unit {0})
          (create_plan db ctx plan)
          (Added (record plan { tenant_id = ctx.tenant_id }))
  unfolding create_plan
  create_plan-Ensures ctx plan =
      managed-Ensures db _ _ (add_plan-Ensures (record plan { tenant_id = ctx.tenant_id }))
        (λ p w (at, same). (laws.unlock_keeps lock_manager w p.id ∙ at, same))

  module _ (cron_error : Text → Option Text) (ctx : Context) where
    -- Looking for the policy does not touch the plans.
    read_policy-Keeps : (P : W → Type 0) (o : W × Reply Policy) → P o.0 → P (read_policy o).0
    unfolding read_policy
    read_policy-Keeps P (w, found pol) p = p
    read_policy-Keeps P (w, missing) p = p
    read_policy-Keeps P (w, broken) p = p

    id_or_panic-Keeps : (P : W → Type 0) (o : Option Text) → Keeps P (id_or_panic o)
    unfolding id_or_panic
    id_or_panic-Keeps P none = panic-Keeps
    id_or_panic-Keeps P (some id) = return-Keeps

    get_policy-Keeps :
        (id : Text) (x : Option Plan) (policy_id : Text)
        → Keeps (λ w. laws.plan_at w id ≡ x) (get_policy db ctx policy_id)
    unfolding get_policy find_policy hex_id
    get_policy-Keeps id x policy_id =
        bind-Keeps _ (id_or_panic-Keeps _ (db.object_id_hex policy_id)) (λ hex. record {
          keep = λ w h.
              read_policy-Keeps (λ v. laws.plan_at v id ≡ x) _ (laws.policy_keeps _ w id ∙ h);
        })

    add_trigger-Keeps :
        (id : Text) (x : Option Plan) (plan : Plan)
        → Keeps
            (λ (s : Service W). laws.plan_at s.world id ≡ x)
            (add_trigger db cron_error ctx plan)
    unfolding add_trigger manager_add with_policy by_policy in_db in_cron
    add_trigger-Keeps id x plan =
        if-Keeps (not (is_empty plan.policy_id) && plan.policy_enabled)
          (if-Keeps (is_empty plan.policy_id) fail-Keeps (
            bind-Keeps _
              (record { keep = λ s h. (get_policy-Keeps id x plan.policy_id).keep s.world h })
              (λ policy.
                if-Keeps (get_trigger policy.schedule.type) (record { keep = λ s h. h })
                  fail-Keeps)))
          return-Keeps

    -- A stored plan stays stored while its trigger is set.
    store_plan-Ensures :
        (plan : Plan)
        → Ensures
            (λ (s : Service W). Unit {0})
            (store_plan db cron_error ctx plan)
            (λ p s. Added (record plan { tenant_id = ctx.tenant_id }) p s.world)
    unfolding store_plan in_db
    store_plan-Ensures plan =
        bind-Ensures _ (λ p s. Added (record plan { tenant_id = ctx.tenant_id }) p s.world)
          (record {
            ensure = λ s s' p e q.
                (create_plan-Ensures ctx plan).ensure s.world s'.world p
                  (λ i. ((e i).0.world, (e i).1)) q;
          })
          (λ p. given-Ensures {P = λ s. laws.plan_at s.world p.id ≡ some p} (λ same.
            bind-Ensures _ (λ t s. laws.plan_at s.world p.id ≡ some p)
              (Keeps-Ensures (add_trigger-Keeps p.id (some p) p))
              (λ t. return-Ensures (λ s at. (at, same)))))

-- What `Create` promises of a plan that it returns without an error.
pub record Created {W : Type 0} (db : Mongo W) (laws : PlanLaws db) (ctx : Context) (plan p : Plan)
    (w : W) : Type 0 where
  pub stored : laws.plan_at w p.id ≡ some p
  pub same : p ≡ record plan {
    id = p.id;
    last_sched_time = 0;
    tenant_id = ctx.tenant_id;
    policy_ref = p.policy_ref;
  }
  pub named : HasNameChar plan.name
  pub differ : ¬ (SameBucket plan.source_conn plan.dest_conn)
  pub source_keys : has_keys plan.source_conn.type plan.source_conn.conn_config ≡ true
  pub dest_keys : has_keys plan.dest_conn.type plan.dest_conn.conn_config ≡ true

create_by-Created :
    {W : Type 0} (db : Mongo W) (laws : PlanLaws db) (cron_error : Text → Option Text)
    (ctx : Context) (plan p : Plan) (s s' : Service W) (checked : Option Text)
    → check_plan plan ≡ checked
    → create_by db cron_error checked ctx plan s ≡ (s', done p)
    → Created db laws ctx plan p s'.world
unfolding create_by
create_by-Created db laws cron_error ctx plan p s s' (some e) ok r = ground (arith, r)
create_by-Created db laws cron_error ctx plan p s s' none ok r =
    let passed = check_plan_passed plan ok in
    let stored =
      (store_plan-Ensures db laws cron_error ctx
          (record plan { id = []; last_sched_time = 0 })).ensure
        s s' p r tt in
    record {
      stored = stored.0;
      same = stored.1;
      named = match_name-HasNameChar plan.name passed.0;
      differ = is_equal-SameBucket plan.source_conn plan.dest_conn passed.1;
      source_keys = sym (check_conn_validation-has_keys plan.source_conn) ∙ passed.2;
      dest_keys = sym (check_conn_validation-has_keys plan.dest_conn) ∙ passed.3;
    }

-- A plan that `Create` returns without an error is in the database under its id and is the given plan
-- but for its id, the time of its last run, its tenant, which is the caller's, and its reference to the
-- policy; its name has a letter, a digit, a dash, an underscore or a point, its connectors are not the
-- same bucket of the own storage, and each has the keys that its type needs.
pub create-Created :
    {W : Type 0} (db : Mongo W) (laws : PlanLaws db) (cron_error : Text → Option Text)
    (ctx : Context) (plan p : Plan) (s s' : Service W)
    → create db cron_error ctx plan s ≡ (s', done p)
    → Created db laws ctx plan p s'.world
unfolding create
create-Created db laws cron_error ctx plan p s s' r =
    create_by-Created db laws cron_error ctx plan p s s' (check_plan plan) refl r
