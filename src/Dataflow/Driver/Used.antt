-- ===== src/Dataflow/Driver/Used.antt =====
-- dataflow/pkg/db/drivers/mongo/mongo.go, `DeletePolicy`: the test that no plan uses the policy.
use multi_cloud.Common.{
  ℕ, zero, suc, ◌≡◌, ◌≢◌, refl, ap, arith, Bool, false, Text, codes, text_eq, contained, List, [],
  ◌∷◌, Option, none, some,
}
use multi_cloud.Common.Actions.{Act, Result, done, failed, panicked, continue, ◌>>=◌}
use multi_cloud.Common.Promises.{Ensures, any-Ensures, done-injective}
use multi_cloud.Dataflow.Types.{Context, err_db_err, err_policy_not_exist, err_is_used_by_plan}
use multi_cloud.Dataflow.Lock.{LockResult, lock_success, lock_busy, lock_db_err, lock}
use multi_cloud.Dataflow.Driver.{
  all_of, Reply, found, missing, broken, Write, written, not_found, duplicate, write_error, Mongo,
  answered, asked, stored, wrote, id_or_panic, hex_id, lock_manager, manager_turns, unlocked,
  with_manager, managed,
}
use multi_cloud.Dataflow.Driver.Policies.{
  used_selector, remove_unused, remove_policy, delete_policy,
}

-- The keys of a plan in the database.
abbrev pub plan_keys : List Text
plan_keys =
    codes "_id"
    ∷ codes "name"
    ∷ codes "description"
    ∷ codes "type"
    ∷ codes "srcConn"
    ∷ codes "destConn"
    ∷ codes "filter"
    ∷ codes "remainSource"
    ∷ codes "lastSchedTime"
    ∷ codes "policyId"
    ∷ codes "policyRef"
    ∷ codes "policyName"
    ∷ codes "policyEnabled"
    ∷ codes "tenantId"
    ∷ codes "userId"
    ∷ codes "asist"
    ∷ []

-- A query for a key that no document has finds no document.
abbrev pub CountsKeys : {W : Type 0} → Mongo W → Type 0
CountsKeys {W} db =
    (key value : Text) (more : List (Text × Text)) (w : W) (n : ℕ)
    → contained key plan_keys ≡ false
    → (db.plans.count (all_of ((key, value) ∷ more)) w).1 ≡ found n
    → n ≡ 0

abbrev says_used : {A : Type 0} → Result A → Bool
says_used (done a) = false
says_used (failed e) = text_eq e err_is_used_by_plan
says_used panicked = false

-- The call never says that the policy is used.
record Unused {W A : Type 0} (act : Act W A) : Type 0 where
  never : (w : W) → says_used (act w).1 ≡ false

continue-says_used :
    {W A B : Type 0} (Q : A → Type 0) (rest : A → Act W B) (o : W × Result A)
    → ((a : A) → Q a → Unused (rest a))
    → ((w : W) (a : A) → o ≡ (w, done a) → Q a)
    → says_used o.1 ≡ false
    → says_used (continue rest o).1 ≡ false
continue-says_used Q rest (w, done a) next given first = (next a (given w a refl)).never w
continue-says_used Q rest (w, failed e) next given first = first
continue-says_used Q rest (w, panicked) next given first = first

bind-Unused :
    {W A B : Type 0} (act : Act W A) {rest : A → Act W B} (Q : A → Type 0)
    → Unused act
    → Ensures (λ w. Unit {0}) act (λ a w. Q a)
    → ((a : A) → Q a → Unused (rest a))
    → Unused (act >>= rest)
unfolding ◌>>=◌
bind-Unused act {rest} Q first given next = record {
  never = λ w.
      continue-says_used Q rest (act w) next (λ w1 a e. given.ensure w w1 a e tt) (first.never w);
}

answered-says_used :
    {W A : Type 0} (o : W × Reply A)
    → (says_used (answered err_policy_not_exist err_db_err o).1 ≡ false)
      × (says_used (answered err_db_err err_db_err o).1 ≡ false)
unfolding answered
answered-says_used (w, found a) = (refl, refl)
answered-says_used (w, missing) = (refl, refl)
answered-says_used (w, broken) = (refl, refl)

stored-says_used :
    {W : Type 0} (o : W × Write) → says_used (stored err_policy_not_exist o).1 ≡ false
unfolding stored
stored-says_used (w, written) = refl
stored-says_used (w, not_found) = refl
stored-says_used (w, duplicate e) = refl
stored-says_used (w, write_error e) = refl

answered-found :
    {W A : Type 0} (absent error : Text) (o : W × Reply A) (w : W) (a : A)
    → answered absent error o ≡ (w, done a)
    → o.1 ≡ found a
unfolding answered
answered-found absent error (w0, found b) w a e = ap found (done-injective e)
answered-found absent error (w0, missing) w a e = ground (arith, e)
answered-found absent error (w0, broken) w a e = ground (arith, e)

foreign_key : contained (codes "policy_ref:$ref") plan_keys ≡ false
unfolding contained
foreign_key = refl

module _ {W : Type 0} (db : Mongo W) (counts : CountsKeys db) (ctx : Context) where
  remove_none-says_used :
      (id : Text) (n : ℕ) (w : W) → n ≡ 0 → says_used (remove_unused db id n w).1 ≡ false
  unfolding remove_unused wrote
  remove_none-says_used id zero w e = stored-says_used _
  remove_none-says_used id (suc n) w e = absurd (omega (arith, e))

  id_or_panic-says_used : (o : Option Text) (w : W) → says_used (id_or_panic o w).1 ≡ false
  unfolding id_or_panic
  id_or_panic-says_used none w = refl
  id_or_panic-says_used (some id) w = refl

  -- The count of the plans that use a policy is none.
  count_none :
      (id : Text)
      → Ensures
          (λ w. Unit {0})
          (asked err_db_err err_db_err (db.plans.count (used_selector id)))
          (λ n w. n ≡ 0)
  unfolding asked
  count_none id = record {
    ensure = λ w w' n e p.
        counts (codes "policy_ref:$ref") (codes "policy") _ w n foreign_key
          (answered-found err_db_err err_db_err _ w' n e);
  }

  remove_policy-Unused : (id : Text) → Unused (remove_policy db ctx id)
  unfolding remove_policy hex_id asked
  remove_policy-Unused id =
      bind-Unused _ (λ hex. Unit {0})
        (record { never = id_or_panic-says_used (db.object_id_hex id) }) any-Ensures
        (λ hex any.
          bind-Unused _ (λ po. Unit {0}) (record { never = λ w. (answered-says_used _).0 })
            any-Ensures
            (λ po any_po.
              bind-Unused _ (λ n. n ≡ 0) (record { never = λ w. (answered-says_used _).1 })
                (count_none po.id)
                (λ n none_used. record { never = λ w. remove_none-says_used po.id n w none_used })))

  managed-says_used :
      (id : Text) (o : W × LockResult)
      → says_used (with_manager db (remove_policy db ctx id) o).1 ≡ false
  unfolding with_manager unlocked
  managed-says_used id (w, lock_success) = (remove_policy-Unused id).never w
  managed-says_used id (w, lock_busy) = refl
  managed-says_used id (w, lock_db_err) = refl

-- If a query for a key that no plan has finds no plan, then `DeletePolicy` never refuses a policy
-- because a plan uses it, whatever plans there are: the keys of its query are not those of a plan.
pub delete_policy-not_used :
    {W : Type 0} (db : Mongo W) (ctx : Context) (id : Text) (w : W)
    → CountsKeys db
    → (delete_policy db ctx id w).1 ≢ failed err_is_used_by_plan
unfolding delete_policy managed
delete_policy-not_used db ctx id w counts h = ground (
  arith,
  ap says_used h,
  managed-says_used db counts ctx id (manager_turns db 3 (lock db.locks lock_manager 5 w)),
)
