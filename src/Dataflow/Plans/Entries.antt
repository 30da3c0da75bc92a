-- ===== src/Dataflow/Plans/Entries.antt =====
-- dataflow/pkg/plan/plan.go and dataflow/pkg/policy/policy.go: the parts of a change that touch no
-- cron.
use multi_cloud.Common.{Bool, Text, Option, none, some}
use multi_cloud.Common.Actions.{Act}
use multi_cloud.Common.Promises.{Keeps, bind-Keeps, return-Keeps, fail-Keeps, panic-Keeps, if-Keeps}
use multi_cloud.Dataflow.Triggers.{CronTrigger}
use multi_cloud.Dataflow.Triggers.Manager.{Service, in_db}
use multi_cloud.Dataflow.Updates.{
  Json, new_name, new_text, new_bool, text_or_panic, bool_or_panic, check_new_name, match_name,
}

pub in_db-Keeps :
    {W A : Type 0} (P : CronTrigger → Type 0) (act : Act W A)
    → Keeps (λ (s : Service W). P s.cron) (in_db act)
unfolding in_db
in_db-Keeps P act = record { keep = λ s h. h }

module _ {J : Type 0} (json : Json J) {W : Type 0} where
  text_or_panic-Keeps : {P : W → Type 0} (o : Option Text) → Keeps P (text_or_panic o)
  unfolding text_or_panic
  text_or_panic-Keeps none = panic-Keeps
  text_or_panic-Keeps (some t) = return-Keeps

  pub new_name-Keeps : {P : W → Type 0} (v : Option J) (old : Text) → Keeps P (new_name json v old)
  unfolding new_name check_new_name
  new_name-Keeps none old = return-Keeps
  new_name-Keeps (some v) old =
      bind-Keeps _ (text_or_panic-Keeps (json.as_text v))
        (λ name. if-Keeps (match_name name) return-Keeps fail-Keeps)

  pub new_text-Keeps : {P : W → Type 0} (v : Option J) (old : Text) → Keeps P (new_text json v old)
  unfolding new_text
  new_text-Keeps none old = return-Keeps
  new_text-Keeps (some v) old = text_or_panic-Keeps (json.as_text v)

  bool_or_panic-Keeps : {P : W → Type 0} (o : Option Bool) → Keeps P (bool_or_panic o)
  unfolding bool_or_panic
  bool_or_panic-Keeps none = panic-Keeps
  bool_or_panic-Keeps (some b) = return-Keeps

  pub new_bool-Keeps : {P : W → Type 0} (v : Option J) (old : Bool) → Keeps P (new_bool json v old)
  unfolding new_bool
  new_bool-Keeps none old = return-Keeps
  new_bool-Keeps (some v) old = bool_or_panic-Keeps (json.as_bool v)
