-- ===== src/Gateway/Routes/Asks.antt =====
-- api/pkg/backend and api/pkg/dataflow: a handler behind the policy asks it first.
use multi_cloud.Common.{
  ℕ, Bool, true, false, Text, codes, List, Option, none, some, if◌then◌else◌, ◌≡◌, ◌∙◌, ◌⊎◌, inl,
  inr, refl, sym, ap, arith,
}
use multi_cloud.Common.Int.{ℤ}
use multi_cloud.Common.Actions.{Result, done, failed, panicked, Act, return, continue, ◌>>=◌}
use multi_cloud.Common.Promises.{Ensures, return-Ensures, panic-Ensures, done-injective}
use multi_cloud.Policy.Check.{TextMap, lookup}
use multi_cloud.Dataflow.Types.{Context}
use multi_cloud.Gateway.Context.{
  Attribute, filter_context, policy_context, text_attribute, texts_attribute, bool_attribute,
}
use multi_cloud.Gateway.Params.{Query, get_pagination_param, get_sort_param, get_filter}
use multi_cloud.Gateway.Routes.{
  Answer, forbidden, error_of, Request, ListRequest, with_actx, in_context, replied, reply,
  with_body, with_sort, with_page, with_list, authorized,
}
use multi_cloud.Gateway.Routes.Router.{status_of, answer_status}

abbrev Served : {A : Type 0} → Answer A → Type 0
Served a = (status_of a ≡ 200) ⊎ (status_of a ≡ 500)

-- The call answers with an entity or with an error of the server.
abbrev Serves : {W A : Type 0} → Act W (Answer A) → Type 0
Serves act = Ensures (λ w. Unit {0}) act (λ a w. Served a)

module _ {W A : Type 0} where
  replied-Served : (o : W × Result A) (w' : W) (a : Answer A) → replied o ≡ (w', done a) → Served a
  unfolding replied status_of
  replied-Served (w, done b) w' a h = inl (ap status_of (sym (done-injective h)))
  replied-Served (w, failed e) w' a h = inr (ap status_of (sym (done-injective h)))
  replied-Served (w, panicked) w' a h = ground (arith, h)

  pub reply-Serves : (call : Act W A) → Serves (reply call)
  unfolding reply
  reply-Serves call = record { ensure = λ w w' a h u. replied-Served (call w) w' a h }

  error-Serves : Serves {W = W} {A = A} (return (error_of 500))
  unfolding status_of
  error-Serves = return-Ensures (λ w u. inr refl)

  with_actx-Serves :
      (call : Context → Act W (Answer A)) (o : Option Attribute)
      → ((actx : Context) → Serves (call actx))
      → Serves (with_actx call o)
  unfolding with_actx
  with_actx-Serves call (some (filter_context actx)) s = s actx
  with_actx-Serves call (some (policy_context c)) s = panic-Ensures
  with_actx-Serves call (some (text_attribute t)) s = panic-Ensures
  with_actx-Serves call (some (texts_attribute ts)) s = panic-Ensures
  with_actx-Serves call (some (bool_attribute b)) s = panic-Ensures
  with_actx-Serves call none s = panic-Ensures

  pub in_context-Serves :
      (r : Request) (call : Context → Act W (Answer A))
      → ((actx : Context) → Serves (call actx))
      → Serves (in_context r call)
  unfolding in_context
  in_context-Serves r call s = with_actx-Serves call (lookup (codes "context") r.attributes) s

  pub with_body-Serves :
      {B : Type 0} (call : B → Act W (Answer A)) (o : Option B)
      → ((b : B) → Serves (call b))
      → Serves (with_body call o)
  unfolding with_body
  with_body-Serves call none s = error-Serves
  with_body-Serves call (some b) s = s b

  with_sort-Serves :
      (call : ListRequest → Act W (Answer A)) (page : ℤ × ℤ) (filter : TextMap Text)
      (o : Option (List Text × List Text))
      → ((req : ListRequest) → Serves (call req))
      → Serves (with_sort call page filter o)
  unfolding with_sort
  with_sort-Serves call page filter none s = error-Serves
  with_sort-Serves call page filter (some (keys, dirs)) s = s _

  with_page-Serves :
      (query : Query) (opts : List Text) (call : ListRequest → Act W (Answer A))
      (o : Option (ℤ × ℤ))
      → ((req : ListRequest) → Serves (call req))
      → Serves (with_page query opts call o)
  unfolding with_page
  with_page-Serves query opts call none s = error-Serves
  with_page-Serves query opts call (some page) s =
      with_sort-Serves call page (get_filter query opts) (get_sort_param query) s

  pub with_list-Serves :
      (query : Query) (opts : List Text) (call : ListRequest → Act W (Answer A))
      → ((req : ListRequest) → Serves (call req))
      → Serves (with_list query opts call)
  unfolding with_list
  with_list-Serves query opts call s =
      with_page-Serves query opts call (get_pagination_param query) s

module _ {W : Type 0} (allowed : Text → Act W Bool) where
  -- `Authorize` was asked for the action; if it refused, the answer is 403 and nothing else was done.
  abbrev pub Asked : Text → W → W → ℕ → Type 0
  Asked action w w' status =
      (w1 : W) × (b : Bool) × (allowed action w ≡ (w1, done b))
      × (b ≡ false → (status ≡ 403) × (w' ≡ w1))
      × (b ≡ true → (status ≡ 200) ⊎ (status ≡ 500))

  answer_status-given :
      {A : Type 0} (o : W × Result (Answer A)) (w' : W) (status : ℕ)
      → ((w : W) (a : Answer A) → o ≡ (w, done a) → Served a)
      → answer_status o ≡ (w', done status)
      → (status ≡ 200) ⊎ (status ≡ 500)
  unfolding answer_status
  answer_status-given (w, done a) w' status s h =
      let same = done-injective h in
      elim (s w a refl) [
        | inl found ↦ inl (sym same ∙ found)
        | inr broken ↦ inr (sym same ∙ broken)
      ]
  answer_status-given (w, failed e) w' status s h = ground (arith, h)
  answer_status-given (w, panicked) w' status s h = ground (arith, h)

  pub authorized_lem :
      {A : Type 0} (action : Text) (call : Act W (Answer A)) (w : W) (o : W × Result Bool) (w' : W)
      (status : ℕ)
      → Serves call
      → allowed action w ≡ o
      → answer_status (continue (λ ok. if ok then call else return forbidden) o) ≡ (w', done status)
      → Asked action w w' status
  unfolding answer_status status_of
  authorized_lem action call w (w1, done true) w' status s asked h = (
    w1,
    true,
    asked,
    (λ e. ground (arith, e)),
    λ e. answer_status-given (call w1) w' status (λ w2 a got. s.ensure w1 w2 a got tt) h,
  )
  authorized_lem action call w (w1, done false) w' status s asked h = (
    w1,
    false,
    asked,
    (λ e. (sym (done-injective h), sym (ap (λ p. p.0) h))),
    λ e. ground (arith, e),
  )
  authorized_lem action call w (w1, failed e) w' status s asked h = ground (arith, h)
  authorized_lem action call w (w1, panicked) w' status s asked h = ground (arith, h)

  -- Whenever the handler answers, it has asked for the action first.
  pub record Asks {A : Type 0} (action : Text) (act : Act W (Answer A)) : Type 0 where
    pub asks :
        (w w' : W) (status : ℕ)
        → answer_status (act w) ≡ (w', done status)
        → Asked action w w' status

  pub authorized-Asks :
      {A : Type 0} {action : Text} {call : Act W (Answer A)}
      → Serves call
      → Asks action (authorized allowed action call)
  unfolding authorized ◌>>=◌
  authorized-Asks {A} {action} {call} s = record {
    asks = λ w w' status h. authorized_lem action call w (allowed action w) w' status s refl h;
  }
