-- ===== src/Gateway/Routes/Permitted.antt =====
-- api/pkg/backend and api/pkg/dataflow: every handler asks the policy first.
use multi_cloud.Common.{ℕ, Bool, Text, codes, ◌≡◌}
use multi_cloud.Common.Actions.{done, Act}
use multi_cloud.Gateway.Routes.{Request}
use multi_cloud.Gateway.Routes.Backends.{
  BackendClient, api_get_backend, api_list_backend, api_create_backend, api_update_backend,
  api_delete_backend, api_list_type,
}
use multi_cloud.Gateway.Routes.Dataflows.{
  DataflowClient, api_list_policy, api_get_policy, api_create_policy, api_update_policy,
  api_delete_policy, api_list_plan, api_get_plan, api_create_plan, api_update_plan, api_delete_plan,
  api_run_plan, api_get_job, api_list_job,
}
use multi_cloud.Gateway.Routes.Router.{
  Route, route_get_backend, route_list_backends, route_post_backend, route_put_backend,
  route_delete_backend, route_list_types, route_post_policy, route_list_policies, route_get_policy,
  route_put_policy, route_delete_policy, route_post_plan, route_list_plans, route_get_plan,
  route_put_plan, route_delete_plan, route_run_plan, route_list_jobs, route_get_job, serve,
}
use multi_cloud.Gateway.Routes.Asks.{
  reply-Serves, in_context-Serves, with_body-Serves, with_list-Serves, Asked, Asks, authorized-Asks,
}

-- The action of the policy that each route stands for.
abbrev pub action_of : Route → Text
action_of route_get_backend = codes "backend:get"
action_of route_list_backends = codes "backend:list"
action_of route_post_backend = codes "backend:create"
action_of route_put_backend = codes "backend:update"
action_of route_delete_backend = codes "backend:delete"
action_of route_list_types = codes "type:list"
action_of route_post_policy = codes "policy:create"
action_of route_list_policies = codes "policy:list"
action_of route_get_policy = codes "policy:get"
action_of route_put_policy = codes "policy:update"
action_of route_delete_policy = codes "policy:delete"
action_of route_post_plan = codes "plan:create"
action_of route_list_plans = codes "plan:list"
action_of route_get_plan = codes "plan:get"
action_of route_put_plan = codes "plan:update"
action_of route_delete_plan = codes "plan:delete"
action_of route_run_plan = codes "plan:run"
action_of route_list_jobs = codes "job:list"
action_of route_get_job = codes "job:get"

module _ {W : Type 0} (allowed : Text → Act W Bool) (backends : BackendClient W)
    (dataflow : DataflowClient W) (r : Request) where
  api_get_backend-Asks : Asks allowed (codes "backend:get") (api_get_backend allowed backends r)
  unfolding api_get_backend
  api_get_backend-Asks = authorized-Asks allowed (reply-Serves _)

  api_list_backend-Asks : Asks allowed (codes "backend:list") (api_list_backend allowed backends r)
  unfolding api_list_backend
  api_list_backend-Asks = authorized-Asks allowed (with_list-Serves _ _ _ (λ req. reply-Serves _))

  api_create_backend-Asks :
      Asks allowed (codes "backend:create") (api_create_backend allowed backends r)
  unfolding api_create_backend
  api_create_backend-Asks = authorized-Asks allowed (with_body-Serves _ _ (λ b. reply-Serves _))

  api_update_backend-Asks :
      Asks allowed (codes "backend:update") (api_update_backend allowed backends r)
  unfolding api_update_backend
  api_update_backend-Asks = authorized-Asks allowed (with_body-Serves _ _ (λ b. reply-Serves _))

  api_delete_backend-Asks :
      Asks allowed (codes "backend:delete") (api_delete_backend allowed backends r)
  unfolding api_delete_backend
  api_delete_backend-Asks = authorized-Asks allowed (reply-Serves _)

  api_list_type-Asks : Asks allowed (codes "type:list") (api_list_type allowed backends r)
  unfolding api_list_type
  api_list_type-Asks = authorized-Asks allowed (with_list-Serves _ _ _ (λ req. reply-Serves _))

  api_create_policy-Asks :
      Asks allowed (codes "policy:create") (api_create_policy allowed dataflow r)
  unfolding api_create_policy
  api_create_policy-Asks =
      authorized-Asks allowed
        (in_context-Serves r _ (λ c. with_body-Serves _ _ (λ b. reply-Serves _)))

  api_list_policy-Asks : Asks allowed (codes "policy:list") (api_list_policy allowed dataflow r)
  unfolding api_list_policy
  api_list_policy-Asks = authorized-Asks allowed (in_context-Serves r _ (λ c. reply-Serves _))

  api_get_policy-Asks : Asks allowed (codes "policy:get") (api_get_policy allowed dataflow r)
  unfolding api_get_policy
  api_get_policy-Asks = authorized-Asks allowed (in_context-Serves r _ (λ c. reply-Serves _))

  api_update_policy-Asks :
      Asks allowed (codes "policy:update") (api_update_policy allowed dataflow r)
  unfolding api_update_policy
  api_update_policy-Asks =
      authorized-Asks allowed
        (in_context-Serves r _ (λ c. with_body-Serves _ _ (λ b. reply-Serves _)))

  api_delete_policy-Asks :
      Asks allowed (codes "policy:delete") (api_delete_policy allowed dataflow r)
  unfolding api_delete_policy
  api_delete_policy-Asks = authorized-Asks allowed (in_context-Serves r _ (λ c. reply-Serves _))

  api_create_plan-Asks : Asks allowed (codes "plan:create") (api_create_plan allowed dataflow r)
  unfolding api_create_plan
  api_create_plan-Asks =
      authorized-Asks allowed
        (in_context-Serves r _ (λ c. with_body-Serves _ _ (λ b. reply-Serves _)))

  api_list_plan-Asks : Asks allowed (codes "plan:list") (api_list_plan allowed dataflow r)
  unfolding api_list_plan
  api_list_plan-Asks =
      authorized-Asks allowed
        (with_list-Serves _ _ _ (λ req. in_context-Serves r _ (λ c. reply-Serves _)))

  api_get_plan-Asks : Asks allowed (codes "plan:get") (api_get_plan allowed dataflow r)
  unfolding api_get_plan
  api_get_plan-Asks = authorized-Asks allowed (in_context-Serves r _ (λ c. reply-Serves _))

  api_update_plan-Asks : Asks allowed (codes "plan:update") (api_update_plan allowed dataflow r)
  unfolding api_update_plan
  api_update_plan-Asks =
      authorized-Asks allowed
        (in_context-Serves r _ (λ c. with_body-Serves _ _ (λ b. reply-Serves _)))

  api_delete_plan-Asks : Asks allowed (codes "plan:delete") (api_delete_plan allowed dataflow r)
  unfolding api_delete_plan
  api_delete_plan-Asks = authorized-Asks allowed (in_context-Serves r _ (λ c. reply-Serves _))

  api_run_plan-Asks : Asks allowed (codes "plan:run") (api_run_plan allowed dataflow r)
  unfolding api_run_plan
  api_run_plan-Asks = authorized-Asks allowed (in_context-Serves r _ (λ c. reply-Serves _))

  api_list_job-Asks : Asks allowed (codes "job:list") (api_list_job allowed dataflow r)
  unfolding api_list_job
  api_list_job-Asks =
      authorized-Asks allowed
        (with_list-Serves _ _ _ (λ req. in_context-Serves r _ (λ c. reply-Serves _)))

  api_get_job-Asks : Asks allowed (codes "job:get") (api_get_job allowed dataflow r)
  unfolding api_get_job
  api_get_job-Asks = authorized-Asks allowed (in_context-Serves r _ (λ c. reply-Serves _))

  -- Whenever a request is answered, on whichever of the routes of backends, types, policies, plans and
  -- jobs it comes, the policy was asked first, for the action of that route; if it refused, then the
  -- answer is 403 and nothing was done after that, and otherwise the answer is 200 or 500, also where
  -- the description of the interface has a 400 or a 404.
  pub serve-Asked :
      (route : Route) (w w' : W) (status : ℕ)
      → serve allowed backends dataflow r route w ≡ (w', done status)
      → Asked allowed (action_of route) w w' status
  unfolding serve
  serve-Asked route_get_backend = api_get_backend-Asks.asks
  serve-Asked route_list_backends = api_list_backend-Asks.asks
  serve-Asked route_post_backend = api_create_backend-Asks.asks
  serve-Asked route_put_backend = api_update_backend-Asks.asks
  serve-Asked route_delete_backend = api_delete_backend-Asks.asks
  serve-Asked route_list_types = api_list_type-Asks.asks
  serve-Asked route_post_policy = api_create_policy-Asks.asks
  serve-Asked route_list_policies = api_list_policy-Asks.asks
  serve-Asked route_get_policy = api_get_policy-Asks.asks
  serve-Asked route_put_policy = api_update_policy-Asks.asks
  serve-Asked route_delete_policy = api_delete_policy-Asks.asks
  serve-Asked route_post_plan = api_create_plan-Asks.asks
  serve-Asked route_list_plans = api_list_plan-Asks.asks
  serve-Asked route_get_plan = api_get_plan-Asks.asks
  serve-Asked route_put_plan = api_update_plan-Asks.asks
  serve-Asked route_delete_plan = api_delete_plan-Asks.asks
  serve-Asked route_run_plan = api_run_plan-Asks.asks
  serve-Asked route_list_jobs = api_list_job-Asks.asks
  serve-Asked route_get_job = api_get_job-Asks.asks
