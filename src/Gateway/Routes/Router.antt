-- ===== src/Gateway/Routes/Router.antt =====
-- api/pkg/backend/router.go and api/pkg/dataflow/router.go: the handler of each route.
use multi_cloud.Common.{ℕ, Bool, Text}
use multi_cloud.Common.Actions.{Result, done, failed, panicked, Act}
use multi_cloud.Gateway.Routes.{Answer, forbidden, error_of, entity, Request}
use multi_cloud.Gateway.Routes.Backends.{
  BackendClient, api_get_backend, api_list_backend, api_create_backend, api_update_backend,
  api_delete_backend, api_list_type,
}
use multi_cloud.Gateway.Routes.Dataflows.{
  DataflowClient, api_list_policy, api_get_policy, api_create_policy, api_update_policy,
  api_delete_policy, api_list_plan, api_get_plan, api_create_plan, api_update_plan, api_delete_plan,
  api_run_plan, api_get_job, api_list_job,
}

-- A method and a path.
pub data Route : Type 0 where
  route_get_backend : Route
  route_list_backends : Route
  route_post_backend : Route
  route_put_backend : Route
  route_delete_backend : Route
  route_list_types : Route
  route_post_policy : Route
  route_list_policies : Route
  route_get_policy : Route
  route_put_policy : Route
  route_delete_policy : Route
  route_post_plan : Route
  route_list_plans : Route
  route_get_plan : Route
  route_put_plan : Route
  route_delete_plan : Route
  route_run_plan : Route
  route_list_jobs : Route
  route_get_job : Route

-- The status of an answer.
unfoldable pub status_of : {A : Type 0} → Answer A → ℕ
status_of forbidden = 403
status_of (error_of status) = status
status_of (entity a) = 200

unfoldable pub answer_status : {W A : Type 0} → W × Result (Answer A) → W × Result ℕ
unfolding status_of
answer_status (w, done a) = (w, done (status_of a))
answer_status (w, failed e) = (w, failed e)
answer_status (w, panicked) = (w, panicked)

module _ {W : Type 0} (allowed : Text → Act W Bool) (backends : BackendClient W)
    (dataflow : DataflowClient W) (r : Request) where
  -- The status that a request on a route is answered with.
  unfoldable pub serve : Route → Act W ℕ
  unfolding answer_status
  serve route_get_backend w = answer_status (api_get_backend allowed backends r w)
  serve route_list_backends w = answer_status (api_list_backend allowed backends r w)
  serve route_post_backend w = answer_status (api_create_backend allowed backends r w)
  serve route_put_backend w = answer_status (api_update_backend allowed backends r w)
  serve route_delete_backend w = answer_status (api_delete_backend allowed backends r w)
  serve route_list_types w = answer_status (api_list_type allowed backends r w)
  serve route_post_policy w = answer_status (api_create_policy allowed dataflow r w)
  serve route_list_policies w = answer_status (api_list_policy allowed dataflow r w)
  serve route_get_policy w = answer_status (api_get_policy allowed dataflow r w)
  serve route_put_policy w = answer_status (api_update_policy allowed dataflow r w)
  serve route_delete_policy w = answer_status (api_delete_policy allowed dataflow r w)
  serve route_post_plan w = answer_status (api_create_plan allowed dataflow r w)
  serve route_list_plans w = answer_status (api_list_plan allowed dataflow r w)
  serve route_get_plan w = answer_status (api_get_plan allowed dataflow r w)
  serve route_put_plan w = answer_status (api_update_plan allowed dataflow r w)
  serve route_delete_plan w = answer_status (api_delete_plan allowed dataflow r w)
  serve route_run_plan w = answer_status (api_run_plan allowed dataflow r w)
  serve route_list_jobs w = answer_status (api_list_job allowed dataflow r w)
  serve route_get_job w = answer_status (api_get_job allowed dataflow r w)
