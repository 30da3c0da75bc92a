-- ===== src/Gateway/Routes/Tests.antt =====
-- api/pkg/backend and api/pkg/dataflow: the routes under a policy that permits one action.
use multi_cloud.Common.{ℕ, suc, ◌≡◌, refl, Bool, Text, codes, text_eq, [], ◌∷◌, none}
use multi_cloud.Common.Int.{pos}
use multi_cloud.Common.Actions.{done, Act, fail}
use multi_cloud.Gateway.Context.{filter_context, new_context}
use multi_cloud.Policy.Check.{lookup}
use multi_cloud.Gateway.Params.{get_pagination_param, get_sort_param}
use multi_cloud.Gateway.Routes.{Request, authorized, in_context, reply, with_list}
use multi_cloud.Gateway.Routes.Backends.{BackendClient, api_get_backend}
use multi_cloud.Gateway.Routes.Dataflows.{DataflowClient, api_list_plan}
use multi_cloud.Gateway.Routes.Router.{route_get_backend, route_list_plans, serve}
use multi_cloud.Gateway.Routes.Permitted.{serve-Asked}
use multi_cloud.Gateway.Routes.Asks.{Asked}

-- The world counts what the policy is asked.
abbrev lists_plans : Text → Act ℕ Bool
lists_plans action w = (suc w, done (text_eq action (codes "plan:list")))

abbrev no_backends : BackendClient ℕ
no_backends = record {
  get_backend = λ id. fail [];
  list_backend = λ req. fail [];
  create_backend = λ d. fail [];
  update_backend = λ id access security. fail [];
  delete_backend = λ id. fail [];
  list_type = λ req. fail [];
}

abbrev no_plans : DataflowClient ℕ
no_plans = record {
  list_policy = λ c. fail [];
  get_policy = λ c id. fail [];
  create_policy = λ c p. fail [];
  update_policy = λ c id body. fail [];
  delete_policy = λ c id. fail [];
  list_plan = λ c req w. (w, done ([], pos 0));
  get_plan = λ c id. fail [];
  create_plan = λ c p. fail [];
  update_plan = λ c id body. fail [];
  delete_plan = λ c id. fail [];
  run_plan = λ c id. fail [];
  get_job = λ c id. fail [];
  list_job = λ c req. fail [];
}

abbrev plain : Request
plain = record {
  path_parameter = λ name. codes "t1";
  query = λ name. [];
  attributes = (codes "context", filter_context new_context) ∷ [];
  read_backend = none;
  read_update = none;
  read_policy = none;
  read_plan = none;
  read_all = none;
}

refuses : serve lists_plans no_backends no_plans plain route_get_backend 0 ≡ (1, done 403)
unfolding serve api_get_backend authorized
refuses = refl

lists : serve lists_plans no_backends no_plans plain route_list_plans 0 ≡ (1, done 200)
unfolding serve api_list_plan authorized in_context reply with_list get_pagination_param
    get_sort_param lookup
lists = refl

refused_at_once : Asked lists_plans (codes "backend:get") 0 1 403
refused_at_once =
    serve-Asked lists_plans no_backends no_plans plain route_get_backend 0 1 403 refuses
