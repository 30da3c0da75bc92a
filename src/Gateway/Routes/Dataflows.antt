-- ===== src/Gateway/Routes/Dataflows.antt =====
-- api/pkg/dataflow/service.go: the handlers of policies, plans and jobs. The context is given to the
-- service as the JSON that `ToJson` makes and the service reads back.
use multi_cloud.Common.{Bool, Text, codes, List, [], ◌∷◌, Option}
use multi_cloud.Common.Int.{ℤ}
use multi_cloud.Common.Actions.{Act}
use multi_cloud.Dataflow.Types.{Context}
use multi_cloud.Dataflow.Convert.{PbPlan, PbPolicy, PbJob}
use multi_cloud.Gateway.Routes.{
  Answer, Request, ListRequest, in_context, reply, with_body, with_list, authorized,
}

-- The client of the dataflow service. An answer without a policy is `none`.
pub record DataflowClient (W : Type 0) : Type 0 where
  pub list_policy : Context → Act W (List PbPolicy)
  pub get_policy : Context → Text → Act W PbPolicy
  pub create_policy : Context → PbPolicy → Act W (Option PbPolicy)
  pub update_policy : Context → Text → Text → Act W (Option PbPolicy)
  pub delete_policy : Context → Text → Act W (Unit {0})
  pub list_plan : Context → ListRequest → Act W (List PbPlan × ℤ)
  pub get_plan : Context → Text → Act W PbPlan
  pub create_plan : Context → PbPlan → Act W PbPlan
  pub update_plan : Context → Text → Text → Act W PbPlan
  pub delete_plan : Context → Text → Act W (Unit {0})
  pub run_plan : Context → Text → Act W Text
  pub get_job : Context → Text → Act W PbJob
  pub list_job : Context → ListRequest → Act W (List PbJob × ℤ)

module _ {W : Type 0} (allowed : Text → Act W Bool) (client : DataflowClient W) (r : Request) where
  abbrev id_in_path : Text
  id_in_path = r.path_parameter (codes "id")

  unfoldable pub api_list_policy : Act W (Answer (List PbPolicy))
  api_list_policy =
      authorized allowed (codes "policy:list")
        (in_context r (λ actx. reply (client.list_policy actx)))

  unfoldable pub api_get_policy : Act W (Answer PbPolicy)
  api_get_policy =
      authorized allowed (codes "policy:get")
        (in_context r (λ actx. reply (client.get_policy actx id_in_path)))

  unfoldable pub api_create_policy : Act W (Answer (Option PbPolicy))
  api_create_policy = authorized allowed (codes "policy:create") (
      in_context r (λ actx. with_body (λ pol. reply (client.create_policy actx pol)) r.read_policy))

  unfoldable pub api_update_policy : Act W (Answer (Option PbPolicy))
  api_update_policy = authorized allowed (codes "policy:update") (
      in_context r
        (λ actx. with_body (λ body. reply (client.update_policy actx id_in_path body)) r.read_all))

  unfoldable pub api_delete_policy : Act W (Answer (Unit {0}))
  api_delete_policy =
      authorized allowed (codes "policy:delete")
        (in_context r (λ actx. reply (client.delete_policy actx id_in_path)))

  -- The parameters of a list are read before the context.
  unfoldable pub api_list_plan : Act W (Answer (List PbPlan × ℤ))
  api_list_plan = authorized allowed (codes "plan:list") (
      with_list r.query (codes "name" ∷ codes "type" ∷ codes "bucketname" ∷ [])
        (λ req. in_context r (λ actx. reply (client.list_plan actx req))))

  unfoldable pub api_get_plan : Act W (Answer PbPlan)
  api_get_plan =
      authorized allowed (codes "plan:get")
        (in_context r (λ actx. reply (client.get_plan actx id_in_path)))

  unfoldable pub api_create_plan : Act W (Answer PbPlan)
  api_create_plan =
      authorized allowed (codes "plan:create") (
        in_context r (λ actx. with_body (λ plan. reply (client.create_plan actx plan)) r.read_plan))

  unfoldable pub api_update_plan : Act W (Answer PbPlan)
  api_update_plan = authorized allowed (codes "plan:update") (
      in_context r
        (λ actx. with_body (λ body. reply (client.update_plan actx id_in_path body)) r.read_all))

  unfoldable pub api_delete_plan : Act W (Answer (Unit {0}))
  api_delete_plan =
      authorized allowed (codes "plan:delete")
        (in_context r (λ actx. reply (client.delete_plan actx id_in_path)))

  unfoldable pub api_run_plan : Act W (Answer Text)
  api_run_plan =
      authorized allowed (codes "plan:run")
        (in_context r (λ actx. reply (client.run_plan actx id_in_path)))

  unfoldable pub api_get_job : Act W (Answer PbJob)
  api_get_job =
      authorized allowed (codes "job:get")
        (in_context r (λ actx. reply (client.get_job actx id_in_path)))

  unfoldable pub api_list_job : Act W (Answer (List PbJob × ℤ))
  api_list_job = authorized allowed (codes "job:list") (
      with_list r.query (codes "planName" ∷ codes "type" ∷ [])
        (λ req. in_context r (λ actx. reply (client.list_job actx req))))
