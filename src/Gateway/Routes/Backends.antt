-- ===== src/Gateway/Routes/Backends.antt =====
-- api/pkg/backend/service.go: the handlers of backends and their types.
use multi_cloud.Common.{Bool, Text, codes, List, [], ◌∷◌, Option, none, some}
use multi_cloud.Common.Int.{ℤ}
use multi_cloud.Common.Actions.{Act}
use multi_cloud.Backend.Types.{BackendDetail, TypeDetail}
use multi_cloud.Gateway.Routes.{
  Answer, Request, ListRequest, reply, with_body, with_list, authorized,
}

-- The client of the backend service.
pub record BackendClient (W : Type 0) : Type 0 where
  pub get_backend : Text → Act W BackendDetail
  pub list_backend : ListRequest → Act W (List BackendDetail × ℤ)
  pub create_backend : BackendDetail → Act W BackendDetail
  pub update_backend : Text → Text → Text → Act W BackendDetail
  pub delete_backend : Text → Act W (Unit {0})
  pub list_type : ListRequest → Act W (List TypeDetail × ℤ)

-- The id in the body takes the place of that in the path.
unfoldable pub updated_id : Text → Option Text → Text
updated_id path none = path
updated_id path (some id) = id

module _ {W : Type 0} (allowed : Text → Act W Bool) (client : BackendClient W) (r : Request) where
  unfoldable pub api_get_backend : Act W (Answer BackendDetail)
  api_get_backend =
      authorized allowed (codes "backend:get")
        (reply (client.get_backend (r.path_parameter (codes "id"))))

  unfoldable pub api_list_backend : Act W (Answer (List BackendDetail × ℤ))
  api_list_backend = authorized allowed (codes "backend:list") (
      with_list r.query (codes "name" ∷ codes "type" ∷ codes "region" ∷ [])
        (λ req. reply (client.list_backend req)))

  unfoldable pub api_create_backend : Act W (Answer BackendDetail)
  api_create_backend =
      authorized allowed (codes "backend:create")
        (with_body (λ detail. reply (client.create_backend detail)) r.read_backend)

  unfoldable pub api_update_backend : Act W (Answer BackendDetail)
  api_update_backend = authorized allowed (codes "backend:update") (
      with_body
        (λ body. reply (
          client.update_backend (updated_id (r.path_parameter (codes "id")) body.id) body.access
            body.security))
        r.read_update)

  unfoldable pub api_delete_backend : Act W (Answer (Unit {0}))
  api_delete_backend =
      authorized allowed (codes "backend:delete")
        (reply (client.delete_backend (r.path_parameter (codes "id"))))

  unfoldable pub api_list_type : Act W (Answer (List TypeDetail × ℤ))
  api_list_type =
      authorized allowed (codes "type:list")
        (with_list r.query (codes "name" ∷ []) (λ req. reply (client.list_type req)))
