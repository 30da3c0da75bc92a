-- ===== src/Gateway/Routes.antt =====
-- api/pkg/backend and api/pkg/dataflow: what the handlers of the gateway share, and the router. An
-- answer that is an error is kept as its status alone.
pub mod Backends
pub mod Dataflows
pub mod Router
pub mod Asks
pub mod Permitted
mod Tests
use multi_cloud.Common.{ℕ, Bool, Text, codes, List, Option, none, some, if◌then◌else◌}
use multi_cloud.Common.Int.{ℤ}
use multi_cloud.Common.Actions.{Result, done, failed, panicked, Act, return, panic, ◌>>=◌}
use multi_cloud.Policy.Check.{TextMap, lookup}
use multi_cloud.Dataflow.Types.{Context}
use multi_cloud.Dataflow.Convert.{PbPlan, PbPolicy}
use multi_cloud.Backend.Types.{BackendDetail}
use multi_cloud.Gateway.Context.{Attribute, filter_context}
use multi_cloud.Gateway.Params.{Query, get_pagination_param, get_sort_param, get_filter}

pub data Answer (A : Type 0) : Type 0 where
  forbidden : Answer A
  error_of : ℕ → Answer A
  entity : A → Answer A

-- What `ReadEntity` reads over a request to update a backend: the id only if the body has one.
pub record UpdateBody : Type 0 where
  pub id : Option Text
  pub access : Text
  pub security : Text

-- A request as go-restful gives it, with what `ReadEntity` and `ReadAll` make of its body, `none` for
-- an error of theirs.
pub record Request : Type 0 where
  pub path_parameter : Text → Text
  pub query : Query
  pub attributes : TextMap Attribute
  pub read_backend : Option BackendDetail
  pub read_update : Option UpdateBody
  pub read_policy : Option PbPolicy
  pub read_plan : Option PbPlan
  pub read_all : Option Text

-- The fields of a request to list.
pub record ListRequest : Type 0 where
  pub limit : ℤ
  pub offset : ℤ
  pub sort_keys : List Text
  pub sort_dirs : List Text
  pub filter : TextMap Text

-- `request.Attribute(c.KContext).(*c.Context)`: another value panics.
unfoldable pub with_actx : {W A : Type 0} → (Context → Act W A) → Option Attribute → Act W A
with_actx call (some (filter_context actx)) = call actx
with_actx call (some _) = panic
with_actx call none = panic

unfoldable pub in_context : {W A : Type 0} → Request → (Context → Act W A) → Act W A
unfolding with_actx
in_context r call = with_actx call (lookup (codes "context") r.attributes)

-- `if err != nil { response.WriteError(500, err); return }` and `response.WriteEntity(res)`.
unfoldable pub replied : {W A : Type 0} → W × Result A → W × Result (Answer A)
replied (w, done a) = (w, done (entity a))
replied (w, failed e) = (w, done (error_of 500))
replied (w, panicked) = (w, panicked)

unfoldable pub reply : {W A : Type 0} → Act W A → Act W (Answer A)
unfolding replied
reply call w = replied (call w)

-- A body that cannot be read is answered with an error.
unfoldable pub with_body : {W A B : Type 0} → (B → Act W (Answer A)) → Option B → Act W (Answer A)
with_body call none = return (error_of 500)
with_body call (some body) = call body

-- The three parameters of a request to list, each with its error.
unfoldable pub with_sort :
    {W A : Type 0}
    → (ListRequest → Act W (Answer A))
    → ℤ × ℤ
    → TextMap Text
    → Option (List Text × List Text)
    → Act W (Answer A)
with_sort call page filter none = return (error_of 500)
with_sort call page filter (some (keys, dirs)) = call (record {
  limit = page.0;
  offset = page.1;
  sort_keys = keys;
  sort_dirs = dirs;
  filter = filter;
})

unfoldable pub with_page :
    {W A : Type 0}
    → Query
    → List Text
    → (ListRequest → Act W (Answer A))
    → Option (ℤ × ℤ)
    → Act W (Answer A)
unfolding with_sort
with_page query opts call none = return (error_of 500)
with_page query opts call (some page) =
    with_sort call page (get_filter query opts) (get_sort_param query)

unfoldable pub with_list :
    {W A : Type 0} → Query → List Text → (ListRequest → Act W (Answer A)) → Act W (Answer A)
unfolding with_page
with_list query opts call = with_page query opts call (get_pagination_param query)

-- `policy.Authorize` of this request, which has answered the request itself if it is false.
module _ {W : Type 0} (allowed : Text → Act W Bool) where
  unfoldable pub authorized : {A : Type 0} → Text → Act W (Answer A) → Act W (Answer A)
  unfolding ◌>>=◌
  authorized action call = allowed action >>= λ ok. if ok then call else return forbidden
