-- ===== src/Gateway/Objects/Asking.antt =====
-- api/pkg/s3: which requests the policy is asked for, and which it is not.
use multi_cloud.Common.{
  ℕ, Bool, true, false, Text, codes, Option, ◌⊎◌, inl, inr, if◌then◌else◌, ◌≡◌, refl, sym, ap,
  arith,
}
use multi_cloud.Common.Actions.{Result, done, failed, panicked, Act, return, continue, ◌>>=◌}
use multi_cloud.Common.Promises.{done-injective}
use multi_cloud.Gateway.Routes.{Answer, forbidden, authorized}
use multi_cloud.Gateway.Routes.Router.{status_of, answer_status}
use multi_cloud.Gateway.Objects.{Cloud, object_delete, bucket_get, bucket_delete, api_list_buckets}
use multi_cloud.Gateway.Multipart.{Uploads}
use multi_cloud.Gateway.Objects.Router.{
  ObjectRequest, is_query, ObjectRoute, route_list_buckets, route_bucket_put, route_bucket_get,
  route_bucket_delete, route_object_put, route_object_delete, route_object_get, with_status,
  permitted, serve_object,
}

-- The action that a route is asked for first.
abbrev pub first_action : ObjectRoute → Text
first_action route_list_buckets = codes "bucket:list"
first_action route_bucket_put = codes "routbucket:put"
first_action route_bucket_get = codes "bucket:get"
first_action route_bucket_delete = codes "bucket:delete"
first_action route_object_put = codes "routobject:put"
first_action route_object_delete = codes "object:delete"
first_action route_object_get = codes "object:get"

-- The requests for which the policy is not asked: a download, and the abortion of an upload.
abbrev pub is_unasked : ObjectRequest → ObjectRoute → Bool
is_unasked r route_list_buckets = false
is_unasked r route_bucket_put = false
is_unasked r route_bucket_get = false
is_unasked r route_bucket_delete = false
is_unasked r route_object_put = false
is_unasked r route_object_delete = is_query r (codes "uploadId")
is_unasked r route_object_get = true

module _ {W : Type 0} (allowed : Text → Act W Bool) where
  -- `Authorize` was asked for the action; if it refused, the answer is 403 and nothing else was done.
  abbrev pub AskedFirst : Text → W → W → ℕ → Type 0
  AskedFirst action w w' status =
      (w1 : W) × (b : Bool) × (allowed action w ≡ (w1, done b))
      × ((b ≡ true) ⊎ ((status ≡ 403) × (w' ≡ w1)))

  record Asks (action : Text) (act : Act W ℕ) : Type 0 where
    asks : (w w' : W) (status : ℕ) → act w ≡ (w', done status) → AskedFirst action w w' status

  permitted_lem :
      (action : Text) (call : Act W ℕ) (w : W) (o : W × Result Bool) (w' : W) (status : ℕ)
      → allowed action w ≡ o
      → continue (λ ok. if ok then call else return 403) o ≡ (w', done status)
      → AskedFirst action w w' status
  permitted_lem action call w (w1, done true) w' status asked h = (w1, true, asked, inl refl)
  permitted_lem action call w (w1, done false) w' status asked h =
      (w1, false, asked, inr (sym (done-injective h), sym (ap (λ p. p.0) h)))
  permitted_lem action call w (w1, failed e) w' status asked h = ground (arith, h)
  permitted_lem action call w (w1, panicked) w' status asked h = ground (arith, h)

  permitted-Asks : (action : Text) (call : Act W ℕ) → Asks action (permitted allowed action call)
  unfolding permitted ◌>>=◌
  permitted-Asks action call = record {
    asks = λ w w' status h. permitted_lem action call w (allowed action w) w' status refl h;
  }

  authorized_lem :
      {A : Type 0} (action : Text) (call : Act W (Answer A)) (w : W) (o : W × Result Bool) (w' : W)
      (status : ℕ)
      → allowed action w ≡ o
      → answer_status (continue (λ ok. if ok then call else return forbidden) o) ≡ (w', done status)
      → AskedFirst action w w' status
  unfolding answer_status status_of
  authorized_lem action call w (w1, done true) w' status asked h = (w1, true, asked, inl refl)
  authorized_lem action call w (w1, done false) w' status asked h =
      (w1, false, asked, inr (sym (done-injective h), sym (ap (λ p. p.0) h)))
  authorized_lem action call w (w1, failed e) w' status asked h = ground (arith, h)
  authorized_lem action call w (w1, panicked) w' status asked h = ground (arith, h)

  authorized-Asks :
      {A : Type 0} (action : Text) (call : Act W (Answer A))
      → Asks action (with_status (authorized allowed action call))
  unfolding authorized ◌>>=◌ with_status
  authorized-Asks action call = record {
    asks = λ w w' status h. authorized_lem action call w (allowed action w) w' status refl h;
  }

module _ {W : Type 0} (cloud : Cloud W) (uploads : Uploads W) (unmarshal : Text → Option Text)
    (r : ObjectRequest) where
  route-Asks :
      (allowed : Text → Act W Bool) (route : ObjectRoute)
      → is_unasked r route ≡ false
      → Asks allowed (first_action route) (serve_object allowed cloud uploads unmarshal r route)
  unfolding serve_object bucket_get bucket_delete api_list_buckets object_delete
  route-Asks allowed route_list_buckets e = authorized-Asks allowed _ _
  route-Asks allowed route_bucket_put e = permitted-Asks allowed _ _
  route-Asks allowed route_bucket_get e = authorized-Asks allowed _ _
  route-Asks allowed route_bucket_delete e = authorized-Asks allowed _ _
  route-Asks allowed route_object_put e = permitted-Asks allowed _ _
  route-Asks allowed route_object_delete e = rw e (authorized-Asks allowed _ _)
  route-Asks allowed route_object_get e = ground (arith, e)

  -- Whenever a request for buckets or objects is answered, the policy was asked first, for the action of
  -- its route, and if it refused, then the answer is 403 and nothing was done after that; but for a
  -- download and for the abortion of an upload in parts.
  pub serve_object-AskedFirst :
      (allowed : Text → Act W Bool) (route : ObjectRoute) (w w' : W) (status : ℕ)
      → is_unasked r route ≡ false
      → serve_object allowed cloud uploads unmarshal r route w ≡ (w', done status)
      → AskedFirst allowed (first_action route) w w' status
  serve_object-AskedFirst allowed route w w' status e h =
      (route-Asks allowed route e).asks w w' status h

  -- For a download and for the abortion of an upload in parts the policy makes no difference: another
  -- one leads to the same answer and the same world.
  pub serve_object-unasked :
      (allowed other : Text → Act W Bool) (route : ObjectRoute)
      → is_unasked r route ≡ true
      → serve_object allowed cloud uploads unmarshal r route
        ≡ serve_object other cloud uploads unmarshal r route
  unfolding serve_object
  serve_object-unasked allowed other route_object_delete e = rw e refl
  serve_object-unasked allowed other route_object_get e = refl
  serve_object-unasked allowed other route_list_buckets e = ground (arith, e)
  serve_object-unasked allowed other route_bucket_put e = ground (arith, e)
  serve_object-unasked allowed other route_bucket_get e = ground (arith, e)
  serve_object-unasked allowed other route_bucket_delete e = ground (arith, e)
  serve_object-unasked allowed other route_object_put e = ground (arith, e)
