-- ===== src/Dataflow/Convert/RoundTrip.antt =====
-- dataflow/pkg/service.go: a plan that is made from a request and answered again.
use multi_cloud.Common.{◌≡◌, ◌∙◌, refl, ap, sym, false, is_empty, List, [], ◌∷◌, none, some}
use multi_cloud.Common.Actions.{done, ◌>>=◌}
use multi_cloud.Datamover.Types.{
  StorType, opensds, aws_s3, azure_blob, hw_obs, ceph_s3, hw_fusionstorage, hw_fusioncloud,
  other_type, Kv, Connector,
}
use multi_cloud.Dataflow.Types.{Filter, AsistInfo, Plan}
use multi_cloud.Dataflow.Convert.{
  PbPlan, copy_kvs, rsp_conn_by, fill_rsp_connector, plan_model2_resp, req_conn_by,
  fill_req_connector, req_filter, req_asist, check_asist_vlidation, check_filled, plan_of_request,
}

-- A connector of a known type that says no more than its type needs.
abbrev pub IsPlain : StorType → Connector → Type 0
IsPlain opensds conn = conn.conn_config ≡ []
IsPlain (other_type t) conn = ⊥
IsPlain _ conn = conn.bucket_name ≡ []

copy_kvs_same : (kvs : List Kv) → copy_kvs kvs ≡ kvs
unfolding copy_kvs
copy_kvs_same [] = refl
copy_kvs_same (kv ∷ kvs) = ap (λ ks. kv ∷ ks) (copy_kvs_same kvs)

module _ (t : StorType) (conn : Connector) (is_t : conn.type ≡ t) where
  bucket_same :
      conn.conn_config ≡ []
      → ◌≡◌ {A = Connector}
          (record { type = t; bucket_name = conn.bucket_name; conn_config = [] })
          conn
  bucket_same empty =
      λ i. record { type = sym is_t i; bucket_name = conn.bucket_name; conn_config = sym empty i }

  config_same :
      conn.bucket_name ≡ []
      → ◌≡◌ {A = Connector}
          (record { type = t; bucket_name = []; conn_config = copy_kvs conn.conn_config })
          conn
  config_same empty = λ i. record {
    type = sym is_t i;
    bucket_name = sym empty i;
    conn_config = copy_kvs_same conn.conn_config i;
  }

-- A plain connector is taken as it is.
req_conn_same :
    {W : Type 0} (t : StorType) (conn : Connector) (w : W)
    → conn.type ≡ t
    → IsPlain t conn
    → req_conn_by t conn w ≡ (w, done conn)
unfolding req_conn_by
req_conn_same opensds conn w e p = ap (λ c. (w, done c)) (bucket_same opensds conn e p)
req_conn_same aws_s3 conn w e p = ap (λ c. (w, done c)) (config_same aws_s3 conn e p)
req_conn_same azure_blob conn w e p = ap (λ c. (w, done c)) (config_same azure_blob conn e p)
req_conn_same hw_obs conn w e p = ap (λ c. (w, done c)) (config_same hw_obs conn e p)
req_conn_same ceph_s3 conn w e p = ap (λ c. (w, done c)) (config_same ceph_s3 conn e p)
req_conn_same hw_fusionstorage conn w e p =
    ap (λ c. (w, done c)) (config_same hw_fusionstorage conn e p)
req_conn_same hw_fusioncloud conn w e p =
    ap (λ c. (w, done c)) (config_same hw_fusioncloud conn e p)
req_conn_same (other_type t) conn w e p = absurd p

-- A plain connector is given back as it is.
rsp_conn_same :
    (t : StorType) (conn : Connector) → conn.type ≡ t → IsPlain t conn → rsp_conn_by t conn ≡ conn
unfolding rsp_conn_by
rsp_conn_same opensds conn e p = bucket_same opensds conn e p
rsp_conn_same aws_s3 conn e p = config_same aws_s3 conn e p
rsp_conn_same azure_blob conn e p = config_same azure_blob conn e p
rsp_conn_same hw_obs conn e p = config_same hw_obs conn e p
rsp_conn_same ceph_s3 conn e p = config_same ceph_s3 conn e p
rsp_conn_same hw_fusionstorage conn e p = config_same hw_fusionstorage conn e p
rsp_conn_same hw_fusioncloud conn e p = config_same hw_fusioncloud conn e p
rsp_conn_same (other_type t) conn e p = absurd p

-- A request whose messages are all there.
abbrev pub request_of : PbPlan → Connector → Connector → Filter → AsistInfo → PbPlan
request_of req src dest f a = record req {
  source_conn = some src;
  dest_conn = some dest;
  filter = some f;
  asist = some a;
}

-- The plan that is made of it.
abbrev plan_for : PbPlan → Connector → Connector → Filter → AsistInfo → Plan
plan_for req src dest f a = record {
  id = [];
  name = req.name;
  description = req.description;
  type = req.type;
  source_conn = src;
  dest_conn = dest;
  filter = req_filter (some f);
  remain_source = req.remain_source;
  last_sched_time = 0;
  policy_id = req.policy_id;
  policy_ref = none;
  policy_name = [];
  policy_enabled = req.policy_enabled;
  tenant_id = req.tenant_id;
  user_id = req.user_id;
  asist = req_asist (some a);
}

-- The request says nothing of its own of these two: the database gives the id, and the policy its name.
abbrev pub unnamed : PbPlan → PbPlan
unnamed req = record req { id = []; policy_name = [] }

-- A request for a plan that has a name, a type, plain connectors of known types, a filter and an
-- assistance is converted to a plan, and the plan converted back says the same as the request in every
-- field but the id and the name of the policy, which are empty: the keys and values of the connectors,
-- the filter and the assistance are the same and in their order. This is about the two conversions, and
-- not about what the creation of the plan between them adds.
pub plan_of_request-resp :
    {W : Type 0} (req : PbPlan) (src dest : Connector) (f : Filter) (a : AsistInfo)
    → is_empty req.name ≡ false
    → is_empty req.type ≡ false
    → IsPlain src.type src
    → IsPlain dest.type dest
    → (plan : Plan) × ((w : W) → plan_of_request (request_of req src dest f a) w ≡ (w, done plan))
      × (plan_model2_resp plan ≡ unnamed (request_of req src dest f a))
unfolding plan_of_request fill_req_connector check_asist_vlidation check_filled plan_model2_resp
    fill_rsp_connector req_filter req_asist ◌>>=◌
plan_of_request-resp req src dest f a named typed plain_src plain_dest = (
  plan_for req src dest f a,
  λ w.
      rw
        (
          req_conn_same src.type src w refl plain_src,
          req_conn_same dest.type dest w refl plain_dest,
          named,
          typed,
        )
        refl,
  λ i. record (unnamed (request_of req src dest f a)) {
    source_conn = some (rsp_conn_same src.type src refl plain_src i);
    dest_conn = some (rsp_conn_same dest.type dest refl plain_dest i);
    filter = some (record {
      prefix = f.prefix;
      tag = (ap copy_kvs (copy_kvs_same f.tag) ∙ copy_kvs_same f.tag) i;
    });
    asist = some (record {
      type = a.type;
      details = (ap copy_kvs (copy_kvs_same a.details) ∙ copy_kvs_same a.details) i;
    });
  },
)
