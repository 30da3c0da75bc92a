-- ===== src/Datamover/Move.antt =====
-- datamover/pkg/drivers/https/migration.go: where an object is, and its move as a whole.
pub mod Keeps
pub mod Safe
pub mod Arrives
use multi_cloud.Common.{
  ℕ, Bool, not, ◌&&◌, true, false, leb, Text, codes, text_eq, is_empty, List, [], ◌∷◌, ◌++◌, Option,
  none, some, if◌then◌else◌, replicate,
}
use multi_cloud.Common.Int.{ℤ, pos, negsuc}
use multi_cloud.Common.Actions.{Act, return, fail, ◌>>=◌, attempt, or_fail, tried}
use multi_cloud.Datamover.Types.{
  StorType, opensds, aws_s3, azure_blob, hw_obs, ceph_s3, hw_fusionstorage, hw_fusioncloud,
  other_type, LocationInfo, Object, Backend, Kv, Connector,
}
use multi_cloud.Datamover.Movers.{Driver, MoveWorker, driver_of, key_in, unsupported}
use multi_cloud.Datamover.Parts.{multipart_move_obj}
use multi_cloud.Datamover.Settings.{set_part_size}

-- The services of this process: the clients of the S3 service and the database. `get_bucket` gives
-- the name of the bucket's backend.
pub record Services (W : Type 0) : Type 0 where
  pub get_bucket : Text → Act W Text
  pub list_objects : Text → Act W (List Object)
  pub create_object : Object → Act W (Unit {0})
  pub delete_object : Text → Text → Act W (Unit {0})
  pub get_backend_by_name : Text → Act W Backend

abbrev pub LocMap : Type 0
LocMap = List (Text × LocationInfo)

unfoldable pub find_loca : Text → LocMap → Option LocationInfo
find_loca k [] = none
find_loca k ((j, loca) ∷ m) = if text_eq j k then some loca else find_loca k m

-- What `move` leaves: the number it sends on `capa`, the shared map, and the global `PART_SIZE`.
pub record Moved : Type 0 where
  pub capa : ℤ
  pub loc_map : LocMap
  pub part_size : ℕ

-- The arguments of `move` that its calls share: `partsize` is `PARTSIZE` of the environment, and
-- `now` the first 19 letters of the clock.
pub record Request : Type 0 where
  pub obj : Object
  pub dest_loca : LocationInfo
  pub remain_source : Bool
  pub partsize : Text
  pub now : Text

unfoldable pub set_config : LocationInfo → List Kv → LocationInfo
set_config loca [] = loca
set_config loca (kv ∷ cfg) =
    set_config
      (if text_eq kv.key (codes "region")
        then record loca { region = kv.value }
        else if text_eq kv.key (codes "endpoint")
        then record loca { end_point = kv.value }
        else if text_eq kv.key (codes "bucketname")
        then record loca { bucket_name = kv.value }
        else if text_eq kv.key (codes "access")
        then record loca { access = kv.value }
        else if text_eq kv.key (codes "security")
        then record loca { security = kv.value }
        else loca)
      cfg

abbrev pub new_loca : StorType → LocationInfo
new_loca t = record {
  stor_type = t;
  region = [];
  end_point = [];
  bucket_name = [];
  vir_bucket = [];
  access = [];
  security = [];
  bakend_name = [];
}

-- The metadata that the destination bucket gets.
abbrev pub destined : Request → Object
destined r = record r.obj {
  bucket_name = r.dest_loca.vir_bucket;
  backend = r.dest_loca.bakend_name;
  last_modified = r.now;
}

-- The key that `moveObj` uploads to: its test is on the source.
unfoldable pub move_obj_key : LocationInfo → LocationInfo → Text → Text
move_obj_key src_loca dest_loca key =
    if is_empty src_loca.vir_bucket then key else dest_loca.vir_bucket ++ codes "/" ++ key

module _ {W : Type 0} (sv : Services W) where
  unfoldable pub get_osds_location : Text → Text → Act W LocationInfo
  get_osds_location virt_bkname backend_name =
      if is_empty backend_name then fail (codes "failed") else (do
        bk ← or_fail (codes "failed") (sv.get_backend_by_name backend_name)
        return (record {
          stor_type = bk.type;
          region = bk.region;
          end_point = bk.endpoint;
          bucket_name = bk.bucket_name;
          vir_bucket = virt_bkname;
          access = bk.access;
          security = bk.security;
          bakend_name = backend_name;
        }))

  unfoldable pub osds_conn_location : Connector → Act W LocationInfo
  unfolding get_osds_location
  osds_conn_location conn = do
    backend ← or_fail (codes "get bucket information failed") (sv.get_bucket conn.bucket_name)
    get_osds_location conn.bucket_name backend

  unfoldable pub conn_location_by : StorType → Connector → Act W LocationInfo
  unfolding osds_conn_location set_config
  conn_location_by opensds conn = osds_conn_location conn
  conn_location_by aws_s3 conn = return (set_config (new_loca aws_s3) conn.conn_config)
  conn_location_by azure_blob conn = return (set_config (new_loca azure_blob) conn.conn_config)
  conn_location_by hw_obs conn = return (set_config (new_loca hw_obs) conn.conn_config)
  conn_location_by ceph_s3 conn = return (set_config (new_loca ceph_s3) conn.conn_config)
  conn_location_by hw_fusionstorage conn =
      return (set_config (new_loca hw_fusionstorage) conn.conn_config)
  conn_location_by hw_fusioncloud conn = fail (codes "unsupport type")
  conn_location_by (other_type t) conn = fail (codes "unsupport type")

  unfoldable pub get_conn_location : Connector → Act W LocationInfo
  unfolding conn_location_by
  get_conn_location conn = conn_location_by conn.type conn

  -- An object outside the default backend is looked up in the map first, then in the database.
  unfoldable pub refresh_by : Object → LocMap → Option LocationInfo → Act W (LocationInfo × LocMap)
  refresh_by obj loc_map (some loca) = return (loca, (obj.backend, loca) ∷ loc_map)
  refresh_by obj loc_map none = do
    loca ← get_osds_location obj.bucket_name obj.backend
    return (loca, (obj.backend, loca) ∷ loc_map)

  unfoldable pub refresh_src_location :
      Object → LocationInfo → LocMap → Act W (LocationInfo × LocMap)
  unfolding refresh_by
  refresh_src_location obj src_loca loc_map =
      if not (text_eq obj.backend src_loca.bakend_name) && not (is_empty obj.backend)
      then refresh_by obj loc_map (find_loca obj.backend loc_map)
      else return (src_loca, loc_map)

module _ {W M : Type 0} (sv : Services W) (movers : Driver → MoveWorker W M) where
  unfoldable pub download_by : Object → LocationInfo → Option Driver → Act W (ℕ × List ℕ)
  download_by obj src_loca none = fail (codes "Not support source backend type.")
  download_by obj src_loca (some d) =
      (movers d).download_obj (key_in src_loca obj.object_key) src_loca (replicate obj.size 0)

  unfoldable pub upload_by : Text → LocationInfo → List ℕ → Option Driver → Act W (Unit {0})
  upload_by key dest_loca buf none = fail (codes "Not support destination backend type.")
  upload_by key dest_loca buf (some d) = (movers d).upload_obj key dest_loca buf

  unfoldable pub move_obj : Object → LocationInfo → LocationInfo → Act W (Unit {0})
  unfolding download_by upload_by
  move_obj obj src_loca dest_loca = if leb obj.size 0 then return tt else (do
    got ← download_by obj src_loca (driver_of src_loca.stor_type)
    upload_by (move_obj_key src_loca dest_loca obj.object_key) dest_loca got.1
        (driver_of dest_loca.stor_type))

  unfoldable pub delete_by : Object → LocationInfo → Option Driver → Act W (Unit {0})
  delete_by obj loca none = fail unsupported
  delete_by obj loca (some d) = (movers d).delete_obj (key_in loca obj.object_key) loca

  unfoldable pub delete_obj : Object → LocationInfo → Act W (Unit {0})
  unfolding delete_by
  delete_obj obj loca = do
    deleted ← delete_by obj loca (driver_of loca.stor_type)
    if is_empty loca.vir_bucket then return tt else sv.delete_object loca.vir_bucket obj.object_key

  unfoldable pub move_bytes : ℕ → Object → LocationInfo → LocationInfo → Act W (Unit {0})
  move_bytes part_size obj src_loca dest_loca =
      if leb obj.size part_size
      then move_obj obj src_loca dest_loca
      else multipart_move_obj movers part_size obj src_loca dest_loca

  -- The metadata of the object in the destination bucket; an error is left to the log.
  unfoldable pub add_metadata : Request → Act W (Option Text)
  add_metadata r =
      if is_empty r.dest_loca.vir_bucket
      then return none
      else attempt (sv.create_object (destined r))

  unfoldable pub delete_source : Request → LocationInfo → Act W (Option Text)
  delete_source r src_loca =
      if r.remain_source then return none else attempt (delete_obj r.obj src_loca)

  unfoldable pub after_move : Request → ℕ → LocMap → LocationInfo → Option Text → Act W Moved
  unfolding add_metadata delete_source
  after_move r part_size loc_map src_loca none = do
    added ← add_metadata r
    deleted ← delete_source r src_loca
    return (record { capa = pos r.obj.size; loc_map = loc_map; part_size = part_size })
  after_move r part_size loc_map src_loca (some err) =
      return (record { capa = negsuc 0; loc_map = loc_map; part_size = part_size })

  unfoldable pub move_from : Request → ℕ → LocMap → Option (LocationInfo × LocMap) → Act W Moved
  unfolding after_move
  move_from r part_size loc_map none =
      return (record { capa = negsuc 0; loc_map = loc_map; part_size = part_size })
  move_from r part_size loc_map (some (src_loca, new_map)) = do
    let size : ℕ = set_part_size r.partsize part_size
    err ← attempt (move_bytes size r.obj src_loca r.dest_loca)
    after_move r size new_map src_loca err

  unfoldable pub move : Request → ℕ → LocationInfo → LocMap → Act W Moved
  unfolding move_from
  move r part_size src_loca loc_map = do
    refreshed ← tried (refresh_src_location sv r.obj src_loca loc_map)
    move_from r part_size loc_map refreshed
