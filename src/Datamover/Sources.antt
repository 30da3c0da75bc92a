-- ===== src/Datamover/Sources.antt =====
-- datamover/pkg/drivers/https/migration.go: the objects that a job is about.
use multi_cloud.Common.{
  Text, codes, is_empty, List, [], ◌∷◌, Bool, ◌||◌, Option, none, some, map, if◌then◌else◌, ℕ,
}
use multi_cloud.Common.Actions.{Act, Result, done, failed, panicked, return, ◌>>=◌}
use multi_cloud.Datamover.Types.{
  StorType, opensds, aws_s3, azure_blob, hw_obs, ceph_s3, hw_fusionstorage, hw_fusioncloud,
  other_type, LocationInfo, Object, Connector,
}
use multi_cloud.Datamover.Movers.{Driver, s3_mover, obs_mover, blob_mover, ceph_s3_mover}
use multi_cloud.Datamover.Move.{Services}

-- `ListObjs` of the movers, with the prefix of the filter, and `regexp.MatchString`.
pub record Listing (W : Type 0) : Type 0 where
  pub list_objs : Driver → LocationInfo → Option Text → Act W (List (Text × ℕ))
  pub match_string : Text → Text → Bool

abbrev pub plain_object : Text × ℕ → Object
plain_object (key, size) = record {
  object_key = key;
  bucket_name = [];
  size = size;
  backend = [];
  last_modified = [];
}

module _ {W : Type 0} (sv : Services W) (ls : Listing W) where
  unfoldable pub select_objs : Text → List Object → List Object
  select_objs prefix [] = []
  select_objs prefix (obj ∷ objs) =
      let rest = select_objs prefix objs in
      if is_empty prefix || ls.match_string (b'^' ∷ prefix) obj.object_key then obj ∷ rest else rest

  -- The response of a failed listing is nil and is read before the error is: a panic. So is reading the
  -- prefix of a filter that is nil.
  unfoldable pub osds_objs : Option Text → W × Result (List Object) → W × Result (List Object)
  unfolding select_objs
  osds_objs filt (w, failed e) = (w, panicked)
  osds_objs filt (w, panicked) = (w, panicked)
  osds_objs none (w, done objs) = (w, panicked)
  osds_objs (some prefix) (w, done objs) = (w, done (select_objs prefix objs))

  -- What the four functions below do with what `ListObjs` of a mover gives.
  unfoldable pub driver_objs : Driver → Option Text → LocationInfo → Act W (List Object)
  driver_objs d filt loca = ls.list_objs d loca filt >>= λ objs. return (map plain_object objs)

  unfoldable pub get_aws_s3_objs : Option Text → LocationInfo → Act W (List Object)
  unfolding driver_objs
  get_aws_s3_objs = driver_objs s3_mover

  unfoldable pub get_hw_objs : Option Text → LocationInfo → Act W (List Object)
  unfolding driver_objs
  get_hw_objs = driver_objs obs_mover

  unfoldable pub get_azure_blobs : Option Text → LocationInfo → Act W (List Object)
  unfolding driver_objs
  get_azure_blobs = driver_objs blob_mover

  unfoldable pub get_ceph_s3_objs : Option Text → LocationInfo → Act W (List Object)
  unfolding driver_objs
  get_ceph_s3_objs = driver_objs ceph_s3_mover

  unfoldable pub source_objs_by :
      StorType → Connector → Option Text → LocationInfo → Act W (List Object)
  unfolding osds_objs get_aws_s3_objs get_hw_objs get_azure_blobs get_ceph_s3_objs
  source_objs_by opensds conn filt loca w = osds_objs filt (sv.list_objects conn.bucket_name w)
  source_objs_by aws_s3 conn filt loca w = get_aws_s3_objs filt loca w
  source_objs_by azure_blob conn filt loca w = get_azure_blobs filt loca w
  source_objs_by hw_obs conn filt loca w = get_hw_objs filt loca w
  source_objs_by ceph_s3 conn filt loca w = get_ceph_s3_objs filt loca w
  source_objs_by hw_fusionstorage conn filt loca w = get_hw_objs filt loca w
  source_objs_by hw_fusioncloud conn filt loca w = get_hw_objs filt loca w
  source_objs_by (other_type t) conn filt loca w = (w, failed (codes "unsupport storage type"))

  unfoldable pub get_source_objs : Connector → Option Text → LocationInfo → Act W (List Object)
  unfolding source_objs_by
  get_source_objs conn filt loca = source_objs_by conn.type conn filt loca
