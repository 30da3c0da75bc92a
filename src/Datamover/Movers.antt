-- ===== src/Datamover/Movers.antt =====
-- What the data mover calls: the interface `MoveWorker` of datamover/pkg/utils/data_type.go, and the
-- choice of its implementation in datamover/pkg/drivers/https/migration.go.
use multi_cloud.Common.{ℕ, Text, codes, Option, none, some, is_empty, if◌then◌else◌, ◌++◌}
use multi_cloud.Common.Actions.{Act, return, fail, ◌>>=◌, panic}
use multi_cloud.Datamover.Types.{
  StorType, opensds, aws_s3, azure_blob, hw_obs, ceph_s3, hw_fusionstorage, hw_fusioncloud,
  other_type, LocationInfo, Buf,
}

-- The implementations: `S3Mover`, `ObsMover`, `BlobMover`, `CephS3Mover`.
pub data Driver : Type 0 where
  s3_mover : Driver
  obs_mover : Driver
  blob_mover : Driver
  ceph_s3_mover : Driver

-- The methods of an implementation. `M` is a pointer to a mover, whose fields are part of the world;
-- a download gives the number of bytes it reports and the buffer it leaves.
pub record MoveWorker (W M : Type 0) : Type 0 where
  pub download_obj : Text → LocationInfo → Buf → Act W (ℕ × Buf)
  pub upload_obj : Text → LocationInfo → Buf → Act W (Unit {0})
  pub delete_obj : Text → LocationInfo → Act W (Unit {0})
  pub init_download : LocationInfo → Act W M
  pub download_range : M → Text → LocationInfo → Buf → ℕ → ℕ → Act W (ℕ × Buf)
  pub init_upload : Text → LocationInfo → Act W M
  pub upload_part : M → Text → LocationInfo → ℕ → Buf → ℕ → ℕ → Act W (Unit {0})
  pub abort_upload : M → Text → LocationInfo → Act W (Unit {0})
  pub complete_upload : M → Text → LocationInfo → Act W (Unit {0})

-- The case of the switches on a storage type; `none` is their default.
unfoldable pub driver_of : StorType → Option Driver
driver_of opensds = none
driver_of aws_s3 = some s3_mover
driver_of azure_blob = some blob_mover
driver_of hw_obs = some obs_mover
driver_of ceph_s3 = some ceph_s3_mover
driver_of hw_fusionstorage = some obs_mover
driver_of hw_fusioncloud = some obs_mover
driver_of (other_type t) = none

-- The key of an object in the bucket of the location.
unfoldable pub key_in : LocationInfo → Text → Text
key_in loca key = if is_empty loca.vir_bucket then key else loca.vir_bucket ++ codes "/" ++ key

-- A value of the interface type: `none` is nil, whose methods panic.
abbrev pub Worker : Type 0 → Type 0
Worker M = Option (Driver × M)

abbrev pub unsupported : Text
unsupported = codes "Unsupport storage type."

module _ {W M : Type 0} (movers : Driver → MoveWorker W M) where
  -- The cases of the four functions below, by what the type of the location is.
  unfoldable pub init_download_by : LocationInfo → Option Driver → Act W (Driver × M)
  init_download_by src_loca none = fail unsupported
  init_download_by src_loca (some d) = (movers d).init_download src_loca >>= λ m. return (d, m)

  unfoldable pub init_upload_by : Text → LocationInfo → Option Driver → Act W (Driver × M)
  init_upload_by obj_key dest_loca none = fail unsupported
  init_upload_by obj_key dest_loca (some d) =
      (movers d).init_upload obj_key dest_loca >>= λ m. return (d, m)

  unfoldable pub abort_by : Text → LocationInfo → Option Driver → Worker M → Act W (Unit {0})
  abort_by obj_key dest_loca none worker = fail unsupported
  abort_by obj_key dest_loca (some d) none = panic
  abort_by obj_key dest_loca (some d) (some (own, m)) =
      (movers own).abort_upload m obj_key dest_loca

  unfoldable pub complete_by : Text → LocationInfo → Option Driver → Worker M → Act W (Unit {0})
  complete_by obj_key dest_loca none worker = fail unsupported
  complete_by obj_key dest_loca (some d) none = panic
  complete_by obj_key dest_loca (some d) (some (own, m)) =
      (movers own).complete_upload m obj_key dest_loca

  unfoldable pub multi_part_download_init : LocationInfo → Act W (Driver × M)
  unfolding init_download_by
  multi_part_download_init src_loca = init_download_by src_loca (driver_of src_loca.stor_type)

  unfoldable pub multi_part_upload_init : Text → LocationInfo → Act W (Driver × M)
  unfolding init_upload_by
  multi_part_upload_init obj_key dest_loca =
      init_upload_by obj_key dest_loca (driver_of dest_loca.stor_type)

  unfoldable pub abort_multipart_upload : Text → LocationInfo → Worker M → Act W (Unit {0})
  unfolding abort_by
  abort_multipart_upload obj_key dest_loca worker =
      abort_by obj_key dest_loca (driver_of dest_loca.stor_type) worker

  unfoldable pub complete_multipart_upload : Text → LocationInfo → Worker M → Act W (Unit {0})
  unfolding complete_by
  complete_multipart_upload obj_key dest_loca worker =
      complete_by obj_key dest_loca (driver_of dest_loca.stor_type) worker
