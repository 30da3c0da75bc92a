-- ===== src/Gateway/Multipart.antt =====
-- api/pkg/s3: the handlers of a multipart upload. An answer
-- that is written after an error has been is left out: the status is that of the error.
pub mod Laws
pub mod Begun
pub mod Sized
pub mod Finished
pub mod Whole
pub mod Tests
mod Routed
use multi_cloud.Common.{
  ℕ, ◌+◌, Bool, true, false, ◌&&◌, Text, codes, is_empty, List, [], ◌∷◌, snoc, Option, none, some,
  if◌then◌else◌,
}
use multi_cloud.Common.Int.{ℤ, pos}
use multi_cloud.Common.Actions.{Act, return, panic, ◌>>=◌, tried}
use multi_cloud.Backend.Types.{BackendDetail}
use multi_cloud.S3.Types.{Bucket, Object, Partion}
use multi_cloud.Gateway.Routes.{Answer, error_of, entity, reply}
use multi_cloud.Gateway.Objects.{
  Cloud, uploaded, get_backend_by_name, get_backend_client, int_value, size_of,
}

-- `pb.MultipartUpload`.
pub record Upload : Type 0 where
  pub bucket : Text
  pub key : Text
  pub upload_id : Text

-- The interface `DataStoreAdapter` for uploads in parts, and `time.Now().String()[:19]`. What is read of
-- the XML of a completion is left to the store.
pub record Uploads (W : Type 0) : Type 0 where
  pub init_multipart_upload : BackendDetail → Object → Act W Upload
  pub upload_part : BackendDetail → Upload → ℤ → Text → Act W Text
  pub complete_multipart_upload : BackendDetail → Upload → Text → Act W Text
  pub abort_multipart_upload : BackendDetail → Upload → Act W (Unit {0})
  pub time : W → Text

-- The metadata of an upload that begins, over those that are there.
abbrev pub restarted : Text → Text → Text → Text → Object → Object
restarted bucket key backend time o = record o {
  object_key = key;
  bucket_name = bucket;
  init_flag = codes "0";
  is_delete_marker = [];
  partions = [];
  backend = backend;
  size = 0;
  last_modified = time;
}

abbrev pub begun : Text → Text → Text → Text → Option Object → Object
begun bucket key backend time (some o) = restarted bucket key backend time o
begun bucket key backend time none = record (uploaded bucket key backend 0) {
  last_modified = time;
  init_flag = codes "0";
}

-- The metadata with one more part.
abbrev pub with_part : Text → Text → ℕ → Text → ℕ → Object → Object
with_part key part_number size time now o = record o {
  size = o.size + size;
  last_modified = time;
  partions = snoc o.partions (record {
    part_number = part_number;
    size = size;
    last_modified = now;
    key = key;
    etag = [];
  });
}

abbrev pub completed : Text → Object → Object
completed time o = record o { partions = []; last_modified = time; init_flag = codes "1" }

-- What is answered once the metadata have been written, or not.
unfoldable pub after_create : {W A : Type 0} → A → Option (Unit {0}) → Act W (Answer A)
after_create a none = return (error_of 500)
after_create a (some u) = return (entity a)

module _ {W : Type 0} (cloud : Cloud W) (uploads : Uploads W) where
  unfoldable pub begin_over :
      Text → Text → Text → Upload → Text → Option Object → Act W (Answer Upload)
  begin_over bucket key backend upload time o =
      tried (cloud.create_object (begun bucket key backend time o)) >>= after_create upload

  -- The time is read before the metadata.
  unfoldable pub after_init : Text → Text → Text → Option Upload → Act W (Answer Upload)
  unfolding ◌>>=◌
  after_init bucket key backend none w = return (error_of 500) w
  after_init bucket key backend (some upload) w =
      (tried (cloud.get_object bucket key)
          >>= begin_over bucket key backend upload (uploads.time w))
        w

  unfoldable pub init_to : Text → Text → Text → Option BackendDetail → Act W (Answer Upload)
  init_to bucket key backend none = return (error_of 500)
  init_to bucket key backend (some store) =
      tried (uploads.init_multipart_upload store (uploaded bucket key backend 0))
      >>= after_init bucket key backend

  unfoldable pub init_in : Text → Text → Option Bucket → Act W (Answer Upload)
  init_in bucket key none = panic
  init_in bucket key (some b) = get_backend_client cloud bucket >>= init_to bucket key b.backend

  unfoldable pub multi_part_upload_init : Text → Text → Text → Act W (Answer Upload)
  multi_part_upload_init bucket key backend_name =
      if is_empty backend_name
      then tried (cloud.get_bucket bucket) >>= init_in bucket key
      else get_backend_by_name cloud backend_name >>= init_to bucket key backend_name

  -- The object is read back for the log: one that cannot be is nil, and panics.
  unfoldable pub read_back : Text → Option (Unit {0}) → Option Object → Act W (Answer Text)
  read_back etag stored none = panic
  read_back etag stored (some o) = after_create etag stored

  unfoldable pub store_part : Upload → Text → Option (Unit {0}) → Act W (Answer Text)
  store_part upload etag stored =
      tried (cloud.get_object upload.bucket upload.key) >>= read_back etag stored

  -- The metadata are written with the clock's time after the store has taken the part.
  unfoldable pub after_part : Upload → Text → ℕ → Text → Object → Option Text → Act W (Answer Text)
  unfolding ◌>>=◌
  after_part upload part_number size time o none w = return (error_of 500) w
  after_part upload part_number size time o (some etag) w =
      let changed = with_part upload.key part_number size time (cloud.now w) o in
      (tried (cloud.create_object changed) >>= store_part upload etag) w

  unfoldable pub part_to :
      Upload → Text → ℕ → Text → Text → Object → Option BackendDetail → Act W (Answer Text)
  part_to upload part_number size body time o none = return (error_of 500)
  part_to upload part_number size body time o (some store) =
      tried (uploads.upload_part store upload (int_value part_number) body)
      >>= after_part upload part_number size time o

  -- An object that is not there is answered with an error, and then read all the same, which panics.
  unfoldable pub part_of : Upload → Text → ℕ → Text → Option Object → Act W (Answer Text)
  unfolding ◌>>=◌
  part_of upload part_number size body none w = panic w
  part_of upload part_number size body (some o) w =
      (get_backend_by_name cloud o.backend
          >>= part_to upload part_number size body (uploads.time w) o)
        w

  unfoldable pub upload_part : Upload → Text → Text → Text → Act W (Answer Text)
  upload_part upload part_number content_length body =
      tried (cloud.get_object upload.bucket upload.key)
      >>= part_of upload part_number (size_of (int_value content_length)) body

  unfoldable pub after_complete : Object → Option Text → Act W (Answer Text)
  unfolding ◌>>=◌
  after_complete o none w = return (error_of 500) w
  after_complete o (some resp) w =
      (tried (cloud.create_object (completed (uploads.time w) o)) >>= after_create resp) w

  unfoldable pub complete_to : Upload → Text → Object → Option BackendDetail → Act W (Answer Text)
  complete_to upload body o none = return (error_of 500)
  complete_to upload body o (some store) =
      tried (uploads.complete_multipart_upload store upload body) >>= after_complete o

  unfoldable pub complete_of : Upload → Text → Option Object → Act W (Answer Text)
  complete_of upload body none = panic
  complete_of upload body (some o) =
      get_backend_by_name cloud o.backend >>= complete_to upload body o

  unfoldable pub complete_multipart_upload : Upload → Text → Act W (Answer Text)
  complete_multipart_upload upload body =
      tried (cloud.get_object upload.bucket upload.key) >>= complete_of upload body

  unfoldable pub after_abort : Upload → Option (Unit {0}) → Act W (Answer (Unit {0}))
  after_abort upload none = return (error_of 500)
  after_abort upload (some u) = reply (cloud.delete_object upload.bucket upload.key)

  unfoldable pub abort_to : Upload → Option BackendDetail → Act W (Answer (Unit {0}))
  abort_to upload none = return (error_of 500)
  abort_to upload (some store) =
      tried (uploads.abort_multipart_upload store upload) >>= after_abort upload

  unfoldable pub abort_of : Upload → Option Object → Act W (Answer (Unit {0}))
  abort_of upload none = panic
  abort_of upload (some o) = get_backend_by_name cloud o.backend >>= abort_to upload

  unfoldable pub abort_multipart_upload : Upload → Act W (Answer (Unit {0}))
  abort_multipart_upload upload =
      tried (cloud.get_object upload.bucket upload.key) >>= abort_of upload
