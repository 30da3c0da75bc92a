-- ===== src/S3/Types.antt =====
-- s3/proto and s3/pkg/exception: buckets, objects and the errors of the service.
use multi_cloud.Common.{List, ℕ, Bool, Text, codes}

-- The fields of a bucket that the service or the gateway sets or reads.
pub record Bucket : Type 0 where
  pub name : Text
  pub owner : Text
  pub owner_display_name : Text
  pub creation_date : ℕ
  pub deleted : Bool
  pub backend : Text

-- A part of a multipart upload.
pub record Partion : Type 0 where
  pub part_number : Text
  pub size : ℕ
  pub last_modified : ℕ
  pub key : Text
  pub etag : Text

-- The fields of an object that the service or the gateway sets or reads.
pub record Object : Type 0 where
  pub object_key : Text
  pub bucket_name : Text
  pub backend : Text
  pub is_delete_marker : Text
  pub size : ℕ
  pub last_modified : Text
  pub init_flag : Text
  pub partions : List Partion

pub record S3Error : Type 0 where
  pub code : ℕ
  pub description : Text

-- What a function of the driver leaves in `out`, with the error `NoError`, or another error.
pub data Out (A : Type 0) : Type 0 where
  no_error : A → Out A
  s3_error : S3Error → Out A

abbrev pub internal_error : S3Error
internal_error = record { code = 500; description = codes "Internal error. Please retry" }

abbrev pub no_such_bucket : S3Error
no_such_bucket = record { code = 404; description = codes "The specified bucket does not exist." }

abbrev pub db_error : S3Error
db_error = record { code = 500; description = codes "DB occured exception." }

abbrev pub no_such_object : S3Error
no_such_object = record { code = 404; description = codes "The specified object does not exist." }

abbrev pub bucket_already_exists : S3Error
bucket_already_exists = record {
  code = 409;
  description =
      codes
        "The requested bucket name already exist. Bucket namespace is shared by all users in the system. Select a different name and retry.";
}
