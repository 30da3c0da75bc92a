-- ===== src/S3/Driver.antt =====
-- s3/pkg/db/drivers/mongo: the functions of the driver, one to a file.
use multi_cloud.Common.{
  ◌==◌, Bool, true, false, ◌&&◌, ◌||◌, if◌then◌else◌, Text, codes, is_empty, List, [], ◌∷◌,
}
use multi_cloud.Common.Database.{
  Reply, found, missing, broken, Write, written, not_found, duplicate, write_error,
}
use multi_cloud.S3.Types.{
  Bucket, Object, S3Error, Out, no_error, s3_error, internal_error, no_such_bucket, db_error,
  no_such_object, bucket_already_exists,
}

-- `strings.HasPrefix` and `strings.Contains`, with what is looked for first.
unfoldable pub has_prefix : Text → Text → Bool
has_prefix [] s = true
has_prefix (c ∷ cs) [] = false
has_prefix (c ∷ cs) (d ∷ s) = c == d && has_prefix cs s

unfoldable pub contains : Text → Text → Bool
unfolding has_prefix
contains cs [] = is_empty cs
contains cs (d ∷ s) = has_prefix cs (d ∷ s) || contains cs s

-- The collection of the buckets, and the collection of the objects of each bucket. A bucket is looked
-- up by its name, an object by its key.
pub record Metadata (W : Type 0) : Type 0 where
  pub find_bucket : Text → W → W × Reply Bucket
  pub find_buckets : Text → W → W × Reply (List Bucket)
  pub insert_bucket : Bucket → W → W × Write
  pub update_bucket : Text → Bucket → W → W × Write
  pub remove_bucket : Text → W → W × Write
  pub find_object : Text → Text → W → W × Reply Object
  pub find_objects : Text → W → W × Reply (List Object)
  pub insert_object : Text → Object → W → W × Write
  pub update_object : Text → Text → Object → W → W × Write
  pub remove_objects : Text → Text → W → W × Write

-- A read of one document.
unfoldable pub one : {W A : Type 0} → S3Error → W × Reply A → W × Out A
one absent (w, found a) = (w, no_error a)
one absent (w, missing) = (w, s3_error absent)
one absent (w, broken) = (w, s3_error internal_error)

-- A read of all documents that fit; none at all is no error.
unfoldable pub all : {W A : Type 0} → W × Reply (List A) → W × Out (List A)
all (w, found as_found) = (w, no_error as_found)
all (w, missing) = (w, s3_error internal_error)
all (w, broken) = (w, s3_error internal_error)

-- A write, with the errors for a missing document and for any other.
unfoldable pub put : {W : Type 0} → S3Error → S3Error → W × Write → W × Out (Unit {0})
put absent other (w, written) = (w, no_error tt)
put absent other (w, not_found) = (w, s3_error absent)
put absent other (w, duplicate e) = (w, s3_error other)
put absent other (w, write_error e) = (w, s3_error other)

module _ {W : Type 0} (db : Metadata W) where
  unfoldable pub get_bucket_by_name : Text → W → W × Out Bucket
  unfolding one
  get_bucket_by_name name w = one no_such_bucket (db.find_bucket name w)

  unfoldable pub db_list_buckets : Text → W → W × Out (List Bucket)
  unfolding all
  db_list_buckets owner w = all (db.find_buckets owner w)

  -- A bucket that is found, like one that cannot be read, is taken to exist.
  unfoldable pub insert_new_bucket : Bucket → W × Reply Bucket → W × Out (Unit {0})
  unfolding put
  insert_new_bucket b (w, found old) = (w, s3_error bucket_already_exists)
  insert_new_bucket b (w, missing) = put internal_error internal_error (db.insert_bucket b w)
  insert_new_bucket b (w, broken) = (w, s3_error bucket_already_exists)

  unfoldable pub db_create_bucket : Bucket → W → W × Out (Unit {0})
  unfolding insert_new_bucket
  db_create_bucket b w = insert_new_bucket b (db.find_bucket b.name w)

  unfoldable pub db_update_bucket : Bucket → W → W × Out (Unit {0})
  unfolding put
  db_update_bucket b w = put no_such_bucket internal_error (db.update_bucket b.name b w)

  -- The code after the branches, which drops the collection of the bucket, is never reached.
  unfoldable pub after_remove : W × Write → W × Out (Unit {0})
  unfolding contains
  after_remove (w, written) = (w, no_error tt)
  after_remove (w, not_found) = (w, s3_error no_such_bucket)
  after_remove (w, duplicate e) =
      if contains (codes "not found") e
      then (w, s3_error no_such_bucket)
      else (w, s3_error db_error)
  after_remove (w, write_error e) =
      if contains (codes "not found") e
      then (w, s3_error no_such_bucket)
      else (w, s3_error db_error)

  unfoldable pub db_delete_bucket : Text → W → W × Out (Unit {0})
  unfolding after_remove
  db_delete_bucket name w = after_remove (db.remove_bucket name w)

  unfoldable pub db_list_objects : Text → W → W × Out (List Object)
  unfolding all
  db_list_objects bucket w = all (db.find_objects bucket w)

  unfoldable pub db_get_object : Text → Text → W → W × Out Object
  unfolding one
  db_get_object bucket key w = one no_such_object (db.find_object bucket key w)

  -- The object is read into a value and not through a pointer, so one that is found is an error.
  unfoldable pub insert_new_object : Object → W × Reply Object → W × Out (Unit {0})
  unfolding put
  insert_new_object o (w, found old) = (w, s3_error internal_error)
  insert_new_object o (w, missing) =
      put internal_error internal_error (db.insert_object o.bucket_name o w)
  insert_new_object o (w, broken) = (w, s3_error internal_error)

  unfoldable pub db_create_object : Object → W → W × Out (Unit {0})
  unfolding insert_new_object
  db_create_object o w = insert_new_object o (db.find_object o.bucket_name o.object_key w)

  unfoldable pub db_update_object : Object → W → W × Out (Unit {0})
  unfolding put
  db_update_object o w =
      put no_such_object internal_error (db.update_object o.bucket_name o.object_key o w)

  unfoldable pub db_delete_object : Text → Text → W → W × Out (Unit {0})
  unfolding put
  db_delete_object bucket key w = put no_such_object internal_error (db.remove_objects bucket key w)
