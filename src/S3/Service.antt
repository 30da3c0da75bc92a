-- ===== src/S3/Service.antt =====
-- s3/pkg/service.go: the handlers of the service. The text of an answer without an error is left out.
use multi_cloud.Common.{
  ◌==◌, Bool, true, false, not, ◌&&◌, Text, codes, text_eq, List, [], ◌∷◌, if◌then◌else◌,
}
use multi_cloud.S3.Types.{Bucket, Object, S3Error, Out, no_error, s3_error}
use multi_cloud.S3.Driver.{
  Metadata, get_bucket_by_name, db_list_buckets, db_create_bucket, db_update_bucket,
  db_list_objects, db_get_object, db_create_object, db_update_object,
}

-- The buckets that are not deleted.
unfoldable pub live_buckets : List Bucket → List Bucket
live_buckets [] = []
live_buckets (b ∷ bs) = let rest = live_buckets bs in if b.deleted then rest else b ∷ rest

unfoldable pub is_listed : Object → Bool
is_listed o = not (text_eq o.init_flag (codes "0")) && not (text_eq o.is_delete_marker (codes "1"))

unfoldable pub listed_objects : List Object → List Object
unfolding is_listed
listed_objects [] = []
listed_objects (o ∷ os) = let rest = listed_objects os in if is_listed o then o ∷ rest else rest

-- `if err1.Code != ERR_OK { return err.Error() }`: the error that is returned is the one before.
unfoldable pub or_earlier : {W : Type 0} → S3Error → W × Out (Unit {0}) → W × Out (Unit {0})
or_earlier earlier (w, no_error u) = (w, no_error u)
or_earlier earlier (w, s3_error e) = (w, s3_error earlier)

abbrev pub err_ok : S3Error
err_ok = record { code = 200; description = [] }

unfoldable pub is_missing : S3Error → Bool
is_missing e = e.code == 404

module _ {W : Type 0} (db : Metadata W) where
  unfoldable pub answer_buckets : W × Out (List Bucket) → W × Out (List Bucket)
  unfolding live_buckets
  answer_buckets (w, no_error bs) = (w, no_error (live_buckets bs))
  answer_buckets (w, s3_error e) = (w, s3_error e)

  unfoldable pub list_buckets : Text → W → W × Out (List Bucket)
  unfolding answer_buckets
  list_buckets id w = answer_buckets (db_list_buckets db id w)

  -- A bucket that is there is replaced, whoever owns it.
  unfoldable pub create_over : Bucket → W × Out Bucket → W × Out (Unit {0})
  unfolding or_earlier is_missing
  create_over b (w, no_error old) =
      or_earlier err_ok (db_update_bucket db (record b { deleted = false }) w)
  create_over b (w, s3_error e) =
      if is_missing e then or_earlier e (db_create_bucket db b w) else (w, s3_error e)

  unfoldable pub create_bucket : Bucket → W → W × Out (Unit {0})
  unfolding create_over
  create_bucket b w = create_over b (get_bucket_by_name db b.name w)

  unfoldable pub get_bucket : Text → W → W × Out Bucket
  get_bucket name w = get_bucket_by_name db name w

  unfoldable pub mark_bucket : W × Out Bucket → W × Out (Unit {0})
  unfolding or_earlier
  mark_bucket (w, no_error b) =
      or_earlier err_ok (db_update_bucket db (record b { deleted = true }) w)
  mark_bucket (w, s3_error e) = (w, s3_error e)

  unfoldable pub delete_bucket : Text → W → W × Out (Unit {0})
  unfolding mark_bucket
  delete_bucket name w = mark_bucket (get_bucket_by_name db name w)

  unfoldable pub answer_objects : W × Out (List Object) → W × Out (List Object)
  unfolding listed_objects
  answer_objects (w, no_error os) = (w, no_error (listed_objects os))
  answer_objects (w, s3_error e) = (w, s3_error e)

  unfoldable pub list_objects : Text → W → W × Out (List Object)
  unfolding answer_objects
  list_objects bucket w = answer_objects (db_list_objects db bucket w)

  unfoldable pub put_over : Object → W × Out Object → W × Out (Unit {0})
  unfolding or_earlier is_missing
  put_over o (w, no_error old) = or_earlier err_ok (db_update_object db o w)
  put_over o (w, s3_error e) =
      if is_missing e then or_earlier e (db_create_object db o w) else (w, s3_error e)

  unfoldable pub create_object : Object → W → W × Out (Unit {0})
  unfolding put_over
  create_object o w = put_over o (db_get_object db o.bucket_name o.object_key w)

  unfoldable pub update_object : Object → W → W × Out (Unit {0})
  update_object o w = db_update_object db o w

  unfoldable pub get_object : Text → Text → W → W × Out Object
  get_object bucket key w = db_get_object db bucket key w

  unfoldable pub mark_object : W × Out Object → W × Out (Unit {0})
  unfolding or_earlier
  mark_object (w, no_error o) =
      or_earlier err_ok (db_update_object db (record o { is_delete_marker = codes "1" }) w)
  mark_object (w, s3_error e) = (w, s3_error e)

  unfoldable pub delete_object : Text → Text → W → W × Out (Unit {0})
  unfolding mark_object
  delete_object bucket key w = mark_object (db_get_object db bucket key w)
