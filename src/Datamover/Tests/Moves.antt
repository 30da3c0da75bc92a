-- ===== src/Datamover/Tests/Moves.antt =====
-- datamover: the theorems on moves between the two sides of a small storage.
use multi_cloud.Common.{
  ◌+◌, ◌≡◌, ◌∙◌, refl, ap, sym, take, arith, Bool, true, false, Text, codes, List, [], ◌∷◌, drop,
  length, snoc, none, some, some_cancel,
}
use multi_cloud.Common.Int.{pos, negsuc}
use multi_cloud.Common.Pieces.{take-length}
use multi_cloud.Common.Promises.{done-injective}
use multi_cloud.Common.Actions.{done, failed, attempt, tried, or_fail, ◌>>=◌}
use multi_cloud.Datamover.Types.{StorType, opensds, aws_s3, LocationInfo, Object, Buf}
use multi_cloud.Datamover.Movers.{
  s3_mover, driver_of, key_in, multi_part_download_init, multi_part_upload_init,
  complete_multipart_upload,
}
use multi_cloud.Datamover.Parts.{multipart_move_obj, part_count}
use multi_cloud.Datamover.Parts.Laws.{joined}
use multi_cloud.Datamover.Parts.Whole.{multipart_move_obj-copies}
use multi_cloud.Datamover.Parts.Answers.{Reliable}
use multi_cloud.Datamover.Move.{
  Services, Request, move, delete_obj, move_obj_key, refresh_src_location, move_bytes, move_obj,
}
use multi_cloud.Datamover.Settings.{set_part_size}
use multi_cloud.Datamover.Move.Keeps.{CopyKeeps}
use multi_cloud.Datamover.Move.Arrives.{ObjectLaws, move-arrives}
use multi_cloud.Datamover.Move.Safe.{move-failed_keeps}
use multi_cloud.Datamover.Tests.Disk.{
  Disk, is_left, get, put, fit, length-fit, or_empty, disk, disk_laws, is_kept, fit-piece,
  same_world, get-put,
}

abbrev at : Text → Text → LocationInfo
at bucket vir_bucket = record {
  stor_type = aws_s3;
  region = [];
  end_point = [];
  bucket_name = bucket;
  vir_bucket = vir_bucket;
  access = [];
  security = [];
  bakend_name = codes "b1";
}

abbrev five_bytes : Object
five_bytes = record {
  object_key = codes "key";
  bucket_name = codes "v1";
  size = 5;
  backend = codes "b1";
  last_modified = [];
}

abbrev before : Disk
before = record {
  left = some (1 ∷ 2 ∷ 3 ∷ 4 ∷ 5 ∷ []);
  right = none;
  parts = [];
  deleted = 0;
  added = 0;
}

abbrev copied : Disk
copied = record before {
  right = some (1 ∷ 2 ∷ 3 ∷ 4 ∷ 5 ∷ []);
  parts = (1 ∷ 2 ∷ []) ∷ (3 ∷ 4 ∷ []) ∷ (5 ∷ []) ∷ [];
}

copied_by_parts :
    multipart_move_obj disk 2 five_bytes (at (codes "left") []) (at (codes "right") []) before
    ≡ (copied, done tt)
unfolding multipart_move_obj ◌>>=◌ attempt or_fail part_count multi_part_download_init driver_of
    multi_part_upload_init complete_multipart_upload
copied_by_parts = refl

five_arrive :
    disk_laws.content copied (at (codes "right") []) (codes "key") ≡ some (1 ∷ 2 ∷ 3 ∷ 4 ∷ 5 ∷ [])
unfolding driver_of
five_arrive =
    multipart_move_obj-copies disk disk_laws 2 five_bytes (at (codes "left") [])
      (at (codes "right") []) (1 ∷ 2 ∷ 3 ∷ 4 ∷ 5 ∷ []) before copied
      (λ d e. ap is_kept (some_cancel (sym e))) (λ d e. ap is_kept (some_cancel (sym e)))
      (omega arith) refl refl copied_by_parts

abbrev plan_answers : Reliable disk (record {
  part_size = 2;
  obj = five_bytes;
  src_loca = at (codes "left") [];
  dest_loca = at (codes "right") (codes "v2");
})
unfolding driver_of
plan_answers = record {
  src_driver = s3_mover;
  src_supported = refl;
  dest_driver = s3_mover;
  dest_supported = refl;
  init_download_answers = λ d. record { succeed = λ w. (w, tt, refl, tt) };
  download_range_answers = λ d m b first last fits inside. record {
    succeed = λ w. (
      w,
      (length b, fit (length b) (drop first (or_empty (get true w)))),
      refl,
      (refl, length-fit (length b) (drop first (or_empty (get true w)))),
    );
  };
  init_upload_answers = λ d. record { succeed = λ w. (record w { parts = [] }, tt, refl, tt) };
  upload_part_answers = λ d m n b number offset. record {
    succeed = λ w. (record w { parts = snoc w.parts b }, tt, refl, tt);
  };
  complete_upload_answers =
      λ d m. record { succeed = λ w. (put false (joined w.parts) w, tt, refl, tt) };
}

-- The services beside the storage: no backend is known, and metadata is counted.
abbrev services : Services Disk
services = record {
  get_bucket = λ name w. (w, done (codes "b1"));
  list_objects = λ bucket w. (w, done (five_bytes ∷ []));
  create_object = λ obj w. (record w { added = w.added + 1 }, done tt);
  delete_object = λ bucket key w. (record w { deleted = w.deleted + 1 }, done tt);
  get_backend_by_name = λ name w. (w, failed (codes "not found"));
}

put-deleted : (side : Bool) (b : Buf) (w : Disk) → w.deleted ≡ 0 → (put side b w).deleted ≡ 0
put-deleted true b w h = h
put-deleted false b w h = h

put-added : (side : Bool) (b : Buf) (w : Disk) → w.added ≡ 0 → (put side b w).added ≡ 0
put-added true b w h = h
put-added false b w h = h

copying :
    (P : Disk → Type 0)
    → ((side : Bool) (b : Buf) (w : Disk) → P w → P (put side b w))
    → ((ps : List Buf) (w : Disk) → P w → P (record w { parts = ps }))
    → CopyKeeps P services disk
copying P puts parts = record {
  backend_keeps = λ name. record { keep = λ w p. p };
  download_keeps = λ d key loca b. record { keep = λ w p. p };
  upload_keeps = λ d key loca b. record { keep = λ w p. puts (is_left loca) b w p };
  init_download_keeps = λ d loca. record { keep = λ w p. p };
  download_range_keeps = λ d m key loca b first last. record { keep = λ w p. p };
  init_upload_keeps = λ d key loca. record { keep = λ w p. parts [] w p };
  upload_part_keeps =
      λ d m key loca n b number offset. record { keep = λ w p. parts (snoc w.parts b) w p };
  abort_keeps = λ d m key loca. record { keep = λ w p. parts [] w p };
  complete_keeps =
      λ d m key loca. record { keep = λ w p. puts (is_left loca) (joined w.parts) w p };
}

abbrev request : Bool → StorType → Request
request remain t = record {
  obj = five_bytes;
  dest_loca = record (at (codes "right") (codes "v2")) { stor_type = t };
  remain_source = remain;
  partsize = [];
  now = codes "2019-06-01 12:00:00";
}

to_nowhere :
    move services disk (request false opensds) 16 (at (codes "left") (codes "v1")) [] before
    ≡ (before, done (record { capa = negsuc 0; loc_map = []; part_size = 16 }))
unfolding move ◌>>=◌ attempt tried refresh_src_location move_bytes set_part_size move_obj driver_of
to_nowhere = refl

nothing_deleted : before.deleted ≡ 0
nothing_deleted =
    move-failed_keeps (λ w. w.deleted ≡ 0) services disk (request false opensds) 16
      (at (codes "left") (codes "v1")) [] before before
      (record { capa = negsuc 0; loc_map = []; part_size = 16 })
      (copying (λ w. w.deleted ≡ 0) put-deleted (λ ps w h. h)) to_nowhere refl refl

abbrev object_laws : ObjectLaws disk_laws
object_laws = record {
  download_obj_law = λ w w' d key loca b n got c r e stored full.
      sym (ap (λ p. p.1) (done-injective e))
      ∙ ap (λ x. fit (length b) (or_empty x)) stored
      ∙ fit-piece 0 (length b) c (omega (arith, full))
      ∙ ap (λ n. take n c) full
      ∙ take-length c;
  upload_obj_law = λ w w' d key loca b r e.
      ap (get (is_left loca)) (sym (same_world e)) ∙ get-put (is_left loca) b w;
}

-- The object arrives at the right, its metadata is written, and it is deleted at the left.
abbrev arrived : Disk
arrived = record copied { deleted = 2; added = 1 }

moves_five :
    move services disk (request false aws_s3) 2 (at (codes "left") (codes "v1")) [] before
    ≡ (arrived, done (record { capa = pos 5; loc_map = []; part_size = 2 }))
unfolding move ◌>>=◌ attempt tried refresh_src_location move_bytes set_part_size driver_of
    multipart_move_obj or_fail part_count multi_part_download_init multi_part_upload_init
    complete_multipart_upload delete_obj
moves_five = refl

five_moved :
    disk_laws.content arrived (at (codes "right") (codes "v2")) (codes "v2/key")
    ≡ some (1 ∷ 2 ∷ 3 ∷ 4 ∷ 5 ∷ [])
unfolding driver_of refresh_src_location set_part_size key_in move_obj_key
five_moved =
    move-arrives services disk disk_laws object_laws (request false aws_s3) 2
      (at (codes "left") (codes "v1")) (at (codes "left") (codes "v1")) [] []
      (1 ∷ 2 ∷ 3 ∷ 4 ∷ 5 ∷ []) before before arrived
      (record { capa = pos 5; loc_map = []; part_size = 2 })
      (λ d e. ap is_kept (some_cancel (sym e))) (λ d e. ap is_kept (some_cancel (sym e))) refl refl
      refl (omega arith) (omega arith)
      (record {
        create_keeps = λ obj. record { keep = λ w p. p };
        delete_keeps = λ d. record { keep = λ w p. p };
        delete_metadata_keeps = record { keep = λ w p. p };
      })
      moves_five (λ e. ground (arith, e))
