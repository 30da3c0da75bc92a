-- ===== src/Datamover/Parts.antt =====
-- datamover/pkg/drivers/https/migration.go: an object moved part by part.
pub mod Sizes
pub mod Laws
pub mod Chunks
pub mod Copy
pub mod Turn
pub mod Whole
pub mod Answers
pub mod Ends
use multi_cloud.Common.{
  ℕ, suc, zero, ◌+◌, ◌-◌, ◌*◌, ◌/◌, ◌%◌, ◌==◌, Text, codes, none, some, if◌then◌else◌, Option,
  replicate,
}
use multi_cloud.Common.Actions.{Act, return, fail, panic, ◌>>=◌, attempt, or_fail}
use multi_cloud.Datamover.Types.{LocationInfo, Object, Buf}
use multi_cloud.Datamover.Movers.{
  Driver, MoveWorker, key_in, Worker, multi_part_download_init, multi_part_upload_init,
  abort_multipart_upload, complete_multipart_upload,
}

unfoldable pub part_count : ℕ → ℕ → ℕ
part_count part_size size = if size % part_size == 0 then size / part_size else size / part_size + 1

-- The local variables that the loop carries.
pub record Progress (M : Type 0) : Type 0 where
  pub download_mover : Worker M
  pub upload_mover : Worker M
  pub buf : Buf
  pub curr_part_size : ℕ

-- What one turn of the loop reads.
pub record Plan : Type 0 where
  pub part_size : ℕ
  pub obj : Object
  pub src_loca : LocationInfo
  pub dest_loca : LocationInfo

abbrev pub count_of : Plan → ℕ
count_of p = part_count p.part_size (p.obj.size)

abbrev pub download_key : Plan → Text
download_key p = key_in p.src_loca (p.obj.object_key)

abbrev pub upload_key : Plan → Text
upload_key p = key_in p.dest_loca (p.obj.object_key)

-- The last part gets a buffer of its own size.
unfoldable pub size_buffer : {M : Type 0} → Plan → ℕ → Progress M → Progress M
size_buffer p i s =
    let rest = p.obj.size - i * p.part_size in
    if i + 1 == count_of p then record s { curr_part_size = rest; buf = replicate rest 0 } else s

module _ {W M : Type 0} (movers : Driver → MoveWorker W M) where
  -- The first part makes the mover.
  unfoldable pub init_first : ℕ → Worker M → Act W (Driver × M) → Act W (Worker M)
  init_first i worker init = if i + 1 == 1 then init >>= (λ m. return (some m)) else return worker

  unfoldable pub read_from : Plan → ℕ → Progress M → Worker M → Act W (Progress M)
  read_from p i s none = panic
  read_from p i s (some (d, m)) = do
    got ← or_fail (codes "Download failed.") (
        (movers d).download_range m (download_key p) p.src_loca s.buf (i * p.part_size)
          (i * p.part_size + s.curr_part_size - 1))
    if got.0 == s.curr_part_size
        then return (record s { buf = got.1 })
        else fail (codes "Internal error")

  unfoldable pub read_part : Plan → ℕ → Progress M → Act W (Progress M)
  unfolding read_from
  read_part p i s = read_from p i s (s.download_mover)

  -- A part that is not taken aborts the upload, under the object's own key.
  unfoldable pub after_upload : Plan → Progress M → Option Text → Act W (Progress M)
  after_upload p s none = return s
  after_upload p s (some err1) = do
    err ← attempt (abort_multipart_upload movers (p.obj.object_key) p.dest_loca s.upload_mover)
    fail (codes "S3 multipart upload failed.")

  unfoldable pub send_with : Plan → ℕ → Progress M → Worker M → Act W (Progress M)
  unfolding after_upload
  send_with p i s none = panic
  send_with p i s (some (d, m)) = do
    err1 ← attempt (
        (movers d).upload_part m (upload_key p) p.dest_loca s.curr_part_size s.buf (i + 1)
          (i * p.part_size))
    after_upload p s err1

  unfoldable pub send_part : Plan → ℕ → Progress M → Act W (Progress M)
  unfolding send_with
  send_part p i s = send_with p i s (s.upload_mover)

  unfoldable pub move_part : Plan → ℕ → Progress M → Act W (Progress M)
  unfolding init_first read_part send_part size_buffer
  move_part p i s0 = do
    let s = size_buffer p i s0
    down ← init_first i s.download_mover (multi_part_download_init movers p.src_loca)
    read ← read_part p i (record s { download_mover = down })
    up ← init_first i s.upload_mover (multi_part_upload_init movers (upload_key p) p.dest_loca)
    send_part p i (record read { upload_mover = up })

  -- The loop over the parts from part `i`, with `n` parts left.
  unfoldable pub move_parts : Plan → ℕ → ℕ → Progress M → Act W (Progress M)
  unfolding move_part
  move_parts p zero i s = return s
  move_parts p (suc n) i s = move_part p i s >>= λ next. move_parts p n (i + 1) next

  unfoldable pub after_complete : Plan → Progress M → Option Text → Act W (Unit {0})
  after_complete p s none = return tt
  after_complete p s (some e) = do
    err ← attempt (abort_multipart_upload movers (p.obj.object_key) p.dest_loca s.upload_mover)
    fail e

  unfoldable pub complete_parts : Plan → Progress M → Act W (Unit {0})
  unfolding after_complete
  complete_parts p s = do
    err ← attempt (complete_multipart_upload movers (upload_key p) p.dest_loca s.upload_mover)
    after_complete p s err

  unfoldable pub multipart_move_obj : ℕ → Object → LocationInfo → LocationInfo → Act W (Unit {0})
  unfolding move_parts complete_parts
  multipart_move_obj part_size obj src_loca dest_loca = do
    let p : Plan = record {
      part_size = part_size;
      obj = obj;
      src_loca = src_loca;
      dest_loca = dest_loca;
    }
    s ← move_parts p (count_of p) 0 (record {
      download_mover = none;
      upload_mover = none;
      buf = replicate part_size 0;
      curr_part_size = part_size;
    })
    complete_parts p s
