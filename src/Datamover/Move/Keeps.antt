-- ===== src/Datamover/Move/Keeps.antt =====
-- datamover/pkg/drivers/https/migration.go, `move`: what a move leaves alone.
use multi_cloud.Common.{ℕ, zero, suc, ◌+◌, ◌==◌, Text, List, Option, none, some}
use multi_cloud.Common.Actions.{Act}
use multi_cloud.Common.Promises.{
  Keeps, bind-Keeps, attempt-Keeps, or_fail-Keeps, return-Keeps, fail-Keeps, panic-Keeps, if-Keeps,
}
use multi_cloud.Datamover.Types.{LocationInfo, Object}
use multi_cloud.Datamover.Movers.{
  Driver, MoveWorker, Worker, multi_part_download_init, multi_part_upload_init,
  abort_multipart_upload, complete_multipart_upload, init_download_by, init_upload_by, abort_by,
  complete_by,
}
use multi_cloud.Datamover.Parts.{
  Plan, Progress, multipart_move_obj, init_first, read_part, read_from, send_part, send_with,
  after_upload, move_part, move_parts, complete_parts, after_complete, size_buffer, count_of,
}
use multi_cloud.Datamover.Move.{Services}

-- Copying bytes and asking for a backend leave `P` as it is.
pub record CopyKeeps {W M : Type 0} (P : W → Type 0) (sv : Services W)
    (movers : Driver → MoveWorker W M) : Type 0 where
  pub backend_keeps : (name : Text) → Keeps P (sv.get_backend_by_name name)
  pub download_keeps :
      (d : Driver) (key : Text) (loca : LocationInfo) (b : List ℕ)
      → Keeps P ((movers d).download_obj key loca b)
  pub upload_keeps :
      (d : Driver) (key : Text) (loca : LocationInfo) (b : List ℕ)
      → Keeps P ((movers d).upload_obj key loca b)
  pub init_download_keeps :
      (d : Driver) (loca : LocationInfo) → Keeps P ((movers d).init_download loca)
  pub download_range_keeps :
      (d : Driver) (m : M) (key : Text) (loca : LocationInfo) (b : List ℕ) (first last : ℕ)
      → Keeps P ((movers d).download_range m key loca b first last)
  pub init_upload_keeps :
      (d : Driver) (key : Text) (loca : LocationInfo) → Keeps P ((movers d).init_upload key loca)
  pub upload_part_keeps :
      (d : Driver) (m : M) (key : Text) (loca : LocationInfo) (n : ℕ) (b : List ℕ)
      (number offset : ℕ)
      → Keeps P ((movers d).upload_part m key loca n b number offset)
  pub abort_keeps :
      (d : Driver) (m : M) (key : Text) (loca : LocationInfo)
      → Keeps P ((movers d).abort_upload m key loca)
  pub complete_keeps :
      (d : Driver) (m : M) (key : Text) (loca : LocationInfo)
      → Keeps P ((movers d).complete_upload m key loca)

module _ {W M : Type 0} (P : W → Type 0) (sv : Services W) (movers : Driver → MoveWorker W M)
    (k : CopyKeeps P sv movers) where
  abort-Keeps :
      (key : Text) (loca : LocationInfo) (t : Option Driver) (worker : Worker M)
      → Keeps P (abort_by movers key loca t worker)
  unfolding abort_by
  abort-Keeps key loca none worker = fail-Keeps
  abort-Keeps key loca (some d) none = panic-Keeps
  abort-Keeps key loca (some d) (some (own, m)) = k.abort_keeps own m key loca

  complete-Keeps :
      (key : Text) (loca : LocationInfo) (t : Option Driver) (worker : Worker M)
      → Keeps P (complete_by movers key loca t worker)
  unfolding complete_by
  complete-Keeps key loca none worker = fail-Keeps
  complete-Keeps key loca (some d) none = panic-Keeps
  complete-Keeps key loca (some d) (some (own, m)) = k.complete_keeps own m key loca

  init_download-Keeps :
      (loca : LocationInfo) (t : Option Driver) → Keeps P (init_download_by movers loca t)
  unfolding init_download_by
  init_download-Keeps loca none = fail-Keeps
  init_download-Keeps loca (some d) =
      bind-Keeps _ (k.init_download_keeps d loca) (λ m. return-Keeps)

  init_upload-Keeps :
      (key : Text) (loca : LocationInfo) (t : Option Driver)
      → Keeps P (init_upload_by movers key loca t)
  unfolding init_upload_by
  init_upload-Keeps key loca none = fail-Keeps
  init_upload-Keeps key loca (some d) =
      bind-Keeps _ (k.init_upload_keeps d key loca) (λ m. return-Keeps)

  init_first-Keeps :
      (i : ℕ) (worker : Worker M) (init : Act W (Driver × M))
      → Keeps P init
      → Keeps P (init_first movers i worker init)
  unfolding init_first
  init_first-Keeps i worker init keeps =
      if-Keeps (i + 1 == 1) (bind-Keeps _ keeps (λ dm. return-Keeps)) return-Keeps

  read_from-Keeps :
      (p : Plan) (i : ℕ) (s : Progress M) (worker : Worker M)
      → Keeps P (read_from movers p i s worker)
  unfolding read_from
  read_from-Keeps p i s none = panic-Keeps
  read_from-Keeps p i s (some (d, m)) =
      bind-Keeps _ (or_fail-Keeps _ _ (k.download_range_keeps d m _ _ _ _ _))
        (λ got. if-Keeps (got.0 == s.curr_part_size) return-Keeps fail-Keeps)

  after_upload-Keeps :
      (p : Plan) (s : Progress M) (err : Option Text) → Keeps P (after_upload movers p s err)
  unfolding after_upload abort_multipart_upload
  after_upload-Keeps p s none = return-Keeps
  after_upload-Keeps p s (some err) =
      bind-Keeps _ (attempt-Keeps _ (abort-Keeps _ _ _ _)) (λ e. fail-Keeps)

  send_with-Keeps :
      (p : Plan) (i : ℕ) (s : Progress M) (worker : Worker M)
      → Keeps P (send_with movers p i s worker)
  unfolding send_with
  send_with-Keeps p i s none = panic-Keeps
  send_with-Keeps p i s (some (d, m)) =
      bind-Keeps _ (attempt-Keeps _ (k.upload_part_keeps d m _ _ _ _ _ _))
        (λ err. after_upload-Keeps p s err)

  move_part-Keeps : (p : Plan) (i : ℕ) (s : Progress M) → Keeps P (move_part movers p i s)
  unfolding move_part read_part send_part multi_part_download_init multi_part_upload_init
  move_part-Keeps p i s0 =
      let s = size_buffer p i s0 in
      bind-Keeps _ (init_first-Keeps i s.download_mover _ (init_download-Keeps _ _)) (λ down.
        bind-Keeps _ (read_from-Keeps p i (record s { download_mover = down }) down) (λ read.
          bind-Keeps _ (init_first-Keeps i s.upload_mover _ (init_upload-Keeps _ _ _))
            (λ up. send_with-Keeps p i (record read { upload_mover = up }) up)))

  move_parts-Keeps : (p : Plan) (n i : ℕ) (s : Progress M) → Keeps P (move_parts movers p n i s)
  unfolding move_parts
  move_parts-Keeps p zero i s = return-Keeps
  move_parts-Keeps p (suc n) i s =
      bind-Keeps _ (move_part-Keeps p i s) (λ next. move_parts-Keeps p n (i + 1) next)

  after_complete-Keeps :
      (p : Plan) (s : Progress M) (err : Option Text) → Keeps P (after_complete movers p s err)
  unfolding after_complete abort_multipart_upload
  after_complete-Keeps p s none = return-Keeps
  after_complete-Keeps p s (some err) =
      bind-Keeps _ (attempt-Keeps _ (abort-Keeps _ _ _ _)) (λ e. fail-Keeps)

  pub multipart_move_obj-Keeps :
      (n : ℕ) (obj : Object) (src_loca dest_loca : LocationInfo)
      → Keeps P (multipart_move_obj movers n obj src_loca dest_loca)
  unfolding multipart_move_obj complete_parts complete_multipart_upload
  multipart_move_obj-Keeps n obj src_loca dest_loca =
      let p : Plan = record {
        part_size = n;
        obj = obj;
        src_loca = src_loca;
        dest_loca = dest_loca;
      } in
      bind-Keeps _ (move_parts-Keeps p (count_of p) 0 _) (λ s.
        bind-Keeps _ (attempt-Keeps _ (complete-Keeps _ _ _ _))
          (λ err. after_complete-Keeps p s err))
