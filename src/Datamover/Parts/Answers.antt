-- ===== src/Datamover/Parts/Answers.antt =====
-- datamover/pkg/drivers/https/migration.go, `multipartMoveObj`: with storages that do what they are
-- asked, no call of it has an error.
use multi_cloud.Common.{
  ℕ, suc, ◌+◌, ◌-◌, ◌*◌, ◌≤◌, ◌<◌, ◌≡◌, ◌∙◌, refl, ◌==◌, arith, length, Text, Option, none, some,
}
use multi_cloud.Common.Actions.{Act}
use multi_cloud.Common.Succeeds.{
  Succeeds, return-Succeeds, attempt-Succeeds, or_fail-Succeeds, if-Succeeds, bind-Succeeds,
}
use multi_cloud.Datamover.Types.{Buf}
use multi_cloud.Datamover.Movers.{
  Driver, MoveWorker, Worker, driver_of, init_download_by, init_upload_by, complete_by,
}
use multi_cloud.Datamover.Parts.{
  Progress, Plan, download_key, upload_key, init_first, read_from, send_with, after_upload,
  after_complete,
}
use multi_cloud.Datamover.Parts.Copy.{IsSized}

-- The storages of the plan's locations answer without an error, and a read inside the object fills
-- its buffer.
pub record Reliable {W M : Type 0} (movers : Driver → MoveWorker W M) (p : Plan) : Type 0 where
  pub src_driver : Driver
  pub src_supported : driver_of p.src_loca.stor_type ≡ some src_driver
  pub dest_driver : Driver
  pub dest_supported : driver_of p.dest_loca.stor_type ≡ some dest_driver
  pub init_download_answers :
      (d : Driver) → Succeeds ((movers d).init_download p.src_loca) (λ m. Unit {0})
  pub download_range_answers :
      (d : Driver) (m : M) (b : Buf) (first last : ℕ)
      → first + length b ≡ suc last
      → last < p.obj.size
      → Succeeds
          ((movers d).download_range m (download_key p) p.src_loca b first last)
          (λ got. (got.0 ≡ length b) × (length got.1 ≡ length b))
  pub init_upload_answers :
      (d : Driver) → Succeeds ((movers d).init_upload (upload_key p) p.dest_loca) (λ m. Unit {0})
  pub upload_part_answers :
      (d : Driver) (m : M) (n : ℕ) (b : Buf) (number offset : ℕ)
      → Succeeds
          ((movers d).upload_part m (upload_key p) p.dest_loca n b number offset)
          (λ u. Unit {0})
  pub complete_upload_answers :
      (d : Driver) (m : M)
      → Succeeds ((movers d).complete_upload m (upload_key p) p.dest_loca) (λ u. Unit {0})

abbrev pub IsOpen : {M : Type 0} → Worker M → Type 0
IsOpen {M} worker = (dm : Driver × M) × (worker ≡ some dm)

module _ {W M : Type 0} (movers : Driver → MoveWorker W M) (p : Plan) (r : Reliable movers p)
    (pos : 0 < p.part_size) where
  pub init_download_by-opens :
      (t : Option Driver)
      → t ≡ some r.src_driver
      → Succeeds (init_download_by movers p.src_loca t) (λ dm. Unit {0})
  unfolding init_download_by
  init_download_by-opens none e = ground arith
  init_download_by-opens (some d) e =
      bind-Succeeds ((movers d).init_download p.src_loca) (r.init_download_answers d)
        (λ m u. return-Succeeds tt)

  pub init_upload_by-opens :
      (t : Option Driver)
      → t ≡ some r.dest_driver
      → Succeeds (init_upload_by movers (upload_key p) p.dest_loca t) (λ dm. Unit {0})
  unfolding init_upload_by
  init_upload_by-opens none e = ground arith
  init_upload_by-opens (some d) e =
      bind-Succeeds ((movers d).init_upload (upload_key p) p.dest_loca) (r.init_upload_answers d)
        (λ m u. return-Succeeds tt)

  -- After the first turn both movers are open.
  pub init_first-opens :
      (i : ℕ) (worker : Worker M) (init : Act W (Driver × M))
      → Succeeds init (λ dm. Unit {0})
      → (0 < i → IsOpen worker)
      → Succeeds (init_first movers i worker init) IsOpen
  unfolding init_first
  init_first-opens i worker init opens later =
      if-Succeeds (i + 1 == 1) (λ e. bind-Succeeds init opens (λ dm u. return-Succeeds (dm, refl)))
        (λ e. return-Succeeds (later (ground (arith, e))))

  pub read_from-answers :
      (i n : ℕ) (s : Progress M) (worker : Worker M)
      → IsOpen worker
      → IsSized n s
      → 0 < n
      → i * p.part_size + n ≤ p.obj.size
      → Succeeds
          (read_from movers p i s worker)
          (λ next. IsSized n next × (next.download_mover ≡ s.download_mover))
  unfolding read_from
  read_from-answers i n s none opened sized pos inside = ground (arith, opened)
  read_from-answers i n s (some (d, m)) opened sized pos inside =
      bind-Succeeds _
        (or_fail-Succeeds _ _ (
          r.download_range_answers d m s.buf (i * p.part_size)
            (i * p.part_size + s.curr_part_size - 1) (omega (arith, sized.buf_len, sized.curr_len))
            (omega (arith, sized.curr_len))))
        (λ got h.
          if-Succeeds (got.0 == s.curr_part_size)
            (λ e.
              return-Succeeds
                (record { buf_len = h.1 ∙ sized.buf_len; curr_len = sized.curr_len }, refl))
            (λ e. ground (arith, e, h.0, sized.buf_len, sized.curr_len)))

  after_upload-answers :
      (s : Progress M) (err : Option Text)
      → err ≡ none
      → Succeeds (after_upload movers p s err) (λ next. next ≡ s)
  unfolding after_upload
  after_upload-answers s none e = return-Succeeds refl
  after_upload-answers s (some err) e = ground (arith, e)

  pub send_with-answers :
      (i : ℕ) (s : Progress M) (worker : Worker M)
      → IsOpen worker
      → Succeeds (send_with movers p i s worker) (λ next. next ≡ s)
  unfolding send_with
  send_with-answers i s none opened = ground (arith, opened)
  send_with-answers i s (some (d, m)) opened =
      bind-Succeeds _
        (attempt-Succeeds _
          (r.upload_part_answers d m s.curr_part_size s.buf (i + 1) (i * p.part_size)))
        (after_upload-answers s)

  pub complete_by-answers :
      (t : Option Driver) (worker : Worker M)
      → t ≡ some r.dest_driver
      → IsOpen worker
      → Succeeds (complete_by movers (upload_key p) p.dest_loca t worker) (λ u. Unit {0})
  unfolding complete_by
  complete_by-answers none worker e opened = ground arith
  complete_by-answers (some d) none e opened = ground (arith, opened)
  complete_by-answers (some d) (some (own, m)) e opened = r.complete_upload_answers own m

  pub after_complete-answers :
      (s : Progress M) (err : Option Text)
      → err ≡ none
      → Succeeds (after_complete movers p s err) (λ u. Unit {0})
  unfolding after_complete
  after_complete-answers s none e = return-Succeeds tt
  after_complete-answers s (some err) e = ground (arith, e)
