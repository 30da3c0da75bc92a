-- ===== src/Datamover/Parts/Copy.antt =====
-- datamover/pkg/drivers/https/migration.go, `multipartMoveObj`: with storages that keep their
-- documented promises, each call of a turn hands on what is copied.
use mathlib.Core.Path.{subst₂}
use multi_cloud.Common.{
  ℕ, ◌+◌, ◌-◌, ◌*◌, ◌≤◌, ◌<◌, ◌≡◌, ◌∙◌, refl, ap, sym, ◌==◌, arith, [], ◌++◌, take, drop, length,
  length-snoc, some_cancel, Text, codes, Option, none, some, true,
}
use multi_cloud.Common.Actions.{attempt}
use multi_cloud.Common.Promises.{
  Ensures, bind-Ensures, or_fail-Ensures, return-Ensures, fail-Ensures, panic-Ensures, if-Ensures,
  attempt-Ensures, fails-Ensures,
}
use multi_cloud.Datamover.Types.{Buf}
use multi_cloud.Datamover.Movers.{
  Driver, MoveWorker, Worker, multi_part_download_init, multi_part_upload_init,
  abort_multipart_upload, driver_of, init_download_by, init_upload_by, complete_by, unsupported,
}
use multi_cloud.Datamover.Parts.{
  Progress, Plan, download_key, upload_key, init_first, read_from, send_with, after_upload,
}
use multi_cloud.Datamover.Parts.Laws.{joined, joined-snoc, StoreLaws, ReadsFrom, WritesTo, IsReader}

-- The buffer and the size that a turn starts with.
pub record IsSized {M : Type 0} (n : ℕ) (s : Progress M) : Type 0 where
  pub buf_len : length s.buf ≡ n
  pub curr_len : s.curr_part_size ≡ n

module _ {W M : Type 0} (movers : Driver → MoveWorker W M) (laws : StoreLaws movers) (p : Plan)
    (c : Buf) (reads_from : ReadsFrom laws p.src_loca) (writes_to : WritesTo laws p.dest_loca) where
  -- The object is there, and an upload that is open has taken the first `i` parts, the bytes `x`.
  pub record Copied (i : ℕ) (x : Buf) (up : Worker M) (w : W) : Type 0 where
    pub stored : laws.content w p.src_loca (download_key p) ≡ some c
    pub writer : (d : Driver) (m : M) → up ≡ some (d, m) → laws.writes d ≡ true
    pub number :
        (d : Driver) (m : M)
        → up ≡ some (d, m)
        → length (laws.sent w (d, m) p.dest_loca (upload_key p)) ≡ i
    pub bytes :
        (d : Driver) (m : M)
        → up ≡ some (d, m)
        → joined (laws.sent w (d, m) p.dest_loca (upload_key p)) ≡ x

  kept :
      (i : ℕ) (x : Buf) (up : Worker M) (w w' : W)
      → laws.content w' ≡ laws.content w
      → laws.sent w' ≡ laws.sent w
      → Copied i x up w
      → Copied i x up w'
  kept i x up w w' same same_sent h = record {
    stored = ap (λ f. f p.src_loca (download_key p)) same ∙ h.stored;
    writer = h.writer;
    number =
        λ d m e. ap (λ f. length (f (d, m) p.dest_loca (upload_key p))) same_sent ∙ h.number d m e;
    bytes =
        λ d m e. ap (λ f. joined (f (d, m) p.dest_loca (upload_key p))) same_sent ∙ h.bytes d m e;
  }

  init_download_by-Copied :
      (i : ℕ) (x : Buf) (up : Worker M) (t : Option Driver)
      → ((d : Driver) → t ≡ some d → laws.reads d ≡ true)
      → Ensures
          (Copied i x up)
          (init_download_by movers p.src_loca t)
          (λ dm w. Copied i x up w × IsReader laws (some dm))
  unfolding init_download_by
  init_download_by-Copied i x up none r = fail-Ensures unsupported
  init_download_by-Copied i x up (some d) r =
      bind-Ensures ((movers d).init_download p.src_loca) (λ m. Copied i x up)
        (record {
          ensure = λ w w' m e h.
              let (same, same_sent) = laws.init_download_law w w' d m p.src_loca e in
              kept i x up w w' same same_sent h;
        })
        (λ m. return-Ensures (λ w h. (h, λ d' m' own. ap laws.reads (reader_of own) ∙ r d refl)))
    where
      reader_of :
          {d d' : Driver} {m m' : M} → ◌≡◌ {A = Worker M} (some (d, m)) (some (d', m')) → d' ≡ d
      reader_of own = sym (ap (λ q. q.0) (some_cancel own))

  pub open_download-Copied :
      (i : ℕ) (x : Buf) (up down : Worker M)
      → IsReader laws down
      → Ensures
          (Copied i x up)
          (init_first movers i down (multi_part_download_init movers p.src_loca))
          (λ worker w. Copied i x up w × IsReader laws worker)
  unfolding init_first multi_part_download_init
  open_download-Copied i x up down reader =
      if-Ensures (i + 1 == 1)
        (λ e.
          bind-Ensures _ (λ dm w. Copied i x up w × IsReader laws (some dm))
            (init_download_by-Copied i x up (driver_of (p.src_loca.stor_type)) reads_from)
            (λ dm. return-Ensures (λ w h. h)))
        (λ e. return-Ensures (λ w h. (h, reader)))

  pub read_from-Copied :
      (i n : ℕ) (x : Buf) (up down : Worker M) (s : Progress M)
      → IsReader laws down
      → IsSized n s
      → 0 < n
      → i * p.part_size + n ≤ length c
      → Ensures (Copied i x up) (read_from movers p i s down) (λ read w.
        Copied i x up w × (read ≡ record s { buf = take n (drop (i * p.part_size) c) }))
  unfolding read_from
  read_from-Copied i n x up none s reader sized pos inside = panic-Ensures
  read_from-Copied i n x up (some (d, m)) s reader sized pos inside =
      bind-Ensures _
        (λ got w.
          got.0 ≡ length s.buf
          → Copied i x up w × (got.1 ≡ take (length s.buf) (drop (i * p.part_size) c)))
        (or_fail-Ensures _ _ (record {
          ensure = λ w w' got e h full.
              let (same, same_sent, bytes) =
                laws.download_range_law w w' d m (download_key p) p.src_loca s.buf (i * p.part_size)
                  (i * p.part_size + s.curr_part_size - 1) got.0 got.1 c (reader d m refl) e
                  h.stored (omega (arith, sized.buf_len, sized.curr_len))
                  (omega (arith, sized.curr_len)) full in
              (kept i x up w w' same same_sent h, bytes);
        }))
        (λ got.
          if-Ensures (got.0 == s.curr_part_size)
            (λ e. return-Ensures (λ w h.
              let (copied, bytes) = h (ground (arith, e, sized.buf_len, sized.curr_len)) in
              (
                copied,
                ap (λ b. record s { buf = b })
                    (bytes ∙ ap (λ k. take k (drop (i * p.part_size) c)) sized.buf_len),
              )))
            (λ e. fail-Ensures _))

  init_upload_by-Copied :
      (i : ℕ) (x : Buf) (up : Worker M) (t : Option Driver)
      → ((d : Driver) → t ≡ some d → laws.writes d ≡ true)
      → Ensures
          (Copied i x up)
          (init_upload_by movers (upload_key p) p.dest_loca t)
          (λ dm. Copied 0 [] (some dm))
  unfolding init_upload_by
  init_upload_by-Copied i x up none r = fail-Ensures unsupported
  init_upload_by-Copied i x up (some d) r =
      bind-Ensures ((movers d).init_upload (upload_key p) p.dest_loca)
        (λ m. Copied 0 [] (some (d, m)))
        (record {
          ensure = λ w w' m e h.
              let (same, empty) =
                laws.init_upload_law w w' d m (upload_key p) p.dest_loca (r d refl) e in
              record {
                stored = ap (λ f. f p.src_loca (download_key p)) same ∙ h.stored;
                writer = λ d' m' own. ap (λ y. laws.writes y.0) (sym (some_cancel own)) ∙ r d refl;
                number = λ d' m' own.
                    ap (λ y. length (laws.sent w' y p.dest_loca (upload_key p)))
                      (sym (some_cancel own))
                    ∙ ap length empty;
                bytes = λ d' m' own.
                    ap (λ y. joined (laws.sent w' y p.dest_loca (upload_key p)))
                      (sym (some_cancel own))
                    ∙ ap joined empty;
              };
        })
        (λ m. return-Ensures (λ w h. h))

  pub open_upload-Copied :
      (i : ℕ) (x : Buf) (up : Worker M)
      → (i ≡ 0 → x ≡ [])
      → Ensures
          (Copied i x up)
          (init_first movers i up (multi_part_upload_init movers (upload_key p) p.dest_loca))
          (λ up'. Copied i x up')
  unfolding init_first multi_part_upload_init
  open_upload-Copied i x up start =
      if-Ensures (i + 1 == 1)
        (λ e.
          let first : i ≡ 0 = ground (arith, e) in
          bind-Ensures _ (λ dm. Copied 0 [] (some dm))
            (init_upload_by-Copied i x up (driver_of (p.dest_loca.stor_type)) writes_to)
            (λ dm.
              return-Ensures
                (λ w h. subst₂ (λ j y. Copied j y (some dm) w) (sym first) (sym (start first)) h)))
        (λ e. return-Ensures (λ w h. h))

  after_upload-Copied :
      (i : ℕ) (x : Buf) (up : Worker M) (s : Progress M) (err : Option Text)
      → Ensures
          (λ w. err ≡ none → Copied i x up w)
          (after_upload movers p s err)
          (λ next w. Copied i x up w × (next ≡ s))
  unfolding after_upload
  after_upload-Copied i x up s none = return-Ensures (λ w h. (h refl, refl))
  after_upload-Copied i x up s (some e) =
      fails-Ensures
        (attempt (abort_multipart_upload movers (p.obj.object_key) p.dest_loca s.upload_mover))
        (codes "S3 multipart upload failed.")

  pub send_with-Copied :
      (i : ℕ) (x : Buf) (up : Worker M) (s : Progress M)
      → i * p.part_size ≡ length x
      → s.curr_part_size ≡ length s.buf
      → Ensures
          (Copied i x up)
          (send_with movers p i s up)
          (λ next w. Copied (i + 1) (x ++ s.buf) up w × (next ≡ s))
  unfolding send_with
  send_with-Copied i x none s place sized = panic-Ensures
  send_with-Copied i x (some (d, m)) s place sized =
      bind-Ensures _ (λ err w. err ≡ none → Copied (i + 1) (x ++ s.buf) (some (d, m)) w)
        (attempt-Ensures _ (record {
          ensure = λ w w' u e h.
              let own =
                laws.upload_part_law w w' d m (upload_key p) p.dest_loca s.curr_part_size s.buf
                  (i + 1) (i * p.part_size) (h.writer d m refl) e sized
                  (omega (arith, h.number d m refl)) (place ∙ sym (ap length (h.bytes d m refl))) in
              record {
                stored = ap (λ f. f p.src_loca (download_key p)) own.0 ∙ h.stored;
                writer = h.writer;
                number = λ d' m' o.
                    ap (λ y. length (laws.sent w' y p.dest_loca (upload_key p)))
                      (sym (some_cancel o))
                    ∙ ap length own.1
                    ∙ length-snoc _ s.buf
                    ∙ ap (λ k. k + 1) (h.number d m refl);
                bytes = λ d' m' o.
                    ap (λ y. joined (laws.sent w' y p.dest_loca (upload_key p)))
                      (sym (some_cancel o))
                    ∙ ap joined own.1
                    ∙ joined-snoc (laws.sent w (d, m) p.dest_loca (upload_key p)) s.buf
                    ∙ ap (λ y. y ++ s.buf) (h.bytes d m refl);
              };
        }))
        (after_upload-Copied (i + 1) (x ++ s.buf) (some (d, m)) s)

  pub complete_by-Copied :
      (i : ℕ) (x : Buf) (up : Worker M) (t : Option Driver)
      → Ensures
          (Copied i x up)
          (complete_by movers (upload_key p) p.dest_loca t up)
          (λ u w. laws.content w p.dest_loca (upload_key p) ≡ some x)
  unfolding complete_by
  complete_by-Copied i x up none = fail-Ensures unsupported
  complete_by-Copied i x none (some d) = panic-Ensures
  complete_by-Copied i x (some (own, m)) (some d) = record {
    ensure = λ w w' u e h.
        laws.complete_upload_law w w' own m (upload_key p) p.dest_loca (h.writer own m refl) e
        ∙ ap some (h.bytes own m refl);
  }
