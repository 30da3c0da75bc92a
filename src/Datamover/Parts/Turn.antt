-- ===== src/Datamover/Parts/Turn.antt =====
-- datamover/pkg/drivers/https/migration.go, `multipartMoveObj`: one turn of its loop copies a part.
use mathlib.Core.Path.{subst}
use multi_cloud.Common.{
  ℕ, ◌+◌, ◌*◌, ◌≤◌, ◌<◌, ◌≡◌, ◌∙◌, refl, ap, sym, ◌==◌, arith, ◌++◌, take, drop, length,
  length-replicate, Bool-cases, inl, inr,
}
use multi_cloud.Common.Pieces.{take-append, length-piece}
use multi_cloud.Common.Actions.{◌>>=◌}
use multi_cloud.Common.Promises.{Ensures, bind-Ensures, given-Ensures}
use multi_cloud.Datamover.Types.{Buf}
use multi_cloud.Datamover.Movers.{
  Driver, MoveWorker, Worker, multi_part_download_init, multi_part_upload_init,
}
use multi_cloud.Datamover.Parts.{
  Progress, Plan, count_of, upload_key, size_buffer, init_first, read_part, send_part, read_from,
  move_part,
}
use multi_cloud.Datamover.Parts.Sizes.{
  reached, part_len, reached-next, part_len-positive, part_count-inside,
}
use multi_cloud.Datamover.Parts.Laws.{StoreLaws, ReadsFrom, WritesTo, IsReader}
use multi_cloud.Datamover.Parts.Copy.{
  IsSized, Copied, open_download-Copied, read_from-Copied, open_upload-Copied, send_with-Copied,
}

module _ {M : Type 0} (p : Plan) where
  -- The turn works on a buffer of its part's size, with the movers it got.
  pub size_buffer-IsSized :
      (i : ℕ) (s : Progress M)
      → IsSized (p.part_size) s
      → IsSized (part_len p.part_size p.obj.size i) (size_buffer p i s)
  unfolding size_buffer
  size_buffer-IsSized i s sized = elim (Bool-cases (i + 1 == count_of p)) [
    | inl last ↦ rw (last) (record { buf_len = length-replicate _ 0; curr_len = refl })
    | inr more ↦ rw (more) sized
  ]

  pub size_buffer-movers :
      (i : ℕ) (s : Progress M) → (size_buffer p i s).upload_mover ≡ s.upload_mover
  unfolding size_buffer
  size_buffer-movers i s = elim (Bool-cases (i + 1 == count_of p)) [
    | inl last ↦ rw (last) refl
    | inr more ↦ rw (more) refl
  ]

  pub size_buffer-reader :
      (i : ℕ) (s : Progress M) → (size_buffer p i s).download_mover ≡ s.download_mover
  unfolding size_buffer
  size_buffer-reader i s = elim (Bool-cases (i + 1 == count_of p)) [
    | inl last ↦ rw (last) refl
    | inr more ↦ rw (more) refl
  ]

  -- A turn that is not the last leaves a full buffer.
  pub next-IsSized :
      (i : ℕ) {next : Progress M}
      → i + 1 < count_of p
      → IsSized (part_len p.part_size p.obj.size i) next
      → IsSized (p.part_size) next
  next-IsSized i {next} h left = record {
    buf_len = ground (arith, left.buf_len, h);
    curr_len = ground (arith, left.curr_len, h);
  }

module _ {W M : Type 0} (movers : Driver → MoveWorker W M) (laws : StoreLaws movers) (p : Plan)
    (c : Buf) (reads_from : ReadsFrom laws p.src_loca) (writes_to : WritesTo laws p.dest_loca)
    (pos : 0 < p.part_size) (whole : length c ≡ p.obj.size) where
  -- The bytes of part `i`.
  abbrev piece : ℕ → Buf
  piece i = take (part_len p.part_size p.obj.size i) (drop (i * p.part_size) c)

  start : (i : ℕ) → i < count_of p → i * p.part_size < length c
  start i h = omega (arith, whole, part_count-inside p.part_size p.obj.size i pos h)

  end :
      (i : ℕ)
      → i < count_of p
      → i * p.part_size + part_len p.part_size p.obj.size i ≡ reached p.part_size p.obj.size (i + 1)
  end i h = reached-next p.part_size p.obj.size i pos h

  inside : (i : ℕ) → i < count_of p → i * p.part_size + part_len p.part_size p.obj.size i ≤ length c
  inside i h = ground (arith, end i h, whole)

  -- What a turn leaves.
  abbrev pub Turned : ℕ → Progress M → W → Type 0
  Turned i next w =
      Copied movers laws p c reads_from writes_to (i + 1)
        (take (reached p.part_size p.obj.size (i + 1)) c) next.upload_mover w
      × IsSized (part_len p.part_size p.obj.size i) next
      × IsReader laws next.download_mover

  part_sent :
      (i : ℕ) (s : Progress M) (up : Worker M)
      → i < count_of p
      → IsSized (part_len p.part_size p.obj.size i) s
      → IsReader laws s.download_mover
      → s.buf ≡ piece i
      → Ensures
          (Copied movers laws p c reads_from writes_to i (take (i * p.part_size) c) up)
          (send_part movers p i (record s { upload_mover = up }))
          (Turned i)
  unfolding send_part
  part_sent i s up h sized reader read = record {
    ensure = λ w w' next e copied.
        let (after, same) =
          (send_with-Copied movers laws p c reads_from writes_to i (take (i * p.part_size) c) up
              (record s { upload_mover = up })
              (sym (length-piece 0 (i * p.part_size) c (omega (arith, start i h))))
              (sized.curr_len ∙ sym sized.buf_len)).ensure
            w w' next e copied in
        let grown : take (i * p.part_size) c ++ s.buf
            ≡ take (reached p.part_size p.obj.size (i + 1)) c =
          ap (λ b. take (i * p.part_size) c ++ b) read
          ∙ take-append (i * p.part_size) (part_len p.part_size p.obj.size i) c
          ∙ ap (λ k. take k c) (end i h) in
        subst (λ n. Turned i n w') (sym same)
          (
            subst (λ x. Copied movers laws p c reads_from writes_to (i + 1) x up w') grown after,
            record { buf_len = sized.buf_len; curr_len = sized.curr_len },
            reader,
          );
  }

  no_part : (i : ℕ) → i ≡ 0 → i * p.part_size ≡ 0
  no_part i e = omega (arith, ap (λ j. j * p.part_size) e)

  upload_turn :
      (i : ℕ) (s : Progress M) (up : Worker M)
      → i < count_of p
      → IsSized (part_len p.part_size p.obj.size i) s
      → IsReader laws s.download_mover
      → s.buf ≡ piece i
      → Ensures
          (Copied movers laws p c reads_from writes_to i (take (i * p.part_size) c) up)
          (init_first movers i up (multi_part_upload_init movers (upload_key p) p.dest_loca)
            >>= λ up'. send_part movers p i (record s { upload_mover = up' }))
          (Turned i)
  upload_turn i s up h sized reader read =
      bind-Ensures
        (init_first movers i up (multi_part_upload_init movers (upload_key p) p.dest_loca))
        (λ up'. Copied movers laws p c reads_from writes_to i (take (i * p.part_size) c) up')
        (open_upload-Copied movers laws p c reads_from writes_to i (take (i * p.part_size) c) up
          (λ e. ap (λ k. take k c) (no_part i e)))
        (λ up'. part_sent i s up' h sized reader read)

  -- The second half of the turn, after a read of the part.
  upload_read :
      (i : ℕ) (s read : Progress M)
      → i < count_of p
      → IsSized (part_len p.part_size p.obj.size i) s
      → IsReader laws s.download_mover
      → read ≡ record s { buf = piece i }
      → Ensures
          (Copied movers laws p c reads_from writes_to i (take (i * p.part_size) c) s.upload_mover)
          (init_first movers i s.upload_mover
              (multi_part_upload_init movers (upload_key p) p.dest_loca)
            >>= λ up'. send_part movers p i (record read { upload_mover = up' }))
          (Turned i)
  upload_read i s read h sized reader e =
      subst
        (λ r.
          Ensures
            (Copied movers laws p c reads_from writes_to i (take (i * p.part_size) c)
              s.upload_mover)
            (init_first movers i s.upload_mover
                (multi_part_upload_init movers (upload_key p) p.dest_loca)
              >>= λ up'. send_part movers p i (record r { upload_mover = up' }))
            (Turned i))
        (sym e)
        (upload_turn i (record s { buf = piece i }) s.upload_mover h
          (record { buf_len = length-piece _ _ c (inside i h); curr_len = sized.curr_len }) reader
          refl)

  -- One turn copies its part.
  pub turn :
      (i : ℕ) (s : Progress M)
      → i < count_of p
      → IsSized (p.part_size) s
      → IsReader laws s.download_mover
      → Ensures
          (Copied movers laws p c reads_from writes_to i (take (i * p.part_size) c) s.upload_mover)
          (move_part movers p i s)
          (Turned i)
  unfolding move_part read_part
  turn i s0 h sized0 reader0 =
      let s = size_buffer p i s0 in
      let sized = size_buffer-IsSized p i s0 sized0 in
      let x = take (i * p.part_size) c in
      let init =
        init_first movers i s.download_mover (multi_part_download_init movers p.src_loca) in
      bind-Ensures init
        (λ down w.
          Copied movers laws p c reads_from writes_to i x s.upload_mover w × IsReader laws down)
        (subst
          (λ up. Ensures (Copied movers laws p c reads_from writes_to i x up) init (λ down w.
            Copied movers laws p c reads_from writes_to i x s.upload_mover w × IsReader laws down))
          (size_buffer-movers p i s0)
          (open_download-Copied movers laws p c reads_from writes_to i x s.upload_mover
            s.download_mover (subst (IsReader laws) (sym (size_buffer-reader p i s0)) reader0)))
        (λ down. given-Ensures (λ reader.
          let opened : Progress M = record s { download_mover = down } in
          let ready : IsSized (part_len p.part_size p.obj.size i) opened = record {
            buf_len = sized.buf_len;
            curr_len = sized.curr_len;
          } in
          bind-Ensures (read_from movers p i opened down)
            (λ read w.
              Copied movers laws p c reads_from writes_to i x s.upload_mover w
              × (read ≡ record opened { buf = piece i }))
            (read_from-Copied movers laws p c reads_from writes_to i
              (part_len p.part_size p.obj.size i) x s.upload_mover down opened reader ready
              (part_len-positive p.part_size p.obj.size i pos h) (inside i h))
            (λ read. given-Ensures (λ e. upload_read i opened read h ready reader e))))
