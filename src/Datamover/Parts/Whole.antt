-- ===== src/Datamover/Parts/Whole.antt =====
-- datamover/pkg/drivers/https/migration.go, `multipartMoveObj`: the object that arrives is the object
-- that was stored.
use mathlib.Core.Path.{subst, subst₂}
use multi_cloud.Common.{
  ℕ, suc, zero, ◌+◌, ◌<◌, ◌≡◌, ◌∙◌, refl, ap, sym, arith, take, length, length-replicate, replicate,
  Text, Option, none, some,
}
use multi_cloud.Common.Pieces.{take-length}
use multi_cloud.Common.Actions.{attempt, done}
use multi_cloud.Common.Promises.{
  Ensures, bind-Ensures, return-Ensures, fails-Ensures, attempt-Ensures,
}
use multi_cloud.Datamover.Types.{LocationInfo, Object, Buf}
use multi_cloud.Datamover.Movers.{
  Driver, MoveWorker, key_in, complete_multipart_upload, abort_multipart_upload, driver_of,
}
use multi_cloud.Datamover.Parts.{
  Progress, Plan, count_of, upload_key, move_part, move_parts, complete_parts, after_complete,
  multipart_move_obj,
}
use multi_cloud.Datamover.Parts.Sizes.{reached, reached-inside, reached-end}
use multi_cloud.Datamover.Parts.Laws.{StoreLaws, ReadsFrom, WritesTo, IsReader}
use multi_cloud.Datamover.Parts.Copy.{IsSized, Copied, complete_by-Copied}
use multi_cloud.Datamover.Parts.Turn.{Turned, turn, next-IsSized}

module _ {W M : Type 0} (movers : Driver → MoveWorker W M) (laws : StoreLaws movers) (p : Plan)
    (c : Buf) (reads_from : ReadsFrom laws p.src_loca) (writes_to : WritesTo laws p.dest_loca)
    (pos : 0 < p.part_size) (whole : length c ≡ p.obj.size) where
  -- The loop copies the rest.
  turns :
      (n i : ℕ) (s : Progress M)
      → n + i ≡ count_of p
      → (i < count_of p → IsSized (p.part_size) s)
      → IsReader laws s.download_mover
      → Ensures
          (Copied movers laws p c reads_from writes_to i
            (take (reached p.part_size p.obj.size i) c)
            s.upload_mover)
          (move_parts movers p n i s)
          (λ last. Copied movers laws p c reads_from writes_to (count_of p) c last.upload_mover)
  unfolding move_parts
  turns zero i s e sized reader = return-Ensures (λ w h.
      subst₂ (λ j x. Copied movers laws p c reads_from writes_to j x s.upload_mover w) at_end all h)
    where
      at_end : i ≡ count_of p
      at_end = omega (arith, e)

      all : take (reached p.part_size p.obj.size i) c ≡ c
      all =
          ap (λ k. take k c)
            (ap (λ j. reached p.part_size p.obj.size j) at_end
              ∙ reached-end p.part_size p.obj.size pos
              ∙ sym whole)
          ∙ take-length c
  turns (suc n) i s e sized reader =
      bind-Ensures (move_part movers p i s)
        (Turned movers laws p c reads_from writes_to pos whole i)
        (subst
          (λ k.
            Ensures (Copied movers laws p c reads_from writes_to i (take k c) s.upload_mover)
              (move_part movers p i s) (Turned movers laws p c reads_from writes_to pos whole i))
          (sym (reached-inside p.part_size p.obj.size i pos more))
          (turn movers laws p c reads_from writes_to pos whole i s more (sized more) reader))
        (λ next. record {
          ensure = λ w w' last ran turned.
              let (copied, sized', reader') = turned in
              (turns n (i + 1) next (omega (arith, e)) (λ h. next-IsSized p i h sized')
                  reader').ensure
                w w' last ran copied;
        })
    where
      more : i < count_of p
      more = omega (arith, e)

  after_complete-Ensures :
      (s : Progress M) (err : Option Text)
      → Ensures
          (λ w. err ≡ none → laws.content w p.dest_loca (upload_key p) ≡ some c)
          (after_complete movers p s err)
          (λ u w. laws.content w p.dest_loca (upload_key p) ≡ some c)
  unfolding after_complete
  after_complete-Ensures s none = return-Ensures (λ w h. h refl)
  after_complete-Ensures s (some e) =
      fails-Ensures
        (attempt (abort_multipart_upload movers (p.obj.object_key) p.dest_loca s.upload_mover)) e

  complete_parts-Copied :
      (s : Progress M)
      → Ensures
          (Copied movers laws p c reads_from writes_to (count_of p) c s.upload_mover)
          (complete_parts movers p s)
          (λ u w. laws.content w p.dest_loca (upload_key p) ≡ some c)
  unfolding complete_parts complete_multipart_upload
  complete_parts-Copied s =
      bind-Ensures _ (λ err w. err ≡ none → laws.content w p.dest_loca (upload_key p) ≡ some c)
        (attempt-Ensures _ (
          complete_by-Copied movers laws p c reads_from writes_to (count_of p) c s.upload_mover
            (driver_of (p.dest_loca.stor_type))))
        (after_complete-Ensures s)

-- If a move part by part of an object that is stored with its listed size ends without an error,
-- then the object under the destination's key has the bytes of the object under the source's key,
-- for storages whose movers read and write as promised and a positive part size.
pub multipart_move_obj-copies :
    {W M : Type 0} (movers : Driver → MoveWorker W M) (laws : StoreLaws movers) (part_size : ℕ)
    (obj : Object) (src_loca dest_loca : LocationInfo) (c : Buf) (w w' : W)
    → ReadsFrom laws src_loca
    → WritesTo laws dest_loca
    → 0 < part_size
    → laws.content w src_loca (key_in src_loca (obj.object_key)) ≡ some c
    → length c ≡ obj.size
    → multipart_move_obj movers part_size obj src_loca dest_loca w ≡ (w', done tt)
    → laws.content w' dest_loca (key_in dest_loca (obj.object_key)) ≡ some c
unfolding multipart_move_obj
multipart_move_obj-copies {M = M} movers laws part_size obj src_loca dest_loca c w w' reads_from
      writes_to pos stored whole returned =
    let p : Plan = record {
      part_size = part_size;
      obj = obj;
      src_loca = src_loca;
      dest_loca = dest_loca;
    } in
    let s : Progress M = record {
      download_mover = none;
      upload_mover = none;
      buf = replicate part_size 0;
      curr_part_size = part_size;
    } in
    (bind-Ensures (move_parts movers p (count_of p) 0 s)
        (λ last. Copied movers laws p c reads_from writes_to (count_of p) c last.upload_mover)
        (turns movers laws p c reads_from writes_to pos whole (count_of p) 0 s (omega arith)
          (λ h. record { buf_len = length-replicate part_size 0; curr_len = refl })
          (λ d m e. ground (arith, e)))
        (complete_parts-Copied movers laws p c reads_from writes_to pos whole)).ensure
      w w' tt returned
      (record {
        stored = stored;
        writer = λ d m e. ground (arith, e);
        number = λ d m e. ground (arith, e);
        bytes = λ d m e. ground (arith, e);
      })
