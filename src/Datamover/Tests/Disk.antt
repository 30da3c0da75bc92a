-- ===== src/Datamover/Tests/Disk.antt =====
-- datamover: a small storage with two sides that keeps the promises of Parts/Laws.
use multi_cloud.Common.{
  ℕ, zero, suc, ◌+◌, ◌≤◌, ◌≡◌, ◌∙◌, refl, ap, sym, arith, Bool, true, false, Text, codes, text_eq,
  List, [], ◌∷◌, take, drop, length, snoc, Option, none, some,
}
use multi_cloud.Common.Actions.{Result, done}
use multi_cloud.Common.Promises.{done-injective}
use multi_cloud.Datamover.Types.{LocationInfo, Buf}
use multi_cloud.Datamover.Movers.{
  Driver, s3_mover, obs_mover, blob_mover, ceph_s3_mover, MoveWorker,
}
use multi_cloud.Datamover.Parts.Laws.{joined, StoreLaws}

-- An object on each side, the parts of the open upload, and the number of deletions and of metadata.
pub record Disk : Type 0 where
  pub left : Option Buf
  pub right : Option Buf
  pub parts : List Buf
  pub deleted : ℕ
  pub added : ℕ

abbrev pub is_left : LocationInfo → Bool
is_left loca = text_eq loca.bucket_name (codes "left")

abbrev pub get : Bool → Disk → Option Buf
get true w = w.left
get false w = w.right

abbrev pub put : Bool → Buf → Disk → Disk
put true b w = record w { left = some b }
put false b w = record w { right = some b }

pub get-put : (side : Bool) (b : Buf) (w : Disk) → get side (put side b w) ≡ some b
get-put true b w = refl
get-put false b w = refl

-- The first `n` bytes, filled up with zeros.
abbrev pub fit : ℕ → Buf → Buf
fit zero b = []
fit (suc n) [] = 0 ∷ fit n []
fit (suc n) (x ∷ b) = x ∷ fit n b

pub length-fit : (n : ℕ) (b : Buf) → length (fit n b) ≡ n
length-fit zero b = refl
length-fit (suc n) [] = ap suc (length-fit n [])
length-fit (suc n) (x ∷ b) = ap suc (length-fit n b)

pub fit-piece : (m n : ℕ) (b : Buf) → m + n ≤ length b → fit n (drop m b) ≡ take n (drop m b)
fit-piece zero zero b h = refl
fit-piece zero (suc n) [] h = absurd (omega (arith, h))
fit-piece zero (suc n) (x ∷ b) h = ap (λ c. x ∷ c) (fit-piece zero n b (omega (arith, h)))
fit-piece (suc m) zero [] h = refl
fit-piece (suc m) (suc n) [] h = absurd (omega (arith, h))
fit-piece (suc m) n (x ∷ b) h = fit-piece m n b (omega (arith, h))

abbrev pub or_empty : Option Buf → Buf
or_empty none = []
or_empty (some b) = b

abbrev pub disk : Driver → MoveWorker Disk (Unit {0})
disk d = record {
  download_obj =
      λ key loca b w. (w, done (length b, fit (length b) (or_empty (get (is_left loca) w))));
  upload_obj = λ key loca b w. (put (is_left loca) b w, done tt);
  delete_obj = λ key loca w. (record w { deleted = w.deleted + 1 }, done tt);
  init_download = λ loca w. (w, done tt);
  download_range = λ m key loca b first last w.
      (w, done (length b, fit (length b) (drop first (or_empty (get (is_left loca) w)))));
  init_upload = λ key loca w. (record w { parts = [] }, done tt);
  upload_part = λ m key loca n b number offset w. (record w { parts = snoc w.parts b }, done tt);
  abort_upload = λ m key loca w. (record w { parts = [] }, done tt);
  complete_upload = λ m key loca w. (put (is_left loca) (joined w.parts) w, done tt);
}

module _ {A : Type 0} {w w' : Disk} {a b : A} where
  pub same_world : ◌≡◌ {A = Disk × Result A} (w, done a) (w', done b) → w ≡ w'
  same_world h = ap (λ p. p.0) h

abbrev pub contents : Disk → LocationInfo → Text → Option Buf
contents w loca key = get (is_left loca) w

get-parts :
    (side : Bool) (w : Disk) (ps : List Buf) → get side (record w { parts = ps }) ≡ get side w
get-parts true w ps = refl
get-parts false w ps = refl

pub contents-parts : (w : Disk) (ps : List Buf) → contents (record w { parts = ps }) ≡ contents w
contents-parts w ps = λ i loca key. get-parts (is_left loca) w ps i

-- Nothing is said of a mover for OBS.
abbrev pub is_kept : Driver → Bool
is_kept s3_mover = true
is_kept obs_mover = false
is_kept blob_mover = true
is_kept ceph_s3_mover = true

abbrev pub disk_laws : StoreLaws disk
disk_laws = record {
  reads = is_kept;
  writes = is_kept;
  content = contents;
  sent = λ w dm loca key. w.parts;
  init_download_law = λ w w' d m loca e.
      (ap contents (sym (same_world e)), ap (λ v dm loca key. v.parts) (sym (same_world e)));
  download_range_law = λ w w' d m key loca b first last n got c r e stored fits inside full. (
    ap contents (sym (same_world e)),
    ap (λ v dm loca key. v.parts) (sym (same_world e)),
    sym (ap (λ p. p.1) (done-injective e))
        ∙ ap (λ x. fit (length b) (drop first (or_empty x))) stored
        ∙ fit-piece first (length b) c (omega (arith, fits, inside)),
  );
  init_upload_law = λ w w' d m key loca r e. (
    ap contents (sym (same_world e)) ∙ contents-parts w [],
    ap (λ v. v.parts) (sym (same_world e)),
  );
  upload_part_law = λ w w' d m key loca n b number offset r e full next place. (
    ap contents (sym (same_world e)) ∙ contents-parts w (snoc w.parts b),
    ap (λ v. v.parts) (sym (same_world e)),
  );
  complete_upload_law = λ w w' d m key loca r e.
      ap (get (is_left loca)) (sym (same_world e)) ∙ get-put (is_left loca) (joined w.parts) w;
}
