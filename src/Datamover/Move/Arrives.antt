-- ===== src/Datamover/Move/Arrives.antt =====
-- datamover/pkg/drivers/https/migration.go, `move`: the object of a move that reports its size has
-- arrived.
use multi_cloud.Common.{
  ℕ, ◌<◌, ◌≡◌, ◌≢◌, ◌∙◌, refl, ap, sym, arith, Bool, true, false, leb, Text, is_empty, Option, none,
  some, if◌then◌else◌, length, length-replicate, replicate,
}
use multi_cloud.Common.Int.{negsuc}
use multi_cloud.Common.Actions.{Act, done, continue, taken, tried, ◌>>=◌}
use multi_cloud.Common.Promises.{
  Ensures, bind-Ensures, return-Ensures, fail-Ensures, if-Ensures, attempt-Ensures, Keeps-Ensures,
  Keeps, bind-Keeps, return-Keeps, fail-Keeps, if-Keeps, attempt-Keeps,
}
use multi_cloud.Datamover.Types.{LocationInfo, Object, Buf}
use multi_cloud.Datamover.Movers.{Driver, MoveWorker, driver_of, key_in}
use multi_cloud.Datamover.Parts.{multipart_move_obj}
use multi_cloud.Datamover.Parts.Laws.{StoreLaws, ReadsFrom, WritesTo}
use multi_cloud.Datamover.Parts.Whole.{multipart_move_obj-copies}
use multi_cloud.Datamover.Settings.{set_part_size}
use multi_cloud.Datamover.Move.{
  Services, LocMap, Moved, Request, move_obj_key, refresh_src_location, download_by, upload_by,
  move_obj, delete_by, delete_obj, move_bytes, add_metadata, delete_source, after_move, move_from,
  move,
}

-- What the storages promise of whole objects, on top of what they promise of parts.
pub record ObjectLaws {W M : Type 0} {movers : Driver → MoveWorker W M} (laws : StoreLaws movers)
    : Type 0 where
  -- A download that fills its buffer gives the bytes of the object.
  pub download_obj_law :
      (w w' : W) (d : Driver) (key : Text) (loca : LocationInfo) (b : Buf) (n : ℕ) (got c : Buf)
      → laws.reads d ≡ true
      → (movers d).download_obj key loca b w ≡ (w', done (n, got))
      → laws.content w loca key ≡ some c
      → length b ≡ length c
      → got ≡ c
  pub upload_obj_law :
      (w w' : W) (d : Driver) (key : Text) (loca : LocationInfo) (b : Buf)
      → laws.writes d ≡ true
      → (movers d).upload_obj key loca b w ≡ (w', done tt)
      → laws.content w' loca key ≡ some b

-- What is done once the object has been moved leaves `P` as it is: its metadata is written, and its
-- source is deleted.
pub record AfterKeeps {W M : Type 0} (P : W → Type 0) (sv : Services W)
    (movers : Driver → MoveWorker W M) (src_loca : LocationInfo) (key : Text) : Type 0 where
  pub create_keeps : (obj : Object) → Keeps P (sv.create_object obj)
  pub delete_keeps : (d : Driver) → Keeps P ((movers d).delete_obj (key_in src_loca key) src_loca)
  pub delete_metadata_keeps : Keeps P (sv.delete_object src_loca.vir_bucket key)

-- The key that an object is moved to. An object of one part gets the bucket in front if that of its
-- source is virtual, and one of several if its own is.
abbrev pub arrival_key : Object → ℕ → LocationInfo → LocationInfo → Text
arrival_key obj part_size src_loca dest_loca =
    if leb obj.size part_size
    then move_obj_key src_loca dest_loca obj.object_key
    else key_in dest_loca obj.object_key

module _ {W M : Type 0} (sv : Services W) (movers : Driver → MoveWorker W M)
    (laws : StoreLaws movers) (more : ObjectLaws laws) (c : Buf) where
  -- The object is stored.
  abbrev pub Stored : LocationInfo → Text → W → Type 0
  Stored loca key w = laws.content w loca key ≡ some c

  download_by-Stored :
      (obj : Object) (src_loca : LocationInfo) (d : Option Driver)
      → ((e : Driver) → d ≡ some e → laws.reads e ≡ true)
      → length c ≡ obj.size
      → Ensures
          (Stored src_loca (key_in src_loca obj.object_key))
          (download_by sv movers obj src_loca d)
          (λ got w. got.1 ≡ c)
  unfolding download_by
  download_by-Stored obj src_loca none r whole = fail-Ensures _
  download_by-Stored obj src_loca (some d) r whole = record {
    ensure = λ w w' got h stored.
        more.download_obj_law w w' d (key_in src_loca obj.object_key) src_loca
          (replicate obj.size 0) got.0 got.1 c (r d refl) h stored
          (length-replicate obj.size 0 ∙ sym whole);
  }

  upload_by-Stored :
      (key : Text) (dest_loca : LocationInfo) (b : Buf) (d : Option Driver)
      → ((e : Driver) → d ≡ some e → laws.writes e ≡ true)
      → Ensures (λ w. b ≡ c) (upload_by sv movers key dest_loca b d) (λ u. Stored dest_loca key)
  unfolding upload_by
  upload_by-Stored key dest_loca b none r = fail-Ensures _
  upload_by-Stored key dest_loca b (some d) r = record {
    ensure =
        λ w w' u h same. more.upload_obj_law w w' d key dest_loca b (r d refl) h ∙ ap some same;
  }

  move_obj-Stored :
      (obj : Object) (src_loca dest_loca : LocationInfo)
      → ReadsFrom laws src_loca
      → WritesTo laws dest_loca
      → 0 < obj.size
      → length c ≡ obj.size
      → Ensures
          (Stored src_loca (key_in src_loca obj.object_key))
          (move_obj sv movers obj src_loca dest_loca)
          (λ u. Stored dest_loca (move_obj_key src_loca dest_loca obj.object_key))
  unfolding move_obj
  move_obj-Stored obj src_loca dest_loca reads_from writes_to some_bytes whole =
      if-Ensures (leb obj.size 0) (λ e. absurd (ground (arith, e)))
        (λ e.
          bind-Ensures _ (λ got w. got.1 ≡ c)
            (download_by-Stored obj src_loca (driver_of src_loca.stor_type) reads_from whole)
            (λ got.
              upload_by-Stored (move_obj_key src_loca dest_loca obj.object_key) dest_loca got.1
                (driver_of dest_loca.stor_type) writes_to))

  multipart-Stored :
      (n : ℕ) (obj : Object) (src_loca dest_loca : LocationInfo)
      → ReadsFrom laws src_loca
      → WritesTo laws dest_loca
      → 0 < n
      → length c ≡ obj.size
      → Ensures
          (Stored src_loca (key_in src_loca obj.object_key))
          (multipart_move_obj movers n obj src_loca dest_loca)
          (λ u. Stored dest_loca (key_in dest_loca obj.object_key))
  multipart-Stored n obj src_loca dest_loca reads_from writes_to positive whole = record {
    ensure = λ w w' u h stored.
        multipart_move_obj-copies movers laws n obj src_loca dest_loca c w w' reads_from writes_to
          positive stored whole h;
  }

  -- A choice of an action and of a key by the same test.
  either-Stored :
      {P : W → Type 0} {x y : Act W (Unit {0})} (b : Bool) (dest_loca : LocationInfo) (k1 k2 : Text)
      → Ensures P x (λ u. Stored dest_loca k1)
      → Ensures P y (λ u. Stored dest_loca k2)
      → Ensures P (if b then x else y) (λ u. Stored dest_loca (if b then k1 else k2))
  either-Stored true dest_loca k1 k2 s t = s
  either-Stored false dest_loca k1 k2 s t = t

  move_bytes-Stored :
      (n : ℕ) (obj : Object) (src_loca dest_loca : LocationInfo)
      → ReadsFrom laws src_loca
      → WritesTo laws dest_loca
      → 0 < n
      → 0 < obj.size
      → length c ≡ obj.size
      → Ensures
          (Stored src_loca (key_in src_loca obj.object_key))
          (move_bytes sv movers n obj src_loca dest_loca)
          (λ u. Stored dest_loca (arrival_key obj n src_loca dest_loca))
  unfolding move_bytes
  move_bytes-Stored n obj src_loca dest_loca reads_from writes_to positive some_bytes whole =
      either-Stored (leb obj.size n) dest_loca _ _
        (move_obj-Stored obj src_loca dest_loca reads_from writes_to some_bytes whole)
        (multipart-Stored n obj src_loca dest_loca reads_from writes_to positive whole)

module _ {W M : Type 0} (P : W → Type 0) (sv : Services W) (movers : Driver → MoveWorker W M)
    (r : Request) (src_loca : LocationInfo)
    (k : AfterKeeps P sv movers src_loca r.obj.object_key) where
  add_metadata-Keeps : Keeps P (add_metadata sv movers r)
  unfolding add_metadata
  add_metadata-Keeps =
      if-Keeps (is_empty r.dest_loca.vir_bucket) return-Keeps (attempt-Keeps _ (k.create_keeps _))

  delete_by-Keeps : (d : Option Driver) → Keeps P (delete_by sv movers r.obj src_loca d)
  unfolding delete_by
  delete_by-Keeps none = fail-Keeps
  delete_by-Keeps (some d) = k.delete_keeps d

  delete_source-Keeps : Keeps P (delete_source sv movers r src_loca)
  unfolding delete_source delete_obj
  delete_source-Keeps = if-Keeps r.remain_source return-Keeps (
      attempt-Keeps _ (
        bind-Keeps _ (delete_by-Keeps (driver_of src_loca.stor_type)) (λ deleted.
          if-Keeps (is_empty src_loca.vir_bucket) return-Keeps k.delete_metadata_keeps)))

  after_move-Arrives :
      (n : ℕ) (loc_map : LocMap) (err : Option Text)
      → Ensures
          (λ w. err ≡ none → P w)
          (after_move sv movers r n loc_map src_loca err)
          (λ moved w. moved.capa ≢ negsuc 0 → P w)
  unfolding after_move
  after_move-Arrives n loc_map none =
      bind-Ensures _ (λ added. P)
        (record {
          ensure = λ w w' a h p. (Keeps-Ensures add_metadata-Keeps).ensure w w' a h (p refl);
        })
        (λ added.
          bind-Ensures _ (λ deleted. P) (Keeps-Ensures delete_source-Keeps)
            (λ deleted. return-Ensures (λ w p e. p)))
  after_move-Arrives n loc_map (some err) = return-Ensures (λ w p e. absurd (e refl))

-- If a move does not report a failure, then the object has arrived: under the key that it is moved to
-- the destination has the bytes that the source had under the key of the object, whether it was moved
-- in one piece or part by part, and whether the source was deleted then or not. The movers of the
-- two storages read and write as promised, the object is not empty and has its listed size, the part size is positive, and what is
-- done after the copy leaves the object at the destination alone.
pub move-arrives :
    {W M : Type 0} (sv : Services W) (movers : Driver → MoveWorker W M) (laws : StoreLaws movers)
    (more : ObjectLaws laws) (r : Request) (part_size : ℕ) (given_loca src_loca : LocationInfo)
    (loc_map new_map : LocMap) (c : Buf) (w w1 w' : W) (moved : Moved)
    → ReadsFrom laws src_loca
    → WritesTo laws r.dest_loca
    → refresh_src_location sv r.obj given_loca loc_map w ≡ (w1, done (src_loca, new_map))
    → laws.content w1 src_loca (key_in src_loca r.obj.object_key) ≡ some c
    → length c ≡ r.obj.size
    → 0 < r.obj.size
    → 0 < set_part_size r.partsize part_size
    → AfterKeeps
        (Stored sv movers laws more c r.dest_loca
          (arrival_key r.obj (set_part_size r.partsize part_size) src_loca r.dest_loca))
        sv
        movers
        src_loca
        r.obj.object_key
    → move sv movers r part_size given_loca loc_map w ≡ (w', done moved)
    → moved.capa ≢ negsuc 0
    → laws.content w' r.dest_loca
        (arrival_key r.obj (set_part_size r.partsize part_size) src_loca r.dest_loca)
      ≡ some c
unfolding move move_from ◌>>=◌ tried
move-arrives sv movers laws more r part_size given_loca src_loca loc_map new_map c w w1 w' moved
      reads_from writes_to refreshed stored whole some_bytes positive k returned reports =
    let n : ℕ = set_part_size r.partsize part_size in
    let rest : move_from sv movers r part_size loc_map (some (src_loca, new_map)) w1
        ≡ (w', done moved) =
      ap (λ o. continue (λ found. move_from sv movers r part_size loc_map found) (taken o))
        (sym refreshed)
      ∙ returned in
    (bind-Ensures _
        (λ err v.
          err ≡ none
          → Stored sv movers laws more c r.dest_loca (arrival_key r.obj n src_loca r.dest_loca) v)
        (attempt-Ensures _ (
          move_bytes-Stored sv movers laws more c n r.obj src_loca r.dest_loca reads_from writes_to
            positive some_bytes whole))
        (λ err. after_move-Arrives _ sv movers r src_loca k n new_map err)).ensure
      w1 w' moved rest stored reports
