-- ===== src/Datamover/Move/Safe.antt =====
-- datamover/pkg/drivers/https/migration.go, `move`: a move that fails, or that keeps its source, leaves the source alone.
use multi_cloud.Common.{
  ℕ, ◌≡◌, arith, Text, List, Option, none, some, true, is_empty, not, ◌&&◌, text_eq, leb,
}
use multi_cloud.Common.Int.{negsuc}
use multi_cloud.Common.Actions.{done}
use multi_cloud.Common.Promises.{
  Keeps, bind-Keeps, attempt-Keeps, or_fail-Keeps, tried-Keeps, return-Keeps, fail-Keeps, if-Keeps,
  Ensures, bind-Ensures, return-Ensures, any-Ensures, Keeps-Ensures,
}
use multi_cloud.Datamover.Types.{LocationInfo, Object}
use multi_cloud.Datamover.Movers.{Driver, MoveWorker}
use multi_cloud.Datamover.Move.{
  Services, LocMap, Moved, Request, get_osds_location, refresh_by, refresh_src_location,
  download_by, upload_by, move_obj, move_bytes, add_metadata, delete_source, after_move, move_from,
  move,
}
use multi_cloud.Datamover.Move.Keeps.{CopyKeeps, multipart_move_obj-Keeps}

module _ {W M : Type 0} (P : W → Type 0) (sv : Services W) (movers : Driver → MoveWorker W M)
    (k : CopyKeeps P sv movers) where
  get_osds_location-Keeps : (bucket name : Text) → Keeps P (get_osds_location sv bucket name)
  unfolding get_osds_location
  get_osds_location-Keeps bucket name =
      if-Keeps (is_empty name) fail-Keeps
        (bind-Keeps _ (or_fail-Keeps _ _ (k.backend_keeps name)) (λ bk. return-Keeps))

  refresh_by-Keeps :
      (obj : Object) (loc_map : LocMap) (found : Option LocationInfo)
      → Keeps P (refresh_by sv obj loc_map found)
  unfolding refresh_by
  refresh_by-Keeps obj loc_map none =
      bind-Keeps _ (get_osds_location-Keeps _ _) (λ loca. return-Keeps)
  refresh_by-Keeps obj loc_map (some loca) = return-Keeps

  refresh-Keeps :
      (obj : Object) (src_loca : LocationInfo) (loc_map : LocMap)
      → Keeps P (refresh_src_location sv obj src_loca loc_map)
  unfolding refresh_src_location
  refresh-Keeps obj src_loca loc_map =
      if-Keeps (not (text_eq obj.backend src_loca.bakend_name) && not (is_empty obj.backend))
        (refresh_by-Keeps obj loc_map _) return-Keeps

  download_by-Keeps :
      (obj : Object) (loca : LocationInfo) (t : Option Driver)
      → Keeps P (download_by sv movers obj loca t)
  unfolding download_by
  download_by-Keeps obj loca none = fail-Keeps
  download_by-Keeps obj loca (some d) = k.download_keeps d _ _ _

  upload_by-Keeps :
      (key : Text) (loca : LocationInfo) (b : List ℕ) (t : Option Driver)
      → Keeps P (upload_by sv movers key loca b t)
  unfolding upload_by
  upload_by-Keeps key loca b none = fail-Keeps
  upload_by-Keeps key loca b (some d) = k.upload_keeps d key loca b

  move_bytes-Keeps :
      (n : ℕ) (obj : Object) (src_loca dest_loca : LocationInfo)
      → Keeps P (move_bytes sv movers n obj src_loca dest_loca)
  unfolding move_bytes move_obj
  move_bytes-Keeps n obj src_loca dest_loca =
      if-Keeps (leb obj.size n)
        (if-Keeps (leb obj.size 0) return-Keeps
          (bind-Keeps _ (download_by-Keeps obj src_loca _) (λ got. upload_by-Keeps _ _ _ _)))
        (multipart_move_obj-Keeps P sv movers k n obj src_loca dest_loca)

  -- With a source that stays, only the metadata of the destination is left to write.
  after_move-Keeps :
      (r : Request) (n : ℕ) (loc_map : LocMap) (src_loca : LocationInfo) (err : Option Text)
      → ((obj : Object) → Keeps P (sv.create_object obj))
      → r.remain_source ≡ true
      → Keeps P (after_move sv movers r n loc_map src_loca err)
  unfolding after_move add_metadata delete_source
  after_move-Keeps r n loc_map src_loca none create remain =
      bind-Keeps _
        (if-Keeps (is_empty r.dest_loca.vir_bucket) return-Keeps (attempt-Keeps _ (create _)))
        (λ added. bind-Keeps _ (rw (remain) return-Keeps) (λ deleted. return-Keeps))
  after_move-Keeps r n loc_map src_loca (some err) create remain = return-Keeps

  -- A move that reports a failure has not gone on to the metadata or the source.
  after_move-failed :
      (r : Request) (n : ℕ) (loc_map : LocMap) (src_loca : LocationInfo) (err : Option Text)
      → Ensures P
          (after_move sv movers r n loc_map src_loca err)
          (λ moved w. moved.capa ≡ negsuc 0 → P w)
  unfolding after_move
  after_move-failed r n loc_map src_loca none =
      bind-Ensures _ (λ added w. Unit {0}) any-Ensures
        (λ added.
          bind-Ensures _ (λ deleted w. Unit {0}) any-Ensures
            (λ deleted. return-Ensures (λ w u e. ground (arith, e))))
  after_move-failed r n loc_map src_loca (some err) = return-Ensures (λ w p e. p)

  move_from-failed :
      (r : Request) (n : ℕ) (loc_map : LocMap) (found : Option (LocationInfo × LocMap))
      → Ensures P (move_from sv movers r n loc_map found) (λ moved w. moved.capa ≡ negsuc 0 → P w)
  unfolding move_from
  move_from-failed r n loc_map none = return-Ensures (λ w p e. p)
  move_from-failed r n loc_map (some (src_loca, new_map)) =
      bind-Ensures _ (λ err. P) (Keeps-Ensures (attempt-Keeps _ (move_bytes-Keeps _ _ _ _)))
        (λ err. after_move-failed r _ new_map src_loca err)

  move_from-Keeps :
      (r : Request) (n : ℕ) (loc_map : LocMap) (found : Option (LocationInfo × LocMap))
      → ((obj : Object) → Keeps P (sv.create_object obj))
      → r.remain_source ≡ true
      → Keeps P (move_from sv movers r n loc_map found)
  unfolding move_from
  move_from-Keeps r n loc_map none create remain = return-Keeps
  move_from-Keeps r n loc_map (some (src_loca, new_map)) create remain =
      bind-Keeps _ (attempt-Keeps _ (move_bytes-Keeps _ _ _ _))
        (λ err. after_move-Keeps r _ new_map src_loca err create remain)

-- If a move reports a failure, sending -1, then every property of the world that the copying calls of
-- the storages and the look-up of a backend leave as it is holds after the move if it held before: the
-- calls that write metadata or delete the source may break it, and have not.
pub move-failed_keeps :
    {W M : Type 0} (P : W → Type 0) (sv : Services W) (movers : Driver → MoveWorker W M)
    (r : Request) (part_size : ℕ) (src_loca : LocationInfo) (loc_map : LocMap) (w w' : W)
    (moved : Moved)
    → CopyKeeps P sv movers
    → move sv movers r part_size src_loca loc_map w ≡ (w', done moved)
    → moved.capa ≡ negsuc 0
    → P w
    → P w'
unfolding move
move-failed_keeps P sv movers r part_size src_loca loc_map w w' moved k returned failed p =
    (bind-Ensures _ (λ found. P)
        (Keeps-Ensures (tried-Keeps _ (refresh-Keeps P sv movers k r.obj src_loca loc_map)))
        (λ found. move_from-failed P sv movers k r part_size loc_map found)).ensure
      w w' moved returned p failed

-- If the source is to remain, then every property of the world that the copying calls, the look-up of a
-- backend and the writing of metadata leave as it is holds after the move if it held before, whether the
-- move succeeds, fails or panics: the calls that delete may break it, and have not.
pub move-remain_keeps :
    {W M : Type 0} (P : W → Type 0) (sv : Services W) (movers : Driver → MoveWorker W M)
    (r : Request) (part_size : ℕ) (src_loca : LocationInfo) (loc_map : LocMap) (w : W)
    → CopyKeeps P sv movers
    → ((obj : Object) → Keeps P (sv.create_object obj))
    → r.remain_source ≡ true
    → P w
    → P (move sv movers r part_size src_loca loc_map w).0
unfolding move
move-remain_keeps P sv movers r part_size src_loca loc_map w k create remain p =
    (bind-Keeps _ (tried-Keeps _ (refresh-Keeps P sv movers k r.obj src_loca loc_map))
        (λ found. move_from-Keeps P sv movers k r part_size loc_map found create remain)).keep
      w p
