-- ===== src/Datamover/Parts/Laws.antt =====
-- datamover/pkg/drivers/https/migration.go, `multipartMoveObj`: what the storages promise.
use multi_cloud.Common.{
  ℕ, suc, ◌+◌, ◌<◌, ◌≡◌, ◌∙◌, ap, sym, List, [], ◌∷◌, ◌++◌, take, drop, length, snoc, append_nil,
  append_assoc, Text, Option, some, Bool, true,
}
use multi_cloud.Common.Actions.{done}
use multi_cloud.Datamover.Types.{LocationInfo, Buf}
use multi_cloud.Datamover.Movers.{Driver, MoveWorker, Worker, driver_of}

abbrev pub joined : List Buf → Buf
joined [] = []
joined (b ∷ bs) = b ++ joined bs

pub joined-snoc : (bs : List Buf) (b : Buf) → joined (snoc bs b) ≡ joined bs ++ b
joined-snoc [] b = append_nil b
joined-snoc (d ∷ bs) b = ap (λ y. d ++ y) (joined-snoc bs b) ∙ sym (append_assoc d (joined bs) b)

-- What the storages promise. `reads` and `writes` are the movers whose reads and whose uploads keep the
-- promises; nothing is said of what another one reads or writes. `content` is the object stored under a key; `sent` lists the parts that
-- the open upload of a mover under a key has taken, in the order of their numbers.
pub record StoreLaws {W M : Type 0} (movers : Driver → MoveWorker W M) : Type 0 where
  pub reads : Driver → Bool
  pub writes : Driver → Bool
  pub content : W → LocationInfo → Text → Option Buf
  pub sent : W → Driver × M → LocationInfo → Text → List Buf
  -- Opening a download changes nothing.
  pub init_download_law :
      (w w' : W) (d : Driver) (m : M) (loca : LocationInfo)
      → (movers d).init_download loca w ≡ (w', done m)
      → (content w' ≡ content w) × (sent w' ≡ sent w)
  -- A range read inside the object that fills its buffer gives those bytes.
  pub download_range_law :
      (w w' : W) (d : Driver) (m : M) (key : Text) (loca : LocationInfo) (b : Buf) (first last : ℕ)
      (n : ℕ) (got c : Buf)
      → reads d ≡ true
      → (movers d).download_range m key loca b first last w ≡ (w', done (n, got))
      → content w loca key ≡ some c
      → first + length b ≡ suc last
      → last < length c
      → n ≡ length b
      → (content w' ≡ content w) × (sent w' ≡ sent w) × (got ≡ take (length b) (drop first c))
  -- An upload starts with no parts.
  pub init_upload_law :
      (w w' : W) (d : Driver) (m : M) (key : Text) (loca : LocationInfo)
      → writes d ≡ true
      → (movers d).init_upload key loca w ≡ (w', done m)
      → (content w' ≡ content w) × (sent w' (d, m) loca key ≡ [])
  -- The next part, announced with its size, number and place, is added after the others.
  pub upload_part_law :
      (w w' : W) (d : Driver) (m : M) (key : Text) (loca : LocationInfo) (n : ℕ) (b : Buf)
      (number offset : ℕ)
      → writes d ≡ true
      → (movers d).upload_part m key loca n b number offset w ≡ (w', done tt)
      → n ≡ length b
      → number ≡ length (sent w (d, m) loca key) + 1
      → offset ≡ length (joined (sent w (d, m) loca key))
      → (content w' ≡ content w) × (sent w' (d, m) loca key ≡ snoc (sent w (d, m) loca key) b)
  -- A completed upload is the object.
  pub complete_upload_law :
      (w w' : W) (d : Driver) (m : M) (key : Text) (loca : LocationInfo)
      → writes d ≡ true
      → (movers d).complete_upload m key loca w ≡ (w', done tt)
      → content w' loca key ≡ some (joined (sent w (d, m) loca key))

module _ {W M : Type 0} {movers : Driver → MoveWorker W M} (laws : StoreLaws movers) where
  -- The movers of the two locations keep the promises.
  abbrev pub ReadsFrom : LocationInfo → Type 0
  ReadsFrom loca = (d : Driver) → driver_of loca.stor_type ≡ some d → laws.reads d ≡ true

  abbrev pub WritesTo : LocationInfo → Type 0
  WritesTo loca = (d : Driver) → driver_of loca.stor_type ≡ some d → laws.writes d ≡ true

  -- A mover that is open for reading is one that keeps them.
  abbrev pub IsReader : Worker M → Type 0
  IsReader worker = (d : Driver) (m : M) → worker ≡ some (d, m) → laws.reads d ≡ true
