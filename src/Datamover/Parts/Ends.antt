-- ===== src/Datamover/Parts/Ends.antt =====
-- datamover/pkg/drivers/https/migration.go, `multipartMoveObj`: with storages that do what they are
-- asked, the move ends, and without an error.
use multi_cloud.Common.{ℕ, ◌<◌}
use multi_cloud.Common.Succeeds.{Succeeds}
use multi_cloud.Datamover.Movers.{Driver, MoveWorker}
use multi_cloud.Datamover.Parts.{Progress, Plan}
use multi_cloud.Datamover.Parts.Answers.{Reliable, IsOpen}

module _ {W M : Type 0} (movers : Driver → MoveWorker W M) (p : Plan) (r : Reliable movers p)
    (pos : 0 < p.part_size) where
  -- The two movers are open once a turn has been made.
  abbrev AreOpen : ℕ → Progress M → Type 0
  AreOpen i s = 0 < i → IsOpen s.download_mover × IsOpen s.upload_mover
