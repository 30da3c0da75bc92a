-- ===== src/Dataflow/Lock/Means.antt =====
-- dataflow/pkg/db/drivers/mongo/mongo.go, `lock`: what its result says about the lock.
use multi_cloud.Common.{
  ℕ, ◌+◌, ◌≤◌, ◌<◌, ◌≡◌, ◌∙◌, refl, ap, sym, ltb, arith, Bool, true, false, Text, Option, none,
  some, if◌then◌else◌, ◌⊎◌, inl, inr, Bool-cases,
}
use multi_cloud.Dataflow.Lock.{
  LockResult, lock_success, lock_busy, lock_db_err, Locks, unlock, lock_again, after_find,
  after_insert, lock,
}

-- What the collection promises to a process that is alone: `held` is the time of the lock of a name.
pub record LockLaws {W : Type 0} (locks : Locks W) : Type 0 where
  pub held : W → Text → Option ℕ
  -- The index is unique.
  pub insert_law :
      (n : Text) (t : ℕ) (w w' : W)
      → locks.insert n t w ≡ (w', true)
      → (held w n ≡ none) × (held w' n ≡ some t)
  pub insert_error_law :
      (n : Text) (t : ℕ) (w w' : W) → locks.insert n t w ≡ (w', false) → held w' n ≡ held w n
  pub find_law :
      (n : Text) (t : ℕ) (w w' : W)
      → locks.find n w ≡ (w', some t)
      → (held w n ≡ some t) × (held w' n ≡ some t)
  pub find_error_law : (n : Text) (w w' : W) → locks.find n w ≡ (w', none) → held w' n ≡ held w n
  pub remove_law : (n : Text) (w w' : W) → locks.remove n w ≡ (w', true) → held w' n ≡ none
  pub remove_error_law :
      (n : Text) (w w' : W) → locks.remove n w ≡ (w', false) → held w' n ≡ held w n

module _ {W : Type 0} (locks : Locks W) (laws : LockLaws locks) (n : Text) (max : ℕ) where
  -- The world after the first `Insert` and `Find`, in which the age of the lock is computed.
  abbrev pub looked_up : W → W
  looked_up w = (locks.find n (locks.insert n (locks.now w) w).0).0

  -- The name had a lock that was older than the limit when it was looked up.
  abbrev pub WasStale : W → Type 0
  WasStale w = (since : ℕ) × (laws.held w n ≡ some since) × (since + max < locks.now (looked_up w))

  abbrev pub Means : W → W × LockResult → Type 0
  Means w (w', lock_success) =
      (laws.held w' n ≡ some (locks.now w)) × ((laws.held w n ≡ none) ⊎ WasStale w)
  Means w (w', lock_busy) =
      (since : ℕ) × (laws.held w n ≡ some since)
      × (laws.held w' n ≡ some since)
      × (locks.now w' ≤ since + max)
  Means w (w', lock_db_err) =
      (laws.held w' n ≡ laws.held w n) ⊎ (WasStale w × (laws.held w' n ≡ none))

  inserted-Means :
      (w w1 w' : W) (fine : Bool)
      → WasStale w
      → laws.held w1 n ≡ none
      → locks.insert n (locks.now w) w1 ≡ (w', fine)
      → Means w (w', if fine then lock_success else lock_db_err)
  inserted-Means w w1 w' true stale free e =
      ((laws.insert_law n (locks.now w) w1 w' e).1, inr stale)
  inserted-Means w w1 w' false stale free e =
      inr (stale, laws.insert_error_law n (locks.now w) w1 w' e ∙ free)

  removed-Means :
      (w w1 w2 : W) (fine : Bool)
      → WasStale w
      → laws.held w1 n ≡ laws.held w n
      → locks.remove n w1 ≡ (w2, fine)
      → Means w (lock_again locks n (locks.now w) (w2, if fine then lock_success else lock_db_err))
  unfolding lock_again
  removed-Means w w1 w2 true stale same e =
      inserted-Means w w2 _ _ stale (laws.remove_law n w1 w2 e) refl
  removed-Means w w1 w2 false stale same e = inl (laws.remove_error_law n w1 w2 e ∙ same)

  found-Means :
      (w w1 w2 : W) (found : Option ℕ)
      → laws.held w1 n ≡ laws.held w n
      → locks.find n w1 ≡ (w2, found)
      → w2 ≡ looked_up w
      → Means w (after_find locks n max (locks.now w) (w2, found))
  unfolding after_find unlock
  found-Means w w1 w2 none same e at = inl (laws.find_error_law n w1 w2 e ∙ same)
  found-Means w w1 w2 (some since) same e at =
      let (before, after) = laws.find_law n since w1 w2 e in
      elim (Bool-cases (ltb (since + max) (locks.now w2))) [
        | inl old ↦ rw (old) (
            removed-Means w w2 _ _ (since, sym same ∙ before, ground (arith, old, ap locks.now at))
              (after ∙ sym before ∙ same) refl)
        | inr fresh ↦ rw (fresh) (since, sym same ∙ before, after, ground (arith, fresh))
      ]

  tried-Means :
      (w w1 : W) (fine : Bool)
      → locks.insert n (locks.now w) w ≡ (w1, fine)
      → Means w (after_insert locks n max (locks.now w) (w1, fine))
  unfolding after_insert
  tried-Means w w1 true e =
      let (free, mine) = laws.insert_law n (locks.now w) w w1 e in (mine, inl free)
  tried-Means w w1 false e =
      found-Means w w1 _ _ (laws.insert_error_law n (locks.now w) w w1 e) refl
        (ap (λ o. (locks.find n o.0).0) (sym e))

-- For a process that is alone with the collection: after `lock` succeeds, the lock bears the time of
-- the call, and before it the name was free or its lock older than the limit; when the lock is busy, it
-- is there, is not older than the limit, and stays; and after an error it is as it was, unless it was
-- too old and has been removed.
pub lock-Means :
    {W : Type 0} (locks : Locks W) (laws : LockLaws locks) (lock_obj : Text) (max_time : ℕ) (w : W)
    → Means locks laws lock_obj max_time w (lock locks lock_obj max_time w)
unfolding lock
lock-Means locks laws lock_obj max_time w = tried-Means locks laws lock_obj max_time w _ _ refl
