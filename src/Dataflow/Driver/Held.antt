-- ===== src/Dataflow/Driver/Held.antt =====
-- dataflow/pkg/db/drivers/mongo/mongo.go: the lock of the manager round a change.
use multi_cloud.Common.{
  ℕ, zero, suc, ◌≡◌, refl, ap, arith, true, none, some, ◌⊎◌, inl, inr, ◌∙◌, Bool-cases,
  Option-cases,
}
use mathlib.Core.Path.{subst₂}
use multi_cloud.Common.Actions.{Act, Result, done, failed, panicked}
use multi_cloud.Common.Promises.{Ensures, done-injective}
use multi_cloud.Dataflow.Types.{err_inner_err}
use multi_cloud.Dataflow.Lock.{LockResult, lock_success, lock_busy, lock_db_err, lock, unlock}
use multi_cloud.Dataflow.Lock.Means.{LockLaws, Means, lock-Means}
use multi_cloud.Dataflow.Driver.{
  Mongo, lock_manager, manager_turns, unlocked, with_manager, managed,
}

-- The world after `n` more tries to take the lock, each after a second.
abbrev pub waited : {W : Type 0} → Mongo W → ℕ → W → W
waited db zero w = w
waited db (suc n) w = waited db n (lock db.locks lock_manager 5 (db.sleep_second w)).0

module _ {W A : Type 0} (db : Mongo W) (laws : LockLaws db.locks) (body : Act W A)
    (removes : (v : W) (t : ℕ)
      → laws.held v lock_manager ≡ some t
      → (db.locks.remove lock_manager v).1 ≡ true) where
  -- After `unlock` the manager is free, whether its lock was still there or not.
  removed-free : (v : W) → laws.held (db.locks.remove lock_manager v).0 lock_manager ≡ none
  removed-free v = elim (Bool-cases ((db.locks.remove lock_manager v).1)) [
    | inl fine ↦
        laws.remove_law lock_manager v _ (ap (λ b. ((db.locks.remove lock_manager v).0, b)) fine)
    | inr bad ↦ elim (Option-cases (laws.held v lock_manager)) [
      | inl free ↦
          laws.remove_error_law lock_manager v _
            (ap (λ b. ((db.locks.remove lock_manager v).0, b)) bad)
          ∙ free
      | inr (t, taken) ↦ absurd (ground (arith, removes v t taken, bad))
    ]
  ]

  -- How a change ends: turned away after `n` more tries, or run under the lock, which is then free.
  abbrev Ends : ℕ → W → W × Result A → Type 0
  Ends n w o =
      (o ≡ (waited db n w, failed err_inner_err))
      ⊎ ((v : W) × (t : ℕ) × (laws.held v lock_manager ≡ some t)
          × (o.1 ≡ (body v).1)
          × (laws.held o.0 lock_manager ≡ none))

  held-Ends :
      (n : ℕ) (w w1 : W)
      → Means db.locks laws lock_manager 5 w (w1, lock_success)
      → Ends n w1 (with_manager db body (w1, lock_success))
  unfolding with_manager unlocked unlock
  held-Ends n w w1 means = inr (w1, db.locks.now w, means.0, refl, removed-free (body w1).0)

  turns-Ends :
      (n : ℕ) (w w1 : W) (r : LockResult)
      → Means db.locks laws lock_manager 5 w (w1, r)
      → Ends n w1 (with_manager db body (manager_turns db n (w1, r)))
  unfolding with_manager manager_turns
  turns-Ends zero w w1 lock_success means = held-Ends zero w w1 means
  turns-Ends zero w w1 lock_busy means = inl refl
  turns-Ends zero w w1 lock_db_err means = inl refl
  turns-Ends (suc n) w w1 lock_success means = held-Ends (suc n) w w1 means
  turns-Ends (suc n) w w1 lock_busy means =
      turns-Ends n (db.sleep_second w1) _ _
        (lock-Means db.locks laws lock_manager 5 (db.sleep_second w1))
  turns-Ends (suc n) w w1 lock_db_err means =
      turns-Ends n (db.sleep_second w1) _ _
        (lock-Means db.locks laws lock_manager 5 (db.sleep_second w1))

-- If a lock of the manager that is there can be removed, then a function that takes it is either turned
-- away with an inner error, in the world that its four tries to lock leave, and so has done nothing
-- else, or it runs from a world in which the manager is locked, and leaves the manager free, whether it
-- succeeds, fails or panics.
pub managed-frees :
    {W A : Type 0} (db : Mongo W) (laws : LockLaws db.locks) (body : Act W A) (w : W)
    → ((v : W) (t : ℕ)
        → laws.held v lock_manager ≡ some t
        → (db.locks.remove lock_manager v).1 ≡ true)
    → ((managed db body w ≡ (waited db 3 (lock db.locks lock_manager 5 w).0, failed err_inner_err))
        ⊎ ((v : W) × (t : ℕ) × (laws.held v lock_manager ≡ some t)
            × ((managed db body w).1 ≡ (body v).1)
            × (laws.held (managed db body w).0 lock_manager ≡ none)))
unfolding managed
managed-frees db laws body w removes =
    turns-Ends db laws body removes 3 w _ _ (lock-Means db.locks laws lock_manager 5 w)

module _ {W A : Type 0} (db : Mongo W) (body : Act W A) (Q : A → W → Type 0)
    (promised : Ensures (λ w. Unit {0}) body Q)
    (kept : (a : A) (w : W) → Q a w → Q a (db.locks.remove lock_manager w).0) where
  freed-Ensures :
      (o : W × Result A)
      → ((w : W) (a : A) → o ≡ (w, done a) → Q a w)
      → (w : W) (a : A) → unlocked db o ≡ (w, done a)
      → Q a w
  unfolding unlocked unlock
  freed-Ensures (w0, done b) q w a e =
      subst₂ Q (done-injective e) (ap (λ o. o.0) e) (kept b w0 (q w0 b refl))
  freed-Ensures (w0, failed m) q w a e = ground (arith, e)
  freed-Ensures (w0, panicked) q w a e = ground (arith, e)

  turned-Ensures :
      (o : W × LockResult) (w : W) (a : A) → with_manager db body o ≡ (w, done a) → Q a w
  unfolding with_manager
  turned-Ensures (w0, lock_success) w a e =
      freed-Ensures (body w0) (λ w1 b e1. promised.ensure w0 w1 b e1 tt) w a e
  turned-Ensures (w0, lock_busy) w a e = ground (arith, e)
  turned-Ensures (w0, lock_db_err) w a e = ground (arith, e)

  -- What a change promises it promises under the lock too, if the removal of the lock keeps it.
  pub managed-Ensures : Ensures (λ w. Unit {0}) (managed db body) Q
  unfolding managed
  managed-Ensures = record {
    ensure =
        λ w w' a e p. turned-Ensures (manager_turns db 3 (lock db.locks lock_manager 5 w)) w' a e;
  }
