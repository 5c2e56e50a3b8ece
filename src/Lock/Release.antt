-- ===== src/Lock/Release.antt =====
-- src/lock.c, `lock_release_all`: strict two-phase locking gives everything back at the end.
use db_hobby.Base.{ℕ, ◌≡◌, refl, ◌≢◌, false, List, [], ◌∷◌, arith, ◌==◌, if◌then◌else◌, any}
use db_hobby.Lock.{
  LockManager, LockEntry, LockMode, same_obj, release_entries, lock_release_all, held_in, lock_held,
}
use db_hobby.Lock.Pairs.{Avoids, IsCompatible}
use db_hobby.Lock.Grants.{conflicts}

release-Avoids :
    (txn : ℕ) (e : LockEntry) (es : List LockEntry)
    → Avoids e es
    → Avoids (if e.txn == txn then record e { txn = 0 } else e) (release_entries txn es)
unfolding release_entries
release-Avoids txn e [] a = tt
release-Avoids txn e (x ∷ es) a = (ground arith, release-Avoids txn e es a.1)

-- Releasing keeps the compatibility matrix.
pub release-IsCompatible :
    (txn : ℕ) (es : List LockEntry) → IsCompatible es → IsCompatible (release_entries txn es)
unfolding release_entries
release-IsCompatible txn [] c = tt
release-IsCompatible txn (e ∷ es) c = (release-Avoids txn e es c.0, release-IsCompatible txn es c.1)

held_in-release :
    (txn t : ℕ) (table : List ℕ) (key : ℕ) (es : List LockEntry)
    → t ≢ 0
    → held_in (release_entries txn es) t table key
      ≡ (if t == txn then false else held_in es t table key)
unfolding held_in release_entries
held_in-release txn t table key [] h = ground arith
held_in-release txn t table key (e ∷ es) h = ground (arith, held_in-release txn t table key es h)

-- After `lock_release_all` the transaction holds nothing, and every other one holds what it held.
pub held-release :
    (lm : LockManager) (txn t : ℕ) (table : List ℕ) (key : ℕ)
    → t ≢ 0
    → lock_held (lock_release_all lm txn) t table key
      ≡ (if t == txn then false else lock_held lm t table key)
unfolding lock_held lock_release_all
held-release lm txn t table key h = held_in-release txn t table key lm.entries h

-- No lock of a transaction that released its locks stands in another one's way.
pub conflicts-release :
    (txn t : ℕ) (table : List ℕ) (key : ℕ) (mode : LockMode) (es : List LockEntry)
    → t ≢ txn
    → any (conflicts t table key mode) es ≡ false
    → any (conflicts t table key mode) (release_entries txn es) ≡ false
unfolding release_entries same_obj
conflicts-release txn t table key mode [] n h = refl
conflicts-release txn t table key mode (e ∷ es) n h =
    ground (arith, conflicts-release txn t table key mode es n)
