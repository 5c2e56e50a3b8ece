-- ===== src/Lock/Exclusion.antt =====
-- src/lock.c with src/db.c, `lock_one`: the first writer of a table shuts every other one out.
use db_hobby.Base.{
  ℕ, zero, suc, ◌≤◌, ◌<◌, ◌≡◌, ◌≢◌, inl, inr, Bool, true, ◌&&◌, some, List, [], ◌∷◌, ◌++◌, arith,
  ok, fail, length, Option-cases, any, set,
}
use db_hobby.Lock.{
  LockManager, LockEntry, LockMode, lock_x, is_x, same_obj, mode_at, upgrade_at, free_slot, grant,
  find_locks, lock_acquire,
}
use db_hobby.Lock.Pairs.{IsCompatible}
use db_hobby.Lock.Acquire.{own, own_at, gather-own, acquire-IsCompatible}
use db_hobby.Lock.Grants.{conflicts, request, request-own, acquire-ok_iff}

module _ (txn : ℕ) (table : List ℕ) (key : ℕ) where
  abbrev own_x : LockEntry → Bool
  own_x e = own txn table key e && is_x e.mode

  own_x-set :
      (e : LockEntry) (i : ℕ) (es : List LockEntry)
      → own_x e ≡ true
      → free_slot es ≡ some i
      → any own_x (set es i e) ≡ true
  unfolding free_slot
  own_x-set e i [] h f = cc
  own_x-set e zero (x ∷ es) h f = ground arith
  own_x-set e (suc i) (x ∷ es) h f = ground (arith, own_x-set e i es h)

  own_x-append :
      (e : LockEntry) (es : List LockEntry) → own_x e ≡ true → any own_x (es ++ e ∷ []) ≡ true
  own_x-append e [] h = ground arith
  own_x-append e (x ∷ es) h = ground (arith, own_x-append e es h)

  own_x-grant :
      (lm : LockManager) (e : LockEntry)
      → own_x e ≡ true
      → (grant lm e).1 ≡ ok
      → any own_x (grant lm e).0.entries ≡ true
  unfolding grant
  own_x-grant lm e o h = elim (Option-cases (free_slot lm.entries)) [
    | inl full ↦ ground (arith, own_x-append e lm.entries o)
    | inr (i, free) ↦ rw (free, grant) (own_x-set e i lm.entries o free)
  ]

  own_x-upgrade :
      (j : ℕ) (es : List LockEntry)
      → own_at txn table key es j ≡ true
      → any own_x (upgrade_at es j) ≡ true
  unfolding upgrade_at same_obj
  own_x-upgrade j [] h = cc
  own_x-upgrade zero (x ∷ es) h = ground arith
  own_x-upgrade (suc j) (x ∷ es) h = ground (arith, own_x-upgrade j es h)

  own_x-at :
      (j : ℕ) (es : List LockEntry)
      → own_at txn table key es j ≡ true
      → is_x (mode_at es j) ≡ true
      → any own_x es ≡ true
  unfolding mode_at
  own_x-at j [] h m = cc
  own_x-at zero (x ∷ es) h m = ground arith
  own_x-at (suc j) (x ∷ es) h m = ground (arith, own_x-at j es h m)

  mine-own_at :
      (lm : LockManager) (i : ℕ)
      → (find_locks lm txn table key).mine ≡ some i
      → own_at txn table key lm.entries i ≡ true
  unfolding find_locks
  mine-own_at lm i mine = elim (gather-own txn table key 0 i lm.entries _ mine) [
    | inl p ↦ absurd (ground arith)
    | inr (j, p, at) ↦ let e : j ≡ i = omega arith in rw e at at
  ]

  own_x-acquire :
      (lm : LockManager)
      → 0 < txn
      → length table ≤ 63
      → (lock_acquire lm txn table key lock_x).1 ≡ ok
      → any own_x (lock_acquire lm txn table key lock_x).0.entries ≡ true
  unfolding lock_acquire
  own_x-acquire lm p short h = elim (Option-cases (find_locks lm txn table key).mine) [
    | inl q ↦
        let own_request = request-own lm txn table key lock_x p short in
        ground (arith, own_x-grant lm (request lm txn table key lock_x))
    | inr (i, q) ↦
        let at = mine-own_at lm i q in
        ground (arith, own_x-upgrade i lm.entries at, own_x-at i lm.entries at)
  ]

own_x-conflicts :
    (txn t : ℕ) (table : List ℕ) (key : ℕ) (mode : LockMode) (es : List LockEntry)
    → t ≢ txn
    → any (own_x txn table key) es ≡ true
    → any (conflicts t table key mode) es ≡ true
own_x-conflicts txn t table key mode [] n h = cc
own_x-conflicts txn t table key mode (e ∷ es) n h =
    ground (arith, own_x-conflicts txn t table key mode es n)

-- First updater wins: once a transaction has got the exclusive lock on an object, every request of
-- another transaction for that object is refused, in either mode. The table obeys the
-- compatibility matrix, ids are positive and the name fits the entry's field.
pub first_updater_wins :
    (lm : LockManager) (txn t : ℕ) (table : List ℕ) (key : ℕ) (mode : LockMode)
    → 0 < txn
    → t ≢ txn
    → length table ≤ 63
    → IsCompatible lm.entries
    → (lock_acquire lm txn table key lock_x).1 ≡ ok
    → (lock_acquire (lock_acquire lm txn table key lock_x).0 t table key mode).1 ≡ fail
first_updater_wins lm txn t table key mode p n short c h =
    let lm' : LockManager = (lock_acquire lm txn table key lock_x).0 in
    let held = own_x-acquire txn table key lm p short h in
    let kept = acquire-IsCompatible lm txn table key lock_x short c in
    let clash = own_x-conflicts txn t table key mode lm'.entries n held in
    ground (arith, acquire-ok_iff lm' t table key mode kept)
