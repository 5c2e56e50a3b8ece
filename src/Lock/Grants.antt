-- ===== src/Lock/Grants.antt =====
-- src/lock.c, `lock_acquire`: exactly which requests are granted, and what is held afterwards.
use db_hobby.Base.{
  ℕ, zero, suc, ◌+◌, ◌≤◌, ◌<◌, ◌≡◌, refl, inl, inr, Bool, true, false, ◌&&◌, ◌||◌, not, none, some,
  List, [], ◌∷◌, ◌++◌, arith, ok, ◌==◌, length, Option-cases, Bool-cases, any, ltb, ◌↔◌, set,
}
use db_hobby.Lock.{
  LockManager, LockEntry, LockMode, lock_s, lock_x, is_x, same_obj, Found, note_entry, gather,
  upgrade_at, mode_at, free_slot, grant, find_locks, lock_acquire, copy_name, held_in, lock_held,
  lock_max,
}
use db_hobby.Lock.Names.{name_eq_iff, copy_name-eq}
use db_hobby.Lock.Pairs.{Avoids, IsCompatible}
use db_hobby.Lock.Acquire.{own, other, own_at, gather-own}

module _ (txn : ℕ) (table : List ℕ) (key : ℕ) where
  -- A lock of another transaction that forbids the mode.
  abbrev pub conflicts : LockMode → LockEntry → Bool
  conflicts mode e = other txn table key e && (is_x mode || is_x e.mode)

  gather-other_x :
      (i : ℕ) (es : List LockEntry) (f : Found)
      → (gather txn table key i es f).other_x ≡ (f.other_x || any (conflicts lock_s) es)
  unfolding gather note_entry
  gather-other_x i [] f = ground arith
  gather-other_x i (e ∷ es) f =
      ground (arith, gather-other_x (i + 1) es (note_entry txn table key i e f))

  gather-other :
      (i : ℕ) (es : List LockEntry) (f : Found)
      → ((gather txn table key i es f).other_s || (gather txn table key i es f).other_x)
        ≡ (f.other_s || f.other_x || any (conflicts lock_x) es)
  unfolding gather note_entry
  gather-other i [] f = ground arith
  gather-other i (e ∷ es) f =
      ground (arith, gather-other (i + 1) es (note_entry txn table key i e f))

  gather-none_iff :
      (i : ℕ) (es : List LockEntry) (f : Found)
      → ((gather txn table key i es f).mine ≡ none)
        ↔ ((f.mine ≡ none) × (any (own txn table key) es ≡ false))
  unfolding gather note_entry
  gather-none_iff i [] f = ground arith
  gather-none_iff i (e ∷ es) f =
      ground (arith, gather-none_iff (i + 1) es (note_entry txn table key i e f))

  -- The caller's own lock, if it covers the request, leaves no room for a conflicting one.
  covers-head :
      (mode : LockMode) (x : LockEntry) (j : ℕ) (es : List LockEntry)
      → own_at txn table key es j ≡ true
      → (not (is_x mode) || is_x (mode_at es j)) ≡ true
      → Avoids x es
      → conflicts mode x ≡ false
  unfolding mode_at same_obj
  covers-head mode x j [] h c a = cc
  covers-head mode x zero (e ∷ es) h c a =
      ground
        (arith, name_eq_iff e.table table, name_eq_iff x.table table, name_eq_iff e.table x.table)
  covers-head mode x (suc j) (e ∷ es) h c a = covers-head mode x j es h c a.1

  covers-tail :
      (mode : LockMode) (e : LockEntry) (es : List LockEntry)
      → own txn table key e ≡ true
      → (not (is_x mode) || is_x e.mode) ≡ true
      → Avoids e es
      → any (conflicts mode) es ≡ false
  unfolding same_obj
  covers-tail mode e [] h c a = refl
  covers-tail mode e (x ∷ es) h c a = ground (
    arith,
    covers-tail mode e es h c a.1,
    name_eq_iff e.table table,
    name_eq_iff x.table table,
    name_eq_iff x.table e.table,
  )

  covers :
      (mode : LockMode) (j : ℕ) (es : List LockEntry)
      → own_at txn table key es j ≡ true
      → (not (is_x mode) || is_x (mode_at es j)) ≡ true
      → IsCompatible es
      → any (conflicts mode) es ≡ false
  unfolding mode_at
  covers mode j [] h c k = refl
  covers mode zero (e ∷ es) h c k = ground (arith, covers-tail mode e es h c k.0)
  covers mode (suc j) (e ∷ es) h c k =
      ground (arith, covers mode j es h c k.1, covers-head mode e j es h c k.0)

abbrev pub has_room : List LockEntry → Bool
has_room es = any (λ e. e.txn == 0) es || ltb (length es) lock_max

free_slot-none_iff :
    (es : List LockEntry) → (free_slot es ≡ none) ↔ (any (λ e. e.txn == 0) es ≡ false)
unfolding free_slot
free_slot-none_iff [] = ground arith
free_slot-none_iff (e ∷ es) = ground (arith, free_slot-none_iff es)

grant-ok_iff :
    (lm : LockManager) (e : LockEntry) → ((grant lm e).1 ≡ ok) ↔ (has_room lm.entries ≡ true)
unfolding grant
grant-ok_iff lm e = ground (arith, free_slot-none_iff lm.entries)

module _ (lm : LockManager) (txn : ℕ) (table : List ℕ) (key : ℕ) where
  abbrev pub request : LockMode → LockEntry
  request mode = record { txn = txn; table = copy_name table; key = key; mode = mode }

  pub found_iff :
      ((find_locks lm txn table key).other_x ≡ any (conflicts txn table key lock_s) lm.entries)
      × (((find_locks lm txn table key).other_s || (find_locks lm txn table key).other_x)
          ≡ any (conflicts txn table key lock_x) lm.entries)
      × (((find_locks lm txn table key).mine ≡ none) ↔ (any (own txn table key) lm.entries ≡ false))
  unfolding find_locks
  found_iff = (
    gather-other_x txn table key 0 lm.entries _,
    gather-other txn table key 0 lm.entries _,
    ground (
      arith,
      gather-none_iff txn table key 0 lm.entries
          (record { mine = none; other_s = false; other_x = false }),
    ),
  )

  found-covers :
      (mode : LockMode) (i : ℕ)
      → (find_locks lm txn table key).mine ≡ some i
      → (not (is_x mode) || is_x (mode_at lm.entries i)) ≡ true
      → IsCompatible lm.entries
      → any (conflicts txn table key mode) lm.entries ≡ false
  unfolding find_locks
  found-covers mode i mine c k = elim (gather-own txn table key 0 i lm.entries _ mine) [
    | inl p ↦ absurd (ground arith)
    | inr (j, p, at) ↦
        let e : j ≡ i = omega arith in covers txn table key mode i lm.entries (rw e at at) c k
  ]

  -- In a table that obeys the matrix, a request is granted exactly if no other transaction holds
  -- a conflicting lock, and the caller has an entry for the object or there is room for one.
  pub acquire-ok_iff :
      (mode : LockMode)
      → IsCompatible lm.entries
      → ((lock_acquire lm txn table key mode).1 ≡ ok) ↔ (
          (any (conflicts txn table key mode) lm.entries ≡ false)
          × ((any (own txn table key) lm.entries || has_room lm.entries) ≡ true))
  unfolding lock_acquire
  acquire-ok_iff lock_s c = elim (Option-cases (find_locks lm txn table key).mine) [
    | inl p ↦ ground (arith, found_iff, grant-ok_iff lm (request lock_s))
    | inr (i, p) ↦ ground (arith, found_iff, found-covers lock_s i p)
  ]
  acquire-ok_iff lock_x c = elim (Option-cases (find_locks lm txn table key).mine) [
    | inl p ↦ ground (arith, found_iff, grant-ok_iff lm (request lock_x))
    | inr (i, p) ↦ ground (arith, found_iff, found-covers lock_x i p)
  ]

  held-set :
      (e : LockEntry) (i : ℕ) (es : List LockEntry)
      → own txn table key e ≡ true
      → free_slot es ≡ some i
      → held_in (set es i e) txn table key ≡ true
  unfolding held_in free_slot same_obj
  held-set e i [] h f = cc
  held-set e zero (x ∷ es) h f = ground arith
  held-set e (suc i) (x ∷ es) h f = ground (arith, held-set e i es h)

  held-append :
      (e : LockEntry) (es : List LockEntry)
      → own txn table key e ≡ true
      → held_in (es ++ e ∷ []) txn table key ≡ true
  unfolding held_in same_obj
  held-append e [] h = ground arith
  held-append e (x ∷ es) h = ground (arith, held-append e es h)

  held-upgrade :
      (j : ℕ) (es : List LockEntry)
      → held_in (upgrade_at es j) txn table key ≡ held_in es txn table key
  unfolding held_in upgrade_at
  held-upgrade j [] = refl
  held-upgrade zero (x ∷ es) = refl
  held-upgrade (suc j) (x ∷ es) = ground (arith, held-upgrade j es)

  held-own :
      (es : List LockEntry) → any (own txn table key) es ≡ true → held_in es txn table key ≡ true
  unfolding held_in same_obj
  held-own [] h = h
  held-own (x ∷ es) h = ground (arith, held-own es)

  held-grant :
      (e : LockEntry)
      → own txn table key e ≡ true
      → (grant lm e).1 ≡ ok
      → held_in (grant lm e).0.entries txn table key ≡ true
  unfolding grant
  held-grant e o h = elim (Option-cases (free_slot lm.entries)) [
    | inl full ↦ ground (arith, held-append e lm.entries o)
    | inr (i, free) ↦ rw (free, grant) (held-set e i lm.entries o free)
  ]

  pub request-own :
      (mode : LockMode) → 0 < txn → length table ≤ 63 → own txn table key (request mode) ≡ true
  unfolding same_obj
  request-own mode p short = ground (arith, copy_name-eq table short, name_eq_iff table table)

  -- A transaction whose request was granted holds a lock on the object.
  pub held-acquire :
      (mode : LockMode)
      → 0 < txn
      → length table ≤ 63
      → (lock_acquire lm txn table key mode).1 ≡ ok
      → lock_held (lock_acquire lm txn table key mode).0 txn table key ≡ true
  unfolding lock_acquire lock_held
  held-acquire mode p short h = elim (Option-cases (find_locks lm txn table key).mine) [
    | inl q ↦ ground (arith, held-grant (request mode) (request-own mode p short))
    | inr (i, q) ↦
        let here : held_in lm.entries txn table key ≡ true =
          held-own lm.entries (elim (Bool-cases (any (own txn table key) lm.entries)) [
            | inl y ↦ y
            | inr n ↦ absurd (ground (arith, found_iff))
          ]) in
        ground (arith, held-upgrade i lm.entries)
  ]
