-- ===== src/Lock/Acquire.antt =====
-- src/lock.c, `lock_acquire`: the compatibility matrix is kept.
use db_hobby.Base.{
  ℕ, zero, suc, ◌+◌, ◌≤◌, ◌≡◌, ◌⊎◌, inl, inr, Bool, true, false, ◌&&◌, ◌||◌, not, none, some, List,
  [], ◌∷◌, arith, fail, ◌==◌, length, All, Option-cases, Bool-cases,
}
use db_hobby.Lock.{
  LockManager, LockEntry, LockMode, lock_x, is_x, same_obj, Found, note_entry, gather, upgrade_at,
  free_slot, grant, find_locks, lock_acquire, copy_name,
}
use db_hobby.Lock.Names.{name_eq_iff, copy_name-eq}
use db_hobby.Lock.Pairs.{
  Avoids, IsCompatible, AvoidsBut-of_Avoids, IsCompatible-set, IsCompatible-append,
}

-- The caller's own entry on the object, and an entry on it of another transaction.
abbrev pub own : ℕ → List ℕ → ℕ → LockEntry → Bool
own txn table key e = not (e.txn == 0) && same_obj e table key && (e.txn == txn)

abbrev pub other : ℕ → List ℕ → ℕ → LockEntry → Bool
other txn table key e = not (e.txn == 0) && same_obj e table key && not (e.txn == txn)

module _ (txn : ℕ) (table : List ℕ) (key : ℕ) where
  pub gather_mono :
      (i : ℕ) (es : List LockEntry) (f : Found)
      → (f.other_x ≡ true → (gather txn table key i es f).other_x ≡ true)
        × (f.other_s ≡ true → (gather txn table key i es f).other_s ≡ true)
        × ((gather txn table key i es f).mine ≡ none → f.mine ≡ none)
  unfolding gather note_entry
  gather_mono i [] f = (λ h. h, λ h. h, λ h. h)
  gather_mono i (e ∷ es) f = ground (arith, gather_mono (i + 1) es (note_entry txn table key i e f))

  -- What an allowed new lock has found: nothing that clashes with it.
  gather-Avoids :
      (i : ℕ) (es : List LockEntry) (f : Found) (mode : LockMode)
      → (gather txn table key i es f).mine ≡ none
      → (is_x mode
          && ((gather txn table key i es f).other_s || (gather txn table key i es f).other_x))
        ≡ false
      → (gather txn table key i es f).other_x ≡ false
      → Avoids (record { txn = txn; table = table; key = key; mode = mode }) es
  unfolding gather note_entry same_obj
  gather-Avoids i [] f mode a b c = tt
  gather-Avoids i (e ∷ es) f mode a b c = (
    ground (arith, gather_mono (i + 1) es (note_entry txn table key i e f)),
    gather-Avoids (i + 1) es (note_entry txn table key i e f) mode a b c,
  )

  -- Where no other transaction holds the object, every live entry on it is the caller's.
  gather-alone :
      (i : ℕ) (es : List LockEntry) (f : Found)
      → (gather txn table key i es f).other_s ≡ false
      → (gather txn table key i es f).other_x ≡ false
      → All (λ e. other txn table key e ≡ false) es
  unfolding gather note_entry
  gather-alone i [] f a b = tt
  gather-alone i (e ∷ es) f a b = (
    ground (arith, gather_mono (i + 1) es (note_entry txn table key i e f)),
    gather-alone (i + 1) es (note_entry txn table key i e f) a b,
  )

  abbrev pub own_at : List LockEntry → ℕ → Bool
  own_at [] j = false
  own_at (e ∷ es) zero = own txn table key e
  own_at (e ∷ es) (suc j) = own_at es j

  -- The position that the loop remembers is that of an entry of the caller.
  pub gather-own :
      (i k : ℕ) (es : List LockEntry) (f : Found)
      → (gather txn table key i es f).mine ≡ some k
      → (f.mine ≡ some k) ⊎ ((j : ℕ) × (k ≡ i + j) × (own_at es j ≡ true))
  unfolding gather note_entry
  gather-own i k [] f h = inl h
  gather-own i k (e ∷ es) f h = elim (gather-own (i + 1) k es (note_entry txn table key i e f) h) [
    | inr (j, p, q) ↦ inr (suc j, omega arith, q)
    | inl p ↦ elim (Bool-cases (own txn table key e)) [
      | inl mine ↦ inr (0, ground arith, mine)
      | inr away ↦ inl (ground arith)
    ]
  ]

  upgrade-Avoids :
      (e : LockEntry) (es : List LockEntry)
      → own txn table key e ≡ true
      → All (λ f. other txn table key f ≡ false) es
      → Avoids e es
      → Avoids (record e { mode = lock_x }) es
  unfolding same_obj
  upgrade-Avoids e [] h o a = tt
  upgrade-Avoids e (f ∷ es) h o a = (
    ground
        (arith, name_eq_iff e.table table, name_eq_iff f.table table, name_eq_iff f.table e.table),
    upgrade-Avoids e es h o.1 a.1,
  )

  upgrade-avoided :
      (x : LockEntry) (j : ℕ) (es : List LockEntry)
      → own_at es j ≡ true
      → other txn table key x ≡ false
      → Avoids x es
      → Avoids x (upgrade_at es j)
  unfolding upgrade_at same_obj
  upgrade-avoided x j [] h o a = tt
  upgrade-avoided x zero (e ∷ es) h o a = (
    ground
        (arith, name_eq_iff e.table table, name_eq_iff x.table table, name_eq_iff e.table x.table),
    a.1,
  )
  upgrade-avoided x (suc j) (e ∷ es) h o a = (a.0, upgrade-avoided x j es h o a.1)

  upgrade-IsCompatible :
      (j : ℕ) (es : List LockEntry)
      → own_at es j ≡ true
      → All (λ f. other txn table key f ≡ false) es
      → IsCompatible es
      → IsCompatible (upgrade_at es j)
  unfolding upgrade_at
  upgrade-IsCompatible j [] h o c = tt
  upgrade-IsCompatible zero (e ∷ es) h o c = (upgrade-Avoids e es h o.1 c.0, c.1)
  upgrade-IsCompatible (suc j) (e ∷ es) h o c =
      (upgrade-avoided e j es h o.0 c.0, upgrade-IsCompatible j es h o.1 c.1)

grant-IsCompatible :
    (lm : LockManager) (e : LockEntry)
    → Avoids e lm.entries
    → IsCompatible lm.entries
    → IsCompatible (grant lm e).0.entries
unfolding grant
grant-IsCompatible lm e a c = elim (Option-cases (free_slot lm.entries)) [
  | inl full ↦ ground (arith, IsCompatible-append e lm.entries a c)
  | inr (i, free) ↦
      rw (free, grant) (IsCompatible-set e i lm.entries (AvoidsBut-of_Avoids e i lm.entries a) c)
]

module _ (lm : LockManager) (txn : ℕ) (table : List ℕ) (key : ℕ) (mode : LockMode) where
  abbrev pub found : Found
  found = find_locks lm txn table key

  found-upgrade :
      (i : ℕ)
      → found.mine ≡ some i
      → found.other_s ≡ false
      → found.other_x ≡ false
      → IsCompatible lm.entries
      → IsCompatible (upgrade_at lm.entries i)
  unfolding find_locks
  found-upgrade i mine no_s no_x c = elim (gather-own txn table key 0 i lm.entries _ mine) [
    | inl p ↦ absurd (ground arith)
    | inr (j, p, at) ↦
        let e : j ≡ i = omega arith in
        upgrade-IsCompatible txn table key i lm.entries (rw e at at)
          (gather-alone txn table key 0 lm.entries _ no_s no_x) c
  ]

  found-grant :
      (length table ≤ 63)
      → found.mine ≡ none
      → (is_x mode && (found.other_s || found.other_x)) ≡ false
      → found.other_x ≡ false
      → IsCompatible lm.entries
      → IsCompatible
          (grant lm
            (record { txn = txn; table = copy_name table; key = key; mode = mode })).0.entries
  unfolding find_locks
  found-grant short mine a b c =
      rw (copy_name-eq table short)
        (grant-IsCompatible lm _ (gather-Avoids txn table key 0 lm.entries _ mode mine a b) c)

  -- Whatever `lock_acquire` answers, the table it leaves obeys the compatibility matrix, and each
  -- transaction has at most one entry for an object. The name has to fit the entry's field.
  pub acquire-IsCompatible :
      length table ≤ 63
      → IsCompatible lm.entries
      → IsCompatible (lock_acquire lm txn table key mode).0.entries
  unfolding lock_acquire
  acquire-IsCompatible short c = elim (Option-cases found.mine) [
    | inl none_mine ↦ ground (arith, found-grant short none_mine)
    | inr (i, mine) ↦ ground (arith, found-upgrade i mine)
  ]

  -- A refused request changes nothing.
  pub acquire-fail :
      (lock_acquire lm txn table key mode).1 ≡ fail → (lock_acquire lm txn table key mode).0 ≡ lm
  unfolding lock_acquire grant
  acquire-fail h = ground arith
