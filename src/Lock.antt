-- ===== src/Lock.antt =====
-- src/lock.h, src/lock.c: the two-phase-locking table locks. The arrays `entries[0..n)` and
-- `waits[0..nwaits)` are lists, whose lengths are the counters; slots past the counters are never
-- read. A name is the list of its bytes before the NUL, a key the 64-bit pattern of its `long`,
-- and a transaction id an `int` that is not negative.
pub mod Names
pub mod Pairs
pub mod Acquire
pub mod Grants
pub mod Exclusion
pub mod Release
pub mod Waits
pub mod Graph
pub mod Complete
use db_hobby.Base.{
  ℕ, zero, suc, ◌+◌, Bool, true, false, ◌&&◌, ◌||◌, not, Option, none, some, List, [], ◌∷◌, ◌++◌,
  Rc, ok, fail, if◌then◌else◌, ◌==◌, leb, ltb, length, set, take,
}

abbrev pub lock_max : ℕ
lock_max = 256

abbrev pub lock_max_waits : ℕ
lock_max_waits = 64

abbrev pub lock_name_len : ℕ
lock_name_len = 64

pub data LockMode : Type 0 where
  lock_s lock_x : LockMode

abbrev pub is_x : LockMode → Bool
is_x lock_s = false
is_x lock_x = true

pub record LockEntry : Type 0 where
  pub txn : ℕ
  pub table : List ℕ
  pub key : ℕ
  pub mode : LockMode

pub record LockWait : Type 0 where
  pub txn : ℕ
  pub table : List ℕ
  pub key : ℕ
  pub mode : LockMode

pub record LockManager : Type 0 where
  pub entries : List LockEntry
  pub waits : List LockWait

unfoldable pub lock_init : LockManager
lock_init = record { entries = []; waits = [] }

-- `strcmp(a, b) == 0`
unfoldable pub name_eq : List ℕ → List ℕ → Bool
name_eq [] [] = true
name_eq [] (y ∷ ys) = false
name_eq (x ∷ xs) [] = false
name_eq (x ∷ xs) (y ∷ ys) = x == y && name_eq xs ys

-- `snprintf(dst, LOCK_NAME_LEN, "%s", src)`
unfoldable pub copy_name : List ℕ → List ℕ
copy_name s = take 63 s

unfoldable pub same_obj : LockEntry → List ℕ → ℕ → Bool
same_obj e table key = e.key == key && name_eq e.table table

-- What the first loop of `lock_acquire` gathers: the position of the caller's own lock, and the
-- modes that other transactions hold.
pub record Found : Type 0 where
  pub mine : Option ℕ
  pub other_s : Bool
  pub other_x : Bool

unfoldable pub note_entry : ℕ → List ℕ → ℕ → ℕ → LockEntry → Found → Found
note_entry txn table key i e f =
    if e.txn == 0 || not (same_obj e table key)
    then f
    else if e.txn == txn
    then record f { mine = some i }
    else if is_x e.mode
    then record f { other_x = true }
    else record f { other_s = true }

unfoldable pub gather : ℕ → List ℕ → ℕ → ℕ → List LockEntry → Found → Found
gather txn table key i [] f = f
gather txn table key i (e ∷ es) f = gather txn table key (i + 1) es (note_entry txn table key i e f)

unfoldable pub find_locks : LockManager → ℕ → List ℕ → ℕ → Found
find_locks lm txn table key =
    gather txn table key 0 lm.entries (record { mine = none; other_s = false; other_x = false })

-- The first slot whose owner is 0.
unfoldable pub free_slot : List LockEntry → Option ℕ
free_slot [] = none
free_slot (e ∷ es) =
    if e.txn == 0 then some 0 else elim (free_slot es) [ none ↦ none | some i ↦ some (suc i) ]

unfoldable pub mode_at : List LockEntry → ℕ → LockMode
mode_at [] i = lock_s
mode_at (e ∷ es) zero = e.mode
mode_at (e ∷ es) (suc i) = mode_at es i

-- `mine->mode = LOCK_X`
unfoldable pub upgrade_at : List LockEntry → ℕ → List LockEntry
upgrade_at [] i = []
upgrade_at (e ∷ es) zero = record e { mode = lock_x } ∷ es
upgrade_at (e ∷ es) (suc i) = e ∷ upgrade_at es i

-- Step 3 of `lock_acquire`: the grant is written to a free slot, or to the end.
unfoldable pub grant : LockManager → LockEntry → LockManager × Rc
grant lm e = elim (free_slot lm.entries) [
  | some i ↦ (record lm { entries = set lm.entries i e }, ok)
  | none ↦
      if leb lock_max (length lm.entries)
      then (lm, fail)
      else (record lm { entries = lm.entries ++ e ∷ [] }, ok)
]

unfoldable pub lock_acquire : LockManager → ℕ → List ℕ → ℕ → LockMode → LockManager × Rc
lock_acquire lm txn table key mode =
    let f = find_locks lm txn table key in
    elim f.mine [
      | some i ↦
          if not (is_x mode) || is_x (mode_at lm.entries i)
          then (lm, ok)
          else if f.other_s || f.other_x
          then (lm, fail)
          else (record lm { entries = upgrade_at lm.entries i }, ok)
      | none ↦
          if is_x mode && (f.other_s || f.other_x)
          then (lm, fail)
          else if not (is_x mode) && f.other_x
          then (lm, fail)
          else grant lm (record { txn = txn; table = copy_name table; key = key; mode = mode })
    ]

unfoldable pub release_entries : ℕ → List LockEntry → List LockEntry
release_entries txn [] = []
release_entries txn (e ∷ es) =
    (if e.txn == txn then record e { txn = 0 } else e) ∷ release_entries txn es

unfoldable pub lock_release_all : LockManager → ℕ → LockManager
lock_release_all lm txn = record lm { entries = release_entries txn lm.entries }

unfoldable pub held_in : List LockEntry → ℕ → List ℕ → ℕ → Bool
held_in [] txn table key = false
held_in (e ∷ es) txn table key =
    e.txn == txn && (e.key == key && name_eq e.table table) || held_in es txn table key

unfoldable pub lock_held : LockManager → ℕ → List ℕ → ℕ → Bool
lock_held lm txn table key = held_in lm.entries txn table key
