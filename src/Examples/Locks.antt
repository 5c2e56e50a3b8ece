-- ===== src/Examples/Locks.antt =====
-- src/lock.c: two transactions and two tables.
use db_hobby.Base.{ℕ, ◌≡◌, ◌≢◌, refl, true, List, [], ◌∷◌, ok, fail, arith}
use db_hobby.Lock.{
  LockManager, LockEntry, LockMode, lock_s, lock_x, lock_init, lock_acquire, lock_release_all,
  lock_held, lock_max,
}
use db_hobby.Lock.Pairs.{IsCompatible}
use db_hobby.Lock.Exclusion.{first_updater_wins}
use db_hobby.Lock.Waits.{wait_targets, lock_deadlock_victim}
use db_hobby.Lock.Graph.{waits_for, Chain, edge, more, victim-Chain}
use db_hobby.Lock.Complete.{victim-ne}

abbrev users : List ℕ
users = 117 ∷ []

abbrev items : List ℕ
items = 105 ∷ []

abbrev entry : ℕ → List ℕ → LockMode → LockEntry
entry t table mode = record { txn = t; table = table; key = 0; mode = mode }

abbrev held_table : LockManager
held_table = record { entries = entry 1 users lock_x ∷ []; waits = [] }

-- 1 holds `users` and waits for `items`, which 2 holds and waits for `users`.
abbrev deadlocked : LockManager
deadlocked = record {
  entries = entry 1 users lock_x ∷ entry 2 items lock_x ∷ [];
  waits =
      record { txn = 1; table = items; key = 0; mode = lock_x }
      ∷ record { txn = 2; table = users; key = 0; mode = lock_x }
      ∷ [];
}

none-IsCompatible : IsCompatible []
none-IsCompatible = tt

one-IsCompatible : IsCompatible held_table.entries
one-IsCompatible = ground arith

get_users : (lock_acquire lock_init 1 users 0 lock_x).1 ≡ ok
unfolding lock_acquire db_hobby.Lock.find_locks db_hobby.Lock.gather lock_init db_hobby.Lock.grant
    db_hobby.Lock.free_slot
get_users = refl

refused : (lock_acquire held_table 2 users 0 lock_s).1 ≡ fail
unfolding lock_acquire db_hobby.Lock.find_locks db_hobby.Lock.gather db_hobby.Lock.note_entry
    db_hobby.Lock.same_obj db_hobby.Lock.name_eq
refused = refl

first_updater_wins_example :
    (lock_acquire (lock_acquire lock_init 1 users 0 lock_x).0 2 users 0 lock_s).1 ≡ fail
unfolding lock_init
first_updater_wins_example =
    first_updater_wins lock_init 1 2 users 0 lock_s (omega arith) (omega arith) (omega arith)
      none-IsCompatible get_users

one_waits : waits_for deadlocked 1 2 ≡ true
unfolding db_hobby.Lock.Waits.wait_of db_hobby.Lock.Waits.blocks db_hobby.Lock.name_eq
one_waits = refl

two_waits : waits_for deadlocked 2 1 ≡ true
unfolding db_hobby.Lock.Waits.wait_of db_hobby.Lock.Waits.blocks db_hobby.Lock.name_eq
two_waits = refl

victim : lock_deadlock_victim deadlocked ≢ 0
victim = victim-ne deadlocked 1 (omega arith) (omega arith) (more (edge one_waits) two_waits)

victim-Chain_example :
    Chain deadlocked (lock_deadlock_victim deadlocked) (lock_deadlock_victim deadlocked)
victim-Chain_example = victim-Chain deadlocked (omega arith) victim

victim-ne_example : lock_deadlock_victim deadlocked ≢ 0
victim-ne_example =
    victim-ne deadlocked 1 (omega arith) (omega arith) (more (edge one_waits) two_waits)
