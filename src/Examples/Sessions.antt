-- ===== src/Examples/Sessions.antt =====
-- src/db.c: two sessions over a store of numbers.
use db_hobby.Base.{ℕ, zero, suc, ◌≡◌, ◌≢◌, refl, ◌+◌, true, false, Option, some, [], ◌∷◌, ok, arith}
use db_hobby.Lock.{lock_init}
use db_hobby.Mvcc.{txn_max, txnlog_init, txnlog_status}
use db_hobby.Txn.{
  Database, DbSession, Engine, Statement, db_open, no_session, db_max_sessions, session,
  snapshot_hides, row_visible, rec_visible, stmt_begin, stmt_commit, stmt_session, stmt_insert,
  stmt_select,
}
use db_hobby.Txn.Exec.{db_exec, exec_commit, exec_rollback, prepared}
use db_hobby.Txn.Isolation.{frame}
use db_hobby.Txn.Repeatable.{IsIsolated, Shielded, run-IsIsolated, exec_all, repeatable_read}
use db_hobby.Txn.Outcomes.{rollback_undoes, late_commit_lost, switch_keeps_txn}

-- A store that counts its writes.
abbrev counter : Engine ℕ ℕ
counter = record {
  commit_tables = λ s txn. s;
  abort_tables = λ s txn. s;
  prepare = λ db st. some 0;
  run = λ db st vals. (db.storage + 1, ok);
}

abbrev in_txn1 : DbSession
in_txn1 = record { in_txn = true; txn = 1; snap_next = 3; snap_inprog = 2 ∷ [] }

abbrev in_txn2 : DbSession
in_txn2 = record { in_txn = true; txn = 2; snap_next = 3; snap_inprog = 1 ∷ [] }

abbrev two_sessions : ℕ → DbSession
two_sessions zero = in_txn1
two_sessions (suc zero) = in_txn2
two_sessions (suc (suc i)) = no_session

abbrev two_open : Database ℕ
two_open = record {
  storage = 0;
  sessions = two_sessions;
  cur_session = 1;
  lm = lock_init;
  cur_txn = 2;
  next_txn = 3;
  committed_below = 1;
  txnlog = txnlog_init;
}

-- A transaction whose id is the log's bound.
abbrev late : Database ℕ
late = record {
  storage = 0;
  sessions = λ i. record { in_txn = true; txn = txn_max; snap_next = txn_max; snap_inprog = [] };
  cur_session = 0;
  lm = lock_init;
  cur_txn = txn_max;
  next_txn = txn_max + 1;
  committed_below = 1;
  txnlog = txnlog_init;
}

abbrev plain : Statement
plain = record { type = stmt_commit; table = []; sess = 0 }

abbrev commit : Option Statement
commit = some plain

abbrev begin : Option Statement
begin = some (record { type = stmt_begin; table = []; sess = 0 })

abbrev to_session0 : Statement
to_session0 = record { type = stmt_session; table = []; sess = 0 }

hides-from1 :
    (j : ℕ)
    → j ≢ 0
    → (two_sessions j).in_txn ≡ true
    → snapshot_hides in_txn1 (two_sessions j).txn ≡ true
unfolding snapshot_hides
hides-from1 zero n o = absurd (n refl)
hides-from1 (suc zero) n o = refl
hides-from1 (suc (suc j)) n o = absurd (ground arith)

hides-from2 :
    (j : ℕ)
    → j ≢ 1
    → (two_sessions j).in_txn ≡ true
    → snapshot_hides in_txn2 (two_sessions j).txn ≡ true
unfolding snapshot_hides
hides-from2 zero n o = refl
hides-from2 (suc zero) n o = absurd (n refl)
hides-from2 (suc (suc j)) n o = absurd (ground arith)

two_open-Shielded : (i : ℕ) → Shielded (frame two_open) i
unfolding Shielded
two_open-Shielded zero o = (omega arith, λ j l n p. hides-from1 j n p)
two_open-Shielded (suc zero) o = (omega arith, λ j l n p. hides-from2 j n p)
two_open-Shielded (suc (suc i)) o = absurd (ground arith)

two_open-IsIsolated : IsIsolated (frame two_open)
unfolding IsIsolated
two_open-IsIsolated = (omega arith, λ i h. two_open-Shielded i)

still_open : ((db_exec counter two_open commit).0.sessions 0).in_txn ≡ true
unfolding db_exec db_hobby.Txn.Exec.dispatch db_hobby.Txn.Exec.run_stmt exec_commit
    db_hobby.Txn.close_txn db_hobby.Txn.set_session
still_open = refl

run-IsIsolated_example : IsIsolated (frame (exec_all counter (db_open 0 5) (begin ∷ commit ∷ [])))
run-IsIsolated_example = run-IsIsolated counter 0 5 (begin ∷ commit ∷ [])

repeatable_read_example :
    row_visible (record (db_exec counter two_open commit).0 { cur_session = 0 }) 2 0 1
    ≡ row_visible (record two_open { cur_session = 0 }) 2 0 1
repeatable_read_example =
    repeatable_read counter two_open commit 0 2 0 1 two_open-IsIsolated (omega arith) refl
      still_open

abbrev reading : Statement
reading = record { type = stmt_select; table = []; sess = 0 }

rollback_undoes_example :
    (row_visible (record (exec_rollback counter two_open).0 { cur_session = 0 }) 2 0 7 ≡ false)
    × (row_visible (record (exec_rollback counter two_open).0 { cur_session = 0 }) 4 2 7
        ≡ row_visible (record (exec_rollback counter two_open).0 { cur_session = 0 }) 4 0 7)
rollback_undoes_example =
    rollback_undoes counter two_open 0 4 0 7 refl (omega arith) (omega arith) (omega arith)

late_commit_lost_example :
    row_visible (record (exec_commit counter late).0 { cur_session = 3 }) txn_max 0 7 ≡ false
late_commit_lost_example =
    late_commit_lost counter late 3 7 refl (omega arith) (omega arith) (omega arith)

switch_keeps_txn_example :
    let switched = (db_exec counter two_open (some to_session0)).0 in
    (switched.cur_session ≡ 0)
    × (switched.cur_txn ≡ 2)
    × (db_exec counter switched (some reading) ≡ prepared counter switched reading (some 0))
    × (rec_visible switched 2 0 ≡ true)
    × (row_visible switched 2 0 1 ≡ false)
unfolding txnlog_status db_hobby.Mvcc.in_log txnlog_init
switch_keeps_txn_example =
    switch_keeps_txn counter two_open to_session0 reading 1 refl (omega arith) refl (omega arith)
      refl (omega arith) refl
