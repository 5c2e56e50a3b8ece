-- ===== src/Txn/Isolation.antt =====
-- src/db.c: what each statement does to the sessions and to the status log.
use db_hobby.Base.{
  ℕ, ◌≡◌, refl, ap, ◌∙◌, ◌≢◌, ◌<◌, ◌+◌, Bool, true, false, ◌||◌, not, List, inl, inr, arith, leb,
  if◌then◌else◌, update, Bool-cases, Option, none, some, Rc, ok, fail,
}
use db_hobby.Mvcc.{TxnLog, txnlog_begin, txnlog_status}
use db_hobby.Txn.{
  DbSession, Database, Statement, StmtType, Engine, db_max_sessions, session, exec_begin, close_txn,
  stmt_create, stmt_create_index, stmt_insert, stmt_select, stmt_delete, stmt_update, stmt_begin,
  stmt_commit, stmt_rollback, stmt_vacuum, stmt_analyze, stmt_session, set_session, open_others,
}
use db_hobby.Txn.Exec.{
  is_write, is_create, has_where, lock_one, acquire_stmt_locks, stmt_txn_of, exec_commit,
  exec_rollback, exec_tables, any_open, exec_vacuum, exec_session, run_stmt, finish_autocommit,
  write_autocommit, write_in_txn, dispatch, db_exec, attempt, prepared,
}
use db_hobby.Txn.Snapshot.{status-begin, status-commit, status-abort}

-- The part of a database that the snapshots depend on, the status log left out.
pub record TxnState : Type 0 where
  pub sessions : ℕ → DbSession
  pub cur_session : ℕ
  pub next_txn : ℕ
  pub committed_below : ℕ

module _ {S : Type 0} where
  abbrev pub frame : Database S → TxnState
  frame db = record {
    sessions = db.sessions;
    cur_session = db.cur_session;
    next_txn = db.next_txn;
    committed_below = db.committed_below;
  }

  -- What a statement leaves of `a` in `b`, as far as the snapshots can tell.
  pub data Effect (a b : Database S) : Type 0 where
    quiet :
        frame b ≡ frame a
        → ((x : ℕ) → txnlog_status b.txnlog x ≡ txnlog_status a.txnlog x)
        → Effect a b
    switched :
        (n : ℕ)
        → n < db_max_sessions
        → frame b ≡ record (frame a) { cur_session = n }
        → ((x : ℕ) → txnlog_status b.txnlog x ≡ txnlog_status a.txnlog x)
        → Effect a b
    alone :
        frame b ≡ record (frame a) { next_txn = a.next_txn + 1 }
        → ((x : ℕ) → x ≢ a.next_txn → txnlog_status b.txnlog x ≡ txnlog_status a.txnlog x)
        → Effect a b
    begun :
        (session a).in_txn ≡ false
        → frame b ≡ record (frame a) {
          next_txn = a.next_txn + 1;
          sessions = update a.sessions a.cur_session (record {
            in_txn = true;
            txn = a.next_txn;
            snap_next = a.next_txn + 1;
            snap_inprog = open_others a.sessions a.cur_session db_max_sessions;
          });
        }
        → ((x : ℕ) → x ≢ a.next_txn → txnlog_status b.txnlog x ≡ txnlog_status a.txnlog x)
        → Effect a b
    closed :
        (session a).in_txn ≡ true
        → frame b ≡ record (frame a) {
          sessions = update a.sessions a.cur_session (record (session a) { in_txn = false });
        }
        → ((x : ℕ) → x ≢ (session a).txn → txnlog_status b.txnlog x ≡ txnlog_status a.txnlog x)
        → Effect a b

  acquire-frame :
      (db : Database S) (st : Statement) (txn : ℕ)
      → (acquire_stmt_locks db st txn).0 ≡ record db { lm = (acquire_stmt_locks db st txn).0.lm }
  unfolding acquire_stmt_locks lock_one
  acquire-frame db st txn = ground arith

  begin-Effect : (db : Database S) → Effect db (exec_begin db).0
  unfolding exec_begin set_session
  begin-Effect db = elim (Bool-cases (session db).in_txn) [
    | inl h ↦ quiet (ground arith) (λ x. ground arith)
    | inr h ↦ begun h (ground arith) (λ x n. ground (arith, status-begin db.txnlog db.next_txn x n))
  ]

  session-Effect : (db : Database S) (n : ℕ) → Effect db (exec_session db n).0
  unfolding exec_session
  session-Effect db n = elim (Bool-cases (leb db_max_sessions n)) [
    | inl h ↦ quiet (ground arith) (λ x. ground arith)
    | inr h ↦ switched n (ground arith) (ground arith) (λ x. ground arith)
  ]

  if-Effect :
      {db : Database S} (b : Bool) (p q : Database S × Rc)
      → (b ≡ true → Effect db p.0)
      → (b ≡ false → Effect db q.0)
      → Effect db (if b then p else q).0
  if-Effect true p q f g = f refl
  if-Effect false p q f g = g refl

  ready-Effect : {db b : Database S} {t : ℕ} → Effect (record db { cur_txn = t }) b → Effect db b
  ready-Effect (quiet f l) = quiet f l
  ready-Effect (switched n h f l) = switched n h f l
  ready-Effect (alone f l) = alone f l
  ready-Effect (begun h f l) = begun h f l
  ready-Effect (closed h f l) = closed h f l

module _ {S V : Type 0} (e : Engine S V) where
  commit-Effect : (db : Database S) → Effect db (exec_commit e db).0
  unfolding exec_commit close_txn set_session
  commit-Effect db = elim (Bool-cases (session db).in_txn) [
    | inl h ↦
        closed h (ground arith)
          (λ x n. ground (arith, status-commit db.txnlog (session db).txn x n))
    | inr h ↦ quiet (ground arith) (λ x. ground arith)
  ]

  rollback-Effect : (db : Database S) → Effect db (exec_rollback e db).0
  unfolding exec_rollback close_txn set_session
  rollback-Effect db = elim (Bool-cases (session db).in_txn) [
    | inl h ↦
        closed h (ground arith) (λ x n. ground (arith, status-abort db.txnlog (session db).txn x n))
    | inr h ↦ quiet (ground arith) (λ x. ground arith)
  ]

  run-frame :
      (db : Database S) (st : Statement) (vals : Option V)
      → is_write st.type ≡ true
      → (run_stmt e db st vals).0 ≡ record db { storage = (run_stmt e db st vals).0.storage }
  unfolding run_stmt exec_vacuum exec_tables
  run-frame db st vals h = ground arith

  finish-status :
      (db : Database S) (txn x : ℕ) (rc : Rc)
      → x ≢ txn
      → txnlog_status (finish_autocommit e db txn rc).txnlog x ≡ txnlog_status db.txnlog x
  unfolding finish_autocommit
  finish-status db txn x ok n = status-commit db.txnlog txn x n
  finish-status db txn x fail n = status-abort db.txnlog txn x n

  attempt-status :
      (db : Database S) (st : Statement) (vals : Option V) (txn x : ℕ) (rc : Rc)
      → is_write st.type ≡ true
      → x ≢ txn
      → txnlog_status (attempt e st vals txn rc db).0.txnlog x ≡ txnlog_status db.txnlog x
  unfolding attempt
  attempt-status db st vals txn x fail h n = status-abort db.txnlog txn x n
  attempt-status db st vals txn x ok h n =
      let (done, rc) = run_stmt e db st vals in
      finish-status done txn x rc n
      ∙ ap (λ (d : Database S). txnlog_status d.txnlog x) (run-frame db st vals h)

  finish-frame :
      (db : Database S) (txn : ℕ) (rc : Rc) → frame (finish_autocommit e db txn rc) ≡ frame db
  unfolding finish_autocommit
  finish-frame db txn ok = refl
  finish-frame db txn fail = refl

  attempt-frame :
      (db : Database S) (st : Statement) (vals : Option V) (txn : ℕ) (rc : Rc)
      → is_write st.type ≡ true
      → frame (attempt e st vals txn rc db).0 ≡ frame db
  unfolding attempt
  attempt-frame db st vals txn fail h = refl
  attempt-frame db st vals txn ok h =
      let (done, rc) = run_stmt e db st vals in
      finish-frame done txn rc ∙ ap frame (run-frame db st vals h)

  autocommit-Effect :
      (db : Database S) (st : Statement) (vals : Option V)
      → is_write st.type ≡ true
      → Effect db (write_autocommit e db st vals).0
  unfolding write_autocommit
  autocommit-Effect db st vals h =
      let t = db.next_txn in
      let started = record db {
        next_txn = t + 1;
        txnlog = txnlog_begin db.txnlog t;
        cur_txn = t;
      } in
      let (locked, rc) = acquire_stmt_locks started st t in
      alone (attempt-frame locked st vals t rc h ∙ ap frame (acquire-frame started st t)) (λ x n.
        attempt-status locked st vals t x rc h n
        ∙ ap (λ (d : Database S). txnlog_status d.txnlog x) (acquire-frame started st t)
        ∙ status-begin db.txnlog t x n)

  in_txn-frame :
      (db : Database S) (st : Statement) (vals : Option V)
      → is_write st.type ≡ true
      → (frame (write_in_txn e db st vals).0 ≡ frame db)
        × ((write_in_txn e db st vals).0.txnlog ≡ db.txnlog)
  unfolding write_in_txn
  in_txn-frame db st vals h =
      let t = (session db).txn in
      let started = record db { cur_txn = t } in
      let locked = (acquire_stmt_locks started st t).0 in
      ground (arith, acquire-frame started st t, run-frame locked st vals h)

  vacuum-Effect :
      (db : Database S) (st : Statement) (vals : Option V) → Effect db (exec_vacuum e db st vals).0
  unfolding exec_vacuum exec_tables
  vacuum-Effect db st vals =
      if-Effect (any_open db.sessions db_max_sessions) (db, fail) (exec_tables e db st vals)
        (λ h. quiet refl (λ x. refl)) (λ h. quiet refl (λ x. refl))

  run_type-Effect :
      (db : Database S) (type : StmtType) (table : List ℕ) (n : ℕ) (vals : Option V)
      → Effect db (run_stmt e db (record { type = type; table = table; sess = n }) vals).0
  unfolding run_stmt exec_tables
  run_type-Effect db stmt_create table n vals = quiet refl (λ x. refl)
  run_type-Effect db stmt_create_index table n vals = quiet refl (λ x. refl)
  run_type-Effect db stmt_insert table n vals = quiet refl (λ x. refl)
  run_type-Effect db stmt_select table n vals = quiet refl (λ x. refl)
  run_type-Effect db stmt_delete table n vals = quiet refl (λ x. refl)
  run_type-Effect db stmt_update table n vals = quiet refl (λ x. refl)
  run_type-Effect db stmt_begin table n vals = begin-Effect db
  run_type-Effect db stmt_commit table n vals = commit-Effect db
  run_type-Effect db stmt_rollback table n vals = rollback-Effect db
  run_type-Effect db stmt_vacuum table n vals =
      vacuum-Effect db (record { type = stmt_vacuum; table = table; sess = n }) vals
  run_type-Effect db stmt_analyze table n vals = quiet refl (λ x. refl)
  run_type-Effect db stmt_session table n vals = session-Effect db n

  dispatch-Effect :
      (db : Database S) (st : Statement) (vals : Option V) → Effect db (dispatch e db st vals).0
  unfolding dispatch
  dispatch-Effect db st vals =
      let ready = record db { cur_txn = stmt_txn_of (session db) } in
      let auto = write_autocommit e db st vals in
      let inside = write_in_txn e db st vals in
      let alone_txn = not (session db).in_txn || is_create st.type in
      if-Effect (is_write st.type) (if alone_txn then auto else inside) (run_stmt e ready st vals)
        (λ w.
          if-Effect alone_txn auto inside (λ h. autocommit-Effect db st vals w)
            (λ h.
              let (f, l) = in_txn-frame db st vals w in
              quiet f (λ x. ap (λ (log : TxnLog). txnlog_status log x) l)))
        (λ w. ready-Effect (run_type-Effect ready st.type st.table st.sess vals))

  prepared-Effect :
      (db : Database S) (st : Statement) (o : Option V) → Effect db (prepared e db st o).0
  unfolding prepared
  prepared-Effect db st none = quiet refl (λ x. refl)
  prepared-Effect db st (some vals) = dispatch-Effect db st (some vals)

  -- Every statement has one of the effects.
  pub exec-Effect : (db : Database S) (sql : Option Statement) → Effect db (db_exec e db sql).0
  unfolding db_exec
  exec-Effect db none = quiet refl (λ x. refl)
  exec-Effect db (some st) =
      if-Effect (has_where st.type) (prepared e db st (e.prepare db st)) (dispatch e db st none)
        (λ h. prepared-Effect db st (e.prepare db st)) (λ h. dispatch-Effect db st none)
