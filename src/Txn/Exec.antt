-- ===== src/Txn/Exec.antt =====
-- src/db.c: `db_exec`, from the parsed statement to the end of its transaction.
use db_hobby.Base.{
  ℕ, ◌+◌, Bool, true, false, ◌||◌, not, Option, none, some, List, Rc, ok, fail, if◌then◌else◌, leb,
  zero, suc, update,
}
use db_hobby.Lock.{LockMode, lock_x, lock_acquire, lock_release_all}
use db_hobby.Mvcc.{txnlog_begin, txnlog_commit, txnlog_abort}
use db_hobby.Txn.{
  DbSession, Database, Statement, StmtType, Engine, db_max_sessions, session, exec_begin, close_txn,
  stmt_create, stmt_create_index, stmt_insert, stmt_select, stmt_delete, stmt_update, stmt_begin,
  stmt_commit, stmt_rollback, stmt_vacuum, stmt_analyze, stmt_session,
}

abbrev pub is_write : StmtType → Bool
is_write stmt_create = true
is_write stmt_create_index = false
is_write stmt_insert = true
is_write stmt_select = false
is_write stmt_delete = true
is_write stmt_update = true
is_write stmt_begin = false
is_write stmt_commit = false
is_write stmt_rollback = false
is_write stmt_vacuum = true
is_write stmt_analyze = false
is_write stmt_session = false

abbrev pub is_create : StmtType → Bool
is_create stmt_create = true
is_create _ = false

-- The statements with a WHERE clause, which `prepare_where` reads.
abbrev pub has_where : StmtType → Bool
has_where stmt_select = true
has_where stmt_delete = true
has_where stmt_update = true
has_where _ = false

-- The statements that lock the table they write.
abbrev pub takes_lock : StmtType → Bool
takes_lock stmt_insert = true
takes_lock stmt_delete = true
takes_lock stmt_update = true
takes_lock _ = false

-- `sess->in_txn ? sess->txn : 0`
unfoldable pub stmt_txn_of : DbSession → ℕ
stmt_txn_of s = if s.in_txn then s.txn else 0

-- The loop of `exec_vacuum` over the first `n` sessions.
unfoldable pub any_open : (ℕ → DbSession) → ℕ → Bool
any_open sessions zero = false
any_open sessions (suc n) = any_open sessions n || (sessions n).in_txn

module _ {S : Type 0} where
  unfoldable pub lock_one : Database S → List ℕ → LockMode → ℕ → Database S × Rc
  lock_one db table mode txn =
      let (lm, rc) = lock_acquire db.lm txn table 0 mode in (record db { lm = lm }, rc)

  unfoldable pub acquire_stmt_locks : Database S → Statement → ℕ → Database S × Rc
  acquire_stmt_locks db st txn =
      if takes_lock st.type then lock_one db st.table lock_x txn else (db, ok)

  unfoldable pub exec_session : Database S → ℕ → Database S × Rc
  exec_session db n =
      if leb db_max_sessions n then (db, fail) else (record db { cur_session = n }, ok)

module _ {S V : Type 0} where
  unfoldable pub exec_commit : Engine S V → Database S → Database S × Rc
  exec_commit e db =
      let s = session db in
      if not s.in_txn
      then (db, fail)
      else (close_txn db (e.commit_tables db.storage s.txn) (txnlog_commit db.txnlog s.txn), ok)

  unfoldable pub exec_rollback : Engine S V → Database S → Database S × Rc
  exec_rollback e db =
      let s = session db in
      if not s.in_txn
      then (db, fail)
      else (close_txn db (e.abort_tables db.storage s.txn) (txnlog_abort db.txnlog s.txn), ok)

  -- The executors that reach the tables only.
  unfoldable pub exec_tables : Engine S V → Database S → Statement → Option V → Database S × Rc
  exec_tables e db st vals =
      let (storage, rc) = e.run db st vals in (record db { storage = storage }, rc)

  unfoldable pub exec_vacuum : Engine S V → Database S → Statement → Option V → Database S × Rc
  exec_vacuum e db st vals =
      if any_open db.sessions db_max_sessions then (db, fail) else exec_tables e db st vals

  unfoldable pub run_stmt : Engine S V → Database S → Statement → Option V → Database S × Rc
  run_stmt e db st vals = elim st.type [
    | stmt_begin ↦ exec_begin db
    | stmt_commit ↦ exec_commit e db
    | stmt_rollback ↦ exec_rollback e db
    | stmt_vacuum ↦ exec_vacuum e db st vals
    | stmt_session ↦ exec_session db st.sess
    | _ ↦ exec_tables e db st vals
  ]

  -- The end of a statement that is a transaction of its own.
  unfoldable pub finish_autocommit : Engine S V → Database S → ℕ → Rc → Database S
  finish_autocommit e db txn ok = record db {
    storage = e.commit_tables db.storage txn;
    txnlog = txnlog_commit db.txnlog txn;
    lm = lock_release_all db.lm txn;
    cur_txn = stmt_txn_of (session db);
  }
  finish_autocommit e db txn fail = record db {
    storage = e.abort_tables db.storage txn;
    txnlog = txnlog_abort db.txnlog txn;
    lm = lock_release_all db.lm txn;
    cur_txn = stmt_txn_of (session db);
  }

  -- After the locks: the statement and its end, or the end alone.
  unfoldable pub attempt : Engine S V → Statement → Option V → ℕ → Rc → Database S → Database S × Rc
  attempt e st vals txn fail db = (
    record db {
      txnlog = txnlog_abort db.txnlog txn;
      lm = lock_release_all db.lm txn;
      cur_txn = stmt_txn_of (session db);
    },
    fail,
  )
  attempt e st vals txn ok db =
      let (done, rc) = run_stmt e db st vals in (finish_autocommit e done txn rc, rc)

  -- A write of its own transaction.
  unfoldable pub write_autocommit : Engine S V → Database S → Statement → Option V → Database S × Rc
  write_autocommit e db st vals =
      let txn = db.next_txn in
      let started = record db {
        next_txn = txn + 1;
        txnlog = txnlog_begin db.txnlog txn;
        cur_txn = txn;
      } in
      let (locked, rc) = acquire_stmt_locks started st txn in attempt e st vals txn rc locked

  -- A write inside the session's transaction.
  unfoldable pub write_in_txn : Engine S V → Database S → Statement → Option V → Database S × Rc
  write_in_txn e db st vals =
      let txn = (session db).txn in
      let (locked, rc) = acquire_stmt_locks (record db { cur_txn = txn }) st txn in
      elim rc [
        | fail ↦ (record locked { cur_txn = stmt_txn_of (session locked) }, fail)
        | ok ↦ run_stmt e locked st vals
      ]

  unfoldable pub dispatch : Engine S V → Database S → Statement → Option V → Database S × Rc
  dispatch e db st vals =
      if is_write st.type
      then (if not (session db).in_txn || is_create st.type
          then write_autocommit e db st vals
          else write_in_txn e db st vals)
      else run_stmt e (record db { cur_txn = stmt_txn_of (session db) }) st vals

  -- After `prepare_where`.
  unfoldable pub prepared : Engine S V → Database S → Statement → Option V → Database S × Rc
  prepared e db st none = (db, fail)
  prepared e db st (some vals) = dispatch e db st (some vals)

  -- `sql` is what `sql_parse` makes of the text, or `none` where it fails.
  unfoldable pub db_exec : Engine S V → Database S → Option Statement → Database S × Rc
  db_exec e db none = (db, fail)
  db_exec e db (some st) =
      if has_where st.type then prepared e db st (e.prepare db st) else dispatch e db st none

  -- The loop of `db_close` over the first `n` sessions, before the files are closed.
  unfoldable pub close_sessions : Engine S V → ℕ → Database S → Database S
  close_sessions e zero db = db
  close_sessions e (suc n) db =
      let before = close_sessions e n db in
      let s = before.sessions n in
      if s.in_txn
      then record before {
        storage = e.abort_tables before.storage s.txn;
        txnlog = txnlog_abort before.txnlog s.txn;
        lm = lock_release_all before.lm s.txn;
        sessions = update before.sessions n (record s { in_txn = false });
      }
      else before
