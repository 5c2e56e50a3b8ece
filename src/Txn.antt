-- ===== src/Txn.antt =====
-- src/db.h, src/db.c: sessions, transactions and the snapshots that rows are seen through. The
-- storage below, with the tables and the executors that read and write it, is an `Engine`.
pub mod Exec
pub mod Snapshot
pub mod Isolation
pub mod Repeatable
pub mod Outcomes
use db_hobby.Base.{
  ℕ, zero, suc, ◌+◌, Bool, true, false, ◌&&◌, ◌||◌, not, Option, none, some, List, [], ◌∷◌, ◌++◌,
  Rc, ok, fail, if◌then◌else◌, ◌==◌, leb, ltb, any, update,
}
use db_hobby.Lock.{LockManager, lock_init, lock_release_all}
use db_hobby.Mvcc.{
  TxnLog, is_committed, txnlog_init, txnlog_begin, txnlog_commit, txnlog_abort, txnlog_status,
}

abbrev pub db_max_sessions : ℕ
db_max_sessions = 8

pub record DbSession : Type 0 where
  pub in_txn : Bool
  pub txn : ℕ
  pub snap_next : ℕ
  pub snap_inprog : List ℕ

-- What `Database` holds of transactions; `storage` stands for the tables and their files.
pub record Database (S : Type 0) : Type 0 where
  pub storage : S
  pub sessions : ℕ → DbSession
  pub cur_session : ℕ
  pub lm : LockManager
  pub cur_txn : ℕ
  pub next_txn : ℕ
  pub committed_below : ℕ
  pub txnlog : TxnLog

abbrev pub no_session : DbSession
no_session = record { in_txn = false; txn = 0; snap_next = 0; snap_inprog = [] }

-- `snap_next` and the loop over `snap_inprog`
unfoldable pub snapshot_hides : DbSession → ℕ → Bool
snapshot_hides s txn = leb s.snap_next txn || any (λ t. t == txn) s.snap_inprog

-- The loop of `exec_begin` over the first `n` sessions.
unfoldable pub open_others : (ℕ → DbSession) → ℕ → ℕ → List ℕ
open_others sessions cur zero = []
open_others sessions cur (suc n) =
    let before = open_others sessions cur n in
    if not (n == cur) && (sessions n).in_txn then before ++ (sessions n).txn ∷ [] else before

module _ {S : Type 0} where
  -- `db_open`; an existing catalog's `next_txn` is `saved`, and 1 stands for a new file.
  unfoldable pub db_open : S → ℕ → Database S
  db_open storage saved =
      let next = if ltb 1 saved then saved else 1 in
      record {
        storage = storage;
        sessions = λ i. no_session;
        cur_session = 0;
        lm = lock_init;
        cur_txn = 0;
        next_txn = next;
        committed_below = next;
        txnlog = txnlog_init;
      }

  abbrev pub session : Database S → DbSession
  session db = db.sessions db.cur_session

  unfoldable pub txn_committed_view : Database S → ℕ → Bool
  txn_committed_view db txn =
      if txn == 0
      then false
      else if ltb txn db.committed_below
      then true
      else if not (is_committed (txnlog_status db.txnlog txn))
      then false
      else if (session db).in_txn && snapshot_hides (session db) txn
      then false
      else true

  unfoldable pub row_visible : Database S → ℕ → ℕ → ℕ → Bool
  row_visible db xmin xmax my_txn =
      if not (xmin == my_txn || txn_committed_view db xmin)
      then false
      else if not (xmax == 0) && (xmax == my_txn || txn_committed_view db xmax)
      then false
      else true

  -- `rec_visible`, given the record's header
  unfoldable pub rec_visible : Database S → ℕ → ℕ → Bool
  rec_visible db xmin xmax = row_visible db xmin xmax db.cur_txn

  unfoldable pub set_session : Database S → DbSession → Database S
  set_session db s = record db { sessions = update db.sessions db.cur_session s }

  unfoldable pub exec_begin : Database S → Database S × Rc
  exec_begin db = if (session db).in_txn then (db, fail) else (
    record (set_session db (record {
      in_txn = true;
      txn = db.next_txn;
      snap_next = db.next_txn + 1;
      snap_inprog = open_others db.sessions db.cur_session db_max_sessions;
    })) {
      next_txn = db.next_txn + 1;
      cur_txn = db.next_txn;
      txnlog = txnlog_begin db.txnlog db.next_txn;
    },
    ok,
  )

  -- What COMMIT and ROLLBACK do alike when the log and the tables are settled.
  unfoldable pub close_txn : Database S → S → TxnLog → Database S
  close_txn db storage log = record (set_session db (record (session db) { in_txn = false })) {
    storage = storage;
    txnlog = log;
    lm = lock_release_all db.lm (session db).txn;
    cur_txn = 0;
  }

pub data StmtType : Type 0 where
  stmt_create stmt_create_index stmt_insert stmt_select stmt_delete stmt_update : StmtType
  stmt_begin stmt_commit stmt_rollback stmt_vacuum stmt_analyze stmt_session : StmtType

-- A parsed statement: the table it names, and the number of `SESSION n`.
pub record Statement : Type 0 where
  pub type : StmtType
  pub table : List ℕ
  pub sess : ℕ

-- The storage engine: `txn_commit_tables`, `txn_abort_tables`, `prepare_where` (the values that
-- the IN-subqueries select, or its failure) and the `exec_*` functions that read the database and
-- write tables.
pub record Engine (S V : Type 0) : Type 0 where
  pub commit_tables : S → ℕ → S
  pub abort_tables : S → ℕ → S
  pub prepare : Database S → Statement → Option V
  pub run : Database S → Statement → Option V → S × Rc
