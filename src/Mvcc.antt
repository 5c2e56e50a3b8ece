-- ===== src/Mvcc.antt =====
-- src/mvcc.h, src/mvcc.c: the transaction status log. A transaction id is an `int` that is not
-- negative; a negative one takes the branch that 0 takes in every function here.
use db_hobby.Base.{ℕ, Bool, true, false, ◌&&◌, not, ◌==◌, ltb, if◌then◌else◌, update}

pub data TxnStatus : Type 0 where
  txn_inprogress txn_committed txn_aborted : TxnStatus

abbrev pub is_committed : TxnStatus → Bool
is_committed txn_inprogress = false
is_committed txn_committed = true
is_committed txn_aborted = false

abbrev pub txn_max : ℕ
txn_max = 65536

-- `status[TXN_MAX]`, whose indices the functions keep in range
abbrev pub TxnLog : Type 0
TxnLog = ℕ → TxnStatus

unfoldable pub txnlog_init : TxnLog
txnlog_init txn = txn_inprogress

unfoldable pub in_log : ℕ → Bool
in_log txn = ltb 0 txn && ltb txn txn_max

unfoldable pub txnlog_begin : TxnLog → ℕ → TxnLog
txnlog_begin log txn = if in_log txn then update log txn txn_inprogress else log

unfoldable pub txnlog_commit : TxnLog → ℕ → TxnLog
txnlog_commit log txn = if in_log txn then update log txn txn_committed else log

unfoldable pub txnlog_abort : TxnLog → ℕ → TxnLog
txnlog_abort log txn = if in_log txn then update log txn txn_aborted else log

unfoldable pub txnlog_status : TxnLog → ℕ → TxnStatus
txnlog_status log txn = if in_log txn then log txn else txn_inprogress

unfoldable pub mvcc_visible : TxnLog → ℕ → ℕ → Bool
mvcc_visible log xmin xmax =
    if not (is_committed (txnlog_status log xmin))
    then false
    else if not (xmax == 0) && is_committed (txnlog_status log xmax)
    then false
    else true
