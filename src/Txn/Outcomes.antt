-- ===== src/Txn/Outcomes.antt =====
-- src/db.c, src/mvcc.c: what a commit and a rollback do to the visibility of row versions.
use db_hobby.Base.{ℕ, ◌≡◌, ◌≢◌, ◌<◌, ◌≤◌, true, false, arith, some}
use db_hobby.Mvcc.{txn_max, in_log, is_committed, txnlog_status, txnlog_commit, txnlog_abort}
use db_hobby.Txn.{
  Database, Statement, Engine, db_max_sessions, session, set_session, row_visible,
  txn_committed_view, close_txn, rec_visible, stmt_session,
}
use db_hobby.Txn.Exec.{
  db_exec, exec_commit, exec_rollback, exec_session, dispatch, run_stmt, stmt_txn_of, has_where,
  prepared,
}

module _ {S V : Type 0} (e : Engine S V) where
  -- After a rollback of a transaction whose id is under the log's bound and not one of an earlier
  -- run, in the view of any session i and for any other id: no version that the transaction made is
  -- visible, and a version that it deleted is visible where it would be if it had not been deleted.
  pub rollback_undoes :
      (db : Database S) (i xmin xmax my_txn : ℕ)
      → (session db).in_txn ≡ true
      → (session db).txn < txn_max
      → db.committed_below ≤ (session db).txn
      → my_txn ≢ (session db).txn
      → (row_visible
            (record (exec_rollback e db).0 { cur_session = i })
            (session db).txn
            xmax
            my_txn
          ≡ false)
        × (row_visible
              (record (exec_rollback e db).0 { cur_session = i })
              xmin
              (session db).txn
              my_txn
            ≡ row_visible (record (exec_rollback e db).0 { cur_session = i }) xmin 0 my_txn)
  unfolding row_visible txn_committed_view exec_rollback close_txn set_session txnlog_status
      txnlog_abort
  rollback_undoes db i xmin xmax my_txn h m b n = ground arith

  -- After a commit, a session outside every transaction takes the transaction for committed: its id
  -- is a positive one under the log's bound.
  pub commit_shows :
      (db : Database S) (my_txn : ℕ)
      → (session db).in_txn ≡ true
      → 0 < (session db).txn
      → (session db).txn < txn_max
      → row_visible (exec_commit e db).0 (session db).txn 0 my_txn ≡ true
  unfolding row_visible txn_committed_view exec_commit close_txn set_session txnlog_status
      txnlog_commit in_log
  commit_shows db my_txn h z m = ground arith

  -- The commit of a transaction whose id reaches TXN_MAX is lost: no other transaction sees what
  -- it wrote.
  pub late_commit_lost :
      (db : Database S) (i my_txn : ℕ)
      → (session db).in_txn ≡ true
      → txn_max ≤ (session db).txn
      → db.committed_below ≤ (session db).txn
      → my_txn ≢ (session db).txn
      → row_visible (record (exec_commit e db).0 { cur_session = i }) (session db).txn 0 my_txn
        ≡ false
  unfolding row_visible txn_committed_view exec_commit close_txn set_session txnlog_status
      txnlog_commit in_log
  late_commit_lost db i my_txn h m b n = ground arith

  -- After `SESSION n` out of an open transaction that is not committed and whose id is not one of an
  -- earlier run, the current session is n and `cur_txn` is still that transaction. The next UPDATE,
  -- DELETE or SELECT runs `prepare_where` on that database, where a version that the transaction made
  -- and nobody deleted passes `rec_visible`, although to session n under any other id it is not
  -- visible.
  pub switch_keeps_txn :
      (db : Database S) (st st1 : Statement) (my_txn : ℕ)
      → st.type ≡ stmt_session
      → st.sess < db_max_sessions
      → (session db).in_txn ≡ true
      → db.committed_below ≤ (session db).txn
      → is_committed (txnlog_status db.txnlog (session db).txn) ≡ false
      → my_txn ≢ (session db).txn
      → has_where st1.type ≡ true
      → let switched = (db_exec e db (some st)).0 in
        (switched.cur_session ≡ st.sess)
        × (switched.cur_txn ≡ (session db).txn)
        × (db_exec e switched (some st1) ≡ prepared e switched st1 (e.prepare switched st1))
        × (rec_visible switched (session db).txn 0 ≡ true)
        × (row_visible switched (session db).txn 0 my_txn ≡ false)
  unfolding rec_visible row_visible txn_committed_view db_exec dispatch run_stmt exec_session
      stmt_txn_of
  switch_keeps_txn db st st1 my_txn t l h b c n w = ground arith
