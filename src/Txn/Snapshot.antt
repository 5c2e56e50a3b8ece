-- ===== src/Txn/Snapshot.antt =====
-- src/db.c: a transaction that a session's snapshot hides cannot be told from one in progress.
use db_hobby.Base.{
  ℕ, ◌≡◌, refl, ◌≢◌, ◌<◌, ◌≤◌, zero, suc, Bool, true, ◌||◌, List, [], ◌∷◌, ◌++◌, ◌⊎◌, inl, inr,
  arith, ◌==◌, ltb, any, Bool-cases,
}
use db_hobby.Mvcc.{TxnLog, txnlog_begin, txnlog_commit, txnlog_abort, txnlog_status}
use db_hobby.Txn.{DbSession, Database, snapshot_hides, txn_committed_view, open_others}

-- What the session `i` takes for committed.
abbrev pub seen : {S : Type 0} → Database S → ℕ → ℕ → Bool
seen db i txn = txn_committed_view (record db { cur_session = i }) txn

pub status-begin :
    (log : TxnLog) (t x : ℕ) → x ≢ t → txnlog_status (txnlog_begin log t) x ≡ txnlog_status log x
unfolding txnlog_status txnlog_begin
status-begin log t x h = ground arith

pub status-commit :
    (log : TxnLog) (t x : ℕ) → x ≢ t → txnlog_status (txnlog_commit log t) x ≡ txnlog_status log x
unfolding txnlog_status txnlog_commit
status-commit log t x h = ground arith

pub status-abort :
    (log : TxnLog) (t x : ℕ) → x ≢ t → txnlog_status (txnlog_abort log t) x ≡ txnlog_status log x
unfolding txnlog_status txnlog_abort
status-abort log t x h = ground arith

-- Two databases that differ, for a session in a transaction, in one status that its snapshot
-- hides, look alike to it.
pub seen-hidden :
    {S : Type 0} (a b : Database S) (i t x : ℕ)
    → a.sessions i ≡ b.sessions i
    → (b.sessions i).in_txn ≡ true
    → a.committed_below ≡ b.committed_below
    → snapshot_hides (b.sessions i) t ≡ true
    → (x ≢ t → txnlog_status a.txnlog x ≡ txnlog_status b.txnlog x)
    → seen a i x ≡ seen b i x
unfolding txn_committed_view
seen-hidden a b i t x hs hin hb hh hl = ground arith

pub hides-new : (s : DbSession) (t : ℕ) → s.snap_next ≤ t → snapshot_hides s t ≡ true
unfolding snapshot_hides
hides-new s t h = ground arith

pub hides-noted :
    (s : DbSession) (t : ℕ) → any (λ u. u == t) s.snap_inprog ≡ true → snapshot_hides s t ≡ true
unfolding snapshot_hides
hides-noted s t h = ground arith

any-append :
    (xs ys : List ℕ) (t : ℕ)
    → any (λ u. u == t) (xs ++ ys) ≡ (any (λ u. u == t) xs || any (λ u. u == t) ys)
any-append [] ys t = refl
any-append (x ∷ xs) ys t = ground (arith, any-append xs ys t)

lt_suc : (j n : ℕ) → j < suc n → (j ≡ n) ⊎ (j < n)
lt_suc j n h = elim (Bool-cases (ltb j n)) [
  | inl p ↦ inr (ground arith)
  | inr p ↦ inl (ground arith)
]

-- `exec_begin` notes every other session that is in a transaction.
pub open_others_complete :
    (sessions : ℕ → DbSession) (cur n j : ℕ)
    → j < n
    → j ≢ cur
    → (sessions j).in_txn ≡ true
    → any (λ u. u == (sessions j).txn) (open_others sessions cur n) ≡ true
unfolding open_others
open_others_complete sessions cur zero j l h o = absurd (omega arith)
open_others_complete sessions cur (suc n) j l h o =
    let before = open_others sessions cur n in
    let last = (sessions n).txn ∷ [] in
    let t = (sessions j).txn in
    elim (lt_suc j n l) [
      | inl e ↦ ground (arith, any-append before last t)
      | inr e ↦
          ground (arith, open_others_complete sessions cur n j e h o, any-append before last t)
    ]
