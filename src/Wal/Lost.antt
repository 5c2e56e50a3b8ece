-- ===== src/Wal/Lost.antt =====
-- src/wal.c: committed work that the next opening of the log does not bring back.
use db_hobby.Base.{
  ℕ, ◌<◌, ◌≡◌, refl, sym, ap, ◌∙◌, true, false, List, [], ◌∷◌, ◌++◌, ok, length, arith, ltb,
  Bool-cases, inl, inr,
}
use db_hobby.Pager.{Image, Pager, pager_open, pager_write, pager_allocate}
use db_hobby.Wal.{Wal, wal_commit, none_set, wal_checkpoint_bytes}
use db_hobby.Wal.Recover.{wal_open}
use db_hobby.Wal.Format.{LogRecord, commit_rec, encode_all}
use db_hobby.Wal.Redo.{committed, LogFits}
use db_hobby.Wal.Writes.{page_recs, number_after, commit_bytes}
use db_hobby.Wal.Replay.{redone}
use db_hobby.Wal.Atomic.{Ready}
use db_hobby.Wal.NoForce.{
  Reflects, with_commit, recover_committed, LogFits-with_commit, commit-log, commit-data_file,
  committed-with_commit, encode_all-with_commit,
}
use db_hobby.Wal.Overlay.{
  written, is_written, write_pages-disk, written-append, written-not, written-is,
}
use db_hobby.Wal.Rollback.{write_pages-num_pages}
use db_hobby.Wal.Steal.{UndoOnly}
use db_hobby.Wal.Reopen.{committed-append_undo}

-- A log as `wal_open` sets it up, before it recovers.
abbrev reset : Wal → Wal
reset w = record w {
  data_file = pager_open w.data_file;
  staged = [];
  txn_active = false;
  stole = false;
  base_pages = 0;
  spilled = [];
  next_lsn = 1;
  flushed_lsn = 0;
  txn_log_start = 0;
}

wal_open-committed :
    (w : Wal) (rs : List LogRecord) (lsn : ℕ)
    → w.log ≡ encode_all (rs ++ commit_rec lsn ∷ [])
    → LogFits 0 (rs ++ commit_rec lsn ∷ [])
    → (wal_open false w).data_file ≡ redone (rs ++ commit_rec lsn ∷ []) (pager_open w.data_file)
unfolding wal_open
wal_open-committed w rs lsn e h = recover_committed (reset w) rs lsn e h

-- What opening the log shows of a page after a commit that returned 0 and kept the log.
open-commit :
    (w w1 : Wal) (rs : List LogRecord) (p : ℕ)
    → Ready w rs
    → wal_commit none_set w ≡ (w1, ok)
    → 0 < length w1.log
    → (wal_open false w1).data_file.disk p
      ≡ written (committed [] rs ++ w.staged) p (w1.data_file.disk p)
unfolding pager_open
open-commit w w1 rs p r h long =
    let bytes = commit_bytes w.next_lsn w.staged in
    let log = commit-log w w1 h in
    let whole : w1.log ≡ encode_all (with_commit rs w) =
      elim (Bool-cases (ltb wal_checkpoint_bytes (length (w.log ++ bytes)))) [
        | inl e ↦ let gone : w1.log ≡ [] = log ∙ rw e refl in absurd (omega (arith, ap length gone))
        | inr e ↦ log ∙ rw e (ap (λ l. l ++ bytes) r.whole ∙ encode_all-with_commit rs w)
      ] in
    ap (λ (q : Pager). q.disk p)
      (wal_open-committed w1 (rs ++ page_recs w.next_lsn w.staged)
        (number_after w.next_lsn w.staged) whole (LogFits-with_commit rs w r))
    ∙ (write_pages-disk (committed [] (with_commit rs w)) (pager_open w1.data_file) p
        ∙ ap (λ l. written l p (w1.data_file.disk p)) (committed-with_commit rs w r.settled))

-- A page q that an earlier commit in the log names, and that this commit does not stage, over a log
-- that ends in before-images.
pub unstaged_reverts :
    (w w1 : Wal) (rs us : List LogRecord) (d : Pager) (q : ℕ)
    → UndoOnly us
    → Ready w (rs ++ us)
    → Reflects rs d
    → is_written (committed [] rs) q ≡ true
    → is_written w.staged q ≡ false
    → wal_commit none_set w ≡ (w1, ok)
    → 0 < length w1.log
    → (w1.data_file.disk q ≡ w.data_file.disk q) × ((wal_open false w1).data_file.disk q ≡ d.disk q)
unstaged_reverts w w1 rs us d q s r f c n h long = (
  ap (λ (v : Pager). v.disk q) (commit-data_file w w1 h)
      ∙ (write_pages-disk w.staged w.data_file q ∙ written-not w.staged q (w.data_file.disk q) n),
  open-commit w w1 (rs ++ us) q r h long
      ∙ (ap (λ l. written (l ++ w.staged) q (w1.data_file.disk q))
            (committed-append_undo [] rs us s)
          ∙ (written-append (committed [] rs) w.staged q (w1.data_file.disk q)
              ∙ (written-not w.staged q (written (committed [] rs) q (w1.data_file.disk q)) n
                  ∙ (written-is (committed [] rs) q (w1.data_file.disk q) (d.disk q) c ∙ f q)))),
)

pager_allocate-id :
    (d : Pager) (zero_page : Image)
    → ((pager_allocate d zero_page).1 ≡ d.num_pages)
      × ((pager_allocate d zero_page).0.disk d.num_pages ≡ zero_page)
unfolding pager_allocate pager_write
pager_allocate-id d zero_page = (refl, ground arith)

-- The file has lost its last page, which a commit in the log names: opening the log writes the page
-- again, and leaves a page count without it, so that the next page to be allocated is that one, and
-- it is cleared.
pub stale_page_count :
    (w : Wal) (rs : List LogRecord) (lsn : ℕ) (zero_page : Image)
    → w.log ≡ encode_all (rs ++ commit_rec lsn ∷ [])
    → LogFits 0 (rs ++ commit_rec lsn ∷ [])
    → is_written (committed [] (rs ++ commit_rec lsn ∷ [])) w.data_file.file_pages ≡ true
    → ((wal_open false w).data_file.disk w.data_file.file_pages
        ≡ written (committed [] (rs ++ commit_rec lsn ∷ [])) w.data_file.file_pages [])
      × ((pager_allocate (wal_open false w).data_file zero_page).1 ≡ w.data_file.file_pages)
      × ((pager_allocate (wal_open false w).data_file zero_page).0.disk w.data_file.file_pages
          ≡ zero_page)
unfolding pager_open
stale_page_count w rs lsn zero_page e h c =
    let q = w.data_file.file_pages in
    let ws = committed [] (rs ++ commit_rec lsn ∷ []) in
    let d = redone (rs ++ commit_rec lsn ∷ []) (pager_open w.data_file) in
    let opened = wal_open-committed w rs lsn e h in
    let count : d.num_pages ≡ q = write_pages-num_pages ws (pager_open w.data_file) in
    let fresh = pager_allocate-id d zero_page in
    rw opened (
      write_pages-disk ws (pager_open w.data_file) q ∙ written-is ws q (w.data_file.disk q) [] c,
      fresh.0 ∙ count,
      ap (λ (p : ℕ). (pager_allocate d zero_page).0.disk p) (sym count) ∙ fresh.1,
    )
