-- ===== src/Replica/InStep.antt =====
-- src/wal.c, src/replica.c: a replica beside a primary that commits.
use db_hobby.Base.{
  ℕ, suc, ◌+◌, ◌<◌, ◌≤◌, ◌≡◌, refl, sym, ap, ◌∙◌, List, [], ◌∷◌, ◌++◌, ok, some, length, arith,
  u64_mod, inl,
}
use db_hobby.Pager.{Pager}
use db_hobby.Wal.{
  Wal, StagedPage, wal_commit, none_set, commit_apply, write_pages, wal_checkpoint_bytes,
}
use db_hobby.Wal.Format.{LogRecord, commit_rec, encode, encode_all}
use db_hobby.Wal.Redo.{committed, loser, staged_page}
use db_hobby.Wal.Writes.{page_recs, number_after, next_number, commit_bytes}
use db_hobby.Wal.Extend.{LogFits-append_pages, encode_all-append}
use db_hobby.Wal.Atomic.{Ready}
use db_hobby.Wal.Commit.{commit-ok}
use db_hobby.Wal.NoForce.{commit-log, commit-data_file, LogFits-commit, loser-commit}
use db_hobby.Wal.Overlay.{written, write_pages-disk}
use db_hobby.Replica.{WalReplica, replica_apply}
use db_hobby.Replica.Follow.{Numbered, Old, last_lsn, commit_count}
use db_hobby.Replica.CatchUp.{HasRead, replica_apply-follows, replica_apply-Old}
use mathlib.Core.List.{append_assoc, append-nil}

-- The records of a commit.
abbrev pub commit_recs : Wal → List LogRecord
commit_recs w = page_recs w.next_lsn w.staged ++ commit_rec (number_after w.next_lsn w.staged) ∷ []

-- The replica has read the log to its end, the primary numbers from above what it has applied, and
-- each page is the same on both.
pub record InStep (r : WalReplica) (w : Wal) : Type 0 where
  pub position : r.apply_off ≡ length w.log
  pub older : r.applied_lsn < w.next_lsn
  pub alike : (p : ℕ) → r.data_file.disk p ≡ w.data_file.disk p

pub number_after-sum :
    (lsn : ℕ) (st : List StagedPage)
    → lsn + length st < u64_mod
    → number_after lsn st ≡ lsn + length st
unfolding number_after
number_after-sum lsn [] h = omega arith
number_after-sum lsn (s ∷ st) h =
    ap (λ (n : ℕ). number_after n st) (omega arith)
    ∙ (number_after-sum (suc lsn) st (omega arith) ∙ omega arith)

Numbered-pages :
    (n lsn m : ℕ) (st : List StagedPage)
    → n < m
    → m < u64_mod
    → Numbered n (page_recs lsn st ++ commit_rec m ∷ [])
unfolding page_recs
Numbered-pages n lsn m [] h b = (h, b, omega arith)
Numbered-pages n lsn m (s ∷ st) h b = Numbered-pages n (next_number lsn) m st h b

Old-pages :
    (n lsn m : ℕ) (st : List StagedPage)
    → m ≤ n
    → m < u64_mod
    → Old n (page_recs lsn st ++ commit_rec m ∷ [])
unfolding page_recs
Old-pages n lsn m [] h b = (h, b, omega arith)
Old-pages n lsn m (s ∷ st) h b = Old-pages n (next_number lsn) m st h b

last_lsn-pages :
    (n lsn m : ℕ) (st : List StagedPage) → last_lsn n (page_recs lsn st ++ commit_rec m ∷ []) ≡ m
unfolding page_recs last_lsn
last_lsn-pages n lsn m [] = refl
last_lsn-pages n lsn m (s ∷ st) = last_lsn-pages n (next_number lsn) m st

commit_count-pages :
    (lsn m : ℕ) (st : List StagedPage) → commit_count (page_recs lsn st ++ commit_rec m ∷ []) ≡ 1
unfolding page_recs commit_count
commit_count-pages lsn m [] = omega arith
commit_count-pages lsn m (s ∷ st) = commit_count-pages (next_number lsn) m st

committed-pages_commit :
    (pend : List StagedPage) (lsn m : ℕ) (st : List StagedPage)
    → committed pend (page_recs lsn st ++ commit_rec m ∷ []) ≡ pend ++ st
unfolding page_recs committed
committed-pages_commit pend lsn m [] = refl
committed-pages_commit pend lsn m (s ∷ st) =
    committed-pages_commit (pend ++ staged_page s.page_id s.image ∷ []) (next_number lsn) m st
    ∙ append_assoc pend (staged_page s.page_id s.image ∷ []) st

-- A log to which a commit has added its records, for a replica that has read the rest.
HasRead-commit :
    (r : WalReplica) (w w1 : Wal) (rs : List LogRecord)
    → Ready w rs
    → wal_commit none_set w ≡ (w1, ok)
    → length (w.log ++ commit_bytes w.next_lsn w.staged) ≤ wal_checkpoint_bytes
    → r.apply_off ≡ length w.log
    → HasRead r w1.log rs (commit_recs w) []
unfolding encode_all
HasRead-commit r w w1 rs y h small o =
    let few = y.staged_few in
    let m = number_after w.next_lsn w.staged in
    record {
      whole =
          commit-log w w1 h
          ∙ (ground (arith, small)
              ∙ (ap (λ l. l ++ commit_bytes w.next_lsn w.staged) y.whole
                  ∙ ap (λ l. encode_all rs ++ l)
                      (ap (λ l. encode_all (page_recs w.next_lsn w.staged) ++ l)
                          (sym (append-nil (encode (commit_rec m))))
                        ∙ (sym (
                              encode_all-append (page_recs w.next_lsn w.staged) (commit_rec m ∷ []))
                            ∙ sym (append-nil (encode_all (commit_recs w)))))));
      position = o ∙ ap length y.whole;
      fits =
          LogFits-commit 0 (page_recs w.next_lsn w.staged) m (
            LogFits-append_pages 0 [] w.next_lsn w.staged (omega arith) y.staged_fits
              (omega arith));
      cut = inl (omega arith);
    }

-- A commit is on the replica after the next call: it applies that one commit, and is again in step
-- with the primary. The commit returns 0 and does not reach the checkpoint, and the numbers do not
-- wrap around.
pub replica_apply-InStep :
    (r : WalReplica) (w w1 : Wal) (rs : List LogRecord)
    → InStep r w
    → Ready w rs
    → wal_commit none_set w ≡ (w1, ok)
    → length (w.log ++ commit_bytes w.next_lsn w.staged) ≤ wal_checkpoint_bytes
    → w.next_lsn + length w.staged + 1 < u64_mod
    → ((replica_apply r w1.log).1 ≡ some 1) × InStep (replica_apply r w1.log).0 w1
unfolding commit_apply encode_all
replica_apply-InStep r w w1 rs i y h small b =
    let m = number_after w.next_lsn w.staged in
    let sum = number_after-sum w.next_lsn w.staged (omega arith) in
    let old = i.older in
    let a =
      replica_apply-follows r w1.log rs (commit_recs w) []
        (HasRead-commit r w w1 rs y h small i.position)
        (Numbered-pages r.applied_lsn w.next_lsn m w.staged (omega arith) (omega arith)) in
    let count : w1.next_lsn ≡ next_number m = ap (λ (v : Wal). v.next_lsn) (commit-ok w w1 h) in
    let none_left : loser (commit_recs w) (commit_recs w) ≡ [] =
      loser-commit (commit_recs w) (page_recs w.next_lsn w.staged) m in
    (
      a.0 ∙ ap some (commit_count-pages w.next_lsn m w.staged),
      record {
        position =
            omega arith
            ∙ (ap (λ l. (replica_apply r w1.log).0.apply_off + length (encode_all l ++ []))
                  (sym none_left)
                ∙ a.3);
        older =
            let last : (replica_apply r w1.log).0.applied_lsn ≡ m =
              a.2 ∙ last_lsn-pages r.applied_lsn w.next_lsn m w.staged in
            omega arith;
        alike = λ p.
            ap (λ (d : Pager). d.disk p) (a.1)
            ∙ (ap (λ l. (write_pages l r.data_file).disk p)
                  (committed-pages_commit [] w.next_lsn m w.staged)
                ∙ (write_pages-disk w.staged r.data_file p
                    ∙ (ap (written w.staged p) (i.alike p)
                        ∙ (sym (write_pages-disk w.staged w.data_file p)
                            ∙ sym (ap (λ (d : Pager). d.disk p) (commit-data_file w w1 h))))));
      },
    )

-- A commit that the primary gives a number that the replica has passed never reaches the replica: the
-- next call changes no page of it, and leaves the position at the end of the log. A primary that is
-- opened again numbers from 1.
pub low_numbers_skipped :
    (r : WalReplica) (w w1 : Wal) (rs : List LogRecord)
    → r.apply_off ≡ length w.log
    → Ready w rs
    → wal_commit none_set w ≡ (w1, ok)
    → length (w.log ++ commit_bytes w.next_lsn w.staged) ≤ wal_checkpoint_bytes
    → w.next_lsn + length w.staged ≤ r.applied_lsn
    → r.applied_lsn < u64_mod
    → ((replica_apply r w1.log).0.data_file ≡ r.data_file)
      × ((replica_apply r w1.log).0.apply_off ≡ length w1.log)
unfolding encode_all
low_numbers_skipped r w w1 rs o y h small low b =
    let m = number_after w.next_lsn w.staged in
    let sum = number_after-sum w.next_lsn w.staged (omega arith) in
    let a =
      replica_apply-Old r w1.log rs (commit_recs w) [] (HasRead-commit r w w1 rs y h small o)
        (Old-pages r.applied_lsn w.next_lsn m w.staged (omega arith) (omega arith)) in
    let none_left : loser (commit_recs w) (commit_recs w) ≡ [] =
      loser-commit (commit_recs w) (page_recs w.next_lsn w.staged) m in
    (
      a.1,
      omega arith
          ∙ (ap (λ l. (replica_apply r w1.log).0.apply_off + length (encode_all l ++ []))
                (sym none_left)
              ∙ a.2),
    )
