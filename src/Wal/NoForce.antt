-- ===== src/Wal/NoForce.antt =====
-- src/wal.c: a commit does not force the data file, and recovery writes again from the log what
-- had not reached it.
use db_hobby.Base.{
  ℕ, ◌≤◌, ◌≡◌, refl, sym, ap, ◌∙◌, false, List, [], ◌∷◌, ◌++◌, ok, length, ltb, if◌then◌else◌,
  arith, suc, Bool-cases, inl, inr,
}
use db_hobby.Pager.{Image, Pager}
use db_hobby.Wal.{
  Wal, StagedPage, wal_commit, none_set, commit_apply, write_pages, wal_checkpoint_bytes,
}
use db_hobby.Wal.Recover.{wal_recover, cut_new}
use db_hobby.Wal.Format.{LogRecord, page_rec, commit_rec, begin_rec, undo_rec, encode, encode_all}
use db_hobby.Wal.Redo.{committed, pending, loser, LogFits, staged_page}
use db_hobby.Wal.Undo.{undo_writes, base_of}
use db_hobby.Wal.Replay.{redone, wal_recover-records}
use db_hobby.Wal.Writes.{page_recs, number_after, commit_bytes}
use db_hobby.Wal.Extend.{
  encode_all-append, committed-append_pages, pending-append_pages, LogFits-append_pages,
}
use db_hobby.Wal.Atomic.{Ready, settled_count}
use db_hobby.Wal.Commit.{commit-ok}
use db_hobby.Wal.Overlay.{
  written, is_written, write_pages-disk, written-append, written-not, written-agree,
}
use mathlib.Core.List.{append_assoc, append-nil}

-- The records of w's log after its commit.
abbrev pub with_commit : List LogRecord → Wal → List LogRecord
with_commit rs w =
    (rs ++ page_recs w.next_lsn w.staged) ++ commit_rec (number_after w.next_lsn w.staged) ∷ []

pub encode_all-with_commit :
    (rs : List LogRecord) (w : Wal)
    → encode_all rs ++ commit_bytes w.next_lsn w.staged ≡ encode_all (with_commit rs w)
unfolding encode_all
encode_all-with_commit rs w =
    let ps = page_recs w.next_lsn w.staged in
    let c = commit_rec (number_after w.next_lsn w.staged) in
    sym (append_assoc (encode_all rs) (encode_all ps) (encode c))
    ∙ (ap (λ b. b ++ encode c) (sym (encode_all-append rs ps))
        ∙ (ap (λ b. encode_all (rs ++ ps) ++ b) (sym (append-nil (encode c)))
            ∙ sym (encode_all-append (rs ++ ps) (c ∷ []))))

pub committed-commit :
    (pend : List StagedPage) (rs : List LogRecord) (lsn : ℕ)
    → committed pend (rs ++ commit_rec lsn ∷ []) ≡ committed pend rs ++ pending pend rs
unfolding committed pending
committed-commit pend [] lsn = append-nil pend
committed-commit pend (page_rec pid image l ∷ rs) lsn =
    committed-commit (pend ++ staged_page pid image ∷ []) rs lsn
committed-commit pend (commit_rec l ∷ rs) lsn =
    ap (λ b. pend ++ b) (committed-commit [] rs lsn)
    ∙ sym (append_assoc pend (committed [] rs) (pending [] rs))
committed-commit pend (begin_rec base l ∷ rs) lsn = committed-commit pend rs lsn
committed-commit pend (undo_rec pid before l ∷ rs) lsn = committed-commit pend rs lsn

pub pending-commit :
    (pend : List StagedPage) (rs : List LogRecord) (lsn : ℕ)
    → pending pend (rs ++ commit_rec lsn ∷ []) ≡ []
unfolding pending
pending-commit pend [] lsn = refl
pending-commit pend (page_rec pid image l ∷ rs) lsn =
    pending-commit (pend ++ staged_page pid image ∷ []) rs lsn
pending-commit pend (commit_rec l ∷ rs) lsn = pending-commit [] rs lsn
pending-commit pend (begin_rec base l ∷ rs) lsn = pending-commit pend rs lsn
pending-commit pend (undo_rec pid before l ∷ rs) lsn = pending-commit pend rs lsn

pub loser-commit : (l rs : List LogRecord) (lsn : ℕ) → loser l (rs ++ commit_rec lsn ∷ []) ≡ []
unfolding loser
loser-commit l [] lsn = refl
loser-commit l (page_rec pid image n ∷ rs) lsn = loser-commit l rs lsn
loser-commit l (commit_rec n ∷ rs) lsn = loser-commit (rs ++ commit_rec lsn ∷ []) rs lsn
loser-commit l (begin_rec base n ∷ rs) lsn = loser-commit l rs lsn
loser-commit l (undo_rec pid before n ∷ rs) lsn = loser-commit l rs lsn

pub LogFits-commit :
    (n : ℕ) (rs : List LogRecord) (lsn : ℕ) → LogFits n rs → LogFits n (rs ++ commit_rec lsn ∷ [])
LogFits-commit n [] lsn h = omega arith
LogFits-commit n (page_rec pid image l ∷ rs) lsn h =
    (h.0, h.1, h.2, LogFits-commit (suc n) rs lsn h.3)
LogFits-commit n (commit_rec l ∷ rs) lsn h = LogFits-commit 0 rs lsn h
LogFits-commit n (begin_rec base l ∷ rs) lsn h = (h.0, LogFits-commit n rs lsn h.1)
LogFits-commit n (undo_rec pid before l ∷ rs) lsn h = (h.0, h.1, LogFits-commit n rs lsn h.2)

pub committed-with_commit :
    (rs : List LogRecord) (w : Wal)
    → pending [] rs ≡ []
    → committed [] (with_commit rs w) ≡ committed [] rs ++ w.staged
committed-with_commit rs w h =
    committed-commit [] (rs ++ page_recs w.next_lsn w.staged) (number_after w.next_lsn w.staged)
    ∙ rw
        (
          committed-append_pages [] rs w.next_lsn w.staged,
          pending-append_pages [] rs w.next_lsn w.staged,
          h,
        )
        refl

-- The data file holds what the segments of the log say.
abbrev pub Reflects : List LogRecord → Pager → Type 0
Reflects rs d = (p : ℕ) → written (committed [] rs) p (d.disk p) ≡ d.disk p

-- Recovery of a log that ends in a commit.
pub recover_committed :
    (c : Wal) (rs : List LogRecord) (lsn : ℕ)
    → c.log ≡ encode_all (rs ++ commit_rec lsn ∷ [])
    → LogFits 0 (rs ++ commit_rec lsn ∷ [])
    → (wal_recover false c).data_file ≡ redone (rs ++ commit_rec lsn ∷ []) c.data_file
unfolding cut_new undo_writes base_of write_pages
recover_committed c rs lsn e h =
    let all = rs ++ commit_rec lsn ∷ [] in
    ap (λ (v : Wal). v.data_file)
      (wal_recover-records c all [] (e ∙ sym (append-nil (encode_all all))) h
        (rw (pending-commit [] rs lsn) (omega arith)))
    ∙ rw (loser-commit all rs lsn) refl

pub LogFits-with_commit :
    (rs : List LogRecord) (w : Wal) → Ready w rs → LogFits 0 (with_commit rs w)
LogFits-with_commit rs w r =
    let z = settled_count rs r.settled in
    let few = r.staged_few in
    LogFits-commit 0 (rs ++ page_recs w.next_lsn w.staged) (number_after w.next_lsn w.staged)
      (LogFits-append_pages 0 rs w.next_lsn w.staged r.fits r.staged_fits (omega arith))

-- The data file of a commit that returns 0.
pub commit-data_file :
    (w w1 : Wal)
    → wal_commit none_set w ≡ (w1, ok)
    → w1.data_file ≡ write_pages w.staged w.data_file
unfolding commit_apply
commit-data_file w w1 h = ap (λ (v : Wal). v.data_file) (commit-ok w w1 h)

pub commit-log :
    (w w1 : Wal)
    → wal_commit none_set w ≡ (w1, ok)
    → w1.log ≡ (
        if ltb wal_checkpoint_bytes (length (w.log ++ commit_bytes w.next_lsn w.staged))
        then []
        else w.log ++ commit_bytes w.next_lsn w.staged)
unfolding commit_apply
commit-log w w1 h = ap (λ (v : Wal). v.log) (commit-ok w w1 h)

commit-staged : (w w1 : Wal) → wal_commit none_set w ≡ (w1, ok) → w1.staged ≡ []
unfolding commit_apply
commit-staged w w1 h = ap (λ (v : Wal). v.staged) (commit-ok w w1 h)

written-twice :
    (c st : List StagedPage) (p : ℕ) (i : Image)
    → written c p i ≡ i
    → written (c ++ st) p (written st p i) ≡ written st p i
written-twice c st p i h =
    written-append c st p (written st p i)
    ∙ written-agree st p (written c p (written st p i)) i
        (λ e. ap (written c p) (written-not st p i e) ∙ h)

with_commit-Reflects :
    (w w1 : Wal) (rs : List LogRecord)
    → Ready w rs
    → Reflects rs w.data_file
    → wal_commit none_set w ≡ (w1, ok)
    → Reflects (with_commit rs w) w1.data_file
with_commit-Reflects w w1 rs r f h p =
    rw
      (
        committed-with_commit rs w r.settled,
        commit-data_file w w1 h,
        write_pages-disk w.staged w.data_file p,
      )
      (written-twice (committed [] rs) w.staged p (w.data_file.disk p) (f p))

Ready-log :
    (w1 : Wal) (rs1 : List LogRecord)
    → w1.staged ≡ []
    → w1.log ≡ encode_all rs1
    → LogFits 0 rs1
    → pending [] rs1 ≡ []
    → Ready w1 rs1
Ready-log w1 rs1 s e f p = record {
  whole = e;
  fits = f;
  settled = p;
  staged_fits = rw s (omega arith);
  staged_few = omega (arith, ap length s);
}

-- A commit that returns 0, with its checkpoint or without, leaves a log of whole segments that the
-- data file reflects, if it found one (Ready and Reflects).
pub commit-Reflects :
    (w w1 : Wal) (rs : List LogRecord)
    → Ready w rs
    → Reflects rs w.data_file
    → wal_commit none_set w ≡ (w1, ok)
    → (rs1 : List LogRecord) × Ready w1 rs1 × Reflects rs1 w1.data_file
unfolding encode_all pending committed
commit-Reflects w w1 rs r f h =
    let bytes = commit_bytes w.next_lsn w.staged in
    elim (Bool-cases (ltb wal_checkpoint_bytes (length (w.log ++ bytes)))) [
      | inl e ↦ (
        [],
        Ready-log w1 [] (commit-staged w w1 h) (commit-log w w1 h ∙ rw e refl) (omega arith) refl,
        λ p. refl,
      )
      | inr e ↦ (
        with_commit rs w,
        Ready-log w1 (with_commit rs w) (commit-staged w w1 h)
            (commit-log w w1 h ∙ rw e (ap (λ l. l ++ bytes) r.whole ∙ encode_all-with_commit rs w))
            (LogFits-with_commit rs w r)
            (pending-commit [] (rs ++ page_recs w.next_lsn w.staged)
              (number_after w.next_lsn w.staged)),
        with_commit-Reflects w w1 rs r f h,
      )
    ]

-- Where the log is whole records without a segment left open, the staged pages fit a record each
-- and are at most WAL_MAX_STAGED (Ready), and each page that the log names is on the disk as its last
-- committed image there (Reflects): after a commit that returns 0 and does not reach the
-- checkpoint, a crash may keep or lose any of the writes of the pages that the log names, and
-- recovery gives each page as the commit left it.
pub no_force :
    (w w1 : Wal) (rs : List LogRecord) (d : Pager)
    → Ready w rs
    → Reflects rs w.data_file
    → wal_commit none_set w ≡ (w1, ok)
    → length (w.log ++ commit_bytes w.next_lsn w.staged) ≤ wal_checkpoint_bytes
    → ((p : ℕ) → is_written (committed [] rs ++ w.staged) p ≡ false → d.disk p ≡ w.data_file.disk p)
    → (p : ℕ)
    → (wal_recover false (record w1 { data_file = d })).data_file.disk p ≡ w1.data_file.disk p
no_force w w1 rs d r f h small same p =
    let bytes = commit_bytes w.next_lsn w.staged in
    let whole : w1.log ≡ encode_all (with_commit rs w) =
      commit-log w w1 h
      ∙ (ground (arith, small) ∙ (ap (λ l. l ++ bytes) r.whole ∙ encode_all-with_commit rs w)) in
    ap (λ (q : Pager). q.disk p)
      (recover_committed (record w1 { data_file = d }) (rs ++ page_recs w.next_lsn w.staged)
        (number_after w.next_lsn w.staged) whole (LogFits-with_commit rs w r))
    ∙ (write_pages-disk (committed [] (with_commit rs w)) d p
        ∙ rw
            (
              committed-with_commit rs w r.settled,
              commit-data_file w w1 h,
              write_pages-disk w.staged w.data_file p,
            )
            (written-agree (committed [] rs ++ w.staged) p (d.disk p) (w.data_file.disk p) (same p)
              ∙ (written-append (committed [] rs) w.staged p (w.data_file.disk p)
                  ∙ ap (written w.staged p) (f p))))
