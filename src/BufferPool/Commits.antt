-- ===== src/BufferPool/Commits.antt =====
-- src/db.c, src/bufpool.c, src/wal.c: commits of transactions of which pages have been stolen.
use db_hobby.Base.{
  ℕ, zero, suc, ◌<◌, ◌≤◌, ◌≡◌, ◌≢◌, inl, inr, refl, sym, ap, ◌∙◌, true, false, List, [], ◌++◌, some,
  none, Option, Rc, ok, length, Bool-cases, arith,
}
use db_hobby.Pager.{Pager}
use db_hobby.Wal.{Wal, wal_begin, wal_commit, none_set, spilled_contains}
use db_hobby.Wal.Recover.{wal_open}
use db_hobby.Wal.Format.{LogRecord}
use db_hobby.Wal.Redo.{LogFits, loser, committed, pending}
use db_hobby.Wal.Undo.{undo_writes}
use db_hobby.Wal.Atomic.{Ready}
use db_hobby.Wal.NoForce.{Reflects}
use db_hobby.Wal.Overlay.{is_written, written-not}
use db_hobby.Wal.Steal.{Stealing}
use db_hobby.Wal.Reopen.{wal_open-restores, LogFits-append_undo, pending-append_undo}
use db_hobby.Wal.Lost.{unstaged_reverts}
use db_hobby.BufferPool.Staging.{SparesFrame, Spared, StagedBelow, stage_below-Below}
use db_hobby.BufferPool.{
  BufferPool, is_dirty_frame, stage_next, stage_below, bufpool_flush_cb, commit_staged,
  wal_flush_commit,
}

stage_below-clean :
    (n : ℕ) (bp : BufferPool)
    → ((i : ℕ) → i < n → is_dirty_frame (bp.frames i) ≡ false)
    → stage_below n bp ≡ (bp, some 0)
unfolding stage_below stage_next
stage_below-clean zero bp h = refl
stage_below-clean (suc n) bp h =
    rw (stage_below-clean n bp (λ i b. h i (omega arith))) (rw (h n (omega arith)) refl)

wal_open-begin : (w : Wal) → wal_open false (wal_begin w) ≡ wal_open false w
unfolding wal_open wal_begin
wal_open-begin w = refl

wal_begin-staged : (w : Wal) → (wal_begin w).staged ≡ []
unfolding wal_begin
wal_begin-staged w = refl

wal_begin-log : (w : Wal) → (wal_begin w).log ≡ w.log
unfolding wal_begin
wal_begin-log w = refl

commit_staged-ok :
    (bp bp1 : BufferPool) (m : ℕ)
    → 0 < m
    → commit_staged (bp, some m) ≡ (bp1, ok)
    → wal_commit none_set bp.store ≡ (bp1.store, ok)
unfolding commit_staged
commit_staged-ok bp bp1 zero b e = absurd (omega arith)
commit_staged-ok bp bp1 (suc m) b e = ap (λ (x : BufferPool × Rc). (x.0.store, x.1)) e

flush_cases :
    (q i : ℕ) (bp bp1 : BufferPool) (r : BufferPool × Option ℕ)
    → i < bp.num_frames
    → is_dirty_frame (bp.frames i) ≡ true
    → ((bp2 : BufferPool) (m : ℕ) → r ≡ (bp2, some m) → StagedBelow q bp.num_frames bp bp2 m)
    → commit_staged r ≡ (bp1, ok)
    → (w : Wal) × Spared q bp.store w × (wal_commit none_set w ≡ (bp1.store, ok))
unfolding commit_staged
flush_cases q i bp bp1 (bp2, none) l t k e = absurd (cc e)
flush_cases q i bp bp1 (bp2, some m) l t k e =
    let s = k bp2 m refl in (bp2.store, s.log, commit_staged-ok bp2 bp1 m (s.counted i l t) e)

-- A commit that returns 0, of a pool with a dirty frame: the frames are staged and committed.
flush_commits :
    (q i : ℕ) (bp bp1 : BufferPool)
    → bp.store.staged ≡ []
    → ((j : ℕ) → j < bp.num_frames → SparesFrame q (bp.frames j))
    → i < bp.num_frames
    → is_dirty_frame (bp.frames i) ≡ true
    → commit_staged (stage_below bp.num_frames bp) ≡ (bp1, ok)
    → (w : Wal) × Spared q bp.store w × (wal_commit none_set w ≡ (bp1.store, ok))
flush_commits q i bp bp1 none_staged k l t e =
    flush_cases q i bp bp1 (stage_below bp.num_frames bp) l t
      (λ bp2 m h. stage_below-Below q bp.num_frames m bp bp2 none_staged k h) e

wal_begin-data_file : (w : Wal) → (wal_begin w).data_file ≡ w.data_file
unfolding wal_begin
wal_begin-data_file w = refl

-- Where every dirty page of a transaction has been stolen, so that no frame of the pool is dirty, and
-- the log of before it is whole closed segments that the data file d of before it reflected, and the
-- file still has its pages: the commit returns 0, leaving the data file and the log as they are, and
-- the next time the log is opened, every page of before the transaction has its image of before it.
pub stolen_commit_undone :
    (bp : BufferPool) (rs us : List LogRecord) (d : Pager)
    → Stealing bp.store rs us d
    → bp.store.stole ≡ true
    → ((i : ℕ) → i < bp.num_frames → is_dirty_frame (bp.frames i) ≡ false)
    → LogFits 0 rs
    → loser rs rs ≡ []
    → Reflects rs d
    → bp.store.base_pages ≤ bp.store.data_file.file_pages
    → ((wal_flush_commit bp).1 ≡ ok)
      × ((wal_flush_commit bp).0.store.data_file ≡ bp.store.data_file)
      × ((wal_flush_commit bp).0.store.log ≡ bp.store.log)
      × ((p : ℕ)
          → p < d.num_pages
          → (wal_open false (wal_flush_commit bp).0.store).data_file.disk p ≡ d.disk p)
unfolding wal_flush_commit bufpool_flush_cb commit_staged
stolen_commit_undone bp rs us d s t c h l f m =
    let begun = record bp { store = wal_begin bp.store } in
    let flushed = stage_below-clean bp.num_frames begun c in
    rw flushed (
      refl,
      wal_begin-data_file bp.store,
      wal_begin-log bp.store,
      λ p b.
          ap (λ (w : Wal). w.data_file.disk p) (wal_open-begin bp.store)
          ∙ (wal_open-restores bp.store rs us d s t h l f m).0 p b,
    )

-- The log with which a commit of staged pages goes on, after the dirty frames are staged.
begun_Ready :
    (q : ℕ) (w w1 : Wal) (rs us : List LogRecord) (d : Pager)
    → Stealing w rs us d
    → LogFits 0 rs
    → pending [] rs ≡ []
    → Spared q (wal_begin w) w1
    → Ready w1 (rs ++ us)
unfolding wal_begin
begun_Ready q w w1 rs us d s h p k = record {
  whole = ap (λ (v : Wal). v.log) k.only ∙ s.whole;
  fits = LogFits-append_undo 0 rs us h s.records;
  settled = pending-append_undo [] rs us s.records ∙ p;
  staged_fits = k.spares.0;
  staged_few = k.few;
}

-- A page on the disk that differs from before the transaction has been stolen.
changed_stolen :
    (w : Wal) (rs us : List LogRecord) (d : Pager) (q : ℕ)
    → Stealing w rs us d
    → q < d.num_pages
    → w.data_file.disk q ≢ d.disk q
    → spilled_contains w q ≡ true
changed_stolen w rs us d q s b n = elim (Bool-cases (spilled_contains w q)) [
  | inl t ↦ t
  | inr t ↦
      let base = s.base in
      let inside : q < w.base_pages = omega arith in
      absurd (
        n (
          sym
            (written-not (undo_writes us) q (w.data_file.disk q) (sym (s.remembered q inside) ∙ t))
          ∙ s.restorable q inside))
]

-- A transaction has put a new image of page q on the disk, and an earlier commit in the log names q.
-- The log of before the transaction is whole segments, none left open, that the data file d of
-- before it reflected; some frame is dirty, and every dirty frame holds another page than q, which
-- fits a record. Then q was stolen, and where `wal_flush_commit` returns 0 and no checkpoint empties
-- the log, the new image of q stays on the disk, and the next time the log is opened q has its image
-- of before the transaction again.
pub stolen_update_lost :
    (bp bp1 : BufferPool) (rs us : List LogRecord) (d : Pager) (q i : ℕ)
    → Stealing bp.store rs us d
    → LogFits 0 rs
    → pending [] rs ≡ []
    → Reflects rs d
    → q < d.num_pages
    → bp.store.data_file.disk q ≢ d.disk q
    → is_written (committed [] rs) q ≡ true
    → i < bp.num_frames
    → is_dirty_frame (bp.frames i) ≡ true
    → ((j : ℕ) → j < bp.num_frames → SparesFrame q (bp.frames j))
    → wal_flush_commit bp ≡ (bp1, ok)
    → 0 < length bp1.store.log
    → (spilled_contains bp.store q ≡ true)
      × (bp1.store.data_file.disk q ≡ bp.store.data_file.disk q)
      × ((wal_open false bp1.store).data_file.disk q ≡ d.disk q)
unfolding wal_flush_commit bufpool_flush_cb
stolen_update_lost bp bp1 rs us d q i s h p f b n c l t k e long =
    let begun = record bp { store = wal_begin bp.store } in
    let (w, spared, commits) = flush_commits q i begun bp1 (wal_begin-staged bp.store) k l t e in
    let ready = begun_Ready q bp.store w rs us d s h p spared in
    let lost =
      unstaged_reverts w bp1.store rs us d q s.records ready f c spared.spares.1 commits long in
    (
      changed_stolen bp.store rs us d q s b n,
      lost.0
          ∙ ap (λ (v : Wal). v.data_file.disk q) spared.only
          ∙ ap (λ (x : Pager). x.disk q) (wal_begin-data_file bp.store),
      lost.1,
    )
