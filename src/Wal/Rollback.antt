-- ===== src/Wal/Rollback.antt =====
-- src/wal.c: a rollback and a recovery put the stolen pages back.
use db_hobby.Base.{
  ℕ, ◌+◌, ◌<◌, ◌≤◌, ◌≡◌, refl, sym, ap, ◌∙◌, Bool, true, false, List, [], ◌∷◌, ◌++◌, Option, none,
  some, length, take, drop, arith, ltb, if◌then◌else◌, length-append,
}
use db_hobby.Pager.{Image, Pager, hole, pager_open, pager_truncate}
use db_hobby.Wal.{Wal, StagedPage, write_pages}
use db_hobby.Wal.Recover.{cut_new, undo_count, undo_end, wal_undo}
use db_hobby.Wal.Format.{
  LogRecord, page_rec, commit_rec, begin_rec, undo_rec, encode_all, drop-append, take-append,
}
use db_hobby.Wal.Undo.{undo_writes, UndoFits}
use db_hobby.Wal.Replay.{undo_pass-done}
use db_hobby.Wal.Extend.{encode_all-append}
use db_hobby.Wal.Overlay.{write_pages-disk}
use db_hobby.Wal.Steal.{UndoOnly, Stealing}
use mathlib.Core.List.{append-nil}

pub UndoOnly-UndoFits : (k : Bool) (us : List LogRecord) → UndoOnly us → UndoFits k us
UndoOnly-UndoFits k [] h = omega arith
UndoOnly-UndoFits k (page_rec pid image lsn ∷ us) h = absurd (cc h)
UndoOnly-UndoFits k (commit_rec lsn ∷ us) h = absurd (cc h)
UndoOnly-UndoFits k (begin_rec base lsn ∷ us) h = (h.0, UndoOnly-UndoFits k us h.1)
UndoOnly-UndoFits k (undo_rec pid before lsn ∷ us) h = (h.0, h.1, UndoOnly-UndoFits k us h.2)

-- The image of page p in a file of n pages after the new pages are cut off, if it was i before.
abbrev pub cut_image : Option ℕ → ℕ → ℕ → Image → Image
cut_image none n p i = i
cut_image (some base) n p i = if ltb base n then (if ltb p base then i else hole) else i

pub cut_new-disk :
    (b : Option ℕ) (d : Pager) (p : ℕ) → (cut_new b d).disk p ≡ cut_image b d.num_pages p (d.disk p)
unfolding cut_new pager_truncate
cut_new-disk none d p = refl
cut_new-disk (some base) d p = ground arith

pub cut_image-kept : (base n p : ℕ) (i : Image) → p < base → cut_image (some base) n p i ≡ i
cut_image-kept base n p i h = ground arith

pub write_pages-num_pages :
    (st : List StagedPage) (d : Pager) → (write_pages st d).num_pages ≡ d.num_pages
unfolding write_pages db_hobby.Pager.pager_write
write_pages-num_pages [] d = refl
write_pages-num_pages (s ∷ st) d =
    write_pages-num_pages st (db_hobby.Pager.pager_write d s.page_id s.image)

pub cut_new-num_pages :
    (base : ℕ) (d : Pager) → base ≤ d.num_pages → (cut_new (some base) d).num_pages ≡ base
unfolding cut_new pager_truncate
cut_new-num_pages base d h = ground arith

-- A rollback, on the records of its transaction.
undo_end-records :
    (w : Wal) (rs us : List LogRecord) (d : Pager)
    → Stealing w rs us d
    → w.stole ≡ true
    → wal_undo w ≡ record w {
      data_file = cut_new (some w.base_pages) (write_pages (undo_writes us) w.data_file);
      log = encode_all rs;
      stole = false;
      spilled = [];
    }
unfolding wal_undo undo_end undo_count
undo_end-records w rs us d s t =
    let whole : w.log ≡ encode_all rs ++ encode_all us = s.whole ∙ encode_all-append rs us in
    let left : drop w.txn_log_start w.log ≡ encode_all us ++ [] =
      rw (whole, s.start)
        (drop-append (encode_all rs) (encode_all us) ∙ sym (append-nil (encode_all us))) in
    let kept : take w.txn_log_start w.log ≡ encode_all rs =
      rw (whole, s.start) (take-append (encode_all rs) (encode_all us)) in
    let u =
      undo_pass-done false us [] 0 (length w.log + 1) w.data_file
        (UndoOnly-UndoFits false us s.records) (omega arith)
        (omega (
          arith,
          ap length whole,
          length-append (encode_all rs) (encode_all us),
          length-append (encode_all us) [],
        )) in
    rw (t, kept, left) (rw (u.0, u.1, s.counted t) refl)

-- A rollback after steals: the pages of before the transaction have the images of before it, the
-- page count is the one of before it, and so is the log.
pub wal_undo-restores :
    (w : Wal) (rs us : List LogRecord) (d : Pager)
    → Stealing w rs us d
    → w.stole ≡ true
    → ((p : ℕ) → p < d.num_pages → (wal_undo w).data_file.disk p ≡ d.disk p)
      × ((wal_undo w).data_file.num_pages ≡ d.num_pages)
      × ((wal_undo w).log ≡ encode_all rs)
wal_undo-restores w rs us d s t =
    let e = undo_end-records w rs us d s t in
    let base = s.base in
    let grown = s.grown in
    (
      λ p b.
          ap (λ (v : Wal). v.data_file.disk p) e
          ∙ (cut_new-disk (some w.base_pages) (write_pages (undo_writes us) w.data_file) p
              ∙ cut_image-kept w.base_pages (write_pages (undo_writes us) w.data_file).num_pages p
                  ((write_pages (undo_writes us) w.data_file).disk p) (omega arith)
              ∙ (write_pages-disk (undo_writes us) w.data_file p ∙ s.restorable p (omega arith))),
      ap (λ (v : Wal). v.data_file.num_pages) e
          ∙ (cut_new-num_pages w.base_pages (write_pages (undo_writes us) w.data_file)
                (omega (arith, write_pages-num_pages (undo_writes us) w.data_file))
              ∙ base),
      ap (λ (v : Wal). v.log) e,
    )
