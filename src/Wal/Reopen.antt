-- ===== src/Wal/Reopen.antt =====
-- src/wal.c: `wal_open` after a crash.
use db_hobby.Base.{
  ℕ, suc, ◌<◌, ◌≤◌, ◌≡◌, refl, sym, ap, ◌∙◌, true, false, List, [], ◌∷◌, ◌++◌, none, length, arith,
}
use db_hobby.Pager.{Image, Pager, pager_open}
use db_hobby.Wal.{Wal, StagedPage, wal_max_staged, write_pages}
use db_hobby.Wal.Recover.{wal_recover, wal_open}
use db_hobby.Wal.Format.{LogRecord, page_rec, commit_rec, begin_rec, undo_rec, encode_all}
use db_hobby.Wal.Redo.{committed, pending, loser, LogFits, staged_page}
use db_hobby.Wal.Undo.{undo_writes, base_of}
use db_hobby.Wal.Torn.{Torn}
use db_hobby.Wal.Replay.{redone, recovered, wal_recover-records}
use db_hobby.Wal.NoForce.{Reflects}
use db_hobby.Wal.Overlay.{written, write_pages-disk, written-append, written-not, written-agree}
use db_hobby.Wal.Rollback.{
  cut_image, cut_image-kept, cut_new-disk, cut_new-num_pages, write_pages-num_pages,
}
use db_hobby.Wal.Steal.{UndoOnly, Stealing}
use mathlib.Core.List.{append-nil}

-- The page writes of a recovery, in order.
abbrev pub recovery_writes : List LogRecord → List StagedPage
recovery_writes rs = committed [] rs ++ undo_writes (loser rs rs)

recovered-disk :
    (rs : List LogRecord) (d : Pager) (p : ℕ)
    → (recovered rs d).disk p
      ≡ cut_image
          (base_of none (loser rs rs))
          d.num_pages
          p
          (written (recovery_writes rs) p (d.disk p))
recovered-disk rs d p =
    let base = base_of none (loser rs rs) in
    let undone = write_pages (undo_writes (loser rs rs)) (redone rs d) in
    let count : undone.num_pages ≡ d.num_pages =
      write_pages-num_pages (undo_writes (loser rs rs)) (redone rs d)
      ∙ write_pages-num_pages (committed [] rs) d in
    cut_new-disk base undone p
    ∙ (ap (λ (n : ℕ). cut_image base n p (undone.disk p)) count
        ∙ ap (cut_image base d.num_pages p) (
            write_pages-disk (undo_writes (loser rs rs)) (redone rs d) p
            ∙ (ap (written (undo_writes (loser rs rs)) p) (write_pages-disk (committed [] rs) d p)
                ∙ sym (written-append (committed [] rs) (undo_writes (loser rs rs)) p (d.disk p)))))

pub recover-disk :
    (w : Wal) (rs : List LogRecord) (t : List ℕ)
    → w.log ≡ encode_all rs ++ t
    → LogFits 0 rs
    → Torn (length (pending [] rs)) t
    → (p : ℕ)
    → (wal_recover false w).data_file.disk p
      ≡ cut_image
          (base_of none (loser rs rs))
          w.data_file.num_pages
          p
          (written (recovery_writes rs) p (w.data_file.disk p))
recover-disk w rs t e h tn p =
    ap (λ (v : Wal). v.data_file.disk p) (wal_recover-records w rs t e h tn)
    ∙ recovered-disk rs w.data_file p

-- The lists of a log to which a transaction has added only undo records.
committed-undo :
    (pend : List StagedPage) (us : List LogRecord) → UndoOnly us → committed pend us ≡ []
unfolding committed
committed-undo pend [] h = refl
committed-undo pend (page_rec pid image lsn ∷ us) h = absurd (cc h)
committed-undo pend (commit_rec lsn ∷ us) h = absurd (cc h)
committed-undo pend (begin_rec base lsn ∷ us) h = committed-undo pend us h.1
committed-undo pend (undo_rec pid before lsn ∷ us) h = committed-undo pend us h.2

pub committed-append_undo :
    (pend : List StagedPage) (rs us : List LogRecord)
    → UndoOnly us
    → committed pend (rs ++ us) ≡ committed pend rs
unfolding committed
committed-append_undo pend [] us h = committed-undo pend us h
committed-append_undo pend (page_rec pid image lsn ∷ rs) us h =
    committed-append_undo (pend ++ staged_page pid image ∷ []) rs us h
committed-append_undo pend (commit_rec lsn ∷ rs) us h =
    ap (λ l. pend ++ l) (committed-append_undo [] rs us h)
committed-append_undo pend (begin_rec base lsn ∷ rs) us h = committed-append_undo pend rs us h
committed-append_undo pend (undo_rec pid before lsn ∷ rs) us h = committed-append_undo pend rs us h

pending-undo : (pend : List StagedPage) (us : List LogRecord) → UndoOnly us → pending pend us ≡ pend
unfolding pending
pending-undo pend [] h = refl
pending-undo pend (page_rec pid image lsn ∷ us) h = absurd (cc h)
pending-undo pend (commit_rec lsn ∷ us) h = absurd (cc h)
pending-undo pend (begin_rec base lsn ∷ us) h = pending-undo pend us h.1
pending-undo pend (undo_rec pid before lsn ∷ us) h = pending-undo pend us h.2

pub pending-append_undo :
    (pend : List StagedPage) (rs us : List LogRecord)
    → UndoOnly us
    → pending pend (rs ++ us) ≡ pending pend rs
unfolding pending
pending-append_undo pend [] us h = pending-undo pend us h
pending-append_undo pend (page_rec pid image lsn ∷ rs) us h =
    pending-append_undo (pend ++ staged_page pid image ∷ []) rs us h
pending-append_undo pend (commit_rec lsn ∷ rs) us h = pending-append_undo [] rs us h
pending-append_undo pend (begin_rec base lsn ∷ rs) us h = pending-append_undo pend rs us h
pending-append_undo pend (undo_rec pid before lsn ∷ rs) us h = pending-append_undo pend rs us h

loser-undo : (l us : List LogRecord) → UndoOnly us → loser l us ≡ l
unfolding loser
loser-undo l [] h = refl
loser-undo l (page_rec pid image lsn ∷ us) h = absurd (cc h)
loser-undo l (commit_rec lsn ∷ us) h = absurd (cc h)
loser-undo l (begin_rec base lsn ∷ us) h = loser-undo l us h.1
loser-undo l (undo_rec pid before lsn ∷ us) h = loser-undo l us h.2

loser-append_undo :
    (l rs us : List LogRecord) → UndoOnly us → loser (l ++ us) (rs ++ us) ≡ loser l rs ++ us
unfolding loser
loser-append_undo l [] us h = loser-undo (l ++ us) us h
loser-append_undo l (page_rec pid image lsn ∷ rs) us h = loser-append_undo l rs us h
loser-append_undo l (commit_rec lsn ∷ rs) us h = loser-append_undo rs rs us h
loser-append_undo l (begin_rec base lsn ∷ rs) us h = loser-append_undo l rs us h
loser-append_undo l (undo_rec pid before lsn ∷ rs) us h = loser-append_undo l rs us h

LogFits-undo : (n : ℕ) (us : List LogRecord) → UndoOnly us → n ≤ wal_max_staged → LogFits n us
LogFits-undo n [] h b = b
LogFits-undo n (page_rec pid image lsn ∷ us) h b = absurd (cc h)
LogFits-undo n (commit_rec lsn ∷ us) h b = absurd (cc h)
LogFits-undo n (begin_rec base lsn ∷ us) h b = (h.0, LogFits-undo n us h.1 b)
LogFits-undo n (undo_rec pid before lsn ∷ us) h b = (h.0, h.1, LogFits-undo n us h.2 b)

pub LogFits-append_undo :
    (n : ℕ) (rs us : List LogRecord) → LogFits n rs → UndoOnly us → LogFits n (rs ++ us)
LogFits-append_undo n [] us h u = LogFits-undo n us u h
LogFits-append_undo n (page_rec pid image lsn ∷ rs) us h u =
    (h.0, h.1, h.2, LogFits-append_undo (suc n) rs us h.3 u)
LogFits-append_undo n (commit_rec lsn ∷ rs) us h u = LogFits-append_undo 0 rs us h u
LogFits-append_undo n (begin_rec base lsn ∷ rs) us h u = (h.0, LogFits-append_undo n rs us h.1 u)
LogFits-append_undo n (undo_rec pid before lsn ∷ rs) us h u =
    (h.0, h.1, LogFits-append_undo n rs us h.2 u)

-- The writes of recovery at one page, where the transaction's own records restore it.
restored :
    (c u : List StagedPage) (p : ℕ) (now before : Image)
    → written u p now ≡ before
    → written c p before ≡ before
    → written (c ++ u) p now ≡ before
restored c u p now before h r =
    written-append c u p now
    ∙ (written-agree u p (written c p now) now (λ e.
          let same = sym (written-not u p now e) ∙ h in ap (written c p) same ∙ (r ∙ sym same))
        ∙ h)

-- After a crash in a transaction that has stolen pages and not begun to commit, opening the log
-- gives every page of before the transaction its image of before it, and the page count of before it
-- if the file still has those pages. It wants a log of whole segments that the data file reflected.
pub wal_open-restores :
    (w : Wal) (rs us : List LogRecord) (d : Pager)
    → Stealing w rs us d
    → w.stole ≡ true
    → LogFits 0 rs
    → loser rs rs ≡ []
    → Reflects rs d
    → w.base_pages ≤ w.data_file.file_pages
    → ((p : ℕ) → p < d.num_pages → (wal_open false w).data_file.disk p ≡ d.disk p)
      × ((wal_open false w).data_file.num_pages ≡ d.num_pages)
unfolding wal_open pager_open
wal_open-restores w rs us d s t h l f m =
    let base = s.base in
    let fits = LogFits-append_undo 0 rs us h s.records in
    let mine : loser (rs ++ us) (rs ++ us) ≡ us =
      loser-append_undo rs rs us s.records ∙ ap (λ k. k ++ us) l in
    let whole = s.whole ∙ sym (append-nil (encode_all (rs ++ us))) in
    (
      λ p b.
          recover-disk _ (rs ++ us) [] whole fits (omega arith) p
          ∙ rw (mine, s.counted t, committed-append_undo [] rs us s.records)
              (cut_image-kept w.base_pages (pager_open w.data_file).num_pages p _ (omega arith)
                ∙ restored (committed [] rs) (undo_writes us) p (w.data_file.disk p) (d.disk p)
                    (s.restorable p (omega arith)) (f p)),
      ap (λ (v : Wal). v.data_file.num_pages)
            (wal_recover-records _ (rs ++ us) [] whole fits (omega arith))
          ∙ rw (mine, s.counted t)
              (cut_new-num_pages w.base_pages
                  (write_pages (undo_writes us) (redone (rs ++ us) (pager_open w.data_file)))
                  (omega (
                    arith,
                    write_pages-num_pages (undo_writes us)
                        (redone (rs ++ us) (pager_open w.data_file)),
                    write_pages-num_pages (committed [] (rs ++ us)) (pager_open w.data_file),
                  ))
                ∙ base),
    )
