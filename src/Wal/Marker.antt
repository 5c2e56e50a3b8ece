-- ===== src/Wal/Marker.antt =====
-- src/wal.c: recovery of a log that ends in a commit marker, whole or cut off.
use db_hobby.Base.{
  ℕ, suc, ◌+◌, ◌-◌, ◌<◌, ◌≤◌, ◌≡◌, refl, ap, ◌∙◌, true, false, List, [], ◌∷◌, ◌++◌, length,
  length-append, arith,
}
use db_hobby.Pager.{Pager}
use db_hobby.Wal.{Wal, write_pages, rec_commit}
use db_hobby.Wal.Recover.{
  RedoScan, redo_record, redo_pass, redo_start, undo_start, recover_end, wal_recover, cut_new,
}
use db_hobby.Wal.Format.{LogRecord, encode_all, skip_bytes-short}
use db_hobby.Wal.Redo.{
  pending, LogFits, redo_pass-records, redo_pass-step, after_records, before_records,
}
use db_hobby.Wal.Torn.{redo_step-at, redo_pass-empty}
use db_hobby.Wal.Undo.{undo_pass-empty}
use db_hobby.Wal.Replay.{enough_rounds, length-encode_all, redone}

abbrev at_marker : RedoScan → RedoScan
at_marker s = record { file = []; redo = []; loser = []; target = write_pages s.redo s.target }

redo_pass-marker :
    (f : ℕ) (s : RedoScan) (x : List ℕ)
    → s.file ≡ rec_commit ∷ x
    → length x ≤ 8
    → redo_pass (suc f) s ≡ at_marker s
unfolding redo_record
redo_pass-marker f s x e h =
    redo_pass-step f s (at_marker s)
      (redo_step-at s rec_commit x rec_commit e refl ∙ cc (skip_bytes-short x 8 h))
    ∙ redo_pass-empty f (at_marker s) refl

-- The data file after the segments and the one that the marker ends.
abbrev pub marked : List LogRecord → Pager → Pager
marked rs d = write_pages (pending [] rs) (redone rs d)

abbrev marker_log : List LogRecord → List ℕ → List ℕ
marker_log rs x = encode_all rs ++ rec_commit ∷ x

redo_pass-marked :
    (rs : List LogRecord) (x l : List ℕ) (n : ℕ) (d : Pager)
    → LogFits 0 rs
    → length x ≤ 8
    → length (marker_log rs x) < n
    → redo_pass n (before_records rs (rec_commit ∷ x) l [] d)
      ≡ record { file = []; redo = []; loser = []; target = marked rs d }
redo_pass-marked rs x l n d h b lt =
    let s = after_records rs (rec_commit ∷ x) l [] d in
    let f = n - length rs in
    ap (λ (m : ℕ). redo_pass m (before_records rs (rec_commit ∷ x) l [] d))
      (enough_rounds rs (rec_commit ∷ x) n lt)
    ∙ (redo_pass-records rs f (rec_commit ∷ x) l [] d h
        ∙ (ap (λ (m : ℕ). redo_pass m s)
              (omega (arith, length-append (encode_all rs) (rec_commit ∷ x), length-encode_all rs))
            ∙ redo_pass-marker (f - 1) s x refl b))

-- A marker of which the type has reached the log commits the segment before it.
pub wal_recover-marker :
    (w : Wal) (rs : List LogRecord) (x : List ℕ)
    → w.log ≡ encode_all rs ++ rec_commit ∷ x
    → LogFits 0 rs
    → length x ≤ 8
    → wal_recover false w ≡ record w { data_file = marked rs w.data_file; log = [] }
unfolding wal_recover recover_end cut_new
wal_recover-marker w rs x e h b =
    let n = length w.log + 1 in
    let r : redo_pass n (redo_start w)
        ≡ record { file = []; redo = []; loser = []; target = marked rs w.data_file } =
      ap
        (λ (log : List ℕ).
          redo_pass n (record { file = log; redo = []; loser = log; target = w.data_file }))
        e
      ∙ redo_pass-marked rs x (marker_log rs x) n w.data_file h b (omega (arith, ap length e)) in
    rw (r, undo_pass-empty true n (undo_start [] (marked rs w.data_file)) refl) refl
