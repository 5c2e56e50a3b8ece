-- ===== src/Wal/Recover.antt =====
-- src/wal.c: recovery when the log is opened, and the rollback of a transaction. Each loop takes
-- fuel; every round reads at least one byte, so that the length of the log is enough.
use db_hobby.Base.{
  ℕ, zero, suc, ◌+◌, Bool, true, false, ◌&&◌, List, [], ◌∷◌, ◌++◌, Option, none, some,
  if◌then◌else◌, ltb, ◌==◌, length, take, drop,
}
use db_hobby.Pager.{Pager, pager_open, pager_write, pager_truncate}
use db_hobby.Wal.{
  Wal, StagedPage, page_size, wal_max_staged, rec_page, rec_commit, rec_begin, rec_undo, from_le,
  read_exact, skip_bytes, write_pages,
}

-- The first pass: where it reads, the after-images of the segment it is in, the end of the last
-- commit, and the data file.
pub record RedoScan : Type 0 where
  pub file : List ℕ
  pub redo : List StagedPage
  pub loser : List ℕ
  pub target : Pager

unfoldable pub redo_image : RedoScan → ℕ → Option (List ℕ × List ℕ) → Option RedoScan
redo_image s pid none = none
redo_image s pid (some (image, rest)) =
    some (record s { file = rest; redo = s.redo ++ record { page_id = pid; image = image } ∷ [] })

unfoldable pub redo_page : RedoScan → Option (List ℕ × List ℕ) → Option RedoScan
redo_page s none = none
redo_page s (some (pid, rest)) =
    if ltb (length s.redo) wal_max_staged
    then redo_image s (from_le pid) (read_exact rest page_size)
    else some (record s { file = skip_bytes rest page_size })

unfoldable pub redo_record : RedoScan → ℕ → List ℕ → Option RedoScan
redo_record s type rest =
    if type == rec_begin
    then some (record s { file = skip_bytes rest 8 })
    else if type == rec_undo
    then some (record s { file = skip_bytes rest (8 + page_size) })
    else if type == rec_page
    then redo_page s (read_exact rest 8)
    else if type == rec_commit
    then some
        (record { file = rest; redo = []; loser = rest; target = write_pages s.redo s.target })
    else none

unfoldable pub redo_step : RedoScan → Option (List ℕ × List ℕ) → Option RedoScan
redo_step s none = none
redo_step s (some (type, rest)) = redo_record s (from_le type) (skip_bytes rest 8)

unfoldable pub redo_pass : ℕ → RedoScan → RedoScan
redo_pass zero s = s
redo_pass (suc fuel) s = elim (redo_step s (read_exact s.file 1)) [
  | none ↦ s
  | some s1 ↦ redo_pass fuel s1
]

-- The second pass, and the loop of a rollback: the page count read, if any.
pub record UndoScan : Type 0 where
  pub file : List ℕ
  pub base : Option ℕ
  pub target : Pager
  pub undone : Bool

unfoldable pub undo_base : UndoScan → Option (List ℕ × List ℕ) → Option UndoScan
undo_base s none = none
undo_base s (some (b, rest)) = some (record s { file = rest; base = some (from_le b) })

unfoldable pub undo_image : UndoScan → ℕ → Option (List ℕ × List ℕ) → Option UndoScan
undo_image s pid none = none
undo_image s pid (some (before, rest)) =
    some (record s { file = rest; target = pager_write s.target pid before; undone = true })

unfoldable pub undo_page : UndoScan → Option (List ℕ × List ℕ) → Option UndoScan
undo_page s none = none
undo_page s (some (pid, rest)) = undo_image s (from_le pid) (read_exact rest page_size)

-- `skip_pages` is true in recovery, which passes over after-images, and false in a rollback.
unfoldable pub undo_record : Bool → UndoScan → ℕ → List ℕ → Option UndoScan
undo_record skip_pages s type rest =
    if type == rec_begin
    then undo_base s (read_exact rest 8)
    else if type == rec_undo
    then undo_page s (read_exact rest 8)
    else if type == rec_page && skip_pages
    then some (record s { file = skip_bytes rest (8 + page_size) })
    else none

unfoldable pub undo_step : Bool → UndoScan → Option (List ℕ × List ℕ) → Option UndoScan
undo_step skip_pages s none = none
undo_step skip_pages s (some (type, rest)) =
    undo_record skip_pages s (from_le type) (skip_bytes rest 8)

-- With `crash` the loop stops when it has undone one page.
unfoldable pub undo_pass : Bool → Bool → ℕ → UndoScan → UndoScan
undo_pass crash skip_pages zero s = s
undo_pass crash skip_pages (suc fuel) s = elim (undo_step skip_pages s (read_exact s.file 1)) [
  | none ↦ s
  | some s1 ↦ if crash && s1.undone then s1 else undo_pass crash skip_pages fuel s1
]

unfoldable pub cut_new : Option ℕ → Pager → Pager
cut_new none p = p
cut_new (some base) p = if ltb base p.num_pages then pager_truncate p base else p

abbrev pub redo_start : Wal → RedoScan
redo_start w = record { file = w.log; redo = []; loser = w.log; target = w.data_file }

abbrev pub undo_start : List ℕ → Pager → UndoScan
undo_start file target = record { file = file; base = none; target = target; undone = false }

unfoldable pub recover_end : Bool → Wal → UndoScan → Wal
recover_end crash w u =
    if crash && u.undone
    then record w { data_file = u.target }
    else record w { data_file = cut_new u.base u.target; log = [] }

unfoldable pub wal_recover : Bool → Wal → Wal
wal_recover crash w =
    let s = redo_pass (length w.log + 1) (redo_start w) in
    recover_end crash w (undo_pass crash true (length w.log + 1) (undo_start s.loser s.target))

unfoldable pub wal_open : Bool → Wal → Wal
wal_open crash w = wal_recover crash (record w {
  data_file = pager_open w.data_file;
  staged = [];
  txn_active = false;
  stole = false;
  base_pages = 0;
  spilled = [];
  next_lsn = 1;
  flushed_lsn = 0;
  txn_log_start = 0;
})

-- The page count of a rollback: the one in the log, or the transaction's own.
unfoldable pub undo_count : Option ℕ → ℕ → ℕ
undo_count none base = base
undo_count (some b) base = b

unfoldable pub undo_end : Wal → UndoScan → Wal
undo_end w u = record w {
  data_file = cut_new (some (undo_count u.base w.base_pages)) u.target;
  log = take w.txn_log_start w.log;
  stole = false;
  spilled = [];
}

unfoldable pub wal_undo : Wal → Wal
wal_undo w =
    if w.stole
    then undo_end w (
        undo_pass false false (length w.log + 1)
          (undo_start (drop w.txn_log_start w.log) w.data_file))
    else w
