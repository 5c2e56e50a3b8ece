-- ===== src/Wal.antt =====
-- src/wal.h, src/wal.c: the write-ahead log. The log file is its bytes, `log_cap` the bytes
-- that the device has for it: a write past them is short and fails. A position in the log is the
-- suffix that is left to read, so that a seek past the end leaves nothing.
pub mod Format
pub mod Recover
pub mod Redo
pub mod Torn
pub mod Undo
pub mod Replay
pub mod Marker
pub mod Writes
pub mod Extend
pub mod Atomic
pub mod Commit
pub mod Overlay
pub mod NoForce
pub mod Steal
pub mod Stealing
pub mod Rollback
pub mod Reopen
pub mod Lost
pub mod Room
use db_hobby.Base.{
  ℕ, zero, suc, ◌+◌, ◌-◌, ◌%◌, ◌/◌, ◌*◌, Bool, true, false, List, [], ◌∷◌, ◌++◌, Option, none, some,
  Rc, ok, fail, if◌then◌else◌, ltb, leb, ◌==◌, length, take, drop, any, u64_mod,
}
pub use db_hobby.Page.{page_size}
use db_hobby.Pager.{Image, Pager, pager_read, pager_write, pager_truncate}

abbrev pub wal_max_staged : ℕ
wal_max_staged = 64

abbrev pub wal_checkpoint_bytes : ℕ
wal_checkpoint_bytes = 4194304

abbrev pub rec_page : ℕ
rec_page = b'P'

abbrev pub rec_commit : ℕ
rec_commit = b'C'

abbrev pub rec_begin : ℕ
rec_begin = b'B'

abbrev pub rec_undo : ℕ
rec_undo = b'U'

pub record StagedPage : Type 0 where
  pub page_id : ℕ
  pub image : Image

pub record Wal : Type 0 where
  pub data_file : Pager
  pub log : List ℕ
  pub log_cap : ℕ
  pub staged : List StagedPage
  pub txn_active : Bool
  pub stole : Bool
  pub base_pages : ℕ
  pub spilled : List ℕ
  pub next_lsn : ℕ
  pub flushed_lsn : ℕ
  pub txn_log_start : ℕ

-- The bytes of an integer in memory, the lowest first.
unfoldable pub le_bytes : ℕ → ℕ → List ℕ
le_bytes zero n = []
le_bytes (suc k) n = (n % 256) ∷ le_bytes k (n / 256)

unfoldable pub from_le : List ℕ → ℕ
from_le [] = 0
from_le (b ∷ bs) = b + 256 * from_le bs

-- Reads n bytes, or nothing where the file ends before.
unfoldable pub read_exact : List ℕ → ℕ → Option (List ℕ × List ℕ)
read_exact file n = if ltb (length file) n then none else some (take n file, drop n file)

unfoldable pub skip_bytes : List ℕ → ℕ → List ℕ
skip_bytes file n = drop n file

unfoldable pub write_all : Wal → List ℕ → Wal × Rc
write_all w buf =
    if leb (length w.log + length buf) w.log_cap
    then (record w { log = w.log ++ buf }, ok)
    else (record w { log = w.log ++ take (w.log_cap - length w.log) buf }, fail)

-- The next call, unless this one failed.
unfoldable pub and_then : Wal × Rc → (Wal → Wal × Rc) → Wal × Rc
and_then (w, ok) next = next w
and_then (w, fail) next = (w, fail)

-- `fail` stands for the number 0 that the code returns.
unfoldable pub write_hdr : Wal → ℕ → Wal × Rc
write_hdr w type =
    let lsn = w.next_lsn in
    and_then (write_all (record w { next_lsn = (lsn + 1) % u64_mod }) (type ∷ []))
      (λ w1. and_then (write_all w1 (le_bytes 8 lsn)) (λ w2. (w2, (if lsn == 0 then fail else ok))))

unfoldable pub spilled_contains : Wal → ℕ → Bool
spilled_contains w pid = any (λ p. p == pid) w.spilled

-- Where the realloc succeeds, which the code makes in place of a longer list.
unfoldable pub spilled_add : Wal → ℕ → Wal
spilled_add w pid = record w { spilled = w.spilled ++ pid ∷ [] }

unfoldable pub wal_read : Wal → ℕ → Option Image
wal_read w page_id = pager_read w.data_file page_id

unfoldable pub wal_begin : Wal → Wal
wal_begin w = record w {
  staged = [];
  txn_active = true;
  stole = false;
  base_pages = w.data_file.num_pages;
  spilled = [];
  txn_log_start = length w.log;
}

-- The loop over the staged pages: the new list where one of them is this page.
unfoldable pub restage : List StagedPage → ℕ → Image → Option (List StagedPage)
restage [] page_id buf = none
restage (s ∷ rest) page_id buf =
    let later = restage rest page_id buf in
    if s.page_id == page_id
    then some (record { page_id = page_id; image = buf } ∷ rest)
    else elim later [ none ↦ none | some r ↦ some (s ∷ r) ]

unfoldable pub wal_stage : Wal → ℕ → Image → Wal × Rc
wal_stage w page_id buf = elim (restage w.staged page_id buf) [
  | some staged ↦ (record w { staged = staged }, ok)
  | none ↦
      if leb wal_max_staged (length w.staged)
      then (w, fail)
      else (record w { staged = w.staged ++ record { page_id = page_id; image = buf } ∷ [] }, ok)
]

-- The marker with the page count, written by the first steal of a transaction.
unfoldable pub steal_begin : Wal → Wal × Rc
steal_begin w =
    if w.stole
    then (w, ok)
    else and_then (write_hdr w rec_begin) (λ w1.
      and_then (write_all w1 (le_bytes 8 w1.base_pages)) (λ w2. (record w2 { stole = true }, ok)))

unfoldable pub steal_before : Wal → ℕ → Option Image → Wal × Rc
steal_before w page_id none = (w, fail)
steal_before w page_id (some before) =
    and_then (write_hdr w rec_undo)
      (λ w1. and_then (write_all w1 (le_bytes 8 page_id)) (λ w2. write_all w2 before))

-- The before-image, written when a page is stolen for the first time.
unfoldable pub steal_undo : Wal → ℕ → Wal × Rc
steal_undo w page_id =
    if spilled_contains w page_id
    then (w, ok)
    else and_then
        (if ltb page_id w.base_pages
          then steal_before w page_id (pager_read w.data_file page_id)
          else (w, ok))
        (λ w1. (spilled_add w1 page_id, ok))

unfoldable pub steal_write : Wal → ℕ → Image → Wal × Rc
steal_write w page_id buf =
    (record w { flushed_lsn = w.next_lsn - 1; data_file = pager_write w.data_file page_id buf }, ok)

unfoldable pub wal_steal : Wal → ℕ → Image → Wal × Rc
wal_steal w page_id buf =
    and_then (steal_begin w)
      (λ w1. and_then (steal_undo w1 page_id) (λ w2. steal_write w2 page_id buf))

-- The loop of `wal_commit` that logs the after-images.
unfoldable pub log_pages : Wal → List StagedPage → Wal × Rc
log_pages w [] = (w, ok)
log_pages w (s ∷ rest) = and_then (write_hdr w rec_page) (λ w1.
    and_then (write_all w1 (le_bytes 8 s.page_id))
      (λ w2. and_then (write_all w2 s.image) (λ w3. log_pages w3 rest)))

unfoldable pub write_pages : List StagedPage → Pager → Pager
write_pages [] p = p
write_pages (s ∷ rest) p = write_pages rest (pager_write p s.page_id s.image)

-- The points at which the switches for tests stop a commit.
pub data Crash : Type 0 where
  none_set : Crash
  before_commit : Crash
  after_log : Crash

-- The end of a commit, with the checkpoint of a log that has grown long.
unfoldable pub commit_apply : Wal → Wal × Rc
commit_apply w = (
  record w {
    data_file = write_pages w.staged w.data_file;
    log = (if ltb wal_checkpoint_bytes (length w.log) then [] else w.log);
    staged = [];
    stole = false;
    spilled = [];
    txn_active = false;
  },
  ok,
)

unfoldable pub commit_marker : Crash → Wal → Wal × Rc
commit_marker before_commit w = (record w { flushed_lsn = w.next_lsn - 1 }, ok)
commit_marker after_log w =
    and_then (write_hdr w rec_commit) (λ w1. (record w1 { flushed_lsn = w1.next_lsn - 1 }, ok))
commit_marker none_set w =
    and_then (write_hdr w rec_commit)
      (λ w1. commit_apply (record w1 { flushed_lsn = w1.next_lsn - 1 }))

unfoldable pub wal_commit : Crash → Wal → Wal × Rc
wal_commit crash w = and_then (log_pages w w.staged) (λ w1. commit_marker crash w1)
