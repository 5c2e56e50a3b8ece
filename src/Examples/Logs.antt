-- ===== src/Examples/Logs.antt =====
-- Concrete logs and replicas: each property of the write-ahead log and of the replica at an input
-- where its hypotheses hold.
use db_hobby.Base.{
  ℕ, zero, suc, ◌+◌, ◌<◌, ◌≤◌, ◌≡◌, ◌⊎◌, inl, refl, sym, ap, true, false, List, [], ◌∷◌, ◌++◌, ok,
  fail, some, length, Rc, update, ◌≢◌, take, ltb, if◌then◌else◌, ◌==◌, arith, length-append,
}
use db_hobby.Pager.{Image, Pager, pager_allocate}
use db_hobby.Wal.{
  Wal, page_size, wal_commit, none_set, write_pages, wal_steal, commit_apply, wal_checkpoint_bytes,
  log_pages, write_hdr, write_all, and_then, steal_begin, steal_undo, steal_write, spilled_contains,
  le_bytes, wal_begin, wal_stage, restage,
}
use db_hobby.Wal.Recover.{wal_recover, wal_undo, wal_open}
use db_hobby.Wal.Format.{LogRecord, page_rec, commit_rec, begin_rec, undo_rec, encode, encode_all}
use db_hobby.Wal.Redo.{committed, pending, loser, staged_page}
use db_hobby.Wal.Undo.{undo_writes, base_of}
use db_hobby.Wal.Replay.{redone}
use db_hobby.Wal.Writes.{commit_bytes}
use db_hobby.Wal.Atomic.{Ready, image_bytes, crash_atomic}
use db_hobby.Wal.Commit.{applied, logged, commit_fail-atomic}
use db_hobby.Wal.NoForce.{Reflects, commit-Reflects, no_force}
use db_hobby.Wal.Steal.{Stealing}
use db_hobby.Wal.Stealing.{wal_steal-Stealing}
use db_hobby.Wal.Rollback.{wal_undo-restores}
use db_hobby.Wal.Reopen.{wal_open-restores}
use db_hobby.Wal.Lost.{stale_page_count}
use db_hobby.Wal.Overlay.{written}
use db_hobby.Wal.Room.{commit-returns, wal_commit-room, length-commit_bytes}
use db_hobby.Replica.{WalReplica, replica_apply}
use db_hobby.Replica.Follow.{last_lsn, commit_count}
use db_hobby.Replica.CatchUp.{HasRead, replica_apply-follows}
use db_hobby.Replica.InStep.{InStep, replica_apply-InStep, low_numbers_skipped}
use db_hobby.BufferPool.{
  BufferPool, Frame, wal_flush_commit, bufpool_flush_cb, stage_below, stage_next, stage_frame,
  set_frame, commit_staged,
}
use db_hobby.BufferPool.Commits.{stolen_commit_undone, stolen_update_lost}
use mathlib.Core.List.{append-nil}

-- Pages of one byte's repetition.
unfoldable repeat : ℕ → ℕ → Image
repeat zero b = []
repeat (suc n) b = b ∷ repeat n b

length-repeat : (n b : ℕ) → length (repeat n b) ≡ n
unfolding repeat
length-repeat zero b = refl
length-repeat (suc n) b = ap suc (length-repeat n b)

abbrev blank : Image
blank = repeat page_size 0

abbrev ones : Image
ones = repeat page_size 1

abbrev two_pages : Pager
two_pages = record { disk = λ p. blank; file_pages = 2; num_pages = 2 }

-- A transaction that has staged page 0, with an empty log.
abbrev first : Wal
first = record {
  data_file = two_pages;
  log = [];
  log_cap = 100000;
  staged = staged_page 0 ones ∷ [];
  txn_active = true;
  stole = false;
  base_pages = 2;
  spilled = [];
  next_lsn = 1;
  flushed_lsn = 0;
  txn_log_start = 0;
}

first-Ready : Ready first []
unfolding encode_all pending
first-Ready = record {
  whole = refl;
  fits = omega arith;
  settled = refl;
  staged_fits = (omega arith, length-repeat page_size 1, omega arith);
  staged_few = omega arith;
}

two_pages-Reflects : Reflects [] two_pages
unfolding committed
two_pages-Reflects p = refl

abbrev first_committed : Wal
first_committed = (applied (logged first)).0

first-commits : wal_commit none_set first ≡ (first_committed, ok)
unfolding commit_apply
first-commits =
    wal_commit-room first (omega arith, length-repeat page_size 1, omega arith) (omega arith)
      (omega arith) (omega arith)

first-small : length (first.log ++ commit_bytes first.next_lsn first.staged) ≤ wal_checkpoint_bytes
first-small = omega (
  arith,
  length-commit_bytes 1 first.staged (omega arith, length-repeat page_size 1, omega arith),
)

commit-returns_example :
    let (w1, rc) = wal_commit none_set first in
    (rc ≡ ok)
    × ((p : ℕ) → w1.data_file.disk p ≡ written first.staged p blank)
    × (w1.staged ≡ [])
    × (w1.log ≡ (
        if ltb wal_checkpoint_bytes (length (first.log ++ commit_bytes 1 first.staged))
        then []
        else first.log ++ commit_bytes 1 first.staged))
commit-returns_example =
    commit-returns first (omega arith, length-repeat page_size 1, omega arith) (omega arith)
      (omega arith) (omega arith)

-- The log has 20 bytes of the commit.
abbrev crashed : Wal
crashed = record first { log = first.log ++ take 20 (commit_bytes first.next_lsn first.staged) }

crash_atomic_example : (wal_recover false crashed).data_file ≡ (
    if ltb (length (image_bytes first)) 20
    then write_pages first.staged (redone [] two_pages)
    else (wal_recover false first).data_file)
crash_atomic_example = crash_atomic first crashed [] 20 first-Ready refl refl

-- The write of page 0 has not reached the disk.
abbrev lost_write : Pager
lost_write = record two_pages { disk = λ p. if p == 0 then [] else blank }

no_force_example :
    (wal_recover false (record first_committed { data_file = lost_write })).data_file.disk 0
    ≡ first_committed.data_file.disk 0
unfolding committed
no_force_example =
    no_force first first_committed [] lost_write first-Ready two_pages-Reflects first-commits
      first-small (λ p h. ground arith) 0

commit-Reflects_example :
    (rs : List LogRecord) × Ready first_committed rs × Reflects rs first_committed.data_file
commit-Reflects_example =
    commit-Reflects first first_committed [] first-Ready two_pages-Reflects first-commits

-- A device with no room.
abbrev full : Wal
full = record first { log_cap = 0 }

full-Ready : Ready full []
unfolding encode_all pending
full-Ready = record {
  whole = refl;
  fits = omega arith;
  settled = refl;
  staged_fits = (omega arith, length-repeat page_size 1, omega arith);
  staged_few = omega arith;
}

full-fails : wal_commit none_set full ≡ (record full { next_lsn = 2 }, fail)
unfolding wal_commit log_pages write_hdr and_then write_all
full-fails = refl

commit_fail-atomic_example :
    ((record full { next_lsn = 2 }).data_file ≡ two_pages)
    × (((wal_recover false (record full { next_lsn = 2 })).data_file
          ≡ (wal_recover false full).data_file)
        ⊎ ((wal_recover false (record full { next_lsn = 2 })).data_file
            ≡ write_pages full.staged (redone [] two_pages)))
commit_fail-atomic_example =
    commit_fail-atomic full (record full { next_lsn = 2 }) [] full-Ready full-fails

-- A log with one commit, of page 0, and a transaction that has stolen the page since.
abbrev one_commit : List LogRecord
one_commit = page_rec 0 blank 1 ∷ commit_rec 2 ∷ []

abbrev one_steal : List LogRecord
one_steal = begin_rec 2 3 ∷ undo_rec 0 blank 4 ∷ []

abbrev stolen_disk : Pager
stolen_disk = record two_pages { disk = λ p. if p == 0 then ones else blank }

abbrev stealer : Wal
stealer = record {
  data_file = stolen_disk;
  log = encode_all (one_commit ++ one_steal);
  log_cap = 100000;
  staged = [];
  txn_active = true;
  stole = true;
  base_pages = 2;
  spilled = 0 ∷ [];
  next_lsn = 5;
  flushed_lsn = 4;
  txn_log_start = length (encode_all one_commit);
}

stealer-Stealing : Stealing stealer one_commit one_steal two_pages
unfolding undo_writes base_of spilled_contains
stealer-Stealing = record {
  whole = refl;
  start = refl;
  base = refl;
  range = omega arith;
  grown = omega arith;
  records = (omega arith, (omega arith, length-repeat page_size 0, omega arith));
  unstolen = λ h. absurd (cc h);
  counted = λ h. refl;
  images = λ p. ground (arith, length-repeat page_size 0, length-repeat page_size 1);
  remembered = λ p h. ground arith;
  restorable = λ p h. ground arith;
}

one_commit-Reflects : Reflects one_commit two_pages
unfolding committed
one_commit-Reflects p = ground arith

steals : wal_steal stealer 0 ones ≡ ((wal_steal stealer 0 ones).0, ok)
unfolding wal_steal steal_begin steal_undo steal_write spilled_contains and_then
steals = refl

wal_steal-Stealing_example :
    (us : List LogRecord) × Stealing (wal_steal stealer 0 ones).0 one_commit us two_pages
wal_steal-Stealing_example =
    wal_steal-Stealing stealer (wal_steal stealer 0 ones).0 one_commit one_steal two_pages 0 ones
      stealer-Stealing (length-repeat page_size 1) steals

wal_undo-restores_example :
    ((p : ℕ) → p < 2 → (wal_undo stealer).data_file.disk p ≡ blank)
    × ((wal_undo stealer).data_file.num_pages ≡ 2)
    × ((wal_undo stealer).log ≡ encode_all one_commit)
wal_undo-restores_example =
    wal_undo-restores stealer one_commit one_steal two_pages stealer-Stealing refl

wal_open-restores_example :
    ((p : ℕ) → p < 2 → (wal_open false stealer).data_file.disk p ≡ blank)
    × ((wal_open false stealer).data_file.num_pages ≡ 2)
unfolding loser
wal_open-restores_example =
    wal_open-restores stealer one_commit one_steal two_pages stealer-Stealing refl
      (omega arith, omega arith, length-repeat page_size 0, omega arith) refl one_commit-Reflects
      (omega arith)

stealer-length : length stealer.log ≡ 8252
unfolding encode_all encode le_bytes repeat
stealer-length = omega (arith, length-append {0}, length-repeat page_size 0)

-- The log names page 0 and the file is empty.
abbrev short_file : Wal
short_file = record first {
  data_file = record { disk = λ p. []; file_pages = 0; num_pages = 0 };
  log = encode_all one_commit;
}

stale_page_count_example :
    ((wal_open false short_file).data_file.disk 0 ≡ blank)
    × ((pager_allocate (wal_open false short_file).data_file []).1 ≡ 0)
    × ((pager_allocate (wal_open false short_file).data_file []).0.disk 0 ≡ [])
unfolding committed
stale_page_count_example =
    stale_page_count short_file (page_rec 0 blank 1 ∷ []) 2 [] refl
      (omega arith, omega arith, length-repeat page_size 0, omega arith) refl

-- A replica that has read nothing, and one that has applied ten commits of an earlier log.
abbrev new_replica : WalReplica
new_replica = record { data_file = two_pages; apply_off = 0; applied_lsn = 0; commits_applied = 0 }

abbrev old_replica : WalReplica
old_replica = record {
  data_file = two_pages;
  apply_off = 0;
  applied_lsn = 10;
  commits_applied = 10;
}

new_replica-HasRead : HasRead new_replica (encode_all one_commit) [] one_commit []
unfolding pending encode_all
new_replica-HasRead = record {
  whole = sym (append-nil (encode_all one_commit));
  position = refl;
  fits = (omega arith, omega arith, length-repeat page_size 0, omega arith);
  cut = inl (omega arith);
}

replica_apply-follows_example :
    ((replica_apply new_replica (encode_all one_commit)).1 ≡ some 1)
    × ((replica_apply new_replica (encode_all one_commit)).0.data_file
        ≡ write_pages (committed [] one_commit) two_pages)
    × ((replica_apply new_replica (encode_all one_commit)).0.applied_lsn ≡ 2)
    × ((replica_apply new_replica (encode_all one_commit)).0.apply_off
          + length (encode_all (loser one_commit one_commit) ++ [])
        ≡ length (encode_all one_commit))
unfolding last_lsn commit_count
replica_apply-follows_example =
    replica_apply-follows new_replica (encode_all one_commit) [] one_commit [] new_replica-HasRead
      (omega arith, omega arith, omega arith)

new_replica-InStep : InStep new_replica first
new_replica-InStep = record { position = refl; older = omega arith; alike = λ p. refl }

replica_apply-InStep_example :
    ((replica_apply new_replica first_committed.log).1 ≡ some 1)
    × InStep (replica_apply new_replica first_committed.log).0 first_committed
replica_apply-InStep_example =
    replica_apply-InStep new_replica first first_committed [] new_replica-InStep first-Ready
      first-commits first-small (omega arith)

low_numbers_skipped_example :
    ((replica_apply old_replica first_committed.log).0.data_file ≡ two_pages)
    × ((replica_apply old_replica first_committed.log).0.apply_off ≡ length first_committed.log)
low_numbers_skipped_example =
    low_numbers_skipped old_replica first first_committed [] refl first-Ready first-commits
      first-small (omega arith) (omega arith)

-- A pool whose frames are clean, over the log of the transaction that has stolen page 0.
abbrev clean_pool : BufferPool
clean_pool = record {
  store = stealer;
  frames = λ i. record {
    page_id = 0;
    valid = true;
    dirty = false;
    pin_count = 0;
    last_used = 1;
    image = ones;
  };
  num_frames = 64;
  clock = 1;
  hits = 0;
  misses = 0;
  no_steal = true;
  steal_fn = true;
}

stolen_commit_undone_example :
    ((wal_flush_commit clean_pool).1 ≡ ok)
    × ((wal_flush_commit clean_pool).0.store.data_file ≡ stolen_disk)
    × ((wal_flush_commit clean_pool).0.store.log ≡ stealer.log)
    × ((p : ℕ)
        → p < 2
        → (wal_open false (wal_flush_commit clean_pool).0.store).data_file.disk p ≡ blank)
unfolding loser
stolen_commit_undone_example =
    stolen_commit_undone clean_pool one_commit one_steal two_pages stealer-Stealing refl
      (λ i l. refl) (omega arith, omega arith, length-repeat page_size 0, omega arith) refl
      one_commit-Reflects (omega arith)

-- The pool where page 1 is dirty.
abbrev dirty_frame : Frame
dirty_frame = record {
  page_id = 1;
  valid = true;
  dirty = true;
  pin_count = 0;
  last_used = 1;
  image = ones;
}

abbrev dirty_pool : BufferPool
dirty_pool = record clean_pool { frames = λ i. dirty_frame; num_frames = 1 }

abbrev staged_log : Wal
staged_log = record stealer {
  staged = staged_page 1 ones ∷ [];
  stole = false;
  spilled = [];
  txn_log_start = length stealer.log;
}

abbrev committed_pool : BufferPool
committed_pool = record dirty_pool {
  store = (applied (logged staged_log)).0;
  frames = update dirty_pool.frames 0 (record dirty_frame { dirty = false });
}

staged_log-commits : wal_commit none_set staged_log ≡ ((applied (logged staged_log)).0, ok)
unfolding commit_apply
staged_log-commits =
    wal_commit-room staged_log (omega arith, length-repeat page_size 1, omega arith) (omega arith)
      (omega arith) (omega (arith, stealer-length))

dirty_pool-commits : wal_flush_commit dirty_pool ≡ (committed_pool, ok)
unfolding wal_flush_commit bufpool_flush_cb stage_below stage_next stage_frame set_frame
    commit_staged wal_begin wal_stage restage
dirty_pool-commits =
    ap (λ (r : Wal × Rc). (record committed_pool { store = r.0 }, r.1)) staged_log-commits

committed_pool-log : 0 < length committed_pool.store.log
unfolding commit_apply
committed_pool-log = ground (
  arith,
  stealer-length,
  length-append stealer.log (commit_bytes 5 staged_log.staged),
  length-commit_bytes 5 staged_log.staged (omega arith, length-repeat page_size 1, omega arith),
)

ones-blank : ones ≢ blank
unfolding repeat
ones-blank h = absurd (cc h)

stolen_update_lost_example :
    (spilled_contains stealer 0 ≡ true)
    × (committed_pool.store.data_file.disk 0 ≡ ones)
    × ((wal_open false committed_pool.store).data_file.disk 0 ≡ blank)
unfolding committed pending
stolen_update_lost_example =
    stolen_update_lost dirty_pool committed_pool one_commit one_steal two_pages 0 0 stealer-Stealing
      (omega arith, omega arith, length-repeat page_size 0, omega arith) refl one_commit-Reflects
      (omega arith) ones-blank refl (omega arith) refl
      (λ j l t. (omega arith, omega arith, length-repeat page_size 1)) dirty_pool-commits
      committed_pool-log
