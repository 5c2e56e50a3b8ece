-- ===== src/Replica.antt =====
-- src/replica.h, src/replica.c: a replica that follows the primary's log. The loop takes fuel;
-- every round reads at least one byte, so that the length of the log is enough.
pub mod Follow
pub mod Cut
pub mod CatchUp
pub mod InStep
use db_hobby.Base.{
  ℕ, zero, suc, ◌+◌, ◌-◌, List, [], ◌∷◌, ◌++◌, Option, none, some, if◌then◌else◌, ltb, leb, ◌==◌,
  length, drop,
}
use db_hobby.Pager.{Pager}
use db_hobby.Wal.{
  StagedPage, page_size, wal_max_staged, rec_page, rec_commit, rec_begin, rec_undo, from_le,
  read_exact, write_pages,
}

pub record WalReplica : Type 0 where
  pub data_file : Pager
  pub apply_off : ℕ
  pub applied_lsn : ℕ
  pub commits_applied : ℕ

unfoldable pub replica_open : Pager → WalReplica
replica_open p = record { data_file = p; apply_off = 0; applied_lsn = 0; commits_applied = 0 }

unfoldable pub replica_position : WalReplica → ℕ
replica_position r = r.applied_lsn

-- The loop: what is left to read, the after-images that wait for their marker, the commits applied
-- in this call, and the replica.
pub record Tail : Type 0 where
  pub file : List ℕ
  pub pend : List StagedPage
  pub applied : ℕ
  pub replica : WalReplica

-- A round goes on, ends the loop, or returns -1.
pub data Round : Type 0 where
  go_on : Tail → Round
  stop : Round
  refuse : Round

unfoldable pub tail_image : Tail → ℕ → Option (List ℕ × List ℕ) → Round
tail_image s pid none = stop
tail_image s pid (some (image, rest)) =
    go_on (record s { file = rest; pend = s.pend ++ record { page_id = pid; image = image } ∷ [] })

unfoldable pub tail_page : Tail → Option (List ℕ × List ℕ) → Round
tail_page s none = stop
tail_page s (some (pid, rest)) =
    if leb wal_max_staged (length s.pend)
    then refuse
    else tail_image s (from_le pid) (read_exact rest page_size)

unfoldable pub tail_skip : Tail → Option (List ℕ × List ℕ) → Round
tail_skip s none = stop
tail_skip s (some (skipped, rest)) = go_on (record s { file = rest })

unfoldable pub tail_undo : Tail → Option (List ℕ × List ℕ) → Round
tail_undo s none = stop
tail_undo s (some (pid, rest)) = tail_skip s (read_exact rest page_size)

unfoldable pub tail_apply : WalReplica → List StagedPage → ℕ → WalReplica
tail_apply r pend lsn = record r {
  data_file = write_pages pend r.data_file;
  applied_lsn = lsn;
  commits_applied = r.commits_applied + 1;
}

-- `eof` is the length of the log, from which the position is counted.
unfoldable pub tail_commit : ℕ → Tail → ℕ → List ℕ → Tail
tail_commit eof s lsn rest =
    let r = s.replica in
    let newer = ltb r.applied_lsn lsn in
    let r1 = if newer then tail_apply r s.pend lsn else r in
    record {
      file = rest;
      pend = [];
      applied = (if newer then s.applied + 1 else s.applied);
      replica = record r1 { apply_off = eof - length rest };
    }

unfoldable pub tail_record : ℕ → Tail → ℕ → Option (List ℕ × List ℕ) → Round
tail_record eof s type none = stop
tail_record eof s type (some (lsn, rest)) =
    if type == rec_page
    then tail_page s (read_exact rest 8)
    else if type == rec_begin
    then tail_skip s (read_exact rest 8)
    else if type == rec_undo
    then tail_undo s (read_exact rest 8)
    else if type == rec_commit
    then go_on (tail_commit eof s (from_le lsn) rest)
    else stop

unfoldable pub tail_round : ℕ → Tail → Option (List ℕ × List ℕ) → Round
tail_round eof s none = stop
tail_round eof s (some (type, rest)) = tail_record eof s (from_le type) (read_exact rest 8)

unfoldable pub tail_loop : ℕ → ℕ → Tail → WalReplica × Option ℕ
tail_loop eof zero s = (s.replica, some s.applied)
tail_loop eof (suc fuel) s = elim (tail_round eof s (read_exact s.file 1)) [
  | go_on s1 ↦ tail_loop eof fuel s1
  | stop ↦ (s.replica, some s.applied)
  | refuse ↦ (s.replica, none)
]

-- A log that has become shorter than the position is read from its start.
unfoldable pub rewind : WalReplica → List ℕ → WalReplica
rewind r log = if ltb (length log) r.apply_off then record r { apply_off = 0 } else r

-- The commits applied, or nothing for -1.
unfoldable pub replica_apply : WalReplica → List ℕ → WalReplica × Option ℕ
replica_apply r log =
    let r1 = rewind r log in
    tail_loop (length log) (length log + 1)
      (record { file = drop r1.apply_off log; pend = []; applied = 0; replica = r1 })
