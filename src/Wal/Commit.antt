-- ===== src/Wal/Commit.antt =====
-- src/wal.c: how `wal_commit` ends, and what it leaves in the log and in the data file.
use db_hobby.Base.{
  ℕ, ◌-◌, ◌≡◌, ◌⊎◌, inl, inr, refl, sym, ap, ◌∙◌, Bool, true, false, List, Rc, ok, fail, length,
  take, ltb, if◌then◌else◌,
}
use db_hobby.Pager.{Pager}
use db_hobby.Wal.{
  Wal, and_then, write_hdr, log_pages, commit_marker, commit_apply, wal_commit, none_set,
  write_pages, rec_commit,
}
use db_hobby.Wal.Recover.{wal_recover}
use db_hobby.Wal.Format.{LogRecord}
use db_hobby.Wal.Writes.{wrote, Wrote-commit_bytes, commit_bytes, number_after, next_number}
use db_hobby.Wal.Replay.{redone}
use db_hobby.Wal.Atomic.{Ready, image_bytes, crash_atomic}

pub and_then_assoc :
    (r : Wal × Rc) (f g : Wal → Wal × Rc)
    → and_then (and_then r f) g ≡ and_then r (λ w. and_then (f w) g)
unfolding and_then
and_then_assoc (w, ok) f g = refl
and_then_assoc (w, fail) f g = refl

-- The marker is on the log: the numbers are flushed and the pages go to the data file.
abbrev pub applied : Wal → Wal × Rc
applied w = commit_apply (record w { flushed_lsn = w.next_lsn - 1 })

pub wal_commit-none_set :
    (w : Wal)
    → wal_commit none_set w
      ≡ and_then (and_then (log_pages w w.staged) (λ w1. write_hdr w1 rec_commit)) applied
unfolding wal_commit commit_marker
wal_commit-none_set w =
    sym (and_then_assoc (log_pages w w.staged) (λ w1. write_hdr w1 rec_commit) applied)

abbrev pub logged : Wal → Wal
logged w =
    wrote w (commit_bytes w.next_lsn w.staged) (next_number (number_after w.next_lsn w.staged))

-- A commit has logged and applied all, or has failed after some bytes of its records.
commit-cases :
    (w : Wal)
    → (wal_commit none_set w ≡ applied (logged w))
      ⊎ ((k : ℕ) × (m : ℕ) × (wal_commit none_set w
            ≡ (wrote w (take k (commit_bytes w.next_lsn w.staged)) m, fail)))
unfolding and_then
commit-cases w = elim (Wrote-commit_bytes w) [
  | inl e ↦ inl (wal_commit-none_set w ∙ ap (λ r. and_then r applied) e)
  | inr (k, m, e) ↦ inr (k, m, wal_commit-none_set w ∙ ap (λ r. and_then r applied) e)
]

-- What a commit that returns 0 has done.
pub commit-ok : (w w1 : Wal) → wal_commit none_set w ≡ (w1, ok) → w1 ≡ (applied (logged w)).0
unfolding commit_apply
commit-ok w w1 h = elim (commit-cases w) [
  | inl e ↦ ap (λ (r : Wal × Rc). r.0) (sym h ∙ e)
  | inr (k, m, e) ↦ absurd (cc (sym h ∙ e))
]

-- What a commit that returns -1 has done: a part of its records is in the log.
pub commit-fail :
    (w w1 : Wal)
    → wal_commit none_set w ≡ (w1, fail)
    → (k : ℕ) × (m : ℕ) × (w1 ≡ wrote w (take k (commit_bytes w.next_lsn w.staged)) m)
unfolding commit_apply
commit-fail w w1 h = elim (commit-cases w) [
  | inl e ↦ absurd (cc (sym h ∙ e))
  | inr (k, m, e) ↦ (k, m, ap (λ (r : Wal × Rc). r.0) (sym h ∙ e))
]

either : (c : Bool) (p a b : Pager) → p ≡ (if c then a else b) → (p ≡ b) ⊎ (p ≡ a)
either true p a b h = inr h
either false p a b h = inl h

-- Where the log is whole records without a segment left open, and the staged pages fit a record each
-- and are at most WAL_MAX_STAGED (Ready): a commit that returns -1 has left the data file alone, and
-- recovery from the log that it leaves gives the data file that recovery before the commit would have
-- given, or that of the committed segments of the log with all the staged pages written over it.
pub commit_fail-atomic :
    (w w1 : Wal) (rs : List LogRecord)
    → Ready w rs
    → wal_commit none_set w ≡ (w1, fail)
    → (w1.data_file ≡ w.data_file)
      × (((wal_recover false w1).data_file ≡ (wal_recover false w).data_file)
          ⊎ ((wal_recover false w1).data_file ≡ write_pages w.staged (redone rs w.data_file)))
commit_fail-atomic w w1 rs r h =
    let f = commit-fail w w1 h in
    let k = f.0 in
    let same = ap (λ (v : Wal). v.data_file) (f.2) in
    (
      same,
      either (ltb (length (image_bytes w)) k) (wal_recover false w1).data_file
          (write_pages w.staged (redone rs w.data_file)) (wal_recover false w).data_file
          (crash_atomic w w1 rs k r same (ap (λ (v : Wal). v.log) (f.2))),
    )
