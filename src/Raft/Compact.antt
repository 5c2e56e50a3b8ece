-- ===== src/Raft/Compact.antt =====
-- src/raft.c, `raft_snapshot`: compaction keeps every entry after the snapshot.
use db_hobby.Base.{
  ℕ, zero, suc, ◌+◌, ◌-◌, ◌≤◌, ◌<◌, ◌≡◌, refl, List, [], ◌∷◌, arith, if◌then◌else◌, take, drop,
  length-drop, get_or-drop, ok, u32_mod, ◌%◌,
}
use db_hobby.Raft.Types.{Raft, RaftEntry, marker}
use db_hobby.Raft.Log.{raft_last_log_index, ent, term_at, fold_config, recompute_member_mask}
use db_hobby.Raft.Recv.{raft_snapshot, compacted}

fold-split :
    (m n : ℕ) (es : List RaftEntry)
    → fold_config (fold_config m (take n es)) (drop n es) ≡ fold_config m es
unfolding fold_config
fold-split m zero es = refl
fold-split m (suc n) [] = refl
fold-split m (suc n) (e ∷ es) = fold-split (if e.is_config then e.command % u32_mod else m) n es

drop-suc : (n : ℕ) (xs : List RaftEntry) → drop (suc n) xs ≡ drop n (drop 1 xs)
drop-suc n [] = drop-nil n
  where
    drop-nil : (n : ℕ) → [] ≡ drop {A = RaftEntry} n []
    drop-nil zero = refl
    drop-nil (suc n) = refl
drop-suc n (x ∷ xs) = refl

pub snapshot-ok :
    (r : Raft) (index sm_state : ℕ)
    → (raft_snapshot r index sm_state).1 ≡ ok
    → (r.log_base < index)
      × (index ≤ r.commit_index)
      × (index ≤ raft_last_log_index r)
      × ((raft_snapshot r index sm_state).0 ≡ compacted r index sm_state)
unfolding raft_snapshot
snapshot-ok r index sm_state h = ground arith

module _ (r : Raft) (index sm_state : ℕ) where
  pub compacted-last :
      r.log_base < index
      → index ≤ raft_last_log_index r
      → raft_last_log_index (compacted r index sm_state) ≡ raft_last_log_index r
  unfolding compacted raft_last_log_index
  compacted-last a b = omega (arith, length-drop (index + 1 - r.log_base) r.log)

  compacted-term : term_at (compacted r index sm_state) index ≡ term_at r index
  unfolding compacted term_at
  compacted-term = let z : index - index ≡ 0 = omega arith in rw (z, term_at) refl

  compacted-ent :
      (j : ℕ) → r.log_base < index → index < j → ent (compacted r index sm_state) j ≡ ent r j
  unfolding compacted ent
  compacted-ent j a p =
      let z : j - index ≡ suc (j - index - 1) = omega arith in
      rw z (
        get_or-drop (index + 1 - r.log_base) r.log (j - index - 1) (j - r.log_base) (marker 0)
          (omega arith))

  compacted-mask :
      r.log_base < index
      → (recompute_member_mask (compacted r index sm_state)).member_mask
        ≡ (recompute_member_mask r).member_mask
  unfolding recompute_member_mask compacted
  compacted-mask a =
      let z : index + 1 - r.log_base ≡ suc (index - r.log_base) = omega arith in
      rw (z, drop-suc (index - r.log_base) r.log)
        (fold-split r.base_member_mask (index - r.log_base) (drop 1 r.log))

-- A compaction that is carried out keeps the last index and the entry at every index `j`
-- after the snapshot's, gives the marker the term of that index, and leaves the member mask that a recomputation
-- from the base mask and the log arrives at.
pub snapshot_keeps :
    (r : Raft) (index sm_state j : ℕ)
    → (raft_snapshot r index sm_state).1 ≡ ok
    → index < j
    → (raft_last_log_index (raft_snapshot r index sm_state).0 ≡ raft_last_log_index r)
      × (term_at (raft_snapshot r index sm_state).0 index ≡ term_at r index)
      × (ent (raft_snapshot r index sm_state).0 j ≡ ent r j)
      × ((recompute_member_mask (raft_snapshot r index sm_state).0).member_mask
          ≡ (recompute_member_mask r).member_mask)
snapshot_keeps r index sm_state j h p =
    let (above, _, inside, node) = snapshot-ok r index sm_state h in
    rw node (
      compacted-last r index sm_state above inside,
      compacted-term r index sm_state,
      compacted-ent r index sm_state j above p,
      compacted-mask r index sm_state above,
    )
