-- ===== src/Raft/Upkeep.antt =====
-- src/raft.c: the calls of the client, compaction and a crash keep the order of the indices.
use db_hobby.Base.{
  ℕ, ◌≤◌, ◌<◌, ◌≡◌, refl, ◌⊎◌, inl, inr, Bool, some, List, [], ◌∷◌, arith, Rc, ok, fail,
}
use db_hobby.Raft.Types.{Raft, Outbox, all_nodes}
use db_hobby.Raft.Log.{raft_last_log_index, log_append}
use db_hobby.Raft.Lead.{
  raft_submit, command_entry, raft_change_config, config_entry, start_new_peer, start_new_peers,
  raft_read_index, own_match,
}
use db_hobby.Raft.Recv.{raft_snapshot, compacted, raft_crash_restart}
use db_hobby.Raft.Compact.{snapshot-ok, compacted-last}
use db_hobby.Raft.Bounds.{IsOrdered, SameOrder, SameOrder-IsOrdered, log_append-IsOrdered}

own_match-IsOrdered : (r : Raft) → IsOrdered r → IsOrdered (own_match r)
own_match-IsOrdered r o = SameOrder-IsOrdered r (own_match r) (refl, refl, refl, refl) o

pub submit-IsOrdered :
    (alloc : ℕ → Bool) (r : Raft) (command : ℕ)
    → IsOrdered r
    → IsOrdered (raft_submit alloc r command).0
unfolding raft_submit
submit-IsOrdered alloc r command o =
    let a = log_append-IsOrdered alloc r (command_entry r command) o in
    let m = own_match-IsOrdered (log_append alloc r (command_entry r command)).0 a in ground arith

new_peer-SameOrder : (mask i : ℕ) (r : Raft) → SameOrder r (start_new_peer mask i r)
unfolding start_new_peer
new_peer-SameOrder mask i r = ground arith

new_peers-IsOrdered :
    (mask : ℕ) (is : List ℕ) (r : Raft) → IsOrdered r → IsOrdered (start_new_peers mask is r)
unfolding start_new_peers
new_peers-IsOrdered mask [] r o = o
new_peers-IsOrdered mask (i ∷ is) r o =
    new_peers-IsOrdered mask is (start_new_peer mask i r)
      (SameOrder-IsOrdered r _ (new_peer-SameOrder mask i r) o)

pub change-IsOrdered :
    (alloc : ℕ → Bool) (r : Raft) (mask : ℕ)
    → IsOrdered r
    → IsOrdered (raft_change_config alloc r mask).0
unfolding raft_change_config
change-IsOrdered alloc r mask o =
    let a = log_append alloc r (config_entry r mask) in
    let appended = log_append-IsOrdered alloc r (config_entry r mask) o in
    let b : Raft = record (own_match a.0) {
      pending_config_index = some (raft_last_log_index a.0);
    } in
    let opened =
      new_peers-IsOrdered mask all_nodes b
        (SameOrder-IsOrdered a.0 b (refl, refl, refl, refl) appended) in
    ground arith

pub read-IsOrdered : (r : Raft) (out : Outbox) → IsOrdered r → IsOrdered (raft_read_index r out).0
unfolding raft_read_index raft_last_log_index
read-IsOrdered r out o = ground arith

compacted-IsOrdered :
    (r : Raft) (index sm_state : ℕ)
    → r.log_base < index
    → index ≤ r.commit_index
    → index ≤ raft_last_log_index r
    → IsOrdered r
    → IsOrdered (compacted r index sm_state)
unfolding compacted
compacted-IsOrdered r index sm_state above committed inside o =
    let last = compacted-last r index sm_state above inside in
    record {
      some_log = omega arith;
      base = committed;
      applied = o.applied;
      inside = omega (arith, o.inside);
    }

rc-cases : (rc : Rc) → (rc ≡ ok) ⊎ (rc ≡ fail)
rc-cases ok = inl refl
rc-cases fail = inr refl

pub snapshot-IsOrdered :
    (r : Raft) (index sm_state : ℕ) → IsOrdered r → IsOrdered (raft_snapshot r index sm_state).0
unfolding raft_snapshot
snapshot-IsOrdered r index sm_state o = elim (rc-cases (raft_snapshot r index sm_state).1) [
  | inl done ↦
      let (above, committed, inside, node) = snapshot-ok r index sm_state done in
      rw node (compacted-IsOrdered r index sm_state above committed inside o)
  | inr refused ↦ ground arith
]

pub crash-IsOrdered : (r : Raft) → IsOrdered r → IsOrdered (raft_crash_restart r)
unfolding raft_crash_restart raft_last_log_index
crash-IsOrdered r o = ground arith
