-- ===== src/Raft/Order.antt =====
-- src/raft.c: the clock and each handler keep the order of the indices.
use db_hobby.Base.{
  ℕ, ◌+◌, ◌%◌, refl, inl, inr, Bool, false, none, some, List, [], ◌∷◌, arith, ltb, u64_mod,
  Option-cases, Bool-cases,
}
use db_hobby.Raft.Types.{
  Raft, RaftMsg, RaftMsgType, RaftEntry, Outbox, leader, follower, candidate, all_nodes,
  msg_request_vote, msg_request_vote_reply, msg_append_entries, msg_append_entries_reply,
  msg_install_snapshot, msg_install_snapshot_reply,
}
use db_hobby.Raft.Log.{
  become_follower, raft_last_log_index, step_down_if_higher, term_at, recompute_member_mask,
}
use db_hobby.Raft.Commit.{leader_advance_commit}
use db_hobby.Raft.Elect.{
  reset_peer, reset_peers, append_noop, noop_entry, take_office, open_gate, become_leader,
  become_candidate, raft_tick, handle_request_vote, handle_request_vote_reply,
}
use db_hobby.Raft.Follow.{
  replicate_log, follow_commit, answer_append, handle_append_entries, handle_install_snapshot,
}
use db_hobby.Raft.Lead.{
  note_match, count_ack, handle_append_entries_reply, handle_install_snapshot_reply,
}
use db_hobby.Raft.Recv.{raft_recv, recv_as}
use db_hobby.Raft.Bounds.{
  IsOrdered, SameOrder, SameOrder-IsOrdered, log_append-IsOrdered, leader_advance-IsOrdered,
  follow-IsOrdered, Respects, place_entries-IsOrdered,
}

reset_peer-SameOrder : (i : ℕ) (r : Raft) → SameOrder r (reset_peer i r)
unfolding reset_peer
reset_peer-SameOrder i r = ground arith

reset-IsOrdered : (is : List ℕ) (r : Raft) → IsOrdered r → IsOrdered (reset_peers is r)
unfolding reset_peers
reset-IsOrdered [] r o = o
reset-IsOrdered (i ∷ is) r o =
    reset-IsOrdered is (reset_peer i r) (SameOrder-IsOrdered r _ (reset_peer-SameOrder i r) o)

noop-IsOrdered : (alloc : ℕ → Bool) (r : Raft) → IsOrdered r → IsOrdered (append_noop alloc r)
unfolding append_noop
noop-IsOrdered alloc r o = elim (Bool-cases (ltb r.commit_index (raft_last_log_index r))) [
  | inl y ↦ rw y (log_append-IsOrdered alloc r (noop_entry r) o)
  | inr n ↦ rw n o
]

become_leader-IsOrdered :
    (alloc : ℕ → Bool) (r : Raft) (out : Outbox)
    → IsOrdered r
    → IsOrdered (become_leader alloc r out).0
unfolding become_leader take_office
become_leader-IsOrdered alloc r out o =
    let s : Raft = record r {
      role = leader;
      read_barrier_index = none;
      read_confirmed_index = none;
    } in
    let reset = reset-IsOrdered all_nodes s (SameOrder-IsOrdered r s (refl, refl, refl, refl) o) in
    let t = append_noop alloc (reset_peers all_nodes s) in
    let office = noop-IsOrdered alloc (reset_peers all_nodes s) reset in
    let g = open_gate t in
    let gate = SameOrder-IsOrdered t g (refl, refl, refl, refl) office in
    SameOrder-IsOrdered (leader_advance_commit g) _ (refl, refl, refl, refl)
      (leader_advance-IsOrdered g gate)

become_candidate-IsOrdered :
    (alloc : ℕ → Bool) (r : Raft) (out : Outbox)
    → IsOrdered r
    → IsOrdered (become_candidate alloc r out).0
unfolding become_candidate raft_last_log_index
become_candidate-IsOrdered alloc r out o =
    let c : Raft = record r {
      current_term = (r.current_term + 1) % u64_mod;
      role = candidate;
      voted_for = some r.id;
      votes_granted = 1;
      election_elapsed = 0;
    } in
    ground (arith, become_leader-IsOrdered alloc c out)

pub tick-IsOrdered :
    (alloc : ℕ → Bool) (r : Raft) (out : Outbox) → IsOrdered r → IsOrdered (raft_tick alloc r out).0
unfolding raft_tick raft_last_log_index
tick-IsOrdered alloc r out o =
    let t : Raft = record r { election_elapsed = r.election_elapsed + 1 } in
    ground (arith, become_candidate-IsOrdered alloc t out)

vote-IsOrdered : (r : Raft) (msg : RaftMsg) → IsOrdered r → IsOrdered (handle_request_vote r msg).0
unfolding handle_request_vote raft_last_log_index
vote-IsOrdered r msg o = ground arith

vote_reply-IsOrdered :
    (alloc : ℕ → Bool) (r : Raft) (msg : RaftMsg) (out : Outbox)
    → IsOrdered r
    → IsOrdered (handle_request_vote_reply alloc r msg out).0
unfolding handle_request_vote_reply become_follower raft_last_log_index
vote_reply-IsOrdered alloc r msg out o =
    let v : Raft = record r { votes_granted = r.votes_granted + 1 } in
    ground (arith, become_leader-IsOrdered alloc v out)

replicate-IsOrdered :
    (alloc : ℕ → Bool) (r : Raft) (msg : RaftMsg)
    → IsOrdered r
    → Respects r (msg.prev_log_index + 1) msg.entries
    → IsOrdered (replicate_log alloc r msg)
unfolding replicate_log recompute_member_mask raft_last_log_index
replicate-IsOrdered alloc r msg o h =
    let p = place_entries-IsOrdered alloc (msg.prev_log_index + 1) msg.entries r false o h in
    ground arith

Respects-SameOrder :
    (a b : Raft) (idx : ℕ) (es : List RaftEntry)
    → SameOrder a b
    → Respects a idx es
    → Respects b idx es
unfolding term_at
Respects-SameOrder a b idx [] s h = tt
Respects-SameOrder a b idx (e ∷ es) s h = (
  λ p q. rw (s.0, s.1) (h.0 (omega arith) (omega arith)),
  Respects-SameOrder a b (idx + 1) es s h.1,
)

listening-SameOrder : (r : Raft) (msg : RaftMsg) → SameOrder r (step_down_if_higher r msg.term)
unfolding step_down_if_higher
listening-SameOrder r msg = ground arith

answer-cases :
    (alloc : ℕ → Bool) (s : Raft) (msg : RaftMsg)
    → IsOrdered s
    → IsOrdered (record s { role = follower; election_elapsed = 0 })
    → IsOrdered (
        follow_commit
          (replicate_log alloc (record s { role = follower; election_elapsed = 0 }) msg)
          msg.leader_commit)
    → IsOrdered (answer_append alloc s msg).0
unfolding answer_append
answer-cases alloc s msg a b c = ground arith

append-IsOrdered :
    (alloc : ℕ → Bool) (r : Raft) (msg : RaftMsg)
    → IsOrdered r
    → Respects r (msg.prev_log_index + 1) msg.entries
    → IsOrdered (handle_append_entries alloc r msg).0
unfolding handle_append_entries answer_append
append-IsOrdered alloc r msg o h =
    let s = step_down_if_higher r msg.term in
    let f : Raft = record s { role = follower; election_elapsed = 0 } in
    let same = listening-SameOrder r msg in
    let of = SameOrder-IsOrdered r f same o in
    let os = SameOrder-IsOrdered r s same o in
    let hf = Respects-SameOrder r f (msg.prev_log_index + 1) msg.entries same h in
    let done =
      follow-IsOrdered (replicate_log alloc f msg) msg.leader_commit
        (replicate-IsOrdered alloc f msg of hf) in
    answer-cases alloc s msg os of done

install-IsOrdered :
    (r : Raft) (msg : RaftMsg) → IsOrdered r → IsOrdered (handle_install_snapshot r msg).0
unfolding handle_install_snapshot raft_last_log_index
install-IsOrdered r msg o = ground arith

note_match-IsOrdered :
    (r : Raft) (from match : ℕ) → IsOrdered r → IsOrdered (note_match r from match)
unfolding note_match raft_last_log_index
note_match-IsOrdered r from match o = ground arith

count_ack-IsOrdered : (r : Raft) (msg : RaftMsg) → IsOrdered r → IsOrdered (count_ack r msg)
unfolding count_ack raft_last_log_index
count_ack-IsOrdered r msg o = elim (Option-cases r.read_barrier_index) [
  | inl e ↦ ground arith
  | inr (b, e) ↦ ground arith
]

append_reply-IsOrdered :
    (r : Raft) (msg : RaftMsg) → IsOrdered r → IsOrdered (handle_append_entries_reply r msg)
unfolding handle_append_entries_reply become_follower raft_last_log_index
append_reply-IsOrdered r msg o =
    let m = note_match r msg.from msg.match_index in
    let advanced = leader_advance-IsOrdered m (note_match-IsOrdered r msg.from msg.match_index o) in
    let counted = count_ack-IsOrdered (leader_advance_commit m) msg advanced in ground arith

snapshot_reply-IsOrdered :
    (r : Raft) (msg : RaftMsg) → IsOrdered r → IsOrdered (handle_install_snapshot_reply r msg)
unfolding handle_install_snapshot_reply become_follower raft_last_log_index
snapshot_reply-IsOrdered r msg o =
    let m = note_match r msg.from msg.match_index in
    let advanced = leader_advance-IsOrdered m (note_match-IsOrdered r msg.from msg.match_index o) in
    ground arith

-- What an AppendEntries message must not do: contradict an entry that the node has committed.
-- The protocol's leaders keep to it; it is no check of the node.
abbrev pub Accords : RaftMsgType → Raft → RaftMsg → Type 0
Accords msg_append_entries r msg = Respects r (msg.prev_log_index + 1) msg.entries
Accords _ r msg = Unit

pub recv-IsOrdered :
    (alloc : ℕ → Bool) (r : Raft) (msg : RaftMsg) (out : Outbox)
    → Accords msg.type r msg
    → IsOrdered r
    → IsOrdered (raft_recv alloc r msg out).node
unfolding raft_recv
recv-IsOrdered alloc r msg out h o = by_type msg.type h
  where
    by_type : (t : RaftMsgType) → Accords t r msg → IsOrdered (recv_as t alloc r msg out).node
    by_type msg_request_vote h = vote-IsOrdered r msg o
    by_type msg_request_vote_reply h = vote_reply-IsOrdered alloc r msg out o
    by_type msg_append_entries h = append-IsOrdered alloc r msg o h
    by_type msg_append_entries_reply h = append_reply-IsOrdered r msg o
    by_type msg_install_snapshot h = install-IsOrdered r msg o
    by_type msg_install_snapshot_reply h = snapshot_reply-IsOrdered r msg o
