-- ===== src/Raft/Terms.antt =====
-- src/raft.c, `raft_recv`: every message keeps the term and the vote, and the one case that does
-- not.
use db_hobby.Base.{
  ℕ, ◌+◌, ◌≡◌, ◌≢◌, inl, inr, Bool, true, false, none, List, [], ◌∷◌, arith, Option-cases,
}
use db_hobby.Raft.Types.{
  Raft, RaftMsg, RaftMsgType, Outbox, all_nodes, leader, msg_request_vote, msg_request_vote_reply,
  msg_append_entries, msg_append_entries_reply, msg_install_snapshot, msg_install_snapshot_reply,
}
use db_hobby.Raft.Log.{raft_is_member, log_append, maybe_adopt_config, become_follower}
use db_hobby.Raft.Commit.{leader_advance_commit}
use db_hobby.Raft.Elect.{
  reset_peer, reset_peers, append_noop, take_office, open_gate, become_leader,
  handle_request_vote_reply,
}
use db_hobby.Raft.Lead.{
  note_match, count_ack, handle_append_entries_reply, handle_install_snapshot_reply,
}
use db_hobby.Raft.Recv.{recv_as, raft_recv}
use db_hobby.Raft.Frame.{leader_advance-Same, leader_advance-removed}
use db_hobby.Raft.Votes.{
  Keeps, SameVote, request_vote-Keeps, append_entries-Keeps, install_snapshot-Keeps,
}

-- Term, vote, id and members.
abbrev SameSeat : Raft → Raft → Type 0
SameSeat r r' =
    (r'.current_term ≡ r.current_term)
    × (r'.voted_for ≡ r.voted_for)
    × (r'.id ≡ r.id)
    × (r'.member_mask ≡ r.member_mask)

reset_peer-SameSeat : (i : ℕ) (r : Raft) → SameSeat r (reset_peer i r)
unfolding reset_peer
reset_peer-SameSeat i r = ground arith

reset-SameSeat : (is : List ℕ) (r : Raft) → SameSeat r (reset_peers is r)
unfolding reset_peers
reset-SameSeat [] r = ground arith
reset-SameSeat (i ∷ is) r =
    ground (arith, reset_peer-SameSeat i r, reset-SameSeat is (reset_peer i r))

noop-SameSeat : (alloc : ℕ → Bool) (r : Raft) → SameSeat r (append_noop alloc r)
unfolding append_noop log_append maybe_adopt_config
noop-SameSeat alloc r = ground arith

office-SameSeat : (alloc : ℕ → Bool) (r : Raft) → SameSeat r (take_office alloc r)
unfolding take_office
office-SameSeat alloc r =
    let s : Raft = record r {
      role = leader;
      read_barrier_index = none;
      read_confirmed_index = none;
    } in
    ground (arith, reset-SameSeat all_nodes s, noop-SameSeat alloc (reset_peers all_nodes s))

advance-SameVote : (r : Raft) → raft_is_member r r.id ≡ true → SameVote r (leader_advance_commit r)
advance-SameVote r h = let (a, _, b) = leader_advance-Same r in (a.current_term, (b h).voted_for)

is_member-SameSeat :
    (r r' : Raft) → SameSeat r r' → raft_is_member r r.id ≡ true → raft_is_member r' r'.id ≡ true
unfolding raft_is_member
is_member-SameSeat r r' s h = ground arith

become_leader-SameVote :
    (alloc : ℕ → Bool) (r : Raft) (out : Outbox)
    → raft_is_member r r.id ≡ true
    → SameVote r (become_leader alloc r out).0
unfolding become_leader
become_leader-SameVote alloc r out h =
    let o = office-SameSeat alloc r in
    let g = open_gate (take_office alloc r) in
    let (a, b) = advance-SameVote g (is_member-SameSeat r g o h) in (cc, cc)

vote_reply-Keeps :
    (alloc : ℕ → Bool) (r : Raft) (msg : RaftMsg) (out : Outbox)
    → raft_is_member r r.id ≡ true
    → Keeps r (handle_request_vote_reply alloc r msg out).0
unfolding handle_request_vote_reply become_follower raft_is_member
vote_reply-Keeps alloc r msg out h =
    let v : Raft = record r { votes_granted = r.votes_granted + 1 } in
    ground (arith, become_leader-SameVote alloc v out)

note_match-SameSeat : (r : Raft) (from match : ℕ) → SameSeat r (note_match r from match)
unfolding note_match
note_match-SameSeat r from match = ground arith

count_ack-SameSeat : (r : Raft) (msg : RaftMsg) → SameSeat r (count_ack r msg)
unfolding count_ack
count_ack-SameSeat r msg = elim (Option-cases r.read_barrier_index) [
  | inl e ↦ ground arith
  | inr (b, e) ↦ ground arith
]

append_reply-Keeps :
    (r : Raft) (msg : RaftMsg)
    → raft_is_member r r.id ≡ true
    → Keeps r (handle_append_entries_reply r msg)
unfolding handle_append_entries_reply become_follower
append_reply-Keeps r msg h =
    let m = note_match r msg.from msg.match_index in
    let seat = note_match-SameSeat r msg.from msg.match_index in
    ground (
      arith,
      advance-SameVote m (is_member-SameSeat r m seat h),
      count_ack-SameSeat (leader_advance_commit m) msg,
    )

snapshot_reply-Keeps :
    (r : Raft) (msg : RaftMsg)
    → raft_is_member r r.id ≡ true
    → Keeps r (handle_install_snapshot_reply r msg)
unfolding handle_install_snapshot_reply become_follower
snapshot_reply-Keeps r msg h =
    let m = note_match r msg.from msg.match_index in
    let seat = note_match-SameSeat r msg.from msg.match_index in
    ground (arith, advance-SameVote m (is_member-SameSeat r m seat h))

-- Whatever message a member receives, its term does not fall, and while the term stays, a vote
-- that it gave in that term stands.
pub recv-Keeps :
    (alloc : ℕ → Bool) (r : Raft) (msg : RaftMsg) (out : Outbox)
    → raft_is_member r r.id ≡ true
    → Keeps r (raft_recv alloc r msg out).node
unfolding raft_recv
recv-Keeps alloc r msg out h = by_type msg.type
  where
    by_type : (t : RaftMsgType) → Keeps r (recv_as t alloc r msg out).node
    by_type msg_request_vote = request_vote-Keeps r msg
    by_type msg_request_vote_reply = vote_reply-Keeps alloc r msg out h
    by_type msg_append_entries = append_entries-Keeps alloc r msg
    by_type msg_append_entries_reply = append_reply-Keeps r msg h
    by_type msg_install_snapshot = install_snapshot-Keeps r msg
    by_type msg_install_snapshot_reply = snapshot_reply-Keeps r msg h

-- A leader that has appended its own removal, and commits on a reply to AppendEntries, forgets its
-- vote without a new term: a vote request of that term finds no vote on record.
pub removed_leader_forgets_vote :
    (r : Raft) (msg : RaftMsg)
    → raft_is_member r r.id ≡ false
    → (handle_append_entries_reply r msg).commit_index ≢ r.commit_index
    → ((handle_append_entries_reply r msg).voted_for ≡ none)
      × ((handle_append_entries_reply r msg).current_term ≡ r.current_term)
unfolding handle_append_entries_reply become_follower raft_is_member note_match count_ack
removed_leader_forgets_vote r msg h moved =
    let m = note_match r msg.from msg.match_index in
    elim (Option-cases (leader_advance_commit m).read_barrier_index) [
      | inl e ↦ ground (arith, leader_advance-removed m, leader_advance-Same m)
      | inr (b, e) ↦ ground (arith, leader_advance-removed m, leader_advance-Same m)
    ]
