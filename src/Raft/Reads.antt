-- ===== src/Raft/Reads.antt =====
-- src/raft.c, `raft_read_index`, `handle_append_entries_reply`: linearizable reads.
use Prim.Native.Nat.{bit_or}
use db_hobby.Base.{
  ℕ, ◌+◌, ◌^◌, ◌%◌, ◌≤◌, ◌≡◌, refl, inl, inr, true, none, some, arith, u64_mod, Option-cases,
}
use db_hobby.Raft.Types.{Raft, RaftMsg, Outbox, is_leader}
use db_hobby.Raft.Log.{raft_is_member, majority, member_count, become_follower}
use db_hobby.Raft.Commit.{leader_advance_commit}
use db_hobby.Raft.Lead.{
  raft_read_index, read_acks, has_acked, count_ack, note_match, handle_append_entries_reply,
}
use db_hobby.Raft.Frame.{SameOffice, leader_advance-Same}

-- A read begins only at a leader whose commit index has reached the last index that it had when it
-- was elected. The read index is the commit index, and every heartbeat sent for the read carries
-- an epoch of its own.
pub read_index_some :
    (r : Raft) (out : Outbox) (i : ℕ)
    → (raft_read_index r out).1 ≡ some i
    → (is_leader r.role ≡ true)
      × (r.read_gate_index ≤ r.commit_index)
      × (i ≡ r.commit_index)
      × ((raft_read_index r out).0.read_epoch ≡ (r.read_epoch + 1) % u64_mod)
      × ((raft_read_index r out).0.commit_index ≡ r.commit_index)
unfolding raft_read_index
read_index_some r out i h = ground arith

-- The members that have answered, with the sender of the message among them.
abbrev pub with_ack : Raft → ℕ → Raft
with_ack r from = record r { read_ack_mask = bit_or r.read_ack_mask (2 ^ from) }

with_ack-majority : (r : Raft) (from : ℕ) → majority (with_ack r from) ≡ majority r
unfolding majority member_count
with_ack-majority r from = refl

count_ack-confirms :
    (r : Raft) (msg : RaftMsg) (c : ℕ)
    → r.read_confirmed_index ≡ none
    → (count_ack r msg).read_confirmed_index ≡ some c
    → (r.read_barrier_index ≡ some c)
      × (msg.read_epoch ≡ r.read_epoch)
      × (majority r ≤ read_acks (with_ack r msg.from))
unfolding count_ack
count_ack-confirms r msg c before after = elim (Option-cases r.read_barrier_index) [
  | inl e ↦ absurd (ground arith)
  | inr (b, e) ↦ ground (arith, with_ack-majority r msg.from)
]

noted :
    (r : Raft) (from match : ℕ)
    → (raft_is_member (note_match r from match) (note_match r from match).id
        ≡ raft_is_member r r.id)
      × SameOffice r (note_match r from match)
      × ((note_match r from match).read_epoch ≡ r.read_epoch)
      × ((note_match r from match).member_mask ≡ r.member_mask)
      × ((note_match r from match).read_ack_mask ≡ r.read_ack_mask)
unfolding note_match raft_is_member
noted r from match = ground arith

acks-Same :
    (r a : Raft) (from : ℕ)
    → a.member_mask ≡ r.member_mask
    → a.read_ack_mask ≡ r.read_ack_mask
    → (read_acks (with_ack a from) ≡ read_acks (with_ack r from)) × (majority a ≡ majority r)
unfolding read_acks majority member_count raft_is_member has_acked
acks-Same r a from mask acks = (rw (mask, acks) refl, rw mask refl)

-- At a node that is a member by its own mask and has no confirmed read, a reply confirms a pending
-- read only if the node is a leader, and the reply a success in its term, with the epoch of that
-- read, and only if the members that have answered, the sender among them, are a majority.
pub read_confirmed_by_majority :
    (r : Raft) (msg : RaftMsg) (c : ℕ)
    → r.read_confirmed_index ≡ none
    → raft_is_member r r.id ≡ true
    → (handle_append_entries_reply r msg).read_confirmed_index ≡ some c
    → (is_leader r.role ≡ true)
      × (msg.term ≡ r.current_term)
      × (msg.success ≡ true)
      × (r.read_barrier_index ≡ some c)
      × (msg.read_epoch ≡ r.read_epoch)
      × (majority r ≤ read_acks (with_ack r msg.from))
unfolding handle_append_entries_reply become_follower
read_confirmed_by_majority r msg c before seat after =
    let m = note_match r msg.from msg.match_index in
    let a = leader_advance_commit m in
    ground (
      arith,
      count_ack-confirms a msg c,
      acks-Same r a msg.from,
      noted r msg.from msg.match_index,
      leader_advance-Same m,
    )
