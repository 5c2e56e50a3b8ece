-- ===== src/Raft/Lead.antt =====
-- src/raft.c: the client's calls on a leader, and the replies that it receives.
use Prim.Native.Nat.{bit_and, bit_or, bit_xor}
use db_hobby.Base.{
  ℕ, ◌+◌, ◌-◌, ◌/◌, ◌%◌, ◌^◌, Bool, true, false, ◌&&◌, ◌||◌, not, Option, none, some, List, [], ◌∷◌,
  ◌==◌, ltb, leb, if◌then◌else◌, update, u64_mod, ok, fail,
}
use db_hobby.Raft.Types.{Raft, RaftMsg, RaftEntry, Outbox, all_nodes, is_leader}
use db_hobby.Raft.Log.{
  raft_last_log_index, raft_is_member, log_append, member_count, majority, become_follower,
}
use db_hobby.Raft.Commit.{leader_advance_commit, count_where}
use db_hobby.Raft.Send.{send_heartbeats}

abbrev pub own_match : Raft → Raft
own_match r = record r { match_index = update r.match_index r.id (raft_last_log_index r) }

abbrev pub command_entry : Raft → ℕ → RaftEntry
command_entry r command = record {
  term = r.current_term;
  command = command;
  is_config = false;
  is_noop = false;
}

unfoldable pub raft_submit : (ℕ → Bool) → Raft → ℕ → Raft × Option ℕ
raft_submit alloc r command =
    if not (is_leader r.role)
    then (r, none)
    else (let (a, rc) = log_append alloc r (command_entry r command) in
        elim rc [ fail ↦ (a, none) | ok ↦ (own_match a, some (raft_last_log_index a)) ])

-- `diff == 0 || (diff & (diff - 1)) != 0`
unfoldable pub is_one_bit : ℕ → Bool
is_one_bit diff = not (diff == 0) && bit_and diff (diff - 1) == 0

unfoldable pub change_pending : Raft → Bool
change_pending r = elim r.pending_config_index [ none ↦ false | some p ↦ ltb r.commit_index p ]

unfoldable pub start_new_peer : ℕ → ℕ → Raft → Raft
start_new_peer new_mask i r =
    if (new_mask / 2 ^ i) % 2 == 1 && not (i == r.id) && r.next_index i == 0
    then record r { next_index = update r.next_index i 1; match_index = update r.match_index i 0 }
    else r

unfoldable pub start_new_peers : ℕ → List ℕ → Raft → Raft
start_new_peers new_mask [] r = r
start_new_peers new_mask (i ∷ is) r = start_new_peers new_mask is (start_new_peer new_mask i r)

abbrev pub config_entry : Raft → ℕ → RaftEntry
config_entry r new_mask = record {
  term = r.current_term;
  command = new_mask;
  is_config = true;
  is_noop = false;
}

unfoldable pub raft_change_config : (ℕ → Bool) → Raft → ℕ → Raft × Option ℕ
raft_change_config alloc r new_mask =
    if not (is_leader r.role)
    then (r, none)
    else if not (is_one_bit (bit_xor r.member_mask new_mask))
    then (r, none)
    else if change_pending r
    then (r, none)
    else (let (a, rc) = log_append alloc r (config_entry r new_mask) in
        elim rc [
          | fail ↦ (a, none)
          | ok ↦ (
            start_new_peers new_mask all_nodes
                (record (own_match a) { pending_config_index = some (raft_last_log_index a) }),
            some (raft_last_log_index a),
          )
        ])

-- A new read barrier at the commit index.
abbrev pub open_barrier : Raft → Raft
open_barrier r = record r {
  read_barrier_index = some r.commit_index;
  read_confirmed_index = none;
  read_ack_mask = 2 ^ r.id;
  read_epoch = (r.read_epoch + 1) % u64_mod;
}

abbrev pub confirm_read : Raft → Raft
confirm_read r = record r { read_confirmed_index = r.read_barrier_index; read_barrier_index = none }

unfoldable pub raft_read_index : Raft → Outbox → Raft × Option ℕ × Outbox
raft_read_index r out =
    if not (is_leader r.role)
    then (r, none, out)
    else if ltb r.commit_index r.read_gate_index
    then (r, none, out)
    else (let b = open_barrier r in
        let b' : Raft = if member_count b == 1 then confirm_read b else b in
        (b', some b'.commit_index, send_heartbeats b' out))

unfoldable pub has_acked : Raft → ℕ → Bool
has_acked r i = (r.read_ack_mask / 2 ^ i) % 2 == 1

-- The members that have answered a heartbeat of the open barrier.
unfoldable pub read_acks : Raft → ℕ
read_acks r = count_where (λ i. raft_is_member r i && has_acked r i) all_nodes

unfoldable pub note_match : Raft → ℕ → ℕ → Raft
note_match r from match =
    let m : Raft =
      if ltb (r.match_index from) match
      then record r { match_index = update r.match_index from match }
      else r in
    record m { next_index = update m.next_index from (m.match_index from + 1) }

-- The reply to a heartbeat of the open barrier is counted; one of an older epoch is not.
unfoldable pub count_ack : Raft → RaftMsg → Raft
count_ack r msg = elim r.read_barrier_index [
  | none ↦ r
  | some b ↦
      if msg.read_epoch == r.read_epoch
      then (let a : Raft = record r { read_ack_mask = bit_or r.read_ack_mask (2 ^ msg.from) } in
          if leb (majority a) (read_acks a) then confirm_read a else a)
      else r
]

unfoldable pub handle_append_entries_reply : Raft → RaftMsg → Raft
unfolding note_match
handle_append_entries_reply r msg =
    if ltb r.current_term msg.term
    then become_follower r msg.term
    else if not (is_leader r.role) || not (msg.term == r.current_term)
    then r
    else if msg.success
    then count_ack (leader_advance_commit (note_match r msg.from msg.match_index)) msg
    else if ltb 1 (r.next_index msg.from)
    then record r { next_index = update r.next_index msg.from (r.next_index msg.from - 1) }
    else r

unfoldable pub handle_install_snapshot_reply : Raft → RaftMsg → Raft
unfolding note_match
handle_install_snapshot_reply r msg =
    if ltb r.current_term msg.term
    then become_follower r msg.term
    else if not (is_leader r.role) || not (msg.term == r.current_term)
    then r
    else leader_advance_commit (note_match r msg.from msg.match_index)
