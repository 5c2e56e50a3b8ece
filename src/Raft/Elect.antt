-- ===== src/Raft/Elect.antt =====
-- src/raft.c: elections, and the logical clock.
use db_hobby.Base.{
  ℕ, ◌+◌, ◌%◌, Bool, true, false, ◌&&◌, ◌||◌, not, none, some, List, [], ◌∷◌, ◌==◌, ltb, leb,
  if◌then◌else◌, update, u64_mod,
}
use db_hobby.Raft.Types.{
  Raft, RaftMsg, RaftEntry, blank_msg, msg_request_vote, msg_request_vote_reply, Outbox, all_nodes,
  leader, candidate, is_leader, is_candidate,
}
use db_hobby.Raft.Log.{
  raft_last_log_index, raft_last_log_term, raft_is_member, log_append, majority,
  candidate_log_up_to_date, become_follower, step_down_if_higher,
}
use db_hobby.Raft.Commit.{leader_advance_commit}
use db_hobby.Raft.Send.{push_msg, send_heartbeats}

unfoldable pub reset_peer : ℕ → Raft → Raft
reset_peer i r =
    if raft_is_member r i
    then record r {
      next_index = update r.next_index i (raft_last_log_index r + 1);
      match_index = update r.match_index i 0;
    }
    else r

-- The loop that starts every member at the end of the leader's log.
unfoldable pub reset_peers : List ℕ → Raft → Raft
reset_peers [] r = r
reset_peers (i ∷ is) r = reset_peers is (reset_peer i r)

abbrev pub noop_entry : Raft → RaftEntry
noop_entry r = record { term = r.current_term; command = 0; is_config = false; is_noop = true }

-- A no-op of the new term, if the log goes on past the commit index.
unfoldable pub append_noop : (ℕ → Bool) → Raft → Raft
append_noop alloc r =
    if ltb r.commit_index (raft_last_log_index r) then (log_append alloc r (noop_entry r)).0 else r

unfoldable pub take_office : (ℕ → Bool) → Raft → Raft
take_office alloc r = append_noop alloc (
    reset_peers all_nodes
      (record r { role = leader; read_barrier_index = none; read_confirmed_index = none }))

abbrev pub open_gate : Raft → Raft
open_gate r = record r {
  read_gate_index = raft_last_log_index r;
  match_index = update r.match_index r.id (raft_last_log_index r);
}

unfoldable pub become_leader : (ℕ → Bool) → Raft → Outbox → Raft × Outbox
unfolding take_office
become_leader alloc r out =
    let r1 = leader_advance_commit (open_gate (take_office alloc r)) in
    let r2 : Raft = record r1 { heartbeat_elapsed = 0 } in (r2, send_heartbeats r2 out)

abbrev pub vote_request : Raft → ℕ → RaftMsg
vote_request r i = record blank_msg {
  type = msg_request_vote;
  from = r.id;
  to = i;
  term = r.current_term;
  last_log_index = raft_last_log_index r;
  last_log_term = raft_last_log_term r;
}

unfoldable pub request_votes : Raft → List ℕ → Outbox → Outbox
request_votes r [] out = out
request_votes r (i ∷ is) out =
    request_votes r is
      (if i == r.id || not (raft_is_member r i) then out else push_msg out (vote_request r i))

unfoldable pub become_candidate : (ℕ → Bool) → Raft → Outbox → Raft × Outbox
become_candidate alloc r out =
    let c : Raft = record r {
      current_term = (r.current_term + 1) % u64_mod;
      role = candidate;
      voted_for = some r.id;
      votes_granted = 1;
      election_elapsed = 0;
    } in
    if leb (majority c) 1 then become_leader alloc c out else (c, request_votes c all_nodes out)

unfoldable pub raft_tick : (ℕ → Bool) → Raft → Outbox → Raft × Outbox
raft_tick alloc r out =
    if is_leader r.role
    then (let t : Raft = record r { heartbeat_elapsed = r.heartbeat_elapsed + 1 } in
        if leb t.heartbeat_timeout t.heartbeat_elapsed
        then (
          record t { heartbeat_elapsed = 0 },
          send_heartbeats (record t { heartbeat_elapsed = 0 }) out,
        )
        else (t, out))
    else if raft_is_member r r.id
    then (let t : Raft = record r { election_elapsed = r.election_elapsed + 1 } in
        if leb t.election_timeout t.election_elapsed
        then become_candidate alloc t out
        else (t, out))
    else (r, out)

abbrev pub can_vote : Raft → ℕ → Bool
can_vote r c = elim r.voted_for [ none ↦ true | some v ↦ v == c ]

abbrev pub vote_reply : Raft → RaftMsg → Bool → RaftMsg
vote_reply r msg granted = record blank_msg {
  type = msg_request_vote_reply;
  from = r.id;
  to = msg.from;
  term = r.current_term;
  vote_granted = granted;
}

-- The part of `handle_request_vote` after `step_down_if_higher`.
unfoldable pub answer_vote : Raft → RaftMsg → Raft × RaftMsg
answer_vote r msg =
    if ltb msg.term r.current_term
    then (r, vote_reply r msg false)
    else if can_vote r msg.from && candidate_log_up_to_date r msg.last_log_index msg.last_log_term
    then (record r { voted_for = some msg.from; election_elapsed = 0 }, vote_reply r msg true)
    else (r, vote_reply r msg false)

unfoldable pub handle_request_vote : Raft → RaftMsg → Raft × RaftMsg
unfolding answer_vote step_down_if_higher
handle_request_vote r msg = answer_vote (step_down_if_higher r msg.term) msg

unfoldable pub handle_request_vote_reply : (ℕ → Bool) → Raft → RaftMsg → Outbox → Raft × Outbox
handle_request_vote_reply alloc r msg out =
    if ltb r.current_term msg.term
    then (become_follower r msg.term, out)
    else if not (is_candidate r.role) || not (msg.term == r.current_term)
    then (r, out)
    else if msg.vote_granted
    then (let v : Raft = record r { votes_granted = r.votes_granted + 1 } in
        if leb (majority v) v.votes_granted then become_leader alloc v out else (v, out))
    else (r, out)
