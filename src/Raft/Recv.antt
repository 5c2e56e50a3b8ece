-- ===== src/Raft/Recv.antt =====
-- src/raft.c: the start, the dispatch of a message, compaction, and a restart after a crash.
use db_hobby.Base.{
  ℕ, ◌+◌, ◌-◌, ◌^◌, Bool, false, ◌||◌, not, Option, none, some, [], ◌∷◌, ltb, leb, if◌then◌else◌,
  take, drop, Rc, ok, fail,
}
use db_hobby.Raft.Types.{
  Raft, RaftMsg, RaftMsgType, Outbox, marker, follower, raft_max_nodes, msg_request_vote,
  msg_request_vote_reply, msg_append_entries, msg_append_entries_reply, msg_install_snapshot,
  msg_install_snapshot_reply,
}
use db_hobby.Raft.Log.{raft_last_log_index, term_at, fold_config}
use db_hobby.Raft.Elect.{handle_request_vote, handle_request_vote_reply}
use db_hobby.Raft.Follow.{handle_append_entries, handle_install_snapshot}
use db_hobby.Raft.Lead.{handle_append_entries_reply, handle_install_snapshot_reply}

abbrev pub start_state : ℕ → ℕ → ℕ → ℕ → Bool → Raft
start_state id n_nodes election_timeout heartbeat_timeout has_apply = record {
  id = id;
  n_nodes = n_nodes;
  member_mask = 2 ^ n_nodes - 1;
  base_member_mask = 2 ^ n_nodes - 1;
  pending_config_index = none;
  current_term = 0;
  voted_for = none;
  log = marker 0 ∷ [];
  log_cap = 16;
  log_base = 0;
  snapshot_value = 0;
  role = follower;
  commit_index = 0;
  last_applied = 0;
  votes_granted = 0;
  next_index = λ _. 0;
  match_index = λ _. 0;
  read_gate_index = 0;
  election_elapsed = 0;
  election_timeout = election_timeout;
  heartbeat_elapsed = 0;
  heartbeat_timeout = heartbeat_timeout;
  read_barrier_index = none;
  read_ack_mask = 0;
  read_confirmed_index = none;
  read_epoch = 0;
  has_apply = has_apply;
  has_snap_install = false;
  calls = [];
}

-- `none` where the source returns -1. The mask's branch for 32 nodes or more is out of reach
-- behind the guard.
unfoldable pub raft_init : (ℕ → Bool) → ℕ → ℕ → ℕ → ℕ → Bool → Option Raft
raft_init alloc id n_nodes election_timeout heartbeat_timeout has_apply =
    if ltb n_nodes 1 || ltb raft_max_nodes n_nodes
    then none
    else if not (alloc 16)
    then none
    else some (start_state id n_nodes election_timeout heartbeat_timeout has_apply)

-- The reply, if there is one, and what joins the outbox.
pub record Outcome : Type 0 where
  pub node : Raft
  pub reply : Option RaftMsg
  pub out : Outbox

abbrev pub answered : Raft × RaftMsg → Outbox → Outcome
answered (r, m) out = record { node = r; reply = some m; out = out }

abbrev pub taken : Raft × Outbox → Outcome
taken (r, out) = record { node = r; reply = none; out = out }

unfoldable pub recv_as : RaftMsgType → (ℕ → Bool) → Raft → RaftMsg → Outbox → Outcome
recv_as msg_request_vote alloc r msg out = answered (handle_request_vote r msg) out
recv_as msg_request_vote_reply alloc r msg out = taken (handle_request_vote_reply alloc r msg out)
recv_as msg_append_entries alloc r msg out = answered (handle_append_entries alloc r msg) out
recv_as msg_append_entries_reply alloc r msg out = taken (handle_append_entries_reply r msg, out)
recv_as msg_install_snapshot alloc r msg out = answered (handle_install_snapshot r msg) out
recv_as msg_install_snapshot_reply alloc r msg out =
    taken (handle_install_snapshot_reply r msg, out)

unfoldable pub raft_recv : (ℕ → Bool) → Raft → RaftMsg → Outbox → Outcome
unfolding recv_as
raft_recv alloc r msg out = recv_as msg.type alloc r msg out

-- The state after a compaction: the config entries up to `index` go into the base mask.
unfoldable pub compacted : Raft → ℕ → ℕ → Raft
compacted r index sm_state = record r {
  base_member_mask = fold_config r.base_member_mask (take (index - r.log_base) (drop 1 r.log));
  log = marker (term_at r index) ∷ drop (index + 1 - r.log_base) r.log;
  log_base = index;
  snapshot_value = sm_state;
}

unfoldable pub raft_snapshot : Raft → ℕ → ℕ → Raft × Rc
raft_snapshot r index sm_state =
    if leb index r.log_base || ltb r.commit_index index || ltb (raft_last_log_index r) index
    then (r, fail)
    else (compacted r index sm_state, ok)

unfoldable pub raft_crash_restart : Raft → Raft
raft_crash_restart r = record r {
  role = follower;
  commit_index = r.log_base;
  last_applied = r.log_base;
  votes_granted = 0;
  election_elapsed = 0;
  heartbeat_elapsed = 0;
  pending_config_index = none;
  read_barrier_index = none;
  read_confirmed_index = none;
  next_index = λ _. 0;
  match_index = λ _. 0;
}
