-- ===== src/Raft/Send.antt =====
-- src/raft.c: the messages of a leader. An outbox has room for twice RAFT_MAX_NODES messages.
use db_hobby.Base.{
  ℕ, ◌+◌, ◌-◌, ◌&&◌, not, List, [], ◌∷◌, ◌++◌, ◌==◌, ltb, length, take, drop, if◌then◌else◌, get_or,
}
use db_hobby.Raft.Types.{
  Raft, RaftMsg, blank_msg, msg_install_snapshot, msg_append_entries, Outbox, raft_max_batch,
  all_nodes, marker,
}
use db_hobby.Raft.Log.{term_at, raft_is_member}

unfoldable pub push_msg : Outbox → RaftMsg → Outbox
push_msg out m = if ltb (length out) 14 then out ++ m ∷ [] else out

unfoldable pub install_snapshot_msg : Raft → ℕ → RaftMsg
install_snapshot_msg r peer = record blank_msg {
  type = msg_install_snapshot;
  from = r.id;
  to = peer;
  term = r.current_term;
  last_included_index = r.log_base;
  last_included_term = (get_or r.log 0 (marker 0)).term;
  snapshot_value = r.snapshot_value;
  member_mask = r.base_member_mask;
}

unfoldable pub send_install_snapshot : Raft → ℕ → Outbox → Outbox
unfolding install_snapshot_msg push_msg
send_install_snapshot r peer out = push_msg out (install_snapshot_msg r peer)

-- The loop fills `entries` from `next_index` on, to the end of the log or to the batch size.
unfoldable pub append_entries_msg : Raft → ℕ → RaftMsg
append_entries_msg r peer = record blank_msg {
  type = msg_append_entries;
  from = r.id;
  to = peer;
  term = r.current_term;
  prev_log_index = r.next_index peer - 1;
  prev_log_term = term_at r (r.next_index peer - 1);
  leader_commit = r.commit_index;
  read_epoch = r.read_epoch;
  entries = take raft_max_batch (drop (r.next_index peer - r.log_base) r.log);
}

-- `prev < log_base` for `prev = next_index - 1`, which is -1 where `next_index` is 0
unfoldable pub send_append_entries : Raft → ℕ → Outbox → Outbox
unfolding append_entries_msg push_msg send_install_snapshot
send_append_entries r peer out =
    if ltb (r.next_index peer) (r.log_base + 1)
    then send_install_snapshot r peer out
    else push_msg out (append_entries_msg r peer)

unfoldable pub heartbeat_to : Raft → List ℕ → Outbox → Outbox
heartbeat_to r [] out = out
heartbeat_to r (i ∷ is) out =
    heartbeat_to r is
      (if not (i == r.id) && raft_is_member r i then send_append_entries r i out else out)

-- The loop that sends to every other member.
unfoldable pub send_heartbeats : Raft → Outbox → Outbox
unfolding heartbeat_to
send_heartbeats r out = heartbeat_to r all_nodes out
