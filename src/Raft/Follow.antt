-- ===== src/Raft/Follow.antt =====
-- src/raft.c: the follower's side of AppendEntries and InstallSnapshot.
use db_hobby.Base.{
  ℕ, ◌+◌, ◌-◌, Bool, true, false, List, [], ◌∷◌, ◌++◌, ◌==◌, ltb, leb, length, take, if◌then◌else◌,
}
use db_hobby.Raft.Types.{
  Raft, RaftMsg, RaftEntry, blank_msg, msg_append_entries_reply, msg_install_snapshot_reply,
  follower, marker, installed,
}
use db_hobby.Raft.Log.{
  raft_last_log_index, term_at, log_append, recompute_member_mask, step_down_if_higher,
}
use db_hobby.Raft.Commit.{apply_committed}

-- `log_len = idx - log_base`
abbrev pub truncate_at : Raft → ℕ → Raft
truncate_at r idx = record r { log = take (idx - r.log_base) r.log }

-- One round of the loop over the message's entries: the node, and whether a tail was cut off.
unfoldable pub place_entry : (ℕ → Bool) → ℕ → RaftEntry → Raft × Bool → Raft × Bool
place_entry alloc idx e (r, truncated) =
    if leb idx r.log_base
    then (r, truncated)
    else if leb idx (raft_last_log_index r)
    then (if term_at r idx == e.term
        then (r, truncated)
        else ((log_append alloc (truncate_at r idx) e).0, true))
    else ((log_append alloc r e).0, truncated)

unfoldable pub place_entries : (ℕ → Bool) → ℕ → List RaftEntry → Raft × Bool → Raft × Bool
place_entries alloc idx [] s = s
place_entries alloc idx (e ∷ es) s = place_entries alloc (idx + 1) es (place_entry alloc idx e s)

-- The consistency check: the entry at `prev_log_index` is there, with the leader's term.
unfoldable pub prev_matches : Raft → RaftMsg → Bool
prev_matches r msg =
    if ltb (raft_last_log_index r) msg.prev_log_index
    then false
    else if leb r.log_base msg.prev_log_index
    then term_at r msg.prev_log_index == msg.prev_log_term
    else true

-- The leader's commit index is followed as far as the log reaches.
unfoldable pub follow_commit : Raft → ℕ → Raft
unfolding raft_last_log_index
follow_commit r leader_commit =
    if ltb r.commit_index leader_commit
    then (let last = raft_last_log_index r in
        apply_committed
          (record r { commit_index = if ltb leader_commit last then leader_commit else last }))
    else r

abbrev pub append_reply : Raft → RaftMsg → Bool → ℕ → RaftMsg
append_reply r msg success match = record blank_msg {
  type = msg_append_entries_reply;
  from = r.id;
  to = msg.from;
  term = r.current_term;
  success = success;
  match_index = match;
  read_epoch = msg.read_epoch;
}

unfoldable pub replicate_log : (ℕ → Bool) → Raft → RaftMsg → Raft
replicate_log alloc r msg =
    let (placed, truncated) = place_entries alloc (msg.prev_log_index + 1) msg.entries (r, false) in
    if truncated then recompute_member_mask placed else placed

-- The part of `handle_append_entries` after `step_down_if_higher`.
unfoldable pub answer_append : (ℕ → Bool) → Raft → RaftMsg → Raft × RaftMsg
answer_append alloc r msg =
    if ltb msg.term r.current_term
    then (r, append_reply r msg false 0)
    else (let f : Raft = record r { role = follower; election_elapsed = 0 } in
        if prev_matches f msg
        then (
          follow_commit (replicate_log alloc f msg) msg.leader_commit,
          append_reply f msg true (msg.prev_log_index + length msg.entries),
        )
        else (f, append_reply f msg false 0))

unfoldable pub handle_append_entries : (ℕ → Bool) → Raft → RaftMsg → Raft × RaftMsg
unfolding step_down_if_higher
handle_append_entries alloc r msg = answer_append alloc (step_down_if_higher r msg.term) msg

abbrev pub snapshot_reply : Raft → RaftMsg → ℕ → RaftMsg
snapshot_reply r msg match = record blank_msg {
  type = msg_install_snapshot_reply;
  from = r.id;
  to = msg.from;
  term = r.current_term;
  match_index = match;
}

unfoldable pub install_snapshot : Raft → RaftMsg → Raft
install_snapshot r msg = record r {
  log = marker msg.last_included_term ∷ [];
  log_base = msg.last_included_index;
  commit_index = msg.last_included_index;
  last_applied = msg.last_included_index;
  snapshot_value = msg.snapshot_value;
  base_member_mask = msg.member_mask;
  member_mask = msg.member_mask;
  calls =
      if r.has_snap_install
      then r.calls ++ installed msg.last_included_index msg.snapshot_value ∷ []
      else r.calls;
}

-- The part of `handle_install_snapshot` after `step_down_if_higher`.
unfoldable pub answer_snapshot : Raft → RaftMsg → Raft × RaftMsg
unfolding install_snapshot
answer_snapshot r msg =
    if ltb msg.term r.current_term
    then (r, snapshot_reply r msg 0)
    else (let f : Raft = record r { role = follower; election_elapsed = 0 } in
        if leb msg.last_included_index f.commit_index
        then (f, snapshot_reply f msg msg.last_included_index)
        else (install_snapshot f msg, snapshot_reply f msg msg.last_included_index))

unfoldable pub handle_install_snapshot : Raft → RaftMsg → Raft × RaftMsg
unfolding answer_snapshot step_down_if_higher
handle_install_snapshot r msg = answer_snapshot (step_down_if_higher r msg.term) msg
