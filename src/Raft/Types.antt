-- ===== src/Raft/Types.antt =====
-- src/raft.h: entries, messages and the state of a node. The terms and the read epoch are
-- uint64_t; a log index is an int64_t that is not negative, and the -1 of `voted_for`, of
-- `pending_config_index` and of the two read indices is `none`. A command is the 64-bit pattern of
-- its int64_t. `log[0..log_len)` is a list whose length is `log_len`; the slots past it are never
-- read. The arrays over nodes are functions, read and written at ids below RAFT_MAX_NODES. What
-- the two callbacks are called with is kept in `calls`, the newest last.
use db_hobby.Base.{ℕ, ◌∷◌, [], List, Bool, true, false, Option}

abbrev pub raft_max_nodes : ℕ
raft_max_nodes = 7

abbrev pub raft_max_batch : ℕ
raft_max_batch = 16

-- The `i` of the loops `for (int i = 0; i < RAFT_MAX_NODES; i++)`.
abbrev pub all_nodes : List ℕ
all_nodes = 0 ∷ 1 ∷ 2 ∷ 3 ∷ 4 ∷ 5 ∷ 6 ∷ []

pub data RaftRole : Type 0 where
  follower candidate leader : RaftRole

abbrev pub is_leader : RaftRole → Bool
is_leader leader = true
is_leader _ = false

abbrev pub is_candidate : RaftRole → Bool
is_candidate candidate = true
is_candidate _ = false

pub record RaftEntry : Type 0 where
  pub term : ℕ
  pub command : ℕ
  pub is_config : Bool
  pub is_noop : Bool

pub data RaftMsgType : Type 0 where
  msg_request_vote msg_request_vote_reply : RaftMsgType
  msg_append_entries msg_append_entries_reply : RaftMsgType
  msg_install_snapshot msg_install_snapshot_reply : RaftMsgType

pub record RaftMsg : Type 0 where
  pub type : RaftMsgType
  pub from : ℕ
  pub to : ℕ
  pub term : ℕ
  pub last_log_index : ℕ
  pub last_log_term : ℕ
  pub vote_granted : Bool
  pub prev_log_index : ℕ
  pub prev_log_term : ℕ
  pub leader_commit : ℕ
  pub entries : List RaftEntry
  pub success : Bool
  pub match_index : ℕ
  pub read_epoch : ℕ
  pub last_included_index : ℕ
  pub last_included_term : ℕ
  pub snapshot_value : ℕ
  pub member_mask : ℕ

-- `memset(&m, 0, sizeof(m))`
abbrev pub blank_msg : RaftMsg
blank_msg = record {
  type = msg_request_vote;
  from = 0;
  to = 0;
  term = 0;
  last_log_index = 0;
  last_log_term = 0;
  vote_granted = false;
  prev_log_index = 0;
  prev_log_term = 0;
  leader_commit = 0;
  entries = [];
  success = false;
  match_index = 0;
  read_epoch = 0;
  last_included_index = 0;
  last_included_term = 0;
  snapshot_value = 0;
  member_mask = 0;
}

-- A call of `apply` or of `snap_install`.
pub data Call : Type 0 where
  applied : ℕ → ℕ → Call
  installed : ℕ → ℕ → Call

pub record Raft : Type 0 where
  pub id : ℕ
  pub n_nodes : ℕ
  pub member_mask : ℕ
  pub base_member_mask : ℕ
  pub pending_config_index : Option ℕ
  pub current_term : ℕ
  pub voted_for : Option ℕ
  pub log : List RaftEntry
  pub log_cap : ℕ
  pub log_base : ℕ
  pub snapshot_value : ℕ
  pub role : RaftRole
  pub commit_index : ℕ
  pub last_applied : ℕ
  pub votes_granted : ℕ
  pub next_index : ℕ → ℕ
  pub match_index : ℕ → ℕ
  pub read_gate_index : ℕ
  pub election_elapsed : ℕ
  pub election_timeout : ℕ
  pub heartbeat_elapsed : ℕ
  pub heartbeat_timeout : ℕ
  pub read_barrier_index : Option ℕ
  pub read_ack_mask : ℕ
  pub read_confirmed_index : Option ℕ
  pub read_epoch : ℕ
  pub has_apply : Bool
  pub has_snap_install : Bool
  pub calls : List Call

abbrev pub Outbox : Type 0
Outbox = List RaftMsg

-- The marker `log[0]`, and what a read outside the log is given here.
abbrev pub marker : ℕ → RaftEntry
marker t = record { term = t; command = 0; is_config = false; is_noop = false }
