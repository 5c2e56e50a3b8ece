-- ===== src/Raft/Steps.antt =====
-- src/raft.c: a node's life as a sequence of steps, from `raft_init` on.
use db_hobby.Base.{ℕ, ◌≡◌, Bool, some, arith}
use db_hobby.Raft.Types.{Raft, RaftMsg, Outbox}
use db_hobby.Raft.Log.{raft_last_log_index}
use db_hobby.Raft.Elect.{raft_tick}
use db_hobby.Raft.Lead.{raft_submit, raft_change_config, raft_read_index}
use db_hobby.Raft.Recv.{raft_init, raft_recv, raft_snapshot, raft_crash_restart}
use db_hobby.Raft.Bounds.{IsOrdered}
use db_hobby.Raft.Order.{Accords, tick-IsOrdered, recv-IsOrdered}
use db_hobby.Raft.Upkeep.{
  submit-IsOrdered, change-IsOrdered, read-IsOrdered, snapshot-IsOrdered, crash-IsOrdered,
}

-- What can happen to a node: the clock, its client, a message that the network delivers in the
-- node's state, a compaction and a crash.
pub data Step (alloc : ℕ → Bool) (Delivers : Raft → RaftMsg → Type 0) : Raft → Raft → Type 0 where
  tick : (r : Raft) (out : Outbox) → Step alloc Delivers r (raft_tick alloc r out).0
  submit : (r : Raft) (command : ℕ) → Step alloc Delivers r (raft_submit alloc r command).0
  change_config : (r : Raft) (mask : ℕ) → Step alloc Delivers r (raft_change_config alloc r mask).0
  read_index : (r : Raft) (out : Outbox) → Step alloc Delivers r (raft_read_index r out).0
  recv :
      (r : Raft) (msg : RaftMsg) (out : Outbox)
      → Delivers r msg
      → Step alloc Delivers r (raft_recv alloc r msg out).node
  snapshot :
      (r : Raft) (index sm_state : ℕ) → Step alloc Delivers r (raft_snapshot r index sm_state).0
  crash_restart : (r : Raft) → Step alloc Delivers r (raft_crash_restart r)

pub data Reach (alloc : ℕ → Bool) (Delivers : Raft → RaftMsg → Type 0) (r : Raft)
    : Raft → Type 0 where
  here : Reach alloc Delivers r r
  next :
      {s t : Raft} → Reach alloc Delivers r s → Step alloc Delivers s t → Reach alloc Delivers r t

-- The network delivers AppendEntries only where they do not contradict a committed entry.
abbrev pub DeliversWell : (Raft → RaftMsg → Type 0) → Type 0
DeliversWell Delivers = (r : Raft) (msg : RaftMsg) → Delivers r msg → Accords msg.type r msg

Step-IsOrdered :
    {alloc : ℕ → Bool} {Delivers : Raft → RaftMsg → Type 0} {r s : Raft}
    → DeliversWell Delivers
    → Step alloc Delivers r s
    → IsOrdered r
    → IsOrdered s
Step-IsOrdered {alloc} w (tick r out) o = tick-IsOrdered alloc r out o
Step-IsOrdered {alloc} w (submit r command) o = submit-IsOrdered alloc r command o
Step-IsOrdered {alloc} w (change_config r mask) o = change-IsOrdered alloc r mask o
Step-IsOrdered w (read_index r out) o = read-IsOrdered r out o
Step-IsOrdered {alloc} w (recv r msg out h) o = recv-IsOrdered alloc r msg out (w r msg h) o
Step-IsOrdered w (snapshot r index sm_state) o = snapshot-IsOrdered r index sm_state o
Step-IsOrdered w (crash_restart r) o = crash-IsOrdered r o

init-IsOrdered :
    (alloc : ℕ → Bool) (id n_nodes election_timeout heartbeat_timeout : ℕ) (has_apply : Bool)
    {r : Raft}
    → raft_init alloc id n_nodes election_timeout heartbeat_timeout has_apply ≡ some r
    → IsOrdered r
unfolding raft_init raft_last_log_index
init-IsOrdered alloc id n_nodes election_timeout heartbeat_timeout has_apply h = ground arith

Reach-IsOrdered' :
    {alloc : ℕ → Bool} {Delivers : Raft → RaftMsg → Type 0} {r s : Raft}
    → DeliversWell Delivers
    → Reach alloc Delivers r s
    → IsOrdered r
    → IsOrdered s
Reach-IsOrdered' w here o = o
Reach-IsOrdered' w (next path step) o = Step-IsOrdered w step (Reach-IsOrdered' w path o)

-- In every state that a node reaches from `raft_init`, whatever the clock, the client and the
-- network do and however often it crashes, log_base ≤ last_applied = commit_index ≤ the last log
-- index. The network is any relation that delivers AppendEntries only where they do not contradict
-- an entry that the node has committed.
pub Reach-IsOrdered :
    (alloc : ℕ → Bool) (Delivers : Raft → RaftMsg → Type 0)
    (id n_nodes election_timeout heartbeat_timeout : ℕ) (has_apply : Bool) {r s : Raft}
    → DeliversWell Delivers
    → raft_init alloc id n_nodes election_timeout heartbeat_timeout has_apply ≡ some r
    → Reach alloc Delivers r s
    → IsOrdered s
Reach-IsOrdered alloc Delivers id n_nodes election_timeout heartbeat_timeout has_apply w h path =
    Reach-IsOrdered' w path
      (init-IsOrdered alloc id n_nodes election_timeout heartbeat_timeout has_apply h)
