-- ===== src/Raft/Commit.antt =====
-- src/raft.c: committing, and applying what is committed.
use db_hobby.Base.{
  ℕ, zero, suc, ◌+◌, ◌-◌, Bool, ◌&&◌, not, none, some, List, [], ◌∷◌, ◌++◌, ◌==◌, leb,
  if◌then◌else◌,
}
use db_hobby.Raft.Types.{Raft, applied, all_nodes}
use db_hobby.Raft.Log.{raft_last_log_index, ent, term_at, raft_is_member, majority, become_follower}

-- One round of the loop in `apply_committed`: a no-op is passed over.
unfoldable pub apply_one : Raft → Raft
unfolding ent
apply_one r =
    let i = r.last_applied + 1 in
    if r.has_apply && not (ent r i).is_noop
    then record r { last_applied = i; calls = r.calls ++ applied i (ent r i).command ∷ [] }
    else record r { last_applied = i }

unfoldable pub apply_rounds : ℕ → Raft → Raft
apply_rounds zero r = r
apply_rounds (suc n) r = apply_rounds n (apply_one r)

-- `while (last_applied < commit_index)`: the rounds are counted.
unfoldable pub apply_committed : Raft → Raft
apply_committed r = apply_rounds (r.commit_index - r.last_applied) r

unfoldable pub count_where : (ℕ → Bool) → List ℕ → ℕ
count_where p [] = 0
count_where p (i ∷ is) = (if p i then 1 else 0) + count_where p is

-- The members that have confirmed the log up to `n`.
unfoldable pub replicas : Raft → ℕ → ℕ
replicas r n = count_where (λ i. raft_is_member r i && leb n (r.match_index i)) all_nodes

-- Only an entry of the current term is counted.
unfoldable pub can_commit : Raft → ℕ → Bool
can_commit r n = (term_at r n == r.current_term) && leb (majority r) (replicas r n)

-- `pending_config_index >= 0 && commit_index >= pending_config_index`
unfoldable pub settle_config : Raft → Raft
settle_config r = elim r.pending_config_index [
  | none ↦ r
  | some p ↦ if leb p r.commit_index then record r { pending_config_index = none } else r
]

-- A leader that is no member any more steps down.
unfoldable pub leave_if_removed : Raft → Raft
leave_if_removed r = if not (raft_is_member r r.id) then become_follower r r.current_term else r

unfoldable pub commit_at : Raft → ℕ → Raft
unfolding settle_config
commit_at r n = leave_if_removed (apply_committed (settle_config (record r { commit_index = n })))

-- `for (N = last; N > commit_index; N--)`, at N = commit_index + k
unfoldable pub advance_from : ℕ → Raft → Raft
advance_from zero r = r
advance_from (suc k) r =
    let lower = advance_from k r in
    let n = r.commit_index + suc k in if can_commit r n then commit_at r n else lower

unfoldable pub leader_advance_commit : Raft → Raft
leader_advance_commit r = advance_from (raft_last_log_index r - r.commit_index) r
