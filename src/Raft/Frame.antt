-- ===== src/Raft/Frame.antt =====
-- src/raft.c: what applying and committing leave alone.
use db_hobby.Base.{
  ℕ, zero, suc, ◌+◌, ◌-◌, ◌≤◌, ◌≡◌, refl, ◌≢◌, inl, inr, true, false, none, arith, Option-cases,
}
use db_hobby.Raft.Types.{Raft}
use db_hobby.Raft.Log.{raft_last_log_index, raft_is_member, become_follower}
use db_hobby.Raft.Commit.{
  apply_one, apply_rounds, apply_committed, settle_config, leave_if_removed, commit_at,
  advance_from, leader_advance_commit,
}

-- `r'` has the persistent state of `r`, its configuration and its replication state.
pub record Same (r r' : Raft) : Type 0 where
  pub id : r'.id ≡ r.id
  pub member_mask : r'.member_mask ≡ r.member_mask
  pub base_member_mask : r'.base_member_mask ≡ r.base_member_mask
  pub current_term : r'.current_term ≡ r.current_term
  pub log : r'.log ≡ r.log
  pub log_base : r'.log_base ≡ r.log_base
  pub log_cap : r'.log_cap ≡ r.log_cap
  pub next_index : r'.next_index ≡ r.next_index
  pub match_index : r'.match_index ≡ r.match_index
  pub read_epoch : r'.read_epoch ≡ r.read_epoch
  pub read_ack_mask : r'.read_ack_mask ≡ r.read_ack_mask

pub Same-trans : {a b c : Raft} → Same a b → Same b c → Same a c
Same-trans p q = record {
  id = cc;
  member_mask = cc;
  base_member_mask = cc;
  current_term = cc;
  log = cc;
  log_base = cc;
  log_cap = cc;
  next_index = cc;
  match_index = cc;
  read_epoch = cc;
  read_ack_mask = cc;
}

-- The vote, the role and the reads in progress.
pub record SameOffice (r r' : Raft) : Type 0 where
  pub voted_for : r'.voted_for ≡ r.voted_for
  pub role : r'.role ≡ r.role
  pub read_barrier_index : r'.read_barrier_index ≡ r.read_barrier_index
  pub read_confirmed_index : r'.read_confirmed_index ≡ r.read_confirmed_index

pub SameOffice-trans : {a b c : Raft} → SameOffice a b → SameOffice b c → SameOffice a c
SameOffice-trans p q = record {
  voted_for = cc;
  role = cc;
  read_barrier_index = cc;
  read_confirmed_index = cc;
}

abbrev refl_Same : (r : Raft) → Same r r
refl_Same r = record {
  id = refl;
  member_mask = refl;
  base_member_mask = refl;
  current_term = refl;
  log = refl;
  log_base = refl;
  log_cap = refl;
  next_index = refl;
  match_index = refl;
  read_epoch = refl;
  read_ack_mask = refl;
}

apply_one-Same : (r : Raft) → Same r (apply_one r) × SameOffice r (apply_one r)
unfolding apply_one
apply_one-Same r = ground arith

apply_rounds-Same : (n : ℕ) (r : Raft) → Same r (apply_rounds n r) × SameOffice r (apply_rounds n r)
unfolding apply_rounds
apply_rounds-Same zero r = ground arith
apply_rounds-Same (suc n) r =
    let (a, b) = apply_one-Same r in
    let (c, d) = apply_rounds-Same n (apply_one r) in (Same-trans a c, SameOffice-trans b d)

pub apply_committed-Same :
    (r : Raft) → Same r (apply_committed r) × SameOffice r (apply_committed r)
unfolding apply_committed
apply_committed-Same r = apply_rounds-Same (r.commit_index - r.last_applied) r

apply_rounds-indices :
    (n : ℕ) (r : Raft)
    → ((apply_rounds n r).commit_index ≡ r.commit_index)
      × ((apply_rounds n r).last_applied ≡ r.last_applied + n)
unfolding apply_rounds apply_one
apply_rounds-indices zero r = (refl, omega arith)
apply_rounds-indices (suc n) r = ground (arith, apply_rounds-indices n (apply_one r))

pub apply_committed-indices :
    (r : Raft)
    → ((apply_committed r).commit_index ≡ r.commit_index)
      × ((apply_committed r).last_applied ≡ r.last_applied + (r.commit_index - r.last_applied))
unfolding apply_committed
apply_committed-indices r = apply_rounds-indices (r.commit_index - r.last_applied) r

settle-Same :
    (r : Raft)
    → Same r (settle_config r)
      × SameOffice r (settle_config r)
      × ((settle_config r).commit_index ≡ r.commit_index)
      × ((settle_config r).last_applied ≡ r.last_applied)
unfolding settle_config
settle-Same r = elim (Option-cases r.pending_config_index) [
  | inl e ↦ ground arith
  | inr (p, e) ↦ ground arith
]

-- Up to the point where a removed leader steps down.
commit_within : (r : Raft) (n : ℕ) → Raft
commit_within r n = apply_committed (settle_config (record r { commit_index = n }))

within-Same :
    (r : Raft) (n : ℕ)
    → Same r (commit_within r n)
      × SameOffice r (commit_within r n)
      × ((commit_within r n).commit_index ≡ n)
      × ((commit_within r n).last_applied ≡ r.last_applied + (n - r.last_applied))
unfolding commit_within
within-Same r n =
    let s : Raft = record r { commit_index = n } in
    ground (
      arith,
      settle-Same s,
      apply_committed-Same (settle_config s),
      apply_committed-indices (settle_config s),
    )

leave-Same :
    (r : Raft)
    → Same r (leave_if_removed r)
      × ((leave_if_removed r).commit_index ≡ r.commit_index)
      × ((leave_if_removed r).last_applied ≡ r.last_applied)
      × (raft_is_member r r.id ≡ true → leave_if_removed r ≡ r)
unfolding leave_if_removed become_follower
leave-Same r = ground arith

-- A commit at `n` moves the two indices to `n`. If the node stays a member, it keeps its office.
pub commit_at-Same :
    (r : Raft) (n : ℕ)
    → Same r (commit_at r n)
      × ((commit_at r n).commit_index ≡ n)
      × ((commit_at r n).last_applied ≡ r.last_applied + (n - r.last_applied))
      × (raft_is_member r r.id ≡ true → SameOffice r (commit_at r n))
unfolding commit_at commit_within raft_is_member
commit_at-Same r n = ground (arith, within-Same r n, leave-Same (commit_within r n))

advance-Same :
    (k : ℕ) (r : Raft)
    → Same r (advance_from k r)
      × (r.commit_index ≤ (advance_from k r).commit_index)
      × (raft_is_member r r.id ≡ true → SameOffice r (advance_from k r))
unfolding advance_from
advance-Same zero r = ground arith
advance-Same (suc k) r = ground (arith, advance-Same k r, commit_at-Same r (r.commit_index + suc k))

-- `leader_advance_commit` changes neither the log nor the configuration, and never takes a commit
-- back. If the node is a member, it keeps its office too.
pub leader_advance-Same :
    (r : Raft)
    → Same r (leader_advance_commit r)
      × (r.commit_index ≤ (leader_advance_commit r).commit_index)
      × (raft_is_member r r.id ≡ true → SameOffice r (leader_advance_commit r))
unfolding leader_advance_commit
leader_advance-Same r = advance-Same (raft_last_log_index r - r.commit_index) r

commit_at-removed :
    (r : Raft) (n : ℕ) → raft_is_member r r.id ≡ false → (commit_at r n).voted_for ≡ none
unfolding commit_at commit_within raft_is_member leave_if_removed become_follower
commit_at-removed r n h = ground (arith, within-Same r n)

advance-removed :
    (k : ℕ) (r : Raft)
    → raft_is_member r r.id ≡ false
    → (advance_from k r).commit_index ≢ r.commit_index
    → (advance_from k r).voted_for ≡ none
unfolding advance_from
advance-removed zero r h m = absurd (m refl)
advance-removed (suc k) r h m =
    ground (arith, advance-removed k r h, commit_at-removed r (r.commit_index + suc k) h)

-- A leader that is no member any more loses its vote when it commits.
pub leader_advance-removed :
    (r : Raft)
    → raft_is_member r r.id ≡ false
    → (leader_advance_commit r).commit_index ≢ r.commit_index
    → (leader_advance_commit r).voted_for ≡ none
unfolding leader_advance_commit
leader_advance-removed r h m = advance-removed (raft_last_log_index r - r.commit_index) r h m
