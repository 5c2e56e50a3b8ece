-- ===== src/Raft/Advance.antt =====
-- src/raft.c, `leader_advance_commit`: the leader commits the greatest index that a majority holds
-- with an entry of its own term.
use db_hobby.Base.{
  ℕ, zero, suc, ◌+◌, ◌-◌, ◌≤◌, ◌<◌, ◌≡◌, refl, ◌⊎◌, inl, inr, true, false, arith, ◌==◌, Bool-cases,
}
use db_hobby.Raft.Types.{Raft}
use db_hobby.Raft.Log.{raft_last_log_index, term_at, majority}
use db_hobby.Raft.Commit.{commit_at, advance_from, leader_advance_commit, can_commit, replicas}
use db_hobby.Raft.Frame.{commit_at-Same}

-- Nothing above `n`, up to `n + k`, may be committed.
abbrev pub NoneAbove : Raft → ℕ → ℕ → Type 0
NoneAbove r n last = (m : ℕ) → n < m → m ≤ last → can_commit r m ≡ false

advance_cases :
    (k : ℕ) (r : Raft) (last : ℕ)
    → NoneAbove r (r.commit_index + k) last
    → ((advance_from k r ≡ r) × NoneAbove r r.commit_index last)
      ⊎ ((n : ℕ) × (r.commit_index < n)
          × (n ≤ r.commit_index + k)
          × (can_commit r n ≡ true)
          × NoneAbove r n last
          × (advance_from k r ≡ commit_at r n))
unfolding advance_from
advance_cases zero r last h = inl (refl, λ m p q. h m (omega arith) q)
advance_cases (suc k) r last h = elim (Bool-cases (can_commit r (r.commit_index + suc k))) [
  | inl y ↦ inr (r.commit_index + suc k, omega arith, omega arith, y, h, rw y)
  | inr n ↦
      let lower = advance_cases k r last (λ m p q. elim (Bool-cases (m == r.commit_index + suc k)) [
        | inl e ↦ let e' : m ≡ r.commit_index + suc k = ground arith in rw e' n
        | inr d ↦ h m (ground arith) q
      ]) in
      rw n
        (elim lower [ inl l ↦ inl l | inr (m, a, b, c, d, e) ↦ inr (m, a, omega arith, c, d, e) ])
]

can_commit-true :
    (r : Raft) (n : ℕ)
    → can_commit r n ≡ true
    → (term_at r n ≡ r.current_term) × (majority r ≤ replicas r n)
unfolding can_commit
can_commit-true r n h = ground arith

-- Either no index above the commit index can be committed, and the leader stays as it is; or the
-- greatest one is committed: it lies in the log, its entry is of the leader's term, and a
-- majority of the members has confirmed it.
pub leader_commit_cases :
    (r : Raft)
    → ((leader_advance_commit r ≡ r) × NoneAbove r r.commit_index (raft_last_log_index r))
      ⊎ ((n : ℕ) × (r.commit_index < n)
          × (n ≤ raft_last_log_index r)
          × (term_at r n ≡ r.current_term)
          × (majority r ≤ replicas r n)
          × NoneAbove r n (raft_last_log_index r)
          × ((leader_advance_commit r).commit_index ≡ n))
unfolding leader_advance_commit
leader_commit_cases r =
    let last = raft_last_log_index r in
    elim (advance_cases (last - r.commit_index) r last (λ m p q. absurd (omega arith))) [
      | inl l ↦ inl l
      | inr (n, a, b, c, d, e) ↦
          let (own_term, enough) = can_commit-true r n c in
          let (_, moved, _, _) = commit_at-Same r n in
          inr (n, a, omega arith, own_term, enough, d, rw e moved)
    ]
