-- ===== src/Raft/Votes.antt =====
-- src/raft.c: terms never go back, and a node votes once in a term.
use db_hobby.Base.{
  ℕ, ◌+◌, ◌≤◌, ◌<◌, ◌≡◌, refl, ◌⊎◌, inl, inr, Bool, true, false, none, some, List, [], ◌∷◌, arith,
  ltb, if◌then◌else◌, Bool-cases,
}
use db_hobby.Raft.Types.{Raft, RaftMsg, RaftEntry, follower}
use db_hobby.Raft.Log.{
  raft_last_log_index, raft_last_log_term, log_append, maybe_adopt_config, candidate_log_up_to_date,
  step_down_if_higher, recompute_member_mask,
}
use db_hobby.Raft.Elect.{handle_request_vote}
use db_hobby.Raft.Follow.{
  place_entry, place_entries, replicate_log, follow_commit, answer_append, truncate_at,
  handle_append_entries, handle_install_snapshot,
}
use db_hobby.Raft.Frame.{apply_committed-Same}

-- The term does not fall, and within a term a vote that was given stands.
abbrev pub Keeps : Raft → Raft → Type 0
Keeps r r' =
    (r.current_term < r'.current_term)
    ⊎ ((r'.current_term ≡ r.current_term)
        × ((v : ℕ) → r.voted_for ≡ some v → r'.voted_for ≡ some v))

-- A vote is granted only to a candidate whose term is not old and whose log is at least as up to
-- date as the voter's, and in the voter's own term only if it has voted for no one or for that
-- candidate; the voter then has that candidate on record, in the candidate's term.
pub granted_vote :
    (r : Raft) (msg : RaftMsg)
    → (handle_request_vote r msg).1.vote_granted ≡ true
    → (r.current_term ≤ msg.term)
      × ((raft_last_log_term r < msg.last_log_term)
          ⊎ ((msg.last_log_term ≡ raft_last_log_term r)
              × (raft_last_log_index r ≤ msg.last_log_index)))
      × ((handle_request_vote r msg).0.voted_for ≡ some msg.from)
      × ((handle_request_vote r msg).0.current_term ≡ msg.term)
      × ((r.current_term < msg.term) ⊎ (r.voted_for ≡ none) ⊎ (r.voted_for ≡ some msg.from))
unfolding handle_request_vote candidate_log_up_to_date
granted_vote r msg h = ground arith

pub request_vote-Keeps : (r : Raft) (msg : RaftMsg) → Keeps r (handle_request_vote r msg).0
unfolding handle_request_vote
request_vote-Keeps r msg = ground arith

-- Term and vote are what they were.
abbrev pub SameVote : Raft → Raft → Type 0
SameVote r r' = (r'.current_term ≡ r.current_term) × (r'.voted_for ≡ r.voted_for)

pub log_append-SameVote :
    (alloc : ℕ → Bool) (r : Raft) (e : RaftEntry) → SameVote r (log_append alloc r e).0
unfolding log_append maybe_adopt_config
log_append-SameVote alloc r e = ground arith

place_entry-SameVote :
    (alloc : ℕ → Bool) (idx : ℕ) (e : RaftEntry) (r : Raft) (t : Bool)
    → SameVote r (place_entry alloc idx e (r, t)).0
unfolding place_entry
place_entry-SameVote alloc idx e r t =
    ground (arith, log_append-SameVote alloc r e, log_append-SameVote alloc (truncate_at r idx) e)

place_entries-SameVote :
    (alloc : ℕ → Bool) (idx : ℕ) (es : List RaftEntry) (s : Raft × Bool)
    → SameVote s.0 (place_entries alloc idx es s).0
unfolding place_entries
place_entries-SameVote alloc idx [] s = (refl, refl)
place_entries-SameVote alloc idx (e ∷ es) (r, t) =
    let (a, b) = place_entry-SameVote alloc idx e r t in
    let (c, d) = place_entries-SameVote alloc (idx + 1) es (place_entry alloc idx e (r, t)) in
    (cc, cc)

replicate-SameVote :
    (alloc : ℕ → Bool) (r : Raft) (msg : RaftMsg) → SameVote r (replicate_log alloc r msg)
unfolding replicate_log recompute_member_mask
replicate-SameVote alloc r msg =
    ground (arith, place_entries-SameVote alloc (msg.prev_log_index + 1) msg.entries (r, false))

follow-SameVote : (r : Raft) (c : ℕ) → SameVote r (follow_commit r c)
unfolding follow_commit
follow-SameVote r c = elim (Bool-cases (ltb r.commit_index c)) [
  | inl y ↦
      let last = raft_last_log_index r in
      rw y (
        let (a, b) =
          apply_committed-Same (record r { commit_index = if ltb c last then c else last }) in
        (a.current_term, b.voted_for))
  | inr n ↦ rw n (refl, refl)
]

pub append_entries-Keeps :
    (alloc : ℕ → Bool) (r : Raft) (msg : RaftMsg) → Keeps r (handle_append_entries alloc r msg).0
unfolding handle_append_entries answer_append
append_entries-Keeps alloc r msg =
    let s = step_down_if_higher r msg.term in
    let f : Raft = record s { role = follower; election_elapsed = 0 } in
    ground (
      arith,
      replicate-SameVote alloc f msg,
      follow-SameVote (replicate_log alloc f msg) msg.leader_commit,
    )

pub install_snapshot-Keeps : (r : Raft) (msg : RaftMsg) → Keeps r (handle_install_snapshot r msg).0
unfolding handle_install_snapshot
install_snapshot-Keeps r msg = ground arith
