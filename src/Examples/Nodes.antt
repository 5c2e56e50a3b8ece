-- ===== src/Examples/Nodes.antt =====
-- src/raft.c: a node of a cluster of three, at the start and as a leader.
use db_hobby.Base.{
  ℕ, zero, suc, ◌≡◌, refl, ◌<◌, ◌≤◌, ◌⊎◌, inr, ◌==◌, leb, Bool, List, ◌≢◌, true, false, some, none,
  [], ◌∷◌, ok, arith, if◌then◌else◌,
}
use db_hobby.Raft.Types.{
  Raft, RaftMsg, RaftEntry, blank_msg, marker, leader, is_leader, all_nodes, msg_append_entries,
  msg_append_entries_reply,
}
use db_hobby.Raft.Log.{
  raft_last_log_index, raft_last_log_term, term_at, ent, raft_is_member, member_count, majority,
  recompute_member_mask,
}
use db_hobby.Raft.Commit.{apply_committed, count_where, replicas, leader_advance_commit}
use db_hobby.Raft.Elect.{raft_tick, handle_request_vote}
use db_hobby.Raft.Follow.{handle_append_entries}
use db_hobby.Raft.Lead.{
  handle_append_entries_reply, raft_change_config, raft_read_index, raft_submit, read_acks,
}
use db_hobby.Raft.Recv.{start_state, raft_init, raft_recv, raft_snapshot, raft_crash_restart}
use db_hobby.Raft.Bounds.{IsOrdered}
use db_hobby.Raft.Steps.{here, next, tick, recv, crash_restart, Reach-IsOrdered, DeliversWell}
use db_hobby.Raft.Matching.{PlacedAll}
use db_hobby.Raft.Append.{append_success, Holds}
use db_hobby.Raft.Batch.{uncompared_tail_committed}
use db_hobby.Raft.Send.{append_entries_msg}
use db_hobby.Raft.Advance.{leader_commit_cases, NoneAbove}
use db_hobby.Raft.Terms.{recv-Keeps, removed_leader_forgets_vote}
use db_hobby.Raft.Votes.{granted_vote, Keeps}
use db_hobby.Raft.Quorum.{change_quorums_meet}
use db_hobby.Raft.Compact.{snapshot_keeps}
use db_hobby.Raft.Reads.{read_confirmed_by_majority, with_ack}

-- `realloc` succeeds.
abbrev plenty : ℕ → Bool
plenty n = true

abbrev node0 : Raft
node0 = start_state 0 3 10 3 true

abbrev put : ℕ → ℕ → RaftEntry
put term command = record { term = term; command = command; is_config = false; is_noop = false }

-- Node 0 with two entries of term 1, of which it has committed none.
abbrev two_entries : Raft
two_entries = record node0 { current_term = 1; log = marker 0 ∷ put 1 7 ∷ put 1 8 ∷ [] }

-- The same node with both committed, the second one not applied yet.
abbrev committed : Raft
committed = record two_entries { commit_index = 2; last_applied = 1 }

-- The same node as the leader of term 1; node 2 has confirmed both entries.
abbrev leading : Raft
leading = record two_entries {
  role = leader;
  voted_for = some 0;
  match_index = λ i. if i == 2 then 2 else 0;
  read_barrier_index = some 0;
  read_ack_mask = 1;
  read_epoch = 5;
}

abbrev removed : Raft
removed = record leading { member_mask = 6 }

abbrev entries_msg : RaftMsg
entries_msg = record blank_msg {
  type = msg_append_entries;
  from = 1;
  term = 1;
  entries = put 1 7 ∷ put 1 8 ∷ [];
}

abbrev vote_msg : RaftMsg
vote_msg = record blank_msg { from = 2; term = 2; last_log_index = 2; last_log_term = 1 }

abbrev reply_msg : RaftMsg
reply_msg = record blank_msg {
  type = msg_append_entries_reply;
  from = 1;
  term = 1;
  success = true;
  match_index = 2;
  read_epoch = 5;
}

-- A network that delivers nothing but heartbeats.
abbrev NoEntries : Raft → RaftMsg → Type 0
NoEntries r msg = (msg.type ≡ msg_append_entries) × (msg.entries ≡ [])

NoEntries-DeliversWell : DeliversWell NoEntries
NoEntries-DeliversWell r msg (t, e) = rw (t, e) tt

abbrev first_beat : RaftMsg
first_beat = record blank_msg { type = msg_append_entries; from = 1; term = 1 }

abbrev beaten : Raft
beaten = (raft_recv plenty (raft_tick plenty node0 []).0 first_beat []).node

Reach-IsOrdered_example : IsOrdered (raft_crash_restart beaten)
unfolding raft_init
Reach-IsOrdered_example =
    Reach-IsOrdered plenty NoEntries 0 3 10 3 true NoEntries-DeliversWell refl (
      next
        (next (next here (tick node0 []))
          (recv (raft_tick plenty node0 []).0 first_beat [] (refl, refl)))
        (crash_restart beaten))

accepted : (handle_append_entries plenty node0 entries_msg).1.success ≡ true
unfolding handle_append_entries db_hobby.Raft.Follow.answer_append db_hobby.Raft.Follow.prev_matches
    raft_last_log_index term_at
accepted = refl

append_success_example :
    PlacedAll 1 entries_msg.entries node0 (handle_append_entries plenty node0 entries_msg).0
    × ((0 < 0) ⊎ (term_at node0 0 ≡ 0))
    × ((handle_append_entries plenty node0 entries_msg).1.match_index ≡ 2)
append_success_example = append_success plenty node0 entries_msg (λ n. refl) (omega arith) accepted

leader_commit_cases_example :
    ((leader_advance_commit leading ≡ leading) × NoneAbove leading 0 2)
    ⊎ ((n : ℕ) × (0 < n)
        × (n ≤ 2)
        × (term_at leading n ≡ 1)
        × (majority leading ≤ replicas leading n)
        × NoneAbove leading n 2
        × ((leader_advance_commit leading).commit_index ≡ n))
unfolding raft_last_log_index
leader_commit_cases_example = leader_commit_cases leading

recv-Keeps_example : Keeps leading (raft_recv plenty leading reply_msg []).node
unfolding raft_is_member
recv-Keeps_example = recv-Keeps plenty leading reply_msg [] refl

granted : (handle_request_vote two_entries vote_msg).1.vote_granted ≡ true
unfolding handle_request_vote db_hobby.Raft.Log.candidate_log_up_to_date
granted = refl

granted_vote_example :
    (1 ≤ 2)
    × ((raft_last_log_term two_entries < 1)
        ⊎ ((1 ≡ raft_last_log_term two_entries) × (raft_last_log_index two_entries ≤ 2)))
    × ((handle_request_vote two_entries vote_msg).0.voted_for ≡ some 2)
    × ((handle_request_vote two_entries vote_msg).0.current_term ≡ 2)
    × ((1 < 2) ⊎ (two_entries.voted_for ≡ none) ⊎ (two_entries.voted_for ≡ some 2))
granted_vote_example = granted_vote two_entries vote_msg granted

first_two-member : (j : ℕ) → leb j 1 ≡ true → raft_is_member leading j ≡ true
unfolding raft_is_member
first_two-member zero h = refl
first_two-member (suc zero) h = refl
first_two-member (suc (suc j)) h = absurd (ground arith)

first_three-member :
    (j : ℕ) → leb j 2 ≡ true → raft_is_member (raft_change_config plenty leading 15).0 j ≡ true
unfolding raft_is_member raft_change_config db_hobby.Raft.Lead.is_one_bit
    db_hobby.Raft.Lead.change_pending db_hobby.Raft.Log.log_append
    db_hobby.Raft.Lead.start_new_peers db_hobby.Raft.Lead.start_new_peer
    db_hobby.Raft.Log.maybe_adopt_config
first_three-member zero h = refl
first_three-member (suc zero) h = refl
first_three-member (suc (suc zero)) h = refl
first_three-member (suc (suc (suc j))) h = absurd (ground arith)

grown : (raft_change_config plenty leading 15).1 ≡ some 3
unfolding raft_change_config db_hobby.Raft.Lead.is_one_bit db_hobby.Raft.Lead.change_pending
    db_hobby.Raft.Log.log_append raft_last_log_index db_hobby.Raft.Log.maybe_adopt_config
grown = refl

old_majority : majority leading ≤ count_where (λ j. leb j 1) all_nodes
unfolding majority count_where member_count
old_majority = omega arith

new_size : majority (raft_change_config plenty leading 15).0 ≡ 3
unfolding majority member_count raft_change_config db_hobby.Raft.Lead.is_one_bit
    db_hobby.Raft.Lead.change_pending db_hobby.Raft.Log.log_append
    db_hobby.Raft.Lead.start_new_peers db_hobby.Raft.Lead.start_new_peer
    db_hobby.Raft.Log.maybe_adopt_config
new_size = refl

three : count_where (λ j. leb j 2) all_nodes ≡ 3
unfolding count_where
three = refl

new_majority :
    majority (raft_change_config plenty leading 15).0 ≤ count_where (λ j. leb j 2) all_nodes
new_majority = omega (arith, new_size, three)

change_quorums_meet_example : (j : ℕ) × (leb j 1 ≡ true) × (leb j 2 ≡ true)
change_quorums_meet_example =
    change_quorums_meet plenty leading 15 3 (λ j. leb j 1) (λ j. leb j 2) (omega arith)
      (omega arith) grown first_two-member first_three-member old_majority new_majority

in_log1 : 1 ≤ raft_last_log_index two_entries
unfolding raft_last_log_index
in_log1 = omega arith

in_log2 : 2 ≤ raft_last_log_index two_entries
unfolding raft_last_log_index
in_log2 = omega arith

has_entries : Holds two_entries 1 (put 1 7 ∷ put 1 8 ∷ [])
unfolding term_at
has_entries = (inr (in_log1, refl), (inr (in_log2, refl), tt))

compacts : (raft_snapshot committed 1 99).1 ≡ ok
unfolding raft_snapshot raft_last_log_index
compacts = refl

snapshot_keeps_example :
    (raft_last_log_index (raft_snapshot committed 1 99).0 ≡ raft_last_log_index committed)
    × (term_at (raft_snapshot committed 1 99).0 1 ≡ term_at committed 1)
    × (ent (raft_snapshot committed 1 99).0 2 ≡ ent committed 2)
    × ((recompute_member_mask (raft_snapshot committed 1 99).0).member_mask
        ≡ (recompute_member_mask committed).member_mask)
snapshot_keeps_example = snapshot_keeps committed 1 99 2 compacts (omega arith)

confirms : (handle_append_entries_reply leading reply_msg).read_confirmed_index ≡ some 0
unfolding handle_append_entries_reply db_hobby.Raft.Lead.count_ack leader_advance_commit
    db_hobby.Raft.Commit.advance_from raft_last_log_index db_hobby.Raft.Commit.can_commit term_at
    majority member_count replicas count_where raft_is_member db_hobby.Raft.Commit.commit_at
    db_hobby.Raft.Commit.leave_if_removed apply_committed db_hobby.Raft.Commit.apply_rounds
    db_hobby.Raft.Commit.apply_one db_hobby.Raft.Commit.settle_config db_hobby.Raft.Lead.has_acked
    db_hobby.Raft.Lead.note_match read_acks db_hobby.Raft.Log.become_follower
    db_hobby.Raft.Log.count_bits ent
confirms = refl

read_confirmed_by_majority_example :
    (is_leader leading.role ≡ true)
    × (reply_msg.term ≡ 1)
    × (reply_msg.success ≡ true)
    × (leading.read_barrier_index ≡ some 0)
    × (reply_msg.read_epoch ≡ 5)
    × (majority leading ≤ read_acks (with_ack leading 1))
unfolding raft_is_member
read_confirmed_by_majority_example =
    read_confirmed_by_majority leading reply_msg 0 refl refl confirms

-- Sixteen entries that two nodes share, and a seventeenth of a term of their own. The leader of term
-- 3 has committed all of its own.
abbrev shared : RaftEntry → List RaftEntry
shared last =
    marker 0
    ∷ put 1 7
    ∷ put 1 7
    ∷ put 1 7
    ∷ put 1 7
    ∷ put 1 7
    ∷ put 1 7
    ∷ put 1 7
    ∷ put 1 7
    ∷ put 1 7
    ∷ put 1 7
    ∷ put 1 7
    ∷ put 1 7
    ∷ put 1 7
    ∷ put 1 7
    ∷ put 1 7
    ∷ put 1 7
    ∷ last
    ∷ []

abbrev ahead : Raft
ahead = record node0 {
  role = leader;
  current_term = 3;
  log = shared (put 3 9);
  commit_index = 17;
  last_applied = 17;
  next_index = λ i. 1;
}

abbrev diverged : Raft
diverged = record node0 { id = 1; current_term = 3; log = shared (put 2 8) }

diverged-Holds : Holds diverged 1 (append_entries_msg ahead 1).entries
unfolding append_entries_msg term_at raft_last_log_index
diverged-Holds = (
  inr (omega arith, refl),
  (
    inr (omega arith, refl),
    (
      inr (omega arith, refl),
      (
        inr (omega arith, refl),
        (
          inr (omega arith, refl),
          (
            inr (omega arith, refl),
            (
              inr (omega arith, refl),
              (
                inr (omega arith, refl),
                (
                  inr (omega arith, refl),
                  (
                    inr (omega arith, refl),
                    (
                      inr (omega arith, refl),
                      (
                        inr (omega arith, refl),
                        (
                          inr (omega arith, refl),
                          (
                            inr (omega arith, refl),
                            (inr (omega arith, refl), (inr (omega arith, refl), tt)),
                          ),
                        ),
                      ),
                    ),
                  ),
                ),
              ),
            ),
          ),
        ),
      ),
    ),
  ),
)

accepts : (handle_append_entries plenty diverged (append_entries_msg ahead 1)).1.success ≡ true
unfolding append_entries_msg handle_append_entries db_hobby.Raft.Follow.answer_append
    db_hobby.Raft.Follow.prev_matches raft_last_log_index term_at
    db_hobby.Raft.Log.step_down_if_higher
accepts = refl

uncompared_tail_committed_example :
    let answer = (handle_append_entries plenty diverged (append_entries_msg ahead 1)).0 in
    (answer.commit_index ≡ 17)
    × (17 ≤ 17)
    × (raft_last_log_index answer ≡ 17)
    × (term_at answer 17 ≢ term_at ahead 17)
unfolding raft_last_log_index term_at
uncompared_tail_committed_example =
    uncompared_tail_committed plenty ahead diverged 1 (omega arith) diverged-Holds accepts
      (omega arith) (omega arith) (λ e. absurd (cc e))

leaves : (handle_append_entries_reply removed reply_msg).commit_index ≡ 2
unfolding handle_append_entries_reply db_hobby.Raft.Lead.count_ack leader_advance_commit
    db_hobby.Raft.Commit.advance_from raft_last_log_index db_hobby.Raft.Commit.can_commit term_at
    majority member_count replicas count_where raft_is_member db_hobby.Raft.Commit.commit_at
    db_hobby.Raft.Commit.leave_if_removed apply_committed db_hobby.Raft.Commit.apply_rounds
    db_hobby.Raft.Commit.apply_one db_hobby.Raft.Commit.settle_config db_hobby.Raft.Lead.has_acked
    db_hobby.Raft.Lead.note_match read_acks db_hobby.Raft.Log.become_follower
    db_hobby.Raft.Log.count_bits ent
leaves = refl

removed_leader_forgets_vote_example :
    ((handle_append_entries_reply removed reply_msg).voted_for ≡ none)
    × ((handle_append_entries_reply removed reply_msg).current_term ≡ 1)
unfolding raft_is_member
removed_leader_forgets_vote_example =
    removed_leader_forgets_vote removed reply_msg refl (omega (arith, leaves))
