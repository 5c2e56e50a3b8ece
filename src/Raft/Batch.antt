-- ===== src/Raft/Batch.antt =====
-- src/raft.c, `send_append_entries`, `handle_append_entries`: how far the commit index of a follower
-- goes on a message with the batch of entries that a leader sends.
use db_hobby.Base.{
  ℕ, ◌+◌, ◌<◌, ◌≤◌, ◌≡◌, ◌≢◌, refl, sym, ◌∙◌, Bool, true, false, ltb, if◌then◌else◌, min, arith,
}
use db_hobby.Raft.Types.{Raft, RaftMsg}
use db_hobby.Raft.Log.{raft_last_log_index, term_at}
use db_hobby.Raft.Send.{append_entries_msg}
use db_hobby.Raft.Follow.{replicate_log, follow_commit, handle_append_entries}
use db_hobby.Raft.Frame.{apply_committed-indices}
use db_hobby.Raft.Matching.{follow-SameTerms}
use db_hobby.Raft.Append.{
  listening, listening-SameTerms, success_iff, last-SameTerms, Holds, place_entries-Holds,
  Holds-SameTerms,
}

follow-commit_index :
    (r : Raft) (c : ℕ)
    → (follow_commit r c).commit_index
      ≡ (if ltb r.commit_index c then min c (raft_last_log_index r) else r.commit_index)
unfolding follow_commit
follow-commit_index r c =
    let last = raft_last_log_index r in
    ground
      (arith, apply_committed-indices (record r { commit_index = if ltb c last then c else last }))

-- Entries that the follower has already: the log is left as it is.
replicate-Holds :
    (alloc : ℕ → Bool) (r : Raft) (msg : RaftMsg)
    → Holds r (msg.prev_log_index + 1) msg.entries
    → replicate_log alloc r msg ≡ r
unfolding replicate_log
replicate-Holds alloc r msg h =
    rw (place_entries-Holds alloc (msg.prev_log_index + 1) msg.entries r false h) refl

-- The message is the batch that `send_append_entries` makes from the log of a node l for a peer whose
-- next_index is above l's log_base. The receiver r has every entry of it by its term or in its
-- snapshot, and r's last entry has another term than l's at that index, which is above r's commit
-- index, but not above l's. Where r answers with success, it commits this last entry and keeps it: two
-- nodes have committed the same index, in different terms.
pub uncompared_tail_committed :
    (alloc : ℕ → Bool) (l r : Raft) (peer : ℕ)
    → l.log_base < l.next_index peer
    → Holds r (l.next_index peer) (append_entries_msg l peer).entries
    → (handle_append_entries alloc r (append_entries_msg l peer)).1.success ≡ true
    → r.commit_index < raft_last_log_index r
    → raft_last_log_index r ≤ l.commit_index
    → term_at r (raft_last_log_index r) ≢ term_at l (raft_last_log_index r)
    → let answer = (handle_append_entries alloc r (append_entries_msg l peer)).0 in
      let last = raft_last_log_index r in
      (answer.commit_index ≡ last)
      × (last ≤ l.commit_index)
      × (raft_last_log_index answer ≡ last)
      × (term_at answer last ≢ term_at l last)
unfolding append_entries_msg
uncompared_tail_committed alloc l r peer sent held h behind reached differs =
    let msg = append_entries_msg l peer in
    let f = listening r msg in
    let (same, indices) = listening-SameTerms r msg in
    let (last, _, _, terms) = last-SameTerms r f same in
    let (_, _, node, _) = success_iff alloc r msg h in
    let from : msg.prev_log_index + 1 ≡ l.next_index peer = omega arith in
    let kept =
      replicate-Holds alloc f msg
        (Holds-SameTerms r f (msg.prev_log_index + 1) msg.entries same (rw from held)) in
    let node' : (handle_append_entries alloc r msg).0 ≡ follow_commit f msg.leader_commit =
      rw kept at node in
    let (last', _, _, terms') =
      last-SameTerms f (follow_commit f msg.leader_commit) (follow-SameTerms f msg.leader_commit) in
    let moved = follow-commit_index f msg.leader_commit in
    rw node' (
      ground arith,
      reached,
      last' ∙ last,
      λ e. differs (sym (terms' (raft_last_log_index r) ∙ terms (raft_last_log_index r)) ∙ e),
    )
