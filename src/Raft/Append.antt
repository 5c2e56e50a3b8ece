-- ===== src/Raft/Append.antt =====
-- src/raft.c, `handle_append_entries`: what a success means, and what a retransmission does.
use db_hobby.Base.{
  ℕ, ◌+◌, ◌≤◌, ◌<◌, ◌≡◌, refl, sym, ◌⊎◌, inl, inr, Bool, true, false, List, [], ◌∷◌, ◌∙◌, arith,
  ltb, length, Bool-cases,
}
use db_hobby.Raft.Types.{Raft, RaftMsg, RaftEntry, follower}
use db_hobby.Raft.Log.{raft_last_log_index, term_at, step_down_if_higher}
use db_hobby.Raft.Follow.{
  place_entry, place_entries, replicate_log, follow_commit, answer_append, handle_append_entries,
  prev_matches,
}
use db_hobby.Raft.Matching.{
  Grows, PlacedAll, place_entries-PlacedAll, SameTerms, PlacedAll-SameTerms, replicate-SameTerms,
  follow-SameTerms,
}

-- The node as the loop finds it: stepped down, and a follower.
abbrev pub listening : Raft → RaftMsg → Raft
listening r msg = record (step_down_if_higher r msg.term) { role = follower; election_elapsed = 0 }

pub listening-SameTerms :
    (r : Raft) (msg : RaftMsg)
    → SameTerms r (listening r msg) × ((listening r msg).commit_index ≡ r.commit_index)
unfolding SameTerms step_down_if_higher
listening-SameTerms r msg = ground arith

PlacedAll-source :
    (idx : ℕ) (es : List RaftEntry) (r f r' : Raft)
    → SameTerms r f
    → PlacedAll idx es f r'
    → PlacedAll idx es r r'
unfolding SameTerms term_at
PlacedAll-source idx es r f r' (log, base) p = record {
  base = p.base ∙ base;
  some_log = p.some_log;
  below = λ j x y. rw (← log, ← base) (p.below j (rw base x) y);
  own = λ i x y. p.own i x (rw base y);
  reaches = p.reaches;
}

-- A success is answered exactly if the term is not old and the entry before the new ones matches.
pub success_iff :
    (alloc : ℕ → Bool) (r : Raft) (msg : RaftMsg)
    → (handle_append_entries alloc r msg).1.success ≡ true
    → (r.current_term ≤ msg.term)
      × (prev_matches (listening r msg) msg ≡ true)
      × ((handle_append_entries alloc r msg).0
          ≡ follow_commit (replicate_log alloc (listening r msg) msg) msg.leader_commit)
      × ((handle_append_entries alloc r msg).1.match_index
          ≡ msg.prev_log_index + length msg.entries)
unfolding handle_append_entries answer_append
success_iff alloc r msg h = ground arith

prev-in-log :
    (r : Raft) (msg : RaftMsg)
    → prev_matches r msg ≡ true
    → (msg.prev_log_index ≤ raft_last_log_index r)
      × (r.log_base ≤ msg.prev_log_index → term_at r msg.prev_log_index ≡ msg.prev_log_term)
unfolding prev_matches
prev-in-log r msg h = ground arith

pub last-SameTerms :
    (a b : Raft)
    → SameTerms a b
    → (raft_last_log_index b ≡ raft_last_log_index a)
      × (length b.log ≡ length a.log)
      × (b.log_base ≡ a.log_base)
      × ((j : ℕ) → term_at b j ≡ term_at a j)
unfolding SameTerms raft_last_log_index term_at
last-SameTerms a b (log, base) = (rw (log, base) refl, rw log refl, base, λ j. rw (log, base) refl)

-- After a success the follower holds, above its snapshot, the leader's terms at the indices of the
-- message, and below them what it held; the entry before them lies in the snapshot or has the term
-- that the leader named, and the reply confirms the log up to the last of them. `realloc` is taken to succeed,
-- and the log to hold its marker.
pub append_success :
    (alloc : ℕ → Bool) (r : Raft) (msg : RaftMsg)
    → Grows alloc
    → 0 < length r.log
    → (handle_append_entries alloc r msg).1.success ≡ true
    → PlacedAll (msg.prev_log_index + 1) msg.entries r (handle_append_entries alloc r msg).0
      × ((msg.prev_log_index < r.log_base) ⊎ (term_at r msg.prev_log_index ≡ msg.prev_log_term))
      × ((handle_append_entries alloc r msg).1.match_index
          ≡ msg.prev_log_index + length msg.entries)
append_success alloc r msg grows some_log h =
    let f = listening r msg in
    let (_, matches, node, match) = success_iff alloc r msg h in
    let (same, _) = listening-SameTerms r msg in
    let (last, len, base, terms) = last-SameTerms r f same in
    let (in_log, prev) = prev-in-log f msg matches in
    let placed =
      place_entries-PlacedAll alloc grows (msg.prev_log_index + 1) msg.entries f false (omega arith)
        (omega arith) in
    let replicated =
      PlacedAll-SameTerms (msg.prev_log_index + 1) msg.entries f _ _
        (replicate-SameTerms alloc f msg) placed in
    let followed =
      PlacedAll-SameTerms (msg.prev_log_index + 1) msg.entries f _ _
        (follow-SameTerms (replicate_log alloc f msg) msg.leader_commit) replicated in
    (
      rw node (PlacedAll-source (msg.prev_log_index + 1) msg.entries r f _ same followed),
      elim (Bool-cases (ltb msg.prev_log_index r.log_base)) [
        | inl b ↦ inl (ground arith)
        | inr b ↦ inr (sym (terms msg.prev_log_index) ∙ prev (ground arith))
      ],
      match,
    )

-- The follower has the message's entries already.
abbrev pub Holds : Raft → ℕ → List RaftEntry → Type 0
Holds r idx [] = Unit
Holds r idx (e ∷ es) =
    ((idx ≤ r.log_base) ⊎ ((idx ≤ raft_last_log_index r) × (term_at r idx ≡ e.term)))
    × Holds r (idx + 1) es

pub place_entries-Holds :
    (alloc : ℕ → Bool) (idx : ℕ) (es : List RaftEntry) (r : Raft) (t : Bool)
    → Holds r idx es
    → place_entries alloc idx es (r, t) ≡ (r, t)
unfolding place_entries place_entry
place_entries-Holds alloc idx [] r t h = refl
place_entries-Holds alloc idx (e ∷ es) r t h =
    let kept : place_entry alloc idx e (r, t) ≡ (r, t) = ground arith in
    rw kept (place_entries-Holds alloc (idx + 1) es r t h.1)

pub Holds-SameTerms :
    (a b : Raft) (idx : ℕ) (es : List RaftEntry) → SameTerms a b → Holds a idx es → Holds b idx es
Holds-SameTerms a b idx [] s h = tt
Holds-SameTerms a b idx (e ∷ es) s h =
    let (last, _, base, terms) = last-SameTerms a b s in
    (
      elim h.0 [
        | inl old ↦ inl (omega arith)
        | inr (inside, own) ↦ inr (omega arith, terms idx ∙ own)
      ],
      Holds-SameTerms a b (idx + 1) es s h.1,
    )

-- A message whose entries the follower has, a duplicate or one that was overtaken, cuts nothing
-- off: the log stays as it is, whatever the answer.
pub append_duplicate :
    (alloc : ℕ → Bool) (r : Raft) (msg : RaftMsg)
    → Holds r (msg.prev_log_index + 1) msg.entries
    → ((handle_append_entries alloc r msg).0.log ≡ r.log)
      × ((handle_append_entries alloc r msg).0.log_base ≡ r.log_base)
unfolding handle_append_entries answer_append replicate_log SameTerms
append_duplicate alloc r msg h =
    let f = listening r msg in
    let (same, _) = listening-SameTerms r msg in
    ground (
      arith,
      place_entries-Holds alloc (msg.prev_log_index + 1) msg.entries f false
          (Holds-SameTerms r f (msg.prev_log_index + 1) msg.entries same h),
      follow-SameTerms f msg.leader_commit,
      same,
    )
