-- ===== src/Raft/Matching.antt =====
-- src/raft.c, `handle_append_entries`: after a success the follower's log agrees with the message.
use db_hobby.Base.{
  ℕ, zero, suc, ◌+◌, ◌*◌, ◌-◌, ◌≤◌, ◌<◌, ◌≡◌, refl, inl, inr, Bool, true, false, List, [], ◌∷◌,
  ◌++◌, ◌∙◌, arith, ◌==◌, leb, ltb, length, if◌then◌else◌, get_or, take, Bool-cases, length-append,
  length-take, get_or-append_left, get_or-append_end, get_or-take, ok,
}
use db_hobby.Raft.Types.{Raft, RaftMsg, RaftEntry, marker}
use db_hobby.Raft.Log.{
  raft_last_log_index, term_at, log_append, maybe_adopt_config, recompute_member_mask,
}
use db_hobby.Raft.Follow.{place_entry, place_entries, replicate_log, follow_commit, truncate_at}
use db_hobby.Raft.Frame.{apply_committed-Same}

-- `realloc` never fails.
abbrev pub Grows : (ℕ → Bool) → Type 0
Grows alloc = (n : ℕ) → alloc n ≡ true

pub log_append-log :
    (alloc : ℕ → Bool) (r : Raft) (e : RaftEntry)
    → Grows alloc
    → ((log_append alloc r e).0.log ≡ r.log ++ e ∷ [])
      × ((log_append alloc r e).0.log_base ≡ r.log_base)
      × ((log_append alloc r e).1 ≡ ok)
      × ((log_append alloc r e).0.commit_index ≡ r.commit_index)
      × ((log_append alloc r e).0.last_applied ≡ r.last_applied)
unfolding log_append maybe_adopt_config
log_append-log alloc r e g = ground (arith, g (r.log_cap * 2))

-- `r'` has the entry's term at `idx`, and below it the terms of `r`.
pub record Placed (idx : ℕ) (e : RaftEntry) (r r' : Raft) : Type 0 where
  pub base : r'.log_base ≡ r.log_base
  pub some_log : 0 < length r'.log
  pub below : (j : ℕ) → r.log_base ≤ j → j < idx → term_at r' j ≡ term_at r j
  pub here : r.log_base < idx → term_at r' idx ≡ e.term
  pub reaches : idx ≤ raft_last_log_index r'

start_in_log :
    (r : Raft) (idx : ℕ) → 0 < length r.log → idx ≤ r.log_base → idx ≤ raft_last_log_index r
unfolding raft_last_log_index
start_in_log r idx a b = omega arith

unchanged-Placed :
    (idx : ℕ) (e : RaftEntry) (r : Raft)
    → 0 < length r.log
    → idx ≤ raft_last_log_index r
    → (r.log_base < idx → term_at r idx ≡ e.term)
    → Placed idx e r r
unchanged-Placed idx e r some_log inside own = record {
  base = refl;
  some_log = some_log;
  below = λ j p q. refl;
  here = own;
  reaches = inside;
}

-- Reads below the end of a stretch of the log that is kept.
abbrev KeptBelow : ℕ → Raft → List RaftEntry → Type 0
KeptBelow idx r keep =
    (j : ℕ)
    → r.log_base ≤ j
    → j < idx
    → get_or keep (j - r.log_base) (marker 0) ≡ get_or r.log (j - r.log_base) (marker 0)

append-Placed :
    (r r' : Raft) (idx : ℕ) (e : RaftEntry) (keep : List RaftEntry)
    → r'.log ≡ keep ++ e ∷ []
    → r'.log_base ≡ r.log_base
    → KeptBelow idx r keep
    → r.log_base < idx
    → length keep ≡ idx - r.log_base
    → Placed idx e r r'
unfolding term_at raft_last_log_index
append-Placed r r' idx e keep log base same lt len = record {
  base = base;
  some_log = rw log (omega (arith, length-append keep (e ∷ [])));
  below = λ j p q.
      rw (log, base)
        (ground (arith, same j p q, get_or-append_left keep (e ∷ []) (j - r.log_base) (marker 0)));
  here =
      λ _. rw (log, base) (ground (arith, get_or-append_end keep e (idx - r.log_base) (marker 0)));
  reaches = rw (log, base) (omega (arith, length-append keep (e ∷ [])));
}

module _ (alloc : ℕ → Bool) (grows : Grows alloc) where
  truncated-Placed :
      (idx : ℕ) (e : RaftEntry) (r : Raft)
      → 0 < length r.log
      → r.log_base < idx
      → idx ≤ raft_last_log_index r
      → Placed idx e r (log_append alloc (truncate_at r idx) e).0
  unfolding raft_last_log_index
  truncated-Placed idx e r some_log new inside =
      let (log, base, _, _, _) = log_append-log alloc (truncate_at r idx) e grows in
      append-Placed r _ idx e (take (idx - r.log_base) r.log) log base
        (λ j p q. get_or-take (idx - r.log_base) r.log (j - r.log_base) (marker 0) (omega arith))
        new (omega (arith, length-take (idx - r.log_base) r.log))

  extended-Placed :
      (idx : ℕ) (e : RaftEntry) (r : Raft)
      → 0 < length r.log
      → idx ≡ raft_last_log_index r + 1
      → Placed idx e r (log_append alloc r e).0
  unfolding raft_last_log_index
  extended-Placed idx e r some_log past =
      let (log, base, _, _, _) = log_append-log alloc r e grows in
      append-Placed r _ idx e r.log log base (λ j p q. refl) (omega arith) (omega arith)

  place_entry-Placed :
      (idx : ℕ) (e : RaftEntry) (r : Raft) (t : Bool)
      → 0 < length r.log
      → idx ≤ raft_last_log_index r + 1
      → Placed idx e r (place_entry alloc idx e (r, t)).0
  unfolding place_entry
  place_entry-Placed idx e r t some_log fits = elim (Bool-cases (leb idx r.log_base)) [
    | inl old ↦
        rw (old, place_entry)
          (unchanged-Placed idx e r some_log (start_in_log r idx some_log (ground arith))
            (λ p. absurd (ground arith)))
    | inr new ↦ elim (Bool-cases (leb idx (raft_last_log_index r))) [
      | inl inside ↦ elim (Bool-cases (term_at r idx == e.term)) [
        | inl same ↦
            rw (new, inside, same, place_entry)
              (unchanged-Placed idx e r some_log (ground arith) (λ _. ground arith))
        | inr clash ↦
            rw (new, inside, clash, place_entry)
              (truncated-Placed idx e r some_log (ground arith) (ground arith))
      ]
      | inr past ↦ rw (new, past, place_entry) (extended-Placed idx e r some_log (ground arith))
    ]
  ]

-- `r'` has the terms of all the entries from `idx` on, and below `idx` the terms of `r`.
pub record PlacedAll (idx : ℕ) (es : List RaftEntry) (r r' : Raft) : Type 0 where
  pub base : r'.log_base ≡ r.log_base
  pub some_log : 0 < length r'.log
  pub below : (j : ℕ) → r.log_base ≤ j → j < idx → term_at r' j ≡ term_at r j
  pub own :
      (i : ℕ)
      → i < length es
      → r.log_base < idx + i
      → term_at r' (idx + i) ≡ (get_or es i (marker 0)).term
  pub reaches : idx + length es ≤ raft_last_log_index r' + 1

own-step :
    (idx : ℕ) (e : RaftEntry) (es : List RaftEntry) (r r1 r2 : Raft)
    → Placed idx e r r1
    → PlacedAll (idx + 1) es r1 r2
    → (i : ℕ) → i < length (e ∷ es)
    → r.log_base < idx + i
    → term_at r2 (idx + i) ≡ (get_or (e ∷ es) i (marker 0)).term
own-step idx e es r r1 r2 p q zero lt above =
    let z : idx + 0 ≡ idx = omega arith in
    let under : term_at r2 idx ≡ term_at r1 idx =
      q.below idx (omega (arith, p.base)) (omega arith) in
    rw z (under ∙ p.here (omega arith))
own-step idx e es r r1 r2 p q (suc i) lt above =
    let z : idx + suc i ≡ idx + 1 + i = omega arith in
    rw z (q.own i (omega arith) (omega (arith, p.base)))

module _ (alloc : ℕ → Bool) (grows : Grows alloc) where
  pub place_entries-PlacedAll :
      (idx : ℕ) (es : List RaftEntry) (r : Raft) (t : Bool)
      → 0 < length r.log
      → idx ≤ raft_last_log_index r + 1
      → PlacedAll idx es r (place_entries alloc idx es (r, t)).0
  unfolding place_entries
  place_entries-PlacedAll idx [] r t some_log fits = record {
    base = refl;
    some_log = some_log;
    below = λ j p q. refl;
    own = λ i p q. absurd (omega arith);
    reaches = omega arith;
  }
  place_entries-PlacedAll idx (e ∷ es) r t some_log fits =
      let s1 = place_entry alloc idx e (r, t) in
      let p = place_entry-Placed alloc grows idx e r t some_log fits in
      let q =
        place_entries-PlacedAll (idx + 1) es s1.0 s1.1 p.some_log (omega (arith, p.reaches)) in
      record {
        base = q.base ∙ p.base;
        some_log = q.some_log;
        below = λ j a b. q.below j (omega (arith, p.base)) (omega arith) ∙ p.below j a b;
        own = own-step idx e es r s1.0 _ p q;
        reaches = omega (arith, q.reaches);
      }

unfoldable pub SameTerms : Raft → Raft → Type 0
SameTerms a b = (b.log ≡ a.log) × (b.log_base ≡ a.log_base)

pub PlacedAll-SameTerms :
    (idx : ℕ) (es : List RaftEntry) (r a b : Raft)
    → SameTerms a b
    → PlacedAll idx es r a
    → PlacedAll idx es r b
unfolding SameTerms term_at raft_last_log_index
PlacedAll-SameTerms idx es r a b (log, base) p = record {
  base = base ∙ p.base;
  some_log = rw log p.some_log;
  below = λ j x y. rw (log, base) (p.below j x y);
  own = λ i x y. rw (log, base) (p.own i x y);
  reaches = rw (log, base) p.reaches;
}

pub replicate-SameTerms :
    (alloc : ℕ → Bool) (r : Raft) (msg : RaftMsg)
    → SameTerms
        (place_entries alloc (msg.prev_log_index + 1) msg.entries (r, false)).0
        (replicate_log alloc r msg)
unfolding SameTerms replicate_log recompute_member_mask
replicate-SameTerms alloc r msg = ground arith

pub follow-SameTerms : (r : Raft) (c : ℕ) → SameTerms r (follow_commit r c)
unfolding SameTerms follow_commit
follow-SameTerms r c = elim (Bool-cases (ltb r.commit_index c)) [
  | inl y ↦
      let last = raft_last_log_index r in
      let (a, _) =
        apply_committed-Same (record r { commit_index = if ltb c last then c else last }) in
      rw y (a.log, a.log_base)
  | inr n ↦ rw n (refl, refl)
]
