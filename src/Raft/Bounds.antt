-- ===== src/Raft/Bounds.antt =====
-- src/raft.c: the indices stay in order, log_base ≤ last_applied = commit_index ≤ last index.
use db_hobby.Base.{
  ℕ, zero, suc, ◌+◌, ◌-◌, ◌≤◌, ◌<◌, ◌≡◌, ap, inl, inr, Bool, List, [], ◌∷◌, arith, ◌==◌, leb, ltb,
  if◌then◌else◌, length, Bool-cases, length-append, length-take,
}
use db_hobby.Raft.Types.{Raft, RaftEntry}
use db_hobby.Raft.Log.{raft_last_log_index, log_append, maybe_adopt_config, term_at}
use db_hobby.Raft.Commit.{leader_advance_commit, advance_from, commit_at, apply_committed}
use db_hobby.Raft.Follow.{place_entry, place_entries, truncate_at, follow_commit}
use db_hobby.Raft.Frame.{commit_at-Same, apply_committed-Same, apply_committed-indices}

pub record IsOrdered (r : Raft) : Type 0 where
  pub some_log : 0 < length r.log
  pub base : r.log_base ≤ r.commit_index
  pub applied : r.last_applied ≡ r.commit_index
  pub inside : r.commit_index ≤ raft_last_log_index r

-- The parts of the state that the order is about.
abbrev pub SameOrder : Raft → Raft → Type 0
SameOrder r r' =
    (r'.log ≡ r.log)
    × (r'.log_base ≡ r.log_base)
    × (r'.commit_index ≡ r.commit_index)
    × (r'.last_applied ≡ r.last_applied)

pub SameOrder-IsOrdered : (r r' : Raft) → SameOrder r r' → IsOrdered r → IsOrdered r'
unfolding raft_last_log_index
SameOrder-IsOrdered r r' s o = ground (arith, ap (λ (l : List RaftEntry). length l) s.0)

pub log_append-IsOrdered :
    (alloc : ℕ → Bool) (r : Raft) (e : RaftEntry) → IsOrdered r → IsOrdered (log_append alloc r e).0
unfolding log_append maybe_adopt_config raft_last_log_index
log_append-IsOrdered alloc r e o = ground (arith, length-append r.log (e ∷ []))

commit_at-IsOrdered :
    (r : Raft) (n : ℕ)
    → r.commit_index ≤ n
    → n ≤ raft_last_log_index r
    → IsOrdered r
    → IsOrdered (commit_at r n)
unfolding raft_last_log_index
commit_at-IsOrdered r n a b o =
    let (s, c, l, _) = commit_at-Same r n in
    let len : length (commit_at r n).log ≡ length r.log =
      ap (λ (l : List RaftEntry). length l) s.log in
    record {
      some_log = omega arith;
      base = omega (arith, s.log_base, o.base);
      applied = omega (arith, o.applied);
      inside = omega (arith, s.log_base);
    }

advance-IsOrdered :
    (k : ℕ) (r : Raft)
    → r.commit_index + k ≤ raft_last_log_index r
    → IsOrdered r
    → IsOrdered (advance_from k r)
unfolding advance_from
advance-IsOrdered zero r h o = o
advance-IsOrdered (suc k) r h o =
    ground (arith, advance-IsOrdered k r, commit_at-IsOrdered r (r.commit_index + suc k))

pub leader_advance-IsOrdered : (r : Raft) → IsOrdered r → IsOrdered (leader_advance_commit r)
unfolding leader_advance_commit
leader_advance-IsOrdered r o =
    advance-IsOrdered (raft_last_log_index r - r.commit_index) r (omega (arith, o.inside)) o

apply-IsOrdered :
    (r : Raft) (n : ℕ)
    → r.commit_index ≤ n
    → n ≤ raft_last_log_index r
    → IsOrdered r
    → IsOrdered (apply_committed (record r { commit_index = n }))
unfolding raft_last_log_index
apply-IsOrdered r n a b o =
    let m : Raft = record r { commit_index = n } in
    let (s, _) = apply_committed-Same m in
    let (c, l) = apply_committed-indices m in
    let len : length (apply_committed m).log ≡ length r.log =
      ap (λ (es : List RaftEntry). length es) s.log in
    record {
      some_log = omega (arith, o.some_log);
      base = omega (arith, s.log_base, o.base);
      applied = omega (arith, o.applied);
      inside = omega (arith, s.log_base);
    }

pub follow-IsOrdered : (r : Raft) (c : ℕ) → IsOrdered r → IsOrdered (follow_commit r c)
unfolding follow_commit
follow-IsOrdered r c o = elim (Bool-cases (ltb r.commit_index c)) [
  | inl y ↦
      let last = raft_last_log_index r in
      let n : ℕ = if ltb c last then c else last in
      let low : r.commit_index ≤ n = ground (arith, o.inside) in
      let high : n ≤ last = ground arith in rw y (apply-IsOrdered r n low high o)
  | inr n ↦ rw n o
]

-- The entries do not contradict what the follower has committed.
abbrev pub Respects : Raft → ℕ → List RaftEntry → Type 0
Respects r idx [] = Unit
Respects r idx (e ∷ es) =
    (r.log_base < idx → idx ≤ r.commit_index → term_at r idx ≡ e.term) × Respects r (idx + 1) es

Respects-past :
    (r : Raft) (idx : ℕ) (es : List RaftEntry) → r.commit_index < idx → Respects r idx es
Respects-past r idx [] h = tt
Respects-past r idx (e ∷ es) h =
    (λ p q. absurd (omega arith), Respects-past r (idx + 1) es (omega arith))

truncate-IsOrdered :
    (r : Raft) (idx : ℕ)
    → r.commit_index < idx
    → idx ≤ raft_last_log_index r
    → IsOrdered r
    → IsOrdered (truncate_at r idx)
unfolding raft_last_log_index
truncate-IsOrdered r idx a b o = ground (arith, length-take (idx - r.log_base) r.log)

log_append-commit :
    (alloc : ℕ → Bool) (r : Raft) (e : RaftEntry)
    → (log_append alloc r e).0.commit_index ≡ r.commit_index
unfolding log_append maybe_adopt_config
log_append-commit alloc r e = ground arith

-- Placing an entry keeps the order, and the rest of the message is still in accord.
place_entry-IsOrdered :
    (alloc : ℕ → Bool) (idx : ℕ) (e : RaftEntry) (es : List RaftEntry) (r : Raft) (t : Bool)
    → IsOrdered r
    → Respects r idx (e ∷ es)
    → IsOrdered (place_entry alloc idx e (r, t)).0
      × Respects (place_entry alloc idx e (r, t)).0 (idx + 1) es
unfolding place_entry
place_entry-IsOrdered alloc idx e es r t o h = elim (Bool-cases (leb idx r.log_base)) [
  | inl old ↦ rw (old, place_entry) (o, h.1)
  | inr new ↦ elim (Bool-cases (leb idx (raft_last_log_index r))) [
    | inl inside ↦ elim (Bool-cases (term_at r idx == e.term)) [
      | inl same ↦ rw (new, inside, same, place_entry) (o, h.1)
      | inr clash ↦
          let past : r.commit_index < idx = ground (arith, h.0) in
          rw (new, inside, clash, place_entry)
            (
              log_append-IsOrdered alloc (truncate_at r idx) e
                  (truncate-IsOrdered r idx past (ground arith) o),
              Respects-past _ (idx + 1) es
                  (omega (arith, log_append-commit alloc (truncate_at r idx) e)),
            )
    ]
    | inr past ↦
        rw (new, past, place_entry)
          (
            log_append-IsOrdered alloc r e o,
            Respects-past _ (idx + 1) es (ground (arith, log_append-commit alloc r e, o.inside)),
          )
  ]
]

pub place_entries-IsOrdered :
    (alloc : ℕ → Bool) (idx : ℕ) (es : List RaftEntry) (r : Raft) (t : Bool)
    → IsOrdered r
    → Respects r idx es
    → IsOrdered (place_entries alloc idx es (r, t)).0
unfolding place_entries
place_entries-IsOrdered alloc idx [] r t o h = o
place_entries-IsOrdered alloc idx (e ∷ es) r t o h =
    let s1 = place_entry alloc idx e (r, t) in
    let (o1, h1) = place_entry-IsOrdered alloc idx e es r t o h in
    place_entries-IsOrdered alloc (idx + 1) es s1.0 s1.1 o1 h1
