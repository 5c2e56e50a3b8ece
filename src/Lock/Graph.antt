-- ===== src/Lock/Graph.antt =====
-- src/lock.c, `wait_targets`, `dfs_cycle`, `lock_deadlock_victim`: the search and the cycles of
-- the wait-for graph.
use db_hobby.Base.{
  ℕ, zero, suc, ◌+◌, ◌≤◌, ◌≡◌, refl, ◌≢◌, inl, inr, Bool, true, false, ◌&&◌, ◌||◌, none, some, List,
  [], ◌∷◌, ◌++◌, arith, ◌==◌, length, All, Option-cases, Bool-cases, any, length-append,
}
use db_hobby.Lock.{LockManager, LockEntry, LockWait, lock_max, lock_max_waits}
use db_hobby.Lock.Waits.{
  blocks, wait_of, gather_targets, wait_targets, first_found, dfs_cycle, waiting,
  lock_deadlock_victim,
}

abbrev pub is_in : ℕ → List ℕ → Bool
is_in t = any (λ o. o == t)

-- `txn` waits for `t`: it has a wait record, and `t` owns an entry that the record conflicts with.
abbrev pub waits_for : LockManager → ℕ → ℕ → Bool
waits_for lm txn t = elim (wait_of txn lm.waits) [
  | none ↦ false
  | some w ↦ any (λ e. blocks txn w e && e.txn == t) lm.entries
]

-- One or more edges of the graph.
pub data Chain (lm : LockManager) (a : ℕ) : ℕ → Type 0 where
  edge : {b : ℕ} → waits_for lm a b ≡ true → Chain lm a b
  more : {b c : ℕ} → Chain lm a b → waits_for lm b c ≡ true → Chain lm a c

pub is_in-append : (t a : ℕ) (xs : List ℕ) → is_in t (xs ++ a ∷ []) ≡ (is_in t xs || a == t)
is_in-append t a [] = ground arith
is_in-append t a (x ∷ xs) = ground (arith, is_in-append t a xs)

gather-is_in :
    (txn : ℕ) (w : LockWait) (t : ℕ) (es : List LockEntry) (out : List ℕ)
    → length out + length es ≤ lock_max
    → is_in t (gather_targets txn w es out)
      ≡ (is_in t out || any (λ e. blocks txn w e && e.txn == t) es)
unfolding gather_targets
gather-is_in txn w t [] out h = ground arith
gather-is_in txn w t (e ∷ es) out h = ground (
  arith,
  gather-is_in txn w t es out,
  gather-is_in txn w t es (out ++ e.txn ∷ []),
  is_in-append t e.txn out,
  length-append out (e.txn ∷ []),
)

-- The targets are exactly the transactions that are waited for.
pub targets-waits_for :
    (lm : LockManager) (txn t : ℕ)
    → length lm.entries ≤ lock_max
    → is_in t (wait_targets lm txn) ≡ waits_for lm txn t
unfolding wait_targets
targets-waits_for lm txn t h = elim (Option-cases (wait_of txn lm.waits)) [
  | inl e ↦ ground arith
  | inr (w, e) ↦ ground (arith, gather-is_in txn w t lm.entries [] (omega arith))
]

found-some :
    (f : ℕ → ℕ) (ts : List ℕ)
    → first_found f ts ≢ 0
    → (t : ℕ) × (is_in t ts ≡ true) × (f t ≡ first_found f ts)
unfolding first_found
found-some f [] h = absurd (h refl)
found-some f (t ∷ ts) h = elim (Bool-cases (f t == 0)) [
  | inl z ↦ let (u, p, q) = found-some f ts (ground arith) in (u, ground arith, ground arith)
  | inr n ↦ (t, ground arith, ground arith)
]

pub found-ne :
    (f : ℕ → ℕ) (t : ℕ) (ts : List ℕ) → is_in t ts ≡ true → f t ≢ 0 → first_found f ts ≢ 0
unfolding first_found
found-ne f t [] h n = cc
found-ne f t (u ∷ ts) h n = elim (Bool-cases (u == t)) [
  | inl e ↦ let e' : u ≡ t = ground arith in rw e' (ground arith)
  | inr d ↦ ground (arith, found-ne f t ts)
]

module _ (lm : LockManager) (few : length lm.entries ≤ lock_max) where
  abbrev Trail : List ℕ → ℕ → Type 0
  Trail path txn = All (λ p. Chain lm p txn) path

  Trail-cycle :
      (txn : ℕ) (path : List ℕ) → is_in txn path ≡ true → Trail path txn → Chain lm txn txn
  Trail-cycle txn [] h c = cc
  Trail-cycle txn (p ∷ ps) h c = elim (Bool-cases (p == txn)) [
    | inl e ↦ let e' : p ≡ txn = ground arith in rw e' at c.0
    | inr d ↦ Trail-cycle txn ps (ground arith) c.1
  ]

  Trail-extend :
      (a b : ℕ) (path : List ℕ) → waits_for lm a b ≡ true → Trail path a → Trail (path ++ a ∷ []) b
  Trail-extend a b [] w c = (edge w, tt)
  Trail-extend a b (p ∷ ps) w c = (more c.0 w, Trail-extend a b ps w c.1)

  dfs-Chain :
      (left : ℕ) (path : List ℕ) (txn : ℕ)
      → Trail path txn
      → dfs_cycle lm left path txn ≢ 0
      → Chain lm (dfs_cycle lm left path txn) (dfs_cycle lm left path txn)
  unfolding dfs_cycle
  dfs-Chain zero path txn c h = elim (Bool-cases (is_in txn path)) [
    | inl here ↦ rw here (Trail-cycle txn path here c)
    | inr away ↦ absurd (ground arith)
  ]
  dfs-Chain (suc left) path txn c h = elim (Bool-cases (is_in txn path)) [
    | inl here ↦ rw here (Trail-cycle txn path here c)
    | inr away ↦
        let deeper = λ (t : ℕ). dfs_cycle lm left (path ++ txn ∷ []) t in
        let n : first_found deeper (wait_targets lm txn) ≢ 0 = ground arith in
        let (t, target, same) = found-some deeper (wait_targets lm txn) n in
        let waits : waits_for lm txn t ≡ true = ground (arith, targets-waits_for lm txn t few) in
        let below =
          dfs-Chain left (path ++ txn ∷ []) t (Trail-extend txn t path waits c)
            (λ z. n (ground arith)) in
        rw away (rw same at below)
  ]

  -- A reported victim waits, through one or more others, for itself.
  pub victim-Chain :
      lock_deadlock_victim lm ≢ 0 → Chain lm (lock_deadlock_victim lm) (lock_deadlock_victim lm)
  unfolding lock_deadlock_victim
  victim-Chain h =
      let (t, waits, same) = found-some (dfs_cycle lm lock_max_waits []) (waiting lm.waits) h in
      let c = dfs-Chain lock_max_waits [] t tt (λ z. h (ground arith)) in rw same at c
