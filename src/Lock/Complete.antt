-- ===== src/Lock/Complete.antt =====
-- src/lock.c, `lock_deadlock_victim`: no cycle is missed, and LOCK_MAX_WAITS rounds are enough.
use db_hobby.Base.{
  ℕ, zero, suc, ◌+◌, ◌≤◌, ◌<◌, ◌≡◌, refl, ap, ◌≢◌, ◌⊎◌, inl, inr, true, false, ◌&&◌, some, List, [],
  ◌∷◌, ◌++◌, arith, ◌==◌, length, if◌then◌else◌, Option-cases, Bool-cases, any,
}
use db_hobby.Lock.{LockManager, LockEntry, LockWait, lock_max, lock_max_waits}
use db_hobby.Lock.Waits.{blocks, wait_of, wait_targets, dfs_cycle, waiting, lock_deadlock_victim}
use db_hobby.Lock.Graph.{
  is_in, waits_for, Chain, edge, more, targets-waits_for, found-ne, is_in-append,
}

-- The waiting transactions that are not on the path: what the search can still meet.
unvisited : List ℕ → List ℕ → ℕ
unvisited path [] = 0
unvisited path (w ∷ ws) = (if is_in w path then 0 else 1) + unvisited path ws

unvisited-le : (path : List ℕ) (ws : List ℕ) → unvisited path ws ≤ length ws
unfolding unvisited
unvisited-le path [] = omega arith
unvisited-le path (w ∷ ws) = ground (arith, unvisited-le path ws)

unvisited_mono : (a : ℕ) (path ws : List ℕ) → unvisited (path ++ a ∷ []) ws ≤ unvisited path ws
unfolding unvisited
unvisited_mono a path [] = omega arith
unvisited_mono a path (w ∷ ws) = ground (arith, unvisited_mono a path ws, is_in-append w a path)

unvisited-append :
    (a : ℕ) (path ws : List ℕ)
    → is_in a ws ≡ true
    → is_in a path ≡ false
    → unvisited (path ++ a ∷ []) ws < unvisited path ws
unfolding unvisited
unvisited-append a path [] h n = cc
unvisited-append a path (w ∷ ws) h n = elim (Bool-cases (w == a)) [
  | inl e ↦
      let e' : w ≡ a = ground arith in
      rw e' (ground (arith, unvisited_mono a path ws, is_in-append a a path))
  | inr d ↦ ground (arith, unvisited-append a path ws, is_in-append w a path)
]

unvisited-is_in :
    (a : ℕ) (path ws : List ℕ) → is_in a ws ≡ true → unvisited path ws ≤ 0 → is_in a path ≡ true
unfolding unvisited
unvisited-is_in a path [] h z = cc
unvisited-is_in a path (w ∷ ws) h z = elim (Bool-cases (w == a)) [
  | inl e ↦
      let e' : w ≡ a = ground arith in
      let seen : is_in w path ≡ true = ground arith in rw e' at seen
  | inr d ↦ unvisited-is_in a path ws (ground arith) (ground arith)
]

waits-waiting :
    (txn : ℕ) (w : LockWait) (ws : List LockWait)
    → wait_of txn ws ≡ some w
    → is_in txn (waiting ws) ≡ true
unfolding wait_of waiting
waits-waiting txn w [] h = cc
waits-waiting txn w (x ∷ xs) h = ground (arith, waits-waiting txn w xs)

any-blocks :
    (txn : ℕ) (w : LockWait) (t : ℕ) (es : List LockEntry)
    → any (λ e. blocks txn w e && e.txn == t) es ≡ true
    → t ≢ 0
unfolding blocks
any-blocks txn w t [] h = cc
any-blocks txn w t (e ∷ es) h = ground (arith, any-blocks txn w t es)

module _ (lm : LockManager) where
  waits_for-ne : (a b : ℕ) → waits_for lm a b ≡ true → b ≢ 0
  waits_for-ne a b h = elim (Option-cases (wait_of a lm.waits)) [
    | inl e ↦ ground arith
    | inr (w, e) ↦ ground (arith, any-blocks a w b lm.entries)
  ]

  waits_for-waiting : (a b : ℕ) → waits_for lm a b ≡ true → is_in a (waiting lm.waits) ≡ true
  waits_for-waiting a b h = elim (Option-cases (wait_of a lm.waits)) [
    | inl e ↦ ground arith
    | inr (w, e) ↦ waits-waiting a w lm.waits e
  ]

  -- Chains, taken apart at their first edge.
  first_edge :
      {a c : ℕ} → Chain lm a c → (b : ℕ) × (waits_for lm a b ≡ true) × ((b ≡ c) ⊎ Chain lm b c)
  first_edge (edge {b} w) = (b, w, inl refl)
  first_edge (more {b} {c} p w) =
      let (x, first, rest) = first_edge p in
      (x, first, elim rest [ inl e ↦ inr (rw e (edge w)) | inr q ↦ inr (more q w) ])

  last_ne : {a c : ℕ} → Chain lm a c → c ≢ 0
  last_ne {a} (edge {b} w) = waits_for-ne a b w
  last_ne (more {b} {c} p w) = waits_for-ne b c w

  module _ (few : length lm.entries ≤ lock_max) (c : ℕ) (cycle : Chain lm c c) where
    -- The search from any transaction on a way to `c` reports something.
    dfs-ne :
        (left : ℕ) (path : List ℕ) (txn : ℕ)
        → Chain lm txn c
        → txn ≢ 0
        → unvisited path (waiting lm.waits) ≤ left
        → dfs_cycle lm left path txn ≢ 0
    unfolding dfs_cycle
    dfs-ne zero path txn p n u =
        let (b, w, rest) = first_edge p in
        let here = unvisited-is_in txn path (waiting lm.waits) (waits_for-waiting txn b w) u in
        rw here n
    dfs-ne (suc left) path txn p n u = elim (Bool-cases (is_in txn path)) [
      | inl here ↦ rw here n
      | inr away ↦
          let (b, w, rest) = first_edge p in
          let onward : Chain lm b c = elim rest [ inl e ↦ rw e cycle | inr q ↦ q ] in
          let fresh =
            unvisited-append txn path (waiting lm.waits) (waits_for-waiting txn b w) away in
          let below =
            dfs-ne left (path ++ txn ∷ []) b onward (waits_for-ne txn b w) (omega arith) in
          let target : is_in b (wait_targets lm txn) ≡ true =
            ground (arith, targets-waits_for lm txn b few) in
          rw away
            (found-ne (dfs_cycle lm left (path ++ txn ∷ [])) b (wait_targets lm txn) target below)
    ]

  length-waiting : (ws : List LockWait) → length (waiting ws) ≡ length ws
  unfolding waiting
  length-waiting [] = refl
  length-waiting (w ∷ ws) = ap suc (length-waiting ws)

  -- If some transaction waits for itself, through others or not, a victim is reported. The two
  -- hypotheses are the sizes of the arrays.
  pub victim-ne :
      (c : ℕ)
      → length lm.entries ≤ lock_max
      → length lm.waits ≤ lock_max_waits
      → Chain lm c c
      → lock_deadlock_victim lm ≢ 0
  unfolding lock_deadlock_victim
  victim-ne c few short cycle =
      let (b, w, rest) = first_edge cycle in
      found-ne (dfs_cycle lm lock_max_waits []) c (waiting lm.waits) (waits_for-waiting c b w) (
        dfs-ne few c cycle lock_max_waits [] c cycle (last_ne cycle)
          (omega (arith, unvisited-le [] (waiting lm.waits), length-waiting lm.waits)))
