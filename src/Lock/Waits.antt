-- ===== src/Lock/Waits.antt =====
-- src/lock.c: the wait records and the search for a cycle in the wait-for graph.
use db_hobby.Base.{
  ℕ, zero, suc, ◌-◌, Bool, ◌&&◌, ◌||◌, not, Option, none, some, List, [], ◌∷◌, ◌++◌, ◌==◌, ltb, leb,
  length, any, if◌then◌else◌, get_elem?, take, set,
}
use db_hobby.Lock.{
  LockManager, LockEntry, LockWait, LockMode, is_x, name_eq, copy_name, lock_max, lock_max_waits,
}

-- The loop of `lock_wait_add`: the first record of the transaction is replaced.
unfoldable pub replace_wait : ℕ → LockWait → List LockWait → Option (List LockWait)
replace_wait txn w [] = none
replace_wait txn w (x ∷ xs) =
    let rest = replace_wait txn w xs in
    if x.txn == txn then some (w ∷ xs) else elim rest [ none ↦ none | some ys ↦ some (x ∷ ys) ]

unfoldable pub lock_wait_add : LockManager → ℕ → List ℕ → ℕ → LockMode → LockManager
lock_wait_add lm txn table key mode =
    let w : LockWait = record { txn = txn; table = copy_name table; key = key; mode = mode } in
    elim (replace_wait txn w lm.waits) [
      | some ws ↦ record lm { waits = ws }
      | none ↦
          if leb lock_max_waits (length lm.waits)
          then lm
          else record lm { waits = lm.waits ++ w ∷ [] }
    ]

-- `waits[i] = waits[--nwaits]`: the last record fills the gap.
unfoldable pub wait_position : ℕ → List LockWait → Option ℕ
wait_position txn [] = none
wait_position txn (x ∷ xs) =
    let rest = wait_position txn xs in
    if x.txn == txn then some 0 else elim rest [ none ↦ none | some i ↦ some (suc i) ]

unfoldable pub lock_wait_clear : LockManager → ℕ → LockManager
lock_wait_clear lm txn = elim (wait_position txn lm.waits) [
  | none ↦ lm
  | some i ↦
      let last = length lm.waits - 1 in
      elim (get_elem? lm.waits last) [
        | none ↦ lm
        | some w ↦ record lm { waits = take last (set lm.waits i w) }
      ]
]

unfoldable pub wait_of : ℕ → List LockWait → Option LockWait
wait_of txn [] = none
wait_of txn (x ∷ xs) = if x.txn == txn then some x else wait_of txn xs

-- An entry of another transaction that the awaited mode conflicts with.
unfoldable pub blocks : ℕ → LockWait → LockEntry → Bool
blocks txn w e =
    not (e.txn == 0 || e.txn == txn || not (e.key == w.key) || not (name_eq e.table w.table))
    && (is_x w.mode || is_x e.mode)

-- The second loop of `wait_targets`, `out` being what is gathered so far.
unfoldable pub gather_targets : ℕ → LockWait → List LockEntry → List ℕ → List ℕ
gather_targets txn w [] out = out
gather_targets txn w (e ∷ es) out = gather_targets txn w es (
    if blocks txn w e && not (any (λ o. o == e.txn) out) && ltb (length out) lock_max
    then out ++ e.txn ∷ []
    else out)

unfoldable pub wait_targets : LockManager → ℕ → List ℕ
wait_targets lm txn = elim (wait_of txn lm.waits) [
  | none ↦ []
  | some w ↦ gather_targets txn w lm.entries []
]

-- The first result that is not 0.
unfoldable pub first_found : (ℕ → ℕ) → List ℕ → ℕ
first_found f [] = 0
first_found f (t ∷ ts) = let rest = first_found f ts in let v = f t in if v == 0 then rest else v

-- `dfs_cycle` with `path[0..depth)` as a list, and as fuel the rounds up to LOCK_MAX_WAITS that
-- are left.
unfoldable pub dfs_cycle : LockManager → ℕ → List ℕ → ℕ → ℕ
dfs_cycle lm zero path txn = if any (λ p. p == txn) path then txn else 0
dfs_cycle lm (suc left) path txn =
    let deeper = λ (t : ℕ). dfs_cycle lm left (path ++ txn ∷ []) t in
    let below = first_found deeper (wait_targets lm txn) in
    if any (λ p. p == txn) path then txn else below

unfoldable pub waiting : List LockWait → List ℕ
waiting [] = []
waiting (w ∷ ws) = w.txn ∷ waiting ws

unfoldable pub lock_deadlock_victim : LockManager → ℕ
lock_deadlock_victim lm = first_found (dfs_cycle lm lock_max_waits []) (waiting lm.waits)
