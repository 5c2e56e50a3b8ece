-- ===== src/Raft/Log.antt =====
-- src/raft.c: the log with its base offset, and the member mask.
use Prim.Native.Nat.{bit_and}
use db_hobby.Base.{
  ℕ, zero, suc, ◌+◌, ◌-◌, ◌*◌, ◌/◌, ◌%◌, ◌^◌, Bool, none, List, [], ◌∷◌, ◌++◌, ◌==◌, ltb, leb,
  length, get_or, drop, if◌then◌else◌, Rc, ok, fail, u32_mod,
}
use db_hobby.Raft.Types.{RaftEntry, Raft, marker, follower}

unfoldable pub raft_last_log_index : Raft → ℕ
raft_last_log_index r = r.log_base + length r.log - 1

unfoldable pub raft_last_log_term : Raft → ℕ
raft_last_log_term r = (get_or r.log (length r.log - 1) (marker 0)).term

unfoldable pub ent : Raft → ℕ → RaftEntry
ent r i = get_or r.log (i - r.log_base) (marker 0)

unfoldable pub term_at : Raft → ℕ → ℕ
unfolding ent
term_at r i = (ent r i).term

-- A config entry is adopted as soon as it is in the log.
unfoldable pub maybe_adopt_config : Raft → RaftEntry → Raft
maybe_adopt_config r e = if e.is_config then record r { member_mask = e.command % u32_mod } else r

abbrev pub push_entry : Raft → ℕ → RaftEntry → Raft
push_entry r cap e = record r { log = r.log ++ e ∷ []; log_cap = cap }

-- `alloc n` says whether `realloc` finds room for `n` entries.
unfoldable pub log_append : (ℕ → Bool) → Raft → RaftEntry → Raft × Rc
log_append alloc r e =
    if leb r.log_cap (length r.log)
    then (if alloc (r.log_cap * 2)
        then (maybe_adopt_config (push_entry r (r.log_cap * 2) e) e, ok)
        else (r, fail))
    else (maybe_adopt_config (push_entry r r.log_cap e) e, ok)

unfoldable pub raft_is_member : Raft → ℕ → Bool
raft_is_member r id = (r.member_mask / 2 ^ id) % 2 == 1

-- `for (m = mask; m; m &= m - 1) c++`: a uint32_t has at most 32 rounds.
unfoldable pub count_bits : ℕ → ℕ → ℕ → ℕ
count_bits zero m c = c
count_bits (suc fuel) m c =
    let rest = count_bits fuel (bit_and m (m - 1)) (c + 1) in if m == 0 then c else rest

unfoldable pub member_count : Raft → ℕ
unfolding count_bits
member_count r = count_bits 32 r.member_mask 0

unfoldable pub majority : Raft → ℕ
majority r = member_count r / 2 + 1

-- The mask after the config entries of a stretch of the log, the later ones winning.
unfoldable pub fold_config : ℕ → List RaftEntry → ℕ
fold_config m [] = m
fold_config m (e ∷ es) = fold_config (if e.is_config then e.command % u32_mod else m) es

unfoldable pub recompute_member_mask : Raft → Raft
unfolding fold_config
recompute_member_mask r = record r { member_mask = fold_config r.base_member_mask (drop 1 r.log) }

unfoldable pub candidate_log_up_to_date : Raft → ℕ → ℕ → Bool
unfolding raft_last_log_term raft_last_log_index
candidate_log_up_to_date r cand_idx cand_term =
    if cand_term == raft_last_log_term r
    then leb (raft_last_log_index r) cand_idx
    else ltb (raft_last_log_term r) cand_term

unfoldable pub become_follower : Raft → ℕ → Raft
become_follower r term = record r {
  role = follower;
  current_term = term;
  voted_for = none;
  election_elapsed = 0;
  read_barrier_index = none;
  read_confirmed_index = none;
}

unfoldable pub step_down_if_higher : Raft → ℕ → Raft
unfolding become_follower
step_down_if_higher r term = if ltb r.current_term term then become_follower r term else r
