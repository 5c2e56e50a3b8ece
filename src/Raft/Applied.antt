-- ===== src/Raft/Applied.antt =====
-- src/raft.c, `apply_committed`: the state machine sees every committed command once, in order.
use db_hobby.Base.{ℕ, zero, suc, ◌+◌, ◌≡◌, List, [], ◌∷◌, if◌then◌else◌}
use db_hobby.Raft.Types.{Raft, Call, applied}
use db_hobby.Raft.Log.{ent}

-- The calls for the `n` entries after index `i`: one for each that is no no-op, lowest first.
pub commands_after : Raft → ℕ → ℕ → List Call
commands_after r i zero = []
commands_after r i (suc n) =
    let rest = commands_after r (i + 1) n in
    if (ent r (i + 1)).is_noop then rest else applied (i + 1) (ent r (i + 1)).command ∷ rest

abbrev SameLog : Raft → Raft → Type 0
SameLog a b = (a.log ≡ b.log) × (a.log_base ≡ b.log_base)
