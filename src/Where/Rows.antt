-- ===== src/Where/Rows.antt =====
-- src/db.c: conditions on a NULL cell, and the WHERE clause of a join against that of one table.
use db_hobby.Base.{ℕ, ◌≡◌, refl, Bool, true, false, ◌&&◌, not, some, List, [], ◌∷◌, arith}
use db_hobby.Where.{
  Value, val_null, CmpOp, cmp_is_null, cmp_eq, cmp_ne, cmp_lt, cmp_gt, cmp_le, cmp_ge,
  cmp_is_not_null, cmp_like, cmp_not_like,
}
use db_hobby.Where.Conditions.{
  Condition, Source, cond_eval, eval_op, like_values, compare_values, cell_in, cell_chain,
  cond_matches, group_matches, chain_group, any_group, where_matches, where_matches_chain,
}

abbrev pub is_null_test : CmpOp → Bool
is_null_test cmp_is_null = true
is_null_test _ = false

null-op : (op : CmpOp) (val : Value) → eval_op op val_null val ≡ is_null_test op
unfolding eval_op like_values compare_values
null-op cmp_eq val = refl
null-op cmp_ne val = refl
null-op cmp_lt val = refl
null-op cmp_gt val = refl
null-op cmp_le val = refl
null-op cmp_ge val = refl
null-op cmp_is_null val = refl
null-op cmp_is_not_null val = refl
null-op cmp_like val = refl
null-op cmp_not_like val = refl

-- A NULL cell satisfies IS NULL and no other condition: no comparison, no LIKE or NOT LIKE, no IN
-- or NOT IN, and no comparison with a subquery.
pub cond_eval-null :
    (cond : Condition) → cond_eval (some val_null) cond ≡ (not cond.in_sub && is_null_test cond.op)
unfolding cond_eval
cond_eval-null cond = ground (arith, null-op cond.op cond.val)

cell_chain-one :
    (t : Source) (qtbl col : List ℕ) → cell_chain (t ∷ []) qtbl col ≡ cell_in t qtbl col
unfolding cell_chain
cell_chain-one t qtbl col = ground arith

chain_group-one : (t : Source) (cs : List Condition) → chain_group (t ∷ []) cs ≡ group_matches t cs
unfolding chain_group group_matches cond_matches
chain_group-one t [] = refl
chain_group-one t (c ∷ cs) = ground (arith, chain_group-one t cs, cell_chain-one t c.tbl c.col)

any_group-same :
    (p q : List Condition → Bool) (gs : List (List Condition))
    → ((g : List Condition) → p g ≡ q g)
    → any_group p gs ≡ any_group q gs
unfolding any_group
any_group-same p q [] h = refl
any_group-same p q (g ∷ gs) h = ground (arith, h g, any_group-same p q gs h)

-- On a join of one table, the WHERE clause of joins is the WHERE clause of a single table.
pub where_matches_chain-one :
    (t : Source) (gs : List (List Condition)) → where_matches_chain (t ∷ []) gs ≡ where_matches t gs
unfolding where_matches_chain where_matches
where_matches_chain-one t [] = refl
where_matches_chain-one t (g ∷ gs) =
    any_group-same (chain_group (t ∷ [])) (group_matches t) (g ∷ gs) (chain_group-one t)
