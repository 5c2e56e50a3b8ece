-- ===== src/Where/Conditions.antt =====
-- src/sql.h, src/db.c: conditions and the WHERE clause. The cells of a row stand in the order of the
-- schema's columns, and a row has a cell for each of them.
use db_hobby.Base.{
  ℕ, Bool, true, false, ◌&&◌, ◌||◌, not, Option, none, some, List, [], ◌∷◌, if◌then◌else◌, any,
}
use db_hobby.Where.{
  Value, val_int, val_text, val_null, CmpOp, cmp_apply, cmp_like, cmp_not_like, cmp_is_null,
  cmp_is_not_null, compare_int, strcmp, is_equal, like_match,
}

pub record Condition : Type 0 where
  pub tbl : List ℕ
  pub col : List ℕ
  pub op : CmpOp
  pub val : Value
  pub in_sub : Bool
  pub in_negate : Bool
  pub scalar_sub : Bool
  pub in_set : List Value

abbrev pub is_null : Value → Bool
is_null val_null = true
is_null _ = false

-- A comparison of two values of one type; one of different types, or with a NULL, is false.
unfoldable pub compare_values : CmpOp → Value → Value → Bool
compare_values op (val_int a) (val_int b) = cmp_apply op (compare_int a b)
compare_values op (val_text a) (val_text b) = cmp_apply op (strcmp a b)
compare_values op _ _ = false

-- The test of the loop over `in_set`, of a cell that is not NULL.
unfoldable pub is_member : Value → Value → Bool
is_member (val_int a) (val_int b) = is_equal (compare_int a b)
is_member (val_text a) (val_text b) = is_equal (strcmp a b)
is_member _ _ = false

unfoldable pub like_values : Value → Value → Option Bool
like_values (val_text s) (val_text pat) = like_match s pat
like_values _ _ = none

-- The branch `cond->in_sub`, of a cell that is not NULL.
unfoldable pub eval_in : Value → Condition → Bool
eval_in cell cond =
    if cond.scalar_sub
    then elim cond.in_set [ [] ↦ false | ◌∷◌ v vs ↦ compare_values cond.op cell v ]
    else let member = any (is_member cell) cond.in_set in
      if cond.in_negate then not member else member

-- The branches after the one for NULL tests, of a cell that is there.
unfoldable pub eval_op : CmpOp → Value → Value → Bool
eval_op cmp_like cell val = elim (like_values cell val) [ none ↦ false | some m ↦ m ]
eval_op cmp_not_like cell val = elim (like_values cell val) [ none ↦ false | some m ↦ not m ]
eval_op cmp_is_null cell val = is_null cell
eval_op cmp_is_not_null cell val = not (is_null cell)
eval_op op cell val = compare_values op cell val

-- `none` is the NULL pointer.
unfoldable pub cond_eval : Option Value → Condition → Bool
cond_eval none cond = false
cond_eval (some cell) cond =
    if cond.in_sub
    then (if is_null cell then false else eval_in cell cond)
    else eval_op cond.op cell cond.val

unfoldable pub values_equal : Value → Value → Bool
values_equal (val_int a) (val_int b) = is_equal (compare_int a b)
values_equal (val_text a) (val_text b) = is_equal (strcmp a b)
values_equal _ _ = false

-- A table of the FROM clause: the names of its columns, its effective name and a row.
pub record Source : Type 0 where
  pub columns : List (List ℕ)
  pub tname : List ℕ
  pub row : List Value

unfoldable pub find_cell : List (List ℕ) → List ℕ → List Value → Option Value
find_cell [] col row = none
find_cell (name ∷ names) col [] = none
find_cell (name ∷ names) col (v ∷ row) =
    let rest = find_cell names col row in if is_equal (strcmp name col) then some v else rest

abbrev pub is_empty : List ℕ → Bool
is_empty [] = true
is_empty _ = false

unfoldable pub cell_in : Source → List ℕ → List ℕ → Option Value
cell_in t qtbl col =
    if not (is_empty qtbl) && not (is_equal (strcmp qtbl t.tname))
    then none
    else find_cell t.columns col t.row

unfoldable pub cond_matches : Source → Condition → Bool
cond_matches t cond = cond_eval (cell_in t cond.tbl cond.col) cond

unfoldable pub group_matches : Source → List Condition → Bool
group_matches t [] = true
group_matches t (c ∷ cs) = let rest = group_matches t cs in cond_matches t c && rest

-- A WHERE clause: AND groups, of which one has to hold; none at all holds.
unfoldable pub any_group : (List Condition → Bool) → List (List Condition) → Bool
any_group p [] = false
any_group p (g ∷ gs) = let rest = any_group p gs in p g || rest

unfoldable pub where_matches : Source → List (List Condition) → Bool
where_matches t [] = true
where_matches t (g ∷ gs) = any_group (group_matches t) (g ∷ gs)

unfoldable pub cell_chain : List Source → List ℕ → List ℕ → Option Value
cell_chain [] qtbl col = none
cell_chain (t ∷ ts) qtbl col =
    let rest = cell_chain ts qtbl col in elim (cell_in t qtbl col) [ none ↦ rest | some v ↦ some v ]

unfoldable pub chain_group : List Source → List Condition → Bool
chain_group ts [] = true
chain_group ts (c ∷ cs) =
    let rest = chain_group ts cs in cond_eval (cell_chain ts c.tbl c.col) c && rest

unfoldable pub where_matches_chain : List Source → List (List Condition) → Bool
where_matches_chain ts [] = true
where_matches_chain ts (g ∷ gs) = any_group (chain_group ts) (g ∷ gs)
