-- ===== src/Examples/Queries.antt =====
-- src/db.c: a table of one column.
use db_hobby.Base.{ℕ, ◌≡◌, false, some, List, [], ◌∷◌}
use db_hobby.Where.{val_text, cmp_like, like_match}
use db_hobby.Where.Conditions.{Condition, Source}
use db_hobby.Where.Like.{matches, like_match-matches}

-- "xaab" and "%ab"
abbrev xaab : List ℕ
xaab = 120 ∷ 97 ∷ 97 ∷ 98 ∷ []

abbrev any_ab : List ℕ
any_ab = 37 ∷ 97 ∷ 98 ∷ []

abbrev like_ab : Condition
like_ab = record {
  tbl = [];
  col = 99 ∷ [];
  op = cmp_like;
  val = val_text any_ab;
  in_sub = false;
  in_negate = false;
  scalar_sub = false;
  in_set = [];
}

abbrev one_row : Source
one_row = record { columns = (99 ∷ []) ∷ []; tname = 116 ∷ []; row = val_text xaab ∷ [] }

like_match-matches_example : like_match xaab any_ab ≡ some (matches any_ab xaab)
like_match-matches_example = like_match-matches xaab any_ab
