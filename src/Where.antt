-- ===== src/Where.antt =====
-- src/sql.h, src/db.c: values, their comparison and LIKE. A string is the list of its bytes before
-- the NUL.
pub mod Like
pub mod Conditions
pub mod Rows
use db_hobby.Base.{
  ℕ, zero, suc, ◌+◌, ◌*◌, Bool, true, false, ◌&&◌, ◌||◌, not, Option, none, some, List, [], ◌∷◌,
  if◌then◌else◌, ◌==◌, ltb, length, any,
}

-- `long`
pub data ℤ : Type 0 where
  pos negsuc : ℕ → ℤ

-- What the code keeps of a comparison: a negative number, 0 or a positive one.
pub data Sign : Type 0 where
  below equal above : Sign

unfoldable pub compare_nat : ℕ → ℕ → Sign
compare_nat a b = if ltb a b then below else if ltb b a then above else equal

unfoldable pub compare_int : ℤ → ℤ → Sign
compare_int (pos a) (pos b) = compare_nat a b
compare_int (pos a) (negsuc b) = above
compare_int (negsuc a) (pos b) = below
compare_int (negsuc a) (negsuc b) = compare_nat b a

-- `strcmp`
unfoldable pub strcmp : List ℕ → List ℕ → Sign
strcmp [] [] = equal
strcmp [] (y ∷ ys) = below
strcmp (x ∷ xs) [] = above
strcmp (x ∷ xs) (y ∷ ys) =
    let rest = strcmp xs ys in if ltb x y then below else if ltb y x then above else rest

abbrev pub is_equal : Sign → Bool
is_equal equal = true
is_equal _ = false

abbrev pub is_below : Sign → Bool
is_below below = true
is_below _ = false

abbrev pub is_above : Sign → Bool
is_above above = true
is_above _ = false

pub data CmpOp : Type 0 where
  cmp_eq cmp_ne cmp_lt cmp_gt cmp_le cmp_ge cmp_is_null cmp_is_not_null cmp_like cmp_not_like :
      CmpOp

unfoldable pub cmp_apply : CmpOp → Sign → Bool
cmp_apply cmp_eq s = is_equal s
cmp_apply cmp_ne s = not (is_equal s)
cmp_apply cmp_lt s = is_below s
cmp_apply cmp_gt s = is_above s
cmp_apply cmp_le s = not (is_above s)
cmp_apply cmp_ge s = not (is_below s)
cmp_apply cmp_is_null s = false
cmp_apply cmp_is_not_null s = false
cmp_apply cmp_like s = false
cmp_apply cmp_not_like s = false

-- The locals of `like_match`; `star` is the pattern after the last '%' and the text at `ss`.
pub record LikeState : Type 0 where
  pub text : List ℕ
  pub pat : List ℕ
  pub star : Option (List ℕ × List ℕ)

pub data LikeMove : Type 0 where
  goes : LikeState → LikeMove
  stops : Bool → LikeMove

-- `while (*pat == '%') pat++; return *pat == '\0'`
unfoldable pub only_percents : List ℕ → Bool
only_percents [] = true
only_percents (x ∷ pat) = x == 37 && only_percents pat

-- The branch that goes back to the last '%', if there was one.
unfoldable pub retry : Option (List ℕ × List ℕ) → LikeMove
retry none = stops false
retry (some (after, [])) = stops false
retry (some (after, c ∷ ss)) = goes (record { text = ss; pat = after; star = some (after, ss) })

-- One round of the loop.
unfoldable pub like_step : List ℕ → List ℕ → Option (List ℕ × List ℕ) → LikeMove
like_step [] pat star = stops (only_percents pat)
like_step (c ∷ s) [] star = retry star
like_step (c ∷ s) (x ∷ pat) star =
    if x == 37
    then goes (record { text = c ∷ s; pat = pat; star = some (pat, c ∷ s) })
    else if x == 95 || x == c
    then goes (record { text = s; pat = pat; star = star })
    else retry star

unfoldable pub like_run : ℕ → LikeMove → Option Bool
like_run n (stops b) = some b
like_run zero (goes st) = none
like_run (suc n) (goes st) = like_run n (like_step st.text st.pat st.star)

-- The fuel, one round for each position in the text and in the pattern.
unfoldable pub like_fuel : List ℕ → List ℕ → ℕ
like_fuel s pat = suc (length s * suc (length pat) + length pat)

unfoldable pub like_match : List ℕ → List ℕ → Option Bool
like_match s pat = like_run (like_fuel s pat) (goes (record { text = s; pat = pat; star = none }))

pub data Value : Type 0 where
  val_int : ℤ → Value
  val_text : List ℕ → Value
  val_null : Value
