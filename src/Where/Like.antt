-- ===== src/Where/Like.antt =====
-- src/db.c, `like_match`: the loop that goes back to the last '%' decides LIKE as it is defined by
-- recursion on the pattern.
use db_hobby.Base.{
  ℕ, zero, suc, ◌+◌, ◌*◌, ◌≤◌, ◌<◌, ◌≡◌, refl, ap, ◌∙◌, sym, Bool, true, false, ◌&&◌, ◌||◌, Option,
  none, some, List, [], ◌∷◌, if◌then◌else◌, ◌==◌, length, arith, Bool-cases, inl, inr,
}
use db_hobby.Where.{
  LikeMove, goes, stops, only_percents, retry, like_step, like_run, like_fuel, like_match,
}

module _ (f : List ℕ → Bool) where
  unfoldable pub some_suffix : List ℕ → Bool
  some_suffix [] = f []
  some_suffix (c ∷ s) = f (c ∷ s) || some_suffix s

-- '%' stands for any string, '_' for one byte, another byte for itself.
unfoldable pub one_byte : ℕ → (List ℕ → Bool) → List ℕ → Bool
one_byte x f [] = false
one_byte x f (c ∷ s) = (x == 95 || x == c) && f s

unfoldable pub matches : List ℕ → List ℕ → Bool
matches [] [] = true
matches [] (c ∷ s) = false
matches (x ∷ pat) s = if x == 37 then some_suffix (matches pat) s else one_byte x (matches pat) s

suffix-here : (f : List ℕ → Bool) (s : List ℕ) → f s ≡ true → some_suffix f s ≡ true
unfolding some_suffix
suffix-here f [] h = h
suffix-here f (c ∷ s) h = ground arith

suffix-twice :
    (f : List ℕ → Bool) (s : List ℕ) → some_suffix (some_suffix f) s ≡ true → some_suffix f s ≡ true
unfolding some_suffix
suffix-twice f [] h = h
suffix-twice f (c ∷ s) h = ground (arith, suffix-twice f s)

suffix-one :
    (x c : ℕ) (f : List ℕ → Bool) (s : List ℕ)
    → some_suffix (one_byte x f) (c ∷ s) ≡ true
    → some_suffix f s ≡ true
unfolding some_suffix one_byte
suffix-one x c f [] h = ground arith
suffix-one x c f (d ∷ s) h = ground (arith, suffix-one x d f s)

suffix-same :
    (f g : List ℕ → Bool) (s : List ℕ)
    → ((t : List ℕ) → f t ≡ g t)
    → some_suffix f s ≡ some_suffix g s
unfolding some_suffix
suffix-same f g [] h = h []
suffix-same f g (c ∷ s) h = ground (arith, h (c ∷ s), suffix-same f g s h)

matches-percent :
    (x : ℕ) (pat t : List ℕ) → (x == 37) ≡ true → matches (x ∷ pat) t ≡ some_suffix (matches pat) t
unfolding matches
matches-percent x pat t h = rw h refl

matches-byte :
    (x : ℕ) (pat t : List ℕ) → (x == 37) ≡ false → matches (x ∷ pat) t ≡ one_byte x (matches pat) t
unfolding matches
matches-byte x pat t h = rw h refl

times_mono : (k a b : ℕ) → a ≤ b → a * k ≤ b * k
times_mono k zero b h = omega arith
times_mono k (suc a) zero h = absurd (omega arith)
times_mono k (suc a) (suc b) h = omega (arith, times_mono k a b (omega arith))

only_percents-matches : (pat : List ℕ) → only_percents pat ≡ matches pat []
unfolding only_percents matches some_suffix one_byte
only_percents-matches [] = refl
only_percents-matches (x ∷ pat) = ground (arith, only_percents-matches pat)

-- Whether going back to the last '%' can still succeed.
unfoldable star_value : Option (List ℕ × List ℕ) → Bool
star_value none = false
star_value (some (after, [])) = false
star_value (some (after, c ∷ ss)) = some_suffix (matches after) ss

-- The text at the last '%', or a bound on the text.
unfoldable span : ℕ → Option (List ℕ × List ℕ) → ℕ
span n none = n
span n (some (after, ss)) = length ss

unfoldable after_length : Option (List ℕ × List ℕ) → ℕ
after_length none = 0
after_length (some (after, ss)) = length after

module _ (n p : ℕ) where
  record Good (s pat : List ℕ) (star : Option (List ℕ × List ℕ)) : Type 0 where
    text_fits : length s ≤ span n star
    pat_fits : length pat ≤ p
    after_fits : after_length star ≤ p
    covers : star_value star ≡ true → some_suffix (matches pat) s ≡ true

  unfoldable measure : List ℕ → Option (List ℕ × List ℕ) → ℕ
  measure pat star = span n star * suc p + length pat

  StepOk : Bool → ℕ → LikeMove → Type 0
  StepOk v m (stops b) = b ≡ v
  StepOk v m (goes st) =
      Good st.text st.pat st.star
      × (v ≡ (matches st.pat st.text || star_value st.star))
      × (measure st.pat st.star < m)

  drops : (l a b : ℕ) → a ≤ p → suc l * suc p + a < suc (suc l) * suc p + b
  drops l a b h = ground (arith, h)

  grows : (l b m : ℕ) → suc l ≤ m → suc l * suc p + b < m * suc p + suc b
  grows l b m h = omega (arith, times_mono (suc p) (suc l) m h)

  retry-StepOk :
      (v : Bool) (s pat : List ℕ) (star : Option (List ℕ × List ℕ))
      → Good s pat star
      → v ≡ star_value star
      → StepOk v (measure pat star) (retry star)
  unfolding StepOk retry star_value measure span after_length some_suffix
  retry-StepOk v s pat none g h = ground arith
  retry-StepOk v s pat (some (after, [])) g h = ground arith
  retry-StepOk v s pat (some (after, c ∷ [])) g h = (
    record {
      text_fits = omega arith;
      pat_fits = g.after_fits;
      after_fits = g.after_fits;
      covers = λ k. absurd (ground (arith, k));
    },
    ground (arith, h),
    omega (arith, g.after_fits),
  )
  retry-StepOk v s pat (some (after, c ∷ d ∷ ss)) g h = (
    record {
      text_fits = omega arith;
      pat_fits = g.after_fits;
      after_fits = g.after_fits;
      covers = λ k. ground (arith, k);
    },
    ground (arith, h),
    drops (length ss) (length after) (length pat) g.after_fits,
  )

  -- At a '%': the choices of an earlier one are covered by those of this one.
  percent-StepOk :
      (v : Bool) (c : ℕ) (s pat : List ℕ) (star : Option (List ℕ × List ℕ))
      → length (c ∷ s) ≤ span n star
      → suc (length pat) ≤ p
      → v ≡ (some_suffix (matches pat) (c ∷ s) || star_value star)
      → (star_value star ≡ true → some_suffix (some_suffix (matches pat)) (c ∷ s) ≡ true)
      → StepOk v
          (measure (37 ∷ pat) star)
          (goes (record { text = c ∷ s; pat = pat; star = some (pat, c ∷ s) }))
  unfolding StepOk star_value measure span after_length some_suffix
  percent-StepOk v c s pat star a b h k = (
    record {
      text_fits = omega arith;
      pat_fits = omega arith;
      after_fits = omega arith;
      covers = λ q. ground (arith, q);
    },
    ground (arith, h, k, suffix-twice (matches pat) (c ∷ s)),
    grows (length s) (length pat) (span n star) a,
  )

  byte-StepOk :
      (v : Bool) (c x : ℕ) (s pat : List ℕ) (star : Option (List ℕ × List ℕ))
      → length (c ∷ s) ≤ span n star
      → suc (length pat) ≤ p
      → after_length star ≤ p
      → v ≡ (matches pat s || star_value star)
      → (star_value star ≡ true → some_suffix (one_byte x (matches pat)) (c ∷ s) ≡ true)
      → StepOk v (measure (x ∷ pat) star) (goes (record { text = s; pat = pat; star = star }))
  unfolding StepOk measure
  byte-StepOk v c x s pat star a b d h k = (
    record {
      text_fits = omega arith;
      pat_fits = omega arith;
      after_fits = d;
      covers = λ q. suffix-one x c (matches pat) s (k q);
    },
    h,
    omega arith,
  )

  end-StepOk :
      (v : Bool) (pat : List ℕ) (star : Option (List ℕ × List ℕ))
      → Good [] pat star
      → v ≡ (matches pat [] || star_value star)
      → StepOk v (measure pat star) (stops (only_percents pat))
  unfolding StepOk some_suffix
  end-StepOk v pat star g e = ground (arith, only_percents-matches pat, g.covers)

  step-StepOk :
      (v : Bool) (s pat : List ℕ) (star : Option (List ℕ × List ℕ))
      → Good s pat star
      → v ≡ (matches pat s || star_value star)
      → StepOk v (measure pat star) (like_step s pat star)
  unfolding like_step matches one_byte measure
  step-StepOk v [] pat star g e = end-StepOk v pat star g e
  step-StepOk v (c ∷ s) [] star g e = retry-StepOk v (c ∷ s) [] star g e
  step-StepOk v (c ∷ s) (x ∷ pat) star g e = elim (Bool-cases (x == 37)) [
    | inl h ↦ rw h (
        percent-StepOk v c s pat star g.text_fits g.pat_fits (rw h at e) (λ q.
          sym (
            suffix-same (matches (x ∷ pat)) (some_suffix (matches pat)) (c ∷ s)
              (λ t. matches-percent x pat t h))
          ∙ g.covers q))
    | inr h ↦ elim (Bool-cases (x == 95 || x == c)) [
      | inl k ↦
          rw (h, k)
            (byte-StepOk v c x s pat star g.text_fits g.pat_fits g.after_fits (rw (h, k) at e) (λ q.
              sym (
                suffix-same (matches (x ∷ pat)) (one_byte x (matches pat)) (c ∷ s)
                  (λ t. matches-byte x pat t h))
              ∙ g.covers q))
      | inr k ↦ rw (h, k) (retry-StepOk v (c ∷ s) (x ∷ pat) star g (rw (h, k) at e))
    ]
  ]

  -- Enough rounds for the measure give the value.
  run_value :
      (left m : ℕ) (v : Bool) (move : LikeMove)
      → StepOk v m move
      → m ≤ left
      → like_run left move ≡ some v
  unfolding like_run StepOk
  run_value left m v (stops b) ok h = ap some ok
  run_value zero m v (goes st) (good, same, less) h = absurd (omega arith)
  run_value (suc left) m v (goes st) (good, same, less) h =
      run_value left (measure st.pat st.star) v (like_step st.text st.pat st.star)
        (step-StepOk v st.text st.pat st.star good same) (omega arith)

-- The loop of `like_match` ends within its fuel, and decides LIKE: '%' stands for any string, '_'
-- for one byte, and any other byte for itself.
pub like_match-matches : (s pat : List ℕ) → like_match s pat ≡ some (matches pat s)
unfolding like_match like_fuel star_value StepOk measure span after_length
like_match-matches s pat =
    run_value (length s) (length pat) (like_fuel s pat) (like_fuel s pat) (matches pat s)
      (goes (record { text = s; pat = pat; star = none }))
      (
        record {
          text_fits = omega arith;
          pat_fits = omega arith;
          after_fits = omega arith;
          covers = λ q. absurd (ground (arith, q));
        },
        ground arith,
        omega arith,
      )
      (omega arith)
