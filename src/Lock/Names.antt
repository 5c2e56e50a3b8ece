-- ===== src/Lock/Names.antt =====
-- Names of tables: comparison, and the copy into an entry (src/lock.c, `same_obj`, `snprintf`).
use db_hobby.Base.{ℕ, zero, suc, ◌≤◌, ◌≡◌, refl, ap, ◌↔◌, true, List, [], ◌∷◌, arith, length, take}
use db_hobby.Lock.{name_eq, copy_name}

pub name_eq_iff : (a b : List ℕ) → (name_eq a b ≡ true) ↔ (a ≡ b)
unfolding name_eq
name_eq_iff [] [] = ground arith
name_eq_iff [] (y ∷ ys) = ground arith
name_eq_iff (x ∷ xs) [] = ground arith
name_eq_iff (x ∷ xs) (y ∷ ys) = ground (arith, name_eq_iff xs ys)

take_all : (n : ℕ) (s : List ℕ) → length s ≤ n → take n s ≡ s
take_all zero [] h = refl
take_all zero (x ∷ xs) h = absurd (omega arith)
take_all (suc n) [] h = refl
take_all (suc n) (x ∷ xs) h = ap (◌∷◌ x) (take_all n xs (omega arith))

-- A name that fits the field is stored whole.
pub copy_name-eq : (s : List ℕ) → length s ≤ 63 → copy_name s ≡ s
unfolding copy_name
copy_name-eq s h = take_all 63 s h
