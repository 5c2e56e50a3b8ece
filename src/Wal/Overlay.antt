-- ===== src/Wal/Overlay.antt =====
-- src/wal.c: a list of page writes, seen from one page of the data file.
use db_hobby.Base.{
  ℕ, ◌≡◌, inl, inr, refl, ap, Bool, true, false, ◌||◌, List, [], ◌∷◌, ◌++◌, ◌==◌, if◌then◌else◌,
  arith, Bool-cases, take, ℕ, zero, suc,
}
use db_hobby.Pager.{Image, Pager, pager_write}
use db_hobby.Wal.{StagedPage, write_pages}

-- The image of page p after the writes, if it was i before.
abbrev pub written : List StagedPage → ℕ → Image → Image
written [] p i = i
written (s ∷ rest) p i = written rest p (if p == s.page_id then s.image else i)

abbrev pub is_written : List StagedPage → ℕ → Bool
is_written [] p = false
is_written (s ∷ rest) p = (p == s.page_id) || is_written rest p

pub write_pages-disk :
    (st : List StagedPage) (d : Pager) (p : ℕ) → (write_pages st d).disk p ≡ written st p (d.disk p)
unfolding write_pages pager_write
write_pages-disk [] d p = refl
write_pages-disk (s ∷ st) d p = write_pages-disk st (pager_write d s.page_id s.image) p

pub written-append :
    (xs ys : List StagedPage) (p : ℕ) (i : Image)
    → written (xs ++ ys) p i ≡ written ys p (written xs p i)
written-append [] ys p i = refl
written-append (s ∷ xs) ys p i = written-append xs ys p (if p == s.page_id then s.image else i)

pub written-not :
    (st : List StagedPage) (p : ℕ) (i : Image) → is_written st p ≡ false → written st p i ≡ i
written-not [] p i h = refl
written-not (s ∷ st) p i h = ground (arith, written-not st p i)

pub written-is :
    (st : List StagedPage) (p : ℕ) (i j : Image)
    → is_written st p ≡ true
    → written st p i ≡ written st p j
written-is [] p i j h = absurd (cc h)
written-is (s ∷ st) p i j h = elim (Bool-cases (p == s.page_id)) [
  | inl e ↦ rw e refl
  | inr e ↦ rw e (written-is st p i j (ground arith))
]

pub is_written-append :
    (xs ys : List StagedPage) (p : ℕ)
    → is_written (xs ++ ys) p ≡ (is_written xs p || is_written ys p)
is_written-append [] ys p = refl
is_written-append (s ∷ xs) ys p = ground (arith, is_written-append xs ys p)

-- Two images that agree where the writes do not reach are alike after them.
pub written-agree :
    (st : List StagedPage) (p : ℕ) (i j : Image)
    → (is_written st p ≡ false → i ≡ j)
    → written st p i ≡ written st p j
written-agree st p i j h = elim (Bool-cases (is_written st p)) [
  | inl e ↦ written-is st p i j e
  | inr e ↦ ap (written st p) (h e)
]

is_written-take :
    (n : ℕ) (st : List StagedPage) (p : ℕ)
    → is_written st p ≡ false
    → is_written (take n st) p ≡ false
is_written-take zero st p h = refl
is_written-take (suc n) [] p h = refl
is_written-take (suc n) (s ∷ st) p h = ground (arith, is_written-take n st p)

-- Writing again what has been written in part changes nothing.
pub written-again :
    (n : ℕ) (st : List StagedPage) (p : ℕ) (i : Image)
    → written st p (written (take n st) p i) ≡ written st p i
written-again n st p i =
    written-agree st p (written (take n st) p i) i
      (λ h. written-not (take n st) p i (is_written-take n st p h))
