-- ===== src/BufferPool/Search.antt =====
-- src/bufpool.c: the searches through the frames.
use db_hobby.Base.{
  ℕ, zero, suc, ◌<◌, ◌≤◌, ◌≡◌, ◌⊎◌, inl, inr, refl, sym, ap, ◌∙◌, Bool, true, false, Option, none,
  some, Bool-cases, if◌then◌else◌, ltb, arith,
}
use db_hobby.BufferPool.{Frame, first_frame, older_frame, lru_victim, can_evict}

-- The result is the first frame that passes.
abbrev pub FirstFound : (Frame → Bool) → (ℕ → Frame) → ℕ → Option ℕ → Type 0
FirstFound test frames n none = (j : ℕ) → j < n → test (frames j) ≡ false
FirstFound test frames n (some i) =
    (i < n) × (test (frames i) ≡ true) × ((j : ℕ) → j < i → test (frames j) ≡ false)

below_suc : (j n : ℕ) → j < suc n → (j < n) ⊎ (j ≡ n)
below_suc j n h = elim (Bool-cases (ltb j n)) [
  | inl e ↦ inl (ground arith)
  | inr e ↦ inr (ground arith)
]

-- One more frame in front of a bound.
All-suc :
    (P : Frame → Bool) (frames : ℕ → Frame) (n : ℕ) (b : Bool)
    → ((j : ℕ) → j < n → P (frames j) ≡ b)
    → P (frames n) ≡ b
    → (j : ℕ) → j < suc n
    → P (frames j) ≡ b
All-suc P frames n b h e j l = elim (below_suc j n l) [
  | inl m ↦ h j m
  | inr m ↦ ap (λ (k : ℕ). P (frames k)) m ∙ e
]

FirstFound-next :
    (test : Frame → Bool) (frames : ℕ → Frame) (n : ℕ) (b : Bool)
    → test (frames n) ≡ b
    → ((j : ℕ) → j < n → test (frames j) ≡ false)
    → FirstFound test frames (suc n) (if b then some n else none)
FirstFound-next test frames n true e h = (omega arith, e, h)
FirstFound-next test frames n false e h = All-suc test frames n false h e

FirstFound-suc :
    (test : Frame → Bool) (frames : ℕ → Frame) (n : ℕ) (o : Option ℕ)
    → FirstFound test frames n o
    → FirstFound test frames
        (suc n)
        (elim o [ some i ↦ some i | none ↦ if test (frames n) then some n else none ])
FirstFound-suc test frames n (some i) h = (omega (arith, h.0), h.1, h.2)
FirstFound-suc test frames n none h = FirstFound-next test frames n (test (frames n)) refl h

pub first_frame-FirstFound :
    (test : Frame → Bool) (frames : ℕ → Frame) (n : ℕ)
    → FirstFound test frames n (first_frame test frames n)
unfolding first_frame
first_frame-FirstFound test frames zero = λ j h. absurd (omega arith)
first_frame-FirstFound test frames (suc n) =
    FirstFound-suc test frames n (first_frame test frames n) (first_frame-FirstFound test frames n)

-- The result may be evicted, and no frame that may be was used longer ago.
abbrev pub Oldest : Bool → (ℕ → Frame) → ℕ → Option ℕ → Type 0
Oldest c frames n none = (j : ℕ) → j < n → can_evict c (frames j) ≡ false
Oldest c frames n (some i) =
    (i < n)
    × (can_evict c (frames i) ≡ true)
    × ((j : ℕ)
        → j < n
        → can_evict c (frames j) ≡ true
        → (frames i).last_used ≤ (frames j).last_used)

-- A frame that may not be evicted is passed over.
Oldest-skip :
    (c : Bool) (frames : ℕ → Frame) (n : ℕ) (o : Option ℕ)
    → can_evict c (frames n) ≡ false
    → Oldest c frames n o
    → Oldest c frames (suc n) o
Oldest-skip c frames n none e h = All-suc (can_evict c) frames n false h e
Oldest-skip c frames n (some i) e h = (
  omega (arith, h.0),
  h.1,
  λ j l t. elim (below_suc j n l) [
    | inl m ↦ h.2 j m t
    | inr m ↦ absurd (cc (sym e ∙ (ap (λ (k : ℕ). can_evict c (frames k)) (sym m) ∙ t)))
  ],
)

Oldest-take :
    (c : Bool) (frames : ℕ → Frame) (n i : ℕ) (b : Bool)
    → ltb (frames n).last_used (frames i).last_used ≡ b
    → can_evict c (frames n) ≡ true
    → Oldest c frames n (some i)
    → Oldest c frames (suc n) (if b then some n else some i)
Oldest-take c frames n i true e t h = (
  omega arith,
  t,
  λ j l u. elim (below_suc j n l) [
    | inl m ↦ let o = h.2 j m u in ground arith
    | inr m ↦ omega (arith, ap (λ (k : ℕ). (frames k).last_used) m)
  ],
)
Oldest-take c frames n i false e t h = (
  omega (arith, h.0),
  h.1,
  λ j l u. elim (below_suc j n l) [
    | inl m ↦ h.2 j m u
    | inr m ↦ let same = ap (λ (k : ℕ). (frames k).last_used) m in ground arith
  ],
)

Oldest-older :
    (c : Bool) (frames : ℕ → Frame) (n : ℕ) (o : Option ℕ)
    → can_evict c (frames n) ≡ true
    → Oldest c frames n o
    → Oldest c frames (suc n) (older_frame frames n o)
unfolding older_frame
Oldest-older c frames n none t h = (
  omega arith,
  t,
  λ j l u. elim (below_suc j n l) [
    | inl m ↦ absurd (cc (sym (h j m) ∙ u))
    | inr m ↦ omega (arith, ap (λ (k : ℕ). (frames k).last_used) m)
  ],
)
Oldest-older c frames n (some i) t h =
    Oldest-take c frames n i (ltb (frames n).last_used (frames i).last_used) refl t h

Oldest-suc :
    (c : Bool) (frames : ℕ → Frame) (n : ℕ) (o : Option ℕ) (b : Bool)
    → can_evict c (frames n) ≡ b
    → Oldest c frames n o
    → Oldest c frames (suc n) (if b then older_frame frames n o else o)
Oldest-suc c frames n o true e h = Oldest-older c frames n o e h
Oldest-suc c frames n o false e h = Oldest-skip c frames n o e h

-- The victim is a frame that may be evicted and that was used no later than any other such frame;
-- there is none only where no frame may be evicted. A frame that is pinned may not, and neither may a
-- dirty one where dirty frames may not be stolen.
pub lru_victim-Oldest :
    (c : Bool) (frames : ℕ → Frame) (n : ℕ) → Oldest c frames n (lru_victim c frames n)
unfolding lru_victim
lru_victim-Oldest c frames zero = λ j h. absurd (omega arith)
lru_victim-Oldest c frames (suc n) =
    Oldest-suc c frames n (lru_victim c frames n) (can_evict c (frames n)) refl
      (lru_victim-Oldest c frames n)
