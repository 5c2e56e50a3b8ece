-- ===== src/Lsm/Bsearch.antt =====
-- src/lsm.c: the binary searches of the memtable and of a table find a key exactly when it is there.
use db_hobby.Base.{
  ℕ, zero, suc, ◌+◌, ◌-◌, ◌/◌, ◌<◌, ◌≤◌, ◌≡◌, ◌≢◌, inl, inr, refl, ap, Bool, true, false, Option,
  none, some, ltb, ◌==◌, Bool-cases, arith,
}
use db_hobby.Lsm.{Entry, Lsm, mem_bsearch_loop, mem_bsearch, sst_get_loop}

-- Keys increase.
abbrev pub Sorted : (ℕ → Entry) → ℕ → Type 0
Sorted a n = (i j : ℕ) → i < j → j < n → (a i).key < (a j).key

-- The entry at the position has the key, or it is the place between smaller and greater keys.
abbrev pub Located : (ℕ → Entry) → ℕ → ℕ → ℕ × Bool → Type 0
Located a n key (p, true) = (p < n) × ((a p).key ≡ key)
Located a n key (p, false) =
    (p ≤ n) × ((j : ℕ) → j < p → (a j).key < key) × ((j : ℕ) → p ≤ j → j < n → key < (a j).key)

-- What lies outside of the range from lo to hi.
abbrev pub Bounds : (ℕ → Entry) → ℕ → ℕ → ℕ → ℕ → Type 0
Bounds a n key lo hi =
    (lo ≤ hi)
    × (hi ≤ n)
    × ((j : ℕ) → j < lo → (a j).key < key)
    × ((j : ℕ) → hi ≤ j → j < n → key < (a j).key)

Bounds-up :
    (a : ℕ → Entry) (n key lo hi mid : ℕ)
    → Sorted a n
    → Bounds a n key lo hi
    → mid < hi
    → (a mid).key < key
    → Bounds a n key (mid + 1) hi
Bounds-up a n key lo hi mid s b m k = (
  omega arith,
  b.1,
  λ j l. elim (Bool-cases (ltb j mid)) [
    | inl t ↦ let less = s j mid (ground arith) (omega (arith, b.1)) in omega arith
    | inr t ↦ let same : j ≡ mid = ground arith in omega (arith, ap (λ (x : ℕ). (a x).key) same)
  ],
  b.3,
)

Bounds-down :
    (a : ℕ → Entry) (n key lo hi mid : ℕ)
    → Sorted a n
    → Bounds a n key lo hi
    → lo ≤ mid
    → mid < hi
    → key < (a mid).key
    → Bounds a n key lo mid
Bounds-down a n key lo hi mid s b l m k = (
  l,
  omega (arith, b.1),
  b.2,
  λ j g h. elim (Bool-cases (ltb mid j)) [
    | inl t ↦ let more = s mid j (ground arith) h in omega arith
    | inr t ↦ let same : j ≡ mid = ground arith in omega (arith, ap (λ (x : ℕ). (a x).key) same)
  ],
)

bsearch-Located :
    (a : ℕ → Entry) (n key f lo hi : ℕ)
    → Sorted a n
    → Bounds a n key lo hi
    → hi - lo ≤ f
    → Located a n key (mem_bsearch_loop a key f lo hi)
unfolding mem_bsearch_loop
bsearch-Located a n key zero lo hi s b e =
    (omega (arith, b.0, b.1), b.2, λ j g h. b.3 j (omega (arith, b.0)) h)
bsearch-Located a n key (suc f) lo hi s b e =
    let mid = lo + (hi - lo) / 2 in
    elim (Bool-cases (ltb lo hi)) [
      | inr t ↦ rw t (omega (arith, b.0, b.1), b.2, λ j g h. b.3 j (ground arith) h)
      | inl t ↦ rw t (elim (Bool-cases (ltb (a mid).key key)) [
        | inl u ↦ rw u (
            bsearch-Located a n key f (mid + 1) hi s
              (Bounds-up a n key lo hi mid s b (ground arith) (ground arith)) (ground arith))
        | inr u ↦ rw u (elim (Bool-cases (ltb key (a mid).key)) [
          | inl v ↦ rw v (
              bsearch-Located a n key f lo mid s
                (Bounds-down a n key lo hi mid s b (omega arith) (ground arith) (ground arith))
                (ground arith))
          | inr v ↦ rw v (ground (arith, b.1), ground arith)
        ])
      ])
    ]

pub mem_bsearch-Located :
    (l : Lsm) (key : ℕ) → Sorted l.mem l.mem_n → Located l.mem l.mem_n key (mem_bsearch l key)
unfolding mem_bsearch
mem_bsearch-Located l key s =
    bsearch-Located l.mem l.mem_n key l.mem_n 0 l.mem_n s
      (omega arith, omega arith, λ j h. absurd (omega arith), λ j g h. absurd (omega arith))
      (omega arith)

-- The entry with the key, if there is one.
abbrev pub Finds : (ℕ → Entry) → ℕ → ℕ → Option Entry → Type 0
Finds a n key none = (j : ℕ) → j < n → (a j).key ≢ key
Finds a n key (some e) = (j : ℕ) × (j < n) × ((a j).key ≡ key) × (a j ≡ e)

outside :
    (a : ℕ → Entry) (n key lo hi j : ℕ)
    → Bounds a n key lo hi
    → hi - lo ≤ 0
    → j < n
    → (a j).key ≢ key
outside a n key lo hi j b e h g = elim (Bool-cases (ltb j lo)) [
  | inl t ↦ let less = b.2 j (ground arith) in absurd (omega arith)
  | inr t ↦ let order = b.0 in let more = b.3 j (ground arith) h in absurd (omega arith)
]

pub sst_loop-Finds :
    (a : ℕ → Entry) (n key f lo hi : ℕ)
    → Sorted a n
    → Bounds a n key lo hi
    → hi - lo ≤ f
    → Finds a n key (sst_get_loop a key f lo hi)
unfolding sst_get_loop
sst_loop-Finds a n key zero lo hi s b e = λ j h g. outside a n key lo hi j b e h g
sst_loop-Finds a n key (suc f) lo hi s b e =
    let mid = lo + (hi - 1 - lo) / 2 in
    elim (Bool-cases (ltb lo hi)) [
      | inr t ↦ rw t (λ j h g. outside a n key lo hi j b (ground arith) h g)
      | inl t ↦ rw t (elim (Bool-cases ((a mid).key == key)) [
        | inl u ↦ rw u (mid, ground (arith, b.1), ground arith, refl)
        | inr u ↦ rw u (elim (Bool-cases (ltb (a mid).key key)) [
          | inl v ↦ rw v (
              sst_loop-Finds a n key f (mid + 1) hi s
                (Bounds-up a n key lo hi mid s b (ground arith) (ground arith)) (ground arith))
          | inr v ↦ rw v (
              sst_loop-Finds a n key f lo mid s
                (Bounds-down a n key lo hi mid s b (omega arith) (ground arith) (ground arith))
                (ground arith))
        ])
      ])
    ]
