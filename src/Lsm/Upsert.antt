-- ===== src/Lsm/Upsert.antt =====
-- src/lsm.c: `mem_upsert` replaces the version of its key, or makes room for it.
use db_hobby.Base.{
  ℕ, suc, ◌+◌, ◌-◌, ◌<◌, ◌≤◌, ◌≡◌, ◌≢◌, ◌⊎◌, inl, inr, refl, sym, ap, ◌∙◌, Bool, true, false,
  Option, none, some, if◌then◌else◌, ltb, ◌==◌, Bool-cases, arith, update,
}
use db_hobby.Lsm.{Entry, Lsm, insert_at, upsert_at, mem_upsert, mem_bsearch}
use db_hobby.Lsm.Bsearch.{Sorted, Located, mem_bsearch-Located, Finds}

-- The keys increase; the new version is found; the versions of other keys are found as before; and
-- the tables stay.
pub record Upserted (l m : Lsm) (e : Entry) : Type 0 where
  pub sorted : Sorted m.mem m.mem_n
  pub new : Finds m.mem m.mem_n e.key (some e)
  pub others :
      (k : ℕ) (r : Option Entry) → k ≢ e.key → Finds l.mem l.mem_n k r → Finds m.mem m.mem_n k r
  pub tables : m.ssts ≡ l.ssts
  pub table_count : m.nsst ≡ l.nsst

replaced_key :
    (a : ℕ → Entry) (e : Entry) (p j : ℕ)
    → (a p).key ≡ e.key
    → (update a p (record (a p) { val = e.val; tomb = e.tomb }) j).key ≡ (a j).key
replaced_key a e p j h = elim (Bool-cases (j == p)) [
  | inl t ↦ rw t (ap (λ (x : ℕ). (a x).key) (ground arith))
  | inr t ↦ rw t refl
]

other_kept : (a : ℕ → Entry) (v : Entry) (p j : ℕ) → j ≢ p → update a p v j ≡ a j
other_kept a v p j h = ground arith

replaced_others :
    (a : ℕ → Entry) (n : ℕ) (e : Entry) (p k : ℕ) (r : Option Entry)
    → (a p).key ≡ e.key
    → k ≢ e.key
    → Finds a n k r
    → Finds (update a p (record (a p) { val = e.val; tomb = e.tomb })) n k r
replaced_others a n e p k none h d f = λ j l g. f j l (sym (replaced_key a e p j h) ∙ g)
replaced_others a n e p k (some x) h d (j, l, g, y) =
    let apart : j ≢ p = λ s. d (sym g ∙ (ap (λ (i : ℕ). (a i).key) s ∙ h)) in
    (j, l, replaced_key a e p j h ∙ g, other_kept a _ p j apart ∙ y)

replaced_new :
    (a : ℕ → Entry) (e : Entry) (p : ℕ)
    → (a p).key ≡ e.key
    → update a p (record (a p) { val = e.val; tomb = e.tomb }) p ≡ e
replaced_new a e p h = let same : (p == p) ≡ true = ground arith in rw same (cc h)

found-Upserted :
    (l : Lsm) (e : Entry) (p : ℕ)
    → Sorted l.mem l.mem_n
    → Located l.mem l.mem_n e.key (p, true)
    → Upserted l (upsert_at l e (p, true)) e
unfolding upsert_at
found-Upserted l e p s h = record {
  sorted = λ i j m n.
      let less = s i j m n in
      omega (arith, replaced_key l.mem e p i h.1, replaced_key l.mem e p j h.1);
  new = (p, h.0, replaced_key l.mem e p p h.1 ∙ h.1, replaced_new l.mem e p h.1);
  others = λ k r d f. replaced_others l.mem l.mem_n e p k r h.1 d f;
  tables = refl;
  table_count = refl;
}

-- Where an entry is after the insertion.
moved : ℕ → ℕ → ℕ
moved p j = if ltb j p then j else suc j

past :
    (a : ℕ → Entry) (e : Entry) (p j : ℕ)
    → p ≤ j
    → (if ltb (suc j) p then a (suc j) else if suc j == p then e else a (suc j - 1)) ≡ a j
past a e p j h =
    let before : ltb (suc j) p ≡ false = ground arith in
    let other : (suc j == p) ≡ false = ground arith in
    let back : suc j - 1 ≡ j = omega arith in rw (before, other) (ap a back)

insert_at-moved : (a : ℕ → Entry) (e : Entry) (p j : ℕ) → insert_at a p e (moved p j) ≡ a j
unfolding insert_at moved
insert_at-moved a e p j = elim (Bool-cases (ltb j p)) [
  | inl t ↦ rw t (rw t refl)
  | inr t ↦ rw t (past a e p j (ground arith))
]

insert_at-new : (a : ℕ → Entry) (e : Entry) (p : ℕ) → insert_at a p e p ≡ e
unfolding insert_at
insert_at-new a e p = ground arith

-- An entry after the insertion is the new one or an old one.
insert_at-cases : (p j : ℕ) → (j ≡ p) ⊎ ((i : ℕ) × (j ≡ moved p i))
unfolding moved
insert_at-cases p j = elim (Bool-cases (ltb j p)) [
  | inl t ↦ inr (j, rw t refl)
  | inr t ↦ elim (Bool-cases (j == p)) [
    | inl u ↦ inl (ground arith)
    | inr u ↦ inr (j - 1, ground arith)
  ]
]

moved-bound : (p i n : ℕ) → p ≤ n → moved p i < n + 1 → i < n
unfolding moved
moved-bound p i n h l = ground arith

bound-moved : (p i n : ℕ) → i < n → moved p i < n + 1
unfolding moved
bound-moved p i n h = ground arith

moved-order : (p i j : ℕ) → moved p i < moved p j → i < j
unfolding moved
moved-order p i j h = ground arith

moved-before : (p i : ℕ) → moved p i < p → i < p
unfolding moved
moved-before p i h = ground arith

moved-after : (p i : ℕ) → p < moved p i → p ≤ i
unfolding moved
moved-after p i h = ground arith

key_at_moved :
    (a : ℕ → Entry) (e : Entry) (p i j : ℕ) → j ≡ moved p i → (insert_at a p e j).key ≡ (a i).key
key_at_moved a e p i j h =
    ap (λ (x : ℕ). (insert_at a p e x).key) h ∙ ap (λ (x : Entry). x.key) (insert_at-moved a e p i)

key_at_new : (a : ℕ → Entry) (e : Entry) (p j : ℕ) → j ≡ p → (insert_at a p e j).key ≡ e.key
key_at_new a e p j h =
    ap (λ (x : ℕ). (insert_at a p e x).key) h ∙ ap (λ (x : Entry). x.key) (insert_at-new a e p)

insert_at-Sorted :
    (a : ℕ → Entry) (n : ℕ) (e : Entry) (p : ℕ)
    → Sorted a n
    → Located a n e.key (p, false)
    → Sorted (insert_at a p e) (n + 1)
insert_at-Sorted a n e p s h i j m l = elim (insert_at-cases p i) [
  | inl x ↦ elim (insert_at-cases p j) [
    | inl y ↦ absurd (omega arith)
    | inr (b, y) ↦
        let place = moved-after p b (omega arith) in
        let more = h.2 b place (moved-bound p b n h.0 (omega arith)) in
        omega (arith, key_at_new a e p i x, key_at_moved a e p b j y)
  ]
  | inr (c, x) ↦ elim (insert_at-cases p j) [
    | inl y ↦
        let less = h.1 c (moved-before p c (omega arith)) in
        omega (arith, key_at_moved a e p c i x, key_at_new a e p j y)
    | inr (b, y) ↦
        let less = s c b (moved-order p c b (omega arith)) (moved-bound p b n h.0 (omega arith)) in
        omega (arith, key_at_moved a e p c i x, key_at_moved a e p b j y)
  ]
]

insert_at-others :
    (a : ℕ → Entry) (n : ℕ) (e : Entry) (p k : ℕ) (r : Option Entry)
    → p ≤ n
    → k ≢ e.key
    → Finds a n k r
    → Finds (insert_at a p e) (n + 1) k r
insert_at-others a n e p k none h d f = λ j l g. elim (insert_at-cases p j) [
  | inl x ↦ d (sym g ∙ key_at_new a e p j x)
  | inr (i, x) ↦ f i (moved-bound p i n h (omega arith)) (sym (key_at_moved a e p i j x) ∙ g)
]
insert_at-others a n e p k (some v) h d (j, l, g, y) = (
  moved p j,
  bound-moved p j n l,
  key_at_moved a e p j (moved p j) refl ∙ g,
  insert_at-moved a e p j ∙ y,
)

inserted-Upserted :
    (l : Lsm) (e : Entry) (p : ℕ)
    → Sorted l.mem l.mem_n
    → Located l.mem l.mem_n e.key (p, false)
    → Upserted l (upsert_at l e (p, false)) e
unfolding upsert_at
inserted-Upserted l e p s h = record {
  sorted = insert_at-Sorted l.mem l.mem_n e p s h;
  new = (p, omega (arith, h.0), key_at_new l.mem e p p refl, insert_at-new l.mem e p);
  others = λ k r d f. insert_at-others l.mem l.mem_n e p k r h.0 d f;
  tables = refl;
  table_count = refl;
}

upsert_at-Upserted :
    (l : Lsm) (e : Entry) (r : ℕ × Bool)
    → Sorted l.mem l.mem_n
    → Located l.mem l.mem_n e.key r
    → Upserted l (upsert_at l e r) e
upsert_at-Upserted l e (p, true) s h = found-Upserted l e p s h
upsert_at-Upserted l e (p, false) s h = inserted-Upserted l e p s h

pub mem_upsert-Upserted :
    (l : Lsm) (key val : ℕ) (tomb : Bool)
    → Sorted l.mem l.mem_n
    → Upserted l (mem_upsert l key val tomb) (record { key = key; val = val; tomb = tomb })
unfolding mem_upsert
mem_upsert-Upserted l key val tomb s =
    upsert_at-Upserted l (record { key = key; val = val; tomb = tomb }) (mem_bsearch l key) s
      (mem_bsearch-Located l key s)
