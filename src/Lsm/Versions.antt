-- ===== src/Lsm/Versions.antt =====
-- src/lsm.c: the tree as a map. A put, a delete and a flush, seen through `lsm_get`.
use db_hobby.Base.{
  ℕ, ◌-◌, ◌<◌, ◌≤◌, ◌≡◌, ◌≢◌, inl, inr, refl, sym, ap, ◌∙◌, Bool, true, false, ◌||◌, Option, none,
  some, ltb, ◌==◌, Bool-cases, arith,
}
use db_hobby.Lsm.{Entry, SsTable, Lsm, mem_bsearch, sst_get, get_tables, decide, get_at, lsm_get}
use db_hobby.Lsm.Bsearch.{Sorted, Located, mem_bsearch-Located, Finds, sst_loop-Finds}

-- A table as it was written: its keys increase, and its bounds are those of its records.
pub record WrittenTable (s : SsTable) : Type 0 where
  pub sorted : Sorted s.records s.count
  pub least : 0 < s.count → s.min_key ≡ (s.records 0).key
  pub greatest : 0 < s.count → s.max_key ≡ (s.records (s.count - 1)).key

pub record Ordered (l : Lsm) : Type 0 where
  pub memtable : Sorted l.mem l.mem_n
  pub tables : (i : ℕ) → i < l.nsst → WrittenTable (l.ssts i)

same_key :
    (a : ℕ → Entry) (n key j i : ℕ)
    → Sorted a n
    → j < n
    → i < n
    → (a j).key ≡ key
    → (a i).key ≡ key
    → j ≡ i
same_key a n key j i s l m k h = elim (Bool-cases (ltb j i)) [
  | inl t ↦ let less = s j i (ground arith) m in absurd (omega arith)
  | inr t ↦ elim (Bool-cases (ltb i j)) [
    | inl u ↦ let less = s i j (ground arith) l in absurd (omega arith)
    | inr u ↦ ground arith
  ]
]

pub Finds-unique :
    (a : ℕ → Entry) (n key : ℕ) (r q : Option Entry)
    → Sorted a n
    → Finds a n key r
    → Finds a n key q
    → r ≡ q
Finds-unique a n key none none s f g = refl
Finds-unique a n key none (some e) s f (j, l, k, x) = absurd (f j l k)
Finds-unique a n key (some e) none s (j, l, k, x) g = absurd (g j l k)
Finds-unique a n key (some e) (some d) s (j, l, k, x) (i, m, h, y) =
    ap some (sym x ∙ (ap a (same_key a n key j i s l m k h) ∙ y))

-- Sorted keys do not decrease.
Sorted-le : (a : ℕ → Entry) (n i j : ℕ) → Sorted a n → i ≤ j → j < n → (a i).key ≤ (a j).key
Sorted-le a n i j s h l = elim (Bool-cases (ltb i j)) [
  | inl t ↦ let less = s i j (ground arith) l in omega arith
  | inr t ↦ let same : i ≡ j = ground arith in omega (arith, ap (λ (x : ℕ). (a x).key) same)
]

out_of_bounds :
    (s : SsTable) (key j : ℕ)
    → WrittenTable s
    → j < s.count
    → (s.records j).key ≡ key
    → (s.count == 0 || (ltb key s.min_key || ltb s.max_key key)) ≢ true
out_of_bounds s key j w l k t =
    let low = Sorted-le s.records s.count 0 j w.sorted (omega arith) l in
    let high = Sorted-le s.records s.count j (s.count - 1) w.sorted (omega arith) (omega arith) in
    let least = w.least (omega arith) in let greatest = w.greatest (omega arith) in ground arith

pub sst_get-Finds :
    (s : SsTable) (key : ℕ) → WrittenTable s → Finds s.records s.count key (sst_get s key)
unfolding sst_get
sst_get-Finds s key w =
    elim (Bool-cases (s.count == 0 || (ltb key s.min_key || ltb s.max_key key))) [
      | inl t ↦ rw t (λ j l k. out_of_bounds s key j w l k t)
      | inr t ↦ rw t (
          sst_loop-Finds s.records s.count key s.count 0 s.count w.sorted
            (omega arith, omega arith, λ j h. absurd (omega arith), λ j g h. absurd (omega arith))
            (omega arith))
    ]

-- What the memtable says of a key.
abbrev located_entry : (ℕ → Entry) → ℕ × Bool → Option Entry
located_entry a (p, true) = some (a p)
located_entry a (p, false) = none

unfoldable pub mem_find : Lsm → ℕ → Option Entry
mem_find l key = located_entry l.mem (mem_bsearch l key)

located_entry-Finds :
    (a : ℕ → Entry) (n key : ℕ) (r : ℕ × Bool)
    → Located a n key r
    → Finds a n key (located_entry a r)
located_entry-Finds a n key (p, true) h = (p, h.0, h.1, refl)
located_entry-Finds a n key (p, false) h = λ j l k. elim (Bool-cases (ltb j p)) [
  | inl t ↦ let less = h.1 j (ground arith) in omega arith
  | inr t ↦ let more = h.2 j (ground arith) l in omega arith
]

pub mem_find-Finds :
    (l : Lsm) (key : ℕ) → Sorted l.mem l.mem_n → Finds l.mem l.mem_n key (mem_find l key)
unfolding mem_find
mem_find-Finds l key s =
    located_entry-Finds l.mem l.mem_n key (mem_bsearch l key) (mem_bsearch-Located l key s)

get_at-decide :
    (l : Lsm) (key : ℕ) (r : ℕ × Bool)
    → get_at l key r ≡ decide (located_entry l.mem r) (get_tables l.ssts l.nsst key)
unfolding get_at
get_at-decide l key (p, true) = refl
get_at-decide l key (p, false) = refl

pub lsm_get-decide :
    (l : Lsm) (key : ℕ) → lsm_get l key ≡ decide (mem_find l key) (get_tables l.ssts l.nsst key)
unfolding lsm_get mem_find
lsm_get-decide l key = get_at-decide l key (mem_bsearch l key)
