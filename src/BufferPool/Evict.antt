-- ===== src/BufferPool/Evict.antt =====
-- src/bufpool.c: an eviction changes what no caller sees.
use db_hobby.Base.{
  ℕ, ◌<◌, ◌≡◌, inl, inr, refl, sym, ap, ◌∙◌, true, false, ◌&&◌, Option, some, Rc, ok, fail,
  Bool-cases, if◌then◌else◌, ◌==◌, arith,
}
use db_hobby.Pager.{Pager, pager_read, pager_write}
use db_hobby.Wal.{Wal, wal_steal}
use db_hobby.BufferPool.{
  Frame, BufferPool, holds, set_frame, drop_victim, steal_victim, write_back, evict,
}
use db_hobby.BufferPool.Views.{
  view, Coherent, Held-cases, view-frame, view-disk, wal_steal-data_file,
}
use mathlib.Core.Path.{subst}

-- The pool after the eviction of frame i.
pub record Evicted (bp bp1 : BufferPool) (i : ℕ) : Type 0 where
  pub count : bp1.num_frames ≡ bp.num_frames
  pub gone : (bp1.frames i).valid ≡ false
  pub others : (j : ℕ) → (j == i) ≡ false → bp1.frames j ≡ bp.frames j
  pub size : bp1.store.data_file.file_pages ≡ bp.store.data_file.file_pages
  pub disk :
      (p : ℕ)
      → bp1.store.data_file.disk p ≡ (
          if (bp.frames i).dirty && (p == (bp.frames i).page_id)
          then (bp.frames i).image
          else bp.store.data_file.disk p)

Evicted-clean :
    (bp : BufferPool) (i : ℕ) → (bp.frames i).dirty ≡ false → Evicted bp (drop_victim bp i) i
unfolding drop_victim set_frame
Evicted-clean bp i e = record {
  count = refl;
  gone = ground arith;
  others = λ j h. ground arith;
  size = refl;
  disk = λ p. ground arith;
}

Evicted-written :
    (bp : BufferPool) (i : ℕ) (w : Wal)
    → (bp.frames i).dirty ≡ true
    → (bp.frames i).page_id < bp.store.data_file.file_pages
    → w.data_file ≡ pager_write bp.store.data_file (bp.frames i).page_id (bp.frames i).image
    → Evicted bp (drop_victim (record bp { store = w }) i) i
unfolding drop_victim set_frame pager_write
Evicted-written bp i w e b h = record {
  count = refl;
  gone = ground arith;
  others = λ j h. ground arith;
  size = ap (λ (d : Pager). d.file_pages) h ∙ omega arith;
  disk = λ p. ap (λ (d : Pager). d.disk p) h ∙ ground arith;
}

steal_victim-Evicted :
    (bp bp1 : BufferPool) (i k : ℕ) (r : Wal × Rc)
    → (bp.frames i).dirty ≡ true
    → (bp.frames i).page_id < bp.store.data_file.file_pages
    → r ≡ wal_steal bp.store (bp.frames i).page_id (bp.frames i).image
    → steal_victim bp i r ≡ (bp1, some k)
    → Evicted bp bp1 i × (k ≡ i)
unfolding steal_victim
steal_victim-Evicted bp bp1 i k (w, ok) e b g h =
    let pool : drop_victim (record bp { store = w }) i ≡ bp1 =
      ap (λ (r : BufferPool × Option ℕ). r.0) h in
    (
      subst (λ x. Evicted bp x i) pool
          (Evicted-written bp i w e b
            (wal_steal-data_file bp.store w (bp.frames i).page_id (bp.frames i).image (sym g))),
      cc h,
    )
steal_victim-Evicted bp bp1 i k (w, fail) e b g h = absurd (cc h)

-- An eviction that succeeds, of a clean frame, of a dirty one that is written back, or of one that is
-- stolen.
pub evict-Evicted :
    (bp bp1 : BufferPool) (i k : ℕ)
    → (bp.frames i).page_id < bp.store.data_file.file_pages
    → evict bp i ≡ (bp1, some k)
    → Evicted bp bp1 i × (k ≡ i)
unfolding evict
evict-Evicted bp bp1 i k b h = elim (Bool-cases (bp.frames i).dirty) [
  | inr e ↦
      let g : ◌≡◌ {A = BufferPool × Option ℕ} (drop_victim bp i, some i) (bp1, some k) =
        ground (arith, h) in
      (
        subst (λ x. Evicted bp x i) (ap (λ (r : BufferPool × Option ℕ). r.0) g)
            (Evicted-clean bp i e),
        cc g,
      )
  | inl e ↦ elim (Bool-cases (bp.no_steal && bp.steal_fn)) [
    | inl s ↦
        steal_victim-Evicted bp bp1 i k
          (wal_steal bp.store (bp.frames i).page_id (bp.frames i).image) e b refl
          (ground (arith, h))
    | inr s ↦
        let w = write_back bp.store (bp.frames i) in
        let g : ◌≡◌ {A = BufferPool × Option ℕ} (drop_victim (record bp { store = w }) i, some i)
            (bp1, some k) =
          ground (arith, h) in
        (
          subst (λ x. Evicted bp x i) (ap (λ (r : BufferPool × Option ℕ). r.0) g)
              (Evicted-written bp i w e b refl),
          cc g,
        )
  ]
]

-- A frame after the eviction that is in use is another one, and was the same before.
other_frame :
    (bp bp1 : BufferPool) (i j : ℕ)
    → Evicted bp bp1 i
    → (bp1.frames j).valid ≡ true
    → ((j == i) ≡ false) × (bp1.frames j ≡ bp.frames j)
other_frame bp bp1 i j e v = elim (Bool-cases (j == i)) [
  | inl t ↦
      let same : j ≡ i = ground arith in
      absurd (cc (sym (e.gone) ∙ (ap (λ (k : ℕ). (bp1.frames k).valid) (sym same) ∙ v)))
  | inr t ↦ (t, e.others j t)
]

-- No other frame holds the page of the frame that goes.
alone :
    (bp : BufferPool) (i j : ℕ)
    → Coherent bp
    → i < bp.num_frames
    → j < bp.num_frames
    → (bp.frames i).valid ≡ true
    → (bp.frames j).valid ≡ true
    → (j == i) ≡ false
    → ((bp.frames j).page_id == (bp.frames i).page_id) ≡ false
alone bp i j c b d v w n = elim (Bool-cases ((bp.frames j).page_id == (bp.frames i).page_id)) [
  | inl t ↦ let same = c.one_frame j i d b w v (ground arith) in absurd (ground arith)
  | inr t ↦ t
]

kept_disk :
    (bp bp1 : BufferPool) (i p : ℕ)
    → Evicted bp bp1 i
    → (p == (bp.frames i).page_id) ≡ false
    → bp1.store.data_file.disk p ≡ bp.store.data_file.disk p
kept_disk bp bp1 i p e n = e.disk p ∙ ground arith

pub Evicted-Coherent :
    (bp bp1 : BufferPool) (i : ℕ)
    → Coherent bp
    → i < bp.num_frames
    → (bp.frames i).valid ≡ true
    → Evicted bp bp1 i
    → Coherent bp1
Evicted-Coherent bp bp1 i c b v e =
    let same_count = e.count in
    let old : (j : ℕ)
        → (bp1.frames j).valid ≡ true
        → ((j == i) ≡ false) × (bp1.frames j ≡ bp.frames j) =
      λ j w. other_frame bp bp1 i j e w in
    let was : (j : ℕ) → (bp1.frames j).valid ≡ true → (bp.frames j).valid ≡ true =
      λ j w. sym (ap (λ (f : Frame). f.valid) ((old j w).1)) ∙ w in
    record {
      one_frame = λ j k l m w x s. c.one_frame j k (omega arith) (omega arith) (was j w) (was k x) (
          sym (ap (λ (f : Frame). f.page_id) ((old j w).1))
          ∙ (s ∙ ap (λ (f : Frame). f.page_id) ((old k x).1)));
      inside = λ j l w.
          let before = c.inside j (omega arith) (was j w) in
          omega (arith, e.size, ap (λ (f : Frame). f.page_id) ((old j w).1));
      clean = λ j l w d.
          let same = (old j w).1 in
          ap (λ (f : Frame). bp1.store.data_file.disk f.page_id) same
          ∙ (kept_disk bp bp1 i (bp.frames j).page_id e
                (alone bp i j c b (omega arith) v (was j w) ((old j w).0))
              ∙ (c.clean j (omega arith) (was j w) (sym (ap (λ (f : Frame). f.dirty) same) ∙ d)
                  ∙ ap (λ (f : Frame). f.image) (sym same)));
    }

pub read_inside : (d : Pager) (p : ℕ) → p < d.file_pages → pager_read d p ≡ some (d.disk p)
unfolding pager_read
read_inside d p h = ground arith

read_same :
    (d e : Pager) (p : ℕ)
    → d.file_pages ≡ e.file_pages
    → d.disk p ≡ e.disk p
    → pager_read d p ≡ pager_read e p
unfolding pager_read
read_same d e p h g = ground arith

-- The disk has the image of the frame that went.
Evicted-disk :
    (bp bp1 : BufferPool) (i : ℕ)
    → Coherent bp
    → i < bp.num_frames
    → (bp.frames i).valid ≡ true
    → Evicted bp bp1 i
    → bp1.store.data_file.disk (bp.frames i).page_id ≡ (bp.frames i).image
Evicted-disk bp bp1 i c b v e = elim (Bool-cases (bp.frames i).dirty) [
  | inl d ↦ e.disk (bp.frames i).page_id ∙ ground arith
  | inr d ↦ e.disk (bp.frames i).page_id ∙ (ground arith ∙ c.clean i b v d)
]

pub none_hold :
    (bp bp1 : BufferPool) (i q : ℕ)
    → Evicted bp bp1 i
    → ((j : ℕ) → j < bp.num_frames → (j == i) ≡ false → holds q (bp.frames j) ≡ false)
    → (j : ℕ) → j < bp1.num_frames
    → holds q (bp1.frames j) ≡ false
none_hold bp bp1 i q e h j l = elim (Bool-cases (j == i)) [
  | inl t ↦
      let same : j ≡ i = ground arith in
      ap (λ (k : ℕ). holds q (bp1.frames k)) same ∙ ground (arith, e.gone)
  | inr t ↦ ap (holds q) (e.others j t) ∙ h j (omega (arith, e.count)) t
]

unheld :
    (bp : BufferPool) (i j : ℕ)
    → Coherent bp
    → i < bp.num_frames
    → j < bp.num_frames
    → (bp.frames i).valid ≡ true
    → (j == i) ≡ false
    → holds (bp.frames i).page_id (bp.frames j) ≡ false
unheld bp i j c b d v n = elim (Bool-cases (bp.frames j).valid) [
  | inl w ↦ let a = alone bp i j c b d v w n in ground arith
  | inr w ↦ ground arith
]

-- A caller sees in every page what it saw before the eviction.
pub Evicted-view :
    (bp bp1 : BufferPool) (i : ℕ)
    → Coherent bp
    → i < bp.num_frames
    → (bp.frames i).valid ≡ true
    → Evicted bp bp1 i
    → (q : ℕ) → view bp1 q ≡ view bp q
Evicted-view bp bp1 i c b v e q =
    let c1 = Evicted-Coherent bp bp1 i c b v e in
    elim (Held-cases bp q) [
      | inl (j, l, h) ↦ elim (Bool-cases (j == i)) [
        | inl t ↦
            let same : j ≡ i = ground arith in
            let mine : (bp.frames i).page_id ≡ q =
              ap (λ (k : ℕ). (bp.frames k).page_id) (sym same) ∙ ground (arith, h) in
            view-disk bp1 q
              (none_hold bp bp1 i q e (λ k m n. rw (sym mine) (unheld bp i k c b m v n)))
            ∙ (rw (sym mine) (
                  read_inside bp1.store.data_file (bp.frames i).page_id
                    (omega (arith, e.size, c.inside i b v)))
                ∙ (ap some (ap bp1.store.data_file.disk (sym mine) ∙ Evicted-disk bp bp1 i c b v e)
                    ∙ (ap (λ (k : ℕ). some (bp.frames k).image) (sym same)
                        ∙ sym (view-frame bp j q c l h))))
        | inr t ↦
            view-frame bp1 j q c1 (omega (arith, e.count)) (ap (holds q) (e.others j t) ∙ h)
            ∙ (ap (λ (f : Frame). some f.image) (e.others j t) ∙ sym (view-frame bp j q c l h))
      ]
      | inr none_held ↦
          view-disk bp1 q (none_hold bp bp1 i q e (λ k m n. none_held k m))
          ∙ (read_same bp1.store.data_file bp.store.data_file q e.size
                (kept_disk bp bp1 i q e (let mine = none_held i b in ground arith))
              ∙ sym (view-disk bp q none_held))
    ]
