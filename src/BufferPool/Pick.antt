-- ===== src/BufferPool/Pick.antt =====
-- src/bufpool.c: a frame is picked for a page.
use db_hobby.Base.{
  ℕ, ◌<◌, ◌≡◌, inl, inr, refl, sym, ap, ◌∙◌, Bool, true, false, ◌||◌, not, Option, none, some,
  Bool-cases, ◌==◌, arith,
}
use db_hobby.BufferPool.{
  Frame, BufferPool, holds, first_frame, lru_victim, can_evict, evict_lru, pick_frame,
}
use db_hobby.BufferPool.Search.{FirstFound, first_frame-FirstFound, Oldest, lru_victim-Oldest}
use db_hobby.BufferPool.Views.{view, Coherent}
use db_hobby.BufferPool.Evict.{Evicted, evict-Evicted, Evicted-Coherent, Evicted-view, none_hold}
use mathlib.Core.Path.{subst}

-- A frame to load a page into: it is free, and callers see the pages as before. Pinned frames stay.
pub record Picked (bp bp1 : BufferPool) (i : ℕ) : Type 0 where
  pub count : bp1.num_frames ≡ bp.num_frames
  pub bound : i < bp1.num_frames
  pub free : (bp1.frames i).valid ≡ false
  pub coherent : Coherent bp1
  pub size : bp1.store.data_file.file_pages ≡ bp.store.data_file.file_pages
  pub views : (q : ℕ) → view bp1 q ≡ view bp q
  pub absent :
      (q : ℕ)
      → ((j : ℕ) → j < bp.num_frames → holds q (bp.frames j) ≡ false)
      → (j : ℕ) → j < bp1.num_frames
      → holds q (bp1.frames j) ≡ false
  pub pinned :
      (j : ℕ)
      → (bp.frames j).valid ≡ true
      → 0 < (bp.frames j).pin_count
      → bp1.frames j ≡ bp.frames j

Picked-free :
    (bp : BufferPool) (i : ℕ)
    → Coherent bp
    → i < bp.num_frames
    → (bp.frames i).valid ≡ false
    → Picked bp bp i
Picked-free bp i c b v = record {
  count = refl;
  bound = b;
  free = v;
  coherent = c;
  size = refl;
  views = λ q. refl;
  absent = λ q h. h;
  pinned = λ j w p. refl;
}

unpinned :
    (bp : BufferPool) (i j : ℕ)
    → (bp.frames i).pin_count ≡ 0
    → 0 < (bp.frames j).pin_count
    → (j == i) ≡ false
unpinned bp i j z p = elim (Bool-cases (j == i)) [
  | inl t ↦
      let same : j ≡ i = ground arith in
      absurd (omega (arith, ap (λ (k : ℕ). (bp.frames k).pin_count) same))
  | inr t ↦ t
]

evictable : (steal : Bool) (f : Frame) → can_evict steal f ≡ true → f.pin_count ≡ 0
evictable steal f h = ground arith

Picked-Evicted :
    (bp bp1 : BufferPool) (i : ℕ)
    → Coherent bp
    → i < bp.num_frames
    → (bp.frames i).valid ≡ true
    → (bp.frames i).pin_count ≡ 0
    → Evicted bp bp1 i
    → Picked bp bp1 i
Picked-Evicted bp bp1 i c b v z e = record {
  count = e.count;
  bound = omega (arith, e.count);
  free = e.gone;
  coherent = Evicted-Coherent bp bp1 i c b v e;
  size = e.size;
  views = Evicted-view bp bp1 i c b v e;
  absent = λ q h. none_hold bp bp1 i q e (λ j l n. h j l);
  pinned = λ j w p. e.others j (unpinned bp i j z p);
}

Picked-lru :
    (bp bp1 : BufferPool) (k : ℕ) (steal : Bool) (o : Option ℕ)
    → Coherent bp
    → ((j : ℕ) → j < bp.num_frames → (bp.frames j).valid ≡ true)
    → Oldest steal bp.frames bp.num_frames o
    → evict_lru bp o ≡ (bp1, some k)
    → Picked bp bp1 k
unfolding evict_lru
Picked-lru bp bp1 k steal none c full o h = absurd (cc h)
Picked-lru bp bp1 k steal (some i) c full o h =
    let v = full i (o.0) in
    let e = evict-Evicted bp bp1 i k (c.inside i (o.0) v) h in
    rw (e.1) (Picked-Evicted bp bp1 i c (o.0) v (evictable steal (bp.frames i) (o.1)) (e.0))

Picked-first :
    (bp bp1 : BufferPool) (k : ℕ) (o : Option ℕ)
    → Coherent bp
    → FirstFound (λ f. not f.valid) bp.frames bp.num_frames o
    → elim o [
      | some i ↦ (bp, some i)
      | none ↦ evict_lru bp (lru_victim (not bp.no_steal || bp.steal_fn) bp.frames bp.num_frames)
    ]
      ≡ (bp1, some k)
    → Picked bp bp1 k
Picked-first bp bp1 k (some i) c f h =
    let same : i ≡ k = cc h in
    subst (λ x. Picked bp x k) (ap (λ (r : BufferPool × Option ℕ). r.0) h)
      (Picked-free bp k c (omega (arith, f.0))
        (ap (λ (j : ℕ). (bp.frames j).valid) (sym same) ∙ ground (arith, f.1)))
Picked-first bp bp1 k none c f h =
    Picked-lru bp bp1 k (not bp.no_steal || bp.steal_fn)
      (lru_victim (not bp.no_steal || bp.steal_fn) bp.frames bp.num_frames) c
      (λ j l. let g = f j l in ground arith)
      (lru_victim-Oldest (not bp.no_steal || bp.steal_fn) bp.frames bp.num_frames) h

pub pick_frame-Picked :
    (bp bp1 : BufferPool) (k : ℕ) → Coherent bp → pick_frame bp ≡ (bp1, some k) → Picked bp bp1 k
unfolding pick_frame
pick_frame-Picked bp bp1 k c h =
    Picked-first bp bp1 k (first_frame (λ f. not f.valid) bp.frames bp.num_frames) c
      (first_frame-FirstFound (λ f. not f.valid) bp.frames bp.num_frames) h
