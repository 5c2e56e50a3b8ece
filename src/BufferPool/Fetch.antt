-- ===== src/BufferPool/Fetch.antt =====
-- src/bufpool.c: a fetch returns the page that the caller sees, and changes no other page.
use db_hobby.Base.{
  ℕ, ◌+◌, ◌<◌, ◌≤◌, ◌≡◌, inl, inr, refl, sym, ap, ◌∙◌, true, false, Option, none, some, Bool-cases,
  ltb, ◌==◌, arith,
}
use db_hobby.Pager.{pager_read}
use db_hobby.Wal.{Wal}
use db_hobby.BufferPool.{
  Frame, BufferPool, holds, first_frame, find_frame, set_frame, pick_frame, load, load_picked,
  fetch_locked, bufpool_fetch,
}
use db_hobby.BufferPool.Search.{FirstFound, first_frame-FirstFound}
use db_hobby.BufferPool.Views.{view, shown, Coherent, Held-cases, view-frame, view-disk}
use db_hobby.BufferPool.Evict.{read_inside}
use mathlib.Core.Path.{subst}
use db_hobby.BufferPool.Pick.{Picked, pick_frame-Picked}
use db_hobby.BufferPool.Load.{
  loaded, loaded-Coherent, loaded-view, loaded-holds, loaded-count, loaded-new, loaded-same,
}

-- What a caller may rely on after a fetch of page q that returns frame i: the frame holds the page,
-- pinned and with the image that was to be seen of it; every page is seen as before; and a frame that
-- was pinned still holds its page, with its image and its pins.
pub record Fetched (bp bp1 : BufferPool) (q i : ℕ) : Type 0 where
  pub bound : i < bp1.num_frames
  pub found : holds q (bp1.frames i) ≡ true
  pub pinned_now : 0 < (bp1.frames i).pin_count
  pub image : view bp q ≡ some (bp1.frames i).image
  pub coherent : Coherent bp1
  pub views : (p : ℕ) → view bp1 p ≡ view bp p
  pub pinned :
      (j : ℕ)
      → (bp.frames j).valid ≡ true
      → 0 < (bp.frames j).pin_count
      → ((bp1.frames j).valid ≡ true)
        × ((bp1.frames j).page_id ≡ (bp.frames j).page_id)
        × ((bp1.frames j).image ≡ (bp.frames j).image)
        × ((bp.frames j).pin_count ≤ (bp1.frames j).pin_count)

-- Two pools that differ in pins and stamps only.
record Alike (bp bp1 : BufferPool) : Type 0 where
  count : bp1.num_frames ≡ bp.num_frames
  store : bp1.store ≡ bp.store
  valid : (j : ℕ) → (bp1.frames j).valid ≡ (bp.frames j).valid
  page_id : (j : ℕ) → (bp1.frames j).page_id ≡ (bp.frames j).page_id
  dirty : (j : ℕ) → (bp1.frames j).dirty ≡ (bp.frames j).dirty
  image : (j : ℕ) → (bp1.frames j).image ≡ (bp.frames j).image

Alike-Coherent : (bp bp1 : BufferPool) → Alike bp bp1 → Coherent bp → Coherent bp1
Alike-Coherent bp bp1 a c =
    let n = a.count in
    record {
      one_frame = λ j k l m v w s.
          c.one_frame j k (omega arith) (omega arith) (sym (a.valid j) ∙ v) (sym (a.valid k) ∙ w)
            (sym (a.page_id j) ∙ (s ∙ a.page_id k));
      inside = λ j l v.
          let before = c.inside j (omega arith) (sym (a.valid j) ∙ v) in
          omega (arith, a.page_id j, ap (λ (w : Wal). w.data_file.file_pages) a.store);
      clean = λ j l v d.
          ap (λ (w : Wal). w.data_file.disk (bp1.frames j).page_id) a.store
          ∙ (ap bp.store.data_file.disk (a.page_id j)
              ∙ (c.clean j (omega arith) (sym (a.valid j) ∙ v) (sym (a.dirty j) ∙ d)
                  ∙ sym (a.image j)));
    }

Alike-holds :
    (bp bp1 : BufferPool) (q j : ℕ) → Alike bp bp1 → holds q (bp1.frames j) ≡ holds q (bp.frames j)
Alike-holds bp bp1 q j a = cc (a.valid j, a.page_id j)

Alike-view : (bp bp1 : BufferPool) → Alike bp bp1 → Coherent bp → (q : ℕ) → view bp1 q ≡ view bp q
Alike-view bp bp1 a c q =
    let c1 = Alike-Coherent bp bp1 a c in
    let n = a.count in
    elim (Held-cases bp q) [
      | inl (j, l, h) ↦
          view-frame bp1 j q c1 (omega arith) (Alike-holds bp bp1 q j a ∙ h)
          ∙ (ap some (a.image j) ∙ sym (view-frame bp j q c l h))
      | inr none_held ↦
          view-disk bp1 q (λ j l. Alike-holds bp bp1 q j a ∙ none_held j (omega arith))
          ∙ (ap (λ (w : Wal). pager_read w.data_file q) a.store ∙ sym (view-disk bp q none_held))
    ]

abbrev hit : BufferPool → ℕ → BufferPool
hit bp i =
    set_frame (record bp { hits = bp.hits + 1; clock = bp.clock + 1 }) i
      (record (bp.frames i) { pin_count = (bp.frames i).pin_count + 1; last_used = bp.clock + 1 })

hit-Alike : (bp : BufferPool) (i : ℕ) → Alike bp (hit bp i)
unfolding set_frame
hit-Alike bp i = record {
  count = refl;
  store = refl;
  valid = λ j. ground arith;
  page_id = λ j. ground arith;
  dirty = λ j. ground arith;
  image = λ j. ground arith;
}

hit-Fetched :
    (bp : BufferPool) (q i : ℕ)
    → Coherent bp
    → i < bp.num_frames
    → holds q (bp.frames i) ≡ true
    → Fetched bp (hit bp i) q i
unfolding set_frame
hit-Fetched bp q i c b h =
    let a = hit-Alike bp i in
    record {
      bound = b;
      found = Alike-holds bp (hit bp i) q i a ∙ h;
      pinned_now = ground arith;
      image = view-frame bp i q c b h ∙ ap some (sym (a.image i));
      coherent = Alike-Coherent bp (hit bp i) a c;
      views = Alike-view bp (hit bp i) a c;
      pinned = λ j v p. (a.valid j ∙ v, a.page_id j, a.image j, ground arith);
    }

busy_frame :
    (bp : BufferPool) (i j : ℕ)
    → (bp.frames i).valid ≡ false
    → (bp.frames j).valid ≡ true
    → (j == i) ≡ false
busy_frame bp i j f v = elim (Bool-cases (j == i)) [
  | inl t ↦
      let same : j ≡ i = ground arith in
      absurd (cc (sym f ∙ (sym (ap (λ (k : ℕ). (bp.frames k).valid) same) ∙ v)))
  | inr t ↦ t
]

loaded-Fetched :
    (bp bp1 : BufferPool) (q i : ℕ)
    → Picked bp bp1 i
    → ((m : ℕ) → m < bp.num_frames → holds q (bp.frames m) ≡ false)
    → q < bp1.store.data_file.file_pages
    → Fetched bp (loaded bp1 q i (bp1.store.data_file.disk q)) q i
loaded-Fetched bp bp1 q i k free b =
    let image = bp1.store.data_file.disk q in
    let gone = k.absent q free in
    record {
      bound = omega (arith, k.bound, loaded-count bp1 q i image);
      found = loaded-holds bp1 q i image;
      pinned_now = omega (arith, ap (λ (f : Frame). f.pin_count) (loaded-new bp1 q i image));
      image =
          sym (k.views q)
          ∙ (view-disk bp1 q gone
              ∙ (read_inside bp1.store.data_file q b
                  ∙ ap (λ (f : Frame). some f.image) (sym (loaded-new bp1 q i image))));
      coherent = loaded-Coherent bp1 q i k.coherent gone b;
      views = λ p. loaded-view bp1 q i k.coherent gone b k.bound k.free p ∙ k.views p;
      pinned = λ j v p.
          let kept = k.pinned j v p in
          let apart = busy_frame bp1 i j k.free (ap (λ (f : Frame). f.valid) kept ∙ v) in
          let same = loaded-same bp1 q i j image apart ∙ kept in
          (
            ap (λ (f : Frame). f.valid) same ∙ v,
            ap (λ (f : Frame). f.page_id) same,
            ap (λ (f : Frame). f.image) same,
            omega (arith, ap (λ (f : Frame). f.pin_count) same),
          );
    }

load_picked-Fetched :
    (bp bp2 : BufferPool) (q i : ℕ) (r : BufferPool × Option ℕ)
    → ((bp1 : BufferPool) (k : ℕ) → r ≡ (bp1, some k) → Picked bp bp1 k)
    → ((m : ℕ) → m < bp.num_frames → holds q (bp.frames m) ≡ false)
    → load_picked q r ≡ (bp2, some i)
    → Fetched bp bp2 q i
unfolding load_picked load pager_read
load_picked-Fetched bp bp2 q i (bp1, none) k free h = absurd (cc h)
load_picked-Fetched bp bp2 q i (bp1, some m) k free h =
    elim (Bool-cases (ltb q bp1.store.data_file.file_pages)) [
      | inr e ↦ absurd (ground (arith, h))
      | inl e ↦
          let g : ◌≡◌ {A = BufferPool × Option ℕ}
              (loaded bp1 q m (bp1.store.data_file.disk q), some m) (bp2, some i) =
            ground (arith, h) in
          let same : m ≡ i = cc g in
          subst (λ (x : ℕ). Fetched bp bp2 q x) same
            (subst (λ x. Fetched bp x q m) (ap (λ (x : BufferPool × Option ℕ). x.0) g)
              (loaded-Fetched bp bp1 q m (k bp1 m refl) free (ground arith)))
    ]

-- The counter of misses is no part of what is seen.
counted : (bp : BufferPool) → Coherent bp → Coherent (record bp { misses = bp.misses + 1 })
counted bp c = record { one_frame = c.one_frame; inside = c.inside; clean = c.clean }

missed :
    (bp bp1 : BufferPool) (q i : ℕ)
    → Fetched (record bp { misses = bp.misses + 1 }) bp1 q i
    → Fetched bp bp1 q i
unfolding view find_frame shown
missed bp bp1 q i f = record {
  bound = f.bound;
  found = f.found;
  pinned_now = f.pinned_now;
  image = f.image;
  coherent = f.coherent;
  views = f.views;
  pinned = f.pinned;
}

fetch_cases :
    (bp bp1 : BufferPool) (q i : ℕ) (o : Option ℕ)
    → Coherent bp
    → FirstFound (holds q) bp.frames bp.num_frames o
    → elim o [
      | some j ↦ (hit bp j, some j)
      | none ↦ load_picked q (pick_frame (record bp { misses = bp.misses + 1 }))
    ]
      ≡ (bp1, some i)
    → Fetched bp bp1 q i
fetch_cases bp bp1 q i (some j) c f h =
    let same : j ≡ i = cc h in
    subst (λ (x : ℕ). Fetched bp bp1 q x) same
      (subst (λ x. Fetched bp x q j) (ap (λ (x : BufferPool × Option ℕ). x.0) h)
        (hit-Fetched bp q j c (f.0) (f.1)))
fetch_cases bp bp1 q i none c f h = missed bp bp1 q i (
    load_picked-Fetched (record bp { misses = bp.misses + 1 }) bp1 q i
      (pick_frame (record bp { misses = bp.misses + 1 }))
      (λ bp2 k e. pick_frame-Picked (record bp { misses = bp.misses + 1 }) bp2 k (counted bp c) e) f
      h)

-- A fetch that returns a frame, from a pool in which no page is in two frames, every page is in the
-- file and a clean frame is as the disk, returns page q as it was to be seen, in a frame that is now
-- pinned; it leaves such a pool, and every page is seen as before. What was pinned stays in its frame.
pub bufpool_fetch-Fetched :
    (bp bp1 : BufferPool) (q i : ℕ)
    → Coherent bp
    → bufpool_fetch bp q ≡ (bp1, some i)
    → Fetched bp bp1 q i
unfolding bufpool_fetch fetch_locked find_frame
bufpool_fetch-Fetched bp bp1 q i c h =
    fetch_cases bp bp1 q i (first_frame (holds q) bp.frames bp.num_frames) c
      (first_frame-FirstFound (holds q) bp.frames bp.num_frames) h
