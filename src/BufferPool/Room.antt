-- ===== src/BufferPool/Room.antt =====
-- src/bufpool.c: when a fetch cannot fail.
use db_hobby.Base.{
  ℕ, ◌+◌, ◌<◌, ◌≡◌, ◌⊎◌, inl, inr, refl, true, false, ◌||◌, not, Option, none, some, Bool-cases,
  ltb, arith,
}
use db_hobby.Pager.{pager_read}
use db_hobby.BufferPool.{
  BufferPool, holds, first_frame, find_frame, lru_victim, set_frame, evict, evict_lru, pick_frame,
  load, load_picked, fetch_locked, bufpool_fetch,
}
use db_hobby.BufferPool.Search.{FirstFound, first_frame-FirstFound, Oldest, lru_victim-Oldest}
use db_hobby.BufferPool.Views.{Coherent}
use db_hobby.BufferPool.Pick.{Picked, pick_frame-Picked}

-- A frame is found or loaded.
abbrev Returns : BufferPool × Option ℕ → Type 0
Returns (bp, none) = false ≡ true
Returns (bp, some i) = i ≡ i

-- Some frame is free or not pinned.
abbrev pub HasRoom : BufferPool → Type 0
HasRoom bp =
    (j : ℕ) × (j < bp.num_frames) × (((bp.frames j).valid ≡ false) ⊎ ((bp.frames j).pin_count ≡ 0))

evict-Returns : (bp : BufferPool) (i : ℕ) → bp.no_steal ≡ false → Returns (evict bp i)
unfolding evict
evict-Returns bp i e = elim (Bool-cases (bp.frames i).dirty) [
  | inl d ↦ rw d (rw e refl)
  | inr d ↦ rw d refl
]

evict_lru-Returns :
    (bp : BufferPool) (o : Option ℕ) (j : ℕ)
    → bp.no_steal ≡ false
    → j < bp.num_frames
    → (bp.frames j).pin_count ≡ 0
    → Oldest true bp.frames bp.num_frames o
    → Returns (evict_lru bp o)
unfolding evict_lru
evict_lru-Returns bp none j e l z o = let never = o j l in absurd (ground arith)
evict_lru-Returns bp (some i) j e l z o = evict-Returns bp i e

pick_first-Returns :
    (bp : BufferPool) (o : Option ℕ)
    → HasRoom bp
    → bp.no_steal ≡ false
    → FirstFound (λ f. not f.valid) bp.frames bp.num_frames o
    → Returns (elim o as (λ x. BufferPool × Option ℕ) [
      | some i ↦ (bp, some i)
      | none ↦ evict_lru bp (lru_victim (not bp.no_steal || bp.steal_fn) bp.frames bp.num_frames)
    ])
pick_first-Returns bp (some i) h e f = refl
pick_first-Returns bp none (j, l, inl v) e f = let never = f j l in absurd (ground arith)
pick_first-Returns bp none (j, l, inr z) e f =
    let steal : (not bp.no_steal || bp.steal_fn) ≡ true = ground (arith, e) in
    rw steal (
      evict_lru-Returns bp (lru_victim true bp.frames bp.num_frames) j e l z
        (lru_victim-Oldest true bp.frames bp.num_frames))

pick_frame-Returns : (bp : BufferPool) → HasRoom bp → bp.no_steal ≡ false → Returns (pick_frame bp)
unfolding pick_frame
pick_frame-Returns bp h e =
    pick_first-Returns bp (first_frame (λ f. not f.valid) bp.frames bp.num_frames) h e
      (first_frame-FirstFound (λ f. not f.valid) bp.frames bp.num_frames)

load-Returns :
    (bp : BufferPool) (q i : ℕ)
    → q < bp.store.data_file.file_pages
    → Returns (load bp q i (pager_read bp.store.data_file q))
unfolding load pager_read
load-Returns bp q i h =
    let inside : ltb q bp.store.data_file.file_pages ≡ true = ground arith in rw inside refl

load_picked-Returns :
    (bp : BufferPool) (q : ℕ) (r : BufferPool × Option ℕ)
    → Returns r
    → q < bp.store.data_file.file_pages
    → ((bp1 : BufferPool) (k : ℕ) → r ≡ (bp1, some k) → Picked bp bp1 k)
    → Returns (load_picked q r)
unfolding load_picked
load_picked-Returns bp q (bp1, none) h b k = absurd (cc h)
load_picked-Returns bp q (bp1, some i) h b k =
    load-Returns bp1 q i (let size = (k bp1 i refl).size in omega arith)

counted : (bp : BufferPool) → Coherent bp → Coherent (record bp { misses = bp.misses + 1 })
counted bp c = record { one_frame = c.one_frame; inside = c.inside; clean = c.clean }

fetch-cases :
    (bp : BufferPool) (q : ℕ) (o : Option ℕ) (hit : ℕ → BufferPool)
    → Coherent bp
    → HasRoom bp
    → bp.no_steal ≡ false
    → q < bp.store.data_file.file_pages
    → Returns (elim o as (λ x. BufferPool × Option ℕ) [
      | some j ↦ (hit j, some j)
      | none ↦ load_picked q (pick_frame (record bp { misses = bp.misses + 1 }))
    ])
fetch-cases bp q (some j) hit c h e b = refl
fetch-cases bp q none hit c h e b =
    let counting = record bp { misses = bp.misses + 1 } in
    load_picked-Returns counting q (pick_frame counting) (pick_frame-Returns counting h e) b
      (λ bp1 k g. pick_frame-Picked counting bp1 k (counted bp c) g)

Returns-some : (r : BufferPool × Option ℕ) → Returns r → (i : ℕ) × (r.1 ≡ some i)
Returns-some (bp, none) h = absurd (cc h)
Returns-some (bp, some i) h = (i, refl)

-- Outside of a transaction a fetch of a page of the file returns a frame, from any pool that has a
-- frame that is free or not pinned, and in which no page is in two frames, every page is in the file
-- and a clean frame is as the disk.
pub bufpool_fetch-some :
    (bp : BufferPool) (q : ℕ)
    → Coherent bp
    → HasRoom bp
    → bp.no_steal ≡ false
    → q < bp.store.data_file.file_pages
    → (i : ℕ) × ((bufpool_fetch bp q).1 ≡ some i)
unfolding bufpool_fetch fetch_locked find_frame
bufpool_fetch-some bp q c h e b = Returns-some (bufpool_fetch bp q) (
    fetch-cases bp q (first_frame (holds q) bp.frames bp.num_frames)
      (λ i.
        set_frame (record bp { hits = bp.hits + 1; clock = bp.clock + 1 }) i
          (record (bp.frames i) {
            pin_count = (bp.frames i).pin_count + 1;
            last_used = bp.clock + 1;
          }))
      c h e b)
