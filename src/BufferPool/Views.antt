-- ===== src/BufferPool/Views.antt =====
-- src/bufpool.c, src/wal.c: what a caller sees of a page, in the pool or in the data file.
use db_hobby.Base.{
  ℕ, ◌<◌, ◌≡◌, ◌⊎◌, inl, inr, refl, sym, ap, ◌∙◌, true, false, Option, none, some, Rc, ok,
  Bool-cases, ltb, arith,
}
use db_hobby.Pager.{Image, pager_read, pager_write}
use db_hobby.Wal.{
  Wal, wal_steal, steal_begin, steal_undo, steal_write, and_then, spilled_contains, spilled_add,
}
use db_hobby.Wal.Steal.{
  then-ok, steal_begin-ok, steal_begin-again, steal_undo-saves, steal_undo-new, steal_undo-known,
}
use db_hobby.BufferPool.{Frame, BufferPool, holds, first_frame, find_frame}
use db_hobby.BufferPool.Search.{FirstFound, first_frame-FirstFound}

-- The image in the frame that holds the page, or else that on the disk.
unfoldable pub shown : BufferPool → ℕ → Option ℕ → Option Image
shown bp q none = pager_read bp.store.data_file q
shown bp q (some i) = some (bp.frames i).image

unfoldable pub view : BufferPool → ℕ → Option Image
view bp q = shown bp q (find_frame bp q)

-- No page is in two frames, every page of a frame is in the file, and a clean frame is as the disk.
pub record Coherent (bp : BufferPool) : Type 0 where
  pub one_frame :
      (i j : ℕ)
      → i < bp.num_frames
      → j < bp.num_frames
      → (bp.frames i).valid ≡ true
      → (bp.frames j).valid ≡ true
      → (bp.frames i).page_id ≡ (bp.frames j).page_id
      → i ≡ j
  pub inside :
      (i : ℕ)
      → i < bp.num_frames
      → (bp.frames i).valid ≡ true
      → (bp.frames i).page_id < bp.store.data_file.file_pages
  pub clean :
      (i : ℕ)
      → i < bp.num_frames
      → (bp.frames i).valid ≡ true
      → (bp.frames i).dirty ≡ false
      → bp.store.data_file.disk (bp.frames i).page_id ≡ (bp.frames i).image

holds-valid : (q : ℕ) (f : Frame) → holds q f ≡ true → (f.valid ≡ true) × (f.page_id ≡ q)
holds-valid q f h = (ground arith, ground arith)

valid-holds : (q : ℕ) (f : Frame) → f.valid ≡ true → f.page_id ≡ q → holds q f ≡ true
valid-holds q f v e = ground arith

view-frame_at :
    (bp : BufferPool) (i q : ℕ)
    → Coherent bp
    → i < bp.num_frames
    → holds q (bp.frames i) ≡ true
    → (o : Option ℕ) → FirstFound (holds q) bp.frames bp.num_frames o
    → shown bp q o ≡ some (bp.frames i).image
unfolding shown
view-frame_at bp i q c b h none f = absurd (cc (sym h ∙ f i b))
view-frame_at bp i q c b h (some j) f =
    let a = holds-valid q (bp.frames j) (f.1) in
    let d = holds-valid q (bp.frames i) h in
    ap (λ (k : ℕ). some (bp.frames k).image) (c.one_frame j i (f.0) b (a.0) (d.0) (a.1 ∙ sym (d.1)))

view-disk_at :
    (bp : BufferPool) (q : ℕ)
    → ((j : ℕ) → j < bp.num_frames → holds q (bp.frames j) ≡ false)
    → (o : Option ℕ) → FirstFound (holds q) bp.frames bp.num_frames o
    → shown bp q o ≡ pager_read bp.store.data_file q
unfolding shown
view-disk_at bp q h none f = refl
view-disk_at bp q h (some j) f = absurd (cc (sym (h j (f.0)) ∙ f.1))

pub view-frame :
    (bp : BufferPool) (i q : ℕ)
    → Coherent bp
    → i < bp.num_frames
    → holds q (bp.frames i) ≡ true
    → view bp q ≡ some (bp.frames i).image
unfolding view find_frame shown
view-frame bp i q c b h =
    view-frame_at bp i q c b h (first_frame (holds q) bp.frames bp.num_frames)
      (first_frame-FirstFound (holds q) bp.frames bp.num_frames)

pub view-disk :
    (bp : BufferPool) (q : ℕ)
    → ((j : ℕ) → j < bp.num_frames → holds q (bp.frames j) ≡ false)
    → view bp q ≡ pager_read bp.store.data_file q
unfolding view find_frame shown
view-disk bp q h =
    view-disk_at bp q h (first_frame (holds q) bp.frames bp.num_frames)
      (first_frame-FirstFound (holds q) bp.frames bp.num_frames)

-- What a pool holds of a page: a frame, or none.
abbrev pub Held : BufferPool → ℕ → Type 0
Held bp q =
    ((i : ℕ) × (i < bp.num_frames) × (holds q (bp.frames i) ≡ true))
    ⊎ ((j : ℕ) → j < bp.num_frames → holds q (bp.frames j) ≡ false)

Held-of :
    (bp : BufferPool) (q : ℕ) (o : Option ℕ)
    → FirstFound (holds q) bp.frames bp.num_frames o
    → Held bp q
Held-of bp q none f = inr f
Held-of bp q (some i) f = inl (i, f.0, f.1)

pub Held-cases : (bp : BufferPool) (q : ℕ) → Held bp q
Held-cases bp q =
    Held-of bp q (first_frame (holds q) bp.frames bp.num_frames)
      (first_frame-FirstFound (holds q) bp.frames bp.num_frames)

-- A steal that returns 0 writes the page, whatever it logs.
steal_begin-data_file : (w w1 : Wal) → steal_begin w ≡ (w1, ok) → w1.data_file ≡ w.data_file
steal_begin-data_file w w1 h = elim (Bool-cases w.stole) [
  | inl e ↦ ap (λ (r : Wal × Rc). r.0.data_file) (sym h ∙ steal_begin-again w e)
  | inr e ↦ ap (λ (v : Wal). v.data_file) (steal_begin-ok w w1 e h)
]

steal_undo-data_file : (w w1 : Wal) (q : ℕ) → steal_undo w q ≡ (w1, ok) → w1.data_file ≡ w.data_file
unfolding spilled_add
steal_undo-data_file w w1 q h = elim (Bool-cases (spilled_contains w q)) [
  | inl c ↦ ap (λ (v : Wal). v.data_file) (steal_undo-known w w1 q c h)
  | inr c ↦ elim (Bool-cases (ltb q w.base_pages)) [
    | inl b ↦ ap (λ (v : Wal). v.data_file) (steal_undo-saves w w1 q c b h)
    | inr b ↦ ap (λ (v : Wal). v.data_file) (steal_undo-new w w1 q c b h)
  ]
]

pub wal_steal-data_file :
    (w w1 : Wal) (q : ℕ) (buf : Image)
    → wal_steal w q buf ≡ (w1, ok)
    → w1.data_file ≡ pager_write w.data_file q buf
unfolding wal_steal steal_write
wal_steal-data_file w w1 q buf h =
    let a =
      then-ok (steal_begin w) (λ v. and_then (steal_undo v q) (λ x. steal_write x q buf)) w1 h in
    let b = then-ok (steal_undo (a.0) q) (λ x. steal_write x q buf) w1 (a.2) in
    sym (ap (λ (r : Wal × Rc). r.0.data_file) (b.2))
    ∙ ap (λ d. pager_write d q buf)
        (steal_undo-data_file (a.0) (b.0) q (b.1) ∙ steal_begin-data_file w (a.0) (a.1))
