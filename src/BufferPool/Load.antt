-- ===== src/BufferPool/Load.antt =====
-- src/bufpool.c: a page is loaded into a free frame.
use db_hobby.Base.{
  ℕ, ◌+◌, ◌<◌, ◌≡◌, ◌⊎◌, inl, inr, refl, sym, ap, ◌∙◌, true, false, some, Bool-cases, ◌==◌, arith,
}
use db_hobby.Pager.{Image, pager_read}
use db_hobby.Wal.{Wal}
use db_hobby.BufferPool.{Frame, BufferPool, holds, set_frame}
use db_hobby.BufferPool.Views.{view, Coherent, Held-cases, view-frame, view-disk}
use db_hobby.BufferPool.Evict.{read_inside}
use mathlib.Core.Path.{subst}

abbrev pub loaded : BufferPool → ℕ → ℕ → Image → BufferPool
loaded bp q i image =
    set_frame (record bp { clock = bp.clock + 1 }) i
      (record {
        page_id = q;
        valid = true;
        dirty = false;
        pin_count = 1;
        last_used = bp.clock + 1;
        image = image;
      })

pub loaded-same :
    (bp : BufferPool) (q i j : ℕ) (image : Image)
    → (j == i) ≡ false
    → (loaded bp q i image).frames j ≡ bp.frames j
unfolding set_frame
loaded-same bp q i j image h = ground arith

pub loaded-new :
    (bp : BufferPool) (q i : ℕ) (image : Image)
    → (loaded bp q i image).frames i ≡ record {
      page_id = q;
      valid = true;
      dirty = false;
      pin_count = 1;
      last_used = bp.clock + 1;
      image = image;
    }
unfolding set_frame
loaded-new bp q i image = ground arith

-- A frame that is in use after the load is the new one, or was in use before and holds another page.
loaded-cases :
    (bp : BufferPool) (q i j : ℕ) (image : Image)
    → ((k : ℕ) → k < bp.num_frames → holds q (bp.frames k) ≡ false)
    → j < bp.num_frames
    → ((loaded bp q i image).frames j).valid ≡ true
    → (j ≡ i)
      ⊎ (((j == i) ≡ false) × ((bp.frames j).valid ≡ true) × (((bp.frames j).page_id == q) ≡ false))
loaded-cases bp q i j image free l v = elim (Bool-cases (j == i)) [
  | inl t ↦ inl (ground arith)
  | inr t ↦
      let before : (bp.frames j).valid ≡ true =
        sym (ap (λ (f : Frame). f.valid) (loaded-same bp q i j image t)) ∙ v in
      let other = free j l in inr (t, before, ground arith)
]

loaded_page :
    (bp : BufferPool) (q i j : ℕ) (image : Image)
    → ((k : ℕ) → k < bp.num_frames → holds q (bp.frames k) ≡ false)
    → j < bp.num_frames
    → ((loaded bp q i image).frames j).valid ≡ true
    → ((loaded bp q i image).frames j).page_id ≡ q
    → j ≡ i
loaded_page bp q i j image free l v e = elim (loaded-cases bp q i j image free l v) [
  | inl same ↦ same
  | inr (t, w, n) ↦
      let p = ap (λ (f : Frame). f.page_id) (loaded-same bp q i j image t) in absurd (ground arith)
]

loaded-one_frame :
    (bp : BufferPool) (q i j k : ℕ) (image : Image)
    → Coherent bp
    → ((m : ℕ) → m < bp.num_frames → holds q (bp.frames m) ≡ false)
    → j < bp.num_frames
    → k < bp.num_frames
    → ((loaded bp q i image).frames j).valid ≡ true
    → ((loaded bp q i image).frames k).valid ≡ true
    → ((loaded bp q i image).frames j).page_id ≡ ((loaded bp q i image).frames k).page_id
    → j ≡ k
loaded-one_frame bp q i j k image c free l m v w s = elim (loaded-cases bp q i j image free l v) [
  | inl a ↦
      let mine : ((loaded bp q i image).frames j).page_id ≡ q =
        ap (λ (x : ℕ). ((loaded bp q i image).frames x).page_id) a
        ∙ ap (λ (f : Frame). f.page_id) (loaded-new bp q i image) in
      a ∙ sym (loaded_page bp q i k image free m w (sym s ∙ mine))
  | inr (t, x, n) ↦ elim (loaded-cases bp q i k image free m w) [
    | inl b ↦
        let mine : ((loaded bp q i image).frames k).page_id ≡ q =
          ap (λ (y : ℕ). ((loaded bp q i image).frames y).page_id) b
          ∙ ap (λ (f : Frame). f.page_id) (loaded-new bp q i image) in
        loaded_page bp q i j image free l v (s ∙ mine) ∙ sym b
    | inr (u, y, o) ↦ c.one_frame j k l m x y (
        sym (ap (λ (f : Frame). f.page_id) (loaded-same bp q i j image t))
        ∙ (s ∙ ap (λ (f : Frame). f.page_id) (loaded-same bp q i k image u)))
  ]
]

pub loaded-Coherent :
    (bp : BufferPool) (q i : ℕ)
    → Coherent bp
    → ((m : ℕ) → m < bp.num_frames → holds q (bp.frames m) ≡ false)
    → q < bp.store.data_file.file_pages
    → Coherent (loaded bp q i (bp.store.data_file.disk q))
unfolding set_frame
loaded-Coherent bp q i c free b =
    let image = bp.store.data_file.disk q in
    record {
      one_frame = λ j k l m v w s. loaded-one_frame bp q i j k image c free l m v w s;
      inside = λ j l v. elim (loaded-cases bp q i j image free l v) [
        | inl a ↦ omega (
          arith,
          ap (λ (x : ℕ). ((loaded bp q i image).frames x).page_id) a,
          ap (λ (f : Frame). f.page_id) (loaded-new bp q i image),
        )
        | inr (t, w, n) ↦
            let before = c.inside j l w in
            omega (arith, ap (λ (f : Frame). f.page_id) (loaded-same bp q i j image t))
      ];
      clean = λ j l v d. elim (loaded-cases bp q i j image free l v) [
        | inl a ↦
            subst
              (λ (x : ℕ).
                bp.store.data_file.disk ((loaded bp q i image).frames x).page_id
                ≡ ((loaded bp q i image).frames x).image)
              (sym a) (ground arith)
        | inr (t, w, n) ↦
            let same = loaded-same bp q i j image t in
            ap (λ (f : Frame). bp.store.data_file.disk f.page_id) same
            ∙ (c.clean j l w (sym (ap (λ (f : Frame). f.dirty) same) ∙ d)
                ∙ ap (λ (f : Frame). f.image) (sym same))
      ];
    }

loaded-store : (bp : BufferPool) (q i : ℕ) (image : Image) → (loaded bp q i image).store ≡ bp.store
unfolding set_frame
loaded-store bp q i image = refl

pub loaded-count :
    (bp : BufferPool) (q i : ℕ) (image : Image) → (loaded bp q i image).num_frames ≡ bp.num_frames
unfolding set_frame
loaded-count bp q i image = refl

pub loaded-holds :
    (bp : BufferPool) (q i : ℕ) (image : Image) → holds q ((loaded bp q i image).frames i) ≡ true
loaded-holds bp q i image = ap (holds q) (loaded-new bp q i image) ∙ ground arith

busy :
    (bp : BufferPool) (i j p : ℕ)
    → (bp.frames i).valid ≡ false
    → holds p (bp.frames j) ≡ true
    → (j == i) ≡ false
busy bp i j p f h = elim (Bool-cases (j == i)) [
  | inl t ↦
      let same : j ≡ i = ground arith in
      let v = ap (λ (k : ℕ). (bp.frames k).valid) same in absurd (ground arith)
  | inr t ↦ t
]

loaded_unheld :
    (bp : BufferPool) (q i p j : ℕ) (image : Image)
    → (p == q) ≡ false
    → holds p (bp.frames j) ≡ false
    → holds p ((loaded bp q i image).frames j) ≡ false
loaded_unheld bp q i p j image n h = elim (Bool-cases (j == i)) [
  | inl t ↦
      let same : j ≡ i = ground arith in
      ap (λ (k : ℕ). holds p ((loaded bp q i image).frames k)) same
      ∙ (ap (holds p) (loaded-new bp q i image) ∙ ground arith)
  | inr t ↦ ap (holds p) (loaded-same bp q i j image t) ∙ h
]

pub loaded-view :
    (bp : BufferPool) (q i : ℕ)
    → Coherent bp
    → ((m : ℕ) → m < bp.num_frames → holds q (bp.frames m) ≡ false)
    → q < bp.store.data_file.file_pages
    → i < bp.num_frames
    → (bp.frames i).valid ≡ false
    → (p : ℕ) → view (loaded bp q i (bp.store.data_file.disk q)) p ≡ view bp p
loaded-view bp q i c free b l f p =
    let image = bp.store.data_file.disk q in
    let bp2 = loaded bp q i image in
    let c2 = loaded-Coherent bp q i c free b in
    let n = loaded-count bp q i image in
    elim (Held-cases bp p) [
      | inl (j, m, h) ↦
          let same = loaded-same bp q i j image (busy bp i j p f h) in
          view-frame bp2 j p c2 (omega arith) (ap (holds p) same ∙ h)
          ∙ (ap (λ (x : Frame). some x.image) same ∙ sym (view-frame bp j p c m h))
      | inr none_held ↦ elim (Bool-cases (p == q)) [
        | inl t ↦
            let here : q ≡ p = ground arith in
            subst (λ (x : ℕ). view bp2 x ≡ view bp x) here
              (view-frame bp2 i q c2 (omega arith) (loaded-holds bp q i image)
                ∙ (ap (λ (x : Frame). some x.image) (loaded-new bp q i image)
                    ∙ (sym (read_inside bp.store.data_file q b) ∙ sym (view-disk bp q free))))
        | inr t ↦
            view-disk bp2 p (λ j m. loaded_unheld bp q i p j image t (none_held j (omega arith)))
            ∙ (ap (λ (w : Wal). pager_read w.data_file p) (loaded-store bp q i image)
                ∙ sym (view-disk bp p none_held))
      ]
    ]
