-- ===== src/BufferPool/Staging.antt =====
-- src/bufpool.c, `bufpool_flush_cb`, and src/wal.c, `wal_stage`: what the dirty frames of a pool leave
-- staged.
use db_hobby.Base.{
  ℕ, zero, suc, ◌+◌, ◌<◌, ◌≤◌, ◌≡◌, ◌≢◌, inl, inr, refl, sym, ap, ◌∙◌, true, false, List, [], ◌∷◌,
  ◌++◌, none, some, Option, Rc, ok, fail, length, ◌==◌, leb, Bool-cases, Option-cases,
  length-append, u64_mod, arith,
}
use db_hobby.Pager.{Image}
use db_hobby.Wal.{Wal, StagedPage, page_size, wal_stage, restage, wal_max_staged}
use db_hobby.Wal.Extend.{StagedFits}
use db_hobby.Wal.Overlay.{is_written}
use mathlib.Core.Path.{subst}
use db_hobby.BufferPool.{
  BufferPool, Frame, is_dirty_frame, cleaned, set_frame, stage_frame, stage_next, stage_below,
}

-- Staged pages that fit a record each, none of which is q.
abbrev pub Spares : ℕ → List StagedPage → Type 0
Spares q st = StagedFits st × (is_written st q ≡ false)

-- A frame that can be staged and does not hold q.
abbrev pub SparesFrame : ℕ → Frame → Type 0
SparesFrame q f =
    is_dirty_frame f ≡ true → (f.page_id ≢ q) × (f.page_id < u64_mod) × (length f.image ≡ page_size)

restage-Spares :
    (st st1 : List StagedPage) (pid q : ℕ) (buf : Image)
    → Spares q st
    → pid ≢ q
    → pid < u64_mod
    → length buf ≡ page_size
    → restage st pid buf ≡ some st1
    → Spares q st1 × (length st1 ≡ length st)
unfolding restage
restage-Spares [] st1 pid q buf h n b l e = absurd (cc e)
restage-Spares (s ∷ rest) st1 pid q buf h n b l e = elim (Bool-cases (s.page_id == pid)) [
  | inl t ↦ ground (arith, h.0.0)
  | inr t ↦ elim (Option-cases (restage rest pid buf)) [
    | inl r ↦ absurd (ground (arith, e))
    | inr (rest1, r) ↦
        let kept = restage-Spares rest rest1 pid q buf (h.0.2, ground arith) n b l r in
        let same : s ∷ rest1 ≡ st1 = ground (arith, e) in
        subst (λ (x : List StagedPage). Spares q x × (length x ≡ suc (length rest))) same
          (((h.0.0, h.0.1, kept.0.0), ground arith), ap suc kept.1)
  ]
]

Spares-append :
    (st : List StagedPage) (s : StagedPage) (q : ℕ)
    → Spares q st
    → s.page_id ≢ q
    → s.page_id < u64_mod
    → length s.image ≡ page_size
    → Spares q (st ++ s ∷ [])
Spares-append [] s q h n b l = ((b, l, omega arith), ground arith)
Spares-append (t ∷ st) s q h n b l =
    let more = Spares-append st s q (h.0.2, ground arith) n b l in
    ((h.0.0, h.0.1, more.0), ground arith)

-- The log with other staged pages.
abbrev pub restaged : Wal → List StagedPage → Wal
restaged w st = record w { staged = st }

pub record Spared (q : ℕ) (w w1 : Wal) : Type 0 where
  pub only : w1 ≡ restaged w w1.staged
  pub spares : Spares q w1.staged
  pub few : length w1.staged ≤ wal_max_staged

wal_stage-Spared :
    (w w1 : Wal) (pid q : ℕ) (buf : Image)
    → Spares q w.staged
    → length w.staged ≤ wal_max_staged
    → pid ≢ q
    → pid < u64_mod
    → length buf ≡ page_size
    → wal_stage w pid buf ≡ (w1, ok)
    → Spared q w w1
unfolding wal_stage
wal_stage-Spared w w1 pid q buf h few n b l e = elim (Option-cases (restage w.staged pid buf)) [
  | inr (st, r) ↦
      let kept = restage-Spares w.staged st pid q buf h n b l r in
      let same : restaged w st ≡ w1 = ground (arith, e) in
      subst (λ (v : Wal). Spared q w v) same
        (record { only = refl; spares = kept.0; few = omega (arith, kept.1) })
  | inl r ↦ elim (Bool-cases (leb wal_max_staged (length w.staged))) [
    | inl t ↦ absurd (ground (arith, e))
    | inr t ↦
        let s : StagedPage = record { page_id = pid; image = buf } in
        let same : restaged w (w.staged ++ s ∷ []) ≡ w1 = ground (arith, e) in
        subst (λ (v : Wal). Spared q w v) same
          (record {
            only = refl;
            spares = Spares-append w.staged s q h n b l;
            few = ground (arith, length-append w.staged (s ∷ []));
          })
  ]
]

-- What the first n frames have left: only staged pages in the log, of which none is q, the other
-- frames alone, and a count that is positive where one of these frames was dirty.
pub record StagedBelow (q n : ℕ) (bp bp1 : BufferPool) (m : ℕ) : Type 0 where
  pub log : Spared q bp.store bp1.store
  pub above : (i : ℕ) → n ≤ i → bp1.frames i ≡ bp.frames i
  pub counted : (i : ℕ) → i < n → is_dirty_frame (bp.frames i) ≡ true → 0 < m

stage_dirty :
    (q n m m1 : ℕ) (bp bp0 bp1 : BufferPool) (r : Wal × Rc)
    → StagedBelow q n bp bp0 m
    → ((w : Wal) → r ≡ (w, ok) → Spared q bp.store w)
    → stage_frame bp0 n m r ≡ (bp1, some m1)
    → StagedBelow q (suc n) bp bp1 m1
unfolding stage_frame set_frame
stage_dirty q n m m1 bp bp0 bp1 (w, fail) s h e = absurd (cc e)
stage_dirty q n m m1 bp bp0 bp1 (w, ok) s h e =
    let made : cleaned (record bp0 { store = w }) n ≡ bp1 =
      ap (λ (x : BufferPool × Option ℕ). x.0) e in
    let count : some (m + 1) ≡ some m1 = ap (λ (x : BufferPool × Option ℕ). x.1) e in
    subst (λ (x : BufferPool). StagedBelow q (suc n) bp x m1) made
      (record {
        log = h w refl;
        above = λ i b. ground (arith, s.above i (omega arith));
        counted = λ i b t. ground (arith, count);
      })

stage_clean :
    (q n m m1 : ℕ) (bp bp0 bp1 : BufferPool)
    → is_dirty_frame (bp.frames n) ≡ false
    → StagedBelow q n bp bp0 m
    → ◌≡◌ {A = BufferPool × Option ℕ} (bp0, some m) (bp1, some m1)
    → StagedBelow q (suc n) bp bp1 m1
stage_clean q n m m1 bp bp0 bp1 c s e =
    let count : some m ≡ some m1 = ap (λ (x : BufferPool × Option ℕ). x.1) e in
    subst (λ (x : BufferPool). StagedBelow q (suc n) bp x m1)
      (ap (λ (x : BufferPool × Option ℕ). x.0) e)
      (record {
        log = s.log;
        above = λ i b. s.above i (omega arith);
        counted = λ i b t. elim (Bool-cases (i == n)) [
          | inl u ↦ absurd (
              let at : i ≡ n = ground arith in
              cc (sym c ∙ (ap (λ (k : ℕ). is_dirty_frame (bp.frames k)) (sym at) ∙ t)))
          | inr u ↦ let more = s.counted i (ground arith) t in ground (arith, count)
        ];
      })

Spared-then : (q : ℕ) (w w1 w2 : Wal) → Spared q w w1 → Spared q w1 w2 → Spared q w w2
Spared-then q w w1 w2 a b = record {
  only = b.only ∙ ap (λ v. restaged v w2.staged) a.only;
  spares = b.spares;
  few = b.few;
}

stage_next-Below :
    (q n m1 : ℕ) (bp bp1 : BufferPool) (r : BufferPool × Option ℕ)
    → SparesFrame q (bp.frames n)
    → ((bp0 : BufferPool) (m : ℕ) → r ≡ (bp0, some m) → StagedBelow q n bp bp0 m)
    → stage_next n r ≡ (bp1, some m1)
    → StagedBelow q (suc n) bp bp1 m1
unfolding stage_next
stage_next-Below q n m1 bp bp1 (bp0, none) f h e = absurd (cc e)
stage_next-Below q n m1 bp bp1 (bp0, some m) f h e =
    let s = h bp0 m refl in
    let same = s.above n (omega arith) in
    elim (Bool-cases (is_dirty_frame (bp0.frames n))) [
      | inl t ↦
          let d = bp0.frames n in
          let fit : (d.page_id ≢ q) × (d.page_id < u64_mod) × (length d.image ≡ page_size) =
            subst (λ x. (x.page_id ≢ q) × (x.page_id < u64_mod) × (length x.image ≡ page_size))
              (sym same) (f (ap is_dirty_frame (sym same) ∙ t)) in
          stage_dirty q n m m1 bp bp0 bp1 (wal_stage bp0.store d.page_id d.image) s
            (λ w k. Spared-then q bp.store bp0.store w s.log (
              wal_stage-Spared bp0.store w d.page_id q d.image s.log.spares s.log.few fit.0 fit.1
                fit.2 k))
            (rw t at e)
      | inr t ↦
          let stays : ◌≡◌ {A = BufferPool × Option ℕ} (bp0, some m) (bp1, some m1) = rw t at e in
          stage_clean q n m m1 bp bp0 bp1 (ap is_dirty_frame (sym same) ∙ t) s stays
    ]

-- The loop of `bufpool_flush_cb`, over frames that can be staged and of which none that is dirty
-- holds q.
pub stage_below-Below :
    (q n m1 : ℕ) (bp bp1 : BufferPool)
    → bp.store.staged ≡ []
    → ((i : ℕ) → i < n → SparesFrame q (bp.frames i))
    → stage_below n bp ≡ (bp1, some m1)
    → StagedBelow q n bp bp1 m1
unfolding stage_below
stage_below-Below q zero m1 bp bp1 none_staged f e =
    subst (λ (x : BufferPool). StagedBelow q 0 bp x m1) (ap (λ (x : BufferPool × Option ℕ). x.0) e)
      (record {
        log = record {
          only = refl;
          spares = rw none_staged (omega arith, refl);
          few = rw none_staged (omega arith);
        };
        above = λ i b. refl;
        counted = λ i b t. absurd (omega arith);
      })
stage_below-Below q (suc n) m1 bp bp1 none_staged f e =
    stage_next-Below q n m1 bp bp1 (stage_below n bp) (f n (omega arith))
      (λ bp0 m h. stage_below-Below q n m bp bp0 none_staged (λ i b. f i (omega arith)) h) e
