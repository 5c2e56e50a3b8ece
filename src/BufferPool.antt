-- ===== src/BufferPool.antt =====
-- src/bufpool.h, src/bufpool.c, src/db.c: the buffer pool over the data file of a write-ahead log,
-- and the commit that sends its dirty pages to the log. The frames are the first `num_frames` of an
-- array. Calls are in sequence: a read is over before the next call begins. A pointer that a call
-- returns is the index of its frame.
pub mod Staging
pub mod Commits
pub mod Search
pub mod Views
pub mod Evict
pub mod Pick
pub mod Load
pub mod Fetch
pub mod Room
use db_hobby.Base.{
  ℕ, zero, suc, ◌+◌, ◌-◌, Bool, true, false, ◌&&◌, ◌||◌, not, List, [], Option, none, some, Rc, ok,
  fail, if◌then◌else◌, ltb, leb, ◌==◌, update,
}
use db_hobby.Pager.{Image, Pager, pager_read, pager_write, pager_allocate}
use db_hobby.Wal.{Wal, Crash, none_set, wal_begin, wal_stage, wal_steal, wal_commit}

pub record Frame : Type 0 where
  pub page_id : ℕ
  pub valid : Bool
  pub dirty : Bool
  pub pin_count : ℕ
  pub last_used : ℕ
  pub image : Image

-- `store` is the log with its data file; `steal_fn` tells whether its `wal_steal` is the handler.
pub record BufferPool : Type 0 where
  pub store : Wal
  pub frames : ℕ → Frame
  pub num_frames : ℕ
  pub clock : ℕ
  pub hits : ℕ
  pub misses : ℕ
  pub no_steal : Bool
  pub steal_fn : Bool

unfoldable pub first_frame : (Frame → Bool) → (ℕ → Frame) → ℕ → Option ℕ
first_frame test frames zero = none
first_frame test frames (suc n) = elim (first_frame test frames n) [
  | some i ↦ some i
  | none ↦ if test (frames n) then some n else none
]

abbrev pub holds : ℕ → Frame → Bool
holds page_id f = f.valid && (f.page_id == page_id)

unfoldable pub find_frame : BufferPool → ℕ → Option ℕ
find_frame bp page_id = first_frame (holds page_id) bp.frames bp.num_frames

abbrev pub can_evict : Bool → Frame → Bool
can_evict can_steal_dirty f = (f.pin_count == 0) && not (f.dirty && not can_steal_dirty)

-- The victim so far is kept unless the frame was used longer ago.
unfoldable pub older_frame : (ℕ → Frame) → ℕ → Option ℕ → Option ℕ
older_frame frames i none = some i
older_frame frames i (some victim) =
    if ltb (frames i).last_used (frames victim).last_used then some i else some victim

unfoldable pub lru_victim : Bool → (ℕ → Frame) → ℕ → Option ℕ
lru_victim can_steal_dirty frames zero = none
lru_victim can_steal_dirty frames (suc n) =
    let victim = lru_victim can_steal_dirty frames n in
    if can_evict can_steal_dirty (frames n) then older_frame frames n victim else victim

unfoldable pub set_frame : BufferPool → ℕ → Frame → BufferPool
set_frame bp i f = record bp { frames = update bp.frames i f }

unfoldable pub drop_victim : BufferPool → ℕ → BufferPool
drop_victim bp i = set_frame bp i (record (bp.frames i) { valid = false; dirty = false })

unfoldable pub steal_victim : BufferPool → ℕ → Wal × Rc → BufferPool × Option ℕ
steal_victim bp i (w, ok) = (drop_victim (record bp { store = w }) i, some i)
steal_victim bp i (w, fail) = (record bp { store = w }, none)

abbrev pub write_back : Wal → Frame → Wal
write_back w f = record w { data_file = pager_write w.data_file f.page_id f.image }

unfoldable pub evict : BufferPool → ℕ → BufferPool × Option ℕ
evict bp i =
    let f = bp.frames i in
    if f.dirty
    then if bp.no_steal && bp.steal_fn
      then steal_victim bp i (wal_steal bp.store f.page_id f.image)
      else (drop_victim (record bp { store = write_back bp.store f }) i, some i)
    else (drop_victim bp i, some i)

unfoldable pub evict_lru : BufferPool → Option ℕ → BufferPool × Option ℕ
evict_lru bp none = (bp, none)
evict_lru bp (some i) = evict bp i

unfoldable pub pick_frame : BufferPool → BufferPool × Option ℕ
pick_frame bp = elim (first_frame (λ f. not f.valid) bp.frames bp.num_frames) [
  | some i ↦ (bp, some i)
  | none ↦ evict_lru bp (lru_victim (not bp.no_steal || bp.steal_fn) bp.frames bp.num_frames)
]

-- The frame that was picked, after the read: given back where the read failed.
unfoldable pub load : BufferPool → ℕ → ℕ → Option Image → BufferPool × Option ℕ
load bp page_id i none = (
  set_frame bp i
      (record (bp.frames i) { page_id = page_id; valid = false; dirty = false; pin_count = 0 }),
  none,
)
load bp page_id i (some image) = (
  set_frame (record bp { clock = bp.clock + 1 }) i
      (record {
        page_id = page_id;
        valid = true;
        dirty = false;
        pin_count = 1;
        last_used = bp.clock + 1;
        image = image;
      }),
  some i,
)

unfoldable pub load_picked : ℕ → BufferPool × Option ℕ → BufferPool × Option ℕ
load_picked page_id (bp, none) = (bp, none)
load_picked page_id (bp, some i) = load bp page_id i (pager_read bp.store.data_file page_id)

unfoldable pub fetch_locked : BufferPool → ℕ → BufferPool × Option ℕ
fetch_locked bp page_id = elim (find_frame bp page_id) [
  | some i ↦ (
    set_frame (record bp { hits = bp.hits + 1; clock = bp.clock + 1 }) i
        (record (bp.frames i) {
          pin_count = (bp.frames i).pin_count + 1;
          last_used = bp.clock + 1;
        }),
    some i,
  )
  | none ↦ load_picked page_id (pick_frame (record bp { misses = bp.misses + 1 }))
]

unfoldable pub bufpool_fetch : BufferPool → ℕ → BufferPool × Option ℕ
bufpool_fetch bp page_id = fetch_locked bp page_id

unfoldable pub bufpool_new_page : BufferPool → Image → BufferPool × Option ℕ
bufpool_new_page bp zero_page =
    let (p, id) = pager_allocate bp.store.data_file zero_page in
    fetch_locked (record bp { store = record bp.store { data_file = p } }) id

unfoldable pub bufpool_unpin : BufferPool → ℕ → Bool → BufferPool
bufpool_unpin bp page_id is_dirty = elim (find_frame bp page_id) [
  | none ↦ bp
  | some i ↦ set_frame bp i (record (bp.frames i) {
    dirty = is_dirty || (bp.frames i).dirty;
    pin_count = (bp.frames i).pin_count - 1;
  })
]

abbrev pub is_dirty_frame : Frame → Bool
is_dirty_frame f = f.valid && f.dirty

abbrev pub cleaned : BufferPool → ℕ → BufferPool
cleaned bp i = set_frame bp i (record (bp.frames i) { dirty = false })

unfoldable pub flush_below : ℕ → BufferPool → BufferPool
flush_below zero bp = bp
flush_below (suc n) bp =
    let bp1 = flush_below n bp in
    if is_dirty_frame (bp1.frames n)
    then cleaned (record bp1 { store = write_back bp1.store (bp1.frames n) }) n
    else bp1

unfoldable pub bufpool_flush_all : BufferPool → BufferPool
bufpool_flush_all bp = flush_below bp.num_frames bp

-- The loop of `bufpool_flush_cb` with `wal_stage` as its sink: the pages staged, or nothing for -1.
unfoldable pub stage_frame : BufferPool → ℕ → ℕ → Wal × Rc → BufferPool × Option ℕ
stage_frame bp i n (w, ok) = (cleaned (record bp { store = w }) i, some (n + 1))
stage_frame bp i n (w, fail) = (record bp { store = w }, none)

unfoldable pub stage_next : ℕ → BufferPool × Option ℕ → BufferPool × Option ℕ
stage_next i (bp, none) = (bp, none)
stage_next i (bp, some n) =
    let f = bp.frames i in
    if is_dirty_frame f
    then stage_frame bp i n (wal_stage bp.store f.page_id f.image)
    else (bp, some n)

unfoldable pub stage_below : ℕ → BufferPool → BufferPool × Option ℕ
stage_below zero bp = (bp, some 0)
stage_below (suc n) bp = stage_next n (stage_below n bp)

unfoldable pub bufpool_flush_cb : BufferPool → BufferPool × Option ℕ
bufpool_flush_cb bp = stage_below bp.num_frames bp

unfoldable pub bufpool_set_no_steal : BufferPool → Bool → BufferPool
bufpool_set_no_steal bp on = record bp { no_steal = on }

unfoldable pub bufpool_set_steal_handler : BufferPool → Bool → BufferPool
bufpool_set_steal_handler bp fn = record bp { steal_fn = fn }

unfoldable pub discarded : Frame → Frame
discarded f = if is_dirty_frame f then record f { valid = false; dirty = false } else f

unfoldable pub bufpool_discard_dirty : BufferPool → BufferPool
bufpool_discard_dirty bp = record bp {
  frames = λ i. if ltb i bp.num_frames then discarded (bp.frames i) else bp.frames i;
}

unfoldable pub invalidated : Frame → Frame
invalidated f = record f { valid = false; dirty = false; pin_count = 0 }

unfoldable pub bufpool_invalidate_all : BufferPool → BufferPool
bufpool_invalidate_all bp = record bp {
  frames = λ i. if ltb i bp.num_frames then invalidated (bp.frames i) else bp.frames i;
}

unfoldable pub bufpool_invalidate_from : BufferPool → ℕ → BufferPool
bufpool_invalidate_from bp first = record bp {
  frames = λ i.
      if ltb i bp.num_frames && ((bp.frames i).valid && leb first (bp.frames i).page_id)
      then invalidated (bp.frames i)
      else bp.frames i;
}

-- `wal_flush_commit` of src/db.c.
unfoldable pub commit_staged : BufferPool × Option ℕ → BufferPool × Rc
commit_staged (bp, none) = (bp, fail)
commit_staged (bp, some zero) = (bp, ok)
commit_staged (bp, some (suc n)) =
    let (w, rc) = wal_commit none_set bp.store in (record bp { store = w }, rc)

unfoldable pub wal_flush_commit : BufferPool → BufferPool × Rc
wal_flush_commit bp = commit_staged (bufpool_flush_cb (record bp { store = wal_begin bp.store }))
