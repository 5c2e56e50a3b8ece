-- ===== src/Examples/Pools.antt =====
-- src/bufpool.c: a pool of one frame, over a log.
use db_hobby.Base.{ℕ, ◌≡◌, refl, inr, true, false, [], ◌∷◌, some, arith}
use db_hobby.Pager.{Pager, pager_read, pager_write}
use db_hobby.Wal.{Wal}
use db_hobby.BufferPool.{
  BufferPool, bufpool_fetch, fetch_locked, find_frame, first_frame, pick_frame, lru_victim,
  older_frame, evict_lru, evict, drop_victim, set_frame, load_picked, load,
}
use db_hobby.BufferPool.Views.{Coherent}
use db_hobby.BufferPool.Fetch.{Fetched, bufpool_fetch-Fetched}
use db_hobby.BufferPool.Room.{bufpool_fetch-some}

abbrev no_pages : Pager
no_pages = record { disk = λ p. []; file_pages = 2; num_pages = 2 }

abbrev quiet_log : Wal
quiet_log = record {
  data_file = no_pages;
  log = [];
  log_cap = 100000;
  staged = [];
  txn_active = false;
  stole = false;
  base_pages = 2;
  spilled = [];
  next_lsn = 1;
  flushed_lsn = 0;
  txn_log_start = 0;
}

-- Its frame holds page 0, changed and not pinned.
abbrev one_frame_pool : BufferPool
one_frame_pool = record {
  store = quiet_log;
  frames = λ i. record {
    page_id = 0;
    valid = true;
    dirty = true;
    pin_count = 0;
    last_used = 1;
    image = 7 ∷ [];
  };
  num_frames = 1;
  clock = 1;
  hits = 0;
  misses = 0;
  no_steal = false;
  steal_fn = false;
}

one_frame_pool-Coherent : Coherent one_frame_pool
one_frame_pool-Coherent = record {
  one_frame = λ i j l m v w s. omega arith;
  inside = λ i l v. omega arith;
  clean = λ i l v d. absurd (cc d);
}

-- Page 1 takes the place of page 0.
abbrev fetched_pool : BufferPool
fetched_pool = (bufpool_fetch one_frame_pool 1).0

fetches : bufpool_fetch one_frame_pool 1 ≡ (fetched_pool, some 0)
unfolding bufpool_fetch fetch_locked find_frame first_frame pick_frame lru_victim older_frame
    evict_lru evict drop_victim set_frame load_picked load pager_read pager_write
fetches = refl

bufpool_fetch-Fetched_example : Fetched one_frame_pool fetched_pool 1 0
bufpool_fetch-Fetched_example =
    bufpool_fetch-Fetched one_frame_pool fetched_pool 1 0 one_frame_pool-Coherent fetches

bufpool_fetch-some_example : (i : ℕ) × ((bufpool_fetch one_frame_pool 1).1 ≡ some i)
bufpool_fetch-some_example =
    bufpool_fetch-some one_frame_pool 1 one_frame_pool-Coherent (0, omega arith, inr refl) refl
      (omega arith)
