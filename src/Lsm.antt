-- ===== src/Lsm.antt =====
-- src/lsm.h, src/lsm.c: the log-structured merge tree in its unique mode. A key or a value k of type
-- int64_t is the number k + 2^63, in the same order. An array is a function with its count; files are
-- the arrays that were written to them, and reads and writes of files succeed, as does realloc.
pub mod Bsearch
pub mod Versions
pub mod Upsert
pub mod Map
pub mod Refine
use db_hobby.Base.{
  ℕ, zero, suc, ◌+◌, ◌-◌, ◌*◌, ◌/◌, ◌^◌, Bool, true, false, not, ◌||◌, Option, none, some,
  if◌then◌else◌, ltb, leb, ◌==◌, update,
}

abbrev pub int64_zero : ℕ
int64_zero = 2 ^ 63

pub record Entry : Type 0 where
  pub key : ℕ
  pub val : ℕ
  pub tomb : Bool

pub record SsTable : Type 0 where
  pub seq : ℕ
  pub count : ℕ
  pub records : ℕ → Entry
  pub min_key : ℕ
  pub max_key : ℕ

pub record Lsm : Type 0 where
  pub threshold : ℕ
  pub mem : ℕ → Entry
  pub mem_n : ℕ
  pub ssts : ℕ → SsTable
  pub nsst : ℕ
  pub next_seq : ℕ

-- The position, and whether the key is there. Each round halves what is left, so that the count is
-- fuel enough.
unfoldable pub mem_bsearch_loop : (ℕ → Entry) → ℕ → ℕ → ℕ → ℕ → ℕ × Bool
mem_bsearch_loop mem key zero lo hi = (lo, false)
mem_bsearch_loop mem key (suc fuel) lo hi =
    let mid = lo + (hi - lo) / 2 in
    let below = ltb (mem mid).key key in
    let next =
      mem_bsearch_loop mem key fuel (if below then mid + 1 else lo) (if below then hi else mid) in
    if ltb lo hi then if below || ltb key (mem mid).key then next else (mid, true) else (lo, false)

unfoldable pub mem_bsearch : Lsm → ℕ → ℕ × Bool
mem_bsearch l key = mem_bsearch_loop l.mem key l.mem_n 0 l.mem_n

-- `memmove` of the entries from pos on, and the new entry in the gap.
unfoldable pub insert_at : (ℕ → Entry) → ℕ → Entry → ℕ → Entry
insert_at mem pos e i = if ltb i pos then mem i else if i == pos then e else mem (i - 1)

unfoldable pub upsert_at : Lsm → Entry → ℕ × Bool → Lsm
upsert_at l e (pos, true) = record l {
  mem = update l.mem pos (record (l.mem pos) { val = e.val; tomb = e.tomb });
}
upsert_at l e (pos, false) = record l { mem = insert_at l.mem pos e; mem_n = l.mem_n + 1 }

unfoldable pub mem_upsert : Lsm → ℕ → ℕ → Bool → Lsm
mem_upsert l key val tomb =
    upsert_at l (record { key = key; val = val; tomb = tomb }) (mem_bsearch l key)

-- `hi` is one more than in the code, where it may be -1.
unfoldable pub sst_get_loop : (ℕ → Entry) → ℕ → ℕ → ℕ → ℕ → Option Entry
sst_get_loop records key zero lo hi = none
sst_get_loop records key (suc fuel) lo hi =
    let mid = lo + (hi - 1 - lo) / 2 in
    let below = ltb (records mid).key key in
    let next =
      sst_get_loop records key fuel (if below then mid + 1 else lo) (if below then hi else mid) in
    if ltb lo hi then if (records mid).key == key then some (records mid) else next else none

unfoldable pub sst_get : SsTable → ℕ → Option Entry
sst_get s key =
    if s.count == 0 || (ltb key s.min_key || ltb s.max_key key)
    then none
    else sst_get_loop s.records key s.count 0 s.count

-- The memtable written to a file, and the file opened.
unfoldable pub sst_of : ℕ → (ℕ → Entry) → ℕ → SsTable
sst_of seq records n = record {
  seq = seq;
  count = n;
  records = records;
  min_key = (records 0).key;
  max_key = (records (n - 1)).key;
}

unfoldable pub lsm_add_sst : Lsm → SsTable → Lsm
lsm_add_sst l s = record l { ssts = update l.ssts l.nsst s; nsst = l.nsst + 1 }

unfoldable pub lsm_flush : Lsm → Lsm
lsm_flush l =
    if l.mem_n == 0
    then l
    else record (lsm_add_sst (record l { next_seq = l.next_seq + 1 })
        (sst_of l.next_seq l.mem l.mem_n)) { mem_n = 0 }

unfoldable pub maybe_flush : Lsm → Lsm
maybe_flush l = if leb l.threshold l.mem_n then lsm_flush l else l

unfoldable pub lsm_put : Lsm → ℕ → ℕ → Lsm
lsm_put l key val = maybe_flush (mem_upsert l key val false)

unfoldable pub lsm_delete : Lsm → ℕ → Lsm
lsm_delete l key = maybe_flush (mem_upsert l key int64_zero true)

unfoldable pub lsm_clear : Lsm → Lsm
lsm_clear l = record l { nsst = 0; mem_n = 0 }

unfoldable pub live_value : Entry → Option ℕ
live_value e = if e.tomb then none else some e.val

-- The first version that is met decides.
abbrev pub decide : Option Entry → Option ℕ → Option ℕ
decide none older = older
decide (some e) older = live_value e

-- The tables from the newest on.
unfoldable pub get_tables : (ℕ → SsTable) → ℕ → ℕ → Option ℕ
get_tables ssts zero key = none
get_tables ssts (suc n) key = decide (sst_get (ssts n) key) (get_tables ssts n key)

unfoldable pub get_at : Lsm → ℕ → ℕ × Bool → Option ℕ
get_at l key (pos, true) = live_value (l.mem pos)
get_at l key (pos, false) = get_tables l.ssts l.nsst key

unfoldable pub lsm_get : Lsm → ℕ → Option ℕ
lsm_get l key = get_at l key (mem_bsearch l key)
