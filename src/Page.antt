-- ===== src/Page.antt =====
-- src/page.h, src/page.c: the slotted page. The header and the slots, which the code lays over the
-- first bytes of the buffer, are fields; `bytes` is the buffer, where the records are. Numbers are
-- uint16_t, with their wrap-around.
pub mod Layout
use db_hobby.Base.{
  ℕ, zero, suc, ◌+◌, ◌-◌, ◌*◌, ◌%◌, Bool, true, false, ◌&&◌, ◌||◌, not, Option, none, some, Rc, ok,
  fail, if◌then◌else◌, ◌==◌, leb, ltb, update,
}

abbrev pub page_size : ℕ
page_size = 4096

abbrev pub u16_mod : ℕ
u16_mod = 65536

abbrev pub slot_size : ℕ
slot_size = 4

abbrev pub header_size : ℕ
header_size = 4

pub record Slot : Type 0 where
  pub offset : ℕ
  pub length : ℕ

pub record SlotPage : Type 0 where
  pub num_slots : ℕ
  pub free_end : ℕ
  pub slots : ℕ → Slot
  pub bytes : ℕ → ℕ

-- `memcpy(page + off, rec, len)`
unfoldable pub copy_in : (ℕ → ℕ) → ℕ → (ℕ → ℕ) → ℕ → ℕ → ℕ
copy_in bytes off rec len a = if leb off a && ltb a (off + len) then rec (a - off) else bytes a

unfoldable pub free_start : SlotPage → ℕ
free_start p = (header_size + p.num_slots * slot_size) % u16_mod

unfoldable pub slotpage_init : SlotPage → SlotPage
slotpage_init p = record p { num_slots = 0; free_end = page_size }

unfoldable pub slotpage_free_space : SlotPage → ℕ
slotpage_free_space p = (p.free_end + u16_mod - free_start p) % u16_mod

unfoldable pub slotpage_num_slots : SlotPage → ℕ
slotpage_num_slots p = p.num_slots

unfoldable pub slotpage_insert : SlotPage → (ℕ → ℕ) → ℕ → SlotPage × Option ℕ
slotpage_insert p rec len =
    let need = (len + slot_size) % u16_mod in
    if ltb (slotpage_free_space p) need
    then (p, none)
    else let rec_off = (p.free_end + u16_mod - len) % u16_mod in
      let idx = p.num_slots in
      (
        record {
          num_slots = (p.num_slots + 1) % u16_mod;
          free_end = rec_off;
          slots = update p.slots idx (record { offset = rec_off; length = len });
          bytes = copy_in p.bytes rec_off rec len;
        },
        some idx,
      )

-- `*rec_out` is the offset of the record.
unfoldable pub slotpage_get : SlotPage → ℕ → Option Slot
slotpage_get p slot =
    if leb p.num_slots slot
    then none
    else if (p.slots slot).offset == 0
    then none
    else some (p.slots slot)

unfoldable pub slotpage_delete : SlotPage → ℕ → SlotPage × Rc
slotpage_delete p slot =
    if leb p.num_slots slot
    then (p, fail)
    else (record p { slots = update p.slots slot (record { offset = 0; length = 0 }) }, ok)

unfoldable pub slotpage_overwrite : SlotPage → ℕ → (ℕ → ℕ) → ℕ → SlotPage × Rc
slotpage_overwrite p slot rec len =
    if leb p.num_slots slot
    then (p, fail)
    else let s = p.slots slot in
      if s.offset == 0 || not (s.length == len)
      then (p, fail)
      else (record p { bytes = copy_in p.bytes s.offset rec len }, ok)

-- The loop of `slotpage_compact` over the first `n` slots: the slots, the temporary buffer and
-- `new_end`.
pub record Packing : Type 0 where
  pub slots : ℕ → Slot
  pub tmp : ℕ → ℕ
  pub new_end : ℕ

unfoldable pub pack_slot : SlotPage → ℕ → Packing → Packing
pack_slot p i k =
    let s = k.slots i in
    if s.offset == 0
    then k
    else let to = (k.new_end + u16_mod - s.length) % u16_mod in
      record {
        slots = update k.slots i (record s { offset = to });
        tmp = copy_in k.tmp to (λ j. p.bytes (s.offset + j)) s.length;
        new_end = to;
      }

unfoldable pub pack_slots : SlotPage → (ℕ → ℕ) → ℕ → Packing
pack_slots p junk zero = record { slots = p.slots; tmp = junk; new_end = page_size }
pack_slots p junk (suc n) = pack_slot p n (pack_slots p junk n)

-- `junk` is what the uninitialised temporary buffer holds.
unfoldable pub slotpage_compact : SlotPage → (ℕ → ℕ) → SlotPage
slotpage_compact p junk =
    let k = pack_slots p junk p.num_slots in
    record p {
      slots = k.slots;
      free_end = k.new_end;
      bytes = copy_in p.bytes k.new_end (λ j. k.tmp (k.new_end + j)) (page_size - k.new_end);
    }
