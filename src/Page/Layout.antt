-- ===== src/Page/Layout.antt =====
-- src/page.c: records keep clear of the slots and of each other's space.
use db_hobby.Base.{
  ℕ, ◌≡◌, ◌==◌, ◌≢◌, ◌<◌, ◌≤◌, ◌+◌, ◌*◌, ◌⊎◌, arith, leb, if◌then◌else◌, none, some,
}
use db_hobby.Page.{
  Slot, SlotPage, page_size, u16_mod, slot_size, header_size, copy_in, free_start,
  slotpage_free_space, slotpage_insert, slotpage_get, slotpage_delete, slotpage_overwrite,
}

-- A live slot's record lies between the free space and the end of the page.
unfoldable pub Fits : SlotPage → ℕ → Type 0
Fits p i =
    i < p.num_slots
    → (p.slots i).offset ≢ 0
    → (p.free_end ≤ (p.slots i).offset) × ((p.slots i).offset + (p.slots i).length ≤ page_size)

unfoldable pub IsLaidOut : SlotPage → Type 0
IsLaidOut p =
    (header_size + p.num_slots * slot_size ≤ p.free_end)
    × (p.free_end ≤ page_size)
    × ((i : ℕ) → Fits p i)

-- A page that is well laid out stays so through an insertion, of a record under 65,532 bytes.
pub insert-IsLaidOut :
    (p : SlotPage) (rec : ℕ → ℕ) (len : ℕ)
    → IsLaidOut p
    → len + slot_size < u16_mod
    → IsLaidOut (slotpage_insert p rec len).0
unfolding IsLaidOut Fits slotpage_insert slotpage_free_space free_start
insert-IsLaidOut p rec len (a, b, f) l =
    (ground (arith, a, b), ground (arith, a, b), λ i h n. ground (arith, a, b, f i))

-- An insertion succeeds just when the record and its slot fit between the slots and the records.
pub insert-ok_iff :
    (p : SlotPage) (rec : ℕ → ℕ) (len : ℕ)
    → IsLaidOut p
    → len + slot_size < u16_mod
    → (slotpage_insert p rec len).1 ≡ (
        if leb (header_size + p.num_slots * slot_size + slot_size + len) p.free_end
        then some p.num_slots
        else none)
unfolding IsLaidOut slotpage_insert slotpage_free_space free_start
insert-ok_iff p rec len (a, b, f) l = ground (arith, a, b)

-- Whether an insertion succeeds or not, every slot that could be read still reads the same bytes.
pub insert-kept :
    (p : SlotPage) (rec : ℕ → ℕ) (len i k : ℕ) (s : Slot)
    → IsLaidOut p
    → len + slot_size < u16_mod
    → slotpage_get p i ≡ some s
    → k < s.length
    → (slotpage_get (slotpage_insert p rec len).0 i ≡ some s)
      × ((slotpage_insert p rec len).0.bytes (s.offset + k) ≡ p.bytes (s.offset + k))
unfolding IsLaidOut Fits slotpage_insert slotpage_free_space free_start slotpage_get copy_in
insert-kept p rec len i k s (a, b, f) l g q =
    (ground (arith, a, b, g, f i), ground (arith, a, b, g, f i, q))

-- A record of 65,532 bytes or more is longer than a page, and yet a page with 4 bytes of room
-- takes it: the length of the record with its slot wraps round to less than 4.
pub oversized_insert :
    (p : SlotPage) (rec : ℕ → ℕ) (len : ℕ)
    → IsLaidOut p
    → len < u16_mod
    → u16_mod ≤ len + slot_size
    → header_size + p.num_slots * slot_size + slot_size ≤ p.free_end
    → (slotpage_insert p rec len).1 ≡ some p.num_slots
unfolding IsLaidOut slotpage_insert slotpage_free_space free_start
oversized_insert p rec len (a, b, f) l o r = ground (arith, a, b)

-- A deletion keeps the layout.
pub delete-IsLaidOut :
    (p : SlotPage) (slot : ℕ) → IsLaidOut p → IsLaidOut (slotpage_delete p slot).0
unfolding IsLaidOut Fits slotpage_delete
delete-IsLaidOut p slot (a, b, f) =
    (ground (arith, a), ground (arith, b), λ i h n. ground (arith, a, b, f i))

-- An overwrite, whatever it answers, keeps every other slot's record as it was; the
-- records of the two slots do not overlap.
pub overwrite-kept :
    (p : SlotPage) (slot i k len : ℕ) (rec : ℕ → ℕ) (s t : Slot)
    → slotpage_get p slot ≡ some s
    → slotpage_get p i ≡ some t
    → k < t.length
    → (s.offset + s.length ≤ t.offset) ⊎ (t.offset + t.length ≤ s.offset)
    → (slotpage_get (slotpage_overwrite p slot rec len).0 i ≡ some t)
      × ((slotpage_overwrite p slot rec len).0.bytes (t.offset + k) ≡ p.bytes (t.offset + k))
unfolding slotpage_overwrite slotpage_get copy_in
overwrite-kept p slot i k len rec s t g h q apart = ground (arith, g, h, q, apart)

-- After a deletion, whatever it answers, the slot reads as missing and every other slot as before.
pub delete-get :
    (p : SlotPage) (slot i : ℕ)
    → slotpage_get (slotpage_delete p slot).0 i ≡ (if i == slot then none else slotpage_get p i)
unfolding slotpage_delete slotpage_get
delete-get p slot i = ground arith
