-- ===== src/Examples/Pages.antt =====
-- src/page.c: a page with one record.
use db_hobby.Base.{ℕ, ◌≡◌, refl, some, if◌then◌else◌, leb, arith}
use db_hobby.Page.{Slot, SlotPage, slotpage_insert, slotpage_get}
use db_hobby.Page.Layout.{IsLaidOut, Fits, oversized_insert}

abbrev one_record : SlotPage
one_record = record {
  num_slots = 1;
  free_end = 4090;
  slots = λ i. record { offset = 4090; length = 6 };
  bytes = λ a. a;
}

abbrev one_slot : Slot
one_slot = record { offset = 4090; length = 6 }

abbrev two_records : SlotPage
two_records = record {
  num_slots = 2;
  free_end = 4085;
  slots = λ i. if leb i 0 then one_slot else record { offset = 4085; length = 5 };
  bytes = λ a. a;
}

abbrev zeros : ℕ → ℕ
zeros a = 0

one_record-IsLaidOut : IsLaidOut one_record
unfolding IsLaidOut Fits
one_record-IsLaidOut = (omega arith, omega arith, λ i h n. (omega arith, omega arith))

one_record-get : slotpage_get one_record 0 ≡ some one_slot
unfolding slotpage_get
one_record-get = refl

oversized_insert_example : (slotpage_insert one_record zeros 65533).1 ≡ some 1
oversized_insert_example =
    oversized_insert one_record zeros 65533 one_record-IsLaidOut (omega arith) (omega arith)
      (omega arith)

two_records-get0 : slotpage_get two_records 0 ≡ some one_slot
unfolding slotpage_get
two_records-get0 = refl

two_records-get1 : slotpage_get two_records 1 ≡ some (record { offset = 4085; length = 5 })
unfolding slotpage_get
two_records-get1 = refl
