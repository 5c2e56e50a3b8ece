-- ===== src/Lsm/Map.antt =====
-- src/lsm.c: the tree as a map from keys to values, as `lsm_get` shows it.
use db_hobby.Base.{
  ℕ, zero, suc, ◌+◌, ◌≤◌, ◌≡◌, inl, inr, refl, sym, ap, ◌∙◌, Bool, true, false, none, some,
  if◌then◌else◌, leb, ◌==◌, Bool-cases, arith, update,
}
use db_hobby.Lsm.{
  Entry, SsTable, Lsm, int64_zero, sst_get, sst_of, mem_upsert, lsm_add_sst, lsm_flush, maybe_flush,
  lsm_put, lsm_delete, live_value, decide, get_tables, lsm_get,
}
use db_hobby.Lsm.Bsearch.{Sorted, Finds}
use db_hobby.Lsm.Versions.{
  WrittenTable, Ordered, Finds-unique, sst_get-Finds, mem_find, mem_find-Finds, lsm_get-decide,
}
use db_hobby.Lsm.Upsert.{mem_upsert-Upserted}
use mathlib.Core.Path.{subst}

mem_upsert-Ordered :
    (l : Lsm) (key val : ℕ) (tomb : Bool) → Ordered l → Ordered (mem_upsert l key val tomb)
mem_upsert-Ordered l key val tomb o =
    let u = mem_upsert-Upserted l key val tomb o.memtable in
    record {
      memtable = u.sorted;
      tables = λ i h.
          subst (λ (ssts : ℕ → SsTable). WrittenTable (ssts i)) (sym u.tables)
            (o.tables i (omega (arith, u.table_count)));
    }

mem_upsert-get :
    (l : Lsm) (key val : ℕ) (tomb : Bool)
    → Ordered l
    → (k : ℕ)
    → lsm_get (mem_upsert l key val tomb) k ≡ (
        if k == key then live_value (record { key = key; val = val; tomb = tomb }) else lsm_get l k)
mem_upsert-get l key val tomb o k =
    let m = mem_upsert l key val tomb in
    let u = mem_upsert-Upserted l key val tomb o.memtable in
    let e : Entry = record { key = key; val = val; tomb = tomb } in
    elim (Bool-cases (k == key)) [
      | inl t ↦
          let same : k ≡ key = ground arith in
          rw t (
            lsm_get-decide m k
            ∙ ap (λ r. decide r (get_tables m.ssts m.nsst k))
                (Finds-unique m.mem m.mem_n k (mem_find m k) (some e) u.sorted
                  (mem_find-Finds m k u.sorted)
                  (subst (λ (x : ℕ). Finds m.mem m.mem_n x (some e)) (sym same) u.new)))
      | inr t ↦ rw t (
          lsm_get-decide m k
          ∙ (ap (λ r. decide r (get_tables m.ssts m.nsst k))
                (Finds-unique m.mem m.mem_n k (mem_find m k) (mem_find l k) u.sorted
                  (mem_find-Finds m k u.sorted)
                  (u.others k (mem_find l k) (ground arith) (mem_find-Finds l k o.memtable)))
              ∙ (ap (λ (ssts : ℕ → SsTable). decide (mem_find l k) (get_tables ssts m.nsst k))
                    u.tables
                  ∙ (ap (λ (n : ℕ). decide (mem_find l k) (get_tables l.ssts n k)) u.table_count
                      ∙ sym (lsm_get-decide l k)))))
    ]

get_tables-update :
    (ssts : ℕ → SsTable) (i n key : ℕ) (s : SsTable)
    → n ≤ i
    → get_tables (update ssts i s) n key ≡ get_tables ssts n key
unfolding get_tables
get_tables-update ssts i zero key s h = refl
get_tables-update ssts i (suc n) key s h =
    let same : update ssts i s n ≡ ssts n = ground arith in
    ap (λ x. decide (sst_get x key) (get_tables (update ssts i s) n key)) same
    ∙ ap (decide (sst_get (ssts n) key)) (get_tables-update ssts i n key s (omega arith))

sst_of-WrittenTable : (seq : ℕ) (a : ℕ → Entry) (n : ℕ) → Sorted a n → WrittenTable (sst_of seq a n)
unfolding sst_of
sst_of-WrittenTable seq a n s = record { sorted = s; least = λ h. refl; greatest = λ h. refl }

abbrev written : Lsm → SsTable
written l = sst_of l.next_seq l.mem l.mem_n

abbrev flushed : Lsm → Lsm
flushed l = record (lsm_add_sst (record l { next_seq = l.next_seq + 1 }) (written l)) { mem_n = 0 }

flushed-Ordered : (l : Lsm) → Ordered l → Ordered (flushed l)
unfolding lsm_add_sst
flushed-Ordered l o = record {
  memtable = λ i j h m. absurd (omega arith);
  tables = λ i h. elim (Bool-cases (i == l.nsst)) [
    | inl t ↦ rw t (sst_of-WrittenTable l.next_seq l.mem l.mem_n o.memtable)
    | inr t ↦ rw t (o.tables i (ground arith))
  ];
}

-- The table that was written finds what the memtable found.
written-Finds :
    (l : Lsm) (key : ℕ) → Sorted l.mem l.mem_n → Finds l.mem l.mem_n key (sst_get (written l) key)
unfolding sst_of
written-Finds l key s =
    sst_get-Finds (written l) key (sst_of-WrittenTable l.next_seq l.mem l.mem_n s)

flushed-get : (l : Lsm) (key : ℕ) → Ordered l → lsm_get (flushed l) key ≡ lsm_get l key
unfolding lsm_add_sst get_tables
flushed-get l key o =
    let f = flushed l in
    let fo = flushed-Ordered l o in
    let tables = update l.ssts l.nsst (written l) in
    let same : tables l.nsst ≡ written l = ground arith in
    let next : l.nsst + 1 ≡ suc l.nsst = omega arith in
    let found : sst_get (written l) key ≡ mem_find l key =
      Finds-unique l.mem l.mem_n key (sst_get (written l) key) (mem_find l key) o.memtable
        (written-Finds l key o.memtable) (mem_find-Finds l key o.memtable) in
    lsm_get-decide f key
    ∙ (ap (λ r. decide r (get_tables f.ssts f.nsst key))
          (Finds-unique f.mem 0 key (mem_find f key) none fo.memtable
            (mem_find-Finds f key fo.memtable) (λ j h. absurd (omega arith)))
        ∙ (ap (λ (n : ℕ). get_tables tables n key) next
            ∙ (ap (λ s. decide (sst_get s key) (get_tables tables l.nsst key)) same
                ∙ (ap (λ r. decide r (get_tables tables l.nsst key)) found
                    ∙ (ap (decide (mem_find l key))
                          (get_tables-update l.ssts l.nsst l.nsst key (written l) (omega arith))
                        ∙ sym (lsm_get-decide l key))))))

-- A flush, of an empty memtable or of a full one, keeps the order of the tree.
pub lsm_flush-Ordered : (l : Lsm) → Ordered l → Ordered (lsm_flush l)
unfolding lsm_flush
lsm_flush-Ordered l o = elim (Bool-cases (l.mem_n == 0)) [
  | inl t ↦ rw t o
  | inr t ↦ rw t (flushed-Ordered l o)
]

pub lsm_flush-get : (l : Lsm) (key : ℕ) → Ordered l → lsm_get (lsm_flush l) key ≡ lsm_get l key
unfolding lsm_flush
lsm_flush-get l key o = elim (Bool-cases (l.mem_n == 0)) [
  | inl t ↦ rw t refl
  | inr t ↦ rw t (flushed-get l key o)
]

maybe_flush-get : (l : Lsm) (key : ℕ) → Ordered l → lsm_get (maybe_flush l) key ≡ lsm_get l key
unfolding maybe_flush
maybe_flush-get l key o = elim (Bool-cases (leb l.threshold l.mem_n)) [
  | inl t ↦ rw t (lsm_flush-get l key o)
  | inr t ↦ rw t refl
]

maybe_flush-Ordered : (l : Lsm) → Ordered l → Ordered (maybe_flush l)
unfolding maybe_flush
maybe_flush-Ordered l o = elim (Bool-cases (leb l.threshold l.mem_n)) [
  | inl t ↦ rw t (lsm_flush-Ordered l o)
  | inr t ↦ rw t o
]

pub lsm_put-Ordered : (l : Lsm) (key val : ℕ) → Ordered l → Ordered (lsm_put l key val)
unfolding lsm_put
lsm_put-Ordered l key val o = maybe_flush-Ordered _ (mem_upsert-Ordered l key val false o)

pub lsm_delete-Ordered : (l : Lsm) (key : ℕ) → Ordered l → Ordered (lsm_delete l key)
unfolding lsm_delete
lsm_delete-Ordered l key o = maybe_flush-Ordered _ (mem_upsert-Ordered l key int64_zero true o)

pub lsm_put-get :
    (l : Lsm) (key val : ℕ)
    → Ordered l
    → (k : ℕ) → lsm_get (lsm_put l key val) k ≡ (if k == key then some val else lsm_get l k)
unfolding lsm_put live_value
lsm_put-get l key val o k =
    maybe_flush-get _ k (mem_upsert-Ordered l key val false o) ∙ mem_upsert-get l key val false o k

pub lsm_delete-get :
    (l : Lsm) (key : ℕ)
    → Ordered l
    → (k : ℕ) → lsm_get (lsm_delete l key) k ≡ (if k == key then none else lsm_get l k)
unfolding lsm_delete live_value
lsm_delete-get l key o k =
    maybe_flush-get _ k (mem_upsert-Ordered l key int64_zero true o)
    ∙ mem_upsert-get l key int64_zero true o k
