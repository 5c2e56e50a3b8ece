-- ===== src/Wal/Steal.antt =====
-- src/wal.c: what `wal_begin` and `wal_steal` leave in the log, in the data file and in memory.
use db_hobby.Base.{
  ℕ, ◌<◌, ◌≤◌, ◌≡◌, inl, inr, refl, sym, ap, ◌∙◌, true, false, List, [], ◌∷◌, ◌++◌, Rc, ok, fail,
  none, some, length, ltb, Bool-cases, arith, u64_mod,
}
use db_hobby.Pager.{Image, Pager, pager_read}
use db_hobby.Wal.{
  Wal, page_size, and_then, write_hdr, write_all, steal_begin, steal_before, steal_undo,
  spilled_contains, spilled_add, rec_begin, rec_undo, le_bytes,
}
use db_hobby.Wal.Format.{LogRecord, page_rec, commit_rec, begin_rec, undo_rec, encode, encode_all}
use db_hobby.Wal.Undo.{undo_writes, base_of}
use db_hobby.Wal.Writes.{Wrote, wrote, next_number, Wrote-then, Wrote-write_hdr, Wrote-write_all}
use db_hobby.Wal.Commit.{and_then_assoc}
use db_hobby.Wal.Overlay.{written, is_written}

-- Records that a transaction in progress writes: a page count and before-images.
abbrev pub UndoOnly : List LogRecord → Type 0
UndoOnly [] = 0 ≤ 0
UndoOnly (page_rec pid image lsn ∷ us) = false ≡ true
UndoOnly (commit_rec lsn ∷ us) = false ≡ true
UndoOnly (begin_rec base lsn ∷ us) = (base < u64_mod) × UndoOnly us
UndoOnly (undo_rec pid before lsn ∷ us) =
    (pid < u64_mod) × (length before ≡ page_size) × UndoOnly us

-- A transaction that has stolen pages: its records us after the log rs, and the data file d from
-- which it began.
pub record Stealing (w : Wal) (rs us : List LogRecord) (d : Pager) : Type 0 where
  pub whole : w.log ≡ encode_all (rs ++ us)
  pub start : w.txn_log_start ≡ length (encode_all rs)
  pub base : w.base_pages ≡ d.num_pages
  pub range : w.base_pages < u64_mod
  pub grown : d.num_pages ≤ w.data_file.num_pages
  pub records : UndoOnly us
  pub unstolen : w.stole ≡ false → us ≡ []
  pub counted : w.stole ≡ true → base_of none us ≡ some w.base_pages
  pub images : (p : ℕ) → length (w.data_file.disk p) ≡ page_size
  pub remembered : (p : ℕ) → p < w.base_pages → spilled_contains w p ≡ is_written (undo_writes us) p
  pub restorable :
      (p : ℕ) → p < w.base_pages → written (undo_writes us) p (w.data_file.disk p) ≡ d.disk p

abbrev pub begun : Wal → Wal
begun w = record (wrote w (encode (begin_rec w.base_pages w.next_lsn)) (next_number w.next_lsn)) {
  stole = true;
}

abbrev pub mark_stole : Wal → Wal × Rc
mark_stole w = (record w { stole = true }, ok)

Wrote-begin :
    (w : Wal)
    → Wrote w
        (encode (begin_rec w.base_pages w.next_lsn))
        (next_number w.next_lsn)
        (and_then (write_hdr w rec_begin) (λ w1. write_all w1 (le_bytes 8 w1.base_pages)))
unfolding encode
Wrote-begin w =
    let n = next_number w.next_lsn in
    let hd = rec_begin ∷ le_bytes 8 w.next_lsn in
    Wrote-then w hd (le_bytes 8 w.base_pages) n n _ _ (Wrote-write_hdr w rec_begin)
      (Wrote-write_all (wrote w hd n) (le_bytes 8 w.base_pages))

-- A chain that succeeds has succeeded at each step.
pub then-ok :
    (r : Wal × Rc) (next : Wal → Wal × Rc) (w1 : Wal)
    → and_then r next ≡ (w1, ok)
    → (w : Wal) × (r ≡ (w, ok)) × (next w ≡ (w1, ok))
unfolding and_then
then-ok (w, ok) next w1 h = (w, refl, h)
then-ok (w, fail) next w1 h = absurd (cc h)

Wrote-ok :
    (w w1 : Wal) (bs : List ℕ) (n : ℕ) (r : Wal × Rc)
    → Wrote w bs n r
    → r ≡ (w1, ok)
    → w1 ≡ wrote w bs n
Wrote-ok w w1 bs n r (inl e) h = ap (λ (x : Wal × Rc). x.0) (sym h ∙ e)
Wrote-ok w w1 bs n r (inr (k, m, e)) h = absurd (cc (sym h ∙ e))

pub steal_begin-ok : (w w1 : Wal) → w.stole ≡ false → steal_begin w ≡ (w1, ok) → w1 ≡ begun w
unfolding steal_begin
steal_begin-ok w w1 e h =
    let t =
      then-ok (and_then (write_hdr w rec_begin) (λ v. write_all v (le_bytes 8 v.base_pages)))
        mark_stole w1
        (and_then_assoc (write_hdr w rec_begin) (λ v. write_all v (le_bytes 8 v.base_pages))
            mark_stole
          ∙ (ground (arith, e) ∙ h)) in
    sym (ap (λ (x : Wal × Rc). x.0) (t.2))
    ∙ ap (λ (v : Wal). record v { stole = true }) (Wrote-ok w (t.0) _ _ _ (Wrote-begin w) (t.1))

pub steal_begin-again : (w : Wal) → w.stole ≡ true → steal_begin w ≡ (w, ok)
unfolding steal_begin
steal_begin-again w e = ground arith

Wrote-before :
    (w : Wal) (q : ℕ) (before : Image)
    → Wrote w
        (encode (undo_rec q before w.next_lsn))
        (next_number w.next_lsn)
        (steal_before w q (some before))
unfolding steal_before encode
Wrote-before w q before =
    let n = next_number w.next_lsn in
    let hd = rec_undo ∷ le_bytes 8 w.next_lsn in
    let w1 = wrote w hd n in
    Wrote-then w hd (le_bytes 8 q ++ before) n n _ _ (Wrote-write_hdr w rec_undo) (
      Wrote-then w1 (le_bytes 8 q) before n n _ _ (Wrote-write_all w1 (le_bytes 8 q))
        (Wrote-write_all (wrote w1 (le_bytes 8 q) n) before))

-- The before-image of a page is in the log.
abbrev pub saved : Wal → ℕ → Wal
saved w q =
    spilled_add
      (wrote w (encode (undo_rec q (w.data_file.disk q) w.next_lsn)) (next_number w.next_lsn)) q

steal_before-ok :
    (w w1 : Wal) (q : ℕ)
    → steal_before w q (pager_read w.data_file q) ≡ (w1, ok)
    → w1 ≡ wrote w (encode (undo_rec q (w.data_file.disk q) w.next_lsn)) (next_number w.next_lsn)
unfolding pager_read steal_before
steal_before-ok w w1 q h = elim (Bool-cases (ltb q w.data_file.file_pages)) [
  | inl e ↦ Wrote-ok w w1 _ _ _ (Wrote-before w q (w.data_file.disk q)) (ground (arith, h))
  | inr e ↦ absurd (ground (arith, h))
]

pub steal_undo-saves :
    (w w1 : Wal) (q : ℕ)
    → spilled_contains w q ≡ false
    → ltb q w.base_pages ≡ true
    → steal_undo w q ≡ (w1, ok)
    → w1 ≡ saved w q
unfolding steal_undo
steal_undo-saves w w1 q s b h =
    let t =
      then-ok (steal_before w q (pager_read w.data_file q)) (λ v. (spilled_add v q, ok)) w1
        (ground (arith, h)) in
    sym (ap (λ (x : Wal × Rc). x.0) (t.2))
    ∙ ap (λ v. spilled_add v q) (steal_before-ok w (t.0) q (t.1))

pub steal_undo-new :
    (w w1 : Wal) (q : ℕ)
    → spilled_contains w q ≡ false
    → ltb q w.base_pages ≡ false
    → steal_undo w q ≡ (w1, ok)
    → w1 ≡ spilled_add w q
unfolding steal_undo and_then
steal_undo-new w w1 q s b h =
    let e : steal_undo w q ≡ (spilled_add w q, ok) = ground arith in
    ap (λ (x : Wal × Rc). x.0) (sym h ∙ e)

pub steal_undo-known :
    (w w1 : Wal) (q : ℕ) → spilled_contains w q ≡ true → steal_undo w q ≡ (w1, ok) → w1 ≡ w
unfolding steal_undo
steal_undo-known w w1 q s h =
    let e : steal_undo w q ≡ (w, ok) = ground arith in ap (λ (x : Wal × Rc). x.0) (sym h ∙ e)
