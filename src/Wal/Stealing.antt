-- ===== src/Wal/Stealing.antt =====
-- src/wal.c: `wal_steal` keeps what a rollback needs.
use db_hobby.Base.{
  ℕ, ◌<◌, ◌≤◌, ◌≡◌, inl, inr, refl, sym, ap, ◌∙◌, true, false, ◌||◌, List, [], ◌∷◌, ◌++◌, Rc, ok,
  Option, none, some, length, ltb, any, ◌==◌, Bool-cases, arith, u64_mod,
}
use db_hobby.Pager.{Image, Pager, pager_write}
use db_hobby.Wal.{
  Wal, page_size, and_then, steal_begin, steal_undo, steal_write, wal_steal, wal_begin,
  spilled_contains, spilled_add,
}
use db_hobby.Wal.Format.{LogRecord, page_rec, commit_rec, begin_rec, undo_rec, encode, encode_all}
use db_hobby.Wal.Redo.{staged_page}
use db_hobby.Wal.Undo.{undo_writes, base_of}
use db_hobby.Wal.Extend.{encode_all-append}
use db_hobby.Wal.Overlay.{
  written, is_written, written-append, written-not, written-is, is_written-append,
}
use db_hobby.Wal.Steal.{
  UndoOnly, Stealing, begun, saved, then-ok, steal_begin-ok, steal_begin-again, steal_undo-saves,
  steal_undo-new, steal_undo-known,
}
use mathlib.Core.List.{append_assoc, append-nil}
use mathlib.Core.Path.{subst}

undo_writes-append :
    (us vs : List LogRecord) → undo_writes (us ++ vs) ≡ undo_writes us ++ undo_writes vs
unfolding undo_writes
undo_writes-append [] vs = refl
undo_writes-append (page_rec pid image lsn ∷ us) vs = undo_writes-append us vs
undo_writes-append (commit_rec lsn ∷ us) vs = undo_writes-append us vs
undo_writes-append (begin_rec base lsn ∷ us) vs = undo_writes-append us vs
undo_writes-append (undo_rec pid before lsn ∷ us) vs =
    ap (λ l. staged_page pid before ∷ l) (undo_writes-append us vs)

base_of-undo :
    (b : Option ℕ) (us : List LogRecord) (pid : ℕ) (before : Image) (lsn : ℕ)
    → base_of b (us ++ undo_rec pid before lsn ∷ []) ≡ base_of b us
unfolding base_of
base_of-undo b [] pid before lsn = refl
base_of-undo b (page_rec q image l ∷ us) pid before lsn = base_of-undo b us pid before lsn
base_of-undo b (commit_rec l ∷ us) pid before lsn = base_of-undo b us pid before lsn
base_of-undo b (begin_rec base l ∷ us) pid before lsn = base_of-undo (some base) us pid before lsn
base_of-undo b (undo_rec q image l ∷ us) pid before lsn = base_of-undo b us pid before lsn

UndoOnly-undo :
    (us : List LogRecord) (pid : ℕ) (before : Image) (lsn : ℕ)
    → UndoOnly us
    → pid < u64_mod
    → length before ≡ page_size
    → UndoOnly (us ++ undo_rec pid before lsn ∷ [])
UndoOnly-undo [] pid before lsn h b l = (b, l, omega arith)
UndoOnly-undo (page_rec q image n ∷ us) pid before lsn h b l = absurd (cc h)
UndoOnly-undo (commit_rec n ∷ us) pid before lsn h b l = absurd (cc h)
UndoOnly-undo (begin_rec base n ∷ us) pid before lsn h b l =
    (h.0, UndoOnly-undo us pid before lsn h.1 b l)
UndoOnly-undo (undo_rec q image n ∷ us) pid before lsn h b l =
    (h.0, h.1, UndoOnly-undo us pid before lsn h.2 b l)

encode_all-end :
    (rs us : List LogRecord) (r : LogRecord)
    → encode_all (rs ++ us) ++ encode r ≡ encode_all (rs ++ (us ++ r ∷ []))
unfolding encode_all
encode_all-end rs us r =
    ap (λ b. encode_all (rs ++ us) ++ b) (sym (append-nil (encode r)))
    ∙ (sym (encode_all-append (rs ++ us) (r ∷ [])) ∙ ap encode_all (append_assoc rs us (r ∷ [])))

pub begun-Stealing :
    (w : Wal) (rs us : List LogRecord) (d : Pager)
    → Stealing w rs us d
    → w.stole ≡ false
    → Stealing (begun w) rs (begin_rec w.base_pages w.next_lsn ∷ []) d
unfolding undo_writes base_of spilled_contains
begun-Stealing w rs us d s e =
    let nil = s.unstolen e in
    record {
      whole =
          ap (λ l. l ++ encode (begin_rec w.base_pages w.next_lsn))
            (s.whole ∙ ap (λ l. encode_all (rs ++ l)) nil)
          ∙ encode_all-end rs [] (begin_rec w.base_pages w.next_lsn);
      start = s.start;
      base = s.base;
      range = s.range;
      grown = s.grown;
      records = (s.range, omega arith);
      unstolen = λ h. absurd (cc h);
      counted = λ h. refl;
      images = s.images;
      remembered = λ p b. s.remembered p b ∙ ap (λ l. is_written (undo_writes l) p) nil;
      restorable = λ p b.
          sym (ap (λ l. written (undo_writes l) p (w.data_file.disk p)) nil) ∙ s.restorable p b;
    }

any-append :
    (xs : List ℕ) (q p : ℕ) → any (λ x. x == p) (xs ++ q ∷ []) ≡ (any (λ x. x == p) xs || (p == q))
any-append [] q p = ground arith
any-append (x ∷ xs) q p = ground (arith, any-append xs q p)

spilled_add-contains :
    (w : Wal) (q p : ℕ) → spilled_contains (spilled_add w q) p ≡ (spilled_contains w p || (p == q))
unfolding spilled_contains spilled_add
spilled_add-contains w q p = any-append w.spilled q p

-- A page that has not been stolen is on the disk as it was when the transaction began.
untouched :
    (w : Wal) (rs us : List LogRecord) (d : Pager) (q : ℕ)
    → Stealing w rs us d
    → spilled_contains w q ≡ false
    → q < w.base_pages
    → w.data_file.disk q ≡ d.disk q
untouched w rs us d q s c b =
    sym (written-not (undo_writes us) q (w.data_file.disk q) (sym (s.remembered q b) ∙ c))
    ∙ s.restorable q b

saved-Stealing :
    (w : Wal) (rs us : List LogRecord) (d : Pager) (q : ℕ)
    → Stealing w rs us d
    → w.stole ≡ true
    → spilled_contains w q ≡ false
    → q < w.base_pages
    → Stealing (saved w q) rs (us ++ undo_rec q (w.data_file.disk q) w.next_lsn ∷ []) d
unfolding spilled_add undo_writes spilled_contains
saved-Stealing w rs us d q s t c b =
    let now = w.data_file.disk q in
    let r = undo_rec q now w.next_lsn in
    let more = undo_writes-append us (r ∷ []) in
    let range = s.range in
    record {
      whole = ap (λ l. l ++ encode r) s.whole ∙ encode_all-end rs us r;
      start = s.start;
      base = s.base;
      range = s.range;
      grown = s.grown;
      records = UndoOnly-undo us q now w.next_lsn s.records (omega arith) (s.images q);
      unstolen = λ h. absurd (cc (sym t ∙ h));
      counted = λ h. base_of-undo none us q now w.next_lsn ∙ s.counted t;
      images = s.images;
      remembered = λ p e.
          spilled_add-contains w q p
          ∙ (ap (λ x. x || (p == q)) (s.remembered p e)
              ∙ (ground arith
                  ∙ (sym (is_written-append (undo_writes us) (staged_page q now ∷ []) p)
                      ∙ ap (λ l. is_written l p) (sym more))));
      restorable = λ p e.
          ap (λ l. written l p (w.data_file.disk p)) more
          ∙ (written-append (undo_writes us) (staged_page q now ∷ []) p (w.data_file.disk p)
              ∙ elim (Bool-cases (p == q)) [
                | inl h ↦ rw h (untouched w rs us d q s c b ∙ ap d.disk (ground arith))
                | inr h ↦ rw h (s.restorable p e)
              ]);
    }

new-Stealing :
    (w : Wal) (rs us : List LogRecord) (d : Pager) (q : ℕ)
    → Stealing w rs us d
    → w.base_pages ≤ q
    → Stealing (spilled_add w q) rs us d
unfolding spilled_add
new-Stealing w rs us d q s b = record {
  whole = s.whole;
  start = s.start;
  base = s.base;
  range = s.range;
  grown = s.grown;
  records = s.records;
  unstolen = s.unstolen;
  counted = s.counted;
  images = s.images;
  remembered = λ p e. spilled_add-contains w q p ∙ (ground arith ∙ s.remembered p e);
  restorable = s.restorable;
}

-- A page is written when its before-image is in the log or it is a new one.
write-Stealing :
    (w : Wal) (rs us : List LogRecord) (d : Pager) (q : ℕ) (buf : Image)
    → Stealing w rs us d
    → (q < w.base_pages → spilled_contains w q ≡ true)
    → length buf ≡ page_size
    → Stealing (steal_write w q buf).0 rs us d
unfolding steal_write pager_write spilled_contains
write-Stealing w rs us d q buf s c l =
    let stolen : (p : ℕ) → p ≡ q → p < w.base_pages → is_written (undo_writes us) p ≡ true =
      λ p t e.
        sym (s.remembered p e)
        ∙ subst (λ x. spilled_contains w x ≡ true) (sym t) (c (omega arith)) in
    record {
      whole = s.whole;
      start = s.start;
      base = s.base;
      range = s.range;
      grown = s.grown;
      records = s.records;
      unstolen = s.unstolen;
      counted = s.counted;
      images = λ p. ground (arith, s.images p, l);
      remembered = s.remembered;
      restorable = λ p e. elim (Bool-cases (p == q)) [
        | inl t ↦ rw t (
            written-is (undo_writes us) p buf (w.data_file.disk p) (stolen p (ground arith) e)
            ∙ s.restorable p e)
        | inr t ↦ rw t (s.restorable p e)
      ];
    }

any-end : (xs : List ℕ) (q : ℕ) → any (λ x. x == q) (xs ++ q ∷ []) ≡ true
any-end [] q = ground arith
any-end (x ∷ xs) q = ground (arith, any-end xs q)

saved-contains : (w : Wal) (q : ℕ) → spilled_contains (saved w q) q ≡ true
unfolding spilled_contains spilled_add
saved-contains w q = any-end w.spilled q

steal_begin-Stealing :
    (w w1 : Wal) (rs us : List LogRecord) (d : Pager)
    → Stealing w rs us d
    → steal_begin w ≡ (w1, ok)
    → (us1 : List LogRecord) × Stealing w1 rs us1 d × (w1.stole ≡ true)
steal_begin-Stealing w w1 rs us d s h = elim (Bool-cases w.stole) [
  | inl e ↦
      let same : w1 ≡ w = ap (λ (r : Wal × Rc). r.0) (sym h ∙ steal_begin-again w e) in
      (us, rw same s, ap (λ (v : Wal). v.stole) same ∙ e)
  | inr e ↦
      let same = steal_begin-ok w w1 e h in
      (
        begin_rec w.base_pages w.next_lsn ∷ [],
        rw same (begun-Stealing w rs us d s e),
        ap (λ (v : Wal). v.stole) same,
      )
]

-- After the second step the page may be written.
abbrev MayWrite : Wal → ℕ → Type 0
MayWrite w q = q < w.base_pages → spilled_contains w q ≡ true

steal_undo-Stealing :
    (w w1 : Wal) (rs us : List LogRecord) (d : Pager) (q : ℕ)
    → Stealing w rs us d
    → w.stole ≡ true
    → steal_undo w q ≡ (w1, ok)
    → (us1 : List LogRecord) × Stealing w1 rs us1 d × MayWrite w1 q
unfolding spilled_add
steal_undo-Stealing w w1 rs us d q s t h = elim (Bool-cases (spilled_contains w q)) [
  | inl c ↦ let same = steal_undo-known w w1 q c h in (us, rw same s, rw same (λ e. c))
  | inr c ↦ elim (Bool-cases (ltb q w.base_pages)) [
    | inl b ↦
        let same = steal_undo-saves w w1 q c b h in
        (
          us ++ undo_rec q (w.data_file.disk q) w.next_lsn ∷ [],
          rw same (saved-Stealing w rs us d q s t c (ground arith)),
          rw same (λ e. saved-contains w q),
        )
    | inr b ↦
        let same = steal_undo-new w w1 q c b h in
        (
          us,
          rw same (new-Stealing w rs us d q s (ground arith)),
          rw same (λ e. absurd (ground arith)),
        )
  ]
]

-- A steal that returns 0 keeps what a rollback needs.
pub wal_steal-Stealing :
    (w w1 : Wal) (rs us : List LogRecord) (d : Pager) (q : ℕ) (buf : Image)
    → Stealing w rs us d
    → length buf ≡ page_size
    → wal_steal w q buf ≡ (w1, ok)
    → (us1 : List LogRecord) × Stealing w1 rs us1 d
unfolding wal_steal
wal_steal-Stealing w w1 rs us d q buf s l h =
    let a =
      then-ok (steal_begin w) (λ v. and_then (steal_undo v q) (λ x. steal_write x q buf)) w1 h in
    let b = then-ok (steal_undo (a.0) q) (λ x. steal_write x q buf) w1 (a.2) in
    let sa = steal_begin-Stealing w (a.0) rs us d s (a.1) in
    let sb = steal_undo-Stealing (a.0) (b.0) rs (sa.0) d q (sa.1) (sa.2) (b.1) in
    (
      sb.0,
      subst (λ (v : Wal). Stealing v rs (sb.0) d) (ap (λ (r : Wal × Rc). r.0) (b.2))
          (write-Stealing (b.0) rs (sb.0) d q buf (sb.1) (sb.2) l),
    )

-- A transaction that begins has stolen nothing.
pub wal_begin-Stealing :
    (w : Wal) (rs : List LogRecord)
    → w.log ≡ encode_all rs
    → w.data_file.num_pages < u64_mod
    → ((p : ℕ) → length (w.data_file.disk p) ≡ page_size)
    → Stealing (wal_begin w) rs [] w.data_file
unfolding wal_begin spilled_contains undo_writes
wal_begin-Stealing w rs e b l = record {
  whole = e ∙ ap encode_all (sym (append-nil rs));
  start = ap length e;
  base = refl;
  range = b;
  grown = omega arith;
  records = omega arith;
  unstolen = λ h. refl;
  counted = λ h. absurd (cc h);
  images = l;
  remembered = λ p h. refl;
  restorable = λ p h. refl;
}
