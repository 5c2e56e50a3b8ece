-- ===== src/Wal/Writes.antt =====
-- src/wal.c: what the writers append to the log, also when the device runs full.
use db_hobby.Base.{
  ℕ, zero, suc, ◌+◌, ◌-◌, ◌%◌, ◌≡◌, ◌⊎◌, inl, inr, refl, sym, ap, ◌∙◌, Bool, true, false,
  Bool-cases, List, [], ◌∷◌, ◌++◌, Rc, ok, fail, length, take, leb, ◌==◌, if◌then◌else◌, u64_mod,
  arith,
}
use db_hobby.Wal.{
  Wal, StagedPage, write_all, and_then, write_hdr, log_pages, le_bytes, rec_page, rec_commit,
}
use db_hobby.Wal.Format.{LogRecord, page_rec, commit_rec, encode, encode_all}
use mathlib.Core.List.{append_assoc, append-nil}
use mathlib.Core.Path.{subst}

abbrev pub next_number : ℕ → ℕ
next_number lsn = (lsn + 1) % u64_mod

abbrev pub wrote : Wal → List ℕ → ℕ → Wal
wrote w bs n = record w { log = w.log ++ bs; next_lsn = n }

-- All of the bytes are appended, or the call fails after some of them.
abbrev pub Wrote : Wal → List ℕ → ℕ → Wal × Rc → Type 0
Wrote w bs n r =
    (r ≡ (wrote w bs n, ok)) ⊎ ((k : ℕ) × (m : ℕ) × (r ≡ (wrote w (take k bs) m, fail)))

pub take-append_more : (k : ℕ) (a b : List ℕ) → take (length a + k) (a ++ b) ≡ a ++ take k b
take-append_more k [] b =
    let e : length {A = ℕ} [] + k ≡ k = omega arith in ap (λ (n : ℕ). take n b) e
take-append_more k (x ∷ a) b =
    let e : length (x ∷ a) + k ≡ suc (length a + k) = omega arith in
    ap (λ (n : ℕ). take n ((x ∷ a) ++ b)) e ∙ ap (λ t. x ∷ t) (take-append_more k a b)

-- A part of the first list as a part of both.
abbrev part : ℕ → List ℕ → ℕ
part zero a = 0
part (suc k) [] = 0
part (suc k) (x ∷ a) = suc (part k a)

take-part : (k : ℕ) (a b : List ℕ) → take (part k a) (a ++ b) ≡ take k a
take-part zero a b = refl
take-part (suc k) [] b = refl
take-part (suc k) (x ∷ a) b = ap (λ t. x ∷ t) (take-part k a b)

pub Wrote-then :
    (w : Wal) (a b : List ℕ) (n n1 : ℕ) (r : Wal × Rc) (next : Wal → Wal × Rc)
    → Wrote w a n1 r
    → Wrote (wrote w a n1) b n (next (wrote w a n1))
    → Wrote w (a ++ b) n (and_then r next)
unfolding and_then
Wrote-then w a b n n1 r next (inl e) (inl g) =
    inl (rw (e) (g ∙ ap (λ l. (record w { log = l; next_lsn = n }, ok)) (append_assoc w.log a b)))
Wrote-then w a b n n1 r next (inl e) (inr (k, m, g)) = inr (
  length a + k,
  m,
  rw (e) (
      g
      ∙ ap (λ l. (record w { log = l; next_lsn = m }, fail))
          (append_assoc w.log a (take k b) ∙ ap (λ t. w.log ++ t) (sym (take-append_more k a b)))),
)
Wrote-then w a b n n1 r next (inr (k, m, e)) g =
    inr (part k a, m, rw (e) (ap (λ t. (wrote w t m, fail)) (sym (take-part k a b))))

pub Wrote-write_all : (w : Wal) (bs : List ℕ) → Wrote w bs w.next_lsn (write_all w bs)
unfolding write_all
Wrote-write_all w bs = elim (Bool-cases (leb (length w.log + length bs) w.log_cap)) [
  | inl e ↦ inl (rw e refl)
  | inr e ↦ inr (w.log_cap - length w.log, w.next_lsn, rw e refl)
]

take-length : (a : List ℕ) → take (length a) a ≡ a
take-length [] = refl
take-length (x ∷ a) = ap (λ t. x ∷ t) (take-length a)

-- A last step that tests the number it was given.
Wrote-check :
    (w : Wal) (bs : List ℕ) (n : ℕ) (r : Wal × Rc) (c : Bool)
    → Wrote w bs n r
    → Wrote w bs n (and_then r (λ w1. (w1, (if c then fail else ok))))
unfolding and_then
Wrote-check w bs n r true (inl e) =
    inr (length bs, n, rw (e) (ap (λ t. (wrote w t n, fail)) (sym (take-length bs))))
Wrote-check w bs n r false (inl e) = inl (rw (e) refl)
Wrote-check w bs n r c (inr (k, m, e)) = inr (k, m, rw (e) refl)

pub Wrote-write_hdr :
    (w : Wal) (type : ℕ)
    → Wrote w (type ∷ le_bytes 8 w.next_lsn) (next_number w.next_lsn) (write_hdr w type)
unfolding write_hdr
Wrote-write_hdr w type =
    let n = next_number w.next_lsn in
    Wrote-then w (type ∷ []) (le_bytes 8 w.next_lsn) n n _ _
      (Wrote-write_all (record w { next_lsn = n }) (type ∷ []))
      (Wrote-check (wrote w (type ∷ []) n) (le_bytes 8 w.next_lsn) n _ (w.next_lsn == 0)
        (Wrote-write_all (wrote w (type ∷ []) n) (le_bytes 8 w.next_lsn)))

-- The records of the staged pages, and the number after them.
unfoldable pub page_recs : ℕ → List StagedPage → List LogRecord
page_recs lsn [] = []
page_recs lsn (s ∷ rest) = page_rec s.page_id s.image lsn ∷ page_recs (next_number lsn) rest

unfoldable pub number_after : ℕ → List StagedPage → ℕ
number_after lsn [] = lsn
number_after lsn (s ∷ rest) = number_after (next_number lsn) rest

-- A record with a payload that is written in two calls.
pub Wrote-record :
    (w : Wal) (type : ℕ) (a b c : List ℕ) (n : ℕ) (next : Wal → Wal × Rc)
    → ((w1 : Wal) → w1.next_lsn ≡ next_number w.next_lsn → Wrote w1 c n (next w1))
    → Wrote w ((type ∷ (le_bytes 8 w.next_lsn ++ (a ++ b))) ++ c) n (
        and_then
          (write_hdr w type)
          (λ w1. and_then (write_all w1 a) (λ w2. and_then (write_all w2 b) next)))
Wrote-record w type a b c n next h =
    let m = next_number w.next_lsn in
    let hd = type ∷ le_bytes 8 w.next_lsn in
    let w1 = wrote w hd m in
    let w2 = wrote w1 a m in
    let w3 = wrote w2 b m in
    subst
      (λ bs. Wrote w bs n (
        and_then (write_hdr w type)
          (λ w1. and_then (write_all w1 a) (λ w2. and_then (write_all w2 b) next))))
      (rw (append_assoc, append_assoc) refl)
      (Wrote-then w hd (a ++ (b ++ c)) n m _ _ (Wrote-write_hdr w type) (
        Wrote-then w1 a (b ++ c) n m _ _ (Wrote-write_all w1 a)
          (Wrote-then w2 b c n m _ _ (Wrote-write_all w2 b) (h w3 refl))))

pub Wrote-log_pages :
    (staged : List StagedPage) (w : Wal)
    → Wrote w
        (encode_all (page_recs w.next_lsn staged))
        (number_after w.next_lsn staged)
        (log_pages w staged)
unfolding log_pages page_recs number_after encode_all encode
Wrote-log_pages [] w = inl (rw (append-nil w.log) refl)
Wrote-log_pages (s ∷ rest) w =
    Wrote-record w rec_page (le_bytes 8 s.page_id) s.image
      (encode_all (page_recs (next_number w.next_lsn) rest))
      (number_after (next_number w.next_lsn) rest) (λ w1. log_pages w1 rest)
      (λ w1 e. rw (sym e) (Wrote-log_pages rest w1))

-- The bytes that a commit appends.
abbrev pub commit_bytes : ℕ → List StagedPage → List ℕ
commit_bytes lsn staged =
    encode_all (page_recs lsn staged) ++ encode (commit_rec (number_after lsn staged))

pub Wrote-commit_bytes :
    (w : Wal)
    → Wrote w
        (commit_bytes w.next_lsn w.staged)
        (next_number (number_after w.next_lsn w.staged))
        (and_then (log_pages w w.staged) (λ w1. write_hdr w1 rec_commit))
unfolding encode
Wrote-commit_bytes w =
    let n = number_after w.next_lsn w.staged in
    let w1 = wrote w (encode_all (page_recs w.next_lsn w.staged)) n in
    Wrote-then w (encode_all (page_recs w.next_lsn w.staged)) (encode (commit_rec n))
      (next_number n) n _ _ (Wrote-log_pages w.staged w)
      (subst (λ bs. Wrote w1 bs (next_number n) (write_hdr w1 rec_commit))
        (sym (ap (λ t. rec_commit ∷ t) (append-nil (le_bytes 8 n))))
        (Wrote-write_hdr w1 rec_commit))
