-- ===== src/Wal/Format.antt =====
-- src/wal.h: the records of the log as bytes, and how the readers take them apart.
use db_hobby.Base.{
  ℕ, zero, suc, ◌+◌, ◌/◌, ◌<◌, ◌≤◌, ◌≡◌, refl, sym, ap, List, [], ◌∷◌, ◌++◌, none, some, length,
  take, drop, length-append, u64_mod, arith,
}
use db_hobby.Pager.{Image}
use db_hobby.Wal.{
  page_size, rec_page, rec_commit, rec_begin, rec_undo, le_bytes, from_le, read_exact, skip_bytes,
}
use mathlib.Core.List.{append_assoc}

pub data LogRecord : Type 0 where
  page_rec : ℕ → Image → ℕ → LogRecord
  commit_rec : ℕ → LogRecord
  begin_rec : ℕ → ℕ → LogRecord
  undo_rec : ℕ → Image → ℕ → LogRecord

abbrev pub type_byte : LogRecord → ℕ
type_byte (page_rec pid image lsn) = rec_page
type_byte (commit_rec lsn) = rec_commit
type_byte (begin_rec base lsn) = rec_begin
type_byte (undo_rec pid before lsn) = rec_undo

abbrev pub lsn_of : LogRecord → ℕ
lsn_of (page_rec pid image lsn) = lsn
lsn_of (commit_rec lsn) = lsn
lsn_of (begin_rec base lsn) = lsn
lsn_of (undo_rec pid before lsn) = lsn

abbrev pub payload : LogRecord → List ℕ
payload (page_rec pid image lsn) = le_bytes 8 pid ++ image
payload (commit_rec lsn) = []
payload (begin_rec base lsn) = le_bytes 8 base
payload (undo_rec pid before lsn) = le_bytes 8 pid ++ before

unfoldable pub encode : LogRecord → List ℕ
encode r = type_byte r ∷ (le_bytes 8 (lsn_of r) ++ payload r)

unfoldable pub encode_all : List LogRecord → List ℕ
encode_all [] = []
encode_all (r ∷ rs) = encode r ++ encode_all rs

-- The numbers are in the range of a uint64_t and the images are pages.
abbrev pub InFormat : LogRecord → Type 0
InFormat (page_rec pid image lsn) = (pid < u64_mod) × (length image ≡ page_size)
InFormat (commit_rec lsn) = 0 ≤ lsn
InFormat (begin_rec base lsn) = base < u64_mod
InFormat (undo_rec pid before lsn) = (pid < u64_mod) × (length before ≡ page_size)

pub length-le_bytes : (k n : ℕ) → length (le_bytes k n) ≡ k
unfolding le_bytes
length-le_bytes zero n = refl
length-le_bytes (suc k) n = ap suc (length-le_bytes k (n / 256))

-- What is left of a number after its lowest byte fits the bytes that are left.
abbrev Fits : ℕ → ℕ → Type 0
Fits zero n = n ≡ 0
Fits (suc k) n = Fits k (n / 256)

from_le-Fits : (k n : ℕ) → Fits k n → from_le (le_bytes k n) ≡ n
unfolding le_bytes from_le
from_le-Fits zero n h = omega arith
from_le-Fits (suc k) n h = omega (arith, from_le-Fits k (n / 256) h)

pub from_le-le_bytes : (n : ℕ) → n < u64_mod → from_le (le_bytes 8 n) ≡ n
from_le-le_bytes n h = from_le-Fits 8 n (omega arith)

pub take-append {ℓ} : {A : Type ℓ} (xs ys : List A) → take (length xs) (xs ++ ys) ≡ xs
take-append [] ys = refl
take-append (x ∷ xs) ys = ap (λ t. x ∷ t) (take-append xs ys)

pub drop-append {ℓ} : {A : Type ℓ} (xs ys : List A) → drop (length xs) (xs ++ ys) ≡ ys
drop-append [] ys = refl
drop-append (x ∷ xs) ys = drop-append xs ys

pub drop-all {ℓ} : {A : Type ℓ} (n : ℕ) (xs : List A) → length xs ≤ n → drop n xs ≡ []
drop-all zero [] h = refl
drop-all zero (x ∷ xs) h = absurd (omega arith)
drop-all (suc n) [] h = refl
drop-all (suc n) (x ∷ xs) h = drop-all n xs (omega arith)

pub read_exact-append :
    (a rest : List ℕ) (n : ℕ) → length a ≡ n → read_exact (a ++ rest) n ≡ some (a, rest)
unfolding read_exact
read_exact-append a rest n h =
    rw (sym h) (ground (arith, length-append a rest, take-append a rest, drop-append a rest))

pub read_exact-short : (file : List ℕ) (n : ℕ) → length file < n → read_exact file n ≡ none
unfolding read_exact
read_exact-short file n h = ground arith

pub skip_bytes-append : (a rest : List ℕ) (n : ℕ) → length a ≡ n → skip_bytes (a ++ rest) n ≡ rest
unfolding skip_bytes
skip_bytes-append a rest n h = rw (sym h) (drop-append a rest)

pub skip_bytes-short : (file : List ℕ) (n : ℕ) → length file ≤ n → skip_bytes file n ≡ []
unfolding skip_bytes
skip_bytes-short file n h = drop-all n file h

-- An integer at the front of the file.
pub read_exact-le :
    (n : ℕ) (rest : List ℕ) → read_exact (le_bytes 8 n ++ rest) 8 ≡ some (le_bytes 8 n, rest)
read_exact-le n rest = read_exact-append (le_bytes 8 n) rest 8 (length-le_bytes 8 n)

pub skip_bytes-le : (n : ℕ) (rest : List ℕ) → skip_bytes (le_bytes 8 n ++ rest) 8 ≡ rest
skip_bytes-le n rest = skip_bytes-append (le_bytes 8 n) rest 8 (length-le_bytes 8 n)

-- An integer and an image, passed over together.
pub skip_bytes-page :
    (n : ℕ) (image rest : List ℕ)
    → length image ≡ page_size
    → skip_bytes (le_bytes 8 n ++ (image ++ rest)) (8 + page_size) ≡ rest
skip_bytes-page n image rest h = rw (sym (append_assoc (le_bytes 8 n) image rest)) (
    skip_bytes-append (le_bytes 8 n ++ image) rest (8 + page_size)
      (omega (arith, length-append (le_bytes 8 n) image, length-le_bytes 8 n)))

-- The type is read and the sequence number passed over.
pub read_type : (t : ℕ) (rest : List ℕ) → read_exact (t ∷ rest) 1 ≡ some (t ∷ [], rest)
read_type t rest = read_exact-append (t ∷ []) rest 1 refl

pub from_le-byte : (t : ℕ) → from_le (t ∷ []) ≡ t
unfolding from_le
from_le-byte t = omega arith
