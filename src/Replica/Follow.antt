-- ===== src/Replica/Follow.antt =====
-- src/replica.c: a call of `replica_apply` on a log of whole records.
use db_hobby.Base.{
  ℕ, zero, suc, ◌+◌, ◌<◌, ◌≤◌, ◌≡◌, refl, ◌∙◌, List, [], ◌∷◌, ◌++◌, some, length, length-append,
  arith, u64_mod,
}
use db_hobby.Wal.{
  page_size, wal_max_staged, rec_page, rec_commit, rec_begin, rec_undo, le_bytes, read_exact,
}
use db_hobby.Wal.Format.{
  LogRecord, page_rec, commit_rec, begin_rec, undo_rec, encode, encode_all, from_le-le_bytes,
  read_exact-append, read_exact-le, read_type, from_le-byte,
}
use db_hobby.Wal.Redo.{staged_page, LogFits, rounds}
use db_hobby.Replica.{
  Tail, go_on, tail_image, tail_page, tail_skip, tail_undo, tail_commit, tail_record, tail_round,
  tail_loop,
}
use mathlib.Core.List.{append_assoc}
use mathlib.Core.Path.{subst}

-- Commits numbered from above n, in increasing order.
abbrev pub Numbered : ℕ → List LogRecord → Type 0
Numbered n [] = 0 ≤ n
Numbered n (page_rec pid image lsn ∷ rs) = Numbered n rs
Numbered n (commit_rec lsn ∷ rs) = (n < lsn) × (lsn < u64_mod) × Numbered lsn rs
Numbered n (begin_rec base lsn ∷ rs) = Numbered n rs
Numbered n (undo_rec pid before lsn ∷ rs) = Numbered n rs

-- Commits numbered up to n.
abbrev pub Old : ℕ → List LogRecord → Type 0
Old n [] = 0 ≤ n
Old n (page_rec pid image lsn ∷ rs) = Old n rs
Old n (commit_rec lsn ∷ rs) = (lsn ≤ n) × (lsn < u64_mod) × Old n rs
Old n (begin_rec base lsn ∷ rs) = Old n rs
Old n (undo_rec pid before lsn ∷ rs) = Old n rs

-- The number of the last commit, and how many there are.
unfoldable pub last_lsn : ℕ → List LogRecord → ℕ
last_lsn n [] = n
last_lsn n (page_rec pid image lsn ∷ rs) = last_lsn n rs
last_lsn n (commit_rec lsn ∷ rs) = last_lsn lsn rs
last_lsn n (begin_rec base lsn ∷ rs) = last_lsn n rs
last_lsn n (undo_rec pid before lsn ∷ rs) = last_lsn n rs

unfoldable pub commit_count : List LogRecord → ℕ
commit_count [] = 0
commit_count (page_rec pid image lsn ∷ rs) = commit_count rs
commit_count (commit_rec lsn ∷ rs) = commit_count rs + 1
commit_count (begin_rec base lsn ∷ rs) = commit_count rs
commit_count (undo_rec pid before lsn ∷ rs) = commit_count rs

tail_round-type :
    (eof : ℕ) (s : Tail) (t lsn : ℕ) (rest : List ℕ)
    → tail_round eof s (read_exact (t ∷ (le_bytes 8 lsn ++ rest)) 1)
      ≡ tail_record eof s t (some (le_bytes 8 lsn, rest))
unfolding tail_round
tail_round-type eof s t lsn rest =
    cc (read_type t (le_bytes 8 lsn ++ rest), from_le-byte t, read_exact-le lsn rest)

tail_round-begin :
    (eof : ℕ) (s : Tail) (base lsn : ℕ) (rest : List ℕ)
    → tail_round eof s (read_exact (encode (begin_rec base lsn) ++ rest) 1)
      ≡ go_on (record s { file = rest })
unfolding encode tail_record tail_skip
tail_round-begin eof s base lsn rest = rw append_assoc (
    tail_round-type eof s rec_begin lsn (le_bytes 8 base ++ rest)
    ∙ rw (read_exact-le base rest) refl)

tail_round-undo :
    (eof : ℕ) (s : Tail) (pid lsn : ℕ) (before rest : List ℕ)
    → length before ≡ page_size
    → tail_round eof s (read_exact (encode (undo_rec pid before lsn) ++ rest) 1)
      ≡ go_on (record s { file = rest })
unfolding encode tail_record tail_undo tail_skip
tail_round-undo eof s pid lsn before rest h =
    rw (append_assoc, append_assoc)
      (tail_round-type eof s rec_undo lsn (le_bytes 8 pid ++ (before ++ rest))
        ∙ rw (read_exact-le pid (before ++ rest))
            (rw (read_exact-append before rest page_size h) refl))

tail_round-page :
    (eof : ℕ) (s : Tail) (pid lsn : ℕ) (image rest : List ℕ)
    → length s.pend < wal_max_staged
    → pid < u64_mod
    → length image ≡ page_size
    → tail_round eof s (read_exact (encode (page_rec pid image lsn) ++ rest) 1)
      ≡ go_on (record s { file = rest; pend = s.pend ++ staged_page pid image ∷ [] })
unfolding encode tail_record tail_page tail_image
tail_round-page eof s pid lsn image rest n b h =
    rw (append_assoc, append_assoc)
      (tail_round-type eof s rec_page lsn (le_bytes 8 pid ++ (image ++ rest))
        ∙ rw (read_exact-le pid (image ++ rest))
            (ground (arith, read_exact-append image rest page_size h, from_le-le_bytes pid b)))

tail_round-commit :
    (eof : ℕ) (s : Tail) (lsn : ℕ) (rest : List ℕ)
    → lsn < u64_mod
    → tail_round eof s (read_exact (encode (commit_rec lsn) ++ rest) 1)
      ≡ go_on (tail_commit eof s lsn rest)
unfolding encode tail_record
tail_round-commit eof s lsn rest b =
    rw append_assoc (tail_round-type eof s rec_commit lsn rest ∙ cc (from_le-le_bytes lsn b))

tail_loop-step :
    (eof f : ℕ) (s s1 : Tail)
    → tail_round eof s (read_exact s.file 1) ≡ go_on s1
    → tail_loop eof (suc f) s ≡ tail_loop eof f s1
unfolding tail_loop
tail_loop-step eof f s s1 h = rw (tail_loop, h) refl

pub tail_loop-end :
    (eof f : ℕ) (s : Tail) → s.file ≡ [] → tail_loop eof f s ≡ (s.replica, some s.applied)
unfolding tail_loop tail_round read_exact
tail_loop-end eof zero s h = refl
tail_loop-end eof (suc f) s h = rw (h, tail_loop) refl

-- Where the loop stands after the records, with the bytes t behind them.
unfoldable pub follow : ℕ → List ℕ → List LogRecord → Tail → Tail
follow eof t [] s = record s { file = t }
follow eof t (page_rec pid image lsn ∷ rs) s =
    follow eof t rs (record s { pend = s.pend ++ staged_page pid image ∷ [] })
follow eof t (commit_rec lsn ∷ rs) s = follow eof t rs (tail_commit eof s lsn (encode_all rs ++ t))
follow eof t (begin_rec base lsn ∷ rs) s = follow eof t rs s
follow eof t (undo_rec pid before lsn ∷ rs) s = follow eof t rs s

-- The numbers of the commits are in range.
abbrev pub InRange : List LogRecord → Type 0
InRange [] = 0 ≤ 0
InRange (page_rec pid image lsn ∷ rs) = InRange rs
InRange (commit_rec lsn ∷ rs) = (lsn < u64_mod) × InRange rs
InRange (begin_rec base lsn ∷ rs) = InRange rs
InRange (undo_rec pid before lsn ∷ rs) = InRange rs

abbrev pub tail_at : Tail → List ℕ → Tail
tail_at s file = record s { file = file }

follow-file :
    (eof : ℕ) (t : List ℕ) (rs : List LogRecord) (s : Tail) (file : List ℕ)
    → follow eof t rs (tail_at s file) ≡ follow eof t rs s
unfolding follow tail_commit
follow-file eof t [] s file = refl
follow-file eof t (page_rec pid image lsn ∷ rs) s file =
    follow-file eof t rs (record s { pend = s.pend ++ staged_page pid image ∷ [] }) file
follow-file eof t (commit_rec lsn ∷ rs) s file = refl
follow-file eof t (begin_rec base lsn ∷ rs) s file = follow-file eof t rs s file
follow-file eof t (undo_rec pid before lsn ∷ rs) s file = follow-file eof t rs s file

pub tail_loop-records :
    (rs : List LogRecord) (eof f : ℕ) (t : List ℕ) (s : Tail)
    → LogFits (length s.pend) rs
    → InRange rs
    → tail_loop eof (rounds rs f) (tail_at s (encode_all rs ++ t))
      ≡ tail_loop eof f (follow eof t rs s)
unfolding encode_all follow tail_commit
tail_loop-records [] eof f t s h n = refl
tail_loop-records (page_rec pid image lsn ∷ rs) eof f t s h n =
    let rest = encode_all rs ++ t in
    let s1 = record s { pend = s.pend ++ staged_page pid image ∷ [] } in
    rw (append_assoc (encode (page_rec pid image lsn)) (encode_all rs) t) (
      tail_loop-step eof (rounds rs f) _ (tail_at s1 rest)
        (tail_round-page eof _ pid lsn image rest h.0 h.1 h.2)
      ∙ tail_loop-records rs eof f t s1
          (subst (λ m. LogFits m rs)
            (omega (arith, length-append s.pend (staged_page pid image ∷ []))) h.3)
          n)
tail_loop-records (commit_rec lsn ∷ rs) eof f t s h n =
    let rest = encode_all rs ++ t in
    rw (append_assoc (encode (commit_rec lsn)) (encode_all rs) t) (
      tail_loop-step eof (rounds rs f) _ (tail_commit eof s lsn rest)
        (tail_round-commit eof _ lsn rest n.0)
      ∙ tail_loop-records rs eof f t (tail_commit eof s lsn rest) h n.1)
tail_loop-records (begin_rec base lsn ∷ rs) eof f t s h n =
    let rest = encode_all rs ++ t in
    rw (append_assoc (encode (begin_rec base lsn)) (encode_all rs) t) (
      tail_loop-step eof (rounds rs f) _ (tail_at s rest) (tail_round-begin eof _ base lsn rest)
      ∙ tail_loop-records rs eof f t s h.1 n)
tail_loop-records (undo_rec pid before lsn ∷ rs) eof f t s h n =
    let rest = encode_all rs ++ t in
    rw (append_assoc (encode (undo_rec pid before lsn)) (encode_all rs) t) (
      tail_loop-step eof (rounds rs f) _ (tail_at s rest)
        (tail_round-undo eof _ pid lsn before rest h.1)
      ∙ tail_loop-records rs eof f t s h.2 n)
