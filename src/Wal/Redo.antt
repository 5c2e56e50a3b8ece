-- ===== src/Wal/Redo.antt =====
-- src/wal.c: the first pass of recovery, on a log that is given as records.
use db_hobby.Base.{
  ℕ, zero, suc, ◌<◌, ◌≤◌, ◌≡◌, refl, ◌∙◌, List, [], ◌∷◌, ◌++◌, none, some, length, length-append,
  arith, u64_mod,
}
use db_hobby.Pager.{Image, Pager, pager_write}
use db_hobby.Wal.{
  StagedPage, page_size, wal_max_staged, rec_page, rec_commit, rec_begin, rec_undo, le_bytes,
  read_exact, write_pages,
}
use db_hobby.Wal.Recover.{RedoScan, redo_image, redo_page, redo_record, redo_step, redo_pass}
use db_hobby.Wal.Format.{
  LogRecord, page_rec, commit_rec, begin_rec, undo_rec, encode, encode_all, from_le-le_bytes,
  read_exact-append, read_exact-le, skip_bytes-le, skip_bytes-page, read_type, from_le-byte,
}
use mathlib.Core.List.{append_assoc}
use mathlib.Core.Path.{subst}

abbrev pub staged_page : ℕ → Image → StagedPage
staged_page pid image = record { page_id = pid; image = image }

-- The after-images that recovery writes, in order, when `pend` are those of the segment it is in.
unfoldable pub committed : List StagedPage → List LogRecord → List StagedPage
committed pend [] = []
committed pend (page_rec pid image lsn ∷ rs) = committed (pend ++ staged_page pid image ∷ []) rs
committed pend (commit_rec lsn ∷ rs) = pend ++ committed [] rs
committed pend (begin_rec base lsn ∷ rs) = committed pend rs
committed pend (undo_rec pid before lsn ∷ rs) = committed pend rs

-- The after-images of the segment that the log ends in.
unfoldable pub pending : List StagedPage → List LogRecord → List StagedPage
pending pend [] = pend
pending pend (page_rec pid image lsn ∷ rs) = pending (pend ++ staged_page pid image ∷ []) rs
pending pend (commit_rec lsn ∷ rs) = pending [] rs
pending pend (begin_rec base lsn ∷ rs) = pending pend rs
pending pend (undo_rec pid before lsn ∷ rs) = pending pend rs

-- The records after the last commit.
unfoldable pub loser : List LogRecord → List LogRecord → List LogRecord
loser l [] = l
loser l (page_rec pid image lsn ∷ rs) = loser l rs
loser l (commit_rec lsn ∷ rs) = loser rs rs
loser l (begin_rec base lsn ∷ rs) = loser l rs
loser l (undo_rec pid before lsn ∷ rs) = loser l rs

-- Records in the format, with no more pages in a segment than a transaction stages.
abbrev pub LogFits : ℕ → List LogRecord → Type 0
LogFits n [] = n ≤ wal_max_staged
LogFits n (page_rec pid image lsn ∷ rs) =
    (n < wal_max_staged) × (pid < u64_mod) × (length image ≡ page_size) × LogFits (suc n) rs
LogFits n (commit_rec lsn ∷ rs) = LogFits 0 rs
LogFits n (begin_rec base lsn ∷ rs) = (base < u64_mod) × LogFits n rs
LogFits n (undo_rec pid before lsn ∷ rs) =
    (pid < u64_mod) × (length before ≡ page_size) × LogFits n rs

-- A position is in the log that is followed by the bytes t.
pub loser_bytes : List ℕ → List LogRecord → List ℕ → List ℕ
loser_bytes l [] t = l
loser_bytes l (page_rec pid image lsn ∷ rs) t = loser_bytes l rs t
loser_bytes l (commit_rec lsn ∷ rs) t = loser_bytes (encode_all rs ++ t) rs t
loser_bytes l (begin_rec base lsn ∷ rs) t = loser_bytes l rs t
loser_bytes l (undo_rec pid before lsn ∷ rs) t = loser_bytes l rs t

pub loser_bytes-loser :
    (l rs : List LogRecord) (t : List ℕ)
    → loser_bytes (encode_all l ++ t) rs t ≡ encode_all (loser l rs) ++ t
unfolding loser_bytes loser
loser_bytes-loser l [] t = refl
loser_bytes-loser l (page_rec pid image lsn ∷ rs) t = loser_bytes-loser l rs t
loser_bytes-loser l (commit_rec lsn ∷ rs) t = loser_bytes-loser rs rs t
loser_bytes-loser l (begin_rec base lsn ∷ rs) t = loser_bytes-loser l rs t
loser_bytes-loser l (undo_rec pid before lsn ∷ rs) t = loser_bytes-loser l rs t

-- The type and the sequence number at the front of the file are read.
redo_step-type :
    (s : RedoScan) (t lsn : ℕ) (rest : List ℕ)
    → redo_step s (read_exact (t ∷ (le_bytes 8 lsn ++ rest)) 1) ≡ redo_record s t rest
unfolding redo_step
redo_step-type s t lsn rest =
    cc (read_type t (le_bytes 8 lsn ++ rest), from_le-byte t, skip_bytes-le lsn rest)

redo_step-begin :
    (s : RedoScan) (base lsn : ℕ) (rest : List ℕ)
    → redo_step s (read_exact (encode (begin_rec base lsn) ++ rest) 1)
      ≡ some (record s { file = rest })
unfolding encode redo_record
redo_step-begin s base lsn rest =
    rw append_assoc
      (redo_step-type s rec_begin lsn (le_bytes 8 base ++ rest) ∙ cc (skip_bytes-le base rest))

redo_step-undo :
    (s : RedoScan) (pid lsn : ℕ) (before rest : List ℕ)
    → length before ≡ page_size
    → redo_step s (read_exact (encode (undo_rec pid before lsn) ++ rest) 1)
      ≡ some (record s { file = rest })
unfolding encode redo_record
redo_step-undo s pid lsn before rest h =
    rw (append_assoc, append_assoc)
      (redo_step-type s rec_undo lsn (le_bytes 8 pid ++ (before ++ rest))
        ∙ cc (skip_bytes-page pid before rest h))

redo_step-page :
    (s : RedoScan) (pid lsn : ℕ) (image rest : List ℕ)
    → length s.redo < wal_max_staged
    → pid < u64_mod
    → length image ≡ page_size
    → redo_step s (read_exact (encode (page_rec pid image lsn) ++ rest) 1)
      ≡ some (record s { file = rest; redo = s.redo ++ staged_page pid image ∷ [] })
unfolding encode redo_record redo_page redo_image
redo_step-page s pid lsn image rest n b h =
    rw (append_assoc, append_assoc)
      (redo_step-type s rec_page lsn (le_bytes 8 pid ++ (image ++ rest))
        ∙ rw (read_exact-le pid (image ++ rest))
            (ground (arith, read_exact-append image rest page_size h, from_le-le_bytes pid b)))

redo_step-commit :
    (s : RedoScan) (lsn : ℕ) (rest : List ℕ)
    → redo_step s (read_exact (encode (commit_rec lsn) ++ rest) 1)
      ≡ some (record { file = rest; redo = []; loser = rest; target = write_pages s.redo s.target })
unfolding encode redo_record
redo_step-commit s lsn rest = rw append_assoc (redo_step-type s rec_commit lsn rest)

pub redo_pass-step :
    (f : ℕ) (s s1 : RedoScan)
    → redo_step s (read_exact s.file 1) ≡ some s1
    → redo_pass (suc f) s ≡ redo_pass f s1
unfolding redo_pass
redo_pass-step f s s1 h = rw (redo_pass, h) refl

pub redo_pass-stop :
    (f : ℕ) (s : RedoScan) → redo_step s (read_exact s.file 1) ≡ none → redo_pass f s ≡ s
unfolding redo_pass
redo_pass-stop zero s h = refl
redo_pass-stop (suc f) s h = rw (redo_pass, h) refl

pub write_pages-append :
    (xs ys : List StagedPage) (p : Pager)
    → write_pages (xs ++ ys) p ≡ write_pages ys (write_pages xs p)
unfolding write_pages
write_pages-append [] ys p = refl
write_pages-append (x ∷ xs) ys p = write_pages-append xs ys (pager_write p x.page_id x.image)

-- Where the scan stands after the whole records.
abbrev pub after_records : List LogRecord → List ℕ → List ℕ → List StagedPage → Pager → RedoScan
after_records rs t l pend d = record {
  file = t;
  redo = pending pend rs;
  loser = loser_bytes l rs t;
  target = write_pages (committed pend rs) d;
}

abbrev pub before_records : List LogRecord → List ℕ → List ℕ → List StagedPage → Pager → RedoScan
before_records rs t l pend d = record {
  file = encode_all rs ++ t;
  redo = pend;
  loser = l;
  target = d;
}

-- Fuel for the records, and f more.
abbrev pub rounds : List LogRecord → ℕ → ℕ
rounds [] f = f
rounds (r ∷ rs) f = suc (rounds rs f)

-- The whole records are read, and the scan goes on with the bytes after them.
pub redo_pass-records :
    (rs : List LogRecord) (f : ℕ) (t l : List ℕ) (pend : List StagedPage) (d : Pager)
    → LogFits (length pend) rs
    → redo_pass (rounds rs f) (before_records rs t l pend d)
      ≡ redo_pass f (after_records rs t l pend d)
unfolding encode_all pending committed loser_bytes write_pages
redo_pass-records [] f t l pend d h = refl
redo_pass-records (page_rec pid image lsn ∷ rs) f t l pend d h =
    let pend1 = pend ++ staged_page pid image ∷ [] in
    rw (append_assoc (encode (page_rec pid image lsn)) (encode_all rs) t) (
      redo_pass-step (rounds rs f) _ (before_records rs t l pend1 d)
        (redo_step-page _ pid lsn image (encode_all rs ++ t) h.0 h.1 h.2)
      ∙ redo_pass-records rs f t l pend1 d (
          subst (λ n. LogFits n rs) (omega (arith, length-append pend (staged_page pid image ∷ [])))
            h.3))
redo_pass-records (commit_rec lsn ∷ rs) f t l pend d h =
    let rest = encode_all rs ++ t in
    rw
      (
        append_assoc (encode (commit_rec lsn)) (encode_all rs) t,
        write_pages-append pend (committed [] rs) d,
      )
      (redo_pass-step (rounds rs f) _ (before_records rs t rest [] (write_pages pend d))
          (redo_step-commit _ lsn rest)
        ∙ redo_pass-records rs f t rest [] (write_pages pend d) h)
redo_pass-records (begin_rec base lsn ∷ rs) f t l pend d h =
    rw (append_assoc (encode (begin_rec base lsn)) (encode_all rs) t) (
      redo_pass-step (rounds rs f) _ (before_records rs t l pend d)
        (redo_step-begin _ base lsn (encode_all rs ++ t))
      ∙ redo_pass-records rs f t l pend d h.1)
redo_pass-records (undo_rec pid before lsn ∷ rs) f t l pend d h =
    rw (append_assoc (encode (undo_rec pid before lsn)) (encode_all rs) t) (
      redo_pass-step (rounds rs f) _ (before_records rs t l pend d)
        (redo_step-undo _ pid lsn before (encode_all rs ++ t) h.1)
      ∙ redo_pass-records rs f t l pend d h.2)
