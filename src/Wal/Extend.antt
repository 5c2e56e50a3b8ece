-- ===== src/Wal/Extend.antt =====
-- src/wal.c: a log to which a transaction has added after-images.
use db_hobby.Base.{
  ℕ, suc, ◌+◌, ◌<◌, ◌≤◌, ◌≡◌, refl, sym, ap, ◌∙◌, List, [], ◌∷◌, ◌++◌, Option, some, length, arith,
  u64_mod,
}
use db_hobby.Wal.{StagedPage, page_size, wal_max_staged}
use db_hobby.Wal.Format.{LogRecord, page_rec, commit_rec, begin_rec, undo_rec, encode, encode_all}
use db_hobby.Wal.Redo.{committed, pending, loser, LogFits, staged_page}
use db_hobby.Wal.Undo.{undo_writes, base_of}
use db_hobby.Wal.Writes.{page_recs, next_number}
use mathlib.Core.List.{append_assoc, append-nil}

-- The staged pages are pages, with numbers in range.
abbrev pub StagedFits : List StagedPage → Type 0
StagedFits [] = 0 ≤ 0
StagedFits (s ∷ st) = (s.page_id < u64_mod) × (length s.image ≡ page_size) × StagedFits st

pub encode_all-append :
    (xs ys : List LogRecord) → encode_all (xs ++ ys) ≡ encode_all xs ++ encode_all ys
unfolding encode_all
encode_all-append [] ys = refl
encode_all-append (x ∷ xs) ys =
    ap (λ t. encode x ++ t) (encode_all-append xs ys)
    ∙ sym (append_assoc (encode x) (encode_all xs) (encode_all ys))

committed-pages :
    (pend : List StagedPage) (lsn : ℕ) (st : List StagedPage)
    → committed pend (page_recs lsn st) ≡ []
unfolding committed page_recs
committed-pages pend lsn [] = refl
committed-pages pend lsn (s ∷ st) =
    committed-pages (pend ++ staged_page s.page_id s.image ∷ []) (next_number lsn) st

pub committed-append_pages :
    (pend : List StagedPage) (rs : List LogRecord) (lsn : ℕ) (st : List StagedPage)
    → committed pend (rs ++ page_recs lsn st) ≡ committed pend rs
unfolding committed
committed-append_pages pend [] lsn st = committed-pages pend lsn st
committed-append_pages pend (page_rec pid image l ∷ rs) lsn st =
    committed-append_pages (pend ++ staged_page pid image ∷ []) rs lsn st
committed-append_pages pend (commit_rec l ∷ rs) lsn st =
    ap (λ t. pend ++ t) (committed-append_pages [] rs lsn st)
committed-append_pages pend (begin_rec base l ∷ rs) lsn st = committed-append_pages pend rs lsn st
committed-append_pages pend (undo_rec pid before l ∷ rs) lsn st =
    committed-append_pages pend rs lsn st

pending-pages :
    (pend : List StagedPage) (lsn : ℕ) (st : List StagedPage)
    → pending pend (page_recs lsn st) ≡ pend ++ st
unfolding pending page_recs
pending-pages pend lsn [] = sym (append-nil pend)
pending-pages pend lsn (s ∷ st) =
    pending-pages (pend ++ staged_page s.page_id s.image ∷ []) (next_number lsn) st
    ∙ append_assoc pend (staged_page s.page_id s.image ∷ []) st

pub pending-append_pages :
    (pend : List StagedPage) (rs : List LogRecord) (lsn : ℕ) (st : List StagedPage)
    → pending pend (rs ++ page_recs lsn st) ≡ pending pend rs ++ st
unfolding pending
pending-append_pages pend [] lsn st = pending-pages pend lsn st
pending-append_pages pend (page_rec pid image l ∷ rs) lsn st =
    pending-append_pages (pend ++ staged_page pid image ∷ []) rs lsn st
pending-append_pages pend (commit_rec l ∷ rs) lsn st = pending-append_pages [] rs lsn st
pending-append_pages pend (begin_rec base l ∷ rs) lsn st = pending-append_pages pend rs lsn st
pending-append_pages pend (undo_rec pid before l ∷ rs) lsn st = pending-append_pages pend rs lsn st

loser-pages : (l : List LogRecord) (lsn : ℕ) (st : List StagedPage) → loser l (page_recs lsn st) ≡ l
unfolding loser page_recs
loser-pages l lsn [] = refl
loser-pages l lsn (s ∷ st) = loser-pages l (next_number lsn) st

pub loser-append_pages :
    (l rs : List LogRecord) (lsn : ℕ) (st : List StagedPage)
    → loser (l ++ page_recs lsn st) (rs ++ page_recs lsn st) ≡ loser l rs ++ page_recs lsn st
unfolding loser
loser-append_pages l [] lsn st = loser-pages (l ++ page_recs lsn st) lsn st
loser-append_pages l (page_rec pid image n ∷ rs) lsn st = loser-append_pages l rs lsn st
loser-append_pages l (commit_rec n ∷ rs) lsn st = loser-append_pages rs rs lsn st
loser-append_pages l (begin_rec base n ∷ rs) lsn st = loser-append_pages l rs lsn st
loser-append_pages l (undo_rec pid before n ∷ rs) lsn st = loser-append_pages l rs lsn st

undo_writes-pages : (lsn : ℕ) (st : List StagedPage) → undo_writes (page_recs lsn st) ≡ []
unfolding undo_writes page_recs
undo_writes-pages lsn [] = refl
undo_writes-pages lsn (s ∷ st) = undo_writes-pages (next_number lsn) st

pub undo_writes-append_pages :
    (l : List LogRecord) (lsn : ℕ) (st : List StagedPage)
    → undo_writes (l ++ page_recs lsn st) ≡ undo_writes l
unfolding undo_writes
undo_writes-append_pages [] lsn st = undo_writes-pages lsn st
undo_writes-append_pages (page_rec pid image n ∷ l) lsn st = undo_writes-append_pages l lsn st
undo_writes-append_pages (commit_rec n ∷ l) lsn st = undo_writes-append_pages l lsn st
undo_writes-append_pages (begin_rec base n ∷ l) lsn st = undo_writes-append_pages l lsn st
undo_writes-append_pages (undo_rec pid before n ∷ l) lsn st =
    ap (λ t. staged_page pid before ∷ t) (undo_writes-append_pages l lsn st)

base_of-pages : (b : Option ℕ) (lsn : ℕ) (st : List StagedPage) → base_of b (page_recs lsn st) ≡ b
unfolding base_of page_recs
base_of-pages b lsn [] = refl
base_of-pages b lsn (s ∷ st) = base_of-pages b (next_number lsn) st

pub base_of-append_pages :
    (b : Option ℕ) (l : List LogRecord) (lsn : ℕ) (st : List StagedPage)
    → base_of b (l ++ page_recs lsn st) ≡ base_of b l
unfolding base_of
base_of-append_pages b [] lsn st = base_of-pages b lsn st
base_of-append_pages b (page_rec pid image n ∷ l) lsn st = base_of-append_pages b l lsn st
base_of-append_pages b (commit_rec n ∷ l) lsn st = base_of-append_pages b l lsn st
base_of-append_pages b (begin_rec base n ∷ l) lsn st = base_of-append_pages (some base) l lsn st
base_of-append_pages b (undo_rec pid before n ∷ l) lsn st = base_of-append_pages b l lsn st

LogFits-pages :
    (n lsn : ℕ) (st : List StagedPage)
    → StagedFits st
    → n + length st ≤ wal_max_staged
    → LogFits n (page_recs lsn st)
unfolding page_recs
LogFits-pages n lsn [] h b = omega arith
LogFits-pages n lsn (s ∷ st) h b =
    (omega arith, h.0, h.1, LogFits-pages (suc n) (next_number lsn) st h.2 (omega arith))

-- The pages that a log leaves pending, counted from n.
abbrev pub pending_count : ℕ → List LogRecord → ℕ
pending_count n [] = n
pending_count n (page_rec pid image lsn ∷ rs) = pending_count (suc n) rs
pending_count n (commit_rec lsn ∷ rs) = pending_count 0 rs
pending_count n (begin_rec base lsn ∷ rs) = pending_count n rs
pending_count n (undo_rec pid before lsn ∷ rs) = pending_count n rs

pub LogFits-append_pages :
    (n : ℕ) (rs : List LogRecord) (lsn : ℕ) (st : List StagedPage)
    → LogFits n rs
    → StagedFits st
    → pending_count n rs + length st ≤ wal_max_staged
    → LogFits n (rs ++ page_recs lsn st)
LogFits-append_pages n [] lsn st f h b = LogFits-pages n lsn st h b
LogFits-append_pages n (page_rec pid image l ∷ rs) lsn st f h b =
    (f.0, f.1, f.2, LogFits-append_pages (suc n) rs lsn st f.3 h b)
LogFits-append_pages n (commit_rec l ∷ rs) lsn st f h b = LogFits-append_pages 0 rs lsn st f h b
LogFits-append_pages n (begin_rec base l ∷ rs) lsn st f h b =
    (f.0, LogFits-append_pages n rs lsn st f.1 h b)
LogFits-append_pages n (undo_rec pid before l ∷ rs) lsn st f h b =
    (f.0, f.1, LogFits-append_pages n rs lsn st f.2 h b)
