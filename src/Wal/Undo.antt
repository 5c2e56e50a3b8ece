-- ===== src/Wal/Undo.antt =====
-- src/wal.c: the loops that put before-images back, on a log that is given as records.
use db_hobby.Base.{
  ℕ, zero, suc, ◌+◌, ◌<◌, ◌≤◌, ◌≡◌, inl, inr, refl, ap, ◌∙◌, Bool, true, false, List, [], ◌∷◌, ◌++◌,
  Option, none, some, length, drop, length-drop, arith, u64_mod,
}
use db_hobby.Pager.{Pager, pager_write}
use db_hobby.Wal.{
  StagedPage, page_size, rec_page, rec_begin, rec_undo, read_exact, skip_bytes, le_bytes,
  write_pages,
}
use db_hobby.Wal.Recover.{
  UndoScan, undo_base, undo_image, undo_page, undo_record, undo_step, undo_pass,
}
use db_hobby.Wal.Format.{
  LogRecord, page_rec, commit_rec, begin_rec, undo_rec, encode, encode_all, from_le-le_bytes,
  read_exact-append, read_exact-short, skip_bytes-short, read_exact-le, skip_bytes-le,
  skip_bytes-page, read_type, from_le-byte,
}
use db_hobby.Wal.Redo.{staged_page, rounds}
use db_hobby.Wal.Torn.{Torn, length-skip, read_exact-cases}
use mathlib.Core.List.{append_assoc}

-- The before-images among the records, and the page count.
unfoldable pub undo_writes : List LogRecord → List StagedPage
undo_writes [] = []
undo_writes (page_rec pid image lsn ∷ rs) = undo_writes rs
undo_writes (commit_rec lsn ∷ rs) = undo_writes rs
undo_writes (begin_rec base lsn ∷ rs) = undo_writes rs
undo_writes (undo_rec pid before lsn ∷ rs) = staged_page pid before ∷ undo_writes rs

unfoldable pub base_of : Option ℕ → List LogRecord → Option ℕ
base_of b [] = b
base_of b (page_rec pid image lsn ∷ rs) = base_of b rs
base_of b (commit_rec lsn ∷ rs) = base_of b rs
base_of b (begin_rec base lsn ∷ rs) = base_of (some base) rs
base_of b (undo_rec pid before lsn ∷ rs) = base_of b rs

-- Records in the format that the loop passes over: it stops at a commit, and at a page unless it
-- skips pages.
abbrev pub UndoFits : Bool → List LogRecord → Type 0
UndoFits skip [] = 0 ≤ 0
UndoFits skip (page_rec pid image lsn ∷ rs) =
    (skip ≡ true) × (length image ≡ page_size) × UndoFits skip rs
UndoFits skip (commit_rec lsn ∷ rs) = false ≡ true
UndoFits skip (begin_rec base lsn ∷ rs) = (base < u64_mod) × UndoFits skip rs
UndoFits skip (undo_rec pid before lsn ∷ rs) =
    (pid < u64_mod) × (length before ≡ page_size) × UndoFits skip rs

undo_step-cut :
    (k : Bool) (s : UndoScan) (b : ℕ) (x : List ℕ)
    → undo_step k s (read_exact (b ∷ x) 1) ≡ undo_record k s b (skip_bytes x 8)
unfolding undo_step
undo_step-cut k s b x = cc (read_type b x, from_le-byte b)

undo_step-type :
    (k : Bool) (s : UndoScan) (t lsn : ℕ) (rest : List ℕ)
    → undo_step k s (read_exact (t ∷ (le_bytes 8 lsn ++ rest)) 1) ≡ undo_record k s t rest
undo_step-type k s t lsn rest =
    undo_step-cut k s t (le_bytes 8 lsn ++ rest) ∙ ap (undo_record k s t) (skip_bytes-le lsn rest)

undo_step-begin :
    (k : Bool) (s : UndoScan) (base lsn : ℕ) (rest : List ℕ)
    → base < u64_mod
    → undo_step k s (read_exact (encode (begin_rec base lsn) ++ rest) 1)
      ≡ some (record s { file = rest; base = some base })
unfolding encode undo_record undo_base
undo_step-begin k s base lsn rest b = rw append_assoc (
    undo_step-type k s rec_begin lsn (le_bytes 8 base ++ rest)
    ∙ rw (read_exact-le base rest) (cc (from_le-le_bytes base b)))

undo_step-undo :
    (k : Bool) (s : UndoScan) (pid lsn : ℕ) (before rest : List ℕ)
    → pid < u64_mod
    → length before ≡ page_size
    → undo_step k s (read_exact (encode (undo_rec pid before lsn) ++ rest) 1)
      ≡ some (record s { file = rest; target = pager_write s.target pid before; undone = true })
unfolding encode undo_record undo_page undo_image
undo_step-undo k s pid lsn before rest b h =
    rw (append_assoc, append_assoc)
      (undo_step-type k s rec_undo lsn (le_bytes 8 pid ++ (before ++ rest))
        ∙ rw (read_exact-le pid (before ++ rest))
            (rw (read_exact-append before rest page_size h, from_le-le_bytes pid b) refl))

undo_step-page :
    (s : UndoScan) (pid lsn : ℕ) (image rest : List ℕ)
    → length image ≡ page_size
    → undo_step true s (read_exact (encode (page_rec pid image lsn) ++ rest) 1)
      ≡ some (record s { file = rest })
unfolding encode undo_record
undo_step-page s pid lsn image rest h =
    rw (append_assoc, append_assoc)
      (undo_step-type true s rec_page lsn (le_bytes 8 pid ++ (image ++ rest))
        ∙ cc (skip_bytes-page pid image rest h))

undo_pass-step :
    (k : Bool) (f : ℕ) (s s1 : UndoScan)
    → undo_step k s (read_exact s.file 1) ≡ some s1
    → undo_pass false k (suc f) s ≡ undo_pass false k f s1
unfolding undo_pass
undo_pass-step k f s s1 h = rw (undo_pass, h) refl

undo_pass-stop :
    (k : Bool) (f : ℕ) (s : UndoScan)
    → undo_step k s (read_exact s.file 1) ≡ none
    → undo_pass false k f s ≡ s
unfolding undo_pass
undo_pass-stop k zero s h = refl
undo_pass-stop k (suc f) s h = rw (undo_pass, h) refl

abbrev pub any_undo : Bool → List LogRecord → Bool
any_undo u [] = u
any_undo u (page_rec pid image lsn ∷ rs) = any_undo u rs
any_undo u (commit_rec lsn ∷ rs) = any_undo u rs
any_undo u (begin_rec base lsn ∷ rs) = any_undo u rs
any_undo u (undo_rec pid before lsn ∷ rs) = any_undo true rs

abbrev pub undo_at : List ℕ → Option ℕ → Pager → Bool → UndoScan
undo_at file b d u = record { file = file; base = b; target = d; undone = u }

pub undo_pass-records :
    (k : Bool) (rs : List LogRecord) (f : ℕ) (t : List ℕ) (b : Option ℕ) (d : Pager) (u : Bool)
    → UndoFits k rs
    → undo_pass false k (rounds rs f) (undo_at (encode_all rs ++ t) b d u)
      ≡ undo_pass false k f
          (undo_at t (base_of b rs) (write_pages (undo_writes rs) d) (any_undo u rs))
unfolding encode_all undo_writes base_of write_pages
undo_pass-records k [] f t b d u h = refl
undo_pass-records k (page_rec pid image lsn ∷ rs) f t b d u h =
    rw (append_assoc (encode (page_rec pid image lsn)) (encode_all rs) t) (
      undo_pass-step k (rounds rs f) _ (undo_at (encode_all rs ++ t) b d u)
        (rw (h.0) (undo_step-page _ pid lsn image (encode_all rs ++ t) h.1))
      ∙ undo_pass-records k rs f t b d u h.2)
undo_pass-records k (commit_rec lsn ∷ rs) f t b d u h = absurd (cc h)
undo_pass-records k (begin_rec base lsn ∷ rs) f t b d u h =
    rw (append_assoc (encode (begin_rec base lsn)) (encode_all rs) t) (
      undo_pass-step k (rounds rs f) _ (undo_at (encode_all rs ++ t) (some base) d u)
        (undo_step-begin k _ base lsn (encode_all rs ++ t) h.0)
      ∙ undo_pass-records k rs f t (some base) d u h.1)
undo_pass-records k (undo_rec pid before lsn ∷ rs) f t b d u h =
    rw (append_assoc (encode (undo_rec pid before lsn)) (encode_all rs) t) (
      undo_pass-step k (rounds rs f) _
        (undo_at (encode_all rs ++ t) b (pager_write d pid before) true)
        (undo_step-undo k _ pid lsn before (encode_all rs ++ t) h.0 h.1)
      ∙ undo_pass-records k rs f t b (pager_write d pid before) true h.2)

-- The loop stops at a record that is cut off.
abbrev pub UndoKept : UndoScan → UndoScan → Type 0
UndoKept s s1 = (s1.target ≡ s.target) × (s1.base ≡ s.base)

pub undo_pass-empty : (k : Bool) (f : ℕ) (s : UndoScan) → s.file ≡ [] → undo_pass false k f s ≡ s
unfolding undo_step read_exact
undo_pass-empty k f s h = undo_pass-stop k f s (rw h refl)

undo_pass-past :
    (k : Bool) (f : ℕ) (s : UndoScan)
    → undo_step k s (read_exact s.file 1) ≡ some (record s { file = [] })
    → UndoKept s (undo_pass false k f s)
unfolding undo_pass
undo_pass-past k zero s h = (refl, refl)
undo_pass-past k (suc f) s h =
    rw
      (undo_pass-step k f s (record s { file = [] }) h
        ∙ undo_pass-empty k f (record s { file = [] }) refl)
      (refl, refl)

undo_step-at :
    (k : Bool) (s : UndoScan) (b : ℕ) (x : List ℕ) (type : ℕ)
    → s.file ≡ b ∷ x
    → b ≡ type
    → undo_step k s (read_exact s.file 1) ≡ undo_record k s type (skip_bytes x 8)
undo_step-at k s b x type e p =
    ap (λ file. undo_step k s (read_exact file 1)) e
    ∙ (undo_step-cut k s b x ∙ ap (λ t. undo_record k s t (skip_bytes x 8)) p)

undo_record-undo :
    (k : Bool) (s : UndoScan) (x : List ℕ)
    → length x < 8 + page_size
    → undo_record k s rec_undo x ≡ none
unfolding undo_record undo_page undo_image
undo_record-undo k s x h = elim (read_exact-cases x 8) [
  | inl e ↦ rw e refl
  | inr (l, e) ↦
      rw e (rw (read_exact-short (drop 8 x) page_size (omega (arith, length-drop 8 x))) refl)
]

undo_record-begin :
    (k : Bool) (s : UndoScan) (x : List ℕ) → length x < 8 → undo_record k s rec_begin x ≡ none
unfolding undo_record undo_base
undo_record-begin k s x h = rw (read_exact-short x 8 h) refl

undo_pass-Torn_page :
    (k : Bool) (f : ℕ) (s : UndoScan) (b : ℕ) (x : List ℕ)
    → s.file ≡ b ∷ x
    → b ≡ rec_page
    → length x < 16 + page_size
    → UndoKept s (undo_pass false k f s)
unfolding undo_record
undo_pass-Torn_page false f s b x e p l =
    rw (undo_pass-stop false f s (undo_step-at false s b x rec_page e p)) (refl, refl)
undo_pass-Torn_page true f s b x e p l = undo_pass-past true f s (
    undo_step-at true s b x rec_page e p
    ∙ cc (skip_bytes-short (skip_bytes x 8) (8 + page_size) (omega (arith, length-skip x))))

pub undo_pass-Torn :
    (k : Bool) (f n : ℕ) (s : UndoScan) (t : List ℕ)
    → s.file ≡ t
    → Torn n t
    → UndoKept s (undo_pass false k f s)
undo_pass-Torn k f n s [] e h = rw (undo_pass-empty k f s e) (refl, refl)
undo_pass-Torn k f n s (b ∷ x) e (inl (p, m, l)) = undo_pass-Torn_page k f s b x e p l
undo_pass-Torn k f n s (b ∷ x) e (inr (inl (p, l))) =
    rw
      (undo_pass-stop k f s (
        undo_step-at k s b x rec_begin e p
        ∙ undo_record-begin k s (skip_bytes x 8) (omega (arith, length-skip x))))
      (refl, refl)
undo_pass-Torn k f n s (b ∷ x) e (inr (inr (p, l))) =
    rw
      (undo_pass-stop k f s (
        undo_step-at k s b x rec_undo e p
        ∙ undo_record-undo k s (skip_bytes x 8) (omega (arith, length-skip x))))
      (refl, refl)
