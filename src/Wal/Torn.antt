-- ===== src/Wal/Torn.antt =====
-- src/wal.c: what recovery does with a record that a crash has cut off at the end of the log.
use db_hobby.Base.{
  ℕ, zero, suc, ◌+◌, ◌-◌, ◌<◌, ◌≤◌, ◌≡◌, ◌⊎◌, inl, inr, refl, ap, ◌∙◌, List, [], ◌∷◌, ◌++◌, none,
  some, length, take, drop, length-append, length-take, length-drop, arith,
}
use db_hobby.Wal.{
  page_size, wal_max_staged, rec_page, rec_begin, rec_undo, read_exact, skip_bytes, le_bytes,
}
use db_hobby.Wal.Recover.{RedoScan, redo_image, redo_page, redo_record, redo_step, redo_pass}
use db_hobby.Wal.Format.{
  page_rec, undo_rec, encode, length-le_bytes, read_exact-short, skip_bytes-short, read_type,
  from_le-byte,
}
use db_hobby.Wal.Redo.{redo_pass-stop, redo_pass-step}

-- The bytes of a record other than a commit that has lost its end. n pages are pending.
abbrev pub Torn : ℕ → List ℕ → Type 0
Torn n [] = 0 ≤ n
Torn n (b ∷ x) =
    ((b ≡ rec_page) × (n < wal_max_staged) × (length x < 16 + page_size))
    ⊎ ((b ≡ rec_begin) × (length x < 16))
    ⊎ ((b ≡ rec_undo) × (length x < 16 + page_size))

length-encode :
    (pid lsn : ℕ) (image : List ℕ)
    → length image ≡ page_size
    → length (le_bytes 8 lsn ++ (le_bytes 8 pid ++ image)) ≡ 16 + page_size
length-encode pid lsn image h = omega (
  arith,
  length-append (le_bytes 8 lsn) (le_bytes 8 pid ++ image),
  length-append (le_bytes 8 pid) image,
  length-le_bytes 8 lsn,
  length-le_bytes 8 pid,
)

pub Torn-page :
    (n k pid lsn : ℕ) (image : List ℕ)
    → n < wal_max_staged
    → length image ≡ page_size
    → k < 17 + page_size
    → Torn n (take k (encode (page_rec pid image lsn)))
unfolding encode
Torn-page n zero pid lsn image m h b = omega arith
Torn-page n (suc k) pid lsn image m h b = inl (
  refl,
  m,
  omega (
    arith,
    length-take k (le_bytes 8 lsn ++ (le_bytes 8 pid ++ image)),
    length-encode pid lsn image h,
  ),
)

pub Torn-undo :
    (n k pid lsn : ℕ) (before : List ℕ)
    → length before ≡ page_size
    → k < 17 + page_size
    → Torn n (take k (encode (undo_rec pid before lsn)))
unfolding encode
Torn-undo n zero pid lsn before h b = omega arith
Torn-undo n (suc k) pid lsn before h b = inr (
    inr (
      refl,
      omega (
        arith,
        length-take k (le_bytes 8 lsn ++ (le_bytes 8 pid ++ before)),
        length-encode pid lsn before h,
      ),
    ))

pub read_exact-cases :
    (x : List ℕ) (n : ℕ)
    → (read_exact x n ≡ none) ⊎ ((n ≤ length x) × (read_exact x n ≡ some (take n x, drop n x)))
unfolding read_exact
read_exact-cases x n = ground arith

redo_record-page :
    (s : RedoScan) (x : List ℕ)
    → length s.redo < wal_max_staged
    → length x < 8 + page_size
    → redo_record s rec_page x ≡ none
unfolding redo_record redo_page redo_image
redo_record-page s x m h = elim (read_exact-cases x 8) [
  | inl e ↦ rw e refl
  | inr (l, e) ↦
      rw e (ground (arith, read_exact-short (drop 8 x) page_size (omega (arith, length-drop 8 x))))
]

-- A scan that has nothing more to read.
pub redo_pass-empty : (f : ℕ) (s : RedoScan) → s.file ≡ [] → redo_pass f s ≡ s
unfolding redo_step read_exact
redo_pass-empty f s h = redo_pass-stop f s (rw h refl)

-- The record is passed over.
abbrev Passed : RedoScan → RedoScan → Type 0
Passed s s1 = (s1.target ≡ s.target) × (s1.loser ≡ s.loser)

redo_pass-past :
    (f : ℕ) (s : RedoScan)
    → redo_step s (read_exact s.file 1) ≡ some (record s { file = [] })
    → Passed s (redo_pass f s)
unfolding redo_pass
redo_pass-past zero s h = (refl, refl)
redo_pass-past (suc f) s h =
    rw
      (redo_pass-step f s (record s { file = [] }) h
        ∙ redo_pass-empty f (record s { file = [] }) refl)
      (refl, refl)

pub redo_step-cut :
    (s : RedoScan) (b : ℕ) (x : List ℕ)
    → redo_step s (read_exact (b ∷ x) 1) ≡ redo_record s b (skip_bytes x 8)
unfolding redo_step
redo_step-cut s b x = cc (read_type b x, from_le-byte b)

pub redo_step-at :
    (s : RedoScan) (b : ℕ) (x : List ℕ) (type : ℕ)
    → s.file ≡ b ∷ x
    → b ≡ type
    → redo_step s (read_exact s.file 1) ≡ redo_record s type (skip_bytes x 8)
redo_step-at s b x type e p =
    ap (λ file. redo_step s (read_exact file 1)) e
    ∙ (redo_step-cut s b x ∙ ap (λ t. redo_record s t (skip_bytes x 8)) p)

pub length-skip : (x : List ℕ) → length (skip_bytes x 8) ≡ length x - 8
unfolding skip_bytes
length-skip x = length-drop 8 x

redo_pass-Torn_at :
    (f : ℕ) (s : RedoScan) (t : List ℕ)
    → s.file ≡ t
    → Torn (length s.redo) t
    → Passed s (redo_pass f s)
unfolding redo_record
redo_pass-Torn_at f s [] e h = rw (redo_pass-empty f s e) (refl, refl)
redo_pass-Torn_at f s (b ∷ x) e (inl (p, m, l)) =
    rw
      (redo_pass-stop f s (
        redo_step-at s b x rec_page e p
        ∙ redo_record-page s (skip_bytes x 8) m (omega (arith, length-skip x))))
      (refl, refl)
redo_pass-Torn_at f s (b ∷ x) e (inr (inl (p, l))) = redo_pass-past f s (
    redo_step-at s b x rec_begin e p
    ∙ cc (skip_bytes-short (skip_bytes x 8) 8 (omega (arith, length-skip x))))
redo_pass-Torn_at f s (b ∷ x) e (inr (inr (p, l))) = redo_pass-past f s (
    redo_step-at s b x rec_undo e p
    ∙ cc (skip_bytes-short (skip_bytes x 8) (8 + page_size) (omega (arith, length-skip x))))

pub redo_pass-Torn : (f : ℕ) (s : RedoScan) → Torn (length s.redo) s.file → Passed s (redo_pass f s)
redo_pass-Torn f s h = redo_pass-Torn_at f s s.file refl h
