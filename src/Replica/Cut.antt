-- ===== src/Replica/Cut.antt =====
-- src/replica.c: a record that is cut off at the end of the log ends the loop.
use db_hobby.Base.{
  ℕ, zero, suc, ◌+◌, ◌<◌, ◌≡◌, ◌⊎◌, refl, ap, ◌∙◌, List, [], ◌∷◌, some, length, drop, arith, inl,
  inr, length-drop,
}
use db_hobby.Wal.{page_size, wal_max_staged, rec_page, rec_commit, rec_begin, rec_undo, read_exact}
use db_hobby.Wal.Format.{read_type, from_le-byte, read_exact-short}
use db_hobby.Wal.Torn.{Torn, read_exact-cases}
use db_hobby.Replica.{
  Tail, stop, tail_image, tail_page, tail_skip, tail_undo, tail_record, tail_round, tail_loop,
}
use db_hobby.Replica.Follow.{tail_loop-end}

-- The bytes of a record that has lost its end.
abbrev pub CutOff : ℕ → List ℕ → Type 0
CutOff n t = Torn n t ⊎ ((x : List ℕ) × (t ≡ rec_commit ∷ x) × (length x < 8))

read_type_at :
    (b : ℕ) (x : List ℕ) (eof : ℕ) (s : Tail)
    → tail_round eof s (read_exact (b ∷ x) 1) ≡ tail_record eof s b (read_exact x 8)
unfolding tail_round
read_type_at b x eof s = cc (read_type b x, from_le-byte b)

record-page :
    (eof : ℕ) (s : Tail) (x : List ℕ)
    → length s.pend < wal_max_staged
    → length x < 16 + page_size
    → tail_record eof s rec_page (read_exact x 8) ≡ stop
unfolding tail_record tail_page tail_image
record-page eof s x m h = elim (read_exact-cases x 8) [
  | inl e ↦ rw e refl
  | inr (l, e) ↦ rw e (elim (read_exact-cases (drop 8 x) 8) [
    | inl g ↦ rw g refl
    | inr (l2, g) ↦ rw g (
        ground (
          arith,
          read_exact-short (drop 8 (drop 8 x)) page_size
              (omega (arith, length-drop 8 (drop 8 x), length-drop 8 x)),
        ))
  ])
]

record-begin :
    (eof : ℕ) (s : Tail) (x : List ℕ)
    → length x < 16
    → tail_record eof s rec_begin (read_exact x 8) ≡ stop
unfolding tail_record tail_skip
record-begin eof s x h = elim (read_exact-cases x 8) [
  | inl e ↦ rw e refl
  | inr (l, e) ↦ rw e (rw (read_exact-short (drop 8 x) 8 (omega (arith, length-drop 8 x))) refl)
]

record-undo :
    (eof : ℕ) (s : Tail) (x : List ℕ)
    → length x < 16 + page_size
    → tail_record eof s rec_undo (read_exact x 8) ≡ stop
unfolding tail_record tail_undo tail_skip
record-undo eof s x h = elim (read_exact-cases x 8) [
  | inl e ↦ rw e refl
  | inr (l, e) ↦ rw e (elim (read_exact-cases (drop 8 x) 8) [
    | inl g ↦ rw g refl
    | inr (l2, g) ↦ rw g (
        rw
          (read_exact-short (drop 8 (drop 8 x)) page_size
            (omega (arith, length-drop 8 (drop 8 x), length-drop 8 x)))
          refl)
  ])
]

round-at :
    (eof : ℕ) (s : Tail) (b : ℕ) (x : List ℕ) (type : ℕ)
    → s.file ≡ b ∷ x
    → b ≡ type
    → tail_round eof s (read_exact s.file 1) ≡ tail_record eof s type (read_exact x 8)
round-at eof s b x type e p =
    ap (λ file. tail_round eof s (read_exact file 1)) e
    ∙ (read_type_at b x eof s ∙ ap (λ t. tail_record eof s t (read_exact x 8)) p)

tail_loop-stop :
    (eof f : ℕ) (s : Tail)
    → tail_round eof s (read_exact s.file 1) ≡ stop
    → tail_loop eof f s ≡ (s.replica, some s.applied)
unfolding tail_loop
tail_loop-stop eof zero s h = refl
tail_loop-stop eof (suc f) s h = rw (tail_loop, h) refl

-- The loop ends at a record that is cut off.
pub tail_loop-cut :
    (eof f : ℕ) (s : Tail) (t : List ℕ)
    → s.file ≡ t
    → CutOff (length s.pend) t
    → tail_loop eof f s ≡ (s.replica, some s.applied)
unfolding tail_record
tail_loop-cut eof f s [] e h = tail_loop-end eof f s e
tail_loop-cut eof f s (b ∷ x) e (inl (inl (p, m, l))) =
    tail_loop-stop eof f s (round-at eof s b x rec_page e p ∙ record-page eof s x m l)
tail_loop-cut eof f s (b ∷ x) e (inl (inr (inl (p, l)))) =
    tail_loop-stop eof f s (round-at eof s b x rec_begin e p ∙ record-begin eof s x l)
tail_loop-cut eof f s (b ∷ x) e (inl (inr (inr (p, l)))) =
    tail_loop-stop eof f s (round-at eof s b x rec_undo e p ∙ record-undo eof s x l)
tail_loop-cut eof f s (b ∷ x) e (inr (y, p, l)) =
    tail_loop-stop eof f s
      (round-at eof s rec_commit y rec_commit (e ∙ p) refl ∙ rw (read_exact-short y 8 l) refl)
