-- ===== src/Wal/Replay.antt =====
-- src/wal.c: what recovery makes of a whole log, with a record cut off at its end or none.
use db_hobby.Base.{
  ℕ, suc, ◌+◌, ◌-◌, ◌<◌, ◌≤◌, ◌≡◌, refl, sym, ap, ◌∙◌, Bool, true, false, List, [], ◌∷◌, ◌++◌, none,
  length, length-append, arith,
}
use db_hobby.Pager.{Pager}
use db_hobby.Wal.{Wal, write_pages}
use db_hobby.Wal.Recover.{
  RedoScan, UndoScan, redo_pass, undo_pass, cut_new, redo_start, undo_start, recover_end,
  wal_recover,
}
use db_hobby.Wal.Format.{LogRecord, page_rec, commit_rec, begin_rec, undo_rec, encode, encode_all}
use db_hobby.Wal.Redo.{
  committed, pending, loser, LogFits, rounds, redo_pass-records, after_records, before_records,
  loser_bytes-loser,
}
use db_hobby.Wal.Torn.{Torn, redo_pass-Torn}
use db_hobby.Wal.Undo.{
  undo_writes, base_of, UndoFits, undo_pass-records, undo_pass-Torn, any_undo, undo_at,
}
use mathlib.Core.Path.{subst}

rounds-length : (rs : List LogRecord) (f : ℕ) → rounds rs f ≡ length rs + f
rounds-length [] f = omega arith
rounds-length (r ∷ rs) f = omega (arith, rounds-length rs f)

pub length-encode_all : (rs : List LogRecord) → length rs ≤ length (encode_all rs)
unfolding encode_all encode
length-encode_all [] = omega arith
length-encode_all (r ∷ rs) =
    omega (arith, length-append (encode r) (encode_all rs), length-encode_all rs)

-- The length of the log is fuel enough for its records.
pub enough_rounds :
    (rs : List LogRecord) (t : List ℕ) (n : ℕ)
    → length (encode_all rs ++ t) < n
    → n ≡ rounds rs (n - length rs)
enough_rounds rs t n h =
    omega (
      arith,
      rounds-length rs (n - length rs),
      length-append (encode_all rs) t,
      length-encode_all rs,
    )

loser-UndoFits :
    (l rs : List LogRecord) (n : ℕ)
    → LogFits n rs
    → (UndoFits true rs → UndoFits true l)
    → UndoFits true (loser l rs)
unfolding loser
loser-UndoFits l [] n h g = g (omega arith)
loser-UndoFits l (page_rec pid image lsn ∷ rs) n h g =
    loser-UndoFits l rs (suc n) h.3 (λ u. g (refl, h.2, u))
loser-UndoFits l (commit_rec lsn ∷ rs) n h g = loser-UndoFits rs rs 0 h (λ u. u)
loser-UndoFits l (begin_rec base lsn ∷ rs) n h g = loser-UndoFits l rs n h.1 (λ u. g (h.0, u))
loser-UndoFits l (undo_rec pid before lsn ∷ rs) n h g =
    loser-UndoFits l rs n h.2 (λ u. g (h.0, h.1, u))

-- The data file after the first pass, and after both.
abbrev pub redone : List LogRecord → Pager → Pager
redone rs d = write_pages (committed [] rs) d

abbrev pub recovered : List LogRecord → Pager → Pager
recovered rs d =
    cut_new (base_of none (loser rs rs)) (write_pages (undo_writes (loser rs rs)) (redone rs d))

abbrev RedoDone : List LogRecord → List ℕ → Pager → RedoScan → Type 0
RedoDone rs t d s = (s.target ≡ redone rs d) × (s.loser ≡ encode_all (loser rs rs) ++ t)

redo_pass-done :
    (rs : List LogRecord) (t : List ℕ) (n : ℕ) (d : Pager)
    → LogFits 0 rs
    → Torn (length (pending [] rs)) t
    → length (encode_all rs ++ t) < n
    → RedoDone rs t d (redo_pass n (before_records rs t (encode_all rs ++ t) [] d))
redo_pass-done rs t n d h tn lt =
    let bytes = encode_all rs ++ t in
    let s = after_records rs t bytes [] d in
    let f = n - length rs in
    let e : redo_pass n (before_records rs t bytes [] d) ≡ redo_pass f s =
      ap (λ m. redo_pass m (before_records rs t bytes [] d)) (enough_rounds rs t n lt)
      ∙ redo_pass-records rs f t bytes [] d h in
    let kept = redo_pass-Torn f s tn in rw e (kept.0, kept.1 ∙ loser_bytes-loser rs rs t)

abbrev UndoDone : List LogRecord → Pager → UndoScan → Type 0
UndoDone l d u = (u.target ≡ write_pages (undo_writes l) d) × (u.base ≡ base_of none l)

pub undo_pass-done :
    (k : Bool) (l : List LogRecord) (t : List ℕ) (m n : ℕ) (d : Pager)
    → UndoFits k l
    → Torn m t
    → length (encode_all l ++ t) < n
    → UndoDone l d (undo_pass false k n (undo_start (encode_all l ++ t) d))
undo_pass-done k l t m n d h tn lt =
    let f = n - length l in
    let s = undo_at t (base_of none l) (write_pages (undo_writes l) d) (any_undo false l) in
    rw (enough_rounds l t n lt)
      (rw (undo_pass-records k l f t none d false h) (undo_pass-Torn k f m s t refl tn))

length-loser_step :
    (l : List LogRecord) (r : LogRecord) (rs : List LogRecord) (n : ℕ)
    → length (encode_all l) ≤ n
    → length (encode_all rs) ≤ n
    → length (encode_all (loser l rs)) ≤ n
    → length (encode_all (loser rs rs)) ≤ n
    → length (encode_all (loser l (r ∷ rs))) ≤ n
unfolding loser
length-loser_step l (page_rec pid image lsn) rs n h g a b = a
length-loser_step l (commit_rec lsn) rs n h g a b = b
length-loser_step l (begin_rec base lsn) rs n h g a b = a
length-loser_step l (undo_rec pid before lsn) rs n h g a b = a

length-loser :
    (l rs : List LogRecord) (n : ℕ)
    → length (encode_all l) ≤ n
    → length (encode_all rs) ≤ n
    → length (encode_all (loser l rs)) ≤ n
unfolding loser encode_all
length-loser l [] n h g = h
length-loser l (r ∷ rs) n h g =
    let shorter : length (encode_all rs) ≤ n =
      omega (arith, length-append (encode r) (encode_all rs)) in
    length-loser_step l r rs n h shorter (length-loser l rs n h shorter)
      (length-loser rs rs n shorter shorter)

redo_pass-log :
    (w : Wal) (rs : List LogRecord) (t : List ℕ)
    → w.log ≡ encode_all rs ++ t
    → LogFits 0 rs
    → Torn (length (pending [] rs)) t
    → RedoDone rs t w.data_file (redo_pass (length w.log + 1) (redo_start w))
redo_pass-log w rs t e h tn =
    subst
      (λ (log : List ℕ). RedoDone rs t w.data_file (
        redo_pass (length log + 1)
          (record { file = log; redo = []; loser = log; target = w.data_file })))
      (sym e) (redo_pass-done rs t (length (encode_all rs ++ t) + 1) w.data_file h tn (omega arith))

undo_pass-log :
    (w : Wal) (rs : List LogRecord) (t : List ℕ)
    → w.log ≡ encode_all rs ++ t
    → LogFits 0 rs
    → Torn (length (pending [] rs)) t
    → UndoDone (loser rs rs) (redone rs w.data_file) (
        undo_pass false true
          (length w.log + 1)
          (undo_start (encode_all (loser rs rs) ++ t) (redone rs w.data_file)))
undo_pass-log w rs t e h tn =
    undo_pass-done true (loser rs rs) t (length (pending [] rs)) (length w.log + 1)
      (redone rs w.data_file) (loser-UndoFits rs rs 0 h (λ u. u)) tn
      (omega (
        arith,
        ap length e,
        length-append (encode_all rs) t,
        length-append (encode_all (loser rs rs)) t,
        length-loser rs rs (length (encode_all rs)) (omega arith) (omega arith),
      ))

-- What recovery leaves: the committed segments written again, the open one undone, an empty log.
pub wal_recover-records :
    (w : Wal) (rs : List LogRecord) (t : List ℕ)
    → w.log ≡ encode_all rs ++ t
    → LogFits 0 rs
    → Torn (length (pending [] rs)) t
    → wal_recover false w ≡ record w { data_file = recovered rs w.data_file; log = [] }
unfolding wal_recover recover_end
wal_recover-records w rs t e h tn =
    let r = redo_pass-log w rs t e h tn in
    let u = undo_pass-log w rs t e h tn in rw (r.0, r.1) (rw (u.0, u.1) refl)
