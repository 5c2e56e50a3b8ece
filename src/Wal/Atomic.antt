-- ===== src/Wal/Atomic.antt =====
-- src/wal.c: a crash at any byte of a commit's log records.
use db_hobby.Base.{
  ℕ, zero, suc, ◌+◌, ◌-◌, ◌<◌, ◌≤◌, ◌≡◌, inl, inr, refl, sym, ap, ◌∙◌, List, [], ◌∷◌, ◌++◌, length,
  take, false, Bool-cases, ltb, if◌then◌else◌, length-append, length-take, arith, none,
}
use db_hobby.Pager.{Pager}
use db_hobby.Wal.{Wal, StagedPage, wal_max_staged, page_size, write_pages, rec_commit, le_bytes}
use db_hobby.Wal.Recover.{wal_recover}
use db_hobby.Wal.Format.{
  LogRecord, page_rec, commit_rec, begin_rec, undo_rec, encode, encode_all, length-le_bytes,
}
use db_hobby.Wal.Redo.{pending, loser, LogFits, staged_page}
use db_hobby.Wal.Torn.{Torn, Torn-page}
use db_hobby.Wal.Replay.{redone, recovered, wal_recover-records}
use db_hobby.Wal.Marker.{wal_recover-marker}
use db_hobby.Wal.Writes.{page_recs, next_number, number_after, commit_bytes, take-append_more}
use db_hobby.Wal.Extend.{
  StagedFits, encode_all-append, committed-append_pages, pending-append_pages, loser-append_pages,
  undo_writes-append_pages, base_of-append_pages, pending_count, LogFits-append_pages,
}
use mathlib.Core.List.{append_assoc, append-nil}
use mathlib.Core.Path.{subst}

take-append_short : (k : ℕ) (a b : List ℕ) → k ≤ length a → take k (a ++ b) ≡ take k a
take-append_short zero a b h = refl
take-append_short (suc k) [] b h = absurd (omega arith)
take-append_short (suc k) (x ∷ a) b h = ap (λ t. x ∷ t) (take-append_short k a b (omega arith))

length-encode_page :
    (pid lsn : ℕ) (image : List ℕ)
    → length image ≡ page_size
    → length (encode (page_rec pid image lsn)) ≡ 17 + page_size
unfolding encode
length-encode_page pid lsn image h = omega (
  arith,
  length-append (le_bytes 8 lsn) (le_bytes 8 pid ++ image),
  length-append (le_bytes 8 pid) image,
  length-le_bytes 8 lsn,
  length-le_bytes 8 pid,
)

-- The whole records in the first k bytes, and the bytes of the next one.
abbrev Cut : ℕ → ℕ → List StagedPage → ℕ → Type 0
Cut m lsn st k =
    (j : ℕ) × (t : List ℕ) × (take k (encode_all (page_recs lsn st))
      ≡ encode_all (page_recs lsn (take j st)) ++ t)
    × Torn (m + length (take j st)) t
    × StagedFits (take j st)
    × (length (take j st) ≤ length st)

Cut-more :
    (m lsn : ℕ) (s : StagedPage) (st : List StagedPage) (k : ℕ)
    → StagedFits (s ∷ st)
    → 17 + page_size ≤ k
    → Cut (suc m) (next_number lsn) st (k - (17 + page_size))
    → Cut m lsn (s ∷ st) k
unfolding page_recs encode_all
Cut-more m lsn s st k h b (j, t, e, tn, f, l) =
    let head = encode (page_rec s.page_id s.image lsn) in
    let n : k ≡ length head + (k - (17 + page_size)) =
      omega (arith, length-encode_page s.page_id lsn s.image h.1) in
    (
      suc j,
      t,
      ap (λ (i : ℕ). take i (head ++ encode_all (page_recs (next_number lsn) st))) n
          ∙ (take-append_more (k - (17 + page_size)) head
                (encode_all (page_recs (next_number lsn) st))
              ∙ (ap (λ b. head ++ b) e
                  ∙ sym (
                      append_assoc head (encode_all (page_recs (next_number lsn) (take j st))) t))),
      subst (λ (i : ℕ). Torn i t) (omega arith) tn,
      (h.0, h.1, f),
      omega arith,
    )

Cut-pages :
    (m lsn : ℕ) (st : List StagedPage) (k : ℕ)
    → StagedFits st
    → m + length st ≤ wal_max_staged
    → Cut m lsn st k
unfolding page_recs encode_all
Cut-pages m lsn [] zero h b = (0, [], refl, omega arith, omega arith, omega arith)
Cut-pages m lsn [] (suc k) h b = (0, [], refl, omega arith, omega arith, omega arith)
Cut-pages m lsn (s ∷ st) k h b = elim (Bool-cases (ltb k (17 + page_size))) [
  | inl c ↦
      let head = encode (page_rec s.page_id s.image lsn) in
      (
        0,
        take k head,
        take-append_short k head (encode_all (page_recs (next_number lsn) st))
            (ground (arith, length-encode_page s.page_id lsn s.image h.1)),
        subst (λ (i : ℕ). Torn i (take k head)) (omega arith)
            (Torn-page m k s.page_id lsn s.image (omega arith) h.1 (ground arith)),
        omega arith,
        omega arith,
      )
  | inr c ↦
      Cut-more m lsn s st k h (ground arith)
        (Cut-pages (suc m) (next_number lsn) st (k - (17 + page_size)) h.2 (omega arith))
]

pending_count-length :
    (pend : List StagedPage) (rs : List LogRecord)
    → length (pending pend rs) ≡ pending_count (length pend) rs
unfolding pending
pending_count-length pend [] = refl
pending_count-length pend (page_rec pid image lsn ∷ rs) =
    pending_count-length (pend ++ staged_page pid image ∷ []) rs
    ∙ ap (λ (n : ℕ). pending_count n rs)
        (omega (arith, length-append pend (staged_page pid image ∷ [])))
pending_count-length pend (commit_rec lsn ∷ rs) = pending_count-length [] rs
pending_count-length pend (begin_rec base lsn ∷ rs) = pending_count-length pend rs
pending_count-length pend (undo_rec pid before lsn ∷ rs) = pending_count-length pend rs

-- Recovery passes over after-images that no marker follows.
recovered-append_pages :
    (rs : List LogRecord) (lsn : ℕ) (st : List StagedPage) (d : Pager)
    → recovered (rs ++ page_recs lsn st) d ≡ recovered rs d
recovered-append_pages rs lsn st d =
    rw
      (
        committed-append_pages [] rs lsn st,
        loser-append_pages rs rs lsn st,
        undo_writes-append_pages (loser rs rs) lsn st,
        base_of-append_pages none (loser rs rs) lsn st,
      )
      refl

-- The log holds whole records, none of its after-images waits for a marker, and the transaction has
-- staged no more pages than fit.
pub record Ready (w : Wal) (rs : List LogRecord) : Type 0 where
  pub whole : w.log ≡ encode_all rs
  pub fits : LogFits 0 rs
  pub settled : pending [] rs ≡ []
  pub staged_fits : StagedFits w.staged
  pub staged_few : length w.staged ≤ wal_max_staged

-- The after-images that a commit of w logs.
abbrev pub image_bytes : Wal → List ℕ
image_bytes w = encode_all (page_recs w.next_lsn w.staged)

pub settled_count : (rs : List LogRecord) → pending [] rs ≡ [] → pending_count 0 rs ≡ 0
settled_count rs h = omega (arith, pending_count-length [] rs, ap length h)

crash_before_marker :
    (w c : Wal) (rs : List LogRecord) (k : ℕ)
    → Ready w rs
    → c.log ≡ w.log ++ take k (image_bytes w)
    → (wal_recover false c).data_file ≡ recovered rs c.data_file
crash_before_marker w c rs k r e =
    let z = settled_count rs r.settled in
    let few = r.staged_few in
    let cut = Cut-pages 0 w.next_lsn w.staged k r.staged_fits (omega arith) in
    let st = take (cut.0) w.staged in
    let t = cut.1 in
    let ps = page_recs w.next_lsn st in
    let whole : c.log ≡ encode_all (rs ++ ps) ++ t =
      e
      ∙ (ap (λ l. l ++ take k (image_bytes w)) r.whole
          ∙ (ap (λ b. encode_all rs ++ b) (cut.2)
              ∙ (sym (append_assoc (encode_all rs) (encode_all ps) t)
                  ∙ ap (λ b. b ++ t) (sym (encode_all-append rs ps))))) in
    let few2 = cut.5 in
    let pend : pending [] (rs ++ ps) ≡ st =
      pending-append_pages [] rs w.next_lsn st ∙ ap (λ l. l ++ st) r.settled in
    ap (λ (v : Wal). v.data_file)
      (wal_recover-records c (rs ++ ps) t whole
        (LogFits-append_pages 0 rs w.next_lsn st r.fits (cut.4) (omega arith))
        (subst (λ (i : ℕ). Torn i t) (omega (arith, ap length pend)) (cut.3)))
    ∙ recovered-append_pages rs w.next_lsn st c.data_file

crash_at_marker :
    (w c : Wal) (rs : List LogRecord) (k : ℕ)
    → Ready w rs
    → c.log
      ≡ w.log
        ++ (image_bytes w ++ take (suc k) (encode (commit_rec (number_after w.next_lsn w.staged))))
    → (wal_recover false c).data_file ≡ write_pages w.staged (redone rs c.data_file)
unfolding encode
crash_at_marker w c rs k r e =
    let z = settled_count rs r.settled in
    let few = r.staged_few in
    let ps = page_recs w.next_lsn w.staged in
    let lsn = number_after w.next_lsn w.staged in
    let x = take k (le_bytes 8 lsn ++ []) in
    let whole : c.log ≡ encode_all (rs ++ ps) ++ rec_commit ∷ x =
      e
      ∙ (ap (λ l. l ++ (image_bytes w ++ rec_commit ∷ x)) r.whole
          ∙ (sym (append_assoc (encode_all rs) (encode_all ps) (rec_commit ∷ x))
              ∙ ap (λ b. b ++ rec_commit ∷ x) (sym (encode_all-append rs ps)))) in
    ap (λ (v : Wal). v.data_file)
      (wal_recover-marker c (rs ++ ps) x whole
        (LogFits-append_pages 0 rs w.next_lsn w.staged r.fits r.staged_fits (omega arith))
        (omega (
          arith,
          length-take k (le_bytes 8 lsn ++ []),
          length-append (le_bytes 8 lsn) [],
          length-le_bytes 8 lsn,
        )))
    ∙ rw
        (
          pending-append_pages [] rs w.next_lsn w.staged,
          r.settled,
          committed-append_pages [] rs w.next_lsn w.staged,
        )
        refl

take-append_past :
    (k : ℕ) (a b : List ℕ) → length a < k → take k (a ++ b) ≡ a ++ take (suc (k - length a - 1)) b
take-append_past k a b h =
    ap (λ (n : ℕ). take n (a ++ b)) (omega arith) ∙ take-append_more (suc (k - length a - 1)) a b

-- After a crash at any byte k of what a commit appends to the log, with the data file as it was,
-- recovery gives the data file that it would have given before the commit, unless a byte of the
-- commit marker is in the log; then it gives the logged segments and all the staged pages.
pub crash_atomic :
    (w c : Wal) (rs : List LogRecord) (k : ℕ)
    → Ready w rs
    → c.data_file ≡ w.data_file
    → c.log ≡ w.log ++ take k (commit_bytes w.next_lsn w.staged)
    → (wal_recover false c).data_file ≡ (
        if ltb (length (image_bytes w)) k
        then write_pages w.staged (redone rs w.data_file)
        else (wal_recover false w).data_file)
crash_atomic w c rs k r d e = elim (Bool-cases (ltb (length (image_bytes w)) k)) [
  | inl t ↦ rw t (
      crash_at_marker w c rs (k - length (image_bytes w) - 1) r (
        e
        ∙ ap (λ b. w.log ++ b)
            (take-append_past k (image_bytes w)
              (encode (commit_rec (number_after w.next_lsn w.staged))) (ground arith)))
      ∙ ap (λ (p : Pager). write_pages w.staged (redone rs p)) d)
  | inr t ↦ rw t (
      crash_before_marker w c rs k r (
        e
        ∙ ap (λ b. w.log ++ b)
            (take-append_short k (image_bytes w)
              (encode (commit_rec (number_after w.next_lsn w.staged))) (ground arith)))
      ∙ (ap (recovered rs) d ∙ sym (crash_before_marker w w rs 0 r (sym (append-nil w.log)))))
]
