-- ===== src/Wal/Room.antt =====
-- src/wal.c: a commit for which the device has room.
use db_hobby.Base.{
  ℕ, ◌+◌, ◌*◌, ◌<◌, ◌≤◌, ◌≡◌, refl, sym, ap, ◌∙◌, List, [], ◌∷◌, ◌++◌, Rc, ok, fail, length, ◌==◌,
  ltb, if◌then◌else◌, length-append, u64_mod, arith,
}
use db_hobby.Wal.{
  Wal, StagedPage, page_size, write_all, and_then, write_hdr, log_pages, le_bytes, rec_page,
  rec_commit, wal_commit, none_set, commit_apply, wal_checkpoint_bytes,
}
use db_hobby.Wal.Format.{commit_rec, page_rec, encode, encode_all, length-le_bytes}
use db_hobby.Wal.Writes.{wrote, next_number, page_recs, number_after, commit_bytes}
use db_hobby.Wal.Extend.{StagedFits}
use db_hobby.Wal.Overlay.{written, write_pages-disk}
use db_hobby.Wal.Commit.{applied, logged, wal_commit-none_set}
use mathlib.Core.List.{append_assoc, append-nil}

-- The bytes of after-images, and of a whole commit.
abbrev pub page_bytes : ℕ
page_bytes = 17 + page_size

pub length-page_recs :
    (lsn : ℕ) (st : List StagedPage)
    → StagedFits st
    → length (encode_all (page_recs lsn st)) ≡ length st * page_bytes
unfolding page_recs encode_all encode
length-page_recs lsn [] h = omega arith
length-page_recs lsn (s ∷ st) h = omega (
  arith,
  length-append (encode (page_rec s.page_id s.image lsn))
      (encode_all (page_recs (next_number lsn) st)),
  length-append (le_bytes 8 lsn) (le_bytes 8 s.page_id ++ s.image),
  length-append (le_bytes 8 s.page_id) s.image,
  length-le_bytes 8 lsn,
  length-le_bytes 8 s.page_id,
  h.1,
  length-page_recs (next_number lsn) st h.2,
)

pub length-commit_bytes :
    (lsn : ℕ) (st : List StagedPage)
    → StagedFits st
    → length (commit_bytes lsn st) ≡ length st * page_bytes + 9
unfolding encode
length-commit_bytes lsn st h = omega (
  arith,
  length-append (encode_all (page_recs lsn st)) (encode (commit_rec (number_after lsn st))),
  length-append (le_bytes 8 (number_after lsn st)) [],
  length-le_bytes 8 (number_after lsn st),
  length-page_recs lsn st h,
)

write_all-room :
    (w : Wal) (bs : List ℕ)
    → length w.log + length bs ≤ w.log_cap
    → write_all w bs ≡ (wrote w bs w.next_lsn, ok)
unfolding write_all
write_all-room w bs h = ground arith

checked :
    (w : Wal) (type : ℕ)
    → 0 < w.next_lsn
    → ◌≡◌ {A = Wal × Rc}
        (
          wrote w ((type ∷ []) ++ le_bytes 8 w.next_lsn) (next_number w.next_lsn),
          (if w.next_lsn == 0 then fail else ok),
        )
        (wrote w (type ∷ le_bytes 8 w.next_lsn) (next_number w.next_lsn), ok)
checked w type n = ground arith

write_hdr-room :
    (w : Wal) (type : ℕ)
    → length w.log + 9 ≤ w.log_cap
    → 0 < w.next_lsn
    → write_hdr w type ≡ (wrote w (type ∷ le_bytes 8 w.next_lsn) (next_number w.next_lsn), ok)
unfolding write_hdr and_then
write_hdr-room w type h n =
    let w1 = wrote w (type ∷ []) (next_number w.next_lsn) in
    rw (write_all-room (record w { next_lsn = next_number w.next_lsn }) (type ∷ []) (omega arith)) (
      rw
        (write_all-room w1 (le_bytes 8 w.next_lsn)
          (omega (arith, length-append w.log (type ∷ []), length-le_bytes 8 w.next_lsn)))
        (ap
            (λ l. (
              record w { log = l; next_lsn = next_number w.next_lsn },
              (if w.next_lsn == 0 then fail else ok),
            ))
            (append_assoc w.log (type ∷ []) (le_bytes 8 w.next_lsn))
          ∙ checked w type n))

record-room :
    (w : Wal) (type : ℕ) (a b : List ℕ) (next : Wal → Wal × Rc)
    → length w.log + (9 + length a + length b) ≤ w.log_cap
    → 0 < w.next_lsn
    → and_then
        (write_hdr w type)
        (λ w1. and_then (write_all w1 a) (λ w2. and_then (write_all w2 b) next))
      ≡ next (wrote w (type ∷ (le_bytes 8 w.next_lsn ++ (a ++ b))) (next_number w.next_lsn))
unfolding and_then
record-room w type a b next h n =
    let m = next_number w.next_lsn in
    let hd = type ∷ le_bytes 8 w.next_lsn in
    let w1 = wrote w hd m in
    let w2 = wrote w1 a m in
    let size1 = length-append w.log hd in
    let size2 = length-append w1.log a in
    let size = length-le_bytes 8 w.next_lsn in
    rw (write_hdr-room w type (omega arith) n) (
      rw (write_all-room w1 a (omega arith)) (
        rw (write_all-room w2 b (omega arith)) (
          ap (λ l. next (record w { log = l; next_lsn = m }))
            (append_assoc (w.log ++ hd) a b ∙ append_assoc w.log hd (a ++ b)))))

log_pages-room :
    (st : List StagedPage) (w : Wal)
    → StagedFits st
    → 0 < w.next_lsn
    → w.next_lsn + length st < u64_mod
    → length w.log + length st * page_bytes ≤ w.log_cap
    → log_pages w st
      ≡ (wrote w (encode_all (page_recs w.next_lsn st)) (number_after w.next_lsn st), ok)
unfolding log_pages page_recs number_after encode_all encode
log_pages-room [] w h n b r = rw (append-nil w.log) refl
log_pages-room (s ∷ st) w h n b r =
    let head = encode (page_rec s.page_id s.image w.next_lsn) in
    let w1 = wrote w head (next_number w.next_lsn) in
    let size = length-append w.log head in
    let one = length-append (le_bytes 8 w.next_lsn) (le_bytes 8 s.page_id ++ s.image) in
    let two = length-append (le_bytes 8 s.page_id) s.image in
    let image = h.1 in
    let le1 = length-le_bytes 8 w.next_lsn in
    let le2 = length-le_bytes 8 s.page_id in
    record-room w rec_page (le_bytes 8 s.page_id) s.image (λ w1. log_pages w1 st) (omega arith) n
    ∙ (log_pages-room st w1 h.2 (omega arith) (omega arith) (omega arith)
        ∙ ap (λ l. (record w { log = l; next_lsn = number_after (next_number w.next_lsn) st }, ok))
            (append_assoc w.log head (encode_all (page_recs (next_number w.next_lsn) st))))

number_after-above :
    (lsn : ℕ) (st : List StagedPage) → 0 < lsn → lsn + length st < u64_mod → 0 < number_after lsn st
unfolding number_after
number_after-above lsn [] n h = n
number_after-above lsn (s ∷ st) n h =
    number_after-above (next_number lsn) st (omega arith) (omega arith)

pub wal_commit-room :
    (w : Wal)
    → StagedFits w.staged
    → 0 < w.next_lsn
    → w.next_lsn + length w.staged < u64_mod
    → length w.log + (length w.staged * page_bytes + 9) ≤ w.log_cap
    → wal_commit none_set w ≡ applied (logged w)
unfolding and_then encode
wal_commit-room w h n b r =
    let ps = encode_all (page_recs w.next_lsn w.staged) in
    let m = number_after w.next_lsn w.staged in
    let w1 = wrote w ps m in
    let size = length-append w.log ps in
    let sum = length-page_recs w.next_lsn w.staged h in
    wal_commit-none_set w
    ∙ rw (log_pages-room w.staged w h n b (omega arith)) (
        rw (write_hdr-room w1 rec_commit (omega arith) (number_after-above w.next_lsn w.staged n b))
          (ap (λ l. applied (record w { log = l; next_lsn = next_number m }))
            (append_assoc w.log ps (rec_commit ∷ le_bytes 8 m)
              ∙ ap (λ l. w.log ++ (ps ++ rec_commit ∷ l)) (sym (append-nil (le_bytes 8 m))))))

-- A commit for which the device has room, whose log numbers are positive and do not wrap around, and
-- whose staged pages fit a record each, returns 0: every staged page is on the disk in its last
-- staged image and every other page as it was, nothing is left staged, and the log has grown by the
-- after-images and the marker, or is empty where that takes it past the checkpoint.
pub commit-returns :
    (w : Wal)
    → StagedFits w.staged
    → 0 < w.next_lsn
    → w.next_lsn + length w.staged < u64_mod
    → length w.log + (length w.staged * page_bytes + 9) ≤ w.log_cap
    → let (w1, rc) = wal_commit none_set w in
      (rc ≡ ok)
      × ((p : ℕ) → w1.data_file.disk p ≡ written w.staged p (w.data_file.disk p))
      × (w1.staged ≡ [])
      × (w1.log ≡ (
          if ltb wal_checkpoint_bytes (length (w.log ++ commit_bytes w.next_lsn w.staged))
          then []
          else w.log ++ commit_bytes w.next_lsn w.staged))
unfolding commit_apply
commit-returns w h n b r =
    rw (wal_commit-room w h n b r) (refl, λ p. write_pages-disk w.staged w.data_file p, refl, refl)
