-- ===== src/Replica/CatchUp.antt =====
-- src/replica.c: what a call of `replica_apply` applies, and what it leaves for the next.
use db_hobby.Base.{
  ℕ, ◌+◌, ◌-◌, ◌<◌, ◌≤◌, ◌≡◌, refl, sym, ap, ◌∙◌, true, false, List, [], ◌∷◌, ◌++◌, Option, some,
  ltb, length, drop, length-append, arith,
}
use db_hobby.Wal.{StagedPage, write_pages}
use db_hobby.Wal.Format.{
  LogRecord, page_rec, commit_rec, begin_rec, undo_rec, encode, encode_all, drop-append,
}
use db_hobby.Wal.Redo.{staged_page, LogFits, committed, pending, loser, write_pages-append}
use db_hobby.Wal.Replay.{enough_rounds}
use db_hobby.Replica.{WalReplica, Tail, tail_apply, tail_commit, tail_loop, rewind, replica_apply}
use db_hobby.Replica.Follow.{
  Numbered, Old, InRange, last_lsn, commit_count, follow, tail_at, tail_loop-records,
}
use db_hobby.Replica.Cut.{CutOff, tail_loop-cut}
use mathlib.Core.Path.{subst}

Numbered-InRange : (n : ℕ) (rs : List LogRecord) → Numbered n rs → InRange rs
Numbered-InRange n [] h = omega arith
Numbered-InRange n (page_rec pid image lsn ∷ rs) h = Numbered-InRange n rs h
Numbered-InRange n (commit_rec lsn ∷ rs) h = (h.1, Numbered-InRange lsn rs h.2)
Numbered-InRange n (begin_rec base lsn ∷ rs) h = Numbered-InRange n rs h
Numbered-InRange n (undo_rec pid before lsn ∷ rs) h = Numbered-InRange n rs h

Old-InRange : (n : ℕ) (rs : List LogRecord) → Old n rs → InRange rs
Old-InRange n [] h = omega arith
Old-InRange n (page_rec pid image lsn ∷ rs) h = Old-InRange n rs h
Old-InRange n (commit_rec lsn ∷ rs) h = (h.1, Old-InRange n rs h.2)
Old-InRange n (begin_rec base lsn ∷ rs) h = Old-InRange n rs h
Old-InRange n (undo_rec pid before lsn ∷ rs) h = Old-InRange n rs h

abbrev new_commit : ℕ → Tail → ℕ → List ℕ → Tail
new_commit eof s lsn rest = record {
  file = rest;
  pend = [];
  applied = s.applied + 1;
  replica = record (tail_apply s.replica s.pend lsn) { apply_off = eof - length rest };
}

abbrev old_commit : ℕ → Tail → List ℕ → Tail
old_commit eof s rest = record {
  file = rest;
  pend = [];
  applied = s.applied;
  replica = record s.replica { apply_off = eof - length rest };
}

lt→ltb : (a b : ℕ) → a < b → ltb a b ≡ true
lt→ltb a b h = ground arith

pub le→ltb : (a b : ℕ) → b ≤ a → ltb a b ≡ false
le→ltb a b h = ground arith

tail_commit-new :
    (eof : ℕ) (s : Tail) (lsn : ℕ) (rest : List ℕ)
    → s.replica.applied_lsn < lsn
    → tail_commit eof s lsn rest ≡ new_commit eof s lsn rest
unfolding tail_commit
tail_commit-new eof s lsn rest h = rw (lt→ltb s.replica.applied_lsn lsn h) refl

tail_commit-old :
    (eof : ℕ) (s : Tail) (lsn : ℕ) (rest : List ℕ)
    → lsn ≤ s.replica.applied_lsn
    → tail_commit eof s lsn rest ≡ old_commit eof s rest
unfolding tail_commit
tail_commit-old eof s lsn rest h = rw (le→ltb s.replica.applied_lsn lsn h) refl

-- What the loop has done after records with new numbers.
abbrev Followed : List LogRecord → Tail → Tail → Type 0
Followed rs s s1 =
    (s1.replica.data_file ≡ write_pages (committed s.pend rs) s.replica.data_file)
    × (s1.replica.applied_lsn ≡ last_lsn s.replica.applied_lsn rs)
    × (s1.applied ≡ s.applied + commit_count rs)
    × (s1.pend ≡ pending s.pend rs)

follow-new :
    (eof : ℕ) (t : List ℕ) (rs : List LogRecord) (s : Tail)
    → Numbered s.replica.applied_lsn rs
    → Followed rs s (follow eof t rs s)
unfolding follow tail_apply committed last_lsn commit_count pending write_pages
follow-new eof t [] s h = (refl, refl, omega arith, refl)
follow-new eof t (page_rec pid image lsn ∷ rs) s h =
    follow-new eof t rs (record s { pend = s.pend ++ staged_page pid image ∷ [] }) h
follow-new eof t (commit_rec lsn ∷ rs) s h =
    let s1 = new_commit eof s lsn (encode_all rs ++ t) in
    let f = follow-new eof t rs s1 h.2 in
    subst (λ x. Followed (commit_rec lsn ∷ rs) s (follow eof t rs x))
      (sym (tail_commit-new eof s lsn (encode_all rs ++ t) h.0))
      (
        f.0 ∙ sym (write_pages-append s.pend (committed [] rs) s.replica.data_file),
        f.1,
        f.2 ∙ omega arith,
        f.3,
      )
follow-new eof t (begin_rec base lsn ∷ rs) s h = follow-new eof t rs s h
follow-new eof t (undo_rec pid before lsn ∷ rs) s h = follow-new eof t rs s h

-- Records with old numbers are passed over.
abbrev Skipped : Tail → Tail → Type 0
Skipped s s1 =
    (s1.replica.data_file ≡ s.replica.data_file)
    × (s1.replica.applied_lsn ≡ s.replica.applied_lsn)
    × (s1.applied ≡ s.applied)

follow-Old :
    (eof : ℕ) (t : List ℕ) (rs : List LogRecord) (s : Tail)
    → Old s.replica.applied_lsn rs
    → Skipped s (follow eof t rs s)
unfolding follow
follow-Old eof t [] s h = (refl, refl, refl)
follow-Old eof t (page_rec pid image lsn ∷ rs) s h =
    follow-Old eof t rs (record s { pend = s.pend ++ staged_page pid image ∷ [] }) h
follow-Old eof t (commit_rec lsn ∷ rs) s h =
    subst (λ x. Skipped s (follow eof t rs x))
      (sym (tail_commit-old eof s lsn (encode_all rs ++ t) h.0))
      (follow-Old eof t rs (old_commit eof s (encode_all rs ++ t)) h.2)
follow-Old eof t (begin_rec base lsn ∷ rs) s h = follow-Old eof t rs s h
follow-Old eof t (undo_rec pid before lsn ∷ rs) s h = follow-Old eof t rs s h

shorter :
    (r : LogRecord) (rs : List LogRecord) (t : List ℕ) (n : ℕ)
    → length ((encode r ++ encode_all rs) ++ t) ≤ n
    → length (encode_all rs ++ t) ≤ n
shorter r rs t n h = omega (
  arith,
  length-append (encode r ++ encode_all rs) t,
  length-append (encode r) (encode_all rs),
  length-append (encode_all rs) t,
)

tail_commit-position :
    (eof : ℕ) (s : Tail) (lsn : ℕ) (rest : List ℕ)
    → length rest ≤ eof
    → (tail_commit eof s lsn rest).replica.apply_off + length rest ≡ eof
unfolding tail_commit
tail_commit-position eof s lsn rest h = omega arith

-- The position, counted from the end of the log.
follow-position :
    (eof : ℕ) (t : List ℕ) (l rs : List LogRecord) (s : Tail)
    → s.replica.apply_off + length (encode_all l ++ t) ≡ eof
    → length (encode_all rs ++ t) ≤ eof
    → (follow eof t rs s).replica.apply_off + length (encode_all (loser l rs) ++ t) ≡ eof
unfolding follow loser encode_all
follow-position eof t l [] s h b = h
follow-position eof t l (page_rec pid image lsn ∷ rs) s h b =
    follow-position eof t l rs (record s { pend = s.pend ++ staged_page pid image ∷ [] }) h
      (shorter (page_rec pid image lsn) rs t eof b)
follow-position eof t l (commit_rec lsn ∷ rs) s h b =
    let c = shorter (commit_rec lsn) rs t eof b in
    follow-position eof t rs rs (tail_commit eof s lsn (encode_all rs ++ t))
      (tail_commit-position eof s lsn (encode_all rs ++ t) c) c
follow-position eof t l (begin_rec base lsn ∷ rs) s h b =
    follow-position eof t l rs s h (shorter (begin_rec base lsn) rs t eof b)
follow-position eof t l (undo_rec pid before lsn ∷ rs) s h b =
    follow-position eof t l rs s h (shorter (undo_rec pid before lsn) rs t eof b)

follow-pend :
    (eof : ℕ) (t : List ℕ) (rs : List LogRecord) (s : Tail)
    → (follow eof t rs s).pend ≡ pending s.pend rs
unfolding follow pending tail_commit
follow-pend eof t [] s = refl
follow-pend eof t (page_rec pid image lsn ∷ rs) s =
    follow-pend eof t rs (record s { pend = s.pend ++ staged_page pid image ∷ [] })
follow-pend eof t (commit_rec lsn ∷ rs) s =
    follow-pend eof t rs (tail_commit eof s lsn (encode_all rs ++ t))
follow-pend eof t (begin_rec base lsn ∷ rs) s = follow-pend eof t rs s
follow-pend eof t (undo_rec pid before lsn ∷ rs) s = follow-pend eof t rs s

follow-left : (eof : ℕ) (t : List ℕ) (rs : List LogRecord) (s : Tail) → (follow eof t rs s).file ≡ t
unfolding follow
follow-left eof t [] s = refl
follow-left eof t (page_rec pid image lsn ∷ rs) s =
    follow-left eof t rs (record s { pend = s.pend ++ staged_page pid image ∷ [] })
follow-left eof t (commit_rec lsn ∷ rs) s =
    follow-left eof t rs (tail_commit eof s lsn (encode_all rs ++ t))
follow-left eof t (begin_rec base lsn ∷ rs) s = follow-left eof t rs s
follow-left eof t (undo_rec pid before lsn ∷ rs) s = follow-left eof t rs s

abbrev start_tail : WalReplica → Tail
start_tail r = record { file = []; pend = []; applied = 0; replica = r }

abbrev result_of : Tail → WalReplica × Option ℕ
result_of s = (s.replica, some s.applied)

rewind-not : (r : WalReplica) (log : List ℕ) → r.apply_off ≤ length log → rewind r log ≡ r
unfolding rewind
rewind-not r log h = rw (le→ltb (length log) r.apply_off h) refl

-- The replica has read the records `done` of the log and is to read rs, with a record cut off.
pub record HasRead (r : WalReplica) (log : List ℕ) (done rs : List LogRecord) (t : List ℕ)
    : Type 0 where
  pub whole : log ≡ encode_all done ++ (encode_all rs ++ t)
  pub position : r.apply_off ≡ length (encode_all done)
  pub fits : LogFits 0 rs
  pub cut : CutOff (length (pending [] rs)) t

replica_apply-loop :
    (r : WalReplica) (log : List ℕ) (done rs : List LogRecord) (t : List ℕ)
    → HasRead r log done rs t
    → InRange rs
    → replica_apply r log ≡ result_of (follow (length log) t rs (start_tail r))
unfolding replica_apply
replica_apply-loop r log done rs t h n =
    let eof = length log in
    let s = start_tail r in
    let s1 = follow eof t rs s in
    let f = eof + 1 - length rs in
    let sizes : eof ≡ length (encode_all done) + length (encode_all rs ++ t) =
      ap length h.whole ∙ length-append (encode_all done) (encode_all rs ++ t) in
    let off = h.position in
    let left : drop r.apply_off log ≡ encode_all rs ++ t =
      rw (h.position, h.whole) (drop-append (encode_all done) (encode_all rs ++ t)) in
    let fuel = enough_rounds rs t (eof + 1) (omega arith) in
    rw (rewind-not r log (omega arith)) (
      ap (λ file. tail_loop eof (eof + 1) (tail_at s file)) left
      ∙ (ap (λ (m : ℕ). tail_loop eof m (tail_at s (encode_all rs ++ t))) fuel
          ∙ (tail_loop-records rs eof f t s h.fits n
              ∙ tail_loop-cut eof f s1 t (follow-left eof t rs s) (
                  subst (λ (l : List StagedPage). CutOff (length l) t)
                    (sym (follow-pend eof t rs s)) h.cut))))

-- A replica applies the segments of the records that it has not read, if they have greater numbers
-- than it has applied: their after-images go to its data file in the order of the log, its number is
-- that of the last commit, and the number of commits is returned. Records without a marker and a
-- record that is cut off wait for the next call, for which the position is the end of the last
-- commit.
pub replica_apply-follows :
    (r : WalReplica) (log : List ℕ) (done rs : List LogRecord) (t : List ℕ)
    → HasRead r log done rs t
    → Numbered r.applied_lsn rs
    → ((replica_apply r log).1 ≡ some (commit_count rs))
      × ((replica_apply r log).0.data_file ≡ write_pages (committed [] rs) r.data_file)
      × ((replica_apply r log).0.applied_lsn ≡ last_lsn r.applied_lsn rs)
      × ((replica_apply r log).0.apply_off + length (encode_all (loser rs rs) ++ t) ≡ length log)
replica_apply-follows r log done rs t h n =
    let loop = replica_apply-loop r log done rs t h (Numbered-InRange r.applied_lsn rs n) in
    let f = follow-new (length log) t rs (start_tail r) n in
    let off = h.position in
    let sizes : length log ≡ length (encode_all done) + length (encode_all rs ++ t) =
      ap length h.whole ∙ length-append (encode_all done) (encode_all rs ++ t) in
    (
      ap (λ (x : WalReplica × Option ℕ). x.1) loop ∙ ap some (f.2 ∙ omega arith),
      ap (λ (x : WalReplica × Option ℕ). x.0.data_file) loop ∙ f.0,
      ap (λ (x : WalReplica × Option ℕ). x.0.applied_lsn) loop ∙ f.1,
      ap (λ (x : WalReplica × Option ℕ). x.0.apply_off + length (encode_all (loser rs rs) ++ t))
            loop
          ∙ follow-position (length log) t rs rs (start_tail r) (omega arith) (omega arith),
    )

-- Commits with numbers that the replica has applied, or that are smaller, are passed over: no page of
-- the replica changes, and 0 is returned.
pub replica_apply-Old :
    (r : WalReplica) (log : List ℕ) (done rs : List LogRecord) (t : List ℕ)
    → HasRead r log done rs t
    → Old r.applied_lsn rs
    → ((replica_apply r log).1 ≡ some 0)
      × ((replica_apply r log).0.data_file ≡ r.data_file)
      × ((replica_apply r log).0.apply_off + length (encode_all (loser rs rs) ++ t) ≡ length log)
replica_apply-Old r log done rs t h n =
    let loop = replica_apply-loop r log done rs t h (Old-InRange r.applied_lsn rs n) in
    let f = follow-Old (length log) t rs (start_tail r) n in
    let off = h.position in
    let sizes : length log ≡ length (encode_all done) + length (encode_all rs ++ t) =
      ap length h.whole ∙ length-append (encode_all done) (encode_all rs ++ t) in
    (
      ap (λ (x : WalReplica × Option ℕ). x.1) loop ∙ ap some (f.2),
      ap (λ (x : WalReplica × Option ℕ). x.0.data_file) loop ∙ f.0,
      ap (λ (x : WalReplica × Option ℕ). x.0.apply_off + length (encode_all (loser rs rs) ++ t))
            loop
          ∙ follow-position (length log) t rs rs (start_tail r) (omega arith) (omega arith),
    )
