-- ===== src/Lsm/Refine.antt =====
-- src/lsm.c: a run of puts, deletes and flushes against a finite map.
use db_hobby.Base.{ℕ, ◌≡◌, ap, ◌∙◌, Option, none, some, List, [], ◌∷◌, if◌then◌else◌, ◌==◌}
use db_hobby.Lsm.{Lsm, lsm_flush, lsm_put, lsm_delete, lsm_get}
use db_hobby.Lsm.Versions.{Ordered}
use db_hobby.Lsm.Map.{
  lsm_flush-Ordered, lsm_flush-get, lsm_put-Ordered, lsm_put-get, lsm_delete-Ordered,
  lsm_delete-get,
}

pub data Op : Type 0 where
  put : ℕ → ℕ → Op
  delete : ℕ → Op
  flush : Op

abbrev pub apply : Op → Lsm → Lsm
apply (put key val) l = lsm_put l key val
apply (delete key) l = lsm_delete l key
apply flush l = lsm_flush l

unfoldable pub run : List Op → Lsm → Lsm
run [] l = l
run (op ∷ ops) l = run ops (apply op l)

-- What the operations mean: a map that is overwritten at one key, and a flush that nobody sees.
abbrev pub meaning : Op → (ℕ → Option ℕ) → ℕ → Option ℕ
meaning (put key val) m k = if k == key then some val else m k
meaning (delete key) m k = if k == key then none else m k
meaning flush m k = m k

unfoldable pub run_map : List Op → (ℕ → Option ℕ) → ℕ → Option ℕ
run_map [] m = m
run_map (op ∷ ops) m = run_map ops (meaning op m)

-- The tree l is in order and shows the map m.
pub record Shows (l : Lsm) (m : ℕ → Option ℕ) : Type 0 where
  pub ordered : Ordered l
  pub shown : (k : ℕ) → lsm_get l k ≡ m k

meaning-cong :
    (op : Op) (l : Lsm) (m : ℕ → Option ℕ) (k : ℕ)
    → lsm_get l k ≡ m k
    → meaning op (lsm_get l) k ≡ meaning op m k
meaning-cong (put key val) l m k h = ap (λ x. if k == key then some val else x) h
meaning-cong (delete key) l m k h = ap (λ x. if k == key then none else x) h
meaning-cong flush l m k h = h

apply-Ordered : (op : Op) (l : Lsm) → Ordered l → Ordered (apply op l)
apply-Ordered (put key val) l o = lsm_put-Ordered l key val o
apply-Ordered (delete key) l o = lsm_delete-Ordered l key o
apply-Ordered flush l o = lsm_flush-Ordered l o

apply-get :
    (op : Op) (l : Lsm) (k : ℕ) → Ordered l → lsm_get (apply op l) k ≡ meaning op (lsm_get l) k
apply-get (put key val) l k o = lsm_put-get l key val o k
apply-get (delete key) l k o = lsm_delete-get l key o k
apply-get flush l k o = lsm_flush-get l k o

apply-Shows : (op : Op) (l : Lsm) (m : ℕ → Option ℕ) → Shows l m → Shows (apply op l) (meaning op m)
apply-Shows op l m s = record {
  ordered = apply-Ordered op l s.ordered;
  shown = λ k. apply-get op l k s.ordered ∙ meaning-cong op l m k (s.shown k);
}

-- Where the tree is in order and shows a map, it is in order and shows the map with the same puts and
-- deletes done after any run of lsm_put, lsm_delete and lsm_flush, whatever the threshold of the
-- memtable: the value of a key is the one last put, and none after a delete.
pub run-Shows :
    (ops : List Op) (l : Lsm) (m : ℕ → Option ℕ) → Shows l m → Shows (run ops l) (run_map ops m)
unfolding run run_map
run-Shows [] l m s = s
run-Shows (op ∷ ops) l m s = run-Shows ops (apply op l) (meaning op m) (apply-Shows op l m s)
