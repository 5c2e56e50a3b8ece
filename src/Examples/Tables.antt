-- ===== src/Examples/Tables.antt =====
-- src/lsm.c: a tree whose memtable holds two entries.
use db_hobby.Base.{ℕ, refl, false, Option, none, [], ◌∷◌, List, arith}
use db_hobby.Lsm.{Lsm, lsm_get, mem_bsearch, mem_bsearch_loop, get_at, get_tables}
use db_hobby.Lsm.Versions.{Ordered}
use db_hobby.Lsm.Refine.{Op, put, delete, flush, run, run_map, Shows, run-Shows}

abbrev empty_tree : Lsm
empty_tree = record {
  threshold = 2;
  mem = λ i. record { key = 0; val = 0; tomb = false };
  mem_n = 0;
  ssts = λ i. record {
    seq = 0;
    count = 0;
    records = λ j. record { key = 0; val = 0; tomb = false };
    min_key = 0;
    max_key = 0;
  };
  nsst = 0;
  next_seq = 1;
}

empty_tree-Ordered : Ordered empty_tree
empty_tree-Ordered = record {
  memtable = λ i j h m. absurd (omega arith);
  tables = λ i h. absurd (omega arith);
}

abbrev empty_map : ℕ → Option ℕ
empty_map k = none

empty_tree-Shows : Shows empty_tree empty_map
unfolding lsm_get mem_bsearch mem_bsearch_loop get_at get_tables
empty_tree-Shows = record { ordered = empty_tree-Ordered; shown = λ k. refl }

abbrev writes : List Op
writes = put 7 10 ∷ put 5 20 ∷ put 7 30 ∷ delete 5 ∷ flush ∷ []

run-Shows_example : Shows (run writes empty_tree) (run_map writes empty_map)
run-Shows_example = run-Shows writes empty_tree empty_map empty_tree-Shows
