-- ===== src/Pager.antt =====
-- src/pager.c: a file of pages. `disk` is what the file holds, `file_pages` how many pages long
-- it is and `num_pages` the count that the pager keeps. A write that the code retries for no reason
-- but an I/O error succeeds.
use db_hobby.Page.{page_size}
use db_hobby.Base.{
  ℕ, zero, suc, ◌+◌, List, [], ◌∷◌, Option, none, some, if◌then◌else◌, ltb, max, update,
}

abbrev pub Image : Type 0
Image = List ℕ

pub record Pager : Type 0 where
  pub disk : ℕ → Image
  pub file_pages : ℕ
  pub num_pages : ℕ

-- `pager_open`: the count is the file's length in pages.
unfoldable pub pager_open : Pager → Pager
pager_open p = record p { num_pages = p.file_pages }

unfoldable pub pager_read : Pager → ℕ → Option Image
pager_read p page_id = if ltb page_id p.file_pages then some (p.disk page_id) else none

unfoldable pub pager_write : Pager → ℕ → Image → Pager
pager_write p page_id buf = record p {
  disk = update p.disk page_id buf;
  file_pages = max p.file_pages (page_id + 1);
}

unfoldable pub pager_allocate : Pager → Image → Pager × ℕ
unfolding pager_write
pager_allocate p zero_page =
    let id = p.num_pages in
    let p1 = pager_write p id zero_page in (record p1 { num_pages = p1.num_pages + 1 }, id)

unfoldable pub zero_bytes : ℕ → Image
zero_bytes zero = []
zero_bytes (suc n) = 0 ∷ zero_bytes n

-- What a later write past the end makes of the pages that it skips.
abbrev pub hole : Image
hole = zero_bytes page_size

unfoldable pub pager_truncate : Pager → ℕ → Pager
pager_truncate p num_pages = record p {
  disk = λ i. if ltb i num_pages then p.disk i else hole;
  file_pages = num_pages;
  num_pages = num_pages;
}
