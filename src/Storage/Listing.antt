-- ===== src/Storage/Listing.antt =====
-- What the paginated queries of internal/storage/sqlite share: the page is checked, the rows that
-- pass the WHERE clause are counted, and one page of them is read in order.
pub mod Walks
use orientation_enrollment_p.Base.{
  ℕ, zero, suc, String, Bool, true, false, List, [], ◌∷◌, keep, count, take, if◌then◌else◌,
}
use orientation_enrollment_p.Base.Int.{ℤ, pos_part}
use orientation_enrollment_p.Base.Sort.{order_by}
use orientation_enrollment_p.Base.Text.{Text}
use orientation_enrollment_p.Domain.Query.{
  PageRequest, Page, SortDirection, ascending, descending, normalize, offset, PageResult,
  page_result,
}
use orientation_enrollment_p.Storage.Db.{Db, Tx, pure, lift, gets, ◌>>=◌, ◌>>◌, attempt}

module _ {A : Type 0} where
  abbrev pub drop : ℕ → List A → List A
  drop n [] = []
  drop zero (x ∷ xs) = x ∷ xs
  drop (suc n) (x ∷ xs) = drop n xs

  -- LIMIT ? OFFSET ?, where SQLite takes a negative offset for 0.
  unfoldable pub window : Page → List A → List A
  window page rows = take page.size (drop (pos_part (offset page)) rows)

  abbrev pub directed : SortDirection → (A → A → Bool) → A → A → Bool
  directed ascending le a b = le a b
  directed descending le a b = le b a

  -- ORDER BY a column in a direction, then by what breaks ties.
  abbrev pub ordered : SortDirection → (A → A → Bool) → (A → A → Bool) → A → A → Bool
  ordered direction le tie a b =
      if directed direction le a b
      then (if directed direction le b a then tie a b else true)
      else false

-- What a listing is of: its rows, WHERE clause, and order by direction and sort key.
pub record Query (A : Type 0) : Type 0 where
  pub rows : Db → List A
  pub where_clause : A → Bool
  pub order : SortDirection → Text → A → A → Bool
  pub sort_keys : List Text
  pub default_sort : Text

abbrev pub matching : {A : Type 0} → Query A → Db → ℕ
matching q db = count q.where_clause (q.rows db)

-- All rows of the query, in order.
unfoldable pub all_rows : {A : Type 0} → Query A → Page → Db → List A
all_rows q page db = order_by (q.order page.order page.sort_by) (keep q.where_clause (q.rows db))

unfoldable pub listing : {A : Type 0} → Query A → PageRequest → Tx (PageResult A)
unfolding all_rows window attempt
listing q request = do
  page ← lift (normalize request q.sort_keys q.default_sort)
  attempt "count rows"
  total ← gets (matching q)
  attempt "select page"
  items ← gets (λ db. window page (all_rows q page db))
  pure (page_result items total page)
