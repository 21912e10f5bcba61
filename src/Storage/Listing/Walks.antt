-- ===== src/Storage/Listing/Walks.antt =====
-- A client that walks the pages of a listing.
use orientation_enrollment_p.Base.{
  ℕ, zero, suc, ◌≡◌, refl, ap, ◌∙◌, sym, subst, ◌+◌, ◌*◌, ◌<◌, ◌≤◌, arith, true, List, [], ◌∷◌,
  ◌++◌, keep, take, length, All,
}
use orientation_enrollment_p.Base.Int.{pos, pos_part, int64_half}
use orientation_enrollment_p.Base.Sort.Counts.{
  length-order_by, length-keep, All-order_by, All-keep, All-take,
}
use orientation_enrollment_p.Base.Text.{Text}
use orientation_enrollment_p.Domain.Errors.{Result, ok, err}
use orientation_enrollment_p.Domain.Query.{
  PageRequest, Page, PageResult, normalize, offset, page_result,
}
use orientation_enrollment_p.Domain.Query.Paging.{normalize-bounds, offset_exact}
use orientation_enrollment_p.Storage.Db.{Db, Env, Tx, attempt}
use orientation_enrollment_p.Storage.Rules.{>>=-lift, >>=-read, attempt-ReadOnly}
use orientation_enrollment_p.Storage.Transactions.Working.{Works}
use orientation_enrollment_p.Storage.Listing.{drop, window, Query, matching, all_rows, listing}

module _ {A : Type 0} where
  take-+ : (m n : ℕ) (xs : List A) → take (m + n) xs ≡ take m xs ++ take n (drop m xs)
  take-+ m n [] = refl
  take-+ zero n (x ∷ xs) = ap (λ (k : ℕ). take k (x ∷ xs)) (omega arith)
  take-+ (suc m) n (x ∷ xs) =
      let longer : suc m + n ≡ suc (m + n) = omega arith in
      ap (λ k. take k (x ∷ xs)) longer ∙ ap (λ l. x ∷ l) (take-+ m n xs)

  length-take_le : (n : ℕ) (xs : List A) → length (take n xs) ≤ n
  length-take_le n [] = omega arith
  length-take_le zero (x ∷ xs) = omega arith
  length-take_le (suc n) (x ∷ xs) = omega (arith, length-take_le n xs)

  take_none : (n : ℕ) (xs : List A) → n ≡ 0 → take n xs ≡ []
  take_none zero [] h = refl
  take_none zero (x ∷ xs) h = refl
  take_none (suc n) xs h = absurd (omega arith)

  take_all : (n : ℕ) (xs : List A) → length xs ≤ n → take n xs ≡ xs
  take_all n [] h = refl
  take_all zero (x ∷ xs) h = absurd (omega arith)
  take_all (suc n) (x ∷ xs) h = ap (λ l. x ∷ l) (take_all n xs (omega arith))

  All-drop {κ} : (P : A → Type κ) (n : ℕ) (xs : List A) → All P xs → All P (drop n xs)
  All-drop P n [] hs = tt
  All-drop P zero (x ∷ xs) hs = hs
  All-drop P (suc n) (x ∷ xs) hs = All-drop P n xs hs.1

abbrev pub at_page : PageRequest → ℕ → PageRequest
at_page request n = record request { number = n }

-- Only the number of a page follows from the number that is asked for.
normalize-at_page :
    (request : PageRequest) (keys : List Text) (default_sort : Text) (page : Page) (n : ℕ)
    → normalize request keys default_sort ≡ ok page
    → normalize (at_page request (suc n)) keys default_sort ≡ ok (record page { number = suc n })
unfolding normalize
normalize-at_page request keys default_sort page n h = ground arith

module _ {A : Type 0} where
  abbrev pub items_of : Result (PageResult A) × Db → List A
  items_of (ok r, db) = r.items
  items_of (err e, db) = []

  -- The items of the pages 1 to n, as a call answers them one after the other.
  unfoldable pub walk : (PageRequest → Tx (PageResult A)) → PageRequest → Env → Db → ℕ → List A
  walk call request env db zero = []
  walk call request env db (suc n) =
      walk call request env db n ++ items_of (call (at_page request (suc n)) env db)

module _ {A : Type 0} (q : Query A) where
  listing-Works :
      (request : PageRequest) (page : Page) (env : Env) (db : Db)
      → Works env
      → normalize request q.sort_keys q.default_sort ≡ ok page
      → listing q request env db
        ≡ (ok (page_result (window page (all_rows q page db)) (matching q db) page), db)
  unfolding listing attempt
  listing-Works request page env db works valid =
      rw (valid, works "count rows" db, works "select page" db) refl

  module _ (request : PageRequest) (page : Page) (env : Env) (db : Db) (works : Works env)
      (valid : normalize request q.sort_keys q.default_sort ≡ ok page) where
    page_items :
        (n : ℕ)
        → n * page.size < int64_half
        → items_of (listing q (at_page request (suc n)) env db)
          ≡ take page.size (drop (n * page.size) (all_rows q page db))
    unfolding window page_result all_rows
    page_items n small =
        let numbered = record page { number = suc n } in
        let exact : offset numbered ≡ pos (n * page.size) = ground (arith, offset_exact numbered) in
        rw
          (listing-Works (at_page request (suc n)) numbered env db works
            (normalize-at_page request q.sort_keys q.default_sort page n valid))
          (ap (λ o. take page.size (drop (pos_part o) (all_rows q page db))) exact)

    -- The first pages hold the first rows.
    walk-take :
        (n : ℕ)
        → n * page.size < int64_half
        → walk (listing q) request env db n ≡ take (n * page.size) (all_rows q page db)
    unfolding walk
    walk-take zero small = sym (take_none (0 * page.size) (all_rows q page db) (omega arith))
    walk-take (suc n) small =
        let next : suc n * page.size ≡ n * page.size + page.size = grind arith in
        let fits : n * page.size < int64_half = omega (arith, next) in
        rw (walk-take n fits, page_items n fits)
          (sym (take-+ (n * page.size) page.size (all_rows q page db))
            ∙ ap (λ (k : ℕ). take k (all_rows q page db)) (sym next))

    length-all_rows : length (all_rows q page db) ≡ matching q db
    unfolding all_rows
    length-all_rows =
        length-order_by (q.order page.order page.sort_by) (keep q.where_clause (q.rows db))
        ∙ length-keep q.where_clause (q.rows db)

    -- As many pages as hold the rows hold exactly the rows.
    pub walk_all :
        (n : ℕ)
        → n * page.size < int64_half
        → matching q db ≤ n * page.size
        → walk (listing q) request env db n ≡ all_rows q page db
    walk_all n small enough =
        walk-take n small
        ∙ take_all (n * page.size) (all_rows q page db) (omega (arith, length-all_rows))

  -- A listing that returns a value only reads; its items pass the WHERE clause, they are no more than
  -- a page, and the total counts all rows that pass.
  pub listing_sound :
      (request : PageRequest) (env : Env) (db after : Db) {r : PageResult A}
      → listing q request env db ≡ (ok r, after)
      → All (λ a. q.where_clause a ≡ true) r.items
        × (length r.items ≤ 100)
        × (r.total ≡ matching q db)
        × (after ≡ db)
  unfolding listing window page_result all_rows
  listing_sound request env db after {r} h =
      >>=-lift (normalize request q.sort_keys q.default_sort) _ env db h (λ page valid h1.
        >>=-read (attempt "count rows") _ env db (attempt-ReadOnly "count rows") h1 (λ u counted h2.
          >>=-read (attempt "select page") _ env db (attempt-ReadOnly "select page") h2
            (λ v selected h3.
              let shown = drop (pos_part (offset page)) (all_rows q page db) in
              let r_items : take page.size shown ≡ r.items = ground arith in
              let (one, low, high, allowed) =
                normalize-bounds request q.sort_keys q.default_sort page valid in
              (
                subst (All (λ a. q.where_clause a ≡ true)) r_items (
                    All-take _ page.size shown (
                      All-drop _ (pos_part (offset page)) (all_rows q page db) (
                        All-order_by (q.order page.order page.sort_by) _
                          (keep q.where_clause (q.rows db))
                          (All-keep q.where_clause (q.rows db))))),
                rw (sym r_items) (omega (arith, length-take_le page.size shown, high)),
                ground arith,
                ground arith,
              ))))
