-- ===== src/Domain/Query/Paging.antt =====
-- What a normalised page guarantees, and where its offset is exact.
use orientation_enrollment_p.Base.{ℕ, zero, suc, true, ◌≡◌, ◌<◌, ◌≤◌, ◌+◌, ◌-◌, ◌*◌, List, arith}
use native.Mathlib.Nat.{div-add-mod', mod-lt}
use orientation_enrollment_p.Base.Int.{pos, int64_half, to_int64_small}
use orientation_enrollment_p.Base.Text.{Text}
use orientation_enrollment_p.Domain.Errors.{ok}
use orientation_enrollment_p.Domain.Query.{
  Page, PageRequest, allows, normalize, offset, page_result,
}

-- A page that passes the checks has a number of at least 1, a size from 1 to 100, and a sort key of
-- the allow list.
pub normalize-bounds :
    (p : PageRequest) (allowed : List Text) (default_sort : Text) (q : Page)
    → normalize p allowed default_sort ≡ ok q
    → (1 ≤ q.number) × (1 ≤ q.size) × (q.size ≤ 100) × (allows allowed q.sort_by ≡ true)
unfolding normalize
normalize-bounds p allowed default_sort q h = ground arith

no_product : (n s : ℕ) → n ≤ 1 → (n - 1) * s ≡ 0
no_product zero s h = omega arith
no_product (suc zero) s h = omega arith
no_product (suc (suc n)) s h = absurd (omega arith)

-- While the product of pages skipped and page size fits into int64, the offset is that product.
pub offset_exact :
    (p : Page) → (p.number - 1) * p.size < int64_half → offset p ≡ pos ((p.number - 1) * p.size)
unfolding offset
offset_exact p h =
    ground (arith, no_product p.number p.size, to_int64_small ((p.number - 1) * p.size) h)

-- With a positive page size, the pages of a result hold all rows, and the last one begins before the
-- end.
pub page_result-covers {ℓ} :
    {A : Type ℓ} (items : List A) (total : ℕ) (p : Page)
    → 1 ≤ p.size
    → let pages = (page_result items total p).total_pages in
      (total ≤ pages * p.size) × (pages * p.size < total + p.size)
unfolding page_result
page_result-covers items total p h =
    grind (arith, div-add-mod' (total + p.size - 1) p.size, mod-lt (total + p.size - 1) h)
