-- ===== src/Domain/Query.antt =====
-- internal/domain/query.go: paging. A page number or size is a natural, since the code treats
-- every one that is not positive alike.
pub mod Paging
use orientation_enrollment_p.Base.{
  ℕ, Bool, true, false, ◌||◌, ◌+◌, ◌-◌, ◌*◌, ◌/◌, List, [], ◌∷◌, ltb, leb, ◌==◌, if◌then◌else◌, any,
}
use orientation_enrollment_p.Base.Int.{ℤ, pos, to_int64}
use orientation_enrollment_p.Base.Text.{Text, codes, text_eq, is_empty, trim_space, to_lower}
use orientation_enrollment_p.Domain.Errors.{field_error, Result, ok, err}

abbrev pub default_page_size : ℕ
default_page_size = 20

abbrev pub max_page_size : ℕ
max_page_size = 100

pub data SortDirection : Type 0 where
  ascending descending : SortDirection

-- What a client asks for; `order` is its raw text.
pub record PageRequest : Type 0 where
  pub number : ℕ
  pub size : ℕ
  pub sort_by : Text
  pub order : Text

-- A normalised page, whose order is one of the two constants.
pub record Page : Type 0 where
  pub number : ℕ
  pub size : ℕ
  pub sort_by : Text
  pub order : SortDirection

-- The keys of the allow list, which maps each to a column.
abbrev pub allows : List Text → Text → Bool
allows keys key = any (text_eq key) keys

-- The switch over the lower-case direction.
abbrev with_order : Text → Page → Result Page
with_order order page =
    if text_eq order (codes "desc")
    then ok (record page { order = descending })
    else if text_eq order (codes "asc") || is_empty order
    then ok (record page { order = ascending })
    else err (field_error "order" "must be asc or desc")

-- `Page.Normalize`
unfoldable pub normalize : PageRequest → List Text → Text → Result Page
normalize p allowed default_sort =
    let number = if p.number == 0 then 1 else p.number in
    let size = if p.size == 0 then default_page_size else p.size in
    let asked = to_lower (trim_space p.sort_by) in
    let key = if is_empty asked then default_sort else asked in
    if ltb max_page_size size
    then err (field_error "page_size" "must not exceed 100")
    else if allows allowed key
    then with_order (to_lower (trim_space p.order))
        (record { number = number; size = size; sort_by = key; order = ascending })
    else err (field_error "sort_by" "is not a sortable field")

-- `Page.Offset`, a product of two int64 values.
unfoldable pub offset : Page → ℤ
offset p = if leb p.number 1 then pos 0 else to_int64 ((p.number - 1) * p.size)

pub record PageResult {ℓ} (A : Type ℓ) : Type ℓ where
  pub items : List A
  pub total : ℕ
  pub page : ℕ
  pub page_size : ℕ
  pub total_pages : ℕ

-- `NewPageResult`
unfoldable pub page_result {ℓ} : {A : Type ℓ} → List A → ℕ → Page → PageResult A
page_result items total page = record {
  items = items;
  total = total;
  page = page.number;
  page_size = page.size;
  total_pages = if ltb 0 page.size then (total + page.size - 1) / page.size else 0;
}
