-- ===== src/Domain/Pagination.antt =====
-- `Pagination` of domain/value_objects.py, `PaginatedResult` of domain/repository.py and
-- `PaginatedResponse` of application/dto.py. The numbers of the source that are not negative are
-- natural numbers; `//` on them is the division of ℕ.
pub mod Pages
mod Tests
use converse_os.Prelude.{
  ℕ, ◌+◌, ◌-◌, ◌*◌, ◌/◌, List, Bool, leb, ltb, ◌&&◌, ◌==◌, nat_eq, Option, none, some,
  if◌then◌else◌,
}

pub record Pagination : Type 0 where
  pub page : ℕ
  pub page_size : ℕ

-- the constructor, with the bounds that its fields declare; `none` is pydantic's validation error
unfoldable pub make_pagination : ℕ → ℕ → Option Pagination
make_pagination page page_size =
    if leb 1 page && (leb 1 page_size && leb page_size 100)
    then some (record { page = page; page_size = page_size })
    else none

unfoldable pub offset : Pagination → ℕ
offset p = (p.page - 1) * p.page_size

unfoldable pub limit : Pagination → ℕ
limit p = p.page_size

pub record PaginatedResult {ℓ} (T : Type ℓ) : Type ℓ where
  pub items : List T
  pub total : ℕ
  pub page : ℕ
  pub page_size : ℕ

pub record PaginatedResponse {ℓ} (T : Type ℓ) : Type ℓ where
  pub items : List T
  pub total : ℕ
  pub page : ℕ
  pub page_size : ℕ
  pub total_pages : ℕ
  pub has_next : Bool
  pub has_previous : Bool

module _ {ℓ} {T : Type ℓ} where
  unfoldable pub total_pages : PaginatedResult T → ℕ
  total_pages r = if r.page_size == 0 then 0 else (r.total + r.page_size - 1) / r.page_size

  unfoldable pub has_next : PaginatedResult T → Bool
  unfolding total_pages
  has_next r = ltb r.page (total_pages r)

  unfoldable pub has_previous : PaginatedResult T → Bool
  has_previous r = ltb 1 r.page

  unfoldable pub from_paginated_result : PaginatedResult T → PaginatedResponse T
  from_paginated_result r = record {
    items = r.items;
    total = r.total;
    page = r.page;
    page_size = r.page_size;
    total_pages = total_pages r;
    has_next = has_next r;
    has_previous = has_previous r;
  }
