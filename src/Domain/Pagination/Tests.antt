-- ===== src/Domain/Pagination/Tests.antt =====
-- The theorems on the second page of three rows in pages of two.
use converse_os.Prelude.{ℕ, List, [], ◌∷◌}
use converse_os.Domain.Pagination.{PaginatedResult}

abbrev rows : List ℕ
rows = 10 ∷ 20 ∷ 30 ∷ []

abbrev first_page : PaginatedResult ℕ
first_page = record { items = 10 ∷ 20 ∷ []; total = 3; page = 1; page_size = 2 }
