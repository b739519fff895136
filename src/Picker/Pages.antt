-- ===== src/Picker/Pages.antt =====
-- src/mattermost/model-picker.ts: `paginateItems`, with the page size that every caller uses.
use openclaw_mattermost_cust.Base.{
  ℕ, ◌+◌, ◌-◌, ◌*◌, ◌/◌, Bool, Option, List, take, drop, length, ltb, min, max,
}
use openclaw_mattermost_cust.Picker.Context.{Number, normalize_page}

abbrev pub page_size : ℕ
page_size = 8

pub record Page {ℓ} (A : Type ℓ) : Type ℓ where
  pub items : List A
  pub page : ℕ
  pub total_pages : ℕ
  pub has_prev : Bool
  pub has_next : Bool
  pub total_items : ℕ

-- `Math.ceil(items.length / pageSize)`, at least 1.
abbrev pub page_count : ℕ → ℕ
page_count n = max 1 ((n + 7) / page_size)

abbrev pub slice_page {ℓ} : {A : Type ℓ} → ℕ → List A → List A
slice_page page items = take page_size (drop ((page - 1) * page_size) items)

abbrev pub page_at {ℓ} : {A : Type ℓ} → ℕ → ℕ → List A → Page A
page_at page total items = record {
  items = slice_page page items;
  page = page;
  total_pages = total;
  has_prev = ltb 1 page;
  has_next = ltb page total;
  total_items = length items;
}

unfoldable pub paginate_items {ℓ} : {A : Type ℓ} → List A → Option Number → Page A
unfolding normalize_page
paginate_items items page =
    let total = page_count (length items) in
    page_at (max 1 (min (normalize_page page) total)) total items
