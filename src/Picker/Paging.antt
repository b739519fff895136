-- ===== src/Picker/Paging.antt =====
-- src/mattermost/model-picker.ts: the pages cover the items once, in order.
use openclaw_mattermost_cust.Base.{
  ℕ, zero, suc, ◌+◌, ◌-◌, ◌*◌, ◌≤◌, ◌≡◌, sym, ap, some, List, [], ◌∷◌, arith, drop, length, flatten,
  take-append_drop, drop-drop, drop_all, min, max,
}
use openclaw_mattermost_cust.Base.Int.{pos}
use openclaw_mattermost_cust.Picker.Context.{finite, normalize_page}
use openclaw_mattermost_cust.Picker.Pages.{page_size, page_count, slice_page, paginate_items}

-- The items of `count` pages from the page `p` on, as they are asked for one after another.
abbrev pub pages_from {ℓ} : {A : Type ℓ} → ℕ → ℕ → List A → List (List A)
pages_from p zero items = []
pages_from p (suc count) items =
    (paginate_items items (some (finite (pos p)))).items ∷ pages_from (suc p) count items

paginate_items-page {ℓ} :
    {A : Type ℓ} (items : List A) (p : ℕ)
    → 1 ≤ p
    → p ≤ page_count (length items)
    → (paginate_items items (some (finite (pos p)))).items ≡ slice_page p items
unfolding paginate_items normalize_page
paginate_items-page items p low high =
    let same : max 1 (min (max 1 p) (page_count (length items))) ≡ p = omega arith in
    ap (λ k. slice_page k items) same

pages_from_lem {ℓ} :
    {A : Type ℓ} (items : List A) (p count : ℕ)
    → 1 ≤ p
    → p + count ≡ page_count (length items) + 1
    → flatten (pages_from p count items) ≡ drop ((p - 1) * page_size) items
pages_from_lem items p zero low e = sym (drop_all ((p - 1) * page_size) items (omega arith))
pages_from_lem items p (suc count) low e =
    let here = drop ((p - 1) * page_size) items in
    let next : (p - 1) * page_size + page_size ≡ (suc p - 1) * page_size = omega arith in
    rw
      (
        paginate_items-page items p low (omega arith),
        pages_from_lem items (suc p) count (omega arith) (omega arith),
        ← next,
        ← drop-drop page_size ((p - 1) * page_size) items,
      )
      (take-append_drop page_size here)

-- The pages from 1 to the last, one after another, are the items, each once and in their order.
pub pages_cover {ℓ} :
    {A : Type ℓ} (items : List A) → flatten (pages_from 1 (page_count (length items)) items) ≡ items
pages_cover items = pages_from_lem items 1 (page_count (length items)) (omega arith) (omega arith)
