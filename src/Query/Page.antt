-- ===== src/Query/Page.antt =====
-- src/query/mod.rs: cursor pagination.
pub mod Complete
use semnav.Base.{
  ℕ, suc, ◌-◌, ltb, Bool, Option, none, some, List, [], ◌∷◌, length, take, retain, get_elem?,
  if◌then◌else◌, max, min, is_gt,
}
use semnav.Query.Filter.{SortKey, key_cmp, Page, max_page_limit}
use mathlib.Core.Option

-- `limit.clamp(1, MAX_PAGE_LIMIT)`
abbrev pub clamp_limit : ℕ → ℕ
clamp_limit limit = min (max limit 1) max_page_limit

module _ {ℓ} {T : Type ℓ} (key_of : T → SortKey) where
  -- `items.retain(|t| key_of(t) > key)` when there is a cursor.
  abbrev pub after_cursor : Option SortKey → List T → List T
  after_cursor none items = items
  after_cursor (some key) items = retain (λ t. is_gt (key_cmp (key_of t) key)) items

  -- `items[limit - 1]` is there whenever it is read.
  unfoldable pub paginate : List T → Page → List T × Option SortKey
  paginate items page =
      let rest = after_cursor page.cursor items in
      let limit = clamp_limit page.limit in
      (
        take limit rest,
        if ltb limit (length rest) then Option.map key_of (get_elem? rest (limit - 1)) else none,
      )
