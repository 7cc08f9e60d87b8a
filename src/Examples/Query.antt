-- ===== src/Examples/Query.antt =====
-- The theorem on pages at three keys.
use semnav.Base.{ℕ, pos, ◌≡◌, refl, none, List, [], ◌∷◌, str}
use semnav.Query.Filter.{SortKey, key_cmp}
use semnav.Query.Page.Complete.{IsStrict, all_pages, all_pages_complete}

abbrev key : ℕ → SortKey
key n = record { fqn = n ∷ []; uri = str "f:/m.py"; start_line = pos n; start_col = pos 0 }

abbrev keys : List SortKey
keys = key 1 ∷ key 2 ∷ key 3 ∷ []

keys-IsStrict : IsStrict (λ k. k) keys
unfolding key_cmp
keys-IsStrict = ((refl, (refl, tt)), ((refl, tt), (tt, tt)))

all_pages_complete_example : all_pages (λ k. k) 3 keys 2 none ≡ keys
all_pages_complete_example = all_pages_complete (λ k. k) keys 2 keys-IsStrict
