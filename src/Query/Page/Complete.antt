-- ===== src/Query/Page/Complete.antt =====
-- src/query/mod.rs: following the cursors of `paginate` gives every item once.
use mathlib.Core.Option
use semnav.Base.{
  ℕ, zero, suc, ◌+◌, ◌-◌, ◌≤◌, ltb, ◌≡◌, refl, sym, ap, ◌∙◌, Bool, true, false, Bool-cases, inl,
  inr, ltb→lt, Option, none, some, List, [], ◌∷◌, ◌++◌, arith, length, take, drop, retain,
  get_elem?, get_elem?-total, if◌then◌else◌, All, is_gt, Ordering, IsTotal, pair-IsTotal,
  cmp_on-IsTotal, str_cmp, str-IsTotal, int_cmp, int-IsTotal, Str, ℤ, take-append-drop, append-nil,
  subst, take-all, drop-all, drop-drop, get_elem?-drop,
}
use semnav.Query.Filter.{SortKey, key_cmp, Page}
use semnav.Query.Page.{clamp_limit, after_cursor, paginate}

abbrev key_tuple : SortKey → Str × (Str × (ℤ × ℤ))
key_tuple k = (k.fqn, (k.uri, (k.start_line, k.start_col)))

key_tuple-injective : (a b : SortKey) → key_tuple a ≡ key_tuple b → a ≡ b
key_tuple-injective a b e = ground arith

-- The sort key is a total order.
pub key-IsTotal : IsTotal key_cmp
unfolding key_cmp
key-IsTotal = cmp_on-IsTotal key_tuple _ key_tuple-injective (
    pair-IsTotal str_cmp _ str-IsTotal
      (pair-IsTotal str_cmp _ str-IsTotal (pair-IsTotal int_cmp int_cmp int-IsTotal int-IsTotal)))

module _ {ℓ} {T : Type ℓ} (key_of : T → SortKey) where
  -- Each key is less than all later ones.
  abbrev pub IsStrict : List T → Type ℓ
  IsStrict [] = Unit
  IsStrict (x ∷ xs) = All (λ y. key_cmp (key_of x) (key_of y) ≡ Ordering.lt) xs × IsStrict xs

  abbrev beyond : T → T → Bool
  beyond y t = is_gt (key_cmp (key_of t) (key_of y))

  beyond-lt : (a b : T) → key_cmp (key_of a) (key_of b) ≡ Ordering.lt → beyond a b ≡ true
  beyond-lt a b h = rw (key-IsTotal.flip (key_of a) (key_of b), h)

  not_beyond-lt : (a b : T) → key_cmp (key_of a) (key_of b) ≡ Ordering.lt → beyond b a ≡ false
  not_beyond-lt a b h = rw h

  retain-later :
      (x : T) (ys : List T)
      → All (λ y. key_cmp (key_of x) (key_of y) ≡ Ordering.lt) ys
      → retain (beyond x) ys ≡ ys
  retain-later x [] h = refl
  retain-later x (y ∷ ys) h = ground (arith, beyond-lt x y h.0, retain-later x ys h.1)

  All-at : (P : T → Type 0) (xs : List T) (i : ℕ) {a : T} → All P xs → get_elem? xs i ≡ some a → P a
  All-at P [] i h e = absurd (cc e)
  All-at P (x ∷ xs) zero {a} h e = let it : x ≡ a = cc e in rw (← it) h.0
  All-at P (x ∷ xs) (suc i) h e = All-at P xs i h.1 e

  -- What is kept behind the key of the item at position `n`.
  retain-beyond :
      (items : List T) (n : ℕ) (y : T)
      → IsStrict items
      → get_elem? items n ≡ some y
      → retain (beyond y) items ≡ drop (suc n) items
  retain-beyond [] n y s e = refl
  retain-beyond (x ∷ xs) zero y s e =
      let it : x ≡ y = cc e in
      let same : beyond x x ≡ false = rw (key-IsTotal.self (key_of x)) in
      subst (λ z. retain (beyond z) (x ∷ xs) ≡ xs) it (rw same (retain-later x xs s.0))
  retain-beyond (x ∷ xs) (suc n) y s e =
      let drops : beyond y x ≡ false =
        not_beyond-lt x y (All-at (λ z. key_cmp (key_of x) (key_of z) ≡ Ordering.lt) xs n s.0 e) in
      rw drops (retain-beyond xs n y s.1 e)

  abbrev page_of : ℕ → Option SortKey → Page
  page_of limit cursor = record { limit = limit; cursor = cursor }

  -- A client that asks for one page after another, at most `fuel` of them.
  unfoldable pub all_pages : ℕ → List T → ℕ → Option SortKey → List T
  all_pages zero items limit cursor = []
  all_pages (suc fuel) items limit cursor =
      let r = paginate key_of items (page_of limit cursor) in
      r.0 ++ (elim r.1 [ none ↦ [] | some k ↦ all_pages fuel items limit (some k) ])

  paginate-at :
      (items rest : List T) (limit : ℕ) (cursor : Option SortKey)
      → after_cursor key_of cursor items ≡ rest
      → paginate key_of items (page_of limit cursor) ≡ (
        take (clamp_limit limit) rest,
        if ltb (clamp_limit limit) (length rest)
            then Option.map key_of (get_elem? rest (clamp_limit limit - 1))
            else none,
      )
  unfolding paginate
  paginate-at items rest limit cursor e = rw e

  all_pages-drop :
      (fuel : ℕ) (items : List T) (limit k : ℕ) (cursor : Option SortKey)
      → IsStrict items
      → after_cursor key_of cursor items ≡ drop k items
      → length items ≤ k + fuel
      → all_pages fuel items limit cursor ≡ drop k items
  unfolding all_pages
  all_pages-drop zero items limit k cursor s e f = sym (drop-all k items (omega arith))
  all_pages-drop (suc fuel) items limit k cursor s e f =
      let rest = drop k items in
      let size = clamp_limit limit in
      elim (Bool-cases (ltb size (length rest))) [
        | inl more ↦
            let (y, at) =
              get_elem?-total rest (size - 1) (omega (arith, ltb→lt size (length rest) more)) in
            let at' : get_elem? items (k + (size - 1)) ≡ some y =
              sym (get_elem?-drop k items (size - 1)) ∙ at in
            let shift : suc (k + (size - 1)) ≡ k + size = omega arith in
            let next : after_cursor key_of (some (key_of y)) items ≡ drop (k + size) items =
              retain-beyond items (k + (size - 1)) y s at' ∙ ap (λ m. drop m items) shift in
            let ih =
              all_pages-drop fuel items limit (k + size) (some (key_of y)) s next (omega arith) in
            rw (paginate-at items rest limit cursor e, more, at)
              (ap (λ l. take size rest ++ l) (ih ∙ sym (drop-drop size k items))
                ∙ take-append-drop size rest)
        | inr last ↦
            rw (paginate-at items rest limit cursor e, last)
              (append-nil (take size rest) ∙ take-all size rest (ground arith))
      ]

  -- Asking for page after page, each from the cursor of the one before, gives every item once and in
  -- order, for items in strictly increasing order of their keys, any page limit, and at most as many
  -- requests as there are items.
  pub all_pages_complete :
      (items : List T) (limit : ℕ)
      → IsStrict items
      → all_pages (length items) items limit none ≡ items
  all_pages_complete items limit s =
      all_pages-drop (length items) items limit 0 none s refl (omega arith)
