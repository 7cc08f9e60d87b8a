-- ===== src/Query/Find/Complete.antt =====
-- src/query/ops.rs: the pages of `find_symbol` on a database that the db actor has written.
use semnav.Base.{
  ℕ, zero, suc, ◌≡◌, ◌≢◌, refl, sym, ap, ◌∙◌, Bool, true, false, Bool-cases, inl, inr, Option, none,
  some, List, [], ◌∷◌, ◌++◌, All, All-map_of, All-retain, map, retain, length, Str, if◌then◌else◌,
  Ordering, reverse, is_gt,
}
use semnav.Base.Sort.{insert_by, sort_by, All-insert_by, All-sort_by}
use mathlib.Core.List.{map-append}
use semnav.Graph.Model.{Node}
use semnav.Graph.Db.State.{NodeRow, Db, empty_db}
use semnav.Graph.Db.Nodes.{node_from_row, node_cmp, list_nodes}
use semnav.Graph.Db.Actor.{DbCommand, run}
use semnav.Graph.Db.Reconcile.Matching.{BodyFingerprinted}
use semnav.Graph.Db.Unique.{Apart, Distinct, Unique}
use semnav.Graph.Db.Unique.Commands.{run-Unique}
use semnav.Query.Dto.{from_node}
use semnav.Query.Filter.{MatchMode, Filter, SortKey, key_cmp, key_of_node}
use semnav.Query.Page.{paginate}
use semnav.Query.Page.Complete.{key-IsTotal, IsStrict, all_pages, all_pages_complete}
use semnav.Query.Find.{FindSymbolResult, found_nodes, page_result, find_symbol}

-- No two nodes have the same full name.
abbrev DistinctNames : List Node → Type 0
DistinctNames [] = Unit
DistinctNames (x ∷ xs) = All (λ y. x.fqn ≢ y.fqn) xs × DistinctNames xs

abbrev Less : Node → Node → Type 0
Less x y = key_cmp (key_of_node x) (key_of_node y) ≡ Ordering.lt

node_cmp-key : (x y : Node) → node_cmp x y ≡ key_cmp (key_of_node x) (key_of_node y)
unfolding node_cmp key_cmp
node_cmp-key x y = refl

-- Nodes of different names are in one order or the other.
order-cases :
    (x y : Node) (o : Ordering)
    → node_cmp x y ≡ o
    → x.fqn ≢ y.fqn
    → (if is_gt o then Less y x else Less x y)
order-cases x y Ordering.lt e ne = sym (node_cmp-key x y) ∙ e
order-cases x y Ordering.eq e ne = absurd (
    ne (
      ap (λ k. k.fqn)
        (key-IsTotal.eq_of (key_of_node x) (key_of_node y) (sym (node_cmp-key x y) ∙ e))))
order-cases x y Ordering.gt e ne =
    key-IsTotal.flip (key_of_node x) (key_of_node y) ∙ ap reverse (sym (node_cmp-key x y) ∙ e)

insert-IsStrict :
    (x : Node) (ys : List Node)
    → All (λ y. x.fqn ≢ y.fqn) ys
    → IsStrict key_of_node ys
    → IsStrict key_of_node (insert_by node_cmp x ys)
unfolding insert_by
insert-IsStrict x [] ne s = (tt, tt)
insert-IsStrict x (y ∷ ys) ne s =
    let o = order-cases x y (node_cmp x y) refl ne.0 in
    elim (Bool-cases (is_gt (node_cmp x y))) [
      | inl e ↦
          let less : Less y x = rw e at o in
          rw e (All-insert_by node_cmp (Less y) x ys less s.0, insert-IsStrict x ys ne.1 s.1)
      | inr e ↦
          let less : Less x y = rw e at o in
          rw e (
            (
              less,
              All-map_of
                  (λ z h.
                    key-IsTotal.lt_trans (key_of_node x) (key_of_node y) (key_of_node z) less h)
                  ys s.0,
            ),
            s,
          )
    ]

sort-IsStrict : (xs : List Node) → DistinctNames xs → IsStrict key_of_node (sort_by node_cmp xs)
unfolding sort_by
sort-IsStrict [] d = tt
sort-IsStrict (x ∷ xs) d =
    insert-IsStrict x (sort_by node_cmp xs) (All-sort_by node_cmp (λ y. x.fqn ≢ y.fqn) xs d.0)
      (sort-IsStrict xs d.1)

retain-IsStrict :
    (p : Node → Bool) (xs : List Node)
    → IsStrict key_of_node xs
    → IsStrict key_of_node (retain p xs)
retain-IsStrict p [] s = tt
retain-IsStrict p (x ∷ xs) s = elim (Bool-cases (p x)) [
  | inl e ↦ rw e (All-retain (Less x) p xs s.0, retain-IsStrict p xs s.1)
  | inr e ↦ rw e (retain-IsStrict p xs s.1)
]

retain-DistinctNames :
    (p : Node → Bool) (xs : List Node) → DistinctNames xs → DistinctNames (retain p xs)
retain-DistinctNames p [] d = tt
retain-DistinctNames p (x ∷ xs) d = elim (Bool-cases (p x)) [
  | inl e ↦ rw e (All-retain (λ y. x.fqn ≢ y.fqn) p xs d.0, retain-DistinctNames p xs d.1)
  | inr e ↦ rw e (retain-DistinctNames p xs d.1)
]

row-names :
    (r : NodeRow) (rows : List NodeRow)
    → Apart r rows
    → All (λ y. r.node.fqn ≢ y.fqn) (map node_from_row rows)
row-names r [] a = tt
row-names r (q ∷ rows) a = (a.0.1, row-names r rows a.1)

rows-DistinctNames : (rows : List NodeRow) → Distinct rows → DistinctNames (map node_from_row rows)
rows-DistinctNames [] d = tt
rows-DistinctNames (r ∷ rows) d = (row-names r rows d.0, rows-DistinctNames rows d.1)

list_nodes-IsStrict :
    (language : Option Str) (db : Db) → Unique db → IsStrict key_of_node (list_nodes language db)
unfolding list_nodes
list_nodes-IsStrict language db u =
    sort-IsStrict _ (retain-DistinctNames _ _ (rows-DistinctNames db.nodes u.apart))

module _ (similar : Str → Str → Bool) (pattern : Str) (mode : MatchMode) (ignore_case : Bool)
    (filter : Filter) (db : Db) where
  -- A client that asks for page after page, at most `fuel` times, and keeps a part of each answer.
  unfoldable pub walk :
      {X : Type 0} → (FindSymbolResult → List X) → Bool → ℕ → ℕ → Option SortKey → List X
  walk view brief zero limit cursor = []
  walk view brief (suc fuel) limit cursor =
      let r =
        find_symbol similar pattern mode ignore_case brief filter
          (record { limit = limit; cursor = cursor }) db in
      view r ++ (elim r.next_cursor [ none ↦ [] | some k ↦ walk view brief fuel limit (some k) ])

  abbrev pub found : List Node
  found = found_nodes similar pattern mode ignore_case filter db

  page-glue :
      {X : Type 0} (view : FindSymbolResult → List X) (brief : Bool) (f : Node → X)
      → ((r : List Node × Option SortKey) → view (page_result similar brief r) ≡ map f r.0)
      → ((r : List Node × Option SortKey) → (page_result similar brief r).next_cursor ≡ r.1)
      → (r : List Node × Option SortKey) (more : SortKey → List X) (more' : SortKey → List Node)
      → ((k : SortKey) → more k ≡ map f (more' k))
      → view (page_result similar brief r)
          ++ (elim (page_result similar brief r).next_cursor [ none ↦ [] | some k ↦ more k ])
        ≡ map f (r.0 ++ (elim r.1 [ none ↦ [] | some k ↦ more' k ]))
  page-glue view brief f shows next (items, none) more more' same =
      ap
        (λ v. v ++ (elim (page_result similar brief (items, none)).next_cursor [
          | none ↦ []
          | some k ↦ more k
        ]))
        (shows (items, none))
      ∙ (ap (λ c. map f items ++ (elim c [ none ↦ [] | some k ↦ more k ])) (next (items, none))
          ∙ sym (map-append f items []))
  page-glue view brief f shows next (items, some k) more more' same =
      ap
        (λ v. v ++ (elim (page_result similar brief (items, some k)).next_cursor [
          | none ↦ []
          | some j ↦ more j
        ]))
        (shows (items, some k))
      ∙ (ap (λ c. map f items ++ (elim c [ none ↦ [] | some j ↦ more j ])) (next (items, some k))
          ∙ (ap (λ l. map f items ++ l) (same k) ∙ sym (map-append f items (more' k))))

  walk-all_pages :
      {X : Type 0} (view : FindSymbolResult → List X) (brief : Bool) (f : Node → X)
      → ((r : List Node × Option SortKey) → view (page_result similar brief r) ≡ map f r.0)
      → ((r : List Node × Option SortKey) → (page_result similar brief r).next_cursor ≡ r.1)
      → (fuel limit : ℕ) (cursor : Option SortKey)
      → walk view brief fuel limit cursor ≡ map f (all_pages key_of_node fuel found limit cursor)
  unfolding walk all_pages find_symbol
  walk-all_pages view brief f shows next zero limit cursor = refl
  walk-all_pages view brief f shows next (suc fuel) limit cursor =
      page-glue view brief f shows next
        (paginate key_of_node found (record { limit = limit; cursor = cursor }))
        (λ k. walk view brief fuel limit (some k))
        (λ k. all_pages key_of_node fuel found limit (some k))
        (λ k. walk-all_pages view brief f shows next fuel limit (some k))

  found-IsStrict : Unique db → IsStrict key_of_node found
  unfolding found_nodes
  found-IsStrict u = retain-IsStrict _ _ (list_nodes-IsStrict filter.language db u)

-- The database after the commands.
abbrev pub written_by : (BodyFingerprinted → ℕ) → List DbCommand → Db
written_by hash commands = (run hash commands empty_db).1

-- On every database that the db actor has written, a client that follows the cursors of `find_symbol`,
-- with any pattern, mode, filter and page limit, gets every matching node once, in the order of full
-- names, and as many requests as there are matching nodes are enough: the nodes themselves, or in
-- brief mode their full names.
pub find_symbol_complete :
    (similar : Str → Str → Bool) (hash : BodyFingerprinted → ℕ) (commands : List DbCommand)
    (pattern : Str) (mode : MatchMode) (ignore_case : Bool) (filter : Filter) (limit : ℕ)
    → IsStrict key_of_node
        (found similar pattern mode ignore_case filter (written_by hash commands))
      × ((walk similar pattern mode ignore_case filter
              (written_by hash commands)
              (λ r. r.nodes)
              false
              (length (found similar pattern mode ignore_case filter (written_by hash commands)))
              limit
              none
            ≡ map from_node
                (found similar pattern mode ignore_case filter (written_by hash commands)))
          × (walk similar pattern mode ignore_case filter
                (written_by hash commands)
                (λ r. r.fqns)
                true
                (length (found similar pattern mode ignore_case filter (written_by hash commands)))
                limit
                none
              ≡ map
                  (λ n. n.fqn)
                  (found similar pattern mode ignore_case filter (written_by hash commands))))
find_symbol_complete similar hash commands pattern mode ignore_case filter limit =
    let db = written_by hash commands in
    let all = found similar pattern mode ignore_case filter db in
    let strict =
      found-IsStrict similar pattern mode ignore_case filter db (run-Unique hash commands) in
    let pages = all_pages_complete key_of_node all limit strict in
    (
      strict,
      (
        walk-all_pages similar pattern mode ignore_case filter db (λ r. r.nodes) false from_node
              (λ r. refl) (λ r. refl) (length all) limit none
            ∙ ap (map from_node) pages,
        walk-all_pages similar pattern mode ignore_case filter db (λ r. r.fqns) true (λ n. n.fqn)
              (λ r. refl) (λ r. refl) (length all) limit none
            ∙ ap (map (λ n. n.fqn)) pages,
      ),
    )
