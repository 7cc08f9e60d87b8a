-- ===== src/Query/CallPath/Scan.antt =====
-- src/query/ops.rs: the inner loop of `find_call_path`, over the callees of one node.
use semnav.Base.{
  ℕ, suc, ◌+◌, ◌≤◌, ◌≡◌, ◌≢◌, ◌⊎◌, refl, sym, ap, subst, ◌∙◌, Bool, true, false, ◌||◌, not,
  Bool-cases, Option-cases, inl, inr, Option, none, some, is_some, List, [], ◌∷◌, ◌++◌, All, any,
  retain, length, length-append, ◌==◌, ==_iff, arith,
}
use semnav.Base.Any.{or_true}
use semnav.Graph.Model.{Node}
use semnav.Graph.Db.State.{NodeRow}
use semnav.Query.Operations.{Group}
use semnav.Query.CallPath.{Entry, Search, visit, scan}

abbrev pub seen : ℕ → List ℕ → Bool
seen v = any (λ x. x == v)

abbrev pub queued : ℕ → List Entry → Bool
queued v = any (λ e. e.id == v)

-- The rows of the nodes that were not visited.
abbrev pub unvisited : List NodeRow → List ℕ → ℕ
unvisited rows visited = length (retain (λ r. not (seen r.id visited)) rows)

-- What is visited stays so; what is new is in the queue, and its row counts no more.
pub record Grows (rows : List NodeRow) (s s' : Search) : Type 0 where
  pub stays : (v : ℕ) → seen v s.visited ≡ true → seen v s'.visited ≡ true
  pub waits : (v : ℕ) → queued v s.queue ≡ true → queued v s'.queue ≡ true
  pub new :
      (v : ℕ) → seen v s'.visited ≡ true → (seen v s.visited ≡ true) ⊎ (queued v s'.queue ≡ true)
  pub limit : s'.limit_reached ≡ s.limit_reached
  pub work : unvisited rows s'.visited + length s'.queue ≤ unvisited rows s.visited + length s.queue

pub any-append :
    {A : Type 0} (p : A → Bool) (xs ys : List A) → any p (xs ++ ys) ≡ (any p xs || any p ys)
any-append p [] ys = refl
any-append p (x ∷ xs) ys = ground (arith, any-append p xs ys)

Grows-refl : (rows : List NodeRow) (s : Search) → Grows rows s s
Grows-refl rows s = record {
  stays = λ v h. h;
  waits = λ v h. h;
  new = λ v h. inl h;
  limit = refl;
  work = omega arith;
}

Grows-trans :
    (rows : List NodeRow) (a b c : Search) → Grows rows a b → Grows rows b c → Grows rows a c
Grows-trans rows a b c h k = record {
  stays = λ v t. k.stays v (h.stays v t);
  waits = λ v t. k.waits v (h.waits v t);
  new = λ v t. elim (k.new v t) [
    | inl l ↦ elim (h.new v l) [ inl m ↦ inl m | inr m ↦ inr (k.waits v m) ]
    | inr l ↦ inr l
  ];
  limit = k.limit ∙ h.limit;
  work = let l = h.work in let m = k.work in omega arith;
}

-- A row that becomes visited.
unvisited-le :
    (rows : List NodeRow) (id : ℕ) (visited : List ℕ)
    → unvisited rows (id ∷ visited) ≤ unvisited rows visited
unvisited-le [] id visited = omega arith
unvisited-le (r ∷ rows) id visited = let ih = unvisited-le rows id visited in ground (arith, ih)

unvisited-lt :
    (rows : List NodeRow) (id : ℕ) (visited : List ℕ)
    → any (λ r. r.id == id) rows ≡ true
    → seen id visited ≡ false
    → suc (unvisited rows (id ∷ visited)) ≤ unvisited rows visited
unvisited-lt [] id visited h k = cc
unvisited-lt (r ∷ rows) id visited h k = elim (Bool-cases (r.id == id)) [
  | inl e ↦
      let same : r.id ≡ id = (==_iff r.id id).0 e in
      let le = unvisited-le rows id visited in
      let was : seen r.id visited ≡ false = rw (same) k in
      let is : (id == r.id) ≡ true = (==_iff id r.id).1 (sym same) in
      rw (is, was) (omega (arith, le))
  | inr e ↦ let ih = unvisited-lt rows id visited (rw e at h) k in ground (arith, ih)
]

visit-Grows :
    (rows : List NodeRow) (id : ℕ) (node : Node) (path : List Node) (s : Search)
    → any (λ r. r.id == id) rows ≡ true
    → Grows rows s (visit id node path s) × (seen id (visit id node path s).visited ≡ true)
unfolding visit
visit-Grows rows id node path s h = elim (Bool-cases (any (λ v. v == id) s.visited)) [
  | inl e ↦ rw (visit, e) (Grows-refl rows s, e)
  | inr e ↦
      let self : (id == id) ≡ true = (==_iff id id).1 refl in
      rw (visit, e)
        (
          record {
            stays = λ v t. or_true (id == v) (seen v s.visited) t;
            waits = λ v t. rw (any-append (λ e. e.id == v) s.queue _, t) refl;
            new = λ v t. elim (Bool-cases (id == v)) [
              | inl same ↦
                  let last : (id == v || false) ≡ true = rw same refl in
                  inr (any-append (λ x. x.id == v) s.queue _ ∙ or_true _ _ last)
              | inr other ↦ inl (rw other at t)
            ];
            limit = refl;
            work = omega (
              arith,
              unvisited-lt rows id s.visited h e,
              length-append s.queue
                  (record { id = id; node = node; path = path ++ (node ∷ []) } ∷ []),
            );
          },
          rw self refl,
        )
]

visit-unseen :
    (to_id id : ℕ) (node : Node) (path : List Node) (s : Search)
    → (id == to_id) ≡ false
    → seen to_id s.visited ≡ false
    → seen to_id (visit id node path s).visited ≡ false
unfolding visit
visit-unseen to_id id node path s ne h = elim (Bool-cases (any (λ v. v == id) s.visited)) [
  | inl e ↦ rw (visit, e) h
  | inr e ↦ rw (visit, e, ne) h
]

-- A callee that has an id is a node of the table.
abbrev pub InTable : List NodeRow → Group → Type 0
InTable rows g = (v : ℕ) → g.0.id ≡ some v → any (λ r. r.id == v) rows ≡ true

-- What the scan does when it does not find the target.
pub record Passed (to_id : ℕ) (rows : List NodeRow) (groups : List Group) (s s' : Search)
    : Type 0 where
  pub grows : Grows rows s s'
  pub reached :
      All (λ g. (v : ℕ) → g.0.id ≡ some v → (seen v s'.visited ≡ true) × (v ≢ to_id)) groups
  pub unseen : seen to_id s.visited ≡ false → seen to_id s'.visited ≡ false

pub scan-Passed :
    (to_id : ℕ) (rows : List NodeRow) (path : List Node) (groups : List Group) (s s' : Search)
    → All (InTable rows) groups
    → (none, s') ≡ scan to_id path groups s
    → Passed to_id rows groups s s'
unfolding scan
scan-Passed to_id rows path [] s s' h e =
    let same : s ≡ s' = sym (ap (λ (p : Option (List Node) × Search). p.1) e) in
    subst (Passed to_id rows [] s) same
      (record { grows = Grows-refl rows s; reached = tt; unseen = λ k. k })
scan-Passed to_id rows path ((callee, sites) ∷ groups) s s' h e = elim (Option-cases callee.id) [
  | inl no_id ↦
      let k = scan-Passed to_id rows path groups s s' h.1 (rw (scan, no_id) at e) in
      record {
        grows = k.grows;
        reached = (λ v is. let it : none ≡ some v = sym no_id ∙ is in cc, k.reached);
        unseen = k.unseen;
      }
  | inr (id, has_id) ↦ elim (Bool-cases (id == to_id)) [
    | inl it ↦
        let bad : (none, s') ≡ (some (path ++ (callee ∷ [])), s) = rw (scan, has_id, it) at e in
        let no : false ≡ true = ap (λ (p : Option (List Node) × Search). is_some p.0) bad in
        absurd (cc no)
    | inr ne ↦
        let v1 = visit-Grows rows id callee path s (h.0 id has_id) in
        let k =
          scan-Passed to_id rows path groups (visit id callee path s) s' h.1
            (rw (scan, has_id, ne) at e) in
        record {
          grows = Grows-trans rows _ _ _ v1.0 k.grows;
          reached = (
            λ v is.
                let it : some id ≡ some v = sym has_id ∙ is in
                let same : id ≡ v = cc it in
                (
                  subst (λ x. seen x s'.visited ≡ true) same (k.grows.stays id v1.1),
                  λ bad. let t : (id == to_id) ≡ true = (==_iff id to_id).1 (same ∙ bad) in cc,
                ),
            k.reached,
          );
          unseen = λ t. k.unseen (visit-unseen to_id id callee path s ne t);
        }
  ]
]
