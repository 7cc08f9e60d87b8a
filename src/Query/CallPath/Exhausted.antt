-- ===== src/Query/CallPath/Exhausted.antt =====
-- src/query/ops.rs: a search of `find_call_path` that ends without a path and without a limit has
-- proved that there is none, and every search ends.
use semnav.Base.{
  ℕ, suc, ◌+◌, ◌≤◌, ◌<◌, ◌≡◌, ◌≢◌, refl, sym, ap, subst, ◌∙◌, Bool, true, false, ◌&&◌, ◌||◌, not,
  Bool-cases, inl, inr, Option, none, some, List, [], ◌∷◌, All, All-map_of, any, retain, find_first,
  length, opt_eq, ◌==◌, ==_iff, arith,
}
use semnav.Base.Any.{and_true, any-All}
use semnav.Graph.Model.{Node}
use semnav.Graph.Db.State.{NodeRow, EdgeRow, Db}
use semnav.Graph.Db.Unique.{Unique}
use semnav.Graph.Db.EdgeKeys.{EdgeKeys, calls_of}
use semnav.Graph.Db.EdgeKeys.Touches.{Touches}
use semnav.Query.Operations.Frames.{KeepsNodes-Unique, Touches-KeepsNodes}
use semnav.Query.CallPath.{Entry, Search, too_long, expanded, start_search}
use semnav.Query.CallPath.Loop.{callees, Stepped, IsLoop}
use semnav.Query.CallPath.Callees.{is_valid, live, live-row, calls, callees_complete, callees_sound}
use semnav.Query.CallPath.Scan.{seen, queued, unvisited, InTable, Passed, scan-Passed}

opt_eq-some : (o : Option ℕ) (v : ℕ) → opt_eq ◌==◌ o (some v) ≡ true → o ≡ some v
opt_eq-some none v h = cc
opt_eq-some (some n) v h = ap some ((==_iff n v).0 h)

pub or_false : (a b : Bool) → (a || b) ≡ false → a ≡ false
or_false true b h = cc
or_false false b h = refl

pub not_true : {b c : Bool} → (b ≡ true → c ≡ true) → c ≡ false → b ≡ false
not_true {b = true} h k = let t = h refl in cc
not_true {b = false} h k = refl

-- A chain of calls from one node to another, of any length.
pub data CallChain (db : Db) : ℕ → ℕ → Type 0 where
  here : (u : ℕ) → CallChain db u u
  there : (u v w : ℕ) → calls db u v ≡ true → CallChain db v w → CallChain db u w

any-retain :
    (p q : EdgeRow → Bool) (xs : List EdgeRow) → any (λ r. p r && q r) xs ≡ any q (retain p xs)
any-retain p q [] = refl
any-retain p q (x ∷ xs) = ground (arith, any-retain p q xs)

by_source :
    (db : Db) (u v : ℕ) → calls db u v ≡ (any (λ r. r.dst_id == v) (calls_of u db) && live v db)
unfolding calls
by_source db u v = ap (λ b. b && live v db) (any-retain _ _ db.edges)

find_first-any :
    (p : NodeRow → Bool) (rows : List NodeRow) {r : NodeRow}
    → find_first p rows ≡ some r
    → any p rows ≡ true
find_first-any p [] e = cc
find_first-any p (x ∷ rows) e = elim (Bool-cases (p x)) [
  | inl t ↦ rw t refl
  | inr t ↦ rw t (find_first-any p rows (rw t at e))
]

-- The calls of another node than the expanded one.
pub calls-kept : (e u v : ℕ) (db db' : Db) → Touches e db db' → u ≢ e → calls db' u v ≡ calls db u v
calls-kept e u v db db' t ne =
    by_source db' u v
    ∙ (ap (λ rs. any (λ r. r.dst_id == v) rs && live v db') (t.others u ne)
        ∙ (ap (λ b. any (λ r. r.dst_id == v) (calls_of u db) && b)
              (ap (λ rows. is_valid (find_first (λ n. n.id == v) rows)) t.nodes)
            ∙ sym (by_source db u v)))

-- What is called stands in the table.
callees-InTable : (db : Db) (u : ℕ) → All (InTable db.nodes) (callees u db)
unfolding calls
callees-InTable db u =
    All-map_of
      (λ g k v is.
        let (q, found, valid, id) = live-row db u v (and_true _ (live v db) (k v is)).1 in
        find_first-any (λ r. r.id == v) db.nodes found)
      (callees u db) (callees_sound db u)

module _ (from to_id : ℕ) where
  -- The variables at the start of a turn, with `n` turns left.
  pub record Searching (n : ℕ) (s : Search) (db : Db) : Type 0 where
    pub keys : EdgeKeys db
    pub unique : Unique db
    pub begun : seen from s.visited ≡ true
    pub unseen : seen to_id s.visited ≡ false
    pub closed :
        s.limit_reached ≡ false
        → (u v : ℕ) → seen u s.visited ≡ true
        → queued u s.queue ≡ false
        → calls db u v ≡ true
        → seen v s.visited ≡ true
    pub work : unvisited db.nodes s.visited + length s.queue < n

  -- Dropping a path that is too long is a limit.
  Searching-skip :
      (n : ℕ) (s : Search) (db : Db) (e : Entry) (rest : List Entry)
      → Searching (suc n) s db
      → s.queue ≡ e ∷ rest
      → Searching n (record s { queue = rest; limit_reached = true }) db
  Searching-skip n s db e rest p q = record {
    keys = p.keys;
    unique = p.unique;
    begun = p.begun;
    unseen = p.unseen;
    closed = λ limit. cc;
    work = let l = p.work in let k = ap length q in omega arith;
  }

  -- A node that was not expanded in this turn.
  closed_before :
      (n : ℕ) (s : Search) (db db' : Db) (e : Entry) (rest : List Entry) (u v : ℕ)
      → Searching (suc n) s db
      → s.queue ≡ e ∷ rest
      → Touches e.id db db'
      → s.limit_reached ≡ false
      → (e.id == u) ≡ false
      → seen u s.visited ≡ true
      → queued u rest ≡ false
      → calls db' u v ≡ true
      → seen v s.visited ≡ true
  closed_before n s db db' e rest u v p q t limit ne was out call =
      let other : u ≢ e.id =
        λ same. let x : (e.id == u) ≡ true = (==_iff e.id u).1 (sym same) in cc in
      p.closed limit u v was
        (ap (queued u) q ∙ (let last : queued u (e ∷ rest) ≡ false = rw ne out in last))
        (sym (calls-kept e.id u v db db' t other) ∙ call)

  -- The node that was expanded.
  closed_now :
      (db' : Db) (e : Entry) (s s' : Search) (v : ℕ)
      → Unique db'
      → Passed to_id db'.nodes (callees e.id db') s s'
      → calls db' e.id v ≡ true
      → seen v s'.visited ≡ true
  closed_now db' e s s' v u passed call =
      let (g, is, reached) =
        any-All _ _ (callees e.id db') (callees_complete db' e.id v u call) passed.reached in
      (reached v (opt_eq-some g.0.id v is)).0

  Searching-next :
      (max_depth n : ℕ) (s : Search) (db db' : Db) (e : Entry) (rest : List Entry) (s' : Search)
      → Searching (suc n) s db
      → s.queue ≡ e ∷ rest
      → too_long max_depth e ≡ false
      → Stepped to_id e (record s { queue = rest }) db (none, s') db'
      → Searching n s' db'
  Searching-next max_depth n s db db' e rest s' p q short t =
      let touches = t.only p.keys in
      let unique = KeepsNodes-Unique db db' (Touches-KeepsNodes e.id db db' touches) p.unique in
      let passed =
        scan-Passed to_id db'.nodes e.path (callees e.id db')
          (expanded (record s { queue = rest }) t.usable t.timed_out t.remaining) s'
          (callees-InTable db' e.id) t.scanned in
      record {
        keys = touches.keys;
        unique = unique;
        begun = passed.grows.stays from p.begun;
        unseen = passed.unseen p.unseen;
        closed = λ limit u v was out call. elim (Bool-cases (e.id == u)) [
          | inl now ↦
              let same : e.id ≡ u = (==_iff e.id u).0 now in
              closed_now db' e _ s' v unique passed
                (subst (λ x. calls db' x v ≡ true) (sym same) call)
          | inr ne ↦ elim (passed.grows.new u was) [
            | inr waits ↦ absurd (let no : true ≡ false = sym waits ∙ out in cc no)
            | inl before ↦ passed.grows.stays v (
                closed_before n s db db' e rest u v p q touches
                  (or_false _ _ (sym passed.grows.limit ∙ limit)) ne before
                  (not_true (passed.grows.waits u) out) call)
          ]
        ];
        work =
            let fewer = passed.grows.work in
            let before = p.work in
            let one = ap length q in
            let rows = ap (λ rs. unvisited rs s.visited) touches.nodes in omega arith;
      }

  pub Searching-IsLoop : (max_depth : ℕ) → IsLoop to_id max_depth Searching (λ path db. Unit)
  Searching-IsLoop max_depth = record {
    skip = Searching-skip;
    stop = λ n s db db' e rest path s' p q l t. tt;
    next = Searching-next max_depth;
  }

  -- With the queue empty, all that is reached was visited.
  reached-seen :
      (n : ℕ) (s : Search) (db : Db) (u v : ℕ)
      → Searching n s db
      → s.queue ≡ []
      → s.limit_reached ≡ false
      → seen u s.visited ≡ true
      → CallChain db u v
      → seen v s.visited ≡ true
  reached-seen n s db u v p q limit was (here w) = was
  reached-seen n s db u v p q limit was (there a b c call rest) =
      reached-seen n s db b v p q limit (p.closed limit a b was (ap (queued a) q) call) rest

  pub no_reach :
      (n : ℕ) (s : Search) (db : Db)
      → Searching n s db
      → s.queue ≡ []
      → s.limit_reached ≡ false
      → ¬ CallChain db from to_id
  no_reach n s db p q limit chain =
      let was = reached-seen n s db from to_id p q limit p.begun chain in
      let no : true ≡ false = sym was ∙ p.unseen in cc no

length-retain : (p : NodeRow → Bool) (rows : List NodeRow) → length (retain p rows) ≤ length rows
length-retain p [] = omega arith
length-retain p (r ∷ rows) = let ih = length-retain p rows in ground (arith, ih)

pub Searching-start :
    (from to_id : ℕ) (origin : Node) (budget : ℕ) (timed_out : Bool) (db : Db)
    → EdgeKeys db
    → Unique db
    → (from == to_id) ≡ false
    → Searching from to_id
        (suc (suc (length db.nodes)))
        (start_search from origin budget timed_out)
        db
Searching-start from to_id origin budget timed_out db k u ne = record {
  keys = k;
  unique = u;
  begun = let self : (from == from) ≡ true = (==_iff from from).1 refl in rw self refl;
  unseen = rw ne refl;
  closed = λ limit a b was out. absurd (let no : true ≡ false = sym was ∙ out in cc no);
  work = let le = length-retain (λ r. not (seen r.id (from ∷ []))) db.nodes in omega arith;
}
