-- ===== src/Query/CallPath/Found.antt =====
-- src/query/ops.rs: the path that `find_call_path` returns is a chain of calls, and within the
-- requested depth.
use semnav.Base.{
  ℕ, suc, ◌≤◌, ◌<◌, ◌%◌, ◌^◌, ◌≡◌, ◌≢◌, refl, sym, ap, subst, ◌∙◌, Bool, true, false, ◌||◌,
  Bool-cases, Option-cases, inl, inr, Option, none, some, List, [], ◌∷◌, ◌++◌, All, All-append,
  All-map_of, any, length, length-append, ◌==◌, ==_iff, ltb, arith,
}
use semnav.Base.Any.{or_true}
use semnav.Graph.Model.{Node}
use semnav.Graph.Db.State.{Db}
use semnav.Graph.Db.EdgeKeys.{EdgeKeys}
use semnav.Graph.Db.EdgeKeys.Touches.{Touches, Touches-same}
use semnav.Query.Operations.{Group}
use semnav.Query.CallPath.{Entry, Search, too_long, expanded, visit, scan, start_search}
use semnav.Query.CallPath.Loop.{callees, Stepped, IsLoop}
use semnav.Query.CallPath.Callees.{calls, callees_sound}
use semnav.Query.CallPath.Scan.{seen, queued, any-append}
use semnav.Query.CallPath.Exhausted.{calls-kept, or_false, not_true}

-- A list of nodes, from `from` to `v`, in which each calls the next. The callers satisfy `D`.
pub data IsPath (D : ℕ → Type 0) (db : Db) (from : ℕ) : ℕ → List Node → Type 0 where
  single : (n : Node) → n.id ≡ some from → IsPath D db from from (n ∷ [])
  extend :
      (u v : ℕ) (p : List Node) (n : Node)
      → IsPath D db from u p
      → D u
      → calls db u v ≡ true
      → n.id ≡ some v
      → IsPath D db from v (p ++ (n ∷ []))

IsPath-map :
    (D D' : ℕ → Type 0) (db db' : Db) (from v : ℕ) (p : List Node)
    → ((u : ℕ) → D u → D' u)
    → ((u w : ℕ) → D u → calls db u w ≡ true → calls db' u w ≡ true)
    → IsPath D db from v p
    → IsPath D' db' from v p
IsPath-map D D' db db' from v p f g (single n e) = single n e
IsPath-map D D' db db' from v p f g (extend u w q n h d c e) =
    extend u w q n (IsPath-map D D' db db' from u q f g h) (f u d) (g u w d c) e

-- Visited and expanded.
abbrev Done : Search → ℕ → Type 0
Done s u = (seen u s.visited ≡ true) × (queued u s.queue ≡ false)

abbrev DistinctEntries : List Entry → Type 0
DistinctEntries [] = Unit
DistinctEntries (e ∷ es) = All (λ q. e.id ≢ q.id) es × DistinctEntries es

or_false_right : (a b : Bool) → (a || b) ≡ false → b ≡ false
or_false_right true b h = cc
or_false_right false b h = h

left_true : (a b : Bool) → (a || b) ≡ true → b ≡ false → a ≡ true
left_true true b h k = refl
left_true false b h k = let no : true ≡ false = sym h ∙ k in absurd (cc no)

both_false : (a b : Bool) → a ≡ false → b ≡ false → (a || b) ≡ false
both_false true b h k = cc
both_false false b h k = k

DistinctEntries-snoc :
    (es : List Entry) (e : Entry)
    → DistinctEntries es
    → queued e.id es ≡ false
    → DistinctEntries (es ++ (e ∷ []))
DistinctEntries-snoc [] e d q = (tt, tt)
DistinctEntries-snoc (x ∷ es) e d q =
    let ne : (x.id == e.id) ≡ false = or_false (x.id == e.id) (queued e.id es) q in
    (
      All-append (λ z. x.id ≢ z.id) es (e ∷ []) d.0
          ((λ same. let t : (x.id == e.id) ≡ true = (==_iff x.id e.id).1 same in cc), tt),
      DistinctEntries-snoc es e d.1 (or_false_right (x.id == e.id) (queued e.id es) q),
    )

module _ (from max_depth : ℕ) where
  -- An entry of the queue.
  abbrev Fits : Search → Db → Entry → Type 0
  Fits s db e = IsPath (Done s) db from e.id e.path × (length e.path ≤ suc max_depth)

  pub record Walking (s : Search) (db : Db) : Type 0 where
    pub entries : All (Fits s db) s.queue
    pub separate : DistinctEntries s.queue
    pub waiting : (v : ℕ) → queued v s.queue ≡ true → seen v s.visited ≡ true

  -- While the callees of `u` are scanned.
  pub record Scanning (u : ℕ) (path : List Node) (s : Search) (db : Db) : Type 0 where
    pub walking : Walking s db
    pub done : Done s u
    pub way : IsPath (Done s) db from u path
    pub short : length path ≤ max_depth

  -- What is visited is not the new node.
  not_new :
      (id v : ℕ) (visited : List ℕ)
      → seen id visited ≡ false
      → seen v visited ≡ true
      → (id == v) ≡ false
  not_new id v visited out was = elim (Bool-cases (id == v)) [
    | inr t ↦ t
    | inl t ↦
        let same : id ≡ v = (==_iff id v).0 t in
        let no : true ≡ false = sym was ∙ subst (λ x. seen x visited ≡ false) same out in
        absurd (cc no)
  ]

  abbrev pushed : ℕ → Entry → Search → Search
  pushed id e s = record s { visited = id ∷ s.visited; queue = s.queue ++ (e ∷ []) }

  Done-pushed :
      (e : Entry) (s : Search) (v : ℕ)
      → seen e.id s.visited ≡ false
      → Done s v
      → Done (pushed e.id e s) v
  Done-pushed e s v out d = (
    or_true (e.id == v) _ d.0,
    any-append (λ x. x.id == v) s.queue (e ∷ [])
        ∙ both_false _ _ d.1 (both_false _ _ (not_new e.id v s.visited out d.0) refl),
  )

  pushed-Scanning :
      (u : ℕ) (path : List Node) (e : Entry) (s : Search) (db : Db)
      → seen e.id s.visited ≡ false
      → Scanning u path s db
      → e.path ≡ path ++ (e.node ∷ [])
      → e.node.id ≡ some e.id
      → calls db u e.id ≡ true
      → Scanning u path (pushed e.id e s) db
  pushed-Scanning u path e s db out h is has c =
      let s' = pushed e.id e s in
      let keep : (v : ℕ) → Done s v → Done s' v = λ v. Done-pushed e s v out in
      let way = IsPath-map (Done s) (Done s') db db from u path keep (λ a b d t. t) h.way in
      record {
        walking = record {
          entries =
              All-append (Fits s' db) s.queue (e ∷ [])
                (All-map_of
                  (λ q k. (
                    IsPath-map (Done s) (Done s') db db from q.id q.path keep (λ a b d t. t) k.0,
                    k.1,
                  ))
                  s.queue h.walking.entries)
                (
                  (
                    subst (IsPath (Done s') db from e.id) (sym is)
                        (extend u e.id path e.node way (keep u h.done) c has),
                    rw (is, length-append path (e.node ∷ [])) (let l = h.short in omega arith),
                  ),
                  tt,
                );
          separate =
              DistinctEntries-snoc s.queue e h.walking.separate
                (not_true (h.walking.waiting e.id) out);
          waiting = λ v t. elim (Bool-cases (e.id == v)) [
            | inl same ↦ rw same refl
            | inr ne ↦
                let split = sym (any-append (λ x. x.id == v) s.queue (e ∷ [])) ∙ t in
                or_true _ _
                  (h.walking.waiting v (left_true (queued v s.queue) _ split (rw ne refl)))
          ];
        };
        done = keep u h.done;
        way = way;
        short = h.short;
      }

  visit-Scanning :
      (u id : ℕ) (node : Node) (path : List Node) (s : Search) (db : Db)
      → Scanning u path s db
      → node.id ≡ some id
      → calls db u id ≡ true
      → Scanning u path (visit id node path s) db
  unfolding visit
  visit-Scanning u id node path s db h e c = elim (Bool-cases (any (λ v. v == id) s.visited)) [
    | inl t ↦ rw (visit, t) h
    | inr t ↦
        rw (visit, t)
          (pushed-Scanning u path (record { id = id; node = node; path = path ++ (node ∷ []) }) s db
            t h refl e c)
  ]

  -- What a scan leaves: the path to the target, or the entries for the next turn.
  abbrev Scanned : ℕ → Option (List Node) × Search → Db → Type 0
  Scanned to_id (none, s) db = Walking s db
  Scanned to_id (some p, s) db = IsPath (λ v. Unit) db from to_id p × (length p ≤ suc max_depth)

  abbrev IsCalled : Db → ℕ → Group → Type 0
  IsCalled db u g = (v : ℕ) → g.0.id ≡ some v → calls db u v ≡ true

  scan-Scanned :
      (to_id u : ℕ) (path : List Node) (groups : List Group) (s : Search) (db : Db)
      → All (IsCalled db u) groups
      → Scanning u path s db
      → Scanned to_id (scan to_id path groups s) db
  unfolding scan
  scan-Scanned to_id u path [] s db c h = h.walking
  scan-Scanned to_id u path ((callee, sites) ∷ groups) s db c h = elim (Option-cases callee.id) [
    | inl no_id ↦ rw (scan, no_id) (scan-Scanned to_id u path groups s db c.1 h)
    | inr (id, has_id) ↦ elim (Bool-cases (id == to_id)) [
      | inl it ↦
          let same : id ≡ to_id = (==_iff id to_id).0 it in
          let way =
            IsPath-map (Done s) (λ v. Unit) db db from u path (λ v d. tt) (λ a b d t. t) h.way in
          rw (scan, has_id, it)
            (
              subst (λ v. IsPath (λ x. Unit) db from v (path ++ (callee ∷ []))) same
                  (extend u id path callee way tt (c.0 id has_id) has_id),
              rw (length-append path (callee ∷ [])) (let l = h.short in omega arith),
            )
      | inr ne ↦
          rw (scan, has_id, ne)
            (scan-Scanned to_id u path groups (visit id callee path s) db c.1
              (visit-Scanning u id callee path s db h has_id (c.0 id has_id)))
    ]
  ]

  Done-pop :
      (s s1 : Search) (e : Entry) (rest : List Entry) (v : ℕ)
      → s.queue ≡ e ∷ rest
      → s1.visited ≡ s.visited
      → s1.queue ≡ rest
      → Done s v
      → Done s1 v × (v ≢ e.id)
  Done-pop s s1 e rest v q vs qs d =
      let out : queued v (e ∷ rest) ≡ false = sym (ap (queued v) q) ∙ d.1 in
      let ne : (e.id == v) ≡ false = or_false (e.id == v) (queued v rest) out in
      (
        (ap (seen v) vs ∙ d.0, ap (queued v) qs ∙ or_false_right (e.id == v) (queued v rest) out),
        λ same. let t : (e.id == v) ≡ true = (==_iff e.id v).1 (sym same) in cc,
      )

  -- After the first entry left the queue, with the calls of the other nodes as before.
  pop-Fits :
      (s s1 : Search) (db db' : Db) (e : Entry) (rest : List Entry)
      → s.queue ≡ e ∷ rest
      → s1.visited ≡ s.visited
      → s1.queue ≡ rest
      → Walking s db
      → Touches e.id db db'
      → All (Fits s1 db') (e ∷ rest)
  pop-Fits s s1 db db' e rest q vs qs h t =
      All-map_of
        (λ x k. (
          IsPath-map (Done s) (Done s1) db db' from x.id x.path
              (λ v d. (Done-pop s s1 e rest v q vs qs d).0)
              (λ u w d c. calls-kept e.id u w db db' t (Done-pop s s1 e rest u q vs qs d).1 ∙ c)
              k.0,
          k.1,
        ))
        (e ∷ rest) (subst (All (Fits s db)) q h.entries)

  pop-Walking :
      (s s1 : Search) (db db' : Db) (e : Entry) (rest : List Entry)
      → s.queue ≡ e ∷ rest
      → s1.visited ≡ s.visited
      → s1.queue ≡ rest
      → Walking s db
      → Touches e.id db db'
      → Walking s1 db'
  pop-Walking s s1 db db' e rest q vs qs h t = record {
    entries = subst (All (Fits s1 db')) (sym qs) (pop-Fits s s1 db db' e rest q vs qs h t).1;
    separate = subst DistinctEntries (sym qs) (subst DistinctEntries q h.separate).1;
    waiting = λ v w.
        ap (seen v) vs
        ∙ h.waiting v
            (ap (queued v) q ∙ or_true (e.id == v) (queued v rest) (sym (ap (queued v) qs) ∙ w));
  }

  not_queued : (id : ℕ) (es : List Entry) → All (λ z. id ≢ z.id) es → queued id es ≡ false
  not_queued id [] h = refl
  not_queued id (x ∷ es) h =
      both_false (x.id == id) (queued id es)
        (elim (Bool-cases (x.id == id)) [
          | inr t ↦ t
          | inl t ↦ absurd (h.0 (sym ((==_iff x.id id).0 t)))
        ])
        (not_queued id es h.1)

  hops :
      (n : ℕ)
      → suc max_depth < 2 ^ 32
      → n ≤ suc max_depth
      → ltb max_depth (n % 2 ^ 32) ≡ false
      → n ≤ max_depth
  hops n m l h = ground arith

  first_queued : (e : Entry) (rest : List Entry) → queued e.id (e ∷ rest) ≡ true
  first_queued e rest = let self : (e.id == e.id) ≡ true = (==_iff e.id e.id).1 refl in rw self refl

  turn-Scanned :
      (to_id : ℕ) (s : Search) (db db' : Db) (e : Entry) (rest : List Entry)
      (r : Option (List Node) × Search)
      → suc max_depth < 2 ^ 32
      → Walking s db
      → EdgeKeys db
      → s.queue ≡ e ∷ rest
      → too_long max_depth e ≡ false
      → Stepped to_id e (record s { queue = rest }) db r db'
      → Scanned to_id r db'
  turn-Scanned to_id s db db' e rest r m h k q short t =
      let s1 = expanded (record s { queue = rest }) t.usable t.timed_out t.remaining in
      let touches = t.only k in
      let fits = pop-Fits s s1 db db' e rest q refl refl h touches in
      let first : queued e.id s.queue ≡ true = ap (queued e.id) q ∙ first_queued e rest in
      subst (λ x. Scanned to_id x db') (sym t.scanned)
        (scan-Scanned to_id e.id e.path (callees e.id db') s1 db' (callees_sound db' e.id) (record {
          walking = pop-Walking s s1 db db' e rest q refl refl h touches;
          done =
              (h.waiting e.id first, not_queued e.id rest (subst DistinctEntries q h.separate).0);
          way = fits.0.0;
          short = hops (length e.path) m fits.0.1 short;
        }))

  abbrev pub WalkingFrom : ℕ → Search → Db → Type 0
  WalkingFrom n s db = Walking s db × EdgeKeys db

  -- The path is one of calls, and at most `max_depth` hops long.
  abbrev pub IsAnswer : ℕ → List Node → Db → Type 0
  IsAnswer to_id p db = IsPath (λ v. Unit) db from to_id p × (length p ≤ suc max_depth)

  pub Walking-IsLoop :
      (to_id : ℕ) → suc max_depth < 2 ^ 32 → IsLoop to_id max_depth WalkingFrom (IsAnswer to_id)
  Walking-IsLoop to_id m = record {
    skip = λ n s db e rest p q. (
      pop-Walking s (record s { queue = rest; limit_reached = true }) db db e rest q refl refl p.0
          (Touches-same e.id db p.1),
      p.1,
    );
    stop = λ n s db db' e rest path s' p q short t.
        turn-Scanned to_id s db db' e rest (some path, s') m p.0 p.1 q short t;
    next = λ n s db db' e rest s' p q short t.
        (turn-Scanned to_id s db db' e rest (none, s') m p.0 p.1 q short t, (t.only p.1).keys);
  }

  pub Walking-start :
      (origin : Node) (budget : ℕ) (timed_out : Bool) (db : Db)
      → origin.id ≡ some from
      → Walking (start_search from origin budget timed_out) db
  Walking-start origin budget timed_out db e = record {
    entries = ((single origin e, omega arith), tt);
    separate = (tt, tt);
    waiting = λ v h. h;
  }
