-- ===== src/Query/CallPath/Result.antt =====
-- src/query/ops.rs: what a result of `find_call_path` means.
use mathlib.Core.Option
use semnav.Base.{
  ℕ, suc, ◌<◌, ◌≡◌, ◌≢◌, refl, sym, ap, subst, ◌∙◌, ◌^◌, ◌≤◌, Bool, true, false, ◌||◌, Bool-cases,
  inl, inr, Option, none, some, List, [], ◌∷◌, length, map, ◌==◌, ==_iff, arith,
}
use semnav.Graph.Model.{Node}
use semnav.Graph.Db.State.{ok, Db}
use semnav.Graph.Db.Unique.{Unique}
use semnav.Graph.Db.EdgeKeys.{EdgeKeys}
use semnav.Query.Filter.{SymbolRef, fqn_ref, at}
use semnav.Query.Engine.{QueryEngine, World}
use semnav.Query.Engine.Post.{Post, Post-bind, Post-map, Post-any, >>=-runs, pure-Post}
use semnav.Query.Operations.{Client, with_id, resolve_anchor_id}
use semnav.Query.Engine.Keeps.{Keeps-ran}
use semnav.Query.Operations.Keeps.{resolve_anchor_id-Keeps}
use semnav.Query.Operations.Frames.{OnlyEdges, KeepsNodes, KeepsNodes-Unique, edges_frame}
use semnav.Query.CallPath.{
  FindCallPathResult, SearchOutcome, found, exhausted, out_of_fuel, start_search, search_from,
  path_between, path_result, find_call_path,
}
use semnav.Query.CallPath.Loop.{Ended, search-Post}
use semnav.Query.Dto.{from_node}
use semnav.Query.CallPath.Found.{
  IsPath, single, WalkingFrom, IsAnswer, Walking-IsLoop, Walking-start,
}
use semnav.Query.CallPath.Exhausted.{
  CallChain, Searching, Searching-IsLoop, Searching-start, no_reach,
}

-- A search that ended without a path and without a limit; no search runs out of fuel.
abbrev HonestEnd : ℕ → ℕ → SearchOutcome → Db → Type 0
HonestEnd from to_id (found path timed_out) db = Unit
HonestEnd from to_id (exhausted s) db = s.limit_reached ≡ false → ¬ CallChain db from to_id
HonestEnd from to_id out_of_fuel db = ⊥

-- A result is there, and its negative answer, if no limit was reached, is a proof.
abbrev Honest : ℕ → ℕ → Option (FindCallPathResult × Bool) → Db → Type 0
Honest from to_id none db = ⊥
Honest from to_id (some (r, timed_out)) db =
    r.reachable ≡ false → r.limit_reached ≡ false → ¬ CallChain db from to_id

-- The path that a search returned.
abbrev AnswerEnd : ℕ → ℕ → ℕ → SearchOutcome → Db → Type 0
AnswerEnd from to_id max_depth (found path timed_out) db = IsAnswer from max_depth to_id path db
AnswerEnd from to_id max_depth (exhausted s) db = Unit
AnswerEnd from to_id max_depth out_of_fuel db = Unit

-- A positive answer shows a chain of calls.
abbrev Answered : ℕ → ℕ → ℕ → Option (FindCallPathResult × Bool) → Db → Type 0
Answered from to_id max_depth none db = Unit
Answered from to_id max_depth (some (r, timed_out)) db =
    r.reachable ≡ true
    → (p : List Node) × (r.path ≡ map from_node p) × IsAnswer from max_depth to_id p db

Ended-AnswerEnd :
    (from to_id max_depth : ℕ) (o : SearchOutcome) (db : Db)
    → Ended (WalkingFrom from max_depth) (IsAnswer from max_depth to_id) o db
    → AnswerEnd from to_id max_depth o db
Ended-AnswerEnd from to_id max_depth (found path timed_out) db h = h
Ended-AnswerEnd from to_id max_depth (exhausted s) db h = tt
Ended-AnswerEnd from to_id max_depth out_of_fuel db h = tt

AnswerEnd-Answered :
    (from to_id max_depth : ℕ) (o : SearchOutcome) (db : Db)
    → AnswerEnd from to_id max_depth o db
    → Answered from to_id max_depth (path_result o) db
AnswerEnd-Answered from to_id max_depth (found path timed_out) db h = λ e. (path, refl, h)
AnswerEnd-Answered from to_id max_depth (exhausted s) db h = λ e. cc
AnswerEnd-Answered from to_id max_depth out_of_fuel db h = tt

-- An anchor carries its id.
abbrev CarriesId : Option (ℕ × Node) × Bool → Db → Type 0
CarriesId (anchor, t) db = (a : ℕ) (n : Node) → anchor ≡ some (a, n) → n.id ≡ some a

mapped_id :
    (o : Option ℕ) (x n : Node) (a : ℕ)
    → Option.map {B = ℕ × Node} (λ id. (id, x)) o ≡ some (a, n)
    → (o ≡ some a) × (x ≡ n)
mapped_id none x n a e = absurd (cc e)
mapped_id (some i) x n a e =
    let it : some (i, x) ≡ some (a, n) = e in
    let same : (i, x) ≡ (a, n) = cc it in
    (ap (λ (p : ℕ × Node). some p.0) same, ap (λ (p : ℕ × Node). p.1) same)

with_id-CarriesId : (found : Option Node) (t : Bool) (db : Db) → CarriesId (with_id found, t) db
unfolding Option.bind
with_id-CarriesId none t db a n e = absurd (cc e)
with_id-CarriesId (some x) t db a n e =
    let (id, same) = mapped_id x.id x n a e in sym (ap (λ (z : Node). z.id) same) ∙ id

Ended-HonestEnd :
    (from to_id : ℕ) (o : SearchOutcome) (db : Db)
    → Ended (Searching from to_id) (λ path d. Unit) o db
    → HonestEnd from to_id o db
Ended-HonestEnd from to_id (found path timed_out) db h = tt
Ended-HonestEnd from to_id (exhausted s) db (n, p, q) = no_reach from to_id n s db p q
Ended-HonestEnd from to_id out_of_fuel db (s, p) = let l = p.work in absurd (omega arith)

HonestEnd-Honest :
    (from to_id : ℕ) (o : SearchOutcome) (db : Db)
    → HonestEnd from to_id o db
    → Honest from to_id (path_result o) db
HonestEnd-Honest from to_id (found path timed_out) db h = λ e. cc
HonestEnd-Honest from to_id (exhausted s) db h = λ e. h
HonestEnd-Honest from to_id out_of_fuel db h = h

resolve-CarriesId :
    {S Raw : Type 0} (engine : QueryEngine) (symref : SymbolRef) (client : Client S Raw)
    (w : World S)
    → Post CarriesId (resolve_anchor_id engine symref client w)
unfolding resolve_anchor_id
resolve-CarriesId engine (fqn_ref fqn) client w =
    Post-bind (λ r db. Unit) CarriesId _ _ w (Post-any _)
      (λ found w' h. pure-Post CarriesId _ w' (with_id-CarriesId found false w'.db))
resolve-CarriesId engine (at uri line character) (some client) w =
    Post-bind (λ r db. Unit) CarriesId _ _ w (Post-any _)
      (λ r w' h. pure-Post CarriesId _ w' (with_id-CarriesId r.0 r.1 w'.db))
resolve-CarriesId engine (at uri line character) none w =
    Post-bind (λ r db. Unit) CarriesId _ _ w (Post-any _)
      (λ found w' h. pure-Post CarriesId _ w' (with_id-CarriesId found false w'.db))

module _ {S Raw : Type 0} (engine : QueryEngine) (client : Client S Raw) where
  path_between-Post :
      (from to_id : ℕ) (origin : Node) (max_depth budget : ℕ) (timed_out : Bool) (w : World S)
      → Unique w.db
      → EdgeKeys w.db
      → Post
          (HonestEnd from to_id)
          (path_between engine from origin to_id max_depth budget client timed_out w)
  unfolding path_between
  path_between-Post from to_id origin max_depth budget timed_out w u k =
      elim (Bool-cases (from == to_id)) [
        | inl e ↦ rw (path_between, e) (pure-Post (HonestEnd from to_id) _ w tt)
        | inr e ↦
            let s = start_search from origin budget timed_out in
            rw (path_between, e)
              (Post-map _ _ (search_from engine to_id max_depth client s w)
                (search-Post engine to_id max_depth client (Searching-IsLoop from to_id max_depth)
                  (suc (suc (length w.db.nodes))) s w
                  (Searching-start from to_id origin budget timed_out w.db k u e))
                (Ended-HonestEnd from to_id))
      ]

  resolved_db :
      (symref : SymbolRef) (w w' : World S) (r : Option (ℕ × Node) × Bool)
      → resolve_anchor_id engine symref client w ≡ (ok r, w')
      → Unique w.db
      → EdgeKeys w.db
      → Unique w'.db × EdgeKeys w'.db
  resolved_db symref w w' r e u k =
      let kept : KeepsNodes w.db w'.db =
        Keeps-ran OnlyEdges (resolve_anchor_id engine symref client) w w' _
          (resolve_anchor_id-Keeps engine edges_frame symref client) e k in
      (KeepsNodes-Unique w.db w'.db kept u, kept.keys)

  find_call_path-Honest :
      (from to : SymbolRef) (max_depth budget : ℕ) (w w1 w2 : World S) (a b : ℕ) (n m : Node)
      (t1 t2 : Bool)
      → Unique w.db
      → EdgeKeys w.db
      → resolve_anchor_id engine from client w ≡ (ok (some (a, n), t1), w1)
      → resolve_anchor_id engine to client w1 ≡ (ok (some (b, m), t2), w2)
      → Post (Honest a b) (find_call_path engine from to max_depth budget client w)
  unfolding find_call_path
  find_call_path-Honest from to max_depth budget w w1 w2 a b n m t1 t2 u k e1 e2 =
      let first = resolved_db from w w1 _ e1 u k in
      let both = resolved_db to w1 w2 _ e2 first.0 first.1 in
      rw (>>=-runs _ _ w w1 _ e1, >>=-runs _ _ w1 w2 _ e2)
        (Post-bind (HonestEnd a b) (Honest a b) _ _ w2
          (path_between-Post a b n max_depth budget (t1 || t2) w2 both.0 both.1)
          (λ o w' h. pure-Post (Honest a b) _ w' (HonestEnd-Honest a b o w'.db h)))

  start-Post :
      (from to_id : ℕ) (origin : Node) (max_depth budget : ℕ) (timed_out : Bool) (w : World S)
      → suc max_depth < 2 ^ 32
      → EdgeKeys w.db
      → origin.id ≡ some from
      → Post
          (AnswerEnd from to_id max_depth)
          (path_between engine from origin to_id max_depth budget client timed_out w)
  unfolding path_between
  start-Post from to_id origin max_depth budget timed_out w m k id =
      elim (Bool-cases (from == to_id)) [
        | inl e ↦
            rw (path_between, e)
              (pure-Post (AnswerEnd from to_id max_depth) _ w (
                subst (λ v. IsPath (λ x. Unit) w.db from v (origin ∷ [])) ((==_iff from to_id).0 e)
                    (single origin id),
                omega arith,
              ))
        | inr e ↦
            let s = start_search from origin budget timed_out in
            rw (path_between, e)
              (Post-map _ _ (search_from engine to_id max_depth client s w)
                (search-Post engine to_id max_depth client (Walking-IsLoop from max_depth to_id m)
                  (suc (suc (length w.db.nodes))) s w
                  (Walking-start from max_depth origin budget timed_out w.db id, k))
                (Ended-AnswerEnd from to_id max_depth))
      ]

  find_call_path-Answered :
      (from to : SymbolRef) (max_depth budget : ℕ) (w w1 w2 : World S) (a b : ℕ) (n m : Node)
      (t1 t2 : Bool)
      → suc max_depth < 2 ^ 32
      → Unique w.db
      → EdgeKeys w.db
      → resolve_anchor_id engine from client w ≡ (ok (some (a, n), t1), w1)
      → resolve_anchor_id engine to client w1 ≡ (ok (some (b, m), t2), w2)
      → Post (Answered a b max_depth) (find_call_path engine from to max_depth budget client w)
  unfolding find_call_path
  find_call_path-Answered from to max_depth budget w w1 w2 a b n m t1 t2 d u k e1 e2 =
      let first = resolved_db from w w1 _ e1 u k in
      let both = resolved_db to w1 w2 _ e2 first.0 first.1 in
      let id : n.id ≡ some a =
        subst (Post CarriesId) e1 (resolve-CarriesId engine from client w) a n refl in
      rw (>>=-runs _ _ w w1 _ e1, >>=-runs _ _ w1 w2 _ e2)
        (Post-bind (AnswerEnd a b max_depth) (Answered a b max_depth) _ _ w2
          (start-Post a b n max_depth budget (t1 || t2) w2 d both.1 id)
          (λ o w' h.
            pure-Post (Answered a b max_depth) _ w' (AnswerEnd-Answered a b max_depth o w'.db h)))

  -- The search for a path between two nodes that were resolved ends: it does not run out of the
  -- turns that the model gives it, two more than there are nodes.
  pub find_call_path_ends :
      (from to : SymbolRef) (max_depth budget : ℕ) (w w1 w2 w' : World S) (a b : ℕ) (n m : Node)
      (t1 t2 : Bool)
      → Unique w.db
      → EdgeKeys w.db
      → resolve_anchor_id engine from client w ≡ (ok (some (a, n), t1), w1)
      → resolve_anchor_id engine to client w1 ≡ (ok (some (b, m), t2), w2)
      → find_call_path engine from to max_depth budget client w ≢ (ok none, w')
  find_call_path_ends from to max_depth budget w w1 w2 w' a b n m t1 t2 u k e1 e2 run =
      subst (Post (Honest a b)) run
        (find_call_path-Honest from to max_depth budget w w1 w2 a b n m t1 t2 u k e1 e2)

  -- If the search for a path between two nodes that were resolved answers that the second is not
  -- reachable, and that no limit was reached, then no chain of valid calls, of whatever length,
  -- leads from the first to the second in the database that it leaves.
  pub find_call_path_honest :
      (from to : SymbolRef) (max_depth budget : ℕ) (w w1 w2 w' : World S) (a b : ℕ) (n m : Node)
      (t1 t2 t : Bool) (r : FindCallPathResult)
      → Unique w.db
      → EdgeKeys w.db
      → resolve_anchor_id engine from client w ≡ (ok (some (a, n), t1), w1)
      → resolve_anchor_id engine to client w1 ≡ (ok (some (b, m), t2), w2)
      → find_call_path engine from to max_depth budget client w ≡ (ok (some (r, t)), w')
      → r.reachable ≡ false
      → r.limit_reached ≡ false
      → ¬ CallChain w'.db a b
  find_call_path_honest from to max_depth budget w w1 w2 w' a b n m t1 t2 t r u k e1 e2 run =
      subst (Post (Honest a b)) run
        (find_call_path-Honest from to max_depth budget w w1 w2 a b n m t1 t2 u k e1 e2)

  -- If the search for a path between two nodes that were resolved answers that the second is
  -- reachable, then the returned nodes are those of a chain of valid calls from the first to the
  -- second in the database that it leaves, and at most one more than `max_depth`, which is below the
  -- largest 32-bit number.
  pub find_call_path_answered :
      (from to : SymbolRef) (max_depth budget : ℕ) (w w1 w2 w' : World S) (a b : ℕ) (n m : Node)
      (t1 t2 t : Bool) (r : FindCallPathResult)
      → suc max_depth < 2 ^ 32
      → Unique w.db
      → EdgeKeys w.db
      → resolve_anchor_id engine from client w ≡ (ok (some (a, n), t1), w1)
      → resolve_anchor_id engine to client w1 ≡ (ok (some (b, m), t2), w2)
      → find_call_path engine from to max_depth budget client w ≡ (ok (some (r, t)), w')
      → r.reachable ≡ true
      → (p : List Node) × (r.path ≡ map from_node p)
        × IsPath (λ v. Unit) w'.db a b p
        × (length p ≤ suc max_depth)
  find_call_path_answered from to max_depth budget w w1 w2 w' a b n m t1 t2 t r d u k e1 e2 run
        pos_answer =
      let (p, same, chain) =
        subst (Post (Answered a b max_depth)) run
          (find_call_path-Answered from to max_depth budget w w1 w2 a b n m t1 t2 d u k e1 e2)
          pos_answer in
      (p, same, chain.0, chain.1)
