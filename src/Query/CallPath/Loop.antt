-- ===== src/Query/CallPath/Loop.antt =====
-- src/query/ops.rs: one turn of `find_call_path`, and the rule for its loop.
use semnav.Base.{
  ℕ, zero, suc, ◌≤◌, ◌≡◌, refl, Bool, true, false, Bool-cases, inl, inr, Option, none, some, List,
  [], ◌∷◌, str, arith,
}
use semnav.Graph.Model.{Node}
use semnav.Graph.Db.State.{Result, ok, err, Db}
use semnav.Graph.Db.Edges.{outgoing, get_neighbors}
use semnav.Query.Group.{group_by_node}
use semnav.Query.Client.{LspQueryClient}
use semnav.Query.Engine.{QueryEngine, World, Op}
use semnav.Query.Engine.Post.{Post, Post-bind, Post-then, Keeps-Post, pure-Post, read-Post}
use semnav.Query.Resolve.Keeps.{opened-Keeps}
use semnav.Query.Operations.{Group, Client, is_fresh, text_hash}
use semnav.Query.Operations.Keeps.{rebuild_callees-Keeps}
use semnav.Query.Operations.Frames.{OnlyCallsOf, calls_frame, calls-Rebuilds, calls-Writes}
use semnav.Query.CallPath.{
  Entry, Search, SearchOutcome, found, exhausted, out_of_fuel, expanded, scan, expand_stale,
  expand_unless, expand_outgoing_calls, step, too_long, after_turn, next_entry, search,
}

-- The callees of a node, as the loop reads them.
unfoldable pub callees : ℕ → Db → List Group
callees id db = group_by_node (get_neighbors id (str "calls") outgoing db)

-- What an expansion changes, and what it leaves of the calls it may spend.
abbrev pub Expanded : ℕ → ℕ → Db → Bool × Bool × ℕ → Db → Type 0
Expanded id remaining db r db' = OnlyCallsOf id db db' × (r.2 ≤ remaining)

Expanded-later :
    {S : Type 0} (id remaining : ℕ) (a b : Db) (r : Result (Bool × Bool × ℕ) × World S)
    → OnlyCallsOf id a b
    → Post (Expanded id remaining b) r
    → Post (Expanded id remaining a) r
Expanded-later id remaining a b (ok x, w) h k = ((calls_frame id).next a b w.db h k.0, k.1)
Expanded-later id remaining a b (err e, w) h k = tt

-- What a turn does: it expands the node, and scans its callees.
pub record Stepped (to_id : ℕ) (e : Entry) (s : Search) (db : Db) (r : Option (List Node) × Search)
    (db' : Db) : Type 0 where
  pub usable : Bool
  pub timed_out : Bool
  pub remaining : ℕ
  pub scanned : r ≡ scan to_id e.path (callees e.id db') (expanded s usable timed_out remaining)
  pub only : OnlyCallsOf e.id db db'
  pub budget : remaining ≤ s.remaining

module _ {S Raw : Type 0} (engine : QueryEngine) where
  expand_stale-Post :
      (id : ℕ) (anchor : Node) (client : LspQueryClient S Raw) (remaining : ℕ) (w : World S)
      → Post (Expanded id remaining w.db) (expand_stale engine id anchor client remaining w)
  expand_stale-Post id anchor client zero w =
      pure-Post _ _ w ((calls_frame id).stay w.db, omega arith)
  expand_stale-Post id anchor client (suc remaining) w =
      Post-bind (λ t. OnlyCallsOf id w.db) _ _ _ w
        (Keeps-Post _ _ w (
          rebuild_callees-Keeps engine (calls_frame id) id anchor (text_hash engine anchor) client
            (calls-Writes id) (calls-Rebuilds id)))
        (λ t w' h. pure-Post _ _ w' (h, omega arith))

  expand_unless-Post :
      (id : ℕ) (anchor : Node) (client : LspQueryClient S Raw) (remaining : ℕ) (fresh : Bool)
      (w : World S)
      → Post (Expanded id remaining w.db) (expand_unless engine id anchor client remaining fresh w)
  expand_unless-Post id anchor client remaining true w =
      pure-Post _ _ w ((calls_frame id).stay w.db, omega arith)
  expand_unless-Post id anchor client remaining false w =
      expand_stale-Post id anchor client remaining w

  expand-Post :
      (id : ℕ) (anchor : Node) (client : Client S Raw) (remaining : ℕ) (w : World S)
      → Post
          (Expanded id remaining w.db)
          (expand_outgoing_calls engine id anchor client remaining w)
  unfolding expand_outgoing_calls
  expand-Post id anchor none remaining w = pure-Post _ _ w ((calls_frame id).stay w.db, omega arith)
  expand-Post id anchor (some client) remaining w =
      Post-then (OnlyCallsOf id w.db) _ _ _ w
        (Keeps-Post _ _ w (
          opened-Keeps engine client (calls_frame id) anchor.uri
            (engine.read_file_text anchor.uri)))
        (λ w' h.
          Post-bind (λ c db'. db' ≡ w'.db) _ _ _ w' (read-Post _ _ w' refl)
            (λ cached w'' same.
              let fresh = is_fresh cached (text_hash engine anchor) in
              Expanded-later id remaining w.db w''.db
                (expand_unless engine id anchor client remaining fresh w'') (rw same h)
                (expand_unless-Post id anchor client remaining fresh w'')))

  step-Post :
      (to_id : ℕ) (client : Client S Raw) (e : Entry) (s : Search) (w : World S)
      → Post (Stepped to_id e s w.db) (step engine to_id client e s w)
  unfolding step callees
  step-Post to_id client e s w =
      Post-bind (Expanded e.id s.remaining w.db) _ _ _ w
        (expand-Post e.id e.node client s.remaining w)
        (λ r w' h.
          Post-bind (λ n db'. (n ≡ get_neighbors e.id (str "calls") outgoing db') × (db' ≡ w'.db)) _
            _ _ w' (read-Post _ _ w' (refl, refl))
            (λ n w'' k. pure-Post _ _ w'' (record {
              usable = r.0;
              timed_out = r.1;
              remaining = r.2;
              scanned = rw (k.0);
              only = rw (k.1) h.0;
              budget = h.1;
            })))

-- Properties of the variables at the start of a turn, with the turns that are left, and of the
-- path that a search returns, with what a turn has to keep of them.
pub record IsLoop (to_id max_depth : ℕ) (P : ℕ → Search → Db → Type 0) (Q : List Node → Db → Type 0)
    : Type 0 where
  pub skip :
      (n : ℕ) (s : Search) (db : Db) (e : Entry) (rest : List Entry)
      → P (suc n) s db
      → s.queue ≡ e ∷ rest
      → P n (record s { queue = rest; limit_reached = true }) db
  pub stop :
      (n : ℕ) (s : Search) (db db' : Db) (e : Entry) (rest : List Entry) (path : List Node)
      (s' : Search)
      → P (suc n) s db
      → s.queue ≡ e ∷ rest
      → too_long max_depth e ≡ false
      → Stepped to_id e (record s { queue = rest }) db (some path, s') db'
      → Q path db'
  pub next :
      (n : ℕ) (s : Search) (db db' : Db) (e : Entry) (rest : List Entry) (s' : Search)
      → P (suc n) s db
      → s.queue ≡ e ∷ rest
      → too_long max_depth e ≡ false
      → Stepped to_id e (record s { queue = rest }) db (none, s') db'
      → P n s' db'

-- What the end of a search shows.
abbrev pub Ended :
    (ℕ → Search → Db → Type 0) → (List Node → Db → Type 0) → SearchOutcome → Db → Type 0
Ended P Q (found path timed_out) db = Q path db
Ended P Q (exhausted s) db = (n : ℕ) × P n s db × (s.queue ≡ [])
Ended P Q out_of_fuel db = (s : Search) × P 0 s db

module _ {S Raw : Type 0} (engine : QueryEngine) (to_id max_depth : ℕ) (client : Client S Raw)
    {P : ℕ → Search → Db → Type 0} {Q : List Node → Db → Type 0}
    (loop : IsLoop to_id max_depth P Q) where
  abbrev Continues : ℕ → (Search → Op S SearchOutcome) → Type 0
  Continues n continue = (s : Search) (w : World S) → P n s w.db → Post (Ended P Q) (continue s w)

  after_turn-Post :
      (n : ℕ) (continue : Search → Op S SearchOutcome) (s s' : Search) (db : Db) (e : Entry)
      (rest : List Entry) (path : Option (List Node)) (w : World S)
      → Continues n continue
      → P (suc n) s db
      → s.queue ≡ e ∷ rest
      → too_long max_depth e ≡ false
      → Stepped to_id e (record s { queue = rest }) db (path, s') w.db
      → Post (Ended P Q) (after_turn continue s' path w)
  after_turn-Post n continue s s' db e rest (some path) w c p q l t =
      pure-Post _ _ w (loop.stop n s db w.db e rest path s' p q l t)
  after_turn-Post n continue s s' db e rest none w c p q l t =
      c s' w (loop.next n s db w.db e rest s' p q l t)

  next_entry-Post :
      (n : ℕ) (continue : Search → Op S SearchOutcome) (s : Search) (queue : List Entry)
      (w : World S)
      → Continues n continue
      → P (suc n) s w.db
      → s.queue ≡ queue
      → Post (Ended P Q) (next_entry engine continue to_id max_depth client s queue w)
  next_entry-Post n continue s [] w c p q = pure-Post _ _ w (suc n, p, q)
  next_entry-Post n continue s (e ∷ rest) w c p q = elim (Bool-cases (too_long max_depth e)) [
    | inl l ↦
        let long : Search = record s { queue = rest; limit_reached = true } in
        rw l (
          Post-bind (λ r db. (r.0 ≡ none) × (r.1 ≡ long) × (db ≡ w.db)) _ _ _ w
            (pure-Post _ _ w (refl, refl, refl))
            (λ r w' h. rw (h.0) (c r.1 w' (rw (h.1, h.2) (loop.skip n s w.db e rest p q)))))
    | inr l ↦ rw l (
        Post-bind (Stepped to_id e (record s { queue = rest }) w.db) _ _ _ w
          (step-Post engine to_id client e (record s { queue = rest }) w)
          (λ r w' t. after_turn-Post n continue s r.1 w.db e rest r.0 w' c p q l t))
  ]

  pub search-Post :
      (fuel : ℕ) (s : Search) (w : World S)
      → P fuel s w.db
      → Post (Ended P Q) (search engine fuel to_id max_depth client s w)
  unfolding search
  search-Post zero s w p = pure-Post _ _ w (s, p)
  search-Post (suc fuel) s w p =
      next_entry-Post fuel (search engine fuel to_id max_depth client) s s.queue w
        (search-Post fuel) p refl
