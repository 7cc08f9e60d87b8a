-- ===== src/Query/Operations/Frames.antt =====
-- src/query: the relations between databases for which the queries are proved.
use semnav.Base.{ℕ, ◌≡◌, refl, ap, ◌∙◌, true, false, str, str_eq}
use semnav.Graph.Model.{Edge}
use semnav.Graph.Db.State.{Result, ok, err, Db}
use semnav.Graph.Db.Edges.{Direction, incoming, outgoing, upsert_edge}
use semnav.Graph.Db.Meta.{set_callees_cache_hash}
use semnav.Graph.Db.Unique.{Unique, Holds}
use semnav.Graph.Db.EdgeKeys.{EdgeKeys}
use semnav.Graph.Db.EdgeKeys.Touches.{
  Touches, MayCallFrom, Touches-same, Touches-trans, upsert_edge-Touches,
  invalidate_outgoing_calls-Touches, set_callees_cache_hash-Touches,
}
use semnav.Query.Engine.Keeps.{Frame}
use semnav.Query.Resolve.{located_edge}
use semnav.Query.Resolve.Keeps.{Writes}
use semnav.Query.Operations.Keeps.{Rebuilds}

Holds-from :
    {A K : Type 0} {P Q : A → Type 0} (r : Result A)
    → (K → Holds P r)
    → ((a : A) → P a → Q a)
    → Holds (λ a. K → Q a) r
Holds-from (ok a) h f = λ k. f a (h k)
Holds-from (err e) h f = tt

not_calls : {A : Type 0} → str "implements" ≡ str "calls" → A
not_calls e = let t : false ≡ true = ap (λ s. str_eq s (str "calls")) e in absurd (cc t)

-- Only calls of `v` change.
abbrev pub OnlyCallsOf : ℕ → Db → Db → Type 0
OnlyCallsOf v db db' = EdgeKeys db → Touches v db db'

abbrev pub CallOf : ℕ → Edge → Type 0
CallOf v e = MayCallFrom v e.src_id e.edge_type

pub calls_frame : (v : ℕ) → Frame (OnlyCallsOf v) (CallOf v)
calls_frame v = record {
  stay = Touches-same v;
  next = λ a b c h k keys. let t = h keys in Touches-trans v a b c t (k t.keys);
  write = λ e h db. Holds-from (upsert_edge e db) (upsert_edge-Touches v e db h) (λ p t. t);
}

pub calls-Rebuilds : (v : ℕ) → Rebuilds (OnlyCallsOf v) v
calls-Rebuilds v = record {
  drop = invalidate_outgoing_calls-Touches v;
  mark = λ hash db.
      Holds-from (set_callees_cache_hash v hash db) (set_callees_cache_hash-Touches v v hash db)
        (λ p t. t);
}

pub calls-Writes : (v : ℕ) → Writes (CallOf v) v outgoing
unfolding located_edge
calls-Writes v = (λ dst site _. refl, λ src dst e. not_calls e)

-- Whatever edges change: the nodes stay, and edge ids stay separate.
pub record KeepsNodes (db db' : Db) : Type 0 where
  pub keys : EdgeKeys db'
  pub nodes : db'.nodes ≡ db.nodes
  pub next_node : db'.next_node ≡ db.next_node

abbrev pub OnlyEdges : Db → Db → Type 0
OnlyEdges db db' = EdgeKeys db → KeepsNodes db db'

pub Touches-KeepsNodes : (v : ℕ) (db db' : Db) → Touches v db db' → KeepsNodes db db'
Touches-KeepsNodes v db db' t = record { keys = t.keys; nodes = t.nodes; next_node = t.next_node }

abbrev pub AnyEdge : Edge → Type 0
AnyEdge e = Unit

pub edges_frame : Frame OnlyEdges AnyEdge
edges_frame = record {
  stay = λ db k. record { keys = k; nodes = refl; next_node = refl };
  next = λ a b c h k keys.
      let t = h keys in
      let u = k t.keys in
      record { keys = u.keys; nodes = u.nodes ∙ t.nodes; next_node = u.next_node ∙ t.next_node };
  write = λ e h db.
      Holds-from (upsert_edge e db) (upsert_edge-Touches e.src_id e db (λ _. refl))
        (λ p. Touches-KeepsNodes e.src_id db p.1);
}

pub edges-Rebuilds : (v : ℕ) → Rebuilds OnlyEdges v
edges-Rebuilds v = record {
  drop = λ db k. Touches-KeepsNodes v db _ (invalidate_outgoing_calls-Touches v db k);
  mark = λ hash db.
      Holds-from (set_callees_cache_hash v hash db) (set_callees_cache_hash-Touches v v hash db)
        (λ p. Touches-KeepsNodes v db p);
}

pub edges-Writes : (v : ℕ) (direction : Direction) → Writes AnyEdge v direction
edges-Writes v incoming = λ src site. tt
edges-Writes v outgoing = (λ dst site. tt, λ src dst. tt)

-- Unique keys of the nodes depend on the nodes alone.
pub KeepsNodes-Unique : (db db' : Db) → KeepsNodes db db' → Unique db → Unique db'
KeepsNodes-Unique db db' k u = record {
  apart = rw (k.nodes) u.apart;
  fresh = rw (k.nodes, k.next_node) u.fresh;
}
