-- ===== src/Query/Client.antt =====
-- src/query/lsp_query.rs: the query-time LSP surface. A client is a record of operations on a state
-- of its own, which stands for the connection and the server behind it; what each of them answers
-- is the server's affair. A failed request tells only whether it timed out, as `is_timeout` does.
use semnav.Base.{ℕ, Bool, false, Option, List, [], Str}
use semnav.Indexer.Symbol.{LspRange}

pub record Location : Type 0 where
  pub uri : Str
  pub range : LspRange

pub record Hover : Type 0 where
  pub value : Str

-- `Raw` is the type of JSON values, which the queries pass back unread.
pub record CallHierarchyItem (Raw : Type 0) : Type 0 where
  pub name : Str
  pub kind : ℕ
  pub uri : Str
  pub range : LspRange
  pub selection_range : LspRange
  pub raw : Raw

pub record IncomingCall (Raw : Type 0) : Type 0 where
  pub from : CallHierarchyItem Raw
  pub from_ranges : List LspRange

pub record OutgoingCall (Raw : Type 0) : Type 0 where
  pub to : CallHierarchyItem Raw
  pub from_ranges : List LspRange

-- The result of a request. `failed true` is a timeout, `failed false` any other error.
pub data LspReply (A : Type 0) : Type 0 where
  value : A → LspReply A
  failed : Bool → LspReply A

pub record LspQueryClient (S Raw : Type 0) : Type 0 where
  pub open_document : Str → Str → S → LspReply (Unit {0}) × S
  pub definition : Str → ℕ → ℕ → S → LspReply (List Location) × S
  pub references : Str → ℕ → ℕ → Bool → S → LspReply (List Location) × S
  pub implementation : Str → ℕ → ℕ → S → LspReply (List Location) × S
  pub prepare_call_hierarchy : Str → ℕ → ℕ → S → LspReply (List (CallHierarchyItem Raw)) × S
  pub incoming_calls : CallHierarchyItem Raw → S → LspReply (List (IncomingCall Raw)) × S
  pub outgoing_calls : CallHierarchyItem Raw → S → LspReply (List (OutgoingCall Raw)) × S
  pub hover : Str → ℕ → ℕ → S → LspReply (Option Hover) × S

-- `Ok(xs) => (xs, false), Err(e) => (Vec::new(), is_timeout(&e))`
abbrev pub or_empty : {A : Type 0} → LspReply (List A) → List A × Bool
or_empty (value xs) = (xs, false)
or_empty (failed timed_out) = ([], timed_out)
