-- ===== src/Lsp/Client/Actor.antt =====
-- src/lsp/client.rs and src/lsp/proto.rs: the loop that pairs responses with requests. JSON values are
-- a parameter. A reply channel is a number; an event says what the `select!` gives, and of a command
-- also how the write of its message ends: none if it succeeds, else the text of the error.
use semnav.Base.{
  ℕ, ◌+◌, ◌%◌, ◌^◌, ℤ, negsuc, Bool, true, false, Option, none, some, List, [], ◌∷◌, ◌++◌, Str, str,
  ◌==◌, if◌then◌else◌, map, unwrap_or, put, get,
}

module _ (Value : Type 0) where
  pub record RpcError : Type 0 where
    pub code : ℤ
    pub message : Str
    pub data' : Option Value

  -- `Message`; an id is the bits of an `i64`.
  pub data Message : Type 0 where
    request : ℕ → Str → Option Value → Message
    response : ℕ → Value → Message
    error : ℕ → RpcError → Message
    notification : Str → Option Value → Message

  pub data Outcome : Type 0 where
    result : Value → Outcome
    rpc_error : RpcError → Outcome

  pub data Event : Type 0 where
    inbound : Message → Event
    eof inbound_closed : Event
    failed : Str → Event
    cmd_request : Str → Option Value → ℕ → Option Str → Event
    cmd_notify : Str → Option Value → Option Str → Event
    commands_closed : Event

  -- The variables of `actor_loop`, what it has written, and the replies that it has sent.
  pub record Actor : Type 0 where
    pub next_id : ℕ
    pub pending : List (ℕ × ℕ)
    pub close_reason : Option Str
    pub alive : Bool
    pub written : List Message
    pub replies : List (ℕ × Outcome)

-- `HashMap::remove`; a key occurs once.
unfoldable pub remove : ℕ → List (ℕ × ℕ) → List (ℕ × ℕ)
remove k [] = []
remove k ((j, ch) ∷ rest) = if j == k then rest else (j, ch) ∷ remove k rest

module _ {Value : Type 0} where
  abbrev pub fresh_actor : Actor Value
  fresh_actor = record {
    next_id = 1;
    pending = [];
    close_reason = none;
    alive = true;
    written = [];
    replies = [];
  }

  -- The reply to the request with the id, if one is waiting.
  abbrev pub answer : Option ℕ → ℕ → Outcome Value → Actor Value → Actor Value
  answer none id outcome a = a
  answer (some ch) id outcome a = record a {
    pending = remove id a.pending;
    replies = (ch, outcome) ∷ a.replies;
  }

  unfoldable pub dispatch_inbound : Message Value → Actor Value → Actor Value
  unfolding remove get
  dispatch_inbound (response id value) a = answer (get ◌==◌ id a.pending) id (result value) a
  dispatch_inbound (error id e) a = answer (get ◌==◌ id a.pending) id (rpc_error e) a
  dispatch_inbound (request id method params) a = a
  dispatch_inbound (notification method params) a = a

  abbrev pub rpc_failure : ℕ → Str → Outcome Value
  rpc_failure n text = rpc_error (record { code = negsuc n; message = text; data' = none })

  -- One turn of the loop.
  unfoldable pub turn : Event Value → Actor Value → Actor Value
  unfolding dispatch_inbound put
  turn (inbound msg) a = dispatch_inbound msg a
  turn eof a = record a { alive = false }
  turn inbound_closed a = record a { alive = false }
  turn (failed text) a = record a { close_reason = some text; alive = false }
  turn (cmd_request method params reply none) a = record a {
    next_id = (a.next_id + 1) % 2 ^ 64;
    pending = put ◌==◌ a.next_id reply a.pending;
    written = request a.next_id method params ∷ a.written;
  }
  turn (cmd_request method params reply (some e)) a = record a {
    next_id = (a.next_id + 1) % 2 ^ 64;
    replies = (reply, rpc_failure 31999 (str "write failed: " ++ e)) ∷ a.replies;
  }
  turn (cmd_notify method params none) a = record a {
    written = notification method params ∷ a.written;
  }
  turn (cmd_notify method params (some e)) a = a
  turn commands_closed a = record a { alive = false }

  -- After the loop: whatever waits is failed.
  unfoldable pub finish : Actor Value → Actor Value
  finish a = record a {
    pending = [];
    replies =
        map (λ p. (p.1, rpc_failure 32000 (unwrap_or a.close_reason (str "client stream closed"))))
          a.pending
        ++ a.replies;
  }

  -- `actor_loop` on a run of events; those after the loop has ended are not taken. After a run that
  -- does not end it, the loop waits.
  unfoldable pub actor_loop : List (Event Value) → Actor Value → Actor Value
  unfolding turn finish
  actor_loop [] a = if a.alive then a else finish a
  actor_loop (e ∷ es) a = let more = actor_loop es (turn e a) in if a.alive then more else finish a
