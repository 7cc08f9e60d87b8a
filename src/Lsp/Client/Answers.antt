-- ===== src/Lsp/Client/Answers.antt =====
-- src/lsp/client.rs: every request gets its own reply.
pub mod Pending
use mathlib.Core.List.{Perm, perm_middle}
use mathlib.Core.List.Perm
use semnav.Base.{
  ℕ, suc, ◌+◌, ◌%◌, ◌^◌, ◌≤◌, ◌<◌, ◌≡◌, refl, sym, ◌∙◌, ap, subst, Bool, true, false, Option-cases,
  inl, inr, Option, none, some, List, [], ◌∷◌, ◌++◌, append-nil, append_assoc, Str, str, unwrap_or,
  length, map, All, ◌==◌, put, get, if◌then◌else◌, arith,
}
use semnav.Lsp.Client.Actor.{
  Message, request, response, error, notification, Outcome, Event, inbound, eof, inbound_closed,
  failed, cmd_request, cmd_notify, commands_closed, Actor, remove, fresh_actor, answer,
  dispatch_inbound, turn, finish, actor_loop, result, rpc_error, rpc_failure,
}
use Pending.{
  Below, DistinctKeys, put-Below, Below-snoc, Below-suc, DistinctKeys-snoc, All-remove,
  DistinctKeys-remove, replied, owed, owed-none, owed-all, owed-snoc, with_reply, owed-unknown,
  owed-known,
}

module _ {Value : Type 0} where
  -- The loop has ended, with the text of an error or without one.
  abbrev pub closed : Option Str → Outcome Value
  closed reason = rpc_failure 32000 (unwrap_or reason (str "client stream closed"))

  -- What the events after a request was sent under an id reply to it: the first response or error with
  -- that id, or the end of the loop if it comes first, or nothing yet.
  unfoldable pub reply_of : List (Event Value) → ℕ → Option (Outcome Value)
  reply_of [] id = none
  reply_of (inbound (response j value) ∷ es) id = with_reply j (result value) (reply_of es) id
  reply_of (inbound (error j e) ∷ es) id = with_reply j (rpc_error e) (reply_of es) id
  reply_of (inbound (request j method params) ∷ es) id = reply_of es id
  reply_of (inbound (notification method params) ∷ es) id = reply_of es id
  reply_of (eof ∷ es) id = some (closed none)
  reply_of (inbound_closed ∷ es) id = some (closed none)
  reply_of (failed text ∷ es) id = some (closed (some text))
  reply_of (commands_closed ∷ es) id = some (closed none)
  reply_of (cmd_request method params ch written ∷ es) id = reply_of es id
  reply_of (cmd_notify method params written ∷ es) id = reply_of es id

  -- The replies to all requests of a run, whose ids count from the given one: to each request that was
  -- written what the later events reply to its id, and to the others the error of the write.
  unfoldable pub expected : ℕ → List (Event Value) → List (ℕ × Outcome Value)
  unfolding reply_of
  expected id [] = []
  expected id (inbound message ∷ es) = expected id es
  expected id (eof ∷ es) = []
  expected id (inbound_closed ∷ es) = []
  expected id (failed text ∷ es) = []
  expected id (commands_closed ∷ es) = []
  expected id (cmd_notify method params written ∷ es) = expected id es
  expected id (cmd_request method params ch none ∷ es) =
      replied ch (reply_of es id) ++ expected (id + 1) es
  expected id (cmd_request method params ch (some e) ∷ es) =
      (ch, rpc_failure 31999 (str "write failed: " ++ e)) ∷ expected (id + 1) es

  -- The ids that wait are old and all different, and the next one has not wrapped around.
  record Fresh (k : ℕ) (a : Actor Value) : Type 0 where
    below : Below a.next_id a.pending
    distinct : DistinctKeys a.pending
    small : a.next_id ≤ k

  -- The replies sent so far with those that the events still owe.
  abbrev promise : List (Event Value) → Actor Value → List (ℕ × Outcome Value)
  promise es a = owed (reply_of es) a.pending ++ (expected a.next_id es ++ a.replies)

  -- The end of the loop.
  finish-replies :
      (a : Actor Value) (reason : Option Str)
      → a.close_reason ≡ reason
      → (finish a).replies ≡ owed (λ id. some (closed reason)) a.pending ++ a.replies
  unfolding finish
  finish-replies a reason e = rw (owed-all (closed reason) a.pending, e)

  stopped :
      (es : List (Event Value)) (a : Actor Value) → a.alive ≡ false → actor_loop es a ≡ finish a
  unfolding actor_loop
  stopped [] a h = rw h
  stopped (e ∷ es) a h = rw h

  taken :
      (e : Event Value) (es : List (Event Value)) (a : Actor Value)
      → a.alive ≡ true
      → actor_loop (e ∷ es) a ≡ actor_loop es (turn e a)
  unfolding actor_loop
  taken e es a h = ap (λ b. if b then actor_loop es (turn e a) else finish a) h

  -- One turn that does not end the loop.
  record Goes (e : Event Value) (es : List (Event Value)) (k : ℕ) (a : Actor Value) : Type 0 where
    fresh : Fresh (suc k) (turn e a)
    alive : (turn e a).alive ≡ true
    promised : Perm (promise es (turn e a)) (promise (e ∷ es) a)

  answered :
      (id k : ℕ) (o : Outcome Value) (es : List (Event Value)) (a : Actor Value)
      → Fresh k a
      → a.alive ≡ true
      → let b = answer (get ◌==◌ id a.pending) id o a in
        Fresh (suc k) b
        × (b.alive ≡ true)
        × Perm
            (promise es b)
            (owed (with_reply id o (reply_of es)) a.pending ++ (expected a.next_id es ++ a.replies))
  answered id k o es a f l = elim (Option-cases (get ◌==◌ id a.pending)) [
    | inl e ↦
        rw (e, owed-unknown id o (reply_of es) a.pending e)
          (
            record { below = f.below; distinct = f.distinct; small = omega (arith, f.small) },
            l,
            Perm.refl _,
          )
    | inr (ch, e) ↦ rw e (
      record {
        below = All-remove (λ p. p.0 < a.next_id) id a.pending f.below;
        distinct = DistinctKeys-remove id a.pending f.distinct;
        small = omega (arith, f.small);
      },
      l,
      moved ch e,
    )
  ]
    where
      -- The reply moves from those that are owed to those that are sent.
      moved :
          (ch : ℕ)
          → get ◌==◌ id a.pending ≡ some ch
          → Perm
              (owed (reply_of es) (remove id a.pending)
                ++ (expected a.next_id es ++ (ch, o) ∷ a.replies))
              (owed (with_reply id o (reply_of es)) a.pending
                ++ (expected a.next_id es ++ a.replies))
      moved ch e =
          let rest = owed (reply_of es) (remove id a.pending) in
          let later = expected a.next_id es in
          Perm.trans (Perm.append_left rest (perm_middle later a.replies)) (
            Perm.trans (perm_middle rest (later ++ a.replies)) (
              Perm.append_right (later ++ a.replies)
                (Perm.symm (owed-known id ch o (reply_of es) a.pending f.distinct e))))

  answer-open :
      (c : Option ℕ) (id : ℕ) (o : Outcome Value) (a : Actor Value)
      → (answer c id o a).close_reason ≡ a.close_reason
  answer-open none id o a = refl
  answer-open (some ch) id o a = refl

  inbound-Goes :
      (m : Message Value) (es : List (Event Value)) (k : ℕ) (a : Actor Value)
      → Fresh k a
      → a.alive ≡ true
      → Goes (inbound m) es k a
  unfolding turn dispatch_inbound reply_of expected
  inbound-Goes (request id method params) es k a f l = record {
    fresh = record { below = f.below; distinct = f.distinct; small = omega (arith, f.small) };
    alive = l;
    promised = Perm.refl _;
  }
  inbound-Goes (notification method params) es k a f l = record {
    fresh = record { below = f.below; distinct = f.distinct; small = omega (arith, f.small) };
    alive = l;
    promised = Perm.refl _;
  }
  inbound-Goes (response id value) es k a f l =
      let (fresh, alive, promised) = answered id k (result value) es a f l in
      record { fresh = fresh; alive = alive; promised = promised }
  inbound-Goes (error id x) es k a f l =
      let (fresh, alive, promised) = answered id k (rpc_error x) es a f l in
      record { fresh = fresh; alive = alive; promised = promised }

  inbound-open :
      (m : Message Value) (a : Actor Value)
      → a.close_reason ≡ none
      → (turn (inbound m) a).close_reason ≡ none
  unfolding turn dispatch_inbound
  inbound-open (request id method params) a c = c
  inbound-open (notification method params) a c = c
  inbound-open (response id v) a c = answer-open (get ◌==◌ id a.pending) id (result v) a ∙ c
  inbound-open (error id x) a c = answer-open (get ◌==◌ id a.pending) id (rpc_error x) a ∙ c

  notify-open :
      (method : Str) (params : Option Value) (written : Option Str) (a : Actor Value)
      → a.close_reason ≡ none
      → (turn (cmd_notify method params written) a).close_reason ≡ none
  unfolding turn
  notify-open method params none a c = c
  notify-open method params (some e) a c = c

  request-open :
      (method : Str) (params : Option Value) (ch : ℕ) (written : Option Str) (a : Actor Value)
      → a.close_reason ≡ none
      → (turn (cmd_request method params ch written) a).close_reason ≡ none
  unfolding turn
  request-open method params ch none a c = c
  request-open method params ch (some e) a c = c

  notify-Goes :
      (method : Str) (params : Option Value) (written : Option Str) (es : List (Event Value))
      (k : ℕ) (a : Actor Value)
      → Fresh k a
      → a.alive ≡ true
      → Goes (cmd_notify method params written) es k a
  unfolding turn reply_of expected
  notify-Goes method params none es k a f l = record {
    fresh = record { below = f.below; distinct = f.distinct; small = omega (arith, f.small) };
    alive = l;
    promised = Perm.refl _;
  }
  notify-Goes method params (some e) es k a f l = record {
    fresh = record { below = f.below; distinct = f.distinct; small = omega (arith, f.small) };
    alive = l;
    promised = Perm.refl _;
  }

  request-Goes :
      (method : Str) (params : Option Value) (ch : ℕ) (written : Option Str)
      (es : List (Event Value)) (k : ℕ) (a : Actor Value)
      → Fresh k a
      → a.alive ≡ true
      → suc k < 2 ^ 64
      → Goes (cmd_request method params ch written) es k a
  unfolding turn reply_of expected
  request-Goes method params ch none es k a f l h =
      let next : (a.next_id + 1) % 2 ^ 64 ≡ a.next_id + 1 = omega (arith, f.small) in
      let new = put-Below a.next_id ch a.pending f.below in
      record {
        fresh = record {
          below = rw (next, new) (Below-snoc a.next_id ch a.pending f.below);
          distinct = rw new (DistinctKeys-snoc a.next_id ch a.pending f.below f.distinct);
          small = rw next (omega (arith, f.small));
        };
        alive = l;
        promised =
            rw (next, new, owed-snoc (reply_of es) a.pending a.next_id ch)
              (subst (λ xs. Perm xs (promise (cmd_request method params ch none ∷ es) a))
                (regroup (owed (reply_of es) a.pending) (replied ch (reply_of es a.next_id))
                  (expected (a.next_id + 1) es) a.replies)
                (Perm.refl _));
      }
    where
      regroup :
          (xs ys zs ws : List (ℕ × Outcome Value))
          → xs ++ ((ys ++ zs) ++ ws) ≡ (xs ++ ys) ++ (zs ++ ws)
      regroup xs ys zs ws =
          ap (λ t. xs ++ t) (append_assoc ys zs ws) ∙ sym (append_assoc xs ys (zs ++ ws))
  request-Goes method params ch (some e) es k a f l h =
      let next : (a.next_id + 1) % 2 ^ 64 ≡ a.next_id + 1 = omega (arith, f.small) in
      record {
        fresh = record {
          below = rw next (Below-suc a.next_id a.pending f.below);
          distinct = f.distinct;
          small = rw next (omega (arith, f.small));
        };
        alive = l;
        promised = rw next (
            Perm.append_left (owed (reply_of es) a.pending)
              (perm_middle (expected (a.next_id + 1) es) a.replies));
      }

  -- The events that end the loop fail all that wait.
  fails_waiting :
      (reason : Option Str) (es : List (Event Value)) (a b : Actor Value)
      → b.alive ≡ false
      → b.close_reason ≡ reason
      → b.pending ≡ a.pending
      → b.replies ≡ a.replies
      → Perm (actor_loop es b).replies (owed (λ id. some (closed reason)) a.pending ++ a.replies)
  fails_waiting reason es a b l r p q =
      rw (stopped es b l, finish-replies b reason r, p, q) (Perm.refl _)

  goes_on :
      (e : Event Value) (es : List (Event Value)) (k : ℕ) (a : Actor Value)
      → a.alive ≡ true
      → Perm (actor_loop es (turn e a)).replies (promise es (turn e a))
      → Goes e es k a
      → Perm (actor_loop (e ∷ es) a).replies (promise (e ∷ es) a)
  goes_on e es k a l rec g = rw (taken e es a l) (Perm.trans rec g.promised)

  loop-promise :
      (es : List (Event Value)) (k : ℕ) (a : Actor Value)
      → Fresh k a
      → a.alive ≡ true
      → a.close_reason ≡ none
      → k + length es < 2 ^ 64
      → Perm (actor_loop es a).replies (promise es a)
  unfolding actor_loop reply_of expected turn
  loop-promise [] k a f l c h = rw (l, owed-none a.pending) (Perm.refl _)
  loop-promise (eof ∷ es) k a f l c h =
      rw (taken eof es a l) (fails_waiting none es a (turn eof a) refl c refl refl)
  loop-promise (inbound_closed ∷ es) k a f l c h =
      rw (taken inbound_closed es a l)
        (fails_waiting none es a (turn inbound_closed a) refl c refl refl)
  loop-promise (commands_closed ∷ es) k a f l c h =
      rw (taken commands_closed es a l)
        (fails_waiting none es a (turn commands_closed a) refl c refl refl)
  loop-promise (failed text ∷ es) k a f l c h =
      rw (taken (failed text) es a l)
        (fails_waiting (some text) es a (turn (failed text) a) refl refl refl refl)
  loop-promise (inbound m ∷ es) k a f l c h =
      let g = inbound-Goes m es k a f l in
      goes_on (inbound m) es k a l
        (loop-promise es (suc k) (turn (inbound m) a) g.fresh g.alive (inbound-open m a c)
          (omega arith))
        g
  loop-promise (cmd_notify method params written ∷ es) k a f l c h =
      let e = cmd_notify method params written in
      let g = notify-Goes method params written es k a f l in
      goes_on e es k a l
        (loop-promise es (suc k) (turn e a) g.fresh g.alive (notify-open method params written a c)
          (omega arith))
        g
  loop-promise (cmd_request method params ch written ∷ es) k a f l c h =
      let e = cmd_request method params ch written in
      let g = request-Goes method params ch written es k a f l (omega arith) in
      goes_on e es k a l
        (loop-promise es (suc k) (turn e a) g.fresh g.alive
          (request-open method params ch written a c) (omega arith))
        g

-- In a run of fewer than 2^64 - 1 events the replies that are sent are, up to their order, exactly
-- these: to each request whose write failed, the error of the write; to each other one, the first
-- response or error with its id that comes after it, or the reason of the end of the loop if that comes
-- first, and nothing as long as neither has come. Requests after the end of the loop are not taken.
pub replies-expected :
    {Value : Type 0} (es : List (Event Value))
    → suc (length es) < 2 ^ 64
    → Perm (actor_loop es fresh_actor).replies (expected 1 es)
replies-expected {Value} es h =
    subst (λ xs. Perm (actor_loop es fresh_actor).replies xs) (append-nil (expected 1 es))
      (loop-promise es 1 fresh_actor (record { below = tt; distinct = tt; small = omega arith })
        refl refl (omega arith))
