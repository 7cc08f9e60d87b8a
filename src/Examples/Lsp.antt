-- ===== src/Examples/Lsp.antt =====
-- The theorems on the language server side at short runs.
use semnav.Base.{ℕ, ◌≡◌, ◌↔◌, refl, false, none, some, List, [], ◌∷◌, ◌++◌, Str, str, any, arith}
use semnav.Lsp.Supervisor.{
  Supervisor, default_real, spawn, provision_error, spawn_or_init_error, started, handle_acquire,
  on_anomaly, acquires, reports, fires, here, next, child_exit, healthy, on_restart_timer,
  nth_backoff, shutdown_graceful, shuts_down, stops,
}
use semnav.Lsp.Supervisor.Invariant.{Sound, IsDead, supervisor-Inv, dead_stays}
use semnav.Lsp.Supervisor.Storm.{After, failing, failing-After}
use semnav.Lsp.Transport.{
  crlf, lines, is_blank, message, end_of_stream, read_message, write_message,
}
use semnav.Lsp.Transport.Roundtrip.{read-write}
use semnav.Lsp.Transport.Closed.{read_message-end}
use semnav.Lsp.Client.Documents.{DocNotification, decide, notifications}
use semnav.Lsp.Client.Mirror.{receive_all, ensure_all, ensure_all-mirror}
use semnav.Lsp.Client.Actor.{
  Event, inbound, response, eof, cmd_request, result, fresh_actor, actor_loop,
}
use semnav.Lsp.Client.Answers.{closed, expected, replies-expected}
use mathlib.Core.List.{Perm}

-- A start, a crash and a failed restart.
abbrev running : Supervisor
running =
    (handle_acquire (started (record { client = 7; keep_alive = some 1 })) 100
      (spawn default_real)).1

abbrev crashed : Supervisor
crashed = on_anomaly running

abbrev crashed_twice : Supervisor
crashed_twice = on_restart_timer (spawn_or_init_error (some 2)) 200 crashed

crashed_timer : crashed.restart_timer ≡ some 1
unfolding handle_acquire on_anomaly nth_backoff
crashed_timer = refl

supervisor-Inv_example : Sound false (shutdown_graceful crashed_twice)
supervisor-Inv_example = supervisor-Inv default_real (
    stops
      (next
        (next (next here (acquires (started (record { client = 7; keep_alive = some 1 })) 100))
          (reports child_exit))
        (fires 1 (spawn_or_init_error (some 2)) 200 crashed_timer))
      shuts_down)

abbrev unprovisioned : Supervisor
unprovisioned = (handle_acquire provision_error 100 (spawn default_real)).1

unprovisioned-IsDead : IsDead unprovisioned
unfolding handle_acquire
unprovisioned-IsDead = (refl, refl, refl)

dead_stays_example : on_anomaly (handle_acquire provision_error 200 unprovisioned).1 ≡ unprovisioned
dead_stays_example =
    dead_stays unprovisioned-IsDead
      (next (next here (acquires provision_error 200)) (reports child_exit))

running-healthy :
    (running.state ≡ healthy) × (running.policy ≡ default_real) × (running.failures ≡ 0)
unfolding handle_acquire
running-healthy = (refl, refl, refl)

failing-After_example : After 6 (failing (λ k. some k) 5 300 running)
failing-After_example =
    failing-After (λ k. some k) 5 300 running running-healthy.0 running-healthy.1 running-healthy.2

abbrev ready : Str
ready = str "ready"

read-write_example :
    (frame : Str) × ((write_message (λ s. some s) ready ≡ some frame)
      × (read_message (λ s. some s) (frame ++ str "Content") ≡ message ready (str "Content")))
read-write_example =
    read-write (λ s. some s) (λ s. some s) ready ready ready (str "Content") refl refl (omega arith)

-- A header whose frame is cut off.
abbrev cut_off : Str
cut_off = str "Content-Length: 5" ++ crlf

read_message-end_example :
    (read_message (λ s. some s) cut_off ≡ end_of_stream) ↔ (any is_blank (lines cut_off) ≡ false)
read_message-end_example = read_message-end (λ s. some s) cut_off

cut_off_closes : read_message (λ s. some s) cut_off ≡ end_of_stream
unfolding lines is_blank
cut_off_closes = read_message-end_example.1 refl

abbrev calls : List (Str × Str × Str)
calls = (str "f:/a.py", str "python", str "x") ∷ (str "f:/a.py", str "python", str "y") ∷ []

ensure_all-mirror_example : receive_all (ensure_all calls []).0 [] ≡ some (ensure_all calls []).1
ensure_all-mirror_example = ensure_all-mirror calls (omega arith)

-- Two requests, of which one is answered before the stream ends.
abbrev events : List (Event ℕ)
events =
    cmd_request (str "hover") none 70 none
    ∷ cmd_request (str "references") none 71 none
    ∷ inbound (response 1 5)
    ∷ eof
    ∷ []

-- The first gets its result, the second the end of the stream.
answers : (actor_loop events fresh_actor).replies ≡ (71, closed none) ∷ (70, result 5) ∷ []
unfolding actor_loop
answers = refl

replies-expected_example : Perm (actor_loop events fresh_actor).replies (expected 1 events)
replies-expected_example = replies-expected events (omega arith)

-- Two clones decide one after the other, and send in the other order.
abbrev overtaken : List DocNotification
overtaken =
    let uri = str "f:/a.py" in
    let first = decide uri (str "x") [] in
    let second = decide uri (str "y") first.1 in
    notifications second.0 uri (str "python") (str "y")
    ++ notifications first.0 uri (str "python") (str "x")

overtaken_breach : receive_all overtaken [] ≡ none
unfolding decide notifications receive_all
overtaken_breach = refl
