-- ===== src/Lsp/Supervisor/Invariant.antt =====
-- src/lsp/supervisor.rs: what every reachable state of the supervisor satisfies.
use semnav.Base.{
  ℕ, ◌-◌, ◌<◌, ◌≡◌, refl, ◌∙◌, ◌⊎◌, inl, inr, Bool, true, false, Bool-cases, leb, none, some, [],
  ◌++◌, arith,
}
use semnav.Lsp.Supervisor.{
  ServerState, not_started, starting, healthy, restarting, down, RestartPolicy, nth_backoff,
  StartResult, started, provision_error, spawn_or_init_error, Supervisor, spawn, saturating_suc,
  transition_after_anomaly, attempt_start, on_restart_timer, handle_acquire, on_anomaly, Step,
  acquire_in, anomaly_in, start_and_settle, record_state, exits, fires, acquires, reports, Reach,
  here, next, to_list, shutdown_graceful, Stop, shuts_down, handles_dropped, Life, runs, stops,
}

-- No server is held.
pub record IsBare (s : Supervisor) : Type 0 where
  pub no_client : s.current_client ≡ none
  pub no_exit : s.current_exit ≡ false
  pub no_process : s.current_keepalive ≡ none

-- What each state of the machine means for the fields.
abbrev pub StateFields : ServerState → Supervisor → Type 0
StateFields not_started s = IsBare s × (s.restart_timer ≡ none) × (s.failures ≡ 0)
StateFields starting s = ⊥
StateFields healthy s =
    ((c : ℕ) × (s.current_client ≡ some c))
    × (s.current_exit ≡ true)
    × (s.restart_timer ≡ none)
    × (s.failures ≡ 0)
StateFields restarting s =
    IsBare s
    × (0 < s.failures)
    × (s.failures < s.policy.max_failures)
    × (s.restart_timer ≡ some (nth_backoff s.policy (s.failures - 1)))
StateFields down s =
    IsBare s × ((s.restart_timer ≡ none) ⊎ (s.restart_timer ≡ some s.policy.down_retry))

pub record Inv (s : Supervisor) : Type 0 where
  pub fields : StateFields s.state s
  pub none_dropped : s.dropped ≡ []

-- Where a failure leads, by whether the failures reach the limit.
transition-Inv : (s : Supervisor) → s.dropped ≡ [] → Inv (transition_after_anomaly s)
unfolding transition_after_anomaly
transition-Inv s h = elim (Bool-cases (leb s.policy.max_failures (saturating_suc s.failures))) [
  | inl e ↦ rw e (record {
    fields = (record { no_client = refl; no_exit = refl; no_process = refl }, inr refl);
    none_dropped = h;
  })
  | inr e ↦ rw e (record {
    fields = (
      record { no_client = refl; no_exit = refl; no_process = refl },
      omega arith,
      ground arith,
      refl,
    );
    none_dropped = h;
  })
]

attempt_start-Inv :
    (r : StartResult) (now : ℕ) (s : Supervisor)
    → IsBare s
    → s.restart_timer ≡ none
    → s.dropped ≡ []
    → Inv (attempt_start r now s).1
unfolding attempt_start
attempt_start-Inv (started server) now s b t h = record {
  fields = ((server.client, refl), refl, t, refl);
  none_dropped = rw (b.no_process, h);
}
attempt_start-Inv provision_error now s b t h = record {
  fields = (record { no_client = refl; no_exit = refl; no_process = refl }, inl refl);
  none_dropped = rw (b.no_process, h);
}
attempt_start-Inv (spawn_or_init_error p) now s b t h =
    transition-Inv (record s { unready = to_list p ++ s.unready }) h

-- A state that waits for its timer holds no server.
timer-IsBare :
    (st : ServerState) (s : Supervisor) (d : ℕ)
    → StateFields st s
    → s.restart_timer ≡ some d
    → IsBare s
timer-IsBare not_started s d f t = cc
timer-IsBare starting s d f t = absurd f
timer-IsBare healthy s d f t = cc
timer-IsBare restarting s d f t = f.0
timer-IsBare down s d f t = f.0

anomaly_in-Inv : (st : ServerState) (s : Supervisor) → Inv s → Inv (anomaly_in st s)
anomaly_in-Inv healthy s v = transition-Inv s v.none_dropped
anomaly_in-Inv not_started s v = v
anomaly_in-Inv starting s v = v
anomaly_in-Inv restarting s v = v
anomaly_in-Inv down s v = v

on_anomaly-Inv : (s : Supervisor) → Inv s → Inv (on_anomaly s)
unfolding on_anomaly
on_anomaly-Inv s v = anomaly_in-Inv s.state s v

on_restart_timer-Inv :
    (r : StartResult) (now d : ℕ) (s : Supervisor)
    → s.restart_timer ≡ some d
    → Inv s
    → Inv (on_restart_timer r now s)
unfolding on_restart_timer
on_restart_timer-Inv r now d s t v =
    let b = timer-IsBare s.state s d v.fields t in
    attempt_start-Inv r now (record s { restart_timer = none })
      (record { no_client = b.no_client; no_exit = b.no_exit; no_process = b.no_process }) refl
      v.none_dropped

acquire_in-Inv :
    (st : ServerState) (r : StartResult) (now : ℕ) (s : Supervisor)
    → StateFields st s
    → Inv s
    → Inv (acquire_in st r now s).1
unfolding start_and_settle record_state
acquire_in-Inv healthy r now s f v = v
acquire_in-Inv restarting r now s f v = v
acquire_in-Inv down r now s f v = v
acquire_in-Inv starting r now s f v = v
acquire_in-Inv not_started r now s f v =
    attempt_start-Inv r now (record_state (record s { state = starting }))
      (record { no_client = f.0.no_client; no_exit = f.0.no_exit; no_process = f.0.no_process }) f.1
      v.none_dropped

Step-Inv : {s t : Supervisor} → Step s t → Inv s → Inv t
unfolding handle_acquire
Step-Inv {s} (exits e) v = on_anomaly-Inv s v
Step-Inv {s} (fires d r now t) v = on_restart_timer-Inv r now d s t v
Step-Inv {s} (acquires r now) v = acquire_in-Inv s.state r now s v.fields v
Step-Inv {s} (reports kind) v = on_anomaly-Inv s v

Reach-Inv : {s t : Supervisor} → Inv s → Reach s t → Inv t
Reach-Inv v here = v
Reach-Inv v (next r st) = Step-Inv st (Reach-Inv v r)

spawn-Inv : (p : RestartPolicy) → Inv (spawn p)
spawn-Inv p = record {
  fields = (record { no_client = refl; no_exit = refl; no_process = refl }, refl, refl);
  none_dropped = refl;
}

-- The state at the end of the loop: nothing is held and no timer is armed.
abbrev pub IsStopped : Supervisor → Type 0
IsStopped s = IsBare s × (s.restart_timer ≡ none) × (s.dropped ≡ [])

-- While the loop goes on, and after it.
abbrev pub Sound : Bool → Supervisor → Type 0
Sound true s = Inv s
Sound false s = IsStopped s

Stop-IsStopped : {s t : Supervisor} → Stop s t → Inv s → IsStopped t
unfolding shutdown_graceful
Stop-IsStopped shuts_down v =
    (record { no_client = refl; no_exit = refl; no_process = refl }, refl, v.none_dropped)
Stop-IsStopped handles_dropped v =
    (record { no_client = refl; no_exit = refl; no_process = refl }, refl, v.none_dropped)

-- Whatever happens to a supervisor, its state says what it holds: a client, an exit watcher, no
-- timer and no failures when it is healthy; no server at all in the other states, with the backoff
-- of the current failure count armed while it is restarting, and the retry interval or no timer at
-- all while it is down; and nothing after it has stopped. The process of a server that was started
-- is never let go without a graceful shutdown (a start that fails in `initialize` drops its own).
pub supervisor-Inv :
    (p : RestartPolicy) {running : Bool} {s : Supervisor}
    → Life (spawn p) running s
    → Sound running s
supervisor-Inv p (runs r) = Reach-Inv (spawn-Inv p) r
supervisor-Inv p (stops r st) = Stop-IsStopped st (Reach-Inv (spawn-Inv p) r)

-- Down with no timer, as after a provision failure.
abbrev pub IsDead : Supervisor → Type 0
IsDead s = (s.state ≡ down) × (s.restart_timer ≡ none) × (s.current_exit ≡ false)

anomaly_in-dead : (st : ServerState) (s : Supervisor) → st ≡ down → anomaly_in st s ≡ s
anomaly_in-dead down s e = refl
anomaly_in-dead not_started s e = cc
anomaly_in-dead starting s e = cc
anomaly_in-dead healthy s e = cc
anomaly_in-dead restarting s e = cc

acquire_in-dead :
    (st : ServerState) (r : StartResult) (now : ℕ) (s : Supervisor)
    → st ≡ down
    → (acquire_in st r now s).1 ≡ s
acquire_in-dead down r now s e = refl
acquire_in-dead not_started r now s e = cc
acquire_in-dead starting r now s e = cc
acquire_in-dead healthy r now s e = cc
acquire_in-dead restarting r now s e = cc

Step-dead : {s t : Supervisor} → Step s t → IsDead s → t ≡ s
unfolding on_anomaly handle_acquire
Step-dead {s} (exits e) d = cc
Step-dead {s} (fires n r now t) d = cc
Step-dead {s} (acquires r now) d = acquire_in-dead s.state r now s d.0
Step-dead {s} (reports kind) d = anomaly_in-dead s.state s d.0

-- A supervisor that is down with no timer armed, as after a failed provision, stays as it is until
-- it is stopped: no acquire, report, exit or timer changes it.
pub dead_stays : {s t : Supervisor} → IsDead s → Reach s t → t ≡ s
dead_stays d here = refl
dead_stays {s} d (next r st) = let back = dead_stays d r in Step-dead st (rw back d) ∙ back
