-- ===== src/Lsp/Supervisor.antt =====
-- src/lsp/supervisor.rs: the health state machine of one language server. What a start attempt gives
-- and what the clock shows come with the events. Times are in seconds.
pub mod Invariant
pub mod Storm
use semnav.Base.{
  ℕ, zero, suc, ◌+◌, ◌-◌, ◌^◌, ◌≡◌, ltb, leb, min, Bool, true, false, Option, none, some, List, [],
  ◌∷◌, ◌++◌, Str, str, if◌then◌else◌,
}

pub data ServerState : Type 0 where
  not_started starting healthy restarting down : ServerState

-- `as_str`
unfoldable pub status_text : ServerState → Str
status_text not_started = str "not_started"
status_text starting = str "starting"
status_text healthy = str "healthy"
status_text restarting = str "restarting"
status_text down = str "down"

pub data FailureKind : Type 0 where
  child_exit transport timeout : FailureKind

pub data AcquireError : Type 0 where
  err_down err_restarting err_start_failed : AcquireError

pub record RestartPolicy : Type 0 where
  pub backoff : ℕ × ℕ × ℕ × ℕ × ℕ
  pub max_failures : ℕ
  pub down_retry : ℕ

-- `default_real`
abbrev pub default_real : RestartPolicy
default_real = record { backoff = (1, 2, 4, 8, 16); max_failures = 5; down_retry = 30 }

-- `self.backoff[min(n, 4)]`
unfoldable pub nth_backoff : RestartPolicy → ℕ → ℕ
nth_backoff p zero = p.backoff.0
nth_backoff p (suc zero) = p.backoff.1
nth_backoff p (suc (suc zero)) = p.backoff.2
nth_backoff p (suc (suc (suc zero))) = p.backoff.3
nth_backoff p (suc (suc (suc (suc n)))) = p.backoff.4

-- A started server: its client, and the process that it keeps alive, if there is one.
pub record StartedServer : Type 0 where
  pub client : ℕ
  pub keep_alive : Option ℕ

-- What `ServerFactory::start` returns. A server whose `initialize` failed has had a process, which
-- `RealServerFactory::start` drops; if the spawn failed there was none.
pub data StartResult : Type 0 where
  started : StartedServer → StartResult
  provision_error : StartResult
  spawn_or_init_error : Option ℕ → StartResult

-- One write of `record_state` into the meta store.
pub record Health : Type 0 where
  pub status : Str
  pub consecutive_failures : ℕ
  pub last_success_at : ℕ

-- The actor's fields. `current_exit` says whether an exit watcher is held. `graceful` and `dropped` are the
-- processes that were handed to a graceful shutdown, and those that the actor let go without one;
-- `unready` are those that a failed start has dropped.
pub record Supervisor : Type 0 where
  pub policy : RestartPolicy
  pub state : ServerState
  pub current_client : Option ℕ
  pub current_exit : Bool
  pub current_keepalive : Option ℕ
  pub failures : ℕ
  pub last_success_at : ℕ
  pub restart_timer : Option ℕ
  pub meta : List Health
  pub graceful : List ℕ
  pub dropped : List ℕ
  pub unready : List ℕ

-- `ServerSupervisor::spawn`
abbrev pub spawn : RestartPolicy → Supervisor
spawn p = record {
  policy = p;
  state = not_started;
  current_client = none;
  current_exit = false;
  current_keepalive = none;
  failures = 0;
  last_success_at = 0;
  restart_timer = none;
  meta = [];
  graceful = [];
  dropped = [];
  unready = [];
}

abbrev pub to_list : Option ℕ → List ℕ
to_list none = []
to_list (some a) = a ∷ []

unfoldable pub record_state : Supervisor → Supervisor
unfolding status_text
record_state s = record s {
  meta =
      record {
        status = status_text s.state;
        consecutive_failures = s.failures;
        last_success_at = s.last_success_at;
      }
      ∷ s.meta;
}

-- Overwriting the held process lets go of it.
unfoldable pub set_healthy : StartedServer → ℕ → Supervisor → Supervisor
set_healthy server now s = record s {
  current_client = some server.client;
  current_exit = true;
  current_keepalive = server.keep_alive;
  state = healthy;
  failures = 0;
  last_success_at = now;
  dropped = to_list s.current_keepalive ++ s.dropped;
}

unfoldable pub drop_current : Supervisor → Supervisor
drop_current s = record s {
  current_client = none;
  current_exit = false;
  current_keepalive = none;
  dropped = to_list s.current_keepalive ++ s.dropped;
}

unfoldable pub drop_current_gracefully : Supervisor → Supervisor
drop_current_gracefully s = record s {
  current_client = none;
  current_exit = false;
  current_keepalive = none;
  graceful = to_list s.current_keepalive ++ s.graceful;
}

-- `u32::saturating_add(1)`
abbrev pub saturating_suc : ℕ → ℕ
saturating_suc n = min (suc n) (2 ^ 32 - 1)

unfoldable pub transition_after_anomaly : Supervisor → Supervisor
unfolding drop_current_gracefully record_state
transition_after_anomaly s =
    let d = drop_current_gracefully s in
    let n = saturating_suc d.failures in
    record_state (
      if leb d.policy.max_failures n
      then record d { failures = n; state = down; restart_timer = some d.policy.down_retry }
      else record d {
        failures = n;
        state = restarting;
        restart_timer = some (nth_backoff d.policy (n - 1));
      })

pub data StartOutcome : Type 0 where
  started_with : ℕ → StartOutcome
  provision_failed : StartOutcome
  spawn_or_init_failed : StartOutcome

unfoldable pub attempt_start : StartResult → ℕ → Supervisor → StartOutcome × Supervisor
unfolding set_healthy drop_current transition_after_anomaly record_state
attempt_start (started server) now s =
    (started_with server.client, record_state (set_healthy server now s))
attempt_start provision_error now s = (
  provision_failed,
  record_state (record (drop_current s) { state = down; restart_timer = none }),
)
attempt_start (spawn_or_init_error process) now s = (
  spawn_or_init_failed,
  transition_after_anomaly (record s { unready = to_list process ++ s.unready }),
)

-- The timer has fired: it is cleared before the attempt.
unfoldable pub on_restart_timer : StartResult → ℕ → Supervisor → Supervisor
unfolding attempt_start
on_restart_timer result now s = (attempt_start result now (record s { restart_timer = none })).1

pub data AcquireReply : Type 0 where
  client_reply : ℕ → AcquireReply
  error_reply : AcquireError → AcquireReply

abbrev client_or_failed : Option ℕ → AcquireReply
client_or_failed none = error_reply err_start_failed
client_or_failed (some c) = client_reply c

-- The reply to the first acquire, after the attempt.
unfoldable pub settled : StartOutcome → ServerState → AcquireReply
settled (started_with c) state = client_reply c
settled provision_failed state = error_reply err_down
settled spawn_or_init_failed down = error_reply err_down
settled spawn_or_init_failed state = error_reply err_start_failed

unfoldable pub start_and_settle : StartResult → ℕ → Supervisor → AcquireReply × Supervisor
unfolding attempt_start settled
start_and_settle result now s = let r = attempt_start result now s in (settled r.0 r.1.state, r.1)

abbrev pub acquire_in : ServerState → StartResult → ℕ → Supervisor → AcquireReply × Supervisor
acquire_in healthy result now s = (client_or_failed s.current_client, s)
acquire_in restarting result now s = (error_reply err_restarting, s)
acquire_in down result now s = (error_reply err_down, s)
acquire_in not_started result now s =
    start_and_settle result now (record_state (record s { state = starting }))
acquire_in starting result now s = (error_reply err_restarting, s)

-- `handle_acquire`; the attempt's result is used in one state only.
unfoldable pub handle_acquire : StartResult → ℕ → Supervisor → AcquireReply × Supervisor
unfolding start_and_settle record_state
handle_acquire result now s = acquire_in s.state result now s

abbrev pub anomaly_in : ServerState → Supervisor → Supervisor
anomaly_in healthy s = transition_after_anomaly s
anomaly_in other s = s

-- The reaction to a child exit and to a reported failure: only while healthy.
unfoldable pub on_anomaly : Supervisor → Supervisor
unfolding transition_after_anomaly
on_anomaly s = anomaly_in s.state s

unfoldable pub shutdown_graceful : Supervisor → Supervisor
shutdown_graceful s = record s {
  current_client = none;
  current_exit = false;
  current_keepalive = none;
  restart_timer = none;
  graceful = to_list s.current_keepalive ++ s.graceful;
}

-- The arms of the `select!` in `run` that go on with the loop: the exit arm waits on a held watcher
-- and the timer arm on an armed timer.
pub data Step (s : Supervisor) : Supervisor → Type 0 where
  exits : s.current_exit ≡ true → Step s (on_anomaly s)
  fires :
      (d : ℕ) (result : StartResult) (now : ℕ)
      → s.restart_timer ≡ some d
      → Step s (on_restart_timer result now s)
  acquires : (result : StartResult) (now : ℕ) → Step s (handle_acquire result now s).1
  reports : (kind : FailureKind) → Step s (on_anomaly s)

-- The arms that break out of it: a shutdown message, and the end of the messages when all handles
-- are dropped. The actor is gone after them.
pub data Stop (s : Supervisor) : Supervisor → Type 0 where
  shuts_down : Stop s (shutdown_graceful s)
  handles_dropped : Stop s (shutdown_graceful s)

pub data Reach (s : Supervisor) : Supervisor → Type 0 where
  here : Reach s s
  next : {t u : Supervisor} → Reach s t → Step t u → Reach s u

-- The states of an actor: while it runs, and the one that it ends in.
pub data Life (s : Supervisor) : Bool → Supervisor → Type 0 where
  runs : {t : Supervisor} → Reach s t → Life s true t
  stops : {t u : Supervisor} → Reach s t → Stop t u → Life s false u
