-- ===== src/Main/Shutdown.antt =====
-- The end of main and startRouter (cmd/deployd/main.go), as steps of the three goroutines and of the
-- websocket handlers (internal/src/systemd/systemd_http.go), which are counted in a group of their own
-- after they have taken over their connection. net/http is as documented: Shutdown stops the listener at
-- once, does not wait for such connections, and returns after its time at the latest.
pub mod Invariant
pub mod Progress
use deployd.Prelude.{ℕ, suc, ◌+◌, ◌-◌, ◌≡◌, ◌≢◌, Bool, true, false}

pub data MainAt : Type 0 where
  at_signal at_group ended killed : MainAt

-- startRouter: before wg.Add, before ListenAndServe, in it, and after it.
pub data RouterAt : Type 0 where
  unstarted added serving returned : RouterAt

-- The goroutine that startRouter starts: not there, before the end of the context, in Shutdown, in
-- wsWg.Wait, and after its deferred wg.Done.
pub data CloserAt : Type 0 where
  absent at_context at_shutdown at_sockets done : CloserAt

pub record State : Type 0 where
  pub main : MainAt
  pub router : RouterAt
  pub closer : CloserAt
  pub cancelled : Bool
  pub shut : Bool
  pub wg : ℕ
  pub ws_wg : ℕ
  -- Connections that are taken over and not yet counted: now, and when wsWg.Wait returned.
  pub uncounted : ℕ
  pub left : ℕ

abbrev pub begin : State
begin = record {
  main = at_signal;
  router = unstarted;
  closer = absent;
  cancelled = false;
  shut = false;
  wg = 0;
  ws_wg = 0;
  uncounted = 0;
  left = 0;
}

abbrev pub IsRunning : MainAt → Type 0
IsRunning at_signal = Unit
IsRunning at_group = Unit
IsRunning ended = ⊥
IsRunning killed = ⊥

-- A step of some goroutine; there is none once the process has ended.
pub data Step : State → State → Type 0 where
  interrupt :
      (s : State) → s.main ≡ at_signal → Step s (record s { main = at_group; cancelled = true })
  group_done : (s : State) → s.main ≡ at_group → s.wg ≡ 0 → Step s (record s { main = ended })
  register :
      (s : State)
      → IsRunning s.main
      → s.router ≡ unstarted
      → Step s (record s { router = added; closer = at_context; wg = suc s.wg })
  listen :
      (s : State)
      → IsRunning s.main
      → s.router ≡ added
      → s.shut ≡ false
      → Step s (record s { router = serving })
  listen_closed :
      (s : State)
      → IsRunning s.main
      → s.router ≡ added
      → s.shut ≡ true
      → Step s (record s { router = returned })
  listen_fails :
      (s : State)
      → IsRunning s.main
      → s.router ≡ added
      → Step s (record s { router = returned; main = killed })
  serve_fails :
      (s : State)
      → IsRunning s.main
      → s.router ≡ serving
      → Step s (record s { router = returned; main = killed })
  stop_listening :
      (s : State)
      → IsRunning s.main
      → s.router ≡ serving
      → s.shut ≡ true
      → Step s (record s { router = returned })
  take_over :
      (s : State)
      → IsRunning s.main
      → s.router ≡ serving
      → s.shut ≡ false
      → Step s (record s { uncounted = suc s.uncounted })
  count :
      (s : State) (n : ℕ)
      → IsRunning s.main
      → s.uncounted ≡ suc n
      → Step s (record s { uncounted = n; ws_wg = suc s.ws_wg })
  leave : (s : State) (n : ℕ) → IsRunning s.main → s.ws_wg ≡ suc n → Step s (record s { ws_wg = n })
  shutdown :
      (s : State)
      → IsRunning s.main
      → s.closer ≡ at_context
      → s.cancelled ≡ true
      → Step s (record s { closer = at_shutdown; shut = true })
  shutdown_returns :
      (s : State)
      → IsRunning s.main
      → s.closer ≡ at_shutdown
      → Step s (record s { closer = at_sockets })
  sockets_done :
      (s : State)
      → IsRunning s.main
      → s.closer ≡ at_sockets
      → s.ws_wg ≡ 0
      → Step s (record s { closer = done; wg = s.wg - 1; left = s.uncounted })

pub data Reach (s : State) : State → Type 0 where
  here : Reach s s
  next : {t u : State} → Reach s t → Step t u → Reach s u
