-- ===== src/Main/Shutdown/Progress.antt =====
-- From every point at which the program runs it can come to its regular end.
use deployd.Prelude.{ℕ, zero, suc, ◌≡◌, refl, true, arith}
use deployd.Main.Shutdown.{
  MainAt, at_signal, at_group, ended, killed, CloserAt, absent, at_context, at_shutdown, at_sockets,
  done, State, begin, IsRunning, Step, interrupt, group_done, leave, shutdown, shutdown_returns,
  sockets_done, Reach, here, next,
}
use deployd.Main.Shutdown.Invariant.{IsValid, Reach-IsValid, weight}

abbrev pub CanEnd : State → Type 0
CanEnd s = (t : State) × Reach s t × (t.main ≡ ended)

before : {s t u : State} → Step s t → Reach t u → Reach s u
before st here = next here st
before st (next r st') = next (before st r) st'

step_first : {s t : State} → Step s t → CanEnd t → CanEnd s
step_first st (u, r, e) = (u, before st r, e)

from_group : (s : State) → s.main ≡ at_group → s.wg ≡ 0 → CanEnd s
from_group s a b = (_, next here (group_done s a b), refl)

from_sockets :
    (n : ℕ) (s : State)
    → s.main ≡ at_group
    → s.closer ≡ at_sockets
    → s.wg ≡ 1
    → s.ws_wg ≡ n
    → CanEnd s
from_sockets zero s a c w e =
    step_first (sockets_done s (rw a tt) c e) (from_group _ a (omega (arith, w)))
from_sockets (suc n) s a c w e =
    step_first (leave s n (rw a tt) e) (from_sockets n (record s { ws_wg = n }) a c w refl)

-- Once the context is cancelled, the goroutine goes on by itself.
from_closer :
    (c : CloserAt) (s : State)
    → s.main ≡ at_group
    → s.cancelled ≡ true
    → s.closer ≡ c
    → s.wg ≡ weight c
    → CanEnd s
from_closer absent s a x c w = from_group s a w
from_closer done s a x c w = from_group s a w
from_closer at_sockets s a x c w = from_sockets s.ws_wg s a c w refl
from_closer at_shutdown s a x c w =
    step_first (shutdown_returns s (rw a tt) c)
      (from_sockets s.ws_wg (record s { closer = at_sockets }) a refl w refl)
from_closer at_context s a x c w = step_first (shutdown s (rw a tt) c x) (
    step_first (shutdown_returns (record s { closer = at_shutdown; shut = true }) (rw a tt) refl)
      (from_sockets s.ws_wg (record s { closer = at_sockets; shut = true }) a refl w refl))

from_main : (m : MainAt) (s : State) → IsValid s → s.main ≡ m → IsRunning m → CanEnd s
from_main at_signal s v a r =
    step_first (interrupt s a) (
      from_closer s.closer (record s { main = at_group; cancelled = true }) refl refl refl
        v.counted)
from_main at_group s v a r = from_closer s.closer s a (v.interrupted a) refl v.counted
from_main ended s v a r = elim r [ ]
from_main killed s v a r = elim r [ ]

-- From every point that the program can reach, and at which it still runs, it can come to its regular
-- end: an interrupt, the steps of the closing goroutine, and the leaving of the counted connections are
-- all that it takes.
pub Reach-CanEnd : {s : State} → Reach begin s → IsRunning s.main → CanEnd s
Reach-CanEnd {s} r h = from_main s.main s (Reach-IsValid r) refl h
