-- ===== src/Main/Startup/Ends.antt =====
-- How the start ends.
use deployd.Prelude.{ℕ, Option, some, Outcome, ok, err, panic}
use deployd.Entity.Host.{Host}
use deployd.Main.Setup.{Fault, Process, Exit, Libraries}
use deployd.Main.Parts.{host_config_usecase}
use deployd.Main.Ensures.{IsExternal, At, Ensures}
use deployd.Main.Ready.{at_ready}
use deployd.Main.HostInformation.{EndedAfter}
use deployd.Main.Startup.{Surroundings}

module _ {S : Type 0} where
  -- Where the action returns, the result and the state are as wanted; otherwise it has failed at a library.
  abbrev pub Reaches :
      (Option Fault → Process S → Type 0) → Outcome Exit (Option Fault) × Process S → Type 0
  Reaches Q (ok r, p) = Q r p
  Reaches Q (err e, p) = IsExternal e
  Reaches Q (panic x, p) = ⊥

module _ {S File Settings : Type 0} (L : Libraries S) (C : Surroundings S File Settings) (n : ℕ)
    (host : Host) where
  -- All is set up, and the loop over the posts of the host has ended with the result.
  abbrev pub IsServing : Option Fault → Process S → Type 0
  IsServing r q =
      At (at_ready L host) q
      × (s : S) × EndedAfter (C.post host_config_usecase host) C.is_not_ready n s (some r, q.world)
