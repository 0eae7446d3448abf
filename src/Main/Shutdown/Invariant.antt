-- ===== src/Main/Shutdown/Invariant.antt =====
-- What holds of the goroutines at every point of the shutdown.
use deployd.Prelude.{ℕ, ◌+◌, ◌≤◌, ◌≡◌, ◌⊎◌, inl, inr, refl, sym, ap, ◌∙◌, Bool, true, false, arith}
use deployd.Main.Shutdown.{
  at_signal, at_group, ended, RouterAt, unstarted, added, serving, returned, CloserAt, absent,
  at_context, at_shutdown, at_sockets, done, State, begin, Step, interrupt, group_done, register,
  listen, listen_closed, listen_fails, serve_fails, stop_listening, take_over, count, leave,
  shutdown, shutdown_returns, sockets_done, Reach, here, next,
}

-- How much the goroutine stands for in the group, whether it has begun the shutdown, and whether there
-- is one.
abbrev pub weight : CloserAt → ℕ
weight absent = 0
weight at_context = 1
weight at_shutdown = 1
weight at_sockets = 1
weight done = 0

abbrev has_shut : CloserAt → Bool
has_shut absent = false
has_shut at_context = false
has_shut at_shutdown = true
has_shut at_sockets = true
has_shut done = true

abbrev IsThere : RouterAt → CloserAt → Type 0
IsThere unstarted absent = Unit
IsThere unstarted _ = ⊥
IsThere _ absent = ⊥
IsThere _ _ = Unit

pub record IsValid (s : State) : Type 0 where
  pub counted : s.wg ≡ weight s.closer
  pub closed : s.shut ≡ has_shut s.closer
  pub there : IsThere s.router s.closer
  pub cancel : s.shut ≡ true → s.cancelled ≡ true
  pub signalled : s.cancelled ≡ true → s.main ≡ at_signal → ⊥
  pub interrupted : s.main ≡ at_group → s.cancelled ≡ true
  pub over : s.main ≡ ended → (s.wg ≡ 0) × (s.cancelled ≡ true)
  pub remaining : s.closer ≡ done → s.ws_wg + s.uncounted ≤ s.left

begin-IsValid : IsValid begin
begin-IsValid = ground arith

Step-IsValid : {s t : State} → Step s t → IsValid s → IsValid t
Step-IsValid (interrupt s a) v = ground arith
Step-IsValid (group_done s a b) v = ground arith
Step-IsValid (register s a b) v = ground arith
Step-IsValid (listen s a b c) v = ground arith
Step-IsValid (listen_closed s a b c) v = ground arith
Step-IsValid (listen_fails s a b) v = ground arith
Step-IsValid (serve_fails s a b) v = ground arith
Step-IsValid (stop_listening s a b c) v = ground arith
Step-IsValid (take_over s a b c) v = ground arith
Step-IsValid (count s n a b) v = ground arith
Step-IsValid (leave s n a b) v = ground arith
Step-IsValid (shutdown s a b c) v = ground arith
Step-IsValid (shutdown_returns s a b) v = ground arith
Step-IsValid (sockets_done s a b c) v = ground arith

pub Reach-IsValid : {s : State} → Reach begin s → IsValid s
Reach-IsValid here = begin-IsValid
Reach-IsValid (next r st) = Step-IsValid st (Reach-IsValid r)

-- With no goroutine in the group there is none, or it is done.
unstarted_of : (r : RouterAt) → IsThere r absent → r ≡ unstarted
unstarted_of unstarted h = refl
unstarted_of added h = elim h [ ]
unstarted_of serving h = elim h [ ]
unstarted_of returned h = elim h [ ]

absent_or_done : (c : CloserAt) → weight c ≡ 0 → (c ≡ absent) ⊎ (c ≡ done)
absent_or_done absent h = inl refl
absent_or_done done h = inr refl
absent_or_done at_context h = absurd (omega (arith, h))
absent_or_done at_shutdown h = absurd (omega (arith, h))
absent_or_done at_sockets h = absurd (omega (arith, h))

-- Where the program has come to its regular end: either the interrupt came before the router's goroutine
-- had registered itself in the group, or the server's Shutdown has returned, the context was cancelled,
-- and of the connections that were taken over no more are left than those that were not yet counted when
-- the wait for the counted ones returned.
pub Reach-IsClosed :
    {s : State}
    → Reach begin s
    → s.main ≡ ended
    → (s.router ≡ unstarted)
      ⊎ ((s.closer ≡ done)
          × (s.shut ≡ true)
          × (s.cancelled ≡ true)
          × (s.ws_wg + s.uncounted ≤ s.left))
Reach-IsClosed {s} r e =
    let v : IsValid s = Reach-IsValid r in
    let over : (s.wg ≡ 0) × (s.cancelled ≡ true) = v.over e in
    elim (absent_or_done s.closer (sym v.counted ∙ over.0)) [
      | inl c ↦ inl (unstarted_of s.router (rw c at v.there))
      | inr c ↦ inr (c, v.closed ∙ ap has_shut c, over.1, v.remaining c)
    ]
