-- ===== src/Main/HostInformation.antt =====
-- initHostInformation (cmd/deployd/main.go): the host's own entry is posted until the store is ready. A post
-- is a parameter, with a test for ErrNotReady; sleeping changes nothing here.
use deployd.Prelude.{
  ℕ, zero, suc, ◌<◌, Bool, true, false, ◌≡◌, refl, Option, none, some, arith, if◌then◌else◌, inl,
  inr, ◌⊎◌,
}
use deployd.Main.Setup.{Fault}

module _ {S : Type 0} (post : S → Option Fault × S) (is_not_ready : Fault → Bool) where
  abbrev after_post : Option Fault × S → (S → Option (Option Fault) × S) → Option (Option Fault) × S
  after_post (none, s) again = (some none, s)
  after_post (some f, s) again = if is_not_ready f then again s else (some (some f), s)

  -- The loop on fuel: `none` where it has not ended.
  unfoldable pub post_host : ℕ → S → Option (Option Fault) × S
  post_host zero s = (none, s)
  post_host (suc fuel) s = after_post (post s) (post_host fuel)

  pub after_posts : ℕ → S → S
  after_posts zero s = s
  after_posts (suc k) s = after_posts k (post s).1

  -- The store answers a post with ErrNotReady.
  abbrev IsNotReady : Option Fault → Type 0
  IsNotReady none = ⊥
  IsNotReady (some f) = is_not_ready f ≡ true

  -- The first `k` posts do.
  pub NotReadyFor : ℕ → S → Type 0
  NotReadyFor zero s = Unit
  NotReadyFor (suc k) s = IsNotReady (post s).0 × NotReadyFor k (post s).1

  abbrev Settled : Option Fault → Type 0
  Settled none = Unit
  Settled (some f) = is_not_ready f ≡ false

  -- The post after some that were not ready, at most `n` of them, was the last one, and the loop ends
  -- with its answer.
  abbrev pub EndedAfter : ℕ → S → Option (Option Fault) × S → Type 0
  EndedAfter n s (none, t) = ⊥
  EndedAfter n s (some r, t) =
      (k : ℕ) × (k < n) × NotReadyFor k s × (post (after_posts k s) ≡ (r, t)) × Settled r

  -- One of the first `n` posts is not answered with ErrNotReady.
  unfoldable pub ReadyWithin : ℕ → S → Type 0
  ReadyWithin zero s = ⊥
  ReadyWithin (suc n) s = Settled (post s).0 ⊎ ReadyWithin n (post s).1

  ready_later :
      (n : ℕ) (s t : S) (f : Fault)
      → post s ≡ (some f, t)
      → is_not_ready f ≡ true
      → ReadyWithin (suc n) s
      → ReadyWithin n t
  unfolding ReadyWithin
  ready_later n s t f e b (inl h) = absurd (cc (rw (e) at h, b))
  ready_later n s t f e b (inr h) = rw (e) at h

  one_more :
      (n : ℕ) (s t : S) (f : Fault) (r : Option (Option Fault) × S)
      → post s ≡ (some f, t)
      → is_not_ready f ≡ true
      → EndedAfter n t r
      → EndedAfter (suc n) s r
  unfolding NotReadyFor after_posts
  one_more n s t f (none, u) e b h = h
  one_more n s t f (some r, u) e b (k, small, waited, last, settled) =
      (suc k, omega arith, rw (e) (b, waited), rw (e) last, settled)

  ends_now :
      (n : ℕ) (s t : S) (r : Option Fault)
      → post s ≡ (r, t)
      → Settled r
      → EndedAfter (suc n) s (some r, t)
  unfolding NotReadyFor after_posts
  ends_now n s t r e h = (0, omega arith, tt, e, h)

  -- Where one of the first `n` posts is not answered with ErrNotReady, the loop ends with that one, in
  -- at most `n` rounds, and with its answer: no error, or the other error; all posts before were
  -- answered with ErrNotReady.
  pub post_host-EndedAfter : (n : ℕ) (s : S) → ReadyWithin n s → EndedAfter n s (post_host n s)
  unfolding post_host ReadyWithin
  post_host-EndedAfter zero s h = elim h [ ]
  post_host-EndedAfter (suc n) s h = go (post s) refl (λ t. post_host-EndedAfter n t)
    where
      step :
          (f : Fault) (t : S) (b : Bool)
          → post s ≡ (some f, t)
          → is_not_ready f ≡ b
          → (ReadyWithin n t → EndedAfter n t (post_host n t))
          → EndedAfter (suc n) s (if b then post_host n t else (some (some f), t))
      step f t true e b ih = one_more n s t f (post_host n t) e b (ih (ready_later n s t f e b h))
      step f t false e b ih = ends_now n s t (some f) e b

      go :
          (r : Option Fault × S)
          → post s ≡ r
          → ((t : S) → ReadyWithin n t → EndedAfter n t (post_host n t))
          → EndedAfter (suc n) s (after_post r (post_host n))
      go (none, t) e ih = ends_now n s t none e tt
      go (some f, t) e ih = step f t (is_not_ready f) e refl (ih t)
