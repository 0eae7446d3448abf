-- ===== src/Storage.antt =====
-- The ClickHouse connections of the main program (cmd/deployd/config.go): one for each name, opened with
-- retries and kept. The database library is a parameter.
pub mod Connections
mod Examples
use deployd.Prelude.{ℕ, zero, suc, ◌<◌, String, ◌≡◌, refl, sym, ap, Option, none, some, arith}

abbrev pub Fault : Type 0
Fault = String

module _ {S : Type 0} (fn : S → Option Fault × S) where
  abbrev pub again : Option Fault × S → (S → Option Fault × S) → Option Fault × S
  again (none, s) rest = (none, s)
  again (some f, s) rest = rest s

  -- retry: `times` counts the attempts that are left, and one is made in any case. Sleeping changes
  -- nothing here.
  unfoldable pub retry : ℕ → S → Option Fault × S
  retry zero s = fn s
  retry (suc zero) s = fn s
  retry (suc (suc n)) s = again (fn s) (retry (suc n))

  -- The state after `k` attempts.
  pub after_attempts : ℕ → S → S
  after_attempts zero s = s
  after_attempts (suc k) s = after_attempts k (fn s).1

  -- The first `k` attempts from a state fail.
  pub AllFail : ℕ → S → Type 0
  AllFail zero s = Unit
  AllFail (suc k) s = ((f : Fault) × ((fn s).0 ≡ some f)) × AllFail k (fn s).1

  -- How retry ends after at most `n` attempts: with the first one that succeeds, or with the error of the
  -- last one.
  abbrev pub Ended : ℕ → S → Option Fault × S → Type 0
  Ended n s (none, t) = (k : ℕ) × (k < n) × AllFail k s × (fn (after_attempts k s) ≡ (none, t))
  Ended n s (some f, t) = AllFail n s × (t ≡ after_attempts n s)

  once : (s : S) (r : Option Fault × S) → fn s ≡ r → Ended 1 s r
  unfolding after_attempts AllFail
  once s (none, t) e = (0, omega arith, tt, e)
  once s (some f, t) e = (((f, ap (λ r. r.0) e), tt), sym (ap (λ r. r.1) e))

  -- With `times` of at least 1, retry makes attempts until one succeeds, and `times` of them at most: where
  -- it returns no error it stopped at the first success, and where it returns one all attempts failed, each
  -- from the state that the one before it left.
  pub retry-Ended : (n : ℕ) (s : S) → Ended (suc n) s (retry (suc n) s)
  unfolding retry after_attempts AllFail
  retry-Ended zero s = once s (fn s) refl
  retry-Ended (suc n) s = go (fn s) refl (retry-Ended n (fn s).1)
    where
      later :
          (f : Fault) (t : S) (r : Option Fault × S)
          → fn s ≡ (some f, t)
          → Ended (suc n) t r
          → Ended (suc (suc n)) s r
      later f t (none, u) e (k, small, failed, last) =
          (suc k, omega arith, ((f, ap (λ r. r.0) e), rw (e) failed), rw (e) last)
      later f t (some g, u) e h = (((f, ap (λ r. r.0) e), rw (e) h.0), rw (e) h.1)

      go :
          (r : Option Fault × S)
          → fn s ≡ r
          → Ended (suc n) (fn s).1 (retry (suc n) (fn s).1)
          → Ended (suc (suc n)) s (again r (retry (suc n)))
      go (none, t) e h = (0, omega arith, tt, e)
      go (some f, t) e h = later f t (retry (suc n) t) e (rw (e) at h)
