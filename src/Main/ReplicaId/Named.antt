-- ===== src/Main/ReplicaId/Named.antt =====
-- What the host is called, or why the program does not start.
use Prim.Native.Char.{code}
use deployd.Prelude.{
  ℕ, ◌+◌, ◌-◌, ◌*◌, ◌<◌, String, ◌≡◌, ◌≢◌, refl, ap, ◌⊎◌, inl, inr, none, some, Outcome, ok, err,
  panic, ◌==◌, arith, eq_iff, Bool-cases, Option-cases,
}
use deployd.Entity.Host.{Host}
use deployd.ServiceSetup.{Environment}
use deployd.Main.Setup.{Exit, log_fatal}
use deployd.Main.ReplicaId.{
  uint_limit, scan, parse_uint, replica_of, get_replica_id, must_env, current_host,
}

scan_lt : (s : String) (n m : ℕ) → n < uint_limit → scan s n ≡ some m → m < uint_limit
unfolding scan
scan_lt String.[] n m h e = ground arith
scan_lt (String.◌∷◌ c s) n m h e = ground (arith, scan_lt s (n * 10 + (code c - b'0')) m)

pub parse_uint_lt : (s : String) (n : ℕ) → parse_uint s ≡ some n → n < uint_limit
unfolding parse_uint
parse_uint_lt s n e = ground (arith, scan_lt s 0 n)

module _ (env : Environment) where
  must_env-cases :
      (name : String)
      → ((must_env env name ≡ ok (env name)) × (env name ≢ ""))
        ⊎ ((e : Exit) × (must_env env name ≡ err e) × (env name ≡ ""))
  unfolding must_env
  must_env-cases name = elim (Bool-cases (env name == "")) [
    | inl e ↦ inr (log_fatal "invalid env value", rw e refl, (eq_iff (env name) "").0 e)
    | inr e ↦ inl (rw e refl, λ q. cc (e, (eq_iff (env name) "").1 q))
  ]

  get_replica_id-cases :
      ((n : ℕ) × (get_replica_id env ≡ ok n) × (parse_uint (env "DEPLOYD_REPLICA_ID") ≡ some n))
      ⊎ ((e : Exit) × (get_replica_id env ≡ err e) × (parse_uint (env "DEPLOYD_REPLICA_ID") ≡ none))
  unfolding get_replica_id
  get_replica_id-cases = elim (Option-cases (parse_uint (env "DEPLOYD_REPLICA_ID"))) [
    | inl e ↦ inr (_, ap replica_of e, e)
    | inr (n, e) ↦ inl (n, ap replica_of e, e)
  ]

module _ (env : Environment) (now : ℕ) where
  -- The host has the names of the environment, which are not empty, and the id that is written there,
  -- of 64 bits; or one of the four is missing.
  abbrev pub IsNamed : Outcome Exit Host → Type 0
  IsNamed (ok h) =
      ((h.host ≡ env "DEPLOYD_HOSTNAME") × (h.host ≢ ""))
      × ((h.os ≡ env "DEPLOYD_OS") × (h.os ≢ ""))
      × ((h.architecture ≡ env "DEPLOYD_ARCH") × (h.architecture ≢ ""))
      × (parse_uint (env "DEPLOYD_REPLICA_ID") ≡ some h.raft_config.replica_id)
      × (h.raft_config.replica_id < uint_limit)
      × (h.ns ≡ "deployd")
      × (h.published_at ≡ now)
  IsNamed (err e) =
      (env "DEPLOYD_HOSTNAME" ≡ "")
      ⊎ (env "DEPLOYD_OS" ≡ "")
      ⊎ (env "DEPLOYD_ARCH" ≡ "")
      ⊎ (parse_uint (env "DEPLOYD_REPLICA_ID") ≡ none)
  IsNamed (panic x) = ⊥

  -- The host of the program has its name, system and architecture from the environment, none of them
  -- empty, and as replica id the number below 2 ^ 64 that is written there; where one of the four is
  -- missing, and only there, the program ends before its start.
  pub current_host-IsNamed : IsNamed (current_host env now)
  unfolding current_host
  current_host-IsNamed = elim (must_env-cases env "DEPLOYD_HOSTNAME") [
    | inr (e, a, x) ↦ rw a (inl x)
    | inl (a, host) ↦ rw a (elim (must_env-cases env "DEPLOYD_OS") [
      | inr (e, b, x) ↦ rw b (inr (inl x))
      | inl (b, os) ↦ rw b (elim (must_env-cases env "DEPLOYD_ARCH") [
        | inr (e, c, x) ↦ rw c (inr (inr (inl x)))
        | inl (c, architecture) ↦ rw c (elim (get_replica_id-cases env) [
          | inr (e, d, x) ↦ rw d (inr (inr (inr x)))
          | inl (n, d, x) ↦ rw d (
            (refl, host),
            (refl, os),
            (refl, architecture),
            x,
            parse_uint_lt (env "DEPLOYD_REPLICA_ID") n x,
            refl,
            refl,
          )
        ])
      ])
    ])
  ]
