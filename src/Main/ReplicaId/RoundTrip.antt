-- ===== src/Main/ReplicaId/RoundTrip.antt =====
-- A replica id is read back from its decimal text.
use text.Mathlib.TextLemmas.{nil-append, cons-append, append-ne-nil_of_right_ne-nil}
use Prim.Native.Char.{code}
use deployd.Prelude.{
  ok, ℕ, zero, suc, ◌+◌, ◌-◌, ◌*◌, ◌/◌, ◌%◌, ◌<◌, String, ◌<>◌, ◌≡◌, ◌≢◌, refl, ap, ◌∙◌, Option,
  none, some, ltb, if◌then◌else◌, arith, eq_iff, Bool-cases, ltb→lt, inl, inr,
}
use deployd.Prelude.Decimal.{digit, format_on, format_uint}
use deployd.ServiceSetup.{Environment}
use deployd.Main.ReplicaId.{uint_limit, scan, parse_uint, replica_of, get_replica_id}

-- One more digit behind what was read.
abbrev push : ℕ → ℕ → Option ℕ
push d m = if ltb (m * 10 + d) uint_limit then some (m * 10 + d) else none

abbrev push_on : ℕ → Option ℕ → Option ℕ
push_on d none = none
push_on d (some m) = push d m

scan-digit : (d m : ℕ) → d < 10 → scan (digit d) m ≡ push d m
unfolding scan
scan-digit zero m h = refl
scan-digit (suc zero) m h = refl
scan-digit (suc (suc zero)) m h = refl
scan-digit (suc (suc (suc zero))) m h = refl
scan-digit (suc (suc (suc (suc zero)))) m h = refl
scan-digit (suc (suc (suc (suc (suc zero))))) m h = refl
scan-digit (suc (suc (suc (suc (suc (suc zero)))))) m h = refl
scan-digit (suc (suc (suc (suc (suc (suc (suc zero))))))) m h = refl
scan-digit (suc (suc (suc (suc (suc (suc (suc (suc zero)))))))) m h = refl
scan-digit (suc (suc (suc (suc (suc (suc (suc (suc (suc zero))))))))) m h = refl
scan-digit (suc (suc (suc (suc (suc (suc (suc (suc (suc (suc d)))))))))) m h = absurd (omega arith)

scan-append_digit : (s : String) (d m : ℕ) → d < 10 → scan (s <> digit d) m ≡ push_on d (scan s m)
unfolding scan
scan-append_digit String.[] d m h = rw (nil-append (digit d)) (scan-digit d m h)
scan-append_digit (String.◌∷◌ c s) d m h =
    rw (cons-append c s (digit d))
      (ground (arith, scan-append_digit s d (m * 10 + (code c - b'0')) h))

-- Fuel above the number is enough for its digits, and they are read back.
scan-format_on : (fuel n : ℕ) → n < fuel → n < uint_limit → scan (format_on fuel n) 0 ≡ some n
unfolding format_on
scan-format_on zero n h fits = elim h [ ]
scan-format_on (suc fuel) n h fits = elim (Bool-cases (ltb n 10)) [
  | inl e ↦ rw e (scan-digit n 0 (ltb→lt n 10 e) ∙ ground arith)
  | inr e ↦ rw e (
      scan-append_digit (format_on fuel (n / 10)) (n % 10) 0 (omega arith)
      ∙ rw (scan-format_on fuel (n / 10) (ground arith) (omega arith)) (ground arith))
]

-- A digit read behind 1 gives another number than no digit does.
digit-ne-nil : (d : ℕ) → d < 10 → digit d ≢ ""
unfolding scan
digit-ne-nil d h e = ground (arith, scan-digit d 1 h, ap (λ t. scan t 1) e)

format_on-ne-nil : (fuel n : ℕ) → format_on (suc fuel) n ≢ ""
unfolding format_on
format_on-ne-nil fuel n = elim (Bool-cases (ltb n 10)) [
  | inl e ↦ rw e (digit-ne-nil n (ltb→lt n 10 e))
  | inr e ↦ rw e (
      append-ne-nil_of_right_ne-nil (format_on fuel (n / 10)) (digit-ne-nil (n % 10) (omega arith)))
]

-- Every number of 64 bits is read back from its decimal text.
pub parse_uint-format_uint : (n : ℕ) → n < uint_limit → parse_uint (format_uint n) ≡ some n
unfolding parse_uint format_uint
parse_uint-format_uint n fits = ground (
  arith,
  eq_iff (format_on (suc n) n) "",
  format_on-ne-nil n n,
  scan-format_on (suc n) n (omega arith) fits,
)

-- A replica id below 2 ^ 64 that is written in base 10 in the environment is the id that the program
-- starts with.
pub get_replica_id-format_uint :
    (env : Environment) (n : ℕ)
    → n < uint_limit
    → env "DEPLOYD_REPLICA_ID" ≡ format_uint n
    → get_replica_id env ≡ ok n
unfolding get_replica_id
get_replica_id-format_uint env n fits e =
    ap replica_of (ap parse_uint e ∙ parse_uint-format_uint n fits)
