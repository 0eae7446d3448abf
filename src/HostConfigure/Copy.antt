-- ===== src/HostConfigure/Copy.antt =====
-- Copy of internal/src/deploy-job/utility.go: the bytes of a reader to a writer, in pieces. The context,
-- the reader and the writer are parameters, on a state that they share.
use deployd.Prelude.{
  ℕ, zero, suc, ◌+◌, ◌≤◌, ◌<◌, ◌%◌, ◌^◌, String, ◌≡◌, refl, sym, ap, ◌∙◌, ◌⊎◌, inl, inr, Option,
  none, some, List, [], ◌∷◌, ◌++◌, length, length-append, arith,
}
use mathlib.Core.List.{append_assoc, append-nil}

abbrev pub Fault : Type 0
Fault = String

-- The error of a read: none, io.EOF, or another one.
pub data ReadEnd : Type 0 where
  more eof : ReadEnd
  broken : Fault → ReadEnd

-- `read` fills a buffer of 32 KiB at most, and gives the bytes it got beside the error.
pub record Pipe (S : Type 0) : Type 0 where
  pub done : S → Option Fault
  pub read : S → (List ℕ × ReadEnd) × S
  pub write : List ℕ → S → Option Fault × S

abbrev pub Result : Type 0 → Type 0
Result S = Option (Fault ⊎ ℕ) × S

module _ {S : Type 0} where
  -- What follows the write: `total` is an int, by its bits.
  abbrev after_write : Option Fault → ReadEnd → ℕ → S → Result S → Result S
  after_write (some f) e total s rest = (some (inl f), s)
  after_write none eof total s rest = (some (inr total), s)
  after_write none (broken f) total s rest = (some (inl f), s)
  after_write none more total s rest = rest

  abbrev unless_done : Option Fault → S → Result S → Result S
  unless_done (some f) s rest = (some (inl f), s)
  unless_done none s rest = rest

abbrev grown : ℕ → List ℕ → ℕ
grown total bytes = (total + length bytes) % 2 ^ 64

module _ {S : Type 0} (P : Pipe S) where
  -- `if n > 0`
  abbrev write_some : List ℕ → S → Option Fault × S
  write_some [] s = (none, s)
  write_some (b ∷ bytes) s = P.write (b ∷ bytes) s

  -- The loop, `none` where the fuel is not enough.
  unfoldable pub copy_loop : ℕ → ℕ → S → Result S
  copy_loop zero total s = (none, s)
  copy_loop (suc fuel) total s =
      let got = P.read s in
      let written = write_some got.0.0 got.1 in
      let rest = copy_loop fuel (grown total got.0.0) written.1 in
      unless_done (P.done s) s (after_write written.0 got.0.1 (grown total got.0.0) written.1 rest)

  unfoldable pub copy : ℕ → S → Result S
  unfolding copy_loop
  copy fuel s = copy_loop fuel 0 s

-- What the documentation of io.Reader and io.Writer says: the bytes come in order, a read without an
-- error gives some, EOF comes at the end, and a write without an error takes them all.
pub record IsHonest {S : Type 0} (P : Pipe S) : Type 0 where
  pub unread : S → List ℕ
  pub written : S → List ℕ
  pub in_order : (s : S) → unread s ≡ (P.read s).0.0 ++ unread (P.read s).1
  pub progress : (s : S) → (P.read s).0.1 ≡ more → 1 ≤ length (P.read s).0.0
  pub at_end : (s : S) → (P.read s).0.1 ≡ eof → unread (P.read s).1 ≡ []
  pub only_reads : (s : S) → written (P.read s).1 ≡ written s
  pub only_writes : (bytes : List ℕ) (s : S) → unread (P.write bytes s).1 ≡ unread s
  pub takes :
      (bytes : List ℕ) (s : S)
      → (P.write bytes s).0 ≡ none
      → written (P.write bytes s).1 ≡ written s ++ bytes

ends_after :
    {S : Type 0} (d w : Option Fault) (e : ReadEnd) (total : ℕ) (s s' : S) (rest : Result S)
    → (e ≡ more → (r : Fault ⊎ ℕ) × (rest.0 ≡ some r))
    → (r : Fault ⊎ ℕ) × ((unless_done d s (after_write w e total s' rest)).0 ≡ some r)
ends_after (some f) w e total s s' rest h = (inl f, refl)
ends_after none (some f) e total s s' rest h = (inl f, refl)
ends_after none none eof total s s' rest h = (inr total, refl)
ends_after none none (broken f) total s s' rest h = (inl f, refl)
ends_after none none more total s s' rest h = h refl

-- The ways to a total: the end of the reader, or the rest of the loop.
writes_after :
    {S : Type 0} (d w : Option Fault) (e : ReadEnd) (total n : ℕ) (s s' t : S) (rest : Result S)
    → unless_done d s (after_write w e total s' rest) ≡ (some (inr n), t)
    → (w ≡ none)
      × (((e ≡ eof) × (total ≡ n) × (s' ≡ t)) ⊎ ((e ≡ more) × (rest ≡ (some (inr n), t))))
writes_after (some f) w e total n s s' t rest h = absurd (cc (ap (λ r. r.0) h))
writes_after none (some f) e total n s s' t rest h = absurd (cc (ap (λ r. r.0) h))
writes_after none none eof total n s s' t rest h =
    (refl, inl (refl, cc (ap (λ r. r.0) h), ap (λ r. r.1) h))
writes_after none none (broken f) total n s s' t rest h = absurd (cc (ap (λ r. r.0) h))
writes_after none none more total n s s' t rest h = (refl, inr (refl, h))

module _ {S : Type 0} (P : Pipe S) (H : IsHonest P) where
  write_some-unread : (bytes : List ℕ) (s : S) → H.unread (write_some P bytes s).1 ≡ H.unread s
  write_some-unread [] s = refl
  write_some-unread (b ∷ bytes) s = H.only_writes (b ∷ bytes) s

  write_some-takes :
      (bytes : List ℕ) (s : S)
      → (write_some P bytes s).0 ≡ none
      → H.written (write_some P bytes s).1 ≡ H.written s ++ bytes
  write_some-takes [] s h = sym (append-nil (H.written s))
  write_some-takes (b ∷ bytes) s h = H.takes (b ∷ bytes) s h

  copy_loop-ends :
      (fuel total : ℕ) (s : S)
      → length (H.unread s) < fuel
      → (r : Fault ⊎ ℕ) × ((copy_loop P fuel total s).0 ≡ some r)
  unfolding copy_loop
  copy_loop-ends zero total s h = absurd (omega (arith, h))
  copy_loop-ends (suc fuel) total s h =
      let got = P.read s in
      ends_after (P.done s) (write_some P got.0.0 got.1).0 got.0.1 _ s _ _
        (λ e. copy_loop-ends fuel _ _ (shorter e))
    where
      shorter :
          (P.read s).0.1 ≡ more
          → length (H.unread (write_some P (P.read s).0.0 (P.read s).1).1) < fuel
      shorter e = rw (write_some-unread (P.read s).0.0 (P.read s).1) omega (
        arith,
        h,
        H.progress s e,
        ap length (H.in_order s),
        length-append (P.read s).0.0 (H.unread (P.read s).1),
      )

  -- One round of the loop, by what it wrote and what is left to read.
  round :
      (s : S)
      → (write_some P (P.read s).0.0 (P.read s).1).0 ≡ none
      → let s' = (write_some P (P.read s).0.0 (P.read s).1).1 in
        (H.written s' ≡ H.written s ++ (P.read s).0.0)
        × (H.unread s ≡ (P.read s).0.0 ++ H.unread s')
  round s w =
      let bytes = (P.read s).0.0 in
      (
        write_some-takes bytes (P.read s).1 w ∙ ap (λ l. l ++ bytes) (H.only_reads s),
        H.in_order s ∙ ap (λ l. bytes ++ l) (sym (write_some-unread bytes (P.read s).1)),
      )

  copy_loop-writes :
      (fuel total n : ℕ) (s t : S)
      → copy_loop P fuel total s ≡ (some (inr n), t)
      → (H.written t ≡ H.written s ++ H.unread s) × (n ≡ (total + length (H.unread s)) % 2 ^ 64)
  unfolding copy_loop
  copy_loop-writes zero total n s t h = absurd (cc (ap (λ r. r.0) h))
  copy_loop-writes (suc fuel) total n s t h =
      let got = P.read s in
      let ways = writes_after (P.done s) (write_some P got.0.0 got.1).0 got.0.1 _ n s _ t _ h in
      let one = round s ways.0 in
      elim ways.1 [
        | inl (e, sum, same) ↦
            let whole : H.unread s ≡ got.0.0 =
              one.1
              ∙ ap (λ l. got.0.0 ++ l) (write_some-unread got.0.0 got.1 ∙ H.at_end s e)
              ∙ append-nil got.0.0 in
            (
              ap H.written (sym same) ∙ one.0 ∙ ap (λ l. H.written s ++ l) (sym whole),
              sym sum ∙ ap (λ l. (total + length l) % 2 ^ 64) (sym whole),
            )
        | inr (e, rest) ↦
            let s' = (write_some P got.0.0 got.1).1 in
            let later = copy_loop-writes fuel _ n s' t rest in
            (
              later.0
                  ∙ ap (λ l. l ++ H.unread s') one.0
                  ∙ append_assoc (H.written s) got.0.0 (H.unread s')
                  ∙ ap (λ l. H.written s ++ l) (sym one.1),
              omega (arith, later.1, ap length one.1, length-append got.0.0 (H.unread s')),
            )
      ]

  pub copy-ends : (s : S) → (r : Fault ⊎ ℕ) × ((copy P (suc (length (H.unread s))) s).0 ≡ some r)
  unfolding copy
  copy-ends s = copy_loop-ends (suc (length (H.unread s))) 0 s (omega arith)

  -- Where Copy returns a total, the writer has got exactly the bytes of the reader, in their order, after
  -- what it had before, and the total is their number modulo 2 ^ 64.
  pub copy-writes :
      (fuel n : ℕ) (s t : S)
      → copy P fuel s ≡ (some (inr n), t)
      → (H.written t ≡ H.written s ++ H.unread s) × (n ≡ length (H.unread s) % 2 ^ 64)
  unfolding copy
  copy-writes fuel n s t h =
      let all = copy_loop-writes fuel 0 n s t h in (all.0, omega (arith, all.1))
