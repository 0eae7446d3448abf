-- ===== src/Controller/JobLogger.antt =====
-- The logger of the sub-jobs that broadcasts (internal/src/deploy-job/utility_job_logger.go).
use deployd.Prelude.{ℕ, zero, suc, String, ◌≡◌, refl, Option, none, List, [], ◌∷◌}
use deployd.Prelude.GoMap.{set}

-- slog.Record, with its values as texts.
pub record Record : Type 0 where
  pub level : String
  pub time : String
  pub message : String
  pub attrs : List (String × String)

collect_attrs : List (String × String) → List (String × String) → List (String × String)
collect_attrs [] collect = collect
collect_attrs ((key, value) ∷ attrs) collect = collect_attrs attrs (set key value collect)

-- The map that is broadcast; an attribute may write over the first three.
unfoldable pub collected : Record → List (String × String)
unfolding collect_attrs
collected r =
    collect_attrs r.attrs (("level", r.level) ∷ ("time", r.time) ∷ ("msg", r.message) ∷ [])

module _ {S : Type 0} (broadcast : List (String × String) → S → S) where
  -- Handle ends with a call of itself, not of the embedded handler: `none` where it has not returned.
  unfoldable pub handle : ℕ → Record → S → Option (Option String) × S
  handle zero r s = (none, s)
  handle (suc fuel) r s = handle fuel r (broadcast (collected r) s)

  pub broadcast_times : ℕ → List (String × String) → S → S
  broadcast_times zero m s = s
  broadcast_times (suc n) m s = broadcast_times n m (broadcast m s)

  -- It never returns, and broadcasts the record once in each round.
  pub handle_lem :
      (n : ℕ) (r : Record) (s : S) → handle n r s ≡ (none, broadcast_times n (collected r) s)
  unfolding handle broadcast_times
  handle_lem zero r s = refl
  handle_lem (suc n) r s = handle_lem n r (broadcast (collected r) s)
