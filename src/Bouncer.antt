-- ===== src/Bouncer.antt =====
-- backend/internal/bouncer/bouncer.go: the one way in which agents write.
pub mod Quota
mod Tests
use chuvar.Prelude.{
  ℕ, ◌*◌, Str, Bool, true, false, not, Option, none, some, List, [], ◌∷◌, Result, ok, err, is_empty,
  ℤ, pos, if◌then◌else◌,
}
use chuvar.Scope.{Scope, validate, dedupe}
use chuvar.Store.Types.{
  RowId, Time, Context, Db, GrantedScope, StagedDiff, DedupeDisclosure, StoreError,
}
use chuvar.Store.Grants.{granted_scope_depths}
use chuvar.Store.Facts.{Engine}
use chuvar.Store.Diffs.{propose_diff}
use chuvar.Auth.Types.{AuthDb}
use chuvar.Auth.Action.{Action, pure, gets, lift, check, ◌>>=◌, ◌>>◌, or_else}
use chuvar.Bouncer.Quota.{RateRow, QuotaError, check_rate_limit, rate_limited}

-- The whole database, as the agents' listener meets it.
pub record World (V : Type 0) : Type 0 where
  pub store : Db V
  pub auth : AuthDb
  pub limits : List RateRow

-- A Bouncer. A nil embedder or classifier is `none`; a call of one that fails is `none`, and so is a
-- classification that leaves the proposed scopes as they are.
pub record Gatekeeper (F V : Type 0) : Type 0 where
  pub engine : Engine F V
  pub embedder : Option (Str → Option (List F))
  pub classifier : Option (Str → Option (Option (List Scope)))
  pub rate_limit : ℤ
  pub rate_limit_window : ℤ

abbrev pub default_rate_limit : ℤ
default_rate_limit = pos 20

-- A minute, in nanoseconds.
abbrev pub default_rate_limit_window : ℤ
default_rate_limit_window = pos (60 * 1000000000)

-- The errors of ProposeWrite by what the caller does with them: a ValidationError, ErrRateLimited,
-- and all others.
pub data ProposeError : Type 0 where
  invalid limited failed : ProposeError

-- PassthroughClassifier
unfoldable pub passthrough : Str → Option (Option (List Scope))
passthrough content = some none

-- The loop that validates scopes.
unfoldable pub all_valid : List Scope → Bool
all_valid [] = true
all_valid (s ∷ scopes) =
    let rest = all_valid scopes in elim (validate s) [ ok _ ↦ rest | err _ ↦ false ]

-- The error where there is nothing.
unfoldable pub present : {A E : Type 0} → E → Option A → Result E A
present e none = err e
present e (some a) = ok a

-- What happens to one part of the world.
module _ {V : Type 0} where
  unfoldable pub in_store : {E A : Type 0} → Action (Db V) E A → Action (World V) E A
  in_store m w = let r = m w.store in (r.0, record w { store = r.1 })

  unfoldable pub in_auth : {E A : Type 0} → Action AuthDb E A → Action (World V) E A
  in_auth m w = let r = m w.auth in (r.0, record w { auth = r.1 })

  unfoldable pub in_limits : {E A : Type 0} → Action (List RateRow) E A → Action (World V) E A
  in_limits m w = let r = m w.limits in (r.0, record w { limits = r.1 })

unfoldable pub quota_error : QuotaError → ProposeError
quota_error rate_limited = limited
quota_error _ = failed

-- The scopes that a classification gives: a classified list replaces the proposed one.
unfoldable pub final_scopes : List Scope → Option (List Scope) → Result ProposeError (List Scope)
unfolding all_valid
final_scopes proposed none = ok proposed
final_scopes proposed (some classified) = if all_valid classified then ok classified else err failed

module _ {F V : Type 0} (b : Gatekeeper F V) where
  -- ProposeWrite
  unfoldable pub propose_write :
      Context
      → Str
      → Str
      → List Scope
      → Option RowId
      → Action (World V) ProposeError (StagedDiff × DedupeDisclosure)
  unfolding all_valid final_scopes present quota_error in_store in_limits
  propose_write ctx subject content proposed target = do
    check (not (is_empty content)) invalid
    check (all_valid proposed) invalid
    classify ← lift (present failed b.classifier)
    or_else (in_limits (check_rate_limit ctx.wall subject b.rate_limit b.rate_limit_window))
        quota_error
    classified ← lift (present failed (classify content))
    chosen ← lift (final_scopes proposed classified)
    let scopes = dedupe chosen
    check (not (is_empty scopes)) invalid
    embed ← lift (present failed b.embedder)
    vec ← lift (present failed (embed content))
    granted ← gets (λ w. granted_scope_depths ctx.db_now subject w.store)
    or_else (in_store (propose_diff b.engine ctx subject content scopes vec target granted))
        (λ _. failed)
