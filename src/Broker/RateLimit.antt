-- ===== src/Broker/RateLimit.antt =====
-- backend/internal/broker/ratelimit.go: the sliding window that bounds how often each grant signs.
-- Allow holds the limiter's lock, so a call is one step; the times of the calls are arguments.
pub mod Bound
use chuvar.Prelude.{
  ℕ, suc, ◌+◌, Str, Bool, true, false, not, ◌||◌, Option, none, some, List, [], ◌∷◌, ◌++◌, ℤ, pos,
  negsuc, is_positive, length, keep_if, leb, ltb, if◌then◌else◌, StrMap, get, put,
}
use chuvar.Store.Types.{Time}

pub record RateLimiter : Type 0 where
  pub limit : ℤ
  pub window : ℤ
  pub events : StrMap (List Time)

unfoldable pub new_rate_limiter : ℤ → ℤ → RateLimiter
new_rate_limiter limit window = record { limit = limit; window = window; events = [] }

abbrev pub magnitude : ℤ → ℕ
magnitude (pos n) = n
magnitude (negsuc n) = suc n

-- t.After(now.Add(-window)), for a positive window
unfoldable pub in_window : ℕ → Time → Time → Bool
in_window window now t = ltb now (t + window)

-- r.events[key], nil for a key that the map lacks
unfoldable pub events_of : Str → StrMap (List Time) → List Time
events_of key events = elim (get key events) [ none ↦ [] | some ts ↦ ts ]

unfoldable pub allow : Str → Time → RateLimiter → Bool × RateLimiter
unfolding events_of
allow key now r =
    if not (is_positive r.limit) || not (is_positive r.window)
    then (true, r)
    else let kept = keep_if (in_window (magnitude r.window) now) (events_of key r.events) in
      if leb (magnitude r.limit) (length kept)
      then (false, record r { events = put key kept r.events })
      else (true, record r { events = put key (kept ++ now ∷ []) r.events })
