-- ===== src/Bouncer/Quota.antt =====
-- backend/internal/store/rate_limit.go with its query (sqlcgen/rate_limit.sql.go): how many proposals
-- a subject may make in a fixed window.
pub mod Counting
use chuvar.Prelude.{
  ℕ, suc, ◌-◌, ◌%◌, Str, Bool, ◌&&◌, List, [], ◌∷◌, ◌++◌, Result, ok, err, any, str_eq, ltb, ◌==◌,
  if◌then◌else◌, ℤ, pos, negsuc, is_positive,
}
use chuvar.Store.Types.{Time}
use chuvar.Store.Tables.{update_where}

-- The table propose_write_rate_limits.
pub record RateRow : Type 0 where
  pub subject : Str
  pub window_start : Time
  pub count : ℕ

pub data QuotaError : Type 0 where
  limit_not_positive window_not_positive rate_limited : QuotaError

-- Time.Truncate, for a positive duration.
unfoldable pub truncate : Time → ℕ → Time
truncate t window = t - t % window

unfoldable pub same_key : Str → Time → RateRow → Bool
same_key subject start r = str_eq r.subject subject && r.window_start == start

-- The count in the row of this subject and window; 0 where there is none.
unfoldable pub count_at : Str → Time → List RateRow → ℕ
unfolding same_key
count_at subject start [] = 0
count_at subject start (r ∷ rows) =
    let rest = count_at subject start rows in if same_key subject start r then r.count else rest

-- IncrementProposeWriteRateLimit: a new row counts one, a row that is there one more.
unfoldable pub increment : Str → Time → List RateRow → List RateRow
increment subject start rows =
    if any (same_key subject start) rows
    then update_where (same_key subject start) (λ r. record r { count = suc r.count }) rows
    else rows ++ (record { subject = subject; window_start = start; count = 1 }) ∷ []

abbrev pub magnitude : ℤ → ℕ
magnitude (pos n) = n
magnitude (negsuc n) = suc n

-- CheckProposeWriteRateLimit: the count that the upsert returns is compared with the limit.
unfoldable pub check_rate_limit :
    Time → Str → ℤ → ℤ → List RateRow → Result QuotaError (Unit {0}) × List RateRow
unfolding increment count_at truncate
check_rate_limit now subject limit window rows =
    let start = truncate now (magnitude window) in
    let rows' = increment subject start rows in
    let answer =
      if ltb (magnitude limit) (count_at subject start rows') then err rate_limited else ok tt in
    if is_positive limit
    then (if is_positive window then (answer, rows') else (err window_not_positive, rows))
    else (err limit_not_positive, rows)
