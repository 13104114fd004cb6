-- ===== src/Bouncer/Quota/Counting.antt =====
-- How many calls of a subject pass in one window.
use chuvar.Prelude.{
  ℕ, suc, ◌-◌, ◌<◌, Str, Bool, true, false, ◌&&◌, ◌≡◌, refl, ap, ap₂, sym, ◌∙◌, inl, inr, List, [],
  ◌∷◌, ◌++◌, Result, ok, err, any, str_eq, str_eq_refl, str_eq_iff, ==_refl, ==→eq, ltb, lt→ltb,
  ◌==◌, if◌then◌else◌, Bool-cases, arith, pos, &&-true,
}
use chuvar.Store.Types.{Time}
use chuvar.Store.Tables.{update_where}
use chuvar.Bouncer.Quota.{
  RateRow, same_key, count_at, increment, truncate, check_rate_limit, QuotaError, rate_limited,
}

-- The keys of two windows are the same.
abbrev key_eq : Str → Time → Str → Time → Bool
key_eq s w subject start = str_eq s subject && w == start

-- A row of one key has another key only if the keys are the same.
other_key :
    (s subject : Str) (w start : Time) (r : RateRow)
    → key_eq s w subject start ≡ false
    → same_key subject start r ≡ true
    → same_key s w r ≡ false
unfolding same_key
other_key s subject w start r differ hit =
    let (same_subject, same_start) =
      &&-true (str_eq r.subject subject) (r.window_start == start) hit in
    ground (
      arith,
      str_eq_iff r.subject subject,
      str_eq_iff r.subject s,
      str_eq_iff s subject,
      ==→eq r.window_start start same_start,
    )

bump : RateRow → RateRow
bump r = record r { count = suc r.count }

bump-same : (s : Str) (w : Time) (r : RateRow) → same_key s w (bump r) ≡ same_key s w r
unfolding same_key bump
bump-same s w r = refl

bump-count : (r : RateRow) → (bump r).count ≡ suc r.count
unfolding bump
bump-count r = refl

module _ (subject : Str) (start : Time) where
  bumped :
      (rows : List RateRow)
      → any (same_key subject start) rows ≡ true
      → count_at subject start (update_where (same_key subject start) bump rows)
        ≡ suc (count_at subject start rows)
  unfolding count_at update_where
  bumped [] h = absurd (cc h)
  bumped (r ∷ rows) h = elim (Bool-cases (same_key subject start r)) [
    | inl e ↦ rw (e, count_at, bump-same subject start r, e) (bump-count r)
    | inr e ↦ rw (e, count_at, e) (bumped rows (rw e at h))
  ]

  none_counted :
      (rows : List RateRow)
      → any (same_key subject start) rows ≡ false
      → count_at subject start rows ≡ 0
  unfolding count_at
  none_counted [] h = refl
  none_counted (r ∷ rows) h = elim (Bool-cases (same_key subject start r)) [
    | inl e ↦ absurd (cc (rw e at h))
    | inr e ↦ rw e (none_counted rows (rw e at h))
  ]

  new_row : RateRow
  new_row = record { subject = subject; window_start = start; count = 1 }

  new_row-same : same_key subject start new_row ≡ true
  unfolding same_key new_row
  new_row-same = rw (str_eq_refl subject, ==_refl start)

  new_row-count : new_row.count ≡ 1
  unfolding new_row
  new_row-count = refl

  appended :
      (rows : List RateRow)
      → any (same_key subject start) rows ≡ false
      → count_at subject start (rows ++ new_row ∷ []) ≡ 1
  unfolding count_at
  appended [] h = rw new_row-same new_row-count
  appended (r ∷ rows) h = elim (Bool-cases (same_key subject start r)) [
    | inl e ↦ absurd (cc (rw e at h))
    | inr e ↦ rw e (appended rows (rw e at h))
  ]

  -- A call adds one to the count of its own key.
  increment-own :
      (rows : List RateRow)
      → count_at subject start (increment subject start rows) ≡ suc (count_at subject start rows)
  unfolding increment bump new_row
  increment-own rows = elim (Bool-cases (any (same_key subject start) rows)) [
    | inl e ↦ rw e (bumped rows e)
    | inr e ↦ rw e (appended rows e ∙ ap (λ n. suc n) (sym (none_counted rows e)))
  ]

  module _ (s : Str) (w : Time) (differ : key_eq s w subject start ≡ false) where
    others_kept :
        (rows : List RateRow)
        → count_at s w (update_where (same_key subject start) bump rows) ≡ count_at s w rows
    unfolding count_at update_where
    others_kept [] = refl
    others_kept (r ∷ rows) = elim (Bool-cases (same_key subject start r)) [
      | inl e ↦
          let miss = other_key s subject w start r differ e in
          rw (e, count_at, bump-same s w r, miss) (others_kept rows)
      | inr e ↦ elim (Bool-cases (same_key s w r)) [
        | inl hit ↦ rw (e, count_at, hit)
        | inr miss ↦ rw (e, count_at, miss) (others_kept rows)
      ]
    ]

    others_appended :
        (rows : List RateRow) → count_at s w (rows ++ new_row ∷ []) ≡ count_at s w rows
    unfolding count_at
    others_appended [] = rw (other_key s subject w start new_row differ new_row-same)
    others_appended (r ∷ rows) = elim (Bool-cases (same_key s w r)) [
      | inl hit ↦ rw hit
      | inr miss ↦ rw miss (others_appended rows)
    ]

    -- And leaves every other count.
    increment-other :
        (rows : List RateRow) → count_at s w (increment subject start rows) ≡ count_at s w rows
    unfolding increment bump new_row
    increment-other rows = elim (Bool-cases (any (same_key subject start) rows)) [
      | inl e ↦ rw e (others_kept rows)
      | inr e ↦ rw e (others_appended rows)
    ]

abbrev passes : Result QuotaError (Unit {0}) → Bool
passes (ok _) = true
passes (err _) = false

abbrev pub least : ℕ → ℕ → ℕ
least a b = if ltb a b then a else b

least_step :
    (l c m : ℕ)
    → (if passes (if ltb l (suc c) then err rate_limited else ok tt)
        then suc (least (l - suc c) m)
        else least (l - suc c) m)
      ≡ least (l - c) (suc m)
least_step l c m = elim (Bool-cases (ltb l (suc c))) [
  | inl e ↦ rw e (ground arith)
  | inr e ↦ rw e (ground arith)
]

-- A call is counted under the key that it is equal to.
increment-at :
    (s subject : Str) (w start : Time) (rows : List RateRow)
    → key_eq s w subject start ≡ true
    → (count_at subject start rows ≡ count_at s w rows)
      × (count_at s w (increment subject start rows) ≡ suc (count_at s w rows))
increment-at s subject w start rows e =
    let (same, at) = &&-true (str_eq s subject) (w == start) e in
    let same_subject : s ≡ subject = (str_eq_iff s subject).0 same in
    let same_start : w ≡ start = ==→eq w start at in
    (
      sym (ap₂ (λ x y. count_at x y rows) same_subject same_start),
      rw (same_subject, same_start) (increment-own subject start rows),
    )

-- The calls of a subject in the window of length d that starts at w, among (time, subject) pairs.
abbrev pub made : ℕ → Str → Time → List (Time × Str) → ℕ
made d s w [] = 0
made d s w ((now, subject) ∷ calls) =
    let rest = made d s w calls in if key_eq s w subject (truncate now d) then suc rest else rest

-- Those of them that a quota of l lets pass.
abbrev pub passed : ℕ → ℕ → Str → Time → List (Time × Str) → List RateRow → ℕ
passed l d s w [] rows = 0
passed l d s w ((now, subject) ∷ calls) rows =
    let answer = check_rate_limit now subject (pos l) (pos d) rows in
    let rest = passed l d s w calls answer.1 in
    if key_eq s w subject (truncate now d) && passes answer.0 then suc rest else rest

module _ (l d : ℕ) (limit_positive : 0 < l) (window_positive : 0 < d) where
  checked :
      (now : Time) (subject : Str) (rows : List RateRow)
      → check_rate_limit now subject (pos l) (pos d) rows ≡ (
        if ltb l (suc (count_at subject (truncate now d) rows)) then err rate_limited else ok tt,
        increment subject (truncate now d) rows,
      )
  unfolding check_rate_limit
  checked now subject rows = rw (
    lt→ltb 0 l limit_positive,
    lt→ltb 0 d window_positive,
    increment-own subject (truncate now d) rows,
  )

  -- A subject passes as often in a window as it calls, up to what the limit leaves: whoever else
  -- calls in between and in whatever other windows, of the calls that a subject makes in a window
  -- exactly the first ones pass, as many as the limit exceeds the count that the table holds.
  pub passed_lem :
      (s : Str) (w : Time) (calls : List (Time × Str)) (rows : List RateRow)
      → passed l d s w calls rows ≡ least (l - count_at s w rows) (made d s w calls)
  passed_lem s w [] rows = ground arith
  passed_lem s w ((now, subject) ∷ calls) rows =
      elim (Bool-cases (key_eq s w subject (truncate now d))) [
        | inl e ↦
            let start = truncate now d in
            let (before, after) = increment-at s subject w start rows e in
            rw
              (
                e,
                checked now subject rows,
                passed_lem s w calls (increment subject start rows),
                after,
                before,
              )
              (least_step l (count_at s w rows) (made d s w calls))
        | inr e ↦
            rw (e, checked now subject rows)
              (passed_lem s w calls (increment subject (truncate now d) rows)
                ∙ ap (λ c. least (l - c) (made d s w calls))
                    (increment-other subject (truncate now d) s w e rows))
      ]
