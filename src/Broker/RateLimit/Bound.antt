-- ===== src/Broker/RateLimit/Bound.antt =====
-- How many calls the limiter allows in one window.
use chuvar.Prelude.{
  ℕ, ◌+◌, ◌≤◌, ◌<◌, Str, Bool, true, false, ◌&&◌, ◌≡◌, ◌≢◌, refl, ap, sym, ◌∙◌, ◌⊎◌, inl, inr, List,
  [], ◌∷◌, ◌++◌, ℤ, pos, arith, length, keep_if, leb, ltb, if◌then◌else◌, StrMap, get, put, get-put,
  get-put_other, str_eq, str_eq_iff, str_neq, Bool-cases, &&-true, leb→le, lt→ltb,
}
use chuvar.Store.Types.{Time}
use chuvar.Broker.RateLimit.{RateLimiter, new_rate_limiter, in_window, events_of, allow}

-- A call of `allow`: its key and its time.
pub record Call : Type 0 where
  pub key : Str
  pub at : Time

-- The limiter after the calls, the last one at the head, and the calls that it allowed.
unfoldable pub run : ℤ → ℤ → List Call → RateLimiter × List Call
run limit window [] = (new_rate_limiter limit window, [])
run limit window (c ∷ calls) =
    let (r, allowed) = run limit window calls in
    let (granted, r') = allow c.key c.at r in (r', if granted then c ∷ allowed else allowed)

-- The time of the last call, 0 if there was none.
abbrev last : List Call → Time
last [] = 0
last (c ∷ calls) = c.at

-- No call is earlier than the one before it.
abbrev pub InOrder : List Call → Type 0
InOrder [] = Unit
InOrder (c ∷ calls) = (last calls ≤ c.at) × InOrder calls

-- A call for the key, in the window that ends at `now`.
abbrev pub counts : Str → ℕ → Time → Call → Bool
counts key window now c = str_eq key c.key && in_window window now c.at

-- how many entries pass a test
abbrev pub count {ℓ} : {A : Type ℓ} → (A → Bool) → List A → ℕ
count p [] = 0
count p (x ∷ xs) = (if p x then 1 else 0) + count p xs

count-append :
    {A : Type 0} (p : A → Bool) (xs ys : List A) → count p (xs ++ ys) ≡ count p xs + count p ys
count-append p [] ys = omega arith
count-append p (x ∷ xs) ys = omega (arith, count-append p xs ys)

length-keep_if : {A : Type 0} (p : A → Bool) (xs : List A) → length (keep_if p xs) ≡ count p xs
length-keep_if p [] = refl
length-keep_if p (x ∷ xs) = ground (arith, length-keep_if p xs)

count-keep_if :
    {A : Type 0} (p q : A → Bool) (xs : List A)
    → ((x : A) → q x ≡ true → p x ≡ true)
    → count q (keep_if p xs) ≡ count q xs
count-keep_if p q [] h = refl
count-keep_if p q (x ∷ xs) h = ground (arith, count-keep_if p q xs h, h x)

count-le :
    {A : Type 0} (p q : A → Bool) (xs : List A)
    → ((x : A) → q x ≡ true → p x ≡ true)
    → count q xs ≤ count p xs
count-le p q [] h = omega arith
count-le p q (x ∷ xs) h = ground (arith, count-le p q xs h, h x)

in_later : (w a b t : ℕ) → a ≤ b → in_window w b t ≡ true → in_window w a t ≡ true
unfolding in_window
in_later w a b t le h = ground arith

events_of-put :
    (key : Str) (ts : List Time) (m : StrMap (List Time)) → events_of key (put key ts m) ≡ ts
unfolding events_of
events_of-put key ts m = rw (events_of, get-put key ts m)

events_of-put_other :
    (j key : Str) (ts : List Time) (m : StrMap (List Time))
    → j ≢ key
    → events_of j (put key ts m) ≡ events_of j m
unfolding events_of
events_of-put_other j key ts m h = rw (events_of, get-put_other j key ts m h)

-- What a call does when the limiter is on.
abbrev kept : ℕ → Str → Time → RateLimiter → List Time
kept w key now r = keep_if (in_window w now) (events_of key r.events)

allow-cases :
    (l w : ℕ) (key : Str) (now : Time) (r : RateLimiter)
    → 0 < l
    → 0 < w
    → r.limit ≡ pos l
    → r.window ≡ pos w
    → ((allow key now r ≡ (false, record r { events = put key (kept w key now r) r.events }))
        × (l ≤ length (kept w key now r)))
      ⊎ ((allow key now r
            ≡ (true, record r { events = put key (kept w key now r ++ now ∷ []) r.events }))
          × (length (kept w key now r) < l))
unfolding allow
allow-cases l w key now r 0<l 0<w hl hw =
    let on : ltb 0 l ≡ true = lt→ltb 0 l 0<l in
    let on' : ltb 0 w ≡ true = lt→ltb 0 w 0<w in
    elim (Bool-cases (leb l (length (kept w key now r)))) [
      | inl e ↦ inl (rw (allow, hl, hw, on, on', e), ground arith)
      | inr e ↦ inr (rw (allow, hl, hw, on, on', e), ground arith)
    ]

-- The limiter after a call, with the log of what it allowed so far.
record Tracks (l w : ℕ) (now : Time) (r : RateLimiter) (allowed : List Call) : Type 0 where
  limit : r.limit ≡ pos l
  window : r.window ≡ pos w
  stored :
      (key : Str) (b : Time)
      → now ≤ b
      → count (in_window w b) (events_of key r.events) ≡ count (counts key w b) allowed
  bounded : (key : Str) (b : Time) → count (λ c. counts key w b c && leb c.at b) allowed ≤ l

-- What a call leaves of the stored times of its own key, as later windows count them.
kept-count :
    (w : ℕ) (key : Str) (now b : Time) (r : RateLimiter)
    → now ≤ b
    → count (in_window w b) (kept w key now r) ≡ count (in_window w b) (events_of key r.events)
kept-count w key now b r h =
    count-keep_if (in_window w now) (in_window w b) (events_of key r.events)
      (λ t e. in_later w now b t h e)

-- A denied call forgets times, and none that a later window counts.
denied-stored :
    (l w : ℕ) (prev : Time) (c : Call) (r : RateLimiter) (allowed : List Call)
    → prev ≤ c.at
    → Tracks l w prev r allowed
    → (key : Str) (b : Time) → c.at ≤ b
    → count (in_window w b) (events_of key (put c.key (kept w c.key c.at r) r.events))
      ≡ count (counts key w b) allowed
denied-stored l w prev c r allowed le t key b later = elim (Bool-cases (str_eq key c.key)) [
  | inl same ↦
      let eq = (str_eq_iff key c.key).0 same in
      rw (eq, events_of-put c.key (kept w c.key c.at r) r.events)
        (kept-count w c.key c.at b r later ∙ t.stored c.key b (omega arith))
  | inr other ↦
      rw (events_of-put_other key c.key (kept w c.key c.at r) r.events (str_neq key c.key other))
        (t.stored key b (omega arith))
]

allowed-stored :
    (l w : ℕ) (prev : Time) (c : Call) (r : RateLimiter) (allowed : List Call)
    → prev ≤ c.at
    → Tracks l w prev r allowed
    → (key : Str) (b : Time) → c.at ≤ b
    → count (in_window w b) (events_of key (put c.key (kept w c.key c.at r ++ c.at ∷ []) r.events))
      ≡ count (counts key w b) (c ∷ allowed)
allowed-stored l w prev c r allowed le t key b later = elim (Bool-cases (str_eq key c.key)) [
  | inl same ↦
      let eq = (str_eq_iff key c.key).0 same in
      rw
        (
          same,
          eq,
          events_of-put c.key (kept w c.key c.at r ++ c.at ∷ []) r.events,
          count-append (in_window w b) (kept w c.key c.at r) (c.at ∷ []),
        )
        (let stored : count (in_window w b) (kept w c.key c.at r) ≡ count (counts key w b) allowed =
            kept-count w c.key c.at b r later
            ∙ t.stored c.key b (omega arith)
            ∙ ap (λ k. count (counts k w b) allowed) (sym eq) in
          ap (λ n. n + ((if in_window w b c.at then 1 else 0) + 0)) stored ∙ (omega arith))
  | inr other ↦
      rw
        (
          other,
          events_of-put_other key c.key (kept w c.key c.at r ++ c.at ∷ []) r.events
              (str_neq key c.key other),
        )
        (omega (arith, t.stored key b (omega arith)))
]

counts-later :
    (key : Str) (w b a : ℕ) (x : Call) → a ≤ b → counts key w b x ≡ true → counts key w a x ≡ true
counts-later key w b a x le h =
    let (same, late) = &&-true (str_eq key x.key) (in_window w b x.at) h in
    rw (same, in_later w a b x.at le late)

-- The bound after an allowed call: its window holds fewer than the limit before it.
allowed-bounded :
    (l w : ℕ) (prev : Time) (c : Call) (r : RateLimiter) (allowed : List Call)
    → prev ≤ c.at
    → Tracks l w prev r allowed
    → length (kept w c.key c.at r) < l
    → (key : Str) (b : Time) → count (λ x. counts key w b x && leb x.at b) (c ∷ allowed) ≤ l
allowed-bounded l w prev c r allowed le t few key b =
    elim (Bool-cases (counts key w b c && leb c.at b)) [
      | inr e ↦ rw e (omega (arith, t.bounded key b))
      | inl e ↦
          let (counted, reached) = &&-true (counts key w b c) (leb c.at b) e in
          let eq =
            (str_eq_iff key c.key).0 (&&-true (str_eq key c.key) (in_window w b c.at) counted).0 in
          let narrower : count (λ x. counts key w b x && leb x.at b) allowed
              ≤ count (counts key w c.at) allowed =
            count-le (counts key w c.at) (λ x. counts key w b x && leb x.at b) allowed
              (λ x h.
                counts-later key w b c.at x (leb→le c.at b reached) (&&-true _ (leb x.at b) h).0) in
          let before : count (counts key w c.at) allowed ≡ length (kept w c.key c.at r) =
            sym (t.stored key c.at le)
            ∙ ap (λ k. count (in_window w c.at) (events_of k r.events)) eq
            ∙ sym (length-keep_if (in_window w c.at) (events_of c.key r.events)) in
          rw e (omega (arith, narrower, before, few))
    ]

run-Tracks :
    (l w : ℕ) (calls : List Call)
    → 0 < l
    → 0 < w
    → InOrder calls
    → Tracks l w (last calls) (run (pos l) (pos w) calls).0 (run (pos l) (pos w) calls).1
unfolding run new_rate_limiter events_of get
run-Tracks l w [] 0<l 0<w order = record {
  limit = refl;
  window = refl;
  stored = λ key b h. refl;
  bounded = λ key b. omega arith;
}
run-Tracks l w (c ∷ calls) 0<l 0<w order =
    let t = run-Tracks l w calls 0<l 0<w order.1 in
    let r = (run (pos l) (pos w) calls).0 in
    let allowed = (run (pos l) (pos w) calls).1 in
    elim (allow-cases l w c.key c.at r 0<l 0<w t.limit t.window) [
      | inl (eq, full) ↦
          rw (run, eq)
            (record {
              limit = t.limit;
              window = t.window;
              stored = denied-stored l w (last calls) c r allowed order.0 t;
              bounded = t.bounded;
            })
      | inr (eq, few) ↦
          rw (run, eq)
            (record {
              limit = t.limit;
              window = t.window;
              stored = allowed-stored l w (last calls) c r allowed order.0 t;
              bounded = allowed-bounded l w (last calls) c r allowed order.0 t few;
            })
    ]

-- With a positive limit and window, whatever calls are made in the order of time, for every key
-- and every window at most `limit` of the calls for the key that fall in it are allowed.
pub allow-bound :
    (limit window : ℕ) (calls : List Call)
    → 0 < limit
    → 0 < window
    → InOrder calls
    → (key : Str) (now : Time)
    → count (λ c. counts key window now c && leb c.at now) (run (pos limit) (pos window) calls).1
      ≤ limit
allow-bound limit window calls 0<l 0<w order = (run-Tracks limit window calls 0<l 0<w order).bounded
