-- ===== src/Scope/Sets.antt =====
-- Lists of scopes: which requested scopes are covered by none of the granted ones.
use chuvar.Prelude.{
  Bool, true, false, not, ◌≡◌, refl, ap, ◌↔◌, inl, inr, List, [], ◌∷◌, arith, Bool-cases, str_eq,
  str_eq_iff, str_eq_refl, any, Any, Elem, Distinct, keep_if, keep_if-Elem, Elem-keep_if,
  Distinct-keep_if, not-true, none_in, no_members, ==→eq,
}
use chuvar.Scope.{Scope, covers, any_covers, missing_from, missing, satisfied, dedupe_from, dedupe}

-- the test `seen[r]` of the loops
seen-Elem : (r : Scope) (seen : List Scope) → any (str_eq r) seen ≡ true → Elem r seen
seen-Elem r [] h = absurd (cc)
seen-Elem r (s ∷ seen) h = elim (Bool-cases (str_eq r s)) [
  | inl e ↦ inl ((str_eq_iff r s).0 e)
  | inr e ↦ inr (seen-Elem r seen (rw e at h))
]

Elem-seen : (r : Scope) (seen : List Scope) → Elem r seen → any (str_eq r) seen ≡ true
Elem-seen r (s ∷ seen) (inl e) = ground (arith, str_eq_iff r s)
Elem-seen r (s ∷ seen) (inr m) = ground (arith, Elem-seen r seen m)
Elem-seen r [] m = absurd m

any_covers-Any :
    (gs : List Scope) (r : Scope) → any_covers gs r ≡ true → Any (λ g. covers g r ≡ true) gs
unfolding any_covers
any_covers-Any [] r h = absurd (cc)
any_covers-Any (g ∷ gs) r h = elim (Bool-cases (covers g r)) [
  | inl e ↦ inl e
  | inr e ↦ inr (any_covers-Any gs r (rw e at h))
]

Any-any_covers :
    (gs : List Scope) (r : Scope) → Any (λ g. covers g r ≡ true) gs → any_covers gs r ≡ true
unfolding any_covers
Any-any_covers [] r h = absurd h
Any-any_covers (g ∷ gs) r (inl e) = rw e
Any-any_covers (g ∷ gs) r (inr m) = ground (arith, Any-any_covers gs r m)

-- `any_covers` holds exactly when some granted scope covers the requested one.
pub any_covers_iff :
    (granted : List Scope) (r : Scope)
    → (any_covers granted r ≡ true) ↔ Any (λ g. covers g r ≡ true) granted
any_covers_iff granted r = (any_covers-Any granted r, Any-any_covers granted r)

abbrev uncovered : List Scope → Scope → Bool
uncovered granted r = not (any_covers granted r)

missing_from-keep_if :
    (seen requested granted : List Scope)
    → missing_from seen requested granted ≡ keep_if (uncovered granted) (dedupe_from seen requested)
unfolding missing_from dedupe_from
missing_from-keep_if seen [] granted = refl
missing_from-keep_if seen (r ∷ requested) granted = ground (
  arith,
  missing_from-keep_if seen requested granted,
  missing_from-keep_if (r ∷ seen) requested granted,
)

-- `missing` is the requested scopes without repetition, in their order, of which it keeps those
-- that no granted scope covers.
pub missing-keep_if :
    (requested granted : List Scope)
    → missing requested granted ≡ keep_if (uncovered granted) (dedupe requested)
unfolding missing dedupe
missing-keep_if requested granted = missing_from-keep_if [] requested granted

Elem-dedupe_from :
    (s : Scope) (seen xs : List Scope)
    → Elem s (dedupe_from seen xs)
    → Elem s xs × (any (str_eq s) seen ≡ false)
unfolding dedupe_from
Elem-dedupe_from s seen [] m = absurd m
Elem-dedupe_from s seen (x ∷ xs) m = elim (Bool-cases (any (str_eq x) seen)) [
  | inl old ↦
      let (there, fresh) = Elem-dedupe_from s seen xs (rw (old, dedupe_from) at m) in
      (inr there, fresh)
  | inr new ↦ elim (rw (new, dedupe_from) at m) [
    | inl e ↦ (inl e, rw e new)
    | inr rest ↦
        let (there, fresh) = Elem-dedupe_from s (x ∷ seen) xs rest in (inr there, ground arith)
  ]
]

-- a scope that is not the first is one of the others
tail : (s x : Scope) (xs : List Scope) → Elem s (x ∷ xs) → str_eq s x ≡ false → Elem s xs
tail s x xs (inl e) h = absurd (cc (str_eq_refl x, h, ap (λ y. str_eq y x) e))
tail s x xs (inr m) h = m

later :
    (s x : Scope) (xs seen : List Scope)
    → Elem s (x ∷ xs)
    → any (str_eq s) seen ≡ false
    → any (str_eq x) seen ≡ true
    → Elem s xs
later s x xs seen (inl e) h old = absurd (cc (ap (λ y. any (str_eq y) seen) e))
later s x xs seen (inr m) h old = m

dedupe_from-Elem :
    (s : Scope) (seen xs : List Scope)
    → Elem s xs
    → any (str_eq s) seen ≡ false
    → Elem s (dedupe_from seen xs)
unfolding dedupe_from
dedupe_from-Elem s seen [] m h = absurd m
dedupe_from-Elem s seen (x ∷ xs) m h = elim (Bool-cases (any (str_eq x) seen)) [
  | inl old ↦ rw (old, dedupe_from) (dedupe_from-Elem s seen xs (later s x xs seen m h old) h)
  | inr new ↦
      rw (new, dedupe_from)
        (elim (Bool-cases (str_eq s x)) [
          | inl same ↦ inl ((str_eq_iff s x).0 same)
          | inr other ↦ inr (dedupe_from-Elem s (x ∷ seen) xs (tail s x xs m other) (rw (other, h)))
        ])
]

dedupe_from-Distinct : (seen xs : List Scope) → Distinct (dedupe_from seen xs)
unfolding dedupe_from
dedupe_from-Distinct seen [] = tt
dedupe_from-Distinct seen (x ∷ xs) = elim (Bool-cases (any (str_eq x) seen)) [
  | inl old ↦ rw (old, dedupe_from) (dedupe_from-Distinct seen xs)
  | inr new ↦
      rw (new, dedupe_from)
        (
          (λ m. ground (arith, (Elem-dedupe_from x (x ∷ seen) xs m).1, str_eq_refl x)),
          dedupe_from-Distinct (x ∷ seen) xs,
        )
]

-- `dedupe` keeps each scope once: the result has no repetition and exactly the scopes given.
pub dedupe_lem :
    (xs : List Scope) → Distinct (dedupe xs) × ((s : Scope) → Elem s (dedupe xs) ↔ Elem s xs)
unfolding dedupe
dedupe_lem xs = (
  dedupe_from-Distinct [] xs,
  λ s. (λ m. (Elem-dedupe_from s [] xs m).0, λ m. dedupe_from-Elem s [] xs m refl),
)

-- `missing` names exactly the requested scopes that no granted scope covers, each once.
pub missing_iff :
    (requested granted : List Scope)
    → Distinct (missing requested granted)
      × ((r : Scope)
          → Elem r (missing requested granted)
            ↔ (Elem r requested × (any_covers granted r ≡ false)))
missing_iff requested granted = rw missing-keep_if (
  Distinct-keep_if (uncovered granted) _ (dedupe_lem requested).0,
  λ r. (
    (λ m.
        let (there, open_) = keep_if-Elem (uncovered granted) r _ m in
        (((dedupe_lem requested).1 r).0 there, not-true _ open_)),
    (λ h. Elem-keep_if (uncovered granted) r _ (((dedupe_lem requested).1 r).1 h.0) (rw h.1)),
  ),
)

-- `satisfied` holds exactly when every requested scope is covered by some granted scope.
pub satisfied_iff :
    (requested granted : List Scope)
    → (satisfied requested granted ≡ true)
      ↔ ((r : Scope) → Elem r requested → any_covers granted r ≡ true)
unfolding satisfied
satisfied_iff requested granted = (there, back)
  where
    there :
        satisfied requested granted ≡ true
        → (r : Scope) → Elem r requested
        → any_covers granted r ≡ true
    there h r m = elim (Bool-cases (any_covers granted r)) [
      | inl yes_ ↦ yes_
      | inr no_ ↦ absurd (
          none_in (missing requested granted) r (==→eq _ _ h)
            (((missing_iff requested granted).1 r).1 (m, no_)))
    ]

    back :
        ((r : Scope) → Elem r requested → any_covers granted r ≡ true)
        → satisfied requested granted ≡ true
    back h = rw (
        no_members (missing requested granted) λ r m.
          let (there_, open_) = ((missing_iff requested granted).1 r).0 m in
          absurd (cc (h r there_, open_)))
