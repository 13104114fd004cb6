-- ===== src/Prelude/Lists.antt =====
-- Lists over the native numbers, and the predicates on lists that proofs read by recursion.
use Prim.Native.Nat.{ℕ, zero, suc, ◌+◌, ◌≤◌}
use mathlib.Core.Path.{◌≡◌, refl, ap, ◌∙◌}
use mathlib.Core.Logic.{◌⊎◌, inl, inr, ◌≢◌}
use mathlib.Core.Bool.{Bool, true, false, ◌&&◌, ◌||◌, not}
use mathlib.Core.Option.{Option, none, some}
use mathlib.Core.List.{List, [], ◌∷◌, ◌++◌}
use native.Mathlib.Omega.{arith}
use chuvar.Prelude.Tests.{Bool-cases, &&-true}

module _ {ℓ} {A : Type ℓ} where
  abbrev pub length : List A → ℕ
  length [] = 0
  length (x ∷ xs) = suc (length xs)

  abbrev pub is_empty : List A → Bool
  is_empty [] = true
  is_empty (x ∷ xs) = false

  abbrev pub get_elem? : List A → ℕ → Option A
  get_elem? [] i = none
  get_elem? (x ∷ xs) zero = some x
  get_elem? (x ∷ xs) (suc i) = get_elem? xs i

  abbrev pub take : ℕ → List A → List A
  take zero xs = []
  take (suc n) [] = []
  take (suc n) (x ∷ xs) = x ∷ take n xs

  abbrev pub any : (A → Bool) → List A → Bool
  any p [] = false
  any p (x ∷ xs) = p x || any p xs

  abbrev pub all : (A → Bool) → List A → Bool
  all p [] = true
  all p (x ∷ xs) = p x && all p xs

  -- the entries that pass a test, in their order
  abbrev pub keep_if : (A → Bool) → List A → List A
  keep_if p [] = []
  keep_if p (x ∷ xs) = let rest = keep_if p xs in elim (p x) [ true ↦ x ∷ rest | false ↦ rest ]

  pub length-append : (xs ys : List A) → length (xs ++ ys) ≡ length xs + length ys
  length-append [] ys = omega arith
  length-append (x ∷ xs) ys = omega (arith, length-append xs ys)

  pub length-take : (n : ℕ) (xs : List A) → length (take n xs) ≤ n
  length-take zero xs = omega arith
  length-take (suc n) [] = omega arith
  length-take (suc n) (x ∷ xs) = omega (arith, length-take n xs)

-- Every entry has the property.
abbrev pub All {ℓ κ} : {A : Type ℓ} → (A → Type κ) → List A → Type κ
All P [] = Unit
All P (x ∷ xs) = P x × All P xs

-- Some entry has the property.
abbrev pub Any {ℓ} : {A : Type ℓ} → (A → Type 0) → List A → Type 0
Any P [] = ⊥
Any P (x ∷ xs) = P x ⊎ Any P xs

-- Membership, by recursion: `Elem a xs` computes to a sum of equations.
abbrev pub Elem : {A : Type 0} → A → List A → Type 0
Elem a [] = ⊥
Elem a (x ∷ xs) = (a ≡ x) ⊎ Elem a xs

-- No entry stands twice.
abbrev pub Distinct : {A : Type 0} → List A → Type 0
Distinct [] = Unit
Distinct (x ∷ xs) = (¬ Elem x xs) × Distinct xs

-- The first list is the beginning of the second.
abbrev pub IsPrefixOf {ℓ} : {A : Type ℓ} → List A → List A → Type ℓ
IsPrefixOf {A = A} xs ys = (rest : List A) × (ys ≡ xs ++ rest)

-- The test and the predicate agree, one way and the other.
pub any-Any {ℓ} :
    {A : Type ℓ} (p : A → Bool) (xs : List A) → any p xs ≡ true → Any (λ x. p x ≡ true) xs
any-Any p [] h = absurd (cc)
any-Any p (x ∷ xs) h = elim (Bool-cases (p x)) [
  | inl e ↦ inl e
  | inr e ↦ inr (any-Any p xs (rw e at h))
]

pub Any-any {ℓ} :
    {A : Type ℓ} (p : A → Bool) (xs : List A) → Any (λ x. p x ≡ true) xs → any p xs ≡ true
Any-any p [] h = absurd h
Any-any p (x ∷ xs) (inl e) = ground arith
Any-any p (x ∷ xs) (inr h) = ground (arith, Any-any p xs h)

pub all-All {ℓ} :
    {A : Type ℓ} (p : A → Bool) (xs : List A) → all p xs ≡ true → All (λ x. p x ≡ true) xs
all-All p [] h = tt
all-All p (x ∷ xs) h = let parts = &&-true (p x) (all p xs) h in (parts.0, all-All p xs parts.1)

pub All-all {ℓ} :
    {A : Type ℓ} (p : A → Bool) (xs : List A) → All (λ x. p x ≡ true) xs → all p xs ≡ true
All-all p [] h = refl
All-all p (x ∷ xs) h = ground (arith, All-all p xs h.1)

pub not_empty {ℓ} : {A : Type ℓ} (xs : List A) → not (is_empty xs) ≡ true → xs ≢ []
not_empty xs h e = cc h

module _ {A : Type 0} where
  pub keep_if-Elem :
      (p : A → Bool) (s : A) (xs : List A) → Elem s (keep_if p xs) → Elem s xs × (p s ≡ true)
  keep_if-Elem p s [] m = absurd m
  keep_if-Elem p s (x ∷ xs) m = elim (Bool-cases (p x)) [
    | inl e ↦ elim (rw (e, keep_if) at m) [
      | inl same ↦ (inl same, ap p same ∙ e)
      | inr rest ↦ let (there, h) = keep_if-Elem p s xs rest in (inr there, h)
    ]
    | inr e ↦ let (there, h) = keep_if-Elem p s xs (rw (e, keep_if) at m) in (inr there, h)
  ]

  pub Elem-keep_if :
      (p : A → Bool) (s : A) (xs : List A) → Elem s xs → p s ≡ true → Elem s (keep_if p xs)
  Elem-keep_if p s [] m h = absurd m
  Elem-keep_if p s (x ∷ xs) (inl e) h = rw (← e) (rw (h, keep_if) (inl refl))
  Elem-keep_if p s (x ∷ xs) (inr m) h = elim (Bool-cases (p x)) [
    | inl e ↦ rw (e, keep_if) (inr (Elem-keep_if p s xs m h))
    | inr e ↦ rw (e, keep_if) (Elem-keep_if p s xs m h)
  ]

  pub Distinct-keep_if : (p : A → Bool) (xs : List A) → Distinct xs → Distinct (keep_if p xs)
  Distinct-keep_if p [] d = tt
  Distinct-keep_if p (x ∷ xs) d = elim (Bool-cases (p x)) [
    | inl e ↦ rw (e, keep_if) ((λ m. d.0 (keep_if-Elem p x xs m).0), Distinct-keep_if p xs d.1)
    | inr e ↦ rw (e, keep_if) (Distinct-keep_if p xs d.1)
  ]

  -- A list of length zero has no member, and one with no member is empty.
  pub none_in : (xs : List A) (s : A) → length xs ≡ 0 → ¬ Elem s xs
  none_in [] s h m = m
  none_in (x ∷ xs) s h m = absurd (omega arith)

  pub no_members : (xs : List A) → ((s : A) → ¬ Elem s xs) → xs ≡ []
  no_members [] h = refl
  no_members (x ∷ xs) h = absurd (h x (inl refl))

-- A test that only an equal entry passes is a test for membership.
pub any-Elem :
    {A : Type 0} (p : A → Bool) (a : A) (xs : List A)
    → ((x : A) → p x ≡ true → a ≡ x)
    → any p xs ≡ true
    → Elem a xs
any-Elem p a [] eq h = absurd (cc h)
any-Elem p a (x ∷ xs) eq h = elim (Bool-cases (p x)) [
  | inl e ↦ inl (eq x e)
  | inr e ↦ inr (any-Elem p a xs eq (rw e at h))
]

pub All-take {ℓ κ} :
    {A : Type ℓ} (P : A → Type κ) (n : ℕ) (xs : List A) → All P xs → All P (take n xs)
All-take P zero xs h = tt
All-take P (suc n) [] h = tt
All-take P (suc n) (x ∷ xs) h = (h.0, All-take P n xs h.1)

pub All-of_Elem :
    {A : Type 0} (P : A → Type 0) (xs : List A) → ((x : A) → Elem x xs → P x) → All P xs
All-of_Elem P [] h = tt
All-of_Elem P (x ∷ xs) h = (h x (inl refl), All-of_Elem P xs (λ y m. h y (inr m)))
