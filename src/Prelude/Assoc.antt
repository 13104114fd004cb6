-- ===== src/Prelude/Assoc.antt =====
-- Go maps with string keys, as lists of pairs of which the first with a key counts.
use mathlib.Core.Path.{◌≡◌, refl, sym, ◌∙◌}
use mathlib.Core.Logic.{◌≢◌, inl, inr}
use mathlib.Core.Bool.{false}
use mathlib.Core.Option.{Option, none, some}
use mathlib.Core.List.{List, [], ◌∷◌}
use chuvar.Prelude.Tests.{if◌then◌else◌, Bool-cases}
use chuvar.Prelude.Text.{Str, str_eq, str_eq_refl, str_eq_iff}

abbrev pub StrMap {ℓ} : Type ℓ → Type ℓ
StrMap A = List (Str × A)

pub str_neq : (s t : Str) → str_eq s t ≡ false → s ≢ t
str_neq s t h e = cc (h, (str_eq_iff s t).1 e)

pub str_eq-false : (s t : Str) → s ≢ t → str_eq s t ≡ false
str_eq-false s t h = elim (Bool-cases (str_eq s t)) [
  | inl e ↦ absurd (h ((str_eq_iff s t).0 e))
  | inr e ↦ e
]

module _ {ℓ} {A : Type ℓ} where
  -- m[k]
  unfoldable pub get : Str → StrMap A → Option A
  get k [] = none
  get k ((k', a) ∷ m) = let rest = get k m in if str_eq k k' then some a else rest

  -- delete(m, k)
  unfoldable pub erase : Str → StrMap A → StrMap A
  erase k [] = []
  erase k ((k', a) ∷ m) = let rest = erase k m in if str_eq k k' then rest else (k', a) ∷ rest

  -- m[k] = a
  unfoldable pub put : Str → A → StrMap A → StrMap A
  unfolding erase
  put k a m = (k, a) ∷ erase k m

  pub get-erase : (k : Str) (m : StrMap A) → get k (erase k m) ≡ none
  unfolding get erase
  get-erase k [] = refl
  get-erase k ((k', a) ∷ m) = elim (Bool-cases (str_eq k k')) [
    | inl e ↦ rw e (get-erase k m)
    | inr e ↦ rw (e, get, e) (get-erase k m)
  ]

  pub get-erase_other : (j k : Str) (m : StrMap A) → j ≢ k → get j (erase k m) ≡ get j m
  unfolding get erase
  get-erase_other j k [] h = refl
  get-erase_other j k ((k', a) ∷ m) h = elim (Bool-cases (str_eq k k')) [
    | inl e ↦
        rw (e, str_eq-false j k' (λ same. h (same ∙ sym ((str_eq_iff k k').0 e))))
          (get-erase_other j k m h)
    | inr e ↦ elim (Bool-cases (str_eq j k')) [
      | inl hit ↦ rw (e, get, hit)
      | inr miss ↦ rw (e, get, miss) (get-erase_other j k m h)
    ]
  ]

  pub get-put : (k : Str) (a : A) (m : StrMap A) → get k (put k a m) ≡ some a
  unfolding get put
  get-put k a m = rw (str_eq_refl k)

  pub get-put_other : (j k : Str) (a : A) (m : StrMap A) → j ≢ k → get j (put k a m) ≡ get j m
  unfolding get put
  get-put_other j k a m h = rw (str_eq-false j k h) (get-erase_other j k m h)
