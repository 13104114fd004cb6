-- ===== src/Prelude/Text.antt =====
-- Go strings as lists of bytes, and what the source uses of the package strings.
use Prim.Native.Nat.{ℕ}
use Prim.Native.Char.{code}
use Prim.Native.String.{String}
use mathlib.Core.Path.{◌≡◌, refl, ap, sym, ◌∙◌}
use mathlib.Core.Logic.{◌↔◌, inl, inr}
use mathlib.Core.Bool.{Bool, true, false, ◌&&◌}
use mathlib.Core.Option.{Option, none, some}
use mathlib.Core.List.{List, [], ◌∷◌, ◌++◌, append_assoc}
use native.Mathlib.Omega.{arith}
use chuvar.Prelude.Tests.{◌==◌, if◌then◌else◌, ==→eq, Bool-cases, Option-cases}
use chuvar.Prelude.Lists.{All}

abbrev pub Str : Type 0
Str = List ℕ

-- The bytes of an ASCII literal.
abbrev pub codes : String → Str
codes String.[] = []
codes (String.◌∷◌ c s) = code c ∷ codes s

-- s == t
unfoldable pub str_eq : Str → Str → Bool
str_eq [] [] = true
str_eq [] (y ∷ ys) = false
str_eq (x ∷ xs) [] = false
str_eq (x ∷ xs) (y ∷ ys) = (x == y) && str_eq xs ys

pub str_eq_refl : (s : Str) → str_eq s s ≡ true
unfolding str_eq
str_eq_refl [] = refl
str_eq_refl (x ∷ xs) = ground (arith, str_eq_refl xs)

pub str_eq→eq : (s t : Str) → str_eq s t ≡ true → s ≡ t
unfolding str_eq
str_eq→eq [] [] h = refl
str_eq→eq [] (y ∷ ys) h = cc
str_eq→eq (x ∷ xs) [] h = cc
str_eq→eq (x ∷ xs) (y ∷ ys) h = ground (arith, str_eq→eq xs ys)

pub str_eq_iff : (s t : Str) → (str_eq s t ≡ true) ↔ (s ≡ t)
str_eq_iff s t = (str_eq→eq s t, λ e. ap (str_eq s) (sym e) ∙ str_eq_refl s)

-- strings.HasPrefix(s, prefix)
unfoldable pub has_prefix : Str → Str → Bool
has_prefix s [] = true
has_prefix [] (p ∷ ps) = false
has_prefix (x ∷ s) (p ∷ ps) = (x == p) && has_prefix s ps

pub has_prefix-append : (p s : Str) → has_prefix (p ++ s) p ≡ true
unfolding has_prefix
has_prefix-append [] s = refl
has_prefix-append (x ∷ p) s = ground (arith, has_prefix-append p s)

pub has_prefix-rest : (s p : Str) → has_prefix s p ≡ true → (r : Str) × (s ≡ p ++ r)
unfolding has_prefix
has_prefix-rest s [] h = (s, refl)
has_prefix-rest [] (p ∷ ps) h = absurd (cc)
has_prefix-rest (x ∷ s) (p ∷ ps) h =
    let (r, e) = has_prefix-rest s ps (ground arith) in (r, ground arith)

-- strings.Cut(s, sep) at one byte: what stands before its first occurrence, and after it.
unfoldable pub cut : ℕ → Str → Option (Str × Str)
cut c [] = none
cut c (x ∷ s) =
    let rest = cut c s in
    if x == c
    then some ([], s)
    else elim rest [ none ↦ none | some (before, after) ↦ some (x ∷ before, after) ]

unfoldable pub push : ℕ → List Str → List Str
push x [] = (x ∷ []) ∷ []
push x (s ∷ ss) = (x ∷ s) ∷ ss

-- strings.Split(s, sep) at one byte.
unfoldable pub split_on : ℕ → Str → List Str
unfolding push
split_on c [] = [] ∷ []
split_on c (x ∷ s) = let rest = split_on c s in if x == c then [] ∷ rest else push x rest

-- strings.Join(ss, sep) at one byte.
unfoldable pub join : ℕ → List Str → Str
join c [] = []
join c (s ∷ []) = s
join c (s ∷ t ∷ ss) = s ++ c ∷ join c (t ∷ ss)

-- Joining puts back together what splitting took apart.
pub join-split_on : (c : ℕ) (s : Str) → join c (split_on c s) ≡ s
unfolding join split_on
join-split_on c [] = refl
join-split_on c (x ∷ s) = grind (arith, join-split_on c s)

push-append : (x : ℕ) (h : Str) (ss ts : List Str) → push x ((h ∷ ss) ++ ts) ≡ push x (h ∷ ss) ++ ts
unfolding push
push-append x h ss ts = refl

pub split_on-cons : (c : ℕ) (s : Str) → (h : Str) × (ss : List Str) × (split_on c s ≡ h ∷ ss)
unfolding split_on
split_on-cons c [] = ([], [], refl)
split_on-cons c (x ∷ s) =
    let (h, ss, e) = split_on-cons c s in
    elim (Bool-cases (x == c)) [
      | inl hit ↦ ([], split_on c s, rw hit)
      | inr miss ↦ (x ∷ h, ss, rw (miss, e))
    ]

-- A separator between two texts splits there.
pub split_on-append : (c : ℕ) (s t : Str) → split_on c (s ++ c ∷ t) ≡ split_on c s ++ split_on c t
unfolding split_on
split_on-append c [] t = ground arith
split_on-append c (x ∷ s) t =
    let (h, ss, e) = split_on-cons c s in
    elim (Bool-cases (x == c)) [
      | inl hit ↦ rw (hit, split_on-append c s t)
      | inr miss ↦ rw (miss, split_on-append c s t, e)
    ]

pub join-append :
    (c : ℕ) (h : Str) (ss : List Str) (t : Str) (ts : List Str)
    → join c ((h ∷ ss) ++ t ∷ ts) ≡ join c (h ∷ ss) ++ c ∷ join c (t ∷ ts)
unfolding join
join-append c h [] t ts = refl
join-append c h (s ∷ ss) t ts = rw (join-append c s ss t ts, append_assoc)

-- The text has no such byte.
abbrev pub Lacks : ℕ → Str → Type 0
Lacks c = All (λ x. (x == c) ≡ false)

pub cut-some : (c : ℕ) (s a b : Str) → cut c s ≡ some (a, b) → (s ≡ a ++ c ∷ b) × Lacks c a
unfolding cut
cut-some c [] a b h = absurd (cc)
cut-some c (x ∷ s) a b h = elim (Bool-cases (x == c)) [
  | inl hit ↦ ground (arith, ==→eq x c hit)
  | inr miss ↦ elim (Option-cases (cut c s)) [
    | inl e ↦ absurd (ground arith)
    | inr ((a', b'), e) ↦ ground (arith, cut-some c s a' b' e)
  ]
]

pub cut-none : (c : ℕ) (s : Str) → cut c s ≡ none → Lacks c s
unfolding cut
cut-none c [] h = tt
cut-none c (x ∷ s) h = ground (arith, cut-none c s)

pub cut-append : (c : ℕ) (a b : Str) → Lacks c a → cut c (a ++ c ∷ b) ≡ some (a, b)
unfolding cut
cut-append c [] b h = ground arith
cut-append c (x ∷ a) b h = ground (arith, cut-append c a b h.1)

pub cut_lacking : (c : ℕ) (s : Str) → Lacks c s → cut c s ≡ none
unfolding cut
cut_lacking c [] h = refl
cut_lacking c (x ∷ s) h = ground (arith, cut_lacking c s h.1)

-- A text is determined by its parts.
pub split_on_injective : (c : ℕ) (s t : Str) → split_on c s ≡ split_on c t → s ≡ t
split_on_injective c s t e = sym (join-split_on c s) ∙ ap (join c) e ∙ join-split_on c t

-- No part holds the separator.
pub split_on-Lacks : (c : ℕ) (s : Str) → All (Lacks c) (split_on c s)
unfolding split_on
split_on-Lacks c [] = (tt, tt)
split_on-Lacks c (x ∷ s) =
    let (h, ss, e) = split_on-cons c s in
    let ih : All (Lacks c) (split_on c s) = split_on-Lacks c s in
    elim (Bool-cases (x == c)) [
      | inl hit ↦ rw hit (tt, ih)
      | inr miss ↦ let parts = rw e at ih in rw (miss, e) ((miss, parts.0), parts.1)
    ]
