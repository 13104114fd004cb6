-- ===== src/Prelude/Trim.antt =====
-- strings.TrimSpace on UTF-8 bytes: Unicode's white space has one, two or three.
use Prim.Native.Nat.{ℕ}
use mathlib.Core.Bool.{Bool, ◌&&◌, ◌||◌}
use mathlib.Core.List.{[], ◌∷◌}
use chuvar.Prelude.Tests.{◌==◌, leb, if◌then◌else◌}
use chuvar.Prelude.Text.{Str}

-- tab, newline, vertical tab, form feed, carriage return and the space
unfoldable pub space_one : ℕ → Bool
space_one a = leb 9 a && leb a 13 || a == 32

-- U+0085 and U+00A0
unfoldable pub space_two : ℕ → ℕ → Bool
space_two a b = a == 194 && (b == 133 || b == 160)

-- U+1680, U+2000 to U+200A, U+2028, U+2029, U+202F, U+205F and U+3000
unfoldable pub space_three : ℕ → ℕ → ℕ → Bool
space_three a b c =
    a == 225 && (b == 154 && c == 128)
    || (a == 226 && (b == 128 && (leb 128 c && leb c 138 || (c == 168 || (c == 169 || c == 175)))))
    || (a == 226 && (b == 129 && c == 159))
    || (a == 227 && (b == 128 && c == 128))

-- Leading characters that are one of these are left out.
unfoldable pub trim_by : (ℕ → ℕ → Bool) → (ℕ → ℕ → ℕ → Bool) → Str → Str
unfolding space_one
trim_by two three [] = []
trim_by two three (a ∷ []) = if space_one a then [] else a ∷ []
trim_by two three (a ∷ b ∷ []) =
    let rest = trim_by two three (b ∷ []) in
    if space_one a then rest else if two a b then [] else a ∷ b ∷ []
trim_by two three (a ∷ b ∷ c ∷ s) =
    let rest = trim_by two three (b ∷ c ∷ s) in
    let rest₂ = trim_by two three (c ∷ s) in
    let rest₃ = trim_by two three s in
    if space_one a
    then rest
    else if two a b
    then rest₂
    else if three a b c
    then rest₃
    else a ∷ b ∷ c ∷ s

unfoldable pub reverse_onto : Str → Str → Str
reverse_onto [] acc = acc
reverse_onto (x ∷ s) acc = reverse_onto s (x ∷ acc)

-- From the end, the bytes of a character come in the other order.
unfoldable pub trim_space : Str → Str
unfolding trim_by space_two space_three reverse_onto
trim_space s =
    let left = trim_by space_two space_three s in
    reverse_onto
      (trim_by (λ a b. space_two b a) (λ a b c. space_three c b a) (reverse_onto left [])) []
