-- ===== src/Base64.antt =====
-- The package encoding/base64, of which backend/internal/api uses RawURLEncoding for tokens, cursors
-- and credential ids, and StdEncoding.DecodeString for the assertion header.
use chuvar.Prelude.{
  ℕ, ◌+◌, ◌-◌, ◌*◌, ◌/◌, ◌%◌, ◌<◌, Str, Bool, true, not, ◌&&◌, ◌||◌, ◌≡◌, refl, Option, none, some,
  [], ◌∷◌, ◌++◌, keep_if, ltb, leb, ◌==◌, if◌then◌else◌, All, arith, ap, ap₂, ◌∙◌,
}

infixl 5 ◌>>=◌
abbrev ◌>>=◌ : {A B : Type 0} → Option A → (A → Option B) → Option B
none >>= f = none
some a >>= f = f a

-- The last two characters of an alphabet: those for 62 and 63.
pub record Alphabet : Type 0 where
  pub char62 : ℕ
  pub char63 : ℕ

abbrev pub std_alphabet : Alphabet
std_alphabet = record { char62 = b'+'; char63 = b'/' }

abbrev pub url_alphabet : Alphabet
url_alphabet = record { char62 = b'-'; char63 = b'_' }

unfoldable pub encode_char : Alphabet → ℕ → ℕ
encode_char al v =
    if ltb v 26
    then v + 65
    else if ltb v 52
    then v + 71
    else if ltb v 62
    then v - 4
    else if v == 62
    then al.char62
    else al.char63

unfoldable pub decode_char : Alphabet → ℕ → Option ℕ
decode_char al c =
    if leb 65 c && leb c 90
    then some (c - 65)
    else if leb 97 c && leb c 122
    then some (c - 71)
    else if leb 48 c && leb c 57
    then some (c + 4)
    else if c == al.char62
    then some 62
    else if c == al.char63
    then some 63
    else none

-- EncodeToString without padding.
unfoldable pub encode_raw : Alphabet → Str → Str
encode_raw al [] = []
encode_raw al (a ∷ []) = encode_char al (a / 4) ∷ encode_char al (a % 4 * 16) ∷ []
encode_raw al (a ∷ b ∷ []) =
    encode_char al (a / 4) ∷ encode_char al (a % 4 * 16 + b / 16) ∷ encode_char al (b % 16 * 4) ∷ []
encode_raw al (a ∷ b ∷ c ∷ rest) =
    encode_char al (a / 4)
    ∷ encode_char al (a % 4 * 16 + b / 16)
    ∷ encode_char al (b % 16 * 4 + c / 64)
    ∷ encode_char al (c % 64)
    ∷ encode_raw al rest

-- The bytes of two, three and four characters; the last bits that are no byte are ignored.
unfoldable pub decode_two : Alphabet → ℕ → ℕ → Option Str
decode_two al x y = do v ← decode_char al x; w ← decode_char al y; some ((v * 4 + w / 16) ∷ [])

unfoldable pub decode_three : Alphabet → ℕ → ℕ → ℕ → Option Str
decode_three al x y z = do
  v ← decode_char al x
  w ← decode_char al y
  u ← decode_char al z
  some ((v * 4 + w / 16) ∷ (w % 16 * 16 + u / 4) ∷ [])

unfoldable pub decode_four : Alphabet → ℕ → ℕ → ℕ → ℕ → Option Str
decode_four al x y z t = do
  v ← decode_char al x
  w ← decode_char al y
  u ← decode_char al z
  s ← decode_char al t
  some ((v * 4 + w / 16) ∷ (w % 16 * 16 + u / 4) ∷ (u % 4 * 64 + s) ∷ [])

-- DecodeString leaves out line ends.
abbrev pub no_line_ends : Str → Str
no_line_ends = keep_if (λ c. not (c == 10 || c == 13))

unfoldable pub decode_raw : Alphabet → Str → Option Str
unfolding decode_two decode_three decode_four
decode_raw al [] = some []
decode_raw al (x ∷ []) = none
decode_raw al (x ∷ y ∷ []) = decode_two al x y
decode_raw al (x ∷ y ∷ z ∷ []) = decode_three al x y z
decode_raw al (x ∷ y ∷ z ∷ t ∷ rest) =
    let more = decode_raw al rest in
    do bytes ← decode_four al x y z t; tail ← more; some (bytes ++ tail)

-- RawURLEncoding.DecodeString
unfoldable pub decode_raw_url : Str → Option Str
unfolding decode_raw
decode_raw_url s = decode_raw url_alphabet (no_line_ends s)

-- With padding: groups of four, of which only the last may end in one or two signs of padding.
unfoldable pub decode_padded : Alphabet → Str → Option Str
unfolding decode_two decode_three decode_four
decode_padded al [] = some []
decode_padded al (x ∷ []) = none
decode_padded al (x ∷ y ∷ []) = none
decode_padded al (x ∷ y ∷ z ∷ []) = none
decode_padded al (x ∷ y ∷ z ∷ t ∷ []) =
    if t == b'='
    then (if z == b'=' then decode_two al x y else decode_three al x y z)
    else decode_four al x y z t
decode_padded al (x ∷ y ∷ z ∷ t ∷ u ∷ rest) =
    let more = decode_padded al (u ∷ rest) in
    do bytes ← decode_four al x y z t; tail ← more; some (bytes ++ tail)

-- StdEncoding.DecodeString
unfoldable pub decode_std : Str → Option Str
unfolding decode_padded
decode_std s = decode_padded std_alphabet (no_line_ends s)

-- A character for six bits stands for those bits again, and is no line end.
char_back : (v : ℕ) → v < 64 → decode_char url_alphabet (encode_char url_alphabet v) ≡ some v
unfolding encode_char decode_char
char_back v h = ground arith

no_line_end :
    (v : ℕ) → not (encode_char url_alphabet v == 10 || encode_char url_alphabet v == 13) ≡ true
unfolding encode_char
no_line_end v = ground arith

keep_if_first :
    (p : ℕ → Bool) (x : ℕ) (s : Str) → p x ≡ true → keep_if p s ≡ s → keep_if p (x ∷ s) ≡ x ∷ s
keep_if_first p x s hit h = rw (hit, keep_if) (ap (λ r. x ∷ r) h)

char_kept :
    (v : ℕ) (s : Str)
    → no_line_ends s ≡ s
    → no_line_ends (encode_char url_alphabet v ∷ s) ≡ encode_char url_alphabet v ∷ s
char_kept v s h = keep_if_first _ (encode_char url_alphabet v) s (no_line_end v) h

-- The bytes of a text.
abbrev pub IsBytes : Str → Type 0
IsBytes = All (λ c. c < 256)

-- What an encoded text holds is no line end, so reading it starts from all of it.
kept : (s : Str) → no_line_ends (encode_raw url_alphabet s) ≡ encode_raw url_alphabet s
unfolding encode_raw
kept [] = refl
kept (a ∷ []) = char_kept _ _ (char_kept _ _ refl)
kept (a ∷ b ∷ []) = char_kept _ _ (char_kept _ _ (char_kept _ _ refl))
kept (a ∷ b ∷ c ∷ rest) = char_kept _ _ (char_kept _ _ (char_kept _ _ (char_kept _ _ (kept rest))))

module _ (a : ℕ) (a_byte : a < 256) where
  two_back :
      decode_two url_alphabet
        (encode_char url_alphabet (a / 4))
        (encode_char url_alphabet (a % 4 * 16))
      ≡ some (a ∷ [])
  unfolding decode_two
  two_back =
      rw (char_back (a / 4) (omega arith), char_back (a % 4 * 16) (omega arith))
        (ap (λ x. some (x ∷ [])) (omega arith))

  module _ (b : ℕ) (b_byte : b < 256) where
    three_back :
        decode_three url_alphabet
          (encode_char url_alphabet (a / 4))
          (encode_char url_alphabet (a % 4 * 16 + b / 16))
          (encode_char url_alphabet (b % 16 * 4))
        ≡ some (a ∷ b ∷ [])
    unfolding decode_three
    three_back =
        rw
          (
            char_back (a / 4) (omega arith),
            char_back (a % 4 * 16 + b / 16) (omega arith),
            char_back (b % 16 * 4) (omega arith),
          )
          (ap₂ (λ x y. some (x ∷ y ∷ [])) (omega arith) (omega arith))

    four_back :
        (c : ℕ)
        → c < 256
        → decode_four url_alphabet
            (encode_char url_alphabet (a / 4))
            (encode_char url_alphabet (a % 4 * 16 + b / 16))
            (encode_char url_alphabet (b % 16 * 4 + c / 64))
            (encode_char url_alphabet (c % 64))
          ≡ some (a ∷ b ∷ c ∷ [])
    unfolding decode_four
    four_back c c_byte =
        let first : a / 4 * 4 + (a % 4 * 16 + b / 16) / 16 ≡ a = omega arith in
        let second : (a % 4 * 16 + b / 16) % 16 * 16 + (b % 16 * 4 + c / 64) / 4 ≡ b =
          omega arith in
        let third : (b % 16 * 4 + c / 64) % 4 * 64 + c % 64 ≡ c = omega arith in
        rw (
          char_back (a / 4) (omega arith),
          char_back (a % 4 * 16 + b / 16) (omega arith),
          char_back (b % 16 * 4 + c / 64) (omega arith),
          char_back (c % 64) (omega arith),
          first,
          second,
          third,
        )

back : (s : Str) → IsBytes s → decode_raw url_alphabet (encode_raw url_alphabet s) ≡ some s
unfolding encode_raw decode_raw
back [] h = refl
back (a ∷ []) h = two_back a h.0
back (a ∷ b ∷ []) h = three_back a h.0 b h.1.0
back (a ∷ b ∷ c ∷ rest) h = rw (four_back a h.0 b h.1.0 c h.1.1.0, back rest h.1.1.1)

-- Decoding an encoded text gives the text back.
pub decode_raw_url-encode_raw :
    (s : Str) → IsBytes s → decode_raw_url (encode_raw url_alphabet s) ≡ some s
unfolding decode_raw_url
decode_raw_url-encode_raw s h = ap (decode_raw url_alphabet) (kept s) ∙ back s h
