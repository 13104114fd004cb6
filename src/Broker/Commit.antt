-- ===== src/Broker/Commit.antt =====
-- backend/internal/broker/commit/commit.go: the parser that decides which payloads are unsigned git
-- commit objects. A payload is its bytes; the regular expressions are scanners on bytes, since
-- every byte of a rune outside ASCII is in the negated classes.
pub mod Identity
pub mod Lines
pub mod Structure
use chuvar.Prelude.{
  ℕ, zero, suc, ◌+◌, Str, codes, Bool, true, false, not, ◌&&◌, ◌||◌, Option, none, some, List, [],
  ◌∷◌, ◌++◌, Result, ok, err, guard, ◌>>=◌, ◌>>◌, length, is_empty, all, leb, ◌==◌, if◌then◌else◌,
  str_eq, has_prefix, cut, split_on,
}

abbrev pub newline : ℕ
newline = 10

abbrev pub is_digit : ℕ → Bool
is_digit c = leb b'0' c && leb c b'9'

-- [^<>\x00-\x1f\x7f]
unfoldable pub is_name_byte : ℕ → Bool
is_name_byte c = not (c == b'<') && not (c == b'>') && leb 32 c && not (c == 127)

-- [^<>\s\x00-\x1f\x7f]
unfoldable pub is_email_byte : ℕ → Bool
unfolding is_name_byte
is_email_byte c = is_name_byte c && not (c == b' ')

-- [+-]\d{4}
unfoldable pub is_zone : Str → Bool
is_zone (sign ∷ digits) =
    (sign == b'+' || sign == b'-') && length digits == 4 && all is_digit digits
is_zone [] = false

-- ^[0-9a-f]{40}$|^[0-9a-f]{64}$
unfoldable pub is_object_id : Str → Bool
is_object_id s =
    (length s == 40 || length s == 64) && all (λ c. is_digit c || leb b'a' c && leb c b'f') s

-- The text without a last space.
unfoldable pub without_last_space : Str → Option Str
without_last_space [] = none
without_last_space (c ∷ s) =
    let rest = without_last_space s in
    if is_empty s
    then if c == b' ' then some [] else none
    else elim rest [ none ↦ none | some r ↦ some (c ∷ r) ]

unfoldable pub without_first_space : Str → Option Str
without_first_space [] = none
without_first_space (c ∷ s) = if c == b' ' then some s else none

-- identityLinePattern.FindStringSubmatch, as far as the second group: the name has no <, and the
-- email no >, so the first of each divides the line.
unfoldable pub identity_email : Str → Option Str
identity_email line = elim (cut b'<' line) [
  | none ↦ none
  | some (before, after) ↦ elim (cut b'>' after) [
    | none ↦ none
    | some (email, rest) ↦ elim (without_last_space before) [
      | none ↦ none
      | some name ↦ elim (without_first_space rest) [
        | none ↦ none
        | some stamp ↦ elim (cut b' ' stamp) [
          | none ↦ none
          | some (seconds, zone) ↦
              if not (is_empty name)
                && all is_name_byte name
                && all is_email_byte email
                && not (is_empty seconds)
                && all is_digit seconds
                && is_zone zone
              then some email
              else none
        ]
      ]
    ]
  ]
]

-- bytes.Cut(payload, "\n\n")
unfoldable pub cut_blank_line : Str → Option (Str × Str)
cut_blank_line [] = none
cut_blank_line (x ∷ []) = none
cut_blank_line (x ∷ y ∷ s) =
    let rest = cut_blank_line (y ∷ s) in
    if x == newline && y == newline
    then some ([], s)
    else elim rest [ none ↦ none | some (before, after) ↦ some (x ∷ before, after) ]

-- lines[len(lines)-1] += more
unfoldable pub extend_last : List Str → Str → List Str
extend_last [] more = []
extend_last (l ∷ []) more = (l ++ more) ∷ []
extend_last (l ∷ k ∷ lines) more = l ∷ extend_last (k ∷ lines) more

-- The loop of splitHeaderLines, with the lines that it has so far.
unfoldable pub fold_lines : List Str → List Str → List Str
fold_lines lines [] = lines
fold_lines lines ([] ∷ raw) = fold_lines (lines ++ [] ∷ []) raw
fold_lines lines ((c ∷ l) ∷ raw) =
    let continued = fold_lines (extend_last lines (newline ∷ l)) raw in
    let started = fold_lines (lines ++ (c ∷ l) ∷ []) raw in
    if c == b' ' && not (is_empty lines) then continued else started

unfoldable pub split_header_lines : Str → List Str
split_header_lines block = fold_lines [] (split_on newline block)

unfoldable pub has_key : Str → Str → Bool
has_key line key = str_eq line key || has_prefix line (key ++ b' ' ∷ [])

-- s[n:]
unfoldable pub skip : ℕ → Str → Str
skip zero s = s
skip (suc n) [] = []
skip (suc n) (c ∷ s) = skip n s

unfoldable pub value : Str → Str → Str
value line key = if str_eq line key then [] else skip (suc (length key)) line

pub record Commit : Type 0 where
  pub tree : Str
  pub parents : List Str
  pub author : Str
  pub committer : Str
  pub committer_email : Str
  pub message : Str
  pub raw : Str

pub data Malformed : Type 0 where
  no_blank_line bad_first_header bad_tree bad_parent no_author bad_author no_committer : Malformed
  bad_committer already_signed duplicate_header empty_email : Malformed

-- The first line, if its key is the one given and its value passes the test; the errors are for a
-- missing line and for a bad value.
unfoldable pub take_header :
    Str → (Str → Bool) → Malformed → Malformed → List Str → Result Malformed (Str × List Str)
take_header key test missing bad [] = err missing
take_header key test missing bad (l ∷ lines) =
    if has_key l key
    then if test (value l key) then ok (value l key, lines) else err bad
    else err missing

-- The loop over the parents.
unfoldable pub take_parents : List Str → Result Malformed (List Str × List Str)
take_parents [] = ok ([], [])
take_parents (l ∷ lines) =
    let rest = take_parents lines in
    if has_key l (codes "parent")
    then if is_object_id (value l (codes "parent"))
      then rest >>= (λ more. ok (value l (codes "parent") ∷ more.0, more.1))
      else err bad_parent
    else ok ([], l ∷ lines)

abbrev pub is_signature : Str → Bool
is_signature l = has_key l (codes "gpgsig") || has_key l (codes "gpgsig-sha256")

abbrev pub is_duplicate : Str → Bool
is_duplicate l =
    has_key l (codes "tree") || has_key l (codes "author") || has_key l (codes "committer")

-- The loop over the remaining headers.
unfoldable pub check_remaining : List Str → Result Malformed (Unit {0})
check_remaining [] = ok tt
check_remaining (l ∷ lines) =
    let rest = check_remaining lines in
    if is_signature l
    then err already_signed
    else if is_duplicate l
    then err duplicate_header
    else rest

abbrev pub is_identity : Str → Bool
is_identity line = elim (identity_email line) [ none ↦ false | some _ ↦ true ]

abbrev pub email_or_empty : Str → Str
email_or_empty line = elim (identity_email line) [ none ↦ [] | some email ↦ email ]

unfoldable pub parse_headers : Str → Str → List Str → Result Malformed Commit
parse_headers payload message lines = do
  (tree, lines) ← take_header (codes "tree") is_object_id bad_first_header bad_tree lines
  (parents, lines) ← take_parents lines
  (author, lines) ← take_header (codes "author") is_identity no_author bad_author lines
  (committer, lines) ← take_header (codes "committer") is_identity no_committer bad_committer lines
  check_remaining lines
  guard (not (is_empty (email_or_empty committer))) empty_email
  ok (record {
    tree = tree;
    parents = parents;
    author = author;
    committer = committer;
    committer_email = email_or_empty committer;
    message = message;
    raw = payload;
  })

-- Parse
unfoldable pub parse : Str → Result Malformed Commit
unfolding parse_headers
parse payload = elim (cut_blank_line payload) [
  | none ↦ err no_blank_line
  | some (header_block, message) ↦ parse_headers payload message (split_header_lines header_block)
]
