-- ===== src/Scope.antt =====
-- backend/internal/scope/scope.go: dotted scopes with an optional colon-delimited target, their
-- validation, and the rule by which a granted scope covers a requested one.
pub mod Covering
pub mod Sets
pub mod Validity
mod Tests
use chuvar.Prelude.{
  ℕ, Str, codes, Bool, true, false, not, ◌&&◌, ◌||◌, ◌++◌, List, [], ◌∷◌, Option, none, some,
  Result, ok, err, guard, ◌>>=◌, ◌>>◌, ltb, leb, ◌==◌, if◌then◌else◌, differ, length, is_empty, any,
  all, str_eq, has_prefix, cut, split_on,
}

abbrev pub Scope : Type 0
Scope = Str

-- What `split` returns: the operation, the target ("" if there is none), and whether there is one.
pub record Parts : Type 0 where
  pub op : Str
  pub target : Str
  pub has_target : Bool

unfoldable pub split : Scope → Parts
split s = elim (cut b':' s) [
  | none ↦ record { op = s; target = []; has_target = false }
  | some (op, target) ↦ record { op = op; target = target; has_target = true }
]

unfoldable pub operation : Scope → Scope
operation s = (split s).op

abbrev pub max_length : ℕ
max_length = 256

abbrev is_lower : ℕ → Bool
is_lower c = leb b'a' c && leb c b'z'

abbrev is_upper : ℕ → Bool
is_upper c = leb b'A' c && leb c b'Z'

abbrev is_digit : ℕ → Bool
is_digit c = leb b'0' c && leb c b'9'

-- [a-z0-9_]
unfoldable pub is_segment_byte : ℕ → Bool
is_segment_byte c = is_lower c || is_digit c || c == b'_'

-- [A-Za-z0-9._/-]
unfoldable pub is_target_byte : ℕ → Bool
is_target_byte c =
    is_upper c || is_lower c || is_digit c || c == b'.' || c == b'_' || c == b'/' || c == b'-'

-- ^[a-z0-9_]+$
unfoldable pub segment_pattern : Str → Bool
segment_pattern seg = not (is_empty seg) && all is_segment_byte seg

-- ^[A-Za-z0-9._/-]+$
unfoldable pub target_pattern : Str → Bool
target_pattern target = not (is_empty target) && all is_target_byte target

unfoldable pub has_traversal_segment : Str → Bool
has_traversal_segment target = any (λ seg. str_eq seg (codes "..")) (split_on b'/' target)

pub data ScopeError : Type 0 where
  empty_scope exceeds_max_length empty_target invalid_target traversal_segment : ScopeError
  must_specify_target must_not_specify_target : ScopeError
  invalid_segment : Str → ScopeError

-- The loop over the segments stops at the first that does not match.
unfoldable pub validate_segments : List Str → Result ScopeError (Unit {0})
validate_segments [] = ok tt
validate_segments (seg ∷ segments) =
    let rest = validate_segments segments in
    if segment_pattern seg then rest else err (invalid_segment seg)

unfoldable pub validate_target : Str → Result ScopeError (Unit {0})
validate_target target = do
  guard (not (is_empty target)) empty_target
  guard (target_pattern target) invalid_target
  guard (not (has_traversal_segment target)) traversal_segment

unfoldable pub validate : Scope → Result ScopeError (Unit {0})
unfolding split
validate s = do
  guard (not (is_empty s)) empty_scope
  guard (not (ltb max_length (length s))) exceeds_max_length
  validate_segments (split_on b'.' (split s).op)
  if (split s).has_target then validate_target (split s).target else ok tt

unfoldable pub validate_capability : Scope → Result ScopeError (Unit {0})
validate_capability s = do validate s; guard (split s).has_target must_specify_target

unfoldable pub validate_memory : Scope → Result ScopeError (Unit {0})
validate_memory s = do validate s; guard (not (split s).has_target) must_not_specify_target

unfoldable pub op_covers : Str → Str → Bool
op_covers g r = if str_eq g r then true else has_prefix r (g ++ b'.' ∷ [])

unfoldable pub covers : Scope → Scope → Bool
unfolding split
covers g r =
    if differ (split g).has_target (split r).has_target
    then false
    else if (split g).has_target && not (str_eq (split g).target (split r).target)
    then false
    else op_covers (split g).op (split r).op

unfoldable pub any_covers : List Scope → Scope → Bool
any_covers [] r = false
any_covers (g ∷ granted) r = let rest = any_covers granted r in if covers g r then true else rest

-- The loop of `missing`, with the scopes that it has seen.
unfoldable pub missing_from : List Scope → List Scope → List Scope → List Scope
missing_from seen [] granted = []
missing_from seen (r ∷ requested) granted =
    let again = missing_from seen requested granted in
    let rest = missing_from (r ∷ seen) requested granted in
    if any (str_eq r) seen then again else if not (any_covers granted r) then r ∷ rest else rest

unfoldable pub missing : List Scope → List Scope → List Scope
unfolding missing_from
missing requested granted = missing_from [] requested granted

unfoldable pub satisfied : List Scope → List Scope → Bool
unfolding missing
satisfied requested granted = length (missing requested granted) == 0

-- The loop of `dedupe`, with the scopes that it has seen.
unfoldable pub dedupe_from : List Scope → List Scope → List Scope
dedupe_from seen [] = []
dedupe_from seen (s ∷ scopes) =
    let again = dedupe_from seen scopes in
    let rest = dedupe_from (s ∷ seen) scopes in if any (str_eq s) seen then again else s ∷ rest

unfoldable pub dedupe : List Scope → List Scope
unfolding dedupe_from
dedupe scopes = dedupe_from [] scopes
