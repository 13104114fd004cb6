-- ===== src/Scope/Tests.antt =====
-- The theorems on scopes at concrete inputs.
use chuvar.Prelude.{codes, refl, [], ◌∷◌, Distinct, str_eq, cut, split_on, has_prefix}
use chuvar.Scope.{
  Scope, split, validate, validate_segments, segment_pattern, is_segment_byte, is_target_byte,
  target_pattern, has_traversal_segment, validate_target, covers, op_covers, missing,
}
use chuvar.Scope.Covering.{Above, view, covers_iff}
use chuvar.Scope.Sets.{missing_iff}
use chuvar.Scope.Validity.{IsWellFormed, validate_iff}

abbrev name_scope : Scope
name_scope = codes "identity.name"

abbrev identity : Scope
identity = codes "identity"

abbrev sign_repo : Scope
sign_repo = codes "git.sign:owner/repo"

covers_iff_example : Above (view identity) (view name_scope)
unfolding covers split cut op_covers str_eq has_prefix
covers_iff_example = (covers_iff identity name_scope).0 refl

missing_iff_example : Distinct (missing (name_scope ∷ sign_repo ∷ []) (identity ∷ []))
missing_iff_example = (missing_iff (name_scope ∷ sign_repo ∷ []) (identity ∷ [])).0

validate_iff_example : IsWellFormed sign_repo
unfolding validate validate_segments segment_pattern is_segment_byte is_target_byte target_pattern
    has_traversal_segment validate_target split cut split_on str_eq
validate_iff_example = (validate_iff sign_repo).0 refl
