-- ===== src/Store/Facts/Visibility.antt =====
-- The SQL that shows facts by LIKE patterns agrees with `Covers` on memory scopes.
use chuvar.Prelude.{
  Str, codes, false, not, ◌≡◌, ◌&&◌, refl, ap, ap₂, ◌∙◌, List, [], ◌∷◌, ◌++◌, arith, ok, all, All,
  Bool-cases, inl, inr, str_eq_iff, has_prefix, is_empty, ◌==◌,
}
use chuvar.Scope.{Scope, split, op_covers, covers, any_covers, validate_memory}
use chuvar.Store.Facts.{Like, is_special, like_escape, scope_prefixes, tag_visible, tags_visible}

-- The scope has no target.
abbrev pub IsUntargeted : Scope → Type 0
IsUntargeted s = (split s).has_target ≡ false

pub validate_memory-IsUntargeted : (s : Scope) → validate_memory s ≡ ok tt → IsUntargeted s
unfolding validate_memory
validate_memory-IsUntargeted s h = ground arith

dot_plain : is_special b'.' ≡ false
unfolding is_special
dot_plain = refl

-- a pattern for a granted scope matches exactly the texts that go on behind it and a dot
like-escape :
    (l : Like) (s g : Str) → l.like s (like_escape g ++ codes ".%") ≡ has_prefix s (g ++ b'.' ∷ [])
unfolding like_escape has_prefix
like-escape l [] [] = l.literal_end b'.' (codes "%") dot_plain
like-escape l (d ∷ s) [] = rw (l.literal d b'.' s (codes "%") dot_plain, l.percent s) refl
like-escape l [] (c ∷ g) = elim (Bool-cases (is_special c)) [
  | inl e ↦ rw e (l.escaped_end c _)
  | inr e ↦ rw e (l.literal_end c _ e)
]
like-escape l (d ∷ s) (c ∷ g) = elim (Bool-cases (is_special c)) [
  | inl e ↦ rw e (l.escaped d c s _ ∙ ap (λ b. (d == c) && b) (like-escape l s g))
  | inr e ↦ rw e (l.literal d c s _ e ∙ ap (λ b. (d == c) && b) (like-escape l s g))
]

covers-untargeted : (g r : Scope) → IsUntargeted g → IsUntargeted r → covers g r ≡ op_covers g r
unfolding covers
covers-untargeted g r h k = ground arith

-- For untargeted scopes the SQL's test of one scope of a fact is `any_covers`.
pub tag_visible-any_covers :
    (l : Like) (granted : List Scope) (tag : Scope)
    → All IsUntargeted granted
    → IsUntargeted tag
    → tag_visible l granted tag ≡ any_covers granted tag
unfolding tag_visible any_covers scope_prefixes op_covers
tag_visible-any_covers l [] tag h k = refl
tag_visible-any_covers l (g ∷ granted) tag h k = ground (
  arith,
  like-escape l tag g,
  covers-untargeted g tag h.0 k,
  str_eq_iff tag g,
  str_eq_iff g tag,
  tag_visible-any_covers l granted tag h.1 k,
)

-- A fact all of whose scopes are untargeted is visible to untargeted grants exactly when it has a
-- scope and some granted scope covers each of them.
pub tags_visible-all_covered :
    (l : Like) (granted tags : List Scope)
    → All IsUntargeted granted
    → All IsUntargeted tags
    → tags_visible l granted tags ≡ (not (is_empty tags) && all (any_covers granted) tags)
unfolding tags_visible
tags_visible-all_covered l granted tags h k = ap (λ b. not (is_empty tags) && b) (same_tests tags k)
  where
    same_tests :
        (ts : List Scope)
        → All IsUntargeted ts
        → all (tag_visible l granted) ts ≡ all (any_covers granted) ts
    same_tests [] u = refl
    same_tests (t ∷ ts) u = ap₂ ◌&&◌ (tag_visible-any_covers l granted t h u.0) (same_tests ts u.1)
