-- ===== src/Scope/Validity.antt =====
-- What the validations accept, and how the two kinds of scope divide the valid ones.
use chuvar.Prelude.{
  ℕ, Str, codes, true, false, ◌≡◌, ◌≢◌, refl, ◌↔◌, ◌⊎◌, inl, inr, List, [], ◌∷◌, Option, none, some,
  arith, Bool-cases, Option-cases, str_eq, cut, cut-some, cut-none, split_on, any, all-All, All-all,
  All, Lacks, length, ◌≤◌, ◌==◌, ok, err,
}
use chuvar.Scope.{
  Scope, ScopeError, split, max_length, is_segment_byte, is_target_byte, segment_pattern,
  target_pattern, has_traversal_segment, validate_segments, validate_target, validate,
  validate_capability, validate_memory, covers,
}
use chuvar.Scope.Covering.{view}

-- A segment is not empty and has only lowercase letters, digits and underscores.
abbrev pub IsSegment : Str → Type 0
IsSegment seg = (seg ≢ []) × All (λ c. is_segment_byte c ≡ true) seg

-- A target is not empty, has only target bytes, and has no part ".." between slashes.
abbrev pub IsTarget : Str → Type 0
IsTarget target =
    (target ≢ [])
    × All (λ c. is_target_byte c ≡ true) target
    × (any (λ seg. str_eq seg (codes "..")) (split_on b'/' target) ≡ false)

abbrev pub IsTarget? : Option Str → Type 0
IsTarget? none = Unit
IsTarget? (some target) = IsTarget target

-- The grammar: scope := operation [ ":" target ].
pub record IsWellFormed (s : Scope) : Type 0 where
  pub not_empty : s ≢ []
  pub bounded : length s ≤ max_length
  pub segments : All IsSegment (view s).segments
  pub target : IsTarget? (view s).target

segment_pattern-IsSegment : (seg : Str) → segment_pattern seg ≡ true → IsSegment seg
unfolding segment_pattern
segment_pattern-IsSegment [] h = absurd (cc)
segment_pattern-IsSegment (c ∷ seg) h = ((λ e. cc e), all-All is_segment_byte (c ∷ seg) h)

IsSegment-segment_pattern : (seg : Str) → IsSegment seg → segment_pattern seg ≡ true
unfolding segment_pattern
IsSegment-segment_pattern [] h = absurd (h.0 refl)
IsSegment-segment_pattern (c ∷ seg) h = All-all is_segment_byte (c ∷ seg) h.1

validate_segments-All : (segs : List Str) → validate_segments segs ≡ ok tt → All IsSegment segs
unfolding validate_segments
validate_segments-All [] h = tt
validate_segments-All (seg ∷ segs) h = elim (Bool-cases (segment_pattern seg)) [
  | inl e ↦ (segment_pattern-IsSegment seg e, validate_segments-All segs (rw e at h))
  | inr e ↦ absurd (cc (rw e at h))
]

All-validate_segments : (segs : List Str) → All IsSegment segs → validate_segments segs ≡ ok tt
unfolding validate_segments
All-validate_segments [] h = refl
All-validate_segments (seg ∷ segs) h =
    rw (IsSegment-segment_pattern seg h.0) (All-validate_segments segs h.1)

validate_target-IsTarget : (t : Str) → validate_target t ≡ ok tt → IsTarget t
unfolding validate_target target_pattern has_traversal_segment
validate_target-IsTarget [] h = absurd (cc)
validate_target-IsTarget (c ∷ t) h =
    ((λ e. cc e), all-All is_target_byte (c ∷ t) (ground arith), ground arith)

IsTarget-validate_target : (t : Str) → IsTarget t → validate_target t ≡ ok tt
unfolding validate_target target_pattern has_traversal_segment
IsTarget-validate_target [] h = absurd (h.0 refl)
IsTarget-validate_target (c ∷ t) h = ground (arith, All-all is_target_byte (c ∷ t) h.1, h.2)

validate-IsWellFormed : (s : Scope) → validate s ≡ ok tt → IsWellFormed s
unfolding validate view
validate-IsWellFormed s h = elim (Option-cases (cut b':' s)) [
  | inl e ↦ record {
    not_empty = λ z. ground arith;
    bounded = ground arith;
    segments = rw (e, view) (validate_segments-All _ (ground arith));
    target = rw (e, view) tt;
  }
  | inr ((op, target), e) ↦ record {
    not_empty = λ z. ground arith;
    bounded = ground arith;
    segments = rw (e, view) (validate_segments-All (split_on b'.' op) (ground arith));
    target = rw (e, view) (validate_target-IsTarget target (ground arith));
  }
]

IsWellFormed-validate : (s : Scope) → IsWellFormed s → validate s ≡ ok tt
unfolding validate view
IsWellFormed-validate s h = elim (Option-cases (cut b':' s)) [
  | inl e ↦ ground (arith, All-validate_segments (split_on b'.' s) (rw (e, view) at h.segments))
  | inr ((op, target), e) ↦ ground (
    arith,
    All-validate_segments (split_on b'.' op) (rw (e, view) at h.segments),
    IsTarget-validate_target target (rw (e, view) at h.target),
  )
]

-- `validate` accepts exactly the scopes of the grammar: a text of 1 to 256 bytes whose operation
-- splits at dots into non-empty lowercase segments, and whose target, if there is a colon, is
-- non-empty, has only target bytes and has no ".." part.
pub validate_iff : (s : Scope) → (validate s ≡ ok tt) ↔ IsWellFormed s
validate_iff s = (validate-IsWellFormed s, IsWellFormed-validate s)

-- A valid scope is a capability scope or a memory scope, and no text is both; an invalid one is
-- neither, with the error of `validate`.
pub kinds_partition :
    (s : Scope)
    → (validate s ≡ ok tt
        → ((validate_capability s ≡ ok tt) × (validate_memory s ≢ ok tt))
          ⊎ ((validate_capability s ≢ ok tt) × (validate_memory s ≡ ok tt)))
      × ((e : ScopeError)
          → validate s ≡ err e
          → (validate_capability s ≡ err e) × (validate_memory s ≡ err e))
unfolding validate_capability validate_memory
kinds_partition s = ((λ h. ground arith), (λ e h. ground arith))

-- A scope valid for one kind neither covers nor is covered by a scope valid for the other.
pub kinds_apart :
    (g r : Scope)
    → validate_memory g ≡ ok tt
    → validate_capability r ≡ ok tt
    → (covers g r ≡ false) × (covers r g ≡ false)
unfolding validate_memory validate_capability covers
kinds_apart g r h k = ground arith

is_target_byte-no_colon : (c : ℕ) → is_target_byte c ≡ true → (c == b':') ≡ false
unfolding is_target_byte
is_target_byte-no_colon c h = ground arith

target-Lacks : (t : Str) → All (λ c. is_target_byte c ≡ true) t → Lacks b':' t
target-Lacks [] h = tt
target-Lacks (c ∷ t) h = (is_target_byte-no_colon c h.0, target-Lacks t h.1)

-- In a valid scope the colon that divides it is the only one: neither the operation nor the target
-- holds another, so every reader of the stored text divides it alike.
pub one_colon :
    (s : Scope) → validate s ≡ ok tt → Lacks b':' (split s).op × Lacks b':' (split s).target
unfolding split view
one_colon s h = elim (Option-cases (cut b':' s)) [
  | inl e ↦ rw (e, split) (cut-none b':' s e, tt)
  | inr ((op, target), e) ↦
      rw (e, split)
        (
          (cut-some b':' s op target e).1,
          target-Lacks target (rw (e, view) at (validate-IsWellFormed s h).target).1,
        )
]
