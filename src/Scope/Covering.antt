-- ===== src/Scope/Covering.antt =====
-- What `covers` decides: on the dotted segments of the operation and on the target.
use chuvar.Prelude.{
  Str, true, ◌≡◌, refl, sym, ap, ◌∙◌, ◌↔◌, inl, inr, ◌++◌, List, [], ◌∷◌, Option, none, some, arith,
  Bool-cases, Option-cases, str_eq, str_eq_iff, has_prefix-append, has_prefix-rest, cut, cut-some,
  split_on, split_on-append, split_on-cons, join, join-split_on, join-append, IsPrefixOf,
  append-nil, append_assoc, split_on_injective, ◌≡⟨◌⟩◌, ◌∎, length, length-append,
}
use chuvar.Scope.{Scope, split, op_covers, covers}

-- The operation read as its dotted segments, and the target as an option.
pub record View : Type 0 where
  pub segments : List Str
  pub target : Option Str

unfoldable pub view : Scope → View
view s = elim (cut b':' s) [
  | none ↦ record { segments = split_on b'.' s; target = none }
  | some (op, target) ↦ record { segments = split_on b'.' op; target = some target }
]

-- One scope stands above another: the same target or both without one, and the segments of the
-- first begin those of the second.
abbrev pub Above : View → View → Type 0
Above v w = (v.target ≡ w.target) × IsPrefixOf v.segments w.segments

op_covers-prefix :
    (g r : Str) → op_covers g r ≡ true → IsPrefixOf (split_on b'.' g) (split_on b'.' r)
unfolding op_covers
op_covers-prefix g r h = elim (Bool-cases (str_eq g r)) [
  | inl same ↦ ([], rw ((str_eq_iff g r).0 same) (sym (append-nil _)))
  | inr other ↦
      let (rest, e) = has_prefix-rest r (g ++ b'.' ∷ []) (rw other at h) in
      (
        split_on b'.' rest,
        ap (split_on b'.') (e ∙ append_assoc g _ rest) ∙ split_on-append b'.' g rest,
      )
]

-- more parts mean a text that goes on behind a dot
longer :
    (g r t : Str) (ts : List Str)
    → split_on b'.' r ≡ split_on b'.' g ++ t ∷ ts
    → r ≡ (g ++ b'.' ∷ []) ++ join b'.' (t ∷ ts)
longer g r t ts e =
    let (h, ss, p) = split_on-cons b'.' g in
    r
    ≡⟨ sym (join-split_on b'.' r) ⟩ join b'.' (split_on b'.' r)
    ≡⟨ ap (join b'.') (e ∙ ap (λ x. x ++ t ∷ ts) p) ⟩ join b'.' ((h ∷ ss) ++ t ∷ ts)
    ≡⟨ join-append b'.' h ss t ts ⟩ join b'.' (h ∷ ss) ++ b'.' ∷ join b'.' (t ∷ ts)
    ≡⟨ ap (λ x. x ++ b'.' ∷ join b'.' (t ∷ ts)) (ap (join b'.') (sym p) ∙ join-split_on b'.' g) ⟩
      g ++ b'.' ∷ join b'.' (t ∷ ts)
    ≡⟨ sym (append_assoc g _ _) ⟩ (g ++ b'.' ∷ []) ++ join b'.' (t ∷ ts) ∎

prefix-op_covers :
    (g r : Str) → IsPrefixOf (split_on b'.' g) (split_on b'.' r) → op_covers g r ≡ true
unfolding op_covers
prefix-op_covers g r ([], e) =
    rw ((str_eq_iff g r).1 (sym (split_on_injective b'.' r g (e ∙ append-nil _))))
prefix-op_covers g r (t ∷ ts, e) = elim (Bool-cases (str_eq g r)) [
  | inl same ↦ rw same
  | inr other ↦
      rw other (rw (longer g r t ts e) (has_prefix-append (g ++ b'.' ∷ []) (join b'.' (t ∷ ts))))
]

-- A granted operation covers a requested one exactly when its dotted segments are the first
-- segments of the requested one.
pub op_covers_iff :
    (g r : Str) → (op_covers g r ≡ true) ↔ IsPrefixOf (split_on b'.' g) (split_on b'.' r)
op_covers_iff g r = (op_covers-prefix g r, prefix-op_covers g r)

covers-Above : (g r : Scope) → covers g r ≡ true → Above (view g) (view r)
unfolding covers view
covers-Above g r h = ground (
  arith,
  op_covers-prefix (split g).op (split r).op,
  str_eq_iff (split g).target (split r).target,
)

Above-covers : (g r : Scope) → Above (view g) (view r) → covers g r ≡ true
unfolding covers view
Above-covers g r h = ground (
  arith,
  prefix-op_covers (split g).op (split r).op,
  str_eq_iff (split g).target (split r).target,
)

-- `covers g r` holds exactly when both scopes have no target or the same one, and the segments of
-- g's operation are the first segments of r's.
pub covers_iff : (g r : Scope) → (covers g r ≡ true) ↔ Above (view g) (view r)
covers_iff g r = (covers-Above g r, Above-covers g r)

-- The scope that a view came from.
unview : View → Scope
unview v = elim v.target [
  | none ↦ join b'.' v.segments
  | some target ↦ join b'.' v.segments ++ b':' ∷ target
]

unview-view : (s : Scope) → unview (view s) ≡ s
unfolding unview view
unview-view s = elim (Option-cases (cut b':' s)) [
  | inl e ↦ rw (e, view) (join-split_on b'.' s)
  | inr ((op, target), e) ↦
      rw (e, view)
        (ap (λ x. x ++ b':' ∷ target) (join-split_on b'.' op) ∙ sym (cut-some b':' s op target e).0)
]

prefix_trans : (xs ys zs : List Str) → IsPrefixOf xs ys → IsPrefixOf ys zs → IsPrefixOf xs zs
prefix_trans xs ys zs (a, p) (b, q) = (a ++ b, q ∙ ap (λ x. x ++ b) p ∙ append_assoc xs a b)

prefix-antisym : (xs ys : List Str) → IsPrefixOf xs ys → IsPrefixOf ys xs → xs ≡ ys
prefix-antisym xs ys ([], p) h = sym (p ∙ append-nil xs)
prefix-antisym xs ys (t ∷ a, p) (b, q) =
    absurd (omega (arith, ap length p, ap length q, length-append xs (t ∷ a), length-append ys b))

pub covers_refl : (g : Scope) → covers g g ≡ true
covers_refl g = (covers_iff g g).1 (refl, ([], sym (append-nil _)))

pub covers_trans : (g m r : Scope) → covers g m ≡ true → covers m r ≡ true → covers g r ≡ true
covers_trans g m r h k =
    let a = (covers_iff g m).0 h in
    let b = (covers_iff m r).0 k in (covers_iff g r).1 (a.0 ∙ b.0, prefix_trans _ _ _ a.1 b.1)

pub covers-antisym : (g r : Scope) → covers g r ≡ true → covers r g ≡ true → g ≡ r
covers-antisym g r h k =
    let a = (covers_iff g r).0 h in
    let b = (covers_iff r g).0 k in
    let same : view g ≡ view r = λ i. record {
      segments = prefix-antisym (view g).segments (view r).segments a.1 b.1 i;
      target = a.0 i;
    } in
    sym (unview-view g) ∙ ap unview same ∙ unview-view r

-- Covering is an order on scopes: it is reflexive and transitive, and two scopes that cover each
-- other are the same text.
pub covers_order :
    ((g : Scope) → covers g g ≡ true)
    × ((g m r : Scope) → covers g m ≡ true → covers m r ≡ true → covers g r ≡ true)
    × ((g r : Scope) → covers g r ≡ true → covers r g ≡ true → g ≡ r)
covers_order = (covers_refl, covers_trans, covers-antisym)
