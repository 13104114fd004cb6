-- ===== src/Store/Depth/Effective.antt =====
-- The depth of a read: the least over the fact's tags of the greatest over the grants that cover a
-- tag, and never more than every tag allows.
use chuvar.Prelude.{
  ℕ, zero, suc, ◌≤◌, ◌<◌, Str, true, ◌≡◌, ◌≢◌, ◌↔◌, refl, ◌⊎◌, inl, inr, Option, none, some, List,
  [], ◌∷◌, arith, Result, ok, All, Any, Bool-cases, str_eq, str_eq_iff, ltb,
}
use chuvar.Scope.{covers}
use chuvar.Store.Types.{GrantedScope, StoreError, summary, facts_depth, full}
use chuvar.Store.Depth.{
  index_from, depth_rank_index, depth_rank, depth_name, raise_to, tag_rank, lower_to, least_rank,
  effective_depth,
}

pub depth_rank-lt : (d : Str) (r : ℕ) → depth_rank d ≡ ok r → r < 3
unfolding depth_rank depth_rank_index index_from
depth_rank-lt d r h = ground arith

-- The rank is the place in `depth_order`, and its name is the depth again.
pub depth_name-rank : (d : Str) (r : ℕ) → depth_rank d ≡ ok r → depth_name r ≡ ok d
unfolding depth_rank depth_rank_index index_from depth_name
depth_name-rank d r h =
    ground (arith, str_eq_iff summary d, str_eq_iff facts_depth d, str_eq_iff full d)

-- The rank of a depth of the vocabulary.
unfoldable pub rank_of : Str → ℕ
rank_of d = elim (depth_rank_index d) [ some r ↦ r | none ↦ 0 ]

-- The depths of all grants are in the vocabulary.
abbrev pub AllRanked : List GrantedScope → Type 0
AllRanked = All (λ g. depth_rank g.depth ≡ ok (rank_of g.depth))

-- Some grant covers the tag at rank k or more.
abbrev pub Allows : ℕ → List GrantedScope → Str → Type 0
Allows k granted tag = Any (λ g. (covers g.scope tag ≡ true) × (k ≤ rank_of g.depth)) granted

abbrev AtLeast : ℕ → Option ℕ → Type 0
AtLeast k none = ⊥
AtLeast k (some r) = k ≤ r

raise_to-AtLeast :
    (k r : ℕ) (best : Option ℕ) → AtLeast k (some (raise_to r best)) ↔ (AtLeast k best ⊎ (k ≤ r))
unfolding raise_to
raise_to-AtLeast k r none = ((λ h. inr h), λ a. elim a [ inl x ↦ absurd x | inr x ↦ x ])
raise_to-AtLeast k r (some b) = elim (Bool-cases (ltb b r)) [
  | inl e ↦ rw e ((λ h. inr h), λ a. elim a [ inl x ↦ ground arith | inr x ↦ x ])
  | inr e ↦ rw e ((λ h. inl h), λ a. elim a [ inl x ↦ x | inr x ↦ ground arith ])
]

tag_rank_lem :
    (tag : Str) (granted : List GrantedScope) (best : Option ℕ)
    → AllRanked granted
    → (res : Option ℕ) × (tag_rank tag granted best ≡ ok res)
      × ((k : ℕ) → AtLeast k res ↔ (AtLeast k best ⊎ Allows k granted tag))
unfolding tag_rank
tag_rank_lem tag [] best h =
    (best, refl, λ k. ((λ a. inl a), λ a. elim a [ inl x ↦ x | inr x ↦ absurd x ]))
tag_rank_lem tag (g ∷ granted) best h = elim (Bool-cases (covers g.scope tag)) [
  | inl e ↦
      let (res, eq, iff) = tag_rank_lem tag granted (some (raise_to (rank_of g.depth) best)) h.1 in
      (
        res,
        rw (e, h.0) eq,
        λ k.
            let raised = raise_to-AtLeast k (rank_of g.depth) best in
            (
              (λ a. elim ((iff k).0 a) [
                | inl x ↦ elim (raised.0 x) [ inl y ↦ inl y | inr y ↦ inr (inl (e, y)) ]
                | inr x ↦ inr (inr x)
              ]),
              λ a. (iff k).1 (elim a [
                | inl x ↦ inl (raised.1 (inl x))
                | inr (inl x) ↦ inl (raised.1 (inr x.1))
                | inr (inr x) ↦ inr x
              ]),
            ),
      )
  | inr e ↦
      let (res, eq, iff) = tag_rank_lem tag granted best h.1 in
      (
        res,
        rw e eq,
        λ k. (
          (λ a. elim ((iff k).0 a) [ inl x ↦ inl x | inr x ↦ inr (inr x) ]),
          λ a.
              (iff k).1 (elim a [
                | inl x ↦ inl x
                | inr (inl x) ↦ absurd (cc (x.0, e))
                | inr (inr x) ↦ inr x
              ]),
        ),
      )
]

rank_of-lt : (d : Str) → rank_of d < 3
unfolding rank_of depth_rank_index index_from
rank_of-lt d = ground arith

Allows-lt : (k : ℕ) (granted : List GrantedScope) (tag : Str) → Allows k granted tag → k < 3
Allows-lt k [] tag a = absurd a
Allows-lt k (g ∷ granted) tag (inl a) = omega (arith, rank_of-lt g.depth)
Allows-lt k (g ∷ granted) tag (inr a) = Allows-lt k granted tag a

named : (n : ℕ) → n < 3 → (d : Str) × (depth_name n ≡ ok d) × (depth_rank d ≡ ok n)
unfolding depth_name depth_rank depth_rank_index index_from str_eq
named zero h = (summary, refl, refl)
named (suc zero) h = (facts_depth, refl, refl)
named (suc (suc zero)) h = (full, refl, refl)
named (suc (suc (suc n))) h = absurd (omega arith)

-- What a positive rank k of the result says, with the best rank so far.
abbrev Holds : ℕ → List GrantedScope → Option ℕ → List Str → Type 0
Holds k granted none tags = (tags ≢ []) × All (Allows k granted) tags
Holds k granted (some b) tags = (k ≤ b) × All (Allows k granted) tags

abbrev Small : Option ℕ → Type 0
Small none = Unit
Small (some b) = b < 3

-- The depth that comes out, its rank, and what each positive rank at most it says.
abbrev Reads : List GrantedScope → Option ℕ → List Str → Result StoreError Str → Type 0
Reads granted best tags res =
    (d : Str) × (n : ℕ) × (res ≡ ok d)
    × (depth_rank d ≡ ok n)
    × ((k : ℕ) → 0 < k → (k ≤ n) ↔ Holds k granted best tags)

lower_to-le : (k r b : ℕ) → (k ≤ lower_to r (some b)) ↔ ((k ≤ r) × (k ≤ b))
unfolding lower_to
lower_to-le k r b = ((λ h. ground arith), λ h. ground arith)

lower_to-Small : (r : ℕ) (best : Option ℕ) → r < 3 → lower_to r best < 3
unfolding lower_to
lower_to-Small r best h = ground arith

Holds-cons :
    (k rank : ℕ) (granted : List GrantedScope) (best : Option ℕ) (tag : Str) (tags : List Str)
    → (k ≤ rank) ↔ Allows k granted tag
    → Holds k granted (some (lower_to rank best)) tags ↔ Holds k granted best (tag ∷ tags)
unfolding lower_to
Holds-cons k rank granted none tag tags iff =
    ((λ h. ((λ e. cc e), (iff.0 h.0, h.1))), λ h. (iff.1 h.1.0, h.1.1))
Holds-cons k rank granted (some b) tag tags iff =
    let low = lower_to-le k rank b in
    ((λ h. ((low.0 h.0).1, (iff.0 (low.0 h.0).0, h.1))), λ h. (low.1 (iff.1 h.1.0, h.0), h.1.1))

no_tag-Holds :
    (k : ℕ) (granted : List GrantedScope) (best : Option ℕ) (tag : Str) (tags : List Str)
    → Holds k granted best (tag ∷ tags)
    → Allows k granted tag
no_tag-Holds k granted none tag tags h = h.1.0
no_tag-Holds k granted (some b) tag tags h = h.1.0

ranked_step :
    (tag : Str) (tags : List Str) (granted : List GrantedScope) (best : Option ℕ) (found : Option ℕ)
    → tag_rank tag granted none ≡ ok found
    → ((k : ℕ) → AtLeast k found ↔ (⊥ ⊎ Allows k granted tag))
    → ((best' : Option ℕ) → Small best' → Reads granted best' tags (least_rank tags granted best'))
    → Reads granted best (tag ∷ tags) (least_rank (tag ∷ tags) granted best)
unfolding least_rank depth_rank depth_rank_index index_from str_eq
ranked_step tag tags granted best none eq iff rec = (
  summary,
  0,
  rw eq,
  refl,
  λ k pos. (
    (λ le. absurd (omega arith)),
    λ x. absurd ((iff k).1 (inr (no_tag-Holds k granted best tag tags x))),
  ),
)
ranked_step tag tags granted best (some rank) eq iff rec =
    let small = Allows-lt rank granted tag (right ((iff rank).0 (omega arith))) in
    let (d, n, res, name, reads) =
      rec (some (lower_to rank best)) (lower_to-Small rank best small) in
    (
      d,
      n,
      rw eq res,
      name,
      λ k pos.
          let step =
            Holds-cons k rank granted best tag tags
              ((λ a. right ((iff k).0 a)), λ a. (iff k).1 (inr a)) in
          ((λ le. step.0 ((reads k pos).0 le)), λ x. (reads k pos).1 (step.1 x)),
    )
  where
    right : {A : Type 0} → ⊥ ⊎ A → A
    right (inl x) = absurd x
    right (inr a) = a

summary_rank : depth_rank summary ≡ ok 0
unfolding depth_rank depth_rank_index index_from str_eq
summary_rank = refl

least_rank_lem :
    (tags : List Str) (granted : List GrantedScope) (best : Option ℕ)
    → AllRanked granted
    → Small best
    → Reads granted best tags (least_rank tags granted best)
unfolding least_rank
least_rank_lem [] granted none h b = (
  summary,
  0,
  refl,
  summary_rank,
  λ k pos. ((λ le. absurd (omega arith)), λ x. absurd (x.0 refl)),
)
least_rank_lem [] granted (some n) h b =
    let (d, name, rank) = named n b in (d, n, name, rank, λ k pos. ((λ le. (le, tt)), λ x. x.0))
least_rank_lem (tag ∷ tags) granted best h b =
    let (found, eq, iff) = tag_rank_lem tag granted none h in
    ranked_step tag tags granted best found eq iff
      (λ best' b'. least_rank_lem tags granted best' h b')

-- With every granted depth in the vocabulary, a fact's depth is computed, and for each rank k above
-- summary's it is at least k exactly when the fact has a tag and every tag of it is covered by
-- some grant of rank k or more.
pub effective_depth_iff :
    (tags : List Str) (granted : List GrantedScope)
    → AllRanked granted
    → (d : Str) × (n : ℕ) × (effective_depth tags granted ≡ ok d)
      × (depth_rank d ≡ ok n)
      × ((k : ℕ) → 0 < k → (k ≤ n) ↔ ((tags ≢ []) × All (Allows k granted) tags))
unfolding effective_depth
effective_depth_iff tags granted h = least_rank_lem tags granted none h tt
