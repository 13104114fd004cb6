-- ===== src/Store/Depth.antt =====
-- The closed vocabulary of depths (backend/internal/store/grants.go) and the depth at which a fact
-- is read (effectiveDepth, backend/internal/store/facts.go). Where the source computes with -1 for
-- "no rank", the model has `none`.
pub mod Effective
use chuvar.Prelude.{
  ℕ, zero, suc, ◌+◌, Str, Bool, true, false, Option, none, some, List, [], ◌∷◌, Result, ok, err,
  ◌>>=◌, str_eq, get_elem?, ltb, if◌then◌else◌,
}
use chuvar.Scope.{covers}
use chuvar.Store.Types.{
  GrantedScope, StoreError, invalid_depth, bad_rank, summary, facts_depth, full,
}

abbrev pub depth_order : List Str
depth_order = summary ∷ facts_depth ∷ full ∷ []

-- The position of a text in a list, counted from `i`.
unfoldable pub index_from : ℕ → Str → List Str → Option ℕ
index_from i depth [] = none
index_from i depth (d ∷ ds) =
    let rest = index_from (suc i) depth ds in if str_eq d depth then some i else rest

unfoldable pub depth_rank_index : Str → Option ℕ
depth_rank_index depth = index_from 0 depth depth_order

unfoldable pub valid_depth : Str → Bool
valid_depth depth = elim (depth_rank_index depth) [ some _ ↦ true | none ↦ false ]

unfoldable pub depth_rank : Str → Result StoreError ℕ
depth_rank depth = elim (depth_rank_index depth) [ some r ↦ ok r | none ↦ err invalid_depth ]

unfoldable pub depth_name : ℕ → Result StoreError Str
depth_name rank = elim (get_elem? depth_order rank) [ some d ↦ ok d | none ↦ err bad_rank ]

-- if r > tagRank { tagRank = r }
unfoldable pub raise_to : ℕ → Option ℕ → ℕ
raise_to r none = r
raise_to r (some tag_rank) = if ltb tag_rank r then r else tag_rank

-- The inner loop: the most permissive rank among the grants that cover the tag.
unfoldable pub tag_rank : Str → List GrantedScope → Option ℕ → Result StoreError (Option ℕ)
tag_rank tag [] best = ok best
tag_rank tag (g ∷ granted) best =
    let next = depth_rank g.depth >>= λ r. tag_rank tag granted (some (raise_to r best)) in
    let skip = tag_rank tag granted best in if covers g.scope tag then next else skip

-- if best == -1 || tagRank < best { best = tagRank }
unfoldable pub lower_to : ℕ → Option ℕ → ℕ
lower_to r none = r
lower_to r (some best) = if ltb r best then r else best

-- The outer loop: the least permissive of the tags' ranks; a tag that no grant covers ends it.
unfoldable pub least_rank : List Str → List GrantedScope → Option ℕ → Result StoreError Str
least_rank [] granted none = ok summary
least_rank [] granted (some best) = depth_name best
least_rank (tag ∷ tags) granted best = tag_rank tag granted none >>= λ r. elim r [
  | none ↦ ok summary
  | some rank ↦ least_rank tags granted (some (lower_to rank best))
]

unfoldable pub effective_depth : List Str → List GrantedScope → Result StoreError Str
unfolding least_rank
effective_depth fact_scopes granted = least_rank fact_scopes granted none
