-- ===== src/Store/Diffs/Disclosure.antt =====
-- What a proposer is told of the fact that a proposal resembles.
use chuvar.Prelude.{
  Str, ◌≡◌, ◌≢◌, refl, ◌⊎◌, inl, inr, Option, none, some, List, [], arith, ok, All, Bool-cases,
  str_eq,
}
use chuvar.Store.Types.{RowId, GrantedScope, DedupeDisclosure, novel, needs_review, summary}
use chuvar.Store.Depth.Effective.{AllRanked, Allows, effective_depth_iff}
use chuvar.Store.Facts.Search.{summary_iff}
use chuvar.Store.Diffs.{DedupeMatch, disclosure_for_proposer}

-- The matched fact has a scope, and each is covered by a grant deeper than summary.
abbrev pub MayKnow : List GrantedScope → List Str → Type 0
MayKnow granted scopes = (scopes ≢ []) × All (Allows 1 granted) scopes

-- Every granted depth being in the vocabulary: with no match the proposer reads "novel". With a
-- match the proposer reads the verdict and the fact exactly if grants deeper than summary cover all
-- the fact's scopes, and otherwise only that a review is needed, the same whatever fact matched and
-- how.
pub disclosure_lem :
    (m : DedupeMatch) (granted : List GrantedScope)
    → AllRanked granted
    → (d : DedupeDisclosure) × (disclosure_for_proposer m granted ≡ ok d)
      × (((m.candidate ≡ none) × (d ≡ record { verdict = novel; candidate_fact_id = none }))
          ⊎ ((id : RowId) × (m.candidate ≡ some id)
              × ((MayKnow granted m.candidate_scopes
                    × (d ≡ record { verdict = m.verdict; candidate_fact_id = some id }))
                  ⊎ ((¬ MayKnow granted m.candidate_scopes)
                      × (d ≡ record { verdict = needs_review; candidate_fact_id = none })))))
unfolding disclosure_for_proposer
disclosure_lem m granted ranked = by_candidate m.candidate refl
  where
    by_candidate :
        (c : Option RowId)
        → m.candidate ≡ c
        → (d : DedupeDisclosure) × (disclosure_for_proposer m granted ≡ ok d)
          × (((m.candidate ≡ none) × (d ≡ record { verdict = novel; candidate_fact_id = none }))
              ⊎ ((id : RowId) × (m.candidate ≡ some id)
                  × ((MayKnow granted m.candidate_scopes
                        × (d ≡ record { verdict = m.verdict; candidate_fact_id = some id }))
                      ⊎ ((¬ MayKnow granted m.candidate_scopes)
                          × (d ≡ record { verdict = needs_review; candidate_fact_id = none })))))
    by_candidate none e =
        (record { verdict = novel; candidate_fact_id = none }, ground arith, inl (e, refl))
    by_candidate (some id) e =
        let (depth, n, eq, rank, iff) = effective_depth_iff m.candidate_scopes granted ranked in
        elim (Bool-cases (str_eq depth summary)) [
          | inl s ↦ (
            record { verdict = needs_review; candidate_fact_id = none },
            ground arith,
            inr (
              id,
              e,
              inr (
                (λ a. absurd (ground (arith, (iff 1 (omega arith)).1 a, summary_iff depth n rank))),
                refl,
              ),
            ),
          )
          | inr s ↦ (
            record { verdict = m.verdict; candidate_fact_id = some id },
            ground arith,
            inr (
              id,
              e,
              inl ((iff 1 (omega arith)).0 (ground (arith, summary_iff depth n rank)), refl),
            ),
          )
        ]
