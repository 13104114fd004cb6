-- ===== src/Store/Tests/Reading.antt =====
-- The theorems on facts and staged diffs at concrete inputs.
use chuvar.Prelude.{
  ℕ, codes, ◌≡◌, ◌≤◌, ◌&&◌, refl, none, some, List, [], ◌∷◌, ok, not, is_empty, length, all, Elem,
  All, str_eq, cut, split_on,
}
use chuvar.Scope.{
  validate_memory, validate, validate_segments, segment_pattern, is_segment_byte, split, any_covers,
}
use chuvar.Store.Depth.{depth_rank, depth_rank_index, index_from, effective_depth}
use chuvar.Store.Depth.Effective.{AllRanked, effective_depth_iff, rank_of}
use chuvar.Store.Tables.{find, update_where, ◌>>=◌, transaction}
use chuvar.Store.Audit.{log_audit}
use chuvar.Store.Types.{Db, duplicate}
use chuvar.Store.Grants.{list_grant_scopes}
use chuvar.Store.Facts.{fact_tags, to_vector_param, tags_visible, validate_memory_fact_scopes}
use chuvar.Store.Facts.Visibility.{IsUntargeted, tags_visible-all_covered}
use chuvar.Store.Facts.Search.{search_facts_lem}
use chuvar.Store.Diffs.{
  DedupeMatch, disclosure_for_proposer, commit_diff, commit_loaded, has_active_duplicate_content,
  new_fact, insert_fact_scopes, supersede_target, committed_fact,
}
use chuvar.Store.Diffs.Disclosure.{disclosure_lem}
use chuvar.Store.Diffs.Commit.{commit_diff_lem}
use chuvar.Store.Fixtures.{
  postgres_like, engine, at_1000, bob, identity, name_scope, stored_diff, db, held,
}

held-AllRanked : AllRanked held
unfolding depth_rank_index index_from str_eq depth_rank rank_of
held-AllRanked = (refl, tt)

tags_visible-all_covered_example :
    tags_visible postgres_like (identity ∷ []) (name_scope ∷ [])
    ≡ (not (is_empty (name_scope ∷ [])) && all (any_covers (identity ∷ [])) (name_scope ∷ []))
unfolding cut split
tags_visible-all_covered_example =
    tags_visible-all_covered postgres_like (identity ∷ []) (name_scope ∷ []) (refl, tt) (refl, tt)

effective_depth_iff_example :
    effective_depth (name_scope ∷ []) held
    ≡ ok (effective_depth_iff (name_scope ∷ []) held held-AllRanked).0
effective_depth_iff_example = (effective_depth_iff (name_scope ∷ []) held held-AllRanked).2

all_untargeted : All IsUntargeted (identity ∷ []) × All IsUntargeted (name_scope ∷ [])
unfolding cut split
all_untargeted = ((refl, tt), (refl, tt))

stored_tags : All (λ f. All IsUntargeted (fact_tags engine db f)) db.facts
unfolding list_grant_scopes
stored_tags = (all_untargeted.1, tt)

no_vector : to_vector_param engine [] ≡ ok none
unfolding to_vector_param
no_vector = refl

search_facts_lem_example :
    length
      (search_facts_lem engine db held held-AllRanked all_untargeted.0 stored_tags
        (codes "tea")
        []
        5
        none
        no_vector).0
    ≤ 5
search_facts_lem_example =
    (search_facts_lem engine db held held-AllRanked all_untargeted.0 stored_tags (codes "tea") [] 5
      none no_vector).2

abbrev a_match : DedupeMatch
a_match = record { verdict = duplicate; candidate = some 7; candidate_scopes = name_scope ∷ [] }

disclosure_lem_example :
    disclosure_for_proposer a_match held ≡ ok (disclosure_lem a_match held held-AllRanked).0
disclosure_lem_example = (disclosure_lem a_match held held-AllRanked).1

abbrev after_commit : Db (List ℕ)
after_commit = (commit_diff engine at_1000 5 bob [] [] db).1

committed_run :
    commit_diff engine at_1000 5 bob [] [] db
    ≡ (ok (committed_fact at_1000 stored_diff), after_commit)
unfolding commit_diff commit_loaded has_active_duplicate_content new_fact insert_fact_scopes
    supersede_target to_vector_param validate_memory_fact_scopes validate_memory validate
    validate_segments segment_pattern is_segment_byte split cut split_on str_eq find update_where
    ◌>>=◌ transaction log_audit
committed_run = refl

commit_diff_lem_example :
    Elem
      (commit_diff_lem engine at_1000 5 bob [] [] db after_commit
        (committed_fact at_1000 stored_diff)
        committed_run).0
      db.staged_diffs
commit_diff_lem_example =
    (commit_diff_lem engine at_1000 5 bob [] [] db after_commit (committed_fact at_1000 stored_diff)
      committed_run).2
