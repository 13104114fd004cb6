-- ===== src/Store/Facts.antt =====
-- backend/internal/store/facts.go with its queries (sqlcgen/facts.sql.go): which facts the SQL shows
-- to a holder of scopes, and what of each fact a search returns.
--
-- LIKE, the text and vector ranking and pgvector's vectors are not the repository's code: `Like` and
-- `Engine` are records of what the queries use of them.
pub mod Visibility
pub mod Search
use mathlib.Core.Option
use chuvar.Prelude.{
  ℕ, ◌≤◌, Str, codes, Bool, true, false, not, ◌≡◌, ◌&&◌, ◌||◌, Option, none, some, List, [], ◌∷◌,
  ◌++◌, Result, ok, err, ◌>>=◌, map, is_empty, length, take, any, all, keep_if, str_eq, ltb, ◌==◌,
  if◌then◌else◌, Elem,
}
use chuvar.Scope.{validate_memory}
use chuvar.Store.Types.{
  RowId, Fact, FactRow, FactProvenance, GrantedScope, StagedDiff, Db, StoreError, invalid_scope,
  invalid_embedding, summary, full,
}
use chuvar.Store.Tables.{find}
use chuvar.Store.Grants.{list_grant_scopes, is_null}
use chuvar.Store.Depth.{effective_depth}

-- The bytes that a LIKE pattern gives a meaning.
unfoldable pub is_special : ℕ → Bool
is_special c = c == b'\\' || c == b'_' || c == b'%'

-- What Postgres documents of LIKE, for patterns of literal bytes, escaped bytes and a last %.
pub record Like : Type 0 where
  pub like : Str → Str → Bool
  pub percent : (s : Str) → like s (codes "%") ≡ true
  pub literal :
      (d c : ℕ) (s p : Str) → is_special c ≡ false → like (d ∷ s) (c ∷ p) ≡ ((d == c) && like s p)
  pub literal_end : (c : ℕ) (p : Str) → is_special c ≡ false → like [] (c ∷ p) ≡ false
  pub escaped : (d c : ℕ) (s p : Str) → like (d ∷ s) (b'\\' ∷ c ∷ p) ≡ ((d == c) && like s p)
  pub escaped_end : (c : ℕ) (p : Str) → like [] (b'\\' ∷ c ∷ p) ≡ false

-- likeEscaper.Replace
unfoldable pub like_escape : Str → Str
like_escape [] = []
like_escape (c ∷ s) =
    let rest = like_escape s in if is_special c then b'\\' ∷ c ∷ rest else c ∷ rest

unfoldable pub scope_prefixes : List Str → List Str
unfolding like_escape
scope_prefixes = map (λ g. like_escape g ++ codes ".%")

-- fs.scope = ANY(granted_scopes) OR fs.scope LIKE ANY(scope_prefixes)
unfoldable pub tag_visible : Like → List Str → Str → Bool
tag_visible l granted tag = any (str_eq tag) granted || any (l.like tag) (scope_prefixes granted)

-- The fact has a scope, and none that the grants leave uncovered.
unfoldable pub tags_visible : Like → List Str → List Str → Bool
tags_visible l granted tags = not (is_empty tags) && all (tag_visible l granted) tags

unfoldable pub validate_memory_fact_scopes : List Str → Result StoreError (Unit {0})
validate_memory_fact_scopes [] = ok tt
validate_memory_fact_scopes (s ∷ scopes) =
    let rest = validate_memory_fact_scopes scopes in
    elim (validate_memory s) [ ok _ ↦ rest | err _ ↦ err invalid_scope ]

abbrev pub embedding_dim : ℕ
embedding_dim = 384

-- What the queries use of pgvector and of the ranking functions. F is float32.
pub record Engine (F V : Type 0) : Type 0 where
  pub like : Like
  pub new_vector : List F → V
  -- the rows that match the query, best first
  pub rank : Str → Option V → List (FactRow V) → List (FactRow V)
  pub rank_selects :
      (q : Str) (e : Option V) (rows : List (FactRow V)) (r : FactRow V)
      → Elem r (rank q e rows)
      → Elem r rows
  -- the row at the least cosine distance, and whether that is below the threshold
  pub nearest : V → List (FactRow V) → Option (FactRow V × Bool)
  pub nearest_selects :
      (v : V) (rows : List (FactRow V)) (r : FactRow V) (close : Bool)
      → nearest v rows ≡ some (r, close)
      → Elem r rows

module _ {F V : Type 0} (engine : Engine F V) where
  -- toVectorParam
  unfoldable pub to_vector_param : List F → Result StoreError (Option V)
  to_vector_param [] = ok none
  to_vector_param (x ∷ xs) =
      if length (x ∷ xs) == embedding_dim
      then ok (some (engine.new_vector (x ∷ xs)))
      else err invalid_embedding

  -- The scopes of a fact: array_agg over fact_scopes.
  abbrev pub fact_tags : Db V → FactRow V → List Str
  fact_tags db f = list_grant_scopes f.id db.fact_scopes

  -- candidate_facts: active facts all of whose scopes are covered
  unfoldable pub is_candidate : List Str → Db V → FactRow V → Bool
  is_candidate granted db f =
      is_null f.invalid_at && tags_visible engine.like granted (fact_tags db f)

  -- factVisibleToScopes
  unfoldable pub fact_visible_to_scopes : Db V → RowId → List Str → Bool
  fact_visible_to_scopes db id granted =
      if is_empty granted
      then false
      else any (λ f. f.id == id && is_candidate granted db f) db.facts

  -- LEFT JOIN staged_diffs sd ON sd.id = f.source_staged_diff_id
  unfoldable pub provenance_of : Db V → FactRow V → FactProvenance
  provenance_of db f =
      let diff = find (λ d. d.id == f.source_staged_diff_id) db.staged_diffs in
      record {
        source_staged_diff_id = f.source_staged_diff_id;
        decided_by = Option.bind diff (λ d. d.decided_by);
        decided_at = Option.bind diff (λ d. d.decided_at);
        superseded_by = f.superseded_by;
        invalid_at = f.invalid_at;
        expired_at = f.expired_at;
      }

  -- The body of the loop of SearchFacts, at the depth that was computed for the row.
  unfoldable pub read_at : Db V → FactRow V → Str → Fact
  read_at db f depth = record {
    id = f.id;
    content = if str_eq depth summary then [] else f.content;
    summary = if str_eq depth summary then elim f.summary [ none ↦ [] | some s ↦ s ] else [];
    depth = depth;
    scopes = fact_tags db f;
    created_at = f.created_at;
    valid_at = f.valid_at;
    provenance = if str_eq depth full then some (provenance_of db f) else none;
  }

  unfoldable pub read_rows :
      Db V → List GrantedScope → List (FactRow V) → Result StoreError (List Fact)
  read_rows db granted [] = ok []
  read_rows db granted (f ∷ rows) = do
    depth ← effective_depth (fact_tags db f) granted
    facts ← read_rows db granted rows
    ok (read_at db f depth ∷ facts)

  -- SearchFacts
  unfoldable pub search_facts :
      Str → List F → List GrantedScope → ℕ → Db V → Result StoreError (List Fact)
  search_facts query_text query_embedding granted limit db = if is_empty granted then ok [] else do
    emb ← to_vector_param query_embedding
    read_rows db granted (
        take (if ltb 0 limit then limit else 20) (
          engine.rank query_text emb
            (keep_if (is_candidate (map (λ g. g.scope) granted) db) db.facts)))
