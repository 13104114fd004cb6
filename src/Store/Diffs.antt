-- ===== src/Store/Diffs.antt =====
-- backend/internal/store/staged_diffs.go with its queries (sqlcgen/staged_diffs.sql.go): agents stage
-- diffs, and only a reviewer's commit of a pending diff writes a fact.
pub mod Disclosure
pub mod Commit
use mathlib.Core.Option
use chuvar.Prelude.{
  ℕ, ◌≤◌, Str, codes, Bool, true, false, not, ◌≡◌, ◌&&◌, ◌||◌, Option, none, some, List, [], ◌∷◌,
  ◌++◌, Result, ok, err, map, is_empty, any, keep_if, str_eq, ltb, ◌==◌, if◌then◌else◌,
}
use chuvar.Store.Types.{
  RowId, Time, Context, Fact, FactRow, GrantedScope, StagedDiff, DiffStatus, DedupeVerdict,
  DedupeDisclosure, Db, StoreError, ScopeRow, novel, duplicate, contradiction, needs_review,
  summary, no_scopes, empty_content, unique_violation, not_found, not_pending, duplicate_content,
  already_superseded, target_not_visible,
}
use chuvar.Store.Tables.{
  Tx, pure, lift, gets, modify, check, ◌>>=◌, ◌>>◌, transaction, find, update_where, count_where,
}
use chuvar.Store.Audit.{no_subjects, log_audit}
use chuvar.Store.Grants.{is_null, scope_row}
use chuvar.Store.Depth.{effective_depth}
use chuvar.Store.Facts.{
  Engine, to_vector_param, fact_tags, is_candidate, fact_visible_to_scopes,
  validate_memory_fact_scopes,
}

abbrev pub is_pending : DiffStatus → Bool
is_pending DiffStatus.pending = true
is_pending _ = false

-- grantedScopeStrings
unfoldable pub granted_scope_strings : List GrantedScope → List Str
granted_scope_strings = map (λ g. g.scope)

-- The verdict of the search, with the fact that it matched and that fact's scopes.
pub record DedupeMatch : Type 0 where
  pub verdict : DedupeVerdict
  pub candidate : Option RowId
  pub candidate_scopes : List Str

abbrev no_match : DedupeMatch
no_match = record { verdict = novel; candidate = none; candidate_scopes = [] }

-- disclosureForProposer: a proposer who reads the match at summary depth is told neither the
-- verdict nor the fact.
unfoldable pub disclosure_for_proposer :
    DedupeMatch → List GrantedScope → Result StoreError DedupeDisclosure
disclosure_for_proposer m granted = elim m.candidate [
  | none ↦ ok (record { verdict = novel; candidate_fact_id = none })
  | some id ↦ elim (effective_depth m.candidate_scopes granted) [
    | err e ↦ err e
    | ok depth ↦
        if not (str_eq depth summary)
        then ok (record { verdict = m.verdict; candidate_fact_id = some id })
        else ok (record { verdict = needs_review; candidate_fact_id = none })
  ]
]

unfoldable pub new_diff : Context → Str → Str → List Str → Option RowId → DedupeMatch → StagedDiff
new_diff ctx subject content scopes target m = record {
  id = ctx.new_id;
  subject = subject;
  content = content;
  proposed_scopes = scopes;
  target_fact_id = target;
  status = DiffStatus.pending;
  dedupe_verdict = some m.verdict;
  dedupe_candidate_fact_id = m.candidate;
  created_at = ctx.db_now;
  decided_at = none;
  decided_by = none;
}

-- WHERE id = $1 AND status = 'pending'
unfoldable pub decidable : RowId → StagedDiff → Bool
decidable id d = d.id == id && is_pending d.status

unfoldable pub reject_row : Context → Str → StagedDiff → StagedDiff
reject_row ctx decided_by d = record d {
  status = DiffStatus.rejected;
  decided_at = some ctx.db_now;
  decided_by = some decided_by;
}

unfoldable pub commit_row : Context → Str → StagedDiff → StagedDiff
commit_row ctx decided_by d = record d {
  status = DiffStatus.committed;
  decided_at = some ctx.db_now;
  decided_by = some decided_by;
}

unfoldable pub supersede_row : {V : Type 0} → Context → Time → RowId → FactRow V → FactRow V
supersede_row ctx invalid_at by f = record f {
  invalid_at = some invalid_at;
  expired_at = some ctx.db_now;
  superseded_by = some by;
}

unfoldable pub committed_fact : Context → StagedDiff → Fact
committed_fact ctx d = record {
  id = ctx.new_id;
  content = d.content;
  summary = [];
  depth = [];
  scopes = d.proposed_scopes;
  created_at = ctx.db_now;
  valid_at = ctx.db_now;
  provenance = none;
}

module _ {V : Type 0} where
  -- HasActiveDuplicateContent
  unfoldable pub has_active_duplicate_content : Str → Option RowId → Db V → Bool
  has_active_duplicate_content content exclude db =
      any
        (λ f.
          is_null f.invalid_at
          && str_eq f.content content
          && elim exclude [ none ↦ true | some id ↦ not (f.id == id) ])
        db.facts

  -- InsertFact
  unfoldable pub new_fact : Context → StagedDiff → Option Str → Option V → FactRow V
  new_fact ctx d summary emb = record {
    id = ctx.new_id;
    content = d.content;
    summary = summary;
    embedding = emb;
    source_staged_diff_id = d.id;
    created_at = ctx.db_now;
    valid_at = ctx.db_now;
    invalid_at = none;
    expired_at = none;
    superseded_by = none;
  }

  -- InsertFactScope, for each scope; the primary key is the pair.
  unfoldable pub insert_fact_scopes : RowId → List Str → Tx V (Unit {0})
  insert_fact_scopes id [] db = ok (tt, db)
  insert_fact_scopes id (s ∷ scopes) db =
      let rest =
        insert_fact_scopes id scopes
          (record db { fact_scopes = db.fact_scopes ++ scope_row id s ∷ [] }) in
      if any (λ r. r.owner == id && str_eq r.scope s) db.fact_scopes
      then err unique_violation
      else rest

  -- LockTargetFact and SupersedeFact, where the diff names a target
  unfoldable pub supersede_target : Context → Option RowId → Tx V (Unit {0})
  supersede_target ctx none = pure tt
  supersede_target ctx (some target) = do
    found ← gets (λ db. find (λ f. f.id == target) db.facts)
    f ← lift (elim found [ none ↦ err not_found | some f ↦ ok f ])
    check (is_null f.invalid_at) already_superseded
    modify (λ db. record db {
      facts = update_where (λ f. f.id == target) (supersede_row ctx ctx.db_now ctx.new_id) db.facts;
    })

module _ {F V : Type 0} (engine : Engine F V) where
  -- findDedupeCandidate
  unfoldable pub find_dedupe_candidate :
      Str → List F → List Str → Db V → Result StoreError DedupeMatch
  find_dedupe_candidate content embedding granted db =
      if is_empty embedding || is_empty granted
      then ok no_match
      else elim (to_vector_param engine embedding) [
        | err e ↦ err e
        | ok none ↦ ok no_match
        | ok (some v) ↦
            elim (engine.nearest v (
              keep_if (λ f. not (is_null f.embedding) && is_candidate engine granted db f)
                db.facts)) [
                  | none ↦ ok no_match
                  | some (row, close) ↦
                      let found : DedupeVerdict → DedupeMatch = λ verdict. record {
                        verdict = verdict;
                        candidate = some row.id;
                        candidate_scopes = fact_tags engine db row;
                      } in
                      if str_eq row.content content
                      then ok (found duplicate)
                      else if close
                      then ok (found contradiction)
                      else ok no_match
                ]
      ]

  -- ProposeDiff
  unfoldable pub propose_diff :
      Context
      → Str
      → Str
      → List Str
      → List F
      → Option RowId
      → List GrantedScope
      → Db V
      → Result StoreError (StagedDiff × DedupeDisclosure) × Db V
  propose_diff ctx subject content scopes embedding target granted = transaction (do
    check (not (is_empty content)) empty_content
    check (not (is_empty scopes)) no_scopes
    lift (validate_memory_fact_scopes scopes)
    db ← gets (λ db. db)
    check
        (elim target [
          | none ↦ true
          | some id ↦ fact_visible_to_scopes engine db id (granted_scope_strings granted)
        ])
        target_not_visible
    m ← lift (find_dedupe_candidate content embedding (granted_scope_strings granted) db)
    disclosure ← lift (disclosure_for_proposer m granted)
    check (not (any (λ d. d.id == ctx.new_id) db.staged_diffs)) unique_violation
    modify (λ db. record db {
      staged_diffs = db.staged_diffs ++ new_diff ctx subject content scopes target m ∷ [];
    })
    pure (new_diff ctx subject content scopes target m, disclosure))

  -- CommitDiff, after the diff has been loaded for update
  unfoldable pub commit_loaded : Context → RowId → Str → List F → Str → StagedDiff → Tx V Fact
  commit_loaded ctx id decided_by embedding summary d = do
    check (is_pending d.status) not_pending
    dup ← gets (has_active_duplicate_content d.content d.target_fact_id)
    check (not dup) duplicate_content
    emb ← lift (to_vector_param engine embedding)
    lift (validate_memory_fact_scopes d.proposed_scopes)
    db ← gets (λ db. db)
    check (not (any (λ f. f.id == ctx.new_id) db.facts)) unique_violation
    modify (λ db. record db {
      facts =
          db.facts
          ++ new_fact ctx (record d { id = id }) (if is_empty summary then none else some summary)
              emb
            ∷ [];
    })
    insert_fact_scopes ctx.new_id d.proposed_scopes
    supersede_target ctx d.target_fact_id
    modify (λ db. record db {
      staged_diffs = update_where (λ d. d.id == id) (commit_row ctx decided_by) db.staged_diffs;
    })
    log_audit ctx (codes "diff_committed") decided_by
        (record no_subjects { fact_id = some ctx.new_id; staged_diff_id = some id })
        d.proposed_scopes none
    pure (committed_fact ctx d)

  -- CommitDiff
  unfoldable pub commit_diff :
      Context → RowId → Str → List F → Str → Db V → Result StoreError Fact × Db V
  commit_diff ctx id decided_by embedding summary = transaction (do
    found ← gets (λ db. find (λ d. d.id == id) db.staged_diffs)
    d ← lift (elim found [ none ↦ err not_found | some d ↦ ok d ])
    commit_loaded ctx id decided_by embedding summary d)

-- RejectDiff
unfoldable pub reject_diff :
    {V : Type 0} → Context → RowId → Str → Db V → Result StoreError (Unit {0}) × Db V
reject_diff ctx id decided_by = transaction (do
  rows ← gets (λ db. count_where (decidable id) db.staged_diffs)
  modify (λ db. record db {
    staged_diffs = update_where (decidable id) (reject_row ctx decided_by) db.staged_diffs;
  })
  check (ltb 0 rows) not_pending
  log_audit ctx (codes "diff_rejected") decided_by (record no_subjects { staged_diff_id = some id })
      [] none)
