-- ===== src/Store/Diffs/Commit.antt =====
-- What a commit writes, and that a diff is decided once.
use chuvar.Prelude.{
  Str, codes, false, ◌≡◌, refl, ap, subst, ◌∙◌, Option, none, some, List, [], ◌∷◌, ◌++◌, arith, ok,
  err, map, is_empty, All, Elem, ==→eq, if◌then◌else◌, ◌==◌, not-true, append-nil, append_assoc,
}
use chuvar.Scope.{validate_memory}
use chuvar.Store.Types.{
  RowId, Context, Fact, FactRow, StagedDiff, DiffStatus, Db, not_found, summary,
}
use chuvar.Store.Tables.{
  update_where, find, find-Elem, transaction-ok, pure-ok, >>=-ok, lift-ok, gets-ok, modify-ok,
  check-ok, modify-last,
}
use chuvar.Store.Audit.{no_subjects, audit_row, log_audit}
use chuvar.Store.Grants.{scope_row}
use chuvar.Store.Facts.{Engine, validate_memory_fact_scopes}
use chuvar.Store.Diffs.{
  commit_row, supersede_row, has_active_duplicate_content, new_fact, insert_fact_scopes,
  supersede_target, committed_fact, commit_loaded, commit_diff,
}

abbrev pub AllMemory : List Str → Type 0
AllMemory = All (λ s. validate_memory s ≡ ok tt)

pub fact_scopes-AllMemory :
    (scopes : List Str) → validate_memory_fact_scopes scopes ≡ ok tt → AllMemory scopes
unfolding validate_memory_fact_scopes
fact_scopes-AllMemory [] h = tt
fact_scopes-AllMemory (s ∷ scopes) h = (ground arith, fact_scopes-AllMemory scopes (ground arith))

pub insert_fact_scopes_lem :
    {V : Type 0} (id : RowId) (scopes : List Str) (db db' : Db V)
    → insert_fact_scopes id scopes db ≡ ok (tt, db')
    → db' ≡ record db { fact_scopes = db.fact_scopes ++ map (scope_row id) scopes }
unfolding insert_fact_scopes
insert_fact_scopes_lem id [] db db' h = ground (arith, append-nil db.fact_scopes)
insert_fact_scopes_lem id (s ∷ scopes) db db' h = ground (
  arith,
  insert_fact_scopes_lem id scopes
      (record db { fact_scopes = db.fact_scopes ++ scope_row id s ∷ [] }) db',
  append_assoc db.fact_scopes (scope_row id s ∷ []) (map (scope_row id) scopes),
)

-- The facts once the target of the diff, if it has one, has been superseded.
abbrev pub superseded : {V : Type 0} → Context → Option RowId → List (FactRow V) → List (FactRow V)
superseded ctx none facts = facts
superseded ctx (some target) facts =
    update_where (λ f. f.id == target) (supersede_row ctx ctx.db_now ctx.new_id) facts

-- The target, if there is one, is an active fact.
abbrev pub ActiveTarget : {V : Type 0} → Option RowId → List (FactRow V) → Type 0
ActiveTarget none facts = Unit
ActiveTarget {V = V} (some target) facts =
    (f : FactRow V) × (find (λ f. f.id == target) facts ≡ some f) × (f.invalid_at ≡ none)

loaded :
    {A : Type 0} (found : Option A) (a : A)
    → (elim found [ none ↦ err not_found | some x ↦ ok x ]) ≡ ok a
    → found ≡ some a
loaded none a h = absurd (cc h)
loaded (some x) a h = ground arith

supersede_target_lem :
    {V : Type 0} (ctx : Context) (target : Option RowId) (db db' : Db V)
    → supersede_target ctx target db ≡ ok (tt, db')
    → ActiveTarget target db.facts × (db' ≡ record db { facts = superseded ctx target db.facts })
unfolding supersede_target
supersede_target_lem ctx none db db' h = (tt, (pure-ok _ _ _ _ h).1)
supersede_target_lem ctx (some target) db db' h =
    let (f, found, h₁) = lift-ok _ _ _ _ (gets-ok _ _ _ _ h) in
    let (live, h₂) = check-ok _ _ _ _ _ h₁ in
    ((f, loaded _ f found, ground arith), modify-last _ _ _ _ h₂)

module _ {F V : Type 0} (engine : Engine F V) where
  -- The fact that a commit inserts.
  abbrev pub fact_of : Context → RowId → StagedDiff → Str → Option V → FactRow V
  fact_of ctx id d summary emb =
      new_fact ctx (record d { id = id }) (if is_empty summary then none else some summary) emb

  -- The statements of a commit, as one change.
  commit_steps :
      (ctx : Context) (id : RowId) (by : Str) (d : StagedDiff) (fact : FactRow V)
      (db db₁ db₂ db₃ db' : Db V)
      → db₁ ≡ record db { facts = db.facts ++ fact ∷ [] }
      → db₂ ≡ record db₁ {
        fact_scopes = db₁.fact_scopes ++ map (scope_row ctx.new_id) d.proposed_scopes;
      }
      → db₃ ≡ record db₂ { facts = superseded ctx d.target_fact_id db₂.facts }
      → db' ≡ record db₃ {
        staged_diffs = update_where (λ d. d.id == id) (commit_row ctx by) db₃.staged_diffs;
        audit_log =
            db₃.audit_log
            ++ audit_row ctx
                (codes "diff_committed")
                by
                (record no_subjects { fact_id = some ctx.new_id; staged_diff_id = some id })
                d.proposed_scopes
                none
              ∷ [];
      }
      → (ActiveTarget d.target_fact_id db₂.facts
          → ActiveTarget d.target_fact_id (db.facts ++ fact ∷ []))
        × (db' ≡ record db {
          facts = superseded ctx d.target_fact_id (db.facts ++ fact ∷ []);
          fact_scopes = db.fact_scopes ++ map (scope_row ctx.new_id) d.proposed_scopes;
          staged_diffs = update_where (λ d. d.id == id) (commit_row ctx by) db.staged_diffs;
          audit_log =
              db.audit_log
              ++ audit_row ctx
                  (codes "diff_committed")
                  by
                  (record no_subjects { fact_id = some ctx.new_id; staged_diff_id = some id })
                  d.proposed_scopes
                  none
                ∷ [];
        })
  commit_steps ctx id by d fact db db₁ db₂ db₃ db' e₁ e₂ e₃ e₄ = (
    (λ a.
        subst (λ x. ActiveTarget d.target_fact_id x.facts)
          (e₂
            ∙ ap {A = Db V} {B = Db V}
                (λ x. record x {
                  fact_scopes = x.fact_scopes ++ map (scope_row ctx.new_id) d.proposed_scopes;
                })
                e₁)
          a),
    rw (e₄, e₃, e₂, e₁),
  )

  -- A successful commit takes a pending diff of the id, whose scopes are all valid memory scopes and whose
  -- content no other active fact has (its target apart). It adds one fact with the diff's content
  -- and scopes and the diff as its source, supersedes the diff's target, which was active, marks
  -- the diff committed, adds one audit row, and changes nothing else.
  pub commit_diff_lem :
      (ctx : Context) (id : RowId) (by : Str) (embedding : List F) (summary : Str) (db db' : Db V)
      (fact : Fact)
      → commit_diff engine ctx id by embedding summary db ≡ (ok fact, db')
      → (d : StagedDiff) × (emb : Option V) × Elem d db.staged_diffs
        × (d.id ≡ id)
        × (d.status ≡ DiffStatus.pending)
        × AllMemory d.proposed_scopes
        × (has_active_duplicate_content d.content d.target_fact_id db ≡ false)
        × ActiveTarget d.target_fact_id (db.facts ++ fact_of ctx id d summary emb ∷ [])
        × (fact ≡ committed_fact ctx d)
        × (db' ≡ record db {
          facts = superseded ctx d.target_fact_id (db.facts ++ fact_of ctx id d summary emb ∷ []);
          fact_scopes = db.fact_scopes ++ map (scope_row ctx.new_id) d.proposed_scopes;
          staged_diffs = update_where (λ d. d.id == id) (commit_row ctx by) db.staged_diffs;
          audit_log =
              db.audit_log
              ++ audit_row ctx
                  (codes "diff_committed")
                  by
                  (record no_subjects { fact_id = some ctx.new_id; staged_diff_id = some id })
                  d.proposed_scopes
                  none
                ∷ [];
        })
  unfolding commit_diff commit_loaded log_audit
  commit_diff_lem ctx id by embedding summary db db' fact h =
      let (d, found, h₁) = lift-ok _ _ _ _ (gets-ok _ _ _ _ (transaction-ok _ _ _ _ h)) in
      let (waits, h₂) = check-ok _ _ _ _ _ h₁ in
      let (unique, h₃) = check-ok _ _ _ _ _ (gets-ok _ _ _ _ h₂) in
      let (emb, _, h₄) = lift-ok _ _ _ _ h₃ in
      let (_, fits, h₅) = lift-ok _ _ _ _ h₄ in
      let (_, h₆) = check-ok _ _ _ _ _ (gets-ok _ _ _ _ h₅) in
      let (_, db₂, scoped, h₇) = >>=-ok _ _ _ _ (modify-ok _ _ _ _ h₆) in
      let (_, db₃, replaced, h₈) = >>=-ok _ _ _ _ h₇ in
      let (eq, final) = pure-ok _ _ _ _ (modify-ok _ _ _ _ (modify-ok _ _ _ _ h₈)) in
      let (target, swapped) = supersede_target_lem ctx d.target_fact_id db₂ db₃ replaced in
      let (there, same) = find-Elem _ _ d (loaded _ d found) in
      let (active, change) =
        commit_steps ctx id by d (fact_of ctx id d summary emb) db _ db₂ db₃ db' refl
          (insert_fact_scopes_lem ctx.new_id d.proposed_scopes _ db₂ scoped) swapped final in
      (
        d,
        emb,
        there,
        ==→eq d.id id same,
        ground arith,
        fact_scopes-AllMemory d.proposed_scopes fits,
        not-true _ unique,
        active target,
        eq,
        change,
      )
