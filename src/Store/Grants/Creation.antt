-- ===== src/Store/Grants/Creation.antt =====
-- What a created grant is: validated for its kind, stored with its scopes, and audited; a refusal
-- leaves the database as it was.
use mathlib.Core.Option
use chuvar.Prelude.{
  Str, codes, true, false, ◌≡◌, ◌≢◌, ap, ◌∙◌, ◌⊎◌, inl, inr, Option, none, some, List, [], ◌∷◌,
  ◌++◌, arith, ok, ℤ, map, append-nil, append_assoc, str_eq_iff, Bool-cases, not-true, not_empty,
  ◌==◌, any, All,
}
use chuvar.Scope.{validate_capability, validate_memory}
use chuvar.Store.Types.{RowId, Time, Context, Db, Grant, GrantRow, memory, capability}
use chuvar.Store.Tables.{transaction-ok, pure-ok, >>=-ok, lift-ok, gets-ok, modify-ok, check-ok}
use chuvar.Store.Audit.{Subjects, no_subjects, audit_row, log_audit}
use chuvar.Store.Grants.{
  valid_kind, validate_kind_and_depth, scope_ok, validate_scopes_for_kind, nullable_depth,
  new_grant_row, to_grant, insert_grant, insert_grant_scopes, kind_depth_pairing, create_grant,
  add_duration, scope_row,
}

-- A scope is valid for the kind of the grant that carries it.
abbrev pub FitsKind : Str → Str → Type 0
FitsKind kind s =
    ((kind ≡ capability) × (validate_capability s ≡ ok tt))
    ⊎ ((kind ≡ memory) × (validate_memory s ≡ ok tt))

scope_ok-FitsKind :
    (kind s : Str) → valid_kind kind ≡ true → scope_ok kind s ≡ true → FitsKind kind s
unfolding valid_kind scope_ok
scope_ok-FitsKind kind s v h = ground (arith, str_eq_iff kind capability, str_eq_iff kind memory)

-- The scopes pass the validation exactly when each fits the kind.
pub validate_scopes-FitsKind :
    (kind : Str) (scopes : List Str)
    → validate_scopes_for_kind kind scopes ≡ ok tt
    → All (FitsKind kind) scopes
unfolding validate_scopes_for_kind
validate_scopes-FitsKind kind [] h = tt
validate_scopes-FitsKind kind (s ∷ scopes) h = elim (Bool-cases (valid_kind kind)) [
  | inl v ↦ elim (Bool-cases (scope_ok kind s)) [
    | inl e ↦ (scope_ok-FitsKind kind s v e, validate_scopes-FitsKind kind scopes (rw (v, e) at h))
    | inr e ↦ absurd (cc (rw (v, e) at h))
  ]
  | inr v ↦ absurd (cc (rw v at h))
]

-- The statements that insert the scopes add a row for each and change nothing else.
pub insert_grant_scopes_lem :
    {V : Type 0} (id : RowId) (scopes : List Str) (db db' : Db V)
    → insert_grant_scopes id scopes db ≡ ok (tt, db')
    → db' ≡ record db { grant_scopes = db.grant_scopes ++ map (scope_row id) scopes }
unfolding insert_grant_scopes
insert_grant_scopes_lem id [] db db' h = ground (arith, append-nil db.grant_scopes)
insert_grant_scopes_lem id (s ∷ scopes) db db' h = ground (
  arith,
  insert_grant_scopes_lem id scopes
      (record db { grant_scopes = db.grant_scopes ++ scope_row id s ∷ [] }) db',
  append_assoc db.grant_scopes (scope_row id s ∷ []) (map (scope_row id) scopes),
)

pub insert_grant_lem :
    {V : Type 0} (ctx : Context) (subject kind : Str) (depth : Option Str)
    (expires_at : Option Time) (db db' : Db V) (row : GrantRow)
    → insert_grant ctx subject kind depth expires_at db ≡ ok (row, db')
    → (row ≡ new_grant_row ctx subject kind depth expires_at)
      × (db' ≡ record db {
        grants = db.grants ++ new_grant_row ctx subject kind depth expires_at ∷ [];
      })
      × (any (λ g. g.id == ctx.new_id) db.grants ≡ false)
      × (kind_depth_pairing kind depth ≡ true)
unfolding insert_grant
insert_grant_lem ctx subject kind depth expires_at db db' row h =
    let (fresh, h₁) = check-ok _ _ _ _ _ (gets-ok _ _ _ _ h) in
    let (pairs, h₂) = check-ok _ _ _ _ _ h₁ in
    let (eq, final) = pure-ok _ _ _ _ (modify-ok _ _ _ _ h₂) in (eq, final, not-true _ fresh, pairs)

-- The database after a grant has been created.
unfoldable pub with_grant :
    {V : Type 0} → Context → GrantRow → List Str → Str → Str → Subjects → Db V → Db V
with_grant ctx row scopes event actor ids db = record db {
  grants = db.grants ++ row ∷ [];
  grant_scopes = db.grant_scopes ++ map (scope_row row.id) scopes;
  audit_log = db.audit_log ++ audit_row ctx event actor ids scopes none ∷ [];
}

-- The statements that follow one another, as one change.
pub with_grant_steps :
    {V : Type 0} (ctx : Context) (scopes : List Str) (event actor : Str) (ids : RowId → Subjects)
    (made row : GrantRow) (db db₁ db₂ db' : Db V)
    → row ≡ made
    → db₁ ≡ record db { grants = db.grants ++ made ∷ [] }
    → db₂ ≡ record db₁ { grant_scopes = db₁.grant_scopes ++ map (scope_row row.id) scopes }
    → db' ≡ record db₂ {
      audit_log = db₂.audit_log ++ audit_row ctx event actor (ids row.id) scopes none ∷ [];
    }
    → db' ≡ with_grant ctx made scopes event actor (ids made.id) db
unfolding with_grant
with_grant_steps ctx scopes event actor ids made row db db₁ db₂ db' e₁ e₂ e₃ e₄ =
    rw (e₄, e₃, e₂, e₁)

-- The row of a grant that `create_grant` makes.
abbrev pub made : Context → Str → Str → Str → Option ℤ → GrantRow
made ctx subject kind depth ttl =
    new_grant_row ctx subject kind (nullable_depth depth) (Option.map (add_duration ctx.wall) ttl)

-- A created grant has a kind and depth that pair, at least one scope, scopes all valid for its
-- kind, and a named actor; it is stored under the new id with its scopes and one audit row, and
-- nothing else changes.
pub create_grant_lem :
    {V : Type 0} (ctx : Context) (subject : Str) (scopes : List Str) (kind depth : Str)
    (ttl : Option ℤ) (actor : Str) (db db' : Db V) (g : Grant)
    → create_grant ctx subject scopes kind depth ttl actor db ≡ (ok g, db')
    → (kind' : Str) × (depth' : Str) × (validate_kind_and_depth kind depth ≡ ok (kind', depth'))
      × (scopes ≢ [])
      × (actor ≢ [])
      × All (FitsKind kind') scopes
      × (g ≡ to_grant (made ctx subject kind' depth' ttl) scopes)
      × (db'
          ≡ with_grant ctx
              (made ctx subject kind' depth' ttl)
              scopes
              (codes "grant_created")
              actor
              (record no_subjects { grant_id = some ctx.new_id })
              db)
unfolding create_grant log_audit new_grant_row
create_grant_lem ctx subject scopes kind depth ttl actor db db' g h =
    let (some_scope, h₁) = check-ok _ _ _ _ _ (transaction-ok _ _ _ _ h) in
    let ((k, d), valid, h₂) = lift-ok _ _ _ _ h₁ in
    let (_, fits, h₃) = lift-ok _ _ _ _ h₂ in
    let (named, h₄) = check-ok _ _ _ _ _ h₃ in
    let (row, db₁, inserted, h₅) = >>=-ok _ _ _ _ h₄ in
    let (_, db₂, scoped, h₆) = >>=-ok _ _ _ _ h₅ in
    let (made_, stored, _, _) = insert_grant_lem _ _ _ _ _ _ _ _ inserted in
    let (eq, final) = pure-ok _ _ _ _ (modify-ok _ _ _ _ h₆) in
    (
      k,
      d,
      valid,
      not_empty scopes some_scope,
      not_empty actor named,
      validate_scopes-FitsKind k scopes fits,
      eq ∙ ap (λ r. to_grant r scopes) made_,
      with_grant_steps _ _ _ _ (λ id. record no_subjects { grant_id = some id }) _ _ _ _ _ _ made_
          stored (insert_grant_scopes_lem row.id scopes db₁ db₂ scoped) final,
    )
