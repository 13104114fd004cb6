-- ===== src/Store/Grants.antt =====
-- backend/internal/store/grants.go with its queries (sqlcgen/grants.sql.go): creating, revoking and
-- renewing grants, and the scopes that a subject's live memory grants give.
pub mod Creation
pub mod Authority
pub mod Scopes
use mathlib.Core.Option
use chuvar.Prelude.{
  ℕ, suc, ◌+◌, ◌-◌, Str, codes, Bool, true, false, not, ◌&&◌, ◌||◌, Option, none, some, List, [],
  ◌∷◌, ◌++◌, Result, ok, err, ℤ, pos, negsuc, is_positive, is_empty, str_eq, ltb, ◌==◌, any,
  keep_if, if◌then◌else◌,
}
use chuvar.Scope.{validate_capability, validate_memory}
use chuvar.Store.Types.{
  RowId, Time, Context, Db, Grant, GrantRow, ScopeRow, GrantedScope, StoreError, memory, capability,
  no_scopes, invalid_kind, invalid_depth, depth_not_allowed, empty_actor, invalid_scope,
  unique_violation, check_violation, not_found, ttl_not_positive, not_renewable, unknown_kind,
}
use chuvar.Store.Tables.{
  Tx, pure, lift, gets, modify, check, ◌>>=◌, ◌>>◌, transaction, find, update_where, count_where,
}
use chuvar.Store.Audit.{no_subjects, log_audit}
use chuvar.Store.Depth.{valid_depth}

-- t.Add(d)
unfoldable pub add_duration : Time → ℤ → Time
add_duration t (pos n) = t + n
add_duration t (negsuc n) = t - suc n

unfoldable pub valid_kind : Str → Bool
valid_kind kind = str_eq kind memory || str_eq kind capability

-- An empty kind means a memory grant, whose depth must be in the vocabulary; a capability grant has
-- none.
unfoldable pub validate_kind_and_depth : Str → Str → Result StoreError (Str × Str)
validate_kind_and_depth kind depth =
    let kind' = if str_eq kind [] then memory else kind in
    if not (valid_kind kind')
    then err invalid_kind
    else if str_eq kind' memory
    then if valid_depth depth then ok (kind', depth) else err invalid_depth
    else if str_eq depth []
    then ok (kind', depth)
    else err depth_not_allowed

-- Whether the scope is valid for the kind.
unfoldable pub scope_ok : Str → Str → Bool
scope_ok kind s =
    if str_eq kind capability
    then elim (validate_capability s) [ ok _ ↦ true | err _ ↦ false ]
    else elim (validate_memory s) [ ok _ ↦ true | err _ ↦ false ]

unfoldable pub validate_scopes_for_kind : Str → List Str → Result StoreError (Unit {0})
validate_scopes_for_kind kind [] = ok tt
validate_scopes_for_kind kind (s ∷ scopes) =
    let rest = validate_scopes_for_kind kind scopes in
    if not (valid_kind kind)
    then err unknown_kind
    else if scope_ok kind s
    then rest
    else err invalid_scope

unfoldable pub nullable_depth : Str → Option Str
nullable_depth depth = if str_eq depth [] then none else some depth

unfoldable pub depth_or_empty : Option Str → Str
depth_or_empty none = []
depth_or_empty (some depth) = depth

unfoldable pub new_grant_row : Context → Str → Str → Option Str → Option Time → GrantRow
new_grant_row ctx subject kind depth expires_at = record {
  id = ctx.new_id;
  subject = subject;
  kind = kind;
  depth = depth;
  created_at = ctx.db_now;
  expires_at = expires_at;
  revoked_at = none;
}

-- The schema's checks on kind and depth: both in their vocabularies, and a depth exactly for memory.
unfoldable pub kind_depth_pairing : Str → Option Str → Bool
kind_depth_pairing kind none = valid_kind kind && not (str_eq kind memory)
kind_depth_pairing kind (some depth) = str_eq kind memory && valid_depth depth

unfoldable pub to_grant : GrantRow → List Str → Grant
to_grant row scopes = record {
  id = row.id;
  subject = row.subject;
  scopes = scopes;
  kind = row.kind;
  depth = depth_or_empty row.depth;
  created_at = row.created_at;
  expires_at = row.expires_at;
  revoked_at = row.revoked_at;
}

abbrev pub scope_row : RowId → Str → ScopeRow
scope_row id s = record { owner = id; scope = s }

-- (expires_at IS NULL OR expires_at > now())
unfoldable pub unexpired : Time → Option Time → Bool
unexpired now none = true
unexpired now (some t) = ltb now t

-- revoked_at IS NULL, or a superseded fact's invalid_at IS NULL
abbrev pub is_null {ℓ} : {A : Type ℓ} → Option A → Bool
is_null none = true
is_null (some _) = false

-- UPDATE grants SET revoked_at = now() WHERE id = $1 AND revoked_at IS NULL
unfoldable pub revocable : RowId → GrantRow → Bool
revocable id g = g.id == id && is_null g.revoked_at

-- WHERE id = $1 AND revoked_at IS NULL AND (expires_at IS NULL OR expires_at > now())
--   AND kind = 'memory'
unfoldable pub renewable : Time → RowId → GrantRow → Bool
renewable now id g =
    g.id == id && is_null g.revoked_at && unexpired now g.expires_at && str_eq g.kind memory

-- SELECT scope FROM grant_scopes WHERE grant_id = $1
unfoldable pub list_grant_scopes : RowId → List ScopeRow → List Str
list_grant_scopes id [] = []
list_grant_scopes id (r ∷ rows) =
    let rest = list_grant_scopes id rows in if r.owner == id then r.scope ∷ rest else rest

module _ {V : Type 0} where
  -- INSERT INTO grants: the id is new, and the schema's checks hold.
  unfoldable pub insert_grant : Context → Str → Str → Option Str → Option Time → Tx V GrantRow
  insert_grant ctx subject kind depth expires_at = do
    db ← gets (λ db. db)
    check (not (any (λ g. g.id == ctx.new_id) db.grants)) unique_violation
    check (kind_depth_pairing kind depth) check_violation
    modify (λ db. record db {
      grants = db.grants ++ new_grant_row ctx subject kind depth expires_at ∷ [];
    })
    pure (new_grant_row ctx subject kind depth expires_at)

  -- INSERT INTO grant_scopes, for each scope; the primary key is the pair.
  unfoldable pub insert_grant_scopes : RowId → List Str → Tx V (Unit {0})
  insert_grant_scopes id [] db = ok (tt, db)
  insert_grant_scopes id (s ∷ scopes) db =
      let rest =
        insert_grant_scopes id scopes
          (record db { grant_scopes = db.grant_scopes ++ scope_row id s ∷ [] }) in
      if any (λ r. r.owner == id && str_eq r.scope s) db.grant_scopes
      then err unique_violation
      else rest

  unfoldable pub create_grant_tx :
      Context → Str → List Str → Str → Str → Option ℤ → Str → Tx V Grant
  create_grant_tx ctx subject scopes kind depth ttl actor = do
    check (not (is_empty scopes)) no_scopes
    (valid_kind, depth) ← lift (validate_kind_and_depth kind depth)
    lift (validate_scopes_for_kind valid_kind scopes)
    check (not (is_empty actor)) empty_actor
    row ←
        insert_grant ctx subject valid_kind (nullable_depth depth)
          (Option.map (add_duration ctx.wall) ttl)
    insert_grant_scopes row.id scopes
    log_audit ctx (codes "grant_created") actor (record no_subjects { grant_id = some row.id })
        scopes none
    pure (to_grant row scopes)

  -- CreateGrant
  unfoldable pub create_grant :
      Context → Str → List Str → Str → Str → Option ℤ → Str → Db V → Result StoreError Grant × Db V
  unfolding create_grant_tx
  create_grant ctx subject scopes kind depth ttl actor =
      transaction (create_grant_tx ctx subject scopes kind depth ttl actor)

  -- RevokeGrant
  unfoldable pub revoke_grant : Context → RowId → Str → Db V → Result StoreError (Unit {0}) × Db V
  revoke_grant ctx id actor = transaction (do
    check (not (is_empty actor)) empty_actor
    rows ← gets (λ db. count_where (revocable id) db.grants)
    modify (λ db. record db {
      grants =
          update_where (revocable id) (λ g. record g { revoked_at = some ctx.db_now }) db.grants;
    })
    check (ltb 0 rows) not_found
    log_audit ctx (codes "grant_revoked") actor (record no_subjects { grant_id = some id }) [] none)

  -- RenewGrant
  unfoldable pub renew_grant : Context → RowId → ℤ → Str → Db V → Result StoreError Grant × Db V
  renew_grant ctx id ttl actor = transaction (do
    check (not (is_empty actor)) empty_actor
    check (is_positive ttl) ttl_not_positive
    found ← gets (λ db. find (renewable ctx.db_now id) db.grants)
    let new_expiry = some (add_duration ctx.wall ttl)
    row ← lift (elim found [
      | none ↦ err not_renewable
      | some g ↦ ok (record g { expires_at = new_expiry })
    ])
    modify (λ db. record db {
      grants =
          update_where (renewable ctx.db_now id) (λ g. record g { expires_at = new_expiry })
            db.grants;
    })
    scopes ← gets (λ db. list_grant_scopes id db.grant_scopes)
    log_audit ctx (codes "grant_renewed") actor (record no_subjects { grant_id = some id }) scopes
        none
    pure (to_grant row scopes))

-- A live memory grant of the subject that has a depth.
unfoldable pub gives_scopes : Time → Str → GrantRow → Bool
gives_scopes now subject g =
    str_eq g.subject subject
    && str_eq g.kind memory
    && not (is_null g.depth)
    && is_null g.revoked_at
    && unexpired now g.expires_at

pub same_granted : GrantedScope → GrantedScope → Bool
same_granted a b = str_eq a.scope b.scope && str_eq a.depth b.depth

-- The pairs of a grant's scopes with its depth, put before those given, each once (DISTINCT).
unfoldable pub add_granted : Str → List Str → List GrantedScope → List GrantedScope
unfolding same_granted
add_granted depth [] granted = granted
add_granted depth (s ∷ scopes) granted =
    let g : GrantedScope = record { scope = s; depth = depth } in
    let rest = add_granted depth scopes granted in
    if any (same_granted g) rest then rest else g ∷ rest

unfoldable pub granted_from : List GrantRow → List ScopeRow → List GrantedScope
granted_from [] rows = []
granted_from (g ∷ grants) rows =
    add_granted (depth_or_empty g.depth) (list_grant_scopes g.id rows) (granted_from grants rows)

-- GrantedScopeDepths
unfoldable pub granted_scope_depths : {V : Type 0} → Time → Str → Db V → List GrantedScope
granted_scope_depths now subject db =
    granted_from (keep_if (gives_scopes now subject) db.grants) db.grant_scopes
