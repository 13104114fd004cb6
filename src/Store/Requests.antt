-- ===== src/Store/Requests.antt =====
-- backend/internal/store/grant_requests.go with its queries: agents stage requests for grants, and a
-- reviewer approves or denies each once.
pub mod Decisions
use mathlib.Core.Option
use chuvar.Prelude.{
  ℕ, ◌+◌, ◌*◌, ◌-◌, ◌%◌, ◌^◌, Str, codes, Bool, true, false, not, ◌&&◌, Option, none, some, List,
  [], ◌∷◌, ◌++◌, Result, ok, err, ℤ, pos, negsuc, is_empty, ltb, ◌==◌, any, if◌then◌else◌,
}
use chuvar.Scope.{dedupe}
use chuvar.Store.Types.{
  RowId, Time, Context, Db, Grant, GrantRow, GrantRequestRow, GrantRequest, GrantRequestStatus,
  StoreError, no_scopes, empty_subject, empty_actor, unique_violation, check_violation, not_found,
  not_pending,
}
use chuvar.Store.Tables.{
  Tx, pure, lift, gets, modify, check, ◌>>=◌, ◌>>◌, transaction, find, update_where, count_where,
}
use chuvar.Store.Audit.{no_subjects, log_audit}
use chuvar.Store.Grants.{
  validate_kind_and_depth, validate_scopes_for_kind, nullable_depth, kind_depth_pairing, to_grant,
  insert_grant, insert_grant_scopes,
}

-- int32(v), as the low 32 bits of an int64 read as a signed number.
unfoldable pub to_int32 : ℤ → ℤ
to_int32 v =
    let bits : ℕ = elim v [ pos n ↦ n % 2 ^ 32 | negsuc n ↦ 2 ^ 32 - 1 - n % 2 ^ 32 ] in
    if ltb bits (2 ^ 31) then pos bits else negsuc (2 ^ 32 - 1 - bits)

-- The column requested_ttl_seconds, whose check wants a positive number.
unfoldable pub ttl_column : Option ℤ → Result StoreError (Option ℕ)
ttl_column none = ok none
ttl_column (some (pos n)) = if ltb 0 n then ok (some n) else err check_violation
ttl_column (some (negsuc n)) = err check_violation

-- toInt4
unfoldable pub to_int4 : Option ℤ → Option ℤ
unfolding to_int32
to_int4 = Option.map to_int32

-- dedupeStrings, the same loop as scope.Dedupe on plain strings
unfoldable pub dedupe_strings : List Str → List Str
dedupe_strings = dedupe

abbrev pub second : ℕ
second = 1000000000

abbrev pub is_pending : GrantRequestStatus → Bool
is_pending GrantRequestStatus.pending = true
is_pending _ = false

unfoldable pub new_request :
    Context → Str → List Str → Str → Option Str → Option ℕ → Str → GrantRequestRow
new_request ctx subject scopes kind depth ttl justification = record {
  id = ctx.new_id;
  subject = subject;
  requested_scopes = scopes;
  kind = kind;
  depth = depth;
  requested_ttl_seconds = ttl;
  justification = justification;
  status = GrantRequestStatus.pending;
  created_at = ctx.db_now;
  decided_at = none;
  decided_by = none;
  resulting_grant_id = none;
}

-- WHERE id = $1 AND status = 'pending'
unfoldable pub decidable : RowId → GrantRequestRow → Bool
decidable id r = r.id == id && is_pending r.status

-- SET status = 'approved', decided_at = now(), decided_by = $2, resulting_grant_id = $3
unfoldable pub approve_row : Context → Str → RowId → GrantRequestRow → GrantRequestRow
approve_row ctx decided_by grant_id r = record r {
  status = GrantRequestStatus.approved;
  decided_at = some ctx.db_now;
  decided_by = some decided_by;
  resulting_grant_id = some grant_id;
}

-- SET status = 'denied', decided_at = now(), decided_by = $2
unfoldable pub deny_row : Context → Str → GrantRequestRow → GrantRequestRow
deny_row ctx decided_by r = record r {
  status = GrantRequestStatus.denied;
  decided_at = some ctx.db_now;
  decided_by = some decided_by;
}

-- What RequestGrant returns: its inputs, among them the TTL as it was given, and what the insert made.
unfoldable pub staged_request : Option ℤ → Str → GrantRequestRow → GrantRequest
staged_request ttl_seconds depth row = record {
  id = row.id;
  subject = row.subject;
  requested_scopes = row.requested_scopes;
  kind = row.kind;
  depth = depth;
  requested_ttl_seconds = ttl_seconds;
  justification = row.justification;
  status = row.status;
  created_at = row.created_at;
  decided_at = none;
  decided_by = none;
  resulting_grant_id = none;
}

module _ {V : Type 0} where
  -- RequestGrant
  unfoldable pub request_grant :
      Context
      → Str
      → List Str
      → Str
      → Str
      → Option ℤ
      → Str
      → Db V
      → Result StoreError GrantRequest × Db V
  unfolding staged_request
  request_grant ctx subject scopes kind depth ttl_seconds justification = transaction (do
    check (not (is_empty scopes)) no_scopes
    (valid_kind, depth) ← lift (validate_kind_and_depth kind depth)
    lift (validate_scopes_for_kind valid_kind scopes)
    check (not (is_empty subject)) empty_subject
    db ← gets (λ db. db)
    check (not (any (λ r. r.id == ctx.new_id) db.grant_requests)) unique_violation
    check (kind_depth_pairing valid_kind (nullable_depth depth)) check_violation
    ttl ← lift (ttl_column (to_int4 ttl_seconds))
    let row =
        new_request ctx subject (dedupe_strings scopes) valid_kind (nullable_depth depth) ttl
          justification
    modify (λ db. record db { grant_requests = db.grant_requests ++ row ∷ [] })
    pure (staged_request ttl_seconds depth row))

  -- ApproveGrantRequest, after the row has been loaded for update
  unfoldable pub approve_loaded : Context → RowId → Str → GrantRequestRow → Tx V Grant
  approve_loaded ctx id decided_by req = do
    check (is_pending req.status) not_pending
    lift (validate_scopes_for_kind req.kind req.requested_scopes)
    row ←
        insert_grant ctx req.subject req.kind req.depth
          (Option.map (λ ttl. ctx.wall + ttl * second) req.requested_ttl_seconds)
    insert_grant_scopes row.id req.requested_scopes
    rows ← gets (λ db. count_where (decidable id) db.grant_requests)
    modify (λ db. record db {
      grant_requests =
          update_where (decidable id) (approve_row ctx decided_by row.id) db.grant_requests;
    })
    check (ltb 0 rows) not_pending
    log_audit ctx (codes "grant_request_approved") decided_by
        (record no_subjects { grant_id = some row.id; grant_request_id = some id })
        req.requested_scopes none
    pure (to_grant row req.requested_scopes)

  -- ApproveGrantRequest
  unfoldable pub approve_grant_request :
      Context → RowId → Str → Db V → Result StoreError Grant × Db V
  approve_grant_request ctx id decided_by = transaction (do
    check (not (is_empty decided_by)) empty_actor
    found ← gets (λ db. find (λ r. r.id == id) db.grant_requests)
    req ← lift (elim found [ none ↦ err not_found | some r ↦ ok r ])
    approve_loaded ctx id decided_by req)

  -- DenyGrantRequest
  unfoldable pub deny_grant_request :
      Context → RowId → Str → Db V → Result StoreError (Unit {0}) × Db V
  deny_grant_request ctx id decided_by = transaction (do
    check (not (is_empty decided_by)) empty_actor
    rows ← gets (λ db. count_where (decidable id) db.grant_requests)
    modify (λ db. record db {
      grant_requests = update_where (decidable id) (deny_row ctx decided_by) db.grant_requests;
    })
    check (ltb 0 rows) not_pending
    log_audit ctx (codes "grant_request_denied") decided_by
        (record no_subjects { grant_request_id = some id }) [] none)
