-- ===== src/Store/Types.antt =====
-- backend/internal/store/types.go, and the rows of the tables that the queries read and write
-- (backend/internal/store/sqlcgen). Ids stand for the uuids; a time is a number of nanoseconds
-- since January 1 of year 1, Go's zero time, and an unset timestamp or a nil pointer is `none`.
use chuvar.Prelude.{
  ℕ, ℤ, Str, codes, Bool, true, false, Option, none, some, List, ltb, if◌then◌else◌,
}

abbrev pub RowId : Type 0
RowId = ℕ

abbrev pub Time : Type 0
Time = ℕ

abbrev pub memory : Str
memory = codes "memory"

abbrev pub capability : Str
capability = codes "capability"

abbrev pub summary : Str
summary = codes "summary"

abbrev pub facts_depth : Str
facts_depth = codes "facts"

abbrev pub full : Str
full = codes "full"

pub record Grant : Type 0 where
  pub id : RowId
  pub subject : Str
  pub scopes : List Str
  pub kind : Str
  pub depth : Str
  pub created_at : Time
  pub expires_at : Option Time
  pub revoked_at : Option Time

-- now.After(t) for the expiry, if there is one
unfoldable pub active : Grant → Time → Bool
active g now = elim g.revoked_at [
  | some _ ↦ false
  | none ↦ elim g.expires_at [ none ↦ true | some t ↦ if ltb t now then false else true ]
]

pub record GrantedScope : Type 0 where
  pub scope : Str
  pub depth : Str

pub record FactProvenance : Type 0 where
  pub source_staged_diff_id : RowId
  pub decided_by : Option Str
  pub decided_at : Option Time
  pub superseded_by : Option RowId
  pub invalid_at : Option Time
  pub expired_at : Option Time

pub record Fact : Type 0 where
  pub id : RowId
  pub content : Str
  pub summary : Str
  pub depth : Str
  pub scopes : List Str
  pub created_at : Time
  pub valid_at : Time
  pub provenance : Option FactProvenance

-- The table grants.
pub record GrantRow : Type 0 where
  pub id : RowId
  pub subject : Str
  pub kind : Str
  pub depth : Option Str
  pub created_at : Time
  pub expires_at : Option Time
  pub revoked_at : Option Time

-- The tables grant_scopes and fact_scopes.
pub record ScopeRow : Type 0 where
  pub owner : RowId
  pub scope : Str

pub data GrantRequestStatus : Type 0 where
  pending approved denied : GrantRequestStatus

-- The table grant_requests; a TTL is a positive number of seconds.
pub record GrantRequestRow : Type 0 where
  pub id : RowId
  pub subject : Str
  pub requested_scopes : List Str
  pub kind : Str
  pub depth : Option Str
  pub requested_ttl_seconds : Option ℕ
  pub justification : Str
  pub status : GrantRequestStatus
  pub created_at : Time
  pub decided_at : Option Time
  pub decided_by : Option Str
  pub resulting_grant_id : Option RowId

pub data DedupeVerdict : Type 0 where
  novel duplicate contradiction needs_review : DedupeVerdict

-- GrantRequest, as a caller reads it.
pub record GrantRequest : Type 0 where
  pub id : RowId
  pub subject : Str
  pub requested_scopes : List Str
  pub kind : Str
  pub depth : Str
  pub requested_ttl_seconds : Option ℤ
  pub justification : Str
  pub status : GrantRequestStatus
  pub created_at : Time
  pub decided_at : Option Time
  pub decided_by : Option Str
  pub resulting_grant_id : Option RowId

pub data DiffStatus : Type 0 where
  pending approved rejected committed : DiffStatus

pub record StagedDiff : Type 0 where
  pub id : RowId
  pub subject : Str
  pub content : Str
  pub proposed_scopes : List Str
  pub target_fact_id : Option RowId
  pub status : DiffStatus
  pub dedupe_verdict : Option DedupeVerdict
  pub dedupe_candidate_fact_id : Option RowId
  pub created_at : Time
  pub decided_at : Option Time
  pub decided_by : Option Str

pub record DedupeDisclosure : Type 0 where
  pub verdict : DedupeVerdict
  pub candidate_fact_id : Option RowId

-- The table facts. The embedding is in `embedding`, a vector of the type that pgvector gives.
pub record FactRow (V : Type 0) : Type 0 where
  pub id : RowId
  pub content : Str
  pub summary : Option Str
  pub embedding : Option V
  pub source_staged_diff_id : RowId
  pub created_at : Time
  pub valid_at : Time
  pub invalid_at : Option Time
  pub expired_at : Option Time
  pub superseded_by : Option RowId

pub record AuditRow : Type 0 where
  pub event_type : Str
  pub subject : Str
  pub fact_id : Option RowId
  pub grant_id : Option RowId
  pub staged_diff_id : Option RowId
  pub grant_request_id : Option RowId
  pub scopes : List Str
  pub detail : Str
  pub created_at : Time

pub record Db (V : Type 0) : Type 0 where
  pub grants : List GrantRow
  pub grant_scopes : List ScopeRow
  pub grant_requests : List GrantRequestRow
  pub staged_diffs : List StagedDiff
  pub facts : List (FactRow V)
  pub fact_scopes : List ScopeRow
  pub audit_log : List AuditRow

-- What a call takes from its surroundings: time.Now(), the database's now() for the transaction,
-- and the id that the database's uuidv7() gives to the row that it inserts.
pub record Context : Type 0 where
  pub wall : Time
  pub db_now : Time
  pub new_id : RowId

pub data StoreError : Type 0 where
  no_scopes invalid_kind invalid_depth depth_not_allowed empty_actor empty_subject : StoreError
  empty_content invalid_scope unique_violation check_violation not_found not_pending : StoreError
  ttl_not_positive not_renewable duplicate_content already_superseded target_not_visible :
      StoreError
  invalid_embedding bad_rank limit_not_positive unknown_kind : StoreError
