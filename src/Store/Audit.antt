-- ===== src/Store/Audit.antt =====
-- backend/internal/store/audit.go: every state change adds a row to audit_log in its transaction.
use chuvar.Prelude.{Str, codes, Option, none, some, List, [], ◌∷◌, ◌++◌}
use chuvar.Store.Types.{RowId, AuditRow, Context}
use chuvar.Store.Tables.{Tx, modify}

-- The ids that an event may name, each nil unless given.
pub record Subjects : Type 0 where
  pub fact_id : Option RowId
  pub grant_id : Option RowId
  pub staged_diff_id : Option RowId
  pub grant_request_id : Option RowId

abbrev pub no_subjects : Subjects
no_subjects = record {
  fact_id = none;
  grant_id = none;
  staged_diff_id = none;
  grant_request_id = none;
}

-- The row that `log_audit` inserts: nil detail is stored as {}.
unfoldable pub audit_row : Context → Str → Str → Subjects → List Str → Option Str → AuditRow
audit_row ctx event_type subject ids scopes detail = record {
  event_type = event_type;
  subject = subject;
  fact_id = ids.fact_id;
  grant_id = ids.grant_id;
  staged_diff_id = ids.staged_diff_id;
  grant_request_id = ids.grant_request_id;
  scopes = scopes;
  detail = elim detail [ none ↦ codes "{}" | some d ↦ d ];
  created_at = ctx.db_now;
}

unfoldable pub log_audit :
    {V : Type 0} → Context → Str → Str → Subjects → List Str → Option Str → Tx V (Unit {0})
log_audit ctx event_type subject ids scopes detail = modify (λ db. record db {
  audit_log = db.audit_log ++ audit_row ctx event_type subject ids scopes detail ∷ [];
})
