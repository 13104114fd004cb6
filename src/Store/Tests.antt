-- ===== src/Store/Tests.antt =====
-- The theorems on grants and requests at concrete inputs.
mod Reading
mod Histories
mod Listings
use chuvar.Prelude.{
  ℕ, codes, ◌≡◌, ◌≢◌, refl, Option, none, some, List, [], ◌∷◌, ok, pos, is_positive, true, Elem,
  All, Any, inl, inr, str_eq, cut, split_on,
}
use chuvar.Scope.{
  validate_memory, validate, validate_segments, segment_pattern, is_segment_byte, split, dedupe,
  dedupe_from,
}
use chuvar.Store.Depth.{valid_depth, depth_rank_index, index_from}
use chuvar.Store.Tables.{find, update_where, count_where, ◌>>=◌, transaction}
use chuvar.Store.Audit.{log_audit, audit_row}
use chuvar.Store.Types.{
  Context, Grant, GrantRow, GrantRequestRow, GrantRequestStatus, StagedDiff, DiffStatus, FactRow,
  Db, GrantedScope, memory, capability, summary, facts_depth, full, novel,
}
use chuvar.Store.Grants.{
  scope_row, create_grant, create_grant_tx, validate_kind_and_depth, valid_kind,
  validate_scopes_for_kind, scope_ok, insert_grant, insert_grant_scopes, kind_depth_pairing,
  nullable_depth, new_grant_row, to_grant, depth_or_empty, list_grant_scopes, revoke_grant,
  revocable, renew_grant, renewable, unexpired, add_duration, granted_scope_depths, gives_scopes,
  granted_from, add_granted,
}
use chuvar.Store.Grants.Creation.{FitsKind, create_grant_lem}
use chuvar.Store.Grants.Scopes.{Gives, granted_scope_depths_iff}
use chuvar.Store.Grants.Authority.{RevokedRows, revoke_grant_lem, renew_grant_lem}
use chuvar.Store.Requests.{
  approve_grant_request, approve_loaded, deny_grant_request, decidable, approve_row, deny_row,
}
use chuvar.Store.Requests.Decisions.{
  approve_grant_request_lem, deny_grant_request_lem, decided_once,
}
use chuvar.Store.Fixtures.{at_1000, amy, bob, identity, name_scope, db, held}

create_grant_lem_example : bob ≢ []
unfolding create_grant create_grant_tx transaction ◌>>=◌ log_audit audit_row validate_kind_and_depth
    valid_kind validate_scopes_for_kind scope_ok validate_memory validate validate_segments
    segment_pattern is_segment_byte split cut split_on str_eq valid_depth depth_rank_index
    index_from insert_grant insert_grant_scopes kind_depth_pairing nullable_depth new_grant_row
    to_grant depth_or_empty list_grant_scopes
create_grant_lem_example =
    (create_grant_lem at_1000 bob (identity ∷ []) memory full none bob db _ _ refl).4

abbrev after_revoke : Db (List ℕ)
after_revoke = (revoke_grant at_1000 1 bob db).1

revoke_grant_lem_example : RevokedRows 1000 1 db.grants after_revoke.grants
unfolding revoke_grant revocable transaction ◌>>=◌ log_audit audit_row count_where update_where find
revoke_grant_lem_example = (revoke_grant_lem at_1000 1 bob db _ refl).2

renew_grant_lem_example : is_positive (pos 60) ≡ true
unfolding renew_grant renewable unexpired add_duration str_eq transaction ◌>>=◌ log_audit audit_row
    find update_where to_grant depth_or_empty list_grant_scopes
renew_grant_lem_example = (renew_grant_lem at_1000 1 (pos 60) bob db _ _ refl).6

granted_scope_depths_iff_example :
    Any (Gives 1000 amy db (record { scope = identity; depth = facts_depth })) db.grants
unfolding granted_scope_depths gives_scopes granted_from add_granted depth_or_empty
    list_grant_scopes str_eq unexpired
granted_scope_depths_iff_example =
    (granted_scope_depths_iff 1000 amy db (record { scope = identity; depth = facts_depth })).0
      (inl refl)

approve_grant_request_lem_example : bob ≢ []
unfolding approve_grant_request approve_loaded decidable approve_row count_where update_where find
    transaction ◌>>=◌ log_audit audit_row validate_kind_and_depth valid_kind
    validate_scopes_for_kind scope_ok validate_memory validate validate_segments segment_pattern
    is_segment_byte split cut split_on str_eq valid_depth depth_rank_index index_from insert_grant
    insert_grant_scopes kind_depth_pairing nullable_depth new_grant_row to_grant depth_or_empty
    list_grant_scopes
approve_grant_request_lem_example = (approve_grant_request_lem at_1000 3 bob db _ _ refl).4

abbrev after_deny : Db (List ℕ)
after_deny = (deny_grant_request at_1000 3 bob db).1

decided_once_example : deny_grant_request at_1000 3 bob after_deny ≢ (ok tt, db)
unfolding deny_grant_request decidable deny_row transaction ◌>>=◌ log_audit audit_row count_where
    update_where find
decided_once_example = (decided_once at_1000 at_1000 3 bob bob db after_deny db (inr refl)).1
