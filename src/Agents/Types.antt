-- ===== src/Agents/Types.antt =====
-- What the agents' listener takes and answers (backend/internal/api/agent_routes.go), and the small
-- conversions between.
use chuvar.Prelude.{
  ℕ, Str, Bool, true, false, Option, none, some, List, [], ◌∷◌, any, ltb, str_eq, if◌then◌else◌, ℤ,
  pos, negsuc,
}
use chuvar.Store.Types.{RowId, Time, Grant, active, Fact, GrantedScope}
use chuvar.Api.Types.{Denial, internal_error, proposal_invalid, quota_used}
use chuvar.Bouncer.{ProposeError, invalid, limited, failed}

abbrev pub max_scopes_per_request : ℕ
max_scopes_per_request = 50

abbrev pub max_query_length : ℕ
max_query_length = 1024

abbrev pub max_search_limit : ℕ
max_search_limit = 200

abbrev pub max_content_length : ℕ
max_content_length = 16384

abbrev pub max_justification_length : ℕ
max_justification_length = 2048

-- The bodies of the requests.
pub record SearchRequest : Type 0 where
  pub query : Str
  pub requested_scopes : List Str
  pub limit : ℤ

pub record ProposalRequest : Type 0 where
  pub content : Str
  pub proposed_scopes : List Str
  pub target_fact_id : Option RowId

pub record GrantAsked : Type 0 where
  pub requested_scopes : List Str
  pub depth : Str
  pub ttl_seconds : ℤ
  pub justification : Str

-- The two statuses of a search that is answered.
pub data SearchAnswer : Type 0 where
  insufficient_scope : List Str → SearchAnswer
  found : List Fact → SearchAnswer

-- A grant as its agent is shown it.
pub record GrantView : Type 0 where
  pub id : RowId
  pub scopes : List Str
  pub depth : Str
  pub is_active : Bool
  pub expires_at : Option Time
  pub revoked_at : Option Time

unfoldable pub grant_view : Time → Grant → GrantView
grant_view now g = record {
  id = g.id;
  scopes = g.scopes;
  depth = g.depth;
  is_active = active g now;
  expires_at = g.expires_at;
  revoked_at = g.revoked_at;
}

-- n > max
unfoldable pub exceeds : ℤ → ℕ → Bool
exceeds (pos n) max = ltb max n
exceeds (negsuc n) max = false

-- limit, if it is positive, and 20 otherwise
unfoldable pub search_limit : ℤ → ℕ
search_limit (pos n) = if ltb 0 n then n else 20
search_limit (negsuc n) = 20

-- The loop of agentGrantedScopeStrs, with the scopes that it has seen.
unfoldable pub scope_strs_from : List Str → List GrantedScope → List Str
scope_strs_from seen [] = []
scope_strs_from seen (g ∷ granted) =
    let next = scope_strs_from (g.scope ∷ seen) granted in
    let same = scope_strs_from seen granted in
    if any (str_eq g.scope) seen then same else g.scope ∷ next

-- agentGrantedScopeStrs
unfoldable pub granted_scope_strs : List GrantedScope → List Str
unfolding scope_strs_from
granted_scope_strs granted = scope_strs_from [] granted

-- The zero TTL is none.
unfoldable pub asked_ttl : ℤ → Option ℤ
asked_ttl (pos n) = if ltb 0 n then some (pos n) else none
asked_ttl (negsuc n) = none

unfoldable pub is_negative : ℤ → Bool
is_negative (pos n) = false
is_negative (negsuc n) = true

unfoldable pub proposal_denial : ProposeError → Denial
proposal_denial limited = quota_used
proposal_denial invalid = proposal_invalid
proposal_denial failed = internal_error
