-- ===== src/Agents.antt =====
-- backend/internal/api/agent_auth.go and agent_routes.go: the listener of the agents. Every handler
-- acts for the subject of the token, and for nothing that the body says.
pub mod Reading
pub mod Staging
pub mod Types
mod Tests
use chuvar.Prelude.{
  ℕ, Str, codes, Bool, true, false, not, Option, none, some, List, [], ◌∷◌, ◌++◌, Result, ok, err,
  is_empty, any, length, ltb, map, str_eq, if◌then◌else◌, ℤ, pos, negsuc,
}
use chuvar.Scope.{missing}
use chuvar.Store.Types.{
  RowId, Time, Context, Grant, active, Db, Fact, GrantedScope, GrantRequest, StagedDiff,
  DedupeDisclosure, memory, facts_depth,
}
use chuvar.Store.Audit.{no_subjects, audit_row}
use chuvar.Store.Depth.{valid_depth}
use chuvar.Store.Grants.{granted_scope_depths}
use chuvar.Store.Requests.{request_grant}
use chuvar.Store.Facts.{search_facts}
use chuvar.Store.Listing.{list_grants}
use chuvar.Auth.Types.{AuthStore}
use chuvar.Auth.Action.{Action, pure, fail, gets, lift, modify, check, ◌>>=◌, ◌>>◌, or_else}
use chuvar.Auth.AgentTokens.{AuthenticatedAgent, authenticate_agent_token}
use chuvar.Api.Types.{
  Request, Denial, or_deny, unauthorized, internal_error, bad_body, too_many_scopes, field_too_long,
  limit_too_large, scope_invalid, scopes_required, depth_invalid, ttl_negative, proposal_invalid,
  quota_used,
}
use chuvar.Api.Factors.{bearer_token}
use chuvar.Bouncer.{
  World, Gatekeeper, ProposeError, invalid, limited, failed, all_valid, in_store, in_auth,
  propose_write,
}
use chuvar.Agents.Types.{
  max_scopes_per_request, max_query_length, max_search_limit, max_content_length,
  max_justification_length, SearchRequest, ProposalRequest, GrantAsked, SearchAnswer, GrantView,
  grant_view, exceeds, search_limit, granted_scope_strs, asked_ttl, is_negative, proposal_denial,
  found, insufficient_scope,
}

-- The agents' API: its store of tokens, its bouncer, and json.Marshal of the facts that a read
-- disclosed, as their ids and depths.
pub record AgentApi (F V : Type 0) : Type 0 where
  pub tokens : AuthStore
  pub bouncer : Gatekeeper F V
  pub marshal_read : List (RowId × Str) → Str

abbrev pub AgentHandler : Type 0 → Type 0 → Type 0
AgentHandler V A = Action (World V) Denial A

-- LogAudit, outside any transaction, of an event that names no row.
unfoldable pub audit_event :
    {V : Type 0} → Context → Str → Str → List Str → Option Str → World V → World V
audit_event ctx event_type subject scopes detail w = record w {
  store = record w.store {
    audit_log =
        w.store.audit_log ++ audit_row ctx event_type subject no_subjects scopes detail ∷ [];
  };
}

module _ {F V : Type 0} (api : AgentApi F V) where
  -- requireAgentAuth
  unfoldable pub require_agent_auth :
      {A : Type 0} → Request → (AuthenticatedAgent → AgentHandler V A) → AgentHandler V A
  unfolding in_auth
  require_agent_auth r next = do
    token ← lift (or_deny unauthorized (bearer_token r.authorization))
    agent ←
        or_else (in_auth (authenticate_agent_token api.tokens r.ctx token)) (λ _. internal_error)
    known ← lift (or_deny unauthorized agent)
    next known

  -- The answer to a search that the grants do not cover.
  unfoldable pub refuse_search : Request → Str → List Str → AgentHandler V SearchAnswer
  unfolding audit_event
  refuse_search r subject lacking = do
    modify (audit_event r.ctx (codes "insufficient_scope") subject lacking none)
    pure (insufficient_scope lacking)

  -- SearchFacts for the grants, and the audit row of the read.
  unfoldable pub read_facts :
      Request → Str → SearchRequest → List F → List GrantedScope → AgentHandler V SearchAnswer
  unfolding audit_event search_limit granted_scope_strs
  read_facts r subject req vec granted = do
    result ← gets (λ w.
        search_facts api.bouncer.engine req.query vec granted (search_limit req.limit) w.store)
    facts ← lift (elim result [ ok facts ↦ ok facts | err _ ↦ err internal_error ])
    modify (
        audit_event r.ctx (codes "read") subject (granted_scope_strs granted)
          (some (api.marshal_read (map (λ f. (f.id, f.depth)) facts))))
    pure (found facts)

  -- The second half of agentSearch, once the query is embedded: the grants are read again.
  unfoldable pub search_now : Request → Str → SearchRequest → List F → AgentHandler V SearchAnswer
  unfolding refuse_search read_facts
  search_now r subject req vec = do
    granted ← gets (λ w. granted_scope_depths r.ctx.db_now subject w.store)
    let lacking = missing req.requested_scopes (granted_scope_strs granted)
    (if not (is_empty lacking)
        then refuse_search r subject lacking
        else read_facts r subject req vec granted)

  -- The query's embedding: none without an embedder.
  unfoldable pub query_vector : Str → Result Denial (List F)
  query_vector query = elim api.bouncer.embedder [
    | none ↦ ok []
    | some embed ↦ or_deny internal_error (embed query)
  ]

  -- agentSearch
  unfoldable pub agent_search :
      Request → Option SearchRequest → AuthenticatedAgent → AgentHandler V SearchAnswer
  unfolding search_now query_vector exceeds refuse_search
  agent_search r body agent = do
    req ← lift (or_deny bad_body body)
    check (not (ltb max_scopes_per_request (length req.requested_scopes))) too_many_scopes
    check (not (ltb max_query_length (length req.query))) field_too_long
    check (not (exceeds req.limit max_search_limit)) limit_too_large
    check (all_valid req.requested_scopes) scope_invalid
    granted ← gets (λ w. granted_scope_depths r.ctx.db_now agent.subject w.store)
    let lacking = missing req.requested_scopes (granted_scope_strs granted)
    (if not (is_empty lacking)
        then refuse_search r agent.subject lacking
        else (do vec ← lift (query_vector req.query); search_now r agent.subject req vec))

  -- How agentProposeWrite answers: a proposal beyond the quota leaves an audit row.
  unfoldable pub report_proposal :
      {A : Type 0} → Request → Str → Action (World V) ProposeError A → AgentHandler V A
  unfolding audit_event proposal_denial
  report_proposal r subject m w = elim (m w).0 [
    | ok staged ↦ (ok staged, (m w).1)
    | err limited ↦
        (err quota_used, audit_event r.ctx (codes "rate_limited") subject [] none (m w).1)
    | err e ↦ (err (proposal_denial e), (m w).1)
  ]

  -- agentProposeWrite
  unfoldable pub agent_propose_write :
      Request
      → Option ProposalRequest
      → AuthenticatedAgent
      → AgentHandler V (StagedDiff × DedupeDisclosure)
  unfolding report_proposal
  agent_propose_write r body agent = do
    req ← lift (or_deny bad_body body)
    check (not (ltb max_scopes_per_request (length req.proposed_scopes))) too_many_scopes
    check (not (ltb max_content_length (length req.content))) field_too_long
    report_proposal r agent.subject (
        propose_write api.bouncer r.ctx agent.subject req.content req.proposed_scopes
          req.target_fact_id)

  -- agentRequestGrant
  unfoldable pub agent_request_grant :
      Request → Option GrantAsked → AuthenticatedAgent → AgentHandler V GrantRequest
  unfolding asked_ttl is_negative in_store
  agent_request_grant r body agent = do
    req ← lift (or_deny bad_body body)
    check (not (is_empty req.requested_scopes)) scopes_required
    check (not (ltb max_scopes_per_request (length req.requested_scopes))) too_many_scopes
    check (not (ltb max_justification_length (length req.justification))) field_too_long
    check (all_valid req.requested_scopes) scope_invalid
    let depth = if is_empty req.depth then facts_depth else req.depth
    check (valid_depth depth) depth_invalid
    check (not (is_negative req.ttl_seconds)) ttl_negative
    or_else
        (in_store (
          request_grant r.ctx agent.subject req.requested_scopes memory depth
            (asked_ttl req.ttl_seconds) req.justification))
        (λ _. internal_error)

  -- agentListGrants
  unfoldable pub agent_list_grants : Request → AuthenticatedAgent → AgentHandler V (List GrantView)
  unfolding grant_view
  agent_list_grants r agent = do
    own ← gets (λ w. list_grants agent.subject w.store)
    pure (map (grant_view r.ctx.wall) own)

  -- agentWhoami
  unfoldable pub agent_whoami : AuthenticatedAgent → AgentHandler V Str
  agent_whoami agent = pure agent.subject

-- AgentRoutes.
pub data AgentCall : Type 0 where
  search : Option SearchRequest → AgentCall
  proposals : Option ProposalRequest → AgentCall
  grants : AgentCall
  grant_requests : Option GrantAsked → AgentCall
  whoami : AgentCall

-- What a handler answers.
pub data AgentAnswer : Type 0 where
  preflight : AgentAnswer
  searched : SearchAnswer → AgentAnswer
  proposed : StagedDiff × DedupeDisclosure → AgentAnswer
  requested : GrantRequest → AgentAnswer
  listed : List GrantView → AgentAnswer
  subject_is : Str → AgentAnswer

module _ {F V : Type 0} (api : AgentApi F V) where
  unfoldable pub agent_handler :
      Request → AgentCall → AuthenticatedAgent → AgentHandler V AgentAnswer
  agent_handler r (search body) agent = do
    answer ← agent_search api r body agent
    pure (searched answer)
  agent_handler r (proposals body) agent = do
    answer ← agent_propose_write api r body agent
    pure (proposed answer)
  agent_handler r (grant_requests body) agent = do
    answer ← agent_request_grant api r body agent
    pure (requested answer)
  agent_handler r grants agent = do shown ← agent_list_grants api r agent; pure (listed shown)
  agent_handler r whoami agent = do answer ← agent_whoami api agent; pure (subject_is answer)

  unfoldable pub serve_agent : Request → AgentCall → AgentHandler V AgentAnswer
  unfolding agent_handler
  serve_agent r call =
      if str_eq r.method (codes "OPTIONS")
      then pure preflight
      else require_agent_auth api r (agent_handler r call)

  -- The world after a sequence of requests.
  unfoldable pub serve_agents : List (Request × AgentCall) → World V → World V
  unfolding serve_agent
  serve_agents [] w = w
  serve_agents ((r, call) ∷ calls) w = serve_agents calls (serve_agent r call w).1
