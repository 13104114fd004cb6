-- ===== src/Agents/Staging.antt =====
-- Whatever agents send, they only stage.
use chuvar.Prelude.{
  Str, codes, str_eq, refl, Option, List, [], ◌∷◌, is_empty, Result-cases, if◌then◌else◌, inl, inr,
}
use chuvar.Scope.{dedupe}
use chuvar.Bouncer.Quota.{check_rate_limit}
use chuvar.Store.Requests.{request_grant}
use chuvar.Store.Diffs.{propose_diff}
use chuvar.Store.Types.{Context, Db, RowId, memory, facts_depth}
use chuvar.Store.History.{SameAuthority, SameAuthority-trans}
use chuvar.Store.History.Agents.{request_grant-Keeps, propose_diff-Keeps}
use chuvar.Auth.Types.{AuthDb}
use chuvar.Auth.Action.{
  Action, Kept, Keeps, Keeps-pure, Keeps-or_else, Keeps-then, Keeps-lift, Keeps-gets, Keeps-check,
  Keeps-if, Keeps-modify, ◌>>=◌, lift, pure,
}
use chuvar.Auth.AgentTokens.{AuthenticatedAgent, authenticate_agent_token}
use chuvar.Auth.Evolution.Usage.{
  OnlyUsed, OnlyUsed-refl, OnlyUsed-trans, only_used, authenticate_agent-OnlyUsed,
}
use chuvar.Api.Types.{Request}
use chuvar.Bouncer.{
  World, Gatekeeper, propose_write, in_store, in_auth, in_limits, invalid, limited, failed,
  ProposeError,
}
use chuvar.Agents.{
  AgentApi, AgentCall, search, proposals, grant_requests, grants, agent_list_grants, whoami,
  preflight, audit_event, require_agent_auth, refuse_search, read_facts, search_now, query_vector,
  agent_search, agent_propose_write, agent_request_grant, agent_whoami, agent_handler, serve_agent,
  serve_agents, report_proposal,
}
use chuvar.Agents.Types.{SearchRequest, ProposalRequest, GrantAsked, asked_ttl}

-- Nothing that gives authority or is read has changed, and of the credentials nothing but when an
-- agent's token was last used.
pub record Staged {V : Type 0} (w w' : World V) : Type 0 where
  pub authority : SameAuthority w.store w'.store
  pub credentials : OnlyUsed w.auth w'.auth

module _ {V : Type 0} where
  Staged-refl : (w : World V) → Staged w w
  Staged-refl w = record {
    authority = (refl, refl, refl, refl);
    credentials = OnlyUsed-refl w.auth;
  }

  Staged-trans : (a b c : World V) → Staged a b → Staged b c → Staged a c
  Staged-trans a b c h k = record {
    authority = SameAuthority-trans a.store b.store c.store h.authority k.authority;
    credentials = OnlyUsed-trans a.auth b.auth c.auth h.credentials k.credentials;
  }

  abbrev staged : Kept (World V)
  staged = record { relates = Staged; same = Staged-refl; through = Staged-trans }

  module _ {E A : Type 0} where
    in_store-Staged :
        (m : Action (Db V) E A)
        → ((db : Db V) → SameAuthority db (m db).1)
        → Keeps staged (in_store m)
    unfolding in_store
    in_store-Staged m h w = record { authority = h w.store; credentials = OnlyUsed-refl w.auth }

    in_auth-Staged : (m : Action AuthDb E A) → Keeps only_used m → Keeps staged (in_auth m)
    unfolding in_auth
    in_auth-Staged m h w = record { authority = (refl, refl, refl, refl); credentials = h w.auth }

  in_limits-Staged : {E A : Type 0} (m : Action _ E A) → Keeps staged (in_limits m)
  unfolding in_limits
  in_limits-Staged m w = record {
    authority = (refl, refl, refl, refl);
    credentials = OnlyUsed-refl w.auth;
  }

  audit-Staged :
      (ctx : Context) (event_type subject : Str) (scopes : List Str) (detail : Option Str)
      (w : World V)
      → Staged w (audit_event ctx event_type subject scopes detail w)
  unfolding audit_event
  audit-Staged ctx event_type subject scopes detail w = record {
    authority = (refl, refl, refl, refl);
    credentials = OnlyUsed-refl w.auth;
  }

propose_write-Staged :
    {F V : Type 0} (b : Gatekeeper F V) (ctx : Context) (subject content : Str) (scopes : List Str)
    (target : Option RowId)
    → Keeps staged (propose_write b ctx subject content scopes target)
unfolding propose_write
propose_write-Staged b ctx subject content scopes target = Keeps-check staged _ _ _ (
    Keeps-check staged _ _ _ (
      Keeps-lift staged _ _ (λ classify.
        Keeps-then staged _ _
          (Keeps-or_else staged _ _
            (in_limits-Staged (check_rate_limit ctx.wall subject b.rate_limit b.rate_limit_window)))
          (λ u. Keeps-lift staged _ _ (λ classified. Keeps-lift staged _ _ (λ chosen.
            Keeps-check staged _ _ _ (
              Keeps-lift staged _ _ (λ embed. Keeps-lift staged _ _ (λ vec.
                Keeps-gets staged _ _ (λ granted. Keeps-or_else staged _ _ (
                  in_store-Staged
                    (propose_diff b.engine ctx subject content (dedupe chosen) vec target granted)
                    (propose_diff-Keeps b.engine ctx subject content (dedupe chosen) vec target
                      granted))))))))))))

module _ {F V : Type 0} (api : AgentApi F V) (r : Request) where
  search_now-Staged :
      (subject : Str) (req : SearchRequest) (vec : List F)
      → Keeps staged (search_now api r subject req vec)
  unfolding search_now refuse_search read_facts
  search_now-Staged subject req vec = Keeps-gets staged _ _ (λ granted.
      Keeps-if staged _ (refuse_search api r subject _) (read_facts api r subject req vec granted)
        (Keeps-modify staged _ _ (audit-Staged r.ctx _ subject _ _) (Keeps-pure staged _ _))
        (Keeps-gets staged _ _ (λ result. Keeps-lift staged _ _ (λ facts.
          Keeps-modify staged _ _ (audit-Staged r.ctx _ subject _ _) (Keeps-pure staged _ _)))))

  agent_search-Staged :
      (body : Option SearchRequest) (agent : AuthenticatedAgent)
      → Keeps staged (agent_search api r body agent)
  unfolding agent_search refuse_search
  agent_search-Staged body agent = Keeps-lift staged _ _ (λ req. Keeps-check staged _ _ _ (
      Keeps-check staged _ _ _ (
        Keeps-check staged _ _ _ (
          Keeps-check staged _ _ _ (
            Keeps-gets staged _ _ (λ granted.
              Keeps-if staged _ (refuse_search api r agent.subject _)
                (lift (query_vector api req.query) >>= search_now api r agent.subject req)
                (Keeps-modify staged _ _ (audit-Staged r.ctx _ agent.subject _ _)
                  (Keeps-pure staged _ _))
                (Keeps-lift staged _ _ (λ vec. search_now-Staged agent.subject req vec))))))))

  requested-Staged :
      (subject : Str) (req : GrantAsked)
      → Keeps (staged {V = V}) (
          in_store (
            request_grant r.ctx subject req.requested_scopes memory
              (if is_empty req.depth then facts_depth else req.depth)
              (asked_ttl req.ttl_seconds)
              req.justification))
  requested-Staged subject req =
      let depth = if is_empty req.depth then facts_depth else req.depth in
      in_store-Staged
        (request_grant r.ctx subject req.requested_scopes memory depth (asked_ttl req.ttl_seconds)
          req.justification)
        (request_grant-Keeps r.ctx subject req.requested_scopes memory depth
          (asked_ttl req.ttl_seconds) req.justification)

  report-Staged :
      {A : Type 0} (subject : Str) (m : Action (World V) ProposeError A)
      → Keeps staged m
      → Keeps staged (report_proposal api r subject m)
  unfolding report_proposal
  report-Staged subject m h w = elim (Result-cases (m w).0) [
    | inl (a, e) ↦ rw (e, report_proposal) (h w)
    | inr (invalid, e) ↦ rw (e, report_proposal) (h w)
    | inr (failed, e) ↦ rw (e, report_proposal) (h w)
    | inr (limited, e) ↦
        rw (e, report_proposal)
          (Staged-trans w (m w).1 _ (h w) (audit-Staged r.ctx _ subject _ _ (m w).1))
  ]

  agent_request_grant-Staged :
      (body : Option GrantAsked) (agent : AuthenticatedAgent)
      → Keeps staged (agent_request_grant api r body agent)
  unfolding agent_request_grant
  agent_request_grant-Staged body agent = Keeps-lift staged _ _ (λ req. Keeps-check staged _ _ _ (
      Keeps-check staged _ _ _ (
        Keeps-check staged _ _ _ (
          Keeps-check staged _ _ _ (
            Keeps-check staged _ _ _ (
              Keeps-check staged _ _ _
                (Keeps-or_else staged _ _ (requested-Staged agent.subject req))))))))

  agent_propose_write-Staged :
      (body : Option ProposalRequest) (agent : AuthenticatedAgent)
      → Keeps staged (agent_propose_write api r body agent)
  unfolding agent_propose_write
  agent_propose_write-Staged body agent = Keeps-lift staged _ _ (λ req. Keeps-check staged _ _ _ (
      Keeps-check staged _ _ _ (
        report-Staged agent.subject
          (propose_write api.bouncer r.ctx agent.subject req.content req.proposed_scopes
            req.target_fact_id)
          (propose_write-Staged api.bouncer r.ctx agent.subject req.content req.proposed_scopes
            req.target_fact_id))))

  agent_handler-Staged :
      (call : AgentCall) (agent : AuthenticatedAgent)
      → Keeps staged (agent_handler api r call agent)
  unfolding agent_handler agent_whoami agent_list_grants
  agent_handler-Staged (search body) agent =
      Keeps-then staged _ _ (agent_search-Staged body agent) (λ answer. Keeps-pure staged _ _)
  agent_handler-Staged (proposals body) agent =
      Keeps-then staged _ _ (agent_propose_write-Staged body agent)
        (λ answer. Keeps-pure staged _ _)
  agent_handler-Staged (grant_requests body) agent =
      Keeps-then staged _ _ (agent_request_grant-Staged body agent)
        (λ answer. Keeps-pure staged _ _)
  agent_handler-Staged grants agent =
      Keeps-then staged _ _ (Keeps-gets staged _ _ (λ own. Keeps-pure staged _ _))
        (λ answer. Keeps-pure staged _ _)
  agent_handler-Staged whoami agent =
      Keeps-then staged _ _ (Keeps-pure staged _ _) (λ answer. Keeps-pure staged _ _)

  serve_agent-Staged : (call : AgentCall) → Keeps staged (serve_agent api r call)
  unfolding serve_agent require_agent_auth
  serve_agent-Staged call =
      let answer = require_agent_auth api r (agent_handler api r call) in
      Keeps-if staged (str_eq r.method (codes "OPTIONS")) (pure preflight) answer
        (Keeps-pure staged _ _)
        (Keeps-lift staged _ _ (λ token.
          Keeps-then staged _ _
            (Keeps-or_else staged _ _ (
              in_auth-Staged (authenticate_agent_token api.tokens r.ctx token)
                (authenticate_agent-OnlyUsed api.tokens r.ctx token)))
            (λ agent. Keeps-lift staged _ _ (λ known. agent_handler-Staged call known))))

module _ {F V : Type 0} (api : AgentApi F V) where
  -- Agents only stage, over HTTP too: whatever requests their listener serves on its five routes,
  -- with whatever tokens, the grants, their scopes, the facts and their scopes stay exactly as they
  -- were, and so do the reviewers' tokens, the passkeys with their challenges and the enrolment
  -- latch; the agents' tokens stay as they were but for the time of their last use.
  pub serve_agents-Staged :
      (calls : List (Request × AgentCall)) (w : World V) → Staged w (serve_agents api calls w)
  unfolding serve_agents
  serve_agents-Staged [] w = Staged-refl w
  serve_agents-Staged ((r, call) ∷ calls) w =
      Staged-trans w (serve_agent api r call w).1
        (serve_agents api calls (serve_agent api r call w).1) (serve_agent-Staged api r call w)
        (serve_agents-Staged calls (serve_agent api r call w).1)
