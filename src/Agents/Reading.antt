-- ===== src/Agents/Reading.antt =====
-- What an agent's search has gone through when it shows facts.
use chuvar.Prelude.{
  Str, codes, str_eq, str_eq_iff, false, not, &&-true, ◌≡◌, refl, sym, ap, ap₂, subst, ◌∙◌, inl,
  inr, Option, none, some, List, [], ◌∷◌, ◌++◌, ok, err, is_empty, Elem, map, Result, Bool-cases,
  Option-cases, arith,
}
use chuvar.Scope.{missing}
use chuvar.Store.Types.{Context, Db, Fact, GrantedScope}
use chuvar.Store.Tables.{find, find-Elem}
use chuvar.Store.Audit.{no_subjects, audit_row}
use chuvar.Store.Grants.{granted_scope_depths}
use chuvar.Store.Facts.{search_facts}
use chuvar.Auth.Types.{AgentTokenRow, AuthDb, AuthStore}
use chuvar.Auth.Action.{Action, >>=-ok, or_else-ok, lift-ok, gets-ok, check-ok, modify-ok, pure-ok}
use chuvar.Auth.Tokens.{hash_token, is_unset}
use chuvar.Auth.AgentTokens.{AuthenticatedAgent, authenticate_agent_token, active_agent_with_hash}
use chuvar.Api.Types.{Request}
use chuvar.Api.Factors.Refusal.{or_deny-ok}
use chuvar.Api.Factors.Soundness.{unset-none}
use chuvar.Api.Routes.Strong.{bearer_lem}
use chuvar.Bouncer.{World, in_auth}
use chuvar.Agents.{
  AgentApi, AgentHandler, search, searched, audit_event, require_agent_auth, refuse_search,
  read_facts, search_now, agent_search, agent_handler, serve_agent,
}
use chuvar.Agents.Types.{SearchRequest, search_limit, granted_scope_strs, found}

-- The row is an active one of this plaintext.
pub record AdmitsAgent (store : AuthStore) (token : Str) (db : AuthDb) (t : AgentTokenRow)
    : Type 0 where
  pub there : Elem t db.agent_tokens
  pub hashed : t.token_hash ≡ store.sha256 token
  pub unrevoked : t.revoked_at ≡ none

active_agent_lem :
    (store : AuthStore) (token : Str) (db : AuthDb) (t : AgentTokenRow)
    → find (active_agent_with_hash (hash_token store token)) db.agent_tokens ≡ some t
    → AdmitsAgent store token db t
unfolding active_agent_with_hash hash_token
active_agent_lem store token db t h =
    let (there, hit) = find-Elem _ db.agent_tokens t h in
    let (same, unset) =
      &&-true (str_eq t.token_hash (store.sha256 token)) (is_unset t.revoked_at) hit in
    record {
      there = there;
      hashed = (str_eq_iff t.token_hash (store.sha256 token)).0 same;
      unrevoked = unset-none t.revoked_at unset;
    }

authenticate_agent-some :
    (store : AuthStore) (ctx : Context) (token : Str) (db db' : AuthDb) (agent : AuthenticatedAgent)
    → authenticate_agent_token store ctx token db ≡ (ok (some agent), db')
    → (t : AgentTokenRow) × AdmitsAgent store token db t × (agent.subject ≡ t.subject)
unfolding authenticate_agent_token
authenticate_agent-some store ctx token db db' agent h =
    let e₁ = gets-ok _ _ _ _ _ h in
    let e₂ = modify-ok _ _ _ _ _ e₁ in
    let (answer, _) = pure-ok _ _ _ _ e₂ in
    elim (Option-cases (find (active_agent_with_hash (hash_token store token)) db.agent_tokens)) [
      | inl missing_row ↦ absurd (cc (rw missing_row at answer))
      | inr (t, e) ↦
          let row : some agent ≡ some (record { id = t.id; subject = t.subject; label = t.label }) =
            rw e at answer in
          let same : agent ≡ record { id = t.id; subject = t.subject; label = t.label } = cc row in
          (t, active_agent_lem store token db t e, ap (λ a. a.subject) same)
    ]

module _ {F V : Type 0} (api : AgentApi F V) (r : Request) where
  -- The facts are what the store finds for the subject's grants, which leave none of the requested
  -- scopes uncovered, and the read of them is audited.
  pub record Disclosed (subject : Str) (body : Option SearchRequest) (facts : List Fact)
      (db db' : Db V) : Type 0 where
    pub req : SearchRequest
    pub vec : List F
    pub sent : body ≡ some req
    pub covered :
        missing req.requested_scopes
          (granted_scope_strs (granted_scope_depths r.ctx.db_now subject db))
        ≡ []
    pub searched_for :
        search_facts api.bouncer.engine req.query vec
          (granted_scope_depths r.ctx.db_now subject db)
          (search_limit req.limit)
          db
        ≡ ok facts
    pub audited : db' ≡ record db {
      audit_log =
          db.audit_log
          ++ audit_row r.ctx
              (codes "read")
              subject
              no_subjects
              (granted_scope_strs (granted_scope_depths r.ctx.db_now subject db))
              (some (api.marshal_read (map (λ f. (f.id, f.depth)) facts)))
            ∷ [];
    }

  refused :
      (subject : Str) (lacking : List Str) (w w' : World V) (facts : List Fact)
      → ¬ (refuse_search api r subject lacking w ≡ (ok (found facts), w'))
  unfolding refuse_search
  refused subject lacking w w' facts h =
      let (answer, _) = pure-ok _ _ _ _ (modify-ok _ _ _ _ _ h) in cc answer

  none_lacking : {A : Type 0} (xs : List A) → not (is_empty xs) ≡ false → xs ≡ []
  none_lacking [] h = refl
  none_lacking (x ∷ xs) h = absurd (cc h)

  all_found :
      {A E D : Type 0} (result : Result E A) (d : D) (a : A)
      → (elim result as (λ _. Result D A) [ ok x ↦ ok x | err _ ↦ err d ]) ≡ ok a
      → result ≡ ok a
  all_found (ok x) d a h = ground arith
  all_found (err x) d a h = absurd (cc h)

  read_ok :
      (subject : Str) (req : SearchRequest) (vec : List F) (granted : List GrantedScope)
      (facts : List Fact) (w w' : World V)
      → read_facts api r subject req vec granted w ≡ (ok (found facts), w')
      → (search_facts api.bouncer.engine req.query vec granted (search_limit req.limit) w.store
          ≡ ok facts)
        × (w'
            ≡ audit_event r.ctx
                (codes "read")
                subject
                (granted_scope_strs granted)
                (some (api.marshal_read (map (λ f. (f.id, f.depth)) facts)))
                w)
  unfolding read_facts
  read_ok subject req vec granted facts w w' h =
      let e₁ = gets-ok _ _ _ _ _ h in
      let (facts₁, d, e₂) = lift-ok _ _ _ _ _ e₁ in
      let e₃ = modify-ok _ _ _ _ _ e₂ in
      let (answer, state) = pure-ok _ _ _ _ e₃ in
      let same : facts₁ ≡ facts = cc answer in
      (
        all_found _ _ _ d ∙ ap (λ f. ok f) same,
        state
            ∙ ap
                (λ fs.
                  audit_event r.ctx (codes "read") subject (granted_scope_strs granted)
                    (some (api.marshal_read (map (λ f. (f.id, f.depth)) fs))) w)
                same,
      )

  shown :
      (subject : Str) (req : SearchRequest) (vec : List F) (facts : List Fact) (w w' : World V)
      → search_now api r subject req vec w ≡ (ok (found facts), w')
      → Disclosed subject (some req) facts w.store w'.store
  unfolding search_now audit_event
  shown subject req vec facts w w' h =
      let e₁ = gets-ok _ _ _ _ _ h in
      let granted = granted_scope_depths r.ctx.db_now subject w.store in
      let lacking = missing req.requested_scopes (granted_scope_strs granted) in
      elim (Bool-cases (not (is_empty lacking))) [
        | inl e ↦ absurd (refused subject lacking w w' facts (rw e at e₁))
        | inr e ↦
            let (result, state) = read_ok subject req vec granted facts w w' (rw e at e₁) in
            record {
              req = req;
              vec = vec;
              sent = refl;
              covered = none_lacking lacking e;
              searched_for = result;
              audited = ap (λ w. w.store) state;
            }
      ]

  agent_search-ok :
      (body : Option SearchRequest) (agent : AuthenticatedAgent) (facts : List Fact)
      (w w' : World V)
      → agent_search api r body agent w ≡ (ok (found facts), w')
      → Disclosed agent.subject body facts w.store w'.store
  unfolding agent_search
  agent_search-ok body agent facts w w' h =
      let (req, d, e₁) = lift-ok _ _ _ _ _ h in
      let (_, e₂) = check-ok _ _ _ _ _ _ e₁ in
      let (_, e₃) = check-ok _ _ _ _ _ _ e₂ in
      let (_, e₄) = check-ok _ _ _ _ _ _ e₃ in
      let (_, e₅) = check-ok _ _ _ _ _ _ e₄ in
      let e₆ = gets-ok _ _ _ _ _ e₅ in
      let lacking =
        missing req.requested_scopes
          (granted_scope_strs (granted_scope_depths r.ctx.db_now agent.subject w.store)) in
      let sent : body ≡ some req = or_deny-ok _ _ _ d in
      elim (Bool-cases (not (is_empty lacking))) [
        | inl e ↦ absurd (refused agent.subject lacking w w' facts (rw e at e₆))
        | inr e ↦
            let (vec, _, e₇) = lift-ok _ _ _ _ _ (rw e at e₆) in
            subst (λ b. Disclosed agent.subject b facts w.store w'.store) (sym sent)
              (shown agent.subject req vec facts w w' e₇)
      ]

  in_auth-ok :
      {E A : Type 0} (m : Action AuthDb E A) (a : A) (w w₁ : World V)
      → in_auth m w ≡ (ok a, w₁)
      → (m w.auth ≡ (ok a, w₁.auth)) × (w₁.store ≡ w.store)
  unfolding in_auth
  in_auth-ok m a w w₁ h = (ap (λ x. (x.0, x.1.auth)) h, ap (λ x. x.1.store) (sym h))

  agent_auth-ok :
      {A : Type 0} (next : AuthenticatedAgent → AgentHandler V A) (a : A) (w w' : World V)
      → require_agent_auth api r next w ≡ (ok a, w')
      → (token : Str) × (t : AgentTokenRow) × (agent : AuthenticatedAgent) × (w₁ : World V)
        × (r.authorization ≡ codes "Bearer " ++ token)
        × AdmitsAgent api.tokens token w.auth t
        × (agent.subject ≡ t.subject)
        × (w₁.store ≡ w.store)
        × (next agent w₁ ≡ (ok a, w'))
  unfolding require_agent_auth
  agent_auth-ok next a w w' h =
      let (token, d₁, e₁) = lift-ok _ _ _ _ _ h in
      let (agent, w₁, d₂, e₂) = >>=-ok _ _ _ _ _ e₁ in
      let (known, d₃, e₃) = lift-ok _ _ _ _ _ e₂ in
      let some_agent : agent ≡ some known = or_deny-ok _ _ _ d₃ in
      let (authenticated, kept) =
        in_auth-ok (authenticate_agent_token api.tokens r.ctx token) agent w w₁
          (or_else-ok _ _ _ _ _ d₂) in
      let (t, admits, same) =
        authenticate_agent-some api.tokens r.ctx token w.auth w₁.auth known
          (authenticated ∙ ap (λ o. (ok o, w₁.auth)) some_agent) in
      (
        token,
        t,
        known,
        w₁,
        bearer_lem r.authorization token (or_deny-ok _ _ _ d₁),
        admits,
        same,
        kept,
        e₃,
      )

  search_handler-ok :
      (body : Option SearchRequest) (agent : AuthenticatedAgent) (facts : List Fact)
      (w w' : World V)
      → agent_handler api r (search body) agent w ≡ (ok (searched (found facts)), w')
      → Disclosed agent.subject body facts w.store w'.store
  unfolding agent_handler
  search_handler-ok body agent facts w w' h =
      let (answer, w₁, d, e) = >>=-ok _ _ _ _ _ h in
      let (same, last) = pure-ok _ _ _ _ e in
      let found_facts : answer ≡ found facts = cc same in
      agent_search-ok body agent facts w w' (d ∙ ap₂ (λ x y. (ok x, y)) found_facts (sym last))

  -- An agent is shown facts only with an agent token that is stored and not revoked, and as the
  -- subject of that token: they are what the store finds for the grants of that subject alone, which
  -- cover every scope that was requested, and the last row of the audit log, the only change to the
  -- store, tells of the read by that subject, with each fact's id and depth.
  pub agent_read_lem :
      (body : Option SearchRequest) (facts : List Fact) (w w' : World V)
      → serve_agent api r (search body) w ≡ (ok (searched (found facts)), w')
      → (token : Str) × (t : AgentTokenRow) × (r.authorization ≡ codes "Bearer " ++ token)
        × AdmitsAgent api.tokens token w.auth t
        × Disclosed t.subject body facts w.store w'.store
  unfolding serve_agent
  agent_read_lem body facts w w' h = elim (Bool-cases (str_eq r.method (codes "OPTIONS"))) [
    | inl e ↦ absurd (cc (pure-ok _ _ _ _ (rw e at h)).0)
    | inr e ↦
        let (token, t, agent, w₁, bearer, admits, same, kept, answered) =
          agent_auth-ok (agent_handler api r (search body)) (searched (found facts)) w w'
            (rw e at h) in
        let read : Disclosed agent.subject body facts w₁.store w'.store =
          search_handler-ok body agent facts w₁ w' answered in
        (
          token,
          t,
          bearer,
          admits,
          subst (λ s. Disclosed s body facts w.store w'.store) same
              (subst (λ d. Disclosed agent.subject body facts d w'.store) kept read),
        )
  ]
