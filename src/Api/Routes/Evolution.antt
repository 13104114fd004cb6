-- ===== src/Api/Routes/Evolution.antt =====
-- Whatever requests come, every credential goes on, and so does the gate of createToken.
use chuvar.Prelude.{Str, Option, List, [], ◌∷◌, codes, str_eq}
use chuvar.Store.Types.{RowId}
use chuvar.Auth.Types.{AuthDb}
use chuvar.Auth.Action.{
  Keeps-pure, Keeps-or_else, Keeps-then, Keeps-lift, Keeps-gets, Keeps-check, Keeps-modify,
  Keeps-if, pure, or_else,
}
use chuvar.Auth.Tokens.{AuthenticatedReviewer}
use chuvar.Auth.Passkeys.{registration, consume_challenge}
use chuvar.Auth.Evolution.{frozen, evolution, AuthEvolves, AuthEvolves-refl, AuthEvolves-trans}
use chuvar.Auth.Evolution.Freezing.{
  Freezes, Continues, Freezes-Continues, revoke_token-Freezes, revoke_agent-Freezes,
  revoke_credential-Freezes, consume-Freezes, put_assertion-Frozen,
}
use chuvar.Auth.Evolution.Minting.{
  create_token-Continues, create_agent-Continues, create_credential-Continues, put-Evolves,
}
use chuvar.Api.Types.{Request, Randomness, Api, internal_error}
use chuvar.Api.Factors.{require_auth, require_strong_factor, verify_second_factor}
use chuvar.Api.Factors.Proofs.{
  verify_second_factor-Freezes, require_auth-Continues, require_strong_factor-Continues,
  require_existing-Continues,
}
use chuvar.Api.Minting.{
  AgentTokenRequest, mint_token, create_token, mint_agent_token, agent_token_route, revoke_token,
  revoke_agent_token_handler,
}
use chuvar.Api.Passkeys.{
  begin_registration_handler, register_begin, register_finish, assert_begin, revoke_passkey,
}
use chuvar.Api.Routes.{
  Call, handler, serve, serve_all, tokens_create, tokens_revoke, agent_tokens_create,
  agent_tokens_revoke, webauthn_register_begin, webauthn_register_finish, webauthn_assert_begin,
  webauthn_credentials_revoke, on_store, Route, within, done, no_content, staged_diffs_list,
  staged_diffs_approve, staged_diffs_reject, facts_get, grants_list, grants_create, grants_revoke,
  grants_renew, grant_requests_list, grant_requests_approve, grant_requests_deny, tokens_list,
  agent_tokens_list, webauthn_credentials_list, signing_policies_get, signing_policies_set, events,
}

pub revoke_token_handler-Freezes : (r : Request) (id : RowId) → Freezes (revoke_token r id)
unfolding revoke_token
revoke_token_handler-Freezes r id = Keeps-or_else frozen _ _ (revoke_token-Freezes r.ctx id)

pub revoke_agent_handler-Freezes :
    (r : Request) (id : RowId) → Freezes (revoke_agent_token_handler r id)
unfolding revoke_agent_token_handler
revoke_agent_handler-Freezes r id = Keeps-or_else frozen _ _ (revoke_agent-Freezes r.ctx id)

pub revoke_passkey-Freezes :
    (r : Request) (id : RowId) (reviewer : AuthenticatedReviewer)
    → Freezes (revoke_passkey r id reviewer)
unfolding revoke_passkey
revoke_passkey-Freezes r id reviewer =
    Keeps-or_else frozen _ _ (revoke_credential-Freezes r.ctx id reviewer.id)

module _ {S P Q : Type 0} (api : Api S P Q) (r : Request) where
  mint_token-Continues :
      (random : Randomness) (body : Option Str) → Continues (mint_token api r random body)
  unfolding mint_token
  mint_token-Continues random body = Keeps-lift evolution _ _ (λ sent. Keeps-check evolution _ _ _ (
      Keeps-check evolution _ _ _ (
        Keeps-lift evolution _ _ (λ made.
          Keeps-then evolution _ _
            (Keeps-or_else evolution _ _
              (create_token-Continues api.store r.ctx random.nonce _ _ _))
            (λ token. Keeps-pure evolution _ _)))))

  create_token_handler-Continues :
      (random : Randomness) (body : Option Str) (reviewer : AuthenticatedReviewer)
      → Continues (create_token api r random body reviewer)
  unfolding create_token
  create_token_handler-Continues random body reviewer = Keeps-gets evolution _ _ (λ closed.
      Keeps-then evolution _ _
        (Keeps-if evolution closed (verify_second_factor api r reviewer) (pure tt)
          (Freezes-Continues (verify_second_factor api r reviewer)
            (verify_second_factor-Freezes api r reviewer))
          (Keeps-pure evolution _ _))
        (λ proved. mint_token-Continues random body))

  agent_token_route-Continues :
      (random : Randomness) (body : Option AgentTokenRequest) (reviewer : AuthenticatedReviewer)
      → Continues (agent_token_route api r random body reviewer)
  unfolding agent_token_route mint_agent_token
  agent_token_route-Continues random body reviewer =
      require_strong_factor-Continues api r (λ _. mint_agent_token api r random body) reviewer
        (Keeps-lift evolution _ _ (λ sent. Keeps-check evolution _ _ _ (
          Keeps-check evolution _ _ _ (
            Keeps-check evolution _ _ _ (
              Keeps-check evolution _ _ _ (
                Keeps-then evolution _ _
                  (Keeps-or_else evolution _ _ (create_agent-Continues api.store r.ctx _ _ _))
                  (λ token. Keeps-pure evolution _ _)))))))

  register_begin-Continues :
      (random : Randomness) (reviewer : AuthenticatedReviewer)
      → Continues (register_begin api r random reviewer)
  unfolding register_begin begin_registration_handler
  register_begin-Continues random reviewer =
      require_existing-Continues api r (begin_registration_handler api r random) reviewer (
        Keeps-gets evolution _ _ (λ user. Keeps-lift evolution _ _ (λ begun.
          Keeps-modify evolution _ _ (put-Evolves reviewer.id registration _ _)
            (Keeps-pure evolution _ _))))

  register_finish-Continues :
      (body label : Str) (reviewer : AuthenticatedReviewer)
      → Continues (register_finish api r body label reviewer)
  unfolding register_finish
  register_finish-Continues body label reviewer =
      let consume =
        or_else (consume_challenge r.ctx reviewer.id registration) (λ _. internal_error) in
      Keeps-then evolution _ _
        (Freezes-Continues consume
          (Keeps-or_else frozen _ _ (consume-Freezes r.ctx reviewer.id registration)))
        (λ pending. Keeps-lift evolution _ _ (λ session_data. Keeps-lift evolution _ _ (λ session.
          Keeps-lift evolution _ _ (λ parsed. Keeps-gets evolution _ _ (λ user.
            Keeps-lift evolution _ _ (λ cred. Keeps-check evolution _ _ _ (
              Keeps-or_else evolution _ _ (
                create_credential-Continues api.marshal r.ctx reviewer.id _ cred
                  reviewer.label))))))))

  pub assert_begin-Freezes :
      (random : Randomness) (reviewer : AuthenticatedReviewer)
      → Freezes (assert_begin api r random reviewer)
  unfolding assert_begin
  assert_begin-Freezes random reviewer = Keeps-gets frozen _ _ (λ user. Keeps-check frozen _ _ _ (
      Keeps-lift frozen _ _ (λ begun.
        Keeps-modify frozen _ _ (put_assertion-Frozen reviewer.id _ _) (Keeps-pure frozen _ _))))

  gated-Continues :
      (reviewer : AuthenticatedReviewer)
      → Continues (require_strong_factor api r (λ _. pure done) reviewer)
  gated-Continues reviewer =
      require_strong_factor-Continues api r (λ _. pure done) reviewer (Keeps-pure evolution _ _)

  within-Continues :
      (route : Route) (reviewer : AuthenticatedReviewer) → Continues (within api r route reviewer)
  unfolding within
  within-Continues staged_diffs_list reviewer = Keeps-pure evolution _ _
  within-Continues staged_diffs_approve reviewer = gated-Continues reviewer
  within-Continues staged_diffs_reject reviewer = Keeps-pure evolution _ _
  within-Continues facts_get reviewer = Keeps-pure evolution _ _
  within-Continues grants_list reviewer = Keeps-pure evolution _ _
  within-Continues grants_create reviewer = gated-Continues reviewer
  within-Continues grants_revoke reviewer = Keeps-pure evolution _ _
  within-Continues grants_renew reviewer = gated-Continues reviewer
  within-Continues grant_requests_list reviewer = Keeps-pure evolution _ _
  within-Continues grant_requests_approve reviewer = gated-Continues reviewer
  within-Continues grant_requests_deny reviewer = Keeps-pure evolution _ _
  within-Continues tokens_list reviewer = Keeps-pure evolution _ _
  within-Continues agent_tokens_list reviewer = Keeps-pure evolution _ _
  within-Continues webauthn_credentials_list reviewer = Keeps-pure evolution _ _
  within-Continues signing_policies_get reviewer = Keeps-pure evolution _ _
  within-Continues signing_policies_set reviewer = gated-Continues reviewer
  within-Continues events reviewer = Keeps-pure evolution _ _

  handler-Continues :
      (call : Call) (reviewer : AuthenticatedReviewer) → Continues (handler api r call reviewer)
  unfolding handler
  handler-Continues (tokens_create random body) reviewer =
      Keeps-then evolution _ _ (create_token_handler-Continues random body reviewer)
        (λ token. Keeps-pure evolution _ _)
  handler-Continues (tokens_revoke id) reviewer =
      Keeps-then evolution _ _
        (Freezes-Continues (revoke_token r id) (revoke_token_handler-Freezes r id))
        (λ done. Keeps-pure evolution _ _)
  handler-Continues (agent_tokens_create random body) reviewer =
      Keeps-then evolution _ _ (agent_token_route-Continues random body reviewer)
        (λ token. Keeps-pure evolution _ _)
  handler-Continues (agent_tokens_revoke id) reviewer =
      Keeps-then evolution _ _
        (Freezes-Continues (revoke_agent_token_handler r id) (revoke_agent_handler-Freezes r id))
        (λ done. Keeps-pure evolution _ _)
  handler-Continues (webauthn_register_begin random) reviewer =
      Keeps-then evolution _ _ (register_begin-Continues random reviewer)
        (λ creation. Keeps-pure evolution _ _)
  handler-Continues (webauthn_register_finish body label) reviewer =
      Keeps-then evolution _ _ (register_finish-Continues body label reviewer)
        (λ stored. Keeps-pure evolution _ _)
  handler-Continues (webauthn_assert_begin random) reviewer =
      Keeps-then evolution _ _
        (Freezes-Continues (assert_begin api r random reviewer)
          (assert_begin-Freezes random reviewer))
        (λ options. Keeps-pure evolution _ _)
  handler-Continues (webauthn_credentials_revoke id) reviewer =
      Keeps-then evolution _ _
        (Freezes-Continues (revoke_passkey r id reviewer) (revoke_passkey-Freezes r id reviewer))
        (λ done. Keeps-pure evolution _ _)
  handler-Continues (on_store route) reviewer = within-Continues route reviewer

  serve-Continues : (call : Call) → Continues (serve api r call)
  unfolding serve
  serve-Continues call =
      let answer = require_auth api r (handler api r call) in
      Keeps-if evolution (str_eq r.method (codes "OPTIONS")) (pure no_content) answer
        (Keeps-pure evolution _ _)
        (require_auth-Continues api r (handler api r call) (handler-Continues call))

module _ {S P Q : Type 0} (api : Api S P Q) where
  -- Whatever requests come, in whatever order, refused ones among them, every reviewer token, agent
  -- token and passkey stays at its place in its table with its id, its hash or key and its owner,
  -- a token's sealed secret stays, what is revoked stays revoked, and the latch, once set, stays.
  pub serve_all-AuthEvolves :
      (calls : List (Request × Call)) (db : AuthDb) → AuthEvolves db (serve_all api calls db)
  unfolding serve_all
  serve_all-AuthEvolves [] db = AuthEvolves-refl db
  serve_all-AuthEvolves ((r, call) ∷ calls) db =
      AuthEvolves-trans db (serve api r call db).1 (serve_all api calls (serve api r call db).1)
        (serve-Continues api r call db) (serve_all-AuthEvolves calls (serve api r call db).1)
