-- ===== src/Api/Routes.antt =====
-- The table of routes in backend/internal/api/api.go, as far as they read or change credentials, with
-- their patterns and the layers around each: cors, then requireAuth, then the route's own gate.
pub mod Evolution
pub mod Gate
pub mod Theft
pub mod Strong
use chuvar.Prelude.{Str, codes, str_eq, Option, List, [], ◌∷◌, if◌then◌else◌}
use chuvar.Store.Types.{RowId}
use chuvar.Auth.Types.{CredentialRow, AuthDb}
use chuvar.Auth.Action.{Action, pure, ◌>>=◌, ◌>>◌}
use chuvar.Auth.Tokens.{AuthenticatedReviewer}
use chuvar.Api.Types.{Request, Randomness, Api, Handler}
use chuvar.Api.Factors.{require_auth, require_strong_factor}
use chuvar.Api.Minting.{
  AgentTokenRequest, CreatedToken, CreatedAgentToken, create_token, agent_token_route, revoke_token,
  revoke_agent_token_handler,
}
use chuvar.Api.Passkeys.{register_begin, register_finish, assert_begin, revoke_passkey}

-- The routes whose handlers change no credential.
pub data Route : Type 0 where
  staged_diffs_list staged_diffs_approve staged_diffs_reject facts_get grants_list : Route
  grants_create grants_revoke grants_renew grant_requests_list grant_requests_approve : Route
  grant_requests_deny tokens_list agent_tokens_list webauthn_credentials_list : Route
  signing_policies_get signing_policies_set events : Route

-- A route with what its handler takes from the path and the body; what the handlers of `on_store`
-- take and answer is left out.
pub data Call : Type 0 where
  tokens_create : Randomness → Option Str → Call
  tokens_revoke : RowId → Call
  agent_tokens_create : Randomness → Option AgentTokenRequest → Call
  agent_tokens_revoke : RowId → Call
  webauthn_register_begin : Randomness → Call
  webauthn_register_finish : Str → Str → Call
  webauthn_assert_begin : Randomness → Call
  webauthn_credentials_revoke : RowId → Call
  on_store : Route → Call

-- The pattern under which a route is registered: its method and its path.
unfoldable pub route_pattern : Route → Str
route_pattern staged_diffs_list = codes "GET /api/staged-diffs"
route_pattern staged_diffs_approve = codes "POST /api/staged-diffs/{id}/approve"
route_pattern staged_diffs_reject = codes "POST /api/staged-diffs/{id}/reject"
route_pattern facts_get = codes "GET /api/facts/{id}"
route_pattern grants_list = codes "GET /api/grants"
route_pattern grants_create = codes "POST /api/grants"
route_pattern grants_revoke = codes "POST /api/grants/{id}/revoke"
route_pattern grants_renew = codes "POST /api/grants/{id}/renew"
route_pattern grant_requests_list = codes "GET /api/grant-requests"
route_pattern grant_requests_approve = codes "POST /api/grant-requests/{id}/approve"
route_pattern grant_requests_deny = codes "POST /api/grant-requests/{id}/deny"
route_pattern tokens_list = codes "GET /api/tokens"
route_pattern agent_tokens_list = codes "GET /api/agent-tokens"
route_pattern webauthn_credentials_list = codes "GET /api/webauthn/credentials"
route_pattern signing_policies_get = codes "GET /api/signing-policies/{repo...}"
route_pattern signing_policies_set = codes "POST /api/signing-policies"
route_pattern events = codes "GET /api/events"

unfoldable pub pattern : Call → Str
unfolding route_pattern
pattern (tokens_create random body) = codes "POST /api/tokens"
pattern (tokens_revoke id) = codes "POST /api/tokens/{id}/revoke"
pattern (agent_tokens_create random body) = codes "POST /api/agent-tokens"
pattern (agent_tokens_revoke id) = codes "POST /api/agent-tokens/{id}/revoke"
pattern (webauthn_register_begin random) = codes "POST /api/webauthn/register/begin"
pattern (webauthn_register_finish body label) = codes "POST /api/webauthn/register/finish"
pattern (webauthn_assert_begin random) = codes "POST /api/webauthn/assert/begin"
pattern (webauthn_credentials_revoke id) = codes "POST /api/webauthn/credentials/{id}/revoke"
pattern (on_store route) = route_pattern route

-- What a handler answers.
pub data Answer : Type 0 where
  no_content : Answer
  created_token : CreatedToken → Answer
  created_agent_token : CreatedAgentToken → Answer
  ceremony : Str → Answer
  registered : CredentialRow → Answer
  done : Answer

module _ {S P Q : Type 0} (api : Api S P Q) where
  -- A route of those, with the gate around its handler.
  unfoldable pub within : Request → Route → AuthenticatedReviewer → Handler Answer
  within r staged_diffs_list = λ _. pure done
  within r staged_diffs_approve = require_strong_factor api r (λ _. pure done)
  within r staged_diffs_reject = λ _. pure done
  within r facts_get = λ _. pure done
  within r grants_list = λ _. pure done
  within r grants_create = require_strong_factor api r (λ _. pure done)
  within r grants_revoke = λ _. pure done
  within r grants_renew = require_strong_factor api r (λ _. pure done)
  within r grant_requests_list = λ _. pure done
  within r grant_requests_approve = require_strong_factor api r (λ _. pure done)
  within r grant_requests_deny = λ _. pure done
  within r tokens_list = λ _. pure done
  within r agent_tokens_list = λ _. pure done
  within r webauthn_credentials_list = λ _. pure done
  within r signing_policies_get = λ _. pure done
  within r signing_policies_set = require_strong_factor api r (λ _. pure done)
  within r events = λ _. pure done

  unfoldable pub handler : Request → Call → AuthenticatedReviewer → Handler Answer
  unfolding within
  handler r (tokens_create random body) reviewer = do
    token ← create_token api r random body reviewer
    pure (created_token token)
  handler r (tokens_revoke id) reviewer = do revoke_token r id; pure no_content
  handler r (agent_tokens_create random body) reviewer = do
    token ← agent_token_route api r random body reviewer
    pure (created_agent_token token)
  handler r (agent_tokens_revoke id) reviewer = do revoke_agent_token_handler r id; pure no_content
  handler r (webauthn_register_begin random) reviewer = do
    creation ← register_begin api r random reviewer
    pure (ceremony creation)
  handler r (webauthn_register_finish body label) reviewer = do
    stored ← register_finish api r body label reviewer
    pure (registered stored)
  handler r (webauthn_assert_begin random) reviewer = do
    options ← assert_begin api r random reviewer
    pure (ceremony options)
  handler r (webauthn_credentials_revoke id) reviewer = do
    revoke_passkey r id reviewer
    pure no_content
  handler r (on_store route) reviewer = within r route reviewer

  -- Routes: a preflight request is answered before anyone is authenticated.
  unfoldable pub serve : Request → Call → Handler Answer
  unfolding handler
  serve r call =
      if str_eq r.method (codes "OPTIONS")
      then pure no_content
      else require_auth api r (handler r call)

  -- The credentials after a sequence of requests.
  unfoldable pub serve_all : List (Request × Call) → AuthDb → AuthDb
  unfolding serve
  serve_all [] db = db
  serve_all ((r, call) ∷ calls) db = serve_all calls (serve r call db).1
