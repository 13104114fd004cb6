-- ===== src/Api/Minting.antt =====
-- backend/internal/api/tokens.go and agent_tokens.go: minting and revoking the tokens of reviewers
-- and of agents.
use chuvar.Prelude.{
  ◌+◌, Str, Bool, not, ◌||◌, Option, is_empty, length, ltb, trim_space, if◌then◌else◌,
}
use chuvar.Base64.{url_alphabet, encode_raw}
use chuvar.Store.Types.{RowId}
use chuvar.Auth.Types.{AuthDb}
use chuvar.Auth.Action.{pure, gets, lift, check, ◌>>=◌, ◌>>◌, or_else}
use chuvar.Auth.Tokens.{
  AuthenticatedReviewer, ReviewerToken, create_reviewer_token, revoke_reviewer_token,
  enrollment_latch_set, count_ever_enrolled_reviewer_tokens,
}
use chuvar.Auth.AgentTokens.{AgentToken, create_agent_token, revoke_agent_token}
use chuvar.Auth.Passkeys.{count_ever_enrolled_credentials}
use chuvar.Api.Types.{
  Request, Randomness, Api, Handler, or_deny, max_token_label_length, bad_body, subject_required,
  label_required, field_too_long, cannot_revoke, internal_error,
}
use chuvar.Api.Factors.{verify_second_factor, require_strong_factor}

-- What createToken answers: the token, its plaintext and the enrolment URI.
pub record CreatedToken : Type 0 where
  pub token : ReviewerToken
  pub plaintext : Str
  pub totp_enroll_uri : Str

pub record CreatedAgentToken : Type 0 where
  pub token : AgentToken
  pub plaintext : Str

-- The fields of createAgentTokenRequest.
pub record AgentTokenRequest : Type 0 where
  pub subject : Str
  pub label : Str

-- The condition under which createToken asks for a second factor.
unfoldable pub enrollment_closed : AuthDb → Bool
enrollment_closed db =
    enrollment_latch_set db
    || ltb 0 (count_ever_enrolled_reviewer_tokens db + count_ever_enrolled_credentials db)

-- generateToken
unfoldable pub generate_token : Randomness → Str
generate_token random = encode_raw url_alphabet random.token_bytes

module _ {S P Q : Type 0} (api : Api S P Q) where
  -- What createToken does once the gate is passed; a body that does not decode is `none`.
  unfoldable pub mint_token : Request → Randomness → Option Str → Handler CreatedToken
  unfolding generate_token
  mint_token r random body = do
    sent ← lift (or_deny bad_body body)
    let label = trim_space sent
    check (not (is_empty label)) label_required
    check (not (ltb max_token_label_length (length label))) field_too_long
    let plaintext = generate_token random
    (secret, uri) ← lift (or_deny internal_error (api.totp_generate label random.seed))
    token ←
        or_else (create_reviewer_token api.store r.ctx random.nonce label plaintext secret)
          (λ _. internal_error)
    pure (record { token = token; plaintext = plaintext; totp_enroll_uri = uri })

  -- createToken
  unfoldable pub create_token :
      Request → Randomness → Option Str → AuthenticatedReviewer → Handler CreatedToken
  unfolding mint_token enrollment_closed
  create_token r random body reviewer = do
    closed ← gets enrollment_closed
    (if closed then verify_second_factor api r reviewer else pure tt)
    mint_token r random body

  -- createAgentToken, within its route's requireStrongFactor.
  unfoldable pub mint_agent_token :
      Request → Randomness → Option AgentTokenRequest → Handler CreatedAgentToken
  unfolding generate_token
  mint_agent_token r random body = do
    sent ← lift (or_deny bad_body body)
    let subject = trim_space sent.subject
    let label = trim_space sent.label
    check (not (is_empty subject)) subject_required
    check (not (is_empty label)) label_required
    check (not (ltb max_token_label_length (length subject))) field_too_long
    check (not (ltb max_token_label_length (length label))) field_too_long
    let plaintext = generate_token random
    token ←
        or_else (create_agent_token api.store r.ctx subject label plaintext) (λ _. internal_error)
    pure (record { token = token; plaintext = plaintext })

  -- POST /api/agent-tokens
  unfoldable pub agent_token_route :
      Request
      → Randomness
      → Option AgentTokenRequest
      → AuthenticatedReviewer
      → Handler CreatedAgentToken
  unfolding mint_agent_token
  agent_token_route r random body =
      require_strong_factor api r (λ _. mint_agent_token r random body)

-- revokeToken
unfoldable pub revoke_token : Request → RowId → Handler (Unit {0})
revoke_token r id = or_else (revoke_reviewer_token r.ctx id) (λ _. cannot_revoke)

-- revokeAgentToken
unfoldable pub revoke_agent_token_handler : Request → RowId → Handler (Unit {0})
revoke_agent_token_handler r id = or_else (revoke_agent_token r.ctx id) (λ _. cannot_revoke)
