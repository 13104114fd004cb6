-- ===== src/Api/Passkeys.antt =====
-- backend/internal/api/webauthn.go: the ceremonies that register a passkey and that begin an
-- assertion, and the revocation of a passkey.
use chuvar.Prelude.{
  ◌+◌, ◌*◌, Str, codes, not, is_empty, map, length, ltb, trim_space, if◌then◌else◌,
}
use chuvar.Store.Types.{RowId, Time}
use chuvar.Auth.Types.{CredentialRow, AuthError, already_registered}
use chuvar.Auth.Action.{pure, gets, lift, modify, check, ◌>>=◌, ◌>>◌, or_else}
use chuvar.Auth.Tokens.{AuthenticatedReviewer}
use chuvar.Auth.Passkeys.{
  registration, assertion, create_credential, put_challenge, consume_challenge, revoke_credential,
}
use chuvar.Api.Types.{
  Request, Randomness, Denial, Api, Handler, or_deny, max_token_label_length, no_challenge,
  bad_body, registration_failed, field_too_long, passkey_registered, no_passkey, cannot_revoke,
  internal_error,
}
use chuvar.Api.Factors.{load_user, require_existing_second_factor}

-- Five minutes, in nanoseconds.
abbrev pub webauthn_challenge_ttl : Time
webauthn_challenge_ttl = 5 * 60 * 1000000000

-- The errors of CreateWebAuthnCredential, as they are answered.
unfoldable pub registration_denial : AuthError → Denial
registration_denial already_registered = passkey_registered
registration_denial _ = internal_error

-- The label of a passkey: a default where none is given.
unfoldable pub passkey_label : Str → Str
passkey_label sent =
    let label = trim_space sent in if is_empty label then codes "passkey" else label

module _ {S P Q : Type 0} (api : Api S P Q) where
  -- webauthnRegisterBegin, within its route's requireExistingSecondFactor.
  unfoldable pub begin_registration_handler :
      Request → Randomness → AuthenticatedReviewer → Handler Str
  begin_registration_handler r random reviewer = do
    user ← gets (load_user reviewer)
    (creation, session) ← lift (
        or_deny internal_error
          (api.webauthn.begin_registration user (map (λ c. c.id) user.credentials) random.seed))
    modify (
        put_challenge reviewer.id registration (api.webauthn.marshal_session session)
          (r.ctx.wall + webauthn_challenge_ttl))
    pure creation

  -- POST /api/webauthn/register/begin
  unfoldable pub register_begin : Request → Randomness → AuthenticatedReviewer → Handler Str
  unfolding begin_registration_handler
  register_begin r random =
      require_existing_second_factor api r (begin_registration_handler r random)

  -- webauthnRegisterFinish, with the label that its body decodes to, or the empty text.
  unfoldable pub register_finish :
      Request → Str → Str → AuthenticatedReviewer → Handler CredentialRow
  unfolding registration_denial passkey_label
  register_finish r body sent_label reviewer = do
    pending ← or_else (consume_challenge r.ctx reviewer.id registration) (λ _. internal_error)
    session_data ← lift (or_deny no_challenge pending)
    session ← lift (or_deny internal_error (api.webauthn.unmarshal_session session_data))
    parsed ← lift (or_deny bad_body (api.webauthn.parse_creation body))
    user ← gets (load_user reviewer)
    cred ← lift (or_deny registration_failed (api.webauthn.create_credential user session parsed))
    let label = passkey_label sent_label
    check (not (ltb max_token_label_length (length label))) field_too_long
    or_else (create_credential api.marshal r.ctx reviewer.id label cred reviewer.label)
        registration_denial

  -- webauthnAssertBegin
  unfoldable pub assert_begin : Request → Randomness → AuthenticatedReviewer → Handler Str
  assert_begin r random reviewer = do
    user ← gets (load_user reviewer)
    check (not (is_empty user.credentials)) no_passkey
    (options, session) ← lift (or_deny internal_error (api.webauthn.begin_login user random.seed))
    modify (
        put_challenge reviewer.id assertion (api.webauthn.marshal_session session)
          (r.ctx.wall + webauthn_challenge_ttl))
    pure options

-- revokeWebAuthnCredential
unfoldable pub revoke_passkey : Request → RowId → AuthenticatedReviewer → Handler (Unit {0})
revoke_passkey r id reviewer = or_else (revoke_credential r.ctx id reviewer.id) (λ _. cannot_revoke)
