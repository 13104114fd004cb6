-- ===== src/Api/Factors.antt =====
-- backend/internal/api/api.go and webauthn.go: authentication by bearer token, and the second factors
-- that the routes ask for.
pub mod Proofs
pub mod Refusal
pub mod Soundness
use chuvar.Prelude.{
  ℕ, Str, codes, Bool, true, false, not, ◌&&◌, Option, none, some, List, [], ◌∷◌, ◌++◌, Result, ok,
  err, is_empty, map, has_prefix, trim_space, StrMap, get, put, if◌then◌else◌,
}
use chuvar.Custody.{drop}
use chuvar.Base64.{url_alphabet, encode_raw, decode_std}
use chuvar.Auth.Types.{CredentialRow, AuthDb}
use chuvar.Auth.Action.{pure, fail, gets, lift, check, ◌>>=◌, ◌>>◌, or_else}
use chuvar.Auth.Tokens.{
  AuthenticatedReviewer, authenticate_reviewer_token, verify_reviewer_totp, reviewer_has_totp,
}
use chuvar.Auth.Passkeys.{
  assertion, active_credentials_of, has_active_credential, consume_challenge, record_assertion_use,
  flag_clone_audited,
}
use chuvar.Api.Types.{
  Request, Denial, LibraryCredential, User, Asserted, Api, Handler, or_deny, unauthorized,
  totp_required, totp_invalid, no_enrolled_factor, webauthn_required, no_challenge, clone_suspected,
  assertion_not_base64, assertion_malformed, assertion_invalid, internal_error,
}

-- toLibraryCredential
unfoldable pub to_library_credential : CredentialRow → LibraryCredential
to_library_credential c = record {
  id = c.credential_id;
  public_key = c.public_key;
  attestation_type = c.attestation_type;
  transport = c.transports;
  backup_eligible = c.backup_eligible;
  backup_state = c.backup_state;
  aaguid = c.aaguid;
  sign_count = c.sign_count;
}

-- The map byCredentialID after its loop: a later row overwrites an earlier one.
unfoldable pub by_credential_id : StrMap CredentialRow → List CredentialRow → StrMap CredentialRow
by_credential_id m [] = m
by_credential_id m (c ∷ creds) = by_credential_id (put c.credential_id c m) creds

-- loadWebAuthnUser, without the map.
unfoldable pub load_user : AuthenticatedReviewer → AuthDb → User
unfolding to_library_credential
load_user reviewer db = record {
  id = reviewer.id;
  label = reviewer.label;
  credentials = map to_library_credential (active_credentials_of reviewer.id db);
}

-- What follows "Bearer ", if the header starts with it.
unfoldable pub bearer_token : Str → Option Str
bearer_token header = if has_prefix header (codes "Bearer ") then some (drop 7 header) else none

module _ {S P Q : Type 0} (api : Api S P Q) where
  -- requireAuth
  unfoldable pub require_auth :
      {A : Type 0} → Request → (AuthenticatedReviewer → Handler A) → Handler A
  require_auth r next = do
    token ← lift (or_deny unauthorized (bearer_token r.authorization))
    found ← or_else (authenticate_reviewer_token api.store r.ctx token) (λ _. internal_error)
    reviewer ← lift (or_deny unauthorized found)
    next reviewer

  -- verifyTOTPCode
  unfoldable pub verify_totp_code : Request → AuthenticatedReviewer → Handler (Unit {0})
  verify_totp_code r reviewer = do
    let code = trim_space r.totp_code
    check (not (is_empty code)) totp_required
    valid ← or_else (verify_reviewer_totp api.store r.ctx reviewer.id code) (λ _. internal_error)
    check valid totp_invalid

  -- The JSON of the audit rows of an assertion.
  unfoldable pub assertion_detail : Request → CredentialRow → Str
  assertion_detail r stored = api.marshal (
      (codes "action", r.method ++ (codes " " ++ r.path))
      ∷ (codes "credential_id", encode_raw url_alphabet stored.credential_id)
      ∷ [])

  -- The two ends of verifyWebAuthnAssertionHeader: a regressed counter revokes the credential, any
  -- other assertion updates it.
  unfoldable pub settle_assertion :
      Request → AuthenticatedReviewer → CredentialRow → Asserted → Handler (Unit {0})
  unfolding assertion_detail
  settle_assertion r reviewer stored cred =
      if cred.clone_warning
      then (do
        or_else (flag_clone_audited r.ctx stored.id reviewer.label (assertion_detail r stored))
            (λ _. internal_error)
        fail clone_suspected)
      else or_else
          (record_assertion_use r.ctx stored.id cred.sign_count reviewer.label
            (assertion_detail r stored))
          (λ _. internal_error)

  -- verifyWebAuthnAssertionHeader
  unfoldable pub verify_assertion_header : Request → AuthenticatedReviewer → Handler (Unit {0})
  unfolding settle_assertion
  verify_assertion_header r reviewer = do
    let raw = trim_space r.assertion_header
    check (not (is_empty raw)) webauthn_required
    body ← lift (or_deny assertion_not_base64 (decode_std raw))
    pending ← or_else (consume_challenge r.ctx reviewer.id assertion) (λ _. internal_error)
    session_data ← lift (or_deny no_challenge pending)
    session ← lift (or_deny internal_error (api.webauthn.unmarshal_session session_data))
    parsed ← lift (or_deny assertion_malformed (api.webauthn.parse_assertion body))
    user ← gets (load_user reviewer)
    known ← gets (λ db. by_credential_id [] (active_credentials_of reviewer.id db))
    cred ← lift (or_deny assertion_invalid (api.webauthn.validate_login user session parsed))
    stored ← lift (or_deny internal_error (get cred.credential_id known))
    settle_assertion r reviewer stored cred

  -- verifySecondFactor
  unfoldable pub verify_second_factor : Request → AuthenticatedReviewer → Handler (Unit {0})
  unfolding verify_assertion_header verify_totp_code
  verify_second_factor r reviewer =
      if is_empty (trim_space r.assertion_header)
      then verify_totp_code r reviewer
      else verify_assertion_header r reviewer

  -- requireStrongFactor
  unfoldable pub require_strong_factor :
      {A : Type 0}
      → Request
      → (AuthenticatedReviewer → Handler A)
      → AuthenticatedReviewer
      → Handler A
  unfolding verify_second_factor
  require_strong_factor r next reviewer = do verify_second_factor r reviewer; next reviewer

  -- The last steps of requireExistingSecondFactor, for a token that has a factor.
  unfoldable pub prove_existing_factor : Request → Bool → AuthenticatedReviewer → Handler (Unit {0})
  unfolding verify_assertion_header verify_totp_code
  prove_existing_factor r has_totp reviewer =
      if not (is_empty (trim_space r.assertion_header))
      then verify_assertion_header r reviewer
      else if has_totp
      then verify_totp_code r reviewer
      else fail webauthn_required

  -- requireExistingSecondFactor
  unfoldable pub require_existing_second_factor :
      {A : Type 0}
      → Request
      → (AuthenticatedReviewer → Handler A)
      → AuthenticatedReviewer
      → Handler A
  unfolding prove_existing_factor
  require_existing_second_factor r next reviewer = do
    enrolled ← gets (reviewer_has_totp reviewer.id)
    has_totp ← lift (or_deny internal_error enrolled)
    has_passkey ← gets (has_active_credential reviewer.id)
    check (not (not has_totp && not has_passkey)) no_enrolled_factor
    prove_existing_factor r has_totp reviewer
    next reviewer
