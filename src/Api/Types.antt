-- ===== src/Api/Types.antt =====
-- What the handlers of backend/internal/api share: a request, the answers to one that is refused, and
-- what they take from the WebAuthn and TOTP libraries.
use chuvar.Prelude.{ℕ, Str, Bool, Option, none, some, List, Result, ok, err}
use chuvar.Store.Types.{RowId, Context}
use chuvar.Auth.Types.{AuthDb, AuthStore}
use chuvar.Auth.Action.{Action}
use chuvar.Auth.Passkeys.{NewCredential}

-- Of a request: the time of it, the id of the row that it may insert, and its headers, of which an
-- absent one is the empty text.
pub record Request : Type 0 where
  pub ctx : Context
  pub method : Str
  pub path : Str
  pub authorization : Str
  pub totp_code : Str
  pub assertion_header : Str

-- What the server draws at random while it handles a request: the nonce of a seal, the bytes of a
-- token, and what the libraries make of theirs.
pub record Randomness : Type 0 where
  pub nonce : Str
  pub token_bytes : Str
  pub seed : Str

-- The responses of writeError and writeStoreError.
pub data Denial : Type 0 where
  unauthorized totp_required totp_invalid no_enrolled_factor webauthn_required : Denial
  no_challenge clone_suspected assertion_not_base64 assertion_malformed assertion_invalid : Denial
  bad_body subject_required label_required field_too_long registration_failed : Denial
  passkey_registered no_passkey cannot_revoke internal_error : Denial
  too_many_scopes limit_too_large scope_invalid scopes_required depth_invalid : Denial
  ttl_negative proposal_invalid quota_used : Denial

-- The response's status code.
unfoldable pub status : Denial → ℕ
status unauthorized = 401
status totp_required = 401
status totp_invalid = 401
status no_enrolled_factor = 403
status webauthn_required = 401
status no_challenge = 401
status clone_suspected = 401
status assertion_not_base64 = 400
status assertion_malformed = 400
status assertion_invalid = 401
status bad_body = 400
status subject_required = 400
status label_required = 400
status field_too_long = 400
status registration_failed = 400
status passkey_registered = 409
status no_passkey = 409
status cannot_revoke = 409
status internal_error = 500
status too_many_scopes = 400
status limit_too_large = 400
status scope_invalid = 400
status scopes_required = 400
status depth_invalid = 400
status ttl_negative = 400
status proposal_invalid = 400
status quota_used = 429

-- webauthn.Credential
pub record LibraryCredential : Type 0 where
  pub id : Str
  pub public_key : Str
  pub attestation_type : Str
  pub transport : List Str
  pub backup_eligible : Bool
  pub backup_state : Bool
  pub aaguid : Str
  pub sign_count : ℕ

-- webauthnUser, as go-webauthn reads it.
pub record User : Type 0 where
  pub id : RowId
  pub label : Str
  pub credentials : List LibraryCredential

-- Of the credential that ValidateLogin returns, what the handler reads.
pub record Asserted : Type 0 where
  pub credential_id : Str
  pub sign_count : ℕ
  pub clone_warning : Bool

-- go-webauthn: S is its SessionData, P and Q are parsed responses; `seed` is the randomness of a
-- challenge. A failed call is `none`.
pub record WebAuthn (S P Q : Type 0) : Type 0 where
  pub begin_registration : User → List Str → Str → Option (Str × S)
  pub begin_login : User → Str → Option (Str × S)
  pub parse_creation : Str → Option P
  pub create_credential : User → S → P → Option NewCredential
  pub parse_assertion : Str → Option Q
  pub validate_login : User → S → Q → Option Asserted
  pub marshal_session : S → Str
  pub unmarshal_session : Str → Option S

-- An API: its store, go-webauthn, totp.Generate, which gives a label a secret and its URI, and
-- json.Marshal of a map of strings, as its keys and values in order.
pub record Api (S P Q : Type 0) : Type 0 where
  pub store : AuthStore
  pub webauthn : WebAuthn S P Q
  pub totp_generate : Str → Str → Option (Str × Str)
  pub marshal : List (Str × Str) → Str

abbrev pub Handler : Type 0 → Type 0
Handler A = Action AuthDb Denial A

abbrev pub max_token_label_length : ℕ
max_token_label_length = 128

-- A failed step is answered with this denial.
unfoldable pub or_deny : {A : Type 0} → Denial → Option A → Result Denial A
or_deny d none = err d
or_deny d (some a) = ok a
