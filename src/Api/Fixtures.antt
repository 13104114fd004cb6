-- ===== src/Api/Fixtures.antt =====
-- A small API and requests to it, for the tests.
use chuvar.Prelude.{
  suc, Str, codes, false, refl, Option, none, some, List, [], ◌∷◌, str_eq, not, ◌&&◌, is_empty,
  if◌then◌else◌,
}
use chuvar.Custody.{Aead, Key}
use chuvar.Store.Types.{RowId, Time, Context}
use chuvar.Auth.Types.{ReviewerTokenRow, CredentialRow, ChallengeRow, AuthDb, AuthStore}
use chuvar.Auth.Tokens.{AuthenticatedReviewer}
use chuvar.Auth.Passkeys.{NewCredential, assertion}
use chuvar.Api.Types.{Request, Randomness, LibraryCredential, Asserted, WebAuthn, Api}

-- A cipher without secrecy: a byte in front, taken off again.
abbrev pub plain_aead : Aead
plain_aead = record {
  nonce_size = 1;
  seal_bytes = λ nonce plaintext. 7 ∷ plaintext;
  open_bytes = λ nonce sealed. elim sealed [ [] ↦ none | x ∷ rest ↦ some rest ];
  opens = λ nonce plaintext h. refl;
}

abbrev pub plain_key : Key
plain_key = record { aead = plain_aead }

-- A hash that is the token, and a code that is the secret and not blank.
abbrev pub plain_store : AuthStore
plain_store = record {
  secrets = some plain_key;
  sha256 = λ token. token;
  totp_validate = λ now code secret. not (is_empty code) && str_eq code secret;
}

abbrev first_asserted : List LibraryCredential → Option Asserted
first_asserted [] = none
first_asserted (c ∷ creds) =
    some (record { credential_id = c.id; sign_count = suc c.sign_count; clone_warning = false })

abbrev new_key_of : Str → NewCredential
new_key_of body = record {
  credential_id = body;
  public_key = body;
  attestation_type = codes "none";
  transports = [];
  aaguid = [];
  sign_count = 0;
  backup_eligible = false;
  backup_state = false;
}

-- A response is right if it is the challenge.
abbrev pub plain_webauthn : WebAuthn Str Str Str
plain_webauthn = record {
  begin_registration = λ user exclude seed. some (seed, seed);
  begin_login = λ user seed. some (seed, seed);
  parse_creation = λ body. some body;
  create_credential =
      λ user session body. if str_eq session body then some (new_key_of body) else none;
  parse_assertion = λ body. if is_empty body then none else some body;
  validate_login =
      λ user session body. if str_eq session body then first_asserted user.credentials else none;
  marshal_session = λ session. session;
  unmarshal_session = λ text. some text;
}

abbrev pub plain_api : Api Str Str Str
plain_api = record {
  store = plain_store;
  webauthn = plain_webauthn;
  totp_generate = λ label seed. some (codes "s", label);
  marshal = λ fields. [];
}

-- A token with the plaintext "tok" and the sealed secret "s", and a passkey of it.
abbrev pub token_row : ReviewerTokenRow
token_row = record {
  id = 1;
  label = codes "laptop";
  token_hash = codes "tok";
  totp_secret_enc = some (0 ∷ 7 ∷ codes "s");
  created_at = 10;
  last_used_at = none;
  revoked_at = none;
}

abbrev pub passkey_row : CredentialRow
passkey_row = record {
  id = 5;
  reviewer_token_id = 1;
  label = codes "passkey";
  credential_id = codes "key";
  public_key = codes "pk";
  attestation_type = codes "none";
  transports = [];
  aaguid = [];
  sign_count = 3;
  backup_eligible = false;
  backup_state = false;
  created_at = 11;
  last_used_at = none;
  clone_warning_at = none;
  revoked_at = none;
}

-- The session "i" is pending for an assertion.
abbrev pub pending_row : ChallengeRow
pending_row = record {
  reviewer_token_id = 1;
  purpose = assertion;
  session_data = codes "i";
  expires_at = 100;
}

abbrev pub auth_db : AuthDb
auth_db = record {
  reviewer_tokens = token_row ∷ [];
  agent_tokens = [];
  webauthn_credentials = passkey_row ∷ [];
  webauthn_challenges = pending_row ∷ [];
  enrollment_latch = some 10;
  audit_log = [];
}

abbrev pub fresh_db : AuthDb
fresh_db = record {
  reviewer_tokens = record token_row { totp_secret_enc = none } ∷ [];
  agent_tokens = [];
  webauthn_credentials = [];
  webauthn_challenges = [];
  enrollment_latch = none;
  audit_log = [];
}

abbrev pub at : Time → RowId → Context
at now new_id = record { wall = now; db_now = now; new_id = new_id }

-- A request of the token "tok" with a code and an assertion.
abbrev pub request : Context → Str → Str → Request
request ctx code assertion_header = record {
  ctx = ctx;
  method = codes "POST";
  path = codes "/api/tokens";
  authorization = codes "Bearer tok";
  totp_code = code;
  assertion_header = assertion_header;
}

abbrev pub random : Randomness
random = record { nonce = 0 ∷ []; token_bytes = 1 ∷ 2 ∷ 3 ∷ []; seed = codes "seed" }

abbrev pub laptop : AuthenticatedReviewer
laptop = record { id = 1; label = codes "laptop" }
