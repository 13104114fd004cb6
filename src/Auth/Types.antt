-- ===== src/Auth/Types.antt =====
-- The rows of the credential tables (backend/internal/store/sqlcgen/models.go, with the constraints of
-- backend/internal/db/migrations), and what the store takes from the libraries.
use chuvar.Prelude.{ℕ, Str, Bool, Option, List}
use chuvar.Custody.{Key}
use chuvar.Store.Types.{RowId, Time, AuditRow}

-- The table reviewer_tokens.
pub record ReviewerTokenRow : Type 0 where
  pub id : RowId
  pub label : Str
  pub token_hash : Str
  pub totp_secret_enc : Option Str
  pub created_at : Time
  pub last_used_at : Option Time
  pub revoked_at : Option Time

-- The table agent_tokens.
pub record AgentTokenRow : Type 0 where
  pub id : RowId
  pub subject : Str
  pub label : Str
  pub token_hash : Str
  pub created_at : Time
  pub last_used_at : Option Time
  pub revoked_at : Option Time

-- The table webauthn_credentials.
pub record CredentialRow : Type 0 where
  pub id : RowId
  pub reviewer_token_id : RowId
  pub label : Str
  pub credential_id : Str
  pub public_key : Str
  pub attestation_type : Str
  pub transports : List Str
  pub aaguid : Str
  pub sign_count : ℕ
  pub backup_eligible : Bool
  pub backup_state : Bool
  pub created_at : Time
  pub last_used_at : Option Time
  pub clone_warning_at : Option Time
  pub revoked_at : Option Time

-- The table webauthn_challenges, without the id and created_at, which no query reads.
pub record ChallengeRow : Type 0 where
  pub reviewer_token_id : RowId
  pub purpose : Str
  pub session_data : Str
  pub expires_at : Time

-- `enrollment_latch` is the one row that its table may have: its latched_at.
pub record AuthDb : Type 0 where
  pub reviewer_tokens : List ReviewerTokenRow
  pub agent_tokens : List AgentTokenRow
  pub webauthn_credentials : List CredentialRow
  pub webauthn_challenges : List ChallengeRow
  pub enrollment_latch : Option Time
  pub audit_log : List AuditRow

-- A Store: the sealing key that NewSealed gives it, and, of the libraries, SHA-256 and
-- totp.Validate, which compares a code with a secret at a time.
pub record AuthStore : Type 0 where
  pub secrets : Option Key
  pub sha256 : Str → Str
  pub totp_validate : Time → Str → Str → Bool

pub data AuthError : Type 0 where
  label_empty subject_empty actor_empty reviewer_empty credential_id_empty : AuthError
  public_key_empty no_sealing_key cannot_open_secret duplicate_token : AuthError
  already_registered not_found_or_revoked no_such_token : AuthError
