-- ===== src/Auth/Passkeys.antt =====
-- backend/internal/store/webauthn.go, with its queries (sqlcgen/webauthn.sql.go): passkeys, and the
-- challenges of the ceremonies.
pub mod Challenges
use chuvar.Prelude.{
  ℕ, Str, codes, Bool, true, false, not, ◌&&◌, Option, none, some, List, [], ◌∷◌, ◌++◌, length,
  is_empty, any, keep_if, str_eq, ltb, ◌==◌, if◌then◌else◌,
}
use chuvar.Base64.{url_alphabet, encode_raw}
use chuvar.Store.Types.{RowId, Time, Context}
use chuvar.Store.Tables.{find, update_where, count_where}
use chuvar.Store.Audit.{no_subjects, audit_row}
use chuvar.Auth.Action.{Action, pure, gets, modify, check, ◌>>=◌, ◌>>◌, atomically}
use chuvar.Auth.Types.{
  CredentialRow, ChallengeRow, AuthDb, AuthError, label_empty, actor_empty, credential_id_empty,
  public_key_empty, already_registered, not_found_or_revoked,
}
use chuvar.Auth.Tokens.{is_unset, set_enrollment_latch}

abbrev pub registration : Str
registration = codes "registration"

abbrev pub assertion : Str
assertion = codes "assertion"

-- What a ceremony finds out of a new authenticator: go-webauthn's Credential.
pub record NewCredential : Type 0 where
  pub credential_id : Str
  pub public_key : Str
  pub attestation_type : Str
  pub transports : List Str
  pub aaguid : Str
  pub sign_count : ℕ
  pub backup_eligible : Bool
  pub backup_state : Bool

unfoldable pub new_credential_row : Context → RowId → Str → NewCredential → CredentialRow
new_credential_row ctx reviewer_token_id label cred = record {
  id = ctx.new_id;
  reviewer_token_id = reviewer_token_id;
  label = label;
  credential_id = cred.credential_id;
  public_key = cred.public_key;
  attestation_type = cred.attestation_type;
  transports = cred.transports;
  aaguid = cred.aaguid;
  sign_count = cred.sign_count;
  backup_eligible = cred.backup_eligible;
  backup_state = cred.backup_state;
  created_at = ctx.db_now;
  last_used_at = none;
  clone_warning_at = none;
  revoked_at = none;
}

-- logAudit of an event that names no row.
unfoldable pub log_event : Context → Str → Str → Str → AuthDb → AuthDb
log_event ctx event_type actor detail db = record db {
  audit_log = db.audit_log ++ audit_row ctx event_type actor no_subjects [] (some detail) ∷ [];
}

-- The unique index on the credential ids that are not revoked.
unfoldable pub active_with_credential_id : Str → CredentialRow → Bool
active_with_credential_id credential_id c =
    str_eq c.credential_id credential_id && is_unset c.revoked_at

-- InsertWebAuthnCredential
unfoldable pub insert_credential :
    Context → RowId → Str → NewCredential → Action AuthDb AuthError CredentialRow
insert_credential ctx reviewer_token_id label cred = do
  taken ← gets (λ db. any (active_with_credential_id cred.credential_id) db.webauthn_credentials)
  check (not taken) already_registered
  let row = new_credential_row ctx reviewer_token_id label cred
  modify (λ db. record db { webauthn_credentials = db.webauthn_credentials ++ row ∷ [] })
  pure row

-- `marshal` is json.Marshal of a map of strings, as its keys and values in order.
module _ (marshal : List (Str × Str) → Str) where
  -- CreateWebAuthnCredential; a reviewer token's id, a uuid, is never empty.
  unfoldable pub create_credential :
      Context → RowId → Str → NewCredential → Str → Action AuthDb AuthError CredentialRow
  create_credential ctx reviewer_token_id label cred actor = do
    check (not (is_empty label)) label_empty
    check (not (is_empty actor)) actor_empty
    check (not (is_empty cred.credential_id)) credential_id_empty
    check (not (is_empty cred.public_key)) public_key_empty
    atomically (do
      row ← insert_credential ctx reviewer_token_id label cred
      modify (set_enrollment_latch ctx)
      let detail = marshal (
          (codes "credential_id", encode_raw url_alphabet row.credential_id)
          ∷ (codes "label", label)
          ∷ [])
      modify (log_event ctx (codes "webauthn_credential_enrolled") actor detail)
      pure row)

-- ListWebAuthnCredentialsForReviewer: the rows stand in the order of their creation.
unfoldable pub credentials_of : RowId → AuthDb → List CredentialRow
credentials_of reviewer db = keep_if (λ c. c.reviewer_token_id == reviewer) db.webauthn_credentials

-- ActiveWebAuthnCredentialsForReviewer
unfoldable pub active_credentials_of : RowId → AuthDb → List CredentialRow
unfolding credentials_of
active_credentials_of reviewer db =
    keep_if (λ c. is_unset c.revoked_at) (credentials_of reviewer db)

-- CountEverEnrolledWebAuthnCredentials
unfoldable pub count_ever_enrolled_credentials : AuthDb → ℕ
count_ever_enrolled_credentials db = length db.webauthn_credentials

-- ReviewerHasActiveWebAuthnCredential
unfoldable pub has_active_credential : RowId → AuthDb → Bool
has_active_credential reviewer db =
    any (λ c. c.reviewer_token_id == reviewer && is_unset c.revoked_at) db.webauthn_credentials

unfoldable pub update_counter : Context → RowId → ℕ → AuthDb → AuthDb
update_counter ctx id sign_count db = record db {
  webauthn_credentials =
      update_where (λ c. c.id == id)
        (λ c. record c { sign_count = sign_count; last_used_at = some ctx.db_now })
        db.webauthn_credentials;
}

-- A suspected clone is flagged and revoked in one statement.
unfoldable pub flag_clone : Context → RowId → AuthDb → AuthDb
flag_clone ctx id db = record db {
  webauthn_credentials =
      update_where (λ c. c.id == id)
        (λ c. record c { clone_warning_at = some ctx.db_now; revoked_at = some ctx.db_now })
        db.webauthn_credentials;
}

-- RecordWebAuthnAssertionUse
unfoldable pub record_assertion_use :
    Context → RowId → ℕ → Str → Str → Action AuthDb AuthError (Unit {0})
record_assertion_use ctx id sign_count actor detail = do
  check (not (is_empty actor)) actor_empty
  atomically (do
    modify (update_counter ctx id sign_count)
    modify (log_event ctx (codes "webauthn_assertion_used") actor detail))

-- FlagWebAuthnCredentialCloneWarningAudited
unfoldable pub flag_clone_audited : Context → RowId → Str → Str → Action AuthDb AuthError (Unit {0})
flag_clone_audited ctx id actor detail = do
  check (not (is_empty actor)) actor_empty
  atomically (do
    modify (flag_clone ctx id)
    modify (log_event ctx (codes "webauthn_clone_suspected") actor detail))

unfoldable pub owned_unrevoked : RowId → RowId → CredentialRow → Bool
owned_unrevoked id reviewer c =
    c.id == id && (c.reviewer_token_id == reviewer && is_unset c.revoked_at)

-- RevokeWebAuthnCredential
unfoldable pub revoke_credential : Context → RowId → RowId → Action AuthDb AuthError (Unit {0})
revoke_credential ctx id reviewer = do
  rows ← gets (λ db. count_where (owned_unrevoked id reviewer) db.webauthn_credentials)
  modify (λ db. record db {
    webauthn_credentials =
        update_where (owned_unrevoked id reviewer) (λ c. record c { revoked_at = some ctx.db_now })
          db.webauthn_credentials;
  })
  check (ltb 0 rows) not_found_or_revoked

unfoldable pub challenge_for : RowId → Str → ChallengeRow → Bool
challenge_for reviewer purpose c = c.reviewer_token_id == reviewer && str_eq c.purpose purpose

-- UpsertWebAuthnChallenge: the one row of this reviewer and purpose is overwritten.
unfoldable pub upsert_challenge : RowId → Str → Str → Time → List ChallengeRow → List ChallengeRow
upsert_challenge reviewer purpose session_data expires_at rows =
    if any (challenge_for reviewer purpose) rows
    then update_where (challenge_for reviewer purpose)
        (λ c. record c { session_data = session_data; expires_at = expires_at }) rows
    else rows
      ++ (record {
        reviewer_token_id = reviewer;
        purpose = purpose;
        session_data = session_data;
        expires_at = expires_at;
      })
        ∷ []

-- PutWebAuthnChallenge
unfoldable pub put_challenge : RowId → Str → Str → Time → AuthDb → AuthDb
unfolding upsert_challenge
put_challenge reviewer purpose session_data expires_at db = record db {
  webauthn_challenges =
      upsert_challenge reviewer purpose session_data expires_at db.webauthn_challenges;
}

-- WHERE reviewer_token_id = $1 AND purpose = $2 AND expires_at > now()
unfoldable pub consumable : Time → RowId → Str → ChallengeRow → Bool
unfolding challenge_for
consumable now reviewer purpose c = challenge_for reviewer purpose c && ltb now c.expires_at

-- ConsumeWebAuthnChallenge: the row is deleted as it is read.
unfoldable pub consume_challenge : Context → RowId → Str → Action AuthDb AuthError (Option Str)
consume_challenge ctx reviewer purpose = do
  found ← gets (λ db. find (consumable ctx.db_now reviewer purpose) db.webauthn_challenges)
  modify (λ db. record db {
    webauthn_challenges =
        keep_if (λ c. not (consumable ctx.db_now reviewer purpose c)) db.webauthn_challenges;
  })
  pure (elim found [ none ↦ none | some c ↦ some c.session_data ])
