-- ===== src/Auth/Tokens.antt =====
-- backend/internal/store/reviewer_tokens.go and enrollment_latch.go, with their queries
-- (sqlcgen/reviewer_tokens.sql.go, sqlcgen/enrollment_latch.sql.go).
pub mod Verification
pub mod Enrollment
use mathlib.Core.Option
use chuvar.Prelude.{
  ℕ, ◌+◌, suc, Str, Bool, true, false, not, ◌&&◌, ◌≡◌, Option, none, some, List, [], ◌∷◌, ◌++◌,
  Result, ok, err, is_empty, any, map, str_eq, ltb, ◌==◌, if◌then◌else◌,
}
use chuvar.Custody.{Key, seal, open_blob}
use chuvar.Store.Types.{RowId, Time, Context}
use chuvar.Store.Tables.{find, update_where, count_where}
use chuvar.Auth.Action.{Action, pure, gets, lift, modify, check, ◌>>=◌, ◌>>◌, atomically}
use chuvar.Auth.Types.{
  ReviewerTokenRow, AuthDb, AuthStore, AuthError, label_empty, no_sealing_key, cannot_open_secret,
  duplicate_token, not_found_or_revoked,
}

-- ReviewerToken
pub record ReviewerToken : Type 0 where
  pub id : RowId
  pub label : Str
  pub created_at : Time
  pub last_used_at : Option Time
  pub revoked_at : Option Time

pub record AuthenticatedReviewer : Type 0 where
  pub id : RowId
  pub label : Str

abbrev pub is_unset : Option Time → Bool
is_unset none = true
is_unset (some _) = false

-- WHERE token_hash = $1 AND revoked_at IS NULL
unfoldable pub active_with_hash : Str → ReviewerTokenRow → Bool
active_with_hash hash t = str_eq t.token_hash hash && is_unset t.revoked_at

-- WHERE id = $1 AND revoked_at IS NULL
unfoldable pub unrevoked : RowId → ReviewerTokenRow → Bool
unrevoked id t = t.id == id && is_unset t.revoked_at

unfoldable pub has_totp : ReviewerTokenRow → Bool
has_totp t = elim t.totp_secret_enc [ none ↦ false | some _ ↦ true ]

-- SetEnrollmentLatch: the row that is there stays.
unfoldable pub set_enrollment_latch : Context → AuthDb → AuthDb
set_enrollment_latch ctx db = record db {
  enrollment_latch = elim db.enrollment_latch [ none ↦ some ctx.db_now | some t ↦ some t ];
}

unfoldable pub enrollment_latch_set : AuthDb → Bool
enrollment_latch_set db = elim db.enrollment_latch [ none ↦ false | some _ ↦ true ]

-- The new row of reviewer_tokens.
unfoldable pub new_reviewer_token : Context → Str → Str → Option Str → ReviewerTokenRow
new_reviewer_token ctx label hash sealed = record {
  id = ctx.new_id;
  label = label;
  token_hash = hash;
  totp_secret_enc = sealed;
  created_at = ctx.db_now;
  last_used_at = none;
  revoked_at = none;
}

module _ (store : AuthStore) where
  -- HashToken
  unfoldable pub hash_token : Str → Str
  hash_token token = store.sha256 token

  -- The sealed secret, under a nonce that rand.Read gives; nil where there is no secret.
  unfoldable pub seal_secret : Str → Str → Result AuthError (Option Str)
  seal_secret nonce totp_secret = if is_empty totp_secret then ok none else elim store.secrets [
    | none ↦ err no_sealing_key
    | some key ↦ ok (some (seal key nonce totp_secret))
  ]

  -- InsertReviewerToken, with the unique index on the hashes of active tokens.
  unfoldable pub insert_reviewer_token :
      Context → Str → Str → Option Str → Action AuthDb AuthError ReviewerTokenRow
  insert_reviewer_token ctx label hash sealed = do
    taken ← gets (λ db. any (active_with_hash hash) db.reviewer_tokens)
    check (not taken) duplicate_token
    let row = new_reviewer_token ctx label hash sealed
    modify (λ db. record db { reviewer_tokens = db.reviewer_tokens ++ row ∷ [] })
    pure row

  -- CreateReviewerToken
  unfoldable pub create_reviewer_token :
      Context → Str → Str → Str → Str → Action AuthDb AuthError ReviewerToken
  create_reviewer_token ctx nonce label plaintext totp_secret = do
    check (not (is_empty label)) label_empty
    sealed ← lift (seal_secret nonce totp_secret)
    atomically (do
      row ← insert_reviewer_token ctx label (hash_token plaintext) sealed
      modify (λ db. elim sealed [ none ↦ db | some _ ↦ set_enrollment_latch ctx db ])
      pure (record {
        id = row.id;
        label = row.label;
        created_at = row.created_at;
        last_used_at = none;
        revoked_at = none;
      }))

  -- AuthenticateReviewerToken: `none` is "no such active token".
  unfoldable pub authenticate_reviewer_token :
      Context → Str → Action AuthDb AuthError (Option AuthenticatedReviewer)
  authenticate_reviewer_token ctx plaintext = do
    found ← gets (λ db. find (active_with_hash (hash_token plaintext)) db.reviewer_tokens)
    modify (λ db. elim found [
      | none ↦ db
      | some row ↦ record db {
        reviewer_tokens =
            update_where (λ t. t.id == row.id) (λ t. record t { last_used_at = some ctx.db_now })
              db.reviewer_tokens;
      }
    ])
    pure (Option.map (λ row. record { id = row.id; label = row.label }) found)

  -- The secret that the row has under the store's key, where it has one.
  unfoldable pub validate_sealed : Time → Str → Option Str → Result AuthError Bool
  validate_sealed now code sealed = elim sealed [
    | none ↦ ok false
    | some blob ↦ if is_empty blob then ok false else elim store.secrets [
      | none ↦ err no_sealing_key
      | some key ↦ elim (open_blob key blob) [
        | err _ ↦ err cannot_open_secret
        | ok secret ↦ ok (store.totp_validate now code secret)
      ]
    ]
  ]

  -- VerifyReviewerTOTP
  unfoldable pub verify_reviewer_totp : Context → RowId → Str → Action AuthDb AuthError Bool
  verify_reviewer_totp ctx token_id code = do
    found ← gets (λ db. find (λ t. t.id == token_id) db.reviewer_tokens)
    lift (elim found [
      | none ↦ ok false
      | some row ↦ validate_sealed ctx.wall code row.totp_secret_enc
    ])

-- RevokeReviewerToken
unfoldable pub revoke_reviewer_token : Context → RowId → Action AuthDb AuthError (Unit {0})
revoke_reviewer_token ctx id = do
  rows ← gets (λ db. count_where (unrevoked id) db.reviewer_tokens)
  modify (λ db. record db {
    reviewer_tokens =
        update_where (unrevoked id) (λ t. record t { revoked_at = some ctx.db_now })
          db.reviewer_tokens;
  })
  check (ltb 0 rows) not_found_or_revoked

-- CountActiveReviewerTokens
unfoldable pub count_active_reviewer_tokens : AuthDb → ℕ
count_active_reviewer_tokens db = count_where (λ t. is_unset t.revoked_at) db.reviewer_tokens

-- CountEverEnrolledReviewerTokens: revoked tokens count too.
unfoldable pub count_ever_enrolled_reviewer_tokens : AuthDb → ℕ
count_ever_enrolled_reviewer_tokens db = count_where has_totp db.reviewer_tokens

-- ReviewerHasTOTP, in webauthn.go: an error where there is no such token.
unfoldable pub reviewer_has_totp : RowId → AuthDb → Option Bool
reviewer_has_totp id db = Option.map has_totp (find (λ t. t.id == id) db.reviewer_tokens)
