-- ===== src/Auth/Tokens/Verification.antt =====
-- When a one-time code is accepted.
use chuvar.Prelude.{
  Str, true, false, ◌≡◌, inl, inr, some, ok, Option-cases, Result-cases, Bool-cases, is_empty,
  arith, ◌==◌, ◌↔◌,
}
use chuvar.Custody.{Key, open_blob}
use chuvar.Store.Types.{RowId, Time, Context}
use chuvar.Store.Tables.{find}
use chuvar.Auth.Types.{ReviewerTokenRow, AuthDb, AuthStore}
use chuvar.Auth.Action.{◌>>=◌}
use chuvar.Auth.Tokens.{validate_sealed, verify_reviewer_totp}

-- The code is right for the secret that the token has sealed in its row.
pub record CodeFits (store : AuthStore) (now : Time) (code : Str) (t : ReviewerTokenRow)
    : Type 0 where
  pub key : Key
  pub blob : Str
  pub secret : Str
  pub keyed : store.secrets ≡ some key
  pub sealed : t.totp_secret_enc ≡ some blob
  pub filled : is_empty blob ≡ false
  pub opened : open_blob key blob ≡ ok secret
  pub valid : store.totp_validate now code secret ≡ true

validate_sealed-true :
    (store : AuthStore) (now : Time) (code : Str) (t : ReviewerTokenRow)
    → validate_sealed store now code t.totp_secret_enc ≡ ok true
    → CodeFits store now code t
unfolding validate_sealed
validate_sealed-true store now code t h = elim (Option-cases t.totp_secret_enc) [
  | inl e ↦ absurd (ground arith)
  | inr (blob, e) ↦ elim (Bool-cases (is_empty blob)) [
    | inl blank ↦ absurd (ground arith)
    | inr filled ↦ elim (Option-cases store.secrets) [
      | inl unkeyed ↦ absurd (ground arith)
      | inr (key, keyed) ↦ elim (Result-cases (open_blob key blob)) [
        | inl (secret, opened) ↦ record {
          key = key;
          blob = blob;
          secret = secret;
          keyed = keyed;
          sealed = e;
          filled = filled;
          opened = opened;
          valid = ground arith;
        }
        | inr (bad, shut) ↦ absurd (ground arith)
      ]
    ]
  ]
]

CodeFits-true :
    (store : AuthStore) (now : Time) (code : Str) (t : ReviewerTokenRow)
    → CodeFits store now code t
    → validate_sealed store now code t.totp_secret_enc ≡ ok true
unfolding validate_sealed
CodeFits-true store now code t h = rw (h.sealed, h.filled, h.keyed, h.opened, h.valid)

-- A code is accepted for a token exactly where the first row with its id has a sealed secret that
-- the store's key opens, and the library finds the code right for that secret at that time; a check
-- changes nothing.
pub verify_totp_iff :
    (store : AuthStore) (ctx : Context) (id : RowId) (code : Str) (db db' : AuthDb)
    → (verify_reviewer_totp store ctx id code db ≡ (ok true, db')) ↔ (
        (t : ReviewerTokenRow) × (find (λ t. t.id == id) db.reviewer_tokens ≡ some t)
        × CodeFits store ctx.wall code t
        × (db' ≡ db))
unfolding verify_reviewer_totp ◌>>=◌
verify_totp_iff store ctx id code db db' = (
  (λ h. elim (Option-cases (find (λ t. t.id == id) db.reviewer_tokens)) [
    | inl e ↦ absurd (ground arith)
    | inr (t, e) ↦
        let reached : validate_sealed store ctx.wall code t.totp_secret_enc ≡ ok true =
          ground arith in
        (t, e, validate_sealed-true store ctx.wall code t reached, ground arith)
  ]),
  λ (t, e, fits, same). rw (e, CodeFits-true store ctx.wall code t fits, same),
)
