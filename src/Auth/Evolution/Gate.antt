-- ===== src/Auth/Evolution/Gate.antt =====
-- The signals of a past enrolment never go out: neither the counts of createToken's gate nor the latch.
use chuvar.Prelude.{◌+◌, ◌≤◌, true, ◌≡◌, inl, inr, List, [], ◌∷◌, arith, length, Bool-cases}
use chuvar.Store.Tables.{count_where}
use chuvar.Auth.Types.{ReviewerTokenRow, CredentialRow, AuthDb}
use chuvar.Auth.Tokens.{has_totp, enrollment_latch_set, count_ever_enrolled_reviewer_tokens}
use chuvar.Auth.Passkeys.{count_ever_enrolled_credentials}
use chuvar.Auth.Evolution.{Evolves, SameToken, SamePasskey, AuthEvolves}

has_totp_same :
    (t u : ReviewerTokenRow) → u.totp_secret_enc ≡ t.totp_secret_enc → has_totp u ≡ has_totp t
unfolding has_totp
has_totp_same t u e = rw e

enrolled_kept :
    (old new : List ReviewerTokenRow)
    → Evolves SameToken old new
    → count_where has_totp old ≤ count_where has_totp new
unfolding count_where
enrolled_kept [] new h = omega arith
enrolled_kept (t ∷ old) [] h = absurd h
enrolled_kept (t ∷ old) (u ∷ new) h =
    let same : has_totp u ≡ has_totp t = has_totp_same t u h.0.same_secret in
    elim (Bool-cases (has_totp t)) [
      | inl e ↦ rw (same, e) (omega (arith, enrolled_kept old new h.1))
      | inr e ↦ rw (same, e) (enrolled_kept old new h.1)
    ]

length_kept : (old new : List CredentialRow) → Evolves SamePasskey old new → length old ≤ length new
length_kept [] new h = omega arith
length_kept (t ∷ old) [] h = absurd h
length_kept (t ∷ old) (u ∷ new) h = omega (arith, length_kept old new h.1)

-- What was ever enrolled still counts.
pub counts_kept :
    (db db' : AuthDb)
    → AuthEvolves db db'
    → count_ever_enrolled_reviewer_tokens db + count_ever_enrolled_credentials db
      ≤ count_ever_enrolled_reviewer_tokens db' + count_ever_enrolled_credentials db'
unfolding count_ever_enrolled_reviewer_tokens count_ever_enrolled_credentials
counts_kept db db' h = omega (
  arith,
  enrolled_kept db.reviewer_tokens db'.reviewer_tokens h.tokens,
  length_kept db.webauthn_credentials db'.webauthn_credentials h.passkeys,
)

pub latch_kept :
    (db db' : AuthDb)
    → AuthEvolves db db'
    → enrollment_latch_set db ≡ true
    → enrollment_latch_set db' ≡ true
unfolding enrollment_latch_set
latch_kept db db' h e = ground arith
