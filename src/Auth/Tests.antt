-- ===== src/Auth/Tests.antt =====
-- A challenge of a reviewer, put and consumed, and a one-time code.
use chuvar.Prelude.{codes, ◌≡◌, refl, some, [], ◌∷◌, ok, true, str_eq, arith}
use chuvar.Custody.{open_blob}
use chuvar.Store.Tables.{find}
use chuvar.Auth.Tokens.{verify_reviewer_totp}
use chuvar.Auth.Tokens.Verification.{CodeFits, verify_totp_iff}
use chuvar.Api.Fixtures.{plain_store, plain_key, token_row, auth_db}
use chuvar.Store.Types.{Context, Time}
use chuvar.Auth.Types.{AuthDb}
use chuvar.Auth.Passkeys.{put_challenge, consume_challenge, assertion}
use chuvar.Auth.Passkeys.Challenges.{consumed_once}

abbrev empty_db : AuthDb
empty_db = record {
  reviewer_tokens = [];
  agent_tokens = [];
  webauthn_credentials = [];
  webauthn_challenges = [];
  enrollment_latch = some 1;
  audit_log = [];
}

abbrev at : Time → Context
at now = record { wall = now; db_now = now; new_id = 1 }

consumed_once_example :
    (consume_challenge (at 20) 4 assertion (put_challenge 4 assertion (codes "s") 30 empty_db)).0
    ≡ ok (some (codes "s"))
consumed_once_example =
    (consumed_once 4 assertion (codes "s") 30 (at 20) (at 25) (at 30) empty_db (ground arith)
      (ground arith) (ground arith)).0

fits : CodeFits plain_store 20 (codes "s") token_row
unfolding open_blob str_eq
fits = record {
  key = plain_key;
  blob = 0 ∷ 7 ∷ codes "s";
  secret = codes "s";
  keyed = refl;
  sealed = refl;
  filled = refl;
  opened = refl;
  valid = refl;
}

verify_totp_iff_example :
    verify_reviewer_totp plain_store (at 20) 1 (codes "s") auth_db ≡ (ok true, auth_db)
unfolding find
verify_totp_iff_example =
    (verify_totp_iff plain_store (at 20) 1 (codes "s") auth_db auth_db).1
      (token_row, refl, fits, refl)
