-- ===== src/Api/Tests.antt =====
-- Runs of the handlers on a small API.
use chuvar.Prelude.{
  codes, true, false, ◌≡◌, refl, none, some, List, [], ◌∷◌, ok, arith, ap, Elem, get, put, erase,
  str_eq, has_prefix, trim_space, trim_by, space_one, space_two, space_three, reverse_onto,
}
use chuvar.Base64.{
  encode_raw, encode_char, decode_std, decode_padded, decode_two, decode_four, decode_char,
}
use chuvar.Custody.{seal, open_blob}
use chuvar.Store.Tables.{find, update_where, count_where}
use chuvar.Auth.Types.{AuthDb}
use chuvar.Auth.Action.{◌>>=◌, or_else, atomically}
use chuvar.Auth.Tokens.{
  authenticate_reviewer_token, active_with_hash, hash_token, verify_reviewer_totp, validate_sealed,
  create_reviewer_token, insert_reviewer_token, seal_secret, new_reviewer_token,
  set_enrollment_latch, ReviewerToken, AuthenticatedReviewer, enrollment_latch_set,
  count_ever_enrolled_reviewer_tokens, has_totp,
}
use chuvar.Auth.Passkeys.{
  active_credentials_of, credentials_of, consume_challenge, consumable, challenge_for,
  record_assertion_use, update_counter, log_event, count_ever_enrolled_credentials,
}
use chuvar.Api.Types.{Request, Randomness, or_deny}
use chuvar.Api.Routes.Gate.{GeneratesSecrets, minted_once}
use chuvar.Api.Routes.Strong.{strong_factor_lem, extends_authority}
use chuvar.Api.Factors.{
  require_auth, bearer_token, verify_totp_code, verify_second_factor, verify_assertion_header,
  settle_assertion, require_strong_factor, by_credential_id, load_user, to_library_credential,
}
use chuvar.Api.Minting.{CreatedToken, create_token, mint_token, enrollment_closed, generate_token}
use chuvar.Api.Routes.Evolution.{serve_all-AuthEvolves}
use chuvar.Auth.Evolution.{AuthEvolves}
use chuvar.Api.Routes.{
  Call, serve, serve_all, handler, on_store, pattern, grants_create, grants_renew, within, done,
  tokens_create, webauthn_register_begin, webauthn_register_finish,
}
use chuvar.Api.Fixtures.{plain_api, auth_db, fresh_db, at, request, random, laptop}

abbrev by_code : Request
by_code = request (at 20 9) (codes " s ") []

abbrev by_passkey : Request
by_passkey = request (at 20 9) [] (codes "aQ==")

code_run :
    serve plain_api by_code (on_store grants_create) auth_db
    ≡ (ok done, (serve plain_api by_code (on_store grants_create) auth_db).1)
unfolding serve handler within str_eq require_auth ◌>>=◌ or_deny bearer_token has_prefix or_else
    authenticate_reviewer_token active_with_hash hash_token find update_where require_strong_factor
    verify_second_factor verify_totp_code trim_space trim_by space_one space_two space_three
    reverse_onto verify_reviewer_totp validate_sealed open_blob
code_run = refl

passkey_run :
    serve plain_api by_passkey (on_store grants_renew) auth_db
    ≡ (ok done, (serve plain_api by_passkey (on_store grants_renew) auth_db).1)
unfolding serve handler within str_eq require_auth ◌>>=◌ or_deny bearer_token has_prefix or_else
    authenticate_reviewer_token active_with_hash hash_token find update_where require_strong_factor
    verify_second_factor verify_assertion_header settle_assertion trim_space trim_by space_one
    space_two space_three reverse_onto decode_std decode_padded decode_two decode_char decode_four
    consume_challenge consumable challenge_for load_user active_credentials_of credentials_of
    to_library_credential by_credential_id get put erase record_assertion_use update_counter
    log_event atomically
passkey_run = refl

-- A reviewer without a factor mints the first token; the next asks for one.
abbrev mint : Request
mint = request (at 20 9) [] []

abbrev minted_row : ReviewerToken
minted_row = record {
  id = 9;
  label = codes "phone";
  created_at = 20;
  last_used_at = none;
  revoked_at = none;
}

first_run : create_token plain_api mint random (some (codes "phone")) laptop fresh_db ≡ (
  ok (record { token = minted_row; plaintext = codes "AQID"; totp_enroll_uri = codes "phone" }),
  (create_token plain_api mint random (some (codes "phone")) laptop fresh_db).1,
)
unfolding create_token enrollment_closed enrollment_latch_set count_ever_enrolled_reviewer_tokens
    count_ever_enrolled_credentials count_where has_totp mint_token or_deny ◌>>=◌ trim_space trim_by
    space_one space_two space_three reverse_onto generate_token encode_raw encode_char or_else
    create_reviewer_token seal_secret insert_reviewer_token new_reviewer_token active_with_hash
    hash_token atomically set_enrollment_latch str_eq
first_run = refl

abbrev first_db : AuthDb
first_db = (create_token plain_api mint random (some (codes "phone")) laptop fresh_db).1

abbrev mint_again : Request
mint_again = request (at 30 12) (codes "s") []

abbrev other_random : Randomness
other_random = record random { token_bytes = 1 ∷ 2 ∷ 4 ∷ [] }

abbrev phone : AuthenticatedReviewer
phone = record { id = 9; label = codes "phone" }

abbrev tablet_token : CreatedToken
tablet_token = record {
  token = record minted_row { id = 12; label = codes "tablet"; created_at = 30 };
  plaintext = codes "AQIE";
  totp_enroll_uri = codes "tablet";
}

second_run :
    create_token plain_api mint_again other_random
      (some (codes "tablet"))
      phone
      (serve_all plain_api [] first_db)
    ≡ (
      ok tablet_token,
      (create_token plain_api mint_again other_random (some (codes "tablet")) phone first_db).1,
    )
unfolding create_token enrollment_closed enrollment_latch_set count_ever_enrolled_reviewer_tokens
    count_ever_enrolled_credentials count_where has_totp mint_token or_deny ◌>>=◌ trim_space trim_by
    space_one space_two space_three reverse_onto generate_token encode_raw encode_char or_else
    create_reviewer_token seal_secret insert_reviewer_token new_reviewer_token active_with_hash
    hash_token atomically set_enrollment_latch str_eq serve_all verify_second_factor
    verify_totp_code verify_reviewer_totp validate_sealed open_blob find seal
second_run = refl

generates : GeneratesSecrets plain_api
generates label seed secret uri h = ground arith

minted_once_example :
    (verify_second_factor plain_api mint_again phone (serve_all plain_api [] first_db)).0 ≡ ok tt
minted_once_example =
    ap (λ r. r.0)
      (minted_once plain_api mint mint_again random other_random (some (codes "phone"))
        (some (codes "tablet")) laptop phone _ tablet_token [] fresh_db first_db _ generates
        first_run second_run).1

renew_extends : extends_authority (pattern (on_store grants_renew)) ≡ true
unfolding pattern str_eq
renew_extends = refl

posted : str_eq by_passkey.method (codes "OPTIONS") ≡ false
unfolding str_eq
posted = refl

strong_factor_lem_example :
    Elem
      (strong_factor_lem plain_api by_passkey
        (on_store grants_renew)
        auth_db
        _
        done
        renew_extends
        posted
        passkey_run).1
      auth_db.reviewer_tokens
strong_factor_lem_example =
    (strong_factor_lem plain_api by_passkey (on_store grants_renew) auth_db _ done renew_extends
      posted passkey_run).3.there

-- Requests with the stolen token alone.
abbrev theft : List (Request × Call)
theft =
    (request (at 40 13) [] [], tokens_create random (some (codes "mine")))
    ∷ (request (at 41 14) [] [], webauthn_register_begin random)
    ∷ (request (at 42 15) [] [], webauthn_register_finish (codes "k") (codes "mine"))
    ∷ []

serve_all-AuthEvolves_example : AuthEvolves auth_db (serve_all plain_api theft auth_db)
serve_all-AuthEvolves_example = serve_all-AuthEvolves plain_api theft auth_db
