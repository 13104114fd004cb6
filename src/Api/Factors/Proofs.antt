-- ===== src/Api/Factors/Proofs.antt =====
-- Authentication and the checks of second factors leave the credentials frozen.
use chuvar.Prelude.{Bool, not, is_empty, trim_space, if◌then◌else◌}
use chuvar.Auth.Types.{CredentialRow}
use chuvar.Auth.Action.{
  Keeps-fail, Keeps-or_else, Keeps-then, Keeps-lift, Keeps-gets, Keeps-check, Keeps-check_last,
  Keeps-if, or_else, fail,
}
use chuvar.Auth.Tokens.{authenticate_reviewer_token, AuthenticatedReviewer}
use chuvar.Auth.Passkeys.{assertion}
use chuvar.Auth.Evolution.{frozen, evolution}
use chuvar.Auth.Evolution.Freezing.{
  Freezes, Continues, Freezes-Continues, authenticate-Freezes, verify_totp-Freezes, consume-Freezes,
  record_use-Freezes, flag_clone-Freezes,
}
use chuvar.Api.Types.{Request, Asserted, Api, Handler, internal_error, webauthn_required}
use chuvar.Api.Factors.{
  require_auth, verify_totp_code, settle_assertion, verify_assertion_header, verify_second_factor,
  require_strong_factor, require_existing_second_factor, prove_existing_factor,
}

module _ {S P Q : Type 0} (api : Api S P Q) (r : Request) where
  pub verify_totp_code-Freezes :
      (reviewer : AuthenticatedReviewer) → Freezes (verify_totp_code api r reviewer)
  unfolding verify_totp_code
  verify_totp_code-Freezes reviewer = Keeps-check frozen _ _ _ (
      Keeps-then frozen _ _
        (Keeps-or_else frozen _ _ (verify_totp-Freezes api.store r.ctx reviewer.id _))
        (λ valid. Keeps-check_last frozen _ _))

  settle-Freezes :
      (reviewer : AuthenticatedReviewer) (stored : CredentialRow) (cred : Asserted)
      → Freezes (settle_assertion api r reviewer stored cred)
  unfolding settle_assertion
  settle-Freezes reviewer stored cred =
      Keeps-if frozen _ _ _
        (Keeps-then frozen _ _
          (Keeps-or_else frozen _ _ (flag_clone-Freezes r.ctx stored.id reviewer.label _))
          (λ done. Keeps-fail frozen _ _))
        (Keeps-or_else frozen _ _ (record_use-Freezes r.ctx stored.id _ reviewer.label _))

  pub verify_assertion_header-Freezes :
      (reviewer : AuthenticatedReviewer) → Freezes (verify_assertion_header api r reviewer)
  unfolding verify_assertion_header
  verify_assertion_header-Freezes reviewer = Keeps-check frozen _ _ _ (
      Keeps-lift frozen _ _ (λ body.
        Keeps-then frozen _ _
          (Keeps-or_else frozen _ _ (consume-Freezes r.ctx reviewer.id assertion))
          (λ pending. Keeps-lift frozen _ _ (λ session_data. Keeps-lift frozen _ _ (λ session.
            Keeps-lift frozen _ _ (λ parsed. Keeps-gets frozen _ _ (λ user.
              Keeps-gets frozen _ _ (λ known. Keeps-lift frozen _ _ (λ cred.
                Keeps-lift frozen _ _ (λ stored. settle-Freezes reviewer stored cred))))))))))

  pub verify_second_factor-Freezes :
      (reviewer : AuthenticatedReviewer) → Freezes (verify_second_factor api r reviewer)
  unfolding verify_second_factor
  verify_second_factor-Freezes reviewer =
      Keeps-if frozen _ _ _ (verify_totp_code-Freezes reviewer)
        (verify_assertion_header-Freezes reviewer)

  pub prove_existing-Freezes :
      (has_totp : Bool) (reviewer : AuthenticatedReviewer)
      → Freezes (prove_existing_factor api r has_totp reviewer)
  unfolding prove_existing_factor
  prove_existing-Freezes has_totp reviewer =
      let by_assertion = verify_assertion_header api r reviewer in
      let by_code = verify_totp_code api r reviewer in
      let refuse = fail webauthn_required in
      Keeps-if frozen (not (is_empty (trim_space r.assertion_header))) by_assertion
        (if has_totp then by_code else refuse) (verify_assertion_header-Freezes reviewer)
        (Keeps-if frozen has_totp by_code refuse (verify_totp_code-Freezes reviewer)
          (Keeps-fail frozen _ _))

  module _ {A : Type 0} (next : AuthenticatedReviewer → Handler A) where
    pub require_auth-Continues :
        ((reviewer : AuthenticatedReviewer) → Continues (next reviewer))
        → Continues (require_auth api r next)
    unfolding require_auth
    require_auth-Continues h = Keeps-lift evolution _ _ (λ token.
        Keeps-then evolution _ _
          (Freezes-Continues
            (or_else (authenticate_reviewer_token api.store r.ctx token) (λ _. internal_error))
            (Keeps-or_else frozen _ _ (authenticate-Freezes api.store r.ctx token)))
          (λ found. Keeps-lift evolution _ _ (λ reviewer. h reviewer)))

    pub require_strong_factor-Continues :
        (reviewer : AuthenticatedReviewer)
        → Continues (next reviewer)
        → Continues (require_strong_factor api r next reviewer)
    unfolding require_strong_factor
    require_strong_factor-Continues reviewer h =
        Keeps-then evolution _ _
          (Freezes-Continues (verify_second_factor api r reviewer)
            (verify_second_factor-Freezes reviewer))
          (λ done. h)

    pub require_existing-Continues :
        (reviewer : AuthenticatedReviewer)
        → Continues (next reviewer)
        → Continues (require_existing_second_factor api r next reviewer)
    unfolding require_existing_second_factor
    require_existing-Continues reviewer h = Keeps-gets evolution _ _ (λ enrolled.
        Keeps-lift evolution _ _ (λ has_totp. Keeps-gets evolution _ _ (λ has_passkey.
          Keeps-check evolution _ _ _ (
            Keeps-then evolution _ _
              (Freezes-Continues (prove_existing_factor api r has_totp reviewer)
                (prove_existing-Freezes has_totp reviewer))
              (λ done. h)))))
