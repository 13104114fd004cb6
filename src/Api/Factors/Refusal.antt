-- ===== src/Api/Factors/Refusal.antt =====
-- A request that shows no valid second factor passes no check of one.
use chuvar.Prelude.{
  Str, Bool, false, ◌≡◌, ap, ◌∙◌, Option, none, some, is_empty, trim_space, if◌then◌else◌, ok, not,
  arith,
}
use chuvar.Base64.{decode_std}
use chuvar.Auth.Action.{
  Never, Never-if, Never-fail, >>=-ok, or_else-ok, lift-ok, gets-ok, check-ok, check_last-ok, fail,
}
use chuvar.Auth.Tokens.{AuthenticatedReviewer}
use chuvar.Auth.Tokens.Verification.{verify_totp_iff}
use chuvar.Api.Types.{Request, User, Api, Denial, or_deny, webauthn_required}
use chuvar.Api.Factors.{
  verify_totp_code, verify_assertion_header, verify_second_factor, prove_existing_factor, load_user,
}

-- What the request sends is a right code for no secret at that time, and no assertion that the
-- library accepts, of whatever user and session.
pub record NoFactor {S P Q : Type 0} (api : Api S P Q) (r : Request) : Type 0 where
  pub no_code :
      (secret : Str) → api.store.totp_validate r.ctx.wall (trim_space r.totp_code) secret ≡ false
  pub no_assertion :
      (body : Str) (parsed : Q) (user : User) (session : S)
      → decode_std (trim_space r.assertion_header) ≡ some body
      → api.webauthn.parse_assertion body ≡ some parsed
      → api.webauthn.validate_login user session parsed ≡ none

pub or_deny-ok : {A : Type 0} (d : Denial) (o : Option A) (a : A) → or_deny d o ≡ ok a → o ≡ some a
unfolding or_deny
or_deny-ok d none a h = absurd (cc h)
or_deny-ok d (some x) a h = ground arith

none-some : {A : Type 0} (o : Option A) (a : A) → o ≡ none → ¬ (o ≡ some a)
none-some o a h k = cc (h, k)

module _ {S P Q : Type 0} (api : Api S P Q) (r : Request) (h : NoFactor api r) where
  code_refused : (reviewer : AuthenticatedReviewer) → Never (verify_totp_code api r reviewer)
  unfolding verify_totp_code
  code_refused reviewer db db' u e =
      let (_, e₁) = check-ok _ _ _ _ _ _ e in
      let (valid, db₁, e₂, e₃) = >>=-ok _ _ _ _ _ e₁ in
      let (passed, _) = check_last-ok _ _ _ _ _ e₃ in
      let checked = or_else-ok _ _ _ _ _ e₂ in
      let (t, _, fits, _) =
        (verify_totp_iff api.store r.ctx reviewer.id (trim_space r.totp_code) db db₁).0
          (checked ∙ ap (λ v. (ok v, db₁)) passed) in
      cc (h.no_code fits.secret, fits.valid)

  assertion_refused :
      (reviewer : AuthenticatedReviewer) → Never (verify_assertion_header api r reviewer)
  unfolding verify_assertion_header
  assertion_refused reviewer db db' u e =
      let (_, e₁) = check-ok _ _ _ _ _ _ e in
      let (body, d₁, e₂) = lift-ok _ _ _ _ _ e₁ in
      let (pending, db₁, _, e₃) = >>=-ok _ _ _ _ _ e₂ in
      let (session_data, _, e₄) = lift-ok _ _ _ _ _ e₃ in
      let (session, _, e₅) = lift-ok _ _ _ _ _ e₄ in
      let (parsed, d₂, e₆) = lift-ok _ _ _ _ _ e₅ in
      let e₇ = gets-ok _ _ _ _ _ e₆ in
      let e₈ = gets-ok _ _ _ _ _ e₇ in
      let (cred, d₃, e₉) = lift-ok _ _ _ _ _ e₈ in
      none-some _ _
        (h.no_assertion body parsed (load_user reviewer db₁) session (or_deny-ok _ _ _ d₁)
          (or_deny-ok _ _ _ d₂))
        (or_deny-ok _ _ _ d₃)

  pub second_factor_refused :
      (reviewer : AuthenticatedReviewer) → Never (verify_second_factor api r reviewer)
  unfolding verify_second_factor
  second_factor_refused reviewer =
      Never-if (is_empty (trim_space r.assertion_header)) (verify_totp_code api r reviewer)
        (verify_assertion_header api r reviewer) (code_refused reviewer)
        (assertion_refused reviewer)

  pub existing_factor_refused :
      (has_totp : Bool) (reviewer : AuthenticatedReviewer)
      → Never (prove_existing_factor api r has_totp reviewer)
  unfolding prove_existing_factor
  existing_factor_refused has_totp reviewer =
      let by_assertion = verify_assertion_header api r reviewer in
      let by_code = verify_totp_code api r reviewer in
      let refuse = fail webauthn_required in
      Never-if (not (is_empty (trim_space r.assertion_header))) by_assertion
        (if has_totp then by_code else refuse) (assertion_refused reviewer)
        (Never-if has_totp by_code refuse (code_refused reviewer) (Never-fail webauthn_required))
