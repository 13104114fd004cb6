-- ===== src/Api/Routes/Gate.antt =====
-- The gate of createToken: once a second factor has been enrolled it stays shut.
use chuvar.Prelude.{
  true, false, ◌≡◌, inl, inr, List, arith, Str, Option, some, ok, ap, ◌∙◌, is_empty, if◌then◌else◌,
  Bool-cases,
}
use chuvar.Auth.Types.{AuthDb}
use chuvar.Auth.Tokens.{AuthenticatedReviewer, enrollment_latch_set}
use chuvar.Auth.Evolution.{AuthEvolves}
use chuvar.Auth.Evolution.Gate.{counts_kept, latch_kept}
use chuvar.Api.Types.{Request, Randomness, Api}
use chuvar.Api.Minting.{CreatedToken, enrollment_closed, mint_token, create_token}
use chuvar.Api.Routes.{Call, serve_all}
use chuvar.Auth.Action.{>>=-ok, lift-ok, gets-ok, check-ok, pure-ok, or_else-ok, pure}
use chuvar.Auth.Tokens.Enrollment.{create_reviewer_token-ok, latch-set}
use chuvar.Api.Factors.{verify_second_factor}
use chuvar.Api.Factors.Refusal.{or_deny-ok}
use chuvar.Api.Routes.Evolution.{serve_all-AuthEvolves}

-- As credentials go on, the gate does not open.
pub closed_kept :
    (db db' : AuthDb)
    → AuthEvolves db db'
    → enrollment_closed db ≡ true
    → enrollment_closed db' ≡ true
unfolding enrollment_closed
closed_kept db db' h e = elim (Bool-cases (enrollment_latch_set db)) [
  | inl set ↦ rw (latch_kept db db' h set)
  | inr unset ↦ ground (arith, counts_kept db db' h)
]

-- What totp.Generate gives as a secret is not empty.
abbrev pub GeneratesSecrets : {S P Q : Type 0} → Api S P Q → Type 0
GeneratesSecrets api =
    (label seed secret uri : Str)
    → api.totp_generate label seed ≡ some (secret, uri)
    → is_empty secret ≡ false

module _ {S P Q : Type 0} (api : Api S P Q) (generates : GeneratesSecrets api) where
  mint_token-closes :
      (r : Request) (random : Randomness) (body : Option Str) (db db' : AuthDb)
      (created : CreatedToken)
      → mint_token api r random body db ≡ (ok created, db')
      → enrollment_closed db' ≡ true
  unfolding mint_token enrollment_closed
  mint_token-closes r random body db db' created h =
      let (sent, _, e₁) = lift-ok _ _ _ _ _ h in
      let (_, e₂) = check-ok _ _ _ _ _ _ e₁ in
      let (_, e₃) = check-ok _ _ _ _ _ _ e₂ in
      let ((secret, uri), d, e₄) = lift-ok _ _ _ _ _ e₃ in
      let filled : is_empty secret ≡ false =
        generates _ random.seed secret uri (or_deny-ok _ _ _ d) in
      let (token, db₁, created_ok, e₅) = >>=-ok _ _ _ _ _ e₄ in
      let (_, _, state) =
        create_reviewer_token-ok api.store r.ctx random.nonce _ _ secret db db₁ token filled
          (or_else-ok _ _ _ _ _ created_ok) in
      let (_, final) = pure-ok _ _ _ _ e₅ in
      let latched : enrollment_latch_set db' ≡ true =
        ap enrollment_latch_set (final ∙ state) ∙ latch-set r.ctx _ in
      rw latched

module _ {S P Q : Type 0} (api : Api S P Q) where
  create_token-ok :
      (r : Request) (random : Randomness) (body : Option Str) (reviewer : AuthenticatedReviewer)
      (db db' : AuthDb) (created : CreatedToken)
      → create_token api r random body reviewer db ≡ (ok created, db')
      → (db₁ : AuthDb) × ((if enrollment_closed db
              then verify_second_factor api r reviewer
              else pure tt)
            db
          ≡ (ok tt, db₁))
        × (mint_token api r random body db₁ ≡ (ok created, db'))
  unfolding create_token
  create_token-ok r random body reviewer db db' created h =
      let e₁ = gets-ok _ _ _ _ _ h in
      let (_, db₁, passed, minted) = >>=-ok _ _ _ _ _ e₁ in (db₁, passed, minted)

  -- Where totp.Generate gives secrets that are not empty, the first token that createToken mints
  -- shuts its gate for good: whatever requests come in between, a later one mints a token only with
  -- a verified second factor.
  pub minted_once :
      (r₁ r₂ : Request) (random₁ random₂ : Randomness) (body₁ body₂ : Option Str)
      (reviewer₁ reviewer₂ : AuthenticatedReviewer) (created₁ created₂ : CreatedToken)
      (calls : List (Request × Call)) (db db₁ db₂ : AuthDb)
      → GeneratesSecrets api
      → create_token api r₁ random₁ body₁ reviewer₁ db ≡ (ok created₁, db₁)
      → create_token api r₂ random₂ body₂ reviewer₂ (serve_all api calls db₁) ≡ (ok created₂, db₂)
      → (db' : AuthDb) × (verify_second_factor api r₂ reviewer₂ (serve_all api calls db₁)
          ≡ (ok tt, db'))
  minted_once r₁ r₂ random₁ random₂ body₁ body₂ reviewer₁ reviewer₂ created₁ created₂ calls db db₁
        db₂ generates first second =
      let (dbₘ, _, minted) = create_token-ok r₁ random₁ body₁ reviewer₁ db db₁ created₁ first in
      let closed : enrollment_closed db₁ ≡ true =
        mint_token-closes api generates r₁ random₁ body₁ dbₘ db₁ created₁ minted in
      let later : enrollment_closed (serve_all api calls db₁) ≡ true =
        closed_kept db₁ (serve_all api calls db₁) (serve_all-AuthEvolves api calls db₁) closed in
      let (db', passed, _) =
        create_token-ok r₂ random₂ body₂ reviewer₂ (serve_all api calls db₁) db₂ created₂ second in
      (db', rw later at passed)
