-- ===== src/Api/Routes/Theft.antt =====
-- What a stolen bearer token is good for without a second factor.
use chuvar.Prelude.{
  Str, true, false, ◌≡◌, refl, Option, none, some, List, [], ◌∷◌, All, codes, str_eq, inl, inr,
  Bool-cases, Result, ok, arith,
}
use chuvar.Store.Types.{RowId, Context}
use chuvar.Store.Tables.{find}
use chuvar.Auth.Types.{ChallengeRow, AuthDb, AuthError}
use chuvar.Auth.Action.{
  Keeps-pure, Keeps-or_else, Keeps-then, Keeps-then_at, Keeps-refused, Keeps-lift, Keeps-gets,
  Keeps-check, ◌>>=◌, lift, pure, or_else, or_else-answer, Keeps-lift_at,
}
use chuvar.Auth.Tokens.{AuthenticatedReviewer, authenticate_reviewer_token}
use chuvar.Auth.Passkeys.{registration, consume_challenge, consumable, challenge_for}
use chuvar.Auth.Evolution.{frozen, Frozen, Frozen-AuthEvolves, NoRegistration}
use chuvar.Auth.Evolution.Freezing.{Freezes, authenticate-Freezes, consume-Freezes}
use chuvar.Api.Types.{Request, Randomness, Api, or_deny, internal_error, no_challenge, unauthorized}
use chuvar.Api.Factors.{
  require_auth, bearer_token, verify_second_factor, require_strong_factor,
  require_existing_second_factor, prove_existing_factor,
}
use chuvar.Api.Factors.Proofs.{verify_second_factor-Freezes, prove_existing-Freezes}
use chuvar.Api.Factors.Refusal.{NoFactor, second_factor_refused, existing_factor_refused}
use chuvar.Api.Minting.{
  AgentTokenRequest, mint_token, create_token, agent_token_route, revoke_token,
  revoke_agent_token_handler, enrollment_closed,
}
use chuvar.Api.Passkeys.{register_begin, register_finish, assert_begin, revoke_passkey}
use chuvar.Api.Routes.{
  Call, handler, serve, tokens_create, tokens_revoke, agent_tokens_create, agent_tokens_revoke,
  webauthn_register_begin, webauthn_register_finish, webauthn_assert_begin,
  webauthn_credentials_revoke, on_store, Route, within, done, staged_diffs_list,
  staged_diffs_approve, staged_diffs_reject, facts_get, grants_list, grants_create, grants_revoke,
  grants_renew, grant_requests_list, grant_requests_approve, grant_requests_deny, tokens_list,
  agent_tokens_list, webauthn_credentials_list, signing_policies_get, signing_policies_set, events,
}
use chuvar.Api.Routes.Evolution.{
  revoke_token_handler-Freezes, revoke_agent_handler-Freezes, revoke_passkey-Freezes,
  assert_begin-Freezes,
}
use chuvar.Api.Routes.Gate.{closed_kept}

-- Without a registration under way there is no challenge of one to consume.
no_challenge_found :
    (ctx : Context) (reviewer : RowId) (rows : List ChallengeRow)
    → All (λ c. str_eq c.purpose registration ≡ false) rows
    → find (consumable ctx.db_now reviewer registration) rows ≡ none
unfolding find consumable challenge_for
no_challenge_found ctx reviewer [] h = refl
no_challenge_found ctx reviewer (c ∷ rows) h =
    ground (arith, no_challenge_found ctx reviewer rows h.1)

nothing_to_consume :
    (ctx : Context) (reviewer : RowId) (db : AuthDb)
    → NoRegistration db
    → (consume_challenge ctx reviewer registration db).0 ≡ ok none
unfolding consume_challenge ◌>>=◌
nothing_to_consume ctx reviewer db h = rw (no_challenge_found ctx reviewer db.webauthn_challenges h)

no_session :
    (pending : Option Str) (session_data : Str) {answer : Result AuthError (Option Str)}
    → answer ≡ ok pending
    → answer ≡ ok none
    → ¬ (or_deny no_challenge pending ≡ ok session_data)
unfolding or_deny
no_session none session_data h k e = cc e
no_session (some d) session_data h k e = cc (h, k)

module _ {S P Q : Type 0} (api : Api S P Q) (r : Request) (stolen : NoFactor api r) where
  create_token-Frozen :
      (random : Randomness) (body : Option Str) (reviewer : AuthenticatedReviewer) (db : AuthDb)
      → enrollment_closed db ≡ true
      → Frozen db (create_token api r random body reviewer db).1
  unfolding create_token ◌>>=◌
  create_token-Frozen random body reviewer db closed = rw closed (
      Keeps-refused frozen (verify_second_factor api r reviewer) (λ _. mint_token api r random body)
        (verify_second_factor-Freezes api r reviewer) (second_factor_refused api r stolen reviewer)
        db)

  agent_token_route-Freezes :
      (random : Randomness) (body : Option AgentTokenRequest) (reviewer : AuthenticatedReviewer)
      → Freezes (agent_token_route api r random body reviewer)
  unfolding agent_token_route require_strong_factor
  agent_token_route-Freezes random body reviewer =
      Keeps-refused frozen _ _ (verify_second_factor-Freezes api r reviewer)
        (second_factor_refused api r stolen reviewer)

  register_begin-Freezes :
      (random : Randomness) (reviewer : AuthenticatedReviewer)
      → Freezes (register_begin api r random reviewer)
  unfolding register_begin require_existing_second_factor
  register_begin-Freezes random reviewer = Keeps-gets frozen _ _ (λ enrolled.
      Keeps-lift frozen _ _ (λ has_totp. Keeps-gets frozen _ _ (λ has_passkey.
        Keeps-check frozen _ _ _ (
          Keeps-refused frozen (prove_existing_factor api r has_totp reviewer) _
            (prove_existing-Freezes api r has_totp reviewer)
            (existing_factor_refused api r stolen has_totp reviewer)))))

  register_finish-Frozen :
      (body label : Str) (reviewer : AuthenticatedReviewer) (db : AuthDb)
      → NoRegistration db
      → Frozen db (register_finish api r body label reviewer db).1
  unfolding register_finish
  register_finish-Frozen body label reviewer db none_begun =
      let consume =
        or_else (consume_challenge r.ctx reviewer.id registration) (λ _. internal_error) in
      Keeps-then_at frozen consume _ db
        (Keeps-or_else frozen _ _ (consume-Freezes r.ctx reviewer.id registration) db)
        (λ pending e. Keeps-lift_at frozen (or_deny no_challenge pending) _ _ (λ session_data found.
          absurd (
            no_session pending session_data
              (or_else-answer (consume_challenge r.ctx reviewer.id registration)
                (λ _. internal_error) db pending e)
              (nothing_to_consume r.ctx reviewer.id db none_begun) found)))

  refused-Freezes :
      (reviewer : AuthenticatedReviewer)
      → Freezes (require_strong_factor api r (λ _. pure done) reviewer)
  unfolding require_strong_factor
  refused-Freezes reviewer =
      Keeps-refused frozen (verify_second_factor api r reviewer) _
        (verify_second_factor-Freezes api r reviewer) (second_factor_refused api r stolen reviewer)

  within-Freezes :
      (route : Route) (reviewer : AuthenticatedReviewer) → Freezes (within api r route reviewer)
  unfolding within
  within-Freezes staged_diffs_list reviewer = Keeps-pure frozen _ _
  within-Freezes staged_diffs_approve reviewer = refused-Freezes reviewer
  within-Freezes staged_diffs_reject reviewer = Keeps-pure frozen _ _
  within-Freezes facts_get reviewer = Keeps-pure frozen _ _
  within-Freezes grants_list reviewer = Keeps-pure frozen _ _
  within-Freezes grants_create reviewer = refused-Freezes reviewer
  within-Freezes grants_revoke reviewer = Keeps-pure frozen _ _
  within-Freezes grants_renew reviewer = refused-Freezes reviewer
  within-Freezes grant_requests_list reviewer = Keeps-pure frozen _ _
  within-Freezes grant_requests_approve reviewer = refused-Freezes reviewer
  within-Freezes grant_requests_deny reviewer = Keeps-pure frozen _ _
  within-Freezes tokens_list reviewer = Keeps-pure frozen _ _
  within-Freezes agent_tokens_list reviewer = Keeps-pure frozen _ _
  within-Freezes webauthn_credentials_list reviewer = Keeps-pure frozen _ _
  within-Freezes signing_policies_get reviewer = Keeps-pure frozen _ _
  within-Freezes signing_policies_set reviewer = refused-Freezes reviewer
  within-Freezes events reviewer = Keeps-pure frozen _ _

  -- Without a second factor, while the gate is shut and no registration is under way, a handler
  -- leaves the credentials frozen.
  handler-Frozen :
      (call : Call) (reviewer : AuthenticatedReviewer) (db : AuthDb)
      → enrollment_closed db ≡ true
      → NoRegistration db
      → Frozen db (handler api r call reviewer db).1
  unfolding handler require_strong_factor
  handler-Frozen (tokens_create random body) reviewer db closed none_begun =
      Keeps-then_at frozen (create_token api r random body reviewer) _ db
        (create_token-Frozen random body reviewer db closed) (λ token _. Keeps-pure frozen _ _ _)
  handler-Frozen (tokens_revoke id) reviewer db closed none_begun =
      Keeps-then frozen (revoke_token r id) _ (revoke_token_handler-Freezes r id)
        (λ done. Keeps-pure frozen _ _) db
  handler-Frozen (agent_tokens_create random body) reviewer db closed none_begun =
      Keeps-then frozen (agent_token_route api r random body reviewer) _
        (agent_token_route-Freezes random body reviewer) (λ token. Keeps-pure frozen _ _) db
  handler-Frozen (agent_tokens_revoke id) reviewer db closed none_begun =
      Keeps-then frozen (revoke_agent_token_handler r id) _ (revoke_agent_handler-Freezes r id)
        (λ done. Keeps-pure frozen _ _) db
  handler-Frozen (webauthn_register_begin random) reviewer db closed none_begun =
      Keeps-then frozen (register_begin api r random reviewer) _
        (register_begin-Freezes random reviewer) (λ creation. Keeps-pure frozen _ _) db
  handler-Frozen (webauthn_register_finish body label) reviewer db closed none_begun =
      Keeps-then_at frozen (register_finish api r body label reviewer) _ db
        (register_finish-Frozen body label reviewer db none_begun)
        (λ stored _. Keeps-pure frozen _ _ _)
  handler-Frozen (webauthn_assert_begin random) reviewer db closed none_begun =
      Keeps-then frozen (assert_begin api r random reviewer) _
        (assert_begin-Freezes api r random reviewer) (λ options. Keeps-pure frozen _ _) db
  handler-Frozen (webauthn_credentials_revoke id) reviewer db closed none_begun =
      Keeps-then frozen (revoke_passkey r id reviewer) _ (revoke_passkey-Freezes r id reviewer)
        (λ done. Keeps-pure frozen _ _) db
  handler-Frozen (on_store route) reviewer db closed none_begun = within-Freezes route reviewer db

  authenticated-Frozen :
      (call : Call) (token : Str) (db : AuthDb)
      → enrollment_closed db ≡ true
      → NoRegistration db
      → Frozen db
          ((do
            found ←
                or_else (authenticate_reviewer_token api.store r.ctx token) (λ _. internal_error)
            reviewer ← lift (or_deny unauthorized found)
            handler api r call reviewer)
            db).1
  authenticated-Frozen call token db closed none_begun =
      let authenticate =
        or_else (authenticate_reviewer_token api.store r.ctx token) (λ _. internal_error) in
      let k : Frozen db (authenticate db).1 =
        Keeps-or_else frozen _ _ (authenticate-Freezes api.store r.ctx token) db in
      Keeps-then_at frozen authenticate _ db k (λ found _.
        Keeps-lift_at frozen (or_deny unauthorized found) _ _ (λ reviewer _.
          handler-Frozen call reviewer (authenticate db).1
            (closed_kept db (authenticate db).1 (Frozen-AuthEvolves _ _ k) closed)
            (k.registrations none_begun)))

  pub serve-Frozen :
      (call : Call) (db : AuthDb)
      → enrollment_closed db ≡ true
      → NoRegistration db
      → Frozen db (serve api r call db).1
  unfolding serve require_auth
  serve-Frozen call db closed none_begun = elim (Bool-cases (str_eq r.method (codes "OPTIONS"))) [
    | inl e ↦ rw e (Keeps-pure frozen _ _ db)
    | inr e ↦ rw e (
        Keeps-lift_at frozen (or_deny unauthorized (bearer_token r.authorization)) _ db
          (λ token _. authenticated-Frozen call token db closed none_begun))
  ]
