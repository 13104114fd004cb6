-- ===== src/Api/Routes/Strong.antt =====
-- What the routes behind requireStrongFactor take to be reached.
use chuvar.Prelude.{
  Str, Bool, true, false, List, [], ◌∷◌, any, codes, ◌≡◌, ◌⊎◌, sym, ap, ◌∙◌, inl, inr, some, ◌++◌,
  str_eq, Bool-cases, has_prefix, has_prefix-rest, ok, Elem, is_empty, trim_space, if-false, ◌==◌,
  ==→eq,
}
use chuvar.Custody.{drop}
use chuvar.Store.Types.{Context}
use chuvar.Store.Tables.{find-Elem, update_where}
use chuvar.Auth.Types.{ReviewerTokenRow, AuthDb}
use chuvar.Auth.Action.{pure, >>=-ok, or_else-ok, lift-ok, check-ok, check_last-ok}
use chuvar.Auth.Tokens.{AuthenticatedReviewer}
use chuvar.Auth.Tokens.Verification.{verify_totp_iff, CodeFits}
use chuvar.Api.Types.{Request, Api, Handler}
use chuvar.Api.Factors.{
  bearer_token, require_auth, verify_totp_code, verify_second_factor, require_strong_factor,
  verify_assertion_header,
}
use chuvar.Api.Factors.Refusal.{or_deny-ok}
use chuvar.Api.Factors.Soundness.{Admits, AssertionFits, authenticate-some, verify_assertion_lem}
use chuvar.Api.Minting.{agent_token_route, mint_agent_token}
use chuvar.Api.Routes.{
  Call, Answer, done, serve, handler, within, pattern, on_store, staged_diffs_list,
  staged_diffs_approve, staged_diffs_reject, facts_get, grants_list, grants_create, grants_revoke,
  grants_renew, grant_requests_list, grant_requests_approve, grant_requests_deny, tokens_list,
  agent_tokens_list, webauthn_credentials_list, signing_policies_get, signing_policies_set, events,
  tokens_create, tokens_revoke, agent_tokens_create, agent_tokens_revoke, webauthn_register_begin,
  webauthn_register_finish, webauthn_assert_begin, webauthn_credentials_revoke,
}

pub bearer_lem :
    (header token : Str) → bearer_token header ≡ some token → header ≡ codes "Bearer " ++ token
unfolding bearer_token
bearer_lem header token h = elim (Bool-cases (has_prefix header (codes "Bearer "))) [
  | inl e ↦
      let (rest, split) = has_prefix-rest header (codes "Bearer ") e in
      let dropped : drop 7 header ≡ rest = ap (drop 7) split in
      let same : drop 7 header ≡ token = cc (rw e at h) in
      split ∙ ap (λ t. codes "Bearer " ++ t) (sym dropped ∙ same)
  | inr e ↦ absurd (cc (rw e at h))
]

-- The patterns of the routes that give authority to an agent, extend it, make a fact or lower what a
-- signature asks for.
abbrev pub authority_patterns : List Str
authority_patterns =
    codes "POST /api/staged-diffs/{id}/approve"
    ∷ codes "POST /api/grants"
    ∷ codes "POST /api/grants/{id}/renew"
    ∷ codes "POST /api/grant-requests/{id}/approve"
    ∷ codes "POST /api/signing-policies"
    ∷ codes "POST /api/agent-tokens"
    ∷ []

abbrev pub extends_authority : Str → Bool
extends_authority p = any (str_eq p) authority_patterns

-- The table after the token's last use is noted.
abbrev pub touched_token : Context → ReviewerTokenRow → AuthDb → AuthDb
touched_token ctx t db = record db {
  reviewer_tokens =
      update_where (λ u. u.id == t.id) (λ u. record u { last_used_at = some ctx.db_now })
        db.reviewer_tokens;
}

abbrev pub identity : ReviewerTokenRow → AuthenticatedReviewer
identity t = record { id = t.id; label = t.label }

module _ {S P Q : Type 0} (api : Api S P Q) (r : Request) where
  -- A second factor of the token: a one-time code that fits its row, or an assertion.
  abbrev pub Proven : ReviewerTokenRow → AuthDb → Type 0
  Proven t db =
      ((row : ReviewerTokenRow) × Elem row db.reviewer_tokens
        × (row.id ≡ t.id)
        × CodeFits api.store r.ctx.wall (trim_space r.totp_code) row)
      ⊎ AssertionFits api r (identity t) db

  -- A handler behind requireAuth is reached only for an active token of the request's header, and
  -- acts as that token.
  pub require_auth-ok :
      {A : Type 0} (next : AuthenticatedReviewer → Handler A) (db db' : AuthDb) (a : A)
      → require_auth api r next db ≡ (ok a, db')
      → (token : Str) × (t : ReviewerTokenRow) × (r.authorization ≡ codes "Bearer " ++ token)
        × Admits api.store token db t
        × (next (identity t) (touched_token r.ctx t db) ≡ (ok a, db'))
  unfolding require_auth
  require_auth-ok next db db' a h =
      let (token, d₁, e₁) = lift-ok _ _ _ _ _ h in
      let (found, db₁, d₂, e₂) = >>=-ok _ _ _ _ _ e₁ in
      let (reviewer, d₃, e₃) = lift-ok _ _ _ _ _ e₂ in
      let known : found ≡ some reviewer = or_deny-ok _ _ _ d₃ in
      let (t, admits, same, state) =
        authenticate-some api.store r.ctx token db db₁ reviewer
          (or_else-ok _ _ _ _ _ d₂ ∙ ap (λ f. (ok f, db₁)) known) in
      (
        token,
        t,
        bearer_lem r.authorization token (or_deny-ok _ _ _ d₁),
        admits,
        ap (λ rev. next rev (touched_token r.ctx t db)) (sym same)
            ∙ (ap (next reviewer) (sym state) ∙ e₃),
      )

  code_proven :
      (t : ReviewerTokenRow) (db db' : AuthDb)
      → verify_totp_code api r (identity t) db ≡ (ok tt, db')
      → Proven t db
  unfolding verify_totp_code
  code_proven t db db' h =
      let (_, e₁) = check-ok _ _ _ _ _ _ h in
      let (valid, db₁, e₂, e₃) = >>=-ok _ _ _ _ _ e₁ in
      let (passed, _) = check_last-ok _ _ _ _ _ e₃ in
      let (row, at_id, fits, _) =
        (verify_totp_iff api.store r.ctx t.id (trim_space r.totp_code) db db₁).0
          (or_else-ok _ _ _ _ _ e₂ ∙ ap (λ v. (ok v, db₁)) passed) in
      let (there, same) = find-Elem _ db.reviewer_tokens row at_id in
      inl (row, there, ==→eq row.id t.id same, fits)

  factor_proven :
      (t : ReviewerTokenRow) (db db' : AuthDb)
      → verify_second_factor api r (identity t) db ≡ (ok tt, db')
      → Proven t db
  unfolding verify_second_factor
  factor_proven t db db' h = elim (Bool-cases (is_empty (trim_space r.assertion_header))) [
    | inl e ↦ code_proven t db db' (rw e at h)
    | inr e ↦
        let by_assertion = verify_assertion_header api r (identity t) in
        let asserted : by_assertion db ≡ (ok tt, db') =
          ap (λ m. m db) (sym (if-false _ (verify_totp_code api r (identity t)) by_assertion e))
          ∙ h in
        inr (verify_assertion_lem api r (identity t) db db' asserted).0
  ]

  gate_passed :
      {A : Type 0} (next : AuthenticatedReviewer → Handler A) (reviewer : AuthenticatedReviewer)
      (db db' : AuthDb) (a : A)
      → require_strong_factor api r next reviewer db ≡ (ok a, db')
      → (db₁ : AuthDb) × (verify_second_factor api r reviewer db ≡ (ok tt, db₁))
  unfolding require_strong_factor
  gate_passed next reviewer db db' a h =
      let (_, db₁, proved, _) = >>=-ok _ _ _ _ _ h in (db₁, proved)

  -- The handler of such a route begins with the second factor.
  proved_first :
      (call : Call) (reviewer : AuthenticatedReviewer) (db db' : AuthDb) (a : Answer)
      → extends_authority (pattern call) ≡ true
      → handler api r call reviewer db ≡ (ok a, db')
      → (db₁ : AuthDb) × (verify_second_factor api r reviewer db ≡ (ok tt, db₁))
  unfolding handler within pattern str_eq agent_token_route
  proved_first (agent_tokens_create random body) reviewer db db' a e h =
      let (token, db₁, minted, _) = >>=-ok _ _ _ _ _ h in
      gate_passed (λ _. mint_agent_token api r random body) reviewer db db₁ token minted
  proved_first (tokens_create random body) reviewer db db' a e h = absurd (cc e)
  proved_first (tokens_revoke id) reviewer db db' a e h = absurd (cc e)
  proved_first (agent_tokens_revoke id) reviewer db db' a e h = absurd (cc e)
  proved_first (webauthn_register_begin random) reviewer db db' a e h = absurd (cc e)
  proved_first (webauthn_register_finish body label) reviewer db db' a e h = absurd (cc e)
  proved_first (webauthn_assert_begin random) reviewer db db' a e h = absurd (cc e)
  proved_first (webauthn_credentials_revoke id) reviewer db db' a e h = absurd (cc e)
  proved_first (on_store staged_diffs_list) reviewer db db' a e h = absurd (cc e)
  proved_first (on_store staged_diffs_approve) reviewer db db' a e h =
      gate_passed (λ _. pure done) reviewer db db' a h
  proved_first (on_store staged_diffs_reject) reviewer db db' a e h = absurd (cc e)
  proved_first (on_store facts_get) reviewer db db' a e h = absurd (cc e)
  proved_first (on_store grants_list) reviewer db db' a e h = absurd (cc e)
  proved_first (on_store grants_create) reviewer db db' a e h =
      gate_passed (λ _. pure done) reviewer db db' a h
  proved_first (on_store grants_revoke) reviewer db db' a e h = absurd (cc e)
  proved_first (on_store grants_renew) reviewer db db' a e h =
      gate_passed (λ _. pure done) reviewer db db' a h
  proved_first (on_store grant_requests_list) reviewer db db' a e h = absurd (cc e)
  proved_first (on_store grant_requests_approve) reviewer db db' a e h =
      gate_passed (λ _. pure done) reviewer db db' a h
  proved_first (on_store grant_requests_deny) reviewer db db' a e h = absurd (cc e)
  proved_first (on_store tokens_list) reviewer db db' a e h = absurd (cc e)
  proved_first (on_store agent_tokens_list) reviewer db db' a e h = absurd (cc e)
  proved_first (on_store webauthn_credentials_list) reviewer db db' a e h = absurd (cc e)
  proved_first (on_store signing_policies_get) reviewer db db' a e h = absurd (cc e)
  proved_first (on_store signing_policies_set) reviewer db db' a e h =
      gate_passed (λ _. pure done) reviewer db db' a h
  proved_first (on_store events) reviewer db db' a e h = absurd (cc e)

  -- The routes that approve a diff or a request, create or renew a grant, set a signing policy or mint
  -- an agent token answer a request, a preflight aside, with success only where its Authorization
  -- header is "Bearer " and the plaintext of a token that is stored and not revoked, and it proves a
  -- second factor of that same token: a one-time code right for its sealed secret, or an assertion
  -- of one of its passkeys in force, for the challenge pending for it, that raises no suspicion of a
  -- clone.
  pub strong_factor_lem :
      (call : Call) (db db' : AuthDb) (a : Answer)
      → extends_authority (pattern call) ≡ true
      → str_eq r.method (codes "OPTIONS") ≡ false
      → serve api r call db ≡ (ok a, db')
      → (token : Str) × (t : ReviewerTokenRow) × (r.authorization ≡ codes "Bearer " ++ token)
        × Admits api.store token db t
        × Proven t (touched_token r.ctx t db)
  unfolding serve
  strong_factor_lem call db db' a extends asked h =
      let (token, t, bearer, admits, rest) =
        require_auth-ok (handler api r call) db db' a (rw asked at h) in
      let (db₁, proved) =
        proved_first call (identity t) (touched_token r.ctx t db) db' a extends rest in
      (token, t, bearer, admits, factor_proven t (touched_token r.ctx t db) db₁ proved)
