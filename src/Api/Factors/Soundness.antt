-- ===== src/Api/Factors/Soundness.antt =====
-- What a request that passes authentication or a check of a second factor has shown.
use chuvar.Prelude.{
  Str, codes, true, false, not, ◌≡◌, ◌≢◌, ◌⊎◌, refl, sym, ap, subst, ◌∙◌, inl, inr, Option, none,
  some, List, [], ◌∷◌, StrMap, get, put, get-put, get-put_other, not_empty, ℕ, str_eq, str_neq,
  str_eq_iff, Bool-cases, Option-cases, trim_space, ok, Elem, keep_if, &&-true, ◌==◌,
}
use chuvar.Base64.{decode_std}
use chuvar.Store.Types.{RowId, Context}
use chuvar.Store.Tables.{find, find-Elem, update_where}
use chuvar.Auth.Types.{ReviewerTokenRow, CredentialRow, ChallengeRow, AuthDb, AuthStore}
use chuvar.Auth.Action.{
  >>=-ok, or_else-ok, lift-ok, gets-ok, check-ok, atomically-ok, modify-ok, pure-ok, modify_last-ok,
  Never-fail,
}
use chuvar.Auth.Tokens.{
  AuthenticatedReviewer, authenticate_reviewer_token, active_with_hash, hash_token, is_unset,
}
use chuvar.Auth.Passkeys.{
  assertion, active_credentials_of, consume_challenge, consumable, record_assertion_use, log_event,
  update_counter,
}
use chuvar.Api.Types.{Request, Asserted, Api, clone_suspected}
use chuvar.Api.Factors.{
  by_credential_id, load_user, settle_assertion, assertion_detail, verify_assertion_header,
}
use chuvar.Api.Factors.Refusal.{or_deny-ok}

-- The map of credentials holds each under its own id.
known_from :
    (k : Str) (m : StrMap CredentialRow) (creds : List CredentialRow) (c : CredentialRow)
    → get k (by_credential_id m creds) ≡ some c
    → (get k m ≡ some c) ⊎ (Elem c creds × (c.credential_id ≡ k))
unfolding by_credential_id
known_from k m [] c h = inl h
known_from k m (d ∷ creds) c h = elim (known_from k (put d.credential_id d m) creds c h) [
  | inr (there, same) ↦ inr (inr there, same)
  | inl found ↦ elim (Bool-cases (str_eq k d.credential_id)) [
    | inl e ↦
        let same : k ≡ d.credential_id = (str_eq_iff k d.credential_id).0 e in
        let here : some d ≡ some c =
          sym (get-put d.credential_id d m)
          ∙ (ap (λ i. get i (put d.credential_id d m)) (sym same) ∙ found) in
        let is_d : d ≡ c = cc here in
        inr (inl (sym is_d), ap (λ x. x.credential_id) (sym is_d) ∙ sym same)
    | inr e ↦ inl (sym (get-put_other k d.credential_id d m (str_neq k d.credential_id e)) ∙ found)
  ]
]

-- The row is an active one of this plaintext.
pub record Admits (store : AuthStore) (token : Str) (db : AuthDb) (t : ReviewerTokenRow)
    : Type 0 where
  pub there : Elem t db.reviewer_tokens
  pub hashed : t.token_hash ≡ store.sha256 token
  pub unrevoked : t.revoked_at ≡ none

pub unset-none : (o : Option ℕ) → is_unset o ≡ true → o ≡ none
unset-none none h = refl
unset-none (some t) h = absurd (cc h)

active_lem :
    (store : AuthStore) (token : Str) (db : AuthDb) (t : ReviewerTokenRow)
    → find (active_with_hash (hash_token store token)) db.reviewer_tokens ≡ some t
    → Admits store token db t
unfolding active_with_hash hash_token
active_lem store token db t h =
    let (there, hit) = find-Elem _ db.reviewer_tokens t h in
    let (same, unset) =
      &&-true (str_eq t.token_hash (store.sha256 token)) (is_unset t.revoked_at) hit in
    record {
      there = there;
      hashed = (str_eq_iff t.token_hash (store.sha256 token)).0 same;
      unrevoked = unset-none t.revoked_at unset;
    }

pub authenticate-some :
    (store : AuthStore) (ctx : Context) (token : Str) (db db' : AuthDb)
    (reviewer : AuthenticatedReviewer)
    → authenticate_reviewer_token store ctx token db ≡ (ok (some reviewer), db')
    → (t : ReviewerTokenRow) × Admits store token db t
      × (reviewer ≡ record { id = t.id; label = t.label })
      × (db' ≡ record db {
        reviewer_tokens =
            update_where
              (λ u. u.id == t.id)
              (λ u. record u { last_used_at = some ctx.db_now })
              db.reviewer_tokens;
      })
unfolding authenticate_reviewer_token
authenticate-some store ctx token db db' reviewer h =
    let e₁ = gets-ok _ _ _ _ _ h in
    let e₂ = modify-ok _ _ _ _ _ e₁ in
    let (answer, state) = pure-ok _ _ _ _ e₂ in
    elim (Option-cases (find (active_with_hash (hash_token store token)) db.reviewer_tokens)) [
      | inl missing ↦ absurd (cc (rw missing at answer))
      | inr (t, e) ↦ (t, active_lem store token db t e, cc (rw e at answer), rw e at state)
    ]

-- What settles an assertion that is accepted: no clone is suspected, the counter of the credential
-- is updated and the use of it is in the audit log.
settled :
    {S P Q : Type 0} (api : Api S P Q) (r : Request) (reviewer : AuthenticatedReviewer)
    (stored : CredentialRow) (cred : Asserted) (db db' : AuthDb) (u : Unit {0})
    → settle_assertion api r reviewer stored cred db ≡ (ok u, db')
    → (cred.clone_warning ≡ false)
      × (reviewer.label ≢ [])
      × (db'
          ≡ log_event r.ctx
              (codes "webauthn_assertion_used")
              reviewer.label
              (assertion_detail api r stored)
              (update_counter r.ctx stored.id cred.sign_count db))
unfolding settle_assertion record_assertion_use
settled api r reviewer stored cred db db' u h = elim (Bool-cases cred.clone_warning) [
  | inl e ↦
      let (_, db₁, _, refused) = >>=-ok _ _ _ _ _ (rw e at h) in
      absurd (Never-fail clone_suspected db₁ db' u refused)
  | inr e ↦
      let done = or_else-ok _ _ _ _ _ (rw e at h) in
      let (named, e₁) = check-ok _ _ _ _ _ _ done in
      let e₂ = atomically-ok _ _ _ _ e₁ in
      let e₃ = modify-ok _ _ _ _ _ e₂ in
      (e, not_empty reviewer.label named, modify_last-ok _ _ _ _ e₃)
]

-- An assertion that the reviewer's token is proved with: the challenge that was pending for it, the
-- response that the library accepted for that challenge and the credentials of the reviewer, and the
-- row of the credential.
pub record AssertionFits {S P Q : Type 0} (api : Api S P Q) (r : Request)
    (reviewer : AuthenticatedReviewer) (db : AuthDb) : Type 0 where
  pub body : Str
  pub challenge : ChallengeRow
  pub session : S
  pub parsed : Q
  pub cred : Asserted
  pub stored : CredentialRow
  pub decoded : decode_std (trim_space r.assertion_header) ≡ some body
  pub pending :
      find (consumable r.ctx.db_now reviewer.id assertion) db.webauthn_challenges ≡ some challenge
  pub resumed : api.webauthn.unmarshal_session challenge.session_data ≡ some session
  pub response : api.webauthn.parse_assertion body ≡ some parsed
  pub accepted : api.webauthn.validate_login (load_user reviewer db) session parsed ≡ some cred
  pub no_clone : cred.clone_warning ≡ false
  pub owned : Elem stored (active_credentials_of reviewer.id db)
  pub same_credential : stored.credential_id ≡ cred.credential_id

-- The challenges without those that the assertion consumes.
abbrev pub without_challenge : Context → RowId → AuthDb → AuthDb
without_challenge ctx reviewer db = record db {
  webauthn_challenges =
      keep_if (λ c. not (consumable ctx.db_now reviewer assertion c)) db.webauthn_challenges;
}

consumed :
    (ctx : Context) (reviewer : RowId) (db db' : AuthDb) (text : Str)
    → consume_challenge ctx reviewer assertion db ≡ (ok (some text), db')
    → (c : ChallengeRow) × (find (consumable ctx.db_now reviewer assertion) db.webauthn_challenges
        ≡ some c)
      × (c.session_data ≡ text)
      × (db' ≡ without_challenge ctx reviewer db)
unfolding consume_challenge
consumed ctx reviewer db db' text h =
    let e₁ = gets-ok _ _ _ _ _ h in
    let e₂ = modify-ok _ _ _ _ _ e₁ in
    let (answer, state) = pure-ok _ _ _ _ e₂ in
    elim (Option-cases (find (consumable ctx.db_now reviewer assertion) db.webauthn_challenges)) [
      | inl missing ↦ absurd (cc (rw missing at answer))
      | inr (c, e) ↦ (c, e, cc (rw e at answer), state)
    ]

same_user :
    (ctx : Context) (reviewer : AuthenticatedReviewer) (db : AuthDb)
    → load_user reviewer (without_challenge ctx reviewer.id db) ≡ load_user reviewer db
unfolding load_user active_credentials_of
same_user ctx reviewer db = refl

same_active :
    (ctx : Context) (reviewer : RowId) (db : AuthDb)
    → active_credentials_of reviewer (without_challenge ctx reviewer db)
      ≡ active_credentials_of reviewer db
unfolding active_credentials_of
same_active ctx reviewer db = refl

owner_known :
    (creds : List CredentialRow) (k : Str) (c : CredentialRow)
    → get k (by_credential_id [] creds) ≡ some c
    → Elem c creds × (c.credential_id ≡ k)
unfolding get
owner_known creds k c h = elim (known_from k [] creds c h) [
  | inl nothing ↦ absurd (cc nothing)
  | inr found ↦ found
]

-- A presented assertion passes only as such a proof; then its challenge is gone, the credential has
-- the counter that the library read, and the use is the last row of the audit log.
pub verify_assertion_lem :
    {S P Q : Type 0} (api : Api S P Q) (r : Request) (reviewer : AuthenticatedReviewer)
    (db db' : AuthDb)
    → verify_assertion_header api r reviewer db ≡ (ok tt, db')
    → (fits : AssertionFits api r reviewer db) × (db'
        ≡ log_event r.ctx
            (codes "webauthn_assertion_used")
            reviewer.label
            (assertion_detail api r fits.stored)
            (update_counter r.ctx fits.stored.id fits.cred.sign_count
              (without_challenge r.ctx reviewer.id db)))
unfolding verify_assertion_header
verify_assertion_lem api r reviewer db db' h =
    let (_, e₁) = check-ok _ _ _ _ _ _ h in
    let (body, d₁, e₂) = lift-ok _ _ _ _ _ e₁ in
    let (pending, db₁, d₂, e₃) = >>=-ok _ _ _ _ _ e₂ in
    let (text, d₃, e₄) = lift-ok _ _ _ _ _ e₃ in
    let (session, d₄, e₅) = lift-ok _ _ _ _ _ e₄ in
    let (parsed, d₅, e₆) = lift-ok _ _ _ _ _ e₅ in
    let e₇ = gets-ok _ _ _ _ _ e₆ in
    let e₈ = gets-ok _ _ _ _ _ e₇ in
    let (cred, d₆, e₉) = lift-ok _ _ _ _ _ e₈ in
    let (stored, d₇, e₁₀) = lift-ok _ _ _ _ _ e₉ in
    let found : pending ≡ some text = or_deny-ok _ _ _ d₃ in
    let (c, at_hand, same, state) =
      consumed r.ctx reviewer.id db db₁ text
        (or_else-ok _ _ _ _ _ d₂ ∙ ap (λ p. (ok p, db₁)) found) in
    let (no_clone, _, final) = settled api r reviewer stored cred db₁ db' tt e₁₀ in
    let user : load_user reviewer db₁ ≡ load_user reviewer db =
      ap (load_user reviewer) state ∙ same_user r.ctx reviewer db in
    let active : active_credentials_of reviewer.id db₁ ≡ active_credentials_of reviewer.id db =
      ap (active_credentials_of reviewer.id) state ∙ same_active r.ctx reviewer.id db in
    let (owned, same_id) = owner_known _ cred.credential_id stored (or_deny-ok _ _ _ d₇) in
    let fits : AssertionFits api r reviewer db = record {
      body = body;
      challenge = c;
      session = session;
      parsed = parsed;
      cred = cred;
      stored = stored;
      decoded = or_deny-ok _ _ _ d₁;
      pending = at_hand;
      resumed = ap api.webauthn.unmarshal_session same ∙ or_deny-ok _ _ _ d₄;
      response = or_deny-ok _ _ _ d₅;
      accepted =
          ap (λ u. api.webauthn.validate_login u session parsed) (sym user) ∙ or_deny-ok _ _ _ d₆;
      no_clone = no_clone;
      owned = subst (Elem stored) active owned;
      same_credential = same_id;
    } in
    (
      fits,
      final
          ∙ ap
              (λ d.
                log_event r.ctx (codes "webauthn_assertion_used") reviewer.label
                  (assertion_detail api r stored)
                  (update_counter r.ctx stored.id cred.sign_count d))
              state,
    )
