-- ===== src/Auth/Evolution/Freezing.antt =====
-- The operations of the credential store that mint nothing: they leave the credentials frozen.
use chuvar.Prelude.{
  ℕ, Str, Bool, true, false, ◌≡◌, refl, inl, inr, Option, none, some, List, [], ◌∷◌, arith, any,
  str_eq, All, Bool-cases, keep_if, ◌==◌,
}
use chuvar.Store.Types.{RowId, Time, Context}
use chuvar.Store.Tables.{update_where, All-update_where, All-append}
use chuvar.Auth.Types.{
  ReviewerTokenRow, AgentTokenRow, ChallengeRow, CredentialRow, AuthDb, AuthStore,
}
use chuvar.Auth.Action.{
  Action, Keeps, Keeps-pure, Keeps-atomically, Keeps-gets, Keeps-check, Keeps-modify, Keeps-last,
  Keeps-lift_last, Keeps-check_last,
}
use chuvar.Auth.Tokens.{authenticate_reviewer_token, verify_reviewer_totp, revoke_reviewer_token}
use chuvar.Auth.AgentTokens.{authenticate_agent_token, revoke_agent_token}
use chuvar.Auth.Passkeys.{
  registration, assertion, log_event, update_counter, flag_clone, record_assertion_use,
  flag_clone_audited, revoke_credential, put_challenge, upsert_challenge, challenge_for,
  consume_challenge,
}
use chuvar.Auth.Evolution.{
  Pointwise-refl, Pointwise-update, SameToken, SameToken-refl, SameToken-trans, SameAgent-refl,
  SameAgent-trans, SamePasskey-refl, SamePasskey-trans, Frozen, Frozen-refl, Frozen-AuthEvolves,
  NoRegistration, SameAgent, SamePasskey, frozen, evolution,
}

-- The action leaves the credentials frozen.
abbrev pub Freezes : {E A : Type 0} → Action AuthDb E A → Type 0
Freezes m = Keeps frozen m

-- The credentials go on through the action.
abbrev pub Continues : {E A : Type 0} → Action AuthDb E A → Type 0
Continues m = Keeps evolution m

pub Freezes-Continues : {E A : Type 0} (m : Action AuthDb E A) → Freezes m → Continues m
Freezes-Continues m h db = Frozen-AuthEvolves db (m db).1 (h db)

-- An UPDATE of reviewer_tokens that keeps what identifies each row.
tokens-Frozen :
    (p : ReviewerTokenRow → Bool) (f : ReviewerTokenRow → ReviewerTokenRow) (db : AuthDb)
    → ((t : ReviewerTokenRow) → p t ≡ true → SameToken t (f t))
    → Frozen db (record db { reviewer_tokens = update_where p f db.reviewer_tokens })
tokens-Frozen p f db h = record {
  tokens = Pointwise-update _ SameToken-refl SameToken-trans p f db.reviewer_tokens h;
  agents = Pointwise-refl _ SameAgent-refl SameAgent-trans db.agent_tokens;
  passkeys = Pointwise-refl _ SamePasskey-refl SamePasskey-trans db.webauthn_credentials;
  latch = refl;
  registrations = λ h. h;
}

agents-Frozen :
    (p : AgentTokenRow → Bool) (f : AgentTokenRow → AgentTokenRow) (db : AuthDb)
    → ((t : AgentTokenRow) → p t ≡ true → SameAgent t (f t))
    → Frozen db (record db { agent_tokens = update_where p f db.agent_tokens })
agents-Frozen p f db h = record {
  tokens = Pointwise-refl _ SameToken-refl SameToken-trans db.reviewer_tokens;
  agents = Pointwise-update _ SameAgent-refl SameAgent-trans p f db.agent_tokens h;
  passkeys = Pointwise-refl _ SamePasskey-refl SamePasskey-trans db.webauthn_credentials;
  latch = refl;
  registrations = λ h. h;
}

passkeys-Frozen :
    (p : CredentialRow → Bool) (f : CredentialRow → CredentialRow) (db : AuthDb)
    → ((t : CredentialRow) → p t ≡ true → SamePasskey t (f t))
    → Frozen db (record db { webauthn_credentials = update_where p f db.webauthn_credentials })
passkeys-Frozen p f db h = record {
  tokens = Pointwise-refl _ SameToken-refl SameToken-trans db.reviewer_tokens;
  agents = Pointwise-refl _ SameAgent-refl SameAgent-trans db.agent_tokens;
  passkeys = Pointwise-update _ SamePasskey-refl SamePasskey-trans p f db.webauthn_credentials h;
  latch = refl;
  registrations = λ h. h;
}

-- Challenges may change as long as none of a registration is added.
challenges-Frozen :
    (new : List ChallengeRow) (db : AuthDb)
    → (NoRegistration db → All (λ c. str_eq c.purpose registration ≡ false) new)
    → Frozen db (record db { webauthn_challenges = new })
challenges-Frozen new db h = record {
  tokens = Pointwise-refl _ SameToken-refl SameToken-trans db.reviewer_tokens;
  agents = Pointwise-refl _ SameAgent-refl SameAgent-trans db.agent_tokens;
  passkeys = Pointwise-refl _ SamePasskey-refl SamePasskey-trans db.webauthn_credentials;
  latch = refl;
  registrations = h;
}

touched : (now : Time) (t : ReviewerTokenRow) → SameToken t (record t { last_used_at = some now })
touched now t = ground arith

touch :
    (now : Time) (found : Option ReviewerTokenRow) (db : AuthDb)
    → Frozen db (elim found [
      | none ↦ db
      | some row ↦ record db {
        reviewer_tokens =
            update_where
              (λ t. t.id == row.id)
              (λ t. record t { last_used_at = some now })
              db.reviewer_tokens;
      }
    ])
touch now none db = Frozen-refl db
touch now (some row) db = tokens-Frozen _ _ db (λ t _. touched now t)

pub authenticate-Freezes :
    (store : AuthStore) (ctx : Context) (plaintext : Str)
    → Freezes (authenticate_reviewer_token store ctx plaintext)
unfolding authenticate_reviewer_token
authenticate-Freezes store ctx plaintext =
    Keeps-gets frozen _ _
      (λ found. Keeps-modify frozen _ _ (touch ctx.db_now found) (Keeps-pure frozen _ _))

pub verify_totp-Freezes :
    (store : AuthStore) (ctx : Context) (id : RowId) (code : Str)
    → Freezes (verify_reviewer_totp store ctx id code)
unfolding verify_reviewer_totp
verify_totp-Freezes store ctx id code = Keeps-gets frozen _ _ (λ found. Keeps-lift_last frozen _)

pub revoke_token-Freezes : (ctx : Context) (id : RowId) → Freezes (revoke_reviewer_token ctx id)
unfolding revoke_reviewer_token
revoke_token-Freezes ctx id = Keeps-gets frozen _ _ (λ rows.
    Keeps-modify frozen _ _ (λ db. tokens-Frozen _ _ db (λ t _. ground arith))
      (Keeps-check_last frozen _ _))

pub revoke_agent-Freezes : (ctx : Context) (id : RowId) → Freezes (revoke_agent_token ctx id)
unfolding revoke_agent_token
revoke_agent-Freezes ctx id = Keeps-gets frozen _ _ (λ rows.
    Keeps-modify frozen _ _ (λ db. agents-Frozen _ _ db (λ t _. ground arith))
      (Keeps-check_last frozen _ _))

pub log-Frozen :
    (ctx : Context) (event_type actor detail : Str) (db : AuthDb)
    → Frozen db (log_event ctx event_type actor detail db)
unfolding log_event
log-Frozen ctx event_type actor detail db = record {
  tokens = Pointwise-refl _ SameToken-refl SameToken-trans db.reviewer_tokens;
  agents = Pointwise-refl _ SameAgent-refl SameAgent-trans db.agent_tokens;
  passkeys = Pointwise-refl _ SamePasskey-refl SamePasskey-trans db.webauthn_credentials;
  latch = refl;
  registrations = λ h. h;
}

pub record_use-Freezes :
    (ctx : Context) (id : RowId) (count : ℕ) (actor detail : Str)
    → Freezes (record_assertion_use ctx id count actor detail)
unfolding record_assertion_use update_counter
record_use-Freezes ctx id count actor detail = Keeps-check frozen _ _ _ (
    Keeps-atomically frozen _ (
      Keeps-modify frozen _ _ (λ db. passkeys-Frozen _ _ db (λ t _. ground arith))
        (Keeps-last frozen _ _ (log-Frozen ctx _ actor detail))))

pub flag_clone-Freezes :
    (ctx : Context) (id : RowId) (actor detail : Str)
    → Freezes (flag_clone_audited ctx id actor detail)
unfolding flag_clone_audited flag_clone
flag_clone-Freezes ctx id actor detail = Keeps-check frozen _ _ _ (
    Keeps-atomically frozen _ (
      Keeps-modify frozen _ _ (λ db. passkeys-Frozen _ _ db (λ t _. ground arith))
        (Keeps-last frozen _ _ (log-Frozen ctx _ actor detail))))

pub revoke_credential-Freezes :
    (ctx : Context) (id reviewer : RowId) → Freezes (revoke_credential ctx id reviewer)
unfolding revoke_credential
revoke_credential-Freezes ctx id reviewer = Keeps-gets frozen _ _ (λ rows.
    Keeps-modify frozen _ _ (λ db. passkeys-Frozen _ _ db (λ t _. ground arith))
      (Keeps-check_last frozen _ _))

All-keep_if :
    {A : Type 0} (R : A → Type 0) (p : A → Bool) (xs : List A) → All R xs → All R (keep_if p xs)
All-keep_if R p [] h = tt
All-keep_if R p (x ∷ xs) h = elim (Bool-cases (p x)) [
  | inl e ↦ rw (e, keep_if) (h.0, All-keep_if R p xs h.1)
  | inr e ↦ rw (e, keep_if) (All-keep_if R p xs h.1)
]

pub consume-Freezes :
    (ctx : Context) (reviewer : RowId) (purpose : Str)
    → Freezes (consume_challenge ctx reviewer purpose)
unfolding consume_challenge
consume-Freezes ctx reviewer purpose = Keeps-gets frozen _ _ (λ found.
    Keeps-modify frozen _ _ (λ db. challenges-Frozen _ db (All-keep_if _ _ db.webauthn_challenges))
      (Keeps-pure frozen _ _))

pub put_assertion-Frozen :
    (reviewer : RowId) (session : Str) (expires_at : Time) (db : AuthDb)
    → Frozen db (put_challenge reviewer assertion session expires_at db)
unfolding put_challenge upsert_challenge str_eq
put_assertion-Frozen reviewer session expires_at db = challenges-Frozen _ db (λ h.
    elim (Bool-cases (any (challenge_for reviewer assertion) db.webauthn_challenges)) [
      | inl e ↦ rw e (All-update_where _ _ _ db.webauthn_challenges (λ c _ old. old) h)
      | inr e ↦ rw e (All-append _ db.webauthn_challenges _ h (refl, tt))
    ])

touch_agent :
    (now : Time) (found : Option AgentTokenRow) (db : AuthDb)
    → Frozen db (elim found [
      | none ↦ db
      | some row ↦ record db {
        agent_tokens =
            update_where
              (λ t. t.id == row.id)
              (λ t. record t { last_used_at = some now })
              db.agent_tokens;
      }
    ])
touch_agent now none db = Frozen-refl db
touch_agent now (some row) db = agents-Frozen _ _ db (λ t _. ground arith)

pub authenticate_agent-Freezes :
    (store : AuthStore) (ctx : Context) (plaintext : Str)
    → Freezes (authenticate_agent_token store ctx plaintext)
unfolding authenticate_agent_token
authenticate_agent-Freezes store ctx plaintext =
    Keeps-gets frozen _ _
      (λ found. Keeps-modify frozen _ _ (touch_agent ctx.db_now found) (Keeps-pure frozen _ _))
