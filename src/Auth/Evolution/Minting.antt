-- ===== src/Auth/Evolution/Minting.antt =====
-- The operations of the credential store that mint: they add behind the credentials that are there.
use chuvar.Prelude.{Str, inl, inr, Option, none, some, List, [], ◌∷◌, ◌++◌, Option-cases}
use chuvar.Store.Types.{RowId, Time, Context}
use chuvar.Auth.Types.{ReviewerTokenRow, AgentTokenRow, CredentialRow, AuthDb, AuthStore}
use chuvar.Auth.Action.{
  Keeps-pure, Keeps-atomically, Keeps-gets, Keeps-lift, Keeps-check, Keeps-modify, Keeps-then,
}
use chuvar.Auth.Tokens.{create_reviewer_token, insert_reviewer_token, set_enrollment_latch}
use chuvar.Auth.AgentTokens.{create_agent_token, insert_agent_token}
use chuvar.Auth.Passkeys.{NewCredential, insert_credential, create_credential, put_challenge}
use chuvar.Auth.Evolution.{
  Evolves-append, SameToken-refl, SameToken-trans, SameAgent-refl, SameAgent-trans,
  SamePasskey-refl, SamePasskey-trans, Frozen-AuthEvolves, AuthEvolves, AuthEvolves-refl, evolution,
}
use chuvar.Auth.Evolution.Freezing.{Continues, log-Frozen}

pub put-Evolves :
    (reviewer : RowId) (purpose session : Str) (expires_at : Time) (db : AuthDb)
    → AuthEvolves db (put_challenge reviewer purpose session expires_at db)
unfolding put_challenge
put-Evolves reviewer purpose session expires_at db =
    let same = AuthEvolves-refl db in
    record {
      tokens = same.tokens;
      agents = same.agents;
      passkeys = same.passkeys;
      latch = same.latch;
    }

token_added :
    (row : ReviewerTokenRow) (db : AuthDb)
    → AuthEvolves db (record db { reviewer_tokens = db.reviewer_tokens ++ row ∷ [] })
token_added row db =
    let same = AuthEvolves-refl db in
    record {
      tokens = Evolves-append _ SameToken-refl SameToken-trans db.reviewer_tokens _;
      agents = same.agents;
      passkeys = same.passkeys;
      latch = same.latch;
    }

agent_added :
    (row : AgentTokenRow) (db : AuthDb)
    → AuthEvolves db (record db { agent_tokens = db.agent_tokens ++ row ∷ [] })
agent_added row db =
    let same = AuthEvolves-refl db in
    record {
      tokens = same.tokens;
      agents = Evolves-append _ SameAgent-refl SameAgent-trans db.agent_tokens _;
      passkeys = same.passkeys;
      latch = same.latch;
    }

passkey_added :
    (row : CredentialRow) (db : AuthDb)
    → AuthEvolves db (record db { webauthn_credentials = db.webauthn_credentials ++ row ∷ [] })
passkey_added row db =
    let same = AuthEvolves-refl db in
    record {
      tokens = same.tokens;
      agents = same.agents;
      passkeys = Evolves-append _ SamePasskey-refl SamePasskey-trans db.webauthn_credentials _;
      latch = same.latch;
    }

latched : (ctx : Context) (db : AuthDb) → AuthEvolves db (set_enrollment_latch ctx db)
unfolding set_enrollment_latch
latched ctx db =
    let same = AuthEvolves-refl db in
    record {
      tokens = same.tokens;
      agents = same.agents;
      passkeys = same.passkeys;
      latch = elim (Option-cases db.enrollment_latch) [ inl e ↦ inl e | inr (t, e) ↦ inr (rw e) ];
    }

latched_if :
    (ctx : Context) (sealed : Option Str) (db : AuthDb)
    → AuthEvolves db (elim sealed [ none ↦ db | some _ ↦ set_enrollment_latch ctx db ])
latched_if ctx none db = AuthEvolves-refl db
latched_if ctx (some blob) db = latched ctx db

pub create_token-Continues :
    (store : AuthStore) (ctx : Context) (nonce label plaintext secret : Str)
    → Continues (create_reviewer_token store ctx nonce label plaintext secret)
unfolding create_reviewer_token insert_reviewer_token
create_token-Continues store ctx nonce label plaintext secret = Keeps-check evolution _ _ _ (
    Keeps-lift evolution _ _ (λ sealed. Keeps-atomically evolution _ (
      Keeps-then evolution _ _
        (Keeps-gets evolution _ _ (λ taken.
          Keeps-check evolution _ _ _
            (Keeps-modify evolution _ _ (token_added _) (Keeps-pure evolution _ _))))
        (λ row. Keeps-modify evolution _ _ (latched_if ctx sealed) (Keeps-pure evolution _ _)))))

pub create_agent-Continues :
    (store : AuthStore) (ctx : Context) (subject label plaintext : Str)
    → Continues (create_agent_token store ctx subject label plaintext)
unfolding create_agent_token insert_agent_token
create_agent-Continues store ctx subject label plaintext = Keeps-check evolution _ _ _ (
    Keeps-check evolution _ _ _ (
      Keeps-then evolution _ _
        (Keeps-gets evolution _ _ (λ taken.
          Keeps-check evolution _ _ _
            (Keeps-modify evolution _ _ (agent_added _) (Keeps-pure evolution _ _))))
        (λ row. Keeps-pure evolution _ _)))

pub create_credential-Continues :
    (marshal : List (Str × Str) → Str) (ctx : Context) (owner : RowId) (label : Str)
    (cred : NewCredential) (actor : Str)
    → Continues (create_credential marshal ctx owner label cred actor)
unfolding create_credential insert_credential
create_credential-Continues marshal ctx owner label cred actor = Keeps-check evolution _ _ _ (
    Keeps-check evolution _ _ _ (
      Keeps-check evolution _ _ _ (
        Keeps-check evolution _ _ _ (
          Keeps-atomically evolution _ (
            Keeps-then evolution _ _
              (Keeps-gets evolution _ _ (λ taken.
                Keeps-check evolution _ _ _
                  (Keeps-modify evolution _ _ (passkey_added _) (Keeps-pure evolution _ _))))
              (λ row. Keeps-modify evolution _ _ (latched ctx) (
                Keeps-modify evolution _ _
                  (λ db. Frozen-AuthEvolves _ _ (log-Frozen ctx _ actor _ db))
                  (Keeps-pure evolution _ _))))))))
