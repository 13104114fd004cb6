-- ===== src/Auth/Evolution/Usage.antt =====
-- What a request of an agent does to the credentials: it notes when a token was last used.
use chuvar.Prelude.{Str, ◌≡◌, refl, ◌∙◌, ap, Option, none, some, ◌==◌}
use chuvar.Store.Tables.{update_where}
use chuvar.Store.Types.{Context, Time}
use chuvar.Auth.Types.{AgentTokenRow, AuthDb, AuthStore}
use chuvar.Auth.Action.{Kept, Keeps, Keeps-gets, Keeps-modify, Keeps-pure}
use chuvar.Auth.AgentTokens.{authenticate_agent_token}
use chuvar.Auth.Evolution.{Pointwise, Pointwise-refl, Pointwise-trans, Pointwise-update}

abbrev pub used_at : Option Time → AgentTokenRow → AgentTokenRow
used_at at t = record t { last_used_at = at }

-- The same row, but for the time of its last use.
abbrev pub UsedAgain : AgentTokenRow → AgentTokenRow → Type 0
UsedAgain t u = u ≡ used_at u.last_used_at t

UsedAgain-trans : (a b c : AgentTokenRow) → UsedAgain a b → UsedAgain b c → UsedAgain a c
UsedAgain-trans a b c h k = k ∙ ap (used_at c.last_used_at) h

-- Nothing of the credentials has changed but when agents' tokens were last used.
pub record OnlyUsed (old new : AuthDb) : Type 0 where
  pub agents : Pointwise UsedAgain old.agent_tokens new.agent_tokens
  pub reviewers : new.reviewer_tokens ≡ old.reviewer_tokens
  pub passkeys : new.webauthn_credentials ≡ old.webauthn_credentials
  pub challenges : new.webauthn_challenges ≡ old.webauthn_challenges
  pub latch : new.enrollment_latch ≡ old.enrollment_latch
  pub audited : new.audit_log ≡ old.audit_log

pub OnlyUsed-refl : (db : AuthDb) → OnlyUsed db db
OnlyUsed-refl db = record {
  agents = Pointwise-refl UsedAgain (λ t. refl) UsedAgain-trans db.agent_tokens;
  reviewers = refl;
  passkeys = refl;
  challenges = refl;
  latch = refl;
  audited = refl;
}

pub OnlyUsed-trans : (a b c : AuthDb) → OnlyUsed a b → OnlyUsed b c → OnlyUsed a c
OnlyUsed-trans a b c h k = record {
  agents =
      Pointwise-trans UsedAgain (λ t. refl) UsedAgain-trans a.agent_tokens b.agent_tokens
        c.agent_tokens h.agents k.agents;
  reviewers = k.reviewers ∙ h.reviewers;
  passkeys = k.passkeys ∙ h.passkeys;
  challenges = k.challenges ∙ h.challenges;
  latch = k.latch ∙ h.latch;
  audited = k.audited ∙ h.audited;
}

abbrev pub only_used : Kept AuthDb
only_used = record { relates = OnlyUsed; same = OnlyUsed-refl; through = OnlyUsed-trans }

touched :
    (now : Time) (found : Option AgentTokenRow) (db : AuthDb)
    → OnlyUsed db (elim found [
      | none ↦ db
      | some row ↦ record db {
        agent_tokens =
            update_where
              (λ t. t.id == row.id)
              (λ t. record t { last_used_at = some now })
              db.agent_tokens;
      }
    ])
touched now none db = OnlyUsed-refl db
touched now (some row) db = record {
  agents =
      Pointwise-update UsedAgain (λ t. refl) UsedAgain-trans (λ t. t.id == row.id)
        (λ t. record t { last_used_at = some now }) db.agent_tokens (λ t _. refl);
  reviewers = refl;
  passkeys = refl;
  challenges = refl;
  latch = refl;
  audited = refl;
}

pub authenticate_agent-OnlyUsed :
    (store : AuthStore) (ctx : Context) (plaintext : Str)
    → Keeps only_used (authenticate_agent_token store ctx plaintext)
unfolding authenticate_agent_token
authenticate_agent-OnlyUsed store ctx plaintext =
    Keeps-gets only_used _ _
      (λ found. Keeps-modify only_used _ _ (touched ctx.db_now found) (Keeps-pure only_used _ _))
