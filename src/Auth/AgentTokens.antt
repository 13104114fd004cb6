-- ===== src/Auth/AgentTokens.antt =====
-- backend/internal/store/agent_tokens.go, with its queries (sqlcgen/agent_tokens.sql.go).
use mathlib.Core.Option
use chuvar.Prelude.{
  Str, Bool, not, ◌&&◌, Option, none, some, [], ◌∷◌, ◌++◌, is_empty, any, str_eq, ltb, ◌==◌,
}
use chuvar.Store.Types.{RowId, Time, Context}
use chuvar.Store.Tables.{find, update_where, count_where}
use chuvar.Auth.Action.{Action, pure, gets, modify, check, ◌>>=◌, ◌>>◌}
use chuvar.Auth.Types.{
  AgentTokenRow, AuthDb, AuthStore, AuthError, subject_empty, label_empty, duplicate_token,
  not_found_or_revoked,
}
use chuvar.Auth.Tokens.{is_unset, hash_token}

pub record AgentToken : Type 0 where
  pub id : RowId
  pub subject : Str
  pub label : Str
  pub created_at : Time
  pub last_used_at : Option Time
  pub revoked_at : Option Time

pub record AuthenticatedAgent : Type 0 where
  pub id : RowId
  pub subject : Str
  pub label : Str

-- WHERE token_hash = $1 AND revoked_at IS NULL
unfoldable pub active_agent_with_hash : Str → AgentTokenRow → Bool
active_agent_with_hash hash t = str_eq t.token_hash hash && is_unset t.revoked_at

-- WHERE id = $1 AND revoked_at IS NULL
unfoldable pub unrevoked_agent : RowId → AgentTokenRow → Bool
unrevoked_agent id t = t.id == id && is_unset t.revoked_at

unfoldable pub new_agent_token : Context → Str → Str → Str → AgentTokenRow
new_agent_token ctx subject label hash = record {
  id = ctx.new_id;
  subject = subject;
  label = label;
  token_hash = hash;
  created_at = ctx.db_now;
  last_used_at = none;
  revoked_at = none;
}

unfoldable pub insert_agent_token :
    Context → Str → Str → Str → Action AuthDb AuthError AgentTokenRow
insert_agent_token ctx subject label hash = do
  taken ← gets (λ db. any (active_agent_with_hash hash) db.agent_tokens)
  check (not taken) duplicate_token
  let row = new_agent_token ctx subject label hash
  modify (λ db. record db { agent_tokens = db.agent_tokens ++ row ∷ [] })
  pure row

module _ (store : AuthStore) where
  -- CreateAgentToken
  unfoldable pub create_agent_token : Context → Str → Str → Str → Action AuthDb AuthError AgentToken
  create_agent_token ctx subject label plaintext = do
    check (not (is_empty subject)) subject_empty
    check (not (is_empty label)) label_empty
    row ← insert_agent_token ctx subject label (hash_token store plaintext)
    pure (record {
      id = row.id;
      subject = row.subject;
      label = row.label;
      created_at = row.created_at;
      last_used_at = none;
      revoked_at = none;
    })

  -- AuthenticateAgentToken: `none` is "no such active token".
  unfoldable pub authenticate_agent_token :
      Context → Str → Action AuthDb AuthError (Option AuthenticatedAgent)
  authenticate_agent_token ctx plaintext = do
    found ← gets (λ db. find (active_agent_with_hash (hash_token store plaintext)) db.agent_tokens)
    modify (λ db. elim found [
      | none ↦ db
      | some row ↦ record db {
        agent_tokens =
            update_where (λ t. t.id == row.id) (λ t. record t { last_used_at = some ctx.db_now })
              db.agent_tokens;
      }
    ])
    pure
        (Option.map (λ row. record { id = row.id; subject = row.subject; label = row.label }) found)

-- RevokeAgentToken
unfoldable pub revoke_agent_token : Context → RowId → Action AuthDb AuthError (Unit {0})
revoke_agent_token ctx id = do
  rows ← gets (λ db. count_where (unrevoked_agent id) db.agent_tokens)
  modify (λ db. record db {
    agent_tokens =
        update_where (unrevoked_agent id) (λ t. record t { revoked_at = some ctx.db_now })
          db.agent_tokens;
  })
  check (ltb 0 rows) not_found_or_revoked
