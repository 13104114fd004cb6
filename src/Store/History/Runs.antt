-- ===== src/Store/History/Runs.antt =====
-- Any sequence of operations of the store, by agents and reviewers, failed ones among them.
use chuvar.Prelude.{Str, refl, subst, sym, Option, List, [], ◌∷◌, ℤ, All}
use chuvar.Store.Types.{RowId, Context, Db, GrantedScope}
use chuvar.Store.Grants.{create_grant, revoke_grant, renew_grant}
use chuvar.Store.Grants.Authority.{Evolves, Evolves-refl, Evolves-trans}
use chuvar.Store.Requests.{request_grant, approve_grant_request, deny_grant_request}
use chuvar.Store.Facts.{Engine}
use chuvar.Store.Diffs.{propose_diff, commit_diff, reject_diff}
use chuvar.Store.History.{GrantsEvolve, SameAuthority, SameAuthority-trans}
use chuvar.Store.History.Agents.{request_grant-Keeps, propose_diff-Keeps}
use chuvar.Store.History.Grants.{
  create_grant-Keeps, revoke_grant-Keeps, renew_grant-Keeps, approve_grant_request-Keeps,
  deny_grant_request-Keeps, reject_diff-Keeps, commit_diff-Keeps,
}

-- A call of the store, with its context and its arguments. F is the numbers of an embedding.
pub data Op (F : Type 0) : Type 0 where
  create : Context → Str → List Str → Str → Str → Option ℤ → Str → Op F
  revoke : Context → RowId → Str → Op F
  renew : Context → RowId → ℤ → Str → Op F
  request : Context → Str → List Str → Str → Str → Option ℤ → Str → Op F
  approve : Context → RowId → Str → Op F
  deny : Context → RowId → Str → Op F
  propose : Context → Str → Str → List Str → List F → Option RowId → List GrantedScope → Op F
  reject : Context → RowId → Str → Op F
  commit : Context → RowId → Str → List F → Str → Op F

module _ {F V : Type 0} (engine : Engine F V) where
  -- The database after the call.
  unfoldable pub perform : Op F → Db V → Db V
  perform (create ctx subject scopes kind depth ttl actor) db =
      (create_grant ctx subject scopes kind depth ttl actor db).1
  perform (revoke ctx id actor) db = (revoke_grant ctx id actor db).1
  perform (renew ctx id ttl actor) db = (renew_grant ctx id ttl actor db).1
  perform (request ctx subject scopes kind depth ttl why) db =
      (request_grant ctx subject scopes kind depth ttl why db).1
  perform (approve ctx id by) db = (approve_grant_request ctx id by db).1
  perform (deny ctx id by) db = (deny_grant_request ctx id by db).1
  perform (propose ctx subject content scopes embedding target granted) db =
      (propose_diff engine ctx subject content scopes embedding target granted db).1
  perform (reject ctx id by) db = (reject_diff ctx id by db).1
  perform (commit ctx id by embedding summary) db =
      (commit_diff engine ctx id by embedding summary db).1

  unfoldable pub perform_all : List (Op F) → Db V → Db V
  unfolding perform
  perform_all [] db = db
  perform_all (op ∷ ops) db = perform_all ops (perform op db)

  perform_evolves : (op : Op F) (db : Db V) → GrantsEvolve db (perform op db)
  unfolding perform
  perform_evolves (create ctx subject scopes kind depth ttl actor) db =
      create_grant-Keeps ctx subject scopes kind depth ttl actor db
  perform_evolves (revoke ctx id actor) db = revoke_grant-Keeps ctx id actor db
  perform_evolves (renew ctx id ttl actor) db = renew_grant-Keeps ctx id ttl actor db
  perform_evolves (request ctx subject scopes kind depth ttl why) db =
      subst (Evolves db.grants)
        (sym (request_grant-Keeps ctx subject scopes kind depth ttl why db).0)
        (Evolves-refl db.grants)
  perform_evolves (approve ctx id by) db = approve_grant_request-Keeps ctx id by db
  perform_evolves (deny ctx id by) db = deny_grant_request-Keeps ctx id by db
  perform_evolves (propose ctx subject content scopes embedding target granted) db =
      subst (Evolves db.grants)
        (sym (propose_diff-Keeps engine ctx subject content scopes embedding target granted db).0)
        (Evolves-refl db.grants)
  perform_evolves (reject ctx id by) db = reject_diff-Keeps ctx id by db
  perform_evolves (commit ctx id by embedding summary) db =
      commit_diff-Keeps engine ctx id by embedding summary db

  -- History is append-only: whatever calls are made, in whatever order, every row of grants stays
  -- at its place with its id, subject, kind and depth, and a revocation once set stays as it is.
  pub grants_evolve : (ops : List (Op F)) (db : Db V) → GrantsEvolve db (perform_all ops db)
  unfolding perform_all
  grants_evolve [] db = Evolves-refl db.grants
  grants_evolve (op ∷ ops) db =
      Evolves-trans db.grants (perform op db).grants (perform_all ops (perform op db)).grants
        (perform_evolves op db) (grants_evolve ops (perform op db))

  -- The call is one that agents make.
  abbrev pub IsAgentCall : Op F → Type 0
  IsAgentCall (request _ _ _ _ _ _ _) = Unit
  IsAgentCall (propose _ _ _ _ _ _ _) = Unit
  IsAgentCall _ = ⊥

  perform_staged : (op : Op F) (db : Db V) → IsAgentCall op → SameAuthority db (perform op db)
  unfolding perform
  perform_staged (request ctx subject scopes kind depth ttl why) db h =
      request_grant-Keeps ctx subject scopes kind depth ttl why db
  perform_staged (propose ctx subject content scopes embedding target granted) db h =
      propose_diff-Keeps engine ctx subject content scopes embedding target granted db
  perform_staged (create _ _ _ _ _ _ _) db h = absurd h
  perform_staged (revoke _ _ _) db h = absurd h
  perform_staged (renew _ _ _ _) db h = absurd h
  perform_staged (approve _ _ _) db h = absurd h
  perform_staged (deny _ _ _) db h = absurd h
  perform_staged (reject _ _ _) db h = absurd h
  perform_staged (commit _ _ _ _ _) db h = absurd h

  -- Agents only stage: however many calls they make to request grants and to propose diffs, the
  -- grants, their scopes, the facts and their scopes stay exactly as they were.
  pub agents_stage :
      (ops : List (Op F)) (db : Db V) → All IsAgentCall ops → SameAuthority db (perform_all ops db)
  unfolding perform_all
  agents_stage [] db h = (refl, refl, refl, refl)
  agents_stage (op ∷ ops) db h =
      SameAuthority-trans db (perform op db) (perform_all ops (perform op db))
        (perform_staged op db h.0) (agents_stage ops (perform op db) h.1)
