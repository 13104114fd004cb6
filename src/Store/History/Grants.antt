-- ===== src/Store/History/Grants.antt =====
-- What each operation of a reviewer does to the history of the grants.
use chuvar.Prelude.{Str, sym, subst, Option, none, some, List, [], ◌∷◌, ℤ}
use chuvar.Store.Types.{RowId, Context, Db, Time}
use chuvar.Store.Audit.{Subjects, log_audit}
use chuvar.Store.Grants.{
  insert_grant, insert_grant_scopes, create_grant, create_grant_tx, revoke_grant, renew_grant,
  new_grant_row,
}
use chuvar.Store.Grants.Creation.{insert_grant_scopes_lem}
use chuvar.Store.Grants.Authority.{
  Evolves-refl, Evolves-append, Evolves-trans, revoke-Evolves, renew-Evolves,
}
use chuvar.Store.Requests.{approve_grant_request, approve_loaded, deny_grant_request}
use chuvar.Store.Facts.{Engine}
use chuvar.Store.Diffs.{
  commit_diff, commit_loaded, reject_diff, insert_fact_scopes, supersede_target,
}
use chuvar.Store.Diffs.Commit.{insert_fact_scopes_lem}
use chuvar.Store.History.{
  Keeps, GrantsEvolve, Keeps-transaction, Keeps-then, Keeps-check, Keeps-lift, Keeps-gets,
  Keeps-modify, Keeps-last, Keeps-pure,
}

module _ {V : Type 0} where
  evolves_same : (db : Db V) → GrantsEvolve db db
  evolves_same db = Evolves-refl db.grants

  evolves_trans : (a b c : Db V) → GrantsEvolve a b → GrantsEvolve b c → GrantsEvolve a c
  evolves_trans a b c h k = Evolves-trans a.grants b.grants c.grants h k

  log_audit-Keeps :
      (ctx : Context) (e by : Str) (ids : Subjects) (scopes : List Str) (detail : Option Str)
      → Keeps GrantsEvolve evolves_same evolves_trans (log_audit {V = V} ctx e by ids scopes detail)
  unfolding log_audit
  log_audit-Keeps ctx e by ids scopes detail =
      Keeps-last GrantsEvolve evolves_same evolves_trans _ (λ db. evolves_same db)

  insert_grant-Keeps :
      (ctx : Context) (subject kind : Str) (depth : Option Str) (expires : Option Time)
      → Keeps GrantsEvolve evolves_same evolves_trans
          (insert_grant {V = V} ctx subject kind depth expires)
  unfolding insert_grant
  insert_grant-Keeps ctx subject kind depth expires =
      Keeps-gets GrantsEvolve evolves_same evolves_trans _ _ (λ db.
        Keeps-check GrantsEvolve evolves_same evolves_trans _ _ _ (
          Keeps-check GrantsEvolve evolves_same evolves_trans _ _ _ (
            Keeps-modify GrantsEvolve evolves_same evolves_trans _ _
              (λ db. Evolves-append db.grants (new_grant_row ctx subject kind depth expires ∷ []))
              (Keeps-pure GrantsEvolve evolves_same evolves_trans _))))

  insert_grant_scopes-Keeps :
      (id : RowId) (scopes : List Str)
      → Keeps GrantsEvolve evolves_same evolves_trans (insert_grant_scopes {V = V} id scopes)
  insert_grant_scopes-Keeps id scopes db db' u h =
      subst (GrantsEvolve db) (sym (insert_grant_scopes_lem id scopes db db' h)) (evolves_same db)

  -- Creating a grant adds a row behind those there.
  pub create_grant-Keeps :
      (ctx : Context) (subject : Str) (scopes : List Str) (kind depth : Str) (ttl : Option ℤ)
      (actor : Str) (db : Db V)
      → GrantsEvolve db (create_grant ctx subject scopes kind depth ttl actor db).1
  unfolding create_grant create_grant_tx
  create_grant-Keeps ctx subject scopes kind depth ttl actor =
      Keeps-transaction GrantsEvolve evolves_same evolves_trans _ (
        Keeps-check GrantsEvolve evolves_same evolves_trans _ _ _ (
          Keeps-lift GrantsEvolve evolves_same evolves_trans _ _ (λ kd.
            Keeps-lift GrantsEvolve evolves_same evolves_trans _ _ (λ u.
              Keeps-check GrantsEvolve evolves_same evolves_trans _ _ _ (
                Keeps-then GrantsEvolve evolves_same evolves_trans _ _
                  (insert_grant-Keeps ctx subject kd.0 _ _)
                  (λ row.
                    Keeps-then GrantsEvolve evolves_same evolves_trans _ _
                      (insert_grant_scopes-Keeps row.id scopes)
                      (λ u.
                        Keeps-then GrantsEvolve evolves_same evolves_trans _ _
                          (log_audit-Keeps ctx _ actor _ scopes none)
                          (λ u. Keeps-pure GrantsEvolve evolves_same evolves_trans _))))))))

  -- Revoking marks rows that are not revoked yet.
  pub revoke_grant-Keeps :
      (ctx : Context) (id : RowId) (actor : Str) (db : Db V)
      → GrantsEvolve db (revoke_grant ctx id actor db).1
  unfolding revoke_grant
  revoke_grant-Keeps ctx id actor = Keeps-transaction GrantsEvolve evolves_same evolves_trans _ (
      Keeps-check GrantsEvolve evolves_same evolves_trans _ _ _ (
        Keeps-gets GrantsEvolve evolves_same evolves_trans _ _ (λ rows.
          Keeps-modify GrantsEvolve evolves_same evolves_trans _ _
            (λ db. revoke-Evolves ctx.db_now id db.grants)
            (Keeps-check GrantsEvolve evolves_same evolves_trans _ _ _
              (log_audit-Keeps ctx _ actor _ [] none)))))

  -- Renewing changes only expiries.
  pub renew_grant-Keeps :
      (ctx : Context) (id : RowId) (ttl : ℤ) (actor : Str) (db : Db V)
      → GrantsEvolve db (renew_grant ctx id ttl actor db).1
  unfolding renew_grant
  renew_grant-Keeps ctx id ttl actor = Keeps-transaction GrantsEvolve evolves_same evolves_trans _ (
      Keeps-check GrantsEvolve evolves_same evolves_trans _ _ _ (
        Keeps-check GrantsEvolve evolves_same evolves_trans _ _ _ (
          Keeps-gets GrantsEvolve evolves_same evolves_trans _ _ (λ found.
            Keeps-lift GrantsEvolve evolves_same evolves_trans _ _ (λ row.
              Keeps-modify GrantsEvolve evolves_same evolves_trans _ _
                (λ db. renew-Evolves ctx.db_now id _ db.grants)
                (Keeps-gets GrantsEvolve evolves_same evolves_trans _ _ (λ scopes.
                  Keeps-then GrantsEvolve evolves_same evolves_trans _ _
                    (log_audit-Keeps ctx _ actor _ scopes none)
                    (λ u. Keeps-pure GrantsEvolve evolves_same evolves_trans _))))))))

  -- Approving a request adds a row behind those there.
  pub approve_grant_request-Keeps :
      (ctx : Context) (id : RowId) (by : Str) (db : Db V)
      → GrantsEvolve db (approve_grant_request ctx id by db).1
  unfolding approve_grant_request approve_loaded
  approve_grant_request-Keeps ctx id by =
      Keeps-transaction GrantsEvolve evolves_same evolves_trans _ (
        Keeps-check GrantsEvolve evolves_same evolves_trans _ _ _ (
          Keeps-gets GrantsEvolve evolves_same evolves_trans _ _ (λ found.
            Keeps-lift GrantsEvolve evolves_same evolves_trans _ _ (λ req.
              Keeps-check GrantsEvolve evolves_same evolves_trans _ _ _ (
                Keeps-lift GrantsEvolve evolves_same evolves_trans _ _ (λ u.
                  Keeps-then GrantsEvolve evolves_same evolves_trans _ _
                    (insert_grant-Keeps ctx req.subject req.kind req.depth _)
                    (λ row.
                      Keeps-then GrantsEvolve evolves_same evolves_trans _ _
                        (insert_grant_scopes-Keeps row.id req.requested_scopes)
                        (λ u. Keeps-gets GrantsEvolve evolves_same evolves_trans _ _ (λ rows.
                          Keeps-modify GrantsEvolve evolves_same evolves_trans _ _
                            (λ db. evolves_same db)
                            (Keeps-check GrantsEvolve evolves_same evolves_trans _ _ _ (
                              Keeps-then GrantsEvolve evolves_same evolves_trans _ _
                                (log_audit-Keeps ctx _ by _ req.requested_scopes none)
                                (λ u.
                                  Keeps-pure GrantsEvolve evolves_same evolves_trans _))))))))))))

  -- Denying one leaves the grants alone.
  pub deny_grant_request-Keeps :
      (ctx : Context) (id : RowId) (by : Str) (db : Db V)
      → GrantsEvolve db (deny_grant_request ctx id by db).1
  unfolding deny_grant_request
  deny_grant_request-Keeps ctx id by = Keeps-transaction GrantsEvolve evolves_same evolves_trans _ (
      Keeps-check GrantsEvolve evolves_same evolves_trans _ _ _ (
        Keeps-gets GrantsEvolve evolves_same evolves_trans _ _ (λ rows.
          Keeps-modify GrantsEvolve evolves_same evolves_trans _ _ (λ db. evolves_same db)
            (Keeps-check GrantsEvolve evolves_same evolves_trans _ _ _
              (log_audit-Keeps ctx _ by _ [] none)))))

  -- So does rejecting a diff,
  pub reject_diff-Keeps :
      (ctx : Context) (id : RowId) (by : Str) (db : Db V)
      → GrantsEvolve db (reject_diff ctx id by db).1
  unfolding reject_diff
  reject_diff-Keeps ctx id by = Keeps-transaction GrantsEvolve evolves_same evolves_trans _ (
      Keeps-gets GrantsEvolve evolves_same evolves_trans _ _ (λ rows.
        Keeps-modify GrantsEvolve evolves_same evolves_trans _ _ (λ db. evolves_same db)
          (Keeps-check GrantsEvolve evolves_same evolves_trans _ _ _
            (log_audit-Keeps ctx _ by _ [] none))))

  insert_fact_scopes-Keeps :
      (id : RowId) (scopes : List Str)
      → Keeps GrantsEvolve evolves_same evolves_trans (insert_fact_scopes {V = V} id scopes)
  insert_fact_scopes-Keeps id scopes db db' u h =
      subst (GrantsEvolve db) (sym (insert_fact_scopes_lem id scopes db db' h)) (evolves_same db)

  supersede_target-Keeps :
      (ctx : Context) (target : Option RowId)
      → Keeps GrantsEvolve evolves_same evolves_trans (supersede_target {V = V} ctx target)
  unfolding supersede_target
  supersede_target-Keeps ctx none = Keeps-pure GrantsEvolve evolves_same evolves_trans tt
  supersede_target-Keeps ctx (some id) =
      Keeps-gets GrantsEvolve evolves_same evolves_trans _ _ (λ found.
        Keeps-lift GrantsEvolve evolves_same evolves_trans _ _ (λ f.
          Keeps-check GrantsEvolve evolves_same evolves_trans _ _ _
            (Keeps-last GrantsEvolve evolves_same evolves_trans _ (λ db. evolves_same db))))

  -- and committing one.
  pub commit_diff-Keeps :
      {F : Type 0} (engine : Engine F V) (ctx : Context) (id : RowId) (by : Str)
      (embedding : List F) (summary : Str) (db : Db V)
      → GrantsEvolve db (commit_diff engine ctx id by embedding summary db).1
  unfolding commit_diff commit_loaded
  commit_diff-Keeps engine ctx id by embedding summary =
      Keeps-transaction GrantsEvolve evolves_same evolves_trans _ (
        Keeps-gets GrantsEvolve evolves_same evolves_trans _ _ (λ found.
          Keeps-lift GrantsEvolve evolves_same evolves_trans _ _ (λ d.
            Keeps-check GrantsEvolve evolves_same evolves_trans _ _ _ (
              Keeps-gets GrantsEvolve evolves_same evolves_trans _ _ (λ dup.
                Keeps-check GrantsEvolve evolves_same evolves_trans _ _ _ (
                  Keeps-lift GrantsEvolve evolves_same evolves_trans _ _ (λ emb.
                    Keeps-lift GrantsEvolve evolves_same evolves_trans _ _ (λ u.
                      Keeps-gets GrantsEvolve evolves_same evolves_trans _ _ (λ db.
                        Keeps-check GrantsEvolve evolves_same evolves_trans _ _ _ (
                          Keeps-modify GrantsEvolve evolves_same evolves_trans _ _
                            (λ db. evolves_same db)
                            (Keeps-then GrantsEvolve evolves_same evolves_trans _ _
                              (insert_fact_scopes-Keeps ctx.new_id d.proposed_scopes)
                              (λ u.
                                Keeps-then GrantsEvolve evolves_same evolves_trans _ _
                                  (supersede_target-Keeps ctx d.target_fact_id)
                                  (λ u.
                                    Keeps-modify GrantsEvolve evolves_same evolves_trans _ _
                                      (λ db. evolves_same db)
                                      (Keeps-then GrantsEvolve evolves_same evolves_trans _ _
                                        (log_audit-Keeps ctx _ by _ d.proposed_scopes none)
                                        (λ u.
                                          Keeps-pure GrantsEvolve evolves_same evolves_trans
                                            _)))))))))))))))
