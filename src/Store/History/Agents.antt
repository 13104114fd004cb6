-- ===== src/Store/History/Agents.antt =====
-- The operations that agents call, on the tables that only a reviewer's decision changes.
use chuvar.Prelude.{Str, refl, Option, List, ℤ}
use chuvar.Store.Types.{RowId, Context, Db, GrantedScope}
use chuvar.Store.Requests.{request_grant}
use chuvar.Store.Facts.{Engine}
use chuvar.Store.Diffs.{propose_diff}
use chuvar.Store.History.{
  SameAuthority, SameAuthority-trans, Keeps-transaction, Keeps-check, Keeps-lift, Keeps-gets,
  Keeps-modify, Keeps-pure,
}

module _ {V : Type 0} where
  -- An agent's request for a grant changes no grant and no fact.
  pub request_grant-Keeps :
      (ctx : Context) (subject : Str) (scopes : List Str) (kind depth : Str) (ttl : Option ℤ)
      (why : Str) (db : Db V)
      → SameAuthority db (request_grant ctx subject scopes kind depth ttl why db).1
  unfolding request_grant
  request_grant-Keeps ctx subject scopes kind depth ttl why =
      let s : (db : Db V) → SameAuthority db db = λ db. (refl, refl, refl, refl) in
      let t = SameAuthority-trans {V = V} in
      Keeps-transaction SameAuthority s t _ (
        Keeps-check SameAuthority s t _ _ _ (
          Keeps-lift SameAuthority s t _ _ (λ kd. Keeps-lift SameAuthority s t _ _ (λ u.
            Keeps-check SameAuthority s t _ _ _ (
              Keeps-gets SameAuthority s t _ _ (λ db. Keeps-check SameAuthority s t _ _ _ (
                Keeps-check SameAuthority s t _ _ _ (
                  Keeps-lift SameAuthority s t _ _ (λ ttl.
                    Keeps-modify SameAuthority s t _ _ (λ db. (refl, refl, refl, refl))
                      (Keeps-pure SameAuthority s t _))))))))))

-- Nor does an agent's proposal of a diff.
pub propose_diff-Keeps :
    {F V : Type 0} (engine : Engine F V) (ctx : Context) (subject content : Str) (scopes : List Str)
    (embedding : List F) (target : Option RowId) (granted : List GrantedScope) (db : Db V)
    → SameAuthority db
        (propose_diff engine ctx subject content scopes embedding target granted db).1
unfolding propose_diff
propose_diff-Keeps {V = V} engine ctx subject content scopes embedding target granted =
    let s : (db : Db V) → SameAuthority db db = λ db. (refl, refl, refl, refl) in
    let t = SameAuthority-trans {V = V} in
    Keeps-transaction SameAuthority s t _ (
      Keeps-check SameAuthority s t _ _ _ (
        Keeps-check SameAuthority s t _ _ _ (
          Keeps-lift SameAuthority s t _ _ (λ u. Keeps-gets SameAuthority s t _ _ (λ db.
            Keeps-check SameAuthority s t _ _ _ (
              Keeps-lift SameAuthority s t _ _ (λ m. Keeps-lift SameAuthority s t _ _ (λ d.
                Keeps-check SameAuthority s t _ _ _ (
                  Keeps-modify SameAuthority s t _ _ (λ db. (refl, refl, refl, refl))
                    (Keeps-pure SameAuthority s t _))))))))))
