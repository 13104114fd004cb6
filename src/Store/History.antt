-- ===== src/Store/History.antt =====
-- What every operation of the store keeps: the history of the grants, and, for the operations of
-- agents, the grants and the facts themselves.
pub mod Grants
pub mod Agents
pub mod Runs
use chuvar.Prelude.{
  ℕ, Str, Bool, true, false, ◌≡◌, refl, sym, ap, subst, ◌∙◌, inl, inr, Option, none, some, List, [],
  ◌∷◌, ◌++◌, Result, ok, err, Result-cases, ℤ,
}
use chuvar.Store.Types.{RowId, Context, Db, StoreError, GrantRow, GrantedScope}
use chuvar.Store.Tables.{
  Tx, pure, lift, gets, modify, check, ◌>>=◌, ◌>>◌, transaction, transaction-ok, transaction-err,
  >>=-ok, lift-ok, gets-ok, pure-ok, modify-ok, modify-last, check-ok,
}
use chuvar.Store.Audit.{log_audit}
use chuvar.Store.Grants.Authority.{
  Evolves, Evolves-refl, Evolves-append, Evolves-trans, revoke-Evolves, renew-Evolves,
}

-- A relation between the database before an operation and after it, which the empty step has and
-- steps pass on.
module _ {V : Type 0} (P : Db V → Db V → Type 0) (same : (db : Db V) → P db db)
    (trans : (a b c : Db V) → P a b → P b c → P a c) where
  -- An action that, where it succeeds, relates the two.
  abbrev pub Keeps : {A : Type 0} → Tx V A → Type 0
  Keeps {A = A} m = (db db' : Db V) (a : A) → m db ≡ ok (a, db') → P db db'

  module _ {A : Type 0} where
    pub Keeps-pure : (a : A) → Keeps (pure a)
    Keeps-pure a db db' b h = subst (P db) (sym (pure-ok a b db db' h).1) (same db)

    pub Keeps-transaction : (m : Tx V A) → Keeps m → (db : Db V) → P db (transaction m db).1
    Keeps-transaction m k db = elim (Result-cases (transaction m db).0) [
      | inl (a, e) ↦
          k db (transaction m db).1 a
            (transaction-ok m db (transaction m db).1 a (ap (λ r. (r, (transaction m db).1)) e))
      | inr (bad, e) ↦
          subst (P db)
            (sym (
              transaction-err m db (transaction m db).1 bad
                (ap (λ r. (r, (transaction m db).1)) e)))
            (same db)
    ]

  module _ {A B : Type 0} where
    pub Keeps-then :
        (m : Tx V A) (f : A → Tx V B) → Keeps m → ((a : A) → Keeps (f a)) → Keeps (m >>= f)
    Keeps-then m f k l db db' b h =
        let (a, db₁, e, h₁) = >>=-ok m f db (b, db') h in
        trans db db₁ db' (k db db₁ a e) (l a db₁ db' b h₁)

    pub Keeps-lift :
        (r : Result StoreError A) (f : A → Tx V B) → ((a : A) → Keeps (f a)) → Keeps (lift r >>= f)
    Keeps-lift r f k db db' b h = let (a, _, h₁) = lift-ok r f db (b, db') h in k a db db' b h₁

    pub Keeps-gets :
        (g : Db V → A) (f : A → Tx V B) → ((a : A) → Keeps (f a)) → Keeps (gets g >>= f)
    Keeps-gets g f k db db' b h = k (g db) db db' b (gets-ok g f db (b, db') h)

  module _ {B : Type 0} where
    pub Keeps-check : (b : Bool) (e : StoreError) (k : Tx V B) → Keeps k → Keeps (check b e >> k)
    Keeps-check b e k l db db' x h = l db db' x (check-ok b e k db (x, db') h).1

    pub Keeps-modify :
        (f : Db V → Db V) (k : Tx V B)
        → ((db : Db V) → P db (f db))
        → Keeps k
        → Keeps (modify f >> k)
    Keeps-modify f k step l db db' x h =
        trans db (f db) db' (step db) (l (f db) db' x (modify-ok f k db (x, db') h))

  pub Keeps-last : (f : Db V → Db V) → ((db : Db V) → P db (f db)) → Keeps (modify f)
  Keeps-last f step db db' u h = subst (P db) (sym (modify-last f db db' u h)) (step db)

-- The grants go on: no row is lost, and none is unrevoked or changes its subject, kind or depth.
abbrev pub GrantsEvolve : {V : Type 0} → Db V → Db V → Type 0
GrantsEvolve db db' = Evolves db.grants db'.grants

-- Nothing that gives authority, and nothing that is read, has changed.
abbrev pub SameAuthority : {V : Type 0} → Db V → Db V → Type 0
SameAuthority db db' =
    (db'.grants ≡ db.grants)
    × (db'.grant_scopes ≡ db.grant_scopes)
    × (db'.facts ≡ db.facts)
    × (db'.fact_scopes ≡ db.fact_scopes)

pub SameAuthority-trans :
    {V : Type 0} (a b c : Db V) → SameAuthority a b → SameAuthority b c → SameAuthority a c
SameAuthority-trans a b c h k = (k.0 ∙ h.0, k.1 ∙ h.1, k.2 ∙ h.2, k.3 ∙ h.3)
