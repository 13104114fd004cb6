-- ===== src/Store/Tables.antt =====
-- Transactions, and the statements SELECT, UPDATE and INSERT on a table.
use chuvar.Prelude.{
  ℕ, suc, Bool, true, false, ◌≡◌, refl, inl, inr, Option, none, some, List, [], ◌∷◌, ◌++◌, arith,
  Result, ok, err, Elem, All, Bool-cases, Result-cases, if◌then◌else◌,
}
use chuvar.Store.Types.{Db, StoreError}

-- The body of a transaction: an error keeps no change.
abbrev pub Tx : Type 0 → Type 0 → Type 0
Tx V A = Db V → Result StoreError (A × Db V)

module _ {V A : Type 0} where
  pub pure : A → Tx V A
  pure a db = ok (a, db)

  pub lift : Result StoreError A → Tx V A
  lift r db = elim r [ ok a ↦ ok (a, db) | err e ↦ err e ]

  pub gets : (Db V → A) → Tx V A
  gets f db = ok (f db, db)

module _ {V : Type 0} where
  pub modify : (Db V → Db V) → Tx V (Unit {0})
  modify f db = ok (tt, f db)

  -- if !b { return e }
  pub check : Bool → StoreError → Tx V (Unit {0})
  check b e db = if b then ok (tt, db) else err e

module _ {V A B : Type 0} where
  infixl 5 ◌>>=◌
  -- opening this opens the actions above too
  unfoldable pub ◌>>=◌ : Tx V A → (A → Tx V B) → Tx V B
  unfolding pure lift gets modify check
  ◌>>=◌ m f db = elim (m db) [ err e ↦ err e | ok (a, db') ↦ f a db' ]

module _ {V B : Type 0} where
  infixl 5 ◌>>◌
  abbrev pub ◌>>◌ : Tx V (Unit {0}) → Tx V B → Tx V B
  m >> k = m >>= λ _. k

-- Begin, the body, and Commit or the deferred Rollback.
unfoldable pub transaction : {V A : Type 0} → Tx V A → Db V → Result StoreError A × Db V
transaction m db = elim (m db) [ ok (a, db') ↦ (ok a, db') | err e ↦ (err e, db) ]

module _ {A : Type 0} where
  -- SELECT ... WHERE id = $1
  unfoldable pub find : (A → Bool) → List A → Option A
  find p [] = none
  find p (r ∷ rows) = let rest = find p rows in if p r then some r else rest

  -- UPDATE ... SET f WHERE p
  unfoldable pub update_where : (A → Bool) → (A → A) → List A → List A
  update_where p f [] = []
  update_where p f (r ∷ rows) =
      let rest = update_where p f rows in if p r then f r ∷ rest else r ∷ rest

  -- The number of rows that an UPDATE with this condition changes.
  unfoldable pub count_where : (A → Bool) → List A → ℕ
  count_where p [] = 0
  count_where p (r ∷ rows) = let rest = count_where p rows in if p r then suc rest else rest

  pub find-Elem :
      (p : A → Bool) (rows : List A) (r : A) → find p rows ≡ some r → Elem r rows × (p r ≡ true)
  unfolding find
  find-Elem p [] r h = absurd (cc)
  find-Elem p (x ∷ rows) r h = elim (Bool-cases (p x)) [
    | inl e ↦ ground arith
    | inr e ↦ let (there, hit) = find-Elem p rows r (rw e at h) in (inr there, hit)
  ]

  -- What holds of every row still holds after an UPDATE that keeps it.
  pub All-update_where :
      (Q : A → Type 0) (p : A → Bool) (f : A → A) (rows : List A)
      → ((r : A) → p r ≡ true → Q r → Q (f r))
      → All Q rows
      → All Q (update_where p f rows)
  unfolding update_where
  All-update_where Q p f [] keep h = tt
  All-update_where Q p f (r ∷ rows) keep h = elim (Bool-cases (p r)) [
    | inl e ↦ rw (e, update_where) (keep r e h.0, All-update_where Q p f rows keep h.1)
    | inr e ↦ rw (e, update_where) (h.0, All-update_where Q p f rows keep h.1)
  ]

  pub All-append : (Q : A → Type 0) (xs ys : List A) → All Q xs → All Q ys → All Q (xs ++ ys)
  All-append Q [] ys h k = k
  All-append Q (x ∷ xs) ys h k = (h.0, All-append Q xs ys h.1 k)

  pub All-Elem : (Q : A → Type 0) (xs : List A) (x : A) → All Q xs → Elem x xs → Q x
  All-Elem Q [] x h m = absurd m
  All-Elem Q (y ∷ xs) x h (inl e) = rw e h.0
  All-Elem Q (y ∷ xs) x h (inr m) = All-Elem Q xs x h.1 m

  pub All-map : (Q R : A → Type 0) (xs : List A) → ((x : A) → Q x → R x) → All Q xs → All R xs
  All-map Q R [] f h = tt
  All-map Q R (x ∷ xs) f h = (f x h.0, All-map Q R xs f h.1)

module _ {V A : Type 0} where
  pub transaction-ok :
      (m : Tx V A) (db db' : Db V) (a : A) → transaction m db ≡ (ok a, db') → m db ≡ ok (a, db')
  unfolding transaction
  transaction-ok m db db' a h = ground arith

  -- A transaction that fails has changed nothing.
  pub transaction-err :
      (m : Tx V A) (db db' : Db V) (e : StoreError) → transaction m db ≡ (err e, db') → db' ≡ db
  unfolding transaction
  transaction-err m db db' e h = ground arith

  pub pure-ok : (a b : A) (db db' : Db V) → pure a db ≡ ok (b, db') → (b ≡ a) × (db' ≡ db)
  unfolding pure
  pure-ok a b db db' h = ground arith

-- What a body that succeeds says of its first step, and of the rest.
module _ {V A B : Type 0} where
  pub >>=-ok :
      (m : Tx V A) (f : A → Tx V B) (db : Db V) (z : B × Db V)
      → (m >>= f) db ≡ ok z
      → (a : A) × (db₁ : Db V) × (m db ≡ ok (a, db₁)) × (f a db₁ ≡ ok z)
  unfolding ◌>>=◌
  >>=-ok m f db z h = elim (Result-cases (m db)) [
    | inl ((a, db₁), e) ↦ (a, db₁, e, ground arith)
    | inr (x, e) ↦ absurd (ground arith)
  ]

  pub lift-ok :
      (r : Result StoreError A) (f : A → Tx V B) (db : Db V) (z : B × Db V)
      → (lift r >>= f) db ≡ ok z
      → (a : A) × (r ≡ ok a) × (f a db ≡ ok z)
  unfolding ◌>>=◌
  lift-ok (ok a) f db z h = (a, refl, h)
  lift-ok (err e) f db z h = absurd (cc h)

  pub gets-ok :
      (g : Db V → A) (f : A → Tx V B) (db : Db V) (z : B × Db V)
      → (gets g >>= f) db ≡ ok z
      → f (g db) db ≡ ok z
  unfolding ◌>>=◌
  gets-ok g f db z h = h

module _ {V B : Type 0} where
  pub modify-ok :
      (f : Db V → Db V) (k : Tx V B) (db : Db V) (z : B × Db V)
      → (modify f >> k) db ≡ ok z
      → k (f db) ≡ ok z
  unfolding ◌>>=◌
  modify-ok f k db z h = h

  pub check-ok :
      (b : Bool) (e : StoreError) (k : Tx V B) (db : Db V) (z : B × Db V)
      → (check b e >> k) db ≡ ok z
      → (b ≡ true) × (k db ≡ ok z)
  unfolding ◌>>=◌
  check-ok true e k db z h = (refl, h)
  check-ok false e k db z h = absurd (cc h)

pub modify-last :
    {V : Type 0} (f : Db V → Db V) (db db' : Db V) (u : Unit {0})
    → modify f db ≡ ok (u, db')
    → db' ≡ f db
unfolding modify
modify-last f db db' u h = ground arith
