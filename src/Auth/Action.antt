-- ===== src/Auth/Action.antt =====
-- Code that changes a state and may fail: what it did before an error stays done, unless a
-- transaction takes it back.
use chuvar.Prelude.{
  Bool, true, false, ◌≡◌, refl, sym, ap, subst, inl, inr, Result, ok, err, Result-cases, ◌⊎◌, arith,
  if◌then◌else◌,
}

abbrev pub Action : Type 0 → Type 0 → Type 0 → Type 0
Action S E A = S → Result E A × S

module _ {S E A : Type 0} where
  pub pure : A → Action S E A
  pure a s = (ok a, s)

  pub fail : E → Action S E A
  fail e s = (err e, s)

  pub gets : (S → A) → Action S E A
  gets f s = (ok (f s), s)

  pub lift : Result E A → Action S E A
  lift r s = (r, s)

  -- Begin, the body, and Commit or the deferred Rollback.
  unfoldable pub atomically : Action S E A → Action S E A
  atomically m s = elim (m s).0 [ ok a ↦ (ok a, (m s).1) | err e ↦ (err e, s) ]

  -- The action, where the caller answers an error with one of its own.
  unfoldable pub or_else : {D : Type 0} → Action S D A → (D → E) → Action S E A
  or_else m f s = elim (m s).0 [ ok a ↦ (ok a, (m s).1) | err e ↦ (err (f e), (m s).1) ]

module _ {S E : Type 0} where
  pub modify : (S → S) → Action S E (Unit {0})
  modify f s = (ok tt, f s)

  -- if !b { return e }
  pub check : Bool → E → Action S E (Unit {0})
  check b e s = (if b then ok tt else err e, s)

module _ {S E A B : Type 0} where
  infixl 5 ◌>>=◌
  -- opening this opens the actions above too
  unfoldable pub ◌>>=◌ : Action S E A → (A → Action S E B) → Action S E B
  unfolding pure fail gets lift modify check
  ◌>>=◌ m f s = elim (m s).0 [ ok a ↦ f a (m s).1 | err e ↦ (err e, (m s).1) ]

module _ {S E B : Type 0} where
  infixl 5 ◌>>◌
  abbrev pub ◌>>◌ : Action S E (Unit {0}) → Action S E B → Action S E B
  m >> k = m >>= λ _. k

-- Where an action takes the state, by its result.
module _ {S E A : Type 0} where
  pub Action-cases :
      (m : Action S E A) (s : S)
      → ((a : A) × (m s ≡ (ok a, (m s).1))) ⊎ ((e : E) × (m s ≡ (err e, (m s).1)))
  Action-cases m s = elim (Result-cases (m s).0) [
    | inl (a, e) ↦ inl (a, ap (λ r. (r, (m s).1)) e)
    | inr (x, e) ↦ inr (x, ap (λ r. (r, (m s).1)) e)
  ]

  pub atomically-ok :
      (m : Action S E A) (s s' : S) (a : A) → atomically m s ≡ (ok a, s') → m s ≡ (ok a, s')
  unfolding atomically
  atomically-ok m s s' a h = ground arith

  -- A transaction that fails has changed nothing.
  pub atomically-err : (m : Action S E A) (s s' : S) (e : E) → atomically m s ≡ (err e, s') → s' ≡ s
  unfolding atomically
  atomically-err m s s' e h = ground arith

  pub or_else-ok :
      {D : Type 0} (m : Action S D A) (f : D → E) (s s' : S) (a : A)
      → or_else m f s ≡ (ok a, s')
      → m s ≡ (ok a, s')
  unfolding or_else
  or_else-ok m f s s' a h = ground arith

  pub or_else-answer :
      {D : Type 0} (m : Action S D A) (f : D → E) (s : S) (a : A)
      → (or_else m f s).0 ≡ ok a
      → (m s).0 ≡ ok a
  unfolding or_else
  or_else-answer m f s a h = ground arith

  pub or_else-state :
      {D : Type 0} (m : Action S D A) (f : D → E) (s : S) → (or_else m f s).1 ≡ (m s).1
  unfolding or_else
  or_else-state m f s = ground arith

-- What a chain that succeeds went through.
module _ {S E A B : Type 0} where
  pub >>=-ok :
      (m : Action S E A) (f : A → Action S E B) (s s' : S) (b : B)
      → (m >>= f) s ≡ (ok b, s')
      → (a : A) × (s₁ : S) × (m s ≡ (ok a, s₁)) × (f a s₁ ≡ (ok b, s'))
  unfolding ◌>>=◌
  >>=-ok m f s s' b h = elim (Action-cases m s) [
    | inl (a, e) ↦ (a, (m s).1, e, ground arith)
    | inr (x, e) ↦ absurd (ground arith)
  ]

  pub gets-ok :
      (g : S → A) (f : A → Action S E B) (s s' : S) (b : B)
      → (gets g >>= f) s ≡ (ok b, s')
      → f (g s) s ≡ (ok b, s')
  unfolding ◌>>=◌
  gets-ok g f s s' b h = h

  pub lift-ok :
      (r : Result E A) (f : A → Action S E B) (s s' : S) (b : B)
      → (lift r >>= f) s ≡ (ok b, s')
      → (a : A) × (r ≡ ok a) × (f a s ≡ (ok b, s'))
  unfolding ◌>>=◌
  lift-ok (ok a) f s s' b h = (a, refl, h)
  lift-ok (err e) f s s' b h = absurd (cc h)

module _ {S E B : Type 0} where
  pub modify-ok :
      (f : S → S) (k : Action S E B) (s s' : S) (b : B)
      → (modify f >> k) s ≡ (ok b, s')
      → k (f s) ≡ (ok b, s')
  unfolding ◌>>=◌
  modify-ok f k s s' b h = h

  pub check-ok :
      (c : Bool) (e : E) (k : Action S E B) (s s' : S) (b : B)
      → (check c e >> k) s ≡ (ok b, s')
      → (c ≡ true) × (k s ≡ (ok b, s'))
  unfolding ◌>>=◌
  check-ok true e k s s' b h = (refl, h)
  check-ok false e k s s' b h = absurd (cc h)

  pub pure-ok : (a b : B) (s s' : S) → pure {E = E} a s ≡ (ok b, s') → (b ≡ a) × (s' ≡ s)
  unfolding pure
  pure-ok a b s s' h = ground arith

pub check_last-ok :
    {S E : Type 0} (c : Bool) (e : E) (s s' : S) (u : Unit {0})
    → check c e s ≡ (ok u, s')
    → (c ≡ true) × (s' ≡ s)
unfolding check
check_last-ok true e s s' u h = (refl, ap (λ r. r.1) (sym h))
check_last-ok false e s s' u h = absurd (cc h)

pub modify_last-ok :
    {S E : Type 0} (f : S → S) (s s' : S) (u : Unit {0})
    → modify {E = E} f s ≡ (ok u, s')
    → s' ≡ f s
unfolding modify
modify_last-ok f s s' u h = ap (λ r. r.1) (sym h)

-- A relation between the state before an action and after it, failed actions included, which doing
-- nothing has and steps pass on.
pub record Kept (S : Type 0) : Type 1 where
  pub relates : S → S → Type 0
  pub same : (s : S) → relates s s
  pub through : (a b c : S) → relates a b → relates b c → relates a c

module _ {S : Type 0} (K : Kept S) where
  abbrev pub Keeps : {E A : Type 0} → Action S E A → Type 0
  Keeps m = (s : S) → K.relates s (m s).1

  pub Keeps-pure : (E : Type 0) {A : Type 0} (a : A) → Keeps (pure {E = E} a)
  unfolding pure
  Keeps-pure E a s = K.same s

  pub Keeps-fail : {E : Type 0} (A : Type 0) (e : E) → Keeps (fail {A = A} e)
  unfolding fail
  Keeps-fail A e s = K.same s

  module _ {E A : Type 0} where
    pub Keeps-atomically : (m : Action S E A) → Keeps m → Keeps (atomically m)
    Keeps-atomically m k s = elim (Action-cases (atomically m) s) [
      | inl (a, e) ↦
          subst (K.relates s) (ap (λ r. r.1) (atomically-ok m s (atomically m s).1 a e)) (k s)
      | inr (x, e) ↦
          subst (K.relates s) (sym (atomically-err m s (atomically m s).1 x e)) (K.same s)
    ]

    pub Keeps-or_else : {D : Type 0} (m : Action S D A) (f : D → E) → Keeps m → Keeps (or_else m f)
    Keeps-or_else m f k s = subst (K.relates s) (sym (or_else-state m f s)) (k s)

  module _ {E A B : Type 0} where
    pub Keeps-then :
        (m : Action S E A) (f : A → Action S E B)
        → Keeps m
        → ((a : A) → Keeps (f a))
        → Keeps (m >>= f)
    unfolding ◌>>=◌
    Keeps-then m f k l s = elim (Result-cases (m s).0) [
      | inl (a, e) ↦ rw (e, ◌>>=◌) (K.through s (m s).1 (f a (m s).1).1 (k s) (l a (m s).1))
      | inr (x, e) ↦ rw (e, ◌>>=◌) (k s)
    ]

    pub Keeps-gets :
        (g : S → A) (f : A → Action S E B) → ((a : A) → Keeps (f a)) → Keeps (gets g >>= f)
    unfolding ◌>>=◌
    Keeps-gets g f k s = k (g s) s

    pub Keeps-lift :
        (r : Result E A) (f : A → Action S E B) → ((a : A) → Keeps (f a)) → Keeps (lift r >>= f)
    unfolding ◌>>=◌
    Keeps-lift (ok a) f k s = k a s
    Keeps-lift (err e) f k s = K.same s

  module _ {E B : Type 0} where
    pub Keeps-check : (c : Bool) (e : E) (m : Action S E B) → Keeps m → Keeps (check c e >> m)
    unfolding ◌>>=◌
    Keeps-check true e m k s = k s
    Keeps-check false e m k s = K.same s

    pub Keeps-modify :
        (f : S → S) (m : Action S E B)
        → ((s : S) → K.relates s (f s))
        → Keeps m
        → Keeps (modify f >> m)
    unfolding ◌>>=◌
    Keeps-modify f m step k s = K.through s (f s) (m (f s)).1 (step s) (k (f s))

  pub Keeps-gets_last : (E : Type 0) {A : Type 0} (g : S → A) → Keeps (gets {E = E} g)
  unfolding gets
  Keeps-gets_last E g s = K.same s

  pub Keeps-lift_last : {E A : Type 0} (r : Result E A) → Keeps (lift r)
  unfolding lift
  Keeps-lift_last r s = K.same s

  pub Keeps-check_last : {E : Type 0} (c : Bool) (e : E) → Keeps (check c e)
  unfolding check
  Keeps-check_last c e s = K.same s

  pub Keeps-if :
      {E A : Type 0} (c : Bool) (m k : Action S E A)
      → Keeps m
      → Keeps k
      → Keeps (if c then m else k)
  Keeps-if true m k h l = h
  Keeps-if false m k h l = l

  pub Keeps-last :
      (E : Type 0) (f : S → S) → ((s : S) → K.relates s (f s)) → Keeps (modify {E = E} f)
  unfolding modify
  Keeps-last E f step s = step s

-- An action that never succeeds.
abbrev pub Never : {S E A : Type 0} → Action S E A → Type 0
Never {S = S} {A = A} m = (s s' : S) (a : A) → ¬ (m s ≡ (ok a, s'))

module _ {S E A : Type 0} where
  pub Never-fail : (e : E) → Never (fail {S = S} {A = A} e)
  unfolding fail
  Never-fail e s s' a h = cc h

  pub Never-if : (c : Bool) (m k : Action S E A) → Never m → Never k → Never (if c then m else k)
  Never-if true m k h l = h
  Never-if false m k h l = l

module _ {S : Type 0} (K : Kept S) {E A B : Type 0} where
  -- At one state, what the first step answers may be used for the rest.
  pub Keeps-then_at :
      (m : Action S E A) (f : A → Action S E B) (s : S)
      → K.relates s (m s).1
      → ((a : A) → (m s).0 ≡ ok a → K.relates (m s).1 (f a (m s).1).1)
      → K.relates s ((m >>= f) s).1
  unfolding ◌>>=◌
  Keeps-then_at m f s k l = elim (Result-cases (m s).0) [
    | inl (a, e) ↦ rw (e, ◌>>=◌) (K.through s (m s).1 (f a (m s).1).1 k (l a e))
    | inr (x, e) ↦ rw (e, ◌>>=◌) k
  ]

  pub Keeps-lift_at :
      (r : Result E A) (f : A → Action S E B) (s : S)
      → ((a : A) → r ≡ ok a → K.relates s (f a s).1)
      → K.relates s ((lift r >>= f) s).1
  unfolding ◌>>=◌
  Keeps-lift_at (ok a) f s l = l a refl
  Keeps-lift_at (err x) f s l = K.same s

  -- Where the first step never succeeds, the rest is not reached.
  pub Keeps-refused :
      (m : Action S E A) (f : A → Action S E B) → Keeps K m → Never m → Keeps K (m >>= f)
  Keeps-refused m f k never s =
      Keeps-then_at m f s (k s) (λ a e. absurd (never s (m s).1 a (ap (λ r. (r, (m s).1)) e)))
