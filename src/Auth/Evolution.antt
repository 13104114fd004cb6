-- ===== src/Auth/Evolution.antt =====
-- What becomes of the credentials as the server works: rows are never lost, keep what identifies
-- them, and stay revoked once they are.
pub mod Freezing
pub mod Usage
pub mod Minting
pub mod Gate
use chuvar.Prelude.{
  ℕ, Str, Bool, true, false, ◌≡◌, refl, sym, ap, ◌∙◌, ◌⊎◌, inl, inr, Option, none, some, List, [],
  ◌∷◌, ◌++◌, arith, str_eq, All, Bool-cases,
}
use chuvar.Store.Tables.{update_where}
use chuvar.Auth.Action.{Kept}
use chuvar.Auth.Types.{ReviewerTokenRow, AgentTokenRow, CredentialRow, ChallengeRow, AuthDb}
use chuvar.Auth.Tokens.{is_unset}
use chuvar.Auth.Passkeys.{registration}

module _ {A : Type 0} where
  -- The lists are equally long, and each row is related to the one at its place.
  abbrev pub Pointwise : (A → A → Type 0) → List A → List A → Type 0
  Pointwise R [] [] = Unit
  Pointwise R [] (y ∷ ys) = ⊥
  Pointwise R (x ∷ xs) [] = ⊥
  Pointwise R (x ∷ xs) (y ∷ ys) = R x y × Pointwise R xs ys

  -- Each old row goes on at its place; new rows come behind them.
  abbrev pub Evolves : (A → A → Type 0) → List A → List A → Type 0
  Evolves R [] new = Unit
  Evolves R (x ∷ old) [] = ⊥
  Evolves R (x ∷ old) (y ∷ new) = R x y × Evolves R old new

-- A relation on rows that a row has to itself, and that changes pass on.
module _ {A : Type 0} (R : A → A → Type 0) (same : (a : A) → R a a)
    (trans : (a b c : A) → R a b → R b c → R a c) where
  pub Pointwise-refl : (xs : List A) → Pointwise R xs xs
  Pointwise-refl [] = tt
  Pointwise-refl (x ∷ xs) = (same x, Pointwise-refl xs)

  pub Pointwise-trans :
      (xs ys zs : List A) → Pointwise R xs ys → Pointwise R ys zs → Pointwise R xs zs
  Pointwise-trans [] [] zs h k = k
  Pointwise-trans [] (y ∷ ys) zs h k = absurd h
  Pointwise-trans (x ∷ xs) [] zs h k = absurd h
  Pointwise-trans (x ∷ xs) (y ∷ ys) [] h k = absurd k
  Pointwise-trans (x ∷ xs) (y ∷ ys) (z ∷ zs) h k =
      (trans x y z h.0 k.0, Pointwise-trans xs ys zs h.1 k.1)

  pub Pointwise-update :
      (p : A → Bool) (f : A → A) (xs : List A)
      → ((a : A) → p a ≡ true → R a (f a))
      → Pointwise R xs (update_where p f xs)
  unfolding update_where
  Pointwise-update p f [] h = tt
  Pointwise-update p f (x ∷ xs) h = elim (Bool-cases (p x)) [
    | inl e ↦ rw (e, update_where) (h x e, Pointwise-update p f xs h)
    | inr e ↦ rw (e, update_where) (same x, Pointwise-update p f xs h)
  ]

  pub Pointwise-Evolves : (xs ys : List A) → Pointwise R xs ys → Evolves R xs ys
  Pointwise-Evolves [] ys h = tt
  Pointwise-Evolves (x ∷ xs) [] h = absurd h
  Pointwise-Evolves (x ∷ xs) (y ∷ ys) h = (h.0, Pointwise-Evolves xs ys h.1)

  pub Evolves-append : (xs new : List A) → Evolves R xs (xs ++ new)
  Evolves-append [] new = tt
  Evolves-append (x ∷ xs) new = (same x, Evolves-append xs new)

  pub Evolves-trans : (xs ys zs : List A) → Evolves R xs ys → Evolves R ys zs → Evolves R xs zs
  Evolves-trans [] ys zs h k = tt
  Evolves-trans (x ∷ xs) [] zs h k = absurd h
  Evolves-trans (x ∷ xs) (y ∷ ys) [] h k = absurd k
  Evolves-trans (x ∷ xs) (y ∷ ys) (z ∷ zs) h k =
      (trans x y z h.0 k.0, Evolves-trans xs ys zs h.1 k.1)

-- A revocation that was there is there still.
abbrev pub StaysRevoked : Option ℕ → Option ℕ → Type 0
StaysRevoked old new = (is_unset old ≡ true) ⊎ (is_unset new ≡ false)

-- The same reviewer token.
pub record SameToken (old new : ReviewerTokenRow) : Type 0 where
  pub same_id : new.id ≡ old.id
  pub same_label : new.label ≡ old.label
  pub same_hash : new.token_hash ≡ old.token_hash
  pub same_secret : new.totp_secret_enc ≡ old.totp_secret_enc
  pub revoked : StaysRevoked old.revoked_at new.revoked_at

-- The same agent token.
pub record SameAgent (old new : AgentTokenRow) : Type 0 where
  pub same_id : new.id ≡ old.id
  pub same_subject : new.subject ≡ old.subject
  pub same_hash : new.token_hash ≡ old.token_hash
  pub revoked : StaysRevoked old.revoked_at new.revoked_at

-- The same passkey, of the same reviewer token.
pub record SamePasskey (old new : CredentialRow) : Type 0 where
  pub same_id : new.id ≡ old.id
  pub same_owner : new.reviewer_token_id ≡ old.reviewer_token_id
  pub same_credential : new.credential_id ≡ old.credential_id
  pub same_key : new.public_key ≡ old.public_key
  pub revoked : StaysRevoked old.revoked_at new.revoked_at

StaysRevoked-refl : (o : Option ℕ) → StaysRevoked o o
StaysRevoked-refl none = inl refl
StaysRevoked-refl (some t) = inr refl

StaysRevoked-trans : (a b c : Option ℕ) → StaysRevoked a b → StaysRevoked b c → StaysRevoked a c
StaysRevoked-trans a b c h k = ground arith

pub SameToken-refl : (t : ReviewerTokenRow) → SameToken t t
SameToken-refl t = record {
  same_id = refl;
  same_label = refl;
  same_hash = refl;
  same_secret = refl;
  revoked = StaysRevoked-refl t.revoked_at;
}

pub SameToken-trans : (a b c : ReviewerTokenRow) → SameToken a b → SameToken b c → SameToken a c
SameToken-trans a b c h k = record {
  same_id = k.same_id ∙ h.same_id;
  same_label = k.same_label ∙ h.same_label;
  same_hash = k.same_hash ∙ h.same_hash;
  same_secret = k.same_secret ∙ h.same_secret;
  revoked = StaysRevoked-trans a.revoked_at b.revoked_at c.revoked_at h.revoked k.revoked;
}

pub SameAgent-refl : (t : AgentTokenRow) → SameAgent t t
SameAgent-refl t = record {
  same_id = refl;
  same_subject = refl;
  same_hash = refl;
  revoked = StaysRevoked-refl t.revoked_at;
}

pub SameAgent-trans : (a b c : AgentTokenRow) → SameAgent a b → SameAgent b c → SameAgent a c
SameAgent-trans a b c h k = record {
  same_id = k.same_id ∙ h.same_id;
  same_subject = k.same_subject ∙ h.same_subject;
  same_hash = k.same_hash ∙ h.same_hash;
  revoked = StaysRevoked-trans a.revoked_at b.revoked_at c.revoked_at h.revoked k.revoked;
}

pub SamePasskey-refl : (t : CredentialRow) → SamePasskey t t
SamePasskey-refl t = record {
  same_id = refl;
  same_owner = refl;
  same_credential = refl;
  same_key = refl;
  revoked = StaysRevoked-refl t.revoked_at;
}

pub SamePasskey-trans :
    (a b c : CredentialRow) → SamePasskey a b → SamePasskey b c → SamePasskey a c
SamePasskey-trans a b c h k = record {
  same_id = k.same_id ∙ h.same_id;
  same_owner = k.same_owner ∙ h.same_owner;
  same_credential = k.same_credential ∙ h.same_credential;
  same_key = k.same_key ∙ h.same_key;
  revoked = StaysRevoked-trans a.revoked_at b.revoked_at c.revoked_at h.revoked k.revoked;
}

-- No ceremony of registration is under way.
abbrev pub NoRegistration : AuthDb → Type 0
NoRegistration db = All (λ c. str_eq c.purpose registration ≡ false) db.webauthn_challenges

-- No credential has been added, and none that was revoked is in force again; no registration has
-- begun, and the latch is as it was.
pub record Frozen (db db' : AuthDb) : Type 0 where
  pub tokens : Pointwise SameToken db.reviewer_tokens db'.reviewer_tokens
  pub agents : Pointwise SameAgent db.agent_tokens db'.agent_tokens
  pub passkeys : Pointwise SamePasskey db.webauthn_credentials db'.webauthn_credentials
  pub latch : db'.enrollment_latch ≡ db.enrollment_latch
  pub registrations : NoRegistration db → NoRegistration db'

-- Every credential goes on at its place, and the latch, once set, stays as it is.
pub record AuthEvolves (db db' : AuthDb) : Type 0 where
  pub tokens : Evolves SameToken db.reviewer_tokens db'.reviewer_tokens
  pub agents : Evolves SameAgent db.agent_tokens db'.agent_tokens
  pub passkeys : Evolves SamePasskey db.webauthn_credentials db'.webauthn_credentials
  pub latch : (db.enrollment_latch ≡ none) ⊎ (db'.enrollment_latch ≡ db.enrollment_latch)

pub Frozen-refl : (db : AuthDb) → Frozen db db
Frozen-refl db = record {
  tokens = Pointwise-refl _ SameToken-refl SameToken-trans db.reviewer_tokens;
  agents = Pointwise-refl _ SameAgent-refl SameAgent-trans db.agent_tokens;
  passkeys = Pointwise-refl _ SamePasskey-refl SamePasskey-trans db.webauthn_credentials;
  latch = refl;
  registrations = λ h. h;
}

pub Frozen-trans : (a b c : AuthDb) → Frozen a b → Frozen b c → Frozen a c
Frozen-trans a b c h k = record {
  tokens = Pointwise-trans _ SameToken-refl SameToken-trans _ b.reviewer_tokens _ h.tokens k.tokens;
  agents = Pointwise-trans _ SameAgent-refl SameAgent-trans _ b.agent_tokens _ h.agents k.agents;
  passkeys =
      Pointwise-trans _ SamePasskey-refl SamePasskey-trans _ b.webauthn_credentials _ h.passkeys
        k.passkeys;
  latch = k.latch ∙ h.latch;
  registrations = λ none_yet. k.registrations (h.registrations none_yet);
}

abbrev pub frozen : Kept AuthDb
frozen = record { relates = Frozen; same = Frozen-refl; through = Frozen-trans }

pub Frozen-AuthEvolves : (a b : AuthDb) → Frozen a b → AuthEvolves a b
Frozen-AuthEvolves a b h = record {
  tokens = Pointwise-Evolves _ SameToken-refl SameToken-trans _ _ h.tokens;
  agents = Pointwise-Evolves _ SameAgent-refl SameAgent-trans _ _ h.agents;
  passkeys = Pointwise-Evolves _ SamePasskey-refl SamePasskey-trans _ _ h.passkeys;
  latch = inr h.latch;
}

pub AuthEvolves-refl : (db : AuthDb) → AuthEvolves db db
AuthEvolves-refl db = Frozen-AuthEvolves db db (Frozen-refl db)

pub AuthEvolves-trans : (a b c : AuthDb) → AuthEvolves a b → AuthEvolves b c → AuthEvolves a c
AuthEvolves-trans a b c h k = record {
  tokens = Evolves-trans _ SameToken-refl SameToken-trans _ b.reviewer_tokens _ h.tokens k.tokens;
  agents = Evolves-trans _ SameAgent-refl SameAgent-trans _ b.agent_tokens _ h.agents k.agents;
  passkeys =
      Evolves-trans _ SamePasskey-refl SamePasskey-trans _ b.webauthn_credentials _ h.passkeys
        k.passkeys;
  latch = elim h.latch [
    | inl unset ↦ inl unset
    | inr kept ↦ elim k.latch [
      | inl unset ↦ inl (sym kept ∙ unset)
      | inr kept₂ ↦ inr (kept₂ ∙ kept)
    ]
  ];
}

abbrev pub evolution : Kept AuthDb
evolution = record { relates = AuthEvolves; same = AuthEvolves-refl; through = AuthEvolves-trans }
