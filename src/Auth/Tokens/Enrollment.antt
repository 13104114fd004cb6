-- ===== src/Auth/Tokens/Enrollment.antt =====
-- A token that is created with a secret sets the latch, and its secret can be checked from then on.
use chuvar.Prelude.{
  Str, true, false, ◌≡◌, ap, ◌∙◌, inl, inr, Option, some, [], ◌∷◌, ◌++◌, ok, is_empty, arith,
  Option-cases,
}
use chuvar.Custody.{Key, seal}
use chuvar.Store.Types.{Context}
use chuvar.Auth.Types.{AuthDb, AuthStore}
use chuvar.Auth.Action.{>>=-ok, lift-ok, gets-ok, check-ok, modify-ok, pure-ok, atomically-ok}
use chuvar.Auth.Tokens.{
  ReviewerToken, create_reviewer_token, insert_reviewer_token, seal_secret, new_reviewer_token,
  set_enrollment_latch, enrollment_latch_set, hash_token,
}

sealed_some :
    (store : AuthStore) (nonce secret : Str) (sealed : Option Str)
    → is_empty secret ≡ false
    → seal_secret store nonce secret ≡ ok sealed
    → (key : Key) × (store.secrets ≡ some key) × (sealed ≡ some (seal key nonce secret))
unfolding seal_secret
sealed_some store nonce secret sealed filled h = elim (Option-cases store.secrets) [
  | inl e ↦ absurd (ground arith)
  | inr (key, e) ↦ (key, e, ground arith)
]

-- Where a token is created with a secret, the store has a key, the row holds the secret sealed under
-- it, behind the rows that were there, and the latch is set.
pub create_reviewer_token-ok :
    (store : AuthStore) (ctx : Context) (nonce label plaintext secret : Str) (db db' : AuthDb)
    (t : ReviewerToken)
    → is_empty secret ≡ false
    → create_reviewer_token store ctx nonce label plaintext secret db ≡ (ok t, db')
    → (key : Key) × (store.secrets ≡ some key)
      × (db'
          ≡ set_enrollment_latch ctx (record db {
            reviewer_tokens =
                db.reviewer_tokens
                ++ new_reviewer_token ctx label
                    (hash_token store plaintext)
                    (some (seal key nonce secret))
                  ∷ [];
          }))
unfolding create_reviewer_token insert_reviewer_token
create_reviewer_token-ok store ctx nonce label plaintext secret db db' t filled h =
    let (_, e₁) = check-ok _ _ _ _ _ _ h in
    let (sealed, d₂, e₂) = lift-ok _ _ _ _ _ e₁ in
    let (key, keyed, blob) = sealed_some store nonce secret sealed filled d₂ in
    let e₃ = atomically-ok _ _ _ _ e₂ in
    let (row, db₁, i₁, e₄) = >>=-ok _ _ _ _ _ e₃ in
    let i₂ = gets-ok _ _ _ _ _ i₁ in
    let (_, i₃) = check-ok _ _ _ _ _ _ i₂ in
    let i₄ = modify-ok _ _ _ _ _ i₃ in
    let (_, inserted) = pure-ok _ _ _ _ i₄ in
    let e₅ = modify-ok _ _ _ _ _ e₄ in
    let (_, final) = pure-ok _ _ _ _ e₅ in
    let latched : db' ≡ set_enrollment_latch ctx db₁ = rw blob at final in
    (key, keyed, latched ∙ ap (set_enrollment_latch ctx) (rw blob at inserted))

pub latch-set :
    (ctx : Context) (db : AuthDb) → enrollment_latch_set (set_enrollment_latch ctx db) ≡ true
unfolding enrollment_latch_set set_enrollment_latch
latch-set ctx db = ground arith
