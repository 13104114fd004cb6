-- ===== src/Broker/Signing/Gate.antt =====
-- What brokerd has checked when it answers, and what it leaves undone when it refuses.
use chuvar.Prelude.{
  Str, true, ◌≡◌, ◌≢◌, refl, ◌⊎◌, inl, inr, none, some, [], ◌∷◌, ◌++◌, ok, str_eq, str_eq_iff,
  str_neq, Bool-cases, Option-cases, Result-cases,
}
use chuvar.Scope.{operation, validate_capability, any_covers}
use chuvar.Broker.Cache.{Entry, lookup}
use chuvar.Broker.RateLimit.{allow}
use chuvar.Broker.Commit.{Commit, parse}
use chuvar.Broker.Commit.Structure.{IsCommit, parse-IsCommit}
use chuvar.Broker.Sshsig.{Signer, sign_payload}
use chuvar.Broker.Signing.{
  Request, okay, scope_denied, Reply, refuse, Broker, World, git_namespace, git_sign_operation,
  check_scope, audit_row, sign_commit, sign_checked, sign, not_covered, wrong_operation, bad_scope,
}

-- The scope is a capability scope of exactly the one operation, and the grant covers it.
abbrev pub Passes : Entry → Str → Type 0
Passes entry scope =
    (validate_capability scope ≡ ok tt)
    × (operation scope ≡ git_sign_operation)
    × (any_covers entry.scopes scope ≡ true)

pub check_scope-cases :
    (entry : Entry) (scope : Str)
    → ((check_scope entry scope ≡ none) × Passes entry scope)
      ⊎ ((r : Reply) × (check_scope entry scope ≡ some r)
          × (r.code ≡ scope_denied)
          × (r.signature ≡ [])
          × (¬ Passes entry scope))
unfolding check_scope
check_scope-cases entry scope = elim (Result-cases (validate_capability scope)) [
  | inr (e, bad) ↦ inr (
    refuse scope_denied (bad_scope e),
    rw (check_scope, bad) refl,
    refl,
    refl,
    (λ p. cc (bad, p.0)),
  )
  | inl (_, good) ↦ elim (Bool-cases (str_eq (operation scope) git_sign_operation)) [
    | inr other ↦ inr (
      refuse scope_denied (wrong_operation scope),
      rw (check_scope, good, other) refl,
      refl,
      refl,
      (λ p. str_neq _ _ other p.1),
    )
    | inl same ↦ elim (Bool-cases (any_covers entry.scopes scope)) [
      | inr out ↦ inr (
        refuse scope_denied not_covered,
        rw (check_scope, good, same, out) refl,
        refl,
        refl,
        (λ p. cc (out, p.2)),
      )
      | inl within ↦
          inl (rw (check_scope, good, same, within) refl, (good, (str_eq_iff _ _).0 same, within))
    ]
  ]
]

-- Everything that holds of a call that was answered with a signature.
pub record Signed (w : World) (req : Request) (b : Broker) (reply : Reply) (b' : Broker)
    : Type 0 where
  pub entry : Entry
  pub commit : Commit
  pub signer : Signer
  pub found : lookup w.crypto.sha256 w.lookup_at req.token b.cache ≡ some entry
  pub within_rate : (allow entry.grant_id w.allow_at b.rate).0 ≡ true
  pub passes : Passes entry req.scope
  pub is_commit : IsCommit req.payload commit
  pub same_email : commit.committer_email ≡ entry.committer_email
  pub live_key : w.signer ≡ some signer
  pub over_payload : sign_payload w.crypto signer git_namespace req.payload ≡ some reply.signature
  pub audited : b' ≡ record b {
    rate = (allow entry.grant_id w.allow_at b.rate).1;
    audit = b.audit ++ audit_row w entry req commit ∷ [];
  }

-- A refusal carries no signature, and the audit trail and the cache are as before.
abbrev pub Refused : Broker → Reply → Broker → Type 0
Refused b reply b' =
    (reply.code ≢ okay) × (reply.signature ≡ []) × (b'.audit ≡ b.audit) × (b'.cache ≡ b.cache)

-- the key's part
abbrev KeySigned : World → Entry → Request → Commit → Broker → Reply → Broker → Type 0
KeySigned w entry req c b reply b' =
    (signer : Signer) × (w.signer ≡ some signer)
    × (reply.code ≡ okay)
    × (sign_payload w.crypto signer git_namespace req.payload ≡ some reply.signature)
    × (b' ≡ record b { audit = b.audit ++ audit_row w entry req c ∷ [] })

sign_commit_lem :
    (w : World) (entry : Entry) (req : Request) (c : Commit) (b : Broker)
    → KeySigned w entry req c b (sign_commit w entry req c b).0 (sign_commit w entry req c b).1
      ⊎ Refused b (sign_commit w entry req c b).0 (sign_commit w entry req c b).1
unfolding sign_commit audit_row
sign_commit_lem w entry req c b = elim (Option-cases w.signer) [
  | inl e ↦ rw (sign_commit, e) (inr ((λ h. cc h), refl, refl, refl))
  | inr (signer, e) ↦ elim (Option-cases (sign_payload w.crypto signer git_namespace req.payload)) [
    | inl e' ↦ rw (sign_commit, e, e') (inr ((λ h. cc h), refl, refl, refl))
    | inr (armored, e') ↦ elim (Bool-cases w.audit_up) [
      | inl up ↦ rw (sign_commit, e, e', up) (inl (signer, refl, refl, e', refl))
      | inr down ↦ rw (sign_commit, e, e', down) (inr ((λ h. cc h), refl, refl, refl))
    ]
  ]
]

sign_checked_lem :
    (w : World) (entry : Entry) (req : Request) (b : Broker)
    → ((c : Commit) × Passes entry req.scope
        × (parse req.payload ≡ ok c)
        × (c.committer_email ≡ entry.committer_email)
        × KeySigned w entry req c b (sign_checked w entry req b).0 (sign_checked w entry req b).1)
      ⊎ Refused b (sign_checked w entry req b).0 (sign_checked w entry req b).1
unfolding sign_checked
sign_checked_lem w entry req b = elim (check_scope-cases entry req.scope) [
  | inr (r, e, denied, unsigned, _) ↦
      rw (sign_checked, e) (inr ((λ h. cc (h, denied)), unsigned, refl, refl))
  | inl (e, passes) ↦ elim (Result-cases (parse req.payload)) [
    | inr (bad, e') ↦ rw (sign_checked, e, e') (inr ((λ h. cc h), refl, refl, refl))
    | inl (c, e') ↦ elim (Bool-cases (str_eq c.committer_email entry.committer_email)) [
      | inr other ↦ rw (sign_checked, e, e', other) (inr ((λ h. cc h), refl, refl, refl))
      | inl same ↦ elim (sign_commit_lem w entry req c b) [
        | inl signed ↦
            rw (sign_checked, e, e', same) (inl (c, passes, refl, (str_eq_iff _ _).0 same, signed))
        | inr refused ↦ rw (sign_checked, e, e', same) (inr refused)
      ]
    ]
  ]
]

-- Sign either has made every check and answers with a signature over exactly the payload, of which
-- the database has the audit row, or refuses.
pub sign_lem :
    (w : World) (req : Request) (b : Broker)
    → (((sign w req b).0.code ≡ okay) × Signed w req b (sign w req b).0 (sign w req b).1)
      ⊎ Refused b (sign w req b).0 (sign w req b).1
unfolding sign
sign_lem w req b = elim (Option-cases (lookup w.crypto.sha256 w.lookup_at req.token b.cache)) [
  | inl e ↦ rw (sign, e) (inr ((λ h. cc h), refl, refl, refl))
  | inr (entry, e) ↦ elim (Bool-cases (allow entry.grant_id w.allow_at b.rate).0) [
    | inr fast ↦ rw (sign, e, fast) (inr ((λ h. cc h), refl, refl, refl))
    | inl slow ↦
        elim (sign_checked_lem w entry req
          (record b { rate = (allow entry.grant_id w.allow_at b.rate).1 })) [
            | inr refused ↦ rw (sign, e, slow) (inr refused)
            | inl ok_ ↦
                let (c, passes, parsed, email, keyed) = ok_ in
                let (signer, live, code, over, audited) = keyed in
                let checked =
                  sign_checked w entry req
                    (record b { rate = (allow entry.grant_id w.allow_at b.rate).1 }) in
                let signed : Signed w req b checked.0 checked.1 = record {
                  entry = entry;
                  commit = c;
                  signer = signer;
                  found = e;
                  within_rate = slow;
                  passes = passes;
                  is_commit = parse-IsCommit req.payload c parsed;
                  same_email = email;
                  live_key = live;
                  over_payload = over;
                  audited = audited;
                } in
                rw (sign, e, slow) (inl (code, signed))
          ]
  ]
]
