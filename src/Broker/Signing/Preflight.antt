-- ===== src/Broker/Signing/Preflight.antt =====
-- What preflight answers, and how its answer and that of Sign agree.
use chuvar.Prelude.{
  ◌≡◌, ◌≢◌, refl, ap, sym, subst, ◌∙◌, ◌↔◌, ◌⊎◌, inl, inr, none, some, [], ok, arith, str_eq,
  str_neq, Bool-cases, Option-cases, Result-cases,
}
use chuvar.Broker.Cache.{Entry, lookup}
use chuvar.Broker.RateLimit.{allow}
use chuvar.Broker.Commit.{Commit, parse}
use chuvar.Broker.Sshsig.{sign_payload}
use chuvar.Broker.Signing.{
  Request, okay, no_grant, scope_denied, Broker, World, git_namespace, check_scope, preflight,
  sign_commit, sign_checked, sign,
}
use chuvar.Broker.Signing.Gate.{Passes, check_scope-cases}

some_same : {A : Type 0} {a b : A} → some a ≡ some b → a ≡ b
some_same h = ground arith

pub preflight-cases :
    (w : World) (req : Request) (b : Broker)
    → ((entry : Entry) × (lookup w.crypto.sha256 w.lookup_at req.token b.cache ≡ some entry)
        × (check_scope entry req.scope ≡ none)
        × Passes entry req.scope
        × ((preflight w req b).code ≡ okay)
        × ((preflight w req b).signature ≡ []))
      ⊎ (((preflight w req b).code ≢ okay)
          × ((preflight w req b).signature ≡ [])
          × ((entry : Entry)
              → lookup w.crypto.sha256 w.lookup_at req.token b.cache ≡ some entry
              → ¬ Passes entry req.scope))
unfolding preflight
preflight-cases w req b =
    elim (Option-cases (lookup w.crypto.sha256 w.lookup_at req.token b.cache)) [
      | inl e ↦ rw (preflight, e) (inr ((λ h. cc h), refl, (λ entry found passes. cc found)))
      | inr (entry, e) ↦ elim (check_scope-cases entry req.scope) [
        | inl (free, passes) ↦
            inl (entry, e, free, passes, rw (preflight, e, free) refl, rw (preflight, e, free) refl)
        | inr (r, stop, denied, unsigned, fails) ↦ inr (
          rw (preflight, e, stop) (λ h. cc (h, denied)),
          rw (preflight, e, stop) unsigned,
          (λ x found passes.
              let same : entry ≡ x = cc (e, found) in
              fails (subst (λ y. Passes y req.scope) (sym same) passes)),
        )
      ]
    ]

-- Preflight says yes exactly to the tokens that find a grant and the scopes that pass the gate.
pub preflight_iff :
    (w : World) (req : Request) (b : Broker)
    → ((preflight w req b).code ≡ okay) ↔ (
        (entry : Entry) × (lookup w.crypto.sha256 w.lookup_at req.token b.cache ≡ some entry)
        × Passes entry req.scope)
preflight_iff w req b = elim (preflight-cases w req b) [
  | inl (entry, found, _, passes, code, _) ↦ ((λ h. (entry, found, passes)), (λ h. code))
  | inr (code, _, fails) ↦ ((λ h. absurd (code h)), (λ h. absurd (fails h.0 h.1 h.2)))
]

sign_commit-code :
    (w : World) (entry : Entry) (req : Request) (c : Commit) (b : Broker)
    → ((sign_commit w entry req c b).0.code ≢ no_grant)
      × ((sign_commit w entry req c b).0.code ≢ scope_denied)
unfolding sign_commit
sign_commit-code w entry req c b = elim (Option-cases w.signer) [
  | inl e ↦ rw (sign_commit, e) ((λ h. cc h), (λ h. cc h))
  | inr (signer, e) ↦ elim (Option-cases (sign_payload w.crypto signer git_namespace req.payload)) [
    | inl e' ↦ rw (sign_commit, e, e') ((λ h. cc h), (λ h. cc h))
    | inr (armored, e') ↦ elim (Bool-cases w.audit_up) [
      | inl up ↦ rw (sign_commit, e, e', up) ((λ h. cc h), (λ h. cc h))
      | inr down ↦ rw (sign_commit, e, e', down) ((λ h. cc h), (λ h. cc h))
    ]
  ]
]

sign_checked-code :
    (w : World) (entry : Entry) (req : Request) (b : Broker)
    → check_scope entry req.scope ≡ none
    → ((sign_checked w entry req b).0.code ≢ no_grant)
      × ((c : Commit)
          → parse req.payload ≡ ok c
          → c.committer_email ≡ entry.committer_email
          → (sign_checked w entry req b).0.code ≢ scope_denied)
unfolding sign_checked
sign_checked-code w entry req b free = elim (Result-cases (parse req.payload)) [
  | inr (bad, e) ↦ rw (sign_checked, free, e) ((λ h. cc h), (λ c parsed email h. cc parsed))
  | inl (c, e) ↦ elim (Bool-cases (str_eq c.committer_email entry.committer_email)) [
    | inr other ↦
        rw (sign_checked, free, e, other)
          (
            (λ h. cc h),
            (λ x parsed email h.
                let same : c ≡ x = cc parsed in
                str_neq _ _ other (ap (λ y. y.committer_email) same ∙ email)),
          )
    | inl same ↦
        let (granted, allowed) = sign_commit-code w entry req c b in
        rw (sign_checked, free, e, same) (granted, (λ x parsed email. allowed))
  ]
]

-- What preflight allows, Sign does not refuse for the grant or its scope: at the same time it
-- answers neither "no grant" nor, where the payload parses and has the grant's email, "scope denied".
pub preflight-sign :
    (w : World) (req : Request) (b : Broker)
    → (preflight w req b).code ≡ okay
    → ((sign w req b).0.code ≢ no_grant)
      × ((c : Commit) (entry : Entry)
          → parse req.payload ≡ ok c
          → lookup w.crypto.sha256 w.lookup_at req.token b.cache ≡ some entry
          → c.committer_email ≡ entry.committer_email
          → (sign w req b).0.code ≢ scope_denied)
unfolding sign
preflight-sign w req b h = elim (preflight-cases w req b) [
  | inr (code, _, _) ↦ absurd (code h)
  | inl (entry, found, free, _, _, _) ↦
      elim (Bool-cases (allow entry.grant_id w.allow_at b.rate).0) [
        | inr fast ↦ rw (sign, found, fast) ((λ k. cc k), (λ c x parsed same email k. cc k))
        | inl slow ↦
            let (granted, allowed) =
              sign_checked-code w entry req
                (record b { rate = (allow entry.grant_id w.allow_at b.rate).1 }) free in
            rw (sign, found, slow)
              (
                granted,
                (λ c x parsed same email.
                    allowed c parsed (email ∙ ap (λ y. y.committer_email) (sym (some_same same)))),
              )
      ]
]
