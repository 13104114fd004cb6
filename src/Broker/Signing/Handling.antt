-- ===== src/Broker/Signing/Handling.antt =====
-- What a request that is answered with a signature went through, whatever it asked for.
use chuvar.Prelude.{codes, ◌≡◌, ◌≢◌, refl, inl, inr, [], str_eq, str_eq_iff, Bool-cases}
use chuvar.Broker.Signing.{Request, Broker, World, handle}
use chuvar.Broker.Signing.Gate.{Signed, sign_lem}
use chuvar.Broker.Signing.Preflight.{preflight-cases}

-- A request is answered with a signature only if it asks to sign, its token found a live grant that
-- is within its rate, its scope is a git.sign scope with a target that the grant covers, and its
-- payload is an unsigned commit object with the grant's committer email. The signature is over that
-- payload under the git namespace, and the database has taken one audit row for it.
pub handle-Signed :
    (w : World) (req : Request) (b : Broker)
    → (handle w req b).0.signature ≢ []
    → (req.op ≡ codes "sign") × Signed w req b (handle w req b).0 (handle w req b).1
unfolding handle
handle-Signed w req b = elim (Bool-cases (str_eq req.op (codes "preflight"))) [
  | inl pre ↦
      rw (handle, pre)
        (λ h. absurd (
          h (elim (preflight-cases w req b) [
            | inl (_, _, _, _, _, unsigned) ↦ unsigned
            | inr (_, unsigned, _) ↦ unsigned
          ])))
  | inr other ↦ elim (Bool-cases (str_eq req.op (codes "sign"))) [
    | inl signs ↦
        rw (handle, other, signs)
          (λ h. elim (sign_lem w req b) [
            | inl (_, signed) ↦ ((str_eq_iff _ _).0 signs, signed)
            | inr (_, unsigned, _, _) ↦ absurd (h unsigned)
          ])
    | inr unknown ↦ rw (handle, other, unknown) (λ h. absurd (h refl))
  ]
]
