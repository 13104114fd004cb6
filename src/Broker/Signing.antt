-- ===== src/Broker/Signing.antt =====
-- backend/internal/broker/broker.go, with the codes and messages of codes.go, the request of
-- protocol.go, and insertSignAuditLog of store.go: what brokerd answers.
--
-- A message is a constructor per text that the source writes; the RFC 3339 text of an expiry is the
-- expiry itself, and the JSON of an audit row's detail is its two fields.
pub mod Gate
pub mod Preflight
pub mod Handling
use chuvar.Prelude.{
  ℕ, Str, codes, Bool, true, false, not, ◌&&◌, Option, none, some, List, [], ◌∷◌, ◌++◌, Result, ok,
  err, str_eq, if◌then◌else◌,
}
use chuvar.Scope.{Scope, ScopeError, operation, validate_capability, any_covers}
use chuvar.Store.Types.{Time}
use chuvar.Broker.Cache.{Entry, Cache, lookup}
use chuvar.Broker.RateLimit.{RateLimiter, allow}
use chuvar.Broker.Commit.{Malformed, Commit, parse}
use chuvar.Broker.Sshsig.{Signer, Crypto, sign_payload}

pub record Request : Type 0 where
  pub op : Str
  pub token : Str
  pub scope : Str
  pub payload : Str

pub data Code : Type 0 where
  okay no_grant scope_denied locked contended backend_unreachable rate_limited : Code

pub data Message : Type 0 where
  empty no_matching_grant tripwire_fired not_covered wrong_committer key_unavailable : Message
  signing_failed could_not_audit : Message
  unknown_op wrong_operation : Str → Message
  bad_scope : ScopeError → Message
  refusing : Malformed → Message

pub record Reply : Type 0 where
  pub code : Code
  pub message : Message
  pub expires_at : Option Time
  pub signature : Str

abbrev pub refuse : Code → Message → Reply
refuse code message = record { code = code; message = message; expires_at = none; signature = [] }

-- A row of audit_log with the event capability_signed, and its detail.
pub record SignRow : Type 0 where
  pub subject : Str
  pub grant_id : Str
  pub scope : Str
  pub payload_sha256 : Str
  pub committer_email : Str

-- The state: the cache, the limiter, and the audit rows that the database has taken.
pub record Broker : Type 0 where
  pub cache : Cache
  pub rate : RateLimiter
  pub audit : List SignRow

-- What a call takes from its surroundings: the crypto libraries and hex, the key (none once it has
-- been destroyed), the times at which it reads the clock, and whether the database takes the row.
pub record World : Type 0 where
  pub crypto : Crypto
  pub hex : Str → Str
  pub signer : Option Signer
  pub lookup_at : Time
  pub allow_at : Time
  pub audit_up : Bool

abbrev pub git_namespace : Str
git_namespace = codes "git"

abbrev pub git_sign_operation : Scope
git_sign_operation = codes "git.sign"

-- checkScope: the refusal, if there is one.
unfoldable pub check_scope : Entry → Str → Option Reply
check_scope entry req_scope = elim (validate_capability req_scope) [
  | err e ↦ some (refuse scope_denied (bad_scope e))
  | ok _ ↦
      if not (str_eq (operation req_scope) git_sign_operation)
      then some (refuse scope_denied (wrong_operation req_scope))
      else if not (any_covers entry.scopes req_scope)
      then some (refuse scope_denied not_covered)
      else none
]

-- Preflight
unfoldable pub preflight : World → Request → Broker → Reply
preflight w req b = elim (lookup w.crypto.sha256 w.lookup_at req.token b.cache) [
  | none ↦ refuse no_grant no_matching_grant
  | some entry ↦ elim (check_scope entry req.scope) [
    | some res ↦ res
    | none ↦ record { code = okay; message = empty; expires_at = entry.expires_at; signature = [] }
  ]
]

unfoldable pub audit_row : World → Entry → Request → Commit → SignRow
audit_row w entry req c = record {
  subject = entry.subject;
  grant_id = entry.grant_id;
  scope = req.scope;
  payload_sha256 = w.hex (w.crypto.sha256 req.payload);
  committer_email = c.committer_email;
}

-- Sign, from the key on.
unfoldable pub sign_commit : World → Entry → Request → Commit → Broker → Reply × Broker
sign_commit w entry req c b = elim w.signer [
  | none ↦ (refuse backend_unreachable key_unavailable, b)
  | some signer ↦ elim (sign_payload w.crypto signer git_namespace req.payload) [
    | none ↦ (refuse backend_unreachable signing_failed, b)
    | some armored ↦
        if w.audit_up
        then (
          record { code = okay; message = empty; expires_at = none; signature = armored },
          record b { audit = b.audit ++ audit_row w entry req c ∷ [] },
        )
        else (refuse backend_unreachable could_not_audit, b)
  ]
]

-- Sign, from the scope check on.
unfoldable pub sign_checked : World → Entry → Request → Broker → Reply × Broker
sign_checked w entry req b = elim (check_scope entry req.scope) [
  | some res ↦ (res, b)
  | none ↦ elim (parse req.payload) [
    | err e ↦ (refuse scope_denied (refusing e), b)
    | ok c ↦
        if not (str_eq c.committer_email entry.committer_email)
        then (refuse scope_denied wrong_committer, b)
        else sign_commit w entry req c b
  ]
]

-- Sign
unfoldable pub sign : World → Request → Broker → Reply × Broker
sign w req b = elim (lookup w.crypto.sha256 w.lookup_at req.token b.cache) [
  | none ↦ (refuse no_grant no_matching_grant, b)
  | some entry ↦
      let (granted, rate) = allow entry.grant_id w.allow_at b.rate in
      let charged = record b { rate = rate } in
      if not granted
      then (refuse rate_limited tripwire_fired, charged)
      else sign_checked w entry req charged
]

-- Handle
unfoldable pub handle : World → Request → Broker → Reply × Broker
handle w req b =
    if str_eq req.op (codes "preflight")
    then (preflight w req b, b)
    else if str_eq req.op (codes "sign")
    then sign w req b
    else (refuse scope_denied (unknown_op req.op), b)
