-- ===== src/Broker/Tests.antt =====
-- The theorems on brokerd at concrete inputs.
use chuvar.Prelude.{
  ◌≤◌, Str, codes, true, ◌≡◌, ◌≢◌, refl, some, List, [], ◌∷◌, ◌++◌, ok, pos, arith, str_eq, str_neq,
  has_prefix, Elem, Distinct, ◌⊎◌, inl, inr, ◌&&◌, leb, cut, split_on, get, put, erase,
}
use chuvar.Scope.{
  validate_capability, validate, validate_segments, validate_target, segment_pattern,
  target_pattern, is_segment_byte, is_target_byte, has_traversal_segment, split, operation,
  any_covers, covers, op_covers,
}
use chuvar.Broker.Cache.{
  GrantRow, Cache, new_cache, entry_of, load_rows, parse_scopes, drop, sweep, apply, remove, lookup,
  expired,
}
use chuvar.Broker.Cache.Eviction.{ids}
use chuvar.Broker.Cache.Safety.{loaded, run, step, revoked_stays_out, lookup_lem}
use chuvar.Broker.RateLimit.{new_rate_limiter, allow, in_window, events_of}
use chuvar.Broker.RateLimit.Bound
use chuvar.Broker.RateLimit.Bound.{Call, counts, count, allow-bound}
use chuvar.Broker.Commit.{
  Commit, parse, parse_headers, identity_email, take_header, take_parents, check_remaining,
  cut_blank_line, split_header_lines, fold_lines, has_key, skip, value, is_object_id, is_name_byte,
  is_email_byte, is_zone, without_last_space, without_first_space, newline,
}
use chuvar.Broker.Commit.Identity.{IsIdentity, identity_email_iff}
use chuvar.Broker.Commit.Structure.{IsCommit, parse-IsCommit}
use chuvar.Broker.Sshsig.{Signer, armor, wrap, Crypto, sign_payload}
use chuvar.Broker.Sshsig.SignedData.{signed_data_injective}
use chuvar.Broker.Signing.{
  Request, Broker, World, okay, no_grant, sign, sign_checked, sign_commit, handle, preflight,
  check_scope,
}
use chuvar.Broker.Signing.Gate.{Passes, Signed, Refused, sign_lem}
use chuvar.Broker.Signing.Handling.{handle-Signed}
use chuvar.Broker.Signing.Preflight.{preflight_iff, preflight-sign}

abbrev tree_id : Str
tree_id = codes "0123456789abcdef0123456789abcdef01234567"

abbrev ann : Str
ann = codes "Ann <ann@x.io> 17 +0000"

abbrev header_text : Str
header_text =
    codes "tree "
    ++ (tree_id ++ newline ∷ (codes "author " ++ (ann ++ newline ∷ (codes "committer " ++ ann))))

abbrev payload : Str
payload = header_text ++ newline ∷ newline ∷ codes "hi"

abbrev parsed : Commit
parsed = record {
  tree = tree_id;
  parents = [];
  author = ann;
  committer = ann;
  committer_email = codes "ann@x.io";
  message = codes "hi";
  raw = payload;
}

payload_parses : parse payload ≡ ok parsed
unfolding parse parse_headers identity_email take_header take_parents check_remaining cut_blank_line
    split_header_lines fold_lines has_key skip value is_object_id is_name_byte is_email_byte is_zone
    without_last_space without_first_space str_eq has_prefix cut split_on
payload_parses = refl

parse-IsCommit_example : IsCommit payload parsed
parse-IsCommit_example = parse-IsCommit payload parsed payload_parses

identity_email_iff_example : IsIdentity ann (codes "ann@x.io")
unfolding identity_email is_name_byte is_email_byte is_zone without_last_space without_first_space
    cut
identity_email_iff_example = (identity_email_iff ann (codes "ann@x.io")).0 refl

-- Stand-ins for SHA-256, base64 and hex: the texts themselves.
abbrev plain : Crypto
plain = record { sha256 = λ s. s; base64 = λ s. s }

abbrev scope_text : Str
scope_text = codes "git.sign:owner/repo"

abbrev row : GrantRow
row = record {
  id = codes "g1";
  subject = codes "amy";
  committer_email = codes "ann@x.io";
  token_hash = codes "token";
  scopes = scope_text ∷ [];
  expires_at = some 5000;
}

abbrev cached : Cache
cached = apply 1000 (row ∷ []) new_cache

one_id : Distinct (ids (row ∷ []))
one_id = ((λ h. h), tt)

entry_found :
    lookup plain.sha256 2000 (codes "token") cached ≡ some (entry_of row (scope_text ∷ []))
unfolding apply lookup load_rows parse_scopes sweep new_cache expired get put erase str_eq
    validate_capability validate validate_segments validate_target segment_pattern target_pattern
    is_segment_byte is_target_byte has_traversal_segment split cut split_on entry_of
entry_found = refl

lookup_lem_example :
    Elem
      (lookup_lem plain.sha256 1000 2000
        (row ∷ [])
        new_cache
        (codes "token")
        (entry_of row (scope_text ∷ []))
        one_id
        entry_found).0
      (row ∷ [])
lookup_lem_example =
    (lookup_lem plain.sha256 1000 2000 (row ∷ []) new_cache (codes "token")
      (entry_of row (scope_text ∷ [])) one_id entry_found).1

-- Another grant, loaded together with the first after the first has been revoked.
abbrev other : GrantRow
other = record row { id = codes "g2"; token_hash = codes "token2" }

other_found :
    lookup plain.sha256 2000 (codes "token2") (
      run
        (loaded 1600 (row ∷ other ∷ []) ∷ [])
        (remove 1500 (codes "g1") (run (loaded 1000 (row ∷ []) ∷ []) new_cache)))
    ≡ some (entry_of other (scope_text ∷ []))
unfolding run step remove drop apply lookup load_rows parse_scopes sweep new_cache expired get put
    erase str_eq validate_capability validate validate_segments validate_target segment_pattern
    target_pattern is_segment_byte is_target_byte has_traversal_segment split cut split_on entry_of
other_found = refl

two_ids : Distinct (ids (row ∷ other ∷ []))
unfolding str_eq
two_ids =
    ((λ h. elim h [ inl e ↦ str_neq (codes "g1") (codes "g2") refl e | inr f ↦ f ]), ((λ h. h), tt))

revoked_stays_out_example : (entry_of other (scope_text ∷ [])).grant_id ≢ codes "g1"
revoked_stays_out_example =
    revoked_stays_out plain.sha256 1500 (codes "g1") (loaded 1000 (row ∷ []) ∷ [])
      (loaded 1600 (row ∷ other ∷ []) ∷ []) (one_id, tt) (two_ids, tt)
      ((omega arith, omega arith), tt) 2000 (codes "token2") (entry_of other (scope_text ∷ []))
      other_found

abbrev calls : List Call
calls =
    record { key = codes "g1"; at = 30 }
    ∷ record { key = codes "g1"; at = 20 }
    ∷ record { key = codes "g1"; at = 10 }
    ∷ []

allow-bound_example :
    count (λ c. counts (codes "g1") 60 35 c && leb c.at 35) (Bound.run (pos 2) (pos 60) calls).1 ≤ 2
allow-bound_example =
    allow-bound 2 60 calls (omega arith) (omega arith)
      (omega arith, (omega arith, (omega arith, tt))) (codes "g1") 35

abbrev key : Signer
key = record { public_key = codes "pub"; sign_bytes = λ s. some s }

abbrev world : World
world = record {
  crypto = plain;
  hex = λ s. s;
  signer = some key;
  lookup_at = 2000;
  allow_at = 2000;
  audit_up = true;
}

abbrev broker : Broker
broker = record { cache = cached; rate = new_rate_limiter (pos 2) (pos 60); audit = [] }

abbrev request : Request
request = record { op = codes "sign"; token = codes "token"; scope = scope_text; payload = payload }

signed_data_injective_example :
    (codes "git" ≡ codes "git") × (plain.sha256 payload ≡ plain.sha256 payload)
signed_data_injective_example =
    signed_data_injective plain (codes "git") (codes "git") payload payload (omega arith)
      (omega arith) (omega arith) (omega arith) refl

entry-Passes : Passes (entry_of row (scope_text ∷ [])) scope_text
unfolding validate_capability validate validate_segments validate_target segment_pattern
    target_pattern entry_of operation any_covers covers op_covers str_eq is_segment_byte
    is_target_byte has_traversal_segment split cut split_on
entry-Passes = (refl, refl, refl)

preflight_okay : (preflight world request broker).code ≡ okay
preflight_okay =
    (preflight_iff world request broker).1
      (entry_of row (scope_text ∷ []), entry_found, entry-Passes)

preflight-sign_example : (sign world request broker).0.code ≢ no_grant
preflight-sign_example = (preflight-sign world request broker preflight_okay).0

sign_lem_example :
    (((sign world request broker).0.code ≡ okay)
      × Signed world request broker (sign world request broker).0 (sign world request broker).1)
    ⊎ Refused broker (sign world request broker).0 (sign world request broker).1
sign_lem_example = sign_lem world request broker

signature_of : (r : Str) × ((handle world request broker).0.signature ≡ b'-' ∷ r)
unfolding handle sign sign_checked sign_commit check_scope sign_payload armor wrap allow
    new_rate_limiter events_of in_window apply lookup load_rows parse_scopes sweep new_cache expired
    get put erase str_eq validate_capability validate validate_segments validate_target
    segment_pattern target_pattern is_segment_byte is_target_byte has_traversal_segment split cut
    split_on entry_of operation any_covers covers op_covers parse parse_headers identity_email
    take_header take_parents check_remaining cut_blank_line split_header_lines fold_lines has_key
    skip value is_object_id is_name_byte is_email_byte is_zone without_last_space
    without_first_space has_prefix
signature_of = (_, refl)

has_signature : (handle world request broker).0.signature ≢ []
has_signature h = cc (h, signature_of.1)

handle-Signed_example :
    Signed world request broker (handle world request broker).0 (handle world request broker).1
handle-Signed_example = (handle-Signed world request broker has_signature).1
