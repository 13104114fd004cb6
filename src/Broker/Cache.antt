-- ===== src/Broker/Cache.antt =====
-- backend/internal/broker/cache.go, with grantRow of backend/internal/broker/store.go: the grants
-- that brokerd holds in memory, keyed by the hash of their token, and their eviction. Each method
-- holds the cache's lock, so it is one step. SHA-256 is a function `hash`.
pub mod Eviction
pub mod Safety
use chuvar.Prelude.{
  ℕ, ◌-◌, ◌*◌, Str, Bool, true, false, not, ◌&&◌, ◌||◌, Option, none, some, List, [], ◌∷◌, Result,
  ok, err, ◌>>=◌, ltb, if◌then◌else◌, ◌>>◌, StrMap, get, erase, put,
}
use chuvar.Scope.{Scope, ScopeError, validate_capability}
use chuvar.Store.Types.{Time}

pub record GrantRow : Type 0 where
  pub id : Str
  pub subject : Str
  pub committer_email : Str
  pub token_hash : Str
  pub scopes : List Str
  pub expires_at : Option Time

pub record Entry : Type 0 where
  pub grant_id : Str
  pub subject : Str
  pub committer_email : Str
  pub scopes : List Scope
  pub expires_at : Option Time

-- e.ExpiresAt != nil && !now.Before(*e.ExpiresAt)
unfoldable pub expired : Entry → Time → Bool
expired e now = elim e.expires_at [ none ↦ false | some t ↦ not (ltb now t) ]

-- The two maps that a load replaces.
pub record Maps : Type 0 where
  pub by_token : StrMap Entry
  pub token_of : StrMap Str

pub record Cache : Type 0 where
  pub maps : Maps
  pub tombstones : StrMap Time

abbrev pub no_maps : Maps
no_maps = record { by_token = []; token_of = [] }

unfoldable pub new_cache : Cache
new_cache = record { maps = no_maps; tombstones = [] }

abbrev pub tombstone_ttl : ℕ
tombstone_ttl = 300 * 1000000000

unfoldable pub parse_scopes : List Str → Result ScopeError (List Scope)
parse_scopes [] = ok []
parse_scopes (s ∷ raw) = do validate_capability s; out ← parse_scopes raw; ok (s ∷ out)

unfoldable pub entry_of : GrantRow → List Scope → Entry
entry_of r scopes = record {
  grant_id = r.id;
  subject = r.subject;
  committer_email = r.committer_email;
  scopes = scopes;
  expires_at = r.expires_at;
}

-- The loop over the rows of a snapshot; a row with an invalid scope is skipped.
unfoldable pub load_rows : List GrantRow → Maps → Maps
load_rows [] m = m
load_rows (r ∷ rows) m = elim (parse_scopes r.scopes) [
  | err _ ↦ load_rows rows m
  | ok scopes ↦ load_rows rows (record {
    by_token = put r.token_hash (entry_of r scopes) m.by_token;
    token_of = put r.id r.token_hash m.token_of;
  })
]

-- if key, ok := tokenOf[id]; ok { delete(byToken, key); delete(tokenOf, id) }
unfoldable pub drop : Str → Maps → Maps
drop id m = elim (get id m.token_of) [
  | none ↦ m
  | some key ↦ record { by_token = erase key m.by_token; token_of = erase id m.token_of }
]

-- The loop over the tombstones: those past the TTL go, and each other drops its grant.
unfoldable pub sweep : Time → StrMap Time → Maps → StrMap Time × Maps
sweep now [] m = ([], m)
sweep now ((id, at) ∷ stones) m =
    let skipped = sweep now stones m in
    let swept = sweep now stones (drop id m) in
    if ltb tombstone_ttl (now - at) then skipped else ((id, at) ∷ swept.0, swept.1)

unfoldable pub apply : Time → List GrantRow → Cache → Cache
apply now rows c =
    let swept = sweep now c.tombstones (load_rows rows no_maps) in
    record { maps = swept.1; tombstones = swept.0 }

-- Remove
unfoldable pub remove : Time → Str → Cache → Cache
remove now id c = record { maps = drop id c.maps; tombstones = put id now c.tombstones }

-- Lookup
unfoldable pub lookup : (Str → Str) → Time → Str → Cache → Option Entry
lookup hash now plaintext c = elim (get (hash plaintext) c.maps.by_token) [
  | none ↦ none
  | some e ↦ if expired e now then none else some e
]
