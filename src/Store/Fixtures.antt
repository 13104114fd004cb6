-- ===== src/Store/Fixtures.antt =====
-- A small database, and a concrete LIKE and ranking, for the tests of the store.
-- LIKE is the one that Postgres documents; the ranking keeps the order of the table.
use chuvar.Prelude.{
  ℕ, Str, codes, Bool, true, false, ◌≡◌, refl, ◌&&◌, ◌||◌, Option, none, some, List, [], ◌∷◌,
  is_empty, arith, ◌==◌, if◌then◌else◌, Elem, inl,
}
use chuvar.Store.Facts.{Like, Engine, is_special}
use chuvar.Store.Types.{
  Context, GrantRow, GrantRequestRow, GrantRequestStatus, StagedDiff, DiffStatus, FactRow, Db,
  GrantedScope, memory, capability, facts_depth, full, novel,
}
use chuvar.Store.Grants.{scope_row}

-- LIKE, for every pattern: % any run of bytes, _ any byte, and a backslash before a literal byte.
abbrev pub match_like : Str → Str → Bool
match_like s [] = is_empty s
match_like [] (c ∷ p) = let rest = match_like [] p in if c == b'%' then rest else false
match_like (d ∷ s) (c ∷ p) =
    let skip = match_like s (c ∷ p) in
    let here = match_like (d ∷ s) p in
    let next = match_like s p in
    let escaped : Bool = elim p [ [] ↦ false | x ∷ q ↦ (d == x) && match_like s q ] in
    if c == b'%'
    then here || skip
    else if c == b'\\'
    then escaped
    else if c == b'_'
    then next
    else (d == c) && next

pub match-percent : (s : Str) → match_like s (codes "%") ≡ true
match-percent [] = refl
match-percent (d ∷ s) = ground (arith, match-percent s)

pub match-literal :
    (d c : ℕ) (s p : Str)
    → is_special c ≡ false
    → match_like (d ∷ s) (c ∷ p) ≡ ((d == c) && match_like s p)
unfolding is_special
match-literal d c s p h = ground arith

pub match-literal_end : (c : ℕ) (p : Str) → is_special c ≡ false → match_like [] (c ∷ p) ≡ false
unfolding is_special
match-literal_end c p h = ground arith

abbrev pub postgres_like : Like
postgres_like = record {
  like = match_like;
  percent = match-percent;
  literal = match-literal;
  literal_end = match-literal_end;
  escaped = λ d c s p. refl;
  escaped_end = λ c p. refl;
}

abbrev pub first : List (FactRow (List ℕ)) → Option (FactRow (List ℕ) × Bool)
first [] = none
first (r ∷ rows) = some (r, true)

pub head-Elem :
    (rows : List (FactRow (List ℕ))) (r : FactRow (List ℕ)) (close : Bool)
    → first rows ≡ some (r, close)
    → Elem r rows
head-Elem [] r close h = absurd (cc h)
head-Elem (x ∷ rows) r close h = inl (ground arith)

abbrev pub engine : Engine ℕ (List ℕ)
engine = record {
  like = postgres_like;
  new_vector = λ xs. xs;
  rank = λ q e rows. rows;
  rank_selects = λ q e rows r m. m;
  nearest = λ v rows. first rows;
  nearest_selects = λ v rows r close h. head-Elem rows r close h;
}

abbrev pub at_1000 : Context
at_1000 = record { wall = 1000; db_now = 1000; new_id = 9 }

abbrev pub amy : Str
amy = codes "amy"

abbrev pub bob : Str
bob = codes "bob"

abbrev pub identity : Str
identity = codes "identity"

abbrev pub name_scope : Str
name_scope = codes "identity.name"

-- A live memory grant of amy, and an expired capability grant.
abbrev pub stored_grants : List GrantRow
stored_grants =
    record {
      id = 1;
      subject = amy;
      kind = memory;
      depth = some facts_depth;
      created_at = 100;
      expires_at = none;
      revoked_at = none;
    }
    ∷ record {
      id = 2;
      subject = amy;
      kind = capability;
      depth = none;
      created_at = 100;
      expires_at = some 900;
      revoked_at = none;
    }
    ∷ []

abbrev pub stored_request : GrantRequestRow
stored_request = record {
  id = 3;
  subject = amy;
  requested_scopes = name_scope ∷ [];
  kind = memory;
  depth = some full;
  requested_ttl_seconds = some 60;
  justification = [];
  status = GrantRequestStatus.pending;
  created_at = 100;
  decided_at = none;
  decided_by = none;
  resulting_grant_id = none;
}

abbrev pub stored_diff : StagedDiff
stored_diff = record {
  id = 5;
  subject = amy;
  content = codes "likes tea";
  proposed_scopes = name_scope ∷ [];
  target_fact_id = some 7;
  status = DiffStatus.pending;
  dedupe_verdict = some novel;
  dedupe_candidate_fact_id = none;
  created_at = 100;
  decided_at = none;
  decided_by = none;
}

abbrev pub stored_fact : FactRow (List ℕ)
stored_fact = record {
  id = 7;
  content = codes "likes coffee";
  summary = some (codes "a drink");
  embedding = none;
  source_staged_diff_id = 4;
  created_at = 50;
  valid_at = 50;
  invalid_at = none;
  expired_at = none;
  superseded_by = none;
}

abbrev pub db : Db (List ℕ)
db = record {
  grants = stored_grants;
  grant_scopes = scope_row 1 identity ∷ [];
  grant_requests = stored_request ∷ [];
  staged_diffs = stored_diff ∷ [];
  facts = stored_fact ∷ [];
  fact_scopes = scope_row 7 name_scope ∷ [];
  audit_log = [];
}

abbrev pub held : List GrantedScope
held = record { scope = identity; depth = facts_depth } ∷ []
