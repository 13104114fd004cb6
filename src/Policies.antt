-- ===== src/Policies.antt =====
-- backend/internal/store/signing_policies.go with its queries, and the canonical form of repositories
-- of backend/internal/api/signing_policies.go.
pub mod Current
pub mod Canonical
mod Tests
use chuvar.Prelude.{
  ℕ, Str, codes, Bool, true, false, not, ◌&&◌, ◌||◌, Option, none, some, List, [], ◌∷◌, ◌++◌,
  Result, ok, err, any, is_empty, length, str_eq, split_on, has_prefix, reverse_onto, space_one,
  space_two, space_three, ltb, ◌==◌, if◌then◌else◌,
}
use chuvar.Store.Types.{Time, Context, AuditRow}
use chuvar.Store.Tables.{find, update_where}
use chuvar.Store.Audit.{no_subjects, audit_row}
use chuvar.Auth.Action.{Action, pure, gets, lift, modify, check, ◌>>=◌, ◌>>◌, or_else, atomically}

-- The table signing_policies, and RepoSigningPolicy.
pub record Policy : Type 0 where
  pub repo : Str
  pub policy : Str
  pub set_by : Str
  pub created_at : Time
  pub updated_at : Time

pub record PolicyDb : Type 0 where
  pub policies : List Policy
  pub audit_log : List AuditRow

pub data PolicyError : Type 0 where
  empty_repo invalid_policy empty_set_by no_policy : PolicyError

-- ValidSigningPolicy
unfoldable pub valid_signing_policy : Str → Bool
valid_signing_policy p =
    str_eq p (codes "required") || str_eq p (codes "preferred") || str_eq p (codes "off")

unfoldable pub of_repo : Str → Policy → Bool
of_repo repo p = str_eq p.repo repo

-- The row with the values that an upsert sets.
unfoldable pub set_policy : Context → Str → Str → Policy → Policy
set_policy ctx policy set_by p = record {
  repo = p.repo;
  policy = policy;
  set_by = set_by;
  created_at = p.created_at;
  updated_at = ctx.db_now;
}

-- A new row; created_at and updated_at have now() as their default.
unfoldable pub new_policy : Context → Str → Str → Str → Policy
new_policy ctx repo policy set_by = record {
  repo = repo;
  policy = policy;
  set_by = set_by;
  created_at = ctx.db_now;
  updated_at = ctx.db_now;
}

-- The upsert: ON CONFLICT (repo) the row that is there is changed.
unfoldable pub upsert_rows : Context → Str → Str → Str → List Policy → List Policy
unfolding of_repo set_policy new_policy
upsert_rows ctx repo policy set_by rows =
    if any (of_repo repo) rows
    then update_where (of_repo repo) (set_policy ctx policy set_by) rows
    else rows ++ new_policy ctx repo policy set_by ∷ []

-- The error where there is no row.
unfoldable pub row_or : {E : Type 0} → E → Option Policy → Result E Policy
row_or e none = err e
row_or e (some p) = ok p

-- GetSigningPolicy
unfoldable pub get_signing_policy : Str → Action PolicyDb PolicyError Policy
unfolding of_repo row_or
get_signing_policy repo = do
  row ← gets (λ db. find (of_repo repo) db.policies)
  lift (row_or no_policy row)

-- The repository as the target of the scope that an audit row names.
abbrev pub sign_scope : Str → Str
sign_scope repo = codes "git.sign:" ++ repo

-- UpsertSigningPolicy; `marshal` is json.Marshal of the audit row's detail.
unfoldable pub upsert_signing_policy :
    (Str → Str → Str) → Context → Str → Str → Str → Action PolicyDb PolicyError Policy
unfolding valid_signing_policy upsert_rows row_or of_repo
upsert_signing_policy marshal ctx repo policy set_by = do
  check (not (is_empty repo)) empty_repo
  check (valid_signing_policy policy) invalid_policy
  check (not (is_empty set_by)) empty_set_by
  atomically (do
    modify (λ db. record db { policies = upsert_rows ctx repo policy set_by db.policies })
    row ← gets (λ db. find (of_repo repo) db.policies)
    answer ← lift (row_or no_policy row)
    modify (λ db. record db {
      audit_log =
          db.audit_log
          ++ audit_row ctx (codes "signing_policy_set") set_by no_subjects (sign_scope repo ∷ [])
              (some (marshal repo policy))
            ∷ [];
    })
    pure answer)

-- Why a repository is refused: the branches of validateRepo and requireCanonicalRepo.
pub data RepoError : Type 0 where
  repo_required repo_too_long whitespace colon git_suffix wrong_segments : RepoError
  empty_segment dot_segment trailing_dot not_lowercase : RepoError

abbrev pub max_repo_length : ℕ
max_repo_length = 512

-- strings.ContainsFunc(s, unicode.IsSpace), on UTF-8 bytes
unfoldable pub contains_space : Str → Bool
contains_space [] = false
contains_space (a ∷ []) = space_one a
contains_space (a ∷ b ∷ []) =
    let rest = contains_space (b ∷ []) in space_one a || space_two a b || rest
contains_space (a ∷ b ∷ c ∷ s) =
    let rest = contains_space (b ∷ c ∷ s) in
    space_one a || space_two a b || space_three a b c || rest

unfoldable pub has_suffix : Str → Str → Bool
has_suffix s suffix = has_prefix (reverse_onto s []) (reverse_onto suffix [])

-- The loop over the segments.
unfoldable pub check_segments : List Str → Result RepoError (Unit {0})
check_segments [] = ok tt
check_segments (s ∷ segments) =
    let rest = check_segments segments in
    if is_empty s
    then err empty_segment
    else if str_eq s (codes ".") || str_eq s (codes "..")
    then err dot_segment
    else rest

-- HasSuffix(segments[0], ".")
unfoldable pub host_ends_with_dot : List Str → Bool
unfolding has_suffix
host_ends_with_dot [] = false
host_ends_with_dot (host ∷ segments) = has_suffix host (codes ".")

-- requireCanonicalRepo; `to_lower` is strings.ToLower.
unfoldable pub require_canonical_repo : (Str → Str) → Str → Result RepoError (Unit {0})
unfolding has_suffix host_ends_with_dot check_segments
require_canonical_repo to_lower repo =
    let segments = split_on b'/' repo in
    let last =
      if host_ends_with_dot segments
      then err trailing_dot
      else if not (str_eq repo (to_lower repo))
      then err not_lowercase
      else ok tt in
    if any (λ c. c == b':') repo
    then err colon
    else if has_suffix repo (codes ".git")
    then err git_suffix
    else if not (length segments == 3)
    then err wrong_segments
    else elim (check_segments segments) [ err e ↦ err e | ok _ ↦ last ]

-- validateRepo
unfoldable pub validate_repo : (Str → Str) → Str → Result RepoError (Unit {0})
unfolding contains_space require_canonical_repo
validate_repo to_lower repo =
    if is_empty repo
    then err repo_required
    else if ltb max_repo_length (length repo)
    then err repo_too_long
    else if contains_space repo
    then err whitespace
    else require_canonical_repo to_lower repo
