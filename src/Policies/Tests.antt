-- ===== src/Policies/Tests.antt =====
-- A policy that is set, and repositories that are refused or accepted.
use chuvar.Prelude.{
  codes, false, ◌≡◌, refl, [], ◌∷◌, ok, err, str_eq, split_on, has_prefix, reverse_onto, space_one,
  space_two, space_three,
}
use chuvar.Store.Types.{Context}
use chuvar.Store.Tables.{find, update_where}
use chuvar.Auth.Action.{Action, ◌>>=◌, atomically}
use chuvar.Policies.{
  Policy, PolicyDb, PolicyError, upsert_signing_policy, get_signing_policy, valid_signing_policy,
  upsert_rows, row_or, of_repo, set_policy, new_policy, validate_repo, require_canonical_repo,
  contains_space, has_suffix, host_ends_with_dot, check_segments, git_suffix,
}
use chuvar.Policies.Canonical.{validate_repo_iff}
use chuvar.Policies.Current.{upsert_policy_lem}

abbrev now : Context
now = record { wall = 20; db_now = 20; new_id = 1 }

abbrev stored : Policy
stored = record {
  repo = codes "h/o/r";
  policy = codes "off";
  set_by = codes "amy";
  created_at = 10;
  updated_at = 10;
}

abbrev db : PolicyDb
db = record { policies = stored ∷ []; audit_log = [] }

abbrev changed : Policy
changed = record stored { policy = codes "required"; set_by = codes "bob"; updated_at = 20 }

abbrev setting : Action PolicyDb PolicyError Policy
setting = upsert_signing_policy (λ r p. r) now (codes "h/o/r") (codes "required") (codes "bob")

set_run : setting db ≡ (ok changed, (setting db).1)
unfolding upsert_signing_policy valid_signing_policy upsert_rows row_or of_repo set_policy
    new_policy str_eq find update_where ◌>>=◌ atomically
set_run = refl

upsert_policy_lem_example :
    get_signing_policy (codes "h/o/r") (setting db).1 ≡ (ok changed, (setting db).1)
upsert_policy_lem_example =
    (upsert_policy_lem (λ r p. r) now (codes "h/o/r") (codes "required") (codes "bob") db _ changed
      set_run).3

accepted : validate_repo (λ s. s) (codes "h.io/o/r") ≡ ok tt
unfolding validate_repo require_canonical_repo contains_space has_suffix host_ends_with_dot
    check_segments split_on str_eq has_prefix reverse_onto space_one space_two space_three
accepted = refl

refused_suffix : validate_repo (λ s. s) (codes "h.io/o/r.git") ≡ err git_suffix
unfolding validate_repo require_canonical_repo contains_space has_suffix host_ends_with_dot
    check_segments split_on str_eq has_prefix reverse_onto space_one space_two space_three
refused_suffix = refl

validate_repo_iff_example : contains_space (codes "h.io/o/r") ≡ false
validate_repo_iff_example = ((validate_repo_iff (λ s. s) (codes "h.io/o/r")).0 accepted).0.no_space
