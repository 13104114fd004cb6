-- ===== src/Policies/Canonical.antt =====
-- What a repository is that the API accepts.
use chuvar.Prelude.{
  ◌↔◌, ◌≤◌, split_on-append, ℕ, push, Str, codes, Bool, true, false, not, ◌||◌, ◌≡◌, refl, ap, sym,
  subst, ◌∙◌, inl, inr, List, [], ◌∷◌, ◌++◌, Result, ok, err, any, is_empty, length, str_eq,
  str_eq_iff, split_on, join, join-split_on, Bool-cases, Result-cases, arith, if◌then◌else◌, All,
  ◌==◌, ltb,
}
use chuvar.Policies.{
  check_segments, require_canonical_repo, validate_repo, contains_space, has_suffix,
  host_ends_with_dot, max_repo_length,
}

-- A segment that is not empty, neither one dot nor two, and has no slash in it.
pub record IsSegment (s : Str) : Type 0 where
  pub no_slash : any (λ c. c == b'/') s ≡ false
  pub filled : is_empty s ≡ false
  pub no_dots : (str_eq s (codes ".") || str_eq s (codes "..")) ≡ false

-- The pieces of a split have no separator in them.
push-All :
    (x : ℕ) (ss : List Str)
    → (x == b'/') ≡ false
    → All (λ s. any (λ c. c == b'/') s ≡ false) ss
    → All (λ s. any (λ c. c == b'/') s ≡ false) (push x ss)
unfolding push
push-All x [] e h = (rw e, tt)
push-All x (s ∷ ss) e (here, h) = (rw (e, here), h)

split-All : (s : Str) → All (λ s. any (λ c. c == b'/') s ≡ false) (split_on b'/' s)
unfolding split_on
split-All [] = (refl, tt)
split-All (x ∷ s) = elim (Bool-cases (x == b'/')) [
  | inl e ↦ rw e (refl, split-All s)
  | inr e ↦ rw e (push-All x (split_on b'/' s) e (split-All s))
]

checked_segments :
    (segments : List Str)
    → All (λ s. any (λ c. c == b'/') s ≡ false) segments
    → check_segments segments ≡ ok tt
    → All IsSegment segments
unfolding check_segments
checked_segments [] plain h = tt
checked_segments (s ∷ segments) (here, plain) h = elim (Bool-cases (is_empty s)) [
  | inl e ↦ absurd (cc (rw e at h))
  | inr e ↦ elim (Bool-cases (str_eq s (codes ".") || str_eq s (codes ".."))) [
    | inl d ↦ absurd (cc (rw (e, d) at h))
    | inr d ↦ (
      record { no_slash = here; filled = e; no_dots = d },
      checked_segments segments plain (rw (e, d) at h),
    )
  ]
]

-- The result of a test that was passed.
module _ {E : Type 0} where
  passed :
      (c : Bool) (e : E) (r : Result E (Unit {0}))
      → (if c then err e else r) ≡ ok tt
      → (c ≡ false) × (r ≡ ok tt)
  passed true e r h = absurd (cc h)
  passed false e r h = (refl, h)

negated : (b : Bool) → not b ≡ false → b ≡ true
negated true h = refl
negated false h = absurd (cc h)

three :
    (segments : List Str)
    → (length segments == 3) ≡ true
    → (a b c : Str) × (segments ≡ a ∷ b ∷ c ∷ [])
three [] h = absurd (ground arith)
three (a ∷ []) h = absurd (ground arith)
three (a ∷ b ∷ []) h = absurd (ground arith)
three (a ∷ b ∷ c ∷ []) h = (a, b, c, refl)
three (a ∷ b ∷ c ∷ d ∷ rest) h = absurd (ground arith)

-- host/owner/repo, of which nothing has to be rewritten.
pub record IsCanonical (to_lower : Str → Str) (repo : Str) : Type 0 where
  pub host : Str
  pub owner : Str
  pub name : Str
  pub written : repo ≡ host ++ b'/' ∷ (owner ++ b'/' ∷ name)
  pub segments : All IsSegment (host ∷ owner ∷ name ∷ [])
  pub no_colon : any (λ c. c == b':') repo ≡ false
  pub no_space : contains_space repo ≡ false
  pub no_git_suffix : has_suffix repo (codes ".git") ≡ false
  pub no_last_dot : has_suffix host (codes ".") ≡ false
  pub is_lower : repo ≡ to_lower repo

pub require_canonical_lem :
    (to_lower : Str → Str) (repo : Str)
    → contains_space repo ≡ false
    → require_canonical_repo to_lower repo ≡ ok tt
    → IsCanonical to_lower repo
unfolding require_canonical_repo host_ends_with_dot join
require_canonical_lem to_lower repo no_space h =
    let (no_colon, e₁) = passed _ _ _ h in
    let (no_suffix, e₂) = passed _ _ _ e₁ in
    let (counted, e₃) = passed _ _ _ e₂ in
    let (host, owner, name, split) = three (split_on b'/' repo) (negated _ counted) in
    elim (Result-cases (check_segments (split_on b'/' repo))) [
      | inr (bad, k) ↦ absurd (cc (rw k at e₃))
      | inl (u, k) ↦
          let (no_dot, e₄) = passed _ _ _ (rw k at e₃) in
          let (lower, e₅) = passed _ _ _ e₄ in
          record {
            host = host;
            owner = owner;
            name = name;
            written = sym (join-split_on b'/' repo) ∙ ap (join b'/') split;
            segments =
                subst (All IsSegment) split
                  (checked_segments (split_on b'/' repo) (split-All repo) k);
            no_colon = no_colon;
            no_space = no_space;
            no_git_suffix = no_suffix;
            no_last_dot = sym (ap host_ends_with_dot split) ∙ no_dot;
            is_lower = (str_eq_iff repo (to_lower repo)).0 (negated _ lower);
          }
    ]

split_plain : (s : Str) → any (λ c. c == b'/') s ≡ false → split_on b'/' s ≡ s ∷ []
unfolding split_on push
split_plain [] h = refl
split_plain (x ∷ s) h = elim (Bool-cases (x == b'/')) [
  | inl e ↦ absurd (cc (rw e at h))
  | inr e ↦ rw (e, split_plain s (rw e at h))
]

passing_segments : (segments : List Str) → All IsSegment segments → check_segments segments ≡ ok tt
unfolding check_segments
passing_segments [] h = refl
passing_segments (s ∷ segments) (here, h) =
    rw (here.filled, here.no_dots, passing_segments segments h)

begun : (s t : Str) → is_empty (s ++ b'/' ∷ t) ≡ false
begun [] t = refl
begun (x ∷ s) t = refl

module _ (to_lower : Str → Str) (repo : Str) (h : IsCanonical to_lower repo) where
  canonical_split : split_on b'/' repo ≡ h.host ∷ h.owner ∷ h.name ∷ []
  canonical_split =
      ap (split_on b'/') h.written
      ∙ split_on-append b'/' h.host (h.owner ++ b'/' ∷ h.name)
      ∙ rw
          (
            split_on-append b'/' h.owner h.name,
            split_plain h.host h.segments.0.no_slash,
            split_plain h.owner h.segments.1.0.no_slash,
            split_plain h.name h.segments.1.1.0.no_slash,
          )
          refl

  canonical_filled : is_empty repo ≡ false
  canonical_filled = ap is_empty h.written ∙ begun h.host (h.owner ++ b'/' ∷ h.name)

  canonical_accepted : require_canonical_repo to_lower repo ≡ ok tt
  unfolding require_canonical_repo host_ends_with_dot
  canonical_accepted =
      let same : str_eq repo (to_lower repo) ≡ true =
        (str_eq_iff repo (to_lower repo)).1 h.is_lower in
      let no_dot : host_ends_with_dot (split_on b'/' repo) ≡ false =
        ap host_ends_with_dot canonical_split ∙ h.no_last_dot in
      let passing : check_segments (split_on b'/' repo) ≡ ok tt =
        ap check_segments canonical_split
        ∙ passing_segments (h.host ∷ h.owner ∷ h.name ∷ []) h.segments in
      let counted : (length (split_on b'/' repo) == 3) ≡ true =
        ap (λ segments. length segments == 3) canonical_split in
      rw (h.no_colon, h.no_git_suffix, counted, passing, no_dot, same)

within_length : (n : ℕ) → ltb max_repo_length n ≡ false → n ≤ max_repo_length
within_length n h = ground arith

accepted-IsCanonical :
    (to_lower : Str → Str) (repo : Str)
    → validate_repo to_lower repo ≡ ok tt
    → IsCanonical to_lower repo × (length repo ≤ max_repo_length)
unfolding validate_repo
accepted-IsCanonical to_lower repo h =
    let (_, e₁) = passed _ _ _ h in
    let (short, e₂) = passed _ _ _ e₁ in
    let (no_space, e₃) = passed _ _ _ e₂ in
    (require_canonical_lem to_lower repo no_space e₃, within_length (length repo) short)

-- The API accepts exactly the repositories in the one form under which a policy is stored:
-- host/owner/repo with three segments without slashes that are neither empty nor dots, at most 512
-- bytes, without white space, a colon, a .git suffix or a last dot of the host, and in lower case.
pub validate_repo_iff :
    (to_lower : Str → Str) (repo : Str)
    → (validate_repo to_lower repo ≡ ok tt)
      ↔ (IsCanonical to_lower repo × (length repo ≤ max_repo_length))
unfolding validate_repo
validate_repo_iff to_lower repo = (
  accepted-IsCanonical to_lower repo,
  λ (canonical, short).
      let fits : ltb max_repo_length (length repo) ≡ false = ground arith in
      rw (canonical_filled to_lower repo canonical, fits, canonical.no_space)
        (canonical_accepted to_lower repo canonical),
)
