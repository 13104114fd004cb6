-- ===== src/Broker/Commit/Structure.antt =====
-- What a payload that parses is.
use chuvar.Prelude.{
  suc, Str, codes, Bool, true, false, not, ◌&&◌, ◌≡◌, ◌≢◌, refl, ap, sym, subst, ◌∙◌, inl, inr,
  some, List, [], ◌∷◌, ◌++◌, Result, ok, then-ok, guard-ok, map, arith, length, is_empty, cut, All,
  ◌==◌, str_eq, has_prefix-rest, Bool-cases, Option-cases, Result-cases, not_empty,
}
use chuvar.Broker.Commit.{
  newline, is_object_id, identity_email, is_identity, email_or_empty, cut_blank_line,
  split_header_lines, has_key, skip, value, Commit, Malformed, take_header, take_parents,
  is_signature, is_duplicate, check_remaining, parse_headers, parse, empty_email,
}
use chuvar.Broker.Commit.Identity.{IsIdentity, identity_email-IsIdentity}

-- A header line: the key, a space and the value.
abbrev pub header : Str → Str → Str
header key v = (key ++ b' ' ∷ []) ++ v

-- A commit object that nobody has signed: after a blank line the message, and before it one tree,
-- the parents, one author, one committer, and further headers of which none is a signature or
-- repeats one of the three.
pub record IsCommit (payload : Str) (c : Commit) : Type 0 where
  pub headers : Str
  pub others : List Str
  pub divided : payload ≡ headers ++ newline ∷ newline ∷ c.message
  pub lines :
      split_header_lines headers
      ≡ header (codes "tree") c.tree
        ∷ (map (header (codes "parent")) c.parents
            ++ header (codes "author") c.author ∷ header (codes "committer") c.committer ∷ others)
  pub tree_id : is_object_id c.tree ≡ true
  pub parent_ids : All (λ p. is_object_id p ≡ true) c.parents
  pub author_email : Str
  pub author : IsIdentity c.author author_email
  pub committer : IsIdentity c.committer c.committer_email
  pub has_email : c.committer_email ≢ []
  pub unsigned : All (λ l. is_signature l ≡ false) others
  pub single : All (λ l. is_duplicate l ≡ false) others
  pub is_raw : c.raw ≡ payload

skip-header : (key v : Str) → skip (suc (length key)) (header key v) ≡ v
unfolding skip
skip-header [] v = refl
skip-header (c ∷ key) v = skip-header key v

-- A line with a key and a value is that header.
has_key-header :
    (l key : Str) → has_key l key ≡ true → value l key ≢ [] → l ≡ header key (value l key)
unfolding has_key value
has_key-header l key h full = elim (Bool-cases (str_eq l key)) [
  | inl e ↦ absurd (full (rw (e, value) refl))
  | inr e ↦
      let (r, eq) = has_prefix-rest l (key ++ b' ' ∷ []) (rw e at h) in
      rw (e, value)
        (eq ∙ ap (header key) (sym (ap (skip (suc (length key))) eq ∙ skip-header key r)))
]

take_header_lem :
    (key : Str) (test : Str → Bool) (missing bad : Malformed) (lines : List Str) (v : Str)
    (more : List Str)
    → ((s : Str) → test s ≡ true → s ≢ [])
    → take_header key test missing bad lines ≡ ok (v, more)
    → (lines ≡ header key v ∷ more) × (test v ≡ true)
unfolding take_header
take_header_lem key test missing bad [] v more full h = absurd (cc h)
take_header_lem key test missing bad (l ∷ lines) v more full h = elim (Bool-cases (has_key l key)) [
  | inl e ↦ elim (Bool-cases (test (value l key))) [
    | inl t ↦
        let same : value l key ≡ v = ground arith in
        let rest : lines ≡ more = ground arith in
        (cc (has_key-header l key e (full (value l key) t), same, rest), ap test (sym same) ∙ t)
    | inr t ↦ absurd (ground arith)
  ]
  | inr e ↦ absurd (ground arith)
]

object_id-full : (s : Str) → is_object_id s ≡ true → s ≢ []
unfolding is_object_id
object_id-full [] h = absurd (cc h)
object_id-full (c ∷ s) h = λ e. cc e

ok_pair :
    {A B E : Type 0} (a c : A) (b d : B)
    → ◌≡◌ {A = Result E (A × B)} (ok (a, b)) (ok (c, d))
    → (a ≡ c) × (b ≡ d)
ok_pair a c b d h = (ground arith, ground arith)

take_parents_lem :
    (lines ps more : List Str)
    → take_parents lines ≡ ok (ps, more)
    → (lines ≡ map (header (codes "parent")) ps ++ more) × All (λ p. is_object_id p ≡ true) ps
unfolding take_parents
take_parents_lem [] ps more h = let (e, e') = ok_pair _ _ _ _ h in rw (← e, ← e') (refl, tt)
take_parents_lem (l ∷ lines) ps more h = elim (Bool-cases (has_key l (codes "parent"))) [
  | inl e ↦ elim (Bool-cases (is_object_id (value l (codes "parent")))) [
    | inl t ↦ elim (Result-cases (take_parents lines)) [
      | inl ((qs, rest), e') ↦
          let (qs_ids, same) : (value l (codes "parent") ∷ qs ≡ ps) × (rest ≡ more) =
            (ground arith, ground arith) in
          let (eq, valid) = take_parents_lem lines qs rest e' in
          subst
            (λ x.
              (l ∷ lines ≡ map (header (codes "parent")) x ++ more)
              × All (λ p. is_object_id p ≡ true) x)
            qs_ids
            (
              cc (
                has_key-header l (codes "parent") e (object_id-full (value l (codes "parent")) t),
                eq,
                same,
              ),
              (t, valid),
            )
      | inr (bad, e') ↦ absurd (ground arith)
    ]
    | inr t ↦ absurd (ground arith)
  ]
  | inr e ↦
      let (none_, same) : ([] ≡ ps) × (l ∷ lines ≡ more) = (ground arith, ground arith) in
      rw (← none_, same) (refl, tt)
]

check_remaining_lem :
    (lines : List Str)
    → check_remaining lines ≡ ok tt
    → All (λ l. is_signature l ≡ false) lines × All (λ l. is_duplicate l ≡ false) lines
unfolding check_remaining
check_remaining_lem [] h = (tt, tt)
check_remaining_lem (l ∷ lines) h = elim (Bool-cases (is_signature l)) [
  | inl e ↦ absurd (cc (rw e at h))
  | inr e ↦ elim (Bool-cases (is_duplicate l)) [
    | inl e' ↦ absurd (cc (rw (e, e') at h))
    | inr e' ↦ let (u, s) = check_remaining_lem lines (rw (e, e') at h) in ((e, u), (e', s))
  ]
]

is_identity-some :
    (line : Str) → is_identity line ≡ true → identity_email line ≡ some (email_or_empty line)
is_identity-some line h = elim (Option-cases (identity_email line)) [
  | inl e ↦ absurd (cc (rw (e, is_identity) at h))
  | inr (x, e) ↦ rw (email_or_empty, e) refl
]

identity-full : (s : Str) → is_identity s ≡ true → s ≢ []
unfolding identity_email cut
identity-full [] h = absurd (cc h)
identity-full (c ∷ s) h = λ e. cc e

cut_blank_line-some :
    (s a b : Str) → cut_blank_line s ≡ some (a, b) → s ≡ a ++ newline ∷ newline ∷ b
unfolding cut_blank_line
cut_blank_line-some [] a b h = absurd (cc h)
cut_blank_line-some (x ∷ []) a b h = absurd (cc h)
cut_blank_line-some (x ∷ y ∷ s) a b h = elim (Bool-cases (x == newline && y == newline)) [
  | inl e ↦ ground arith
  | inr e ↦ elim (Option-cases (cut_blank_line (y ∷ s))) [
    | inl n ↦ absurd (ground arith)
    | inr ((a', b'), n) ↦ ground (arith, cut_blank_line-some (y ∷ s) a' b' n)
  ]
]

ok-same : {A E : Type 0} {a b : A} → ◌≡◌ {A = Result E A} (ok a) (ok b) → a ≡ b
ok-same h = ground arith

parse_headers_lem :
    (payload message : Str) (lines : List Str) (headers : Str) (c : Commit)
    → payload ≡ headers ++ newline ∷ newline ∷ message
    → split_header_lines headers ≡ lines
    → parse_headers payload message lines ≡ ok c
    → IsCommit payload c
unfolding parse_headers
parse_headers_lem payload message lines headers c divided split h =
    let ((tree, l₁), e₁, h₁) = then-ok _ _ _ h in
    let ((parents, l₂), e₂, h₂) = then-ok _ _ _ h₁ in
    let ((author, l₃), e₃, h₃) = then-ok _ _ _ h₂ in
    let ((committer, l₄), e₄, h₄) = then-ok _ _ _ h₃ in
    let (_, e₅, h₅) = then-ok (check_remaining l₄) _ c h₄ in
    let (full, h₆) = guard-ok (not (is_empty (email_or_empty committer))) empty_email _ c h₅ in
    let (t, tree_ok) =
      take_header_lem (codes "tree") is_object_id _ _ lines tree l₁ object_id-full e₁ in
    let (p, parents_ok) = take_parents_lem l₁ parents l₂ e₂ in
    let (a, author_ok) =
      take_header_lem (codes "author") is_identity _ _ l₂ author l₃ identity-full e₃ in
    let (k, committer_ok) =
      take_header_lem (codes "committer") is_identity _ _ l₃ committer l₄ identity-full e₄ in
    let (unsigned, single) = check_remaining_lem l₄ e₅ in
    let built : IsCommit payload (record {
      tree = tree;
      parents = parents;
      author = author;
      committer = committer;
      committer_email = email_or_empty committer;
      message = message;
      raw = payload;
    }) =
      record {
        headers = headers;
        others = l₄;
        divided = divided;
        lines = cc (split, t, p, a, k);
        tree_id = tree_ok;
        parent_ids = parents_ok;
        author_email = email_or_empty author;
        author = identity_email-IsIdentity author _ (is_identity-some author author_ok);
        committer = identity_email-IsIdentity committer _ (is_identity-some committer committer_ok);
        has_email = not_empty (email_or_empty committer) full;
        unsigned = unsigned;
        single = single;
        is_raw = refl;
      } in
    subst (IsCommit payload) (ok-same h₆) built

-- A payload that parses is an unsigned commit object with exactly one tree, author and committer,
-- whose fields the result has; the committer's email is that of the committer line and not empty.
pub parse-IsCommit : (payload : Str) (c : Commit) → parse payload ≡ ok c → IsCommit payload c
unfolding parse
parse-IsCommit payload c h = elim (Option-cases (cut_blank_line payload)) [
  | inl n ↦ absurd (cc (rw (n, parse) at h))
  | inr ((headers, message), e) ↦
      parse_headers_lem payload message (split_header_lines headers) headers c
        (cut_blank_line-some payload headers message e) refl (rw (e, parse) at h)
]
