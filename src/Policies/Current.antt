-- ===== src/Policies/Current.antt =====
-- The policy of a repository is the one that was set last.
use chuvar.Prelude.{
  Str, codes, true, false, not, ◌≡◌, ◌≢◌, refl, ap, sym, ◌∙◌, inl, inr, some, none, List, [], ◌∷◌,
  ◌++◌, ok, any, is_empty, str_eq, str_eq_refl, str_eq_iff, Bool-cases, Option-cases, arith,
  not_empty, Option,
}
use chuvar.Store.Types.{Context}
use chuvar.Store.Tables.{find, update_where}
use chuvar.Store.Audit.{no_subjects, audit_row}
use chuvar.Auth.Action.{◌>>=◌, atomically-ok, gets-ok, lift-ok, modify-ok, check-ok, pure-ok}
use chuvar.Policies.{
  Policy, PolicyDb, of_repo, set_policy, new_policy, upsert_rows, row_or, get_signing_policy,
  upsert_signing_policy, valid_signing_policy, sign_scope,
}

other_row :
    (repo other : Str) (p : Policy)
    → (str_eq repo other) ≡ false
    → of_repo repo p ≡ true
    → of_repo other p ≡ false
unfolding of_repo
other_row repo other p differ hit =
    ground (arith, str_eq_iff p.repo repo, str_eq_iff p.repo other, str_eq_iff repo other)

module _ (ctx : Context) (repo policy set_by other : Str) (differ : str_eq repo other ≡ false) where
  set-of_repo : (r : Str) (p : Policy) → of_repo r (set_policy ctx policy set_by p) ≡ of_repo r p
  unfolding of_repo set_policy
  set-of_repo r p = refl

  updated_others :
      (rows : List Policy)
      → find (of_repo other) (update_where (of_repo repo) (set_policy ctx policy set_by) rows)
        ≡ find (of_repo other) rows
  unfolding find update_where
  updated_others [] = refl
  updated_others (p ∷ rows) = elim (Bool-cases (of_repo repo p)) [
    | inl e ↦
        let miss = other_row repo other p differ e in
        rw (e, find, set-of_repo other p, miss) (updated_others rows)
    | inr e ↦ elim (Bool-cases (of_repo other p)) [
      | inl hit ↦ rw (e, find, hit)
      | inr miss ↦ rw (e, find, miss) (updated_others rows)
    ]
  ]

  new-of_repo : of_repo repo (new_policy ctx repo policy set_by) ≡ true
  unfolding of_repo new_policy
  new-of_repo = str_eq_refl repo

  appended_others :
      (rows : List Policy)
      → find (of_repo other) (rows ++ new_policy ctx repo policy set_by ∷ [])
        ≡ find (of_repo other) rows
  unfolding find
  appended_others [] =
      rw (other_row repo other (new_policy ctx repo policy set_by) differ new-of_repo)
  appended_others (p ∷ rows) = elim (Bool-cases (of_repo other p)) [
    | inl e ↦ rw e
    | inr e ↦ rw e (appended_others rows)
  ]

  others_kept :
      (rows : List Policy)
      → find (of_repo other) (upsert_rows ctx repo policy set_by rows) ≡ find (of_repo other) rows
  unfolding upsert_rows
  others_kept rows = elim (Bool-cases (any (of_repo repo) rows)) [
    | inl e ↦ rw e (updated_others rows)
    | inr e ↦ rw e (appended_others rows)
  ]

-- What a setting of a policy has made of it.
pub record SetNow (ctx : Context) (repo policy set_by : Str) (p : Policy) : Type 0 where
  pub named : p.repo ≡ repo
  pub value : p.policy ≡ policy
  pub actor : p.set_by ≡ set_by
  pub now : p.updated_at ≡ ctx.db_now

module _ (ctx : Context) (repo policy set_by : Str) where
  updated_own :
      (rows : List Policy)
      → any (of_repo repo) rows ≡ true
      → (p : Policy) × (find
            (of_repo repo)
            (update_where (of_repo repo) (set_policy ctx policy set_by) rows)
          ≡ some p)
        × SetNow ctx repo policy set_by p
  unfolding find update_where of_repo set_policy
  updated_own [] h = absurd (cc h)
  updated_own (p ∷ rows) h = elim (Bool-cases (str_eq p.repo repo)) [
    | inl e ↦ (
      set_policy ctx policy set_by p,
      rw (e, find, of_repo, e),
      record { named = (str_eq_iff p.repo repo).0 e; value = refl; actor = refl; now = refl },
    )
    | inr e ↦
        let (q, found, set) = updated_own rows (rw e at h) in
        (q, rw (e, find, of_repo, e) found, set)
  ]

  appended_own :
      (rows : List Policy)
      → any (of_repo repo) rows ≡ false
      → find (of_repo repo) (rows ++ new_policy ctx repo policy set_by ∷ [])
        ≡ some (new_policy ctx repo policy set_by)
  unfolding find of_repo new_policy
  appended_own [] h = rw (str_eq_refl repo)
  appended_own (p ∷ rows) h = elim (Bool-cases (str_eq p.repo repo)) [
    | inl e ↦ absurd (cc (rw e at h))
    | inr e ↦ rw e (appended_own rows (rw e at h))
  ]

  upserted :
      (rows : List Policy)
      → (p : Policy) × (find (of_repo repo) (upsert_rows ctx repo policy set_by rows) ≡ some p)
        × SetNow ctx repo policy set_by p
  unfolding upsert_rows new_policy
  upserted rows = elim (Bool-cases (any (of_repo repo) rows)) [
    | inl e ↦ let (p, found, set) = updated_own rows e in (p, rw e found, set)
    | inr e ↦ (
      new_policy ctx repo policy set_by,
      rw e (appended_own rows e),
      record { named = refl; value = refl; actor = refl; now = refl },
    )
  ]

read-some :
    (repo : Str) (db : PolicyDb) (p : Policy)
    → find (of_repo repo) db.policies ≡ some p
    → get_signing_policy repo db ≡ (ok p, db)
unfolding get_signing_policy row_or ◌>>=◌
read-some repo db p e = rw e

read-same :
    (repo : Str) (db db' : PolicyDb)
    → find (of_repo repo) db'.policies ≡ find (of_repo repo) db.policies
    → (get_signing_policy repo db').0 ≡ (get_signing_policy repo db).0
unfolding get_signing_policy row_or ◌>>=◌
read-same repo db db' e = elim (Option-cases (find (of_repo repo) db.policies)) [
  | inl k ↦ rw (e, k)
  | inr (p, k) ↦ rw (e, k)
]

row_or-ok :
    {E : Type 0} (e : E) (row : Option Policy) (p : Policy) → row_or e row ≡ ok p → row ≡ some p
unfolding row_or
row_or-ok e none p h = absurd (cc h)
row_or-ok e (some q) p h = cc h

apart_false : (s t : Str) → s ≢ t → str_eq s t ≡ false
apart_false s t d = elim (Bool-cases (str_eq s t)) [
  | inl e ↦ absurd (d ((str_eq_iff s t).0 e))
  | inr e ↦ e
]

module _ (marshal : Str → Str → Str) (ctx : Context) (repo policy set_by : Str) where
  -- What a setting that succeeded leaves.
  abbrev after : PolicyDb → PolicyDb
  after db = record {
    policies = upsert_rows ctx repo policy set_by db.policies;
    audit_log =
        db.audit_log
        ++ audit_row ctx (codes "signing_policy_set") set_by no_subjects (sign_scope repo ∷ [])
            (some (marshal repo policy))
          ∷ [];
  }

  upsert-ok :
      (db db' : PolicyDb) (p : Policy)
      → upsert_signing_policy marshal ctx repo policy set_by db ≡ (ok p, db')
      → (valid_signing_policy policy ≡ true)
        × (not (is_empty set_by) ≡ true)
        × (find (of_repo repo) (upsert_rows ctx repo policy set_by db.policies) ≡ some p)
        × (db' ≡ after db)
  unfolding upsert_signing_policy
  upsert-ok db db' p h =
      let (_, e₁) = check-ok _ _ _ _ _ _ h in
      let (valid, e₂) = check-ok _ _ _ _ _ _ e₁ in
      let (named, e₃) = check-ok _ _ _ _ _ _ e₂ in
      let e₄ = modify-ok _ _ _ _ _ (atomically-ok _ _ _ _ e₃) in
      let e₅ = gets-ok _ _ _ _ _ e₄ in
      let (q, found, e₆) = lift-ok _ _ _ _ _ e₅ in
      let (same, state) = pure-ok _ _ _ _ (modify-ok _ _ _ _ _ e₆) in
      (valid, named, row_or-ok _ _ q found ∙ ap (λ x. some x) (sym same), state)

  -- A signing policy that is set is the one that is read: the setting had a policy of the three and
  -- a named reviewer, the row that it returns has just these and its time and is what the
  -- repository's policy reads from then on, every other repository's reads as before, and one audit
  -- row names the reviewer and the repository's scope.
  pub upsert_policy_lem :
      (db db' : PolicyDb) (p : Policy)
      → upsert_signing_policy marshal ctx repo policy set_by db ≡ (ok p, db')
      → SetNow ctx repo policy set_by p
        × (valid_signing_policy policy ≡ true)
        × (set_by ≢ [])
        × (get_signing_policy repo db' ≡ (ok p, db'))
        × ((other : Str)
            → repo ≢ other
            → (get_signing_policy other db').0 ≡ (get_signing_policy other db).0)
        × (db'.audit_log ≡ (after db).audit_log)
  upsert_policy_lem db db' p h =
      let (valid, named, found, state) = upsert-ok db db' p h in
      let (q, found', set) = upserted ctx repo policy set_by db.policies in
      let same : p ≡ q = cc (found, found') in
      (
        rw same set,
        valid,
        not_empty set_by named,
        read-some repo db' p (rw state found),
        (λ other differ. read-same other db db' (
            rw state (
              others_kept ctx repo policy set_by other (apart_false repo other differ)
                db.policies))),
        ap (λ d. d.audit_log) state,
      )
