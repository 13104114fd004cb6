-- ===== src/Store/Grants/Authority.antt =====
-- What revoking and renewing do to the grants, and what a grant row keeps through any change.
use chuvar.Prelude.{
  Str, codes, Bool, true, ◌≡◌, ◌≢◌, ltb, refl, ap, sym, subst, ◌∙◌, ◌⊎◌, inl, inr, Option, none,
  some, List, [], ◌∷◌, ◌++◌, arith, ok, err, ℤ, is_positive, str_eq_iff, Bool-cases, not_empty, Any,
  ◌↔◌, Elem,
}
use chuvar.Store.Types.{RowId, Time, Context, Db, Grant, GrantRow, memory, not_renewable}
use chuvar.Store.Tables.{
  update_where, count_where, find, find-Elem, transaction-ok, pure-ok, lift-ok, gets-ok, modify-ok,
  check-ok, modify-last,
}
use chuvar.Store.Audit.{no_subjects, audit_row, log_audit}
use chuvar.Store.Grants.{
  revoke_grant, renew_grant, revocable, renewable, unexpired, to_grant, list_grant_scopes,
  add_duration,
}

-- A row of grants after a change: the same grant, and a revocation that was there still is, with
-- its time.
pub record Continues (old new : GrantRow) : Type 0 where
  pub same_id : new.id ≡ old.id
  pub same_subject : new.subject ≡ old.subject
  pub same_kind : new.kind ≡ old.kind
  pub same_depth : new.depth ≡ old.depth
  pub revoked : (old.revoked_at ≡ none) ⊎ (new.revoked_at ≡ old.revoked_at)

-- Each old row goes on at its place; new rows come behind them.
abbrev pub Evolves : List GrantRow → List GrantRow → Type 0
Evolves [] new = Unit
Evolves (g ∷ old) [] = ⊥
Evolves (g ∷ old) (h ∷ new) = Continues g h × Evolves old new

Continues-refl : (g : GrantRow) → Continues g g
Continues-refl g = ground arith

Continues-trans : (a b c : GrantRow) → Continues a b → Continues b c → Continues a c
Continues-trans a b c h k = ground arith

pub Evolves-refl : (gs : List GrantRow) → Evolves gs gs
Evolves-refl [] = tt
Evolves-refl (g ∷ gs) = (Continues-refl g, Evolves-refl gs)

pub Evolves-append : (gs new : List GrantRow) → Evolves gs (gs ++ new)
Evolves-append [] new = tt
Evolves-append (g ∷ gs) new = (Continues-refl g, Evolves-append gs new)

pub Evolves-trans : (xs ys zs : List GrantRow) → Evolves xs ys → Evolves ys zs → Evolves xs zs
Evolves-trans [] ys zs h k = tt
Evolves-trans (x ∷ xs) [] zs h k = absurd h
Evolves-trans (x ∷ xs) (y ∷ ys) [] h k = absurd k
Evolves-trans (x ∷ xs) (y ∷ ys) (z ∷ zs) h k =
    (Continues-trans x y z h.0 k.0, Evolves-trans xs ys zs h.1 k.1)

pub Evolves-update :
    (p : GrantRow → Bool) (f : GrantRow → GrantRow) (gs : List GrantRow)
    → ((g : GrantRow) → p g ≡ true → Continues g (f g))
    → Evolves gs (update_where p f gs)
unfolding update_where
Evolves-update p f [] h = tt
Evolves-update p f (g ∷ gs) h = elim (Bool-cases (p g)) [
  | inl e ↦ rw (e, update_where) (h g e, Evolves-update p f gs h)
  | inr e ↦ rw (e, update_where) (Continues-refl g, Evolves-update p f gs h)
]

pub revoke-Evolves :
    (now : Time) (id : RowId) (gs : List GrantRow)
    → Evolves gs (update_where (revocable id) (λ g. record g { revoked_at = some now }) gs)
unfolding revocable
revoke-Evolves now id gs = Evolves-update _ _ gs (λ g e. ground arith)

pub renew-Evolves :
    (now : Time) (id : RowId) (new : Option Time) (gs : List GrantRow)
    → Evolves gs (update_where (renewable now id) (λ g. record g { expires_at = new }) gs)
renew-Evolves now id new gs = Evolves-update _ _ gs (λ g e. ground arith)

-- What a revocation at a time makes of each row: a row of the grant that was not revoked is revoked
-- then, one that was keeps its time, and a row of another grant stays as it is.
pub record RevokedRow (now : Time) (id : RowId) (old new : GrantRow) : Type 0 where
  pub others : old.id ≢ id → new ≡ old
  pub fresh : old.id ≡ id → old.revoked_at ≡ none → new ≡ record old { revoked_at = some now }
  pub again : (t : Time) → old.revoked_at ≡ some t → new ≡ old

abbrev pub RevokedRows : Time → RowId → List GrantRow → List GrantRow → Type 0
RevokedRows now id [] [] = Unit
RevokedRows now id [] (h ∷ new) = ⊥
RevokedRows now id (g ∷ old) [] = ⊥
RevokedRows now id (g ∷ old) (h ∷ new) = RevokedRow now id g h × RevokedRows now id old new

abbrev revoke_at : Time → GrantRow → GrantRow
revoke_at now g = record g { revoked_at = some now }

revocable_iff :
    (id : RowId) (g : GrantRow) → (revocable id g ≡ true) ↔ ((g.id ≡ id) × (g.revoked_at ≡ none))
unfolding revocable
revocable_iff id g = ((λ h. (ground arith, ground arith)), λ (h, k). ground arith)

revoked_rows :
    (now : Time) (id : RowId) (gs : List GrantRow)
    → RevokedRows now id gs (update_where (revocable id) (revoke_at now) gs)
unfolding update_where
revoked_rows now id [] = tt
revoked_rows now id (g ∷ gs) = elim (Bool-cases (revocable id g)) [
  | inl e ↦
      let (same, unset) = (revocable_iff id g).0 e in
      rw (e, update_where)
        (
          record {
            others = λ differ. absurd (differ same);
            fresh = λ _ _. refl;
            again = λ t k. absurd (cc (unset, k));
          },
          revoked_rows now id gs,
        )
  | inr e ↦
      rw (e, update_where)
        (
          record {
            others = λ _. refl;
            fresh = λ same unset. absurd (cc ((revocable_iff id g).1 (same, unset), e));
            again = λ _ _. refl;
          },
          revoked_rows now id gs,
        )
]

-- Some row of the grant is not revoked.
abbrev pub InForce : RowId → List GrantRow → Type 0
InForce id gs = Any (λ g. (g.id ≡ id) × (g.revoked_at ≡ none)) gs

counted :
    (id : RowId) (gs : List GrantRow) → ltb 0 (count_where (revocable id) gs) ≡ true → InForce id gs
unfolding count_where
counted id [] h = absurd (cc h)
counted id (g ∷ gs) h = elim (Bool-cases (revocable id g)) [
  | inl e ↦ inl ((revocable_iff id g).0 e)
  | inr e ↦ inr (counted id gs (rw e at h))
]

-- A successful revocation had a named actor, and a row of that grant that was not revoked. After it
-- each such row is revoked as of the transaction's time, of whatever kind it is, a row that was
-- revoked before keeps its time, the rows of all other grants are as they were, and nothing but
-- grants and the audit log has changed.
pub revoke_grant_lem :
    {V : Type 0} (ctx : Context) (id : RowId) (actor : Str) (db db' : Db V)
    → revoke_grant ctx id actor db ≡ (ok tt, db')
    → (actor ≢ [])
      × InForce id db.grants
      × RevokedRows ctx.db_now id db.grants db'.grants
      × (db' ≡ record db {
        grants = db'.grants;
        audit_log =
            db.audit_log
            ++ audit_row ctx
                (codes "grant_revoked")
                actor
                (record no_subjects { grant_id = some id })
                []
                none
              ∷ [];
      })
unfolding revoke_grant log_audit
revoke_grant_lem ctx id actor db db' h =
    let (named, h₁) = check-ok _ _ _ _ _ (transaction-ok _ _ _ _ h) in
    let (hit, h₂) = check-ok _ _ _ _ _ (modify-ok _ _ _ _ (gets-ok _ _ _ _ h₁)) in
    let final = modify-last _ _ _ _ h₂ in
    (
      not_empty actor named,
      counted id db.grants hit,
      subst (RevokedRows ctx.db_now id db.grants) (sym (ap (λ d. d.grants) final))
          (revoked_rows ctx.db_now id db.grants),
      rw final,
    )

-- the row that the UPDATE returns is a found one with its new expiry
renewed_row :
    (new : Option Time) (row' : GrantRow) (found : Option GrantRow)
    → (elim found [ none ↦ err not_renewable | some g ↦ ok (record g { expires_at = new }) ])
      ≡ ok row'
    → (row : GrantRow) × (found ≡ some row) × (row' ≡ record row { expires_at = new })
renewed_row new row' none h = absurd (cc h)
renewed_row new row' (some g) h = (g, refl, ground arith)

-- A renewed grant was a memory grant, not revoked and not expired at the transaction's time; the
-- TTL is positive and the actor named; its new expiry is TTL from now, and nothing else changes but
-- the audit log.
pub renew_grant_lem :
    {V : Type 0} (ctx : Context) (id : RowId) (ttl : ℤ) (actor : Str) (db db' : Db V) (g : Grant)
    → renew_grant ctx id ttl actor db ≡ (ok g, db')
    → (row : GrantRow) × Elem row db.grants
      × (row.id ≡ id)
      × (row.kind ≡ memory)
      × (row.revoked_at ≡ none)
      × (unexpired ctx.db_now row.expires_at ≡ true)
      × (is_positive ttl ≡ true)
      × (actor ≢ [])
      × (g
          ≡ to_grant
              (record row { expires_at = some (add_duration ctx.wall ttl) })
              (list_grant_scopes id db.grant_scopes))
      × (db' ≡ record db {
        grants =
            update_where
              (renewable ctx.db_now id)
              (λ r. record r { expires_at = some (add_duration ctx.wall ttl) })
              db.grants;
        audit_log =
            db.audit_log
            ++ audit_row ctx
                (codes "grant_renewed")
                actor
                (record no_subjects { grant_id = some id })
                (list_grant_scopes id db.grant_scopes)
                none
              ∷ [];
      })
unfolding renew_grant log_audit renewable
renew_grant_lem ctx id ttl actor db db' g h =
    let (named, h₁) = check-ok _ _ _ _ _ (transaction-ok _ _ _ _ h) in
    let (positive, h₂) = check-ok _ _ _ _ _ h₁ in
    let (row', found, h₃) = lift-ok _ _ _ _ (gets-ok _ _ _ _ h₂) in
    let (eq, final) =
      pure-ok _ _ _ _ (modify-ok _ _ _ _ (gets-ok _ _ _ _ (modify-ok _ _ _ _ h₃))) in
    let (row, hit, same) =
      renewed_row (some (add_duration ctx.wall ttl)) row' (find (renewable ctx.db_now id) db.grants)
        found in
    let (there, passes) = find-Elem _ _ row hit in
    (
      row,
      there,
      ground arith,
      ground (arith, str_eq_iff row.kind memory),
      ground arith,
      ground arith,
      positive,
      not_empty actor named,
      eq ∙ ap (λ r. to_grant r (list_grant_scopes id db.grant_scopes)) same,
      final,
    )
