-- ===== src/Store/Grants/Scopes.antt =====
-- Which scopes a subject's grants give it, and at which depth.
use chuvar.Prelude.{
  Str, true, ◌≡◌, ◌<◌, ltb, lt→ltb, str_eq_refl, Option-cases, refl, ap, ◌⊎◌, inl, inr, none, some,
  List, [], ◌∷◌, arith, str_eq_iff, Bool-cases, any, any-Elem, Any, ◌↔◌, Elem, if◌then◌else◌,
  keep_if,
}
use chuvar.Store.Types.{Time, Db, GrantRow, GrantedScope, memory}
use chuvar.Store.Grants.{
  unexpired, gives_scopes, list_grant_scopes, depth_or_empty, add_granted, granted_from,
  granted_scope_depths, same_granted,
}

-- The grant is one of the subject that is in force: a memory grant with this depth that is neither
-- revoked nor expired at that time.
pub record InForceFor (now : Time) (subject depth : Str) (g : GrantRow) : Type 0 where
  pub holder : g.subject ≡ subject
  pub is_memory : g.kind ≡ memory
  pub at_depth : g.depth ≡ some depth
  pub unrevoked : g.revoked_at ≡ none
  pub alive : (t : Time) → g.expires_at ≡ some t → now < t

-- The grant is in force for the subject at the pair's depth, and has its scope stored.
abbrev pub Gives : {V : Type 0} → Time → Str → Db V → GrantedScope → GrantRow → Type 0
Gives now subject db x g =
    InForceFor now subject x.depth g × Elem x.scope (list_grant_scopes g.id db.grant_scopes)

gives-InForceFor :
    (now : Time) (subject depth : Str) (g : GrantRow)
    → gives_scopes now subject g ≡ true
    → depth ≡ depth_or_empty g.depth
    → InForceFor now subject depth g
unfolding gives_scopes unexpired depth_or_empty
gives-InForceFor now subject depth g h d = record {
  holder = ground (arith, str_eq_iff g.subject subject);
  is_memory = ground (arith, str_eq_iff g.kind memory);
  at_depth = ground arith;
  unrevoked = ground arith;
  alive = λ t e. ground arith;
}

InForceFor-gives :
    (now : Time) (subject depth : Str) (g : GrantRow)
    → InForceFor now subject depth g
    → (gives_scopes now subject g ≡ true) × (depth ≡ depth_or_empty g.depth)
unfolding gives_scopes unexpired depth_or_empty
InForceFor-gives now subject depth g h = elim (Option-cases g.expires_at) [
  | inl e ↦
      rw
        (
          gives_scopes,
          depth_or_empty,
          h.holder,
          h.is_memory,
          h.at_depth,
          h.unrevoked,
          e,
          str_eq_refl subject,
          str_eq_refl memory,
        )
        (refl, refl)
  | inr (t, e) ↦
      let in_time : ltb now t ≡ true = lt→ltb now t (h.alive t e) in
      rw
        (
          gives_scopes,
          depth_or_empty,
          h.holder,
          h.is_memory,
          h.at_depth,
          h.unrevoked,
          e,
          str_eq_refl subject,
          str_eq_refl memory,
          in_time,
        )
        (refl, refl)
]

abbrev pair_of : Str → Str → GrantedScope
pair_of depth s = record { scope = s; depth = depth }

same_granted-eq : (a b : GrantedScope) → same_granted a b ≡ true → a ≡ b
unfolding same_granted
same_granted-eq a b h = ground (arith, str_eq_iff a.scope b.scope, str_eq_iff a.depth b.depth)

-- the new pair is in the list either way
add_granted_step :
    (depth s : Str) (there : List GrantedScope) (x : GrantedScope)
    → Elem x (if any (same_granted (pair_of depth s)) there then there else pair_of depth s ∷ there)
      ↔ ((x ≡ pair_of depth s) ⊎ Elem x there)
add_granted_step depth s there x = elim (Bool-cases (any (same_granted (pair_of depth s)) there)) [
  | inl old ↦ rw old (
    (λ m. inr m),
    λ m. elim m [
      | inl e ↦ rw e (any-Elem _ _ there (same_granted-eq (pair_of depth s)) old)
      | inr y ↦ y
    ],
  )
  | inr new ↦ rw new ((λ m. m), λ m. m)
]

add_granted_iff :
    (depth : Str) (scopes : List Str) (rest : List GrantedScope) (x : GrantedScope)
    → Elem x (add_granted depth scopes rest)
      ↔ (((x.depth ≡ depth) × Elem x.scope scopes) ⊎ Elem x rest)
unfolding add_granted
add_granted_iff depth [] rest x = ((λ m. inr m), λ m. elim m [ inl y ↦ absurd y.1 | inr y ↦ y ])
add_granted_iff depth (s ∷ scopes) rest x =
    let step = add_granted_step depth s (add_granted depth scopes rest) x in
    let ih = add_granted_iff depth scopes rest x in
    (
      (λ m. elim (step.0 m) [
        | inl e ↦ inl ((ap (λ y. y.depth) e, inl (ap (λ y. y.scope) e)))
        | inr there ↦ elim (ih.0 there) [ inl y ↦ inl (y.0, inr y.1) | inr y ↦ inr y ]
      ]),
      λ m. step.1 (elim m [
        | inl (d, inl e) ↦ inl (λ i. record { scope = e i; depth = d i })
        | inl (d, inr y) ↦ inr (ih.1 (inl (d, y)))
        | inr y ↦ inr (ih.1 (inr y))
      ]),
    )

granted_from_iff :
    {V : Type 0} (now : Time) (subject : Str) (db : Db V) (x : GrantedScope)
    (grants : List GrantRow)
    → Elem x (granted_from (keep_if (gives_scopes now subject) grants) db.grant_scopes)
      ↔ Any (Gives now subject db x) grants
unfolding granted_from
granted_from_iff now subject db x [] = ((λ m. m), λ m. m)
granted_from_iff now subject db x (g ∷ grants) = elim (Bool-cases (gives_scopes now subject g)) [
  | inl e ↦
      let rest = granted_from_iff now subject db x grants in
      let step =
        add_granted_iff (depth_or_empty g.depth) (list_grant_scopes g.id db.grant_scopes)
          (granted_from (keep_if (gives_scopes now subject) grants) db.grant_scopes) x in
      rw (e, keep_if)
        (
          (λ m. elim (step.0 m) [
            | inl y ↦ inl (gives-InForceFor now subject x.depth g e y.0, y.1)
            | inr y ↦ inr (rest.0 y)
          ]),
          λ m. step.1 (elim m [
            | inl y ↦ inl ((InForceFor-gives now subject x.depth g y.0).1, y.1)
            | inr y ↦ inr (rest.1 y)
          ]),
        )
  | inr e ↦
      let rest = granted_from_iff now subject db x grants in
      rw (e, keep_if)
        (
          (λ m. inr (rest.0 m)),
          λ m. elim m [
            | inl y ↦ absurd (cc ((InForceFor-gives now subject x.depth g y.0).0, e))
            | inr y ↦ rest.1 y
          ],
        )
]

-- A subject is granted a scope at a depth exactly when some row of grants is the subject's, of the
-- memory kind, at that depth, not revoked, without an expiry or with one that is still to come, and
-- has the scope stored.
pub granted_scope_depths_iff :
    {V : Type 0} (now : Time) (subject : Str) (db : Db V) (x : GrantedScope)
    → Elem x (granted_scope_depths now subject db) ↔ Any (Gives now subject db x) db.grants
unfolding granted_scope_depths
granted_scope_depths_iff now subject db x = granted_from_iff now subject db x db.grants
