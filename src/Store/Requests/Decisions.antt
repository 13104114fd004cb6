-- ===== src/Store/Requests/Decisions.antt =====
-- A request is decided once, by a named reviewer, and only an approval makes a grant.
use mathlib.Core.Option
use chuvar.Prelude.{
  ◌+◌, ◌*◌, ◌<◌, Str, codes, true, false, ◌≡◌, ◌≢◌, refl, ap, sym, subst, ◌∙◌, ◌⊎◌, inl, inr,
  Option, none, some, List, [], ◌∷◌, ◌++◌, arith, ok, err, Bool-cases, not_empty, All, Elem, ◌==◌,
  ltb→lt, ==→eq, map,
}
use chuvar.Store.Types.{
  RowId, Context, Db, Grant, GrantRow, GrantRequestRow, GrantRequestStatus, not_found,
}
use chuvar.Store.Tables.{
  update_where, count_where, find, find-Elem, transaction-ok, pure-ok, >>=-ok, lift-ok, gets-ok,
  modify-ok, check-ok, modify-last,
}
use chuvar.Store.Audit.{Subjects, no_subjects, audit_row, log_audit}
use chuvar.Store.Grants.{new_grant_row, to_grant, scope_row}
use chuvar.Store.Grants.Creation.{
  FitsKind, validate_scopes-FitsKind, insert_grant_lem, insert_grant_scopes_lem, with_grant,
}
use chuvar.Store.Requests.{
  is_pending, decidable, second, approve_row, deny_row, approve_loaded, approve_grant_request,
  deny_grant_request,
}

-- No row of the request waits for a decision.
abbrev pub Decided : RowId → GrantRequestRow → Type 0
Decided id r = (r.id == id) ≡ true → is_pending r.status ≡ false

Decided-rows :
    (id : RowId) (f : GrantRequestRow → GrantRequestRow) (rows : List GrantRequestRow)
    → ((r : GrantRequestRow) → is_pending (f r).status ≡ false)
    → All (Decided id) (update_where (decidable id) f rows)
unfolding update_where decidable
Decided-rows id f [] settle = tt
Decided-rows id f (r ∷ rows) settle = elim (Bool-cases (decidable id r)) [
  | inl e ↦ rw (e, update_where) ((λ _. settle r), Decided-rows id f rows settle)
  | inr e ↦ rw (e, update_where) ((λ h. ground arith), Decided-rows id f rows settle)
]

none_decidable :
    (id : RowId) (rows : List GrantRequestRow)
    → All (Decided id) rows
    → count_where (decidable id) rows ≡ 0
unfolding count_where decidable
none_decidable id [] h = refl
none_decidable id (r ∷ rows) h = elim (Bool-cases (r.id == id)) [
  | inl e ↦ rw (e, h.0 e) (none_decidable id rows h.1)
  | inr e ↦ rw e (none_decidable id rows h.1)
]

found-Decided :
    (id : RowId) (rows : List GrantRequestRow) (r : GrantRequestRow)
    → All (Decided id) rows
    → find (λ x. x.id == id) rows ≡ some r
    → is_pending r.status ≡ false
unfolding find
found-Decided id [] r h e = absurd (cc e)
found-Decided id (x ∷ rows) r h e = elim (Bool-cases (x.id == id)) [
  | inl hit ↦ ground (arith, h.0 hit)
  | inr miss ↦ found-Decided id rows r h.1 (rw miss at e)
]

loaded :
    (found : Option GrantRequestRow) (req : GrantRequestRow)
    → (elim found [ none ↦ err not_found | some r ↦ ok r ]) ≡ ok req
    → found ≡ some req
loaded none req h = absurd (cc h)
loaded (some r) req h = ground arith

-- With no pending row of the request, neither decision can be made.
no_decision :
    {V : Type 0} (ctx : Context) (id : RowId) (by : Str) (db db' : Db V)
    → All (Decided id) db.grant_requests
    → ((g : Grant) → approve_grant_request ctx id by db ≢ (ok g, db'))
      × (deny_grant_request ctx id by db ≢ (ok tt, db'))
unfolding approve_grant_request deny_grant_request approve_loaded
no_decision ctx id by db db' settled = (
  (λ g h.
      let (_, h₁) = check-ok _ _ _ _ _ (transaction-ok _ _ _ _ h) in
      let (req, found, h₂) = lift-ok _ _ _ _ (gets-ok _ _ _ _ h₁) in
      let (waits, _) = check-ok _ _ _ _ _ h₂ in
      cc (waits, found-Decided id db.grant_requests req settled (loaded _ req found))),
  λ h.
      let (_, h₁) = check-ok _ _ _ _ _ (transaction-ok _ _ _ _ h) in
      let (hit, _) = check-ok _ _ _ _ _ (modify-ok _ _ _ _ (gets-ok _ _ _ _ h₁)) in
      absurd (omega (arith, ltb→lt 0 _ hit, none_decidable id db.grant_requests settled)),
)

-- The row of the grant that an approved request gives.
abbrev pub asked_for : Context → GrantRequestRow → GrantRow
asked_for ctx req =
    new_grant_row ctx req.subject req.kind req.depth
      (Option.map (λ ttl. ctx.wall + ttl * second) req.requested_ttl_seconds)

-- The statements of an approval, as one change.
approve_steps :
    {V : Type 0} (ctx : Context) (id : RowId) (scopes : List Str) (event by : Str)
    (ids : RowId → Subjects) (made row : GrantRow) (db db₁ db₂ db' : Db V)
    → row ≡ made
    → db₁ ≡ record db { grants = db.grants ++ made ∷ [] }
    → db₂ ≡ record db₁ { grant_scopes = db₁.grant_scopes ++ map (scope_row row.id) scopes }
    → db' ≡ record db₂ {
      grant_requests = update_where (decidable id) (approve_row ctx by row.id) db₂.grant_requests;
      audit_log = db₂.audit_log ++ audit_row ctx event by (ids row.id) scopes none ∷ [];
    }
    → db' ≡ record (with_grant ctx made scopes event by (ids made.id) db) {
      grant_requests = update_where (decidable id) (approve_row ctx by made.id) db.grant_requests;
    }
unfolding with_grant
approve_steps ctx id scopes event by ids made row db db₁ db₂ db' e₁ e₂ e₃ e₄ = rw (e₄, e₃, e₂, e₁)

-- An approval had a named reviewer and a pending request of that id whose scopes fit its kind. The
-- grant is the request's subject, kind, depth and scopes, with the requested TTL from now; it is
-- stored and audited under both ids, the request is marked with it, and nothing else changes.
pub approve_grant_request_lem :
    {V : Type 0} (ctx : Context) (id : RowId) (by : Str) (db db' : Db V) (g : Grant)
    → approve_grant_request ctx id by db ≡ (ok g, db')
    → (req : GrantRequestRow) × Elem req db.grant_requests
      × (req.id ≡ id)
      × (req.status ≡ GrantRequestStatus.pending)
      × (by ≢ [])
      × All (FitsKind req.kind) req.requested_scopes
      × (g ≡ to_grant (asked_for ctx req) req.requested_scopes)
      × (db'
          ≡ record (with_grant ctx
              (asked_for ctx req)
              req.requested_scopes
              (codes "grant_request_approved")
              by
              (record no_subjects { grant_id = some ctx.new_id; grant_request_id = some id })
              db) {
                grant_requests =
                    update_where (decidable id) (approve_row ctx by ctx.new_id) db.grant_requests;
              })
unfolding approve_grant_request approve_loaded log_audit new_grant_row
approve_grant_request_lem ctx id by db db' g h =
    let (named, h₁) = check-ok _ _ _ _ _ (transaction-ok _ _ _ _ h) in
    let (req, found, h₂) = lift-ok _ _ _ _ (gets-ok _ _ _ _ h₁) in
    let (waits, h₃) = check-ok _ _ _ _ _ h₂ in
    let (_, fits, h₄) = lift-ok _ _ _ _ h₃ in
    let (row, db₁, inserted, h₅) = >>=-ok _ _ _ _ h₄ in
    let (_, db₂, scoped, h₆) = >>=-ok _ _ _ _ h₅ in
    let (hit, h₇) = check-ok _ _ _ _ _ (modify-ok _ _ _ _ (gets-ok _ _ _ _ h₆)) in
    let (made, stored, _, _) = insert_grant_lem _ _ _ _ _ _ _ _ inserted in
    let (eq, final) = pure-ok _ _ _ _ (modify-ok _ _ _ _ h₇) in
    let (there, same) = find-Elem _ _ req (loaded _ req found) in
    (
      req,
      there,
      ==→eq req.id id same,
      ground arith,
      not_empty by named,
      validate_scopes-FitsKind req.kind req.requested_scopes fits,
      eq ∙ ap (λ r. to_grant r req.requested_scopes) made,
      approve_steps _ _ _ _ _
          (λ new. record no_subjects { grant_id = some new; grant_request_id = some id }) _ _ _ _ _
          _ made stored (insert_grant_scopes_lem row.id req.requested_scopes db₁ db₂ scoped) final,
    )

-- A denial had a named reviewer. It marks the pending rows of the request as denied and adds one
-- audit row; grants and everything else stay as they are.
pub deny_grant_request_lem :
    {V : Type 0} (ctx : Context) (id : RowId) (by : Str) (db db' : Db V)
    → deny_grant_request ctx id by db ≡ (ok tt, db')
    → (by ≢ [])
      × (0 < count_where (decidable id) db.grant_requests)
      × (db' ≡ record db {
        grant_requests = update_where (decidable id) (deny_row ctx by) db.grant_requests;
        audit_log =
            db.audit_log
            ++ audit_row ctx
                (codes "grant_request_denied")
                by
                (record no_subjects { grant_request_id = some id })
                []
                none
              ∷ [];
      })
unfolding deny_grant_request log_audit
deny_grant_request_lem ctx id by db db' h =
    let (named, h₁) = check-ok _ _ _ _ _ (transaction-ok _ _ _ _ h) in
    let (hit, h₂) = check-ok _ _ _ _ _ (modify-ok _ _ _ _ (gets-ok _ _ _ _ h₁)) in
    (not_empty by named, ltb→lt 0 _ hit, modify-last _ _ _ _ h₂)

settled_by_approval :
    {V : Type 0} (ctx : Context) (id : RowId) (by : Str) (db db' : Db V) (g : Grant)
    → approve_grant_request ctx id by db ≡ (ok g, db')
    → All (Decided id) db'.grant_requests
unfolding approve_row
settled_by_approval ctx id by db db' g h =
    let (_, _, _, _, _, _, _, final) = approve_grant_request_lem ctx id by db db' g h in
    subst (λ d. All (Decided id) d.grant_requests) (sym final)
      (Decided-rows id _ db.grant_requests (λ r. refl))

settled_by_denial :
    {V : Type 0} (ctx : Context) (id : RowId) (by : Str) (db db' : Db V)
    → deny_grant_request ctx id by db ≡ (ok tt, db')
    → All (Decided id) db'.grant_requests
unfolding deny_row
settled_by_denial ctx id by db db' h =
    let (_, _, final) = deny_grant_request_lem ctx id by db db' h in
    subst (λ d. All (Decided id) d.grant_requests) (sym final)
      (Decided-rows id _ db.grant_requests (λ r. refl))

-- Once a request is approved or denied, no reviewer can approve or deny it again.
pub decided_once :
    {V : Type 0} (ctx ctx' : Context) (id : RowId) (by by' : Str) (db db₁ db₂ : Db V)
    → ((g : Grant) × (approve_grant_request ctx id by db ≡ (ok g, db₁)))
      ⊎ (deny_grant_request ctx id by db ≡ (ok tt, db₁))
    → ((g : Grant) → approve_grant_request ctx' id by' db₁ ≢ (ok g, db₂))
      × (deny_grant_request ctx' id by' db₁ ≢ (ok tt, db₂))
decided_once ctx ctx' id by by' db db₁ db₂ (inl (g, h)) =
    no_decision ctx' id by' db₁ db₂ (settled_by_approval ctx id by db db₁ g h)
decided_once ctx ctx' id by by' db db₁ db₂ (inr h) =
    no_decision ctx' id by' db₁ db₂ (settled_by_denial ctx id by db db₁ h)
