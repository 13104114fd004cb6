-- ===== src/Store/Listing.antt =====
-- backend/internal/store: the listings by pages, ListGrantsPage (grants.go) and ListStagedDiffsPage
-- with ListStagedDiffsBounded (staged_diffs.go), their queries, and the cursor that
-- backend/internal/api (pagination.go) gives back.
pub mod Order
pub mod Paging
pub mod Completeness
use chuvar.Prelude.{
  ℕ, zero, suc, Str, Bool, true, false, ◌&&◌, ◌||◌, Option, none, some, List, [], ◌∷◌, ◌++◌, Result,
  ok, err, keep_if, take, length, map, str_eq, ltb, ◌==◌, if◌then◌else◌, ℤ, pos, negsuc,
  is_positive,
}
use chuvar.Store.Types.{
  RowId, Time, Db, Grant, GrantRow, StagedDiff, DiffStatus, StoreError, limit_not_positive,
}
use chuvar.Store.Grants.{to_grant, list_grant_scopes}

pub record ListCursor : Type 0 where
  pub created_at : Time
  pub id : RowId

-- (a.created_at, a.id) < (b.created_at, b.id)
unfoldable pub earlier : ListCursor → ListCursor → Bool
earlier a b = ltb a.created_at b.created_at || (a.created_at == b.created_at && ltb a.id b.id)

abbrev pub prepend : {A : Type 0} → List A → Option (List A) → Option (List A)
prepend items none = none
prepend items (some rest) = some (items ++ rest)

unfoldable pub later : ListCursor → ListCursor → Bool
unfolding earlier
later a b = earlier b a

module _ {A : Type 0} (key : A → ListCursor) (before : ListCursor → ListCursor → Bool) where
  unfoldable pub insert_by : A → List A → List A
  insert_by x [] = x ∷ []
  insert_by x (y ∷ ys) =
      let rest = insert_by x ys in if before (key y) (key x) then y ∷ rest else x ∷ y ∷ ys

  -- ORDER BY created_at, id, both ascending or both descending
  unfoldable pub order_by : List A → List A
  unfolding insert_by
  order_by [] = []
  order_by (x ∷ xs) = insert_by x (order_by xs)

  -- The condition on the cursor; none is the first page.
  unfoldable pub past : Option ListCursor → A → Bool
  past none a = true
  past (some c) a = before c (key a)

  -- A query for one row more than the limit, and what becomes of its rows.
  unfoldable pub keyset_page : ℕ → Option ListCursor → List A → List A × Bool
  unfolding order_by past
  keyset_page limit cursor rows =
      let found = take (suc limit) (order_by (keep_if (past cursor) rows)) in
      let has_more = ltb limit (length found) in
      (if has_more then take limit found else found, has_more)

module _ {A : Type 0} (key : A → ListCursor) where
  -- The cursor of a page's last row, if there are more.
  unfoldable pub next_cursor : List A → Bool → Option ListCursor
  next_cursor [] has_more = none
  next_cursor (x ∷ []) has_more = if has_more then some (key x) else none
  next_cursor (x ∷ y ∷ ys) has_more = next_cursor (y ∷ ys) has_more

  -- A client that asks for page after page, at most as many as it has fuel for.
  unfoldable pub follow :
      (Option ListCursor → Result StoreError (List A × Bool))
      → ℕ
      → Option ListCursor
      → Option (List A)
  unfolding next_cursor
  follow page zero cursor = none
  follow page (suc n) cursor = elim (page cursor) [
    | err _ ↦ none
    | ok (items, has_more) ↦ elim (next_cursor items has_more) [
      | none ↦ some items
      | some c ↦ prepend items (follow page n (some c))
    ]
  ]

abbrev pub size_of : ℤ → ℕ
size_of (pos n) = n
size_of (negsuc n) = 0

unfoldable pub grant_key : Grant → ListCursor
grant_key g = record { created_at = g.created_at; id = g.id }

unfoldable pub diff_key : StagedDiff → ListCursor
diff_key d = record { created_at = d.created_at; id = d.id }

unfoldable pub same_status : DiffStatus → DiffStatus → Bool
same_status DiffStatus.pending DiffStatus.pending = true
same_status DiffStatus.approved DiffStatus.approved = true
same_status DiffStatus.rejected DiffStatus.rejected = true
same_status DiffStatus.committed DiffStatus.committed = true
same_status _ _ = false

module _ {V : Type 0} where
  -- The grants of a subject, with their scopes.
  unfoldable pub grants_of : Str → Db V → List Grant
  grants_of subject db =
      map (λ g. to_grant g (list_grant_scopes g.id db.grant_scopes))
        (keep_if (λ g. str_eq g.subject subject) db.grants)

  -- ListGrants: the newest first; those of one time, whose order the query leaves open, by their ids.
  unfoldable pub list_grants : Str → Db V → List Grant
  unfolding grants_of order_by
  list_grants subject db = order_by grant_key later (grants_of subject db)

  -- ListGrantsPage
  unfoldable pub list_grants_page :
      Str → ℤ → Option ListCursor → Db V → Result StoreError (List Grant × Bool)
  unfolding grants_of keyset_page
  list_grants_page subject limit cursor db =
      if is_positive limit
      then ok (keyset_page grant_key later (size_of limit) cursor (grants_of subject db))
      else err limit_not_positive

  -- The diffs in a status.
  unfoldable pub diffs_in : DiffStatus → Db V → List StagedDiff
  unfolding same_status
  diffs_in status db = keep_if (λ d. same_status d.status status) db.staged_diffs

  -- ListStagedDiffsPage
  unfoldable pub list_staged_diffs_page :
      DiffStatus → ℤ → Option ListCursor → Db V → Result StoreError (List StagedDiff × Bool)
  unfolding diffs_in keyset_page
  list_staged_diffs_page status limit cursor db =
      if is_positive limit
      then ok (keyset_page diff_key earlier (size_of limit) cursor (diffs_in status db))
      else err limit_not_positive

  -- ListStagedDiffsBounded
  unfoldable pub list_staged_diffs_bounded :
      DiffStatus → ℤ → Db V → Result StoreError (List StagedDiff)
  unfolding diffs_in order_by
  list_staged_diffs_bounded status limit db =
      if is_positive limit
      then ok (take (size_of limit) (order_by diff_key earlier (diffs_in status db)))
      else err limit_not_positive
