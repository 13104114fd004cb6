-- ===== src/Store/Listing/Completeness.antt =====
-- Whoever follows the cursors of a listing reads all of it.
use chuvar.Prelude.{
  ℕ, suc, ◌<◌, Bool, ◌≡◌, refl, ap, ◌∙◌, inl, inr, ◌↔◌, Option, none, some, List, [], ◌∷◌, keep_if,
  map, length, Str, str_eq, lt→ltb, Bool-cases, arith, Elem, All, Result, ok, pos,
}
use chuvar.Store.Types.{RowId, Db, Grant, StagedDiff, DiffStatus, StoreError}
use chuvar.Store.Grants.{to_grant, list_grant_scopes}
use chuvar.Store.Listing.{
  ListCursor, earlier, later, order_by, past, keyset_page, follow, grant_key, diff_key, grants_of,
  diffs_in, list_grants_page, list_staged_diffs_page, same_status,
}
use chuvar.Store.Listing.Order.{
  IsOrder, earlier-IsOrder, later-IsOrder, Ordered, Apart, All-keep_if, order_by-Elem,
  order_by-Ordered, length-order_by,
}
use chuvar.Store.Listing.Paging.{followed, length-keep_if}

keep_all :
    {A : Type 0} (key : A → ListCursor) (before : _) (xs : List A)
    → keep_if (past key before none) xs ≡ xs
unfolding past
keep_all key before [] = refl
keep_all key before (x ∷ xs) = ap (λ l. x ∷ l) (keep_all key before xs)

keep_if-Apart :
    {A : Type 0} (id : A → RowId) (p : A → Bool) (xs : List A)
    → Apart id xs
    → Apart id (keep_if p xs)
keep_if-Apart id p [] h = tt
keep_if-Apart id p (x ∷ xs) (here, h) = elim (Bool-cases (p x)) [
  | inl e ↦ rw (e, keep_if) (All-keep_if _ p xs here, keep_if-Apart id p xs h)
  | inr e ↦ rw (e, keep_if) (keep_if-Apart id p xs h)
]

module _ {A B : Type 0} (f : A → B) where
  map-All : (P : B → Type 0) (xs : List A) → All (λ x. P (f x)) xs → All P (map f xs)
  map-All P [] h = tt
  map-All P (x ∷ xs) (p, h) = (p, map-All P xs h)

  map-Apart : (id : B → RowId) (xs : List A) → Apart (λ a. id (f a)) xs → Apart id (map f xs)
  map-Apart id [] h = tt
  map-Apart id (x ∷ xs) (here, h) = (map-All _ xs here, map-Apart id xs h)

  length-map : (xs : List A) → length (map f xs) ≡ length xs
  length-map [] = refl
  length-map (x ∷ xs) = ap (λ n. suc n) (length-map xs)

-- The list is in the order of the listing, no row twice, and has exactly the rows.
pub record IsListing {A : Type 0} (key : A → ListCursor) (before : ListCursor → ListCursor → Bool)
    (rows all : List A) : Type 0 where
  pub ordered : Ordered key before all
  pub exact : (a : A) → Elem a all ↔ Elem a rows

followed_all :
    {A : Type 0} (key : A → ListCursor) (before : ListCursor → ListCursor → Bool) (limit fuel : ℕ)
    (rows : List A) (page : Option ListCursor → Result StoreError (List A × Bool))
    → IsOrder before
    → 0 < limit
    → Apart (λ a. (key a).id) rows
    → length rows < fuel
    → ((c : Option ListCursor) → page c ≡ ok (keyset_page key before limit c rows))
    → (all : List A) × (follow key page fuel none ≡ some all) × IsListing key before rows all
followed_all key before limit fuel rows page ord some_row apart enough pages =
    let whole = keep_all key before (order_by key before rows) in
    let short : length (keep_if (past key before none) (order_by key before rows)) < fuel =
      rw (whole, length-order_by key before rows) enough in
    (
      order_by key before rows,
      followed key before ord limit some_row rows apart page pages fuel none short
          ∙ ap (λ l. some l) whole,
      record {
        ordered = order_by-Ordered key before ord rows apart;
        exact = λ a. order_by-Elem key before a rows;
      },
    )

module _ {V : Type 0} (n : ℕ) (some_row : 0 < n) (db : Db V) where
  grants_of-length : (subject : Str) → length (grants_of subject db) < suc (length db.grants)
  unfolding grants_of
  grants_of-length subject =
      let theirs = keep_if (λ g. str_eq g.subject subject) db.grants in
      rw (length-map (λ g. to_grant g (list_grant_scopes g.id db.grant_scopes)) theirs)
        (omega (arith, length-keep_if (λ g. str_eq g.subject subject) db.grants))

  diffs_in-length :
      (status : DiffStatus) → length (diffs_in status db) < suc (length db.staged_diffs)
  unfolding diffs_in
  diffs_in-length status =
      omega (arith, length-keep_if (λ d. same_status d.status status) db.staged_diffs)

  -- A client that asks for page after page of a subject's grants, each time with the cursor of the
  -- last row, reaches the end after at most one request more than there are grants, whatever the
  -- size of a page, and has then read exactly the subject's grants, none twice, the newest first,
  -- where the ids of the stored grants differ and the tables do not change in between.
  pub list_grants_lem :
      (subject : Str)
      → Apart (λ g. g.id) db.grants
      → (all : List Grant) × (follow grant_key
            (λ c. list_grants_page subject (pos n) c db)
            (suc (length db.grants))
            none
          ≡ some all)
        × IsListing grant_key later (grants_of subject db) all
  unfolding list_grants_page grants_of grant_key to_grant
  list_grants_lem subject apart =
      let theirs = keep_if (λ g. str_eq g.subject subject) db.grants in
      followed_all grant_key later n (suc (length db.grants)) (grants_of subject db) _ later-IsOrder
        some_row (map-Apart _ _ theirs (keep_if-Apart (λ g. g.id) _ db.grants apart))
        (grants_of-length subject) (λ c. rw (lt→ltb 0 n some_row))

  -- A client that asks for page after page of the diffs in a status, each time with the cursor of
  -- the last row, reaches the end after at most one request more than there are diffs, whatever the
  -- size of a page, and has then read exactly the diffs in that status, none twice, the oldest
  -- first, where the ids of the stored diffs differ and the table does not change in between.
  pub list_staged_diffs_lem :
      (status : DiffStatus)
      → Apart (λ d. d.id) db.staged_diffs
      → (all : List StagedDiff) × (follow diff_key
            (λ c. list_staged_diffs_page status (pos n) c db)
            (suc (length db.staged_diffs))
            none
          ≡ some all)
        × IsListing diff_key earlier (diffs_in status db) all
  unfolding list_staged_diffs_page diffs_in diff_key
  list_staged_diffs_lem status apart =
      followed_all diff_key earlier n (suc (length db.staged_diffs)) (diffs_in status db) _
        earlier-IsOrder some_row (keep_if-Apart (λ d. d.id) _ db.staged_diffs apart)
        (diffs_in-length status) (λ c. rw (lt→ltb 0 n some_row))
