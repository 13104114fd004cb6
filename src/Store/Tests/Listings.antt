-- ===== src/Store/Tests/Listings.antt =====
-- Listings read to their end, a row at a time.
use chuvar.Prelude.{ℕ, ◌<◌, pos, ◌≡◌, refl, none, some, List, [], ◌∷◌, arith}
use chuvar.Store.Types.{Db, DiffStatus}
use chuvar.Store.Listing.{follow, grant_key, diff_key, list_grants_page, list_staged_diffs_page}
use chuvar.Store.Listing.Order.{Apart}
use chuvar.Store.Listing.Completeness.{list_grants_lem, list_staged_diffs_lem}
use chuvar.Store.Fixtures.{amy, db, stored_diff}

one_row : 0 < 1
one_row = omega arith

apart : Apart (λ g. g.id) db.grants
apart = ((refl, tt), (tt, tt))

list_grants_lem_example :
    follow grant_key (λ c. list_grants_page amy (pos 1) c db) 3 none
    ≡ some (list_grants_lem 1 one_row db amy apart).0
list_grants_lem_example = (list_grants_lem 1 one_row db amy apart).1

-- A second diff, staged at the same time.
abbrev two_diffs : Db (List ℕ)
two_diffs = record db { staged_diffs = record stored_diff { id = 6 } ∷ stored_diff ∷ [] }

diffs_apart : Apart (λ d. d.id) two_diffs.staged_diffs
diffs_apart = ((refl, tt), (tt, tt))

list_staged_diffs_lem_example :
    follow diff_key (λ c. list_staged_diffs_page DiffStatus.pending (pos 1) c two_diffs) 3 none
    ≡ some (list_staged_diffs_lem 1 one_row two_diffs DiffStatus.pending diffs_apart).0
list_staged_diffs_lem_example =
    (list_staged_diffs_lem 1 one_row two_diffs DiffStatus.pending diffs_apart).1
