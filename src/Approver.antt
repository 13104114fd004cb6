-- ===== src/Approver.antt =====
-- backend/cmd/approver/model.go: the approver's list of pending items, which the server's events
-- change while a reviewer moves through it.
--
-- The types of a staged diff and of a grant request are parameters with their ids. An event's
-- fields stand in its constructor, and a status line is a constructor per text. The selection is an
-- integer, which may be negative, as in the source.
pub mod Selection
mod Tests
use chuvar.Prelude.{
  ℕ, zero, suc, ◌+◌, ◌-◌, Str, Bool, true, false, not, ◌&&◌, Option, none, some, List, [], ◌∷◌,
  ◌++◌, ℤ, pos, negsuc, length, get_elem?, is_empty, leb, ltb, str_eq, if◌then◌else◌, StrMap, get,
  put, erase,
}

pub data Item (D R : Type 0) : Type 0 where
  diff : D → Item D R
  request : R → Item D R

pub data Status : Type 0 where
  blank connected : Status
  expiring : Str → Str → Option Str → Status
  connection_lost malformed_event other_status : Str → Status

pub data AppEvent (D R : Type 0) : Type 0 where
  staged_diff_added staged_diff_resolved : D → AppEvent D R
  grant_request_added grant_request_resolved : R → AppEvent D R
  grant_expiring : Str → Str → Option Str → AppEvent D R
  ready unknown : AppEvent D R
  connection_error parse_error status : Str → AppEvent D R

pub record PromptState (D R : Type 0) : Type 0 where
  pub it : Item D R
  pub code : Str

pub record Model (D R : Type 0) : Type 0 where
  pub order : List Str
  pub items : StrMap (Item D R)
  pub selected : ℤ
  pub status : Status
  pub prompt : Option (PromptState D R)

-- a < b
unfoldable pub lt_int : ℤ → ℤ → Bool
lt_int (pos a) (pos b) = ltb a b
lt_int (pos a) (negsuc b) = false
lt_int (negsuc a) (pos b) = true
lt_int (negsuc a) (negsuc b) = ltb b a

-- a - 1
unfoldable pub decrement : ℤ → ℤ
decrement (pos zero) = negsuc 0
decrement (pos (suc n)) = pos n
decrement (negsuc n) = negsuc (suc n)

-- a + b
infixl 6 ◌+ℤ◌
unfoldable pub ◌+ℤ◌ : ℤ → ℤ → ℤ
pos a +ℤ pos b = pos (a + b)
pos a +ℤ negsuc b = if ltb b a then pos (a - suc b) else negsuc (b - a)
negsuc a +ℤ pos b = if ltb a b then pos (b - suc a) else negsuc (a - b)
negsuc a +ℤ negsuc b = negsuc (suc (a + b))

unfoldable pub new_model : {D R : Type 0} → Model D R
new_model = record { order = []; items = []; selected = pos 0; status = blank; prompt = none }

-- The order without its first occurrence of the id.
unfoldable pub without : Str → List Str → List Str
without id [] = []
without id (x ∷ order) = let rest = without id order in if str_eq x id then order else x ∷ rest

-- The position of the id's first occurrence.
unfoldable pub position : Str → List Str → Option ℕ
position id [] = none
position id (x ∷ order) =
    let rest = position id order in
    if str_eq x id then some 0 else elim rest [ none ↦ none | some i ↦ some (suc i) ]

-- if i < m.selected { m.selected-- }
unfoldable pub shift_selection : Option ℕ → ℤ → ℤ
unfolding lt_int decrement
shift_selection none selected = selected
shift_selection (some i) selected = if lt_int (pos i) selected then decrement selected else selected

-- if m.selected >= len(m.order) && m.selected > 0 { m.selected = len(m.order) - 1 }
unfoldable pub clamp_selection : ℕ → ℤ → ℤ
unfolding lt_int decrement
clamp_selection count selected =
    if not (lt_int selected (pos count)) && lt_int (pos 0) selected
    then decrement (pos count)
    else selected

module _ {D R : Type 0} (diff_id : D → Str) (request_id : R → Str) where
  unfoldable pub item_id : Item D R → Str
  item_id (diff d) = diff_id d
  item_id (request r) = request_id r

  unfoldable pub upsert : Item D R → Model D R → Model D R
  upsert it m = elim (get (item_id it) m.items) [
    | some _ ↦ record m { items = put (item_id it) it m.items }
    | none ↦ record m { order = m.order ++ item_id it ∷ []; items = put (item_id it) it m.items }
  ]

  -- The prompt, unless it is for the id.
  unfoldable pub prompt_without : Str → Option (PromptState D R) → Option (PromptState D R)
  prompt_without id none = none
  prompt_without id (some p) = if str_eq (item_id p.it) id then none else some p

  unfoldable pub remove : Str → Model D R → Model D R
  remove id m = elim (get id m.items) [
    | none ↦ m
    | some _ ↦ record m {
      order = without id m.order;
      items = erase id m.items;
      prompt = prompt_without id m.prompt;
      selected =
          clamp_selection (length (without id m.order))
            (shift_selection (position id m.order) m.selected);
    }
  ]

  unfoldable pub apply : AppEvent D R → Model D R → Model D R
  apply (staged_diff_added d) m = upsert (diff d) m
  apply (staged_diff_resolved d) m = remove (diff_id d) m
  apply (grant_request_added r) m = upsert (request r) m
  apply (grant_request_resolved r) m = remove (request_id r) m
  apply (grant_expiring id subject expiry) m = record m { status = expiring id subject expiry }
  apply ready m = record m { status = connected }
  apply (connection_error detail) m = record m { status = connection_lost detail }
  apply (parse_error detail) m = record m { status = malformed_event detail }
  apply (status detail) m = record m { status = other_status detail }
  apply unknown m = m

unfoldable pub current : {D R : Type 0} → Model D R → Option (Item D R)
current m = elim m.selected [
  | negsuc _ ↦ none
  | pos k ↦ elim (get_elem? m.order k) [ none ↦ none | some id ↦ get id m.items ]
]

-- if m.selected < 0 { m.selected = 0 }
unfoldable pub floor_selection : ℤ → ℤ
unfolding lt_int
floor_selection selected = if lt_int selected (pos 0) then pos 0 else selected

-- if m.selected >= len(m.order) { m.selected = len(m.order) - 1 }
unfoldable pub cap_selection : ℕ → ℤ → ℤ
unfolding lt_int decrement
cap_selection count selected =
    if not (lt_int selected (pos count)) then decrement (pos count) else selected

-- moveSelection
unfoldable pub move_selection : {D R : Type 0} → ℤ → Model D R → Model D R
unfolding ◌+ℤ◌ floor_selection cap_selection
move_selection delta m = if is_empty m.order then m else record m {
  selected = cap_selection (length m.order) (floor_selection (m.selected +ℤ delta));
}
