-- ===== src/Approver/Selection.antt =====
-- The selection points into the list, and stays on its item when another goes.
use chuvar.Prelude.{
  ℕ, Option, if◌then◌else◌, zero, suc, ◌-◌, ◌<◌, Str, true, false, ◌≡◌, ◌≢◌, refl, ap, sym, ◌∙◌,
  ◌⊎◌, inl, inr, none, some, List, [], ◌∷◌, ℤ, arith, length, length-append, get_elem?, is_empty,
  ltb, ltb→lt, lt→ltb, pos, negsuc, str_eq, str_eq_iff, Bool-cases, Option-cases, get,
}
use chuvar.Approver.{
  Item, diff, request, AppEvent, staged_diff_added, staged_diff_resolved, grant_request_added,
  grant_request_resolved, grant_expiring, ready, unknown, connection_error, parse_error, status,
  Model, new_model, without, position, shift_selection, clamp_selection, item_id, upsert, remove,
  apply, move_selection, lt_int, decrement, floor_selection, cap_selection, ◌+ℤ◌,
}

-- The selection's shift and clamp as an index that is not negative.
shift_index : Option ℕ → ℕ → ℕ
shift_index none k = k
shift_index (some i) k = if ltb i k then k - 1 else k

shifted : (at : Option ℕ) (k : ℕ) → shift_selection at (pos k) ≡ pos (shift_index at k)
unfolding shift_selection shift_index lt_int decrement
shifted none k = refl
shifted (some i) zero = ground arith
shifted (some i) (suc k) = elim (Bool-cases (ltb i (suc k))) [
  | inl e ↦ rw e (ap (λ n. pos n) (omega arith))
  | inr e ↦ rw e
]

unclamped : (count k : ℕ) → k < count → clamp_selection count (pos k) ≡ pos k
unfolding clamp_selection lt_int
unclamped count k h = let inside : ltb k count ≡ true = lt→ltb k count h in rw inside

-- An index of a list with so many entries, or 0.
abbrev pub IsIndex : ℕ → ℤ → Type 0
IsIndex count i = (i ≡ pos 0) ⊎ ((k : ℕ) × (i ≡ pos k) × (k < count))

-- What a removal does to the list: it is one shorter if the id stood in it.
length-without :
    (id : Str) (order : List Str)
    → ((position id order ≡ none) × (without id order ≡ order))
      ⊎ ((i : ℕ) × (position id order ≡ some i)
          × (i < length order)
          × (suc (length (without id order)) ≡ length order))
unfolding position without
length-without id [] = inl (refl, refl)
length-without id (x ∷ order) = elim (Bool-cases (str_eq x id)) [
  | inl e ↦ inr (0, rw e refl, omega arith, rw e refl)
  | inr e ↦ elim (length-without id order) [
    | inl (n, same) ↦ inl (rw (e, n) refl, rw (e, same) refl)
    | inr (i, at, lt, len) ↦
        inr (suc i, rw (e, at) refl, omega (arith, lt), rw e (omega (arith, len)))
  ]
]

-- The item at the selection, before and after another has gone.
get_elem?-without :
    (id x : Str) (order : List Str) (k : ℕ)
    → get_elem? order k ≡ some x
    → x ≢ id
    → get_elem? (without id order) (shift_index (position id order) k) ≡ some x
unfolding without position shift_index
get_elem?-without id x [] k h other = absurd (cc h)
get_elem?-without id x (y ∷ order) zero h other = elim (Bool-cases (str_eq y id)) [
  | inl e ↦ absurd (other (cc (h, (str_eq_iff y id).0 e)))
  | inr e ↦ elim (Option-cases (position id order)) [
    | inl n ↦ rw (e, n) h
    | inr (i, n) ↦
        let stays : ltb (suc i) 0 ≡ false = ground arith in rw (e, n, shift_index, stays) h
  ]
]
get_elem?-without id x (y ∷ order) (suc k) h other = elim (Bool-cases (str_eq y id)) [
  | inl e ↦
      let down : ltb 0 (suc k) ≡ true = ground arith in
      let back : suc k - 1 ≡ k = omega arith in rw (e, shift_index, down, back) h
  | inr e ↦
      let ih = get_elem?-without id x order k h other in
      elim (Option-cases (position id order)) [
        | inl n ↦ rw (e, n) (rw n at ih)
        | inr (i, n) ↦ elim (Bool-cases (ltb i k)) [
          | inl less ↦
              let down : ltb (suc i) (suc k) ≡ true = ground arith in
              let back : suc k - 1 ≡ suc (k - 1) = ground arith in
              rw (e, n, shift_index, down, back) (rw (n, shift_index, less) at ih)
          | inr not_less ↦
              let stays : ltb (suc i) (suc k) ≡ false = ground arith in
              rw (e, n, shift_index, stays) (rw (n, shift_index, not_less) at ih)
        ]
      ]
]

get_elem?-lt : {A : Type 0} (xs : List A) (k : ℕ) (x : A) → get_elem? xs k ≡ some x → k < length xs
get_elem?-lt [] k x h = absurd (cc h)
get_elem?-lt (y ∷ xs) zero x h = omega arith
get_elem?-lt (y ∷ xs) (suc k) x h = omega (arith, get_elem?-lt xs k x h)

filled : {A : Type 0} (xs : List A) → is_empty xs ≡ false → 0 < length xs
filled [] h = absurd (cc h)
filled (x ∷ xs) h = omega arith

-- The clamp brings every selection into the list, but that of an emptied list.
clamped : (count k : ℕ) → (count ≡ 0 → k ≡ 0) → IsIndex count (clamp_selection count (pos k))
unfolding clamp_selection lt_int decrement
clamped zero k h = rw (h refl) (inl refl)
clamped (suc count) k h = elim (Bool-cases (ltb k (suc count))) [
  | inl e ↦ rw e (inr (k, refl, ltb→lt k (suc count) e))
  | inr e ↦
      let above : ltb 0 k ≡ true = ground arith in rw (e, above) (inr (count, refl, omega arith))
]

-- What is kept at 0 or above and capped by a list that is not empty is an index of it.
capped : (count : ℕ) (i : ℤ) → 0 < count → IsIndex count (cap_selection count (floor_selection i))
unfolding cap_selection floor_selection lt_int decrement
capped zero i h = absurd (omega arith)
capped (suc count) (negsuc n) h =
    let inside : ltb 0 (suc count) ≡ true = ground arith in
    rw (floor_selection, cap_selection, inside) (inl refl)
capped (suc count) (pos k) h =
    let up : ltb k 0 ≡ false = ground arith in
    elim (Bool-cases (ltb k (suc count))) [
      | inl e ↦ rw (floor_selection, up, cap_selection, e) (inr (k, refl, ltb→lt k (suc count) e))
      | inr e ↦ rw (floor_selection, up, cap_selection, e) (inr (count, refl, omega arith))
    ]

emptied :
    (id : Str) (order : List Str) (k : ℕ)
    → (k ≡ 0) ⊎ (k < length order)
    → length (without id order) ≡ 0
    → shift_index (position id order) k ≡ 0
unfolding shift_index
emptied id order k h z = elim (length-without id order) [
  | inl (n, same) ↦
      let none_left : length order ≡ 0 = sym (ap length same) ∙ z in rw n (ground arith)
  | inr (i, at, lt, len) ↦ rw at (ground arith)
]

module _ {D R : Type 0} (diff_id : D → Str) (request_id : R → Str) where
  -- When another item goes, the one selected stays selected.
  pub remove-selection :
      (id x : Str) (k : ℕ) (m : Model D R)
      → m.selected ≡ pos k
      → get_elem? m.order k ≡ some x
      → x ≢ id
      → (j : ℕ) × ((remove diff_id request_id id m).selected ≡ pos j)
        × (get_elem? (remove diff_id request_id id m).order j ≡ some x)
  unfolding remove
  remove-selection id x k m at h other = elim (Option-cases (get id m.items)) [
    | inl n ↦ (k, rw (remove, n) at, rw (remove, n) h)
    | inr (it, n) ↦
        let j = shift_index (position id m.order) k in
        let kept = get_elem?-without id x m.order k h other in
        let lt = get_elem?-lt (without id m.order) j x kept in
        (
          j,
          rw (remove, n, at, shifted (position id m.order) k)
              (unclamped (length (without id m.order)) j lt),
          rw (remove, n) kept,
        )
  ]

  -- The selection is an index of the list, or 0.
  abbrev pub InRange : Model D R → Type 0
  InRange m = IsIndex (length m.order) m.selected

  -- What the loop does: a server's event, or a key that moves the selection.
  pub data Input : Type 0 where
    event : AppEvent D R → Input
    move : ℤ → Input

  unfoldable pub respond : Input → Model D R → Model D R
  respond (event e) m = apply diff_id request_id e m
  respond (move delta) m = move_selection delta m

  -- The inputs in their order.
  unfoldable pub respond_all : List Input → Model D R → Model D R
  unfolding respond
  respond_all [] m = m
  respond_all (i ∷ inputs) m = respond_all inputs (respond i m)

  upsert-InRange :
      (it : Item D R) (m : Model D R) → InRange m → InRange (upsert diff_id request_id it m)
  unfolding upsert
  upsert-InRange it m h = elim (Option-cases (get (item_id diff_id request_id it) m.items)) [
    | inr (old, n) ↦ rw (upsert, n) h
    | inl n ↦
        rw (upsert, n)
          (elim h [
            | inl z ↦ inl z
            | inr (k, at, lt) ↦ inr (
              k,
              at,
              omega (arith, lt, length-append m.order (item_id diff_id request_id it ∷ [])),
            )
          ])
  ]

  removed :
      (id : Str) (order : List Str) (k : ℕ)
      → (k ≡ 0) ⊎ (k < length order)
      → IsIndex (length (without id order)) (
          clamp_selection (length (without id order)) (shift_selection (position id order) (pos k)))
  removed id order k h = rw (shifted (position id order) k) (
      clamped (length (without id order)) (shift_index (position id order) k)
        (emptied id order k h))

  remove-InRange : (id : Str) (m : Model D R) → InRange m → InRange (remove diff_id request_id id m)
  unfolding remove
  remove-InRange id m h = elim (Option-cases (get id m.items)) [
    | inl n ↦ rw (remove, n) h
    | inr (it, n) ↦ elim h [
      | inl z ↦ rw (remove, n, z) (removed id m.order 0 (inl refl))
      | inr (k, at, lt) ↦ rw (remove, n, at) (removed id m.order k (inr lt))
    ]
  ]

  move-InRange : (delta : ℤ) (m : Model D R) → InRange m → InRange (move_selection delta m)
  unfolding move_selection
  move-InRange delta m h = elim (Bool-cases (is_empty m.order)) [
    | inl e ↦ rw (move_selection, e) h
    | inr e ↦
        rw (move_selection, e) (capped (length m.order) (m.selected +ℤ delta) (filled m.order e))
  ]

  apply-InRange :
      (e : AppEvent D R) (m : Model D R) → InRange m → InRange (apply diff_id request_id e m)
  unfolding apply
  apply-InRange (staged_diff_added d) m h = upsert-InRange (diff d) m h
  apply-InRange (staged_diff_resolved d) m h = remove-InRange (diff_id d) m h
  apply-InRange (grant_request_added r) m h = upsert-InRange (request r) m h
  apply-InRange (grant_request_resolved r) m h = remove-InRange (request_id r) m h
  apply-InRange (grant_expiring id subject expiry) m h = h
  apply-InRange ready m h = h
  apply-InRange (connection_error detail) m h = h
  apply-InRange (parse_error detail) m h = h
  apply-InRange (status detail) m h = h
  apply-InRange unknown m h = h

  respond_all_from :
      (inputs : List Input) (m : Model D R) → InRange m → InRange (respond_all inputs m)
  unfolding respond_all respond
  respond_all_from [] m h = h
  respond_all_from (event e ∷ inputs) m h = respond_all_from inputs _ (apply-InRange e m h)
  respond_all_from (move delta ∷ inputs) m h = respond_all_from inputs _ (move-InRange delta m h)

  -- From an empty list, whatever events come and however the reviewer moves, the selection is an
  -- index of the list, or 0.
  pub respond_all-InRange : (inputs : List Input) → InRange (respond_all inputs new_model)
  unfolding new_model
  respond_all-InRange inputs = respond_all_from inputs new_model (inl refl)
