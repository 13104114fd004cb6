-- ===== src/Store/Listing/Paging.antt =====
-- Following the cursors of a listing to its end.
use chuvar.Prelude.{
  ℕ, zero, suc, ◌≤◌, ◌<◌, Bool, true, false, ◌≡◌, refl, ap, sym, ◌∙◌, inl, inr, Option, none, some,
  List, [], ◌∷◌, ◌++◌, keep_if, take, length, ltb, Bool-cases, arith, All, Result, ok,
}
use chuvar.Store.Types.{StoreError}
use chuvar.Store.Listing.{ListCursor, order_by, past, keyset_page, next_cursor, follow, prepend}
use chuvar.Store.Listing.Order.{
  IsOrder, Ordered, keep_if-Ordered, Apart, order_by-Ordered, keep_if-order_by,
}

module _ {A : Type 0} where
  take_all : (n : ℕ) (xs : List A) → length xs ≤ n → take n xs ≡ xs
  take_all zero [] h = refl
  take_all zero (x ∷ xs) h = absurd (omega arith)
  take_all (suc n) [] h = refl
  take_all (suc n) (x ∷ xs) h = ap (λ l. x ∷ l) (take_all n xs (omega arith))

  take_more : (n : ℕ) (xs : List A) → n < length xs → length (take (suc n) xs) ≡ suc n
  take_more n [] h = absurd (omega arith)
  take_more zero (x ∷ xs) h = refl
  take_more (suc n) (x ∷ xs) h = ap (λ k. suc k) (take_more n xs (omega arith))

  take_twice : (n : ℕ) (xs : List A) → take n (take (suc n) xs) ≡ take n xs
  take_twice zero xs = refl
  take_twice (suc n) [] = refl
  take_twice (suc n) (x ∷ xs) = ap (λ l. x ∷ l) (take_twice n xs)

  keep_if-keep_if :
      (p q : A → Bool) (xs : List A)
      → ((a : A) → q a ≡ true → p a ≡ true)
      → keep_if q (keep_if p xs) ≡ keep_if q xs
  keep_if-keep_if p q [] h = refl
  keep_if-keep_if p q (x ∷ xs) h =
      let rest = keep_if-keep_if p q xs h in
      elim (Bool-cases (q x)) [
        | inl e ↦ rw (keep_if, h x e, e) (ap (λ l. x ∷ l) rest)
        | inr e ↦ elim (Bool-cases (p x)) [
          | inl k ↦ rw (keep_if, k, e) rest
          | inr k ↦ rw (keep_if, k, e) rest
        ]
      ]

  kept_All : (p : A → Bool) (xs : List A) → All (λ a. p a ≡ true) (keep_if p xs)
  kept_All p [] = tt
  kept_All p (x ∷ xs) = elim (Bool-cases (p x)) [
    | inl e ↦ rw (e, keep_if) (e, kept_All p xs)
    | inr e ↦ rw (e, keep_if) (kept_All p xs)
  ]

  pub length-keep_if : (p : A → Bool) (xs : List A) → length (keep_if p xs) ≤ length xs
  length-keep_if p [] = omega arith
  length-keep_if p (x ∷ xs) = elim (Bool-cases (p x)) [
    | inl e ↦ rw (e, keep_if) (omega (arith, length-keep_if p xs))
    | inr e ↦ rw (e, keep_if) (omega (arith, length-keep_if p xs))
  ]

module _ {A : Type 0} (key : A → ListCursor) where
  no_cursor : (items : List A) → next_cursor key items false ≡ none
  unfolding next_cursor
  no_cursor [] = refl
  no_cursor (x ∷ []) = refl
  no_cursor (x ∷ y ∷ ys) = no_cursor (y ∷ ys)

  module _ (page : Option ListCursor → Result StoreError (List A × Bool)) (n : ℕ)
      (cursor : Option ListCursor) (items : List A) where
    follow_stop : page cursor ≡ ok (items, false) → follow key page (suc n) cursor ≡ some items
    unfolding follow
    follow_stop h = rw (h, follow, no_cursor items)

    follow_on :
        (c : ListCursor)
        → page cursor ≡ ok (items, true)
        → next_cursor key items true ≡ some c
        → follow key page (suc n) cursor ≡ prepend items (follow key page n (some c))
    unfolding follow
    follow_on c h last = rw (h, follow, last)

module _ {A : Type 0} (key : A → ListCursor) (before : ListCursor → ListCursor → Bool)
    (ord : IsOrder before) where
  all_kept :
      (x : A) (xs : List A)
      → All (λ y. before (key x) (key y) ≡ true) xs
      → keep_if (past key before (some (key x))) xs ≡ xs
  unfolding past
  all_kept x [] h = refl
  all_kept x (y ∷ ys) (e, h) = rw (keep_if, e) (ap (λ l. y ∷ l) (all_kept x ys h))

  -- A page that is not the last one: its last row's cursor, and the rows past it.
  abbrev IsCut : ℕ → List A → List A → Type 0
  IsCut n xs rest =
      (c : ListCursor) × (next_cursor key (take n xs) true ≡ some c)
      × (xs ≡ take n xs ++ rest)
      × (keep_if (past key before (some c)) xs ≡ rest)
      × (length rest < length xs)
      × ((d : ListCursor) → All (λ y. before d (key y) ≡ true) xs → before d c ≡ true)

  cut :
      (n : ℕ) (xs : List A)
      → 0 < n
      → n < length xs
      → Ordered key before xs
      → (rest : List A) × IsCut n xs rest
  unfolding past next_cursor
  cut zero xs pos h o = absurd (omega arith)
  cut (suc n) [] pos h o = absurd (omega arith)
  cut (suc zero) (x ∷ xs) pos h (first, o) = (
    xs,
    (
      key x,
      refl,
      refl,
      rw (keep_if, ord.irreflexive (key x)) (all_kept x xs first),
      omega arith,
      λ a k. k.0,
    ),
  )
  cut (suc (suc n)) (x ∷ []) pos h o = absurd (omega arith)
  cut (suc (suc n)) (x ∷ y ∷ ys) pos h (first, o) =
      let (rest, (c, last, parts, kept, shorter, above)) =
        cut (suc n) (y ∷ ys) (omega arith) (omega arith) o in
      let under : before (key x) c ≡ true = above (key x) first in
      let skipped : before c (key x) ≡ false = elim (Bool-cases (before c (key x))) [
        | inl e ↦ absurd (cc (ord.irreflexive (key x), ord.transitive (key x) c (key x) under e))
        | inr e ↦ e
      ] in
      (
        rest,
        (
          c,
          last,
          ap (λ l. x ∷ l) parts,
          rw (keep_if, skipped) kept,
          omega arith,
          λ d k. above d k.1,
        ),
      )

  module _ (limit : ℕ) (some_row : 0 < limit) (rows : List A)
      (apart : Apart (λ a. (key a).id) rows) where
    -- The rows past a cursor, in the order of the listing.
    abbrev left : Option ListCursor → List A
    left cursor = keep_if (past key before cursor) (order_by key before rows)

    page_last :
        (cursor : Option ListCursor)
        → length (left cursor) ≤ limit
        → keyset_page key before limit cursor rows ≡ (left cursor, false)
    unfolding keyset_page
    page_last cursor h =
        let few : ltb limit (length (left cursor)) ≡ false = ground arith in
        rw (
          keep_if-order_by key before ord (past key before cursor) rows apart,
          take_all (suc limit) (left cursor) (omega arith),
          few,
        )

    page_more :
        (cursor : Option ListCursor)
        → limit < length (left cursor)
        → keyset_page key before limit cursor rows ≡ (take limit (left cursor), true)
    unfolding keyset_page
    page_more cursor h =
        let many : ltb limit (suc limit) ≡ true = ground arith in
        rw (
          keep_if-order_by key before ord (past key before cursor) rows apart,
          take_more limit (left cursor) h,
          take_twice limit (left cursor),
          many,
        )

    -- What is past a later cursor is past the earlier one.
    left_after :
        (cursor : Option ListCursor) (c : ListCursor)
        → ((d : ListCursor) → All (λ y. before d (key y) ≡ true) (left cursor) → before d c ≡ true)
        → keep_if (past key before (some c)) (left cursor) ≡ left (some c)
    unfolding past
    left_after none c above =
        keep_if-keep_if (past key before none) (past key before (some c)) (order_by key before rows)
          (λ a h. refl)
    left_after (some d) c above =
        keep_if-keep_if (past key before (some d)) (past key before (some c))
          (order_by key before rows)
          (λ a h.
            ord.transitive d c (key a)
              (above d (kept_All (past key before (some d)) (order_by key before rows))) h)

    module _ (page : Option ListCursor → Result StoreError (List A × Bool))
        (pages : (c : Option ListCursor) → page c ≡ ok (keyset_page key before limit c rows)) where
      pub followed :
          (fuel : ℕ) (cursor : Option ListCursor)
          → length (left cursor) < fuel
          → follow key page fuel cursor ≡ some (left cursor)
      followed zero cursor h = absurd (omega arith)
      followed (suc fuel) cursor h = elim (Bool-cases (ltb limit (length (left cursor)))) [
        | inr e ↦
            follow_stop key page fuel cursor (left cursor)
              (pages cursor ∙ ap (λ p. ok p) (page_last cursor (ground arith)))
        | inl e ↦
            let more : limit < length (left cursor) = ground arith in
            let (rest, (c, last, parts, kept, shorter, above)) =
              cut limit (left cursor) some_row more (
                keep_if-Ordered key before ord (past key before cursor) (order_by key before rows)
                  (order_by-Ordered key before ord rows apart)) in
            let same : left (some c) ≡ rest = sym (left_after cursor c above) ∙ kept in
            let fewer : length (left (some c)) < fuel = rw same (omega arith) in
            follow_on key page fuel cursor (take limit (left cursor)) c
              (pages cursor ∙ ap (λ p. ok p) (page_more cursor more)) last
            ∙ ap (prepend (take limit (left cursor))) (followed fuel (some c) fewer)
            ∙ ap (λ l. some l) (ap (λ r. take limit (left cursor) ++ r) same ∙ sym parts)
      ]
