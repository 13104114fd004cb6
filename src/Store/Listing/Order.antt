-- ===== src/Store/Listing/Order.antt =====
-- The order of a listing, and that a condition on its rows commutes with it.
use chuvar.Prelude.{
  suc, length, Bool, true, false, ◌≡◌, refl, ap, sym, ◌∙◌, inl, inr, ◌↔◌, List, [], ◌∷◌, keep_if,
  Bool-cases, arith, Elem, All, ◌==◌, if◌then◌else◌,
}
use chuvar.Store.Types.{RowId}
use chuvar.Store.Listing.{ListCursor, earlier, later, insert_by, order_by}

-- No two rows have the same id.
abbrev pub Apart : {A : Type 0} → (A → RowId) → List A → Type 0
Apart id [] = Unit
Apart id (x ∷ xs) = All (λ y. (id x == id y) ≡ false) xs × Apart id xs

-- A strict order that decides between keys with different ids.
pub record IsOrder (before : ListCursor → ListCursor → Bool) : Type 0 where
  pub irreflexive : (a : ListCursor) → before a a ≡ false
  pub transitive : (a b c : ListCursor) → before a b ≡ true → before b c ≡ true → before a c ≡ true
  pub total : (a b : ListCursor) → (a.id == b.id) ≡ false → before a b ≡ false → before b a ≡ true

pub earlier-IsOrder : IsOrder earlier
unfolding earlier
earlier-IsOrder = record {
  irreflexive = λ a. ground arith;
  transitive = λ a b c h k. ground arith;
  total = λ a b h k. ground arith;
}

pub later-IsOrder : IsOrder later
unfolding later earlier
later-IsOrder = record {
  irreflexive = λ a. ground arith;
  transitive = λ a b c h k. ground arith;
  total = λ a b h k. ground arith;
}

pub All-map :
    {A : Type 0} {P Q : A → Type 0} (xs : List A) → ((a : A) → P a → Q a) → All P xs → All Q xs
All-map [] f h = tt
All-map (x ∷ xs) f (p, h) = (f x p, All-map xs f h)

pub All-keep_if :
    {A : Type 0} (P : A → Type 0) (p : A → Bool) (xs : List A) → All P xs → All P (keep_if p xs)
All-keep_if P p [] h = tt
All-keep_if P p (x ∷ xs) (here, h) = elim (Bool-cases (p x)) [
  | inl e ↦ rw (e, keep_if) (here, All-keep_if P p xs h)
  | inr e ↦ rw (e, keep_if) (All-keep_if P p xs h)
]

module _ {A : Type 0} (key : A → ListCursor) (before : ListCursor → ListCursor → Bool) where
  -- Each row stands before all that follow it.
  abbrev pub Ordered : List A → Type 0
  Ordered [] = Unit
  Ordered (x ∷ xs) = All (λ y. before (key x) (key y) ≡ true) xs × Ordered xs

  All-insert_by :
      (P : A → Type 0) (x : A) (ys : List A) → P x → All P ys → All P (insert_by key before x ys)
  unfolding insert_by
  All-insert_by P x [] p h = (p, tt)
  All-insert_by P x (y ∷ ys) p (q, h) = elim (Bool-cases (before (key y) (key x))) [
    | inl e ↦ rw e (q, All-insert_by P x ys p h)
    | inr e ↦ rw e (p, (q, h))
  ]

  All-order_by : (P : A → Type 0) (xs : List A) → All P xs → All P (order_by key before xs)
  unfolding order_by
  All-order_by P [] h = tt
  All-order_by P (x ∷ xs) (p, h) =
      All-insert_by P x (order_by key before xs) p (All-order_by P xs h)

  Elem-insert_by : (a x : A) (ys : List A) → Elem a (insert_by key before x ys) ↔ Elem a (x ∷ ys)
  unfolding insert_by
  Elem-insert_by a x [] = (λ h. h, λ h. h)
  Elem-insert_by a x (y ∷ ys) =
      let more = Elem-insert_by a x ys in
      elim (Bool-cases (before (key y) (key x))) [
        | inl e ↦ rw e (
          (λ h. elim h [
            | inl same ↦ inr (inl same)
            | inr k ↦ elim (more.0 k) [ inl same ↦ inl same | inr m ↦ inr (inr m) ]
          ]),
          λ h. elim h [
            | inl same ↦ inr (more.1 (inl same))
            | inr k ↦ elim k [ inl same ↦ inl same | inr m ↦ inr (more.1 (inr m)) ]
          ],
        )
        | inr e ↦ rw e (λ h. h, λ h. h)
      ]

  pub order_by-Elem : (a : A) (xs : List A) → Elem a (order_by key before xs) ↔ Elem a xs
  unfolding order_by
  order_by-Elem a [] = (λ h. h, λ h. h)
  order_by-Elem a (x ∷ xs) =
      let step = Elem-insert_by a x (order_by key before xs) in
      let rest = order_by-Elem a xs in
      (
        (λ h. elim (step.0 h) [ inl same ↦ inl same | inr m ↦ inr (rest.0 m) ]),
        λ h. step.1 (elim h [ inl same ↦ inl same | inr m ↦ inr (rest.1 m) ]),
      )

  module _ (ord : IsOrder before) where
    insert_by-Ordered :
        (x : A) (ys : List A)
        → All (λ y. ((key x).id == (key y).id) ≡ false) ys
        → Ordered ys
        → Ordered (insert_by key before x ys)
    unfolding insert_by
    insert_by-Ordered x [] apart h = (tt, tt)
    insert_by-Ordered x (y ∷ ys) (here, apart) (first, h) =
        elim (Bool-cases (before (key y) (key x))) [
          | inl e ↦ rw e (All-insert_by _ x ys e first, insert_by-Ordered x ys apart h)
          | inr e ↦
              let under = ord.total (key y) (key x) (ground arith) e in
              rw e ((under, All-map ys (λ z k. ord.transitive _ _ _ under k) first), (first, h))
        ]

    pub order_by-Ordered :
        (xs : List A) → Apart (λ a. (key a).id) xs → Ordered (order_by key before xs)
    unfolding order_by
    order_by-Ordered [] h = tt
    order_by-Ordered (x ∷ xs) (here, h) =
        insert_by-Ordered x (order_by key before xs) (All-order_by _ xs here)
          (order_by-Ordered xs h)

    pub keep_if-Ordered : (p : A → Bool) (xs : List A) → Ordered xs → Ordered (keep_if p xs)
    keep_if-Ordered p [] h = tt
    keep_if-Ordered p (x ∷ xs) (first, h) = elim (Bool-cases (p x)) [
      | inl e ↦ rw (e, keep_if) (All-keep_if _ p xs first, keep_if-Ordered p xs h)
      | inr e ↦ rw (e, keep_if) (keep_if-Ordered p xs h)
    ]

    insert_first :
        (x : A) (zs : List A)
        → All (λ z. before (key z) (key x) ≡ false) zs
        → insert_by key before x zs ≡ x ∷ zs
    unfolding insert_by
    insert_first x [] h = refl
    insert_first x (z ∷ zs) h = rw h.0

    none_under :
        (x y : A) (ys : List A)
        → before (key y) (key x) ≡ false
        → Ordered (y ∷ ys)
        → All (λ z. before (key z) (key x) ≡ false) (y ∷ ys)
    none_under x y ys e (first, h) = (
      e,
      All-map ys
          (λ z k. elim (Bool-cases (before (key z) (key x))) [
            | inl under ↦ absurd (cc (e, ord.transitive (key y) (key z) (key x) k under))
            | inr above ↦ above
          ])
          first,
    )

    keep_if-insert_by :
        (p : A → Bool) (x : A) (ys : List A)
        → Ordered ys
        → keep_if p (insert_by key before x ys)
          ≡ (if p x then insert_by key before x (keep_if p ys) else keep_if p ys)
    unfolding insert_by
    keep_if-insert_by p x [] h = elim (Bool-cases (p x)) [
      | inl e ↦ rw (e, keep_if)
      | inr e ↦ rw (e, keep_if)
    ]
    keep_if-insert_by p x (y ∷ ys) h = elim (Bool-cases (before (key y) (key x))) [
      | inl e ↦
          let rest = keep_if-insert_by p x ys h.1 in
          elim (Bool-cases (p x)) [
            | inl kept ↦ elim (Bool-cases (p y)) [
              | inl first ↦
                  rw (e, kept, keep_if, first, insert_by, e) (ap (λ l. y ∷ l) (rw kept at rest))
              | inr skipped ↦ rw (e, kept, keep_if, skipped) (rw kept at rest)
            ]
            | inr dropped ↦ elim (Bool-cases (p y)) [
              | inl first ↦ rw (e, dropped, keep_if, first) (ap (λ l. y ∷ l) (rw dropped at rest))
              | inr skipped ↦ rw (e, dropped, keep_if, skipped) (rw dropped at rest)
            ]
          ]
      | inr e ↦ elim (Bool-cases (p x)) [
        | inl kept ↦
            rw (e, kept, keep_if)
              (sym (
                insert_first x (keep_if p (y ∷ ys))
                  (All-keep_if _ p (y ∷ ys) (none_under x y ys e h))))
        | inr dropped ↦ rw (e, dropped, keep_if)
      ]
    ]

    -- A condition on the rows commutes with their order.
    pub keep_if-order_by :
        (p : A → Bool) (xs : List A)
        → Apart (λ a. (key a).id) xs
        → order_by key before (keep_if p xs) ≡ keep_if p (order_by key before xs)
    unfolding order_by
    keep_if-order_by p [] h = refl
    keep_if-order_by p (x ∷ xs) (here, h) =
        let rest = keep_if-order_by p xs h in
        let step = keep_if-insert_by p x (order_by key before xs) (order_by-Ordered xs h) in
        elim (Bool-cases (p x)) [
          | inl e ↦
              rw (e, keep_if, order_by) (ap (insert_by key before x) rest ∙ sym (rw e at step))
          | inr e ↦ rw (e, keep_if) (rest ∙ sym (rw e at step))
        ]

  length-insert_by : (x : A) (ys : List A) → length (insert_by key before x ys) ≡ suc (length ys)
  unfolding insert_by
  length-insert_by x [] = refl
  length-insert_by x (y ∷ ys) = elim (Bool-cases (before (key y) (key x))) [
    | inl e ↦ rw e (ap (λ n. suc n) (length-insert_by x ys))
    | inr e ↦ rw e
  ]

  pub length-order_by : (xs : List A) → length (order_by key before xs) ≡ length xs
  unfolding order_by
  length-order_by [] = refl
  length-order_by (x ∷ xs) =
      length-insert_by x (order_by key before xs) ∙ ap (λ n. suc n) (length-order_by xs)
