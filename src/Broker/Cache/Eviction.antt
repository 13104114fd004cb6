-- ===== src/Broker/Cache/Eviction.antt =====
-- How the steps of the cache keep its two maps in agreement, and what they do to one grant.
use chuvar.Prelude.{
  ◌-◌, ◌≤◌, Str, false, ◌≡◌, ◌≢◌, refl, ap, sym, subst, ◌∙◌, ◌⊎◌, inl, inr, none, some, List, [],
  ◌∷◌, ok, arith, map, Elem, All, Distinct, Bool-cases, Option-cases, Result-cases, ltb, StrMap,
  get, erase, put, str_eq, str_eq_iff, str_neq, get-erase, get-erase_other, get-put, get-put_other,
}
use chuvar.Scope.{Scope}
use chuvar.Store.Types.{Time}
use chuvar.Broker.Cache.{
  GrantRow, Entry, Maps, tombstone_ttl, parse_scopes, entry_of, load_rows, drop, sweep,
}

-- Every entry's grant is known under the entry's key, so that `drop` finds it.
abbrev pub Keyed : Maps → Type 0
Keyed m = (k : Str) (e : Entry) → get k m.by_token ≡ some e → get e.grant_id m.token_of ≡ some k

-- Every entry of the second map stands in the first.
abbrev pub Within : Maps → Maps → Type 0
Within m m' = (k : Str) (e : Entry) → get k m'.by_token ≡ some e → get k m.by_token ≡ some e

-- What an erased key leaves behind.
get-erase-some :
    {A : Type 0} (j k : Str) (m : StrMap A) (a : A)
    → get j (erase k m) ≡ some a
    → (j ≢ k) × (get j m ≡ some a)
get-erase-some j k m a h = elim (Bool-cases (str_eq j k)) [
  | inl e ↦ absurd (cc (h, get-erase k m, (str_eq_iff j k).0 e))
  | inr e ↦ (str_neq j k e, sym (get-erase_other j k m (str_neq j k e)) ∙ h)
]

get-put-some :
    {A : Type 0} (j k : Str) (b : A) (m : StrMap A) (a : A)
    → get j (put k b m) ≡ some a
    → ((j ≡ k) × (a ≡ b)) ⊎ ((j ≢ k) × (get j m ≡ some a))
get-put-some j k b m a h = elim (Bool-cases (str_eq j k)) [
  | inl e ↦ inl ((str_eq_iff j k).0 e, cc (h, get-put k b m, (str_eq_iff j k).0 e))
  | inr e ↦ inr (str_neq j k e, sym (get-put_other j k b m (str_neq j k e)) ∙ h)
]

drop_unknown : (id : Str) (m : Maps) → get id m.token_of ≡ none → drop id m ≡ m
unfolding drop
drop_unknown id m n = rw (n, drop)

drop_known :
    (id : Str) (m : Maps) (key : Str)
    → get id m.token_of ≡ some key
    → drop id m ≡ record { by_token = erase key m.by_token; token_of = erase id m.token_of }
unfolding drop
drop_known id m key s = rw (s, drop)

pub drop-Within : (id : Str) (m : Maps) → Within m (drop id m)
drop-Within id m k e h = elim (Option-cases (get id m.token_of)) [
  | inl n ↦ rw (drop_unknown id m n) at h
  | inr (key, s) ↦ (get-erase-some k key m.by_token e (rw (drop_known id m key s) at h)).1
]

pub drop-Keyed : (id : Str) (m : Maps) → Keyed m → Keyed (drop id m)
drop-Keyed id m keyed k e h = elim (Option-cases (get id m.token_of)) [
  | inl n ↦ rw (drop_unknown id m n) (keyed k e (rw (drop_unknown id m n) at h))
  | inr (key, s) ↦
      let (other, there) = get-erase-some k key m.by_token e (rw (drop_known id m key s) at h) in
      let known = keyed k e there in
      let apart : e.grant_id ≢ id = λ same. other (cc (known, s, same)) in
      rw (drop_known id m key s) (get-erase_other e.grant_id id m.token_of apart ∙ known)
]

pub drop-gone : (id : Str) (m : Maps) → get id (drop id m).token_of ≡ none
drop-gone id m = elim (Option-cases (get id m.token_of)) [
  | inl n ↦ rw (drop_unknown id m n) n
  | inr (key, s) ↦ rw (drop_known id m key s) (get-erase id m.token_of)
]

pub drop-still_gone :
    (j id : Str) (m : Maps) → get j m.token_of ≡ none → get j (drop id m).token_of ≡ none
drop-still_gone j id m h = elim (Option-cases (get id m.token_of)) [
  | inl n ↦ rw (drop_unknown id m n) h
  | inr (key, s) ↦ elim (Bool-cases (str_eq j id)) [
    | inl e ↦
        subst (λ x. get x (drop id m).token_of ≡ none) (sym ((str_eq_iff j id).0 e))
          (drop-gone id m)
    | inr e ↦ rw (drop_known id m key s) (get-erase_other j id m.token_of (str_neq j id e) ∙ h)
  ]
]

pub sweep_lem :
    (now : Time) (stones : StrMap Time) (m : Maps)
    → (Keyed m → Keyed (sweep now stones m).1)
      × Within m (sweep now stones m).1
      × ((j : Str) → get j m.token_of ≡ none → get j (sweep now stones m).1.token_of ≡ none)
unfolding sweep
sweep_lem now [] m = ((λ h. h), (λ k e h. h), (λ j h. h))
sweep_lem now ((id, at) ∷ stones) m = elim (Bool-cases (ltb tombstone_ttl (now - at))) [
  | inl old ↦ rw old (sweep_lem now stones m)
  | inr young ↦
      let (keyed, within, gone) = sweep_lem now stones (drop id m) in
      rw young (
        (λ h. keyed (drop-Keyed id m h)),
        (λ k e h. drop-Within id m k e (within k e h)),
        (λ j h. gone j (drop-still_gone j id m h)),
      )
]

-- A tombstone within the TTL stays, and its grant is dropped.
pub sweep-buried :
    (now : Time) (stones : StrMap Time) (m : Maps) (id : Str) (at : Time)
    → get id stones ≡ some at
    → now - at ≤ tombstone_ttl
    → (get id (sweep now stones m).1.token_of ≡ none) × (get id (sweep now stones m).0 ≡ some at)
unfolding sweep get
sweep-buried now [] m id at h young = absurd (cc h)
sweep-buried now ((id', at') ∷ stones) m id at h young = elim (Bool-cases (str_eq id id')) [
  | inl hit ↦
      let same : at' ≡ at = ground arith in
      let lives : ltb tombstone_ttl (now - at') ≡ false = ground arith in
      rw (lives, get, hit)
        (
          (sweep_lem now stones (drop id' m)).2 id (
              subst (λ x. get x (drop id' m).token_of ≡ none) (sym ((str_eq_iff id id').0 hit))
                (drop-gone id' m)),
          ap some same,
        )
  | inr miss ↦ elim (Bool-cases (ltb tombstone_ttl (now - at'))) [
    | inl old ↦ rw old (sweep-buried now stones m id at (rw miss at h) young)
    | inr lives ↦
        rw (lives, get, miss) (sweep-buried now stones (drop id' m) id at (rw miss at h) young)
  ]
]

-- Every entry stands for a row of the snapshot, under its hash and with its scopes, all valid.
abbrev pub FromRows : List GrantRow → Maps → Type 0
FromRows rows m =
    (k : Str) (e : Entry)
    → get k m.by_token ≡ some e
    → (r : GrantRow) × Elem r rows
      × (r.token_hash ≡ k)
      × (parse_scopes r.scopes ≡ ok e.scopes)
      × (e ≡ entry_of r e.scopes)

abbrev pub ids : List GrantRow → List Str
ids = map (λ r. r.id)

put-Keyed :
    (r : GrantRow) (scopes : List Scope) (m : Maps)
    → get r.id m.token_of ≡ none
    → Keyed m
    → Keyed (record {
      by_token = put r.token_hash (entry_of r scopes) m.by_token;
      token_of = put r.id r.token_hash m.token_of;
    })
unfolding entry_of
put-Keyed r scopes m new keyed k e h =
    elim (get-put-some k r.token_hash (entry_of r scopes) m.by_token e h) [
      | inl (same, is_new) ↦
          subst (λ x. get x.grant_id (put r.id r.token_hash m.token_of) ≡ some k) (sym is_new)
            (get-put r.id r.token_hash m.token_of ∙ ap some (sym same))
      | inr (other, there) ↦
          let known = keyed k e there in
          let apart : e.grant_id ≢ r.id =
            λ same. cc (known, new, ap (λ x. get x m.token_of) same) in
          get-put_other e.grant_id r.id r.token_hash m.token_of apart ∙ known
    ]

-- No row's grant is known yet.
abbrev pub New : List GrantRow → Maps → Type 0
New rows m = All (λ r. get r.id m.token_of ≡ none) rows

put-New :
    (r : GrantRow) (key : Str) (by_token : StrMap Entry) (rows : List GrantRow) (m : Maps)
    → (¬ Elem r.id (ids rows))
    → New rows m
    → New rows (record { by_token = by_token; token_of = put r.id key m.token_of })
put-New r key by_token [] m out new = tt
put-New r key by_token (x ∷ rows) m out new = (
  get-put_other x.id r.id key m.token_of (λ same. out (inl (sym same))) ∙ new.0,
  put-New r key by_token rows m (λ h. out (inr h)) new.1,
)

-- A snapshot in which no grant stands twice is loaded into maps that agree.
pub load_rows-Keyed :
    (rows : List GrantRow) (m : Maps)
    → Distinct (ids rows)
    → New rows m
    → Keyed m
    → Keyed (load_rows rows m)
unfolding load_rows
load_rows-Keyed [] m d new keyed = keyed
load_rows-Keyed (r ∷ rows) m d new keyed = elim (Result-cases (parse_scopes r.scopes)) [
  | inl (scopes, e) ↦
      rw (e, load_rows)
        (load_rows-Keyed rows _ d.1
          (put-New r r.token_hash (put r.token_hash (entry_of r scopes) m.by_token) rows m d.0
            new.1)
          (put-Keyed r scopes m new.0 keyed))
  | inr (bad, e) ↦ rw (e, load_rows) (load_rows-Keyed rows m d.1 new.1 keyed)
]

pub load_rows-FromRows :
    (snapshot rows : List GrantRow) (m : Maps)
    → All (λ r. Elem r snapshot) rows
    → FromRows snapshot m
    → FromRows snapshot (load_rows rows m)
unfolding load_rows entry_of
load_rows-FromRows snapshot [] m here from = from
load_rows-FromRows snapshot (r ∷ rows) m here from = elim (Result-cases (parse_scopes r.scopes)) [
  | inl (scopes, e) ↦
      rw (e, load_rows)
        (load_rows-FromRows snapshot rows _ here.1 (λ k x h.
          elim (get-put-some k r.token_hash (entry_of r scopes) m.by_token x h) [
            | inl (same, is_new) ↦
                (r, here.0, sym same, e ∙ ap (λ y. ok y.scopes) (sym is_new), rw is_new refl)
            | inr (_, there) ↦ from k x there
          ]))
  | inr (bad, e) ↦ rw (e, load_rows) (load_rows-FromRows snapshot rows m here.1 from)
]
