-- ===== src/Broker/Cache/Safety.antt =====
-- What a lookup returns, after any order of loads and revocations.
use chuvar.Prelude.{
  ◌+◌, ◌-◌, ◌≤◌, Str, false, ◌≡◌, ◌≢◌, refl, ap, subst, ◌∙◌, inl, inr, none, some, List, [], ◌∷◌,
  ok, arith, Elem, All, All-of_Elem, Distinct, Bool-cases, Option-cases, Result-cases, ltb, ltb→lt,
  ◌<◌, get, put, str_eq, str_eq_iff, str_neq, get-put, get-put_other,
}
use chuvar.Scope.{Scope, validate_capability}
use chuvar.Store.Types.{Time}
use chuvar.Broker.Cache.{
  GrantRow, Entry, expired, Cache, no_maps, new_cache, tombstone_ttl, parse_scopes, entry_of,
  load_rows, apply, remove, lookup,
}
use chuvar.Broker.Cache.Eviction.{
  Keyed, ids, drop-Keyed, drop-gone, drop-still_gone, sweep_lem, sweep-buried, load_rows-Keyed,
  load_rows-FromRows,
}

-- One step of the cache: a reload's swap, or a revocation. Both run under the lock.
pub data Event : Type 0 where
  loaded : Time → List GrantRow → Event
  revoked : Time → Str → Event

unfoldable pub step : Event → Cache → Cache
step (loaded now rows) c = apply now rows c
step (revoked now id) c = remove now id c

-- The steps in their order.
unfoldable pub run : List Event → Cache → Cache
unfolding step
run [] c = c
run (e ∷ events) c = run events (step e c)

-- Grant ids are a primary key: no snapshot has one twice.
abbrev pub IsSnapshot : Event → Type 0
IsSnapshot (loaded now rows) = Distinct (ids rows)
IsSnapshot (revoked now id) = Unit

abbrev time_of : Event → Time
time_of (loaded now rows) = now
time_of (revoked now id) = now

-- The step is at most the tombstones' TTL after `t`, and not before it.
abbrev pub IsWithin : Time → Event → Type 0
IsWithin t e = (t ≤ time_of e) × (time_of e ≤ t + tombstone_ttl)

apply-Keyed :
    (now : Time) (rows : List GrantRow) (c : Cache)
    → Distinct (ids rows)
    → Keyed (apply now rows c).maps
unfolding apply get
apply-Keyed now rows c d =
    (sweep_lem now c.tombstones (load_rows rows no_maps)).0
      (load_rows-Keyed rows no_maps d (All-of_Elem _ rows (λ r m. refl)) (λ k e h. absurd (cc h)))

step-Keyed : (e : Event) (c : Cache) → IsSnapshot e → Keyed c.maps → Keyed (step e c).maps
unfolding step remove
step-Keyed (loaded now rows) c d keyed = apply-Keyed now rows c d
step-Keyed (revoked now id) c d keyed = drop-Keyed id c.maps keyed

run-Keyed :
    (events : List Event) (c : Cache)
    → All IsSnapshot events
    → Keyed c.maps
    → Keyed (run events c).maps
unfolding run
run-Keyed [] c snaps keyed = keyed
run-Keyed (e ∷ events) c snaps keyed =
    run-Keyed events (step e c) snaps.1 (step-Keyed e c snaps.0 keyed)

-- The grant has a tombstone no older than `t`, and no entry.
record Buried (t : Time) (id : Str) (c : Cache) : Type 0 where
  at : Time
  stone : get id c.tombstones ≡ some at
  recent : t ≤ at
  gone : get id c.maps.token_of ≡ none

step-Buried :
    (t : Time) (id : Str) (e : Event) (c : Cache)
    → IsWithin t e
    → Buried t id c
    → Buried t id (step e c)
unfolding step apply remove
step-Buried t id (loaded now rows) c within b =
    let (gone, stone) =
      sweep-buried now c.tombstones (load_rows rows no_maps) id b.at b.stone
        (omega (arith, within.1, b.recent)) in
    record { at = b.at; stone = stone; recent = b.recent; gone = gone }
step-Buried t id (revoked now id') c within b = elim (Bool-cases (str_eq id id')) [
  | inl same ↦ record {
    at = now;
    stone =
        subst (λ x. get id (put x now c.tombstones) ≡ some now) ((str_eq_iff id id').0 same)
          (get-put id now c.tombstones);
    recent = within.0;
    gone = drop-still_gone id id' c.maps b.gone;
  }
  | inr other ↦ record {
    at = b.at;
    stone = get-put_other id id' now c.tombstones (str_neq id id' other) ∙ b.stone;
    recent = b.recent;
    gone = drop-still_gone id id' c.maps b.gone;
  }
]

run-Buried :
    (t : Time) (id : Str) (events : List Event) (c : Cache)
    → All (IsWithin t) events
    → Buried t id c
    → Buried t id (run events c)
unfolding run
run-Buried t id [] c within b = b
run-Buried t id (e ∷ events) c within b =
    run-Buried t id events (step e c) within.1 (step-Buried t id e c within.0 b)

lookup-some :
    (hash : Str → Str) (now : Time) (token : Str) (c : Cache) (e : Entry)
    → lookup hash now token c ≡ some e
    → (get (hash token) c.maps.by_token ≡ some e) × (expired e now ≡ false)
unfolding lookup
lookup-some hash now token c e h = elim (Option-cases (get (hash token) c.maps.by_token)) [
  | inl n ↦ absurd (cc (rw (n, lookup) at h))
  | inr (x, s) ↦ elim (Bool-cases (expired x now)) [
    | inl dead ↦ absurd (ground (arith))
    | inr live ↦ ground arith
  ]
]

-- A revoked grant signs no more. From an empty cache, after any loads and revocations, then the
-- revocation of the grant at time t, then any further loads and revocations from t up to the
-- tombstones' TTL later, whatever snapshots the loads bring, as long as none has a grant id twice,
-- no token finds the grant.
pub revoked_stays_out :
    (hash : Str → Str) (t : Time) (id : Str) (earlier later : List Event)
    → All IsSnapshot earlier
    → All IsSnapshot later
    → All (IsWithin t) later
    → (now : Time) (token : Str) (e : Entry)
    → lookup hash now token (run later (remove t id (run earlier new_cache))) ≡ some e
    → e.grant_id ≢ id
unfolding remove new_cache get
revoked_stays_out hash t id earlier later snaps snaps' within now token e h same =
    let c : Cache = run earlier new_cache in
    let keyed = run-Keyed earlier new_cache snaps (λ k x m. absurd (cc m)) in
    let buried : Buried t id (remove t id c) = record {
      at = t;
      stone = get-put id t c.tombstones;
      recent = omega arith;
      gone = drop-gone id c.maps;
    } in
    let final = run-Buried t id later (remove t id c) within buried in
    let known =
      run-Keyed later (remove t id c) snaps' (drop-Keyed id c.maps keyed) (hash token) e
        (lookup-some hash now token _ e h).0 in
    cc (known, final.gone, ap (λ x. get x (run later (remove t id c)).maps.token_of) same)

parse_scopes_ok :
    (raw : List Str) (out : List Scope)
    → parse_scopes raw ≡ ok out
    → (out ≡ raw) × All (λ s. validate_capability s ≡ ok tt) raw
unfolding parse_scopes
parse_scopes_ok [] out h = (ground arith, tt)
parse_scopes_ok (s ∷ raw) out h = elim (Result-cases (validate_capability s)) [
  | inl (_, e) ↦ elim (Result-cases (parse_scopes raw)) [
    | inl (rest, e') ↦ let (same, valid) = parse_scopes_ok raw rest e' in (ground arith, (e, valid))
    | inr (bad, e') ↦ absurd (ground arith)
  ]
  | inr (bad, e) ↦ absurd (ground arith)
]

-- The snapshot having no grant id twice: what a lookup finds after its load is a row of the loaded snapshot that has the token's hash, with
-- the row's identity and scopes, each a valid capability scope; it has not expired at the time of
-- the lookup, and had no tombstone within the TTL when it was loaded.
pub lookup_lem :
    (hash : Str → Str) (loaded_at now : Time) (rows : List GrantRow) (c : Cache) (token : Str)
    (e : Entry)
    → Distinct (ids rows)
    → lookup hash now token (apply loaded_at rows c) ≡ some e
    → (r : GrantRow) × Elem r rows
      × (r.token_hash ≡ hash token)
      × (e ≡ entry_of r r.scopes)
      × All (λ s. validate_capability s ≡ ok tt) r.scopes
      × (expired e now ≡ false)
      × ((at : Time) → get r.id c.tombstones ≡ some at → tombstone_ttl < loaded_at - at)
unfolding apply get entry_of
lookup_lem hash loaded_at now rows c token e d h =
    let (found, live) = lookup-some hash now token _ e h in
    let within =
      (sweep_lem loaded_at c.tombstones (load_rows rows no_maps)).1 (hash token) e found in
    let (r, there, hashed, parsed, is_entry) =
      load_rows-FromRows rows rows no_maps (All-of_Elem _ rows (λ x m. m)) (λ k x m. absurd (cc m))
        (hash token) e within in
    let (same, valid) = parse_scopes_ok r.scopes e.scopes parsed in
    let known = apply-Keyed loaded_at rows c d (hash token) e found in
    (
      r,
      there,
      hashed,
      is_entry ∙ ap (entry_of r) same,
      valid,
      live,
      λ at stone. elim (Bool-cases (ltb tombstone_ttl (loaded_at - at))) [
        | inl old ↦ ltb→lt _ _ old
        | inr young ↦
            let gone =
              (sweep-buried loaded_at c.tombstones (load_rows rows no_maps) r.id at stone
                (ground arith)).0 in
            absurd (cc (known, gone, is_entry))
      ],
    )
