-- ===== src/Store/Facts/Search.antt =====
-- What a search may show: only active facts whose scopes the grants cover, and of each only what
-- the grants' depths allow.
use chuvar.Prelude.{
  ℕ, ◌≤◌, Str, true, ◌≡◌, ◌≢◌, refl, sym, ◌∙◌, ◌⊎◌, inl, inr, Option, none, some, List, [], ◌∷◌,
  arith, ok, map, is_empty, length, take, keep_if, All, Elem, Bool-cases, str_eq, str_eq_iff,
  if◌then◌else◌, ◌==◌, ltb, keep_if-Elem, not_empty, all-All, &&-true, length-take, All-take,
  All-of_Elem,
}
use chuvar.Scope.{any_covers}
use chuvar.Store.Types.{Fact, FactRow, GrantedScope, Db, summary, full, facts_depth}
use chuvar.Store.Tables.{All-Elem}
use chuvar.Store.Grants.{is_null}
use chuvar.Store.Depth.{effective_depth, depth_rank, depth_rank_index, index_from}
use chuvar.Store.Depth.Effective.{AllRanked, Allows, depth_rank-lt, effective_depth_iff}
use chuvar.Store.Facts.{
  Engine, to_vector_param, fact_tags, is_candidate, provenance_of, read_at, read_rows, search_facts,
}
use chuvar.Store.Facts.Visibility.{IsUntargeted, tags_visible-all_covered}

abbrev scopes_of : List GrantedScope → List Str
scopes_of = map (λ g. g.scope)

pub summary_iff : (d : Str) (n : ℕ) → depth_rank d ≡ ok n → str_eq d summary ≡ (n == 0)
unfolding depth_rank depth_rank_index index_from
summary_iff d n h =
    ground (
      arith,
      str_eq_iff summary d,
      str_eq_iff d summary,
      str_eq_iff facts_depth d,
      str_eq_iff full d,
    )

full_iff : (d : Str) (n : ℕ) → depth_rank d ≡ ok n → str_eq d full ≡ (n == 2)
unfolding depth_rank depth_rank_index index_from
full_iff d n h =
    ground
      (arith, str_eq_iff summary d, str_eq_iff d full, str_eq_iff facts_depth d, str_eq_iff full d)

module _ {F V : Type 0} (engine : Engine F V) (db : Db V) (granted : List GrantedScope) where
  abbrev tags : FactRow V → List Str
  tags = fact_tags engine db

  -- Every scope of the row is covered by a grant of this rank or more.
  abbrev pub AllowedAt : ℕ → FactRow V → Type 0
  AllowedAt k f = All (Allows k granted) (tags f)

  -- A result is an active fact with a scope, all covered. It has the fact's content exactly if the
  -- grants allow rank 1, and its provenance exactly if they allow rank 2.
  pub record Shows (x : Fact) (f : FactRow V) : Type 0 where
    pub stored : Elem f db.facts
    pub is_active : is_null f.invalid_at ≡ true
    pub same_id : x.id ≡ f.id
    pub tagged : tags f ≢ []
    pub covered : All (λ t. any_covers (scopes_of granted) t ≡ true) (tags f)
    pub content : (AllowedAt 1 f × (x.content ≡ f.content)) ⊎ ((¬ AllowedAt 1 f) × (x.content ≡ []))
    pub provenance :
        (AllowedAt 2 f × (x.provenance ≡ some (provenance_of engine db f)))
        ⊎ ((¬ AllowedAt 2 f) × (x.provenance ≡ none))

  module _ (ranked : AllRanked granted) (untargeted : All IsUntargeted (scopes_of granted))
      (fact_scopes : All (λ f. All IsUntargeted (tags f)) db.facts) where
    candidate-covered :
        (f : FactRow V)
        → Elem f db.facts
        → is_candidate engine (scopes_of granted) db f ≡ true
        → (is_null f.invalid_at ≡ true)
          × (tags f ≢ [])
          × All (λ t. any_covers (scopes_of granted) t ≡ true) (tags f)
    unfolding is_candidate
    candidate-covered f m h =
        let (active, visible) = &&-true _ _ h in
        let (some_tag, every) = &&-true _ _ (
          sym (
            tags_visible-all_covered engine.like (scopes_of granted) (tags f) untargeted
              (All-Elem _ db.facts f fact_scopes m))
          ∙ visible) in
        (active, not_empty (tags f) some_tag, all-All _ (tags f) every)

    read_at-Shows :
        (f : FactRow V)
        → Elem f db.facts
        → is_candidate engine (scopes_of granted) db f ≡ true
        → (d : Str) × (effective_depth (tags f) granted ≡ ok d) × Shows (read_at engine db f d) f
    unfolding read_at
    read_at-Shows f m h =
        let (active, tagged, covered) = candidate-covered f m h in
        let (d, n, eq, rank, iff) = effective_depth_iff (tags f) granted ranked in
        (
          d,
          eq,
          record {
            stored = m;
            is_active = active;
            same_id = refl;
            tagged = tagged;
            covered = covered;
            content = elim (Bool-cases (str_eq d summary)) [
              | inl e ↦ rw e (
                  inr (
                    (λ a. absurd (
                        ground (arith, (iff 1 (omega arith)).1 (tagged, a), summary_iff d n rank))),
                    refl,
                  ))
              | inr e ↦
                  rw e
                    (inl (((iff 1 (omega arith)).0 (ground (arith, summary_iff d n rank))).1, refl))
            ];
            provenance = elim (Bool-cases (str_eq d full)) [
              | inl e ↦
                  rw e (inl (((iff 2 (omega arith)).0 (ground (arith, full_iff d n rank))).1, refl))
              | inr e ↦ rw e (
                  inr (
                    (λ a. absurd (
                        ground (
                          arith,
                          (iff 2 (omega arith)).1 (tagged, a),
                          full_iff d n rank,
                          depth_rank-lt d n rank,
                        ))),
                    refl,
                  ))
            ];
          },
        )

    -- each candidate is read, in order
    abbrev Reading : List (FactRow V) → Type 0
    Reading rows =
        (facts : List Fact) × (read_rows engine db granted rows ≡ ok facts)
        × (length facts ≡ length rows)
        × All (λ x. (f : FactRow V) × Shows x f) facts

    read_rows_lem :
        (rows : List (FactRow V))
        → All (λ f. Elem f db.facts × (is_candidate engine (scopes_of granted) db f ≡ true)) rows
        → Reading rows
    unfolding read_rows
    read_rows_lem [] h = ([], refl, refl, tt)
    read_rows_lem (f ∷ rows) h =
        let (d, eq, shows) = read_at-Shows f h.0.0 h.0.1 in
        let (facts, rest, count, every) = read_rows_lem rows h.1 in
        (read_at engine db f d ∷ facts, rw (eq, rest), omega arith, ((f, shows), every))

    abbrev page_size : ℕ → ℕ
    page_size limit = if ltb 0 limit then limit else 20

    -- Where every granted depth is in the vocabulary and no scope granted or stored has a target, a
    -- search with an embedding of 384 numbers or none succeeds. It returns at most the limit (20 if
    -- the limit is 0), and each result shows an active fact all of whose scopes the grants cover,
    -- with content and provenance exactly as the grants' depths allow.
    pub search_facts_lem :
        (query : Str) (embedding : List F) (limit : ℕ) (emb : Option V)
        → to_vector_param engine embedding ≡ ok emb
        → (facts : List Fact) × (search_facts engine query embedding granted limit db ≡ ok facts)
          × (length facts ≤ page_size limit)
          × All (λ x. (f : FactRow V) × Shows x f) facts
    unfolding search_facts
    search_facts_lem query embedding limit emb e = elim (Bool-cases (is_empty granted)) [
      | inl none_ ↦ ([], rw none_, omega arith, tt)
      | inr some_ ↦
          let candidates = keep_if (is_candidate engine (scopes_of granted) db) db.facts in
          let rows = take (page_size limit) (engine.rank query emb candidates) in
          let (facts, eq, count, every) = read_rows_lem rows (
            All-take _ (page_size limit) _ (
              All-of_Elem _ _ (λ f m.
                keep_if-Elem _ f db.facts (engine.rank_selects query emb candidates f m)))) in
          (
            facts,
            rw (some_, e) eq,
            omega (arith, length-take (page_size limit) (engine.rank query emb candidates)),
            every,
          )
    ]
