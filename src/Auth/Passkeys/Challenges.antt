-- ===== src/Auth/Passkeys/Challenges.antt =====
-- A challenge can be consumed once, before it expires.
use chuvar.Prelude.{
  ◌≤◌, ◌<◌, Str, true, false, not, ◌≡◌, refl, ap, ◌∙◌, inl, inr, none, some, List, [], ◌∷◌, ◌++◌,
  Bool-cases, any, keep_if, str_eq_refl, ==_refl, ltb, lt→ltb, ok, arith, if◌then◌else◌,
}
use chuvar.Store.Types.{RowId, Time, Context}
use chuvar.Store.Tables.{find, update_where}
use chuvar.Auth.Types.{ChallengeRow, AuthDb}
use chuvar.Auth.Action.{◌>>=◌}
use chuvar.Auth.Passkeys.{
  challenge_for, consumable, upsert_challenge, put_challenge, consume_challenge,
}

module _ (reviewer : RowId) (purpose : Str) where
  stays :
      (now later : Time) (c : ChallengeRow)
      → now ≤ later
      → consumable now reviewer purpose c ≡ false
      → consumable later reviewer purpose c ≡ false
  unfolding consumable
  stays now later c h e = ground arith

  -- What is left after the challenges of one time are consumed has none to consume later.
  none_left :
      (now later : Time) (rows : List ChallengeRow)
      → now ≤ later
      → find
          (consumable later reviewer purpose)
          (keep_if (λ c. not (consumable now reviewer purpose c)) rows)
        ≡ none
  unfolding find
  none_left now later [] h = refl
  none_left now later (c ∷ rows) h = elim (Bool-cases (consumable now reviewer purpose c)) [
    | inl e ↦ rw (e, keep_if) (none_left now later rows h)
    | inr e ↦ rw (e, keep_if, find, stays now later c h e) (none_left now later rows h)
  ]

  miss_consumable :
      (now : Time) (c : ChallengeRow)
      → challenge_for reviewer purpose c ≡ false
      → consumable now reviewer purpose c ≡ false
  unfolding consumable
  miss_consumable now c e = rw e

  module _ (text : Str) (expires_at : Time) where
    overwritten : ChallengeRow → ChallengeRow
    overwritten c = record c { session_data = text; expires_at = expires_at }

    overwritten_text : (c : ChallengeRow) → (overwritten c).session_data ≡ text
    unfolding overwritten
    overwritten_text c = refl

    overwritten-consumable :
        (now : Time) (c : ChallengeRow)
        → challenge_for reviewer purpose c ≡ true
        → consumable now reviewer purpose (overwritten c) ≡ ltb now expires_at
    unfolding overwritten consumable challenge_for
    overwritten-consumable now c e = rw e

    -- In time, the one that was put is found.
    overwritten_found :
        (now : Time) (rows : List ChallengeRow)
        → ltb now expires_at ≡ true
        → any (challenge_for reviewer purpose) rows ≡ true
        → (c : ChallengeRow) × (find
              (consumable now reviewer purpose)
              (update_where (challenge_for reviewer purpose) overwritten rows)
            ≡ some c)
          × (c.session_data ≡ text)
    unfolding find update_where
    overwritten_found now [] h e = absurd (cc e)
    overwritten_found now (c ∷ rows) h e = elim (Bool-cases (challenge_for reviewer purpose c)) [
      | inl hit ↦
          (overwritten c, rw (hit, find, overwritten-consumable now c hit, h), overwritten_text c)
      | inr miss ↦
          let (d, found, same) = overwritten_found now rows h (rw miss at e) in
          (d, rw (miss, find, miss_consumable now c miss) found, same)
    ]

    -- From its expiry on, none is.
    expired_lost :
        (now : Time) (rows : List ChallengeRow)
        → ltb now expires_at ≡ false
        → find
            (consumable now reviewer purpose)
            (update_where (challenge_for reviewer purpose) overwritten rows)
          ≡ none
    unfolding find update_where
    expired_lost now [] h = refl
    expired_lost now (c ∷ rows) h = elim (Bool-cases (challenge_for reviewer purpose c)) [
      | inl hit ↦ rw (hit, find, overwritten-consumable now c hit, h) (expired_lost now rows h)
      | inr miss ↦ rw (miss, find, miss_consumable now c miss) (expired_lost now rows h)
    ]

    put_row : ChallengeRow
    put_row = record {
      reviewer_token_id = reviewer;
      purpose = purpose;
      session_data = text;
      expires_at = expires_at;
    }

    put_row-consumable : (now : Time) → consumable now reviewer purpose put_row ≡ ltb now expires_at
    unfolding put_row consumable challenge_for
    put_row-consumable now = rw (==_refl reviewer, str_eq_refl purpose)

    put_row_text : put_row.session_data ≡ text
    unfolding put_row
    put_row_text = refl

    find_appended :
        (now : Time) (rows : List ChallengeRow)
        → any (challenge_for reviewer purpose) rows ≡ false
        → find (consumable now reviewer purpose) (rows ++ put_row ∷ [])
          ≡ (if ltb now expires_at then some put_row else none)
    unfolding find
    find_appended now [] e = rw (put_row-consumable now)
    find_appended now (c ∷ rows) e = elim (Bool-cases (challenge_for reviewer purpose c)) [
      | inl hit ↦ absurd (cc (rw hit at e))
      | inr miss ↦ rw (miss_consumable now c miss) (find_appended now rows (rw miss at e))
    ]

    upserted_found :
        (now : Time) (rows : List ChallengeRow)
        → ltb now expires_at ≡ true
        → (c : ChallengeRow) × (find
              (consumable now reviewer purpose)
              (upsert_challenge reviewer purpose text expires_at rows)
            ≡ some c)
          × (c.session_data ≡ text)
    unfolding upsert_challenge overwritten put_row
    upserted_found now rows h = elim (Bool-cases (any (challenge_for reviewer purpose) rows)) [
      | inl e ↦ rw e (overwritten_found now rows h e)
      | inr e ↦ (put_row, rw e (find_appended now rows e ∙ rw h), put_row_text)
    ]

    upserted_lost :
        (now : Time) (rows : List ChallengeRow)
        → ltb now expires_at ≡ false
        → find
            (consumable now reviewer purpose)
            (upsert_challenge reviewer purpose text expires_at rows)
          ≡ none
    unfolding upsert_challenge overwritten put_row
    upserted_lost now rows h = elim (Bool-cases (any (challenge_for reviewer purpose) rows)) [
      | inl e ↦ rw e (expired_lost now rows h)
      | inr e ↦ rw e (find_appended now rows e ∙ rw h)
    ]

  consume-found :
      (ctx : Context) (db : AuthDb) (c : ChallengeRow)
      → find (consumable ctx.db_now reviewer purpose) db.webauthn_challenges ≡ some c
      → (consume_challenge ctx reviewer purpose db).0 ≡ ok (some c.session_data)
  unfolding consume_challenge ◌>>=◌
  consume-found ctx db c e = rw e

  consume-lost :
      (ctx : Context) (db : AuthDb)
      → find (consumable ctx.db_now reviewer purpose) db.webauthn_challenges ≡ none
      → (consume_challenge ctx reviewer purpose db).0 ≡ ok none
  unfolding consume_challenge ◌>>=◌
  consume-lost ctx db e = rw e

  consume-rest :
      (ctx : Context) (db : AuthDb)
      → (consume_challenge ctx reviewer purpose db).1.webauthn_challenges
        ≡ keep_if (λ c. not (consumable ctx.db_now reviewer purpose c)) db.webauthn_challenges
  unfolding consume_challenge ◌>>=◌
  consume-rest ctx db = refl

  -- A challenge is consumed at most once: before it expires the session that was put last comes
  -- back, once; a consumption at that time or later finds nothing, and so does one at or after the
  -- expiry.
  pub consumed_once :
      (text : Str) (expires_at : Time) (ctx later expired : Context) (db : AuthDb)
      → ctx.db_now < expires_at
      → ctx.db_now ≤ later.db_now
      → expires_at ≤ expired.db_now
      → ((consume_challenge ctx reviewer purpose
            (put_challenge reviewer purpose text expires_at db)).0
          ≡ ok (some text))
        × ((consume_challenge later reviewer purpose
              (consume_challenge ctx reviewer purpose
                (put_challenge reviewer purpose text expires_at db)).1).0
            ≡ ok none)
        × ((consume_challenge expired reviewer purpose
              (put_challenge reviewer purpose text expires_at db)).0
            ≡ ok none)
  unfolding put_challenge
  consumed_once text expires_at ctx later expired db in_time after past =
      let put = put_challenge reviewer purpose text expires_at db in
      let (c, found, same) =
        upserted_found text expires_at ctx.db_now db.webauthn_challenges (lt→ltb _ _ in_time) in
      let spent = (consume_challenge ctx reviewer purpose put).1 in
      (
        consume-found ctx put c found ∙ ap (λ t. ok (some t)) same,
        consume-lost later spent (
            ap (find (consumable later.db_now reviewer purpose)) (consume-rest ctx put)
            ∙ none_left ctx.db_now later.db_now put.webauthn_challenges after),
        consume-lost expired put
            (upserted_lost text expires_at expired.db_now db.webauthn_challenges (ground arith)),
      )
