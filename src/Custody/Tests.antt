-- ===== src/Custody/Tests.antt =====
-- A data key, wrapped and unwrapped.
use chuvar.Prelude.{Str, codes, ◌≡◌, refl, [], ◌∷◌, ok}
use chuvar.Custody.{wrap, unwrap, seal, unwrap-wrap}
use chuvar.Api.Fixtures.{plain_aead, plain_key}

abbrev dek : Str
dek = codes "0123456789abcdef0123456789abcdef"

wrapped_run : wrap plain_key (5 ∷ []) dek ≡ ok (5 ∷ 7 ∷ dek)
unfolding wrap seal
wrapped_run = refl

unwrap-wrap_example :
    unwrap (λ raw. plain_aead) plain_key (5 ∷ 7 ∷ dek) ≡ ok (record { aead = plain_aead })
unwrap-wrap_example =
    (unwrap-wrap (λ raw. plain_aead) plain_key (5 ∷ []) dek (5 ∷ 7 ∷ dek) refl wrapped_run).1
