-- ===== src/Custody.antt =====
-- backend/internal/custody/custody.go: a symmetric key, and sealing under it. AES-GCM and the source
-- of random bytes are the caller's.
mod Tests
use chuvar.Prelude.{
  ℕ, Str, ◌≡◌, refl, Option, none, some, ◌++◌, Result, ok, err, ◌>>=◌, length, take, ◌==◌, ltb,
  Bool-cases, inl, inr, false, length-append, ==→eq, if◌then◌else◌, arith, ap, [], ◌∷◌, zero, suc,
  ◌∙◌,
}

-- What cipher.AEAD documents: Open undoes Seal under the same nonce, of the size that it names.
pub record Aead : Type 0 where
  pub nonce_size : ℕ
  pub seal_bytes : Str → Str → Str
  pub open_bytes : Str → Str → Option Str
  pub opens :
      (nonce plaintext : Str)
      → length nonce ≡ nonce_size
      → open_bytes nonce (seal_bytes nonce plaintext) ≡ some plaintext

pub data CustodyError : Type 0 where
  key_length blob_too_short cannot_open : CustodyError

abbrev pub key_len : ℕ
key_len = 32

pub record Key : Type 0 where
  pub aead : Aead

abbrev pub drop : ℕ → Str → Str
drop zero s = s
drop (suc n) [] = []
drop (suc n) (x ∷ s) = drop n s

-- NewKey: `gcm` is aes.NewCipher and cipher.NewGCM over key material of a length that they take.
unfoldable pub new_key : (Str → Aead) → Str → Result CustodyError Key
new_key gcm raw = if length raw == key_len then ok (record { aead = gcm raw }) else err key_length

-- Seal, with the nonce that rand.Read gives.
unfoldable pub seal : Key → Str → Str → Str
seal key nonce plaintext = nonce ++ key.aead.seal_bytes nonce plaintext

unfoldable pub open_blob : Key → Str → Result CustodyError Str
open_blob key blob =
    if ltb (length blob) key.aead.nonce_size
    then err blob_too_short
    else elim (key.aead.open_bytes (take key.aead.nonce_size blob)
        (drop key.aead.nonce_size blob)) [ none ↦ err cannot_open | some plaintext ↦ ok plaintext ]

unfoldable pub wrap : Key → Str → Str → Result CustodyError Str
unfolding seal
wrap key nonce dek = if length dek == key_len then ok (seal key nonce dek) else err key_length

unfoldable pub unwrap : (Str → Aead) → Key → Str → Result CustodyError Key
unfolding open_blob new_key
unwrap gcm key wrapped = do raw ← open_blob key wrapped; new_key gcm raw

take-append : (n : ℕ) (s t : Str) → length s ≡ n → take n (s ++ t) ≡ s
take-append zero [] t h = refl
take-append zero (x ∷ s) t h = absurd (omega arith)
take-append (suc n) [] t h = absurd (omega arith)
take-append (suc n) (x ∷ s) t h = ap (λ r. x ∷ r) (take-append n s t (omega arith))

drop-append : (n : ℕ) (s t : Str) → length s ≡ n → drop n (s ++ t) ≡ t
drop-append zero [] t h = refl
drop-append zero (x ∷ s) t h = absurd (omega arith)
drop-append (suc n) [] t h = absurd (omega arith)
drop-append (suc n) (x ∷ s) t h = drop-append n s t (omega arith)

long_enough : (s t : Str) (n : ℕ) → length s ≡ n → ltb (length (s ++ t)) n ≡ false
long_enough s t n h = ground (arith, length-append s t)

-- What a key has sealed, under a nonce of the size of its cipher, that key opens again.
pub open_blob-seal :
    (key : Key) (nonce plaintext : Str)
    → length nonce ≡ key.aead.nonce_size
    → open_blob key (seal key nonce plaintext) ≡ ok plaintext
unfolding open_blob seal
open_blob-seal key nonce plaintext h =
    let sealed = key.aead.seal_bytes nonce plaintext in
    rw (
      long_enough nonce sealed key.aead.nonce_size h,
      take-append key.aead.nonce_size nonce sealed h,
      drop-append key.aead.nonce_size nonce sealed h,
      key.aead.opens nonce plaintext h,
    )

-- A data key that is wrapped under a master key unwraps to the key over the same material; material
-- of another length than a key's is never wrapped.
pub unwrap-wrap :
    (gcm : Str → Aead) (master : Key) (nonce dek wrapped : Str)
    → length nonce ≡ master.aead.nonce_size
    → wrap master nonce dek ≡ ok wrapped
    → (length dek ≡ key_len) × (unwrap gcm master wrapped ≡ ok (record { aead = gcm dek }))
unfolding wrap unwrap new_key
unwrap-wrap gcm master nonce dek wrapped size h = elim (Bool-cases (length dek == key_len)) [
  | inl e ↦
      let sealed : wrapped ≡ seal master nonce dek = ground arith in
      let opened : open_blob master wrapped ≡ ok dek =
        ap (open_blob master) sealed ∙ open_blob-seal master nonce dek size in
      (==→eq _ _ e, rw (opened, new_key, e))
  | inr e ↦ absurd (ground arith)
]
