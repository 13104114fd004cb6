-- ===== src/Broker/Sshsig/SignedData.antt =====
-- That the signed bytes determine what they are a signature of.
use chuvar.Prelude.{
  ℕ, ◌^◌, ◌<◌, Str, ◌≡◌, refl, ap, sym, ◌∙◌, [], ◌∷◌, ◌++◌, arith, length, append_assoc,
}
use chuvar.Broker.Sshsig.{
  Crypto, uint32_bytes, wire_string, hash_algorithm, magic_preamble, signed_data,
}

same_prefix : (p a b : Str) → p ++ a ≡ p ++ b → a ≡ b
same_prefix [] a b h = h
same_prefix (x ∷ p) a b h = same_prefix p a b (cc h)

same_length : (a b r s : Str) → length a ≡ length b → a ++ r ≡ b ++ s → (a ≡ b) × (r ≡ s)
same_length [] [] r s n h = (refl, h)
same_length [] (y ∷ b) r s n h = absurd (omega arith)
same_length (x ∷ a) [] r s n h = absurd (omega arith)
same_length (x ∷ a) (y ∷ b) r s n h =
    let (e, rest) = same_length a b r s (omega arith) (cc h) in (cc (h, e), rest)

-- Four bytes give back a number below 2^32.
uint32_injective :
    (a b : ℕ) (r s : Str)
    → a < 2 ^ 32
    → b < 2 ^ 32
    → uint32_bytes a ++ r ≡ uint32_bytes b ++ s
    → (a ≡ b) × (r ≡ s)
unfolding uint32_bytes
uint32_injective a b r s ha hb h = (ground arith, cc h)

-- The field at the head of two equal texts is the same, and so is what follows.
wire_string_injective :
    (a b r s : Str)
    → length a < 2 ^ 32
    → length b < 2 ^ 32
    → wire_string a ++ r ≡ wire_string b ++ s
    → (a ≡ b) × (r ≡ s)
unfolding wire_string
wire_string_injective a b r s ha hb h =
    let bytes =
      sym (append_assoc (uint32_bytes (length a)) a r)
      ∙ h
      ∙ append_assoc (uint32_bytes (length b)) b s in
    let (n, rest) = uint32_injective (length a) (length b) (a ++ r) (b ++ s) ha hb bytes in
    same_length a b r s n rest

-- Two requests for which the key signs the same bytes have the same namespace and the same digest
-- of the payload, where lengths fit in 32 bits.
pub signed_data_injective :
    (crypto : Crypto) (ns ns' payload payload' : Str)
    → length ns < 2 ^ 32
    → length ns' < 2 ^ 32
    → length (crypto.sha256 payload) < 2 ^ 32
    → length (crypto.sha256 payload') < 2 ^ 32
    → signed_data crypto ns payload ≡ signed_data crypto ns' payload'
    → (ns ≡ ns') × (crypto.sha256 payload ≡ crypto.sha256 payload')
unfolding signed_data
signed_data_injective crypto ns ns' payload payload' h₁ h₂ h₃ h₄ h =
    let (namespaces, rest) =
      wire_string_injective ns ns' _ _ h₁ h₂ (same_prefix magic_preamble _ _ h) in
    let digests =
      same_prefix (wire_string hash_algorithm) _ _ (same_prefix (wire_string []) _ _ rest) in
    (
      namespaces,
      (wire_string_injective (crypto.sha256 payload) (crypto.sha256 payload') [] [] h₃ h₄
          (ap (λ x. x ++ []) digests)).0,
    )
