-- ===== src/Broker/Sshsig.antt =====
-- backend/internal/broker/sshsig/sshsig.go: the armored SSHSIG text over a payload. SHA-256, base64
-- and the key's signing operation are the caller's.
pub mod SignedData
use chuvar.Prelude.{
  ℕ, ◌-◌, ◌/◌, ◌%◌, ◌^◌, Str, codes, Bool, true, false, Option, none, some, List, [], ◌∷◌, ◌++◌,
  length, ◌==◌, is_empty, if◌then◌else◌,
}

abbrev pub magic_preamble : Str
magic_preamble = codes "SSHSIG"

abbrev pub hash_algorithm : Str
hash_algorithm = codes "sha256"

abbrev pub line_width : ℕ
line_width = 70

-- binary.BigEndian.PutUint32(b, uint32(v))
unfoldable pub uint32_bytes : ℕ → Str
uint32_bytes v = v / 2 ^ 24 % 2 ^ 8 ∷ v / 2 ^ 16 % 2 ^ 8 ∷ v / 2 ^ 8 % 2 ^ 8 ∷ v % 2 ^ 8 ∷ []

-- What writeString appends.
unfoldable pub wire_string : Str → Str
wire_string s = uint32_bytes (length s) ++ s

-- What the key and the libraries give: SHA-256, base64, the public key's bytes, and the signature
-- blob over a text, or an error.
pub record Signer : Type 0 where
  pub public_key : Str
  pub sign_bytes : Str → Option Str

pub record Crypto : Type 0 where
  pub sha256 : Str → Str
  pub base64 : Str → Str

unfoldable pub signed_data : Crypto → Str → Str → Str
signed_data crypto namespace payload =
    magic_preamble
    ++ (wire_string namespace
        ++ (wire_string [] ++ (wire_string hash_algorithm ++ wire_string (crypto.sha256 payload))))

-- The loop of armor, with the bytes left in the line: each line ends in a newline.
unfoldable pub wrap : ℕ → Str → Str
wrap left [] = if left == line_width then [] else 10 ∷ []
wrap left (c ∷ s) =
    let next = wrap line_width s in
    let same = wrap (left - 1) s in if left == 1 then c ∷ 10 ∷ next else c ∷ same

unfoldable pub armor : Crypto → Str → Str
armor crypto body =
    (codes "-----BEGIN SSH SIGNATURE-----" ++ 10 ∷ [])
    ++ (wrap line_width (crypto.base64 body) ++ (codes "-----END SSH SIGNATURE-----" ++ 10 ∷ []))

-- The outer structure, with version 1.
unfoldable pub envelope : Signer → Str → Str → Str
envelope signer namespace sig_blob =
    magic_preamble
    ++ (uint32_bytes 1
        ++ (wire_string signer.public_key
            ++ (wire_string namespace
                ++ (wire_string [] ++ (wire_string hash_algorithm ++ wire_string sig_blob)))))

-- Sign
unfoldable pub sign_payload : Crypto → Signer → Str → Str → Option Str
sign_payload crypto signer namespace payload =
    if is_empty namespace
    then none
    else elim (signer.sign_bytes (signed_data crypto namespace payload)) [
      | none ↦ none
      | some sig_blob ↦ some (armor crypto (envelope signer namespace sig_blob))
    ]
