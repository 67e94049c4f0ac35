-- ===== src/Crypto/Tests.antt =====
-- Secrets under a key of 32 bytes, with a cipher that does nothing.
use starfire_agent_team.Prelude.{ℕ, zero, suc, ◌≡◌, refl, Option, some, [], ◌∷◌, inr}
use starfire_agent_team.Crypto.{
  Bytes, is_enabled, load_key_from_env, current_encryption_version, encrypt, decrypt_versioned,
}
use starfire_agent_team.Crypto.Laws.{decrypt_versioned-encrypt}

abbrev zeros : ℕ → Bytes
zeros zero = []
zeros (suc n) = 0 ∷ zeros n

abbrev no_seal : Bytes → Bytes → Bytes → Bytes
no_seal key nonce plaintext = plaintext

abbrev no_open : Bytes → Bytes → Bytes → Option Bytes
no_open key nonce value = some value

no_open-no_seal : (k n p : Bytes) → no_open k n (no_seal k n p) ≡ some p
no_open-no_seal k n p = refl

abbrev stored : Bytes
stored = 0 ∷ 0 ∷ 0 ∷ 0 ∷ 0 ∷ 0 ∷ 0 ∷ 0 ∷ 0 ∷ 0 ∷ 0 ∷ 0 ∷ 7 ∷ 8 ∷ []

decrypt_versioned-encrypt_example :
    decrypt_versioned no_open (zeros 32) stored (current_encryption_version (zeros 32))
    ≡ some (7 ∷ 8 ∷ [])
unfolding encrypt is_enabled
decrypt_versioned-encrypt_example =
    decrypt_versioned-encrypt no_seal no_open (zeros 12) (zeros 32) (zeros 32) (7 ∷ 8 ∷ []) stored
      no_open-no_seal refl (inr refl) refl

-- A raw key of 32 bytes that base64 can decode, to 24 bytes.
abbrev to_24 : Bytes → Option Bytes
to_24 text = some (zeros 24)

raw_key_refused : load_key_from_env to_24 (zeros 32) ≡ []
unfolding load_key_from_env
raw_key_refused = refl
