-- ===== src/Crypto.antt =====
-- crypto/aes.go: secrets under AES-256-GCM, or in plain where there is no key. The cipher is the
-- parameters `seal` and `open`, base64 is `decode`; the nonce comes in, `none` when reading random
-- bytes fails.
pub mod Laws
mod Tests
use starfire_agent_team.Prelude.{
  ℕ, zero, suc, Bool, true, false, Option, none, some, List, [], ◌∷◌, ◌++◌, if◌then◌else◌, eqb, ltb,
  length,
}

abbrev pub Bytes : Type 0
Bytes = List ℕ

abbrev pub nonce_size : ℕ
nonce_size = 12

abbrev pub take : ℕ → Bytes → Bytes
take zero xs = []
take (suc n) [] = []
take (suc n) (x ∷ xs) = x ∷ take n xs

abbrev pub drop : ℕ → Bytes → Bytes
drop zero xs = xs
drop (suc n) [] = []
drop (suc n) (x ∷ xs) = drop n xs

-- The key, [] where none is loaded.
unfoldable pub is_enabled : Bytes → Bool
is_enabled key = eqb (length key) 32

-- What SECRETS_ENCRYPTION_KEY loads, [] where it is unset or refused.
unfoldable pub load_key_from_env : (Bytes → Option Bytes) → Bytes → Bytes
load_key_from_env decode [] = []
load_key_from_env decode (c ∷ cs) = elim (decode (c ∷ cs)) [
  | none ↦ if eqb (length (c ∷ cs)) 32 then c ∷ cs else []
  | some decoded ↦ if eqb (length decoded) 32 then decoded else []
]

unfoldable pub current_encryption_version : Bytes → ℕ
unfolding is_enabled
current_encryption_version key = if is_enabled key then 1 else 0

module _ (seal : Bytes → Bytes → Bytes → Bytes) where
  unfoldable pub encrypt : Option Bytes → Bytes → Bytes → Option Bytes
  encrypt random key plaintext =
      if is_enabled key
      then elim random [ none ↦ none | some nonce ↦ some (nonce ++ seal key nonce plaintext) ]
      else some plaintext

module _ (open_ : Bytes → Bytes → Bytes → Option Bytes) where
  unfoldable pub decrypt : Bytes → Bytes → Option Bytes
  decrypt key value =
      if is_enabled key
      then (if ltb (length value) nonce_size
          then none
          else open_ key (take nonce_size value) (drop nonce_size value))
      else some value

  unfoldable pub decrypt_versioned : Bytes → Bytes → ℕ → Option Bytes
  decrypt_versioned key value version =
      if eqb version 0
      then some value
      else if eqb version 1
      then (if is_enabled key then decrypt key value else none)
      else none
