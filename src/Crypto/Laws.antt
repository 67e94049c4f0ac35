-- ===== src/Crypto/Laws.antt =====
-- A stored secret is read back.
use starfire_agent_team.Prelude.{
  ◌+◌, ◌≡◌, refl, true, false, Option, some, [], ◌∷◌, ◌++◌, arith, length, Bool-cases, inl, inr,
  ◌⊎◌, true-ne-false, subst, ap,
}
use starfire_agent_team.Crypto.{
  Bytes, nonce_size, take, drop, is_enabled, current_encryption_version, encrypt, decrypt,
  decrypt_versioned,
}

take-append : (xs ys : Bytes) → take (length xs) (xs ++ ys) ≡ xs
take-append [] ys = refl
take-append (x ∷ xs) ys = ap (λ zs. x ∷ zs) (take-append xs ys)

drop-append : (xs ys : Bytes) → drop (length xs) (xs ++ ys) ≡ ys
drop-append [] ys = refl
drop-append (x ∷ xs) ys = drop-append xs ys

length-append : (xs ys : Bytes) → length (xs ++ ys) ≡ length xs + length ys
length-append [] ys = omega arith
length-append (x ∷ xs) ys = ground (arith, length-append xs ys)

module _ (seal : Bytes → Bytes → Bytes → Bytes) (open_ : Bytes → Bytes → Bytes → Option Bytes)
    (opens : (k n p : Bytes) → open_ k n (seal k n p) ≡ some p) where
  decrypt-sealed :
      (nonce key plaintext : Bytes)
      → length nonce ≡ nonce_size
      → is_enabled key ≡ true
      → decrypt open_ key (nonce ++ seal key nonce plaintext) ≡ some plaintext
  unfolding decrypt
  decrypt-sealed nonce key plaintext size on =
      let sealed = seal key nonce plaintext in
      ground (
        arith,
        on,
        size,
        length-append nonce sealed,
        subst (λ n. take n (nonce ++ sealed) ≡ nonce) size (take-append nonce sealed),
        subst (λ n. drop n (nonce ++ sealed) ≡ sealed) size (drop-append nonce sealed),
        opens key nonce plaintext,
      )

-- What is encrypted and stored with the version of its time is read back, where the key was not
-- changed since, or none was set when it was stored: turning encryption on keeps old secrets readable.
pub decrypt_versioned-encrypt :
    (seal : Bytes → Bytes → Bytes → Bytes) (open_ : Bytes → Bytes → Bytes → Option Bytes)
    (nonce key later plaintext value : Bytes)
    → ((k n p : Bytes) → open_ k n (seal k n p) ≡ some p)
    → length nonce ≡ nonce_size
    → (is_enabled key ≡ false) ⊎ (later ≡ key)
    → encrypt seal (some nonce) key plaintext ≡ some value
    → decrypt_versioned open_ later value (current_encryption_version key) ≡ some plaintext
unfolding encrypt decrypt_versioned current_encryption_version
decrypt_versioned-encrypt seal open_ nonce key later plaintext value opens size keys e =
    elim (Bool-cases (is_enabled key)) [
      | inl on ↦ elim keys [
        | inl off ↦ absurd (true-ne-false on off)
        | inr same ↦ ground (
          arith,
          on,
          same,
          ap is_enabled same,
          decrypt-sealed seal open_ opens nonce key plaintext size on,
          ap (λ k. decrypt open_ k (nonce ++ seal key nonce plaintext)) same,
        )
      ]
      | inr off ↦ ground (arith, off)
    ]
