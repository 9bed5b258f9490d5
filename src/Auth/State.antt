-- ===== src/Auth/State.antt =====
-- internal/auth0/codeflow/state.go: the encrypted state of a login.
use filmstund.Base.{
  ℕ, zero, suc, ◌≡◌, refl, ap, subst, false, Option, none, some, [], ◌∷◌, ◌++◌, length,
  length-append, take, ltb, if◌then◌else◌, arith,
}
use filmstund.Base.Text.{Text}

-- `cipher.AEAD`, without additional data. Sealing takes a nonce and a plaintext.
pub record Aead : Type 0 where
  pub nonce_size : ℕ
  pub seal : Text → Text → Text
  pub open_sealed : Text → Text → Option Text

-- What the package crypto/cipher documents.
pub record IsAuthentic (gcm : Aead) : Type 0 where
  pub opens :
      (nonce plaintext : Text)
      → length nonce ≡ gcm.nonce_size
      → gcm.open_sealed nonce (gcm.seal nonce plaintext) ≡ some plaintext

abbrev pub code_verifier_size : ℕ
code_verifier_size = 96

-- `t[n:]`
unfoldable pub drop : ℕ → Text → Text
drop zero t = t
drop (suc n) [] = []
drop (suc n) (c ∷ t) = drop n t

pub record Verification : Type 0 where
  pub nonce : Text
  pub redirect_url : Text
  pub code_verifier : Text

-- How `State.Open` ends: a slice that is too short panics.
pub data Opened : Type 0 where
  verified : Verification → Opened
  not_decrypted too_short : Opened

unfoldable pub new_state : Aead → Text → Text → Text → Text
new_state gcm nonce code_verifier redirect_url =
    nonce ++ gcm.seal nonce (code_verifier ++ redirect_url)

unfoldable pub contents : Text → Option Text → Opened
unfolding drop
contents nonce none = not_decrypted
contents nonce (some plaintext) =
    if ltb (length plaintext) code_verifier_size
    then too_short
    else verified (record {
      nonce = nonce;
      redirect_url = drop code_verifier_size plaintext;
      code_verifier = take code_verifier_size plaintext;
    })

-- `State.Open`
unfoldable pub open_state : Aead → Text → Opened
unfolding contents
open_state gcm state =
    if ltb (length state) gcm.nonce_size
    then too_short
    else contents (take gcm.nonce_size state)
        (gcm.open_sealed (take gcm.nonce_size state) (drop gcm.nonce_size state))

module _ (s t : Text) (n : ℕ) (size : length s ≡ n) where
  not_short : ltb (length (s ++ t)) n ≡ false
  not_short = ground (arith, length-append s t)

take-append : (s t : Text) (n : ℕ) → length s ≡ n → take n (s ++ t) ≡ s
take-append [] t n e = subst (λ m. take m t ≡ []) e refl
take-append (c ∷ s) t n e =
    subst (λ m. take m (c ∷ (s ++ t)) ≡ c ∷ s) e (ap (λ x. c ∷ x) (take-append s t (length s) refl))

drop-append : (s t : Text) (n : ℕ) → length s ≡ n → drop n (s ++ t) ≡ t
unfolding drop
drop-append [] t n e = subst (λ m. drop m t ≡ t) e refl
drop-append (c ∷ s) t n e =
    subst (λ m. drop m (c ∷ (s ++ t)) ≡ t) e (drop-append s t (length s) refl)

verified_contents :
    (nonce code_verifier redirect_url : Text)
    → length code_verifier ≡ code_verifier_size
    → contents nonce (some (code_verifier ++ redirect_url))
      ≡ verified
          (record { nonce = nonce; redirect_url = redirect_url; code_verifier = code_verifier })
unfolding contents
verified_contents nonce code_verifier redirect_url size =
    rw
      (
        not_short code_verifier redirect_url code_verifier_size size,
        take-append code_verifier redirect_url code_verifier_size size,
        drop-append code_verifier redirect_url code_verifier_size size,
      )
      refl

-- A state gives back the nonce, the code verifier and the URL that it was made of, if the nonce has
-- the size of the cipher and the code verifier has 96 bytes, and the cipher opens what it sealed.
pub open_state-new_state :
    (gcm : Aead) (nonce code_verifier redirect_url : Text)
    → IsAuthentic gcm
    → length nonce ≡ gcm.nonce_size
    → length code_verifier ≡ code_verifier_size
    → open_state gcm (new_state gcm nonce code_verifier redirect_url)
      ≡ verified
          (record { nonce = nonce; redirect_url = redirect_url; code_verifier = code_verifier })
unfolding open_state new_state
open_state-new_state gcm nonce code_verifier redirect_url law fits size =
    let sealed : Text = gcm.seal nonce (code_verifier ++ redirect_url) in
    rw
      (
        not_short nonce sealed gcm.nonce_size fits,
        take-append nonce sealed gcm.nonce_size fits,
        drop-append nonce sealed gcm.nonce_size fits,
        law.opens nonce (code_verifier ++ redirect_url) fits,
      )
      (verified_contents nonce code_verifier redirect_url size)
