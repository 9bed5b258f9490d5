-- ===== src/Auth/Flow.antt =====
-- internal/auth0/codeflow/flow.go: what a login callback is worth. The OAuth2 exchange, the
-- verification of ID tokens and the decoding of base64 are parameters.
pub mod Authenticity
use filmstund.Base.{
  ℕ, ◌+◌, ◌≡◌, refl, sym, ap, ◌∙◌, Bool, true, false, Option, none, some, List, [], ◌∷◌, length,
  ltb, if◌then◌else◌, ◌==◌, texts, list_eq_iff, Option-cases, Bool-cases, inl, inr, arith,
}
use filmstund.Base.Text.{Text}
use filmstund.Encoding.Base64.{encode}
use filmstund.Auth.State.{
  Aead, Verification, Opened, verified, not_decrypted, too_short, code_verifier_size, open_state,
}
use filmstund.Session.Client.{Token}

-- The claims that the handlers read, `auth0.IDToken`.
pub record Claims : Type 0 where
  pub given_name : Text
  pub family_name : Text
  pub nickname : Text
  pub picture : Text
  pub email : Text

-- `oidc.IDToken`, and what its method `Claims` decodes.
pub record IdToken : Type 0 where
  pub subject : Text
  pub nonce : Text
  pub expiry : ℕ
  pub claims : Option Claims

-- What an exchange returns: the token, and its extra fields where they are strings.
pub record TokenAnswer : Type 0 where
  pub token : Token
  pub id_token : Option Text
  pub scope : Option Text

pub record Provider : Type 0 where
  pub decode : Text → Option Text
  pub exchange : Text → Text → Option TokenAnswer
  pub verify : Text → Option IdToken

-- `r.URL.Query()` of a callback.
pub record CallbackQuery : Type 0 where
  pub error : Text
  pub error_description : Text
  pub state : Text
  pub code : Text

-- `ErrInvalidData` and `ErrExchangeFailure`; a slice out of range panics.
pub data FlowError : Type 0 where
  invalid_data exchange_failure flow_panic : FlowError

pub data Flow (A : Type 0) : Type 0 where
  accepted : A → Flow A
  refused : FlowError → Flow A

-- `if err != nil { return err }`
unfoldable pub and_then : {A B : Type 0} → Flow A → (A → Flow B) → Flow B
and_then (accepted a) f = f a
and_then (refused e) f = refused e

unfoldable pub or_refuse : {A : Type 0} → Option A → FlowError → Flow A
or_refuse none e = refused e
or_refuse (some a) e = accepted a

-- `StateFromBase64`
abbrev pub sized : Text → Flow Text
sized t = if ltb (length t) (code_verifier_size + 12) then refused invalid_data else accepted t

unfoldable pub state_from_base64 : Provider → Text → Flow Text
unfolding and_then or_refuse
state_from_base64 provider s = and_then (or_refuse (provider.decode s) invalid_data) sized

abbrev pub opened : Opened → Flow Verification
opened (verified v) = accepted v
opened not_decrypted = refused invalid_data
opened too_short = refused flow_panic

unfoldable pub validate_state : Aead → Provider → CallbackQuery → Flow Verification
unfolding and_then state_from_base64
validate_state gcm provider q =
    and_then (state_from_base64 provider q.state) λ state. opened (open_state gcm state)

unfoldable pub extract_id_token : Provider → TokenAnswer → Flow IdToken
unfolding and_then or_refuse
extract_id_token provider answer =
    and_then (or_refuse answer.id_token invalid_data)
      λ raw. or_refuse (provider.verify raw) invalid_data

unfoldable pub validate_nonce : Text → IdToken → Flow (Unit {0})
validate_nonce expected t = if t.nonce == encode expected then accepted tt else refused invalid_data

pub record Login : Type 0 where
  pub answer : TokenAnswer
  pub id_token : IdToken
  pub redirect_url : Text

-- `ExchangeCode`, from its last call to its first.
abbrev pub with_nonce : Verification → TokenAnswer → IdToken → Flow Login
with_nonce v answer id_token =
    and_then (validate_nonce v.nonce id_token)
      λ _. accepted (record { answer = answer; id_token = id_token; redirect_url = v.redirect_url })

abbrev pub with_answer : Provider → Verification → TokenAnswer → Flow Login
with_answer provider v answer = and_then (extract_id_token provider answer) (with_nonce v answer)

abbrev pub with_verification : Provider → Text → Verification → Flow Login
with_verification provider code v =
    and_then (or_refuse (provider.exchange code (encode v.code_verifier)) exchange_failure)
      (with_answer provider v)

unfoldable pub exchange_code : Aead → Provider → CallbackQuery → Flow Login
unfolding and_then or_refuse validate_state extract_id_token validate_nonce
exchange_code gcm provider q =
    and_then (validate_state gcm provider q) (with_verification provider q.code)
