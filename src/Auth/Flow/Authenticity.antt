-- ===== src/Auth/Flow/Authenticity.antt =====
-- Which callbacks `ExchangeCode` accepts.
use filmstund.Base.{
  ◌+◌, ◌≤◌, ◌≡◌, refl, sym, ap, ◌∙◌, Option, none, some, length, ◌==◌, texts, list_eq_iff,
  Bool-cases, inl, inr, arith,
}
use filmstund.Base.Text.{Text}
use filmstund.Encoding.Base64.{encode}
use filmstund.Auth.State.{
  Aead, Verification, Opened, verified, not_decrypted, too_short, code_verifier_size, open_state,
}
use filmstund.Auth.Flow.{
  IdToken, TokenAnswer, Provider, CallbackQuery, FlowError, invalid_data, Flow, accepted, refused,
  and_then, or_refuse, sized, state_from_base64, opened, validate_state, extract_id_token,
  validate_nonce, Login, exchange_code, exchange_failure, with_nonce, with_answer,
  with_verification,
}

-- A login that stands on a state that opens under the server's key, an exchange with the code
-- verifier of that state, and a verified ID token with its nonce.
pub record IsAuthentic (gcm : Aead) (provider : Provider) (q : CallbackQuery) (l : Login)
    : Type 0 where
  pub state : Text
  pub verification : Verification
  pub raw : Text
  pub state_given : provider.decode q.state ≡ some state
  pub state_sized : code_verifier_size + 12 ≤ length state
  pub state_opens : open_state gcm state ≡ verified verification
  pub exchanged : provider.exchange q.code (encode verification.code_verifier) ≡ some l.answer
  pub has_id_token : l.answer.id_token ≡ some raw
  pub id_token_verified : provider.verify raw ≡ some l.id_token
  pub nonce_matches : l.id_token.nonce ≡ encode verification.nonce
  pub url_sealed : l.redirect_url ≡ verification.redirect_url

-- What a chain that ends well went through.
and_then-accepted :
    {A B : Type 0} (m : Flow A) (f : A → Flow B) (b : B)
    → and_then m f ≡ accepted b
    → (a : A) × (m ≡ accepted a) × (f a ≡ accepted b)
unfolding and_then
and_then-accepted (accepted a) f b e = (a, refl, e)
and_then-accepted (refused x) f b e = cc

or_refuse-accepted :
    {A : Type 0} (o : Option A) (e : FlowError) (a : A) → or_refuse o e ≡ accepted a → o ≡ some a
unfolding or_refuse
or_refuse-accepted none e a h = cc
or_refuse-accepted (some b) e a h = cc

accepted-same : {A : Type 0} (a b : A) → accepted a ≡ accepted b → a ≡ b
accepted-same a b h = cc

sized-accepted :
    (t u : Text) → sized t ≡ accepted u → (t ≡ u) × (code_verifier_size + 12 ≤ length t)
sized-accepted t u h = ground arith

opened-accepted : (o : Opened) (v : Verification) → opened o ≡ accepted v → o ≡ verified v
opened-accepted (verified w) v h = cc
opened-accepted not_decrypted v h = cc
opened-accepted too_short v h = cc

validate_nonce-accepted :
    (expected : Text) (t : IdToken) (u : Unit {0})
    → validate_nonce expected t ≡ accepted u
    → t.nonce ≡ encode expected
unfolding validate_nonce
validate_nonce-accepted expected t u h = elim (Bool-cases (t.nonce == encode expected)) [
  | inl same ↦ (list_eq_iff t.nonce (encode expected)).0 same
  | inr other ↦ ground (arith, other, h)
]

module _ (gcm : Aead) (provider : Provider) (q : CallbackQuery) where
  validate_state-accepted :
      (v : Verification)
      → validate_state gcm provider q ≡ accepted v
      → (state : Text) × (provider.decode q.state ≡ some state)
        × (code_verifier_size + 12 ≤ length state)
        × (open_state gcm state ≡ verified v)
  unfolding validate_state state_from_base64
  validate_state-accepted v e =
      let given =
        and_then-accepted (state_from_base64 provider q.state)
          (λ state. opened (open_state gcm state)) v e in
      let decoded =
        and_then-accepted (or_refuse (provider.decode q.state) invalid_data) sized given.0
          given.1 in
      let size = sized-accepted decoded.0 given.0 decoded.2 in
      (
        given.0,
        or_refuse-accepted (provider.decode q.state) invalid_data decoded.0 decoded.1
            ∙ ap (λ t. some t) size.0,
        rw size.0 at size.1,
        opened-accepted (open_state gcm given.0) v given.2,
      )

  extract_id_token-accepted :
      (answer : TokenAnswer) (t : IdToken)
      → extract_id_token provider answer ≡ accepted t
      → (raw : Text) × (answer.id_token ≡ some raw) × (provider.verify raw ≡ some t)
  unfolding extract_id_token
  extract_id_token-accepted answer t e =
      let given =
        and_then-accepted (or_refuse answer.id_token invalid_data)
          (λ raw. or_refuse (provider.verify raw) invalid_data) t e in
      (
        given.0,
        or_refuse-accepted answer.id_token invalid_data given.0 given.1,
        or_refuse-accepted (provider.verify given.0) invalid_data t given.2,
      )

  -- `ExchangeCode` accepts a callback only as an authentic login.
  pub exchange_code-IsAuthentic :
      (l : Login) → exchange_code gcm provider q ≡ accepted l → IsAuthentic gcm provider q l
  unfolding exchange_code
  exchange_code-IsAuthentic l e =
      let valid =
        and_then-accepted (validate_state gcm provider q) (with_verification provider q.code) l e in
      let v : Verification = valid.0 in
      let state = validate_state-accepted v valid.1 in
      let exchanged =
        and_then-accepted
          (or_refuse (provider.exchange q.code (encode v.code_verifier)) exchange_failure)
          (with_answer provider v) l valid.2 in
      let answer : TokenAnswer = exchanged.0 in
      let extracted =
        and_then-accepted (extract_id_token provider answer) (with_nonce v answer) l exchanged.2 in
      let t : IdToken = extracted.0 in
      let raw = extract_id_token-accepted answer t extracted.1 in
      let last =
        and_then-accepted (validate_nonce v.nonce t)
          (λ _. accepted (record { answer = answer; id_token = t; redirect_url = v.redirect_url }))
          l extracted.2 in
      let same : l ≡ record { answer = answer; id_token = t; redirect_url = v.redirect_url } =
        sym (accepted-same _ l last.2) in
      rw same (record {
        state = state.0;
        verification = v;
        raw = raw.0;
        state_given = state.1;
        state_sized = state.2;
        state_opens = state.3;
        exchanged =
            or_refuse-accepted (provider.exchange q.code (encode v.code_verifier)) exchange_failure
              answer exchanged.1;
        has_id_token = raw.1;
        id_token_verified = raw.2;
        nonce_matches = validate_nonce-accepted v.nonce t last.0 last.1;
        url_sealed = refl;
      })
