-- ===== src/Tests/Logins.antt =====
-- The theorems on the state of a login and on batches of users at concrete inputs.
use filmstund.Base.{◌≡◌, ◌⊎◌, refl, some, none, [], ◌∷◌}
use filmstund.Base.Text.{Text, bytes}
use filmstund.Encoding.Base64.{encode, be_bytes}
use filmstund.Auth.State.{Aead, new_state, open_state, verified, open_state-new_state}
use filmstund.Database.Execution.{reachable}
use filmstund.Session.Client.{Gob}
use filmstund.Auth.Flow.{IdToken, TokenAnswer, Provider, CallbackQuery}
use filmstund.Auth.Handlers.{Ids, Site, login_callback}
use filmstund.Auth.Handlers.Callback.{
  Stands, IsLocal, login_callback-Stands, login_callback-IsLocal,
}
use filmstund.Tests.Samples.{club}
use filmstund.Tests.Sessions.{Store, redis, cfg, empty}

-- A cipher that only appends a tag.
abbrev plain : Aead
plain = record {
  nonce_size = 12;
  seal = λ nonce plaintext. 84 ∷ plaintext;
  open_sealed = λ nonce sealed. elim sealed [ [] ↦ none | _ ∷ plaintext ↦ some plaintext ];
}

abbrev nonce : Text
nonce = bytes "0123456789ab"

abbrev verifier : Text
verifier = be_bytes 96 12345

open_state-new_state_example :
    open_state plain (new_state plain nonce verifier (bytes "/showings"))
    ≡ verified
        (record { nonce = nonce; redirect_url = bytes "/showings"; code_verifier = verifier })
unfolding be_bytes
open_state-new_state_example =
    open_state-new_state plain nonce verifier (bytes "/showings") (record { opens = λ n p e. refl })
      refl refl

abbrev answer : TokenAnswer
answer = record {
  token = record {
    access_token = bytes "at";
    token_type = bytes "Bearer";
    refresh_token = [];
    expiry = 100;
  };
  id_token = some (bytes "jwt");
  scope = some (bytes "openid email");
}

abbrev id_token : IdToken
id_token = record {
  subject = bytes "auth0|";
  nonce = encode nonce;
  expiry = 100;
  claims = some (record {
    given_name = bytes "Anna";
    family_name = bytes "Berg";
    nickname = bytes "annab";
    picture = bytes "https://b.se/anna.png";
    email = bytes "anna@b.se";
  });
}

-- A provider that accepts every code and every token.
abbrev provider : Provider
provider = record {
  decode = λ s. some s;
  exchange = λ code verifier. some answer;
  verify = λ raw. some id_token;
}

abbrev callback : CallbackQuery
callback = record {
  error = [];
  error_description = [];
  state = new_state plain nonce verifier (bytes "/showings");
  code = bytes "code";
}

abbrev ids : Ids
ids = record { session = bytes "s1"; user = 50; feed = 51 }

-- An encoding that keeps the subject.
abbrev subjects : Gob
subjects = record { encode = λ p. some p.subject; decode = λ t. none }

abbrev before : Site Store
before = record { world = reachable club 5; store = empty }

login_callback-Stands_example :
    ((login_callback redis subjects cfg plain provider callback ids before).0.cookies ≡ [])
    ⊎ Stands redis subjects cfg plain provider callback ids before
        (login_callback redis subjects cfg plain provider callback ids before)
login_callback-Stands_example =
    login_callback-Stands redis subjects cfg plain provider callback ids before

login_callback-IsLocal_example :
    IsLocal (login_callback redis subjects cfg plain provider callback ids before).0.replies
login_callback-IsLocal_example =
    login_callback-IsLocal redis subjects cfg plain provider callback ids before
