-- ===== src/Auth/Handlers/Callback.antt =====
-- What a callback can bring about.
use filmstund.Base.{
  ◌≡◌, ◌⊎◌, refl, sym, ap, ◌∙◌, true, Option, none, some, List, [], ◌∷◌, find, Bool-cases, inl, inr,
  arith,
}
use filmstund.Base.Text.{Text}
use filmstund.Database.{Uuid, User, World, DbError, Result, ok, err, pool, exec}
use filmstund.Dao.Accounts.{is_subject, CreateUpdateUserParams, create_update_user}
use filmstund.Dao.Accounts.SignIn.{Remembers, create_update_user-Remembers}
use filmstund.Database.Execution.{exec_pool-ok}
use filmstund.Session.Client.{
  Principal, Redis, Gob, Config, Cookie, session_cookie, Ended, done, failed, start, cookies_of,
}
use filmstund.Auth.State.{Aead}
use filmstund.Auth.Flow.{
  Claims, Provider, CallbackQuery, flow_panic, invalid_data, exchange_failure, Flow, accepted,
  refused, Login, exchange_code,
}
use filmstund.Auth.Flow.Authenticity.{IsAuthentic, exchange_code-IsAuthentic}
use filmstund.Auth.Handlers.{
  Reply, redirect, bad_request, internal_server_error, panicked, Response, Site, Ids, principal_of,
  starts_with_slash, session_for, with_claims, start_new_session, welcome, logged, login_callback,
  is_empty, user_params,
}

-- Every redirect of a response stays on the server.
abbrev pub IsLocal : List Reply → Type 0
IsLocal (redirect url ∷ []) = starts_with_slash url ≡ true
IsLocal (bad_request message ∷ []) = Unit
IsLocal (internal_server_error ∷ []) = Unit
IsLocal (panicked ∷ []) = Unit
IsLocal _ = ⊥

module _ {S : Type 0} (redis : Redis S) (gob : Gob) (cfg : Config) where
  -- What a session that is started stands on.
  pub record Stands (gcm : Aead) (provider : Provider) (q : CallbackQuery) (ids : Ids)
      (site : Site S) (result : Response × Site S) : Type 0 where
    pub login : Login
    pub authentic : IsAuthentic gcm provider q login
    pub scope : Text
    pub scope_given : login.answer.scope ≡ some scope
    pub user : User
    pub user_row : find (is_subject login.id_token.subject) result.1.world.db.users ≡ some user
    pub session :
        (result.0.cookies ≡ session_cookie cfg.cookie_name ids.session ∷ [])
        × (result.1.store
            ≡ (start redis gob cfg ids.session (principal_of login scope user.id) site.store).2)

  start-cookies :
      (id : Text) (p : Principal) (s : S) (x : Ended × List Cookie × S)
      → start redis gob cfg id p s ≡ x
      → x.1 ≡ cookies_of redis gob cfg x.0 id
  unfolding start
  start-cookies id p s x e =
      ap (λ (y : Ended × List Cookie × S). y.1) (sym e)
      ∙ ap (λ (y : Ended × List Cookie × S). cookies_of redis gob cfg y.0 id) e

  welcome-IsLocal :
      (url : Text) (x : Ended × List Cookie × Site S) → IsLocal (welcome url x).0.replies
  unfolding starts_with_slash
  welcome-IsLocal url (failed, cookies, site) = tt
  welcome-IsLocal url (done, cookies, site) = elim (Bool-cases (starts_with_slash url)) [
    | inl slash ↦ ground (arith, slash)
    | inr other ↦ ground (arith, other)
  ]

  logged-IsLocal :
      (f : Flow Login) (ids : Ids) (site : Site S)
      → IsLocal (logged redis gob cfg f ids site).0.replies
  logged-IsLocal (refused flow_panic) ids site = tt
  logged-IsLocal (refused invalid_data) ids site = tt
  logged-IsLocal (refused exchange_failure) ids site = tt
  logged-IsLocal (accepted l) ids site =
      welcome-IsLocal l.redirect_url (start_new_session redis gob cfg l ids site)

  -- A callback gets one reply, and no redirect but to a URL that begins with a slash, whatever URL
  -- the login was begun with.
  pub login_callback-IsLocal :
      (gcm : Aead) (provider : Provider) (q : CallbackQuery) (ids : Ids) (site : Site S)
      → IsLocal (login_callback redis gob cfg gcm provider q ids site).0.replies
  unfolding login_callback
  login_callback-IsLocal gcm provider q ids site = elim (Bool-cases (is_empty q.error)) [
    | inl none_given ↦ rw none_given (logged-IsLocal (exchange_code gcm provider q) ids site)
    | inr given ↦ rw given tt
  ]

  module _ (gcm : Aead) (provider : Provider) (q : CallbackQuery) (ids : Ids) (site : Site S) where
    session_for-Stands :
        (l : Login) (scope : Text) (c : CreateUpdateUserParams)
        → IsAuthentic gcm provider q l
        → l.answer.scope ≡ some scope
        → c.subject ≡ l.id_token.subject
        → (r : Result DbError Uuid) (w : World)
        → exec pool (create_update_user c ids.user ids.feed) site.world ≡ (r, w)
        → ((welcome l.redirect_url
              (session_for redis gob cfg l scope ids (r, w) site.store)).0.cookies
            ≡ [])
          ⊎ Stands gcm provider q ids site
              (welcome l.redirect_url (session_for redis gob cfg l scope ids (r, w) site.store))
    session_for-Stands l scope c authentic scoped same (err e) w run = inl refl
    session_for-Stands l scope c authentic scoped same (ok id) w run =
        started (start redis gob cfg ids.session (principal_of l scope id) site.store) refl
      where
        signed_in :
            (v : User) × (find (is_subject c.subject) w.db.users ≡ some v)
            × (v.id ≡ id)
            × Remembers c site.world.now site.world.db v
        signed_in =
            create_update_user-Remembers c ids.user ids.feed site.world.now site.world.db w.db id
              (exec_pool-ok _ site.world w id run)

        started :
            (x : Ended × List Cookie × S)
            → start redis gob cfg ids.session (principal_of l scope id) site.store ≡ x
            → ((welcome l.redirect_url (x.0, x.1, record { world = w; store = x.2 })).0.cookies
                ≡ [])
              ⊎ Stands gcm provider q ids site
                  (welcome l.redirect_url (x.0, x.1, record { world = w; store = x.2 }))
        started (failed, cookies, s') e =
            inl (
              start-cookies ids.session (principal_of l scope id) site.store (failed, cookies, s')
                e)
        started (done, cookies, s') e = inr (record {
          login = l;
          authentic = authentic;
          scope = scope;
          scope_given = scoped;
          user = signed_in.0;
          user_row = rw same at signed_in.1;
          session = (
            start-cookies ids.session (principal_of l scope id) site.store (done, cookies, s') e,
            rw signed_in.2 (ap (λ (x : Ended × List Cookie × S). x.2) (sym e)),
          );
        })

    with_claims-Stands :
        (l : Login) (c : Option Claims) (scope : Option Text)
        → IsAuthentic gcm provider q l
        → l.answer.scope ≡ scope
        → ((welcome l.redirect_url (with_claims redis gob cfg c scope l ids site)).0.cookies ≡ [])
          ⊎ Stands gcm provider q ids site
              (welcome l.redirect_url (with_claims redis gob cfg c scope l ids site))
    with_claims-Stands l none scope authentic e = inl refl
    with_claims-Stands l (some c) none authentic e = inl refl
    with_claims-Stands l (some c) (some scope) authentic e =
        let x =
          exec pool (create_update_user (user_params l.id_token c) ids.user ids.feed) site.world in
        session_for-Stands l scope (user_params l.id_token c) authentic e refl x.0 x.1 refl

    logged-Stands :
        (f : Flow Login)
        → exchange_code gcm provider q ≡ f
        → ((logged redis gob cfg f ids site).0.cookies ≡ [])
          ⊎ Stands gcm provider q ids site (logged redis gob cfg f ids site)
    unfolding start_new_session
    logged-Stands (refused flow_panic) e = inl refl
    logged-Stands (refused invalid_data) e = inl refl
    logged-Stands (refused exchange_failure) e = inl refl
    logged-Stands (accepted l) e =
        with_claims-Stands l l.id_token.claims l.answer.scope
          (exchange_code-IsAuthentic gcm provider q l e) refl

    -- A callback sets no cookie, or it starts one session under the new identifier: for an authentic
    -- login, and for the user whose row has the subject of the verified ID token.
    pub login_callback-Stands :
        ((login_callback redis gob cfg gcm provider q ids site).0.cookies ≡ [])
        ⊎ Stands gcm provider q ids site (login_callback redis gob cfg gcm provider q ids site)
    unfolding login_callback
    login_callback-Stands = elim (Bool-cases (is_empty q.error)) [
      | inl none_given ↦ rw none_given (logged-Stands (exchange_code gcm provider q) refl)
      | inr given ↦ rw given (inl refl)
    ]
