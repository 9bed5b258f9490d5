-- ===== src/Graph/Movies/Import.antt =====
-- The import of movies imports all of them or none.
use filmstund.Base.{
  ℕ, ◌≡◌, ◌⊎◌, refl, sym, ap, ◌∙◌, true, false, Option, none, some, List, [], ◌∷◌, nat_eq, inl, inr,
  arith,
}
use filmstund.Database.{
  Uuid, Movie, Db, DbError, World, Result, ok, err, in_tx, exec, attempt, pure, commit, or_return,
  ◌>>=◌,
}
use filmstund.Database.Execution.{reachable, inside, raise_if-passes, begin-run, commit-run}
use filmstund.Dao.Movies.{upsert_movie}
use filmstund.Graph.Model.{GraphError, no_movies_found, setup_db_failed, insert_movies_failed}
use filmstund.Graph.Showings.{Handler}
use filmstund.Filmstaden.Movies.{FilmstadenMovie}
use filmstund.Graph.Movies.{
  Formats, upsert_params, import_each, movies, fetch_new_movies, current_movies,
}

-- The tables after all the movies, if each of them can be written.
abbrev pub and_rest : (Db → Option Db) → Result DbError (Movie × Db) → Option Db
and_rest f (err e) = none
and_rest f (ok (m, db)) = f db

unfoldable pub imported : Formats → List (Uuid × FilmstadenMovie) → ℕ → Db → Option Db
imported formats [] now db = some db
imported formats ((id, m) ∷ rest) now db =
    and_rest (imported formats rest now) (upsert_movie (upsert_params formats id m) now db)

-- A transaction that a statement has aborted.
abbrev pub broken : Db → Db → ℕ → World
broken db work now = record {
  db = db;
  tx = some (record { work = work; aborted = true });
  faults = [];
  now = now;
}

module _ (formats : Formats) (db : Db) (now : ℕ) where
  import_each-broken :
      (items : List (Uuid × FilmstadenMovie)) (work : Db)
      → import_each formats items (broken db work now) ≡ (ok tt, broken db work now)
  unfolding import_each attempt exec pure ◌>>=◌
  import_each-broken [] work = refl
  import_each-broken ((id, m) ∷ rest) work = import_each-broken rest work

  -- One movie, and then the rest.
  step_over :
      (id : Uuid) (m : FilmstadenMovie) (rest : List (Uuid × FilmstadenMovie)) (w : World)
      → import_each formats ((id, m) ∷ rest) w
        ≡ import_each formats rest (exec in_tx (upsert_movie (upsert_params formats id m)) w).1
  unfolding import_each attempt ◌>>=◌
  step_over id m rest w = refl

  written :
      (id : Uuid) (m : FilmstadenMovie) (work : Db) (r : Result DbError (Movie × Db))
      → upsert_movie (upsert_params formats id m) now work ≡ r
      → (exec in_tx (upsert_movie (upsert_params formats id m)) (inside db work now)).1
        ≡ elim r as (λ _. World) [
          | ok (a, work') ↦ inside db work' now
          | err e ↦ broken db work now
        ]
  unfolding exec
  written id m work (ok (a, work')) e = ground (arith, e)
  written id m work (err d) e = ground (arith, e)

  -- The loop ends with all the movies written, or in a transaction that is aborted.
  abbrev pub Ending : List (Uuid × FilmstadenMovie) → Db → Type 0
  Ending items work =
      ((work' : Db) × (imported formats items now work ≡ some work')
        × (import_each formats items (inside db work now) ≡ (ok tt, inside db work' now)))
      ⊎ ((work' : Db) × (imported formats items now work ≡ none)
          × (import_each formats items (inside db work now) ≡ (ok tt, broken db work' now)))

  nothing_left :
      (work : Db) → import_each formats [] (inside db work now) ≡ (ok tt, inside db work now)
  unfolding import_each pure
  nothing_left work = refl

  after_one :
      (id : Uuid) (m : FilmstadenMovie) (rest : List (Uuid × FilmstadenMovie)) (work : Db)
      → ((work' : Db) → Ending rest work')
      → (r : Result DbError (Movie × Db)) → upsert_movie (upsert_params formats id m) now work ≡ r
      → Ending ((id, m) ∷ rest) work
  unfolding imported
  after_one id m rest work others (ok (a, work')) e = elim (others work') [
    | inl (last, all_in, run) ↦ inl (
      last,
      ap (and_rest (imported formats rest now)) e ∙ all_in,
      step_over id m rest (inside db work now)
          ∙ ap (λ (w : World). import_each formats rest w) (written id m work (ok (a, work')) e)
          ∙ run,
    )
    | inr (last, one_out, run) ↦ inr (
      last,
      ap (and_rest (imported formats rest now)) e ∙ one_out,
      step_over id m rest (inside db work now)
          ∙ ap (λ (w : World). import_each formats rest w) (written id m work (ok (a, work')) e)
          ∙ run,
    )
  ]
  after_one id m rest work others (err d) e = inr (
    work,
    ap (and_rest (imported formats rest now)) e,
    step_over id m rest (inside db work now)
        ∙ ap (λ (w : World). import_each formats rest w) (written id m work (err d) e)
        ∙ import_each-broken rest work,
  )

  import_each-Ending : (items : List (Uuid × FilmstadenMovie)) (work : Db) → Ending items work
  unfolding imported
  import_each-Ending [] work = inl (work, refl, nothing_left work)
  import_each-Ending ((id, m) ∷ rest) work =
      after_one id m rest work (import_each-Ending rest)
        (upsert_movie (upsert_params formats id m) now work) refl

  -- What the handler returns, of the tables with all the movies.
  abbrev pub answer : Option Db → Result GraphError (List Movie) × World
  answer none = (err insert_movies_failed, reachable db now)
  answer (some db') = current_movies (reachable db' now)

  bind-run :
      {A B : Type 0} (m : Handler A) (f : A → Handler B) (w w' : World) (a : A)
      → m w ≡ (ok a, w')
      → (m >>= f) w ≡ f a w'
  unfolding ◌>>=◌
  bind-run m f w w' a e = ground (arith, e)

  commit-broken :
      (work : Db) (k : Unit {0} → Handler (List Movie))
      → (or_return commit insert_movies_failed >>= k) (broken db work now)
        ≡ (err insert_movies_failed, reachable db now)
  unfolding ◌>>=◌ or_return commit
  commit-broken work k = refl

  committed :
      (items : List (Uuid × FilmstadenMovie))
      → Ending items db
      → (import_each formats items >>= λ _.
            or_return commit insert_movies_failed >>= λ _. current_movies)
          (inside db db now)
        ≡ answer (imported formats items now db)
  committed items (inl (last, all_in, run)) =
      bind-run (import_each formats items) _ (inside db db now) (inside db last now) tt run
      ∙ commit-run insert_movies_failed (λ _. current_movies) db last now
      ∙ ap answer (sym all_in)
  committed items (inr (last, one_out, run)) =
      bind-run (import_each formats items) _ (inside db db now) (broken db last now) tt run
      ∙ commit-broken last (λ _. current_movies)
      ∙ ap answer (sym one_out)

-- From a server that answers, with movies to import, the import is all or nothing: if each movie can
-- be written after those before it the answer is the list of the movies then, and if one of them
-- cannot, the handler fails and no movie is written, although the loop goes on after an error.
pub fetch_new_movies-imported :
    (formats : Formats) (count : ℕ) (items : List (Uuid × FilmstadenMovie)) (db : Db) (now : ℕ)
    → nat_eq count 0 ≡ false
    → fetch_new_movies formats (movies count items) (reachable db now)
      ≡ answer formats db now (imported formats items now db)
unfolding fetch_new_movies
fetch_new_movies-imported formats count items db now some_there =
    raise_if-passes (nat_eq count 0) no_movies_found _ (reachable db now) some_there
    ∙ begin-run setup_db_failed _ db now
    ∙ committed formats db now items (import_each-Ending formats db now items db)
