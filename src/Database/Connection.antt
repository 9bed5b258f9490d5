-- ===== src/Database/Connection.antt =====
-- Sending statements: on the pool, where each is committed by itself, or in the transaction that
-- `TX` opened. A statement that fails has no effect; in a transaction it also aborts the
-- transaction, so that every later statement and the commit are refused, as PostgreSQL documents.
-- Whether the server can be reached at each call is the list `faults`, which nobody controls.
use filmstund.Base.{ℕ, Bool, true, false, Option, none, some, List, [], ◌∷◌, if◌then◌else◌}
use filmstund.Database.Schema.{Db}

pub data DbError : Type 0 where
  no_rows unique_violation foreign_key_violation check_violation : DbError
  not_null_violation string_too_long : DbError
  bad_scan in_failed_transaction connection_lost : DbError

pub data Result (E A : Type 0) : Type 0 where
  ok : A → Result E A
  err : E → Result E A

-- One SQL statement, run at a time: its rows and the new tables, or an error.
abbrev pub Statement : Type 0 → Type 0
Statement A = ℕ → Db → Result DbError (A × Db)

pub record Tx : Type 0 where
  pub work : Db
  pub aborted : Bool

-- What a request handler acts on. `now` is the time at which the request is served.
pub record World : Type 0 where
  pub db : Db
  pub tx : Option Tx
  pub faults : List Bool
  pub now : ℕ

-- `dao.New(db.Pool)` or `dao.New(tx)`.
pub data Handle : Type 0 where
  pool in_tx : Handle

abbrev pub Action : Type 0 → Type 0 → Type 0
Action E A = World → Result E A × World

infixl 5 ◌>>=◌ ◌>>◌
unfoldable pub ◌>>=◌ : {E A B : Type 0} → Action E A → (A → Action E B) → Action E B
◌>>=◌ m f w = let (r, w') = m w in elim r [ ok a ↦ f a w' | err e ↦ (err e, w') ]

abbrev pub ◌>>◌ : {E A B : Type 0} → Action E A → Action E B → Action E B
m >> k = m >>= λ _. k

module _ {E A : Type 0} where
  unfoldable pub pure : A → Action E A
  pure a w = (ok a, w)

  unfoldable pub raise : E → Action E A
  raise e w = (err e, w)

-- Whether the next call to the server fails, and the calls that remain.
abbrev pub is_down : List Bool → Bool
is_down [] = false
is_down (b ∷ bs) = b

abbrev pub later : List Bool → List Bool
later [] = []
later (b ∷ bs) = bs

module _ {A : Type 0} where
  -- On the pool: the tables change as soon as the statement succeeds.
  abbrev pub answered : Bool → Result DbError (A × Db) → World → Result DbError A × World
  answered true r w = (err connection_lost, w)
  answered false (ok (a, db')) w = (ok a, record w { db = db' })
  answered false (err e) w = (err e, w)

  on_pool : Statement A → Action DbError A
  on_pool s w = answered (is_down w.faults) (s w.now w.db) (record w { faults = later w.faults })

  -- In a transaction: only its own view of the tables changes.
  abbrev pub step_tx : Bool → Bool → Result DbError (A × Db) → Tx → Result DbError A × Tx
  step_tx true down r t = (err in_failed_transaction, t)
  step_tx false true r t = (err connection_lost, record t { aborted = true })
  step_tx false false (ok (a, db')) t = (ok a, record t { work = db' })
  step_tx false false (err e) t = (err e, record t { aborted = true })

  abbrev pub on_open_tx : Statement A → Option Tx → World → Result DbError A × World
  on_open_tx s none w = (err connection_lost, w)
  on_open_tx s (some t) w =
      let (r, t') = step_tx t.aborted (is_down w.faults) (s w.now t.work) t in
      (r, record w { tx = some t'; faults = later w.faults })

  on_tx : Statement A → Action DbError A
  on_tx s w = on_open_tx s w.tx w

  unfoldable pub exec : Handle → Statement A → Action DbError A
  unfolding on_pool on_tx
  exec pool s = on_pool s
  exec in_tx s = on_tx s

-- `DB.TX`, without the closures that it returns.
abbrev pub begin_if : Bool → World → Result DbError (Unit {0}) × World
begin_if true w = (err connection_lost, w)
begin_if false w = (ok tt, record w { tx = some (record { work = w.db; aborted = false }) })

unfoldable pub begin : Action DbError (Unit {0})
begin w = begin_if (is_down w.faults) (record w { faults = later w.faults })

abbrev pub commit_of : Option Tx → Bool → World → Result DbError (Unit {0}) × World
commit_of none down w = (err connection_lost, w)
commit_of (some t) down w =
    if t.aborted
    then (err in_failed_transaction, w)
    else if down
    then (err connection_lost, w)
    else (ok tt, record w { db = t.work })

-- `CommitFunc`: the transaction is over whether or not this succeeds.
unfoldable pub commit : Action DbError (Unit {0})
commit w = commit_of w.tx (is_down w.faults) (record w { tx = none; faults = later w.faults })

-- `RollbackFunc`: an error of the rollback itself is only logged.
unfoldable pub rollback : {E : Type 0} → Action E (Unit {0})
rollback w = (ok tt, record w { tx = none; faults = later w.faults })

module _ {E A : Type 0} where
  -- `if err != nil { return nil, e }`
  unfoldable pub or_return : Action DbError A → E → Action E A
  or_return m e w = let (r, w') = m w in elim r [ ok a ↦ (ok a, w') | err _ ↦ (err e, w') ]

  -- `if err != nil { rollback(ctx); return nil, e }`
  unfoldable pub or_rollback : Action DbError A → E → Action E A
  unfolding rollback ◌>>=◌ raise
  or_rollback m e w =
      let (r, w') = m w in elim r [ ok a ↦ (ok a, w') | err _ ↦ (rollback >> raise e) w' ]

  -- An error that the caller looks at itself.
  unfoldable pub attempt : Action DbError A → Action E (Result DbError A)
  attempt m w = let (r, w') = m w in (ok r, w')

unfoldable pub raise_if : {E : Type 0} → Bool → E → Action E (Unit {0})
unfolding raise pure
raise_if true e = raise e
raise_if false e = pure tt
