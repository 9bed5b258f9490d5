-- ===== src/Database/Execution.antt =====
-- How the calls of a handler run against a server that answers: one equation for each way to send
-- a statement, so that a handler is run by a chain of them.
use filmstund.Base.{ℕ, ◌≡◌, refl, Bool, true, false, false, none, some, [], arith}
use filmstund.Database.Schema.{Db}
use filmstund.Database.Connection.{
  World, in_tx, pool, Action, DbError, ok, err, Statement, exec, begin, commit, rollback, raise,
  raise_if, or_return, or_rollback, pure, ◌>>=◌,
}

-- A request at time `now` to a server that answers every call.
abbrev pub reachable : Db → ℕ → World
reachable db now = record { db = db; tx = none; faults = []; now = now }

-- The same within a transaction whose view of the tables is `work`.
abbrev pub inside : Db → Db → ℕ → World
inside db work now = record {
  db = db;
  tx = some (record { work = work; aborted = false });
  faults = [];
  now = now;
}

module _ {E A B : Type 0} (s : Statement A) (e : E) (f : A → Action E B) where
  pub pool-run :
      (db db' : Db) (now : ℕ) (a : A)
      → s now db ≡ ok (a, db')
      → (or_return (exec pool s) e >>= f) (reachable db now) ≡ f a (reachable db' now)
  unfolding or_return exec ◌>>=◌
  pool-run db db' now a h = ground arith

  pub pool-fails :
      (db : Db) (now : ℕ) (d : DbError)
      → s now db ≡ err d
      → (or_return (exec pool s) e >>= f) (reachable db now) ≡ (err e, reachable db now)
  unfolding or_return exec ◌>>=◌
  pool-fails db now d h = ground arith

  pub tx-run :
      (db work work' : Db) (now : ℕ) (a : A)
      → s now work ≡ ok (a, work')
      → (or_rollback (exec in_tx s) e >>= f) (inside db work now) ≡ f a (inside db work' now)
  unfolding or_rollback rollback raise exec ◌>>=◌
  tx-run db work work' now a h = ground arith

  pub tx-fails :
      (db work : Db) (now : ℕ) (d : DbError)
      → s now work ≡ err d
      → (or_rollback (exec in_tx s) e >>= f) (inside db work now) ≡ (err e, reachable db now)
  unfolding or_rollback rollback raise exec ◌>>=◌
  tx-fails db work now d h = ground arith

module _ {E B : Type 0} (e : E) (k : Unit {0} → Action E B) where
  pub begin-run :
      (db : Db) (now : ℕ) → (or_return begin e >>= k) (reachable db now) ≡ k tt (inside db db now)
  unfolding or_return begin ◌>>=◌
  begin-run db now = refl

  pub commit-run :
      (db work : Db) (now : ℕ)
      → (or_return commit e >>= k) (inside db work now) ≡ k tt (reachable work now)
  unfolding or_return commit ◌>>=◌
  commit-run db work now = refl

pub pure-run : {E A B : Type 0} (a : A) (f : A → Action E B) (w : World) → (pure a >>= f) w ≡ f a w
unfolding pure ◌>>=◌
pure-run a f w = refl

-- An early return on a test.
module _ {E B : Type 0} (b : Bool) (e : E) (k : Unit {0} → Action E B) (w : World) where
  pub raise_if-passes : b ≡ false → (raise_if b e >>= k) w ≡ k tt w
  unfolding raise_if raise pure ◌>>=◌
  raise_if-passes h = ground arith

  pub raise_if-stops : b ≡ true → (raise_if b e >>= k) w ≡ (err e, w)
  unfolding raise_if raise pure ◌>>=◌
  raise_if-stops h = ground arith

-- What a statement that succeeded on the pool did.
pub exec_pool-ok :
    {A : Type 0} (s : Statement A) (w w' : World) (a : A)
    → exec pool s w ≡ (ok a, w')
    → s w.now w.db ≡ ok (a, w'.db)
unfolding exec
exec_pool-ok s w w' a e = ground arith
