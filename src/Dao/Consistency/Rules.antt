-- ===== src/Dao/Consistency/Rules.antt =====
-- Statements, and the handlers' calls, that keep an invariant of the tables: one rule for each way
-- to build a handler.
use filmstund.Base.{ℕ, Option, none, some, arith, Bool, true, false, ◌≡◌, refl, if◌then◌else◌}
use filmstund.Database.{
  attempt, Db, DbError, World, Handle, pool, in_tx, Tx, Action, Statement, Result, ok, err, exec,
  begin, commit, rollback, or_return, or_rollback, step_tx, on_open_tx, is_down, later, commit_of,
  begin_if, pure, raise, raise_if, ◌>>=◌, ◌>>◌,
}

abbrev pub Outcome : {A : Type 0} → (Db → Type 0) → Result DbError (A × Db) → Type 0
Outcome P (ok (a, db)) = P db
Outcome P (err e) = Unit

-- A statement that succeeds leaves tables with `P` if it found tables with `P`.
pub record Keeps {A : Type 0} (P : Db → Type 0) (s : Statement A) : Type 0 where
  pub at : (now : ℕ) (db : Db) → P db → Outcome P (s now db)

-- A constraint that is checked first.
pub checked :
    {A : Type 0} (P : Db → Type 0) (b : Bool) (e : DbError) (r : Result DbError (A × Db))
    → (b ≡ false → Outcome P r)
    → Outcome P (if b then err e else r)
checked P true e r k = tt
checked P false e r k = k refl

abbrev pub InTx : (Db → Type 0) → Option Tx → Type 0
InTx P none = Unit
InTx P (some t) = P t.work

-- `P` of the committed tables and of those that an open transaction sees.
abbrev pub Holds : (Db → Type 0) → World → Type 0
Holds P w = P w.db × InTx P w.tx

pub record Preserves {E A : Type 0} (P : Db → Type 0) (m : Action E A) : Type 0 where
  pub at : (w : World) → Holds P w → Holds P (m w).1

module _ {A : Type 0} (P : Db → Type 0) where
  exec_pool : (s : Statement A) → Keeps P s → (w : World) → Holds P w → Holds P (exec pool s w).1
  unfolding exec
  exec_pool s k w h = ground (arith, k.at w.now w.db h.0)

  step_tx-kept :
      (aborted down : Bool) (r : Result DbError (A × Db)) (t : Tx)
      → Outcome P r
      → P t.work
      → P (step_tx aborted down r t).1.work
  step_tx-kept true down r t o h = h
  step_tx-kept false true r t o h = h
  step_tx-kept false false (ok (a, db)) t o h = o
  step_tx-kept false false (err e) t o h = h

  on_open_tx-Holds :
      (s : Statement A) (o : Option Tx) (w : World)
      → Keeps P s
      → Holds P w
      → InTx P o
      → Holds P (on_open_tx s o w).1
  on_open_tx-Holds s none w k h i = h
  on_open_tx-Holds s (some t) w k h i =
      (h.0, step_tx-kept t.aborted (is_down w.faults) (s w.now t.work) t (k.at w.now t.work i) i)

  exec_tx : (s : Statement A) → Keeps P s → (w : World) → Holds P w → Holds P (exec in_tx s w).1
  unfolding exec
  exec_tx s k w h = on_open_tx-Holds s w.tx w k h h.1

  pub exec-Preserves : (handle : Handle) (s : Statement A) → Keeps P s → Preserves P (exec handle s)
  exec-Preserves pool s k = record { at = exec_pool s k }
  exec-Preserves in_tx s k = record { at = exec_tx s k }

-- The commit makes the transaction's tables the committed ones.
module _ (P : Db → Type 0) where
  commit_of-Holds :
      (o : Option Tx) (down : Bool) (w : World)
      → P w.db
      → InTx P o
      → InTx P w.tx
      → Holds P (commit_of o down w).1
  commit_of-Holds none down w h i j = (h, j)
  commit_of-Holds (some t) down w h i j = ground arith

  pub commit-Preserves : Preserves P commit
  unfolding commit
  commit-Preserves = record {
    at = λ w h.
        commit_of-Holds w.tx (is_down w.faults) (record w { tx = none; faults = later w.faults })
          h.0 h.1 tt;
  }

  begin_if-Holds : (down : Bool) (w : World) → Holds P w → Holds P (begin_if down w).1
  begin_if-Holds true w h = h
  begin_if-Holds false w h = (h.0, h.0)

  pub begin-Preserves : Preserves P begin
  unfolding begin
  begin-Preserves = record {
    at = λ w h. begin_if-Holds (is_down w.faults) (record w { faults = later w.faults }) h;
  }

module _ {E A : Type 0} (P : Db → Type 0) where
  pub pure-Preserves : (a : A) → Preserves {E = E} P (pure a)
  unfolding pure
  pure-Preserves a = record { at = λ w h. h }

  pub raise-Preserves : (e : E) → Preserves {A = A} P (raise e)
  unfolding raise
  raise-Preserves e = record { at = λ w h. h }

  -- The world after a call, whatever is done with its error.
  returned :
      (x : Result DbError A × World) (e : E)
      → Holds P x.1
      → Holds P
          (elim x.0 as (λ _. Result E A × World) [ ok a ↦ (ok a, x.1) | err _ ↦ (err e, x.1) ]).1
  returned (ok a, w) e h = h
  returned (err d, w) e h = h

  pub or_return-Preserves :
      (m : Action DbError A) (e : E) → Preserves P m → Preserves P (or_return m e)
  unfolding or_return
  or_return-Preserves m e k = record { at = λ w h. returned (m w) e (k.at w h) }

  rolled_back :
      (x : Result DbError A × World) (e : E)
      → Holds P x.1
      → Holds P
          (elim x.0 as (λ _. Result E A × World) [
            | ok a ↦ (ok a, x.1)
            | err _ ↦ (rollback >> raise e) x.1
          ]).1
  unfolding rollback raise ◌>>=◌
  rolled_back (ok a, w) e h = h
  rolled_back (err d, w) e h = (h.0, tt)

  pub or_rollback-Preserves :
      (m : Action DbError A) (e : E) → Preserves P m → Preserves P (or_rollback m e)
  unfolding or_rollback
  or_rollback-Preserves m e k = record { at = λ w h. rolled_back (m w) e (k.at w h) }

  pub attempt-Preserves : (m : Action DbError A) → Preserves P m → Preserves {E = E} P (attempt m)
  unfolding attempt
  attempt-Preserves m k = record { at = λ w h. k.at w h }

  pub refuse-Preserves : (e : E) → Preserves {A = A} P (rollback >> raise e)
  unfolding rollback raise ◌>>=◌
  refuse-Preserves e = record { at = λ w h. (h.0, tt) }

module _ {E A B : Type 0} (P : Db → Type 0) where
  continued :
      (f : A → Action E B) (x : Result E A × World)
      → ((a : A) → Preserves P (f a))
      → Holds P x.1
      → Holds P (elim x.0 as (λ _. Result E B × World) [ ok a ↦ f a x.1 | err e ↦ (err e, x.1) ]).1
  continued f (ok a, w) k h = (k a).at w h
  continued f (err e, w) k h = h

  pub bind-Preserves :
      (m : Action E A) (f : A → Action E B)
      → Preserves P m
      → ((a : A) → Preserves P (f a))
      → Preserves P (m >>= f)
  unfolding ◌>>=◌
  bind-Preserves m f k t = record { at = λ w h. continued f (m w) t (k.at w h) }

pub raise_if-Preserves :
    {E : Type 0} (P : Db → Type 0) (b : Bool) (e : E) → Preserves P (raise_if b e)
unfolding raise_if raise pure
raise_if-Preserves P true e = record { at = λ w h. h }
raise_if-Preserves P false e = record { at = λ w h. h }

pub ruleset preserve_rules = (
  exec-Preserves, commit-Preserves, begin-Preserves, pure-Preserves, raise-Preserves,
  attempt-Preserves, or_return-Preserves, or_rollback-Preserves, refuse-Preserves, bind-Preserves,
  raise_if-Preserves,
)
