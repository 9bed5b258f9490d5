-- ===== src/Database/Atomicity.antt =====
-- When a handler's work in a transaction is all or nothing: one rule for each way to build a
-- handler. The committed tables change in `commit` alone.
use filmstund.Base.{◌≡◌, refl, ◌∙◌, Bool, true, false, none, arith}
use filmstund.Database.Connection.{
  World, attempt, in_tx, Action, Result, ok, err, Statement, exec, begin, commit, rollback,
  or_return, or_rollback, pure, raise, ◌>>=◌, ◌>>◌,
}

-- A step within the transaction: the committed tables stay, and an error ends the transaction.
abbrev pub Stays : {E A : Type 0} → World → Result E A × World → Type 0
Stays w (ok _, w') = w'.db ≡ w.db
Stays w (err _, w') = (w'.db ≡ w.db) × (w'.tx ≡ none)

-- How a handler ends: with no open transaction, and after an error that is not `late` with the
-- committed tables as they were.
abbrev pub AllOrNothing : {E A : Type 0} → (E → Bool) → World → Result E A × World → Type 0
AllOrNothing late w (ok _, w') = w'.tx ≡ none
AllOrNothing late w (err e, w') = (w'.tx ≡ none) × (late e ≡ false → w'.db ≡ w.db)

-- What runs after the commit: every error of it is late.
abbrev pub Follows : {E A : Type 0} → (E → Bool) → World → Result E A × World → Type 0
Follows late w (ok _, w') = w'.tx ≡ w.tx
Follows late w (err e, w') = (w'.tx ≡ w.tx) × (late e ≡ true)

-- A call that ends the transaction, with the tables as they were if it fails.
abbrev pub Finishes : {E A : Type 0} → World → Result E A × World → Type 0
Finishes w (ok _, w') = w'.tx ≡ none
Finishes w (err _, w') = (w'.tx ≡ none) × (w'.db ≡ w.db)

module _ {E A : Type 0} where
  pub record IsStep (m : Action E A) : Type 0 where
    pub at : (w : World) → Stays w (m w)

  pub record Ends (late : E → Bool) (m : Action E A) : Type 0 where
    pub at : (w : World) → AllOrNothing late w (m w)

  pub record Afterwards (late : E → Bool) (m : Action E A) : Type 0 where
    pub at : (w : World) → Follows late w (m w)

  pub record Closes (m : Action E A) : Type 0 where
    pub at : (w : World) → Finishes w (m w)

  -- A whole handler, in a world with no open transaction.
  pub record Handles (late : E → Bool) (m : Action E A) : Type 0 where
    pub at : (w : World) → w.tx ≡ none → AllOrNothing late w (m w)

late_twice : {b : Bool} → b ≡ true → b ≡ false → ⊥
late_twice p q = cc

module _ {E A : Type 0} where
  -- A statement of the transaction whose error is answered by a rollback.
  pub statement-IsStep : (s : Statement A) (e : E) → IsStep (or_rollback (exec in_tx s) e)
  unfolding or_rollback exec
  statement-IsStep s e = record { at = λ w. ground arith }

  pub pure-IsStep : (a : A) → IsStep {E = E} (pure a)
  unfolding pure
  pure-IsStep a = record { at = λ w. refl }

  -- A statement of the transaction whose error the handler looks at itself.
  pub attempt-IsStep : (s : Statement A) → IsStep {E = E} (attempt (exec in_tx s))
  unfolding attempt exec
  attempt-IsStep s = record { at = λ w. ground arith }

  pub refuse-IsStep : (e : E) → IsStep {A = A} (rollback >> raise e)
  unfolding rollback raise ◌>>=◌
  refuse-IsStep e = record { at = λ w. (refl, refl) }

  pub pure-Afterwards : (late : E → Bool) (a : A) → Afterwards late (pure a)
  unfolding pure
  pure-Afterwards late a = record { at = λ w. refl }

  from_start :
      (late : E → Bool) (w w' : World) (x : Result E A × World)
      → w'.db ≡ w.db
      → AllOrNothing late w' x
      → AllOrNothing late w x
  from_start late w w' (ok a, v) same h = h
  from_start late w w' (err e, v) same h = (h.0, λ l. h.1 l ∙ same)

  after_commit :
      (late : E → Bool) (w w' : World) (x : Result E A × World)
      → w'.tx ≡ none
      → Follows late w' x
      → AllOrNothing late w x
  after_commit late w w' (ok a, v) closed h = h ∙ closed
  after_commit late w w' (err e, v) closed h = (h.0 ∙ closed, λ l. absurd (late_twice h.1 l))

module _ {E A B : Type 0} where
  abbrev continue : (A → Action E B) → Result E A × World → Result E B × World
  continue f (r, w') = elim r [ ok a ↦ f a w' | err e ↦ (err e, w') ]

  continue-Stays :
      (f : A → Action E B) (w : World) (x : Result E A × World)
      → ((a : A) → IsStep (f a))
      → Stays w x
      → Stays w (continue f x)
  continue-Stays f w (ok a, w') t same = go (f a w') ((t a).at w')
    where
      go : (y : Result E B × World) → Stays w' y → Stays w y
      go (ok b, v) h = h ∙ same
      go (err e, v) h = (h.0 ∙ same, h.1)
  continue-Stays f w (err e, w') t same = same

  pub bind-IsStep :
      (m : Action E A) (f : A → Action E B) → IsStep m → ((a : A) → IsStep (f a)) → IsStep (m >>= f)
  unfolding ◌>>=◌
  bind-IsStep m f s t = record { at = λ w. continue-Stays f w (m w) t (s.at w) }

  continue-Ends :
      (late : E → Bool) (f : A → Action E B) (w : World) (x : Result E A × World)
      → ((a : A) → Ends late (f a))
      → Stays w x
      → AllOrNothing late w (continue f x)
  continue-Ends late f w (ok a, w') t same = from_start late w w' (f a w') same ((t a).at w')
  continue-Ends late f w (err e, w') t (same, ended) = (ended, λ _. same)

  -- A step, and then what ends the handler.
  pub bind-Ends :
      {late : E → Bool} (m : Action E A) (f : A → Action E B)
      → IsStep m
      → ((a : A) → Ends late (f a))
      → Ends late (m >>= f)
  unfolding ◌>>=◌
  bind-Ends {late} m f s t = record { at = λ w. continue-Ends late f w (m w) t (s.at w) }

  continue-Closes :
      (late : E → Bool) (k : A → Action E B) (w : World) (x : Result E A × World)
      → ((a : A) → Afterwards late (k a))
      → Finishes w x
      → AllOrNothing late w (continue k x)
  continue-Closes late k w (ok a, w') t closed =
      after_commit late w w' (k a w') closed ((t a).at w')
  continue-Closes late k w (err e, w') t (closed, same) = (closed, λ _. same)

  -- The commit, and then calls whose errors are all late.
  pub commit-Ends :
      {late : E → Bool} (m : Action E A) (k : A → Action E B)
      → Closes m
      → ((a : A) → Afterwards late (k a))
      → Ends late (m >>= k)
  unfolding ◌>>=◌
  commit-Ends {late} m k c t = record { at = λ w. continue-Closes late k w (m w) t (c.at w) }

pub commit-Closes : {E : Type 0} (e : E) → Closes (or_return commit e)
unfolding or_return commit
commit-Closes e = record { at = λ w. ground arith }

begin-Stays : {E : Type 0} (e : E) (w : World) → w.tx ≡ none → Stays w (or_return begin e w)
unfolding or_return begin
begin-Stays e w closed = ground arith

-- A handler that begins a transaction first.
pub begin-Handles :
    {E B : Type 0} {late : E → Bool} (e : E) (k : Unit {0} → Action E B)
    → ((a : Unit {0}) → Ends late (k a))
    → Handles late (or_return begin e >>= k)
unfolding ◌>>=◌
begin-Handles {late} e k t = record {
  at = λ w closed. continue-Ends late k w (or_return begin e w) t (begin-Stays e w closed);
}

late_errors_only :
    {E A : Type 0} (late : E → Bool) (w : World) (x : Result E A × World)
    → w.tx ≡ none
    → Follows late w x
    → AllOrNothing late w x
late_errors_only late w (ok a, v) closed h = h ∙ closed
late_errors_only late w (err e, v) closed h = (h.0 ∙ closed, λ l. absurd (late_twice h.1 l))

-- A handler without a transaction.
pub Afterwards-Handles :
    {E A : Type 0} {late : E → Bool} (m : Action E A) → Afterwards late m → Handles late m
Afterwards-Handles {late} m t = record {
  at = λ w closed. late_errors_only late w (m w) closed (t.at w);
}

pub ruleset atomic_rules = (
  statement-IsStep, attempt-IsStep, pure-IsStep, refuse-IsStep, pure-Afterwards, bind-IsStep,
  bind-Ends, commit-Ends, commit-Closes, begin-Handles,
)
