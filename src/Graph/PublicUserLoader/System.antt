-- ===== src/Graph/PublicUserLoader/System.antt =====
-- Runs of a `PublicUserLoader`: the calls of the resolvers, and the goroutines that the loader
-- starts, in any order. Each step is what happens under one lock of the mutex.
use filmstund.Base.{suc, ℕ, ◌<◌, ◌≡◌, some, List, [], ◌∷◌, ◌++◌}
use filmstund.Database.{Uuid, World}
use filmstund.Dao.Users.{PublicUserRow}
use filmstund.Graph.PublicUserLoader.State.{
  Loader, Thunk, element, put, new_public_user_loader, load_thunk, call, start_timer, end, prime,
  clear,
}

-- The loader, the thunks that it has returned, the first one first, and for each batch the states of
-- the database in which it was fetched, the last one first.
pub record System : Type 0 where
  pub loader : Loader
  pub thunks : List Thunk
  pub fetches : ℕ → List World

abbrev pub start : System
start = record { loader = new_public_user_loader; thunks = []; fetches = λ i. [] }

abbrev pub asked : ℕ → Uuid → System → System
asked max key s =
    let (t, l) = load_thunk max key s.loader in record s { loader = l; thunks = s.thunks ++ t ∷ [] }

abbrev pub ended : ℕ → World → System → System
ended i w s = record s { loader = end i w s.loader; fetches = put i (w ∷ s.fetches i) s.fetches }

-- What the goroutines of the loader do by themselves.
pub data Goroutine : System → System → Type 0 where
  timer_step :
      {s : System} (i : ℕ)
      → 0 < (s.loader.heap i).timers
      → Goroutine s (record s { loader = start_timer i s.loader })
  end_step :
      {s : System} (i : ℕ) (w : World) → 0 < (s.loader.heap i).ends → Goroutine s (ended i w s)

-- What the resolvers do, and the goroutines; `prime` is only told users under their own identifiers.
pub data Step (max : ℕ) : System → System → Type 0 where
  load_thunk_step : {s : System} (key : Uuid) → Step max s (asked max key s)
  call_step :
      {s : System} (i : ℕ) (t : Thunk)
      → element i s.thunks ≡ some t
      → Step max s (record s { loader = (call t s.loader).1 })
  prime_step :
      {s : System} (key : Uuid) (user : PublicUserRow)
      → user.id ≡ key
      → Step max s (record s { loader = (prime key user s.loader).1 })
  clear_step : {s : System} (key : Uuid) → Step max s (record s { loader = clear key s.loader })
  goroutine_step : {s t : System} → Goroutine s t → Step max s t

pub data Reach (max : ℕ) (s : System) : System → Type 0 where
  here : Reach max s s
  next : {t u : System} → Reach max s t → Step max t u → Reach max s u

-- As many steps of the goroutines alone.
pub data Goroutines (s : System) : ℕ → System → Type 0 where
  idle : Goroutines s 0 s
  then_one : {n : ℕ} {t u : System} → Goroutines s n t → Goroutine t u → Goroutines s (suc n) u

-- No goroutine is left.
abbrev pub IsQuiet : System → Type 0
IsQuiet s = (i : ℕ) → ((s.loader.heap i).timers ≡ 0) × ((s.loader.heap i).ends ≡ 0)
