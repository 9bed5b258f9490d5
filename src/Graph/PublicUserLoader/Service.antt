-- ===== src/Graph/PublicUserLoader/Service.antt =====
-- What the loader promises to the resolvers, in every run.
use filmstund.Base.{
  ℕ, suc, ◌<◌, ◌≤◌, ◌≡◌, ◌⊎◌, inl, inr, Bool, true, false, some, [], ◌∷◌, length, Bool-cases, arith,
}
use filmstund.Database.{Uuid, World}
use filmstund.Graph.PublicUserLoader.State.{blocked, Batch, waiting, element, call}
use filmstund.Graph.PublicUserLoader.System.{System, Reach, start, IsQuiet}
use filmstund.Graph.PublicUserLoader.Phases.{Phase, unused, collecting, sending, finished}
use filmstund.Graph.PublicUserLoader.Soundness.{is_current}
use filmstund.Graph.PublicUserLoader.Runs.{Waits}
use filmstund.Graph.PublicUserLoader.Answers.{answer_of, call-answer_of}
use filmstund.Graph.PublicUserLoader.Invariant.{All-element, Reach-IsRun}

-- Once its batch is done, a thunk of `LoadThunk` returns what a query for its key alone would have
-- told, the failure of the query included, in the one state of the database in which the batch was
-- fetched; before that it blocks.
pub call-answer_once :
    (max : ℕ) {s : System} (n i pos : ℕ) (key : Uuid)
    → Reach max start s
    → element n s.thunks ≡ some (waiting i pos key)
    → (((s.loader.heap i).done ≡ false) × ((call (waiting i pos key) s.loader).0 ≡ blocked))
      ⊎ ((w : World) × (s.fetches i ≡ w ∷ [])
          × ((call (waiting i pos key) s.loader).0 ≡ answer_of w key))
unfolding call
call-answer_once max {s = s} n i pos key r e =
    let run = Reach-IsRun max r in
    let place = All-element (Waits s.loader) s.thunks n (waiting i pos key) run.places e in
    elim (Bool-cases (s.loader.heap i).done) [
      | inl done ↦ inr (call-answer_of s.loader (s.fetches i) i pos key (run.logs i) done place)
      | inr running ↦ inl (running, ground arith)
    ]

Phase-bounded :
    (max : ℕ) (here : Bool) (b : Batch) → Phase max here b → (max ≡ 0) ⊎ (length b.keys < suc max)
Phase-bounded max here b (unused h e) = ground arith
Phase-bounded max here b (collecting h p c) = ground arith
Phase-bounded max here b (sending h e d f) = f.bounded
Phase-bounded max here b (finished h e d f) = f.bounded

-- No channel is closed twice and no index is out of range, in any order of the steps; and no batch
-- has more keys than `maxBatch`, unless that is 0.
pub Reach-calm :
    (max : ℕ) {s : System}
    → Reach max start s
    → (s.loader.has_panicked ≡ false)
      × ((i : ℕ) → (max ≡ 0) ⊎ (length (s.loader.heap i).keys ≤ max))
Reach-calm max {s = s} r =
    let run = Reach-IsRun max r in
    (
      run.sound.calm,
      λ i. ground (
        arith,
        Phase-bounded max (is_current s.loader.batch i) (s.loader.heap i) (run.sound.phases i),
      ),
    )

quiet-done :
    (max : ℕ) (here : Bool) (b : Batch) (pos : ℕ) (key : Uuid)
    → Phase max here b
    → element pos b.keys ≡ some key
    → b.timers ≡ 0
    → b.ends ≡ 0
    → b.done ≡ true
quiet-done max here b pos key (unused h e) k t n =
    let none_there : element pos [] ≡ some key = rw e at k in cc
quiet-done max here b pos key (collecting h p c) k t n = ground arith
quiet-done max here b pos key (sending h e d f) k t n = ground arith
quiet-done max here b pos key (finished h e d f) k t n = d

-- When the goroutines have run out, no thunk blocks: each waiting one has its answer.
pub IsQuiet-answered :
    (max : ℕ) {s : System} (n i pos : ℕ) (key : Uuid)
    → Reach max start s
    → IsQuiet s
    → element n s.thunks ≡ some (waiting i pos key)
    → (w : World) × (s.fetches i ≡ w ∷ [])
      × ((call (waiting i pos key) s.loader).0 ≡ answer_of w key)
IsQuiet-answered max {s = s} n i pos key r quiet e =
    let run = Reach-IsRun max r in
    let place = All-element (Waits s.loader) s.thunks n (waiting i pos key) run.places e in
    call-answer_of s.loader (s.fetches i) i pos key (run.logs i)
      (quiet-done max (is_current s.loader.batch i) (s.loader.heap i) pos key (run.sound.phases i)
        place (quiet i).0 (quiet i).1)
      place
