-- ===== src/Tests/Loaders.antt =====
-- The theorems on the loader of users at a run: a user is asked for, the timer fires, the batch is
-- fetched.
use filmstund.Base.{ℕ, ◌+◌, ◌≤◌, ◌≡◌, refl, ◌⊎◌, false, [], ◌∷◌, length, arith}
use filmstund.Database.{World}
use filmstund.Database.Execution.{reachable}
use filmstund.Graph.PublicUserLoader.State.{
  waiting, call, blocked, key_index, load_thunk, position, start_timer, end,
}
use filmstund.Graph.PublicUserLoader.System.{
  System, Reach, here, next, start, asked, ended, load_thunk_step, goroutine_step, timer_step,
  end_step, Goroutines, idle, then_one, IsQuiet,
}
use filmstund.Graph.PublicUserLoader.Answers.{answer_of}
use filmstund.Graph.PublicUserLoader.Termination.{work_left, Goroutines-bounded}
use filmstund.Graph.PublicUserLoader.Service.{call-answer_once, Reach-calm, IsQuiet-answered}
use filmstund.Tests.Samples.{club}

abbrev after_load : System
after_load = asked 25 3 start

abbrev after_timer : System
after_timer = record after_load { loader = start_timer 0 after_load.loader }

abbrev after_end : System
after_end = ended 0 (reachable club 5) after_timer

loaded : Reach 25 start after_load
loaded = next here (load_thunk_step 3)

two_steps : Goroutines after_load 2 after_end
unfolding load_thunk key_index position start_timer
two_steps =
    then_one (then_one idle (timer_step 0 (omega arith)))
      (end_step 0 (reachable club 5) (omega arith))

run : Reach 25 start after_end
unfolding load_thunk key_index position start_timer
run =
    next (next loaded (goroutine_step (timer_step 0 (omega arith))))
      (goroutine_step (end_step 0 (reachable club 5) (omega arith)))

call-answer_once_example :
    (((after_end.loader.heap 0).done ≡ false)
      × ((call (waiting 0 0 3) after_end.loader).0 ≡ blocked))
    ⊎ ((w : World) × (after_end.fetches 0 ≡ w ∷ [])
        × ((call (waiting 0 0 3) after_end.loader).0 ≡ answer_of w 3))
unfolding load_thunk key_index position start_timer end
call-answer_once_example = call-answer_once 25 0 0 0 3 run refl

Reach-calm_example :
    (after_end.loader.has_panicked ≡ false)
    × ((i : ℕ) → (◌≡◌ {A = ℕ} 25 0) ⊎ (length (after_end.loader.heap i).keys ≤ 25))
Reach-calm_example = Reach-calm 25 run

after_end-IsQuiet : IsQuiet after_end
unfolding load_thunk key_index position start_timer end
after_end-IsQuiet i = ground arith

IsQuiet-answered_example :
    (w : World) × (after_end.fetches 0 ≡ w ∷ [])
    × ((call (waiting 0 0 3) after_end.loader).0 ≡ answer_of w 3)
unfolding load_thunk key_index position start_timer end
IsQuiet-answered_example = IsQuiet-answered 25 0 0 0 3 run after_end-IsQuiet refl

Goroutines-bounded_example : 2 + work_left after_end ≤ work_left after_load
Goroutines-bounded_example = Goroutines-bounded 25 2 loaded two_steps
