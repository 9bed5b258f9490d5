-- ===== src/Graph/PublicUserLoader/Termination.antt =====
-- The goroutines of the loader come to an end: each step leaves less to do.
use filmstund.Base.{
  ℕ, zero, suc, ◌+◌, ◌*◌, ◌<◌, ◌≤◌, ◌≡◌, refl, ap, inl, inr, nat_eq, Bool-cases, arith,
}
use filmstund.Database.{World}
use filmstund.Graph.PublicUserLoader.State.{Loader, Batch, put, start_timer, end}
use filmstund.Graph.PublicUserLoader.System.{
  System, Goroutine, timer_step, end_step, goroutine_step, Reach, next, start, Goroutines, idle,
  then_one,
}
use filmstund.Graph.PublicUserLoader.Soundness.{IsSound}
use filmstund.Graph.PublicUserLoader.Invariant.{Reach-IsRun}

-- The steps that the goroutines of the first batches have left to do, at most.
abbrev pub work_of : Batch → ℕ
work_of b = 2 * b.timers + b.ends

abbrev pub work : ℕ → (ℕ → Batch) → ℕ
work zero heap = 0
work (suc n) heap = work_of (heap n) + work n heap

module _ (i : ℕ) (b : Batch) (heap : ℕ → Batch) where
  work-put_elsewhere : (n : ℕ) → n ≤ i → work n (put i b heap) ≡ work n heap
  work-put_elsewhere zero h = refl
  work-put_elsewhere (suc n) h = ground (arith, work-put_elsewhere n)

  work-put_less :
      (n : ℕ) → i < n → work_of b < work_of (heap i) → work n (put i b heap) < work n heap
  work-put_less zero h k = omega arith
  work-put_less (suc n) h k = elim (Bool-cases (nat_eq n i)) [
    | inl same ↦
        let e : n ≡ i = ground arith in
        rw same
          (omega (arith, work-put_elsewhere n (omega arith), ap (λ (j : ℕ). work_of (heap j)) e))
    | inr other ↦ rw other (omega (arith, work-put_less n (ground arith) k))
  ]

module _ (max : ℕ) (l : Loader) (sound : IsSound max l) where
  start_timer-work_less :
      (i : ℕ) → 0 < (l.heap i).timers → work l.next (start_timer i l).heap < work l.next l.heap
  unfolding start_timer
  start_timer-work_less i h = elim (Bool-cases (l.heap i).closing) [
    | inl closing ↦
        rw closing (work-put_less i _ l.heap l.next (ground (arith, sound.fresh i)) (ground arith))
    | inr waited ↦
        rw waited (work-put_less i _ l.heap l.next (ground (arith, sound.fresh i)) (ground arith))
  ]

  end-work_less :
      (i : ℕ) (w : World) → 0 < (l.heap i).ends → work l.next (end i w l).heap < work l.next l.heap
  unfolding end
  end-work_less i w h =
      work-put_less i _ l.heap l.next (ground (arith, sound.fresh i)) (ground arith)

start_timer-next : (i : ℕ) (l : Loader) → (start_timer i l).next ≡ l.next
unfolding start_timer
start_timer-next i l = ground arith

end-next : (i : ℕ) (w : World) (l : Loader) → (end i w l).next ≡ l.next
unfolding end
end-next i w l = refl

abbrev pub work_left : System → ℕ
work_left s = work s.loader.next s.loader.heap

Goroutine-work_less :
    (max : ℕ) {s t : System} → Reach max start s → Goroutine s t → work_left t < work_left s
Goroutine-work_less max {s = s} r (timer_step i h) =
    rw (start_timer-next i s.loader)
      (start_timer-work_less max s.loader (Reach-IsRun max r).sound i h)
Goroutine-work_less max {s = s} r (end_step i w h) =
    rw (end-next i w s.loader) (end-work_less max s.loader (Reach-IsRun max r).sound i w h)

Goroutines-Reach :
    (max n : ℕ) {s t : System} → Reach max start s → Goroutines s n t → Reach max start t
Goroutines-Reach max zero r idle = r
Goroutines-Reach max (suc n) r (then_one g st) =
    next (Goroutines-Reach max n r g) (goroutine_step st)

-- From every state of a run, the goroutines alone make at most `work_left` steps, in any order and
-- whatever the database answers.
pub Goroutines-bounded :
    (max n : ℕ) {s t : System}
    → Reach max start s
    → Goroutines s n t
    → n + work_left t ≤ work_left s
Goroutines-bounded max zero r idle = omega arith
Goroutines-bounded max (suc n) r (then_one g st) =
    omega
      (arith, Goroutines-bounded max n r g, Goroutine-work_less max (Goroutines-Reach max n r g) st)
