-- ===== src/Graph/PublicUserLoader/Runs.antt =====
-- The invariant of the runs of a loader: its batches are in order, every batch that is done holds
-- what `fetch` answered for its keys, and every thunk holds the place of its key.
use filmstund.Base.{
  ap, ℕ, ◌<◌, ◌≤◌, ◌≡◌, refl, ◌∙◌, ◌⊎◌, inl, inr, true, false, Option, none, some, List, [], ◌∷◌,
  nat_eq, Bool-cases, arith,
}
use filmstund.Database.{Uuid, DbError, connection_lost, World, Result, ok, err}
use filmstund.Dao.Users.{PublicUserRow}
use filmstund.Graph.PublicUsers.{fetch}
use filmstund.Graph.PublicUserLoader.State.{
  prime, primed, clear, Batch, Loader, Thunk, cached, waiting, new_batch, put, element, call,
  settled, error_at, errors_of, users_of, start_timer, end, unsafe_set, user_at, answered_by,
}
use filmstund.Graph.PublicUserLoader.Phases.{
  Phase, timed_out, woken, timed_out-Phase, woken-Phase, answered_by-Phase,
}
use filmstund.Graph.PublicUserLoader.Soundness.{IsSound, is_current}

-- A batch is fetched at most once, and when it is done it holds what `fetch` returned then.
pub data Log (b : Batch) (states : List World) : Type 0 where
  not_sent : b.done ≡ false → states ≡ [] → Log b states
  sent :
      (w : World)
      → b.done ≡ true
      → states ≡ w ∷ []
      → b.users ≡ users_of (fetch b.keys w).0
      → b.errors ≡ errors_of (fetch b.keys w).0
      → Log b states

abbrev pub Waits : Loader → Thunk → Type 0
Waits l (cached it) = Unit {0}
Waits l (waiting i pos key) = element pos (l.heap i).keys ≡ some key

-- A done batch has no error or one error, so that a call never panics.
errors_of-error_at :
    (r : Result DbError (List (Option PublicUserRow))) (pos : ℕ)
    → (e : Option DbError) × (error_at (errors_of r) pos ≡ some e)
errors_of-error_at (ok users) pos = (none, refl)
errors_of-error_at (err e) pos = (some e, refl)

Log-error_at :
    (b : Batch) (states : List World) (pos : ℕ)
    → Log b states
    → b.done ≡ true
    → (e : Option DbError) × (error_at b.errors pos ≡ some e)
Log-error_at b states pos (not_sent d e) h = cc
Log-error_at b states pos (sent w d e u f) h = rw f (errors_of-error_at (fetch b.keys w).0 pos)

-- A step that leaves the batches and the panic as they are.
pub record SameBatches (l l' : Loader) : Type 0 where
  pub same_heap : l'.heap ≡ l.heap
  pub same_batch : l'.batch ≡ l.batch
  pub same_next : l'.next ≡ l.next
  pub same_calm : l'.has_panicked ≡ l.has_panicked

pub SameBatches-IsSound :
    (max : ℕ) (l l' : Loader) → SameBatches l l' → IsSound max l → IsSound max l'
SameBatches-IsSound max l l' same sound = record {
  phases = rw (same.same_heap, same.same_batch) sound.phases;
  fresh = rw (same.same_heap, same.same_next) sound.fresh;
  ahead = rw (same.same_batch, same.same_next) sound.ahead;
  calm = same.same_calm ∙ sound.calm;
}

pub call-SameBatches :
    (l : Loader) (fetches : ℕ → List World) (t : Thunk)
    → ((i : ℕ) → Log (l.heap i) (fetches i))
    → SameBatches l (call t l).1
unfolding call settled unsafe_set
call-SameBatches l fetches (cached it) logs = ground arith
call-SameBatches l fetches (waiting i pos key) logs = elim (Bool-cases (l.heap i).done) [
  | inr busy ↦ rw busy (ground arith)
  | inl done ↦ rw done (settled_same (Log-error_at (l.heap i) (fetches i) pos (logs i) done))
]
  where
    settled_same :
        (e : Option DbError) × (error_at (l.heap i).errors pos ≡ some e)
        → SameBatches l
            (settled
              (error_at (l.heap i).errors pos)
              (user_at (element pos (l.heap i).users))
              key
              l).1
    settled_same (none, e) = rw e (ground arith)
    settled_same (some x, e) = rw e (ground arith)

only_current :
    (o : Option ℕ) (i j : ℕ) → is_current o i ≡ true → nat_eq j i ≡ false → false ≡ is_current o j
only_current none i j h k = refl
only_current (some c) i j h k = ground arith

module _ (max i : ℕ) (l : Loader) (sound : IsSound max l) where
  put-Phase :
      (o : Option ℕ) (b : Batch)
      → Phase max (is_current o i) b
      → ((j : ℕ) → nat_eq j i ≡ false → is_current o j ≡ is_current l.batch j)
      → (j : ℕ) → Phase max (is_current o j) (put i b l.heap j)
  put-Phase o b p off j = elim (Bool-cases (nat_eq j i)) [
    | inl same ↦ let e : j ≡ i = ground arith in rw (same, e) p
    | inr other ↦ rw (other, off j other) (sound.phases j)
  ]

  -- A batch with a goroutine has been made.
  put_fresh :
      (b : Batch)
      → (0 < (l.heap i).timers) ⊎ (0 < (l.heap i).ends)
      → (j : ℕ) → l.next ≤ j
      → put i b l.heap j ≡ new_batch
  put_fresh b h j k = ground (arith, sound.fresh i, sound.fresh j)

  pub start_timer-IsSound : 0 < (l.heap i).timers → IsSound max (start_timer i l)
  unfolding start_timer
  start_timer-IsSound h = elim (Bool-cases (l.heap i).closing) [
    | inl closing ↦ rw closing (record {
      phases =
          put-Phase l.batch (record (woken (l.heap i)) { closing = true })
            (rw closing at
              (woken-Phase max (is_current l.batch i) (l.heap i) h (sound.phases i) closing))
            (λ j k. refl);
      fresh = put_fresh (record (woken (l.heap i)) { closing = true }) (inl h);
      ahead = sound.ahead;
      calm = sound.calm;
    })
    | inr waited ↦ rw waited (
        waited_sound waited
          (timed_out-Phase max (is_current l.batch i) (l.heap i) h (sound.phases i) waited))
  ]
    where
      waited_sound :
          (l.heap i).closing ≡ false
          → (is_current l.batch i ≡ true) × Phase max false (timed_out (l.heap i))
          → IsSound max (record l {
            heap = put i (record (timed_out (l.heap i)) { closing = false }) l.heap;
            batch = none;
          })
      waited_sound waited (here, p) = record {
        phases =
            put-Phase none (record (timed_out (l.heap i)) { closing = false }) (rw waited at p)
              (λ j k. only_current l.batch i j here k);
        fresh = put_fresh (record (timed_out (l.heap i)) { closing = false }) (inl h);
        ahead = λ j e. cc;
        calm = sound.calm;
      }

  pub end-not_done : 0 < (l.heap i).ends → (l.heap i).done ≡ false
  end-not_done h =
      (answered_by-Phase max (is_current l.batch i) (l.heap i) h (err connection_lost)
        (sound.phases i)).0

  pub end-IsSound : (w : World) → 0 < (l.heap i).ends → IsSound max (end i w l)
  unfolding end
  end-IsSound w h = ended (
      answered_by-Phase max (is_current l.batch i) (l.heap i) h (fetch (l.heap i).keys w).0
        (sound.phases i))
    where
      ended :
          ((l.heap i).done ≡ false)
            × Phase max (is_current l.batch i) (answered_by (fetch (l.heap i).keys w).0 (l.heap i))
          → IsSound max (end i w l)
      ended (running, p) = record {
        phases =
            put-Phase l.batch (answered_by (fetch (l.heap i).keys w).0 (l.heap i)) p (λ j k. refl);
        fresh = put_fresh (answered_by (fetch (l.heap i).keys w).0 (l.heap i)) (inr h);
        ahead = sound.ahead;
        calm = rw running sound.calm;
      }

pub end-Log :
    (i : ℕ) (w : World) (l : Loader) (fetches : ℕ → List World)
    → (l.heap i).done ≡ false
    → ((j : ℕ) → Log (l.heap j) (fetches j))
    → (j : ℕ) → Log ((end i w l).heap j) (put i (w ∷ fetches i) fetches j)
unfolding end
end-Log i w l fetches running logs j = elim (Bool-cases (nat_eq j i)) [
  | inl same ↦
      rw same
        (sent w refl (ap (λ r. w ∷ r) (unsent (l.heap i) (fetches i) running (logs i))) refl refl)
  | inr other ↦ rw other (logs j)
]
  where
    unsent : (b : Batch) (states : List World) → b.done ≡ false → Log b states → states ≡ []
    unsent b states h (not_sent d e) = e
    unsent b states h (sent v d e u f) = cc

pub end-kept :
    (i : ℕ) (w : World) (l : Loader)
    → ((j : ℕ) → ((end i w l).heap j).keys ≡ (l.heap j).keys) × ((end i w l).cache ≡ l.cache)
unfolding end
end-kept i w l = (λ j. ground arith, refl)

pub start_timer-cache : (i : ℕ) (l : Loader) → (start_timer i l).cache ≡ l.cache
unfolding start_timer
start_timer-cache i l = ground arith

pub prime-SameBatches :
    (key : Uuid) (user : PublicUserRow) (l : Loader) → SameBatches l (prime key user l).1
unfolding prime primed unsafe_set
prime-SameBatches key user l = ground arith

pub clear-SameBatches : (key : Uuid) (l : Loader) → SameBatches l (clear key l)
unfolding clear
clear-SameBatches key l = ground arith
