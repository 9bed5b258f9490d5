-- ===== src/Graph/PublicUserLoader/Phases.antt =====
-- What a batch of the loader goes through: it is unused, collects keys, is being sent, is done.
use filmstund.Base.{
  ℕ, suc, ◌-◌, ◌<◌, ◌≡◌, refl, ◌⊎◌, Bool, true, false, Option, List, [], ◌∷◌, nat_eq, if◌then◌else◌,
  length, length-append, arith,
}
use filmstund.Database.{Uuid, DbError, Result}
use filmstund.Graph.PublicUserLoader.State.{Batch, new_batch, appended, fills, closed, answered_by}
use filmstund.Dao.Users.{PublicUserRow}

-- A batch that takes keys: its timer runs from the first key on.
pub record Collects (max : ℕ) (b : Batch) : Type 0 where
  pub timer : b.timers ≡ (if nat_eq (length b.keys) 0 then 0 else 1)
  pub no_ends : b.ends ≡ 0
  pub not_closing : b.closing ≡ false
  pub not_done : b.done ≡ false
  pub room : (max ≡ 0) ⊎ (length b.keys < max)

-- A batch whose keys are settled: at most the timer of a batch that was full is still asleep.
pub record Settles (max : ℕ) (b : Batch) : Type 0 where
  pub used : 0 < length b.keys
  pub timer : (b.timers ≡ 0) ⊎ ((b.timers ≡ 1) × (b.closing ≡ true))
  pub bounded : (max ≡ 0) ⊎ (length b.keys < suc max)

-- `here` is whether the loader points to the batch.
pub data Phase (max : ℕ) (here : Bool) (b : Batch) : Type 0 where
  unused : here ≡ false → b ≡ new_batch → Phase max here b
  collecting : here ≡ true → 0 < length b.keys → Collects max b → Phase max here b
  sending : here ≡ false → b.ends ≡ 1 → b.done ≡ false → Settles max b → Phase max here b
  finished : here ≡ false → b.ends ≡ 0 → b.done ≡ true → Settles max b → Phase max here b

pub new_batch-Collects : (max : ℕ) → Collects max new_batch
new_batch-Collects max = ground arith

module _ (max : ℕ) (key : Uuid) (b : Batch) where
  -- A key that does not fill the batch.
  pub appended-Phase :
      Collects max b → fills max (length b.keys) b ≡ false → Phase max true (appended key b)
  appended-Phase c h =
      collecting refl (ground (arith, length-append {0} b.keys (key ∷ [])))
        (ground (arith, length-append {0} b.keys (key ∷ [])))

  pub closed-appended-Phase :
      Collects max b
      → fills max (length b.keys) b ≡ true
      → Phase max false (closed (appended key b))
  closed-appended-Phase c h =
      sending refl (ground arith) (ground arith)
        (ground (arith, length-append {0} b.keys (key ∷ [])))

-- The timer of a batch that is not closing makes it sent, and only once.
abbrev pub timed_out : Batch → Batch
timed_out b = record b { timers = b.timers - 1; ends = suc b.ends }

abbrev pub woken : Batch → Batch
woken b = record b { timers = b.timers - 1 }

module _ (max : ℕ) (here : Bool) (b : Batch) (asleep : 0 < b.timers) where
  pub timed_out-Phase :
      Phase max here b → b.closing ≡ false → (here ≡ true) × Phase max false (timed_out b)
  timed_out-Phase (unused h e) k = ground arith
  timed_out-Phase (collecting h p c) k =
      (h, sending refl (ground arith) (ground arith) (ground arith))
  timed_out-Phase (sending h e d f) k = ground arith
  timed_out-Phase (finished h e d f) k = ground arith

  pub woken-Phase : Phase max here b → b.closing ≡ true → Phase max here (woken b)
  woken-Phase (unused h e) k = ground arith
  woken-Phase (collecting h p c) k = ground arith
  woken-Phase (sending h e d f) k = sending h e d (ground arith)
  woken-Phase (finished h e d f) k = finished h e d (ground arith)

-- The goroutine that runs `end`.
module _ (max : ℕ) (here : Bool) (b : Batch) (running : 0 < b.ends) where
  pub answered_by-Phase :
      (r : Result DbError (List (Option PublicUserRow)))
      → Phase max here b
      → (b.done ≡ false) × Phase max here (answered_by r b)
  answered_by-Phase r (unused h e) = ground arith
  answered_by-Phase r (collecting h p f) = ground arith
  answered_by-Phase r (sending h e f g) = (f, finished h (ground arith) refl (ground arith))
  answered_by-Phase r (finished h e f g) = ground arith
