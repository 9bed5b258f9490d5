-- ===== src/Graph/PublicUserLoader/Growth.antt =====
-- What a step of the loader leaves of the batches: keys stay where they are, and a batch that is
-- done stays as it is.
use filmstund.Base.{
  ℕ, zero, suc, ◌≡◌, refl, sym, ◌∙◌, inl, inr, false, Option, none, some, List, [], ◌∷◌, ◌++◌,
  nat_eq, length, Bool-cases, Option-cases, arith,
}
use filmstund.Database.{Uuid, World}
use filmstund.Graph.PublicUserLoader.State.{
  Batch, Loader, new_batch, put, element, position, key_index, current, load_thunk, start_timer,
  appended, closed, fills, add_key,
}
use filmstund.Graph.PublicUserLoader.Soundness.{IsSound, current-IsReady, position-element}
use filmstund.Graph.PublicUserLoader.Runs.{Log, not_sent, sent, Waits}

element-append {ℓ} :
    {A : Type ℓ} (i : ℕ) (xs ys : List A) (x : A)
    → element i xs ≡ some x
    → element i (xs ++ ys) ≡ some x
element-append i [] ys x h = cc
element-append zero (y ∷ xs) ys x h = h
element-append (suc i) (y ∷ xs) ys x h = element-append i xs ys x h

element-last {ℓ} : {A : Type ℓ} (xs : List A) (x : A) → element (length xs) (xs ++ x ∷ []) ≡ some x
element-last [] x = refl
element-last (y ∷ xs) x = element-last xs x

-- Of a batch before and after: its keys keep their places, and a log fits still.
pub record Extends (b b' : Batch) : Type 0 where
  pub places :
      (pos : ℕ) (key : Uuid) → element pos b.keys ≡ some key → element pos b'.keys ≡ some key
  pub logged : (states : List World) → Log b states → Log b' states

Extends-same : (b b' : Batch) → b' ≡ b → Extends b b'
Extends-same b b' e = record { places = λ pos key h. rw e h; logged = λ states h. rw e h }

-- A key is added to a batch that is not done.
added-Extends :
    (b b' : Batch) (key : Uuid)
    → b.done ≡ false
    → b'.done ≡ false
    → b'.keys ≡ b.keys ++ key ∷ []
    → Extends b b'
added-Extends b b' key h h' e = record {
  places = λ pos k at_pos. rw e (element-append pos b.keys (key ∷ []) k at_pos);
  logged = still_open;
}
  where
    still_open : (states : List World) → Log b states → Log b' states
    still_open states (not_sent d f) = not_sent h' f
    still_open states (sent w d f u v) = cc

abbrev pub Grows : Loader → Loader → Type 0
Grows l l' = (i : ℕ) → Extends (l.heap i) (l'.heap i)

Extends-trans : (a b c : Batch) → Extends a b → Extends b c → Extends a c
Extends-trans a b c f g = record {
  places = λ pos key h. g.places pos key (f.places pos key h);
  logged = λ states h. g.logged states (f.logged states h);
}

put-Grows :
    (i : ℕ) (b : Batch) (heap : ℕ → Batch)
    → Extends (heap i) b
    → (j : ℕ) → Extends (heap j) (put i b heap j)
put-Grows i b heap h j = elim (Bool-cases (nat_eq j i)) [
  | inl same ↦ let e : j ≡ i = ground arith in rw (same, e) h
  | inr other ↦ rw other (Extends-same (heap j) (heap j) refl)
]

module _ (max : ℕ) (key : Uuid) where
  add_key-Grows : (i : ℕ) (l : Loader) → (l.heap i).done ≡ false → Grows l (add_key max i key l)
  add_key-Grows i l h = elim (Bool-cases (fills max (length (l.heap i).keys) (l.heap i))) [
    | inl full ↦ rw full (
        put-Grows i (closed (appended key (l.heap i))) l.heap
          (added-Extends (l.heap i) (closed (appended key (l.heap i))) key h h refl))
    | inr rooms ↦ rw rooms (
        put-Grows i (appended key (l.heap i)) l.heap
          (added-Extends (l.heap i) (appended key (l.heap i)) key h h refl))
  ]

  add_key-place :
      (i : ℕ) (l : Loader)
      → element (length (l.heap i).keys) ((add_key max i key l).heap i).keys ≡ some key
  add_key-place i l = elim (Bool-cases (fills max (length (l.heap i).keys) (l.heap i))) [
    | inl full ↦ rw full (ground (arith, element-last (l.heap i).keys key))
    | inr rooms ↦ rw rooms (ground (arith, element-last (l.heap i).keys key))
  ]

  key_index-Grows :
      (i : ℕ) (l : Loader)
      → (l.heap i).done ≡ false
      → Grows l (key_index max i key l).1
        × (element (key_index max i key l).0 ((key_index max i key l).1.heap i).keys ≡ some key)
  unfolding key_index
  key_index-Grows i l h = elim (Option-cases (position key (l.heap i).keys)) [
    | inl e ↦ rw e (add_key-Grows i l h, add_key-place i l)
    | inr (pos, e) ↦
        rw e
          (λ j. Extends-same (l.heap j) (l.heap j) refl, position-element key (l.heap i).keys pos e)
  ]

  current-Grows : (o : Option ℕ) (l : Loader) → l.heap l.next ≡ new_batch → Grows l (current o l).1
  current-Grows (some i) l h = λ j. Extends-same (l.heap j) (l.heap j) refl
  current-Grows none l h =
      put-Grows l.next new_batch l.heap (Extends-same (l.heap l.next) new_batch (sym h))

  -- `LoadThunk` keeps what was there, and its own thunk has the place of its key.
  pub load_thunk-Grows :
      (l : Loader)
      → IsSound max l
      → Grows l (load_thunk max key l).1 × Waits (load_thunk max key l).1 (load_thunk max key l).0
  unfolding load_thunk
  load_thunk-Grows l sound = elim (Option-cases (l.cache key)) [
    | inr (it, e) ↦ rw e (λ j. Extends-same (l.heap j) (l.heap j) refl, tt)
    | inl e ↦
        let (i, l') = current l.batch l in
        let ready = current-IsReady max l sound l.batch refl in
        let step =
          key_index-Grows (current l.batch l).0 (current l.batch l).1 ready.collects.not_done in
        rw e (
          λ j.
              Extends-trans (l.heap j) ((current l.batch l).1.heap j)
                ((key_index max (current l.batch l).0 key (current l.batch l).1).1.heap j)
                (current-Grows l.batch l (sound.fresh l.next (omega arith)) j) (step.0 j),
          step.1,
        )
  ]

pub load_thunk-cache :
    (max : ℕ) (key : Uuid) (l : Loader) → (load_thunk max key l).1.cache ≡ l.cache
unfolding load_thunk key_index
load_thunk-cache max key l = ground arith

pub start_timer-Grows : (i : ℕ) (l : Loader) → Grows l (start_timer i l)
unfolding start_timer
start_timer-Grows i l = elim (Bool-cases (l.heap i).closing) [
  | inl closing ↦ rw closing (put-Grows i _ l.heap (only_counters _ refl refl refl refl))
  | inr waited ↦ rw waited (put-Grows i _ l.heap (only_counters _ refl refl refl refl))
]
  where
    only_counters :
        (b : Batch)
        → b.keys ≡ (l.heap i).keys
        → b.done ≡ (l.heap i).done
        → b.users ≡ (l.heap i).users
        → b.errors ≡ (l.heap i).errors
        → Extends (l.heap i) b
    only_counters b k d u e = record { places = λ pos key h. rw k h; logged = still_logged }
      where
        still_logged : (states : List World) → Log (l.heap i) states → Log b states
        still_logged states (not_sent c f) = not_sent (d ∙ c) f
        still_logged states (sent w c f v x) = sent w (d ∙ c) f (rw (u, k) v) (rw (e, k) x)
