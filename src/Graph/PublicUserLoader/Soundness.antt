-- ===== src/Graph/PublicUserLoader/Soundness.antt =====
-- Every run of the loader keeps its batches in order, and no channel is closed twice.
use filmstund.Base.{
  ℕ, zero, suc, ◌<◌, ◌≤◌, ◌≡◌, refl, inl, inr, Bool, true, false, Option, none, some, List, [], ◌∷◌,
  nat_eq, length, Bool-cases, Option-cases, arith,
}
use filmstund.Database.{Uuid}
use filmstund.Graph.PublicUserLoader.State.{
  Batch, Loader, new_batch, put, element, position, key_index, current, load_thunk, appended,
  closed, fills, add_key,
}
use filmstund.Graph.PublicUserLoader.Phases.{
  Phase, unused, collecting, sending, finished, Collects, new_batch-Collects, appended-Phase,
  closed-appended-Phase,
}

abbrev pub is_current : Option ℕ → ℕ → Bool
is_current none i = false
is_current (some j) i = nat_eq i j

-- Batches that are not made yet are unused; nothing points to them.
pub record IsSound (max : ℕ) (l : Loader) : Type 0 where
  pub phases : (i : ℕ) → Phase max (is_current l.batch i) (l.heap i)
  pub fresh : (i : ℕ) → l.next ≤ i → l.heap i ≡ new_batch
  pub ahead : (i : ℕ) → l.batch ≡ some i → i < l.next
  pub calm : l.has_panicked ≡ false

-- The batch that a new key goes to, before the key is added.
pub record IsReady (max i : ℕ) (l : Loader) : Type 0 where
  pub here : l.batch ≡ some i
  pub made : i < l.next
  pub collects : Collects max (l.heap i)
  pub others : (j : ℕ) → nat_eq j i ≡ false → Phase max false (l.heap j)
  pub fresh : (j : ℕ) → l.next ≤ j → l.heap j ≡ new_batch
  pub calm : l.has_panicked ≡ false

collecting-Collects : (max : ℕ) (b : Batch) → Phase max true b → Collects max b
collecting-Collects max b (unused h e) = cc
collecting-Collects max b (collecting h p c) = c
collecting-Collects max b (sending h e d f) = cc
collecting-Collects max b (finished h e d f) = cc

nat_eq_self : (i : ℕ) → nat_eq i i ≡ true
nat_eq_self i = ground arith

module _ (max : ℕ) (l : Loader) (sound : IsSound max l) where
  at_place : (o : Option ℕ) (i : ℕ) → l.batch ≡ o → Phase max (is_current o i) (l.heap i)
  at_place o i e = rw e at (sound.phases i)

  pub current-IsReady : (o : Option ℕ) → l.batch ≡ o → IsReady max (current o l).0 (current o l).1
  current-IsReady (some i) e = record {
    here = e;
    made = sound.ahead i e;
    collects = collecting-Collects max (l.heap i) (rw (nat_eq_self i) at (at_place (some i) i e));
    others = λ j h. rw h at (at_place (some i) j e);
    fresh = sound.fresh;
    calm = sound.calm;
  }
  current-IsReady none e = record {
    here = refl;
    made = omega arith;
    collects = rw (nat_eq_self l.next) (new_batch-Collects max);
    others = λ j h. rw h (at_place none j e);
    fresh = λ j h. ground (arith, sound.fresh j);
    calm = sound.calm;
  }

-- Writing one batch leaves the phase of each of the others.
module _ (max i : ℕ) (l : Loader) (ready : IsReady max i l) (key : Uuid) where
  put_others :
      (o : Option ℕ) (b : Batch)
      → Phase max (is_current o i) b
      → ((j : ℕ) → nat_eq j i ≡ false → is_current o j ≡ false)
      → (j : ℕ) → Phase max (is_current o j) (put i b l.heap j)
  put_others o b p off j = elim (Bool-cases (nat_eq j i)) [
    | inl same ↦ let e : j ≡ i = ground arith in rw (same, e) p
    | inr other ↦ rw (other, off j other) (ready.others j other)
  ]

  put_fresh : (b : Batch) (j : ℕ) → l.next ≤ j → put i b l.heap j ≡ new_batch
  put_fresh b j h = ground (arith, ready.made, ready.fresh j)

  add_key-IsSound : IsSound max (add_key max i key l)
  add_key-IsSound = elim (Bool-cases (fills max (length (l.heap i).keys) (l.heap i))) [
    | inl full ↦ rw full (record {
      phases =
          put_others none (closed (appended key (l.heap i)))
            (closed-appended-Phase max key (l.heap i) ready.collects full) (λ j h. refl);
      fresh = put_fresh (closed (appended key (l.heap i)));
      ahead = λ j h. cc;
      calm = ready.calm;
    })
    | inr rooms ↦ rw rooms (record {
      phases = rw ready.here (
          put_others (some i) (appended key (l.heap i))
            (rw (nat_eq_self i) (appended-Phase max key (l.heap i) ready.collects rooms))
            (λ j h. h));
      fresh = put_fresh (appended key (l.heap i));
      ahead = λ j h. ground (arith, ready.made, ready.here);
      calm = ready.calm;
    })
  ]

  found-IsSound : 0 < length (l.heap i).keys → IsSound max l
  found-IsSound h = record {
    phases = λ j. rw ready.here (found_place j);
    fresh = ready.fresh;
    ahead = λ j e. ground (arith, ready.here, ready.made);
    calm = ready.calm;
  }
    where
      found_place : (j : ℕ) → Phase max (nat_eq j i) (l.heap j)
      found_place j = elim (Bool-cases (nat_eq j i)) [
        | inl same ↦ let e : j ≡ i = ground arith in rw (same, e) (collecting refl h ready.collects)
        | inr other ↦ rw other (ready.others j other)
      ]

pub position-element :
    (key : Uuid) (keys : List Uuid) (pos : ℕ)
    → position key keys ≡ some pos
    → element pos keys ≡ some key
unfolding position
position-element key [] pos h = cc
position-element key (k ∷ keys) zero h = elim (Option-cases (position key keys)) [
  | inl e ↦ ground (arith, e)
  | inr (i, e) ↦ ground (arith, e)
]
position-element key (k ∷ keys) (suc pos) h = elim (Option-cases (position key keys)) [
  | inl e ↦ ground (arith, e)
  | inr (i, e) ↦ ground (arith, e, position-element key keys i e)
]

element-length :
    (keys : List Uuid) (pos : ℕ) (key : Uuid) → element pos keys ≡ some key → pos < length keys
element-length [] pos key h = cc
element-length (k ∷ keys) zero key h = omega arith
element-length (k ∷ keys) (suc pos) key h = omega (arith, element-length keys pos key h)

module _ (max : ℕ) (key : Uuid) where
  key_index-IsSound : (i : ℕ) (l : Loader) → IsReady max i l → IsSound max (key_index max i key l).1
  unfolding key_index
  key_index-IsSound i l ready = elim (Option-cases (position key (l.heap i).keys)) [
    | inl e ↦ rw e (add_key-IsSound max i l ready key)
    | inr (pos, e) ↦ rw e (
        found-IsSound max i l ready key (
          omega (
            arith,
            element-length (l.heap i).keys pos key (position-element key (l.heap i).keys pos e),
          )))
  ]

  pub load_thunk-IsSound : (l : Loader) → IsSound max l → IsSound max (load_thunk max key l).1
  unfolding load_thunk
  load_thunk-IsSound l sound = elim (Option-cases (l.cache key)) [
    | inl e ↦ rw e (
        key_index-IsSound (current l.batch l).0 (current l.batch l).1
          (current-IsReady max l sound l.batch refl))
    | inr (it, e) ↦ rw e sound
  ]
