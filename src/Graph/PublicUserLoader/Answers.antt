-- ===== src/Graph/PublicUserLoader/Answers.antt =====
-- What the thunks of the loader return once their batch is done.
use filmstund.Base.{
  ℕ, zero, suc, ◌≡◌, refl, inl, inr, true, Option, none, some, List, [], ◌∷◌, map, nat_eq,
  Bool-cases, Option-cases, if◌then◌else◌, ◌==◌, ids, find, arith,
}
use filmstund.Database.{Uuid, User, World, connection_lost, is_down}
use filmstund.Dao.Users.{PublicUserRow}
use filmstund.Graph.PublicUsers.{fetch, fetch-run, user_for, shown}
use filmstund.Graph.PublicUserLoader.State.{
  Batch, Loader, Thunk, Outcome, returned, cached, waiting, element, call, settled, error_at,
  errors_of, users_of, user_at, unsafe_set, prime, primed, clear,
}
use filmstund.Graph.PublicUserLoader.Runs.{Log, not_sent, sent, Waits}

-- What a query for this key alone would tell, of the database in this state.
abbrev pub answer_of : World → Uuid → Outcome
answer_of w key =
    if is_down w.faults
    then returned none (some connection_lost)
    else returned (user_for w.db key) none

element-map {ℓ κ} :
    {A : Type ℓ} {B : Type κ} (f : A → B) (i : ℕ) (xs : List A) (x : A)
    → element i xs ≡ some x
    → element i (map f xs) ≡ some (f x)
element-map f i [] x h = cc
element-map f zero (y ∷ xs) x h = ground arith
element-map f (suc i) (y ∷ xs) x h = element-map f i xs x h

module _ (b : Batch) (pos : ℕ) (key : Uuid) (l : Loader)
    (at_pos : element pos b.keys ≡ some key) where
  settled-answer_of :
      (w : World)
      → b.users ≡ users_of (fetch b.keys w).0
      → b.errors ≡ errors_of (fetch b.keys w).0
      → (settled (error_at b.errors pos) (user_at (element pos b.users)) key l).0 ≡ answer_of w key
  unfolding settled
  settled-answer_of w u e = elim (Bool-cases (is_down w.faults)) [
    | inl down ↦ rw (u, e, fetch-run b.keys w, down) refl
    | inr up ↦
        rw (u, e, fetch-run b.keys w, up, element-map (user_for w.db) pos b.keys key at_pos) refl
  ]

pub call-answer_of :
    (l : Loader) (states : List World) (i pos : ℕ) (key : Uuid)
    → Log (l.heap i) states
    → (l.heap i).done ≡ true
    → element pos (l.heap i).keys ≡ some key
    → (w : World) × (states ≡ w ∷ []) × ((call (waiting i pos key) l).0 ≡ answer_of w key)
unfolding call
call-answer_of l states i pos key (not_sent d e) h k = cc
call-answer_of l states i pos key (sent w d e u f) h k =
    (w, e, rw h (settled-answer_of (l.heap i) pos key l k w u f))

-- A user is cached only under the identifier that it has.
abbrev pub Owns : Uuid → Option PublicUserRow → Type 0
Owns key none = Unit
Owns key (some user) = user.id ≡ key

user_for-Owns :
    (key : Uuid) (users : List User) → Owns key (shown (find (λ (u : User). u.id == key) users))
user_for-Owns key [] = tt
user_for-Owns key (u ∷ users) = elim (Bool-cases (nat_eq u.id key)) [
  | inl same ↦ rw same (ground arith)
  | inr other ↦ rw other (user_for-Owns key users)
]

abbrev pub OwnsCache : Loader → Type 0
OwnsCache l = (key : Uuid) (it : Option PublicUserRow) → l.cache key ≡ some it → Owns key it

pub unsafe_set-OwnsCache :
    (key : Uuid) (user : Option PublicUserRow) (l : Loader)
    → Owns key user
    → OwnsCache l
    → OwnsCache (unsafe_set key user l)
unfolding unsafe_set
unsafe_set-OwnsCache key user l h owns k it e = elim (Bool-cases (nat_eq k key)) [
  | inl same ↦
      let found : it ≡ user = ground (arith, same, e) in
      let own : k ≡ key = ground arith in rw (found, own) h
  | inr other ↦ owns k it (rw other at e)
]

settled-OwnsCache :
    (b : Batch) (pos : ℕ) (key : Uuid) (l : Loader) (states : List World)
    → element pos b.keys ≡ some key
    → Log b states
    → b.done ≡ true
    → OwnsCache l
    → OwnsCache (settled (error_at b.errors pos) (user_at (element pos b.users)) key l).1
unfolding settled
settled-OwnsCache b pos key l states at_pos (not_sent d e) h owns = cc
settled-OwnsCache b pos key l states at_pos (sent w d e u f) h owns =
    elim (Bool-cases (is_down w.faults)) [
      | inl down ↦ rw (u, f, fetch-run b.keys w, down) owns
      | inr up ↦
          rw (u, f, fetch-run b.keys w, up, element-map (user_for w.db) pos b.keys key at_pos)
            (unsafe_set-OwnsCache key (user_for w.db key) l (user_for-Owns key w.db.users) owns)
    ]

pub call-OwnsCache :
    (l : Loader) (fetches : ℕ → List World) (t : Thunk)
    → ((i : ℕ) → Log (l.heap i) (fetches i))
    → Waits l t
    → OwnsCache l
    → OwnsCache (call t l).1
unfolding call
call-OwnsCache l fetches (cached it) logs h owns = owns
call-OwnsCache l fetches (waiting i pos key) logs h owns = elim (Bool-cases (l.heap i).done) [
  | inr running ↦ rw running owns
  | inl done ↦ rw done (settled-OwnsCache (l.heap i) pos key l (fetches i) h (logs i) done owns)
]

pub prime-OwnsCache :
    (key : Uuid) (user : PublicUserRow) (l : Loader)
    → user.id ≡ key
    → OwnsCache l
    → OwnsCache (prime key user l).1
unfolding prime primed
prime-OwnsCache key user l h owns = elim (Option-cases (l.cache key)) [
  | inl absent ↦ rw absent (unsafe_set-OwnsCache key (some user) l h owns)
  | inr (it, e) ↦ rw e owns
]

pub clear-OwnsCache : (key : Uuid) (l : Loader) → OwnsCache l → OwnsCache (clear key l)
unfolding clear
clear-OwnsCache key l owns k it e = elim (Bool-cases (nat_eq k key)) [
  | inl same ↦ ground (arith, same, e)
  | inr other ↦ owns k it (rw other at e)
]
