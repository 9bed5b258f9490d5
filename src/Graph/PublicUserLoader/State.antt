-- ===== src/Graph/PublicUserLoader/State.antt =====
-- `PublicUserLoader` (internal/graph/dataloader/publicuserloader_gen.go): the loader, its batches,
-- and what its operations do to them. A pointer to a batch is a number at which `heap` holds it.
use filmstund.Base.{
  ℕ, zero, suc, ◌-◌, Bool, true, false, not, ◌&&◌, Option, none, some, List, [], ◌∷◌, ◌++◌, nat_eq,
  leb, if◌then◌else◌, length,
}
use filmstund.Database.{Uuid, DbError, World, Result, ok, err}
use filmstund.Dao.Users.{PublicUserRow}
use filmstund.Graph.PublicUsers.{fetch}

-- `timers` counts the goroutines in `startTimer`, `ends` those in `end`; `done` is whether the
-- channel is closed. A `nil` slice of errors is nothing.
pub record Batch : Type 0 where
  pub keys : List Uuid
  pub users : List (Option PublicUserRow)
  pub errors : Option (List (Option DbError))
  pub closing : Bool
  pub done : Bool
  pub timers : ℕ
  pub ends : ℕ

-- Batches are made at `next`. A closed channel that is closed again panics.
pub record Loader : Type 0 where
  pub cache : Uuid → Option (Option PublicUserRow)
  pub batch : Option ℕ
  pub heap : ℕ → Batch
  pub next : ℕ
  pub has_panicked : Bool

-- What `LoadThunk` returns: the two closures, with the variables that they hold.
pub data Thunk : Type 0 where
  cached : Option PublicUserRow → Thunk
  waiting : ℕ → ℕ → Uuid → Thunk

pub data Outcome : Type 0 where
  blocked panicked : Outcome
  returned : Option PublicUserRow → Option DbError → Outcome

abbrev pub new_batch : Batch
new_batch = record {
  keys = [];
  users = [];
  errors = none;
  closing = false;
  done = false;
  timers = 0;
  ends = 0;
}

abbrev pub new_public_user_loader : Loader
new_public_user_loader = record {
  cache = λ key. none;
  batch = none;
  heap = λ i. new_batch;
  next = 0;
  has_panicked = false;
}

module _ {ℓ} {A : Type ℓ} where
  -- Writing to one place of a map or of the heap.
  abbrev pub put : ℕ → A → (ℕ → A) → ℕ → A
  put i x f j = if nat_eq j i then x else f j

  abbrev pub element : ℕ → List A → Option A
  element i [] = none
  element zero (x ∷ xs) = some x
  element (suc i) (x ∷ xs) = element i xs

-- The loop of `keyIndex` over the keys.
abbrev pub one_later : Option ℕ → Option ℕ
one_later none = none
one_later (some i) = some (suc i)

unfoldable pub position : Uuid → List Uuid → Option ℕ
position key [] = none
position key (k ∷ keys) =
    let rest = one_later (position key keys) in if nat_eq key k then some 0 else rest

-- `b.keys = append(b.keys, key); if pos == 0 { go b.startTimer(l) }`
abbrev pub appended : Uuid → Batch → Batch
appended key b = record b {
  keys = b.keys ++ key ∷ [];
  timers = if nat_eq (length b.keys) 0 then suc b.timers else b.timers;
}

-- Whether a batch to which a key is added at `pos` is sent at once.
abbrev pub fills : ℕ → ℕ → Batch → Bool
fills max pos b = not (nat_eq max 0) && leb (max - 1) pos && not b.closing

abbrev pub closed : Batch → Batch
closed b = record b { closing = true; ends = suc b.ends }

-- `keyIndex` on the batch at `i`, for a key that it lacks.
abbrev pub add_key : ℕ → ℕ → Uuid → Loader → Loader
add_key max i key l =
    let b = l.heap i in
    if fills max (length b.keys) b
    then record l { heap = put i (closed (appended key b)) l.heap; batch = none }
    else record l { heap = put i (appended key b) l.heap }

abbrev pub index_at : Option ℕ → ℕ → ℕ → Uuid → Loader → ℕ × Loader
index_at (some pos) max i key l = (pos, l)
index_at none max i key l = (length (l.heap i).keys, add_key max i key l)

unfoldable pub key_index : ℕ → ℕ → Uuid → Loader → ℕ × Loader
key_index max i key l = index_at (position key (l.heap i).keys) max i key l

-- `if l.batch == nil { l.batch = … }; batch := l.batch`
abbrev pub current : Option ℕ → Loader → ℕ × Loader
current (some i) l = (i, l)
current none l = (
  l.next,
  record l { batch = some l.next; heap = put l.next new_batch l.heap; next = suc l.next },
)

abbrev pub thunk_for : Option (Option PublicUserRow) → ℕ → Uuid → Loader → Thunk × Loader
thunk_for (some it) max key l = (cached it, l)
thunk_for none max key l =
    let (i, l') = current l.batch l in
    let (pos, l'') = key_index max i key l' in (waiting i pos key, l'')

unfoldable pub load_thunk : ℕ → Uuid → Loader → Thunk × Loader
unfolding key_index
load_thunk max key l = thunk_for (l.cache key) max key l

unfoldable pub unsafe_set : Uuid → Option PublicUserRow → Loader → Loader
unsafe_set key user l = record l { cache = put key (some user) l.cache }

-- `batch.data[pos]` where there is one.
abbrev pub user_at : Option (Option PublicUserRow) → Option PublicUserRow
user_at none = none
user_at (some user) = user

unfoldable pub settled :
    Option (Option DbError) → Option PublicUserRow → Uuid → Loader → Outcome × Loader
unfolding unsafe_set
settled none user key l = (panicked, record l { has_panicked = true })
settled (some none) user key l = (returned user none, unsafe_set key user l)
settled (some (some e)) user key l = (returned user (some e), l)

-- The error of a call; nothing where `batch.error[pos]` is out of range.
abbrev pub error_at : Option (List (Option DbError)) → ℕ → Option (Option DbError)
error_at none pos = some none
error_at (some (e ∷ [])) pos = some e
error_at (some []) pos = none
error_at (some (e ∷ f ∷ es)) pos = element pos (e ∷ f ∷ es)

-- Calling a thunk, which blocks until the batch is done.
unfoldable pub call : Thunk → Loader → Outcome × Loader
call (cached it) l = (returned it none, l)
call (waiting i pos key) l =
    if (l.heap i).done
    then settled (error_at (l.heap i).errors pos) (user_at (element pos (l.heap i).users)) key l
    else (blocked, l)

-- `startTimer` on the batch at `i` after it has slept. It goes on to `end`, or is over.
unfoldable pub start_timer : ℕ → Loader → Loader
start_timer i l =
    let b = l.heap i in
    if b.closing
    then record l { heap = put i (record b { timers = b.timers - 1 }) l.heap }
    else record l {
      heap = put i (record b { timers = b.timers - 1; ends = suc b.ends }) l.heap;
      batch = none;
    }

-- What the function `fetch` of the loader returns, of the query's result.
abbrev pub users_of : Result DbError (List (Option PublicUserRow)) → List (Option PublicUserRow)
users_of (ok users) = users
users_of (err e) = []

abbrev pub errors_of : Result DbError (List (Option PublicUserRow)) → Option (List (Option DbError))
errors_of (ok users) = none
errors_of (err e) = some (some e ∷ [])

-- `end` on the batch at `i`, with the database in the state `w` when it fetches.
abbrev pub answered_by : Result DbError (List (Option PublicUserRow)) → Batch → Batch
answered_by r b = record b {
  users = users_of r;
  errors = errors_of r;
  done = true;
  ends = b.ends - 1;
}

unfoldable pub end : ℕ → World → Loader → Loader
end i w l =
    let b = l.heap i in
    let (r, w') = fetch b.keys w in
    record l {
      heap = put i (answered_by r b) l.heap;
      has_panicked = if b.done then true else l.has_panicked;
    }

-- `Prime`, of what the cache holds for the key.
unfoldable pub primed :
    Option (Option PublicUserRow) → Uuid → PublicUserRow → Loader → Bool × Loader
unfolding unsafe_set
primed (some it) key user l = (false, l)
primed none key user l = (true, unsafe_set key (some user) l)

unfoldable pub prime : Uuid → PublicUserRow → Loader → Bool × Loader
unfolding primed
prime key user l = primed (l.cache key) key user l

unfoldable pub clear : Uuid → Loader → Loader
clear key l = record l { cache = put key none l.cache }
