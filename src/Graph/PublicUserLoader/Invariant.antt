-- ===== src/Graph/PublicUserLoader/Invariant.antt =====
-- The invariant of the runs of a loader, and that every step preserves it.
use filmstund.Base.{ℕ, zero, suc, ◌<◌, ◌≡◌, refl, some, List, [], ◌∷◌, All, arith}
use filmstund.Base.Keys.{All-snoc, All-mono}
use filmstund.Database.{Uuid, World}
use filmstund.Graph.PublicUserLoader.State.{
  Loader, Thunk, cached, waiting, element, load_thunk, call, start_timer, end, prime, clear,
}
use filmstund.Graph.PublicUserLoader.System.{
  System, Step, load_thunk_step, call_step, goroutine_step, timer_step, end_step, prime_step,
  clear_step, Reach, here, next, start, asked, ended,
}
use filmstund.Graph.PublicUserLoader.Phases.{unused}
use filmstund.Graph.PublicUserLoader.Soundness.{IsSound, load_thunk-IsSound}
use filmstund.Graph.PublicUserLoader.Runs.{
  Log, not_sent, Waits, SameBatches, SameBatches-IsSound, call-SameBatches, start_timer-IsSound,
  end-IsSound, end-Log, end-not_done, end-kept, start_timer-cache, prime-SameBatches,
  clear-SameBatches,
}
use filmstund.Graph.PublicUserLoader.Growth.{
  Grows, load_thunk-Grows, load_thunk-cache, start_timer-Grows,
}
use filmstund.Graph.PublicUserLoader.Answers.{
  OwnsCache, call-OwnsCache, prime-OwnsCache, clear-OwnsCache,
}

pub record IsRun (max : ℕ) (s : System) : Type 0 where
  pub sound : IsSound max s.loader
  pub logs : (i : ℕ) → Log (s.loader.heap i) (s.fetches i)
  pub places : All (Waits s.loader) s.thunks
  pub owners : OwnsCache s.loader

Grows-Waits : (l l' : Loader) (t : Thunk) → Grows l l' → Waits l t → Waits l' t
Grows-Waits l l' (cached it) g h = tt
Grows-Waits l l' (waiting i pos key) g h = (g i).places pos key h

pub All-element {ℓ κ} :
    {A : Type ℓ} (P : A → Type κ) (xs : List A) (i : ℕ) (x : A)
    → All P xs
    → element i xs ≡ some x
    → P x
All-element P [] i x h e = cc
All-element P (y ∷ xs) zero x h e = let f : x ≡ y = ground arith in rw f h.0
All-element P (y ∷ xs) (suc i) x h e = All-element P xs i x h.1 e

module _ (max : ℕ) (s : System) (run : IsRun max s) where
  kept_places : (l : Loader) → Grows s.loader l → All (Waits l) s.thunks
  kept_places l g =
      All-mono (Waits s.loader) (Waits l) s.thunks (λ t h. Grows-Waits s.loader l t g h) run.places

  -- A step that makes no new thunk and fetches nothing.
  grown-IsRun :
      (l : Loader)
      → IsSound max l
      → Grows s.loader l
      → OwnsCache l
      → IsRun max (record s { loader = l })
  grown-IsRun l sound g owns = record {
    sound = sound;
    logs = λ i. (g i).logged (s.fetches i) (run.logs i);
    places = kept_places l g;
    owners = owns;
  }

  SameBatches-Grows : (l : Loader) → SameBatches s.loader l → Grows s.loader l
  SameBatches-Grows l same i = record {
    places = λ pos key h. rw same.same_heap h;
    logged = λ states h. rw same.same_heap h;
  }

  same-IsRun :
      (l : Loader) → SameBatches s.loader l → OwnsCache l → IsRun max (record s { loader = l })
  same-IsRun l same owns =
      grown-IsRun l (SameBatches-IsSound max s.loader l same run.sound) (SameBatches-Grows l same)
        owns

  call-IsRun :
      (t : Thunk) → Waits s.loader t → IsRun max (record s { loader = (call t s.loader).1 })
  call-IsRun t h =
      same-IsRun (call t s.loader).1 (call-SameBatches s.loader s.fetches t run.logs)
        (call-OwnsCache s.loader s.fetches t run.logs h run.owners)

  asked-IsRun : (key : Uuid) → IsRun max (asked max key s)
  asked-IsRun key =
      let grown = load_thunk-Grows max key s.loader run.sound in
      record {
        sound = load_thunk-IsSound max key s.loader run.sound;
        logs = λ i. (grown.0 i).logged (s.fetches i) (run.logs i);
        places =
            All-snoc (Waits (load_thunk max key s.loader).1) s.thunks
              (load_thunk max key s.loader).0 (kept_places (load_thunk max key s.loader).1 grown.0)
              grown.1;
        owners = rw (load_thunk-cache max key s.loader) run.owners;
      }

  ended-IsRun : (i : ℕ) (w : World) → 0 < (s.loader.heap i).ends → IsRun max (ended i w s)
  ended-IsRun i w h = record {
    sound = end-IsSound max i s.loader run.sound w h;
    logs = end-Log i w s.loader s.fetches (end-not_done max i s.loader run.sound h) run.logs;
    places = All-mono (Waits s.loader) (Waits (end i w s.loader)) s.thunks kept run.places;
    owners = rw ((end-kept i w s.loader).1) run.owners;
  }
    where
      kept : (t : Thunk) → Waits s.loader t → Waits (end i w s.loader) t
      kept (cached it) k = tt
      kept (waiting j pos key) k = rw ((end-kept i w s.loader).0 j) k

Step-IsRun : (max : ℕ) {s t : System} → Step max s t → IsRun max s → IsRun max t
Step-IsRun max {s = s} (load_thunk_step key) run = asked-IsRun max s run key
Step-IsRun max {s = s} (call_step i t e) run =
    call-IsRun max s run t (All-element (Waits s.loader) s.thunks i t run.places e)
Step-IsRun max {s = s} (goroutine_step (timer_step i h)) run =
    grown-IsRun max s run (start_timer i s.loader) (start_timer-IsSound max i s.loader run.sound h)
      (start_timer-Grows i s.loader) (rw (start_timer-cache i s.loader) run.owners)
Step-IsRun max {s = s} (goroutine_step (end_step i w h)) run = ended-IsRun max s run i w h
Step-IsRun max {s = s} (prime_step key user h) run =
    same-IsRun max s run (prime key user s.loader).1 (prime-SameBatches key user s.loader)
      (prime-OwnsCache key user s.loader h run.owners)
Step-IsRun max {s = s} (clear_step key) run =
    same-IsRun max s run (clear key s.loader) (clear-SameBatches key s.loader)
      (clear-OwnsCache key s.loader run.owners)

start-IsRun : (max : ℕ) → IsRun max start
start-IsRun max = record {
  sound = record {
    phases = λ i. unused refl refl;
    fresh = λ i h. refl;
    ahead = λ i e. cc;
    calm = refl;
  };
  logs = λ i. not_sent refl refl;
  places = tt;
  owners = λ key it e. cc;
}

pub Reach-IsRun : (max : ℕ) {s : System} → Reach max start s → IsRun max s
Reach-IsRun max here = start-IsRun max
Reach-IsRun max (next r st) = Step-IsRun max st (Reach-IsRun max r)
