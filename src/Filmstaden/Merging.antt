-- ===== src/Filmstaden/Merging.antt =====
-- `Merge` (filmstaden/get_movies.go) keeps one movie for each identifier.
use filmstund.Base.{
  ◌≡◌, refl, sym, ap, ◌∙◌, Bool, ◌&&◌, not, Option, none, some, List, [], ◌∷◌, ◌++◌, count, select,
  length, ◌==◌, texts, list_eq_iff, if◌then◌else◌, arith,
}
use filmstund.Base.Int.{pos}
use filmstund.Base.Text.{Text}
use filmstund.Base.Maps.{GoMap, VisitsEach, put, holds, at_key, count-put}
use filmstund.Filmstaden.Movies.{FilmstadenMovie, Movies, put_movies, values, merge}

-- The last movie with the identifier.
abbrev pub last_of : Text → List FilmstadenMovie → Option FilmstadenMovie → Option FilmstadenMovie
last_of id [] found = found
last_of id (m ∷ ms) found = last_of id ms (if m.ncg_id == id then some m else found)

-- The movies with the identifier that pass the test.
abbrev pub with_id : Text → (FilmstadenMovie → Bool) → FilmstadenMovie → Bool
with_id id p m = m.ncg_id == id && p m

last_of-append :
    (id : Text) (xs ys : List FilmstadenMovie) (found : Option FilmstadenMovie)
    → last_of id (xs ++ ys) found ≡ last_of id ys (last_of id xs found)
last_of-append id [] ys found = refl
last_of-append id (m ∷ xs) ys found = last_of-append id xs ys _

module _ (id : Text) (p : FilmstadenMovie → Bool) where
  count-put_movies :
      (ms : List FilmstadenMovie) (set : GoMap FilmstadenMovie) (found : Option FilmstadenMovie)
      → count (at_key id p) set ≡ holds p found
      → count (at_key id p) (put_movies ms set) ≡ holds p (last_of id ms found)
  unfolding put_movies
  count-put_movies [] set found h = h
  count-put_movies (m ∷ ms) set found h =
      count-put_movies ms (put m.ncg_id m set) (if m.ncg_id == id then some m else found)
        (ground (arith, count-put m.ncg_id id m p set, h))

-- Each movie stands under its own identifier.
abbrev strays : Text × FilmstadenMovie → Bool
strays e = not (e.0 == e.1.ncg_id)

strays-select :
    (q : Text × FilmstadenMovie → Bool) (set : GoMap FilmstadenMovie)
    → count strays set ≡ 0
    → count strays (select q set) ≡ 0
strays-select q [] h = refl
strays-select q (e ∷ set) h = ground (arith, strays-select q set)

strays-put :
    (m : FilmstadenMovie) (set : GoMap FilmstadenMovie)
    → count strays set ≡ 0
    → count strays (put m.ncg_id m set) ≡ 0
unfolding put
strays-put m set h =
    ground (arith, list_eq_iff m.ncg_id m.ncg_id, strays-select (λ e. not (e.0 == m.ncg_id)) set h)

strays-put_movies :
    (ms : List FilmstadenMovie) (set : GoMap FilmstadenMovie)
    → count strays set ≡ 0
    → count strays (put_movies ms set) ≡ 0
unfolding put_movies
strays-put_movies [] set h = h
strays-put_movies (m ∷ ms) set h = strays-put_movies ms (put m.ncg_id m set) (strays-put m set h)

count-values :
    (id : Text) (p : FilmstadenMovie → Bool) (set : GoMap FilmstadenMovie)
    → count strays set ≡ 0
    → count (with_id id p) (values set) ≡ count (at_key id p) set
count-values id p [] h = refl
count-values id p (e ∷ set) h = ground (
  arith,
  list_eq_iff e.0 e.1.ncg_id,
  list_eq_iff e.0 id,
  list_eq_iff e.1.ncg_id id,
  count-values id p set,
)

-- Merging two lists of movies gives, in whatever order Go visits the map, one movie for each
-- identifier of either, which is the last one with it, those of the second list after those of the
-- first, and the count of these movies.
pub merge-last_of :
    (range : GoMap FilmstadenMovie → GoMap FilmstadenMovie) (xs ys : Movies)
    → VisitsEach range
    → (m : Movies) × (merge range (some xs) (some ys) ≡ some m)
      × (m.total_count ≡ pos (length m.items))
      × ((id : Text) (p : FilmstadenMovie → Bool)
          → count (with_id id p) m.items ≡ holds p (last_of id (xs.items ++ ys.items) none))
unfolding merge
merge-last_of range xs ys v =
    let set = put_movies ys.items (put_movies xs.items []) in
    let tidy : count strays (range set) ≡ 0 =
      v.at strays set
      ∙ strays-put_movies ys.items (put_movies xs.items []) (strays-put_movies xs.items [] refl) in
    (
      record { total_count = pos (length (values (range set))); items = values (range set) },
      refl,
      refl,
      λ id p.
          count-values id p (range set) tidy
          ∙ v.at (at_key id p) set
          ∙ count-put_movies id p ys.items (put_movies xs.items []) (last_of id xs.items none)
              (count-put_movies id p xs.items [] none refl)
          ∙ ap (λ o. holds p o) (sym (last_of-append id xs.items ys.items none)),
    )
