-- ===== src/Dao/CinemaScreens.antt =====
-- internal/database/dao/cinemascreen.sql.go
use filmstund.Base.{Option, [], ◌∷◌, ◌++◌, any, find, ◌==◌, texts, if◌then◌else◌}
use filmstund.Base.Text.{Text}
use filmstund.Database.{CinemaScreen, ok, err, Statement}
use filmstund.Dao.Showings.{one}

-- `on conflict DO NOTHING`
unfoldable pub add_cinema_screen : Text → Option Text → Statement (Unit {0})
add_cinema_screen id name now db =
    if any (λ (c : CinemaScreen). c.id == id) db.cinema_screens
    then ok (tt, db)
    else ok (
      tt,
      record db {
        cinema_screens =
            db.cinema_screens ++ record { id = id; name = name; create_time = now } ∷ [];
      },
    )

unfoldable pub cinema_screen : Text → Statement (Option Text)
cinema_screen id now db =
    one (find (λ (c : CinemaScreen). c.id == id) db.cinema_screens) (λ c. ok (c.name, db))
      (λ e. err e)
