-- ===== src/Graph/Showings.antt =====
-- internal/graph/showing.resolvers.go: the life of a showing.
pub mod Atomicity
pub mod Settlement
pub mod Preserving
pub mod Permanence
pub mod Consistency
pub mod Attendance
pub mod Authority
use filmstund.Base.{
  ℕ, Bool, true, false, Option, none, some, List, [], ◌∷◌, if◌then◌else◌, ◌==◌, ids, nat_eq, take,
}
use filmstund.Base.Int.{ℤ, pos}
use filmstund.Base.Text.{Text, bytes}
use filmstund.Encoding.Base64.{encode, be_bytes}
use filmstund.Database.{
  Uuid, World, Handle, pool, in_tx, Action, DbError, Result, ok, err, exec, begin, commit, rollback,
  or_return, or_rollback, pure, raise, raise_if, ◌>>=◌, ◌>>◌,
}
use filmstund.Dao.Showings.{
  add_showing, delete_showing, mark_showing_as_bought, promote_new_user_to_showing_admin,
  public_attendees, public_showings, showing_by_id, showing_by_web_id, showings_by_movie,
  update_showing, PublicAttendeesRow, UpdateShowingParams,
}
use filmstund.Dao.Attendees.{
  add_attendee, delete_attendee, mark_gc_attendees_as_having_paid,
  update_amount_owed_for_swish_attendees,
}
use filmstund.Dao.CinemaScreens.{add_cinema_screen}
use filmstund.Dao.Movies.{lookup_movie_title}
use filmstund.Dao.Tickets.{showing_tickets_bought}
use filmstund.Graph.Model.{
  PaymentType, swish, gift_certificate, type_name, PaymentOption, GraphShowing, showing_model,
  showing_models, CreateShowingInput, UpdateShowingInput, GraphError, SingleShow, Env,
  internal_server_error, already_bought_on_attend, add_attendee_failed, delete_attendee_failed,
  not_an_attendee, lookup_movie_failed, insert_screen_failed, add_showing_failed, add_you_failed,
  insert_showing_failed, delete_showing_failed, showing_already_removed, tickets_already_bought,
  mark_as_bought_failed, update_showing_failed, promote_failed, find_showing_failed, no_showing_id,
  fetch_public_showings_failed, fetch_attendees_failed, panicked,
}

abbrev pub Handler : Type 0 → Type 0
Handler A = Action GraphError A

-- `queryResolver.Showing`
unfoldable pub showing : Option Uuid → Option Text → Handler GraphShowing
unfolding showing_model
showing (some id) web = do
  s ← or_return (exec pool (showing_by_id id)) find_showing_failed
  pure (showing_model s)
showing none (some web) = do
  s ← or_return (exec pool (showing_by_web_id web)) find_showing_failed
  pure (showing_model s)
showing none none = raise no_showing_id

-- `queryResolver.PublicShowings`
unfoldable pub public_showings_after : Option ℕ → Handler (List GraphShowing)
public_showings_after after = do
  ss ←
      or_return (exec pool (public_showings (elim after [ none ↦ 0 | some t ↦ t ])))
        fetch_public_showings_failed
  pure (showing_models ss)

-- `queryResolver.ShowingForMovie`
unfoldable pub showing_for_movie : Uuid → Handler (List GraphShowing)
showing_for_movie movie = do
  ss ← or_return (exec pool (showings_by_movie movie)) internal_server_error
  pure (showing_models ss)

-- The closure `owed` of `AttendShowing`.
abbrev pub owed : PaymentType → ℤ → ℤ
owed swish price = price
owed gift_certificate price = pos 0

-- `HasPaid` of `AttendShowing`.
abbrev pub paid_by : PaymentType → Bool
paid_by swish = false
paid_by gift_certificate = true

-- `mutationResolver.AttendShowing`
unfoldable pub attend_showing : Uuid → Uuid → PaymentOption → Handler GraphShowing
unfolding type_name showing
attend_showing me id option = do
  (bought, price) ← or_return (exec pool (showing_tickets_bought id)) internal_server_error
  raise_if bought already_bought_on_attend
  or_return
      (exec pool (
        add_attendee (record {
          user_id = me;
          showing_id = id;
          attendee_type = type_name option.kind;
          has_paid = paid_by option.kind;
          amount_owed = owed option.kind price;
          gift_certificate_used = option.ticket_number;
        })))
      add_attendee_failed
  showing (some id) none

-- `mutationResolver.UnattendShowing`
unfoldable pub unattend_showing : Uuid → Uuid → Handler GraphShowing
unfolding showing
unattend_showing me id = do
  rows ← or_return (exec pool (delete_attendee me id)) delete_attendee_failed
  raise_if (nat_eq rows 0) not_an_attendee
  showing (some id) none

-- The part of `CreateShowing` that inserts the screen of the fetched show, if that succeeded.
unfoldable pub insert_screen : Option SingleShow → Handler (Option Text)
insert_screen none = pure none
insert_screen (some s) = do
  or_rollback (exec in_tx (add_cinema_screen s.screen_ncg_id (some s.screen_title)))
      insert_screen_failed
  pure (some s.screen_ncg_id)

-- The part of `CreateShowing` that fetches the show.
unfoldable pub create_screen : Env → Option Text → Handler (Option Text)
unfolding insert_screen
create_screen env none = pure none
create_screen env (some id) = insert_screen (env.show id)

-- The first ten letters of the encoded UUID.
unfoldable pub web_id : Uuid → Text
web_id id = take 10 (encode (be_bytes 16 id))

-- `mutationResolver.CreateShowing`
unfoldable pub create_showing : Env → CreateShowingInput → Handler GraphShowing
unfolding create_screen showing_model
create_showing env input = do
  or_return begin internal_server_error
  title ← or_rollback (exec in_tx (lookup_movie_title input.movie_id)) lookup_movie_failed
  screen ← create_screen env input.filmstaden_remote_entity_id
  inserted ←
      or_rollback
        (exec in_tx (
          add_showing (record {
            id = env.new_uuid;
            web_id = web_id env.new_uuid;
            slug = env.make_slug title;
            date = input.date;
            time = input.time;
            movie_id = input.movie_id;
            location = input.location;
            cinema_screen_id = screen;
            filmstaden_showing_id = input.filmstaden_remote_entity_id;
            admin = env.me;
            pay_to_user = env.me;
          })))
        add_showing_failed
  or_rollback
      (exec in_tx (
        add_attendee (record {
          user_id = env.me;
          showing_id = env.new_uuid;
          attendee_type = type_name swish;
          has_paid = true;
          amount_owed = pos 0;
          gift_certificate_used = none;
        })))
      add_you_failed
  or_return commit insert_showing_failed
  pure (showing_model inserted)

-- `mutationResolver.DeleteShowing`
unfoldable pub delete_showing_by_id : Uuid → Handler (List GraphShowing)
unfolding public_showings_after
delete_showing_by_id id = do
  rows ← or_return (exec pool (delete_showing id)) delete_showing_failed
  raise_if (nat_eq rows 0) showing_already_removed
  public_showings_after none

-- The guard of `MarkAsBought`.
abbrev pub refuse_if_bought : Bool → Handler (Unit {0})
refuse_if_bought true = rollback >> raise tickets_already_bought
refuse_if_bought false = pure tt

-- `mutationResolver.MarkAsBought`
unfoldable pub mark_as_bought : Uuid → Uuid → ℤ → Handler GraphShowing
unfolding showing
mark_as_bought me id price = do
  or_return begin internal_server_error
  (bought, _) ← or_rollback (exec in_tx (showing_tickets_bought id)) internal_server_error
  refuse_if_bought bought
  or_rollback (exec in_tx (mark_gc_attendees_as_having_paid me id)) internal_server_error
  or_rollback (exec in_tx (update_amount_owed_for_swish_attendees price me id))
      internal_server_error
  or_rollback
      (exec in_tx
        (mark_showing_as_bought (record { price = price; showing_id = id; admin_id = me })))
      internal_server_error
  or_return commit mark_as_bought_failed
  showing (some id) none

-- The part of `UpdateShowing` that inserts the screen, outside any transaction.
unfoldable pub update_screen_of : Option SingleShow → Handler (Option Text)
update_screen_of none = pure none
update_screen_of (some s) = do
  or_return (exec pool (add_cinema_screen s.screen_ncg_id (some s.screen_title)))
      insert_screen_failed
  pure (some s.screen_ncg_id)

-- The part of `UpdateShowing` that fetches the show.
unfoldable pub update_screen : Env → Option Text → Handler (Option Text)
unfolding update_screen_of
update_screen env none = pure none
update_screen env (some id) = update_screen_of (env.show id)

-- The parameters of the update.
abbrev pub changes : Env → Uuid → UpdateShowingInput → Option Text → UpdateShowingParams
changes env id input screen = record {
  price = input.price;
  pay_to_user = input.pay_to_user;
  location = input.location;
  filmstaden_showing_id = input.filmstaden_remote_entity_id;
  cinema_screen_id = screen;
  date = input.date;
  time = input.time;
  showing_id = id;
  admin_id = env.me;
}

-- `mutationResolver.UpdateShowing`; no input is a nil pointer, which it dereferences.
unfoldable pub update_showing_by_id : Env → Uuid → Option UpdateShowingInput → Handler GraphShowing
unfolding update_screen showing
update_showing_by_id env id none = raise panicked
update_showing_by_id env id (some input) = do
  screen ← update_screen env input.filmstaden_remote_entity_id
  or_return (exec pool (update_showing (changes env id input screen))) update_showing_failed
  showing (some id) none

-- `mutationResolver.PromoteToAdmin`
unfoldable pub promote_to_admin : Uuid → Uuid → Uuid → Handler GraphShowing
unfolding showing
promote_to_admin me id user = do
  or_return
      (exec pool (
        promote_new_user_to_showing_admin
          (record { new_admin_id = user; showing_id = id; admin_id = me })))
      promote_failed
  showing (some id) none

-- `showingResolver.Attendees`
unfoldable pub attendees_of : Uuid → Handler (List PublicAttendeesRow)
attendees_of id = or_return (exec pool (public_attendees id)) fetch_attendees_failed
