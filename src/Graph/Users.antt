-- ===== src/Graph/Users.antt =====
-- The users of internal/graph/users.resolvers.go and internal/graph/mappers.
use filmstund.Base.{ℕ, Option, none, some, [], ◌++◌}
use filmstund.Base.Text.{Text, bytes}
use filmstund.Database.{Uuid, User, pool, exec, or_return, pure, ◌>>=◌}
use filmstund.Dao.Accounts.{
  UpdateUserParams, update_user, randomize_calendar_feed, disable_calendar_feed,
}
use filmstund.Graph.Model.{update_user_failed, invalidate_feed_failed, disable_feed_failed}
use filmstund.Graph.Scalars.{membership_text}
use filmstund.Graph.Showings.{Handler}
use filmstund.Graph.GiftCertificates.{fetch_user}
pub mod Requests

-- `model.User`, whose gift certificates are left to a resolver of their own.
pub record GraphUser : Type 0 where
  pub id : Uuid
  pub filmstaden_membership_id : Option Text
  pub name : Text
  pub first_name : Text
  pub last_name : Text
  pub nick : Option Text
  pub email : Text
  pub phone : Option Text
  pub avatar_url : Option Text
  pub calendar_feed_id : Option Uuid
  pub calendar_feed_url : Option Text
  pub last_login_time : ℕ
  pub signup_time : ℕ
  pub update_time : ℕ

-- The formats that Go's library makes: `strings.TrimSpace`, and the URL of a calendar under the
-- configured site.
pub record SiteConfig : Type 0 where
  pub trim_space : Text → Text
  pub calendar_url : Uuid → Text

unfoldable pub to_calendar_url : Option Uuid → SiteConfig → Option Text
to_calendar_url none cfg = none
to_calendar_url (some feed) cfg = some (cfg.calendar_url feed)

unfoldable pub to_graph_user : User → SiteConfig → GraphUser
unfolding to_calendar_url
to_graph_user u cfg = record {
  id = u.id;
  filmstaden_membership_id = u.filmstaden_membership_id;
  name = cfg.trim_space (u.first_name ++ bytes " " ++ u.last_name);
  first_name = u.first_name;
  last_name = u.last_name;
  nick = u.nick;
  email = u.email;
  phone = u.phone;
  avatar_url = u.avatar;
  calendar_feed_id = u.calendar_feed_id;
  calendar_feed_url = to_calendar_url u.calendar_feed_id cfg;
  last_login_time = u.last_login_time;
  signup_time = u.signup_time;
  update_time = u.update_time;
}

pub record UserDetailsInput : Type 0 where
  pub first_name : Option Text
  pub last_name : Option Text
  pub nick : Option Text
  pub filmstaden_membership_id : Option Text
  pub phone : Option Text

unfoldable pub from_string_p : Option Text → Text
from_string_p none = []
from_string_p (some s) = s

unfoldable pub to_update_user_params : UserDetailsInput → Text → UpdateUserParams
unfolding from_string_p membership_text
to_update_user_params input subject = record {
  filmstaden_membership_id = membership_text input.filmstaden_membership_id;
  phone_number = from_string_p input.phone;
  first_name = from_string_p input.first_name;
  last_name = from_string_p input.last_name;
  nick = from_string_p input.nick;
  subject_id = subject;
}

-- `mutationResolver.UpdateUser`, of the principal's subject.
unfoldable pub update_details : SiteConfig → Text → UserDetailsInput → Handler GraphUser
unfolding to_update_user_params to_graph_user
update_details cfg subject input = do
  user ←
      or_return (exec pool (update_user (to_update_user_params input subject))) update_user_failed
  pure (to_graph_user user cfg)

-- `mutationResolver.InvalidateCalendarFeed`; the database makes the UUID `feed`.
unfoldable pub invalidate_calendar_feed : SiteConfig → Text → Uuid → Handler GraphUser
unfolding to_graph_user
invalidate_calendar_feed cfg subject feed = do
  user ← or_return (exec pool (randomize_calendar_feed subject feed)) invalidate_feed_failed
  pure (to_graph_user user cfg)

-- `mutationResolver.DisableCalendarFeed`
unfoldable pub stop_calendar_feed : SiteConfig → Text → Handler GraphUser
unfolding to_graph_user
stop_calendar_feed cfg subject = do
  user ← or_return (exec pool (disable_calendar_feed subject)) disable_feed_failed
  pure (to_graph_user user cfg)

-- `queryResolver.CurrentUser`
unfoldable pub current_user : SiteConfig → Uuid → Handler GraphUser
unfolding to_graph_user
current_user cfg me = do user ← fetch_user me; pure (to_graph_user user cfg)
