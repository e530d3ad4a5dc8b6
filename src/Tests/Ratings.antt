-- ===== src/Tests/Ratings.antt =====
-- The theorem on feedback at a concrete store, and what a user is shown before and after a rating.
use playslot.Prelude.{
  ℕ, ◌≡◌, refl, true, Option, none, some, [], ◌∷◌, map, all, any, find, filter, take,
}
use playslot.Prelude.Sort.{sort, insert}
use playslot.Domain.Status.{ReservationStatus}
use playslot.Store.Tables.{Store, Feedback}
use playslot.Feedback.{
  FeedbackKind, FeedbackInput, is_mark, coach_of_rows, kept_comment, assert_rateable, upsert,
  find_own, submit_reservation, submit,
}
use playslot.Feedback.Mine.{
  FeedbackItemDto, reservation_item, past_reservations, past_sessions, list_mine,
}
use playslot.Feedback.Opinions.{same_key, single, opinion}
use playslot.Feedback.Rated.{is_ok, rateable, submit-opinion}
use playslot.Tests.Fixtures.{with_status, at}

abbrev first_mark : Feedback
first_mark = record {
  id = 20;
  user_id = 4;
  club_id = 1;
  reservation_id = some 5;
  group_session_id = none;
  coach_profile_id = none;
  rating = 2;
  comment = none;
}

abbrev played : Store
played = record (with_status ReservationStatus.confirmed) { feedback = first_mark ∷ [] }

abbrev five_stars : FeedbackInput
five_stars = record { kind = FeedbackKind.reservation; id = 5; rating = 5; comment = some "" }

submit-opinion_example :
    let after = submit (at 11) 3 five_stars played in
    (is_ok after.0 ≡ true)
    × (opinion 3 FeedbackKind.reservation 5 after.1.feedback ≡ some (5, none))
    × (all single after.1.feedback ≡ true)
unfolding rateable find_own find any same_key all single kept_comment
submit-opinion_example =
    submit-opinion (at 11) 3 five_stars played 3 FeedbackKind.reservation 5 refl

abbrev my_rating : FeedbackItemDto → Option ℕ
my_rating item = item.my_rating

list_mine-unrated : map my_rating (list_mine (at 11) 3 played) ≡ none ∷ []
unfolding list_mine past_reservations past_sessions reservation_item filter any take sort insert
    find is_mark
list_mine-unrated = refl

list_mine-rated :
    map my_rating (list_mine (at 11) 3 (submit (at 11) 3 five_stars played).1) ≡ some 5 ∷ []
unfolding list_mine past_reservations past_sessions reservation_item filter any take sort insert
    find is_mark submit submit_reservation find_own assert_rateable upsert coach_of_rows
list_mine-rated = refl
