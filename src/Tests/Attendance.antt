-- ===== src/Tests/Attendance.antt =====
-- The theorems on `AttendShowing` and `UnattendShowing` at the sample tables.
use filmstund.Base.{◌≡◌, ◌⊎◌, refl, none, ◌++◌, ◌∷◌, []}
use filmstund.Base.Int.{pos}
use filmstund.Database.{Attendee, ok, err}
use filmstund.Database.Execution.{reachable}
use filmstund.Graph.Model.{GraphError, PaymentOption, swish, showing_model}
use filmstund.Graph.Showings.{attend_showing, unattend_showing}
use filmstund.Graph.Showings.Attendance.{
  MayAttend, Charges, IsNew, attend_showing-decides, attend_then_unattend,
}
use filmstund.Tests.Samples.{club, open_showing}

abbrev by_swish : PaymentOption
by_swish = record { kind = swish; ticket_number = none }

-- User 4 may attend showing 10.
abbrev guest-MayAttend : MayAttend 4 10 by_swish club open_showing
guest-MayAttend = record {
  found = refl;
  not_bought = refl;
  is_new = refl;
  known = refl;
  unused = refl;
  owned = refl;
}

attend_showing-decides_example :
    ((may : MayAttend 4 10 by_swish club open_showing) × (a : Attendee) × (attend_showing 4 10
          by_swish
          (reachable club 5)
        ≡ (
          ok (showing_model open_showing),
          reachable (record club { attendees = club.attendees ++ a ∷ [] }) 5,
        ))
      × Charges swish (pos 0) a
      × IsNew 4 10 by_swish 5 a)
    ⊎ ((cannot : ¬ (MayAttend 4 10 by_swish club open_showing)) × (e : GraphError) × (attend_showing
            4 10 by_swish
            (reachable club 5)
          ≡ (err e, reachable club 5)))
attend_showing-decides_example = attend_showing-decides 4 10 by_swish club open_showing 5 refl

attend_then_unattend_example :
    unattend_showing 4 10 (attend_showing 4 10 by_swish (reachable club 5)).1
    ≡ (ok (showing_model open_showing), reachable club 5)
attend_then_unattend_example =
    attend_then_unattend 4 10 by_swish club open_showing 5 guest-MayAttend
