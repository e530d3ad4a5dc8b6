-- ===== src/Domain/Status.antt =====
-- packages/domain/src/reservation.ts: the statuses of a reservation, which of them occupy
-- inventory, and the table of legal transitions.
pub mod Graph
use playslot.Prelude.{
  ℕ, Bool, true, false, not, List, [], ◌∷◌, ◌≡◌, ◌↔◌, any, ◌==◌, arith, if◌then◌else◌,
}
use playslot.Prelude.Text.{str_eq}
use Prim.Native.String.{String}

pub data ReservationStatus : Type 0 where
  hold pending_payment pending_approval confirmed completed no_show cancelled refunded :
      ReservationStatus

-- The place of a status in the union type; statuses are compared by it.
abbrev place : ReservationStatus → ℕ
place hold = 0
place pending_payment = 1
place pending_approval = 2
place confirmed = 3
place completed = 4
place no_show = 5
place cancelled = 6
place refunded = 7

-- `a === b`
abbrev pub status_eq : ReservationStatus → ReservationStatus → Bool
status_eq a b = place a == place b

abbrev pub includes : List ReservationStatus → ReservationStatus → Bool
includes [] s = false
includes (x ∷ xs) s = if status_eq x s then true else includes xs s

abbrev pub occupying_statuses : List ReservationStatus
occupying_statuses = hold ∷ pending_payment ∷ pending_approval ∷ confirmed ∷ completed ∷ []

unfoldable pub occupies_inventory : ReservationStatus → Bool
occupies_inventory status = includes occupying_statuses status

abbrev pub transitions : ReservationStatus → List ReservationStatus
transitions hold = confirmed ∷ pending_payment ∷ pending_approval ∷ cancelled ∷ []
transitions pending_payment = confirmed ∷ pending_approval ∷ cancelled ∷ []
transitions pending_approval = confirmed ∷ cancelled ∷ []
transitions confirmed = completed ∷ no_show ∷ cancelled ∷ []
transitions completed = refunded ∷ []
transitions no_show = []
transitions cancelled = refunded ∷ []
transitions refunded = []

unfoldable pub can_transition : ReservationStatus → ReservationStatus → Bool
can_transition from to = includes (transitions from) to

pub data TransitionResult : Type 0 where
  legal : TransitionResult
  reservation_transition_error : ReservationStatus → ReservationStatus → TransitionResult

pub assert_transition : ReservationStatus → ReservationStatus → TransitionResult
unfolding can_transition
assert_transition from to =
    if not (can_transition from to) then reservation_transition_error from to else legal

unfoldable pub requires_online_payment : String → Bool
requires_online_payment payment_method = str_eq payment_method "ONLINE"
