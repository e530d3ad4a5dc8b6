-- ===== src/Store/Tables.antt =====
-- Rows of the tables. Ids are the database's; a `null` column is `none`. E-mail addresses and slugs
-- are lists of character codes. A club's time zone is the `Zone` that its name stands for.
use playslot.Prelude.{ℕ, Bool, String, Option, List}
use playslot.Prelude.Int.{ℤ}
use playslot.Domain.Time.{Instant, Interval, Zone}
use playslot.Domain.Status.{ReservationStatus}
use playslot.Domain.Slots.{AvailabilityRuleLike}
use playslot.Domain.Pricing.{PriceRuleLike}
use playslot.Domain.Cancellation.{RefundTier}

abbrev pub Email : Type 0
Email = List ℕ

pub data Role : Type 0 where
  player coach club_staff club_admin platform_admin : Role

pub data ReservationType : Type 0 where
  court lesson event tournament block maintenance : ReservationType

pub data ReservationSource : Type 0 where
  web club_staff coach platform_admin api : ReservationSource

pub data PaymentStatus : Type 0 where
  pending authorized captured failed refunded partially_refunded : PaymentStatus

pub data ResourceType : Type 0 where
  court coach equipment room : ResourceType

pub data Sport : Type 0 where
  tennis table_tennis badminton padel football basketball volleyball beach_tennis beach_volleyball
        pickleball squash :
      Sport

pub record User : Type 0 where
  pub id : ℕ
  pub email : Email
  pub name : String
  pub locale : String
  pub notify_by_email : Bool
  -- the newsletter
  pub subscribed : Bool
  pub roles : List Role
  pub email_verified_at : Option Instant
  pub suspended_at : Option Instant
  pub suspension_reason : Option String
  pub suspension_note : Option String
  pub reinstatement_fee_cents : Option ℤ
  pub deleted_at : Option Instant

pub record Club : Type 0 where
  pub id : ℕ
  pub name : String
  pub slug : List ℕ
  pub active : Bool
  pub zone : Zone
  pub slot_interval_min : ℕ
  pub currency : String
  pub requires_booking_approval : Bool
  pub booking_durations_min : List ℕ

pub record ClubMember : Type 0 where
  pub club_id : ℕ
  pub user_id : ℕ
  pub role : Role
  pub active : Bool

pub record Resource : Type 0 where
  pub id : ℕ
  -- none for a coach, who is shared by the clubs
  pub club_id : Option ℕ
  pub type : ResourceType
  pub name : String
  pub active : Bool
  pub coach_profile_id : Option ℕ
  pub min_reservation_min : ℕ
  -- none but for a court
  pub sport : Option Sport
  pub surface : Option String
  pub is_indoor : Option Bool
  pub has_lighting : Option Bool
  pub availability_rules : List AvailabilityRuleLike
  pub exceptions : List Interval

pub record CoachProfile : Type 0 where
  pub id : ℕ
  pub user_id : ℕ

pub record CoachClub : Type 0 where
  pub coach_profile_id : ℕ
  pub club_id : ℕ

pub record CoachService : Type 0 where
  pub id : ℕ
  pub coach_profile_id : ℕ
  pub price_cents : ℤ

pub record PriceRule : Type 0 where
  pub club_id : ℕ
  pub rule : PriceRuleLike

pub record MembershipPlan : Type 0 where
  pub id : ℕ
  pub club_id : ℕ
  pub name : String
  pub price_cents : ℤ
  pub duration_days : ℕ
  pub discount_percent : ℤ
  pub active : Bool

pub record Membership : Type 0 where
  pub id : ℕ
  pub club_id : ℕ
  pub user_id : ℕ
  pub plan_id : ℕ
  pub valid_until : Instant

pub record CancellationPolicy : Type 0 where
  pub club_id : ℕ
  pub applies_to : ReservationType
  pub tiers : List RefundTier

pub record Reservation : Type 0 where
  pub id : ℕ
  pub club_id : ℕ
  pub user_id : ℕ
  pub type : ReservationType
  pub status : ReservationStatus
  pub source : ReservationSource
  pub starts_at : Instant
  pub ends_at : Instant
  pub price_cents : ℤ
  pub currency : String
  pub payment_method : String
  pub hold_expires_at : Option Instant
  pub cancellation_reason : Option String
  pub participant_name : Option String

-- `ReservationResource`: the half-open period for which a reservation takes a resource.
pub record ResourceRow : Type 0 where
  pub reservation_id : ℕ
  pub resource_id : ℕ
  pub period : Interval
  pub is_active : Bool

pub record Payment : Type 0 where
  pub reservation_id : ℕ
  pub provider : String
  pub provider_ref : Option String
  pub amount_cents : ℤ
  pub currency : String
  pub status : PaymentStatus
  pub captured_at : Option Instant
  pub refunded_at : Option Instant

pub record GroupSession : Type 0 where
  pub id : ℕ
  pub coach_profile_id : ℕ
  pub club_id : ℕ
  pub reservation_id : ℕ
  pub title : String
  pub description : Option String
  pub starts_at : Instant
  pub ends_at : Instant
  pub capacity : ℕ
  pub price_cents : ℤ
  pub currency : String
  pub cancelled_at : Option Instant

pub record Registration : Type 0 where
  pub group_session_id : ℕ
  pub user_id : ℕ

-- `SessionFeedback`
pub record Feedback : Type 0 where
  pub id : ℕ
  pub user_id : ℕ
  pub club_id : ℕ
  pub reservation_id : Option ℕ
  pub group_session_id : Option ℕ
  pub coach_profile_id : Option ℕ
  pub rating : ℕ
  pub comment : Option String

pub record AuditEntry : Type 0 where
  pub actor_user_id : ℕ
  pub action : String
  pub object_id : ℕ

pub data MailKind : Type 0 where
  booking_received staff_booking_notice platform_booking_notice confirmation coach_booking_notice
        cancellation staff_cancellation_notice coach_cancellation_notice reschedule
        staff_reschedule_notice coach_reschedule_notice payment_receipt no_show_notice
        group_session_invite group_session_cancelled :
      MailKind

pub record Mail : Type 0 where
  pub kind : MailKind
  pub to : Email

-- What leaves the system: live updates, queued jobs, mails, refunds asked of the payment provider.
pub data Effect : Type 0 where
  availability_changed : ℕ → Effect
  schedule_expiry : ℕ → Instant → Effect
  send_mail : Mail → Effect
  provider_refund : String → ℤ → Effect

pub record Store : Type 0 where
  pub users : List User
  pub clubs : List Club
  pub members : List ClubMember
  pub resources : List Resource
  pub coach_profiles : List CoachProfile
  pub coach_clubs : List CoachClub
  pub coach_services : List CoachService
  pub price_rules : List PriceRule
  pub plans : List MembershipPlan
  pub memberships : List Membership
  pub policies : List CancellationPolicy
  pub reservations : List Reservation
  pub rows : List ResourceRow
  pub payments : List Payment
  pub group_sessions : List GroupSession
  pub registrations : List Registration
  pub feedback : List Feedback
  pub audit_log : List AuditEntry
  pub effects : List Effect
  -- the next value of the id sequences
  pub next_id : ℕ
