-- ===== src/Bookings/Applicants.antt =====
-- The joint applicants of a booking are replaced: `replace_joint_applicants` of
-- backend/app/services/bookings.py.
use real_estate_crm.Base.{
  ℕ, suc, ◌+◌, ◌≡◌, refl, subst, Bool, true, false, not, ◌&&◌, ◌||◌, Option, none, some, List, [],
  ◌∷◌, ◌++◌, ◌==◌, is_some, arith,
}
use real_estate_crm.Base.Result.{Result, ok, ◌>>=◌, ◌>>◌, raise_if}
use real_estate_crm.Base.Result.Codes.{booking_applicants_locked, integrity_error}
use real_estate_crm.Base.Table.{first, find, select, count_of, entity}
use real_estate_crm.Base.Table.Laws.{find-key}
use real_estate_crm.Models.Enums.{is_final, is_approval}
use real_estate_crm.Models.Rows.{Booking, BookingApplicant, Customer}
use real_estate_crm.Models.Store.{Store, Context, audit, booking_row, customer_row}
use real_estate_crm.Bookings.Parts.{JointApplicantInput}

abbrev pub is_joint_of : ℕ → ℕ → BookingApplicant → Bool
is_joint_of org booking_id a =
    (a.organization_id == org) && (a.booking_id == booking_id) && not a.is_primary

-- `if applicant.customer_id: await _entity(...)`: the primary customer is not refused here.
abbrev check_linked : ℕ → Option ℕ → List Customer → Result (Unit {0})
check_linked org none customers = ok tt
check_linked org (some k) customers = do linked ← entity org k customers; ok tt

unfoldable pub new_applicants :
    ℕ → ℕ → Context → ℕ → List JointApplicantInput → List Customer → Result (List BookingApplicant)
new_applicants org booking_id ctx sequence [] customers = ok []
new_applicants org booking_id ctx sequence (item ∷ items) customers = do
  check_linked org item.customer_id customers
  rest ← new_applicants org booking_id ctx (suc sequence) items customers
  ok (
      record {
        organization_id = org;
        id = ctx.new_id sequence;
        booking_id = booking_id;
        customer_id = item.customer_id;
        sequence = sequence;
        is_primary = false;
        full_name = item.full_name;
      }
      ∷ rest)

abbrev pub has_sequence : ℕ → ℕ → ℕ → BookingApplicant → Bool
has_sequence org booking_id sequence a =
    (a.organization_id == org) && (a.booking_id == booking_id) && (a.sequence == sequence)

-- The flush inserts the new rows before it deletes the old ones, so an old row of the booking with
-- the sequence of a new one breaks the unique constraint `uq_booking_applicants_sequence`.
abbrev pub clashes : ℕ → ℕ → List BookingApplicant → List BookingApplicant → Bool
clashes org booking_id [] rows = false
clashes org booking_id (a ∷ as') rows =
    is_some (first (has_sequence org booking_id a.sequence) rows) || clashes org booking_id as' rows

unfoldable pub replace_joint_applicants :
    ℕ → ℕ → List JointApplicantInput → Context → Store → Result Store
unfolding new_applicants
replace_joint_applicants org booking_id items ctx s = do
  b ← entity org booking_id s.bookings
  raise_if (is_final b.status || is_approval b.status) 409 booking_applicants_locked
  customer ← entity org b.customer_id s.customers
  added ← new_applicants org b.id ctx 2 items s.customers
  raise_if (clashes org b.id added s.applicants) 500 integrity_error
  let s1 = audit org (some ctx.actor_user_id) ctx.now "booking.applicants.updated" "booking" b.id s
  ok (record s1 { applicants = added ++ select (λ a. not (is_joint_of org b.id a)) s.applicants })

-- `len(items)`
abbrev pub length {ℓ} : {A : Type ℓ} → List A → ℕ
length [] = 0
length (x ∷ xs) = 1 + length xs

count_of-new_applicants :
    (org k sequence : ℕ) (ctx : Context) (items : List JointApplicantInput)
    (customers : List Customer) (added rows : List BookingApplicant)
    → new_applicants org k ctx sequence items customers ≡ ok added
    → count_of (is_joint_of org k) (added ++ select (λ a. not (is_joint_of org k a)) rows)
      ≡ length items + count_of (is_joint_of org k) (select (λ a. not (is_joint_of org k a)) rows)
unfolding new_applicants
count_of-new_applicants org k sequence ctx [] customers added rows h = ground arith
count_of-new_applicants org k sequence ctx (i ∷ is) customers [] rows h = ground arith
count_of-new_applicants org k sequence ctx (i ∷ is) customers (a ∷ as') rows h =
    ground (arith, count_of-new_applicants org k (suc sequence) ctx is customers as' rows)

none_joint :
    (org k : ℕ) (rows : List BookingApplicant)
    → count_of (is_joint_of org k) (select (λ a. not (is_joint_of org k a)) rows) ≡ 0
none_joint org k [] = refl
none_joint org k (a ∷ as') = ground (arith, none_joint org k as')

replace_joint_applicants-inv :
    (org booking_id : ℕ) (items : List JointApplicantInput) (ctx : Context) (s : Store) {s' : Store}
    → replace_joint_applicants org booking_id items ctx s ≡ ok s'
    → (b : Booking) × (added : List BookingApplicant) × (find org booking_id s.bookings ≡ some b)
      × (new_applicants org b.id ctx 2 items s.customers ≡ ok added)
      × (clashes org b.id added s.applicants ≡ false)
      × (s'.applicants ≡ added ++ select (λ a. not (is_joint_of org b.id a)) s.applicants)
unfolding replace_joint_applicants
replace_joint_applicants-inv org booking_id items ctx s h = ground arith

-- A replacement of joint applicants that succeeds leaves the booking with as many joint
-- applicants as the request names.
replace_joint_applicants-counts :
    (org booking_id : ℕ) (items : List JointApplicantInput) (ctx : Context) (s s' : Store)
    → replace_joint_applicants org booking_id items ctx s ≡ ok s'
    → count_of (is_joint_of org booking_id) s'.applicants ≡ length items
replace_joint_applicants-counts org booking_id items ctx s s' h =
    let (b, added, at, made, apart, stored) =
      replace_joint_applicants-inv org booking_id items ctx s h in
    let (same_org, same_id) = find-key org booking_id s.bookings b at in
    let counted =
      count_of-new_applicants org b.id 2 ctx items s.customers added s.applicants made in
    let none_left = none_joint org b.id s.applicants in
    let total : count_of (is_joint_of org b.id) s'.applicants ≡ length items =
      rw stored (omega (arith, counted, none_left)) in
    subst (λ k. count_of (is_joint_of org k) s'.applicants ≡ length items) same_id total

first_clash :
    (org k : ℕ) (ctx : Context) (item : JointApplicantInput) (items : List JointApplicantInput)
    (customers : List Customer) (added rows : List BookingApplicant)
    → new_applicants org k ctx 2 (item ∷ items) customers ≡ ok added
    → is_some (first (has_sequence org k 2) rows) ≡ true
    → clashes org k added rows ≡ true
unfolding new_applicants
first_clash org k ctx item items customers [] rows h taken = ground arith
first_clash org k ctx item items customers (a ∷ as') rows h taken = ground arith

-- Where a booking already has an applicant of sequence 2, no replacement of its joint applicants
-- by one or more others succeeds.
pub replace_joint_applicants-clash :
    (org booking_id : ℕ) (item : JointApplicantInput) (items : List JointApplicantInput)
    (ctx : Context) (s s' : Store)
    → is_some (first (has_sequence org booking_id 2) s.applicants) ≡ true
    → ¬ (replace_joint_applicants org booking_id (item ∷ items) ctx s ≡ ok s')
replace_joint_applicants-clash org booking_id item items ctx s s' taken h =
    let (b, added, at, made, apart, stored) =
      replace_joint_applicants-inv org booking_id (item ∷ items) ctx s h in
    let (same_org, same_id) = find-key org booking_id s.bookings b at in
    let taken' : is_some (first (has_sequence org b.id 2) s.applicants) ≡ true = ground arith in
    ground (arith, first_clash org b.id ctx item items s.customers added s.applicants made taken')
