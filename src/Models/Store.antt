-- ===== src/Models/Store.antt =====
-- The database as one record of tables, the request that an operation serves, and the rows that
-- every service writes beside its own: audit entries and in-app notifications.
mod Keys
pub use Keys.*
use real_estate_crm.Base.{
  ℕ, String, Bool, true, false, ◌&&◌, ◌||◌, Option, none, some, List, [], ◌∷◌, ltb, ◌==◌, elem,
  if◌then◌else◌,
}
use real_estate_crm.Models.Rows.{
  InventoryUnit, UnitHold, Booking, BookingApproval, BookingApplicant, BookingFinancing, Quotation,
  Customer, Lead, User, CustomerDocument, ChannelPartner, PartnerProject, PartnerLead,
}
use real_estate_crm.Models.Money.{
  PaymentPlan, Installment, DemandLetter, Payment, Receipt, PaymentAllocation,
  PaymentReconciliation, FinancialCharge, CustomerLedger, Refund, CommissionStructure, Commission,
  CommissionPayout,
}
use real_estate_crm.Models.Pricing.{Pricing}
use real_estate_crm.Models.PostSales.{PostSales}

-- An audit entry, without the snapshots of the values before and after.
pub record AuditLog : Type 0 where
  pub organization_id : ℕ
  pub actor_user_id : Option ℕ
  pub action : String
  pub entity_type : String
  pub entity_id : ℕ
  pub created_at : ℕ

-- An in-app notification, without its texts.
pub record Notification : Type 0 where
  pub organization_id : ℕ
  pub recipient_user_id : ℕ
  pub event_type : String
  pub related_entity_type : String
  pub related_entity_id : ℕ
  pub sent_at : ℕ

-- A permission that a user holds through a role: the join of `user_roles`, `role_permissions` and
-- `permissions`, with the user's identifier and the permission's code.
pub record Grant : Type 0 where
  pub organization_id : ℕ
  pub user_id : ℕ
  pub code : Permission

pub record Store : Type 0 where
  pub units : List InventoryUnit
  pub holds : List UnitHold
  pub bookings : List Booking
  pub approvals : List BookingApproval
  pub applicants : List BookingApplicant
  pub financings : List BookingFinancing
  pub quotations : List Quotation
  pub customers : List Customer
  pub leads : List Lead
  pub users : List User
  pub grants : List Grant
  pub documents : List CustomerDocument
  pub partners : List ChannelPartner
  pub partner_projects : List PartnerProject
  pub partner_leads : List PartnerLead
  pub structures : List CommissionStructure
  pub commissions : List Commission
  pub payouts : List CommissionPayout
  pub plans : List PaymentPlan
  pub installments : List Installment
  pub demands : List DemandLetter
  pub payments : List Payment
  pub receipts : List Receipt
  pub allocations : List PaymentAllocation
  pub reconciliations : List PaymentReconciliation
  pub charges : List FinancialCharge
  pub ledger : List CustomerLedger
  pub refunds : List Refund
  pub audits : List AuditLog
  pub notifications : List Notification
  pub pricing : Pricing
  pub post_sales : PostSales

-- What a request brings: the user of its `MutationContext`, the clock as it reads it, and the
-- identifiers that the database draws for the rows that it creates.
pub record Context : Type 0 where
  pub actor_user_id : ℕ
  pub now : ℕ
  pub today : ℕ
  pub new_id : ℕ → ℕ

abbrev pub log : ℕ → Option ℕ → ℕ → String → String → ℕ → AuditLog
log org actor now action kind entity_id = record {
  organization_id = org;
  actor_user_id = actor;
  action = action;
  entity_type = kind;
  entity_id = entity_id;
  created_at = now;
}

-- `db.add(_audit(...))` and `db.add(_system_audit(...))`, whose actor is absent.
abbrev pub audit : ℕ → Option ℕ → ℕ → String → String → ℕ → Store → Store
audit org actor now action kind entity_id s = record s {
  audits = log org actor now action kind entity_id ∷ s.audits;
}

-- `sorted(set(recipient_user_ids))`, with the empty identifiers left out.
insert_recipient : ℕ → List ℕ → List ℕ
insert_recipient k [] = k ∷ []
insert_recipient k (j ∷ js) =
    if k == j then j ∷ js else if ltb k j then k ∷ j ∷ js else j ∷ insert_recipient k js

pub recipients : List (Option ℕ) → List ℕ
unfolding insert_recipient
recipients [] = []
recipients (none ∷ ks) = recipients ks
recipients (some k ∷ ks) = insert_recipient k (recipients ks)

deliver : ℕ → String → String → ℕ → ℕ → List ℕ → List Notification → List Notification
deliver org event kind entity_id now [] sent = sent
deliver org event kind entity_id now (k ∷ ks) sent =
    record {
      organization_id = org;
      recipient_user_id = k;
      event_type = event;
      related_entity_type = kind;
      related_entity_id = entity_id;
      sent_at = now;
    }
    ∷ deliver org event kind entity_id now ks sent

-- `queue_in_app`, to the table of notifications.
pub queue_in_app :
    ℕ → List (Option ℕ) → String → String → ℕ → ℕ → List Notification → List Notification
unfolding recipients deliver
queue_in_app org users event kind entity_id now sent =
    deliver org event kind entity_id now (recipients users) sent
