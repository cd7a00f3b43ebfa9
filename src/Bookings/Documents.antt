-- ===== src/Bookings/Documents.antt =====
-- The documents that a booking asks for: `expire_due_documents` of
-- backend/app/services/documents.py, and `_has_verified_kyc` of backend/app/services/bookings.py.
use real_estate_crm.Base.{
  ℕ, ◌/◌, Bool, true, false, ◌&&◌, Option, none, some, List, [], ◌∷◌, ltb, ◌==◌, is_some,
}
use real_estate_crm.Base.Table.{first, select, update_all}
use real_estate_crm.Models.Enums.{DocumentStatus, is_verified}
use real_estate_crm.Models.Rows.{CustomerDocument}
use real_estate_crm.Models.Store.{Store, Context, AuditLog, log}

-- `EXPIRABLE_STATUSES`
abbrev is_expirable : DocumentStatus → Bool
is_expirable DocumentStatus.pending = true
is_expirable DocumentStatus.uploaded = true
is_expirable DocumentStatus.under_review = true
is_expirable DocumentStatus.verified = true
is_expirable _ = false

-- `document.expiry_date is not None and document.expiry_date < day`
abbrev pub is_past : Option ℕ → ℕ → Bool
is_past none day = false
is_past (some d) day = ltb d day

-- `datetime.now(UTC).date()`, from a time in microseconds.
abbrev pub utc_date : ℕ → ℕ
utc_date now = now / 86_400_000_000

unfoldable pub is_due_document : ℕ → ℕ → CustomerDocument → Bool
is_due_document org now d =
    (d.organization_id == org)
    && d.is_current
    && is_past d.expiry_date (utc_date now)
    && is_expirable d.status

abbrev pub expire_document : ℕ → CustomerDocument → CustomerDocument
expire_document now d = record d { status = DocumentStatus.expired; reviewed_at = some now }

document_audits : ℕ → List CustomerDocument → List AuditLog → List AuditLog
document_audits now [] audits = audits
document_audits now (d ∷ ds) audits =
    log d.organization_id none now "document.expired" "document" d.id
    ∷ document_audits now ds audits

unfoldable pub expire_due_documents : ℕ → Context → Store → Store
unfolding is_due_document document_audits
expire_due_documents org ctx s = record s {
  documents = update_all (is_due_document org ctx.now) (expire_document ctx.now) s.documents;
  audits = document_audits ctx.now (select (is_due_document org ctx.now) s.documents) s.audits;
}

abbrev pub is_kyc : ℕ → ℕ → CustomerDocument → Bool
is_kyc org customer_id d =
    (d.organization_id == org)
    && (d.customer_id == customer_id)
    && d.is_current
    && is_verified d.status

unfoldable pub has_verified_kyc : ℕ → ℕ → Store → Bool
has_verified_kyc org customer_id s = is_some (first (is_kyc org customer_id) s.documents)
