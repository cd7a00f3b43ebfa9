-- ===== src/Quotations/Status.antt =====
-- The life of a quotation: `change_quotation_status` of backend/app/services/quotations.py.
use real_estate_crm.Base.{
  ℕ, ◌<◌, ◌≡◌, refl, Bool, true, false, not, some, [], ◌∷◌, if◌then◌else◌, arith,
}
use real_estate_crm.Base.Result.{Result, ok, ◌>>=◌, ◌>>◌, raise_if}
use real_estate_crm.Base.Result.Codes.{invalid_quotation_transition}
use real_estate_crm.Base.Table.{find, put, entity, is_key}
use real_estate_crm.Base.Table.Laws.{find-key, find-put}
use real_estate_crm.Models.Enums.{QuotationStatus}
use real_estate_crm.Models.Rows.{Quotation}
use real_estate_crm.Models.Store.{Store, Context, audit, queue_in_app, quotation_row}

-- `target in allowed.get(quote.status, set())`
abbrev pub quotation_allowed : QuotationStatus → QuotationStatus → Bool
quotation_allowed QuotationStatus.draft QuotationStatus.sent = true
quotation_allowed QuotationStatus.draft QuotationStatus.expired = true
quotation_allowed QuotationStatus.sent QuotationStatus.accepted = true
quotation_allowed QuotationStatus.sent QuotationStatus.rejected = true
quotation_allowed QuotationStatus.sent QuotationStatus.expired = true
quotation_allowed _ _ = false

abbrev pub is_sent : QuotationStatus → Bool
is_sent QuotationStatus.sent = true
is_sent _ = false

abbrev pub moved_quotation : QuotationStatus → ℕ → Quotation → Quotation
moved_quotation target now q = record q {
  status = target;
  issued_at = if is_sent target then some now else q.issued_at;
}

abbrev pub store_quotation_status : ℕ → Quotation → Context → Store → Store
store_quotation_status org q ctx s =
    let s1 =
      audit org (some ctx.actor_user_id) ctx.now "quotation.status.changed" "quotation" q.id s in
    record s1 {
      quotations = put q s.quotations;
      notifications =
          queue_in_app org (some q.created_by_user_id ∷ []) "QUOTATION_STATUS_CHANGED" "quotation"
            q.id ctx.now s.notifications;
    }

unfoldable pub change_quotation_status : ℕ → ℕ → QuotationStatus → Context → Store → Result Store
change_quotation_status org quotation_id target ctx s = do
  q ← entity org quotation_id s.quotations
  raise_if (not (quotation_allowed q.status target)) 409 invalid_quotation_transition
  ok (store_quotation_status org (moved_quotation target ctx.now q) ctx s)

-- How far a quotation has come.
abbrev pub stage : QuotationStatus → ℕ
stage QuotationStatus.draft = 0
stage QuotationStatus.sent = 1
stage _ = 2

change_quotation_status-inv :
    (org quotation_id : ℕ) (target : QuotationStatus) (ctx : Context) (s : Store) {s' : Store}
    → change_quotation_status org quotation_id target ctx s ≡ ok s'
    → (q : Quotation) × (find org quotation_id s.quotations ≡ some q)
      × (quotation_allowed q.status target ≡ true)
      × (s'.quotations ≡ put (moved_quotation target ctx.now q) s.quotations)
unfolding change_quotation_status
change_quotation_status-inv org quotation_id target ctx s h = ground arith

-- A change of status that succeeds gives the quotation the requested status, moves it forward
-- from draft over sent to an end that it does not leave, and changes no other quotation.
pub change_quotation_status-forward :
    (org quotation_id : ℕ) (target : QuotationStatus) (ctx : Context) (s s' : Store)
    → change_quotation_status org quotation_id target ctx s ≡ ok s'
    → (q : Quotation) × (q' : Quotation) × (find org quotation_id s.quotations ≡ some q)
      × (find org quotation_id s'.quotations ≡ some q')
      × (q'.status ≡ target)
      × (stage q.status < stage q'.status)
      × ((o k : ℕ)
          → find o k s'.quotations ≡ (if is_key o k q' then some q' else find o k s.quotations))
change_quotation_status-forward org quotation_id target ctx s s' h =
    let (q, at, allowed, stored) = change_quotation_status-inv org quotation_id target ctx s h in
    let (same_org, same_id) = find-key org quotation_id s.quotations q at in
    let q' = moved_quotation target ctx.now q in
    (
      q,
      q',
      at,
      ground (arith, find-put org quotation_id q' s.quotations q),
      refl,
      ground arith,
      λ o k. ground (arith, find-put o k q' s.quotations q),
    )
