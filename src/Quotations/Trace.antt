-- ===== src/Quotations/Trace.antt =====
-- What sequences of requests do to a cost sheet.
use real_estate_crm.Base.{ℕ, ◌≡◌, ◌≢◌, ◌⊎◌, inl, inr, List, [], ◌∷◌, arith}
use real_estate_crm.Models.Store.{Store}
use real_estate_crm.Quotations.Life.{Stage, view, Request, IsRequested}
use real_estate_crm.Quotations.Refines.{request_refines}
use real_estate_crm.Quotations.Waiting.{IsDecision, waiting_step}

-- Accepted requests, with the users who made them, the last one first.
pub data Trace (s : Store) : List ℕ → Store → Type 0 where
  begin : Trace s [] s
  request :
      {actors : List ℕ} {t u : Store} (actor : ℕ)
      → Trace s actors t
      → Request t actor u
      → Trace s (actor ∷ actors) u

-- Some request decides on the discount of the cost sheet `k` of `o` and is not of the user `r`.
abbrev pub HasOtherDecision :
    {s s' : Store} {actors : List ℕ} → ℕ → ℕ → ℕ → Trace s actors s' → Type 0
HasOtherDecision o k r begin = ⊥
HasOtherDecision o k r (request actor trace last) =
    (IsDecision o k last × (r ≢ actor)) ⊎ HasOtherDecision o k r trace

Trace-waiting :
    {s s' : Store} {actors : List ℕ} (o k r : ℕ)
    → IsRequested s
    → view s o k ≡ Stage.waiting r
    → (trace : Trace s actors s')
    → IsRequested s' × ((view s' o k ≡ Stage.waiting r) ⊎ HasOtherDecision o k r trace)
Trace-waiting o k r linked waits begin = (linked, inl waits)
Trace-waiting o k r linked waits (request actor trace last) =
    let (linked', so_far) = Trace-waiting o k r linked waits trace in
    let (linked'', move) = request_refines actor linked' last in
    (
      linked'',
      elim so_far [
        | inl still ↦ elim (waiting_step o k r linked' still last) [
          | inl again ↦ inl again
          | inr decision ↦ inr (inl decision)
        ]
        | inr before ↦ inr (inr before)
      ],
    )

-- A cost sheet that waits for an approval which its user `r` asked for, and is a quotation after
-- some accepted requests, was decided by another user: one of these requests is a decision on the
-- discount of that sheet by a user who is not `r`. The requests for an approval are at first as
-- the refinement assumes.
pub Trace-four_eyes :
    {s s' : Store} {actors : List ℕ} (o k r : ℕ)
    → IsRequested s
    → view s o k ≡ Stage.waiting r
    → (trace : Trace s actors s') → view s' o k ≡ Stage.quoted
    → HasOtherDecision o k r trace
Trace-four_eyes o k r linked waits trace quoted_now =
    let (linked', reached) = Trace-waiting o k r linked waits trace in
    elim reached [ inl still ↦ absurd (ground arith) | inr other ↦ other ]
