-- ===== src/Deals/Pending.antt =====
-- How many proposals of a deal are pending, under the writes of the services.
use collabos_backend.Base.{ℕ, ◌≤◌, ◌≡◌, ◌==◌, ◌&&◌, ◌is◌, false, [], ◌∷◌, arith, if◌then◌else◌}
use collabos_backend.Prisma.{Table, update, update_many, count}
use collabos_backend.Schema.Collaboration.{DealProposal, ProposalStatus, proposal_status_enum}
use collabos_backend.Deals.Service.{DealsDb}
use collabos_backend.Deals.Proposals.{answered}

abbrev pub pending_count : ℕ → Table DealProposal → ℕ
pending_count id = count (λ _ p. p.deal_id == id && p.status is ProposalStatus.pending)

abbrev pub HasOnePending : DealsDb → Type 0
HasOnePending s = (id : ℕ) → pending_count id s.proposals ≤ 1

-- An answered proposal is no longer pending.
pub pending_count-update :
    (id key now : ℕ) (status : ProposalStatus) (t : Table DealProposal)
    → status is ProposalStatus.pending ≡ false
    → pending_count id (update key (answered status now) t) ≤ pending_count id t
pending_count-update id key now status [] h = omega arith
pending_count-update id key now status ((j, p) ∷ t) h =
    ground (arith, pending_count-update id key now status t h)

-- Superseding leaves no pending proposal of the deal, and no more of another one.
pub pending_count-supersede :
    (id deal now : ℕ) (t : Table DealProposal)
    → pending_count id (
        update_many
          (λ _ p. p.deal_id == deal && p.status is ProposalStatus.pending)
          (answered ProposalStatus.superseded now)
          t)
      ≤ (if deal == id then 0 else pending_count id t)
pending_count-supersede id deal now [] = ground arith
pending_count-supersede id deal now ((j, p) ∷ t) =
    ground (arith, pending_count-supersede id deal now t)

pub pending_count-le :
    (id : ℕ) (t : Table DealProposal) → pending_count id t ≤ count (λ _ p. p.deal_id == id) t
pending_count-le id [] = omega arith
pending_count-le id ((j, p) ∷ t) = ground (arith, pending_count-le id t)
