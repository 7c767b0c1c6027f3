-- ===== src/Deals/Proposals.antt =====
-- ProposalsService (src/deals/services/proposals.service.ts).
use collabos_backend.Base.{
  ℕ, not, ◌&&◌, some, ◌==◌, or_option, Action, ◌>>=◌, ◌>>◌, gets, some_or_throw, throw_if, modify,
  pure, AuthenticatedUser, same_user, ◌is◌, conflict, forbidden, record_not_found,
}
use collabos_backend.Prisma.{find_unique, has_key, create, update, update_many}
use collabos_backend.Schema.Collaboration.{
  Deal, DealStatus, deal_status_enum, DealProposal, ProposalStatus, proposal_status_enum,
}
use collabos_backend.Deals.Service.{
  DealsDb, Terms, find_deal_or_throw, assert_deal_participant, assert_valid_split, update_deal,
  new_proposal,
}

abbrev pub answered : ProposalStatus → ℕ → DealProposal → DealProposal
answered status now p = record p { status = status; responded_at = some now }

unfoldable pub propose : ℕ → AuthenticatedUser → Terms → ℕ → ℕ → Action DealsDb DealProposal
propose deal_id user terms key now = do
  deal ← find_deal_or_throw deal_id
  assert_deal_participant deal user
  assert_valid_split terms.revenue_split_brand terms.revenue_split_creator
  throw_if (not (deal.status is DealStatus.negotiating))
      (conflict "This deal is no longer under negotiation")
  modify λ s. record s {
    proposals =
        update_many (λ _ p. p.deal_id == deal_id && p.status is ProposalStatus.pending)
          (answered ProposalStatus.superseded now) s.proposals;
  }
  modify (λ s. record s { proposals = create key (new_proposal deal_id user.id terms) s.proposals })
  pure (new_proposal deal_id user.id terms)

unfoldable pub decide : ℕ → ℕ → AuthenticatedUser → Action DealsDb DealProposal
decide deal_id proposal_id user = do
  deal ← find_deal_or_throw deal_id
  assert_deal_participant deal user
  throw_if (not (deal.status is DealStatus.negotiating))
      (conflict "This deal is no longer under negotiation")
  found ← gets (λ s. find_unique proposal_id s.proposals)
  proposal ← some_or_throw found (conflict "Proposal not found for this deal")
  throw_if (not (proposal.deal_id == deal_id)) (conflict "Proposal not found for this deal")
  throw_if (not (proposal.status is ProposalStatus.pending))
      (conflict "Only pending proposals can be decided")
  throw_if (same_user proposal.proposed_by_id user)
      (forbidden "You cannot accept or reject your own proposal")
  pure proposal

-- `prisma.dealProposal.update`, which gives the row back.
unfoldable pub update_proposal : ℕ → (DealProposal → DealProposal) → Action DealsDb DealProposal
update_proposal id f = do
  throw_if (not (← gets (λ s. has_key id s.proposals))) record_not_found
  modify (λ s. record s { proposals = update id f s.proposals })
  found ← gets (λ s. find_unique id s.proposals)
  some_or_throw found record_not_found

-- A value that the proposal leaves open keeps the deal's.
abbrev pub agreed : DealProposal → ℕ → Deal → Deal
agreed p now d = record d {
  status = DealStatus.active;
  activated_at = some now;
  total_value = or_option p.total_value d.total_value;
  revenue_split_brand = or_option p.revenue_split_brand d.revenue_split_brand;
  revenue_split_creator = or_option p.revenue_split_creator d.revenue_split_creator;
  start_date = or_option p.start_date d.start_date;
  end_date = or_option p.end_date d.end_date;
}

unfoldable pub accept : ℕ → ℕ → AuthenticatedUser → ℕ → Action DealsDb DealProposal
accept deal_id proposal_id user now = do
  proposal ← decide deal_id proposal_id user
  updated ← update_proposal proposal_id (answered ProposalStatus.accepted now)
  update_deal deal_id (agreed proposal now)
  pure updated

unfoldable pub reject_proposal : ℕ → ℕ → AuthenticatedUser → ℕ → Action DealsDb DealProposal
reject_proposal deal_id proposal_id user now = do
  decide deal_id proposal_id user
  update_proposal proposal_id (answered ProposalStatus.rejected now)
