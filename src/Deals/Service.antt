-- ===== src/Deals/Service.antt =====
-- DealsService (src/deals/services/deals.service.ts). Dates are times.
use collabos_backend.Base.{
  ℕ, ◌+◌, not, ◌&&◌, ◌||◌, Option, none, some, String, ◌==◌, is_some, or_else, Action, ◌>>=◌, ◌>>◌,
  gets, some_or_throw, throw_if, throw, modify, pure, AuthenticatedUser, is_admin, same_user, ◌is◌,
  bad_request, conflict, forbidden, not_found, record_not_found,
}
use collabos_backend.Prisma.{Table, find_unique, find_first, has_key, create, update}
use collabos_backend.Schema.Access.{owns_brand}
use collabos_backend.Schema.Collaboration.{
  Brand, Brief, Application, ApplicationStatus, application_status_enum, Deal, DealStatus,
  deal_status_enum, DealProposal, ProposalStatus,
}

pub record DealsDb : Type 0 where
  pub brands : Table Brand
  pub briefs : Table Brief
  pub applications : Table Application
  pub deals : Table Deal
  pub proposals : Table DealProposal

-- A share of the revenue in a request: undefined, null, which IsOptional lets pass, or a number.
pub data Share : Type 0 where
  absent null_share : Share
  share : ℕ → Share

-- The column that is stored.
abbrev pub stored_share : Share → Option ℕ
stored_share (share n) = some n
stored_share _ = none

-- JavaScript adds null as 0.
abbrev pub as_number : Share → ℕ
as_number (share n) = n
as_number _ = 0

-- The terms that a new deal and a proposal carry.
pub record Terms : Type 0 where
  pub total_value : Option ℕ
  pub revenue_split_brand : Share
  pub revenue_split_creator : Share
  pub start_date : Option ℕ
  pub end_date : Option ℕ
  pub message : Option String

pub record CreateDealDto : Type 0 where
  pub application_id : ℕ
  pub title : Option String
  pub currency : Option String
  pub terms : Terms

-- `findEntityOrThrow`
unfoldable pub find_deal_or_throw : ℕ → Action DealsDb Deal
find_deal_or_throw id = do
  found ← gets (λ s. find_unique id s.deals)
  some_or_throw found (not_found "Deal not found")

-- `assertParticipant`
unfoldable pub assert_deal_participant : Deal → AuthenticatedUser → Action DealsDb (Unit {0})
assert_deal_participant deal user = do
  owner ← gets (λ s. owns_brand deal.brand_id user s.brands)
  throw_if (not (same_user deal.creator_id user || is_admin user || owner))
      (forbidden "You do not have access to this deal")

-- `assertValidSplit`
unfoldable pub assert_valid_split : Share → Share → Action DealsDb (Unit {0})
assert_valid_split absent absent = pure tt
assert_valid_split absent _ =
    throw (bad_request "Both revenueSplitBrand and revenueSplitCreator must be provided together")
assert_valid_split _ absent =
    throw (bad_request "Both revenueSplitBrand and revenueSplitCreator must be provided together")
assert_valid_split brand creator =
    throw_if (not (as_number brand + as_number creator == 100))
      (bad_request "revenueSplitBrand and revenueSplitCreator must add up to 100")

-- `prisma.deal.update`, which gives the row back.
unfoldable pub update_deal : ℕ → (Deal → Deal) → Action DealsDb Deal
update_deal id f = do
  throw_if (not (← gets (λ s. has_key id s.deals))) record_not_found
  modify (λ s. record s { deals = update id f s.deals })
  found ← gets (λ s. find_unique id s.deals)
  some_or_throw found record_not_found

abbrev pub new_proposal : ℕ → ℕ → Terms → DealProposal
new_proposal deal_id user terms = record {
  deal_id = deal_id;
  proposed_by_id = user;
  status = ProposalStatus.pending;
  total_value = terms.total_value;
  revenue_split_brand = stored_share terms.revenue_split_brand;
  revenue_split_creator = stored_share terms.revenue_split_creator;
  start_date = terms.start_date;
  end_date = terms.end_date;
  message = terms.message;
  responded_at = none;
}

abbrev pub new_deal : CreateDealDto → Application → Brief → Deal
new_deal dto application brief = record {
  application_id = dto.application_id;
  brief_id = application.brief_id;
  brand_id = brief.brand_id;
  creator_id = application.applicant_id;
  title = or_else dto.title brief.title;
  status = DealStatus.negotiating;
  total_value = dto.terms.total_value;
  currency = or_else dto.currency "USD";
  revenue_split_brand = stored_share dto.terms.revenue_split_brand;
  revenue_split_creator = stored_share dto.terms.revenue_split_creator;
  start_date = dto.terms.start_date;
  end_date = dto.terms.end_date;
  activated_at = none;
  completed_at = none;
  cancelled_at = none;
  cancel_reason = none;
}

-- `create`, with the keys of the deal and of its first proposal. Foreign keys keep the
-- application's brief and its brand in place.
unfoldable pub create_deal : AuthenticatedUser → CreateDealDto → ℕ → ℕ → Action DealsDb Deal
create_deal user dto key proposal_key = do
  found ← gets (λ s. find_unique dto.application_id s.applications)
  application ← some_or_throw found (not_found "Application not found")
  throw_if (not (application.status is ApplicationStatus.accepted))
      (conflict "A deal can only be created from an accepted application")
  existing ← gets (λ s. find_first (λ _ d. d.application_id == dto.application_id) s.deals)
  throw_if (is_some existing) (conflict "A deal already exists for this application")
  brief_found ← gets (λ s. find_unique application.brief_id s.briefs)
  brief ← some_or_throw brief_found record_not_found
  owner ← gets (λ s. owns_brand brief.brand_id user s.brands)
  throw_if (not owner && not (is_admin user))
      (forbidden "Only the brand owner can initiate a deal for this application")
  assert_valid_split dto.terms.revenue_split_brand dto.terms.revenue_split_creator
  modify λ s. record s {
    deals = create key (new_deal dto application brief) s.deals;
    proposals = create proposal_key (new_proposal key user.id dto.terms) s.proposals;
  }
  pure (new_deal dto application brief)

abbrev pub to_deal_completed : ℕ → Deal → Deal
to_deal_completed now d = record d { status = DealStatus.completed; completed_at = some now }

abbrev pub to_deal_cancelled : Option String → ℕ → Deal → Deal
to_deal_cancelled reason now d = record d {
  status = DealStatus.cancelled;
  cancelled_at = some now;
  cancel_reason = reason;
}

unfoldable pub complete_deal : ℕ → AuthenticatedUser → ℕ → Action DealsDb Deal
complete_deal id user now = do
  deal ← find_deal_or_throw id
  assert_deal_participant deal user
  throw_if (not (deal.status is DealStatus.active)) (conflict "Only active deals can be completed")
  update_deal id (to_deal_completed now)

unfoldable pub cancel_deal : ℕ → AuthenticatedUser → Option String → ℕ → Action DealsDb Deal
cancel_deal id user reason now = do
  deal ← find_deal_or_throw id
  assert_deal_participant deal user
  throw_if (deal.status is DealStatus.completed || deal.status is DealStatus.cancelled)
      (conflict "This deal can no longer be cancelled")
  update_deal id (to_deal_cancelled reason now)
