-- ===== src/Deals/Invariant.antt =====
-- The pending proposals of a deal under the calls of the endpoints (src/deals).
use native.Mathlib.Decide.{ℕ_discrete}
use native.Mathlib.Nat.{le_trans}
use collabos_backend.Base.{
  ap, Ends, Ends-gets, Ends-some, Ends-throw_if, Keeps-pure, ◌>>◌, ℕ, ◌≤◌, ◌≡◌, ◌==◌, ◌&&◌, ◌is◌,
  refl, false, Option, String, List, [], ◌∷◌, arith, AuthenticatedUser, Keeps, keeps_rules,
  Keeps-modify, Keeps-bind, Keeps-then, Action, modify, pure,
}
use collabos_backend.Prisma.{create, update, update_many, count}
use collabos_backend.Schema.Collaboration.{Deal, ProposalStatus, proposal_status_enum}
use collabos_backend.Deals.Service.{
  DealsDb, Share, absent, null_share, share, Terms, CreateDealDto, find_deal_or_throw,
  assert_deal_participant, assert_valid_split, update_deal, new_proposal, create_deal,
  complete_deal, cancel_deal,
}
use collabos_backend.Deals.Proposals.{
  answered, propose, decide, update_proposal, accept, reject_proposal,
}
use collabos_backend.Deals.Calls.{
  Call, create_call, complete_call, cancel_call, propose_call, accept_call, reject_call, step, run,
  HasFreshKeys, RunHasFreshKeys,
}
use collabos_backend.Deals.Pending.{
  pending_count, HasOnePending, pending_count-update, pending_count-supersede, pending_count-le,
}

proposals_answered :
    (key now : ℕ) (status : ProposalStatus)
    → status is ProposalStatus.pending ≡ false
    → Keeps HasOnePending
        (modify (λ s. record s { proposals = update key (answered status now) s.proposals }))
proposals_answered key now status h =
    Keeps-modify _
      (λ s keep id. le_trans (pending_count-update id key now status s.proposals h) (keep id))

deals_written :
    (id : ℕ) (f : Deal → Deal)
    → Keeps HasOnePending (modify (λ s. record s { deals = update id f s.deals }))
deals_written id f = Keeps-modify _ (λ s keep. keep)

ruleset writes = (keeps_rules, deals_written)

find_deal-Keeps : (id : ℕ) → Keeps HasOnePending (find_deal_or_throw id)
unfolding find_deal_or_throw
find_deal-Keeps id = search keeps_rules depth 9

participant-Keeps :
    (deal : Deal) (user : AuthenticatedUser)
    → Keeps HasOnePending (assert_deal_participant deal user)
unfolding assert_deal_participant
participant-Keeps deal user = search keeps_rules depth 9

update_deal-Keeps : (id : ℕ) (f : Deal → Deal) → Keeps HasOnePending (update_deal id f)
unfolding update_deal
update_deal-Keeps id f = search writes depth 12

update_proposal-Keeps :
    (key now : ℕ) (status : ProposalStatus)
    → status is ProposalStatus.pending ≡ false
    → Keeps HasOnePending (update_proposal key (answered status now))
unfolding update_proposal
update_proposal-Keeps key now status h = search (keeps_rules, proposals_answered, h) depth 12

ruleset steps = (keeps_rules, find_deal-Keeps, participant-Keeps, update_deal-Keeps)

decide-Keeps :
    (deal proposal : ℕ) (user : AuthenticatedUser) → Keeps HasOnePending (decide deal proposal user)
unfolding decide
decide-Keeps deal proposal user = search steps depth 15

accept-Keeps :
    (deal proposal : ℕ) (user : AuthenticatedUser) (now : ℕ)
    → Keeps HasOnePending (accept deal proposal user now)
unfolding accept
accept-Keeps deal proposal user now = Keeps-bind (decide-Keeps deal proposal user) (λ p.
    Keeps-bind (update_proposal-Keeps proposal now ProposalStatus.accepted refl)
      (λ updated. search steps))

reject-Keeps :
    (deal proposal : ℕ) (user : AuthenticatedUser) (now : ℕ)
    → Keeps HasOnePending (reject_proposal deal proposal user now)
unfolding reject_proposal
reject-Keeps deal proposal user now =
    Keeps-then (decide-Keeps deal proposal user)
      (update_proposal-Keeps proposal now ProposalStatus.rejected refl)

complete-Keeps :
    (id : ℕ) (user : AuthenticatedUser) (now : ℕ) → Keeps HasOnePending (complete_deal id user now)
unfolding complete_deal
complete-Keeps id user now = search steps depth 12

cancel-Keeps :
    (id : ℕ) (user : AuthenticatedUser) (reason : Option String) (now : ℕ)
    → Keeps HasOnePending (cancel_deal id user reason now)
unfolding cancel_deal
cancel-Keeps id user reason now = search steps depth 12

-- The two writes of `propose`, in their order.
abbrev superseded : ℕ → ℕ → DealsDb → DealsDb
superseded deal now s = record s {
  proposals =
      update_many (λ _ p. p.deal_id == deal && p.status is ProposalStatus.pending)
        (answered ProposalStatus.superseded now) s.proposals;
}

proposed-HasOnePending :
    (deal user key now : ℕ) (terms : Terms) (s : DealsDb) (id : ℕ)
    → HasOnePending s
    → pending_count id (create key (new_proposal deal user terms) (superseded deal now s).proposals)
      ≤ 1
proposed-HasOnePending deal user key now terms s id h =
    ground (arith, h id, pending_count-supersede id deal now s.proposals)

propose_writes-Keeps :
    (deal user key now : ℕ) (terms : Terms)
    → Keeps HasOnePending (
        modify (superseded deal now)
        >> (modify
              (λ s. record s { proposals = create key (new_proposal deal user terms) s.proposals })
            >> pure (new_proposal deal user terms)))
propose_writes-Keeps deal user key now terms = record {
  apply = λ s h id. proposed-HasOnePending deal user key now terms s id h;
}

valid_split-Keeps : (brand creator : Share) → Keeps HasOnePending (assert_valid_split brand creator)
unfolding assert_valid_split
valid_split-Keeps absent absent = Keeps-pure tt
valid_split-Keeps absent null_share = search keeps_rules
valid_split-Keeps absent (share b) = search keeps_rules
valid_split-Keeps null_share absent = search keeps_rules
valid_split-Keeps null_share null_share = search keeps_rules
valid_split-Keeps null_share (share b) = search keeps_rules
valid_split-Keeps (share a) absent = search keeps_rules
valid_split-Keeps (share a) null_share = search keeps_rules
valid_split-Keeps (share a) (share b) = search keeps_rules

propose-Keeps :
    (deal : ℕ) (user : AuthenticatedUser) (terms : Terms) (key now : ℕ)
    → Keeps HasOnePending (propose deal user terms key now)
unfolding propose
propose-Keeps deal user terms key now =
    search (propose_writes-Keeps, valid_split-Keeps, steps) depth 15

Ends-valid_split :
    {B : Type 0} {s : DealsDb} (brand creator : Share) (k : Action DealsDb B)
    → HasOnePending s
    → Ends HasOnePending s k
    → Ends HasOnePending s (assert_valid_split brand creator >> k)
unfolding assert_valid_split
Ends-valid_split absent absent k h rest = record { apply = rest.apply }
Ends-valid_split absent null_share k h rest = record { apply = h }
Ends-valid_split absent (share b) k h rest = record { apply = h }
Ends-valid_split null_share absent k h rest = record { apply = h }
Ends-valid_split null_share null_share k h rest = record { apply = h }
Ends-valid_split null_share (share b) k h rest = Ends-throw_if _ _ k h rest
Ends-valid_split (share a) absent k h rest = record { apply = h }
Ends-valid_split (share a) null_share k h rest = Ends-throw_if _ _ k h rest
Ends-valid_split (share a) (share b) k h rest = Ends-throw_if _ _ k h rest

created-HasOnePending :
    (key proposal user : ℕ) (terms : Terms) (s : DealsDb) (id : ℕ)
    → count (λ _ p. p.deal_id == key) s.proposals ≡ 0
    → HasOnePending s
    → pending_count id (create proposal (new_proposal key user terms) s.proposals) ≤ 1
created-HasOnePending key proposal user terms s id fresh h = elim (ℕ_discrete key id) [
  | yes same ↦ ground (
    arith,
    fresh,
    pending_count-le id s.proposals,
    ap (λ i. count (λ _ p. p.deal_id == i) s.proposals) same,
  )
  | no other ↦ ground (arith, h id)
]

module _ (user : AuthenticatedUser) (dto : CreateDealDto) (key proposal : ℕ) (s : DealsDb)
    (fresh : count (λ _ p. p.deal_id == key) s.proposals ≡ 0) (h : HasOnePending s) where
  deal_inserted :
      (deal : Deal)
      → Ends HasOnePending s (
          modify (λ s. record s {
            deals = create key deal s.deals;
            proposals = create proposal (new_proposal key user.id dto.terms) s.proposals;
          })
          >> pure deal)
  deal_inserted deal = record {
    apply = λ id. created-HasOnePending key proposal user.id dto.terms s id fresh h;
  }

  create_deal-HasOnePending : Ends HasOnePending s (create_deal user dto key proposal)
  unfolding create_deal
  create_deal-HasOnePending =
      search (Ends-gets, Ends-some, Ends-throw_if, Ends-valid_split, deal_inserted, h) depth 20

step-HasOnePending :
    (c : Call) (s : DealsDb) → HasFreshKeys c s → HasOnePending s → HasOnePending (step c s)
unfolding step
step-HasOnePending (create_call user dto key proposal) s fresh h =
    (create_deal-HasOnePending user dto key proposal s fresh h).apply
step-HasOnePending (complete_call id user now) s fresh h = (complete-Keeps id user now).apply s h
step-HasOnePending (cancel_call id user reason now) s fresh h =
    (cancel-Keeps id user reason now).apply s h
step-HasOnePending (propose_call id user terms key now) s fresh h =
    (propose-Keeps id user terms key now).apply s h
step-HasOnePending (accept_call id proposal user now) s fresh h =
    (accept-Keeps id proposal user now).apply s h
step-HasOnePending (reject_call id proposal user now) s fresh h =
    (reject-Keeps id proposal user now).apply s h

-- After any sequence of calls of the deal and proposal endpoints, refused ones included, a deal
-- has at most one pending proposal, if that was so before and a new deal gets a key to which no
-- proposal refers.
pub run-HasOnePending :
    (cs : List Call) (s : DealsDb)
    → RunHasFreshKeys cs s
    → HasOnePending s
    → HasOnePending (run cs s)
unfolding run
run-HasOnePending [] s fresh h = h
run-HasOnePending (c ∷ cs) s fresh h =
    run-HasOnePending cs (step c s) fresh.1 (step-HasOnePending c s fresh.0 h)
