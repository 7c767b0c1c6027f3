-- ===== src/Deals/Calls.antt =====
-- The calls of the deal and proposal endpoints, as steps on the tables.
use collabos_backend.Base.{ℕ, ◌≡◌, Option, String, List, [], ◌∷◌, AuthenticatedUser, ◌==◌}
use collabos_backend.Prisma.{count}
use collabos_backend.Deals.Service.{
  DealsDb, Terms, CreateDealDto, create_deal, complete_deal, cancel_deal,
}
use collabos_backend.Deals.Proposals.{propose, accept, reject_proposal}

-- A call with its caller, its body, the keys of the rows that it may insert and its time.
pub data Call : Type 0 where
  create_call : AuthenticatedUser → CreateDealDto → ℕ → ℕ → Call
  complete_call : ℕ → AuthenticatedUser → ℕ → Call
  cancel_call : ℕ → AuthenticatedUser → Option String → ℕ → Call
  propose_call : ℕ → AuthenticatedUser → Terms → ℕ → ℕ → Call
  accept_call : ℕ → ℕ → AuthenticatedUser → ℕ → Call
  reject_call : ℕ → ℕ → AuthenticatedUser → ℕ → Call

-- The tables after a call, which may throw.
unfoldable pub step : Call → DealsDb → DealsDb
step (create_call user dto key proposal_key) s = (create_deal user dto key proposal_key s).1
step (complete_call id user now) s = (complete_deal id user now s).1
step (cancel_call id user reason now) s = (cancel_deal id user reason now s).1
step (propose_call id user terms key now) s = (propose id user terms key now s).1
step (accept_call id proposal user now) s = (accept id proposal user now s).1
step (reject_call id proposal user now) s = (reject_proposal id proposal user now s).1

unfoldable pub run : List Call → DealsDb → DealsDb
unfolding step
run [] s = s
run (c ∷ cs) s = run cs (step c s)

-- A new deal gets a key to which no proposal refers.
abbrev pub HasFreshKeys : Call → DealsDb → Type 0
HasFreshKeys (create_call user dto key proposal_key) s =
    count (λ _ p. p.deal_id == key) s.proposals ≡ 0
HasFreshKeys _ s = Unit

abbrev pub RunHasFreshKeys : List Call → DealsDb → Type 0
RunHasFreshKeys [] s = Unit
RunHasFreshKeys (c ∷ cs) s = HasFreshKeys c s × RunHasFreshKeys cs (step c s)
