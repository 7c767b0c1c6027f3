-- ===== src/Schema/Money.antt =====
-- Payments, their splits, payouts, ledger transactions, connected accounts, processed webhook
-- events and outbox events (prisma/schema.prisma).
use collabos_backend.Base.{ℕ, ℤ, ◌≡◌, Bool, Option, String, Enum, arith}

pub data ConnectAccountStatus : Type 0 where
  pending active restricted rejected : ConnectAccountStatus

abbrev connect_account_status_code : ConnectAccountStatus → ℕ
connect_account_status_code ConnectAccountStatus.pending = 0
connect_account_status_code ConnectAccountStatus.active = 1
connect_account_status_code ConnectAccountStatus.restricted = 2
connect_account_status_code ConnectAccountStatus.rejected = 3

pub connect_account_status_code_injective :
    (a b : ConnectAccountStatus)
    → connect_account_status_code a ≡ connect_account_status_code b
    → a ≡ b
connect_account_status_code_injective a b h = ground arith

instance abbrev pub connect_account_status_enum : Enum ConnectAccountStatus
connect_account_status_enum = record {
  code = connect_account_status_code;
  code_injective = connect_account_status_code_injective;
}

pub data PaymentStatus : Type 0 where
  requires_payment processing succeeded failed cancelled refunded : PaymentStatus

abbrev payment_status_code : PaymentStatus → ℕ
payment_status_code PaymentStatus.requires_payment = 0
payment_status_code PaymentStatus.processing = 1
payment_status_code PaymentStatus.succeeded = 2
payment_status_code PaymentStatus.failed = 3
payment_status_code PaymentStatus.cancelled = 4
payment_status_code PaymentStatus.refunded = 5

pub payment_status_code_injective :
    (a b : PaymentStatus) → payment_status_code a ≡ payment_status_code b → a ≡ b
payment_status_code_injective a b h = ground arith

instance abbrev pub payment_status_enum : Enum PaymentStatus
payment_status_enum = record {
  code = payment_status_code;
  code_injective = payment_status_code_injective;
}

pub data SplitStatus : Type 0 where
  pending released failed refunded : SplitStatus

abbrev split_status_code : SplitStatus → ℕ
split_status_code SplitStatus.pending = 0
split_status_code SplitStatus.released = 1
split_status_code SplitStatus.failed = 2
split_status_code SplitStatus.refunded = 3

pub split_status_code_injective :
    (a b : SplitStatus) → split_status_code a ≡ split_status_code b → a ≡ b
split_status_code_injective a b h = ground arith

instance abbrev pub split_status_enum : Enum SplitStatus
split_status_enum = record {
  code = split_status_code;
  code_injective = split_status_code_injective;
}

pub data TransactionType : Type 0 where
  charge transfer refund platform_fee payout : TransactionType

abbrev transaction_type_code : TransactionType → ℕ
transaction_type_code TransactionType.charge = 0
transaction_type_code TransactionType.transfer = 1
transaction_type_code TransactionType.refund = 2
transaction_type_code TransactionType.platform_fee = 3
transaction_type_code TransactionType.payout = 4

pub transaction_type_code_injective :
    (a b : TransactionType) → transaction_type_code a ≡ transaction_type_code b → a ≡ b
transaction_type_code_injective a b h = ground arith

instance abbrev pub transaction_type_enum : Enum TransactionType
transaction_type_enum = record {
  code = transaction_type_code;
  code_injective = transaction_type_code_injective;
}

pub data PayoutStatus : Type 0 where
  pending in_transit paid failed canceled : PayoutStatus

abbrev payout_status_code : PayoutStatus → ℕ
payout_status_code PayoutStatus.pending = 0
payout_status_code PayoutStatus.in_transit = 1
payout_status_code PayoutStatus.paid = 2
payout_status_code PayoutStatus.failed = 3
payout_status_code PayoutStatus.canceled = 4

pub payout_status_code_injective :
    (a b : PayoutStatus) → payout_status_code a ≡ payout_status_code b → a ≡ b
payout_status_code_injective a b h = ground arith

instance abbrev pub payout_status_enum : Enum PayoutStatus
payout_status_enum = record {
  code = payout_status_code;
  code_injective = payout_status_code_injective;
}

pub data OutboxEventStatus : Type 0 where
  pending published failed : OutboxEventStatus

abbrev outbox_event_status_code : OutboxEventStatus → ℕ
outbox_event_status_code OutboxEventStatus.pending = 0
outbox_event_status_code OutboxEventStatus.published = 1
outbox_event_status_code OutboxEventStatus.failed = 2

pub outbox_event_status_code_injective :
    (a b : OutboxEventStatus) → outbox_event_status_code a ≡ outbox_event_status_code b → a ≡ b
outbox_event_status_code_injective a b h = ground arith

instance abbrev pub outbox_event_status_enum : Enum OutboxEventStatus
outbox_event_status_enum = record {
  code = outbox_event_status_code;
  code_injective = outbox_event_status_code_injective;
}

pub record ConnectedAccount : Type 0 where
  pub user_id : ℕ
  pub status : ConnectAccountStatus
  pub stripe_account_id : ℕ
  pub charges_enabled : Bool
  pub payouts_enabled : Bool
  pub details_submitted : Bool

pub record PaymentSplit : Type 0 where
  pub payment_id : ℕ
  pub recipient_user_id : Option ℕ
  pub is_platform_fee : Bool
  pub amount : ℕ
  pub status : SplitStatus
  pub stripe_transfer_id : Option ℕ
  pub released_at : Option ℕ

pub record Payment : Type 0 where
  pub stripe_payment_intent_id : ℕ
  pub payer_id : ℕ
  pub order_id : Option ℕ
  pub deal_id : Option ℕ
  pub amount : ℕ
  pub currency : String
  pub status : PaymentStatus
  pub client_secret : Option String

pub record Transaction : Type 0 where
  pub user_id : ℕ
  pub payment_id : Option ℕ
  pub type : TransactionType
  pub amount : ℤ
  pub currency : String
  pub description : String

pub record Payout : Type 0 where
  pub user_id : ℕ
  pub stripe_account_id : ℕ
  pub stripe_payout_id : Option ℕ
  pub amount : ℕ
  pub currency : String
  pub status : PayoutStatus
  pub failure_reason : Option String

-- The uniqueness of (source, event id) is what makes a webhook idempotent.
pub record WebhookEvent : Type 0 where
  pub source : String
  pub event_id : ℕ
