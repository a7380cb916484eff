-- ===== src/Stripe/Client.antt =====
-- examples/stripe-refund/types.ts: refunds, and the client that the contract works with.
use corrobo.Base.{ℕ, String, Bool, false, ◌||◌, Option, none, some, List, str_eq}

pub record RefundIntent : Type 0 where
  pub charge_id : String
  pub amount_cents : ℕ
  pub reason : Option String

pub data RefundStatus : Type 0 where
  pending requires_action succeeded failed canceled : RefundStatus

pub record RefundLike : Type 0 where
  pub id : String
  pub status : RefundStatus
  pub amount : ℕ
  pub charge : String
  pub metadata : Option (List (String × String))

-- What the client throws: an `Error` with its name, and the type and code that it may carry, or
-- something else.
pub data ClientError : Type 0 where
  error :
      (type : Option String) (name : String) (code : Option String) (message : String) → ClientError
  no_error : ClientError

pub data Reply (A : Type 0) : Type 0 where
  replied : A → Reply A
  raised : ClientError → Reply A

pub record CreateParams : Type 0 where
  pub charge : String
  pub amount : ℕ
  pub reason : Option String
  pub metadata : Option (List (String × String))

pub record Page : Type 0 where
  pub data_of : List RefundLike
  pub has_more : Bool

-- `StripeClientLike`, on a state of the remote system; `limit` and `starting_after` may be left out.
pub record StripeClientLike (S : Type 0) : Type 0 where
  pub create : CreateParams → (idempotency_key : String) → S → Reply RefundLike × S
  pub retrieve : String → S → Reply RefundLike × S
  pub list_page : (charge : String) → Option ℕ → Option String → S → Reply Page × S

abbrev is_text : Option String → String → Bool
is_text none s = false
is_text (some t) s = str_eq t s

-- `isDefiniteRejection`
unfoldable pub is_definite_rejection : ClientError → Bool
is_definite_rejection (error type name code message) =
    is_text type "StripeInvalidRequestError" || str_eq name "FakeStripeRejection"
is_definite_rejection no_error = false

-- `isConflictCode`
unfoldable pub is_conflict_code : Option String → Bool
is_conflict_code code = is_text code "charge_already_refunded" || is_text code "amount_too_large"
