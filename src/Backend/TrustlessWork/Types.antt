-- ===== src/Backend/TrustlessWork/Types.antt =====
-- apps/backend/src/lib/trustless-work.ts: what the client is given, what it sends, and what it is
-- answered. A transaction is its XDR text; `Amount` is the type of a distribution's amount.
use stellar_true_stub.Common.{String, Bool, Option, List, Result}
use stellar_true_stub.Backend.Network.{Network}
use stellar_true_stub.Backend.Refund.{EscrowType}

-- The kit: what `Keypair.fromSecret` throws for a text, if it throws, the public key of a secret, and
-- the signed transaction with its hash, or what `fromXDR` throws.
pub record Kit : Type 0 where
  pub from_secret : String → Option String
  pub public_key : String → String
  pub sign : Network → String → String → Result String (String × String)

-- What is signed with: the address, the key and the network.
pub record Config : Type 0 where
  pub api_url : String
  pub api_key : String
  pub signer : String
  pub network : Network

pub record Distribution (Amount : Type 0) : Type 0 where
  pub address : Option String
  pub amount : Amount

pub record ResolveDisputeInput (Amount : Type 0) : Type 0 where
  pub contract_id : String
  pub escrow_type : EscrowType
  pub distributions : List (Distribution Amount)
  pub asset : Option String
  pub milestone_index : Option String
  pub request_id : Option String

pub data Body (Amount : Type 0) : Type 0 where
  -- `contractId`, `disputeResolver`, `distributions`, `asset`, `milestoneIndex`.
  resolution :
      String → String → List (Distribution Amount) → Option String → Option String → Body Amount
  signed_xdr : String → Body Amount

-- What the client does to the world: a POST to `base ++ path`, a GET
-- of it, or a signature with a key for a network.
pub data Effect (Amount : Type 0) : Type 0 where
  posts : (base path key : String) (id : Option String) → Body Amount → Effect Amount
  gets : (base path key : String) (id : Option String) → Effect Amount
  signs : (network : Network) (key xdr : String) → Effect Amount

-- The JSON of an answer, as far as it is read.
pub record Json : Type 0 where
  pub message : Option String
  pub unsigned_transaction : Option String
  pub status : Option String
  pub escrow_status : Option String

pub data Response : Type 0 where
  -- `fetch` throws, with this message.
  unreachable : String → Response
  -- `response.ok`, `response.statusText` and the JSON.
  answered : Bool → String → Json → Response
