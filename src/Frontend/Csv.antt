-- ===== src/Frontend/Csv.antt =====
-- apps/frontend/src/lib/exportToCSV.ts: the text of the file that a download gets. A text is the list
-- of its code points; `to_fixed` is the text of an amount with two decimals. The blob and the link
-- that the browser clicks are left out.
pub mod Reader
pub mod RoundTrip
mod Examples
use stellar_true_stub.Common.{
  ℕ, Bool, true, false, List, [], ◌∷◌, ◌++◌, map, if◌then◌else◌, ◌==◌, codes,
}

abbrev pub Text : Type 0
Text = List ℕ

pub record TransactionRow (Amount : Type 0) : Type 0 where
  pub purchase_id : Text
  pub event : Text
  pub transfer_initiated : Text
  pub transfer_completed : Text
  pub amount : Amount
  pub status : Text

pub record WalletRow : Type 0 where
  pub address : Text
  pub network : Text
  pub is_primary : Bool

-- `.replace(/"/g, '""')`.
pub escape : Text → Text
escape [] = []
escape (c ∷ s) = let rest = escape s in if c == b'"' then b'"' ∷ b'"' ∷ rest else c ∷ rest

pub quoted : Text → Text
unfolding escape
quoted cell = b'"' ∷ (escape cell ++ (b'"' ∷ []))

-- `.join(separator)`, for a separator of one character.
pub joined : ℕ → List Text → Text
joined separator [] = []
joined separator (s ∷ []) = s
joined separator (s ∷ t ∷ l) = s ++ (separator ∷ joined separator (t ∷ l))

-- The content of the file; 10 is the line feed.
pub download_csv : List Text → List (List Text) → Text
unfolding joined quoted
download_csv headers rows = joined 10 (map (λ row. joined b',' (map quoted row)) (headers ∷ rows))

abbrev pub transaction_headers : List Text
transaction_headers =
    codes "Purchase ID"
    ∷ codes "Event"
    ∷ codes "Transfer Initiated"
    ∷ codes "Transfer Completed"
    ∷ codes "Amount (USD)"
    ∷ codes "Status"
    ∷ []

abbrev pub transaction_cells :
    {Amount : Type 0} → (Amount → Text) → TransactionRow Amount → List Text
transaction_cells to_fixed t =
    t.purchase_id
    ∷ t.event
    ∷ t.transfer_initiated
    ∷ t.transfer_completed
    ∷ to_fixed t.amount
    ∷ t.status
    ∷ []

pub export_transactions_to_csv :
    {Amount : Type 0} → (Amount → Text) → List (TransactionRow Amount) → Text
export_transactions_to_csv to_fixed transactions =
    download_csv transaction_headers (map (transaction_cells to_fixed) transactions)

abbrev pub wallet_headers : List Text
wallet_headers = codes "Address" ∷ codes "Network" ∷ codes "Primary" ∷ []

abbrev pub wallet_cells : WalletRow → List Text
wallet_cells w = w.address ∷ w.network ∷ (if w.is_primary then codes "Yes" else codes "No") ∷ []

pub export_wallets_to_csv : List WalletRow → Text
export_wallets_to_csv wallets = download_csv wallet_headers (map wallet_cells wallets)
