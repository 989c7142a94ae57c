-- ===== src/Frontend/Csv/Examples.antt =====
-- The theorems on the exported files at concrete rows.
use stellar_true_stub.Common.{◌≡◌, refl, true, [], ◌∷◌, codes}
use stellar_true_stub.Frontend.Csv.{
  Text, TransactionRow, escape, quoted, joined, download_csv, export_wallets_to_csv,
}
use stellar_true_stub.Frontend.Csv.Reader.{read_table}
use stellar_true_stub.Frontend.Csv.RoundTrip.{read-download_csv}

abbrev sale : TransactionRow Text
sale = record {
  purchase_id = codes "p1";
  event = codes "The \"Gala\", part 2";
  transfer_initiated = codes "yes";
  transfer_completed = [];
  amount = codes "12.50";
  status = codes "open";
}

abbrev as_it_is : Text → Text
as_it_is s = s

wallet_file :
    export_wallets_to_csv
      (record { address = codes "G"; network = codes "testnet"; is_primary = true } ∷ [])
    ≡ codes "\"Address\",\"Network\",\"Primary\"\n\"G\",\"testnet\",\"Yes\""
unfolding export_wallets_to_csv download_csv joined quoted escape
wallet_file = refl

awkward_cells :
    read_table (download_csv (codes "a" ∷ codes "b" ∷ []) ((codes "\",\"" ∷ [] ∷ []) ∷ []))
    ≡ (codes "a" ∷ codes "b" ∷ []) ∷ (codes "\",\"" ∷ [] ∷ []) ∷ []
awkward_cells =
    read-download_csv (codes "a" ∷ codes "b" ∷ []) ((codes "\",\"" ∷ [] ∷ []) ∷ []) tt (tt, tt)
