-- ===== src/Frontend/Changelog/Examples.antt =====
-- The theorems on changelogs at concrete calls, with texts for metadata.
use stellar_true_stub.Common.{◌⊎◌, inl, inr, String, none, some, List, [], ◌∷◌, arith}
use stellar_true_stub.Map.Laws.{total}
use stellar_true_stub.Frontend.Changelog.{NewEntry, State, escrow_created}
use stellar_true_stub.Frontend.Changelog.Log.{Call, append, update, Removal, remove}
use stellar_true_stub.Frontend.Changelog.Uniqueness.{IdsAreUnique, run_all, run_all-IdsAreUnique}

abbrev entry : String → NewEntry String
entry id = record {
  id = id;
  contract_id = "e1";
  kind = escrow_created;
  description = "created";
  created_at = none;
  actor = "ann";
  tx_hash = none;
  metadata = some "{}";
}

abbrev empty : State String
empty = record { store = []; events = [] }

abbrev calls : List (Call String)
calls =
    append (entry "x") "t1"
    ∷ append (entry "x") "t2"
    ∷ update "e1" "x"
    ∷ append (entry "y") "t3"
    ∷ []

empty-IdsAreUnique : IdsAreUnique empty
unfolding total
empty-IdsAreUnique id = omega arith

abbrev mixed : List (Call String ⊎ Removal)
mixed =
    inl (append (entry "x") "t1") ∷ inr (remove "e1" "x" "t2") ∷ inl (append (entry "x") "t3") ∷ []

run_all-IdsAreUnique_example : IdsAreUnique (run_all mixed empty)
run_all-IdsAreUnique_example = run_all-IdsAreUnique mixed empty empty-IdsAreUnique
