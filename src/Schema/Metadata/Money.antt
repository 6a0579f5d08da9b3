-- ===== src/Schema/Metadata/Money.antt =====
-- `Base.metadata`: what the models of transactions and ledger entries declare.
use crypto_brokerage.Base.{false, [], ◌∷◌}
use crypto_brokerage.Schema.{
  uuid, varchar, numeric, enum, restrict, Model, audit_columns, required, nullable, id_column, key,
  index,
}

abbrev pub transaction_model : Model
transaction_model = record {
  table = record {
    name = "transactions";
    columns =
        id_column
        ∷ required "user_id" uuid
        ∷ required "transaction_type" (enum "transaction_type_enum")
        ∷ required "status" (enum "transaction_status_enum")
        ∷ nullable "reference_id" (varchar 255)
        ∷ audit_columns;
    foreign_keys = key "user_id" "users" restrict ∷ [];
    uniques = [];
  };
  indexes =
      index "ix_transactions_user_id_status" "transactions" ("user_id" ∷ "status" ∷ []) false
      ∷ index "ix_transactions_reference_id" "transactions" ("reference_id" ∷ []) false
      ∷ index "ix_transactions_status" "transactions" ("status" ∷ []) false
      ∷ [];
  enums =
      record {
        name = "transaction_type_enum";
        labels = "DEPOSIT" ∷ "WITHDRAW" ∷ "TRADE" ∷ "FEE" ∷ [];
      }
      ∷ record {
        name = "transaction_status_enum";
        labels = "PENDING" ∷ "PROCESSING" ∷ "COMPLETED" ∷ "FAILED" ∷ "REVERSED" ∷ [];
      }
      ∷ [];
}

abbrev pub ledger_entry_model : Model
ledger_entry_model = record {
  table = record {
    name = "ledger_entries";
    columns =
        id_column
        ∷ required "debit_account_id" uuid
        ∷ required "credit_account_id" uuid
        ∷ required "amount" (numeric 36 18)
        ∷ required "currency" (varchar 10)
        ∷ required "reference_type" (varchar 50)
        ∷ required "reference_id" (varchar 128)
        ∷ audit_columns;
    foreign_keys =
        key "debit_account_id" "accounts" restrict
        ∷ key "credit_account_id" "accounts" restrict
        ∷ [];
    uniques = [];
  };
  indexes =
      index "ix_ledger_debit_account_id" "ledger_entries" ("debit_account_id" ∷ []) false
      ∷ index "ix_ledger_credit_account_id" "ledger_entries" ("credit_account_id" ∷ []) false
      ∷ index "ix_ledger_reference" "ledger_entries" ("reference_type" ∷ "reference_id" ∷ []) false
      ∷ [];
  enums = [];
}
