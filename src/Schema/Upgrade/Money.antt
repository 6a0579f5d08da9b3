-- ===== src/Schema/Upgrade/Money.antt =====
-- `upgrade` of alembic/versions/0001_initial.py: the tables of transactions and ledger entries.
use crypto_brokerage.Base.{false, List, [], ◌∷◌}
use crypto_brokerage.Schema.{
  uuid, timestamp, varchar, numeric, enum, restrict, Table, Statement, create_table, create_index,
  required, nullable, defaulting, id_column, key, index,
}

abbrev pub transaction_table : Table
transaction_table = record {
  name = "transactions";
  columns =
      id_column
      ∷ required "user_id" uuid
      ∷ required "transaction_type" (enum "transaction_type_enum")
      ∷ defaulting "PENDING" (required "status" (enum "transaction_status_enum"))
      ∷ nullable "reference_id" (varchar 255)
      ∷ defaulting "now()" (nullable "created_at" timestamp)
      ∷ defaulting "now()" (nullable "updated_at" timestamp)
      ∷ [];
  foreign_keys = key "user_id" "users" restrict ∷ [];
  uniques = [];
}

abbrev pub create_transactions : List Statement
create_transactions =
    create_table transaction_table
    ∷ create_index
        (index "ix_transactions_user_id_status" "transactions" ("user_id" ∷ "status" ∷ []) false)
    ∷ create_index (index "ix_transactions_reference_id" "transactions" ("reference_id" ∷ []) false)
    ∷ create_index (index "ix_transactions_status" "transactions" ("status" ∷ []) false)
    ∷ []

abbrev pub ledger_entry_table : Table
ledger_entry_table = record {
  name = "ledger_entries";
  columns =
      id_column
      ∷ required "debit_account_id" uuid
      ∷ required "credit_account_id" uuid
      ∷ required "amount" (numeric 36 18)
      ∷ required "currency" (varchar 10)
      ∷ required "reference_type" (varchar 50)
      ∷ required "reference_id" (varchar 128)
      ∷ defaulting "now()" (nullable "created_at" timestamp)
      ∷ defaulting "now()" (nullable "updated_at" timestamp)
      ∷ [];
  foreign_keys =
      key "debit_account_id" "accounts" restrict ∷ key "credit_account_id" "accounts" restrict ∷ [];
  uniques = [];
}

abbrev pub create_ledger_entries : List Statement
create_ledger_entries =
    create_table ledger_entry_table
    ∷ create_index
        (index "ix_ledger_debit_account_id" "ledger_entries" ("debit_account_id" ∷ []) false)
    ∷ create_index
        (index "ix_ledger_credit_account_id" "ledger_entries" ("credit_account_id" ∷ []) false)
    ∷ create_index (
        index "ix_ledger_reference" "ledger_entries" ("reference_type" ∷ "reference_id" ∷ []) false)
    ∷ []
