-- ===== src/Schema/Upgrade/Identity.antt =====
-- `upgrade` of alembic/versions/0001_initial.py: the tables of users, profiles and accounts.
use crypto_brokerage.Base.{true, false, List, [], ◌∷◌}
use crypto_brokerage.Schema.{
  uuid, boolean, timestamp, varchar, enum, cascade, Table, Statement, create_table, create_index,
  required, nullable, defaulting, id_column, key, index, unique,
}

abbrev pub user_table : Table
user_table = record {
  name = "users";
  columns =
      id_column
      ∷ required "email" (varchar 254)
      ∷ required "hashed_password" (varchar 128)
      ∷ defaulting "true" (required "is_active" boolean)
      ∷ defaulting "now()" (nullable "created_at" timestamp)
      ∷ defaulting "now()" (nullable "updated_at" timestamp)
      ∷ [];
  foreign_keys = [];
  uniques = [];
}

abbrev pub create_users : List Statement
create_users =
    create_table user_table ∷ create_index (index "ix_users_email" "users" ("email" ∷ []) true) ∷ []

abbrev pub user_profile_table : Table
user_profile_table = record {
  name = "user_profiles";
  columns =
      id_column
      ∷ required "user_id" uuid
      ∷ required "full_name" (varchar 255)
      ∷ nullable "tax_id" (varchar 64)
      ∷ defaulting "PENDING" (required "kyc_status" (enum "kyc_status_enum"))
      ∷ defaulting "BR" (required "country" (varchar 2))
      ∷ defaulting "now()" (nullable "created_at" timestamp)
      ∷ defaulting "now()" (nullable "updated_at" timestamp)
      ∷ [];
  foreign_keys = key "user_id" "users" cascade ∷ [];
  uniques = unique "uq_user_profiles_user_id" ("user_id" ∷ []) ∷ [];
}

abbrev pub create_user_profiles : List Statement
create_user_profiles =
    create_table user_profile_table
    ∷ create_index (index "ix_user_profiles_user_id" "user_profiles" ("user_id" ∷ []) false)
    ∷ []

abbrev pub account_table : Table
account_table = record {
  name = "accounts";
  columns =
      id_column
      ∷ required "user_id" uuid
      ∷ required "currency" (varchar 10)
      ∷ required "account_type" (enum "account_type_enum")
      ∷ defaulting "now()" (nullable "created_at" timestamp)
      ∷ defaulting "now()" (nullable "updated_at" timestamp)
      ∷ [];
  foreign_keys = key "user_id" "users" cascade ∷ [];
  uniques = unique "uq_accounts_user_currency" ("user_id" ∷ "currency" ∷ []) ∷ [];
}

abbrev pub create_accounts : List Statement
create_accounts =
    create_table account_table
    ∷ create_index (index "ix_accounts_user_id" "accounts" ("user_id" ∷ []) false)
    ∷ []

abbrev pub bank_account_table : Table
bank_account_table = record {
  name = "bank_accounts";
  columns =
      id_column
      ∷ required "user_id" uuid
      ∷ required "external_reference" (varchar 255)
      ∷ required "bank_name" (varchar 100)
      ∷ defaulting "PENDING" (required "status" (enum "bank_account_status_enum"))
      ∷ defaulting "now()" (nullable "created_at" timestamp)
      ∷ defaulting "now()" (nullable "updated_at" timestamp)
      ∷ [];
  foreign_keys = key "user_id" "users" cascade ∷ [];
  uniques = [];
}

abbrev pub create_bank_accounts : List Statement
create_bank_accounts =
    create_table bank_account_table
    ∷ create_index (index "ix_bank_accounts_user_id" "bank_accounts" ("user_id" ∷ []) false)
    ∷ []
