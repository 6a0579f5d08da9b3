-- ===== src/Schema/Metadata/Identity.antt =====
-- `Base.metadata`: what the models of users, profiles and accounts declare.
use crypto_brokerage.Base.{true, false, [], ◌∷◌}
use crypto_brokerage.Schema.{
  uuid, boolean, varchar, enum, cascade, Model, audit_columns, required, nullable, id_column, key,
  index, unique,
}

abbrev pub user_model : Model
user_model = record {
  table = record {
    name = "users";
    columns =
        id_column
        ∷ required "email" (varchar 254)
        ∷ required "hashed_password" (varchar 128)
        ∷ required "is_active" boolean
        ∷ audit_columns;
    foreign_keys = [];
    uniques = [];
  };
  indexes = index "ix_users_email" "users" ("email" ∷ []) true ∷ [];
  enums = [];
}

abbrev pub user_profile_model : Model
user_profile_model = record {
  table = record {
    name = "user_profiles";
    columns =
        id_column
        ∷ required "user_id" uuid
        ∷ required "full_name" (varchar 255)
        ∷ nullable "tax_id" (varchar 64)
        ∷ required "kyc_status" (enum "kyc_status_enum")
        ∷ required "country" (varchar 2)
        ∷ audit_columns;
    foreign_keys = key "user_id" "users" cascade ∷ [];
    uniques = unique "uq_user_profiles_user_id" ("user_id" ∷ []) ∷ [];
  };
  indexes = index "ix_user_profiles_user_id" "user_profiles" ("user_id" ∷ []) false ∷ [];
  enums =
      record { name = "kyc_status_enum"; labels = "PENDING" ∷ "APPROVED" ∷ "REJECTED" ∷ [] } ∷ [];
}

abbrev pub account_model : Model
account_model = record {
  table = record {
    name = "accounts";
    columns =
        id_column
        ∷ required "user_id" uuid
        ∷ required "currency" (varchar 10)
        ∷ required "account_type" (enum "account_type_enum")
        ∷ audit_columns;
    foreign_keys = key "user_id" "users" cascade ∷ [];
    uniques = unique "uq_accounts_user_currency" ("user_id" ∷ "currency" ∷ []) ∷ [];
  };
  indexes = index "ix_accounts_user_id" "accounts" ("user_id" ∷ []) false ∷ [];
  enums = record { name = "account_type_enum"; labels = "FIAT" ∷ "CRYPTO" ∷ "RESERVE" ∷ [] } ∷ [];
}

abbrev pub bank_account_model : Model
bank_account_model = record {
  table = record {
    name = "bank_accounts";
    columns =
        id_column
        ∷ required "user_id" uuid
        ∷ required "external_reference" (varchar 255)
        ∷ required "bank_name" (varchar 100)
        ∷ required "status" (enum "bank_account_status_enum")
        ∷ audit_columns;
    foreign_keys = key "user_id" "users" cascade ∷ [];
    uniques = [];
  };
  indexes = index "ix_bank_accounts_user_id" "bank_accounts" ("user_id" ∷ []) false ∷ [];
  enums =
      record {
        name = "bank_account_status_enum";
        labels = "PENDING" ∷ "ACTIVE" ∷ "INACTIVE" ∷ "REJECTED" ∷ [];
      }
      ∷ [];
}
