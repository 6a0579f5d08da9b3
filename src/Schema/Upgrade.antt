-- ===== src/Schema/Upgrade.antt =====
-- `upgrade` and `downgrade` of alembic/versions/0001_initial.py, statement by statement.
mod Identity
mod Trading
mod Money
use crypto_brokerage.Base.{List, [], ◌∷◌, ◌++◌, map}
use crypto_brokerage.Schema.{
  Statement, create_type_if_not_exists, drop_table, drop_type_if_exists, EnumType,
}
use Identity.{create_users, create_user_profiles, create_accounts, create_bank_accounts}
use Trading.{create_assets, create_orders, create_trade_executions, create_positions}
use Money.{create_transactions, create_ledger_entries}

-- `enums`
abbrev pub enums : List EnumType
enums =
    record { name = "kyc_status_enum"; labels = "PENDING" ∷ "APPROVED" ∷ "REJECTED" ∷ [] }
    ∷ record { name = "account_type_enum"; labels = "FIAT" ∷ "CRYPTO" ∷ "RESERVE" ∷ [] }
    ∷ record {
      name = "bank_account_status_enum";
      labels = "PENDING" ∷ "ACTIVE" ∷ "INACTIVE" ∷ "REJECTED" ∷ [];
    }
    ∷ record { name = "asset_type_enum"; labels = "CRYPTO" ∷ "FIAT" ∷ "STOCK" ∷ "COMMODITY" ∷ [] }
    ∷ record { name = "order_side_enum"; labels = "BUY" ∷ "SELL" ∷ [] }
    ∷ record { name = "order_type_enum"; labels = "MARKET" ∷ "LIMIT" ∷ [] }
    ∷ record {
      name = "order_status_enum";
      labels = "PENDING" ∷ "PARTIALLY_FILLED" ∷ "FILLED" ∷ "FAILED" ∷ "CANCELLED" ∷ [];
    }
    ∷ record {
      name = "transaction_type_enum";
      labels = "DEPOSIT" ∷ "WITHDRAW" ∷ "TRADE" ∷ "FEE" ∷ [];
    }
    ∷ record {
      name = "transaction_status_enum";
      labels = "PENDING" ∷ "PROCESSING" ∷ "COMPLETED" ∷ "FAILED" ∷ "REVERSED" ∷ [];
    }
    ∷ []

abbrev create_types : List Statement
create_types = map (λ (t : EnumType). create_type_if_not_exists t.name t.labels) enums

abbrev pub upgrade : List Statement
upgrade =
    create_types
    ++ (create_users
        ++ (create_user_profiles
            ++ (create_accounts
                ++ (create_bank_accounts
                    ++ (create_assets
                        ++ (create_orders
                            ++ (create_trade_executions
                                ++ (create_positions
                                    ++ (create_transactions ++ (create_ledger_entries))))))))))

abbrev pub downgrade : List Statement
downgrade =
    drop_table "ledger_entries"
    ∷ drop_table "transactions"
    ∷ drop_table "positions"
    ∷ drop_table "trade_executions"
    ∷ drop_table "orders"
    ∷ drop_table "assets"
    ∷ drop_table "bank_accounts"
    ∷ drop_table "accounts"
    ∷ drop_table "user_profiles"
    ∷ drop_table "users"
    ∷ drop_type_if_exists "kyc_status_enum"
    ∷ drop_type_if_exists "account_type_enum"
    ∷ drop_type_if_exists "bank_account_status_enum"
    ∷ drop_type_if_exists "asset_type_enum"
    ∷ drop_type_if_exists "order_side_enum"
    ∷ drop_type_if_exists "order_type_enum"
    ∷ drop_type_if_exists "order_status_enum"
    ∷ drop_type_if_exists "transaction_type_enum"
    ∷ drop_type_if_exists "transaction_status_enum"
    ∷ []
