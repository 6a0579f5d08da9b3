-- ===== src/Schema/Metadata.antt =====
-- `Base.metadata`: what the models of app/models/ declare, in the terms of the migration.
mod Identity
mod Trading
mod Money
use crypto_brokerage.Base.{List, [], ◌∷◌}
use crypto_brokerage.Schema.{Model}
use Identity.{user_model, user_profile_model, account_model, bank_account_model}
use Trading.{asset_model, order_model, trade_execution_model, position_model}
use Money.{transaction_model, ledger_entry_model}

abbrev pub metadata : List Model
metadata =
    user_model ∷ user_profile_model ∷ account_model ∷ bank_account_model ∷ asset_model ∷ order_model
    ∷ trade_execution_model ∷ position_model ∷ transaction_model ∷ ledger_entry_model ∷ []
