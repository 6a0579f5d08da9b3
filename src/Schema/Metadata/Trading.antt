-- ===== src/Schema/Metadata/Trading.antt =====
-- `Base.metadata`: what the models of assets, orders, executions and positions declare.
use crypto_brokerage.Base.{true, false, [], ◌∷◌}
use crypto_brokerage.Schema.{
  uuid, integer, timestamp, varchar, numeric, enum, cascade, restrict, Model, audit_columns,
  required, nullable, id_column, key, index, unique,
}

abbrev pub asset_model : Model
asset_model = record {
  table = record {
    name = "assets";
    columns =
        id_column
        ∷ required "symbol" (varchar 20)
        ∷ required "name" (varchar 100)
        ∷ required "asset_type" (enum "asset_type_enum")
        ∷ nullable "network" (varchar 50)
        ∷ required "precision" integer
        ∷ audit_columns;
    foreign_keys = [];
    uniques = [];
  };
  indexes = index "ix_assets_symbol" "assets" ("symbol" ∷ []) true ∷ [];
  enums =
      record { name = "asset_type_enum"; labels = "CRYPTO" ∷ "FIAT" ∷ "STOCK" ∷ "COMMODITY" ∷ [] }
      ∷ [];
}

abbrev pub order_model : Model
order_model = record {
  table = record {
    name = "orders";
    columns =
        id_column
        ∷ required "user_id" uuid
        ∷ required "asset_id" uuid
        ∷ required "side" (enum "order_side_enum")
        ∷ required "order_type" (enum "order_type_enum")
        ∷ required "amount" (numeric 36 18)
        ∷ required "filled_amount" (numeric 36 18)
        ∷ nullable "price" (numeric 36 18)
        ∷ required "status" (enum "order_status_enum")
        ∷ required "idempotency_key" (varchar 128)
        ∷ audit_columns;
    foreign_keys = key "user_id" "users" restrict ∷ key "asset_id" "assets" restrict ∷ [];
    uniques =
        unique "uq_orders_idempotency_key" ("idempotency_key" ∷ [])
        ∷ unique "orders_idempotency_key_key" ("idempotency_key" ∷ [])
        ∷ [];
  };
  indexes =
      index "ix_orders_user_id_status" "orders" ("user_id" ∷ "status" ∷ []) false
      ∷ index "ix_orders_asset_id" "orders" ("asset_id" ∷ []) false
      ∷ index "ix_orders_status" "orders" ("status" ∷ []) false
      ∷ [];
  enums =
      record { name = "order_side_enum"; labels = "BUY" ∷ "SELL" ∷ [] }
      ∷ record { name = "order_type_enum"; labels = "MARKET" ∷ "LIMIT" ∷ [] }
      ∷ record {
        name = "order_status_enum";
        labels = "PENDING" ∷ "PARTIALLY_FILLED" ∷ "FILLED" ∷ "FAILED" ∷ "CANCELLED" ∷ [];
      }
      ∷ [];
}

abbrev pub trade_execution_model : Model
trade_execution_model = record {
  table = record {
    name = "trade_executions";
    columns =
        id_column
        ∷ required "order_id" uuid
        ∷ required "executed_price" (numeric 36 18)
        ∷ required "executed_amount" (numeric 36 18)
        ∷ required "fee" (numeric 36 18)
        ∷ required "timestamp" timestamp
        ∷ nullable "external_fill_id" (varchar 128)
        ∷ [];
    foreign_keys = key "order_id" "orders" cascade ∷ [];
    uniques = [];
  };
  indexes = index "ix_trade_executions_order_id" "trade_executions" ("order_id" ∷ []) false ∷ [];
  enums = [];
}

abbrev pub position_model : Model
position_model = record {
  table = record {
    name = "positions";
    columns =
        id_column
        ∷ required "user_id" uuid
        ∷ required "asset_id" uuid
        ∷ required "quantity" (numeric 36 18)
        ∷ required "average_price" (numeric 36 18)
        ∷ audit_columns;
    foreign_keys = key "user_id" "users" cascade ∷ key "asset_id" "assets" restrict ∷ [];
    uniques = unique "uq_positions_user_asset" ("user_id" ∷ "asset_id" ∷ []) ∷ [];
  };
  indexes = index "ix_positions_user_id" "positions" ("user_id" ∷ []) false ∷ [];
  enums = [];
}
