-- ===== src/Schema/Upgrade/Trading.antt =====
-- `upgrade` of alembic/versions/0001_initial.py: the tables of assets, orders, executions and positions.
use crypto_brokerage.Base.{true, false, List, [], ◌∷◌}
use crypto_brokerage.Schema.{
  uuid, integer, timestamp, varchar, numeric, enum, cascade, restrict, Table, Statement,
  create_table, create_index, required, nullable, defaulting, id_column, key, index, unique,
}

abbrev pub asset_table : Table
asset_table = record {
  name = "assets";
  columns =
      id_column
      ∷ required "symbol" (varchar 20)
      ∷ required "name" (varchar 100)
      ∷ required "asset_type" (enum "asset_type_enum")
      ∷ nullable "network" (varchar 50)
      ∷ defaulting "8" (required "precision" integer)
      ∷ defaulting "now()" (nullable "created_at" timestamp)
      ∷ defaulting "now()" (nullable "updated_at" timestamp)
      ∷ [];
  foreign_keys = [];
  uniques = [];
}

abbrev pub create_assets : List Statement
create_assets =
    create_table asset_table
    ∷ create_index (index "ix_assets_symbol" "assets" ("symbol" ∷ []) true)
    ∷ []

abbrev pub order_table : Table
order_table = record {
  name = "orders";
  columns =
      id_column
      ∷ required "user_id" uuid
      ∷ required "asset_id" uuid
      ∷ required "side" (enum "order_side_enum")
      ∷ required "order_type" (enum "order_type_enum")
      ∷ required "amount" (numeric 36 18)
      ∷ defaulting "0" (required "filled_amount" (numeric 36 18))
      ∷ nullable "price" (numeric 36 18)
      ∷ defaulting "PENDING" (required "status" (enum "order_status_enum"))
      ∷ required "idempotency_key" (varchar 128)
      ∷ defaulting "now()" (nullable "created_at" timestamp)
      ∷ defaulting "now()" (nullable "updated_at" timestamp)
      ∷ [];
  foreign_keys = key "user_id" "users" restrict ∷ key "asset_id" "assets" restrict ∷ [];
  uniques = unique "uq_orders_idempotency_key" ("idempotency_key" ∷ []) ∷ [];
}

abbrev pub create_orders : List Statement
create_orders =
    create_table order_table
    ∷ create_index (index "ix_orders_user_id_status" "orders" ("user_id" ∷ "status" ∷ []) false)
    ∷ create_index (index "ix_orders_asset_id" "orders" ("asset_id" ∷ []) false)
    ∷ create_index (index "ix_orders_status" "orders" ("status" ∷ []) false)
    ∷ []

abbrev pub trade_execution_table : Table
trade_execution_table = record {
  name = "trade_executions";
  columns =
      id_column
      ∷ required "order_id" uuid
      ∷ required "executed_price" (numeric 36 18)
      ∷ required "executed_amount" (numeric 36 18)
      ∷ defaulting "0" (required "fee" (numeric 36 18))
      ∷ required "timestamp" timestamp
      ∷ nullable "external_fill_id" (varchar 128)
      ∷ defaulting "now()" (nullable "created_at" timestamp)
      ∷ [];
  foreign_keys = key "order_id" "orders" cascade ∷ [];
  uniques = [];
}

abbrev pub create_trade_executions : List Statement
create_trade_executions =
    create_table trade_execution_table
    ∷ create_index (index "ix_trade_executions_order_id" "trade_executions" ("order_id" ∷ []) false)
    ∷ []

abbrev pub position_table : Table
position_table = record {
  name = "positions";
  columns =
      id_column
      ∷ required "user_id" uuid
      ∷ required "asset_id" uuid
      ∷ defaulting "0" (required "quantity" (numeric 36 18))
      ∷ defaulting "0" (required "average_price" (numeric 36 18))
      ∷ defaulting "now()" (nullable "created_at" timestamp)
      ∷ defaulting "now()" (nullable "updated_at" timestamp)
      ∷ [];
  foreign_keys = key "user_id" "users" cascade ∷ key "asset_id" "assets" restrict ∷ [];
  uniques = unique "uq_positions_user_asset" ("user_id" ∷ "asset_id" ∷ []) ∷ [];
}

abbrev pub create_positions : List Statement
create_positions =
    create_table position_table
    ∷ create_index (index "ix_positions_user_id" "positions" ("user_id" ∷ []) false)
    ∷ []
