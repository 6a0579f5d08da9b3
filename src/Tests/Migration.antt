-- ===== src/Tests/Migration.antt =====
-- The migration in a database that holds the table of alembic's versions alone.
use crypto_brokerage.Base.{◌≡◌, refl, true, [], ◌∷◌, all}
use crypto_brokerage.Errors.{ok}
use crypto_brokerage.Schema.{
  Table, Catalog, required, varchar, by_the_book, by_the_book-Documented, run,
}
use crypto_brokerage.Schema.Upgrade.{upgrade, downgrade}
use crypto_brokerage.Schema.Metadata.{metadata}
use crypto_brokerage.Schema.Migrated.{provides, upgrade-provides, upgrade-downgrade}

abbrev alembic_version : Table
alembic_version = record {
  name = "alembic_version";
  columns = required "version_num" (varchar 32) ∷ [];
  foreign_keys = [];
  uniques = [];
}

abbrev initial : Catalog
initial = record { types = []; tables = alembic_version ∷ []; indexes = [] }

upgrade-provides_example :
    (c : Catalog) × (run by_the_book upgrade initial ≡ ok c) × (all (provides c) metadata ≡ true)
upgrade-provides_example = upgrade-provides by_the_book by_the_book-Documented initial refl

upgrade-downgrade_example :
    (c : Catalog) × (run by_the_book upgrade initial ≡ ok c)
    × (run by_the_book downgrade c ≡ ok initial)
upgrade-downgrade_example = upgrade-downgrade by_the_book by_the_book-Documented initial refl
