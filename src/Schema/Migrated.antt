-- ===== src/Schema/Migrated.antt =====
-- What the migration does to a database: it gives every model its table, and `downgrade` undoes it.
use crypto_brokerage.Base.{
  ◌≡◌, refl, ◌∙◌, Bool, true, false, not, ◌&&◌, ◌||◌, ◌==◌, Option, none, some, String, List, [],
  ◌∷◌, ◌++◌, str_eq, all, any, any-append, all-append, all_mono, is_some, sym,
}
use crypto_brokerage.Errors.{Result, ok, err}
use crypto_brokerage.Repository.Unique.{both}
use crypto_brokerage.Schema.{
  ColumnType, Column, ForeignKey, OnDelete, cascade, restrict, Unique, Table, Index, EnumType,
  Model, Catalog, no_tables, Statement, Documented, by_the_book, run,
}
use crypto_brokerage.Schema.Frame.{
  beside, is_foreign, run-beside, run-documented, or_left, and_parts,
}
use crypto_brokerage.Schema.Upgrade.{upgrade, downgrade}
use crypto_brokerage.Schema.Metadata.{metadata}

abbrev same_texts : List String → List String → Bool
same_texts [] [] = true
same_texts (s ∷ ss) (t ∷ ts) = str_eq s t && same_texts ss ts
same_texts _ _ = false

abbrev same_unique : Unique → Unique → Bool
same_unique u v = same_texts u.columns v.columns

abbrev same_type : ColumnType → ColumnType → Bool
same_type ColumnType.uuid ColumnType.uuid = true
same_type ColumnType.boolean ColumnType.boolean = true
same_type ColumnType.integer ColumnType.integer = true
same_type ColumnType.timestamp ColumnType.timestamp = true
same_type (ColumnType.varchar m) (ColumnType.varchar n) = m == n
same_type (ColumnType.numeric p s) (ColumnType.numeric q t) = p == q && s == t
same_type (ColumnType.enum m) (ColumnType.enum n) = str_eq m n
same_type _ _ = false

-- A default of the database that the model counts on.
abbrev defaults : Option String → Option String → Bool
defaults none _ = true
defaults (some d) none = false
defaults (some d) (some e) = str_eq d e

-- The column of the database takes the values that the column of the model has.
abbrev takes : Column → Column → Bool
takes model column =
    str_eq model.name column.name
    && same_type model.column_type column.column_type
    && (not model.nullable || column.nullable)
    && defaults model.server_default column.server_default

abbrev same_action : OnDelete → OnDelete → Bool
same_action cascade cascade = true
same_action restrict restrict = true
same_action _ _ = false

abbrev same_key : ForeignKey → ForeignKey → Bool
same_key f g =
    str_eq f.column g.column && str_eq f.parent g.parent && same_action f.on_delete g.on_delete

abbrev same_index : Index → Index → Bool
same_index i j =
    str_eq i.name j.name
    && str_eq i.table j.table
    && same_texts i.columns j.columns
    && ((i.unique && j.unique) || (not i.unique && not j.unique))

abbrev same_enum : EnumType → EnumType → Bool
same_enum e f = str_eq e.name f.name && same_texts e.labels f.labels

-- The column is one of the model's, or an INSERT needs no value for it.
abbrev unasked : List Column → Column → Bool
unasked known k =
    any (λ (l : Column). str_eq l.name k.name) known || (k.nullable || is_some k.server_default)

-- The table of the database serves the model: it has its columns, each taking the model's values, asks
-- for no others, and has the same foreign keys and UNIQUE constraints.
abbrev matches : Table → Table → Bool
matches model table =
    str_eq model.name table.name
    && all (λ k. any (takes k) table.columns) model.columns
    && all (unasked model.columns) table.columns
    && all (λ f. any (same_key f) table.foreign_keys) model.foreign_keys
    && all (λ f. any (same_key f) model.foreign_keys) table.foreign_keys
    && all (λ u. any (same_unique u) table.uniques) model.uniques
    && all (λ u. any (same_unique u) model.uniques) table.uniques

-- The database has what the model needs: its table, its indexes and its enumerations.
abbrev pub provides : Catalog → Model → Bool
provides c m =
    any (matches m.table) c.tables
    && (all (λ i. any (same_index i) c.indexes) m.indexes
        && all (λ e. any (same_enum e) c.types) m.enums)

abbrev made : Result Catalog → Catalog
made (ok c) = c
made (err e) = no_tables

schema : Catalog
unfolding run by_the_book
schema = made (run by_the_book upgrade no_tables)

schema-upgrade : run by_the_book upgrade no_tables ≡ ok schema
unfolding schema run by_the_book
schema-upgrade = refl

no_tables-downgrade : run by_the_book downgrade schema ≡ ok no_tables
unfolding schema run by_the_book
no_tables-downgrade = refl

schema-provides : all (provides schema) metadata ≡ true
unfolding schema run by_the_book
schema-provides = refl

module _ (c d : Catalog) where
  provides-beside : (m : Model) → provides c m ≡ true → provides (beside c d) m ≡ true
  provides-beside m h =
      let (table, rest) = both (any (matches m.table) c.tables) _ h in
      let (indexes, enums) = both (all (λ i. any (same_index i) c.indexes) m.indexes) _ rest in
      and_parts _ _ (any-append (matches m.table) c.tables d.tables ∙ or_left _ _ table) (
        and_parts _ _
          (all_mono _ _ m.indexes
            (λ i q. any-append (same_index i) c.indexes d.indexes ∙ or_left _ _ q) indexes)
          (all_mono _ _ m.enums (λ e q. any-append (same_enum e) c.types d.types ∙ or_left _ _ q)
            enums))

module _ (execute : Statement → Catalog → Result Catalog) (documented : Documented execute)
    (d : Catalog) (foreign : all (is_foreign d) (upgrade ++ downgrade) ≡ true) where
  foreign_to : (all (is_foreign d) upgrade ≡ true) × (all (is_foreign d) downgrade ≡ true)
  foreign_to = both _ _ (sym (all-append (is_foreign d) upgrade downgrade) ∙ foreign)

  -- In a database that does what is documented and that has and uses no table, index or enumeration of
  -- the application, `upgrade` goes through, and every model then has a table that serves it: the
  -- columns of the model, of the same types and taking all its values, no other column that an INSERT
  -- would have to fill, the same foreign keys and UNIQUE constraints, its indexes and its
  -- enumerations.
  pub upgrade-provides :
      (c : Catalog) × (run execute upgrade d ≡ ok c) × (all (provides c) metadata ≡ true)
  upgrade-provides = (
    beside schema d,
    run-documented execute documented upgrade d (beside schema d)
        (run-beside upgrade no_tables schema d schema-upgrade foreign_to.0),
    all_mono (provides schema) (provides (beside schema d)) metadata (provides-beside schema d)
        schema-provides,
  )

  -- In a database that does what is documented and that has and uses no table, index or enumeration of
  -- the application, `downgrade` after `upgrade` goes through and restores the database as it was.
  pub upgrade-downgrade :
      (c : Catalog) × (run execute upgrade d ≡ ok c) × (run execute downgrade c ≡ ok d)
  upgrade-downgrade = (
    beside schema d,
    run-documented execute documented upgrade d (beside schema d)
        (run-beside upgrade no_tables schema d schema-upgrade foreign_to.0),
    run-documented execute documented downgrade (beside schema d) d
        (run-beside downgrade schema no_tables d no_tables-downgrade foreign_to.1),
  )
