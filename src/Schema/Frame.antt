-- ===== src/Schema/Frame.antt =====
-- A script leaves alone what it does not name: it does beside a foreign catalog what it does alone.
use crypto_brokerage.Base.{
  ◌≡◌, refl, ap, ◌∙◌, Bool, true, false, not, ◌&&◌, ◌||◌, Option, none, some, String, List, [], ◌∷◌,
  ◌++◌, str_eq, all, any, any-append, all_mono, select-append_none, arith, Bool-cases, inl, inr,
}
use crypto_brokerage.Errors.{Result, ok, err}
use crypto_brokerage.Repository.Unique.{both}
use crypto_brokerage.Schema.{
  ColumnType, ForeignKey, Table, Index, Statement, create_type_if_not_exists, create_table,
  create_index, drop_table, drop_type_if_exists, EnumType, Catalog, has_type, has_table, is_taken,
  is_new, is_whole, is_indexable, names_of, has_parent, default_known, distinct_names, uses_type,
  refers_to, type_known, is_founded, checked, by_the_book, then_run, Documented, allowed, effect,
  run,
}

abbrev pub beside : Catalog → Catalog → Catalog
beside c d = record {
  types = c.types ++ d.types;
  tables = c.tables ++ d.tables;
  indexes = c.indexes ++ d.indexes;
}

-- The catalog neither has nor uses what the statement makes or drops.
abbrev pub is_foreign : Catalog → Statement → Bool
is_foreign d (create_type_if_not_exists n labels) = not (has_type n d) && not (is_taken n d)
is_foreign d (create_table t) = is_new t d
is_foreign d (create_index i) = not (is_taken i.name d)
is_foreign d (drop_table n) =
    not (has_table n d)
    && not (any (refers_to n) d.tables)
    && not (any (λ (i : Index). str_eq i.table n) d.indexes)
is_foreign d (drop_type_if_exists n) = not (has_type n d) && not (any (uses_type n) d.tables)

checked-ok :
    (b : Bool) (m : String) (c c' : Catalog) → checked b m c ≡ ok c' → (b ≡ true) × (c ≡ c')
checked-ok true m c c' h = (refl, cc h)
checked-ok false m c c' h = absurd (cc h)

pub or_left : (a b : Bool) → a ≡ true → (a || b) ≡ true
or_left a b h = ground arith

or_other : (a b : Bool) → a ≡ false → (a || b) ≡ true → b ≡ true
or_other a b h k = ground arith

or_right : (a b : Bool) → b ≡ true → (a || b) ≡ true
or_right a b h = ground arith

pub and_parts : (a b : Bool) → a ≡ true → b ≡ true → (a && b) ≡ true
and_parts a b h k = ground arith

is_false : (b : Bool) → not b ≡ true → b ≡ false
is_false b h = ground arith

neither_false : (a b : Bool) → a ≡ false → not b ≡ true → (a || b) ≡ false
neither_false a b h k = ground arith

result_same : (c c' : Catalog) → ◌≡◌ {A = Result Catalog} (ok c) (ok c') → c ≡ c'
result_same c c' h = cc h

module _ (c d : Catalog) where
  has_table-beside : (n : String) → has_table n c ≡ true → has_table n (beside c d) ≡ true
  has_table-beside n h =
      any-append (λ (t : Table). str_eq t.name n) c.tables d.tables ∙ or_left _ _ h

  type_known-beside : (k : ColumnType) → type_known c k ≡ true → type_known (beside c d) k ≡ true
  type_known-beside (ColumnType.enum n) h =
      any-append (λ (t : EnumType). str_eq t.name n) c.types d.types ∙ or_left _ _ h
  type_known-beside _ h = refl

  default_known-beside :
      (k : ColumnType) (o : Option String)
      → default_known c k o ≡ true
      → default_known (beside c d) k o ≡ true
  default_known-beside _ none h = refl
  default_known-beside (ColumnType.enum n) (some v) h =
      any-append (λ (e : EnumType). str_eq e.name n && any (str_eq v) e.labels) c.types d.types
      ∙ or_left _ _ h
  default_known-beside ColumnType.boolean (some v) h = h
  default_known-beside ColumnType.timestamp (some v) h = h
  default_known-beside (ColumnType.varchar n) (some v) h = refl
  default_known-beside ColumnType.uuid (some v) h = h
  default_known-beside ColumnType.integer (some v) h = h
  default_known-beside (ColumnType.numeric p s) (some v) h = h

  column_known-beside :
      (k : ColumnType) (o : Option String)
      → (type_known c k && default_known c k o) ≡ true
      → (type_known (beside c d) k && default_known (beside c d) k o) ≡ true
  column_known-beside k o h =
      let (known, default) = both (type_known c k) (default_known c k o) h in
      and_parts _ _ (type_known-beside k known) (default_known-beside k o default)

  has_parent-beside : (n : String) → has_parent c n ≡ true → has_parent (beside c d) n ≡ true
  has_parent-beside n h = any-append _ c.tables d.tables ∙ or_left _ _ h

  is_founded-beside : (t : Table) → is_founded t c ≡ true → is_founded t (beside c d) ≡ true
  is_founded-beside t h =
      let (parents, columns) =
        both (all (λ (f : ForeignKey). has_parent c f.parent) t.foreign_keys) _ h in
      and_parts _ _ (all_mono _ _ t.foreign_keys (λ f q. has_parent-beside f.parent q) parents) (
        all_mono _ _ t.columns (λ k q. column_known-beside k.column_type k.server_default q)
          columns)

  untaken :
      (a a' b b' e e' : Bool)
      → not (a || (b || e)) ≡ true
      → not (a' || (b' || e')) ≡ true
      → not ((a || a') || ((b || b') || (e || e'))) ≡ true
  untaken a a' b b' e e' h k = ground arith

  untaken-beside :
      (n : String)
      → not (is_taken n c) ≡ true
      → not (is_taken n d) ≡ true
      → not (is_taken n (beside c d)) ≡ true
  untaken-beside n h k =
      let named : Table → Bool = λ t. any (str_eq n) (names_of t) in
      let indexed : Index → Bool = λ i. str_eq i.name n in
      rw (any-append (λ (t : Table). any (str_eq n) (names_of t)) c.tables d.tables) (
        rw (any-append (λ (i : Index). str_eq i.name n) c.indexes d.indexes) (
          rw (any-append (λ (t : EnumType). str_eq t.name n) c.types d.types) (
            untaken (any named c.tables) (any named d.tables) (any indexed c.indexes)
              (any indexed d.indexes) (has_type n c) (has_type n d) h k)))

  untaken_all :
      (ns : List String)
      → all (λ n. not (is_taken n c)) ns ≡ true
      → all (λ n. not (is_taken n d)) ns ≡ true
      → all (λ n. not (is_taken n (beside c d))) ns ≡ true
  untaken_all [] h k = refl
  untaken_all (n ∷ ns) h k =
      let (h1, h2) = both (not (is_taken n c)) _ h in
      let (k1, k2) = both (not (is_taken n d)) _ k in
      and_parts _ _ (untaken-beside n h1 k1) (untaken_all ns h2 k2)

  neither : (a b e : Bool) → e ≡ (a || b) → not a ≡ true → not b ≡ true → not e ≡ true
  neither a b e q h k = ground arith

  by_the_book-beside :
      (s : Statement) (c' : Catalog)
      → by_the_book s c ≡ ok c'
      → is_foreign d s ≡ true
      → by_the_book s (beside c d) ≡ ok (beside c' d)
  unfolding by_the_book
  by_the_book-beside (create_type_if_not_exists n labels) c' h f =
      let (fits, own) = checked-ok _ _ _ c' h in
      let (no_type, free) = both (not (has_type n d)) (not (is_taken n d)) f in
      let apart = any-append (λ (t : EnumType). str_eq t.name n) c.types d.types in
      elim (Bool-cases (has_type n c)) [
        | inl known ↦
            let there = apart ∙ or_left _ _ known in
            rw (or_left _ _ there) (rw there (ap (λ x. ok (beside x d)) (rw known at own)))
        | inr new ↦
            let absent = apart ∙ neither_false _ _ new no_type in
            let (untaken_c, labelled) =
              both (not (is_taken n c)) (distinct_names labels)
                (or_other (has_type n c) _ new fits) in
            rw (or_right _ _ (and_parts _ _ (untaken-beside n untaken_c free) labelled))
              (rw absent (ap (λ x. ok (beside x d)) (rw new at own)))
      ]
  by_the_book-beside (create_table t) c' h f =
      let (fits, own) = checked-ok _ _ _ c' h in
      let (shape, founded) = both (is_whole t && is_new t c) (is_founded t c) fits in
      let (whole, new) = both (is_whole t) (is_new t c) shape in
      rw
        (and_parts _ _ (and_parts _ _ whole (untaken_all (names_of t) new f))
          (is_founded-beside t founded))
        (ap (λ x. ok (beside x d)) own)
  by_the_book-beside (create_index i) c' h f =
      let (fits, own) = checked-ok _ _ _ c' h in
      let (new, there) = both (not (is_taken i.name c)) (any (is_indexable i) c.tables) fits in
      rw
        (and_parts _ _ (untaken-beside i.name new f)
          (any-append (is_indexable i) c.tables d.tables ∙ or_left _ _ there))
        (ap (λ x. ok (beside x d)) own)
  by_the_book-beside (drop_table n) c' h f =
      let (fits, own) = checked-ok _ _ _ c' h in
      let (there, free) = both (has_table n c) (not (any (refers_to n) c.tables)) fits in
      let (first, no_index) =
        both (not (has_table n d) && not (any (refers_to n) d.tables))
          (not (any (λ (i : Index). str_eq i.table n) d.indexes)) f in
      let (absent, unused) = both (not (has_table n d)) (not (any (refers_to n) d.tables)) first in
      let apart = any-append (refers_to n) c.tables d.tables in
      let tables =
        select-append_none (λ (t : Table). str_eq t.name n) c.tables d.tables (is_false _ absent) in
      let indexes =
        select-append_none (λ (i : Index). str_eq i.table n) c.indexes d.indexes
          (is_false _ no_index) in
      rw (and_parts _ _ (has_table-beside n there) (neither _ _ _ apart free unused))
        (rw (tables, indexes) (ap (λ x. ok (beside x d)) own))
  by_the_book-beside (drop_type_if_exists n) c' h f =
      let (free, own) = checked-ok _ _ _ c' h in
      let (absent, unused) = both (not (has_type n d)) (not (any (uses_type n) d.tables)) f in
      let apart = any-append (uses_type n) c.tables d.tables in
      let types =
        select-append_none (λ (t : EnumType). str_eq t.name n) c.types d.types
          (is_false _ absent) in
      rw (neither _ _ _ apart free unused) (rw types (ap (λ x. ok (beside x d)) own))

  then-beside :
      (s : Statement) (ss : List Statement) (r : Result Catalog) (c' : Catalog)
      → ((c1 : Catalog)
          → r ≡ ok c1
          → run by_the_book ss c1 ≡ ok c'
          → run by_the_book ss (beside c1 d) ≡ ok (beside c' d))
      → by_the_book s c ≡ r
      → is_foreign d s ≡ true
      → then_run (run by_the_book ss) r ≡ ok c'
      → then_run (run by_the_book ss) (by_the_book s (beside c d)) ≡ ok (beside c' d)
  then-beside s ss (ok c1) c' rest h f g = rw (by_the_book-beside s c1 h f) (rest c1 refl g)
  then-beside s ss (err e) c' rest h f g = absurd (cc g)

pub run-beside :
    (ss : List Statement) (c c' d : Catalog)
    → run by_the_book ss c ≡ ok c'
    → all (is_foreign d) ss ≡ true
    → run by_the_book ss (beside c d) ≡ ok (beside c' d)
unfolding run
run-beside [] c c' d h f = ap (λ x. ok (beside x d)) (result_same _ _ h)
run-beside (s ∷ ss) c c' d h f =
    let (own, later) = both (is_foreign d s) (all (is_foreign d) ss) f in
    then-beside c d s ss (by_the_book s c) c' (λ c1 e g. run-beside ss c1 c' d g later) refl own h

module _ (execute : Statement → Catalog → Result Catalog) (documented : Documented execute) where
  then-documented :
      (s : Statement) (ss : List Statement) (c : Catalog) (b : Bool) (c' : Catalog)
      → ((c1 : Catalog) → run by_the_book ss c1 ≡ ok c' → run execute ss c1 ≡ ok c')
      → allowed s c ≡ b
      → then_run (run by_the_book ss) (checked b "ProgrammingError" (effect s c)) ≡ ok c'
      → then_run (run execute ss) (execute s c) ≡ ok c'
  then-documented s ss c true c' rest h f = rw (documented s c h) (rest (effect s c) f)
  then-documented s ss c false c' rest h f = absurd (cc f)

  -- Every database runs a script that is allowed at each step like the one of the book.
  pub run-documented :
      (ss : List Statement) (c c' : Catalog)
      → run by_the_book ss c ≡ ok c'
      → run execute ss c ≡ ok c'
  unfolding run by_the_book
  run-documented [] c c' h = h
  run-documented (s ∷ ss) c c' h =
      then-documented s ss c (allowed s c) c' (λ c1 f. run-documented ss c1 c' f) refl h
