-- ===== src/Migrations/Runs/Frame.antt =====
-- backend/app/db/migrations: what else is in the database stays out of the way of a migration.
use nordmarkt.Common.{
  Bool, true, false, not, ◌&&◌, ◌≡◌, refl, List, [], ◌∷◌, ◌++◌, any, select, String, str_eq, ap,
  arith, if◌then◌else◌, Option, none, some, sym, Bool-cases, inl, inr,
}
use mathlib.Core.Path.{fun_ext}
use mathlib.Core.List.{append_assoc}
use nordmarkt.Common.Texts.{mem_text}
use nordmarkt.Migrations.Statements.{
  Table, Statement, create_extension, create_table, drop_table, create_index, drop_index,
  create_enum, drop_enum, commit, set_heads, Index,
}
use nordmarkt.Migrations.Server.{
  Schema, Session, all, has_table, has_column, has_index, depends_on, own_indexes, enums_of, allows,
  perform, step, references, is_loaded, set_schema, is_concurrent, attempt,
}

-- A schema beside another.
abbrev pub beside : Schema → Schema → Schema
beside b l = record {
  tables = l.tables ++ b.tables;
  indexes = l.indexes ++ b.indexes;
  enums = l.enums ++ b.enums;
  has_extension = λ x. if l.has_extension x then true else b.has_extension x;
  heads = l.heads;
}

abbrev pub beside_session : Schema → Session → Session
beside_session b s = record {
  committed = beside b s.committed;
  schema = beside b s.schema;
  in_transaction = s.in_transaction;
}

abbrev pub lacks_index : List Index → Index → Bool
lacks_index indexes i = not (has_index indexes i.name)

-- A statement is not about anything of a schema, and nothing of that depends on what it drops.
unfoldable pub is_apart : Schema → Statement → Bool
is_apart b (create_table t) =
    not (has_table t.name b.tables) && all (lacks_index b.indexes) (own_indexes t.name t.items)
is_apart b (drop_table name) =
    not (any (depends_on name) b.tables)
    && all (λ (t : Table). not (str_eq t.name name)) b.tables
    && all (λ (i : Index). not (str_eq i.table name)) b.indexes
is_apart b (create_index i) = not (has_index b.indexes i.name)
is_apart b (drop_index name) = all (λ (i : Index). not (str_eq i.name name)) b.indexes
is_apart b (create_enum name _) = not (mem_text name b.enums)
is_apart b (drop_enum name) =
    not (any (λ (t : Table). mem_text name (enums_of t.items)) b.tables)
    && all (λ e. not (str_eq e name)) b.enums
is_apart b _ = true

module _ {ℓ} {A : Type ℓ} (p : A → Bool) where
  any-append_some : (xs ys : List A) → any p xs ≡ true → any p (xs ++ ys) ≡ true
  any-append_some [] ys h = ground arith
  any-append_some (x ∷ xs) ys h = ground (arith, any-append_some xs ys)

  any-append_none : (xs ys : List A) → any p ys ≡ false → any p (xs ++ ys) ≡ any p xs
  any-append_none [] ys h = h
  any-append_none (x ∷ xs) ys h = ground (arith, any-append_none xs ys)

  select-all : (ys : List A) → all p ys ≡ true → select p ys ≡ ys
  select-all [] h = refl
  select-all (y ∷ ys) h = ground (arith, select-all ys)

  select-append_all : (xs ys : List A) → all p ys ≡ true → select p (xs ++ ys) ≡ select p xs ++ ys
  select-append_all [] ys h = select-all ys h
  select-append_all (x ∷ xs) ys h = ground (arith, select-append_all xs ys)

  all_mono :
      (q : A → Bool) (xs : List A)
      → ((x : A) → p x ≡ true → q x ≡ true)
      → all p xs ≡ true
      → all q xs ≡ true
  all_mono q [] sub h = refl
  all_mono q (x ∷ xs) sub h = ground (arith, sub x, all_mono q xs sub)

mem_text-append_some :
    (s : String) (xs ys : List String) → mem_text s xs ≡ true → mem_text s (xs ++ ys) ≡ true
mem_text-append_some s [] ys h = ground arith
mem_text-append_some s (x ∷ xs) ys h = ground (arith, mem_text-append_some s xs ys)

mem_text-append_none :
    (s : String) (xs ys : List String)
    → mem_text s ys ≡ false
    → mem_text s (xs ++ ys) ≡ mem_text s xs
mem_text-append_none s [] ys h = h
mem_text-append_none s (x ∷ xs) ys h = ground (arith, mem_text-append_none s xs ys)

lacks_index-append :
    (xs ys is : List Index)
    → all (lacks_index xs) is ≡ true
    → all (lacks_index ys) is ≡ true
    → all (lacks_index (xs ++ ys)) is ≡ true
lacks_index-append xs ys [] hx hy = refl
lacks_index-append xs ys (i ∷ is) hx hy = ground (
  arith,
  any-append_none (λ (j : Index). str_eq j.name i.name) xs ys,
  lacks_index-append xs ys is,
)

has_column-append :
    (ts us : List Table) (r : String × String)
    → has_column ts r ≡ true
    → has_column (ts ++ us) r ≡ true
has_column-append ts us (name, c) h = any-append_some _ ts us h

-- Loading an extension twice is loading it once, and the rest stays loaded.
load_first :
    (first mine rest : Bool)
    → (if first then true else if mine then true else rest)
      ≡ (if if first then true else mine then true else rest)
load_first first mine rest = ground arith

is_loaded-beside :
    (e : Option String) (mine rest : String → Bool)
    → is_loaded e mine ≡ true
    → is_loaded e (λ x. if mine x then true else rest x) ≡ true
is_loaded-beside none mine rest h = refl
is_loaded-beside (some e) mine rest h = ground arith

module _ (b l : Schema) where
  -- What is carried out alone is carried out beside the rest, to the same effect.
  allows-beside :
      (st : Statement) → is_apart b st ≡ true → allows st l ≡ true → allows st (beside b l) ≡ true
  unfolding is_apart allows
  allows-beside (create_table t) h ok = ground (
    arith,
    any-append_none (λ (u : Table). str_eq u.name t.name) l.tables b.tables,
    all_mono (has_column (t ∷ l.tables)) (has_column (t ∷ l.tables ++ b.tables))
        (references t.items) (has_column-append (t ∷ l.tables) b.tables),
    all_mono (λ e. mem_text e l.enums) (λ e. mem_text e (l.enums ++ b.enums)) (enums_of t.items)
        (λ e. mem_text-append_some e l.enums b.enums),
    lacks_index-append l.indexes b.indexes (own_indexes t.name t.items),
  )
  allows-beside (drop_table name) h ok = ground (
    arith,
    any-append_some (λ (u : Table). str_eq u.name name) l.tables b.tables,
    any-append_none (depends_on name) l.tables b.tables,
  )
  allows-beside (create_index i) h ok = ground (
    arith,
    any-append_none (λ (j : Index). str_eq j.name i.name) l.indexes b.indexes,
    all_mono (λ c. has_column l.tables (i.table, c))
        (λ c. has_column (l.tables ++ b.tables) (i.table, c)) i.columns
        (λ c. has_column-append l.tables b.tables (i.table, c)),
    is_loaded-beside i.extension l.has_extension b.has_extension,
  )
  allows-beside (drop_enum name) h ok =
      ground
        (arith, any-append_none (λ (t : Table). mem_text name (enums_of t.items)) l.tables b.tables)
  allows-beside _ h ok = refl

  perform-beside :
      (st : Statement) → is_apart b st ≡ true → perform st (beside b l) ≡ beside b (perform st l)
  unfolding is_apart perform
  perform-beside (create_extension e) h =
      ap (λ f. record (beside b l) { has_extension = f })
        (fun_ext (λ x. load_first (str_eq x e) (l.has_extension x) (b.has_extension x)))
  perform-beside (create_table t) h =
      ap (λ is. record (beside b l) { tables = t ∷ l.tables ++ b.tables; indexes = is })
        (sym (append_assoc (own_indexes t.name t.items) l.indexes b.indexes))
  perform-beside (drop_table name) h = ground (
    arith,
    select-append_all (λ (t : Table). not (str_eq t.name name)) l.tables b.tables,
    select-append_all (λ (i : Index). not (str_eq i.table name)) l.indexes b.indexes,
  )
  perform-beside (create_index i) h =
      ground (arith, any-append_none (λ (j : Index). str_eq j.name i.name) l.indexes b.indexes)
  perform-beside (drop_index name) h =
      ground
        (arith, select-append_all (λ (i : Index). not (str_eq i.name name)) l.indexes b.indexes)
  perform-beside (create_enum name _) h = ground (arith, mem_text-append_none name l.enums b.enums)
  perform-beside (drop_enum name) h =
      ground (arith, select-append_all (λ e. not (str_eq e name)) l.enums b.enums)
  perform-beside (set_heads heads) h = refl
  perform-beside commit h = refl

set_schema-beside :
    (b : Schema) (new : Schema) (s : Session)
    → set_schema (beside b new) (beside_session b s) ≡ beside_session b (set_schema new s)
set_schema-beside b new s = ground arith

attempt-beside :
    (b : Schema) (s : Session) (st : Statement)
    → is_apart b st ≡ true
    → (attempt st s).0 ≡ true
    → attempt st (beside_session b s) ≡ (true, beside_session b (attempt st s).1)
unfolding attempt
attempt-beside b s st h ok =
    elim (Bool-cases (not (is_concurrent st && s.in_transaction) && allows st s.schema)) [
      | inl go ↦
          rw (go, allows-beside b s.schema st h (ground arith), perform-beside b s.schema st h)
            (ground (arith, set_schema-beside b (perform st s.schema) s))
      | inr stop ↦ absurd (ground (arith))
    ]

pub step-beside :
    (b : Schema) (s : Session) (st : Statement)
    → is_apart b st ≡ true
    → (step st s).0 ≡ true
    → step st (beside_session b s) ≡ (true, beside_session b (step st s).1)
unfolding step
step-beside b s commit h ok = refl
step-beside b s st h ok = attempt-beside b s st h ok
