-- ===== src/Service/Catalog.antt =====
-- The catalog of `EphemeralServiceImpl` (service_lib/src/ephemeral_service_impl.rs): tables, aliases,
-- templates, pipelines and lifetime policies. A panic of the code is `none`.
use powdrr_engine.Common.{
  String, ◌≡◌, refl, ap, Option, none, some, List, [], ◌==◌, if◌then◌else◌, ==_iff, ==_refl, ◌≢◌,
  option_map, string_eq, arith,
}
use powdrr_engine.Common.Dict
use powdrr_engine.Common.Dict.{Dict, get, insert, keys, get-insert, get-remove, dict_laws}
use powdrr_engine.Service.Tables.{CreateTable, TableDescription, from_create_table}
use powdrr_engine.Service.State.{Payloads, EphemeralServiceImpl}
use powdrr_engine.Service.Cutover.{real_table_name}

module _ {P : Payloads} where
  unfoldable pub get_all_iceberg_tables : EphemeralServiceImpl P → List String
  get_all_iceberg_tables s = keys s.tables

  -- a table that is new has no checkpoint that waits for compaction
  unfoldable pub create_table : CreateTable → EphemeralServiceImpl P → EphemeralServiceImpl P
  unfolding from_create_table
  create_table t s = elim (get s.tables t.name) [
    | some _ ↦ record s { tables = insert t.name (from_create_table t) s.tables }
    | none ↦ record s {
      tables = insert t.name (from_create_table t) s.tables;
      not_compacted_checkpoint_ids = insert t.name [] s.not_compacted_checkpoint_ids;
    }
  ]

  unfoldable pub upsert_table_metadata :
      CreateTable → EphemeralServiceImpl P → EphemeralServiceImpl P
  unfolding create_table
  upsert_table_metadata = create_table

  unfoldable pub describe_table : EphemeralServiceImpl P → String → Option TableDescription
  describe_table s name = get s.tables (real_table_name s name)

  unfoldable pub add_alias : String → String → EphemeralServiceImpl P → EphemeralServiceImpl P
  add_alias table_name alias s = record s {
    table_aliases = insert alias table_name s.table_aliases;
  }

  unfoldable pub remove_alias : String → String → EphemeralServiceImpl P → EphemeralServiceImpl P
  remove_alias _ alias s = record s { table_aliases = Dict.remove alias s.table_aliases }

  unfoldable pub create_table_template :
      String → P.Template → EphemeralServiceImpl P → EphemeralServiceImpl P
  create_table_template name template s = elim (get s.table_templates name) [
    | some _ ↦ record s {
      table_templates = insert name template (Dict.remove name s.table_templates);
    }
    | none ↦ record s { table_templates = insert name template s.table_templates }
  ]

  unfoldable pub describe_table_template : EphemeralServiceImpl P → String → Option P.Template
  describe_table_template s name = get s.table_templates name

  unfoldable pub create_pipeline :
      String → P.Pipeline → EphemeralServiceImpl P → Option (EphemeralServiceImpl P)
  create_pipeline name pipeline s = elim (get s.pipelines name) [
    | some _ ↦ none
    | none ↦ some (record s { pipelines = insert name pipeline s.pipelines })
  ]

  unfoldable pub describe_pipeline : EphemeralServiceImpl P → String → Option P.Pipeline
  describe_pipeline s name = get s.pipelines name

  unfoldable pub create_lifetime_policy :
      String → P.Policy → EphemeralServiceImpl P → Option (EphemeralServiceImpl P)
  create_lifetime_policy name policy s = elim (get s.lifetime_policies name) [
    | some _ ↦ none
    | none ↦ some (record s { lifetime_policies = insert name policy s.lifetime_policies })
  ]

  unfoldable pub describe_lifetime_policy : EphemeralServiceImpl P → String → Option P.Policy
  describe_lifetime_policy s name = get s.lifetime_policies name

  create_table-tables :
      (t : CreateTable) (s : EphemeralServiceImpl P)
      → (create_table t s).tables ≡ insert t.name (from_create_table t) s.tables
  unfolding create_table
  create_table-tables t s = ground arith

  create_table-aliases :
      (t : CreateTable) (s : EphemeralServiceImpl P)
      → (create_table t s).table_aliases ≡ s.table_aliases
  unfolding create_table
  create_table-aliases t s = ground arith

  -- After `create_table`, the name describes the new table, through the aliases as they were, and a name
  -- that resolves to another table describes what it described.
  pub describe_table-create_table :
      (t : CreateTable) (s : EphemeralServiceImpl P) (name : String)
      → describe_table (create_table t s) name ≡ (
          if t.name == real_table_name s name
          then some (from_create_table t)
          else describe_table s name)
  unfolding describe_table
  describe_table-create_table t s name =
      rw (create_table-tables t s, create_table-aliases t s)
        (get-insert t.name (real_table_name s name) (from_create_table t) s.tables)

  -- An alias describes its table, until it is removed: then it is a name like any other.
  pub describe_table-add_alias :
      (table_name alias : String) (s : EphemeralServiceImpl P)
      → describe_table (add_alias table_name alias s) alias ≡ get s.tables table_name
        × describe_table (remove_alias table_name alias (add_alias table_name alias s)) alias
          ≡ get s.tables alias
  unfolding describe_table add_alias remove_alias
  describe_table-add_alias table_name alias s =
      (rw (get-insert, ==_refl alias) refl, rw (get-remove, ==_refl alias) refl)

  -- Where a pipeline is created under a name, it is found there, a second creation under that name panics,
  -- and what another name describes does not change.
  pub create_pipeline-create_pipeline :
      (name other : String) (pipeline next : P.Pipeline) (s s' : EphemeralServiceImpl P)
      → other ≢ name
      → create_pipeline name pipeline s ≡ some s'
      → describe_pipeline s' name ≡ some pipeline
        × create_pipeline name next s' ≡ none
        × (describe_pipeline s' other ≡ describe_pipeline s other)
  unfolding create_pipeline describe_pipeline
  create_pipeline-create_pipeline name other pipeline next s s' o h =
      let stored = get-insert name name pipeline s.pipelines in
      ground (
        arith,
        ==_refl name,
        ==_iff name other,
        get-insert name name pipeline s.pipelines,
        get-insert name other pipeline s.pipelines,
        ap
            (λ (o : Option (EphemeralServiceImpl P)).
              option_map (λ (x : EphemeralServiceImpl P). x.pipelines) o)
            h,
      )
