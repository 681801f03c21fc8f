-- ===== src/Metadata/Cache.antt =====
-- internal/metadata/cache.go: the request-local cache. A request audits its statements one after
-- another, so the calls are sequential: no load of a key is in flight when another begins. The
-- target's metadata are behind an interface whose state is threaded through the loads.
pub mod Laws
use goinception_plus.Prelude.{
  ℕ, Bool, true, false, ◌&&◌, Option, none, some, List, [], ◌∷◌, ◌++◌, if◌then◌else◌, ◌==◌, text_eq,
}
use goinception_plus.Strings.{Text, txt, to_lower}
use goinception_plus.Strings.Dict.{lookup, insert}
use goinception_plus.Model.{ImpactEstimate}
use goinception_plus.Audit.Types.{
  ServerInfo, Schema, Table, Error, metadata_not_found, failure, is_not_found, Result, ok, err,
}

-- `audit.MetadataProvider` over the state of the target and the connection, with the estimator if
-- the provider is an `audit.ImpactEstimator` too.
pub record MetadataProvider : Type 1 where
  pub World : Type 0
  pub load_server_info : World → Result ServerInfo × World
  pub load_schema : Text → World → Result Schema × World
  pub load_table : Text → Text → World → Result Table × World
  pub estimator : Option (Text → Text → World → Result ImpactEstimate × World)

unfoldable pub normalize : Bool → Text → Text
normalize lower_case value = if lower_case then to_lower value else value

unfoldable pub schema_key : Bool → Text → Text
unfolding normalize
schema_key lower_case schema = txt "schema:" ++ normalize lower_case schema

unfoldable pub table_key : Bool → Text → Text → Text
unfolding normalize
table_key lower_case schema table =
    txt "table:" ++ (normalize lower_case schema ++ (0 ∷ normalize lower_case table))

-- An entry holds a value or the error that the object is missing.
unfoldable pub cacheable {ℓ} : {A : Type ℓ} → Result A → Bool
cacheable (ok value) = true
cacheable (err e) = is_not_found e

module _ (source : MetadataProvider) where
  open source use {World, load_server_info, load_schema, load_table}

  pub record Provider : Type 0 where
    pub world : World
    pub lower_case : Bool
    pub server : Option ServerInfo
    pub schemas : List (Text × Result Schema)
    pub tables : List (Text × Result Table)

  unfoldable pub new_request_cache : World → Bool → Provider
  new_request_cache w lower_case = record {
    world = w;
    lower_case = lower_case;
    server = none;
    schemas = [];
    tables = [];
  }

  unfoldable pub server_info : Provider → Result ServerInfo × Provider
  server_info p = elim p.server [
    | some value ↦ (ok value, p)
    | none ↦
        let (result, w) = load_server_info p.world in
        let p' = record p { world = w } in
        elim result [
          | ok value ↦ (ok value, record p' { server = some value })
          | err e ↦ (err e, p')
        ]
  ]

  unfoldable pub schema_of : Text → Provider → Result Schema × Provider
  unfolding schema_key lookup cacheable
  schema_of schema p =
      let key = schema_key p.lower_case schema in
      elim (lookup key p.schemas) [
        | some entry ↦ (entry, p)
        | none ↦
            let (result, w) = load_schema schema p.world in
            let p' = record p { world = w } in
            (
              result,
              if cacheable result then record p' { schemas = insert key result p.schemas } else p',
            )
      ]

  unfoldable pub table_of : Text → Text → Provider → Result Table × Provider
  unfolding table_key lookup cacheable
  table_of schema table p =
      let key = table_key p.lower_case schema table in
      elim (lookup key p.tables) [
        | some entry ↦ (entry, p)
        | none ↦
            let (result, w) = load_table schema table p.world in
            let p' = record p { world = w } in
            (
              result,
              if cacheable result then record p' { tables = insert key result p.tables } else p',
            )
      ]

  unfoldable pub estimate_impact : Text → Text → Provider → Result ImpactEstimate × Provider
  estimate_impact database sql p = elim source.estimator [
    | none ↦ (err (failure (txt "metadata provider does not support impact estimation")), p)
    | some estimate ↦
        let (result, w) = estimate database sql p.world in (result, record p { world = w })
  ]

  unfoldable pub put_table : Table → Provider → Provider
  unfolding table_key
  put_table t p = record p {
    tables = insert (table_key p.lower_case t.schema t.name) (ok t) p.tables;
  }

  unfoldable pub put_schema : Schema → Provider → Provider
  unfolding schema_key
  put_schema s p = record p { schemas = insert (schema_key p.lower_case s.name) (ok s) p.schemas }

  unfoldable pub delete_schema : Text → Provider → Provider
  unfolding schema_key
  delete_schema schema p = record p {
    schemas = insert (schema_key p.lower_case schema) (err metadata_not_found) p.schemas;
  }

  unfoldable pub delete_table : Text → Text → Provider → Provider
  unfolding table_key
  delete_table schema table p = record p {
    tables = insert (table_key p.lower_case schema table) (err metadata_not_found) p.tables;
  }

  unfoldable pub rename_table : Text → Text → Table → Provider → Provider
  unfolding delete_table put_table
  rename_table old_schema old_table t p = put_table t (delete_table old_schema old_table p)
