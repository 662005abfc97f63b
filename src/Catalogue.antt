-- ===== src/Catalogue.antt =====
-- The parts of the metric catalogue that filters, scopes and locks read (precis_mcp/engine/catalogue.py),
-- and the analytical client that they query. A field that only error messages or other stages read
-- (labels, attributes, formats) is left out. The client is a parameter of the model: a query is the
-- structured value that the SQL text is rendered from, and its answer is the first column of the
-- rows, or the database's exception.
use precis_finance_mcp.Common.{String, Bool, true, false, Option, none, some, List, Dict, Result}

-- The exceptions that these parts raise, without their messages. `database` stands for whatever
-- the client raises.
pub data Error : Type 0 where
  filter_resolution scope_violation stop_iteration assertion value_error : Error
  period_selection expression resolver catalogue_error : Error
  unknown_scenario invalid_alias non_writable missing_key type_error database : Error

pub record DimensionSource : Type 0 where
  pub table : String
  pub key_column : String

pub record TransitiveResolution : Type 0 where
  pub leaf_dimension : String
  pub source_table : String
  pub leaf_key_column : String
  pub filter_column : String

pub record DerivedFrom : Type 0 where
  pub dimension : String
  pub source_column : String

pub record Dimension : Type 0 where
  pub key : String
  pub source : Option DimensionSource
  pub derived_from : Option DerivedFrom
  pub ragged : Bool
  pub leaf_dimension : String
  pub transitive : Dict TransitiveResolution

abbrev pub is_leaf : Dimension → Bool
is_leaf dim = elim dim.source [ none ↦ false | some _ ↦ true ]

abbrev pub is_derived : Dimension → Bool
is_derived dim = elim dim.derived_from [ none ↦ false | some _ ↦ true ]

pub record CubeDimension : Type 0 where
  pub key : String
  pub source : String
  pub source_inline : Bool
  pub filterable : Bool

pub record DomainCatalogue : Type 0 where
  pub dimensions : List CubeDimension

pub record Catalogue : Type 0 where
  pub dimensions : Dict Dimension
  pub domains : Dict DomainCatalogue

pub data Query : Type 0 where
  -- SELECT key FROM table WHERE key = value LIMIT 1
  member : (table key value : String) → Query
  -- SELECT DISTINCT leaf_key FROM table WHERE column = value
  derived : (leaf_key table column value : String) → Query
  -- SELECT leaf_key FROM view WHERE node_id = value
  rollup : (leaf_key view value : String) → Query
  -- SELECT DISTINCT key FROM table
  universe : (key table : String) → Query
  -- SELECT DISTINCT key FROM table WHERE key >= from AND key <= to ORDER BY key
  range : (key table from to : String) → Query

abbrev pub Client : Type 0
Client = Query → Result Error (List String)
