-- ===== src/Tests/Sample.antt =====
-- A small catalogue with an analytical client: cost centres below divisions, and accounts.
use precis_finance_mcp.Common.{String, true, false, none, some, [], ◌∷◌, ◌==◌, if◌then◌else◌, ok}
use precis_finance_mcp.Catalogue.{
  Dimension, TransitiveResolution, Catalogue, Client, Query, CubeDimension,
}

abbrev pub cost_centre : Dimension
cost_centre = record {
  key = "cost_centre";
  source = some (record { table = "gl.dim_cost_centre"; key_column = "cost_centre_id" });
  derived_from = none;
  ragged = false;
  leaf_dimension = "";
  transitive = [];
}

abbrev pub account : Dimension
account = record {
  key = "account";
  source = some (record { table = "gl.dim_account"; key_column = "account_id" });
  derived_from = none;
  ragged = false;
  leaf_dimension = "";
  transitive = [];
}

abbrev to_cost_centre : TransitiveResolution
to_cost_centre = record {
  leaf_dimension = "cost_centre";
  source_table = "gl.dim_cost_centre";
  leaf_key_column = "cost_centre_id";
  filter_column = "division";
}

abbrev pub division : Dimension
division = record {
  key = "division";
  source = none;
  derived_from = some (record { dimension = "cost_centre"; source_column = "division" });
  ragged = false;
  leaf_dimension = "";
  transitive = ("cost_centre", to_cost_centre) ∷ [];
}

abbrev column_of : String → String → CubeDimension
column_of key source = record {
  key = key;
  source = source;
  source_inline = false;
  filterable = true;
}

abbrev pub catalogue : Catalogue
catalogue = record {
  dimensions = ("cost_centre", cost_centre) ∷ ("account", account) ∷ ("division", division) ∷ [];
  domains =
      (
        "pnl",
        record { dimensions = column_of "cost_centre" "cc" ∷ column_of "account" "acct" ∷ [] },
      )
      ∷ [];
}

-- The division Cloud has two of the three cost centres, any other the third.
abbrev pub client : Client
client (Query.member table key value) = ok (value ∷ [])
client (Query.derived leaf_key table column value) =
    ok (if value == "Cloud" then "C1" ∷ "C2" ∷ [] else "C3" ∷ [])
client (Query.rollup leaf_key view value) = ok []
client (Query.universe key table) = ok ("C1" ∷ "C2" ∷ "C3" ∷ [])
client (Query.range key table from to) = ok (from ∷ to ∷ [])
