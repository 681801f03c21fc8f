-- ===== src/Tests/Rules.antt =====
-- Examples of the theorems on the rules.
use goinception_plus.Prelude.{true, false, none, some, [], ◌∷◌, ◌≡◌, refl, text_beq}
use goinception_plus.Strings.{txt, to_lower, split, trim_right, trim_left, trim_space}
use goinception_plus.Model.{DdlAction, DdlSpec, DmlSpec, StatementKind, Statement}
use goinception_plus.Rules.DdlSafety.{
  ddl_safety, action_issues, feature_issues, require, create_issues, engine_issues, column_issues,
  has_key, index_issues,
}
use goinception_plus.Audit.Policy.{unsigned_value, legacy_defaults}
use goinception_plus.Rules.DdlSafety.Laws.{IsCoherent, ddl_safety-IsCoherent}
use goinception_plus.Tests.Data.{column_spec, index_spec, ddl, statement, source, ref, app}
use goinception_plus.Tests.Session.{context}

abbrev orders : DdlSpec
orders = record (ddl DdlAction.create_table (txt "orders")) {
  columns = column_spec (txt "id") ∷ column_spec (txt "note") ∷ [];
  indexes = index_spec (txt "note_index") (txt "NOTE" ∷ []) ∷ [];
}

abbrev create_orders : Statement
create_orders = statement 1 StatementKind.create_table (some orders)

no_issues : ddl_safety source context create_orders ≡ []
unfolding ddl_safety action_issues feature_issues require split unsigned_value trim_right trim_left
    create_issues engine_issues text_beq trim_space legacy_defaults column_issues has_key to_lower
    index_issues
no_issues = refl

ddl_safety-IsCoherent_example : IsCoherent orders
ddl_safety-IsCoherent_example =
    ddl_safety-IsCoherent source context create_orders orders refl refl no_issues

abbrev update : DmlSpec
update = record {
  tables = ref app (txt "Users") ∷ [];
  columns = [];
  assignments = record { schema = []; table = []; name = txt "name" } ∷ [];
  has_where = true;
  has_limit = false;
  has_order_by = false;
  multi_table = false;
  insert_select = false;
  on_duplicate = false;
  fully_projected = true;
  value_rows = 0;
  has_join_without_on = false;
  has_select_star = false;
  estimated_rows = 0;
  estimate_method = [];
  uses_cte = false;
  order_by_rand = false;
  wrong_and_expr = false;
  comparisons = [];
}

abbrev update_users : Statement
update_users = record (statement 1 StatementKind.update none) { dml = some update }
