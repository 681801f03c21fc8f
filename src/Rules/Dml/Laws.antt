-- ===== src/Rules/Dml/Laws.antt =====
-- The DML checks of internal/audit/rules/dml.go against the keys of the tables in view.
use goinception_plus.Prelude.{true, ◌≡◌, text_eq}
use goinception_plus.Model.{TableRef, Statement}
use goinception_plus.Audit.Types.{Table, ok}
use goinception_plus.Audit.Engine.{Context}
use goinception_plus.Metadata.Cache.{MetadataProvider}
use goinception_plus.Metadata.Snapshot.Laws.Spec.{Tables}
use goinception_plus.Rules.ReliableKey.{has_reliable_key}
use goinception_plus.Rules.Dml.{is_change}

-- The table is in view and has a reliable key.
abbrev pub IsRestorable : Tables → TableRef → Type 0
IsRestorable V r = (t : Table) × (V r.schema r.name ≡ ok t) × (has_reliable_key t ≡ true)

-- The settings under which the checks ask for a key.
pub record AsksForKeys (source : MetadataProvider) (a : Context source) (s : Statement)
    : Type 0 where
  pub backup : a.request.backup ≡ true
  pub policy : a.policy.require_backup_key ≡ true
  pub change : is_change s ≡ true
