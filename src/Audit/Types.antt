-- ===== src/Audit/Types.antt =====
-- internal/audit/audit.go: the metadata of servers, schemas and tables, and errors as values.
use goinception_plus.Prelude.{ℕ, Bool, true, false, List, Option, ◌++◌, ◌≡◌, refl, ◌⊎◌, inl, inr}
use goinception_plus.Strings.{Text, txt}

pub record ServerInfo : Type 0 where
  pub version : Text
  pub sql_mode : Text
  pub lower_case_table_names : ℕ
  pub character_set_server : Text
  pub collation_server : Text
  pub explicit_defaults_for_timestamp : Bool

pub record Schema : Type 0 where
  pub name : Text
  pub character_set : Text
  pub collation : Text

pub record Column : Type 0 where
  pub name : Text
  pub column_type : Text
  pub nullable : Bool
  pub default : Option Text
  pub extra : Text
  pub character_set : Text
  pub collation : Text
  pub comment : Text
  pub generation_expression : Text
  pub auto_increment : Bool
  pub unsigned : Bool

pub record Index : Type 0 where
  pub name : Text
  pub columns : List Text
  pub unique : Bool
  pub primary : Bool
  pub prefix_lengths : List ℕ
  pub expressions : List Text
  pub directions : List Text
  pub index_type : Text
  pub visible : Bool

pub record Table : Type 0 where
  pub schema : Text
  pub name : Text
  pub create_sql : Text
  pub columns : List Column
  pub indexes : List Index
  pub is_view : Bool
  pub character_set : Text
  pub collation : Text
  pub engine : Text
  pub table_type : Text
  pub comment : Text
  pub rows : ℕ

-- A Go error: `ErrMetadataNotFound`, any other error by its text, or one wrapped by `%w` behind a
-- text.
pub data Error : Type 0 where
  metadata_not_found : Error
  failure : Text → Error
  wrap : Text → Error → Error

-- `errors.Is(err, ErrMetadataNotFound)`
abbrev pub is_not_found : Error → Bool
is_not_found metadata_not_found = true
is_not_found (failure text) = false
is_not_found (wrap text e) = is_not_found e

-- `err.Error()`
unfoldable pub error_text : Error → Text
error_text metadata_not_found = txt "metadata object not found"
error_text (failure text) = text
error_text (wrap text e) = text ++ error_text e

-- What a fallible operation returns.
pub data Result {ℓ} (A : Type ℓ) : Type ℓ where
  ok : A → Result A
  err : Error → Result A

infixl 5 ◌>>=◌
abbrev pub ◌>>=◌ {ℓ κ} : {A : Type ℓ} {B : Type κ} → Result A → (A → Result B) → Result B
ok a >>= f = f a
err e >>= f = err e

pub Result-cases {ℓ} :
    {V : Type ℓ} (result : Result V)
    → ((value : V) × (result ≡ ok value)) ⊎ ((x : Error) × (result ≡ err x))
Result-cases (ok value) = inl (value, refl)
Result-cases (err x) = inr (x, refl)

-- A chain that succeeds has a first call that does.
pub bind_ok {ℓ κ} :
    {A : Type ℓ} {B : Type κ} (r : Result A) (f : A → Result B) (b : B)
    → (r >>= f) ≡ ok b
    → (a : A) × (r ≡ ok a) × (f a ≡ ok b)
bind_ok (ok a) f b h = (a, refl, h)
bind_ok (err e) f b h = absurd (cc h)
