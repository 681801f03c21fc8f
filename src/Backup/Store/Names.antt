-- ===== src/Backup/Store/Names.antt =====
-- internal/backup/mysqlstore/store.go: the names of the backup databases.
use goinception_plus.Prelude.{
  ℕ, suc, zero, ◌-◌, ◌≤◌, List, [], ◌∷◌, map, ◌≡◌, ◌≢◌, inl, inr, arith, All, length, drop, ltb,
  Bool-cases, ltb→lt,
}
use goinception_plus.Strings.{Text}
use goinception_plus.Strings.Format.{sprintf, itoa}
use goinception_plus.Model.{TargetOptions}
use goinception_plus.Backup.Store.{plain_rune, backup_db_name}

length-drop {ℓ} : {A : Type ℓ} (n : ℕ) (l : List A) → length (drop n l) ≡ length l - n
length-drop zero l = omega arith
length-drop (suc n) [] = omega arith
length-drop (suc n) (x ∷ l) = omega (arith, length-drop n l)

All-drop {ℓ κ} : {A : Type ℓ} (P : A → Type κ) (n : ℕ) (l : List A) → All P l → All P (drop n l)
All-drop P zero l all = all
All-drop P (suc n) [] all = tt
All-drop P (suc n) (x ∷ l) (here, all) = All-drop P n l all

-- Neither of the characters that Archery's names replace.
abbrev pub IsPlain : ℕ → Type 0
IsPlain c = (c ≢ b'-') × (c ≢ b'.')

plain_rune-IsPlain : (c : ℕ) → IsPlain (plain_rune c)
unfolding plain_rune
plain_rune-IsPlain c = (ground arith, ground arith)

map-plain_rune-IsPlain : (s : Text) → All IsPlain (map plain_rune s)
map-plain_rune-IsPlain [] = tt
map-plain_rune-IsPlain (c ∷ s) = (plain_rune-IsPlain c, map-plain_rune-IsPlain s)

-- The name of a backup database has at most 64 bytes and neither a dash nor a dot, whatever the bytes of the
-- host and of the schema are.
pub backup_db_name_bounds :
    (source : TargetOptions) (schema : Text)
    → (length (backup_db_name source schema) ≤ 64) × All IsPlain (backup_db_name source schema)
unfolding backup_db_name
backup_db_name_bounds source schema =
    let v = map plain_rune (sprintf "%s_%d_%s" (source.host ∷ itoa source.port ∷ schema ∷ [])) in
    elim (Bool-cases (ltb 64 (length v))) [
      | inl long ↦
          rw (backup_db_name, long)
            (
              omega (arith, length-drop (length v - 64) v, ltb→lt 64 (length v) long),
              All-drop IsPlain (length v - 64) v (
                  map-plain_rune-IsPlain
                    (sprintf "%s_%d_%s" (source.host ∷ itoa source.port ∷ schema ∷ []))),
            )
      | inr short ↦
          rw (backup_db_name, short)
            (
              ground (arith, short),
              map-plain_rune-IsPlain
                  (sprintf "%s_%d_%s" (source.host ∷ itoa source.port ∷ schema ∷ [])),
            )
    ]
