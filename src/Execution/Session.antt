-- ===== src/Execution/Session.antt =====
-- internal/execution/mysql/engine.go: the session settings of the target connection.
use goinception_plus.Prelude.{
  ℕ, suc, Bool, true, ◌&&◌, ◌||◌, Option, none, some, [], ◌∷◌, ◌++◌, if◌then◌else◌, ◌==◌, nat_eq,
  text_eq, leb, not,
}
use goinception_plus.Prelude.Int.{ℤ, pos, negsuc, is_nonneg}
use goinception_plus.Strings.{Text, txt, trim_space}
use goinception_plus.Strings.Format.{sprintf, itoa, quoted}
use goinception_plus.Model.{TargetOptions}
use goinception_plus.Audit.Types.{Error, failure, ok, err}
use goinception_plus.Execution.Rollbacks.{Target}

valid_rune : ℕ → Bool
valid_rune r =
    r == b'_'
    || (leb b'a' r && leb r b'z')
    || (leb b'A' r && leb r b'Z')
    || (leb b'0' r && leb r b'9')

unfoldable pub valid_charset : Text → Bool
unfolding valid_rune
valid_charset [] = true
valid_charset (r ∷ rest) = valid_rune r && valid_charset rest

unfoldable pub decimal : ℤ → Text
decimal (pos n) = itoa n
decimal (negsuc n) = b'-' ∷ itoa (suc n)

module _ (target : Target) where
  open target use {World, exec, exec_with}

  -- The steps of the settings, each after the success of the one before.
  abbrev Step : Type 0
  Step = World → Option Error × World

  abbrev and_then : Step → Step → Step
  and_then a b w =
      let (e, w') = a w in let next = b w' in elim e [ some x ↦ (some x, w') | none ↦ next ]

  abbrev set_if : Bool → Text → Text → Step
  set_if wanted sql value w = let done = exec_with sql value w in if wanted then done else (none, w)

  set_names : Text → Step
  set_names charset w =
      let (result, w') = exec (txt "SET NAMES " ++ charset) w in
      let sent : Option Error × World = elim result [
        | ok rows ↦ (none, w')
        | err e ↦ (some e, w')
      ] in
      if charset == []
      then (none, w)
      else if valid_charset charset
      then sent
      else (some (failure (sprintf "invalid default charset %s" (quoted charset ∷ []))), w)

  unfoldable pub configure_session : TargetOptions → Step
  unfolding set_names
  configure_session o =
      and_then
        (set_if (not (trim_space o.sql_mode == [])) (txt "SET SESSION sql_mode = ?") o.sql_mode)
        (and_then
          (set_if (is_nonneg o.sql_safe_updates) (txt "SET SESSION sql_safe_updates = ?")
            (decimal o.sql_safe_updates))
          (and_then
            (set_if (is_nonneg o.lock_wait_timeout) (txt "SET SESSION lock_wait_timeout = ?")
              (decimal o.lock_wait_timeout))
            (set_names (trim_space o.default_charset))))
