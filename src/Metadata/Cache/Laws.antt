-- ===== src/Metadata/Cache/Laws.antt =====
-- What the cache of internal/metadata/cache.go shows: the target's tables under the changes that the
-- request has recorded.
use goinception_plus.Prelude.{
  Bool, true, none, some, List, [], ◌∷◌, ◌++◌, if◌then◌else◌, ◌==◌, text_eq, ◌≡◌, refl, arith,
  text_beq_iff, beq_refl, inl, inr, Option-cases, ◌≢◌, All, ◌↔◌,
}
use goinception_plus.Strings.Dict.{lookup}
use goinception_plus.Strings.{Text, txt}
use goinception_plus.Audit.Types.{Table, metadata_not_found, Result, ok, err}
use goinception_plus.Metadata.Cache.{
  MetadataProvider, Provider, table_key, normalize, cacheable, table_of, put_table, delete_table,
}

pub lookup-insert {ℓ} :
    {V : Type ℓ} (key k : Text) (v : V) (m : List (Text × V))
    → lookup key ((k, v) ∷ m) ≡ (if k == key then some v else lookup key m)
unfolding lookup
lookup-insert key k v m = refl

-- The rest of a text after its first zero determines it with the part before.
abbrev pub HasNoNul : Text → Type 0
HasNoNul s = All (λ c. c ≢ 0) s

cut_at_nul :
    (s s' t t' : Text)
    → HasNoNul s
    → HasNoNul s'
    → s ++ (0 ∷ t) ≡ s' ++ (0 ∷ t')
    → (s ≡ s') × (t ≡ t')
cut_at_nul [] [] t t' h h' e = (refl, cc)
cut_at_nul [] (c ∷ s') t t' h h' e = absurd (h'.0 (cc))
cut_at_nul (c ∷ s) [] t t' h h' e = absurd (h.0 (cc))
cut_at_nul (c ∷ s) (d ∷ s') t t' h h' e =
    let rest = cut_at_nul s s' t t' h.1 h'.1 (cc) in (cc rest.0, rest.1)

append_cancel : (s t t' : Text) → s ++ t ≡ s ++ t' → t ≡ t'
append_cancel [] t t' e = e
append_cancel (c ∷ s) t t' e = append_cancel s t t' (cc)

-- Two tables share a cache entry exactly if their names agree in the mode of the server, as long
-- as the schema names hold no NUL character.
pub table_key-injective :
    (lower_case : Bool) (s t s' t' : Text)
    → HasNoNul (normalize lower_case s)
    → HasNoNul (normalize lower_case s')
    → (table_key lower_case s t ≡ table_key lower_case s' t') ↔ (
        (normalize lower_case s ≡ normalize lower_case s')
        × (normalize lower_case t ≡ normalize lower_case t'))
unfolding table_key
table_key-injective lower_case s t s' t' h h' = (
  λ e.
      cut_at_nul (normalize lower_case s) (normalize lower_case s') (normalize lower_case t)
        (normalize lower_case t') h h' (append_cancel (txt "table:") _ _ e),
  λ (p, q). rw (p, q) refl,
)

module _ (source : MetadataProvider) where
  open source use {World, load_table}

  pub table_of_hit :
      (s t : Text) (p : Provider source) (entry : Result Table)
      → lookup (table_key p.lower_case s t) p.tables ≡ some entry
      → table_of source s t p ≡ (entry, p)
  unfolding table_of
  table_of_hit s t p entry e = rw (e, table_of) refl

  -- The provider after the target has answered.
  abbrev answered : Text → Text → Provider source → Result Table × World → Provider source
  answered s t p (result, w) =
      if cacheable result
      then record p { world = w; tables = (table_key p.lower_case s t, result) ∷ p.tables }
      else record p { world = w }

  pub table_of_miss :
      (s t : Text) (p : Provider source)
      → lookup (table_key p.lower_case s t) p.tables ≡ none
      → table_of source s t p
        ≡ ((load_table s t p.world).0, answered s t p (load_table s t p.world))
  unfolding table_of
  table_of_miss s t p e = rw (e, table_of) refl

  answered_hit :
      (s t : Text) (p : Provider source) (r : Result Table × World)
      → cacheable r.0 ≡ true
      → table_of source s t (answered s t p r) ≡ (r.0, answered s t p r)
  unfolding lookup
  answered_hit s t p (r, w) c = rw c (
      table_of_hit s t (record p { world = w; tables = (table_key p.lower_case s t, r) ∷ p.tables })
        r (rw (beq_refl (table_key p.lower_case s t)) refl))

  -- A second load returns what the first returned, and does not ask the target again, if the first
  -- returned a table or found none.
  pub table_of_twice :
      (s t : Text) (p : Provider source)
      → cacheable (table_of source s t p).0 ≡ true
      → table_of source s t (table_of source s t p).1 ≡ table_of source s t p
  table_of_twice s t p h = elim (Option-cases (lookup (table_key p.lower_case s t) p.tables)) [
    | inr (entry, e) ↦ rw (table_of_hit s t p entry e) (table_of_hit s t p entry e)
    | inl e ↦
        rw (table_of_miss s t p e)
          (answered_hit s t p (load_table s t p.world) (rw (table_of_miss s t p e) at h))
  ]

-- A target whose tables do not change by themselves while a request is audited.
pub record IsStable (source : MetadataProvider) (content : Text → Text → Result Table)
    : Type 0 where
  pub steady : (s t : Text) (w : source.World) → (source.load_table s t w).0 ≡ content s t

-- Names that share a key of the cache name one table.
abbrev pub AgreesOnKeys : Bool → (Text → Text → Result Table) → Type 0
AgreesOnKeys lower_case content =
    (s t s' t' : Text)
    → table_key lower_case s' t' ≡ table_key lower_case s t
    → content s t ≡ content s' t'

module _ (source : MetadataProvider) (content : Text → Text → Result Table) where
  -- What a load will return.
  unfoldable pub view : Provider source → Text → Text → Result Table
  view p s t = elim (lookup (table_key p.lower_case s t) p.tables) [
    | some entry ↦ entry
    | none ↦ content s t
  ]

  -- On a steady target a load returns the recorded entry of the key, and what the target holds if
  -- there is none.
  pub table_of-view :
      IsStable source content
      → (s t : Text) (p : Provider source) → (table_of source s t p).0 ≡ view p s t
  unfolding view
  table_of-view stable s t p = elim (Option-cases (lookup (table_key p.lower_case s t) p.tables)) [
    | inr (entry, e) ↦ rw (e, table_of_hit source s t p entry e, view) refl
    | inl e ↦ rw (e, table_of_miss source s t p e, view) (stable.steady s t p.world)
  ]

  -- A record of a table shows under its key, and nowhere else.
  pub view-put_table :
      (x : Table) (p : Provider source) (s t : Text)
      → view (put_table source x p) s t ≡ (
          if table_key p.lower_case x.schema x.name == table_key p.lower_case s t
          then ok x
          else view p s t)
  unfolding view put_table lookup
  view-put_table x p s t = ground arith

  pub view-delete_table :
      (a b : Text) (p : Provider source) (s t : Text)
      → view (delete_table source a b p) s t ≡ (
          if table_key p.lower_case a b == table_key p.lower_case s t
          then err metadata_not_found
          else view p s t)
  unfolding view delete_table lookup
  view-delete_table a b p s t = ground arith

  answered-view :
      (s t : Text) (p : Provider source) (r : Result Table × source.World)
      → AgreesOnKeys p.lower_case content
      → r.0 ≡ content s t
      → lookup (table_key p.lower_case s t) p.tables ≡ none
      → (s' t' : Text) → view (answered source s t p r) s' t' ≡ view p s' t'
  unfolding view lookup
  answered-view s t p (r, w) agrees e miss s' t' = ground (
    arith,
    text_beq_iff (table_key p.lower_case s t) (table_key p.lower_case s' t'),
    agrees s t s' t',
    miss,
    e,
  )

  -- On a steady target with one table for the names of one cache key, a load changes nothing of what
  -- the cache shows of any table.
  pub view-table_of :
      IsStable source content
      → (p : Provider source) → AgreesOnKeys p.lower_case content
      → (s t s' t' : Text) → view (table_of source s t p).1 s' t' ≡ view p s' t'
  view-table_of stable p agrees s t s' t' =
      elim (Option-cases (lookup (table_key p.lower_case s t) p.tables)) [
        | inr (entry, e) ↦ rw (table_of_hit source s t p entry e) refl
        | inl e ↦ rw (table_of_miss source s t p e) (
            answered-view s t p (source.load_table s t p.world) agrees (stable.steady s t p.world) e
              s' t')
      ]
