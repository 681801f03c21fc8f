-- ===== src/Request/Envelope/Bounds.antt =====
-- internal/request/legacy.go: what holds of every request that `ParseLegacyEnvelope` accepts.
use goinception_plus.Prelude.{
  ℕ, ◌≤◌, ◌<◌, ◌^◌, ◌↔◌, Bool, true, false, not, ◌||◌, ◌&&◌, List, [], ◌∷◌, ◌++◌, ◌≡◌, refl, ap,
  subst, sym, ◌∙◌, inl, inr, arith, All, Bool-cases, Option-cases, length, any, is_empty, ltb, leb,
  if◌then◌else◌, ◌==◌, nat_eq,
}
use goinception_plus.Strings.{Text, txt, trim_space, join}
use goinception_plus.Model.{RequestOptions}
use goinception_plus.Audit.Types.{ok, Result-cases}
use goinception_plus.Request.Encoding.{normalize_console_encoding}
use goinception_plus.Strings.Utf8.{decode}
use goinception_plus.Request.Split.{split_sql}
use goinception_plus.Request.Directives.{
  value_of, digits, parse_port, parse_non_negative_int, atoi_nonneg, parse_directives,
}
use goinception_plus.Request.Envelope.{
  LegacyEnvelope, byte_length, demand, is_marker, is_long, max_statements, max_request_bytes,
  check_body, check_parts, split_last, is_trace_rune, check_trace, trace_id, parse_options,
  parse_legacy_envelope,
}

ok_value {ℓ} : {A : Type ℓ} {a b : A} → ok a ≡ ok b → a ≡ b
ok_value e = cc e

demand_ok : (test : Bool) (message : Text) (u : Unit) → demand test message ≡ ok u → test ≡ true
demand_ok true message u h = refl
demand_ok false message u h = absurd (cc h)

abbrev pub IsPort : ℕ → Type 0
IsPort n = (1 ≤ n) × (n < 2 ^ 16)

parse_port-IsPort : (v : Text) (n : ℕ) → parse_port v ≡ ok n → IsPort n
unfolding parse_port
parse_port-IsPort v n h = elim (Bool-cases (is_empty v)) [
  | inl e ↦ let d : 3306 ≡ n = ok_value (rw (parse_port, e) at h) in omega arith
  | inr e ↦ elim (Option-cases (digits v)) [
    | inl none_read ↦ absurd (cc (rw (parse_port, e, none_read) at h))
    | inr (p, read) ↦ elim (Bool-cases (leb (2 ^ 16) p || p == 0)) [
      | inl bad ↦ absurd (cc (rw (parse_port, e, read, bad) at h))
      | inr good ↦
          let d : p ≡ n = ok_value (rw (parse_port, e, read, good) at h) in ground (arith, d, good)
    ]
  ]
]

parse_non_negative_int_bounds :
    (v key : Text) (max n : ℕ) → parse_non_negative_int v key max ≡ ok n → n ≤ max
unfolding parse_non_negative_int
parse_non_negative_int_bounds v key max n h = elim (Bool-cases (is_empty v)) [
  | inl e ↦ let d : 0 ≡ n = ok_value (rw (parse_non_negative_int, e) at h) in omega arith
  | inr e ↦ elim (Option-cases (atoi_nonneg v)) [
    | inl none_read ↦ absurd (cc (rw (parse_non_negative_int, e, none_read) at h))
    | inr (p, read) ↦ elim (Bool-cases (ltb p (2 ^ 63) && leb p max)) [
      | inl good ↦
          let d : p ≡ n = ok_value (rw (parse_non_negative_int, e, read, good) at h) in
          ground (arith, d, good)
      | inr bad ↦ absurd (cc (rw (parse_non_negative_int, e, read, bad) at h))
    ]
  ]
]

-- The statements of a request within the limits.
pub record IsBatch (body : List Text) : Type 0 where
  pub count : length body ≤ max_statements
  pub sizes : any is_long body ≡ false
  pub unmarked : any is_marker body ≡ false

module _ (is_letter is_digit : ℕ → Bool) where
  -- The characters of a trace id.
  abbrev pub IsTraceRune : ℕ → Type 0
  IsTraceRune r = is_trace_rune is_letter is_digit r ≡ true

  check_trace-IsTraceRune :
      (s : Text) (u : Unit) → check_trace is_letter is_digit s ≡ ok u → All IsTraceRune s
  unfolding check_trace
  check_trace-IsTraceRune [] u h = tt
  check_trace-IsTraceRune (r ∷ rest) u h = elim (Bool-cases (is_trace_rune is_letter is_digit r)) [
    | inl e ↦ (e, check_trace-IsTraceRune rest u (rw (check_trace, e) at h))
    | inr e ↦ absurd (cc (rw (check_trace, e) at h))
  ]

  trace_id_bounds :
      (values : List (Text × Text)) (trace : Text)
      → trace_id is_letter is_digit values ≡ ok trace
      → (byte_length trace ≤ 128) × All IsTraceRune trace
  unfolding trace_id
  trace_id_bounds values trace h =
      let under = value_of values (txt "trace_id") in
      let t = if is_empty under then value_of values (txt "trace-id") else under in
      elim (Bool-cases (ltb 128 (byte_length t))) [
        | inl long ↦ absurd (cc (rw (trace_id, long) at h))
        | inr short ↦ elim (Result-cases (check_trace is_letter is_digit t)) [
          | inr (x, e) ↦ absurd (cc (rw (trace_id, short, e) at h))
          | inl (u, e) ↦
              let d : t ≡ trace = ok_value (rw (trace_id, short, e) at h) in
              subst (λ s. (byte_length s ≤ 128) × All IsTraceRune s) d
                (ground (arith, short), check_trace-IsTraceRune t u e)
        ]
      ]

  -- What an accepted request is like.
  pub record IsAccepted (o : RequestOptions) : Type 0 where
    pub port : IsPort o.target.port
    pub host : is_empty (trim_space o.target.host) ≡ false
    pub user : is_empty (trim_space o.target.user) ≡ false
    pub backs_up : (o.backup && not o.execute) ≡ false
    pub pause : o.sleep_millis ≤ 100000
    pub pace : (o.sleep_rows ≡ 0) ↔ (o.sleep_millis ≡ 0)
    pub trace : (byte_length o.trace_id ≤ 128) × All IsTraceRune o.trace_id

  parse_options-IsAccepted :
      (values : List (Text × Text)) (o : RequestOptions)
      → parse_options is_letter is_digit values ≡ ok o
      → IsAccepted o
  unfolding parse_options
  parse_options-IsAccepted values o h =
      grind (arith, parse_port-IsPort, parse_non_negative_int_bounds, demand_ok, trace_id_bounds)

  check_body-IsBatch :
      (first last : Text) (body kept : List Text) (directives : Text)
      → check_body first body last ≡ ok (directives, kept)
      → (kept ≡ body) × IsBatch body
  unfolding check_body
  check_body-IsBatch first last body kept directives h = grind (arith, demand_ok)

  split_last-append :
      (x : Text) (l : List Text) → x ∷ l ≡ (split_last x l).0 ++ ((split_last x l).1 ∷ [])
  unfolding split_last
  split_last-append x [] = refl
  split_last-append x (y ∷ rest) = ap (λ l. x ∷ l) (split_last-append y rest)

  check_parts-IsBatch :
      (parts : List Text) (checked : Text × List Text)
      → check_parts parts ≡ ok checked
      → (first : Text) × (last : Text) × (parts ≡ first ∷ (checked.1 ++ (last ∷ [])))
        × IsBatch checked.1
  unfolding check_parts
  check_parts-IsBatch [] checked h = absurd (cc h)
  check_parts-IsBatch (a ∷ []) checked h = absurd (cc h)
  check_parts-IsBatch (a ∷ b ∷ []) checked h = absurd (cc h)
  check_parts-IsBatch (first ∷ second ∷ third ∷ rest) checked h =
      let front = split_last second (third ∷ rest) in
      let (e, batch) = check_body-IsBatch first front.1 front.0 checked.1 checked.0 h in
      (
        first,
        front.1,
        ap (λ l. first ∷ l)
            (split_last-append second (third ∷ rest) ∙ ap (λ l. l ++ (front.1 ∷ [])) (sym e)),
        subst IsBatch (sym e) batch,
      )

  -- The steps of an accepted request.
  record IsParsed (bytes : List ℕ) (e : LegacyEnvelope) : Type 0 where
    pub parts : List Text
    pub checked : Text × List Text
    pub values : List (Text × Text)
    pub split : split_sql (decode (normalize_console_encoding bytes)) ≡ ok parts
    pub kept : check_parts parts ≡ ok checked
    pub options : parse_options is_letter is_digit values ≡ ok e.options
    pub joined : e.sql ≡ join checked.1 (txt ";\n") ++ txt ";"

  parse_legacy_envelope-IsParsed :
      (bytes : List ℕ) (e : LegacyEnvelope)
      → parse_legacy_envelope is_letter is_digit bytes ≡ ok e
      → IsParsed bytes e
  unfolding parse_legacy_envelope
  parse_legacy_envelope-IsParsed bytes e h =
      let input = normalize_console_encoding bytes in
      elim (Bool-cases (ltb max_request_bytes (length input))) [
        | inl long ↦ absurd (cc (rw (parse_legacy_envelope, long) at h))
        | inr short ↦ elim (Result-cases (split_sql (decode input))) [
          | inr (x, e1) ↦ absurd (cc (rw (parse_legacy_envelope, short, e1) at h))
          | inl (parts, e1) ↦ elim (Result-cases (check_parts parts)) [
            | inr (x, e2) ↦ absurd (cc (rw (parse_legacy_envelope, short, e1, e2) at h))
            | inl (checked, e2) ↦ elim (Result-cases (parse_directives checked.0)) [
              | inr (x, e3) ↦ absurd (cc (rw (parse_legacy_envelope, short, e1, e2, e3) at h))
              | inl (values, e3) ↦ elim (Result-cases (parse_options is_letter is_digit values)) [
                | inr (x, e4) ↦ absurd (cc (rw (parse_legacy_envelope, short, e1, e2, e3, e4) at h))
                | inl (options, e4) ↦
                    let d = ok_value (rw (parse_legacy_envelope, short, e1, e2, e3, e4) at h) in
                    record {
                      parts = parts;
                      checked = checked;
                      values = values;
                      split = e1;
                      kept = e2;
                      options = e4 ∙ ap (λ (v : LegacyEnvelope). ok v.options) d;
                      joined = sym (ap (λ (v : LegacyEnvelope). v.sql) d);
                    }
              ]
            ]
          ]
        ]
      ]

  -- An accepted request has a port from 1 to 65535, a host and a user that are not blank, execution if it has
  -- backup, a pause of at most 100000 ms with a pace exactly if it pauses, and a trace id of at most
  -- 128 bytes whose characters are all allowed.
  pub parse_legacy_envelope-IsAccepted :
      (bytes : List ℕ) (e : LegacyEnvelope)
      → parse_legacy_envelope is_letter is_digit bytes ≡ ok e
      → IsAccepted e.options
  parse_legacy_envelope-IsAccepted bytes e h =
      let p = parse_legacy_envelope-IsParsed bytes e h in
      parse_options-IsAccepted p.values e.options p.options

  -- The SQL of an accepted request is the parts of its input between the first and the last, at most 10000 of at
  -- most 2^20 bytes each and no marker among them, each with its semicolon again.
  pub parse_legacy_envelope-IsBatch :
      (bytes : List ℕ) (e : LegacyEnvelope)
      → parse_legacy_envelope is_letter is_digit bytes ≡ ok e
      → (first : Text) × (body : List Text) × (last : Text) × (split_sql
            (decode (normalize_console_encoding bytes))
          ≡ ok (first ∷ (body ++ (last ∷ []))))
        × IsBatch body
        × (e.sql ≡ join body (txt ";\n") ++ txt ";")
  parse_legacy_envelope-IsBatch bytes e h =
      let p = parse_legacy_envelope-IsParsed bytes e h in
      let (first, last, ends, batch) = check_parts-IsBatch p.parts p.checked p.kept in
      (first, p.checked.1, last, p.split ∙ ap ok ends, batch, p.joined)
