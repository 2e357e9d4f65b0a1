-- ===== src/Config/Lines.antt =====
-- What the lines of a project file say, and that this is what is read from them.
use ruflo_rust.Prelude.{
  ℕ, String, ◌≡◌, refl, ◌∙◌, sym, ap, inl, inr, true, false, ◌&&◌, ◌||◌, Option, none, some, List,
  [], ◌∷◌, map, trim, between, split_once, Result, ok, bind-ok, arith, string_eq, eq_iff, nat_eq,
  ◌==◌, if◌then◌else◌, Bool-cases, Option-cases, any, contains, Bool,
}
use ruflo_rust.Types.{RufloError}
use ruflo_rust.Config.{Overlay, parse_number}
use ruflo_rust.Config.File.{
  policy_of, limits_of, parse_array, read_setting, is_skipped, is_header, parse_lines, parse_file,
}
use ruflo_rust.Config.Said.{line_of, given, is_malformed, sets, is_some, list_keys, limit_keys}

-- What is read from a value that may not be given.
abbrev pub Reads : {X : Type 0} → (String → Result X RufloError) → X → Option String → X → Type 0
Reads read default none x = x ≡ default
Reads read default (some value) x = read value ≡ ok x

beq_sym : (a b : String) → (a == b) ≡ (b == a)
beq_sym a b = ground (arith, eq_iff a b, eq_iff b a)

other_key : (key a b : String) → (a == b) ≡ false → (key == a) ≡ true → (key == b) ≡ false
other_key key a b ne e = ground (arith, eq_iff key a, eq_iff key b, eq_iff a b)

module _ (parse : String → Result ℕ String) where
  -- One setting, as a member of the settings sees it.
  abbrev Sees :
      {X : Type 0} → (String → Result X RufloError) → String → String → (Overlay → X) → Type 0
  Sees read section key of =
      (s k value : String) (file g : Overlay)
      → read_setting parse s k value file ≡ ok g
      → ((s == section && k == key) ≡ true → read value ≡ ok (of g))
        × ((s == section && k == key) ≡ false → of g ≡ of file)

  member_allow : Sees parse_array "policy" "allow" (λ o. (policy_of o).allow)
  unfolding read_setting
  member_allow s k value file g h = (λ e. ground (arith, e, h), λ e. ground (arith, e, h))

  member_deny : Sees parse_array "policy" "deny" (λ o. (policy_of o).deny)
  unfolding read_setting
  member_deny s k value file g h =
      let other = other_key k "deny" "allow" refl in
      (λ e. ground (arith, e, h, other), λ e. ground (arith, e, h))

  member_bytes :
      Sees
        (parse_number parse "max_request_bytes")
        "limits"
        "max_request_bytes"
        (λ o. (limits_of o).max_request_bytes)
  unfolding read_setting
  member_bytes s k value file g h =
      let section = other_key s "limits" "policy" refl in
      (λ e. ground (arith, e, h, section), λ e. ground (arith, e, h))

  member_running :
      Sees
        (parse_number parse "max_concurrent_executions")
        "limits"
        "max_concurrent_executions"
        (λ o. (limits_of o).max_concurrent_executions)
  unfolding read_setting
  member_running s k value file g h =
      let section = other_key s "limits" "policy" refl in
      let bytes = other_key k "max_concurrent_executions" "max_request_bytes" refl in
      (λ e. ground (arith, e, h, section, bytes), λ e. ground (arith, e, h))

  member_duration :
      Sees
        (parse_number parse "max_duration_ms")
        "limits"
        "max_duration_ms"
        (λ o. (limits_of o).max_duration_ms)
  unfolding read_setting
  member_duration s k value file g h =
      let section = other_key s "limits" "policy" refl in
      let bytes = other_key k "max_duration_ms" "max_request_bytes" refl in
      let running = other_key k "max_duration_ms" "max_concurrent_executions" refl in
      (λ e. ground (arith, e, h, section, bytes, running), λ e. ground (arith, e, h))

  module _ {X : Type 0} (read : String → Result X RufloError) (section key : String)
      (of : Overlay → X) (sees : Sees read section key of) where
    setting_first :
        (s k value : String) (file g f : Overlay) (later : Option String)
        → read_setting parse s k value file ≡ ok g
        → Reads read (of g) later (of f)
        → Reads read
            (of file)
            (elim later [
              | some w ↦ some w
              | none ↦ if s == section && k == key then some value else none
            ])
            (of f)
    setting_first s k value file g f (some w) h r = r
    setting_first s k value file g f none h r = elim (Bool-cases (s == section && k == key)) [
      | inl e ↦ rw e ((sees s k value file g h).0 e ∙ ap ok (sym r))
      | inr e ↦ rw e (r ∙ (sees s k value file g h).1 e)
    ]

    parse_lines-Reads :
        (current : String) (file : Overlay) (lines : List String) (f : Overlay)
        → parse_lines parse current file lines ≡ ok f
        → Reads read (of file) (given section key current (map line_of lines)) (of f)
    unfolding parse_lines
    parse_lines-Reads current file [] f h = ap of (ground arith)
    parse_lines-Reads current file (raw ∷ lines) f h = elim (Bool-cases (is_skipped parse raw)) [
      | inl skip ↦ rw skip (parse_lines-Reads current file lines f (ground (arith, skip, h)))
      | inr said ↦ elim (Bool-cases (is_header parse (trim raw))) [
        | inl head ↦
            rw (said, head)
              (parse_lines-Reads (between (trim raw)) file lines f (ground (arith, said, head, h)))
        | inr plain ↦ elim (Option-cases (split_once 61 (trim raw))) [
          | inl e ↦ absurd (ground (arith, said, plain, e, h))
          | inr ((k, v), e) ↦
              let (g, made, rest) =
                bind-ok (read_setting parse current (trim k) (trim v) file)
                  (λ g. parse_lines parse current g lines) (ground (arith, said, plain, e, h)) in
              rw (said, plain, e)
                (setting_first current (trim k) (trim v) file g f
                  (given section key current (map line_of lines)) made
                  (parse_lines-Reads current g lines f rest))
        ]
      ]
    ]

  -- A setting makes its group present.
  abbrev Shows : String → List String → (Overlay → Bool) → Type 0
  Shows section keys present =
      (s k value : String) (file g : Overlay)
      → read_setting parse s k value file ≡ ok g
      → present g ≡ (present file || (s == section && contains k keys))

  group_lists : Shows "policy" list_keys (λ o. is_some o.policy)
  unfolding read_setting
  group_lists s k value file g h = ground (arith, h, beq_sym k "allow", beq_sym k "deny")

  group_limits : Shows "limits" limit_keys (λ o. is_some o.limits)
  unfolding read_setting
  group_limits s k value file g h =
      let section = other_key s "policy" "limits" refl in
      ground (
        arith,
        h,
        section,
        beq_sym k "max_request_bytes",
        beq_sym k "max_concurrent_executions",
        beq_sym k "max_duration_ms",
      )

  module _ (section : String) (keys : List String) (present : Overlay → Bool)
      (shows : Shows section keys present) where
    parse_lines-present :
        (current : String) (file : Overlay) (lines : List String) (f : Overlay)
        → parse_lines parse current file lines ≡ ok f
        → (any is_malformed (map line_of lines) ≡ false)
          × (present f ≡ (present file || sets section keys current (map line_of lines)))
    unfolding parse_lines
    parse_lines-present current file [] f h =
        let same : file ≡ f = ground arith in (refl, rw same (ground arith))
    parse_lines-present current file (raw ∷ lines) f h = elim (Bool-cases (is_skipped parse raw)) [
      | inl skip ↦ rw skip (parse_lines-present current file lines f (ground (arith, skip, h)))
      | inr said ↦ elim (Bool-cases (is_header parse (trim raw))) [
        | inl head ↦
            rw (said, head)
              (parse_lines-present (between (trim raw)) file lines f
                (ground (arith, said, head, h)))
        | inr plain ↦ elim (Option-cases (split_once 61 (trim raw))) [
          | inl e ↦ absurd (ground (arith, said, plain, e, h))
          | inr ((k, v), e) ↦
              let (g, made, rest) =
                bind-ok (read_setting parse current (trim k) (trim v) file)
                  (λ g. parse_lines parse current g lines) (ground (arith, said, plain, e, h)) in
              let (well, later) = parse_lines-present current g lines f rest in
              let first = shows current (trim k) (trim v) file g made in
              rw (said, plain, e) (well, ground (arith, later, first))
        ]
      ]
    ]

  -- Where a project file is read without an error, every line is blank, a comment, a section or a
  -- setting; each setting is what its last line in its section says, and the empty list or the
  -- default limit where no line sets it; and each of the two groups, the lists and the limits, is
  -- there exactly when a line sets one of its members.
  pub parse_file_lem :
      (lines : List String) (f : Overlay)
      → parse_file parse lines ≡ ok f
      → let last : String → String → Option String =
          λ section key. given section key "" (map line_of lines) in
        (any is_malformed (map line_of lines) ≡ false)
        × (is_some f.policy ≡ sets "policy" list_keys "" (map line_of lines))
        × (is_some f.limits ≡ sets "limits" limit_keys "" (map line_of lines))
        × Reads parse_array [] (last "policy" "allow") (policy_of f).allow
        × Reads parse_array [] (last "policy" "deny") (policy_of f).deny
        × Reads
            (parse_number parse "max_request_bytes")
            65536
            (last "limits" "max_request_bytes")
            (limits_of f).max_request_bytes
        × Reads
            (parse_number parse "max_concurrent_executions")
            4
            (last "limits" "max_concurrent_executions")
            (limits_of f).max_concurrent_executions
        × Reads
            (parse_number parse "max_duration_ms")
            30000
            (last "limits" "max_duration_ms")
            (limits_of f).max_duration_ms
  unfolding parse_file
  parse_file_lem lines f h =
      let start : Overlay = record { policy = none; limits = none } in
      let lists =
        parse_lines-present "policy" list_keys (λ o. is_some o.policy) group_lists "" start lines f
          h in
      let limits =
        parse_lines-present "limits" limit_keys (λ o. is_some o.limits) group_limits "" start lines
          f h in
      (
        lists.0,
        lists.1,
        limits.1,
        parse_lines-Reads parse_array "policy" "allow" (λ o. (policy_of o).allow) member_allow ""
            start lines f h,
        parse_lines-Reads parse_array "policy" "deny" (λ o. (policy_of o).deny) member_deny "" start
            lines f h,
        parse_lines-Reads (parse_number parse "max_request_bytes") "limits" "max_request_bytes"
            (λ o. (limits_of o).max_request_bytes) member_bytes "" start lines f h,
        parse_lines-Reads (parse_number parse "max_concurrent_executions") "limits"
            "max_concurrent_executions" (λ o. (limits_of o).max_concurrent_executions)
            member_running "" start lines f h,
        parse_lines-Reads (parse_number parse "max_duration_ms") "limits" "max_duration_ms"
            (λ o. (limits_of o).max_duration_ms) member_duration "" start lines f h,
      )
