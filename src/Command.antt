-- ===== src/Command.antt =====
-- cmd/validate-orders/main.go: the command that validates a file of orders, or its standard input.
-- os.Open and filepath.Ext with strings.ToLower are arguments; the flags are read by the package
-- flag.
mod Tests
use wb_tasks_l.Prelude.{
  ℕ, ◌+◌, String, ◌≡◌, refl, ap, sym, ◌∙◌, ◌↔◌, Bool, true, false, List, [], ◌∷◌, ◌++◌, Option,
  none, some, inl, inr, arith, length, ◌==◌, if◌then◌else◌,
}
use wb_tasks_l.Errors.{Error, Result, ok, err, Result-cases}
use wb_tasks_l.Domain.{Order}
use wb_tasks_l.Ports.{OrderValidator, JsonDecoder}
use wb_tasks_l.Jsonl.{
  Writer, InputFormat, format_auto, format_json, format_jsonl, unsupported, File, Summary, counts,
  validate_order_from_json, write_order, max_line, wrapped, validate_jsonl_stream,
  validate_json_file, validate_jsonl_file, validate_format, validate_file, resolve_format,
}
use wb_tasks_l.Jsonl.Stream.{buffer, accepted, filled, print_lines, validate_jsonl_stream-accepted}

-- The text of -format, as a format.
abbrev pub input_format : String → InputFormat
input_format text =
    if text == "auto"
    then format_auto
    else if text == "json"
    then format_json
    else if text == "jsonl"
    then format_jsonl
    else unsupported text

-- How the command ends: what is on the standard output, the exit status, and what the message on
-- the standard error says.
pub record Exit (W : Type 0) : Type 0 where
  pub stdout : W
  pub status : ℕ
  pub summary : Summary
  pub failed : Option Error

abbrev pub exit : {W : Type 0} → W × Summary × Option Error → Exit W
exit (w, summary, none) = record { stdout = w; status = 0; summary = summary; failed = none }
exit (w, summary, some e) = record { stdout = w; status = 1; summary = summary; failed = some e }

-- Standard input is taken for a stream of lines.
abbrev pub stdin_format : InputFormat → InputFormat
stdin_format format_auto = format_jsonl
stdin_format format = format

module _ (validator : OrderValidator) (json : JsonDecoder) (marshal : Order → List ℕ)
    (is_blank : List ℕ → Bool) {W : Type 0} (writer : Writer W) (open_file : String → Result File)
    (lower_ext : String → String) where
  unfoldable pub validate_orders : String → String → W → Exit W
  unfolding validate_file
  validate_orders input_path format w =
      if input_path == ""
      then exit (
          validate_file validator json marshal is_blank writer (stdin_format (input_format format))
            (lower_ext "/dev/stdin") (open_file "/dev/stdin") w)
      else exit (
          validate_file validator json marshal is_blank writer (input_format format)
            (lower_ext input_path) (open_file input_path) w)

module _ (validator : OrderValidator) (json : JsonDecoder) (marshal : Order → List ℕ)
    (is_blank : List ℕ → Bool) (open_file : String → Result File)
    (lower_ext : String → String) where
  -- The exit status of a run over a JSON file that can be read and whose output can be written is 0
  -- exactly when the file holds one order that is accepted.
  pub validate_orders_json :
      (path : String) (file : File) (raw w : List ℕ)
      → (path == "") ≡ false
      → open_file path ≡ ok file
      → file.content ≡ ok raw
      → ((validate_orders validator json marshal is_blank buffer open_file lower_ext path "json"
            w).status
          ≡ 0)
        ↔ ((o : Order) × (validate_order_from_json validator json raw ≡ ok o))
  unfolding validate_orders write_order
  validate_orders_json path file raw w named opened read =
      elim (Result-cases (validate_order_from_json validator json raw)) [
        | inl (o, p) ↦
            rw
              (
                validate_orders, named, opened, validate_file, validate_format, read,
                validate_json_file, p,
              )
              ((λ q. (o, refl)), (λ q. refl))
        | inr (e, p) ↦
            rw
              (
                validate_orders, named, opened, validate_file, validate_format, read,
                validate_json_file, p,
              )
              ((λ q. cc), (λ q. cc))
      ]

  stdin_lines :
      (input : File) (w : List ℕ)
      → open_file "/dev/stdin" ≡ ok input
      → validate_orders validator json marshal is_blank buffer open_file lower_ext "" "auto" w
        ≡ exit (validate_jsonl_file validator json marshal is_blank buffer input.scanner w)
  unfolding validate_orders validate_file validate_format resolve_format
  stdin_lines input w opened =
      ap
        (λ opening. exit (
          validate_file validator json marshal is_blank buffer format_jsonl (lower_ext "/dev/stdin")
            opening w))
        opened

  -- With no file and no format, the command reads lines from its standard input. It prints the
  -- orders that are accepted, in their order, and reports how many lines were accepted and how many
  -- were not; its exit status is 0 whatever lines there are, if they can be read and the orders
  -- written.
  pub validate_orders-stdin :
      (input : File) (w : List ℕ)
      → open_file "/dev/stdin" ≡ ok input
      → (input.scanner max_line).1 ≡ none
      → (let r =
            validate_orders validator json marshal is_blank buffer open_file lower_ext "" "auto"
              w in
          let orders = accepted validator json is_blank (input.scanner max_line).0 in
          (r.status ≡ 0)
          × (r.stdout ≡ w ++ print_lines marshal orders)
          × ((invalid : ℕ) × (r.summary ≡ counts (length orders) invalid)
              × (length orders + invalid
                  ≡ filled validator json is_blank (input.scanner max_line).0)))
  unfolding validate_jsonl_file
  validate_orders-stdin input w opened scanned =
      let (printed, valid, total, done) =
        validate_jsonl_stream-accepted validator json marshal is_blank input.scanner w in
      let fine = done ∙ ap (wrapped "scan") scanned in
      let invalid =
        (validate_jsonl_stream validator json marshal is_blank buffer input.scanner
          w).0.0.invalid_lines_count in
      rw (stdin_lines input w opened, validate_jsonl_file, fine)
        (refl, printed, (invalid, ap (λ n. counts n invalid) valid, omega (arith, valid, total)))
