-- ===== src/Jsonl.antt =====
-- pkg/validate/validate_from_json.go, validate_from_jsonl.go and validate_file.go: the validation
-- of orders in JSON and of streams of them, one to a line. The decoder, json.Marshal, the test for
-- a blank line, the scanner and the writer are arguments.
pub mod Stream
pub mod Canonical
mod Tests
use wb_tasks_l.Prelude.{
  String, ℕ, ◌+◌, Bool, List, [], ◌∷◌, Option, none, some, ◌==◌, if◌then◌else◌,
}
use wb_tasks_l.Errors.{Error, Message, plain, new, wrap, Result, ok, err, ◌>>=◌, ◌>>◌}
use wb_tasks_l.Domain.{Order}
use wb_tasks_l.Ports.{OrderValidator, JsonDecoder}
use wb_tasks_l.Service.{parse_message}

-- io.Writer: the new state of the writer, and the error.
pub record Writer (W : Type 0) : Type 0 where
  pub write : List ℕ → W → W × Option Error

pub record JsonlResult : Type 0 where
  pub valid_lines_count : ℕ
  pub invalid_lines_count : ℕ

pub data InputFormat : Type 0 where
  format_auto format_json format_jsonl : InputFormat
  unsupported : String → InputFormat

-- bufio.Scanner over a reader: for the limit that Buffer gets, the lines that it yields, and its
-- error at the end.
abbrev pub Scanner : Type 0
Scanner = ℕ → List (List ℕ) × Option Error

-- 10*1024*1024
abbrev pub max_line : ℕ
max_line = 10485760

-- A file that was opened: what io.ReadAll gives, and what a scanner gives.
pub record File : Type 0 where
  pub content : Result (List ℕ)
  pub scanner : Scanner

-- "%d valid / %d invalid", or "".
pub data Summary : Type 0 where
  blank : Summary
  counts : (valid invalid : ℕ) → Summary

-- The decoding is the same as in SaveFromMessage.
unfoldable pub validate_order_from_json : OrderValidator → JsonDecoder → List ℕ → Result Order
validate_order_from_json validator json raw = do
  o ← parse_message json raw
  validator.validate (some o)
  ok o

-- `if err != nil { return fmt.Errorf("…: %w", err) }`
abbrev pub wrapped : String → Option Error → Option Error
wrapped reason none = none
wrapped reason (some e) = some (wrap (plain reason) e)

-- By the format, or by the extension of the path (with its dot, in lower case).
unfoldable pub resolve_format : InputFormat → String → InputFormat
resolve_format format_auto ext = if ext == ".jsonl" then format_jsonl else format_json
resolve_format format ext = format

module _ (validator : OrderValidator) (json : JsonDecoder) (marshal : Order → List ℕ)
    (is_blank : List ℕ → Bool) {W : Type 0} (writer : Writer W) where
  -- The two writes of a valid order, with the texts of their errors.
  unfoldable pub write_order : String → Order → W → W × Option Error
  write_order reason o w =
      let (w', failed) = writer.write (marshal o) w in
      (elim failed [
        | some e ↦ (w', some (wrap (plain reason) e))
        | none ↦
            let (w'', failed') = writer.write (10 ∷ []) w' in (w'', wrapped "write newline" failed')
      ])

  -- The body of the loop at a line that holds an order, or does not.
  unfoldable pub count_line : Result Order → JsonlResult → W → (JsonlResult × W) × Option Error
  unfolding write_order
  count_line (err e) res w =
      ((record res { invalid_lines_count = res.invalid_lines_count + 1 }, w), none)
  count_line (ok o) res w =
      let (w', failed) = write_order "write valid line" o w in
      (elim failed [
        | some e ↦ ((res, w'), some e)
        | none ↦ ((record res { valid_lines_count = res.valid_lines_count + 1 }, w'), none)
      ])

  unfoldable pub scan_line : List ℕ → JsonlResult → W → (JsonlResult × W) × Option Error
  unfolding count_line validate_order_from_json
  scan_line line res w =
      if is_blank line
      then ((res, w), none)
      else count_line (validate_order_from_json validator json line) res w

  unfoldable pub scan_lines : List (List ℕ) → JsonlResult → W → (JsonlResult × W) × Option Error
  unfolding scan_line
  scan_lines [] res w = ((res, w), none)
  scan_lines (line ∷ lines) res w =
      let ((res', w'), failed) = scan_line line res w in
      let rest = scan_lines lines res' w' in
      (elim failed [ some e ↦ ((res', w'), some e) | none ↦ rest ])

  -- The error of the scanner is looked at once its lines are used up.
  unfoldable pub drain : List (List ℕ) → Option Error → W → (JsonlResult × W) × Option Error
  unfolding scan_lines
  drain lines scan_err w =
      let (last, failed) =
        scan_lines lines (record { valid_lines_count = 0; invalid_lines_count = 0 }) w in
      (elim failed [ some e ↦ (last, some e) | none ↦ (last, wrapped "scan" scan_err) ])

  unfoldable pub validate_jsonl_stream : Scanner → W → (JsonlResult × W) × Option Error
  unfolding drain
  validate_jsonl_stream scanner w =
      let (lines, scan_err) = scanner max_line in drain lines scan_err w

  unfoldable pub validate_json_file : Result (List ℕ) → W → W × Summary × Option Error
  unfolding write_order
  validate_json_file (err e) w = (w, blank, some (wrap (plain "read file") e))
  validate_json_file (ok raw) w = elim (validate_order_from_json validator json raw) [
    | err e ↦ (w, counts 0 1, some e)
    | ok o ↦
        let (w', failed) = write_order "write json" o w in
        (elim failed [ some e ↦ (w', blank, some e) | none ↦ (w', counts 1 0, none) ])
  ]

  unfoldable pub validate_jsonl_file : Scanner → W → W × Summary × Option Error
  unfolding validate_jsonl_stream
  validate_jsonl_file scanner w =
      let ((res, w'), failed) = validate_jsonl_stream scanner w in
      (elim failed [
        | some e ↦ (w', blank, some e)
        | none ↦ (w', counts res.valid_lines_count res.invalid_lines_count, none)
      ])

  unfoldable pub validate_format : InputFormat → File → W → W × Summary × Option Error
  unfolding validate_json_file validate_jsonl_file
  validate_format format_json file w = validate_json_file file.content w
  validate_format format_jsonl file w = validate_jsonl_file file.scanner w
  validate_format _ file w = (w, blank, some (new (plain "unsupported format")))

  -- `opened` is what os.Open answers for the path.
  unfoldable pub validate_file : InputFormat → String → Result File → W → W × Summary × Option Error
  unfolding validate_format resolve_format
  validate_file format ext (err e) w = (w, blank, some (wrap (plain "open file") e))
  validate_file format ext (ok file) w = validate_format (resolve_format format ext) file w
