-- ===== src/Fixcat.antt =====
-- fixcat/main.cpp and fixcat/options.cpp: a tool that prints the FIX messages in text, and the orders that
-- they are about. A text is the list of its lines. What `boost` splits, trims and reads from the command
-- line, the environment and the files is a parameter.
pub mod Streams
mod Examples
use crocofix.Base.{
  ℕ, Bool, true, false, not, ◌&&◌, Option, none, some, List, [], ◌∷◌, ◌++◌, if◌then◌else◌,
}
use crocofix.Base.Bytes.{Bytes, ℤ, pos, negsuc, codes, text, stoi, bytes_eq}
use crocofix.Base.Exec.{Error, Result, ok, err, out_of_range}
use crocofix.Dictionary.{
  FieldTable, OrchestrationField, MessageDefinition, definition, definition_named,
}
use crocofix.Message.{Message, of_fields, is_admin}
use crocofix.Message.Decode.{DecodeResult, decode}
use crocofix.Message.Printing.{pretty_print}
use crocofix.OrderBook.{OrderBook, Expected, expected, unexpected, what}
use crocofix.OrderBook
use crocofix.OrderReport.{OrderReport, order_report}
use crocofix.OrderReport

pub record Options : Type 0 where
  pub help : Bool
  pub include_admin_messages : Bool
  pub mix : Bool
  pub track_orders : Bool
  pub fields : Option (List OrchestrationField)
  pub input_files : List Bytes

-- `po::variables_map`: which options were given, with their values.
pub record Variables : Type 0 where
  pub help : Bool
  pub admin : Bool
  pub mix : Bool
  pub orders : Bool
  pub fields : Option Bytes
  pub files : Option (List Bytes)

-- The tables of FIX.5.0SP2, the functions of `boost`, the order report's default fields, the value of
-- CROCOFIX_FIXCAT_FIELDS, and the lines of a file, none if it cannot be opened.
pub record Env : Type 0 where
  pub table : FieldTable
  pub messages : List MessageDefinition
  pub split_lines : Bytes → List Bytes
  pub split_commas : Bytes → List Bytes
  pub trim : Bytes → Bytes
  pub default_fields : List OrchestrationField
  pub fields_variable : Option Bytes
  pub file : Bytes → List Bytes

abbrev not_found : Bytes → Result OrchestrationField
not_found token =
    err (out_of_range (text "Unable to find a FIX field with name or tag = '" ++ token ++ text "'"))

abbrev or_not_found : Bytes → Result OrchestrationField → Result OrchestrationField
or_not_found token (ok f) = ok f
or_not_found token (err e) = not_found token

-- A negative tag is past the end of the table.
abbrev tagged : Env → Bytes → Result ℤ → Result OrchestrationField
tagged env token (err e) = not_found token
tagged env token (ok (negsuc n)) = not_found token
tagged env token (ok (pos n)) = or_not_found token (definition env.table n)

-- By name, and if there is no such name by tag.
abbrev by_name : Env → Bytes → Result OrchestrationField → Result OrchestrationField
by_name env token (ok f) = ok f
by_name env token (err e) = tagged env token (stoi token)

unfoldable pub parse_token : Env → Bytes → Result OrchestrationField
unfolding definition definition_named stoi
parse_token env token = by_name env token (definition_named env.table token)

abbrev consed :
    Result OrchestrationField → Result (List OrchestrationField) → Result (List OrchestrationField)
consed (err e) fs = err e
consed (ok f) (err e) = err e
consed (ok f) (ok fs) = ok (f ∷ fs)

unfoldable pub parse_tokens : Env → List Bytes → Result (List OrchestrationField)
unfolding parse_token
parse_tokens env [] = ok []
parse_tokens env (t ∷ ts) = consed (parse_token env (env.trim t)) (parse_tokens env ts)

abbrev pub some_fields :
    Result (List OrchestrationField) → Result (Option (List OrchestrationField))
some_fields (ok fs) = ok (some fs)
some_fields (err e) = err e

unfoldable pub parse_fields : Env → Bytes → Result (Option (List OrchestrationField))
unfolding parse_tokens
parse_fields env input = some_fields (parse_tokens env (env.split_commas input))

-- The option, and otherwise the environment's variable.
abbrev chosen_fields : Env → Option Bytes → Option Bytes → Result (Option (List OrchestrationField))
chosen_fields env (some input) variable = parse_fields env input
chosen_fields env none (some input) = parse_fields env input
chosen_fields env none none = ok none

abbrev or_none : Option (List Bytes) → List Bytes
or_none none = []
or_none (some fs) = fs

abbrev with_fields : Variables → Result (Option (List OrchestrationField)) → Result Options
with_fields v (err e) = err e
with_fields v (ok fs) = ok (record {
  help = false;
  include_admin_messages = v.admin;
  mix = v.mix;
  track_orders = v.orders;
  fields = fs;
  input_files = or_none v.files;
})

abbrev help_only : Options
help_only = record {
  help = true;
  include_admin_messages = false;
  mix = false;
  track_orders = false;
  fields = none;
  input_files = [];
}

-- `options::parse` from where the command line is read.
unfoldable pub parse : Env → Variables → Result Options
unfolding parse_fields
parse env v =
    if v.help then ok help_only else with_fields v (chosen_fields env v.fields env.fields_variable)

-- What a stream is processed with: the book and the report of it, and the text written to the two
-- outputs.
pub record Cat : Type 0 where
  pub book : OrderBook
  pub report : OrderReport
  pub output : Bytes
  pub errors : Bytes

abbrev pub say : Bytes → Cat → Cat
say s c = record c { output = c.output ++ s }

abbrev pub say_line : Bytes → Cat → Cat
say_line s c = say (s ++ b'\n' ∷ []) c

-- The handler of an exception.
abbrev pub complain : Error → Cat → Cat
complain e c = record c { errors = c.errors ++ (what e ++ b'\n' ∷ []) }

abbrev pub fix_message_prefix : Bytes
fix_message_prefix = codes "8=FIX"

unfoldable pub starts_with : Bytes → Bytes → Bool
starts_with [] s = true
starts_with (b ∷ p) [] = false
starts_with (b ∷ p) (c ∷ s) = bytes_eq (b ∷ []) (c ∷ []) && starts_with p s

-- `find` and `substr`: the text from the first occurrence on.
unfoldable pub find_from : Bytes → Bytes → Option Bytes
unfolding starts_with
find_from p [] = none
find_from p (c ∷ s) =
    let rest = find_from p s in if starts_with p (c ∷ s) then some (c ∷ s) else rest

abbrev report_orders : Cat → Bytes × OrderReport → Cat
report_orders c (s, r) = say_line s (record c { report = r })

abbrev after_process : Cat → Result Expected × OrderBook → Cat
after_process c (err e, b) = complain e (record c { book = b })
after_process c (ok (unexpected s), b) = record c { book = b }
after_process c (ok expected, b) =
    report_orders (record c { book = b }) (OrderReport.print c.report b)

abbrev track : Options → Message → Cat → Cat
track o m c = if o.track_orders then after_process c (OrderBook.process m c.book) else c

abbrev print_message : Options → Message → Cat → Result Bytes → Cat
print_message o m c (err e) = complain e c
print_message o m c (ok s) = track o m (say_line s c)

abbrev unless_admin : Env → Options → Message → Cat → Result Bool → Cat
unless_admin env o m c (err e) = complain e c
unless_admin env o m c (ok true) = c
unless_admin env o m c (ok false) = print_message o m c (pretty_print env.table env.messages m)

abbrev decoded : Env → Options → Cat → Result DecodeResult × Message → Cat
decoded env o c (err e, m) = complain e c
decoded env o c (ok r, m) =
    if o.include_admin_messages
    then print_message o m c (pretty_print env.table env.messages m)
    else unless_admin env o m c (is_admin m)

abbrev found : Env → Options → Bytes → Cat → Option Bytes → Cat
found env o line c none = if o.mix then say_line line c else c
found env o line c (some s) = decoded env o c (decode env.table (of_fields []) s)

unfoldable pub decode_and_print_line : Env → Options → Bytes → Cat → Cat
unfolding decode is_admin pretty_print OrderBook.process OrderReport.print
decode_and_print_line env o line c = found env o line c (find_from fix_message_prefix line)

unfoldable pub print_lines : Env → Options → List Bytes → Cat → Cat
unfolding decode_and_print_line
print_lines env o [] c = c
print_lines env o (l ∷ ls) c = print_lines env o ls (decode_and_print_line env o l c)

abbrev or_default : Env → Option (List OrchestrationField) → List OrchestrationField
or_default env none = env.default_fields
or_default env (some fs) = fs

-- A stream begins with an empty book.
unfoldable pub process_stream : Env → Options → List Bytes → Cat
unfolding print_lines order_report
process_stream env o lines = print_lines env o lines (record {
  book = record { orders = [] };
  report = order_report env.split_lines (or_default env o.fields);
  output = [];
  errors = [];
})

-- The text of several streams, one behind the other.
unfoldable pub process_files : Env → Options → List Bytes → Bytes × Bytes
unfolding process_stream
process_files env o [] = ([], [])
process_files env o (f ∷ fs) =
    let c = process_stream env o (env.file f) in
    let rest = process_files env o fs in (c.output ++ rest.0, c.errors ++ rest.1)

-- The exit code and the two outputs.
pub record Exit : Type 0 where
  pub code : ℕ
  pub output : Bytes
  pub errors : Bytes

abbrev exit_with : ℕ → Bytes × Bytes → Exit
exit_with n (o, e) = record { code = n; output = o; errors = e }

abbrev run_parsed : Env → List Bytes → Result Options → Exit
run_parsed env input (err e) = exit_with 1 ([], what e ++ b'\n' ∷ [])
run_parsed env input (ok o) = if o.help then exit_with 1 ([], []) else run_on o.input_files
  where
    run_on : List Bytes → Exit
    run_on [] = let c = process_stream env o input in exit_with 0 (c.output, c.errors)
    run_on (f ∷ fs) = exit_with 0 (process_files env o (f ∷ fs))

-- `main`, the usage text left out.
unfoldable pub main : Env → Variables → List Bytes → Exit
unfolding parse process_stream process_files
main env v input = run_parsed env input (parse env v)
