-- ===== src/Fixcat/Examples.antt =====
-- A stream with text and a message that does not decode.
use crocofix.Base.{◌≡◌, refl, true, false, none, List, [], ◌∷◌}
use crocofix.Base.Bytes.{Bytes, codes, bytes_eq}
use crocofix.Message.Examples.{table}
use crocofix.OrderBook.Keyed.{IsKeyed}
use crocofix.OrderReport.{order_report}
use crocofix.Fixcat.{Env, Options, Cat, say, find_from, starts_with, print_lines, process_stream}
use crocofix.Fixcat.Streams.{process_stream-IsKeyed, print_lines-plain, passed_on}

abbrev env : Env
env = record {
  table = table;
  messages = [];
  split_lines = λ s. s ∷ [];
  split_commas = λ s. s ∷ [];
  trim = λ s. s;
  default_fields = [];
  fields_variable = none;
  file = λ s. [];
}

abbrev mixing : Options
mixing = record {
  help = false;
  include_admin_messages = true;
  mix = true;
  track_orders = true;
  fields = none;
  input_files = [];
}

abbrev text_lines : List Bytes
text_lines = codes "connected" ∷ codes "8=FI" ∷ []

abbrev fresh : Cat
fresh = record {
  book = record { orders = [] };
  report = order_report (λ s. s ∷ []) [];
  output = [];
  errors = [];
}

stream-IsKeyed : IsKeyed (process_stream env mixing (codes "8=FIX.4.4" ∷ text_lines)).book.orders
stream-IsKeyed = process_stream-IsKeyed env mixing (codes "8=FIX.4.4" ∷ text_lines)

no_message :
    (find_from (codes "8=FIX") (codes "connected") ≡ none)
    × (find_from (codes "8=FIX") (codes "8=FI") ≡ none)
unfolding find_from starts_with bytes_eq
no_message = (refl, refl)

plain_line : print_lines env mixing text_lines fresh ≡ say (passed_on true text_lines) fresh
plain_line = print_lines-plain env mixing text_lines fresh (no_message.0, (no_message.1, tt))
