-- ===== src/Fixcat/Streams.antt =====
-- What fixcat does with a stream of lines.
use crocofix.Base.{
  ◌≡◌, refl, sym, ap, ◌∙◌, Bool, true, false, Option, none, some, List, [], ◌∷◌, ◌++◌, append_assoc,
  append-nil, if◌then◌else◌, All,
}
use crocofix.Base.Bytes.{Bytes}
use crocofix.Base.Exec.{Result, ok, err}
use crocofix.Message.{Message, of_fields, is_admin}
use crocofix.Message.Decode.{DecodeResult, decode}
use crocofix.Message.Printing.{pretty_print}
use crocofix.OrderBook.{Expected, expected, unexpected, OrderBook}
use crocofix.OrderBook
use crocofix.OrderBook.Keyed.{IsKeyed, process-IsKeyed}
use crocofix.Fixcat.{
  Env, Options, Cat, say, say_line, found, decoded, unless_admin, print_message, track,
  after_process, fix_message_prefix, find_from, decode_and_print_line, print_lines, process_stream,
}

abbrev Keyed : Cat → Type 0
Keyed c = IsKeyed c.book.orders

-- Each line ended, if the option asks for them.
unfoldable pub passed_on : Bool → List Bytes → Bytes
passed_on mix [] = []
passed_on mix (l ∷ ls) = if mix then (l ++ b'\n' ∷ []) ++ passed_on mix ls else passed_on mix ls

module _ (env : Env) (o : Options) where
  track-Keyed : (m : Message) (c : Cat) → Keyed c → Keyed (track o m c)
  track-Keyed m c h = by_option o.track_orders
    where
      by_end :
          (r : Result Expected) (b : OrderBook) → IsKeyed b.orders → Keyed (after_process c (r, b))
      by_end (err e) b k = k
      by_end (ok (unexpected s)) b k = k
      by_end (ok expected) b k = k

      by_option : (t : Bool) → Keyed (if t then after_process c (OrderBook.process m c.book) else c)
      by_option false = h
      by_option true =
          by_end (OrderBook.process m c.book).0 (OrderBook.process m c.book).1
            (process-IsKeyed m c.book h)

  print-Keyed : (m : Message) (c : Cat) (r : Result Bytes) → Keyed c → Keyed (print_message o m c r)
  print-Keyed m c (err e) h = h
  print-Keyed m c (ok s) h = track-Keyed m (say_line s c) h

  unless-Keyed :
      (m : Message) (c : Cat) (r : Result Bool) → Keyed c → Keyed (unless_admin env o m c r)
  unless-Keyed m c (err e) h = h
  unless-Keyed m c (ok true) h = h
  unless-Keyed m c (ok false) h = print-Keyed m c _ h

  decoded-Keyed :
      (c : Cat) (r : Result DecodeResult) (m : Message) → Keyed c → Keyed (decoded env o c (r, m))
  decoded-Keyed c (err e) m h = h
  decoded-Keyed c (ok x) m h = by_option o.include_admin_messages
    where
      by_option :
          (t : Bool)
          → Keyed (
              if t
              then print_message o m c (pretty_print env.table env.messages m)
              else unless_admin env o m c (is_admin m))
      by_option true = print-Keyed m c _ h
      by_option false = unless-Keyed m c _ h

  line-Keyed : (l : Bytes) (c : Cat) → Keyed c → Keyed (decode_and_print_line env o l c)
  unfolding decode_and_print_line
  line-Keyed l c h = by_place (find_from fix_message_prefix l)
    where
      by_mix : (t : Bool) → Keyed (if t then say_line l c else c)
      by_mix true = h
      by_mix false = h

      by_place : (p : Option Bytes) → Keyed (found env o l c p)
      by_place none = by_mix o.mix
      by_place (some s) =
          decoded-Keyed c (decode env.table (of_fields []) s).0
            (decode env.table (of_fields []) s).1 h

  lines-Keyed : (ls : List Bytes) (c : Cat) → Keyed c → Keyed (print_lines env o ls c)
  unfolding print_lines
  lines-Keyed [] c h = h
  lines-Keyed (l ∷ ls) c h = lines-Keyed ls (decode_and_print_line env o l c) (line-Keyed l c h)

  -- Whatever the lines of a stream are, among them text that is no message, messages that do not decode
  -- and messages that the book refuses or throws for, the book that fixcat reports from has one entry
  -- for a key and each order under its own key.
  pub process_stream-IsKeyed : (ls : List Bytes) → IsKeyed (process_stream env o ls).book.orders
  unfolding process_stream IsKeyed
  process_stream-IsKeyed ls = lines-Keyed ls _ tt

  abbrev HasNoMessage : Bytes → Type 0
  HasNoMessage l = find_from fix_message_prefix l ≡ none

  line-plain :
      (l : Bytes) (c : Cat)
      → HasNoMessage l
      → decode_and_print_line env o l c ≡ (if o.mix then say_line l c else c)
  unfolding decode_and_print_line
  line-plain l c e = ap (found env o l c) e

  -- Lines that do not have the beginning of a message in them are printed as they are where the option for
  -- mixed text is given, and are left out otherwise. Neither the book nor the report nor the error
  -- output sees them.
  pub print_lines-plain :
      (ls : List Bytes) (c : Cat)
      → All HasNoMessage ls
      → print_lines env o ls c ≡ say (passed_on o.mix ls) c
  unfolding print_lines passed_on
  print_lines-plain [] c h = ap (λ (s : Bytes). record c { output = s }) (sym (append-nil c.output))
  print_lines-plain (l ∷ ls) c h =
      ap (print_lines env o ls) (line-plain l c h.0)
      ∙ by_mix (λ k. print_lines-plain ls k h.1) o.mix refl
    where
      by_mix :
          ((k : Cat) → print_lines env o ls k ≡ say (passed_on o.mix ls) k)
          → (t : Bool) → o.mix ≡ t
          → print_lines env o ls (if t then say_line l c else c)
            ≡ say (if t then (l ++ b'\n' ∷ []) ++ passed_on o.mix ls else passed_on o.mix ls) c
      by_mix again true e =
          again (say_line l c)
          ∙ ap (λ (s : Bytes). record c { output = s })
              (append_assoc c.output (l ++ b'\n' ∷ []) (passed_on o.mix ls))
      by_mix again false e = again c
