-- ===== src/Session/Numbers.antt =====
-- The numbers of the messages that a session sends.
use crocofix.Base.{
  ℕ, ◌+◌, ◌%◌, ◌≡◌, ◌≢◌, refl, ap, subst, ◌∙◌, Bool, true, false, ◌++◌, ◌||◌, if◌then◌else◌, Option,
  none, some, List, [], ◌∷◌, arith, ◌==◌,
}
use crocofix.Base.Bytes.{Bytes, bytes_eq, to_string, u32_mod}
use crocofix.Base.Exec.{ok, ◌>>=◌}
use crocofix.Tags
use crocofix.Field.{
  Field, Fields, field, try_get, set, set_at, overwrite, replace_first, replace_first_or_append,
}
use crocofix.Field.Collection.{try_get-set, try_get-replace}
use crocofix.Message.{Message, msg_type, standard}
use crocofix.Session.State.{
  Session, SessionOptions, Env, written, message_sent, emit, allocate_outgoing_msg_seq_num,
}
use crocofix.Session.Send.{is_reset, number_for, stamped, write, send}
use crocofix.Session.Recovery.Stamps.{written_messages}
use crocofix.Session.Handler.{sends, run_call, run_calls, Call}

-- A message with a place for its number, and of another type than Logon.
pub record IsPlain (m : Message) : Type 0 where
  pub type : Bytes
  pub typed : msg_type m ≡ ok type
  pub not_logon : bytes_eq type Tags.logon ≡ false
  pub numbered : try_get Tags.msg_seq_num m.fields ≢ none

abbrev Has : ℕ → Fields → Type 0
Has t fs = try_get t fs ≢ none

other_Has :
    (t : ℕ) (f : Field) (fs : Fields)
    → (f.tag == t) ≡ false
    → Has t fs
    → Has t (set f replace_first fs).1
other_Has t f fs e h n = grind (arith, try_get-replace t f fs)

other_set :
    (t : ℕ) (f : Field) (fs : Fields)
    → (f.tag == t) ≡ false
    → try_get t (set f replace_first fs).1 ≡ try_get t fs
other_set t f fs e = grind (arith, try_get-replace t f fs)

put_in :
    (f : Field) (fs : Fields) → Has f.tag fs → try_get f.tag (set f replace_first fs).1 ≡ some f
put_in f fs h = grind (arith, try_get-replace f.tag f fs)

-- The stamped header carries the number.
pub stamped-number :
    (o : SessionOptions) (n : ℕ) (time : Bytes) (fs : Fields)
    → Has Tags.msg_seq_num fs
    → try_get Tags.msg_seq_num (stamped o standard n time fs)
      ≡ some (field Tags.msg_seq_num (to_string n))
unfolding stamped
stamped-number o n time fs h =
    try_get-set Tags.msg_seq_num (field Tags.check_sum []) _
    ∙ other_set Tags.msg_seq_num (field Tags.sending_time time) _ refl
    ∙ put_in (field Tags.msg_seq_num (to_string n)) _ (
        other_Has Tags.msg_seq_num (field Tags.target_comp_id o.target_comp_id) _ refl (
          other_Has Tags.msg_seq_num (field Tags.sender_comp_id o.sender_comp_id) _ refl
            (other_Has Tags.msg_seq_num (field Tags.begin_string o.begin_string) _ refl h)))

module _ (env : Env) where
  abbrev pub sent_out : Message → Session → Message
  sent_out m s = record m {
    fields =
        stamped s.options standard s.outgoing_msg_seq_num
          (env.timestamp s.events s.options.timestamp_format) m.fields;
  }

  pub send-plain :
      (m : Message) (s : Session)
      → IsPlain m
      → send env m standard s ≡ (
        ok (env.encode (sent_out m s) standard),
        record s {
          outgoing_msg_seq_num = (s.outgoing_msg_seq_num + 1) % u32_mod;
          events =
              message_sent (env.encode (sent_out m s) standard)
              ∷ written (sent_out m s) standard
              ∷ s.events;
        },
      )
  unfolding send is_reset number_for write allocate_outgoing_msg_seq_num emit ◌>>=◌
  send-plain m s p = rw (p.typed, p.not_logon) refl

-- The tags of the fields that a session stamps, and of the checksum that the encoder fills in.
abbrev pub is_stamped : ℕ → Bool
is_stamped t =
    (t == Tags.begin_string)
    || (t == Tags.sender_comp_id)
    || (t == Tags.target_comp_id)
    || (t == Tags.msg_seq_num)
    || (t == Tags.sending_time)
    || (t == Tags.check_sum)

-- What a message says besides: the other fields, in their order.
unfoldable pub body : Fields → Fields
body [] = []
body (f ∷ fs) = let rest = body fs in if is_stamped f.tag then rest else f ∷ rest

body-append : (f : Field) (fs : Fields) → is_stamped f.tag ≡ true → body (fs ++ f ∷ []) ≡ body fs
unfolding body
body-append f [] h = rw h refl
body-append f (g ∷ fs) h = rw (body-append f fs h) refl

body-overwrite :
    (f : Field) (fs : Fields) → is_stamped f.tag ≡ true → body (overwrite f fs) ≡ body fs
unfolding body overwrite
body-overwrite f [] h = refl
body-overwrite f (g ∷ fs) h = by_tag (g.tag == f.tag) refl (body-overwrite f fs h)
  where
    by_tag :
        (c : Bool)
        → (g.tag == f.tag) ≡ c
        → body (overwrite f fs) ≡ body fs
        → body (if c then f ∷ fs else g ∷ overwrite f fs) ≡ body (g ∷ fs)
    by_tag true e k =
        let same : g.tag ≡ f.tag = ground (arith, e) in
        let stamped : is_stamped g.tag ≡ true = ap is_stamped same ∙ h in rw (h, stamped) refl
    by_tag false e k = rw k refl

body-replace :
    (f : Field) (fs : Fields) → is_stamped f.tag ≡ true → body (set f replace_first fs).1 ≡ body fs
unfolding set
body-replace f fs h = by_found (try_get f.tag fs)
  where
    by_found : (o : Option Field) → body (set_at o f replace_first fs).1 ≡ body fs
    by_found none = refl
    by_found (some g) = body-overwrite f fs h

body-add :
    (f : Field) (fs : Fields)
    → is_stamped f.tag ≡ true
    → body (set f replace_first_or_append fs).1 ≡ body fs
unfolding set
body-add f fs h = by_found (try_get f.tag fs)
  where
    by_found : (o : Option Field) → body (set_at o f replace_first_or_append fs).1 ≡ body fs
    by_found none = body-append f fs h
    by_found (some g) = body-overwrite f fs h

stamped-body :
    (o : SessionOptions) (n : ℕ) (time : Bytes) (fs : Fields)
    → body (stamped o standard n time fs) ≡ body fs
unfolding stamped
stamped-body o n time fs =
    body-add (field Tags.check_sum []) _ refl
    ∙ body-replace (field Tags.sending_time time) _ refl
    ∙ body-replace (field Tags.msg_seq_num (to_string n)) _ refl
    ∙ body-replace (field Tags.target_comp_id o.target_comp_id) _ refl
    ∙ body-replace (field Tags.sender_comp_id o.sender_comp_id) _ refl
    ∙ body-replace (field Tags.begin_string o.begin_string) fs refl

-- The message `w` carries what `m` says, under a number.
pub record Carries (n : ℕ) (m w : Message) : Type 0 where
  pub numbered : try_get Tags.msg_seq_num w.fields ≡ some (field Tags.msg_seq_num (to_string n))
  pub says : body w.fields ≡ body m.fields

-- The messages that were handed to the writer, the newest first, before and after some that were handed over
-- with consecutive numbers.
pub data HandedOver : ℕ → List Message → List Message → List Message → Type 0 where
  none_left : {n : ℕ} {before : List Message} → HandedOver n [] before before
  handed :
      {n : ℕ} {m : Message} {ms before after : List Message} (w : Message)
      → Carries n m w
      → HandedOver ((n + 1) % u32_mod) ms (w ∷ before) after
      → HandedOver n (m ∷ ms) before after

unfoldable pub send_all : List Message → List Call
send_all [] = []
send_all (m ∷ ms) = sends m standard ∷ send_all ms

unfoldable pub ArePlain : List Message → Type 0
ArePlain [] = Unit
ArePlain (m ∷ ms) = IsPlain m × ArePlain ms

module _ (env : Env) where
  sends-plain :
      (m : Message) (s : Session)
      → IsPlain m
      → ((run_call env (sends m standard) s).1.outgoing_msg_seq_num
          ≡ (s.outgoing_msg_seq_num + 1) % u32_mod)
        × (written_messages (run_call env (sends m standard) s).1.events
            ≡ sent_out env m s ∷ written_messages s.events)
  unfolding run_call written_messages ◌>>=◌
  sends-plain m s p = rw (send-plain env m s p) (refl, refl)

  sent_out-Carries :
      (m : Message) (s : Session) → IsPlain m → Carries s.outgoing_msg_seq_num m (sent_out env m s)
  sent_out-Carries m s p =
      let time = env.timestamp s.events s.options.timestamp_format in
      record {
        numbered = stamped-number s.options s.outgoing_msg_seq_num time m.fields p.numbered;
        says = stamped-body s.options s.outgoing_msg_seq_num time m.fields;
      }

-- Messages sent one after the other, none of them a Logon and each with a MsgSeqNum field to fill, are
-- handed to the writer in order with consecutive numbers: the session's next one first, each one more
-- than the last in `uint32_t`. Each is handed over with all its fields but those of the header that the
-- session stamps and the CheckSum, in their order, and nothing else is handed over.
pub send_all-consecutive :
    (env : Env) (ms : List Message) (s : Session)
    → ArePlain ms
    → HandedOver s.outgoing_msg_seq_num ms
        (written_messages s.events)
        (written_messages (run_calls env (send_all ms) s).events)
unfolding run_calls send_all ArePlain
send_all-consecutive env [] s p = none_left
send_all-consecutive env (m ∷ ms) s p =
    let t : Session = (run_call env (sends m standard) s).1 in
    let (next, wrote) = sends-plain env m s p.0 in
    let later = written_messages (run_calls env (send_all ms) t).events in
    handed (sent_out env m s) (sent_out-Carries env m s p.0) (
      subst (λ (n : ℕ). HandedOver n ms (sent_out env m s ∷ written_messages s.events) later) next
        (subst (λ (b : List Message). HandedOver t.outgoing_msg_seq_num ms b later) wrote
          (send_all-consecutive env ms t p.1)))
