-- ===== src/Session/Refusal.antt =====
-- What the session does with a message that fails a check.
use crocofix.Base.{◌≡◌, ◌≢◌, refl, Bool, true, false, Option, none, some, if◌then◌else◌}
use crocofix.Base.Bytes.{Bytes}
use crocofix.Base.Exec.{Error, Result, ok, err, pure, continue, ◌>>=◌, ◌>>◌}
use crocofix.Tags
use crocofix.Field.{Field, try_get}
use crocofix.Message.{Message}
use crocofix.Session.State.{
  Session, SessionState, Env, Method, disconnected, connected, logging_on, resending, logged_on,
  resetting, set_state,
}
use crocofix.Session.Replies.{close, send_logout}
use crocofix.Session.Validate.{
  refuse, check_checksum, validate_checksum, check_body_length, validate_body_length,
  check_begin_string, validate_begin_string, check_comp_id, validate_comp_ids, reject_first_message,
  check_first_message, validate_first_message, sequence_number_is_low,
}

-- Every run of the method that returns ends disconnected.
record Ends {A : Type 0} (m : Method A) : Type 0 where
  at : (s : Session) (a : A) → (m s).0 ≡ ok a → (m s).1.state ≡ disconnected

-- Every run of the check that returns `b` ends disconnected.
record Closes (b : Bool) (m : Method Bool) : Type 0 where
  at : (s : Session) → (m s).0 ≡ ok b → (m s).1.state ≡ disconnected

err≢ok : {A : Type 0} {e : Error} {a : A} → err e ≢ ok a
err≢ok h = cc

module _ {A B : Type 0} where
  continue-Ends :
      (f : A → Method B)
      → ((a : A) → Ends (f a))
      → (r : Result A) (s : Session) (b : B) → (continue r f s).0 ≡ ok b
      → (continue r f s).1.state ≡ disconnected
  continue-Ends f h (ok a) s b q = (h a).at s b q
  continue-Ends f h (err e) s b q = absurd (err≢ok q)

  bind-Ends : (m : Method A) (f : A → Method B) → ((a : A) → Ends (f a)) → Ends (m >>= f)
  unfolding ◌>>=◌
  bind-Ends m f h = record { at = λ s. continue-Ends f h (m s).0 (m s).1 }

module _ {A : Type 0} (b : Bool) where
  continue-Closes :
      (f : A → Method Bool)
      → ((a : A) → Closes b (f a))
      → (r : Result A) (s : Session) → (continue r f s).0 ≡ ok b
      → (continue r f s).1.state ≡ disconnected
  continue-Closes f h (ok a) s q = (h a).at s q
  continue-Closes f h (err e) s q = absurd (err≢ok q)

  bind-Closes :
      (m : Method A) (f : A → Method Bool) → ((a : A) → Closes b (f a)) → Closes b (m >>= f)
  unfolding ◌>>=◌
  bind-Closes m f h = record { at = λ s. continue-Closes f h (m s).0 (m s).1 }

  ended :
      (c : Bool) (r : Result A) (s : Session)
      → ((a : A) → r ≡ ok a → s.state ≡ disconnected)
      → (continue r (λ a. pure c) s).0 ≡ ok b
      → (continue r (λ a. pure c) s).1.state ≡ disconnected
  unfolding ◌>>=◌
  ended c (ok a) s h q = h a refl
  ended c (err e) s h q = absurd (err≢ok q)

  -- A method that ends disconnected, and an answer.
  then-Closes : (m : Method A) (c : Bool) → Ends m → Closes b (m >> pure c)
  unfolding ◌>>=◌
  then-Closes m c h = record { at = λ s. ended c (m s).0 (m s).1 (h.at s) }

true≢false : ok true ≢ ok false
true≢false h = cc

true-Closes : Closes false (pure true)
unfolding ◌>>=◌
true-Closes = record { at = λ s h. absurd (true≢false h) }

false-Closes : Closes true (pure false)
unfolding ◌>>=◌
false-Closes = record { at = λ s h. cc }

if-Closes :
    (b c : Bool) (m n : Method Bool) → Closes b m → Closes b n → Closes b (if c then m else n)
if-Closes b true m n h k = h
if-Closes b false m n h k = k

both-Closes :
    (m n : Method Bool)
    → Closes false m
    → Closes false n
    → Closes false (m >>= λ b. if b then n else pure false)
unfolding ◌>>=◌
both-Closes m n h k = record { at = λ s. rest (m s).0 (m s).1 (h.at s) }
  where
    rest :
        (r : Result Bool) (t : Session)
        → (r ≡ ok false → t.state ≡ disconnected)
        → (continue r (λ b. if b then n else pure false) t).0 ≡ ok false
        → (continue r (λ b. if b then n else pure false) t).1.state ≡ disconnected
    rest (ok true) t e q = k.at t q
    rest (ok false) t e q = e refl
    rest (err x) t e q = absurd (err≢ok q)

disconnects-Ends : Ends (set_state disconnected)
unfolding set_state
disconnects-Ends = record { at = λ s a q. by_state s.state s refl }
  where
    by_state :
        (x : SessionState) (s : Session)
        → s.state ≡ x
        → (set_state disconnected s).1.state ≡ disconnected
    by_state disconnected s e = rw e refl
    by_state connected s e = rw e refl
    by_state logging_on s e = rw e refl
    by_state resending s e = rw e refl
    by_state logged_on s e = rw e refl
    by_state resetting s e = rw e refl

close-Ends : Ends close
unfolding close
close-Ends = bind-Ends _ _ (λ _. bind-Ends _ _ (λ _. disconnects-Ends))

module _ (env : Env) where
  refuse-Closes : (m : Message) (what reason : Bytes) → Closes false (refuse env m what reason)
  unfolding refuse
  refuse-Closes m what reason =
      bind-Closes false _ _
        (λ _. bind-Closes false _ _ (λ _. then-Closes false close false close-Ends))

  send_logout-Ends : (what : Bytes) → Ends (send_logout env what)
  unfolding send_logout
  send_logout-Ends what = bind-Ends _ _ (λ _. bind-Ends _ _ (λ _. close-Ends))

  checksum-Closes : (m : Message) → Closes false (validate_checksum env m)
  unfolding validate_checksum check_checksum
  checksum-Closes m = by_field (try_get Tags.check_sum m.fields)
    where
      by_field : (f : Option Field) → Closes false (check_checksum env m f)
      by_field none = refuse-Closes m _ _
      by_field (some f) = bind-Closes false _ _ (λ sum.
          bind-Closes false _ _ (λ v. if-Closes false _ _ _ true-Closes (refuse-Closes m _ _)))

  body_length-Closes : (m : Message) → Closes false (validate_body_length env m)
  unfolding validate_body_length check_body_length
  body_length-Closes m = by_field (try_get Tags.body_length m.fields)
    where
      by_field : (f : Option Field) → Closes false (check_body_length env m f)
      by_field none = refuse-Closes m _ _
      by_field (some f) = if-Closes false _ _ _ true-Closes (refuse-Closes m _ _)

  begin_string-Closes : (m : Message) → Closes false (validate_begin_string env m)
  unfolding validate_begin_string check_begin_string
  begin_string-Closes m =
      bind-Closes false _ _ (λ expected. by_field expected (try_get Tags.begin_string m.fields))
    where
      by_field :
          (expected : Bytes) (f : Option Field) → Closes false (check_begin_string env m expected f)
      by_field expected none = refuse-Closes m _ _
      by_field expected (some f) = if-Closes false _ _ _ true-Closes (refuse-Closes m _ _)

  comp_id-Closes :
      (m : Message) (name expected : Bytes) (f : Option Field)
      → Closes false (check_comp_id env m name expected f)
  unfolding check_comp_id
  comp_id-Closes m name expected f = if-Closes false _ _ _ true-Closes (refuse-Closes m _ _)

  comp_ids-Closes : (m : Message) → Closes false (validate_comp_ids env m)
  unfolding validate_comp_ids
  comp_ids-Closes m =
      bind-Closes false _ _ (λ o. both-Closes _ _ (comp_id-Closes m _ _ _) (comp_id-Closes m _ _ _))

  first-Closes : (m : Message) → Closes false (validate_first_message env m)
  unfolding validate_first_message check_first_message reject_first_message
  first-Closes m = bind-Closes false _ _ (λ s. if-Closes false _ _ _ true-Closes (
      bind-Closes false _ _ (λ t. if-Closes false _ _ _ true-Closes (
        bind-Closes false _ _
          (λ _. bind-Closes false _ _ (λ _. then-Closes false _ false (send_logout-Ends _)))))))

-- The checks that a message passes before its number is looked at.
pub data Check : Type 0 where
  checksum body_length begin_string comp_ids first_message : Check

unfoldable pub run_check : Env → Message → Check → Method Bool
run_check env m checksum = validate_checksum env m
run_check env m body_length = validate_body_length env m
run_check env m begin_string = validate_begin_string env m
run_check env m comp_ids = validate_comp_ids env m
run_check env m first_message = validate_first_message env m

-- If the check of a message's CheckSum, BodyLength, BeginString or CompIDs, or of its being a first
-- message, returns false, and so does not throw, it leaves the session disconnected, in whatever state
-- the session was.
pub failed_check-disconnected :
    (env : Env) (m : Message) (c : Check) (s : Session)
    → (run_check env m c s).0 ≡ ok false
    → (run_check env m c s).1.state ≡ disconnected
unfolding run_check
failed_check-disconnected env m checksum s h = (checksum-Closes env m).at s h
failed_check-disconnected env m body_length s h = (body_length-Closes env m).at s h
failed_check-disconnected env m begin_string s h = (begin_string-Closes env m).at s h
failed_check-disconnected env m comp_ids s h = (comp_ids-Closes env m).at s h
failed_check-disconnected env m first_message s h = (first-Closes env m).at s h

-- If a message's number is found to be too low, and nothing throws on the way, the session is left
-- disconnected, in whatever state it was.
pub low_number-disconnected :
    (env : Env) (m : Message) (s : Session)
    → (sequence_number_is_low env m s).0 ≡ ok true
    → (sequence_number_is_low env m s).1.state ≡ disconnected
unfolding sequence_number_is_low
low_number-disconnected env m s h = low.at s h
  where
    low : Closes true (sequence_number_is_low env m)
    low = bind-Closes true _ _ (λ number. bind-Closes true _ _ (λ expected.
        if-Closes true _ _ _
          (bind-Closes true _ _ (λ _. then-Closes true _ true (send_logout-Ends env _)))
          false-Closes))
