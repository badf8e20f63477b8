-- ===== src/Tags.antt =====
-- The field tags, message types and field values of FIX.5.0SP2 that the code names. The C++ constants
-- are generated from orchestrations/fix_repository_5_0SP2_EP258.xml, which these are read from.
use crocofix.Base.{ℕ, [], ◌∷◌}
use crocofix.Base.Bytes.{Bytes}

abbrev pub begin_seq_no : ℕ
begin_seq_no = 7

abbrev pub begin_string : ℕ
begin_string = 8

abbrev pub body_length : ℕ
body_length = 9

abbrev pub check_sum : ℕ
check_sum = 10

abbrev pub cl_ord_id : ℕ
cl_ord_id = 11

abbrev pub end_seq_no : ℕ
end_seq_no = 16

abbrev pub msg_seq_num : ℕ
msg_seq_num = 34

abbrev pub msg_type : ℕ
msg_type = 35

abbrev pub new_seq_no : ℕ
new_seq_no = 36

abbrev pub ord_status : ℕ
ord_status = 39

abbrev pub orig_cl_ord_id : ℕ
orig_cl_ord_id = 41

abbrev pub poss_dup_flag : ℕ
poss_dup_flag = 43

abbrev pub ref_seq_num : ℕ
ref_seq_num = 45

abbrev pub sender_comp_id : ℕ
sender_comp_id = 49

abbrev pub sending_time : ℕ
sending_time = 52

abbrev pub target_comp_id : ℕ
target_comp_id = 56

abbrev pub text_tag : ℕ
text_tag = 58

abbrev pub encrypt_method : ℕ
encrypt_method = 98

abbrev pub heart_bt_int : ℕ
heart_bt_int = 108

abbrev pub test_req_id : ℕ
test_req_id = 112

abbrev pub gap_fill_flag : ℕ
gap_fill_flag = 123

abbrev pub reset_seq_num_flag : ℕ
reset_seq_num_flag = 141

abbrev pub exec_type : ℕ
exec_type = 150

abbrev pub session_reject_reason : ℕ
session_reject_reason = 373

abbrev pub next_expected_msg_seq_num : ℕ
next_expected_msg_seq_num = 789

abbrev pub heartbeat : Bytes
heartbeat = b'0' ∷ []

abbrev pub test_request : Bytes
test_request = b'1' ∷ []

abbrev pub resend_request : Bytes
resend_request = b'2' ∷ []

abbrev pub reject : Bytes
reject = b'3' ∷ []

abbrev pub sequence_reset : Bytes
sequence_reset = b'4' ∷ []

abbrev pub logout : Bytes
logout = b'5' ∷ []

abbrev pub execution_report : Bytes
execution_report = b'8' ∷ []

abbrev pub order_cancel_reject : Bytes
order_cancel_reject = b'9' ∷ []

abbrev pub logon : Bytes
logon = b'A' ∷ []

abbrev pub new_order_single : Bytes
new_order_single = b'D' ∷ []

abbrev pub order_cancel_request : Bytes
order_cancel_request = b'F' ∷ []

abbrev pub order_cancel_replace_request : Bytes
order_cancel_replace_request = b'G' ∷ []

abbrev pub xml_non_fix : Bytes
xml_non_fix = b'n' ∷ []

abbrev pub encrypt_method_none : Bytes
encrypt_method_none = b'0' ∷ []

abbrev pub required_tag_missing : Bytes
required_tag_missing = b'1' ∷ []

abbrev pub value_is_incorrect : Bytes
value_is_incorrect = b'5' ∷ []

abbrev pub comp_id_problem : Bytes
comp_id_problem = b'9' ∷ []

abbrev pub other : Bytes
other = b'9' ∷ b'9' ∷ []

abbrev pub status_new : Bytes
status_new = b'0' ∷ []

abbrev pub status_replaced : Bytes
status_replaced = b'5' ∷ []

abbrev pub status_pending_cancel : Bytes
status_pending_cancel = b'6' ∷ []

abbrev pub status_pending_replace : Bytes
status_pending_replace = b'E' ∷ []

abbrev pub exec_type_replaced : Bytes
exec_type_replaced = b'5' ∷ []
