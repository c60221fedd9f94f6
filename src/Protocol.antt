-- ===== src/Protocol.antt =====
-- The constants of src/defs.h, include/flora-cli.h and include/flora-svc.h.
use flora.Base.{ℕ, ◌%◌, Bool, ℤ, pos, negsuc, nat_beq}

abbrev pub flora_version : ℕ
flora_version = 4

abbrev pub cmd_auth_req : ℤ
cmd_auth_req = pos 0

abbrev pub cmd_subscribe_req : ℤ
cmd_subscribe_req = pos 1

abbrev pub cmd_unsubscribe_req : ℤ
cmd_unsubscribe_req = pos 2

abbrev pub cmd_post_req : ℤ
cmd_post_req = pos 3

abbrev pub cmd_reply_req : ℤ
cmd_reply_req = pos 4

abbrev pub cmd_declare_method_req : ℤ
cmd_declare_method_req = pos 5

abbrev pub cmd_remove_method_req : ℤ
cmd_remove_method_req = pos 6

abbrev pub cmd_call_req : ℤ
cmd_call_req = pos 7

abbrev pub cmd_ping_req : ℤ
cmd_ping_req = pos 8

abbrev pub cmd_auth_resp : ℤ
cmd_auth_resp = pos 101

abbrev pub cmd_post_resp : ℤ
cmd_post_resp = pos 102

abbrev pub cmd_reply_resp : ℤ
cmd_reply_resp = pos 103

abbrev pub cmd_call_resp : ℤ
cmd_call_resp = pos 104

abbrev pub cmd_monitor_resp : ℤ
cmd_monitor_resp = pos 105

abbrev pub cmd_pong_resp : ℤ
cmd_pong_resp = pos 106

abbrev pub msg_handler_count : ℕ
msg_handler_count = 9

abbrev pub monitor_list_all : ℤ
monitor_list_all = pos 0

abbrev pub monitor_list_add : ℤ
monitor_list_add = pos 1

abbrev pub monitor_list_remove : ℤ
monitor_list_remove = pos 2

abbrev pub monitor_subtype_num : ℕ
monitor_subtype_num = 11

abbrev pub cli_success : ℤ
cli_success = pos 0

abbrev pub cli_eauth : ℤ
cli_eauth = negsuc 0

abbrev pub cli_etimeout : ℤ
cli_etimeout = negsuc 3

abbrev pub cli_enexists : ℤ
cli_enexists = negsuc 4

abbrev pub cli_edupid : ℤ
cli_edupid = negsuc 5

abbrev pub default_msg_buf_size : ℕ
default_msg_buf_size = 32768

abbrev pub clear_subscription_time_threshold : ℕ
clear_subscription_time_threshold = 10

abbrev pub clear_subscription_threshold : ℕ
clear_subscription_threshold = 50

abbrev pub default_call_timeout : ℕ
default_call_timeout = 200

abbrev pub msgtype_persist : ℕ
msgtype_persist = 1

abbrev pub number_of_msgtype : ℕ
number_of_msgtype = 2

-- Bit 0 of the flags of a client is FLORA_CLI_FLAG_MONITOR, bit 0 of the flags of a dispatcher is
-- FLORA_DISP_FLAG_MONITOR.
abbrev pub has_monitor_flag : ℕ → Bool
has_monitor_flag flags = nat_beq (flags % 2) 1

abbrev pub cli_einval : ℤ
cli_einval = negsuc 1

abbrev pub cli_econn : ℤ
cli_econn = negsuc 2

abbrev pub cli_emonitor : ℤ
cli_emonitor = negsuc 9

abbrev pub cli_einsuff_buf : ℤ
cli_einsuff_buf = negsuc 6

abbrev pub cli_eclosed : ℤ
cli_eclosed = negsuc 7

abbrev pub cli_edeadlock : ℤ
cli_edeadlock = negsuc 8

-- The return code of a call whose callee drops the reply.
abbrev pub call_retcode_noresp : ℤ
call_retcode_noresp = negsuc 1999999999
