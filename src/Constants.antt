-- ===== src/Constants.antt =====
-- The protocol constants of whisperv6/doc.go. The three lengths that come from go-ethereum,
-- common.HashLength and crypto.SignatureLength, are the documented 32 and 65.
use whisper.Base.{ℕ}

abbrev pub status_code : ℕ
status_code = 0

abbrev pub messages_code : ℕ
messages_code = 1

abbrev pub pow_requirement_code : ℕ
pow_requirement_code = 2

abbrev pub bloom_filter_ex_code : ℕ
bloom_filter_ex_code = 3

abbrev pub batch_acknowledged_code : ℕ
batch_acknowledged_code = 11

abbrev pub message_response_code : ℕ
message_response_code = 12

abbrev pub p2p_sync_request_code : ℕ
p2p_sync_request_code = 123

abbrev pub p2p_sync_response_code : ℕ
p2p_sync_response_code = 124

abbrev pub p2p_request_complete_code : ℕ
p2p_request_complete_code = 125

abbrev pub p2p_request_code : ℕ
p2p_request_code = 126

abbrev pub p2p_message_code : ℕ
p2p_message_code = 127

abbrev pub size_mask : ℕ
size_mask = 3

abbrev pub signature_flag : ℕ
signature_flag = 4

abbrev pub topic_length : ℕ
topic_length = 4

abbrev pub signature_length : ℕ
signature_length = 65

abbrev pub hash_length : ℕ
hash_length = 32

abbrev pub aes_key_length : ℕ
aes_key_length = 32

abbrev pub aes_nonce_length : ℕ
aes_nonce_length = 12

abbrev pub key_id_size : ℕ
key_id_size = 32

abbrev pub bloom_filter_size : ℕ
bloom_filter_size = 64

abbrev pub flags_length : ℕ
flags_length = 1

abbrev pub envelope_header_length : ℕ
envelope_header_length = 20

abbrev pub max_message_size : ℕ
max_message_size = 10485760

abbrev pub pad_size_limit : ℕ
pad_size_limit = 256

abbrev pub message_queue_limit : ℕ
message_queue_limit = 1024

abbrev pub default_ttl : ℕ
default_ttl = 50

abbrev pub default_sync_allowance : ℕ
default_sync_allowance = 10

abbrev pub max_limit_in_sync_mail_request : ℕ
max_limit_in_sync_mail_request = 1000

abbrev pub max_limit_in_messages_request : ℕ
max_limit_in_messages_request = 1000

-- `iota + 1` at the thirty-fifth entry of its block, counted from 0, and the next one.
abbrev pub envelope_time_not_synced : ℕ
envelope_time_not_synced = 36

abbrev pub envelope_other_error : ℕ
envelope_other_error = 37

abbrev pub cursor_size : ℕ
cursor_size = 36

-- Values of a uint32 wrap here.
abbrev pub u32_modulus : ℕ
u32_modulus = 4294967296
