-- ===== src/Flp/Constants.antt =====
-- 10.FLP-Freelance Protocol/flp_constant.hpp. Times are in milliseconds.
use zero_mq_rfc_implementati.Base.{ℕ, Bytes, codes}

abbrev pub ping_interval : ℕ
ping_interval = 2000

abbrev pub server_ttl : ℕ
server_ttl = 6000

abbrev pub global_timeout : ℕ
global_timeout = 3000

abbrev pub command_connect : Bytes
command_connect = codes "CONNECT"

abbrev pub command_request : Bytes
command_request = codes "REQUEST"

abbrev pub command_ping : Bytes
command_ping = codes "PING"

abbrev pub command_pong : Bytes
command_pong = codes "PONG"
