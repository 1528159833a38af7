-- ===== src/Ppp/Constants.antt =====
-- 6.PPP-Paranoid Pirate Protocol/constant.hpp. Times are in milliseconds.
use zero_mq_rfc_implementati.Base.{ℕ}

abbrev pub heartbeat_liveness : ℕ
heartbeat_liveness = 5

abbrev pub heartbeat_interval : ℕ
heartbeat_interval = 1000

abbrev pub interval_init : ℕ
interval_init = 1000

abbrev pub interval_max : ℕ
interval_max = 32000

abbrev pub request_retries : ℕ
request_retries = 3
