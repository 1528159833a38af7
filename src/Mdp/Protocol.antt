-- ===== src/Mdp/Protocol.antt =====
-- 7.MDF-Majordomo Protocol/mdp.h and constant.hpp. Times are in milliseconds.
use zero_mq_rfc_implementati.Base.{ℕ, ◌*◌, Bytes, codes, [], ◌∷◌}

abbrev pub heartbeat_liveness : ℕ
heartbeat_liveness = 3

abbrev pub heartbeat_interval : ℕ
heartbeat_interval = 2500

abbrev pub heartbeat_expiry : ℕ
heartbeat_expiry = heartbeat_interval * heartbeat_liveness

abbrev pub mdpc_client : Bytes
mdpc_client = codes "MDPC01"

abbrev pub mdpw_worker : Bytes
mdpw_worker = codes "MDPW01"

abbrev pub ready : Bytes
ready = 1 ∷ []

abbrev pub request : Bytes
request = 2 ∷ []

abbrev pub reply : Bytes
reply = 3 ∷ []

abbrev pub heartbeat : Bytes
heartbeat = 4 ∷ []

abbrev pub disconnect : Bytes
disconnect = 5 ∷ []

abbrev pub mmi_service : Bytes
mmi_service = codes "mmi.service"

abbrev pub mmi_found : Bytes
mmi_found = codes "200"

abbrev pub mmi_not_found : Bytes
mmi_not_found = codes "404"

abbrev pub mmi_not_implemented : Bytes
mmi_not_implemented = codes "501"

abbrev pub mmi_key : Bytes
mmi_key = codes "mmi."
