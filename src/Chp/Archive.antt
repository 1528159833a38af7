-- ===== src/Chp/Archive.antt =====
-- The text archives of Boost.Serialization that 12.CHP-Clustered Hashmap Protocol/kvmsg.cpp keeps its
-- properties in: a parameter.
use zero_mq_rfc_implementati.Base.{Bytes, is_empty, false, Result, ok, ◌≡◌}
use zero_mq_rfc_implementati.Base.Dict.{Dict}

-- An archive starts with a header, and reads back as the map it was written from.
pub record Archive : Type 0 where
  pub encode : Dict Bytes → Bytes
  pub decode : Bytes → Result (Dict Bytes)
  pub encode_lem : (d : Dict Bytes) → is_empty (encode d) ≡ false
  pub decode-encode : (d : Dict Bytes) → decode (encode d) ≡ ok d
