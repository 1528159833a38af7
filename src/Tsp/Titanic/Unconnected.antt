-- ===== src/Tsp/Titanic/Unconnected.antt =====
-- 9.TSP-Titanic Service Protocol/titanic/titanic.cpp: the passes of the program, whose sessions have no
-- socket.
use zero_mq_rfc_implementati.Base.{Bool, true, false, List, [], ◌∷◌}
use zero_mq_rfc_implementati.Base.Zmqpp.{Zmqpp}
use zero_mq_rfc_implementati.Tsp.Directory.{Directory}
use zero_mq_rfc_implementati.Tsp.Queue.Scan.{Entry}

-- Whether an entry is pending.
abbrev pub some_pending : List Entry → Bool
some_pending [] = false
some_pending ((true, v) ∷ es) = true
some_pending ((false, v) ∷ es) = some_pending es
