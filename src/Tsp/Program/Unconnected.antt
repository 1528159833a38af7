-- ===== src/Tsp/Program/Unconnected.antt =====
-- 7.MDF-Majordomo Protocol/client/main.cpp and 9.TSP-Titanic Service Protocol/client/main.cpp: the
-- clients' programs make a session and use it as the constructor leaves it.
use zero_mq_rfc_implementati.Base.Zmqpp.{Zmqpp}
use zero_mq_rfc_implementati.Mdp.ClientApi
use zero_mq_rfc_implementati.Mdp.ClientMain
use zero_mq_rfc_implementati.Tsp.Client
