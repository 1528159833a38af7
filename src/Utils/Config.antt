-- ===== src/Utils/Config.antt =====
-- utils/config_parser.cpp: the configuration, from the object that the JSON library finds in the file.
pub mod Loaded
use zero_mq_rfc_implementati.Base.{
  ℕ, Bytes, codes, ◌==◌, Option, none, some, List, [], ◌∷◌, ◌++◌, if◌then◌else◌, Result, ok, err,
  thrown, ◌>>=◌,
}
use zero_mq_rfc_implementati.Base.Dict.{Dict, lookup, contains, insert}

pub record ServiceInfo : Type 0 where
  pub name : Bytes
  pub quantity : ℕ

-- A value of the object: a text, or a value that is none, with what its elements convert to as services;
-- `none` is an element that does not. The library takes a value that is no list for its only element.
pub data Value : Type 0 where
  text : Bytes → Value
  elements : List (Option ServiceInfo) → Value

-- The object has each key once: of a key that the file repeats the library keeps the last value.
abbrev pub Items : Type 0
Items = Dict Value

pub record Config : Type 0 where
  pub base_info : Dict Bytes
  pub service_list : List ServiceInfo

-- The loop over the elements of "services".
unfoldable pub push_services : List (Option ServiceInfo) → Config → Result Config
push_services [] c = ok c
push_services (none ∷ es) c = err thrown
push_services (some s ∷ es) c =
    push_services es (record c { service_list = c.service_list ++ s ∷ [] })

unfoldable pub load_item : Bytes → Value → Config → Result Config
unfolding push_services
load_item k (text v) c =
    if k == codes "services"
    then err thrown
    else ok (record c { base_info = insert k v c.base_info })
load_item k (elements es) c = if k == codes "services" then push_services es c else err thrown

-- The loop of `load`.
unfoldable pub load : Items → Config → Result Config
unfolding load_item
load [] c = ok c
load ((k, v) ∷ is) c = do c' ← load_item k v c; load is c'

abbrev pub or_empty : Option Bytes → Bytes
or_empty none = []
or_empty (some v) = v

unfoldable pub get_value : Bytes → Config → Bytes
get_value k c = if contains k c.base_info then or_empty (lookup k c.base_info) else []

abbrev pub empty_config : Config
empty_config = record { base_info = []; service_list = [] }
