-- ===== src/Utils/Config/Loaded.antt =====
-- utils/config_parser.cpp: what `load` makes of an object, whole.
use zero_mq_rfc_implementati.Base.{
  ◌≡◌, refl, ◌∙◌, sym, ap, Bytes, codes, ◌==◌, ==_iff, Bool, true, false, not, ◌&&◌, Bool-cases,
  inl, inr, Option, none, some, List, [], ◌∷◌, ◌++◌, append_assoc, append-nil, if◌then◌else◌, ok,
  err, thrown, arith,
}
use zero_mq_rfc_implementati.Base.Dict.{lookup, insert, lookup-insert, contains-eq}
use zero_mq_rfc_implementati.Utils.Config.{
  ServiceInfo, text, elements, Items, Config, push_services, load_item, load, or_empty, get_value,
  empty_config,
}

abbrev pub all_services : List (Option ServiceInfo) → Bool
all_services [] = true
all_services (none ∷ es) = false
all_services (some s ∷ es) = all_services es

-- Only "services" is no text, and each of its elements is a service.
abbrev pub converts : Items → Bool
converts [] = true
converts ((k, text v) ∷ is) = not (k == codes "services") && converts is
converts ((k, elements es) ∷ is) = ((k == codes "services") && all_services es) && converts is

abbrev pub infos : List (Option ServiceInfo) → List ServiceInfo
infos [] = []
infos (none ∷ es) = infos es
infos (some s ∷ es) = s ∷ infos es

abbrev pub services_in : Items → List ServiceInfo
services_in [] = []
services_in ((k, text v) ∷ is) = services_in is
services_in ((k, elements es) ∷ is) = infos es ++ services_in is

-- The text under a key.
abbrev pub text_in : Bytes → Items → Option Bytes
text_in k [] = none
text_in k ((j, text v) ∷ is) = if j == k then some v else text_in k is
text_in k ((j, elements es) ∷ is) = text_in k is

abbrev pub loaded : Items → Config → Config
loaded [] c = c
loaded ((k, text v) ∷ is) c = loaded is (record c { base_info = insert k v c.base_info })
loaded ((k, elements es) ∷ is) c =
    loaded is (record c { service_list = c.service_list ++ infos es })

push_services_lem :
    (es : List (Option ServiceInfo)) (c : Config)
    → push_services es c ≡ (
        if all_services es
        then ok (record c { service_list = c.service_list ++ infos es })
        else err thrown)
unfolding push_services
push_services_lem [] c =
    ap (λ l. ok (record c { service_list = l })) (sym (append-nil c.service_list))
push_services_lem (none ∷ es) c = refl
push_services_lem (some s ∷ es) c =
    push_services_lem es (record c { service_list = c.service_list ++ s ∷ [] })
    ∙ ap (λ l. if all_services es then ok (record c { service_list = l }) else err thrown)
        (append_assoc c.service_list (s ∷ []) (infos es))

pub load_lem :
    (is : Items) (c : Config) → load is c ≡ (if converts is then ok (loaded is c) else err thrown)
unfolding load load_item
load_lem [] c = refl
load_lem ((k, text v) ∷ is) c = elim (Bool-cases (k == codes "services")) [
  | inl named ↦ rw named refl
  | inr other ↦ rw other (load_lem is (record c { base_info = insert k v c.base_info }))
]
load_lem ((k, elements es) ∷ is) c = elim (Bool-cases (k == codes "services")) [
  | inr other ↦ rw other refl
  | inl named ↦
      rw (named, push_services_lem es c)
        (elim (Bool-cases (all_services es)) [
          | inl all ↦ rw all (load_lem is (record c { service_list = c.service_list ++ infos es }))
          | inr bad ↦ rw bad refl
        ])
]

abbrev or_first : Option Bytes → Option Bytes → Option Bytes
or_first none o = o
or_first (some v) o = some v

lookup-loaded :
    (k : Bytes) (is : Items) (c : Config)
    → lookup k (loaded is c).base_info ≡ or_first (lookup k c.base_info) (text_in k is)
lookup-loaded k [] c = ground arith
lookup-loaded k ((j, text v) ∷ is) c = ground (
  arith,
  lookup-loaded k is (record c { base_info = insert j v c.base_info }),
  lookup-insert j k v c.base_info,
  contains-eq j c.base_info,
  ==_iff j k,
)
lookup-loaded k ((j, elements es) ∷ is) c =
    lookup-loaded k is (record c { service_list = c.service_list ++ infos es })

lookup-empty : (k : Bytes) → lookup {V = Bytes} k [] ≡ none
unfolding lookup
lookup-empty k = refl

pub get_value-loaded :
    (k : Bytes) (is : Items) → get_value k (loaded is empty_config) ≡ or_empty (text_in k is)
unfolding get_value
get_value-loaded k is = ground (
  arith,
  lookup-loaded k is empty_config,
  lookup-empty k,
  contains-eq k (loaded is empty_config).base_info,
)

pub service_list-loaded :
    (is : Items) (c : Config) → (loaded is c).service_list ≡ c.service_list ++ services_in is
service_list-loaded [] c = sym (append-nil c.service_list)
service_list-loaded ((k, text v) ∷ is) c =
    service_list-loaded is (record c { base_info = insert k v c.base_info })
service_list-loaded ((k, elements es) ∷ is) c =
    service_list-loaded is (record c { service_list = c.service_list ++ infos es })
    ∙ append_assoc c.service_list (infos es) (services_in is)
