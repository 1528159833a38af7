-- ===== src/Base/Dict/Entries.antt =====
-- Predicates on all entries of a map, and maps with distinct keys.
use zero_mq_rfc_implementati.Base.{
  Bytes, ◌==◌, ==_iff, ==_refl, true, false, none, some, [], ◌∷◌, ◌≡◌, refl, arith, subst, inl, inr,
  Bool-cases, sym,
}
use zero_mq_rfc_implementati.Base.Dict.{
  Dict, lookup, contains, assign, insert, erase, map_values, lookup-assign, lookup-erase,
  lookup-map_values,
}

module _ {ℓ κ} {V : Type ℓ} (P : Bytes → V → Type κ) where
  -- `P` of every entry.
  abbrev pub Entries : Dict V → Type κ
  Entries [] = Unit
  Entries ((k, v) ∷ d) = P k v × Entries d

  pub lookup-Entries : (k : Bytes) (d : Dict V) {v : V} → Entries d → lookup k d ≡ some v → P k v
  unfolding lookup
  lookup-Entries k [] h e = cc
  lookup-Entries k ((j, w) ∷ d) {v} h e = elim (Bool-cases (j == k)) [
    | inl same ↦ subst (λ i. P i v) ((==_iff j k).0 same) (subst (P j) (ground arith) h.0)
    | inr other ↦ lookup-Entries k d h.1 (ground arith)
  ]

  pub assign-Entries : (k : Bytes) (v : V) (d : Dict V) → P k v → Entries d → Entries (assign k v d)
  unfolding assign
  assign-Entries k v [] p h = (p, tt)
  assign-Entries k v ((j, w) ∷ d) p h = elim (Bool-cases (j == k)) [
    | inl same ↦ rw same (subst (λ i. P i v) (sym ((==_iff j k).0 same)) p, h.1)
    | inr other ↦ rw other (h.0, assign-Entries k v d p h.1)
  ]

  pub insert-Entries : (k : Bytes) (v : V) (d : Dict V) → P k v → Entries d → Entries (insert k v d)
  unfolding insert
  insert-Entries k v d p h = elim (Bool-cases (contains k d)) [
    | inl old ↦ rw old h
    | inr new ↦ rw new (assign-Entries k v d p h)
  ]

  pub erase-Entries : (k : Bytes) (d : Dict V) → Entries d → Entries (erase k d)
  unfolding erase
  erase-Entries k [] h = h
  erase-Entries k ((j, w) ∷ d) h = elim (Bool-cases (j == k)) [
    | inl same ↦ rw same (erase-Entries k d h.1)
    | inr other ↦ rw other (h.0, erase-Entries k d h.1)
  ]

module _ {ℓ κ} {V : Type ℓ} (P Q : Bytes → V → Type κ) where
  pub Entries-mono :
      (d : Dict V) → ((k : Bytes) (v : V) → P k v → Q k v) → Entries P d → Entries Q d
  Entries-mono [] f h = tt
  Entries-mono ((j, w) ∷ d) f h = (f j w h.0, Entries-mono d f h.1)

  pub map_values-Entries :
      (f : V → V) (d : Dict V)
      → ((k : Bytes) (v : V) → P k v → Q k (f v))
      → Entries P d
      → Entries Q (map_values f d)
  unfolding map_values
  map_values-Entries f [] g h = tt
  map_values-Entries f ((j, w) ∷ d) g h = (g j w h.0, map_values-Entries f d g h.1)

module _ {ℓ} {V : Type ℓ} where
  -- No key twice.
  abbrev pub IsMap : Dict V → Type ℓ
  IsMap [] = Unit
  IsMap ((k, v) ∷ d) = (lookup k d ≡ none) × IsMap d

  pub assign-IsMap : (k : Bytes) (v : V) (d : Dict V) → IsMap d → IsMap (assign k v d)
  unfolding assign lookup
  assign-IsMap k v [] h = (refl, tt)
  assign-IsMap k v ((j, w) ∷ d) h =
      ground (arith, assign-IsMap k v d h.1, lookup-assign k j v d, ==_iff k j, ==_iff j k)

  pub insert-IsMap : (k : Bytes) (v : V) (d : Dict V) → IsMap d → IsMap (insert k v d)
  unfolding insert
  insert-IsMap k v d h = ground (arith, assign-IsMap k v d h)

  pub erase-IsMap : (k : Bytes) (d : Dict V) → IsMap d → IsMap (erase k d)
  unfolding erase
  erase-IsMap k [] h = h
  erase-IsMap k ((j, w) ∷ d) h = ground (arith, erase-IsMap k d h.1, lookup-erase k j d)

  pub map_values-IsMap : (f : V → V) (d : Dict V) → IsMap d → IsMap (map_values f d)
  unfolding map_values
  map_values-IsMap f [] h = h
  map_values-IsMap f ((j, w) ∷ d) h =
      ground (arith, map_values-IsMap f d h.1, lookup-map_values f j d)

  pub contains-assign :
      (k j : Bytes) (v : V) (d : Dict V) → contains j d ≡ true → contains j (assign k v d) ≡ true
  unfolding contains
  contains-assign k j v d h = ground (arith, lookup-assign k j v d)

  pub contains-assign_self : (k : Bytes) (v : V) (d : Dict V) → contains k (assign k v d) ≡ true
  unfolding contains
  contains-assign_self k v d = ground (arith, lookup-assign k k v d, ==_refl k)

  pub contains-insert :
      (k j : Bytes) (v : V) (d : Dict V) → contains j d ≡ true → contains j (insert k v d) ≡ true
  unfolding insert
  contains-insert k j v d h = ground (arith, contains-assign k j v d)

  pub contains-insert_self : (k : Bytes) (v : V) (d : Dict V) → contains k (insert k v d) ≡ true
  unfolding insert
  contains-insert_self k v d = ground (arith, contains-assign_self k v d)

  pub contains-erase :
      (k j : Bytes) (d : Dict V)
      → (k == j) ≡ false
      → contains j d ≡ true
      → contains j (erase k d) ≡ true
  unfolding contains
  contains-erase k j d n h = ground (arith, lookup-erase k j d)

  pub lookup_of_contains :
      (k : Bytes) (d : Dict V) → contains k d ≡ true → (v : V) × (lookup k d ≡ some v)
  unfolding contains
  lookup_of_contains k d h = ground arith

  pub contains_of_lookup :
      (k : Bytes) (d : Dict V) {v : V} → lookup k d ≡ some v → contains k d ≡ true
  unfolding contains
  contains_of_lookup k d h = ground arith
