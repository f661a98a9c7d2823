-- ===== src/Bridge/Pdo/Laws.antt =====
-- What the map of the PDOs holds after both loops, and how it compares with the tests of single
-- objects (canopen_base_driver/include/canopen_base_driver/lely_driver_bridge.hpp).
use ros2_canopen.Base.{
  ℕ, zero, suc, ◌≡◌, ◌≢◌, ◌⊎◌, inl, inr, refl, arith, ◌+◌, ◌<◌, Bool, true, false, ◌&&◌, ◌==◌,
  if◌then◌else◌, Option, none, some, [], find, find-assign, assign, for_below, any_below,
  any_below_lem, Bool-cases, Option-cases,
}
use ros2_canopen.Bridge.Pdo.{
  PdoMapping, PdoMap, Objects, entry_index, entry_subindex, inner, put, lookup, rpdo_entry,
  tpdo_entry, read_entry, fetch_record, fetch, create_pdo_mapping, check_entries, check_obj_in_pdo,
  check_obj_rpdo, check_obj_tpdo,
}

-- A mapping parameter that exists and holds the object.
abbrev names : Option ℕ → ℕ → ℕ → Bool
names none idx subindex = false
names (some word) idx subindex = (entry_index word == idx) && (entry_subindex word == subindex)

lookup-put :
    (a b i j : ℕ) (v : PdoMapping) (m : PdoMap)
    → lookup i j (put a b v m) ≡ (if (a == i) && (b == j) then some v else lookup i j m)
unfolding lookup put
lookup-put a b i j v m =
    ground (
      arith,
      find-assign a i (assign b v (inner (find a m))) m,
      find-assign b j v (inner (find a m)),
    )

lookup-read_entry :
    (v : PdoMapping) (o : Option ℕ) (i j : ℕ) (m : PdoMap)
    → i ≢ 0
    → lookup i j (read_entry v o m) ≡ (if names o i j then some v else lookup i j m)
lookup-read_entry v none i j m h = refl
lookup-read_entry v (some word) i j m h =
    ground (arith, lookup-put (entry_index word) (entry_subindex word) i j v m)

lookup_empty : (i j : ℕ) → lookup i j [] ≡ none
unfolding lookup find
lookup_empty i j = refl

-- A loop of which every step sets one key or leaves the map.
lookup-for_below :
    (n : ℕ) (v : PdoMapping) (body : ℕ → PdoMap → PdoMap) (test : ℕ → Bool) (i j : ℕ)
    → ((k : ℕ) (m : PdoMap) → lookup i j (body k m) ≡ (if test k then some v else lookup i j m))
    → (m : PdoMap)
    → lookup i j (for_below n body m) ≡ (if any_below n test then some v else lookup i j m)
unfolding for_below any_below
lookup-for_below zero v body test i j h m = refl
lookup-for_below (suc n) v body test i j h m =
    ground (arith, h n (for_below n body m), lookup-for_below n v body test i j h m)

module _ (objects : Objects) where
  abbrev in_record : ℕ → ℕ → ℕ → Bool
  in_record index i j = any_below 8 (λ k. names (objects index (suc k)) i j)

  -- One of the eight entries of one of the 256 mapping records from `first` on holds the object.
  unfoldable pub in_pdo : ℕ → ℕ → ℕ → Bool
  in_pdo first i j = any_below 256 (λ k. in_record (first + k) i j)

  lookup-fetch_record :
      (index : ℕ) (v : PdoMapping) (i j : ℕ) (m : PdoMap)
      → i ≢ 0
      → lookup i j (fetch_record objects index v m)
        ≡ (if in_record index i j then some v else lookup i j m)
  unfolding fetch_record
  lookup-fetch_record index v i j m h =
      lookup-for_below 8 v (λ k. read_entry v (objects index (suc k)))
        (λ k. names (objects index (suc k)) i j) i j
        (λ k m. lookup-read_entry v (objects index (suc k)) i j m h) m

  lookup-fetch :
      (first : ℕ) (v : PdoMapping) (i j : ℕ) (m : PdoMap)
      → i ≢ 0
      → lookup i j (fetch objects first v m) ≡ (if in_pdo first i j then some v else lookup i j m)
  unfolding fetch in_pdo
  lookup-fetch first v i j m h =
      lookup-for_below 256 v (λ k. fetch_record objects (first + k) v)
        (λ k. in_record (first + k) i j) i j (λ k m. lookup-fetch_record (first + k) v i j m h) m

  -- For every dictionary and every object whose index is not 0: the map has it as TPDO only where
  -- some TPDO mapping parameter holds it, as RPDO only where some RPDO mapping parameter and no TPDO
  -- mapping parameter does, and not at all otherwise.
  pub lookup-create_pdo_mapping :
      (i j : ℕ)
      → i ≢ 0
      → lookup i j (create_pdo_mapping objects) ≡ (
          if in_pdo 0x1A00 i j
          then some tpdo_entry
          else if in_pdo 0x1600 i j
          then some rpdo_entry
          else none)
  unfolding create_pdo_mapping
  lookup-create_pdo_mapping i j h = ground (
    arith,
    lookup-fetch 0x1A00 tpdo_entry i j (fetch objects 0x1600 rpdo_entry []) h,
    lookup-fetch 0x1600 rpdo_entry i j [] h,
    lookup_empty i j,
  )

  check_entries-in :
      (index i left a b : ℕ)
      → check_entries objects index (suc i) left a b ≡ true
      → (k : ℕ) × (k < i + left) × (names (objects index (suc k)) a b ≡ true)
  unfolding check_entries
  check_entries-in index i zero a b h = absurd (ground (arith, h))
  check_entries-in index i (suc left) a b h = elim (Option-cases (objects index (suc i))) [
    | inl e ↦ absurd (ground (arith, h, e))
    | inr (word, e) ↦ elim (Bool-cases (names (some word) a b)) [
      | inl t ↦ (i, omega arith, rw e t)
      | inr t ↦
          let (k, lt, hit) = check_entries-in index (suc i) left a b (ground (arith, h, e, t)) in
          (k, omega arith, hit)
    ]
  ]

  any_below-pass : (n k : ℕ) (test : ℕ → Bool) → k < n → test k ≡ true → any_below n test ≡ true
  any_below-pass n k test lt h = elim (any_below_lem n test) [
    | inl (e, _) ↦ e
    | inr (_, all) ↦ absurd (ground (arith, h, all k lt))
  ]

  -- A test of one object, once passed, is right about the mapping parameters.
  pub checked_in_pdo :
      (first i j : ℕ)
      → any_below 256 (λ k. check_obj_in_pdo objects k first i j) ≡ true
      → in_pdo first i j ≡ true
  unfolding in_pdo check_obj_in_pdo
  checked_in_pdo first i j h =
      elim (any_below_lem 256 (λ k. check_obj_in_pdo objects k first i j)) [
        | inl (_, (k, lt, pass)) ↦
            let (l, below, hit) = check_entries-in (first + k) 0 8 i j pass in
            any_below-pass 256 k (λ k. in_record (first + k) i j) lt
              (any_below-pass 8 l (λ l. names (objects (first + k) (suc l)) i j) below hit)
        | inr (e, _) ↦ absurd (ground (arith, h, e))
      ]

  -- An object, its index not 0, that the single tests find in an RPDO is in the map; one that they
  -- find in a TPDO is in it as TPDO and not as RPDO, whatever RPDOs hold it.
  pub checked_is_mapped :
      (i j : ℕ)
      → i ≢ 0
      → ((check_obj_tpdo objects i j ≡ false)
          ⊎ (lookup i j (create_pdo_mapping objects) ≡ some tpdo_entry))
        × ((check_obj_rpdo objects i j ≡ false) ⊎ (lookup i j (create_pdo_mapping objects) ≢ none))
  checked_is_mapped i j h = (
    elim (Bool-cases (check_obj_tpdo objects i j)) [
      | inl t ↦ inr (ground (arith, lookup-create_pdo_mapping i j h, checked_in_pdo 0x1A00 i j t))
      | inr f ↦ inl f
    ],
    elim (Bool-cases (check_obj_rpdo objects i j)) [
      | inl t ↦ inr (ground (arith, lookup-create_pdo_mapping i j h, checked_in_pdo 0x1600 i j t))
      | inr f ↦ inl f
    ],
  )
