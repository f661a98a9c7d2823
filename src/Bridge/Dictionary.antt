-- ===== src/Bridge/Dictionary.antt =====
-- The driver's copy of the object dictionary, as
-- canopen_base_driver/include/canopen_base_driver/lely_driver_bridge.hpp uses it: lely's `CODev`,
-- whose operations are a parameter. A value is the bit pattern of its type, which `memcpy` carries
-- between a value and the low bytes of a 32-bit word on a little-endian machine.
use ros2_canopen.Base.{ℕ, ◌%◌, ◌≡◌, Bool, true, false, Option, none, some}

-- `CO_DEFTYPE_*`, as far as the code names them.
pub data CoType : Type 0 where
  boolean unsigned8 integer8 unsigned16 integer16 unsigned32 integer32 real32 : CoType
  other : ℕ → CoType

-- The number of values of the type.
abbrev pub limit : CoType → ℕ
limit boolean = 256
limit unsigned8 = 256
limit integer8 = 256
limit unsigned16 = 65536
limit integer16 = 65536
limit unsigned32 = 4294967296
limit integer32 = 4294967296
limit real32 = 4294967296
limit (other n) = 1

-- The cases of the switches.
abbrev pub is_supported : CoType → Bool
is_supported (other n) = false
is_supported t = true

-- `T value = 0; memcpy(&value, &word, sizeof(value))`
abbrev pub low_bytes : CoType → ℕ → ℕ
low_bytes boolean word = word % 256
low_bytes unsigned8 word = word % 256
low_bytes integer8 word = word % 256
low_bytes unsigned16 word = word % 65536
low_bytes integer16 word = word % 65536
low_bytes unsigned32 word = word % 4294967296
low_bytes integer32 word = word % 4294967296
low_bytes real32 word = word % 4294967296
low_bytes (other n) word = 0

-- `COData`
pub record CoData : Type 0 where
  pub index : ℕ
  pub subindex : ℕ
  pub word : ℕ

-- `find` with `getType`, `getVal<T>` and `setVal<T>`.
pub record Library (D : Type 0) : Type 0 where
  pub kind : D → ℕ → ℕ → Option CoType
  pub get_val : CoType → D → ℕ → ℕ → ℕ
  pub set_val : CoType → ℕ → ℕ → ℕ → D → D

-- What the code relies on: a value of its type that is set is there, and no object comes or goes.
abbrev pub IsDictionary : {D : Type 0} → Library D → Type 0
IsDictionary {D = D} library =
    ((d : D) (t : CoType) (i j v : ℕ)
      → library.kind d i j ≡ some t
      → library.get_val t (library.set_val t i j v d) i j ≡ v)
    × ((d : D) (t : CoType) (i j v k l : ℕ)
        → library.kind (library.set_val t i j v d) k l ≡ library.kind d k l)

-- `has_object`
abbrev pub exists_in : Option CoType → Bool
exists_in none = false
exists_in (some t) = true

unfoldable pub has_object : {D : Type 0} → Library D → D → ℕ → ℕ → Bool
has_object library d idx subidx = exists_in (library.kind d idx subidx)
