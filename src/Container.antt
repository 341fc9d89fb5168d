-- ===== src/Container.antt =====
-- `Container` of include/EmbeddedSerialFiller/Container.h: a structure laid over an array of bytes. The
-- member `value` points into the bytes of a container, which is its own only where a constructor of the
-- class has made it; so the containers stand in a list, and `value` is a place in it.
pub mod Aliasing
use embedded_serial_filler.Base.{
  ℕ, ◌≡◌, List, [], ◌∷◌, ◌++◌, length, leb, ◌==◌, if◌then◌else◌, get_elem?, set, Option, none, some,
  Result, ok, fault, assertion, ◌>>=◌,
}
use embedded_serial_filler.Etl.{Etl}

-- `STRUCT`, which its user supplies: its size, and what is in the memory of an object once it has been
-- constructed there. Without a constructor nor initialisers, all is left as it was.
pub record Struct : Type 0 where
  pub size : ℕ
  pub construct : List ℕ → List ℕ
  pub length-construct : (memory : List ℕ) → length memory ≡ size → length (construct memory) ≡ size

pub record Container : Type 0 where
  pub value : ℕ
  pub bytes : List ℕ

abbrev pub Containers : Type 0
Containers = List Container

module _ (etl : Etl) (struct : Struct) where
  -- `Container()`, as a new element at the end.
  unfoldable pub new_container : ℕ → Containers → Result Containers
  new_container max_size all =
      if leb struct.size max_size
      then (etl.resize [] struct.size >>= λ bytes.
          ok (all ++ record { value = length all; bytes = struct.construct bytes } ∷ []))
      else fault assertion

  -- `Container( BYTE_ARRAY& input )`.
  unfoldable pub of_bytes : List ℕ → Containers → Result Containers
  of_bytes input all =
      if length input == struct.size
      then ok (all ++ record { value = length all; bytes = struct.construct input } ∷ [])
      else fault assertion

-- The copy constructor, which the class leaves to the compiler: member by member.
unfoldable pub copy : ℕ → Containers → Option Containers
copy place all = elim (get_elem? all place) [ some it ↦ some (all ++ it ∷ []) | none ↦ none ]

-- `container.bytes`, `*container.value`, and an assignment to the latter.
unfoldable pub bytes_at : ℕ → Containers → Option (List ℕ)
bytes_at place all = elim (get_elem? all place) [ some it ↦ some it.bytes | none ↦ none ]

unfoldable pub value_at : ℕ → Containers → Option (List ℕ)
value_at place all = elim (get_elem? all place) [ some it ↦ bytes_at it.value all | none ↦ none ]

unfoldable pub assign_value : ℕ → List ℕ → Containers → Option Containers
assign_value place object all = elim (get_elem? all place) [
  | some it ↦ (elim (get_elem? all it.value) [
    | some target ↦ some (set all it.value (record target { bytes = object }))
    | none ↦ none
  ])
  | none ↦ none
]
