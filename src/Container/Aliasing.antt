-- ===== src/Container/Aliasing.antt =====
-- What an assignment through `value` of a `Container` of include/EmbeddedSerialFiller/Container.h changes.
use embedded_serial_filler.Base.{
  ℕ, zero, suc, ◌≤◌, ◌<◌, ◌≡◌, refl, sym, ◌∙◌, ap, List, [], ◌∷◌, ◌++◌, length, length-set,
  get_elem?, get_elem?-append, set, replicate, length-replicate, take-nil, some, ok, arith,
}
use embedded_serial_filler.Definitions.{max_packet_size}
use embedded_serial_filler.Etl.{Etl}
use embedded_serial_filler.Container.{
  Struct, Container, Containers, new_container, of_bytes, copy, bytes_at, value_at, assign_value,
}

module _ {ℓ} {A : Type ℓ} where
  get_elem?-bound : (xs : List A) (i : ℕ) (x : A) → get_elem? xs i ≡ some x → i < length xs
  get_elem?-bound [] i x h = absurd (ground (arith, h))
  get_elem?-bound (y ∷ xs) zero x h = omega arith
  get_elem?-bound (y ∷ xs) (suc i) x h = omega (arith, get_elem?-bound xs i x h)

  get_elem?-append_left :
      (xs ys : List A) (i : ℕ) → i < length xs → get_elem? (xs ++ ys) i ≡ get_elem? xs i
  get_elem?-append_left [] ys i h = absurd (omega arith)
  get_elem?-append_left (x ∷ xs) ys zero h = refl
  get_elem?-append_left (x ∷ xs) ys (suc i) h = get_elem?-append_left xs ys i (omega arith)

  set-append_left :
      (xs ys : List A) (i : ℕ) (v : A) → i < length xs → set (xs ++ ys) i v ≡ set xs i v ++ ys
  set-append_left [] ys i v h = absurd (omega arith)
  set-append_left (x ∷ xs) ys zero v h = refl
  set-append_left (x ∷ xs) ys (suc i) v h =
      ap (λ l. x ∷ l) (set-append_left xs ys i v (omega arith))

  get_elem?-set : (xs : List A) (i : ℕ) (v : A) → i < length xs → get_elem? (set xs i v) i ≡ some v
  get_elem?-set [] i v h = absurd (omega arith)
  get_elem?-set (x ∷ xs) zero v h = refl
  get_elem?-set (x ∷ xs) (suc i) v h = get_elem?-set xs i v (omega arith)

bytes_at_lem :
    (place : ℕ) (all : Containers) (it : Container)
    → get_elem? all place ≡ some it
    → bytes_at place all ≡ some it.bytes
unfolding bytes_at
bytes_at_lem place all it h = rw (bytes_at, h) refl

-- `value` points to the container `target`.
value_at_lem :
    (place at : ℕ) (all : Containers) (it target : Container)
    → get_elem? all place ≡ some it
    → it.value ≡ at
    → get_elem? all at ≡ some target
    → value_at place all ≡ some target.bytes
unfolding value_at
value_at_lem place at all it target h e k = rw (value_at, h, e) (bytes_at_lem at all target k)

assign_value_lem :
    (place at : ℕ) (object : List ℕ) (all : Containers) (it target : Container)
    → get_elem? all place ≡ some it
    → it.value ≡ at
    → get_elem? all at ≡ some target
    → assign_value place object all ≡ some (set all at (record target { bytes = object }))
unfolding assign_value
assign_value_lem place at object all it target h e k =
    rw (assign_value, h, e, k) (ap (λ i. some (set all i (record target { bytes = object }))) e)

copy_lem :
    (place : ℕ) (all : Containers) (it : Container)
    → get_elem? all place ≡ some it
    → copy place all ≡ some (all ++ it ∷ [])
unfolding copy
copy_lem place all it h = rw (copy, h) refl

module _ (all : Containers) (place : ℕ) (it : Container) (here : get_elem? all place ≡ some it)
    (own : it.value ≡ place) (object : List ℕ) where
  bound : place < length all
  bound = get_elem?-bound all place it here

  assign_value-own :
      (value_at place all ≡ some it.bytes)
      × (bytes_at place all ≡ some it.bytes)
      × (all' : Containers) × (assign_value place object all ≡ some all')
      × (bytes_at place all' ≡ some object)
      × (value_at place all' ≡ some object)
  assign_value-own =
      let there = get_elem?-set all place (record it { bytes = object }) bound in
      (
        value_at_lem place place all it it here own here,
        bytes_at_lem place all it here,
        set all place (record it { bytes = object }),
        assign_value_lem place place object all it it here own here,
        bytes_at_lem place _ _ there,
        value_at_lem place place _ _ _ there own there,
      )

  -- The copy of a container whose `value` points to its own bytes shares them: an object that is
  -- assigned through `value` of the copy is read back from there, but it is the original whose
  -- `bytes` are now those of the object, while the copy's `bytes` are those from before.
  pub assign_value-copy :
      (all' all'' : Containers) × (copy place all ≡ some all')
      × (assign_value (length all) object all' ≡ some all'')
      × (value_at (length all) all'' ≡ some object)
      × (bytes_at place all'' ≡ some object)
      × (bytes_at (length all) all'' ≡ some it.bytes)
  assign_value-copy =
      let all' = all ++ it ∷ [] in
      let changed = set all place (record it { bytes = object }) in
      let original : get_elem? all' place ≡ some it =
        get_elem?-append_left all (it ∷ []) place bound ∙ here in
      let last : get_elem? (changed ++ it ∷ []) (length all) ≡ some it =
        ap (get_elem? (changed ++ it ∷ []))
          (sym (length-set all place (record it { bytes = object })))
        ∙ get_elem?-append changed it [] in
      let there : get_elem? (changed ++ it ∷ []) place ≡ some (record it { bytes = object }) =
        get_elem?-append_left changed (it ∷ []) place
          (rw (length-set all place (record it { bytes = object })) bound)
        ∙ get_elem?-set all place (record it { bytes = object }) bound in
      (
        all',
        changed ++ it ∷ [],
        copy_lem place all it here,
        assign_value_lem (length all) place object all' it it (get_elem?-append all it []) own
              original
            ∙ ap some (set-append_left all (it ∷ []) place (record it { bytes = object }) bound),
        value_at_lem (length all) place _ it _ last own there,
        bytes_at_lem place _ _ there,
        bytes_at_lem (length all) _ _ last,
      )

-- A structure that has no constructor and no initialisers.
abbrev pub IsPlain : Struct → Type 0
IsPlain struct = (memory : List ℕ) → length memory ≡ struct.size → struct.construct memory ≡ memory

module _ (etl : Etl) (struct : Struct) where
  new_container_lem :
      (max_size : ℕ) (all : Containers)
      → struct.size ≤ max_size
      → struct.size ≤ max_packet_size
      → (it : Container) × (it.value ≡ length all)
        × (length it.bytes ≡ struct.size)
        × (new_container etl struct max_size all ≡ ok (all ++ it ∷ []))
  unfolding new_container
  new_container_lem max_size all h k = (
    record { value = length all; bytes = struct.construct (replicate struct.size 0) },
    refl,
    struct.length-construct (replicate struct.size 0) (length-replicate struct.size 0),
    ground (arith, zeros),
  )
    where
      zeros : etl.resize [] struct.size ≡ ok (replicate struct.size 0)
      zeros =
          etl.resize_fits [] struct.size k
          ∙ rw (take-nil ℕ struct.size) (ap (λ n. ok (replicate n 0)) (omega arith))

  of_bytes_lem :
      (input : List ℕ) (all : Containers)
      → IsPlain struct
      → length input ≡ struct.size
      → of_bytes etl struct input all
        ≡ ok (all ++ record { value = length all; bytes = input } ∷ [])
  unfolding of_bytes
  of_bytes_lem input all plain h = ground (arith, h, plain input h)

  -- A structure goes from one `Container` to another: for a structure that has neither a
  -- constructor nor initialisers, so that constructing one leaves the memory as it was, of a size
  -- within `MAX_SIZE` and the array's capacity, an object of that size that is assigned through
  -- `value` of a new container makes up its `bytes`, and the container that is constructed from
  -- these bytes, among any others, has the same object at its `value`.
  container_exchange :
      (max_size : ℕ) (all others : Containers) (object : List ℕ)
      → IsPlain struct
      → struct.size ≤ max_size
      → struct.size ≤ max_packet_size
      → length object ≡ struct.size
      → (all' all'' others' : Containers) × (new_container etl struct max_size all ≡ ok all')
        × (assign_value (length all) object all' ≡ some all'')
        × (bytes : List ℕ) × (bytes_at (length all) all'' ≡ some bytes)
        × (of_bytes etl struct bytes others ≡ ok others')
        × (value_at (length others) others' ≡ some object)
  container_exchange max_size all others object plain h k l =
      let (it, own, _, made) = new_container_lem max_size all h k in
      let (_, _, all'', assigned, bytes, _) =
        assign_value-own (all ++ it ∷ []) (length all) it (get_elem?-append all it []) own object in
      (
        all ++ it ∷ [],
        all'',
        others ++ record { value = length others; bytes = object } ∷ [],
        made,
        assigned,
        object,
        bytes,
        of_bytes_lem object others plain l,
        value_at_lem (length others) (length others) _ _ _ (get_elem?-append others _ []) refl
            (get_elem?-append others _ []),
      )
