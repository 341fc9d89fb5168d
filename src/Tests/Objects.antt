-- ===== src/Tests/Objects.antt =====
-- include/EmbeddedSerialFiller/Container.h at concrete inputs.
use embedded_serial_filler.Base.{◌≡◌, refl, [], ◌∷◌, some}
use embedded_serial_filler.Container.{Containers, copy, bytes_at, value_at, assign_value}
use embedded_serial_filler.Container.Aliasing.{assign_value-copy}
use embedded_serial_filler.Tests.{some_raw}

abbrev one_container : Containers
one_container = record { value = 0; bytes = 1 ∷ (2 ∷ (3 ∷ [])) } ∷ []

assign_value-copy_example :
    (all' all'' : Containers) × (copy 0 one_container ≡ some all')
    × (assign_value 1 some_raw all' ≡ some all'')
    × (value_at 1 all'' ≡ some some_raw)
    × (bytes_at 0 all'' ≡ some some_raw)
    × (bytes_at 1 all'' ≡ some (1 ∷ (2 ∷ (3 ∷ []))))
assign_value-copy_example =
    assign_value-copy one_container 0 (record { value = 0; bytes = 1 ∷ (2 ∷ (3 ∷ [])) }) refl refl
      some_raw
