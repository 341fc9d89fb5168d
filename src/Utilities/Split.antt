-- ===== src/Utilities/Split.antt =====
-- `Utilities::SplitPacket` of src/Utilities.cpp.
use embedded_serial_filler.Base.{
  ℕ, ◌+◌, ◌-◌, ◌*◌, ◌%◌, List, [], length, take, drop, get_or, ltb, if◌then◌else◌, Result, ok,
  fault, out_of_bounds, bad_range, assertion, ◌>>=◌,
}
use embedded_serial_filler.Definitions.{StatusCode, success, length_of_topic_too_long, size_t_mod}
use embedded_serial_filler.Etl.{Etl}

-- The return value, and what `topic` and `data` hold afterwards.
pub record Parts : Type 0 where
  pub status : StatusCode
  pub topic : List ℕ
  pub payload : List ℕ

-- `packet.size() - 2 - startAt` in `size_t`, which wraps.
abbrev pub available_bytes : ℕ → ℕ → ℕ
available_bytes size start_at = (size + 2 * size_t_mod - 2 - start_at) % size_t_mod

-- The elements from one iterator up to another: `bad_range` if the first does not come first, and
-- `out_of_bounds` if the second lies behind the end.
unfoldable pub slice : List ℕ → ℕ → ℕ → Result (List ℕ)
slice packet first last =
    if ltb last first
    then fault bad_range
    else if ltb (length packet) last
    then fault out_of_bounds
    else ok (take (last - first) (drop first packet))

module _ (etl : Etl) where
  unfoldable pub split_packet : List ℕ → ℕ → List ℕ → List ℕ → Result Parts
  split_packet packet start_at topic payload =
      if ltb start_at (length packet)
      then (let length_of_topic = get_or packet start_at 0 in
          if ltb (available_bytes (length packet) start_at) length_of_topic
          then ok (record { status = length_of_topic_too_long; topic = topic; payload = payload })
          else (do
            let topic_end = 1 + start_at + length_of_topic
            new_topic ← slice packet (1 + start_at) topic_end
            rest ← slice packet topic_end (length packet - 2)
            new_payload ← etl.insert_end [] rest
            ok (record {
              status = success;
              topic = etl.assign_string new_topic;
              payload = new_payload;
            })))
      else fault assertion
