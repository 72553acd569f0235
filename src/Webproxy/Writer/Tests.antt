-- ===== src/Webproxy/Writer/Tests.antt =====
-- A round of the writer at a concrete queue.
use teleparse.Base.{◌+◌, ◌<◌, ◌≡◌, refl, List, [], ◌∷◌, ◌++◌, some, arith, length}
use teleparse.Base.Results.{ok}
use teleparse.Webproxy.Frame.{
  Frame, known_type, type_data, type_close, header_size, max_payload, decode_all,
}
use teleparse.Webproxy.Frame.Wire.{IsWire}
use teleparse.Webproxy.Frame.Batch.{body}
use teleparse.Webproxy.Writer.{default_batch_bytes, run_round}
use teleparse.Webproxy.Writer.Batches.{run_round_lem}

abbrev first : Frame
first = record { typ = type_data; stream_id = 1; payload = 8 ∷ [] }

abbrev second : Frame
second = record { typ = type_close; stream_id = 1; payload = [] }

first-IsWire : IsWire first
first-IsWire = record {
  known = unfold known_type in refl;
  id_fits = omega arith;
  payload_fits = omega arith;
}

second-IsWire : IsWire second
second-IsWire = record {
  known = unfold known_type in refl;
  id_fits = omega arith;
  payload_fits = omega arith;
}

run_round_lem_example :
    (taken : List Frame) × (rest : List Frame) × (second ∷ [] ≡ taken ++ rest)
    × (run_round first (second ∷ []) ≡ ok (body (first ∷ taken), rest))
    × (length (body (first ∷ taken)) < default_batch_bytes + (header_size + max_payload))
    × (decode_all (body (first ∷ taken)) ≡ some (ok (first ∷ taken)))
run_round_lem_example = run_round_lem first (second ∷ []) (first-IsWire, (second-IsWire, tt))
