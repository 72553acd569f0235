-- ===== src/Webproxy/Writer.antt =====
-- internal/webproxy/session.go, `carrierWriter.run`: queued frames are sent in batches.
pub mod Batches
mod Tests
use teleparse.Base.{ℕ, ◌+◌, ◌*◌, Bool, ◌&&◌, List, [], ◌∷◌, ◌++◌, ltb, length, if◌then◌else◌}
use teleparse.Base.Results.{Result, ok, err, ◌>>=◌}
use teleparse.Webproxy.Frame.{Frame, EncodePanic, max_batch_frames, encode}

-- `DefaultBatchBytes` in internal/webproxy/carrier.go
abbrev pub default_batch_bytes : ℕ
default_batch_bytes = 2 * 1024 * 1024

-- The loop `drain`: the list is what the queue holds at that moment. The batch, and the frames that
-- stay queued.
unfoldable pub drain : List ℕ → ℕ → List Frame → Result EncodePanic (List ℕ × List Frame)
drain batch count [] = ok (batch, [])
drain batch count (next ∷ queue) =
    let more = encode next >>= λ bytes. drain (batch ++ bytes) (count + 1) queue in
    if ltb (length batch) default_batch_bytes && ltb count max_batch_frames
    then more
    else ok (batch, next ∷ queue)

-- One round of the loop of `run`, once it has taken `frame` from the queue: what is sent.
unfoldable pub run_round : Frame → List Frame → Result EncodePanic (List ℕ × List Frame)
run_round frame queue = encode frame >>= λ bytes. drain bytes 1 queue
