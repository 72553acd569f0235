-- ===== src/Webproxy/Writer/Batches.antt =====
-- A batch is the encodings of the frames at the front of the queue, and the relay can decode it.
use teleparse.Base.{
  ℕ, ◌+◌, ◌≤◌, ◌<◌, ◌≡◌, refl, ap, sym, subst, ◌∙◌, ◌&&◌, List, [], ◌∷◌, ◌++◌, append_assoc,
  append-nil, arith, some, length, length-append, All, All-append_left, ltb, Bool-cases, inl, inr,
}
use teleparse.Base.Results.{ok}
use teleparse.Webproxy.Frame.{
  Frame, header_size, max_payload, max_batch_frames, decoded, decode_all,
}
use teleparse.Webproxy.Frame.Wire.{IsWire, wire, encode-wire, length-wire}
use teleparse.Webproxy.Frame.Batch.{body, decode_all-body}
use teleparse.Webproxy.Writer.{default_batch_bytes, drain, run_round}

-- What the drain does from a batch of `count` frames.
record Drains (batch : List ℕ) (count : ℕ) (queue : List Frame) (r : List ℕ × List Frame)
    : Type 0 where
  taken : List Frame
  split : queue ≡ taken ++ r.1
  bytes : r.0 ≡ batch ++ body taken
  few : count + length taken ≤ max_batch_frames
  bounded : length r.0 < default_batch_bytes + (header_size + max_payload)

Drains-stop :
    (batch : List ℕ) (count : ℕ) (queue : List Frame)
    → count ≤ max_batch_frames
    → length batch < default_batch_bytes + (header_size + max_payload)
    → Drains batch count queue (batch, queue)
unfolding body
Drains-stop batch count queue c b = record {
  taken = [];
  split = refl;
  bytes = sym (append-nil batch);
  few = omega arith;
  bounded = b;
}

Drains-more :
    (batch : List ℕ) (count : ℕ) (f : Frame) (queue : List Frame) (r : List ℕ × List Frame)
    → Drains (batch ++ wire f) (count + 1) queue r
    → Drains batch count (f ∷ queue) r
unfolding body
Drains-more batch count f queue r d = record {
  taken = f ∷ d.taken;
  split = ap (λ t. f ∷ t) d.split;
  bytes = d.bytes ∙ append_assoc batch (wire f) (body d.taken);
  few = omega (arith, d.few);
  bounded = d.bounded;
}

drain-Drains :
    (queue : List Frame) (batch : List ℕ) (count : ℕ)
    → All IsWire queue
    → count ≤ max_batch_frames
    → length batch < default_batch_bytes + (header_size + max_payload)
    → (r : List ℕ × List Frame) × (drain batch count queue ≡ ok r) × Drains batch count queue r
unfolding drain
drain-Drains [] batch count w c b = ((batch, []), refl, Drains-stop batch count [] c b)
drain-Drains (f ∷ queue) batch count w c b =
    elim (Bool-cases (ltb (length batch) default_batch_bytes && ltb count max_batch_frames)) [
      | inr h ↦ ((batch, f ∷ queue), simp (h, drain), Drains-stop batch count (f ∷ queue) c b)
      | inl h ↦
          let (r, e, d) =
            drain-Drains queue (batch ++ wire f) (count + 1) w.1 (ground arith)
              (ground (arith, length-append batch (wire f), length-wire f, w.0.payload_fits)) in
          (r, simp (h, drain, encode-wire f w.0, e), Drains-more batch count f queue r d)
    ]

-- A round of the writer over frames that the protocol can carry does not panic. It sends the
-- encodings of the first frames of its queue, in order and without a gap; the rest stays queued;
-- the batch is below 2 MiB, one frame and its header aside; and `DecodeAll` reads back those frames.
pub run_round_lem :
    (frame : Frame) (queue : List Frame)
    → All IsWire (frame ∷ queue)
    → (taken : List Frame) × (rest : List Frame) × (queue ≡ taken ++ rest)
      × (run_round frame queue ≡ ok (body (frame ∷ taken), rest))
      × (length (body (frame ∷ taken)) < default_batch_bytes + (header_size + max_payload))
      × (decode_all (body (frame ∷ taken)) ≡ some (ok (frame ∷ taken)))
unfolding run_round
run_round_lem frame queue w =
    let ((batch, rest), e, d) =
      drain-Drains queue (wire frame) 1 w.1 (omega arith)
        (omega (arith, length-wire frame, w.0.payload_fits)) in
    let whole : batch ≡ body (frame ∷ d.taken) = unfold body in d.bytes in
    let valid : All IsWire d.taken =
      All-append_left IsWire d.taken rest (subst (All IsWire) d.split w.1) in
    (
      d.taken,
      rest,
      d.split,
      simp (encode-wire frame w.0, e) (ap (λ b. ok (b, rest)) whole),
      omega (arith, d.bounded, ap length whole),
      decode_all-body (frame ∷ d.taken) (w.0, valid) ∙ unfold decoded in ground (arith, d.few),
    )
