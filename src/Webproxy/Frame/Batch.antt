-- ===== src/Webproxy/Frame/Batch.antt =====
-- `DecodeAll` on a carrier body: it ends, and it accepts the bodies of 1 to 4096 frames alone.
use teleparse.Base.{
  ℕ, zero, suc, ◌+◌, ◌≤◌, ◌<◌, ◌≡◌, refl, ap, sym, subst, ◌∙◌, List, [], ◌∷◌, ◌++◌, some, arith,
  length, All, All-append_right, length-append, append-nil, append_assoc, ltb, if◌then◌else◌, inl,
  inr,
}
use teleparse.Base.Results.{Result, ok, err, Result-cases}
use native.Mathlib.Decide.{ℕ_discrete}
use teleparse.Webproxy.Frame.{
  Frame, FrameError, too_many_frames, header_size, max_batch_frames, decode_next, decoded,
  decode_loop, decode_all,
}
use teleparse.Webproxy.Frame.Wire.{
  IsByte, IsWire, wire, length-wire, decode_next-wire, decode_next_sound, decode_next-shorter,
}

-- The body that holds these frames, one after the other.
unfoldable pub body : List Frame → List ℕ
body [] = []
body (f ∷ fs) = wire f ++ body fs

pub body-append : (fs gs : List Frame) → body (fs ++ gs) ≡ body fs ++ body gs
unfolding body
body-append [] gs = refl
body-append (f ∷ fs) gs = rw (body-append fs gs, append_assoc)

-- What `DecodeAll` answers for these frames.
abbrev verdict : List Frame → Result FrameError (List Frame)
verdict fs = if ltb max_batch_frames (length fs) then err too_many_frames else decoded fs

decode_next_full :
    (acc : List Frame) (buf : List ℕ)
    → length acc ≡ max_batch_frames
    → decode_next acc buf ≡ err too_many_frames
unfolding decode_next
decode_next_full acc buf h = ground arith

loop_round :
    (fuel : ℕ) (acc : List Frame) (buf : List ℕ) (f : Frame) (rest : List ℕ)
    → 0 < length buf
    → decode_next acc buf ≡ ok (f, rest)
    → decode_loop (suc fuel) acc buf ≡ decode_loop fuel (acc ++ (f ∷ [])) rest
unfolding decode_loop
loop_round fuel acc [] f rest h e = absurd (omega arith)
loop_round fuel acc (b ∷ bs) f rest h e = rw (e, decode_loop)

loop_stop :
    (fuel : ℕ) (acc : List Frame) (buf : List ℕ) (x : FrameError)
    → 0 < length buf
    → decode_next acc buf ≡ err x
    → decode_loop (suc fuel) acc buf ≡ some (err x)
unfolding decode_loop
loop_stop fuel acc [] x h e = absurd (omega arith)
loop_stop fuel acc (b ∷ bs) x h e = rw (e, decode_loop)

decode_loop-done : (fuel : ℕ) (acc : List Frame) → decode_loop fuel acc [] ≡ some (decoded acc)
unfolding decode_loop
decode_loop-done fuel acc = refl

decode_loop-body :
    (fs : List Frame) (fuel : ℕ) (acc : List Frame)
    → All IsWire fs
    → length acc ≤ max_batch_frames
    → length (body fs) ≤ fuel
    → decode_loop fuel acc (body fs) ≡ some (verdict (acc ++ fs))
unfolding body
decode_loop-body [] fuel acc w room enough =
    decode_loop-done fuel acc ∙ rw append-nil (ground arith)
decode_loop-body (f ∷ fs) zero acc w room enough =
    absurd (omega (arith, length-append (wire f) (body fs), length-wire f))
decode_loop-body (f ∷ fs) (suc fuel) acc w room enough = elim (ℕ_discrete (length acc) _) [
  | yes full ↦
      loop_stop fuel acc _ _ (omega (arith, size)) (decode_next_full acc _ full)
      ∙ ground (arith, length-append acc (f ∷ fs))
  | no more ↦
      loop_round fuel acc _ f (body fs) (omega (arith, size))
        (decode_next-wire acc f (body fs) w.0 more)
      ∙ decode_loop-body fs fuel (acc ++ (f ∷ [])) w.1 (omega (arith, length-append acc (f ∷ [])))
          (omega (arith, size))
      ∙ ap (λ (t : List Frame). some (verdict t)) (append_assoc acc (f ∷ []) fs)
]
  where
    size : length (wire f ++ body fs) ≡ header_size + length f.payload + length (body fs)
    size = omega (arith, length-append (wire f) (body fs), length-wire f)

-- `DecodeAll` reads back the frames of any body: 1 to 4096 of them are returned in order, none is
-- an empty batch, and more are refused.
pub decode_all-body :
    (fs : List Frame)
    → All IsWire fs
    → decode_all (body fs)
      ≡ some (if ltb max_batch_frames (length fs) then err too_many_frames else decoded fs)
unfolding decode_all
decode_all-body fs w = decode_loop-body fs (length (body fs)) [] w (omega arith) (omega arith)

decode_loop-total :
    (fuel : ℕ) (acc : List Frame) (buf : List ℕ)
    → length buf ≤ fuel
    → (r : Result FrameError (List Frame)) × (decode_loop fuel acc buf ≡ some r)
decode_loop-total fuel acc [] h = (decoded acc, decode_loop-done fuel acc)
decode_loop-total zero acc (b ∷ bs) h = absurd (omega arith)
decode_loop-total (suc fuel) acc (b ∷ bs) h = elim (Result-cases (decode_next acc (b ∷ bs))) [
  | inl ((f, rest), e) ↦
      let shorter = decode_next-shorter acc (b ∷ bs) f rest e in
      let (r, q) = decode_loop-total fuel (acc ++ (f ∷ [])) rest (omega (arith, shorter)) in
      (r, loop_round fuel acc (b ∷ bs) f rest (omega arith) e ∙ q)
  | inr (x, e) ↦ (err x, loop_stop fuel acc (b ∷ bs) x (omega arith) e)
]

-- The loop of `DecodeAll` ends on every input.
pub decode_all-total :
    (buf : List ℕ) → (r : Result FrameError (List Frame)) × (decode_all buf ≡ some r)
unfolding decode_all
decode_all-total buf = decode_loop-total (length buf) [] buf (omega arith)

-- What the loop returns, if it started with `acc`, on the bytes of `buf`.
record Reads (acc : List Frame) (buf : List ℕ) (fs : List Frame) : Type 0 where
  more : List Frame
  joined : fs ≡ acc ++ more
  bytes : buf ≡ body more
  valid : All IsWire more
  some_frame : 1 ≤ length fs
  few_frames : length fs ≤ max_batch_frames

Reads-more :
    (acc : List Frame) (buf : List ℕ) (fs : List Frame) (f : Frame) (rest : List ℕ)
    → IsWire f
    → buf ≡ wire f ++ rest
    → Reads (acc ++ (f ∷ [])) rest fs
    → Reads acc buf fs
Reads-more acc buf fs f rest w shape r = record {
  more = f ∷ r.more;
  joined = r.joined ∙ append_assoc acc (f ∷ []) r.more;
  bytes = unfold body in shape ∙ ap (λ t. wire f ++ t) r.bytes;
  valid = (w, r.valid);
  some_frame = r.some_frame;
  few_frames = r.few_frames;
}

decode_loop_sound :
    (fuel : ℕ) (acc : List Frame) (buf : List ℕ) (fs : List Frame)
    → All IsByte buf
    → length acc ≤ max_batch_frames
    → decode_loop fuel acc buf ≡ some (ok fs)
    → Reads acc buf fs
decode_loop_sound fuel [] [] fs h room e = unfold decode_loop decoded in cc
decode_loop_sound fuel (a ∷ acc) [] fs h room e =
    let same : fs ≡ a ∷ acc = unfold decode_loop decoded in cc in
    record {
      more = [];
      joined = same ∙ sym (append-nil (a ∷ acc));
      bytes = unfold body in refl;
      valid = tt;
      some_frame = rw same (omega arith);
      few_frames = rw same room;
    }
decode_loop_sound zero acc (b ∷ bs) fs h room e = unfold decode_loop in cc
decode_loop_sound (suc fuel) acc (b ∷ bs) fs h room e =
    elim (Result-cases (decode_next acc (b ∷ bs))) [
      | inl ((f, rest), q) ↦
          let (w, shape, free) = decode_next_sound acc (b ∷ bs) f rest h q in
          Reads-more acc (b ∷ bs) fs f rest w shape (
            decode_loop_sound fuel (acc ++ (f ∷ [])) rest fs
              (All-append_right IsByte (wire f) rest (subst (All IsByte) shape h))
              (omega (arith, length-append acc (f ∷ []), free))
              (sym (loop_round fuel acc (b ∷ bs) f rest (omega arith) q) ∙ e))
      | inr (x, q) ↦ cc (loop_stop fuel acc (b ∷ bs) x (omega arith) q)
    ]

-- A body that `DecodeAll` accepts is exactly the encodings of the frames it returns, one after the
-- other; there are 1 to 4096 of them, and the protocol can carry each.
pub decode_all_sound :
    (buf : List ℕ) (fs : List Frame)
    → All IsByte buf
    → decode_all buf ≡ some (ok fs)
    → (buf ≡ body fs) × All IsWire fs × (1 ≤ length fs) × (length fs ≤ max_batch_frames)
unfolding decode_all
decode_all_sound buf fs h e =
    let r = decode_loop_sound (length buf) [] buf fs h (omega arith) e in
    rw r.joined (r.bytes, r.valid, rw r.joined at r.some_frame, rw r.joined at r.few_frames)
