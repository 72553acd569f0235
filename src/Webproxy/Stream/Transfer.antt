-- ===== src/Webproxy/Stream/Transfer.antt =====
-- `Write` on an open stream: what it sends, within which credit.
use teleparse.Base.{
  ℕ, zero, suc, ◌+◌, ◌-◌, ◌≤◌, ◌<◌, ◌≡◌, refl, ap, sym, ◌∙◌, Bool, List, [], ◌∷◌, ◌++◌,
  append_assoc, append-nil, arith, Bool-cases, inl, inr, length, take, drop, leb, ltb, All,
  if◌then◌else◌, length-take, length-drop, take-drop, drop-drop, take-eq_nil, drop-eq_self,
}
use teleparse.Webproxy.Frame.{Frame, type_data}
use teleparse.Webproxy.Window.{data_chunk}
use teleparse.Webproxy.Session.{Session}
use teleparse.Webproxy.Stream.{data_frame, Writing, wrote, stalls, write_loop, write}
use teleparse.Webproxy.Stream.Chunk.{
  IsOpen, credit, reserved, after_round, round_size, write_round_sends, write_round_waits,
  after_round-IsOpen, credit-reserved, outbox, outbox-reserved, credit-after_round,
  outbox-after_round,
}

-- A DATA frame of the stream that a relay accepts.
pub record IsChunk (id : ℕ) (f : Frame) : Type 0 where
  pub is_data : f.typ ≡ type_data
  pub of_stream : f.stream_id ≡ id
  pub some_bytes : 0 < length f.payload
  pub few_bytes : length f.payload ≤ data_chunk

abbrev pub payloads : List Frame → List ℕ
payloads [] = []
payloads (f ∷ fs) = f.payload ++ payloads fs

-- What `Write` of `bytes` does, with `total` bytes written before: it sends as many bytes as there
-- is credit, in order, in chunks, takes their credit, and returns where the bytes or the credit end.
pub record Sends (s : Session) (id : ℕ) (bytes : List ℕ) (total : ℕ) (r : Writing × Session)
    : Type 0 where
  pub answer : r.0 ≡ (
      if leb (length bytes) (credit s id)
      then wrote (total + length bytes)
      else stalls (total + credit s id) (drop (credit s id) bytes))
  pub frames : List Frame
  pub queued : outbox r.1 id ≡ outbox s id ++ frames
  pub chunks : All (IsChunk id) frames
  pub content : payloads frames ≡ take (credit s id) bytes
  pub left : credit r.1 id ≡ credit s id - length bytes

take-nil : (n : ℕ) → take {A = ℕ} n [] ≡ []
take-nil zero = refl
take-nil (suc n) = refl

Sends-done : (s : Session) (id total : ℕ) → Sends s id [] total (wrote total, s)
Sends-done s id total = record {
  answer = ground arith;
  frames = [];
  queued = sym (append-nil (outbox s id));
  chunks = tt;
  content = sym (take-nil (credit s id));
  left = omega arith;
}

Sends-wait :
    (s : Session) (id : ℕ) (bytes : List ℕ) (total : ℕ)
    → 0 < length bytes
    → credit s id ≡ 0
    → Sends s id bytes total (stalls total bytes, reserved s id 0)
Sends-wait s id bytes total h k = record {
  answer = ground (arith, drop-eq_self (credit s id) bytes);
  frames = [];
  queued = outbox-reserved s id 0 ∙ sym (append-nil (outbox s id));
  chunks = tt;
  content = sym (take-eq_nil (credit s id) bytes k);
  left = omega (arith, credit-reserved s id 0);
}

Sends-more :
    (s : Session) (id : ℕ) (bytes : List ℕ) (total n : ℕ) (r : Writing × Session)
    → 0 < n
    → n ≤ data_chunk
    → n ≤ length bytes
    → n ≤ credit s id
    → Sends (after_round s id bytes n) id (drop n bytes) (total + n) r
    → Sends s id bytes total r
Sends-more s id bytes total n r pos chunk room paid d =
    let left : credit (after_round s id bytes n) id ≡ credit s id - n =
      credit-after_round s id n bytes in
    let rest = credit (after_round s id bytes n) id in
    record {
      answer =
          d.answer
          ∙ ground (arith, left, length-drop n bytes, drop-drop n rest (credit s id) bytes);
      frames = data_frame id (take n bytes) ∷ d.frames;
      queued =
          d.queued
          ∙ ap (λ (q : List Frame). q ++ d.frames) (outbox-after_round s id n bytes)
          ∙ append_assoc (outbox s id) (data_frame id (take n bytes) ∷ []) d.frames;
      chunks = (
        record {
          is_data = refl;
          of_stream = refl;
          some_bytes = omega (arith, length-take n bytes);
          few_bytes = omega (arith, length-take n bytes);
        },
        d.chunks,
      );
      content =
          ap (λ t. take n bytes ++ t) d.content
          ∙ take-drop n rest (credit s id) bytes (omega (arith, left));
      left = omega (arith, d.left, left, length-drop n bytes);
    }

write_loop-Sends :
    (fuel : ℕ) (pick : ℕ → Bool) (s : Session) (id : ℕ) (bytes : List ℕ) (total : ℕ)
    → IsOpen s id
    → length bytes ≤ fuel
    → Sends s id bytes total (write_loop fuel pick s id bytes total)
unfolding write_loop
write_loop-Sends fuel pick s id [] total o h = Sends-done s id total
write_loop-Sends zero pick s id (b ∷ bs) total o h = absurd (omega arith)
write_loop-Sends (suc fuel) pick s id (b ∷ bs) total o h = elim (Bool-cases (ltb 0 (credit s id))) [
  | inl paid ↦
      let n = round_size s id (b ∷ bs) in
      let positive : 0 < credit s id = ground arith in
      simp (write_round_sends (pick total) s id (b ∷ bs) o (omega arith) positive, write_loop)
        (Sends-more s id (b ∷ bs) total n _ (omega arith) (omega arith) (omega arith) (omega arith)
          (write_loop-Sends fuel pick (after_round s id (b ∷ bs) n) id (drop n (b ∷ bs)) (total + n)
            (after_round-IsOpen s id n (b ∷ bs) o) (omega (arith, length-drop n (b ∷ bs)))))
  | inr unpaid ↦
      let none_left : credit s id ≡ 0 = ground arith in
      simp (write_round_waits (pick total) s id (b ∷ bs) o (omega arith) none_left, write_loop)
        (Sends-wait s id (b ∷ bs) total (omega arith) none_left)
]

-- `Write` on an open stream of a running session, one with a lane of its own or one that shares the
-- session's writer, sends exactly as many bytes as the relay has granted credit for: it queues them
-- there in order as DATA frames of 1 to 64 KiB, takes exactly their credit, and either has written all
-- or waits for credit with the rest.
pub write-Sends :
    (pick : ℕ → Bool) (s : Session) (id : ℕ) (bytes : List ℕ)
    → IsOpen s id
    → Sends s id bytes 0 (write pick s id bytes)
unfolding write
write-Sends pick s id bytes o = write_loop-Sends (length bytes) pick s id bytes 0 o (omega arith)
