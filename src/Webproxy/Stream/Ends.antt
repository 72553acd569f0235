-- ===== src/Webproxy/Stream/Ends.antt =====
-- `Read`, and how a stream ends: what was relayed is read in order, then the first error.
use teleparse.Base.{
  ℕ, ◌<◌, ◌≡◌, refl, ap, sym, ◌∙◌, Bool, true, false, List, [], ◌∷◌, ◌++◌, append_assoc, append-nil,
  arith, Bool-cases, inl, inr, length, take, drop, min, ltb, if◌then◌else◌, length-take,
  take-append-drop,
}
use teleparse.Base.Results.{ok, Result-cases}
use teleparse.Webproxy.Frame.{Frame}
use teleparse.Webproxy.Window.{consume}
use teleparse.Webproxy.Session.{Session, put_stream, enqueue_global}
use teleparse.Webproxy.Stream.{
  send, or_same, window_frame, Reading, received, ended, blocks, credit_back, read, relay_data,
}

-- What one side of a stream holds, and why it ended.
abbrev pub buffer : Session → ℕ → List ℕ
buffer s id = (s.objects id).buf

abbrev pub bytes_of : Reading → List ℕ
bytes_of (received bs) = bs
bytes_of (ended e) = []
bytes_of blocks = []

buffer-send :
    (pick : Bool) (s s' : Session) (id : ℕ) (f : Frame)
    → send pick s id f ≡ ok s'
    → buffer s' id ≡ buffer s id
unfolding send enqueue_global
buffer-send pick s s' id f e = ground arith

buffer-or_same-send :
    (pick : Bool) (s : Session) (id : ℕ) (f : Frame)
    → buffer (or_same s (send pick s id f)) id ≡ buffer s id
buffer-or_same-send pick s id f = elim (Result-cases (send pick s id f)) [
  | inl (s', e) ↦ rw e (buffer-send pick s s' id f e)
  | inr (x, e) ↦ rw e
]

buffer-if :
    (b : Bool) (t u : Session) (id : ℕ) (bs : List ℕ)
    → buffer t id ≡ bs
    → buffer u id ≡ bs
    → buffer (if b then t else u) id ≡ bs
buffer-if true t u id bs e f = e
buffer-if false t u id bs e f = f

buffer-credit_back :
    (pick : Bool) (s : Session) (id size : ℕ) → buffer (credit_back pick s id size) id ≡ buffer s id
unfolding credit_back
buffer-credit_back pick s id size =
    buffer-if (ltb 0 delta) (or_same s' (send pick s' id (window_frame id delta))) s' id _
      (buffer-or_same-send pick s' id (window_frame id delta) ∙ same) same
  where
    delta : ℕ
    delta = (consume (s.objects id).recv_win size).0

    s' : Session
    s' =
        put_stream s id
          (record (s.objects id) { recv_win = (consume (s.objects id).recv_win size).1 })

    same : buffer s' id ≡ buffer s id
    same = ground arith

-- The session once `size` bytes are taken from a stream's buffer.
abbrev drained : Session → ℕ → ℕ → Session
drained s id size = put_stream s id (record (s.objects id) { buf = drop size (buffer s id) })

read_some :
    (pick : Bool) (now : ℕ) (s : Session) (id room : ℕ)
    → 0 < length (buffer s id)
    → let size = min room (length (buffer s id)) in
      read pick now s id room
      ≡ (received (take size (buffer s id)), credit_back pick (drained s id size) id size)
unfolding read
read_some pick now s id room h = ground arith

read_none :
    (pick : Bool) (now : ℕ) (s : Session) (id room : ℕ)
    → length (buffer s id) ≡ 0
    → (bytes_of (read pick now s id room).0 ≡ []) × ((read pick now s id room).1 ≡ s)
unfolding read
read_none pick now s id room h = ground arith

nil_of_length : (xs : List ℕ) → length xs ≡ 0 → xs ≡ []
nil_of_length [] h = refl
nil_of_length (x ∷ xs) h = absurd (omega arith)

-- `Read` takes the front of the buffer, as much as fits, and the rest stays.
pub read_front :
    (pick : Bool) (now : ℕ) (s : Session) (id room : ℕ)
    → let (r, t) = read pick now s id room in
      (bytes_of r ++ buffer t id ≡ buffer s id)
      × (length (bytes_of r) ≡ min room (length (buffer s id)))
read_front pick now s id room = elim (Bool-cases (ltb 0 (length (buffer s id)))) [
  | inl h ↦
      let size = min room (length (buffer s id)) in
      let kept : buffer (drained s id size) id ≡ drop size (buffer s id) = ground arith in
      simp (read_some pick now s id room (ground arith), buffer-credit_back, kept)
        (take-append-drop size (buffer s id), omega (arith, length-take size (buffer s id)))
  | inr h ↦
      let (no_bytes, same) = read_none pick now s id room (ground arith) in
      simp (no_bytes, same) (refl, ground arith)
]

-- What happens to a stream's buffer: DATA arrives, or the application reads.
pub data Traffic : Type 0 where
  arrives : List ℕ → Traffic
  takes : Bool → ℕ → ℕ → Traffic

-- The bytes that the reads return, and the session after it all.
unfoldable pub play : Session → ℕ → List Traffic → List ℕ × Session
play s id [] = ([], s)
play s id (arrives bs ∷ ts) = play (relay_data s id bs) id ts
play s id (takes pick now room ∷ ts) =
    let (r, t) = read pick now s id room in let (out, u) = play t id ts in (bytes_of r ++ out, u)

abbrev pub arrived : List Traffic → List ℕ
arrived [] = []
arrived (arrives bs ∷ ts) = bs ++ arrived ts
arrived (takes pick now room ∷ ts) = arrived ts

buffer-relay_data :
    (s : Session) (id : ℕ) (bs : List ℕ) → buffer (relay_data s id bs) id ≡ buffer s id ++ bs
unfolding relay_data
buffer-relay_data s id bs = ground arith

-- The bytes of a stream are read in the order in which they were relayed, each once: what the reads
-- return, followed by what is still in the buffer, is the first buffer and all that arrived.
pub play_fifo :
    (ts : List Traffic) (s : Session) (id : ℕ)
    → let (out, t) = play s id ts in out ++ buffer t id ≡ buffer s id ++ arrived ts
unfolding play
play_fifo [] s id = sym (append-nil (buffer s id))
play_fifo (arrives bs ∷ ts) s id =
    play_fifo ts (relay_data s id bs) id
    ∙ ap (λ t. t ++ arrived ts) (buffer-relay_data s id bs)
    ∙ append_assoc (buffer s id) bs (arrived ts)
play_fifo (takes pick now room ∷ ts) s id =
    let t = (read pick now s id room).1 in
    let front = bytes_of (read pick now s id room).0 in
    append_assoc front (play t id ts).0 _
    ∙ ap (λ x. front ++ x) (play_fifo ts t id)
    ∙ sym (append_assoc front (buffer t id) (arrived ts))
    ∙ ap (λ x. x ++ arrived ts) (read_front pick now s id room).0
