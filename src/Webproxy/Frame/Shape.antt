-- ===== src/Webproxy/Frame/Shape.antt =====
-- Which frames `ValidateClient` and `ValidateServer` let through, and WINDOW amounts.
use teleparse.Base.{
  ℕ, ◌^◌, ◌≤◌, ◌<◌, ◌≡◌, ◌≢◌, ◌↔◌, ◌⊎◌, inl, inr, List, [], ◌∷◌, arith, length, All,
}
use teleparse.Base.Results.{ok, Result-cases}
use teleparse.Webproxy.Frame.{
  Frame, type_open, type_data, type_close, type_window, type_ping, type_pong, type_welcome,
  type_bye, max_pong_payload, window_amount, window_payload, check_window, validate_client,
  validate_server,
}
use teleparse.Webproxy.Frame.Wire.{IsByte}

-- A WINDOW amount that is not zero is read back as it was written.
pub window_amount-window_payload :
    (n : ℕ) → 0 < n → n < 2 ^ 32 → window_amount (window_payload n) ≡ ok n
unfolding window_amount window_payload
window_amount-window_payload n h k = ground arith

-- An amount that `WindowAmount` accepts is a nonzero uint32, and its payload is the one that
-- `WindowPayload` writes.
pub window_amount_sound :
    (payload : List ℕ) (n : ℕ)
    → All IsByte payload
    → window_amount payload ≡ ok n
    → (0 < n) × (n < 2 ^ 32) × (window_payload n ≡ payload)
unfolding window_amount window_payload
window_amount_sound (a ∷ b ∷ c ∷ d ∷ []) n h e = ground arith
window_amount_sound payload n h e = ground arith

-- The rules of the protocol for the two directions, as a choice of cases.
abbrev IsCredit : Frame → Type 0
IsCredit f = (f.typ ≡ type_window) × ((n : ℕ) × (window_amount f.payload ≡ ok n))

abbrev IsEmpty : Frame → Type 0
IsEmpty f = length f.payload ≡ 0

abbrev pub ClientShape : Frame → Type 0
ClientShape f =
    ((f.stream_id ≡ 0) × (f.typ ≡ type_pong) × (length f.payload ≤ max_pong_payload))
    ⊎ ((f.stream_id ≢ 0)
        × (((f.typ ≡ type_open) × IsEmpty f)
            ⊎ (((f.typ ≡ type_close) × IsEmpty f)
                ⊎ (((f.typ ≡ type_data) × (¬ IsEmpty f)) ⊎ IsCredit f))))

abbrev pub ServerShape : Frame → Type 0
ServerShape f =
    ((f.stream_id ≡ 0) × ((f.typ ≡ type_ping) ⊎ ((f.typ ≡ type_bye) ⊎ (f.typ ≡ type_welcome))))
    ⊎ ((f.stream_id ≢ 0)
        × (((f.typ ≡ type_close) × IsEmpty f)
            ⊎ (((f.typ ≡ type_data) × (¬ IsEmpty f)) ⊎ IsCredit f)))

check_window_iff : (p : List ℕ) → (check_window p ≡ ok tt) ↔ ((n : ℕ) × (window_amount p ≡ ok n))
unfolding check_window
check_window_iff p = elim (Result-cases (window_amount p)) [
  | inl (n, w) ↦ (λ _. (n, w), λ _. ground (arith, w))
  | inr (x, w) ↦ (λ e. cc w, λ r. cc (w, r.1))
]

-- `ValidateClient` accepts a frame exactly when its type, stream id and payload follow one of the
-- rules for frames from the client.
pub validate_client-ClientShape : (f : Frame) → (validate_client f ≡ ok tt) ↔ ClientShape f
unfolding validate_client
validate_client-ClientShape f = (
  λ e. ground (arith, check_window_iff f.payload),
  λ s. ground (arith, check_window_iff f.payload),
)

-- `ValidateServer` accepts a frame exactly when it follows one of the rules for frames from the relay.
pub validate_server-ServerShape : (f : Frame) → (validate_server f ≡ ok tt) ↔ ServerShape f
unfolding validate_server
validate_server-ServerShape f = (
  λ e. ground (arith, check_window_iff f.payload),
  λ s. ground (arith, check_window_iff f.payload),
)
