-- ===== src/Webproxy/Mux/Modes.antt =====
-- internal/webproxy/resolver.go, the session that is made for each carrier mode, and which streams
-- it can open.
use teleparse.Base.{
  ℕ, ◌≡◌, refl, ap, subst, ◌∙◌, Bool, true, false, [], ◌∷◌, Option, arith, inl, inr,
}
use teleparse.Base.Results.{ok, err}
use teleparse.Webproxy.Session.{
  Session, Error, carrier_closed, streams_exhausted, https_lanes, new_session,
}
use teleparse.Webproxy.Session.Inv.{IsSession}
use teleparse.Webproxy.Mux.{start, open_allocated, allocate, open_stream, establish}
use teleparse.Webproxy.Mux.Opening.{open_stream_cases}
use teleparse.Webproxy.Mux.Reach.{Reach, Reach-Moves, new_session-IsSession}

-- The kind of session that `establish` makes, by mode.
establish-https_lanes :
    (dial : Option Error) (s : Session)
    → establish https_lanes dial ≡ ok s
    → IsSession s × (s.mode ≡ https_lanes) × (s.lane_dial ≡ false)
unfolding establish new_session
establish-https_lanes dial s e =
    let q : new_session https_lanes true ≡ s = cc in
    subst (λ t. IsSession t × (t.mode ≡ https_lanes) × (t.lane_dial ≡ false)) q
      (new_session-IsSession https_lanes true, refl, refl)

no_dialer :
    (pick : Bool) (s : Session) (id : ℕ) (dial : Option Error)
    → s.mode ≡ https_lanes
    → s.lane_dial ≡ false
    → (open_allocated pick s id dial).0 ≡ err (carrier_closed ∷ [])
unfolding open_allocated start
no_dialer pick s id dial m l = ground (arith, m, l)

kind-allocate :
    (s : Session) → ((allocate s).mode ≡ s.mode) × ((allocate s).lane_dial ≡ s.lane_dial)
unfolding allocate
kind-allocate s = (refl, refl)

-- A session that is established in mode https-lanes never opens a stream: whatever has happened to
-- it, and whatever a lane's dial would answer, `Open` returns an error. (`NewSession` sets the lane
-- dialer only where it gets no carrier, and in this mode it always gets one.)
pub open_stream-https_lanes :
    (carrier_dial : Option Error) (s t : Session) (pick : Bool) (dial : Option Error)
    → establish https_lanes carrier_dial ≡ ok s
    → Reach s t
    → (e : Error) × ((open_stream pick t dial).0 ≡ err e)
open_stream-https_lanes carrier_dial s t pick dial made r =
    let (v, m, l) = establish-https_lanes carrier_dial s made in
    let kind = (Reach-Moves r v).same_kind in
    elim (open_stream_cases pick t dial) [
      | inl (x, _, q) ↦ (x, ap (λ p. p.0) q)
      | inr (inl (_, _, q)) ↦ (streams_exhausted ∷ [], ap (λ p. p.0) q)
      | inr (inr (_, _, q)) ↦
          let (mode, dials) = kind-allocate t in
          (
            carrier_closed ∷ [],
            ap (λ p. p.0) q
                ∙ no_dialer pick (allocate t) t.next_id dial (mode ∙ kind.0 ∙ m)
                    (dials ∙ kind.1 ∙ l),
          )
    ]
