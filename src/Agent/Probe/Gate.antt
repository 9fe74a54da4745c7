-- ===== src/Agent/Probe/Gate.antt =====
-- When `maybeRetryDirect` may start a probe, and the damping of flaps.
use go_wireguard_mesh.Common.{
  Bool, List, arith, false, get_elem?, none, some, true, ℕ, ◌+◌, ◌-◌, ◌<◌, ◌≡◌, ◌⊎◌,
}
use go_wireguard_mesh.Agent.Backoff.{direct_retry_interval, direct_stable_tenure, flap_hold_down}
use go_wireguard_mesh.Agent.Path.{Endpoint, PeerPath, within}
use go_wireguard_mesh.Agent.Probe.{
  is_fast, is_held, maybe_retry_direct, note_candidates, note_direct_stint_ended, promote_direct,
}

-- What holds of a peer on which a retry has set a direct endpoint.
pub record IsOpen (now : ℕ) (candidates : List Endpoint) (epoch : ℕ) (p : PeerPath) (e : Endpoint)
    : Type 0 where
  pub relayed : p.relayed ≡ true
  pub not_held : is_held now p ≡ false
  pub first : get_elem? candidates 0 ≡ some e
  pub waited :
      (is_fast epoch p ≡ true)
      ⊎ (p.probe ≡ none)
        × (within now p.relayed_at
              (direct_retry_interval (note_candidates candidates p).direct_failures)
            ≡ false)

-- A stint that was short adds a flap and arms the hold-down.
flap_counted :
    (promoted ended : ℕ) (p : PeerPath)
    → ended - promoted < direct_stable_tenure
    → ((note_direct_stint_ended ended (promote_direct promoted p)).direct_flaps
        ≡ p.direct_flaps + 1)
      × ((note_direct_stint_ended ended (promote_direct promoted p)).hold_down_until
          ≡ some (ended + flap_hold_down (p.direct_flaps + 1)))
unfolding note_direct_stint_ended promote_direct
flap_counted promoted ended p short = ground arith

module _ (accepts : Endpoint → Bool) where
  -- A retry sets a direct endpoint only for a relayed peer that is not held down; it is then the
  -- first candidate, and either the control plane has raised the punch epoch, or no probe runs and
  -- the peer has been on its relay for the interval that its failures ask for, counted anew when
  -- the candidates have changed.
  pub retry-IsOpen :
      (off : Bool) (now : ℕ) (candidates : List Endpoint) (epoch : ℕ) (p : PeerPath) {e : Endpoint}
      → (maybe_retry_direct accepts off now candidates epoch p).1 ≡ some e
      → (off ≡ false) × IsOpen now candidates epoch p e
  unfolding maybe_retry_direct
  retry-IsOpen off now candidates epoch p h = ground arith

  -- During a hold-down no retry starts or replaces a probe or touches the device, not even for a
  -- new punch epoch, which is used up all the same.
  pub retry_held :
      (off : Bool) (now : ℕ) (candidates : List Endpoint) (epoch : ℕ) (p : PeerPath)
      → is_held now p ≡ true
      → ((maybe_retry_direct accepts off now candidates epoch p).1 ≡ none)
        × ((maybe_retry_direct accepts off now candidates epoch p).0.probe ≡ p.probe)
  unfolding maybe_retry_direct
  retry_held off now candidates epoch p h = ground arith

  -- A direct stint of less than ten minutes is a flap, and is counted. For as long as the hold-down
  -- for that number of flaps in a row lasts, counted from the fallback, no retry touches the device
  -- or the probe of a peer whose hold-down has not been changed since.
  pub flap_holds :
      (off : Bool) (promoted ended now : ℕ) (candidates : List Endpoint) (epoch : ℕ)
      (p r : PeerPath)
      → ended - promoted < direct_stable_tenure
      → now < ended + flap_hold_down (p.direct_flaps + 1)
      → r.hold_down_until
        ≡ (note_direct_stint_ended ended (promote_direct promoted p)).hold_down_until
      → ((note_direct_stint_ended ended (promote_direct promoted p)).direct_flaps
          ≡ p.direct_flaps + 1)
        × ((maybe_retry_direct accepts off now candidates epoch r).1 ≡ none)
        × ((maybe_retry_direct accepts off now candidates epoch r).0.probe ≡ r.probe)
  flap_holds off promoted ended now candidates epoch p r short soon same =
      let f : ((note_direct_stint_ended ended (promote_direct promoted p)).direct_flaps
            ≡ p.direct_flaps + 1)
          × ((note_direct_stint_ended ended (promote_direct promoted p)).hold_down_until
              ≡ some (ended + flap_hold_down (p.direct_flaps + 1))) =
        flap_counted promoted ended p short in
      let held : is_held now r ≡ true = ground (arith, f.1) in
      (
        f.0,
        (retry_held off now candidates epoch r held).0,
        (retry_held off now candidates epoch r held).1,
      )
