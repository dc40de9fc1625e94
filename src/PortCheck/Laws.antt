-- ===== src/PortCheck/Laws.antt =====
-- The results of a check of ports.
use vless_sub_server.Base.{
  ◌≡◌, refl, ◌↔◌, Bool, true, false, List, [], ◌∷◌, inl, inr, arith, Bool-cases,
}
use vless_sub_server.Base.Int.{ℤ}
use vless_sub_server.Base.Text.{Text}
use vless_sub_server.PortCheck.{
  Dial, connected, refused, is_connection_refused, is_timeout, status_open, status_closed,
  probe_port, check_ports,
}
use vless_sub_server.Pipeline.Cached.{PortResult}

-- What the status of a port says of its dial.
pub record IsStatus (cancelled : Bool) (dial : Dial) (port : ℤ) (r : PortResult) : Type 0 where
  pub own_port : r.port ≡ port
  pub when_open : (r.status ≡ status_open) ↔ ((cancelled ≡ false) × (dial ≡ connected))
  pub when_closed :
      r.status ≡ status_closed
      → (s : Text) × (dial ≡ refused s false)
        × (is_connection_refused s ≡ true)
        × (is_timeout s ≡ false)

abbrev pub AreStatuses : (ℤ → Bool) → (ℤ → Dial) → List ℤ → List PortResult → Type 0
AreStatuses cancelled dial [] [] = Unit
AreStatuses cancelled dial [] (r ∷ rs) = ⊥
AreStatuses cancelled dial (port ∷ ports) [] = ⊥
AreStatuses cancelled dial (port ∷ ports) (r ∷ rs) =
    IsStatus (cancelled port) (dial port) port r × AreStatuses cancelled dial ports rs

probe_port_open : (d : Dial) → (probe_port d ≡ status_open) ↔ (d ≡ connected)
unfolding probe_port
probe_port_open connected = (λ e. refl, λ e. refl)
probe_port_open (refused s ended) = (λ e. ground arith, λ e. cc e)

probe_port_closed :
    (d : Dial)
    → probe_port d ≡ status_closed
    → (s : Text) × (d ≡ refused s false) × (is_connection_refused s ≡ true) × (is_timeout s ≡ false)
unfolding probe_port
probe_port_closed connected e = ground (arith)
probe_port_closed (refused s true) e = ground (arith)
probe_port_closed (refused s false) e = (s, refl, ground arith, ground arith)

-- `CheckPorts` gives one result for each port, in order. A port is open exactly when it was dialed and
-- the connection was made; it is closed only if the dial was refused without a timeout.
check_ports-AreStatuses :
    (cancelled : ℤ → Bool) (dial : ℤ → Dial) (ports : List ℤ)
    → AreStatuses cancelled dial ports (check_ports cancelled dial ports)
unfolding check_ports
check_ports-AreStatuses cancelled dial [] = tt
check_ports-AreStatuses cancelled dial (port ∷ ports) =
    let rest = check_ports-AreStatuses cancelled dial ports in
    elim (Bool-cases (cancelled port)) [
      | inl e ↦ rw e (
        record {
          own_port = refl;
          when_open = (λ o. ground arith, λ o. cc (o.0));
          when_closed = λ o. ground arith;
        },
        rest,
      )
      | inr e ↦ rw e (
        record {
          own_port = refl;
          when_open = (
            λ o. (refl, (probe_port_open (dial port)).0 o),
            λ o. (probe_port_open (dial port)).1 o.1,
          );
          when_closed = probe_port_closed (dial port);
        },
        rest,
      )
    ]
