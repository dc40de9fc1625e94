-- ===== src/PortCheck.antt =====
-- internal/portcheck/portcheck.go: whether an address accepts connections. The dialer is a parameter.
-- The probes run at once, a bounded number at a time; each writes the result at its own position.
pub mod Laws
use vless_sub_server.Base.{Bool, true, false, ◌||◌, List, [], ◌∷◌, if◌then◌else◌}
use vless_sub_server.Base.Int.{ℤ, pos}
use vless_sub_server.Base.Text.{Text, text, contains}
use vless_sub_server.Pipeline.Cached.{PortResult}

abbrev pub status_open : Text
status_open = text "open"

abbrev pub status_closed : Text
status_closed = text "closed"

abbrev pub status_filtered : Text
status_filtered = text "filtered"

abbrev pub status_unknown : Text
status_unknown = text "unknown"

unfoldable pub default_ports : List ℤ
default_ports =
    pos 80
    ∷ pos 443
    ∷ pos 25
    ∷ pos 587
    ∷ pos 465
    ∷ pos 1080
    ∷ pos 8080
    ∷ pos 1194
    ∷ pos 51820
    ∷ pos 8388
    ∷ pos 8443
    ∷ []

-- What `DialContext` returns: a connection, or an error with its text, and whether the context has
-- ended by then.
pub data Dial : Type 0 where
  connected : Dial
  refused : Text → Bool → Dial

unfoldable pub is_timeout : Text → Bool
is_timeout s =
    contains s (text "i/o timeout") || (contains s (text "deadline") || contains s (text "timeout"))

unfoldable pub is_connection_refused : Text → Bool
is_connection_refused s = contains s (text "connection refused")

unfoldable pub probe_port : Dial → Text
unfolding is_timeout is_connection_refused
probe_port connected = status_open
probe_port (refused s ended) =
    if is_timeout s || ended
    then status_filtered
    else if is_connection_refused s
    then status_closed
    else status_unknown

abbrev result : ℤ → Text → PortResult
result port status = record { port = port; status = status }

-- `dial` answers for the address and a port; `cancelled` tells whether the context ended before the
-- port's turn came.
unfoldable pub check_ports : (ℤ → Bool) → (ℤ → Dial) → List ℤ → List PortResult
unfolding probe_port
check_ports cancelled dial [] = []
check_ports cancelled dial (port ∷ ports) =
    (if cancelled port then result port status_unknown else result port (probe_port (dial port)))
    ∷ check_ports cancelled dial ports
