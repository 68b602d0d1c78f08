-- ===== src/Sdp/Accepted.antt =====
-- What the parser of src/sdp/mod.rs accepts of any bytes.
use swbt_bumble_backend.Base.{ℕ, ◌≤◌, ◌<◌, List, length}
use swbt_bumble_backend.Sdp.{DataElement}
use swbt_bumble_backend.Sdp.RoundTrip.{IsElement}

-- The element is one of the source's types and not too deep, and has a byte at least of those there
-- are.
abbrev pub Parsed : (bytes : List ℕ) (room offset : ℕ) → ℕ × DataElement → Type 0
Parsed bytes room offset p = (offset < p.0) × (p.0 ≤ length bytes) × IsElement room p.1
