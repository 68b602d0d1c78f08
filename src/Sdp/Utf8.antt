-- ===== src/Sdp/Utf8.antt =====
-- `String::from_utf8`, as src/sdp/mod.rs uses it for URLs: whether bytes are well-formed UTF-8.
use swbt_bumble_backend.Base.{
  ℕ, zero, suc, Bool, true, false, ◌&&◌, Option, none, some, List, [], ◌∷◌, leb, if◌then◌else◌,
}

abbrev within : ℕ → ℕ → ℕ → Bool
within low high b = leb low b && leb b high

-- After a first byte: how many bytes continue it, and the range of the first of them.
unfoldable pub continuation : ℕ → Option (ℕ × ℕ × ℕ)
continuation b =
    if within 0 0x7F b
    then some (0, 0x80, 0xBF)
    else if within 0xC2 0xDF b
    then some (1, 0x80, 0xBF)
    else if within 0xE0 0xE0 b
    then some (2, 0xA0, 0xBF)
    else if within 0xED 0xED b
    then some (2, 0x80, 0x9F)
    else if within 0xE1 0xEF b
    then some (2, 0x80, 0xBF)
    else if within 0xF0 0xF0 b
    then some (3, 0x90, 0xBF)
    else if within 0xF1 0xF3 b
    then some (3, 0x80, 0xBF)
    else if within 0xF4 0xF4 b
    then some (3, 0x80, 0x8F)
    else none

unfoldable pub utf8_from : (expected low high : ℕ) → List ℕ → Bool
unfolding continuation
utf8_from zero low high [] = true
utf8_from (suc n) low high [] = false
utf8_from zero low high (b ∷ rest) = elim (continuation b) [
  | none ↦ false
  | some (n, low', high') ↦ utf8_from n low' high' rest
]
utf8_from (suc n) low high (b ∷ rest) = within low high b && utf8_from n 0x80 0xBF rest

unfoldable pub is_utf8 : List ℕ → Bool
unfolding utf8_from
is_utf8 bytes = utf8_from 0 0x80 0xBF bytes
