-- ===== src/Sdp/RoundTrip.antt =====
-- What src/sdp/mod.rs writes of a data element is read back: the elements concerned, and their
-- header.
pub mod Slices
pub mod Headers
pub mod Written
pub mod Nesting
use swbt_bumble_backend.Base.{ℕ, zero, suc, ◌<◌, ◌^◌, ◌≡◌, true, length, ◌||◌, ◌==◌}
use swbt_bumble_backend.Sdp.{
  DataElement, nil, unsigned_integer, signed_integer, uuid, text_string, boolean, sequence,
  alternative, url, Elements, end, element,
}
use swbt_bumble_backend.Sdp.Utf8.{is_utf8}
use swbt_bumble_backend.Sdp.Numbers.Signed.{IsI128}

-- The element is a value of the source's type (integers have their width, a UUID is one of the three
-- sizes, a URL is a string), and at most `room` containers are nested in it.
abbrev mutual
  pub IsElement : (room : ℕ) → DataElement → Type 0
  IsElement room nil = Unit {0}
  IsElement room (unsigned_integer value size) = value < 2 ^ 128
  IsElement room (signed_integer value size) = IsI128 value
  IsElement room (uuid le) = (length le == 2 || length le == 4 || length le == 16) ≡ true
  IsElement room (text_string bytes) = Unit {0}
  IsElement room (boolean b) = Unit {0}
  IsElement zero (sequence es) = ⊥
  IsElement (suc room) (sequence es) = AreElements room es
  IsElement zero (alternative es) = ⊥
  IsElement (suc room) (alternative es) = AreElements room es
  IsElement room (url bytes) = is_utf8 bytes ≡ true

  pub AreElements : (room : ℕ) → Elements → Type 0
  AreElements room end = Unit {0}
  AreElements room (element e es) = IsElement room e × AreElements room es
