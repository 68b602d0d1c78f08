-- ===== src/Sdp/Bounds.antt =====
-- The parts of what the parser of src/sdp/mod.rs accepts of any bytes.
use mathlib.Core.List.{reverse}
use swbt_bumble_backend.Base.{
  ℕ, ◌+◌, ◌-◌, ◌*◌, ◌%◌, ◌^◌, ◌≤◌, ◌<◌, ◌≡◌, refl, ◌∙◌, arith, Bool, true, false, ◌||◌, Option,
  none, some, List, [], ◌∷◌, length, length-take, length-drop, ok, err, OnOk, OnOk-ok, ok_or,
  map_ok, bind-OnOk, map_ok-OnOk, if_both, if◌then◌else◌, ltb, leb, ◌==◌, take, drop,
}
use swbt_bumble_backend.Sdp.{
  pos, negsuc, Error, invalid_packet, bad_url, uuid, sequence, alternative, url, Elements,
}
use swbt_bumble_backend.Sdp.Numbers.{shift_in, be_to_u128, as_i128, be_to_i128, uuid_from_bytes}
use swbt_bumble_backend.Sdp.Numbers.Signed.{IsI128}
use swbt_bumble_backend.Sdp.Utf8.{is_utf8}
use swbt_bumble_backend.Sdp.Parser.{slice, read_size, value_size, Nested, element_of}
use swbt_bumble_backend.Sdp.RoundTrip.{IsElement}

shift_in-lt : (acc : ℕ) (bs : List ℕ) → acc < 2 ^ 128 → shift_in acc bs < 2 ^ 128
unfolding shift_in
shift_in-lt acc [] h = h
shift_in-lt acc (b ∷ bs) h = shift_in-lt ((acc * 256 + b) % 2 ^ 128) bs (omega arith)

as_i128-IsI128 : (n : ℕ) → n < 2 ^ 128 → IsI128 (as_i128 n)
unfolding as_i128
as_i128-IsI128 n h =
    if_both IsI128 (ltb n (2 ^ 127)) (pos n) (negsuc (2 ^ 128 - 1 - n)) (λ t. ground arith)
      (λ t. ground arith)

be_to_i128-IsI128 : (bs : List ℕ) → IsI128 (be_to_i128 bs)
unfolding be_to_i128
be_to_i128-IsI128 [] = omega arith
be_to_i128-IsI128 (b ∷ bs) = as_i128-IsI128 _ (
    shift_in-lt (if leb 128 b then 2 ^ 128 - 1 else 0) (b ∷ bs) (
      if_both (λ n. n < 2 ^ 128) (leb 128 b) (2 ^ 128 - 1) 0 (λ t. omega arith) (λ t. omega arith)))

-- A slice that is there.
abbrev pub Inside : List ℕ → (start size : ℕ) → Option (List ℕ) → Type 0
Inside bytes start size none = Unit {0}
Inside bytes start size (some v) = (start + size ≤ length bytes) × (length v ≡ size)

pub slice-Inside :
    (bytes : List ℕ) (start size : ℕ) → Inside bytes start size (slice bytes start size)
unfolding slice
slice-Inside bytes start size =
    if_both (Inside bytes start size) (leb (start + size) (length bytes))
      (some (take size (drop start bytes))) none
      (λ t. (
        ground arith,
        length-take size (drop start bytes) ∙ ground (arith, t, length-drop start bytes),
      ))
      (λ t. tt)

pub ok_or-Inside :
    (bytes : List ℕ) (start size : ℕ) (o : Option (List ℕ)) (v : List ℕ) (x : Error)
    → ok_or o x ≡ ok v
    → Inside bytes start size o
    → start + size ≤ length bytes
ok_or-Inside bytes start size none v x h k = absurd (cc)
ok_or-Inside bytes start size (some w) v x h k = k.0

-- The value does not start before the byte that follows the header.
abbrev pub AtLeast : ℕ → ℕ × ℕ → Type 0
AtLeast from p = from ≤ p.0

read_size-AtLeast :
    (bytes : List ℕ) (width from : ℕ) → OnOk (AtLeast from) (read_size bytes width from)
unfolding read_size
read_size-AtLeast bytes width from =
    bind-OnOk (AtLeast from) (ok_or (slice bytes from width) _) _ (λ field e. omega arith)

pub value_size-AtLeast :
    (bytes : List ℕ) (code index from : ℕ) → OnOk (AtLeast from) (value_size bytes code index from)
unfolding value_size
value_size-AtLeast bytes code index from =
    let P = OnOk {E = Error} (AtLeast from) in
    if_both P (index == 0) _ _ (λ _. omega arith)
      (λ _.
        if_both P (index == 1) _ _ (λ _. omega arith)
          (λ _.
            if_both P (index == 2) _ _ (λ _. omega arith)
              (λ _.
                if_both P (index == 3) _ _ (λ _. omega arith)
                  (λ _.
                    if_both P (index == 4) _ _ (λ _. omega arith)
                      (λ _.
                        if_both P (index == 5) _ _ (λ _. read_size-AtLeast bytes 1 from)
                          (λ _.
                            if_both P (index == 6) _ _ (λ _. read_size-AtLeast bytes 2 from)
                              (λ _. read_size-AtLeast bytes 4 from)))))))

-- What a container holds makes an element in either kind of container.
abbrev pub Holds : ℕ → Elements → Type 0
Holds room es = IsElement room (sequence es) × IsElement room (alternative es)

uuid-IsElement : (room : ℕ) (le : List ℕ) → OnOk (IsElement room) (map_ok uuid (uuid_from_bytes le))
unfolding uuid_from_bytes
uuid-IsElement room le = tested (length le == 2 || length le == 4 || length le == 16) refl
  where
    tested :
        (b : Bool)
        → (length le == 2 || length le == 4 || length le == 16) ≡ b
        → OnOk (IsElement room) (map_ok uuid (uuid_from_bytes le))
    tested true e = rw e e
    tested false e = rw e tt

-- The nested parser gives what is in place at this depth.
abbrev pub NestedHolds : ℕ → Nested → Type 0
NestedHolds room nested = (start size : ℕ) → OnOk (Holds room) (nested start size)

url-IsElement :
    (room : ℕ) (value : List ℕ)
    → OnOk (IsElement room) (if is_utf8 value then ok (url value) else err (invalid_packet bad_url))
url-IsElement room value =
    if_both (OnOk {E = Error} (IsElement room)) (is_utf8 value) (ok (url value))
      (err (invalid_packet bad_url)) (λ e. e) (λ _. tt)

pub element_of-IsElement :
    (room : ℕ) (nested : Nested) (code start : ℕ) (value : List ℕ)
    → NestedHolds room nested
    → OnOk (IsElement room) (element_of nested code start value)
unfolding element_of be_to_u128
element_of-IsElement room nested code start value h =
    let P = OnOk {E = Error} (IsElement room) in
    if_both P (code == 0) _ _ (λ _. tt)
      (λ _.
        if_both P (code == 1) _ _ (λ _. shift_in-lt 0 value (omega arith))
          (λ _.
            if_both P (code == 2) _ _ (λ _. be_to_i128-IsI128 value)
              (λ _.
                if_both P (code == 3) _ _ (λ _. uuid-IsElement room (reverse value))
                  (λ _.
                    if_both P (code == 4) _ _ (λ _. tt)
                      (λ _.
                        if_both P (code == 5) _ _ (λ _. tt)
                          (λ _.
                            if_both P (code == 6) _ _
                              (λ _.
                                map_ok-OnOk (IsElement room) sequence (nested start (length value))
                                  (λ es e. (OnOk-ok (Holds room) e (h start (length value))).0))
                              (λ _.
                                if_both P (code == 7) _ _
                                  (λ _.
                                    map_ok-OnOk (IsElement room) alternative
                                      (nested start (length value))
                                      (λ es e. (OnOk-ok (Holds room) e (h start (length value))).1))
                                  (λ _.
                                    if_both P (code == 8) _ _ (λ _. url-IsElement room value)
                                      (λ _. tt)))))))))
