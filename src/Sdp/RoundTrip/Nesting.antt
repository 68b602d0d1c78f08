-- ===== src/Sdp/RoundTrip/Nesting.antt =====
-- The recursion over the data elements of src/sdp/mod.rs, and the round trip.
use swbt_bumble_backend.Base.{
  ℕ, zero, suc, ◌+◌, ◌≤◌, ◌≡◌, refl, sym, ap, arith, List, [], ◌++◌, length, ok, map_ok, >>=-ok,
  ok-injective, le→ltb,
}
use mathlib.Core.Path.{subst}
use swbt_bumble_backend.Sdp.{
  Error, DataElement, nil, unsigned_integer, signed_integer, uuid, text_string, boolean, sequence,
  alternative, url, Elements, end, element,
}
use swbt_bumble_backend.Sdp.Numbers.{unsigned_to_bytes, signed_to_bytes}
use swbt_bumble_backend.Sdp.Writer.{size_header, with_header, value_bytes, elements_bytes, to_bytes}
use swbt_bumble_backend.Sdp.Parser.{
  element_of, parse_elements, parse_at, max_nesting, parse_from_bytes,
}
use swbt_bumble_backend.Sdp.RoundTrip.{IsElement, AreElements}
use swbt_bumble_backend.Sdp.RoundTrip.Slices.{At, At-append}
use swbt_bumble_backend.Sdp.RoundTrip.Headers.{plus_zero, variable-Sizes}
use swbt_bumble_backend.Sdp.RoundTrip.Written.{
  ReadsAs, written_lem, unsigned_lem, signed_lem, uuid_lem, boolean_lem, nil_lem, nested_lem,
  written_nonempty, element_first,
}

-- The loop ends where the value does.
elements_done :
    (room : ℕ) (bytes : List ℕ) (fuel start : ℕ) (out : List ℕ)
    → [] ≡ out
    → parse_elements (parse_at room bytes) fuel start (start + length out)
      ≡ ok (start + length out, end)
unfolding parse_elements
elements_done room bytes fuel start out e =
    subst
      (λ o.
        parse_elements (parse_at room bytes) fuel start (start + length o)
        ≡ ok (start + length o, end))
      e (at_end fuel)
  where
    at_end :
        (fuel : ℕ)
        → parse_elements (parse_at room bytes) fuel start (start + 0) ≡ ok (start + 0, end)
    at_end zero = rw (plus_zero start) refl
    at_end (suc fuel) = rw (plus_zero start, le→ltb start start (omega arith)) refl

mutual
  unfolding value_bytes elements_bytes size_header element_of

  element_lem :
      (e : DataElement) (room : ℕ) (out : List ℕ)
      → IsElement room e
      → with_header e (value_bytes e) ≡ ok out
      → ReadsAs room out e
  element_lem nil room out v h = nil_lem room out h
  element_lem (unsigned_integer value size) room out v h =
      let (bytes, written, k) = >>=-ok (unsigned_to_bytes value size) _ out h in
      unsigned_lem room value size bytes out v written k
  element_lem (signed_integer value size) room out v h =
      let (bytes, written, k) = >>=-ok (signed_to_bytes value size) _ out h in
      signed_lem room value size bytes out v written k
  element_lem (uuid le) room out v h = uuid_lem room le out v h
  element_lem (text_string bytes) room out v h =
      written_lem room (text_string bytes) bytes out
        (λ header. variable-Sizes 4 (length bytes) header) (λ content start at. refl) h
  element_lem (boolean b) room out v h = boolean_lem room b out h
  element_lem (sequence es) zero out v h = absurd v
  element_lem (sequence es) (suc room) out v h =
      let (value, written, k) = >>=-ok (elements_bytes es) _ out h in
      written_lem (suc room) (sequence es) value out
        (λ header. variable-Sizes 6 (length value) header)
        (λ bytes start at. ap (map_ok sequence) (
          nested_lem room es bytes start value
            (elements_lem es room value (length value) bytes start v written (omega arith) at)))
        k
  element_lem (alternative es) zero out v h = absurd v
  element_lem (alternative es) (suc room) out v h =
      let (value, written, k) = >>=-ok (elements_bytes es) _ out h in
      written_lem (suc room) (alternative es) value out
        (λ header. variable-Sizes 7 (length value) header)
        (λ bytes start at. ap (map_ok alternative) (
          nested_lem room es bytes start value
            (elements_lem es room value (length value) bytes start v written (omega arith) at)))
        k
  element_lem (url bytes) room out v h =
      written_lem room (url bytes) bytes out (λ header. variable-Sizes 8 (length bytes) header)
        (λ content start at. rw v refl) h

  elements_lem :
      (es : Elements) (room : ℕ) (out : List ℕ) (fuel : ℕ) (bytes : List ℕ) (start : ℕ)
      → AreElements room es
      → elements_bytes es ≡ ok out
      → length out ≤ fuel
      → At bytes start out
      → parse_elements (parse_at room bytes) fuel start (start + length out)
        ≡ ok (start + length out, es)
  elements_lem end room out fuel bytes start v h enough at =
      elements_done room bytes fuel start out (ok-injective {E = Error} [] out h)
  elements_lem (element e es) room out fuel bytes start v h enough at =
      let (first, written, k) = >>=-ok (with_header e (value_bytes e)) _ out h in
      let (rest, written', k') = >>=-ok (elements_bytes es) _ out k in
      let same : first ++ rest ≡ out = ok-injective {E = Error} (first ++ rest) out k' in
      let (value, _, headed) = >>=-ok (value_bytes e) _ first written in
      let some_bytes = written_nonempty e value first headed in
      let (at_first, at_rest) =
        At-append bytes start first rest (subst (At bytes start) (sym same) at) in
      subst
        (λ o.
          parse_elements (parse_at room bytes) fuel start (start + length o)
          ≡ ok (start + length o, element e es))
        same
        (element_first room bytes e es fuel start first rest some_bytes
          (subst (λ o. length o ≤ fuel) (sym same) enough)
          (element_lem e room first v.0 written bytes start at_first)
          (λ fuel' enough'.
            elements_lem es room rest fuel' bytes (start + length first) v.1 written' enough'
              at_rest))

-- A data element of the source's types, with at most 32 containers nested in one another, that is
-- written is read back from its bytes, wherever they stand among others, and the offset behind them
-- is returned.
pub parse_from_bytes-to_bytes :
    (e : DataElement) (front rest out : List ℕ)
    → IsElement max_nesting e
    → to_bytes e ≡ ok out
    → parse_from_bytes (front ++ (out ++ rest)) (length front) ≡ ok (length front + length out, e)
unfolding to_bytes parse_from_bytes
parse_from_bytes-to_bytes e front rest out v h =
    element_lem e max_nesting out v h (front ++ (out ++ rest)) (length front)
      (front, rest, refl, refl)
