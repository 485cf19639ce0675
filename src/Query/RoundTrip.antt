-- ===== src/Query/RoundTrip.antt =====
-- The queries of `URLSearchParams` and of `encodeURIComponent`, decoded.
use mathlib.Core.Option
use mathlib.Core.Option.{some-injective}
use tlsentinel_server.Common.{
  ℕ, ◌<◌, ◌≤◌, false, not, List, [], ◌∷◌, ◌++◌, map, Option, none, some, ◌≡◌, refl, sym, ap, ◌∙◌,
  arith, All, All-append, keep, Bool-cases, inl, inr,
}
use tlsentinel_server.Text.{Text, is_empty, split, join, Lacks}
use tlsentinel_server.Text.Parts.{split-join}
use tlsentinel_server.Query.{
  utf8, utf8_from, utf8_point, is_high, is_low, form_byte, component_byte, encode_bytes, form_pair,
  to_query, is_well_formed, encode_uri_component,
}
use tlsentinel_server.Query.Decode.{
  plain, decode, sequence, parse_pair, parse_query, IsByte, IsUnits, Separates, form_byte-Encodes,
  component_byte-Encodes, decode-encode_bytes, encode_bytes-Separates, cut-append,
}

utf8_point-IsByte : (c : ℕ) → c < 0x110000 → All IsByte (utf8_point c)
unfolding utf8_point
utf8_point-IsByte c h = ground arith

abbrev Waits : Option ℕ → Type 0
Waits none = Unit
Waits (some w) = w ≤ 0xdbff

utf8_from-IsByte :
    (waiting : Option ℕ) (s : Text) → Waits waiting → IsUnits s → All IsByte (utf8_from waiting s)
unfolding utf8_from
utf8_from-IsByte none [] w h = tt
utf8_from-IsByte (some u) [] w h = utf8_point-IsByte 0xfffd (omega arith)
utf8_from-IsByte none (c ∷ s) w (h, hs) = elim (Bool-cases (is_high c)) [
  | inl high ↦ rw (high, utf8_from) (utf8_from-IsByte (some c) s (ground arith) hs)
  | inr other ↦
      rw (other, utf8_from)
        (All-append IsByte _ _ (utf8_point-IsByte _ (ground arith)) (utf8_from-IsByte none s tt hs))
]
utf8_from-IsByte (some u) (c ∷ s) w (h, hs) = elim (Bool-cases (is_low c)) [
  | inl low ↦
      rw (low, utf8_from)
        (All-append IsByte _ _ (utf8_point-IsByte _ (ground arith)) (utf8_from-IsByte none s tt hs))
  | inr other ↦ elim (Bool-cases (is_high c)) [
    | inl high ↦
        rw (other, utf8_from, high)
          (All-append IsByte _ _ (utf8_point-IsByte 0xfffd (omega arith))
            (utf8_from-IsByte (some c) s (ground arith) hs))
    | inr lone ↦
        rw (other, utf8_from, lone)
          (All-append IsByte _ _ (utf8_point-IsByte 0xfffd (omega arith)) (
            All-append IsByte _ _ (utf8_point-IsByte c (ground arith))
              (utf8_from-IsByte none s tt hs)))
  ]
]

pub utf8-IsByte : (s : Text) → IsUnits s → All IsByte (utf8 s)
unfolding utf8
utf8-IsByte s h = utf8_from-IsByte none s tt h

-- The bytes of a name and its value.
abbrev pub pair_bytes : Text × Text → List ℕ × List ℕ
pair_bytes (k, v) = (utf8 k, utf8 v)

abbrev pub AreUnits : List (Text × Text) → Type 0
AreUnits = All (λ p. IsUnits p.0 × IsUnits p.1)

parse_pair-form_pair :
    (p : Text × Text) → IsUnits p.0 → IsUnits p.1 → parse_pair (form_pair p) ≡ some (pair_bytes p)
unfolding parse_pair form_pair
parse_pair-form_pair (k, v) hk hv =
    let (amp, eq) = encode_bytes-Separates form_byte-Encodes (utf8 k) in
    rw (cut-append b'=' (encode_bytes form_byte (utf8 k)) (encode_bytes form_byte (utf8 v)) eq) (
      rw (
        decode-encode_bytes form_byte-Encodes (utf8 k) (utf8-IsByte k hk),
        decode-encode_bytes form_byte-Encodes (utf8 v) (utf8-IsByte v hv),
      ))

form_pair-Lacks : (p : Text × Text) → Lacks b'&' (form_pair p)
unfolding form_pair
form_pair-Lacks (k, v) =
    All-append _ _ _ (encode_bytes-Separates form_byte-Encodes (utf8 k)).0
      (refl, (encode_bytes-Separates form_byte-Encodes (utf8 v)).0)

form_pair-is_empty : (p : Text × Text) → is_empty (form_pair p) ≡ false
unfolding form_pair
form_pair-is_empty (k, v) = go (encode_bytes form_byte (utf8 k)) _
  where
    go : (s t : Text) → is_empty (s ++ b'=' ∷ t) ≡ false
    go [] t = refl
    go (c ∷ s) t = refl

parse_all :
    (ps : List (Text × Text))
    → AreUnits ps
    → sequence (map parse_pair (keep (λ s. not (is_empty s)) (map form_pair ps)))
      ≡ some (map pair_bytes ps)
parse_all [] h = refl
parse_all (p ∷ ps) ((hk, hv), hs) =
    rw (form_pair-is_empty p, parse_pair-form_pair p hk hv)
      (ap (Option.map (◌∷◌ (pair_bytes p))) (parse_all ps hs))

map-Lacks : (ps : List (Text × Text)) → All (Lacks b'&') (map form_pair ps)
map-Lacks [] = tt
map-Lacks (p ∷ ps) = (form_pair-Lacks p, map-Lacks ps)

-- The server's decoder reads a query as the names and values that were set, in their order.
pub parse_query-to_query :
    (ps : List (Text × Text)) → AreUnits ps → parse_query (to_query ps) ≡ some (map pair_bytes ps)
unfolding parse_query to_query split join
parse_query-to_query [] h = refl
parse_query-to_query (p ∷ ps) h =
    ap (λ parts. sequence (map parse_pair (keep (λ s. not (is_empty s)) parts)))
      (split-join b'&' (form_pair p) (map form_pair ps) (map-Lacks (p ∷ ps)))
    ∙ parse_all (p ∷ ps) h

-- An encoded component decodes to its bytes, and has no unit that ends it in a query.
pub decode-encode_uri_component :
    (s : Text) {t : Text}
    → IsUnits s
    → encode_uri_component s ≡ some t
    → (decode plain t ≡ some (utf8 s)) × Separates t
unfolding encode_uri_component
decode-encode_uri_component s {t} h e = elim (Bool-cases (is_well_formed false s)) [
  | inl fine ↦
      let same : encode_bytes component_byte (utf8 s) ≡ t =
        some-injective _ _ (sym (rw (fine, encode_uri_component)) ∙ e) in
      rw (← same) (
        decode-encode_bytes component_byte-Encodes (utf8 s) (utf8-IsByte s h),
        encode_bytes-Separates component_byte-Encodes (utf8 s),
      )
  | inr lone ↦ absurd (cc (rw lone at e))
]
