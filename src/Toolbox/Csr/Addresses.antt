-- ===== src/Toolbox/Csr/Addresses.antt =====
-- IP addresses in the form of the request.
use tlsentinel_server.Common.{
  ℕ, suc, ◌≤◌, Bool, true, false, ◌&&◌, ◌||◌, List, [], ◌∷◌, ◌++◌, leb, ltb, ◌==◌, ◌≡◌, ◌↔◌, refl,
  append-nil, sym, ap, ◌∙◌, arith, all, All, length,
}
use tlsentinel_server.Text.{Text, codes, is_empty, join, Lacks, has_unit}
use tlsentinel_server.Text.Parts.{split-join}
use tlsentinel_server.Text.Numbers.{show, parse_int_radix}
use tlsentinel_server.Text.Numbers.Laws.{
  IsDigit, IsCons, show-digits, show-length, parse_int_radix-show,
}
use tlsentinel_server.Toolbox.Hex.{is_hex}
use tlsentinel_server.Toolbox.Csr.{
  is_digit, is_octet, at_most_255, octets, is_valid_ipv4, double_colons, is_group, is_valid_ipv6,
}

all_digits : (s : Text) → All IsDigit s → all is_digit s ≡ true
all_digits [] h = refl
all_digits (c ∷ s) (h, hs) = ground (arith, all_digits s hs)

digits_lack : (s : Text) → All IsDigit s → Lacks b'.' s
digits_lack [] h = tt
digits_lack (c ∷ s) (h, hs) = (ground arith, digits_lack s hs)

cons_not_empty : (s : Text) → IsCons s → is_empty s ≡ false
cons_not_empty [] h = absurd h
cons_not_empty (c ∷ s) h = refl

octet_shown : (n : ℕ) → n ≤ 255 → is_octet (show n) ≡ true
octet_shown n h =
    rw (cons_not_empty (show n) (show-digits n).1, all_digits (show n) (show-digits n).0)
      (ground (arith, show-length n (omega arith)))

octet_bound : (n : ℕ) → at_most_255 (parse_int_radix 10 (show n)) ≡ leb n 255
octet_bound n = ap at_most_255 (parse_int_radix-show n)

show-Lacks : (n : ℕ) → Lacks b'.' (show n)
show-Lacks n = digits_lack (show n) (show-digits n).0

octets-shown_iff :
    (a b c d : ℕ)
    → (octets (show a ∷ show b ∷ show c ∷ show d ∷ []) ≡ true)
      ↔ ((a ≤ 255) × (b ≤ 255) × (c ≤ 255) × (d ≤ 255))
unfolding octets
octets-shown_iff a b c d =
    rw (octet_bound a, octet_bound b, octet_bound c, octet_bound d)
      (
        (λ h. (ground arith, ground arith, ground arith, ground arith)),
        (λ (p, q, r, s).
            rw (octet_shown a p, octet_shown b q, octet_shown c r, octet_shown d s) (ground arith)),
      )

-- Four numbers with dots between them are an address exactly when none is above 255.
pub is_valid_ipv4-join_iff :
    (a b c d : ℕ)
    → (is_valid_ipv4 (join (codes ".") (show a ∷ show b ∷ show c ∷ show d ∷ [])) ≡ true)
      ↔ ((a ≤ 255) × (b ≤ 255) × (c ≤ 255) × (d ≤ 255))
unfolding is_valid_ipv4
is_valid_ipv4-join_iff a b c d =
    rw
      (split-join b'.' (show a) (show b ∷ show c ∷ show d ∷ [])
        (show-Lacks a, (show-Lacks b, (show-Lacks c, (show-Lacks d, tt)))))
      (octets-shown_iff a b c d)

-- A group of one to four hexadecimal digits.
abbrev pub IsGroup : Text → Type 0
IsGroup g = (is_empty g ≡ false) × (length g ≤ 4) × All (λ c. is_hex c ≡ true) g

hex_no_colon : (c : ℕ) → is_hex c ≡ true → (c == b':') ≡ false
unfolding is_hex
hex_no_colon c h = ground arith

group-Lacks : (g : Text) → All (λ c. is_hex c ≡ true) g → Lacks b':' g
group-Lacks [] h = tt
group-Lacks (c ∷ g) (h, hs) = (hex_no_colon c h, group-Lacks g hs)

double_colons-nil : double_colons [] ≡ 0
unfolding double_colons
double_colons-nil = refl

double_colons-other :
    (c : ℕ) (s : Text) → (c == b':') ≡ false → double_colons (c ∷ s) ≡ double_colons s
unfolding double_colons
double_colons-other c [] h = refl
double_colons-other c (d ∷ s) h = rw (h, double_colons) refl

double_colons-skip : (g s : Text) → Lacks b':' g → double_colons (g ++ s) ≡ double_colons s
double_colons-skip [] s h = refl
double_colons-skip (c ∷ g) s (h, hs) = double_colons-other c (g ++ s) h ∙ double_colons-skip g s hs

double_colons-colon :
    (g s : Text)
    → Lacks b':' g
    → is_empty g ≡ false
    → double_colons (b':' ∷ (g ++ s)) ≡ double_colons s
unfolding double_colons
double_colons-colon [] s h k = ground arith
double_colons-colon (c ∷ g) s (h, hs) k =
    rw (h, double_colons) (double_colons-skip (c ∷ g) s (h, hs))

-- Groups joined by single colons hold no double colon.
double_colons-after :
    (g : Text) (gs : List Text)
    → All IsGroup (g ∷ gs)
    → double_colons (b':' ∷ join (codes ":") (g ∷ gs)) ≡ 0
unfolding join
double_colons-after g [] ((k, b, h), _) =
    ap (λ t. double_colons (b':' ∷ t)) (sym (append-nil g))
    ∙ double_colons-colon g [] (group-Lacks g h) k
    ∙ double_colons-nil
double_colons-after g (f ∷ gs) ((k, b, h), hs) =
    double_colons-colon g (b':' ∷ join (codes ":") (f ∷ gs)) (group-Lacks g h) k
    ∙ double_colons-after f gs hs

double_colons-join :
    (g f : Text) (gs : List Text)
    → All IsGroup (g ∷ f ∷ gs)
    → double_colons (join (codes ":") (g ∷ f ∷ gs)) ≡ 0
unfolding join
double_colons-join g f gs ((k, b, h), hs) =
    double_colons-skip g (b':' ∷ join (codes ":") (f ∷ gs)) (group-Lacks g h)
    ∙ double_colons-after f gs hs

abbrev is_address_unit : ℕ → Bool
is_address_unit c = is_hex c || c == b':'

all-append :
    (s t : Text) → all is_address_unit (s ++ t) ≡ (all is_address_unit s && all is_address_unit t)
all-append [] t = refl
all-append (c ∷ s) t = ground (arith, all-append s t)

all_hex :
    (g : Text)
    → All (λ c. is_hex c ≡ true) g
    → (all is_hex g ≡ true) × (all is_address_unit g ≡ true)
all_hex [] h = (refl, refl)
all_hex (c ∷ g) (h, hs) = let (p, q) = all_hex g hs in (rw (h, p) refl, rw (h, q) refl)

join_units :
    (g : Text) (gs : List Text)
    → All IsGroup (g ∷ gs)
    → all is_address_unit (join (codes ":") (g ∷ gs)) ≡ true
unfolding join is_hex
join_units g [] ((k, b, h), _) = (all_hex g h).1
join_units g (f ∷ gs) ((k, b, h), hs) =
    all-append g (b':' ∷ join (codes ":") (f ∷ gs)) ∙ rw ((all_hex g h).1, join_units f gs hs) refl

has_colon : (g s : Text) → has_unit b':' (g ++ b':' ∷ s) ≡ true
unfolding has_unit
has_colon [] s = refl
has_colon (c ∷ g) s = ground (arith, has_colon g s)

groups_ok : (gs : List Text) → All IsGroup gs → all is_group gs ≡ true
groups_ok [] h = refl
groups_ok (g ∷ gs) ((k, b, h), hs) = ground (arith, (all_hex g h).0, groups_ok gs hs)

groups-Lacks : (gs : List Text) → All IsGroup gs → All (Lacks b':') gs
groups-Lacks [] h = tt
groups-Lacks (g ∷ gs) ((k, b, h), hs) = (group-Lacks g h, groups-Lacks gs hs)

few : (n : ℕ) → n ≤ 6 → ltb 8 (suc (suc n)) ≡ false
few n h = ground arith

join_not_empty :
    (g f : Text) (gs : List Text)
    → is_empty g ≡ false
    → is_empty (join (codes ":") (g ∷ f ∷ gs)) ≡ false
unfolding join
join_not_empty [] f gs h = ground arith
join_not_empty (c ∷ g) f gs h = refl

join_has_colon :
    (g f : Text) (gs : List Text) → has_unit b':' (join (codes ":") (g ∷ f ∷ gs)) ≡ true
unfolding join
join_has_colon g f gs = has_colon g (join (codes ":") (f ∷ gs))

-- Two to eight groups with single colons between them pass for an IPv6 address.
pub is_valid_ipv6-join :
    (g f : Text) (gs : List Text)
    → length gs ≤ 6
    → All IsGroup (g ∷ f ∷ gs)
    → is_valid_ipv6 (join (codes ":") (g ∷ f ∷ gs)) ≡ true
unfolding is_valid_ipv6
is_valid_ipv6-join g f gs few_groups h =
    rw
      (
        join_has_colon g f gs,
        join_not_empty g f gs h.0.0,
        join_units g (f ∷ gs) h,
        double_colons-join g f gs h,
        split-join b':' g (f ∷ gs) (groups-Lacks (g ∷ f ∷ gs) h),
        few (length gs) few_groups,
        groups_ok (g ∷ f ∷ gs) h,
      )
      refl
