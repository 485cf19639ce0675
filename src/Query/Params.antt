-- ===== src/Query/Params.antt =====
-- Setting parameters under different names, those with an empty value left out.
use tlsentinel_server.Common.{
  Bool, true, false, ◌&&◌, not, List, [], ◌∷◌, ◌++◌, append_assoc, append-nil, ◌≡◌, refl, sym, ap,
  ◌∙◌, arith, all, keep,
}
use tlsentinel_server.Text.{Text, text_eq, is_empty}
use tlsentinel_server.Query.{set_param, set_given, set_all}
use tlsentinel_server.Query.RoundTrip.{AreUnits}

-- The parameters that have a value.
abbrev pub given : List (Text × Text) → List (Text × Text)
given ps = keep (λ p. not (is_empty p.1)) ps

abbrev pub keys : List (Text × Text) → List Text
keys [] = []
keys ((k, v) ∷ ps) = k ∷ keys ps

abbrev fresh : Text → List Text → Bool
fresh k js = all (λ j. not (text_eq k j)) js

abbrev pub distinct : List Text → Bool
distinct [] = true
distinct (k ∷ ks) = fresh k ks && distinct ks

and_left : (a b : Bool) → (a && b) ≡ true → a ≡ true
and_left a b h = ground arith

and_right : (a b : Bool) → (a && b) ≡ true → b ≡ true
and_right a b h = ground arith

fresh_drop :
    (j k : Text) (xs ys : List Text) → fresh j (xs ++ k ∷ ys) ≡ true → fresh j (xs ++ ys) ≡ true
fresh_drop j k [] ys h = and_right _ _ h
fresh_drop j k (x ∷ xs) ys h = ground (arith, fresh_drop j k xs ys)

distinct_drop :
    (k : Text) (xs ys : List Text) → distinct (xs ++ k ∷ ys) ≡ true → distinct (xs ++ ys) ≡ true
distinct_drop k [] ys h = and_right _ _ h
distinct_drop k (x ∷ xs) ys h = ground (arith, distinct_drop k xs ys, fresh_drop x k xs ys)

fresh_here : (j k : Text) (xs ys : List Text) → fresh j (xs ++ k ∷ ys) ≡ true → text_eq j k ≡ false
fresh_here j k [] ys h = ground arith
fresh_here j k (x ∷ xs) ys h = ground (arith, fresh_here j k xs ys)

set_param_new :
    (k v : Text) (ps : List (Text × Text)) (ys : List Text)
    → distinct (keys ps ++ k ∷ ys) ≡ true
    → set_param k v ps ≡ ps ++ (k, v) ∷ []
unfolding set_param
set_param_new k v [] ys h = refl
set_param_new k v ((j, w) ∷ ps) ys h =
    rw (fresh_here j k (keys ps) ys (and_left _ _ h))
      (ap (◌∷◌ (j, w)) (set_param_new k v ps ys (and_right _ _ h)))

keys-append : (ps qs : List (Text × Text)) → keys (ps ++ qs) ≡ keys ps ++ keys qs
keys-append [] qs = refl
keys-append ((k, v) ∷ ps) qs = ap (◌∷◌ k) (keys-append ps qs)

-- Under different names, none of them set before, the values that are given are added in order.
pub set_all-given :
    (r ps : List (Text × Text)) → distinct (keys ps ++ keys r) ≡ true → set_all r ps ≡ ps ++ given r
unfolding set_given
set_all-given [] ps h = sym (append-nil ps)
set_all-given ((k, []) ∷ r) ps h = set_all-given r ps (distinct_drop k (keys ps) (keys r) h)
set_all-given ((k, c ∷ v) ∷ r) ps h =
    ap (set_all r) (set_param_new k (c ∷ v) ps (keys r) h)
    ∙ set_all-given r (ps ++ (k, c ∷ v) ∷ [])
        (rw (keys-append ps ((k, c ∷ v) ∷ []), append_assoc (keys ps) (k ∷ []) (keys r)) h)
    ∙ append_assoc ps ((k, c ∷ v) ∷ []) (given r)

pub given-AreUnits : (ps : List (Text × Text)) → AreUnits ps → AreUnits (given ps)
given-AreUnits [] h = tt
given-AreUnits ((k, []) ∷ ps) (p, h) = given-AreUnits ps h
given-AreUnits ((k, c ∷ v) ∷ ps) (p, h) = (p, given-AreUnits ps h)
