-- ===== src/Text/Words.antt =====
-- White space: `split(/\s+/)`, and how `trim` treats text without white space at its ends.
use mathlib.Core.List.{reverse, reverse-append, reverse-reverse}
use tlsentinel_server.Common.{
  Bool, true, false, List, [], ◌∷◌, ◌++◌, append_assoc, append-nil, ◌≡◌, sym, ap, ◌∙◌, All,
  All-reverse,
}
use tlsentinel_server.Text.{Text, is_space, trim_start, trim, NoSpace, join}

-- One pass of `s.split(/\s+/)`; `gap` says that the last unit read was a separator.
split_spaces_from : Bool → Text → Text → List Text
split_spaces_from gap cur [] = cur ∷ []
split_spaces_from gap cur (c ∷ s) = elim (is_space c) [
  | true ↦ elim gap [
    | true ↦ split_spaces_from true cur s
    | false ↦ cur ∷ split_spaces_from true [] s
  ]
  | false ↦ split_spaces_from false (cur ++ c ∷ []) s
]

unfoldable pub split_spaces : Text → List Text
unfolding split_spaces_from is_space
split_spaces s = split_spaces_from false [] s

-- Non-empty text without white space.
abbrev pub IsWord : Text → Type 0
IsWord [] = ⊥
IsWord (c ∷ s) = NoSpace (c ∷ s)

-- It has a first unit, which is no white space.
abbrev pub StartsInk : Text → Type 0
StartsInk [] = ⊥
StartsInk (c ∷ s) = is_space c ≡ false

trim_start_of_ink : (s : Text) → StartsInk s → trim_start s ≡ s
unfolding trim_start
trim_start_of_ink [] h = absurd h
trim_start_of_ink (c ∷ s) h = rw h

-- Text with no white space at either end is not changed by `trim`.
pub trim_of_ink : (s : Text) → StartsInk s → StartsInk (reverse s) → trim s ≡ s
unfolding trim
trim_of_ink s h k =
    ap (λ t. reverse (trim_start (reverse t))) (trim_start_of_ink s h)
    ∙ ap reverse (trim_start_of_ink (reverse s) k)
    ∙ reverse-reverse s

pub StartsInk-append : (s t : Text) → StartsInk s → StartsInk (s ++ t)
StartsInk-append [] t h = absurd h
StartsInk-append (c ∷ s) t h = h

IsWord-StartsInk : (s : Text) → IsWord s → StartsInk s
IsWord-StartsInk [] h = absurd h
IsWord-StartsInk (c ∷ s) (h, _) = h

IsWord-append : (s t : Text) → NoSpace s → IsWord t → IsWord (s ++ t)
IsWord-append [] t h k = k
IsWord-append (c ∷ s) [] h k = absurd k
IsWord-append (c ∷ s) (d ∷ t) (p, h) k = (p, go s h)
  where
    go : (r : Text) → NoSpace r → NoSpace (r ++ d ∷ t)
    go [] h = k
    go (e ∷ r) (q, h) = (q, go r h)

pub IsWord-reverse : (s : Text) → IsWord s → IsWord (reverse s)
IsWord-reverse [] h = h
IsWord-reverse (c ∷ s) (p, h) =
    rw (reverse-append (c ∷ []) s) (IsWord-append (reverse s) (c ∷ []) (All-reverse _ s h) (p, tt))

split_spaces_from-word :
    (gap : Bool) (cur s t : Text)
    → IsWord s
    → split_spaces_from gap cur (s ++ t) ≡ split_spaces_from false (cur ++ s) t
unfolding split_spaces_from
split_spaces_from-word gap cur [] t h = absurd h
split_spaces_from-word gap cur (c ∷ []) t (p, _) = rw (p, split_spaces_from)
split_spaces_from-word gap cur (c ∷ d ∷ s) t (p, h) =
    rw (p, split_spaces_from)
      (split_spaces_from-word false (cur ++ c ∷ []) (d ∷ s) t h
        ∙ ap (λ r. split_spaces_from false r t) (append_assoc cur (c ∷ []) (d ∷ s)))

split_spaces_from-join :
    (gap : Bool) (cur w : Text) (ws : List Text)
    → IsWord w
    → All IsWord ws
    → split_spaces_from gap cur (join (32 ∷ []) (w ∷ ws)) ≡ (cur ++ w) ∷ ws
unfolding split_spaces_from join is_space
split_spaces_from-join gap cur w [] h hs =
    ap (split_spaces_from gap cur) (sym (append-nil w)) ∙ split_spaces_from-word gap cur w [] h
split_spaces_from-join gap cur w (v ∷ ws) h (k, hs) =
    split_spaces_from-word gap cur w ((32 ∷ []) ++ join (32 ∷ []) (v ∷ ws)) h
    ∙ ap (◌∷◌ (cur ++ w)) (split_spaces_from-join true [] v ws k hs)

-- So is their text not changed by `trim`.
StartsInk-reverse-join :
    (w : Text) (ws : List Text)
    → IsWord w
    → All IsWord ws
    → StartsInk (reverse (join (32 ∷ []) (w ∷ ws)))
unfolding join
StartsInk-reverse-join w [] h hs = IsWord-StartsInk _ (IsWord-reverse w h)
StartsInk-reverse-join w (v ∷ ws) h (k, hs) =
    let J = join (32 ∷ []) (v ∷ ws) in
    rw (reverse-append w (32 ∷ J)) (
      StartsInk-append (reverse (32 ∷ J)) (reverse w) (
        rw (reverse-append (32 ∷ []) J)
          (StartsInk-append (reverse J) (32 ∷ []) (StartsInk-reverse-join v ws k hs))))

StartsInk-join : (w : Text) (ws : List Text) → IsWord w → StartsInk (join (32 ∷ []) (w ∷ ws))
unfolding join
StartsInk-join w [] h = IsWord-StartsInk w h
StartsInk-join w (v ∷ ws) h = StartsInk-append w _ (IsWord-StartsInk w h)

pub trim-join :
    (w : Text) (ws : List Text)
    → IsWord w
    → All IsWord ws
    → trim (join (32 ∷ []) (w ∷ ws)) ≡ join (32 ∷ []) (w ∷ ws)
trim-join w ws h hs = trim_of_ink _ (StartsInk-join w ws h) (StartsInk-reverse-join w ws h hs)

-- Words joined by single spaces are split back into the words.
pub split_spaces-join :
    (w : Text) (ws : List Text)
    → IsWord w
    → All IsWord ws
    → split_spaces (join (32 ∷ []) (w ∷ ws)) ≡ w ∷ ws
unfolding split_spaces
split_spaces-join w ws h hs = split_spaces_from-join false [] w ws h hs
