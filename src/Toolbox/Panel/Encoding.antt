-- ===== src/Toolbox/Panel/Encoding.antt =====
-- The PEM text that the panel from DER to PEM shows, against what it holds.
use tlsentinel_server.Common.{
  ℕ, Bool, true, false, List, [], ◌∷◌, Option, none, some, ◌≡◌, ◌⊎◌, inl, inr, refl, sym, ap, ◌∙◌,
  arith,
}
use tlsentinel_server.Text.{Text, is_empty, trim, trim_start}
use tlsentinel_server.Toolbox.Hex.{parse_hex_input}
use tlsentinel_server.Toolbox.Panel.{
  DerPanel, closed_panel, Encoded, encoded, failed, shown, type_hex, handle_clear, handle_file,
  hex_converted, handle_hex_convert, converted_again, tag_changed, handle_tag_change, convert,
}

empty_text : (s : Text) → is_empty s ≡ true → s ≡ []
empty_text [] h = refl
empty_text (c ∷ s) h = ground arith

module _ (encode : List ℕ → Text → Encoded) where
  -- The panel as it is used without files.
  pub data Typed : DerPanel → Type 0 where
    open_panel : Typed closed_panel
    type : {s : DerPanel} → Typed s → (hex : Text) → Typed (type_hex hex s)
    convert_hex : {s : DerPanel} → Typed s → Typed (handle_hex_convert encode s)
    change_tag : {s : DerPanel} → Typed s → (tag : Text) → Typed (handle_tag_change encode tag s)
    clear : {s : DerPanel} → Typed s → Typed (handle_clear s)

  -- What is shown, if anything, is the text that is typed with the type that is selected.
  abbrev pub IsEncoding : DerPanel → Type 0
  IsEncoding s =
      (s.pem ≡ [])
      ⊎ ((bytes : List ℕ) × (parse_hex_input s.hex ≡ some bytes)
          × (encode bytes s.tag ≡ encoded s.pem))

  shown-IsEncoding :
      (e : Encoded) (bytes : List ℕ) (s : DerPanel)
      → parse_hex_input s.hex ≡ some bytes
      → encode bytes s.tag ≡ e
      → IsEncoding (shown e s)
  unfolding shown
  shown-IsEncoding (encoded pem) bytes s h k = inr (bytes, h, k)
  shown-IsEncoding (failed message) bytes s h k = inl refl

  hex_converted-IsEncoding :
      (o : Option (List ℕ)) (s : DerPanel)
      → parse_hex_input s.hex ≡ o
      → IsEncoding (hex_converted encode o s)
  unfolding hex_converted
  hex_converted-IsEncoding none s h = inl refl
  hex_converted-IsEncoding (some bytes) s h =
      shown-IsEncoding (encode bytes s.tag) bytes (record s { pem = []; error = none }) h refl

  converted_again-IsEncoding :
      (o : Option (List ℕ)) (tag : Text) (s : DerPanel)
      → IsEncoding s
      → parse_hex_input s.hex ≡ o
      → IsEncoding (converted_again encode o tag (record s { tag = tag }))
  unfolding converted_again
  converted_again-IsEncoding none tag s (inl p) h = inl p
  converted_again-IsEncoding none tag s (inr (bytes, p, q)) h = absurd (cc (sym p ∙ h))
  converted_again-IsEncoding (some bytes) tag s k h =
      shown-IsEncoding (encode bytes tag) bytes (record s { tag = tag }) h refl

  tag_changed-IsEncoding :
      (b : Bool) (tag : Text) (s : DerPanel)
      → is_empty s.pem ≡ b
      → IsEncoding s
      → IsEncoding (tag_changed encode b tag s)
  unfolding tag_changed
  tag_changed-IsEncoding true tag s e h = inl (empty_text s.pem e)
  tag_changed-IsEncoding false tag s e h = converted_again-IsEncoding _ tag s h refl

  -- Without files, and whatever is typed, converted, selected and cleared, a PEM text that is
  -- shown is the encoding of the bytes that are typed with the type that is selected.
  pub Typed-IsEncoding : {s : DerPanel} → Typed s → IsEncoding s
  unfolding closed_panel type_hex handle_hex_convert handle_tag_change handle_clear
  Typed-IsEncoding open_panel = inl refl
  Typed-IsEncoding (type h hex) = inl refl
  Typed-IsEncoding (convert_hex h) = hex_converted-IsEncoding _ _ refl
  Typed-IsEncoding (change_tag {s} h tag) = tag_changed-IsEncoding _ tag s refl (Typed-IsEncoding h)
  Typed-IsEncoding (clear h) = inl refl

  tag_changed-no_hex :
      (b : Bool) (tag : Text) (s : DerPanel)
      → s.hex ≡ []
      → tag_changed encode b tag s ≡ record s { tag = tag }
  unfolding tag_changed converted_again parse_hex_input trim trim_start
  tag_changed-no_hex true tag s h = refl
  tag_changed-no_hex false tag s h =
      ap (λ hex. converted_again encode (parse_hex_input hex) tag (record s { tag = tag })) h

  -- A PEM text that was made of a file keeps its type when another type is selected.
  pub handle_tag_change-file :
      (name tag pem : Text) (bytes : List ℕ) (s : DerPanel)
      → encode bytes s.tag ≡ encoded pem
      → handle_tag_change encode tag (convert encode bytes s.tag (handle_file name s))
        ≡ record { hex = []; tag = tag; pem = pem; error = none; file_name = some name }
  unfolding handle_tag_change handle_file shown
  handle_tag_change-file name tag pem bytes s h = rw h (tag_changed-no_hex _ tag _ refl)
