-- ===== src/Toolbox/Panel.antt =====
-- web/src/pages/toolbox/PemDerPage.tsx: the state of the panel that turns DER into PEM. The
-- encoder of the PEM package is a parameter.
pub mod Encoding
use tlsentinel_server.Common.{
  ℕ, Bool, true, false, not, List, [], ◌∷◌, Option, none, some, ◌≡◌, ◌⊎◌, inl, inr, refl,
  Option-cases, Bool-cases,
}
use tlsentinel_server.Text.{Text, codes, is_empty}
use tlsentinel_server.Toolbox.Hex.{parse_hex_input}

pub record DerPanel : Type 0 where
  pub hex : Text
  pub tag : Text
  pub pem : Text
  pub error : Option Text
  pub file_name : Option Text

unfoldable pub closed_panel : DerPanel
closed_panel = record {
  hex = [];
  tag = codes "CERTIFICATE";
  pem = [];
  error = none;
  file_name = none;
}

-- The end of `PemConverter.encode`: the text, or the message that is shown.
pub data Encoded : Type 0 where
  encoded : Text → Encoded
  failed : Text → Encoded

abbrev pub hex_error : Text
hex_error =
    codes "Invalid hex — expected pairs of hex digits, optionally separated by spaces or colons."

pub shown : Encoded → DerPanel → DerPanel
shown (encoded pem) s = record s { pem = pem; error = none }
shown (failed message) s = record s { pem = []; error = some message }

-- The field of the hexadecimal text.
unfoldable pub type_hex : Text → DerPanel → DerPanel
type_hex hex s = record s { hex = hex; pem = []; error = none; file_name = none }

unfoldable pub handle_clear : DerPanel → DerPanel
handle_clear s = record s { hex = []; pem = []; error = none; file_name = none }

-- `handleFile` up to the start of the reader.
unfoldable pub handle_file : Text → DerPanel → DerPanel
handle_file name s = record s { file_name = some name; hex = []; pem = []; error = none }

module _ (encode : List ℕ → Text → Encoded) where
  abbrev pub convert : List ℕ → Text → DerPanel → DerPanel
  convert der_bytes current_tag s = shown (encode der_bytes current_tag) s

  pub hex_converted : Option (List ℕ) → DerPanel → DerPanel
  unfolding shown
  hex_converted none s = record s { pem = []; error = some hex_error }
  hex_converted (some bytes) s = convert bytes s.tag (record s { pem = []; error = none })

  unfoldable pub handle_hex_convert : DerPanel → DerPanel
  unfolding hex_converted
  handle_hex_convert s = hex_converted (parse_hex_input s.hex) s

  -- What is thrown by the conversion of text that is no hexadecimal text is ignored.
  pub converted_again : Option (List ℕ) → Text → DerPanel → DerPanel
  unfolding shown
  converted_again none new_tag s = s
  converted_again (some bytes) new_tag s = convert bytes new_tag s

  pub tag_changed : Bool → Text → DerPanel → DerPanel
  unfolding converted_again
  tag_changed true new_tag s = record s { tag = new_tag }
  tag_changed false new_tag s =
      converted_again (parse_hex_input s.hex) new_tag (record s { tag = new_tag })

  unfoldable pub handle_tag_change : Text → DerPanel → DerPanel
  unfolding tag_changed
  handle_tag_change new_tag s = tag_changed (is_empty s.pem) new_tag s
