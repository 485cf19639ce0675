-- ===== src/Toolbox/Chain.antt =====
-- web/src/pages/toolbox/CertChainPage.tsx: the check of a chain of certificates. The certificates
-- and the builder of the X.509 package are parameters; time stands still during a check.
pub mod Validity
use tlsentinel_server.Common.{
  ℕ, zero, suc, Bool, true, false, ◌&&◌, ◌||◌, not, List, [], ◌∷◌, ◌++◌, map, Option, none, some,
  ltb, if◌then◌else◌, keep, any, or_else,
}
use tlsentinel_server.Text.{Text, codes, text_eq, is_empty}

-- What the page reads of a certificate.
pub record Certificate : Type 0 where
  pub subject : Text
  pub issuer : Text
  -- Milliseconds.
  pub not_before : ℕ
  pub not_after : ℕ
  -- `getExtension(BasicConstraintsExtension)?.ca`.
  pub basic_ca : Option Bool
  -- `subjectName.getField('CN')?.[0]`.
  pub common_name : Option Text
  -- `toString()`.
  pub pem : Text

abbrev pub is_expired : ℕ → Certificate → Bool
is_expired now c = ltb now c.not_before || ltb c.not_after now

abbrev pub is_self_signed : Certificate → Bool
is_self_signed c = text_eq c.issuer c.subject

abbrev pub is_ca : Certificate → Bool
is_ca c = or_else c.basic_ca false

pub record ChainResult : Type 0 where
  pub chain : List Certificate
  pub valid : Bool
  pub incomplete : Bool
  pub was_reordered : Bool
  pub errors : List Text

abbrev display_name : Certificate → Text
display_name c = or_else c.common_name c.subject

-- The errors of the loop that looks for certificates out of their time.
pub time_errors : ℕ → List Certificate → List Text
time_errors now [] = []
time_errors now (c ∷ cs) =
    (if is_expired now c
      then (codes "\"" ++ (display_name c ++ codes "\" is expired or not yet valid.")) ∷ []
      else [])
    ++ time_errors now cs

-- Those of the loop over the certificates behind the first.
pub ca_errors : List Certificate → List Text
ca_errors [] = []
ca_errors (c ∷ cs) =
    (if not (is_ca c)
      then (codes "\"" ++ (display_name c ++ codes "\" is missing the CA basic constraint.")) ∷ []
      else [])
    ++ ca_errors cs

abbrev pub behind_first : List Certificate → List Certificate
behind_first [] = []
behind_first (c ∷ cs) = cs

-- `chain.length > 0 && !isSelfSigned(chain[chain.length - 1])`.
pub is_incomplete : List Certificate → Bool
is_incomplete [] = false
is_incomplete (c ∷ []) = not (is_self_signed c)
is_incomplete (c ∷ d ∷ cs) = is_incomplete (d ∷ cs)

-- `inputInChain.some((c, i) => c.toString() !== chain[i]?.toString())`.
pub out_of_order : List Certificate → List Certificate → Bool
out_of_order [] chain = false
out_of_order (c ∷ cs) [] = true
out_of_order (c ∷ cs) (d ∷ chain) = not (text_eq c.pem d.pem) || out_of_order cs chain

-- The end of the builder: the chain, or the message that is shown.
pub data Built : Type 0 where
  built : List Certificate → Built
  not_built : Text → Built

abbrev first : List Certificate → Option Certificate
first [] = none
first (c ∷ cs) = some c

-- The first that is no CA, or the first where all are.
abbrev pub leaf_of : List Certificate → Option Certificate
leaf_of certs = elim (first (keep (λ c. not (is_ca c)) certs)) [
  | none ↦ first certs
  | some c ↦ some c
]

-- All errors of a chain, in the order of the checks.
pub chain_errors : ℕ → List Certificate → List Text
chain_errors now chain =
    time_errors now chain
    ++ (ca_errors (behind_first chain)
        ++ (if is_incomplete chain
            then codes "Chain is incomplete — root certificate not found." ∷ []
            else []))

pub checked : ℕ → List Certificate → Built → ChainResult
checked now certs (not_built message) = record {
  chain = certs;
  valid = false;
  incomplete = true;
  was_reordered = false;
  errors = message ∷ [];
}
checked now certs (built chain) =
    let errors = chain_errors now chain in
    let in_chain = keep (λ c. any (λ d. text_eq d.pem c.pem) chain) certs in
    record {
      chain = chain;
      valid = is_empty errors;
      incomplete = is_incomplete chain;
      was_reordered = out_of_order in_chain chain;
      errors = errors;
    }

module _ (build : List Certificate → Option Certificate → Built) where
  unfoldable pub build_chain : ℕ → List Certificate → ChainResult
  unfolding checked chain_errors time_errors ca_errors is_incomplete out_of_order
  build_chain now certs = checked now certs (build certs (leaf_of certs))
