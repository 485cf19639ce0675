-- ===== src/Toolbox/Csr/Request.antt =====
-- `generateCSR` and the test that the form has to pass before it is called.
use tlsentinel_server.Common.{
  ℕ, Bool, ◌&&◌, not, List, [], ◌∷◌, ◌++◌, map, Option, none, some, if◌then◌else◌, keep, all,
  is_some,
}
use tlsentinel_server.Text.{Text, codes, is_empty, trim, join}
use tlsentinel_server.Toolbox.Csr.{
  KeyAlgo, KeyGen, Signing, get_algo_params, SanType, classify_san, validate_cn,
}

pub record SubjectFields : Type 0 where
  pub cn : Text
  pub o : Text
  pub ou : Text
  pub c : Text
  pub st : Text
  pub l : Text
  pub email : Text

-- `` if (value) parts.push(`${key}=${value}`) ``.
abbrev pub part : Text → Text → List Text
part key value = if is_empty value then [] else (key ++ b'=' ∷ value) ∷ []

unfoldable pub subject_parts : SubjectFields → List Text
subject_parts f =
    part (codes "CN") f.cn
    ++ (part (codes "O") f.o
        ++ (part (codes "OU") f.ou
            ++ (part (codes "L") f.l
                ++ (part (codes "ST") f.st ++ (part (codes "C") f.c ++ part (codes "E") f.email)))))

unfoldable pub subject_name : SubjectFields → Text
unfolding subject_parts
subject_name f = join (codes ", ") (subject_parts f)

pub record SanEntry : Type 0 where
  pub value : Text
  pub type : SanType

abbrev pub entry_of : Text → Option SanType → List SanEntry
entry_of v none = []
entry_of v (some t) = record { value = v; type = t } ∷ []

-- The last two steps of the chain: the type of a value, and the values without one left out.
unfoldable pub classified : List Text → List SanEntry
classified [] = []
classified (v ∷ vs) = entry_of v (classify_san v) ++ classified vs

unfoldable pub san_entries : List Text → List SanEntry
san_entries sans = classified (keep (λ v. not (is_empty v)) (map trim sans))

-- What `Pkcs10CertificateRequestGenerator.create` is called with.
pub record CsrParams (KeyPair : Type 0) : Type 0 where
  pub name : Text
  pub keys : KeyPair
  pub signing_algorithm : Signing
  pub extensions : Option (List (List SanEntry))

pub record GenerateResult : Type 0 where
  pub csr_pem : Text
  pub private_key_pem : Text

-- `none` is a rejected promise or an error thrown.
pub record Crypto : Type 1 where
  pub KeyPair : Type 0
  pub generate_key : KeyGen → Option KeyPair
  pub create : CsrParams KeyPair → Option Text
  pub export_key : KeyPair → Option (List ℕ)
  pub encode : List ℕ → Text → Text

unfoldable pub csr_params : {K : Type 0} → SubjectFields → List Text → KeyAlgo → K → CsrParams K
csr_params fields sans algo keys =
    let entries = san_entries sans in
    record {
      name = subject_name fields;
      keys = keys;
      signing_algorithm = (get_algo_params algo).1;
      extensions = if is_empty entries then none else some (entries ∷ []);
    }

infixl 5 ◌>>=◌
abbrev ◌>>=◌ {ℓ κ} : {A : Type ℓ} {B : Type κ} → Option A → (A → Option B) → Option B
none >>= f = none
some a >>= f = f a

unfoldable pub generate_csr :
    (lib : Crypto) → SubjectFields → List Text → KeyAlgo → Option GenerateResult
unfolding csr_params
generate_csr lib fields sans algo = do
  keys ← lib.generate_key (get_algo_params algo).0
  csr ← lib.create (csr_params fields sans algo keys)
  pkcs8 ← lib.export_key keys
  some (record { csr_pem = csr; private_key_pem = lib.encode pkcs8 (codes "PRIVATE KEY") })

unfoldable pub san_error : Text → Option Text
san_error s =
    let v = trim s in
    if is_empty v
    then none
    else if is_some (classify_san v)
    then none
    else some (codes "Must be a hostname, IP address, or email — no URLs or special characters.")

unfoldable pub can_generate : Text → List Text → Bool
can_generate cn sans =
    not (is_empty (trim cn))
    && not (is_some (validate_cn cn))
    && all (λ e. not (is_some e)) (map san_error sans)
