-- ===== src/Entity/Service.antt =====
-- src/entity/deployd_service.go
use Prim.Native.Char.{code}
use Prim.Native.String.{len}
use deployd.Prelude.{
  ℕ, String, Bool, true, false, not, ◌&&◌, ◌||◌, Option, none, List, [], ◌∷◌, ◌++◌, ltb, leb,
  nat_beq, if◌then◌else◌,
}
use deployd.Entity.Content.{
  Content, ValidationError, outer_space, inner_space, too_long, not_alphanumeric,
}

pub record BoundAddress : Type 0 where
  pub host : String
  pub port : ℕ

pub record ArtifactdRepository : Type 0 where
  pub url : String
  pub ns : String
  pub id : String

pub record ServiceDefinition : Type 0 where
  pub ns : String
  pub id : String
  pub name : String
  pub description : String
  pub repository : ArtifactdRepository
  pub executable_path : String
  pub bound_addresses : List BoundAddress
  pub published_at : ℕ
  pub url : String

-- The code points of a text.
abbrev pub codes : String → List ℕ
codes String.[] = []
codes (String.◌∷◌ c s) = code c ∷ codes s

-- unicode.IsSpace
is_space : ℕ → Bool
is_space c =
    (leb 9 c && leb c 13)
    || nat_beq c 32
    || nat_beq c 0x85
    || nat_beq c 0xa0
    || nat_beq c 0x1680
    || (leb 0x2000 c && leb c 0x200a)
    || nat_beq c 0x2028
    || nat_beq c 0x2029
    || nat_beq c 0x202f
    || nat_beq c 0x205f
    || nat_beq c 0x3000

-- strings.TrimSpace(s) == s: neither end is a space.
abbrev starts_with_space : List ℕ → Bool
starts_with_space [] = false
starts_with_space (c ∷ _) = is_space c

abbrev ends_with_space : List ℕ → Bool
ends_with_space [] = false
ends_with_space (c ∷ []) = is_space c
ends_with_space (c ∷ d ∷ cs) = ends_with_space (d ∷ cs)

-- len(strings.Fields(s)) > 0: some character is no space.
abbrev has_field : List ℕ → Bool
has_field [] = false
has_field (c ∷ cs) = not (is_space c) || has_field cs

-- The class [a-zA-Z0-9].
is_alphanumeric : ℕ → Bool
is_alphanumeric c =
    (leb b'a' c && leb c b'z') || (leb b'A' c && leb c b'Z') || (leb b'0' c && leb c b'9')

all_alphanumeric : List ℕ → Bool
all_alphanumeric [] = true
all_alphanumeric (c ∷ cs) = is_alphanumeric c && all_alphanumeric cs

-- ^[a-zA-Z0-9]+$
abbrev matches_alphanumeric : List ℕ → Bool
matches_alphanumeric [] = false
matches_alphanumeric (c ∷ cs) = all_alphanumeric (c ∷ cs)

abbrev max_id_length : ℕ
max_id_length = 64

abbrev report : Bool → ValidationError → List ValidationError
report b e = if b then e ∷ [] else []

-- What the four tests of Validate find, in their order. `len` counts bytes, as in Go.
pub found_errors : ServiceDefinition → List ValidationError
unfolding is_space all_alphanumeric is_alphanumeric
found_errors a =
    let cs = codes a.id in
    report (starts_with_space cs || ends_with_space cs) outer_space
    ++ (report (has_field cs) inner_space
        ++ (report (ltb max_id_length (len a.id)) too_long
            ++ report (not (matches_alphanumeric cs)) not_alphanumeric))

-- `errors.Join` returns the joined error, and each call drops it: `validationErrs` is never assigned.
pub validate : ServiceDefinition → Option ValidationError
validate a =
    let validation_errs : Option ValidationError = none in
    let dropped = found_errors a in validation_errs

abbrev pub service_content : Content ServiceDefinition
service_content = record {
  created_time = λ a. a.published_at;
  id = λ a. a.id;
  namespace = λ a. a.ns;
  ref_ids = λ _. [];
  url = λ a. a.url;
  validate = validate;
  with_created_time = λ t a. record a { published_at = t };
  with_id = λ i a. record a { id = i };
  with_namespace = λ i a. record a { ns = i };
  with_url = λ u a. record a { url = u };
}
