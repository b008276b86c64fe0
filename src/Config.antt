-- ===== src/Config.antt =====
-- backend/src/config.utils.ts: the secret of the tokens, the origins that browsers may call from,
-- and the documentation page. `Buffer.byteLength` counts the bytes of a text's UTF-8.
pub mod Origins
use Prim.Native.String.{len}
use text.Mathlib.Text.{◌==◌ as str_eq}
use comandas_multitenant_off.Prelude.{
  ℕ, String, Bool, true, false, Option, none, some, List, [], ◌∷◌, ◌&&◌, ◌||◌, not, ltb,
  if◌then◌else◌,
}
use comandas_multitenant_off.Prelude.Trim.{trim, is_blank, split_list}

-- The messages of the errors.
pub data ConfigError : Type 0 where
  secret_required short_secret example_secret : ConfigError
  origins_required unrestricted_origins : ConfigError

pub data Checked (A : Type 0) : Type 0 where
  accepted : A → Checked A
  refused : ConfigError → Checked A

abbrev pub includes : String → List String → Bool
includes s [] = false
includes s (t ∷ ts) = str_eq t s || includes s ts

-- `FORBIDDEN_JWT_SECRETS`
abbrev pub forbidden_jwt_secrets : List String
forbidden_jwt_secrets =
    "troque-por-um-segredo-com-pelo-menos-32-bytes" ∷ "1234567890123456789012345678901234567890"
    ∷ "secret-key-123456789012345678901234567890" ∷ []

trimmed_secret : String → Checked String
trimmed_secret t =
    if ltb (len t) 32
    then refused short_secret
    else if includes t forbidden_jwt_secrets
    then refused example_secret
    else accepted t

-- `validateJwtSecret`
unfoldable pub validate_jwt_secret : Option String → Checked String
unfolding trimmed_secret
validate_jwt_secret none = refused secret_required
validate_jwt_secret (some s) =
    if is_blank s then refused secret_required else trimmed_secret (trim s)

unfoldable pub restricted : List String → Checked (List String)
restricted [] = refused unrestricted_origins
restricted (o ∷ os) =
    if includes "*" (o ∷ os) then refused unrestricted_origins else accepted (o ∷ os)

-- `parseCorsOrigins`; the set is a list
unfoldable pub parse_cors_origins : Option String → Checked (List String)
unfolding restricted
parse_cors_origins none = refused origins_required
parse_cors_origins (some s) =
    if is_blank (trim s) then refused origins_required else restricted (split_list s)

-- What `getCorsOriginValidator` returns for the origins.
unfoldable pub allows_origin : List String → Option String → Bool
allows_origin origins none = true
allows_origin origins (some o) = includes o origins

-- `getCorsOriginValidator`
unfoldable pub get_cors_origin_validator : Option String → Checked (Option String → Bool)
get_cors_origin_validator value = elim (parse_cors_origins value) [
  | refused e ↦ refused e
  | accepted origins ↦ accepted (allows_origin origins)
]

-- `shouldEnableSwagger`
unfoldable pub should_enable_swagger : Option String → Option String → Bool
should_enable_swagger (some env) (some enabled) =
    not (str_eq env "production") && str_eq enabled "true"
should_enable_swagger none (some enabled) = str_eq enabled "true"
should_enable_swagger env none = false
