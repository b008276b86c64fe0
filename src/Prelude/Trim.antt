-- ===== src/Prelude/Trim.antt =====
-- `String.prototype.trim`, and lists in a text.
use Prim.Native.Char.{Char, code}
use comandas_multitenant_off.Prelude.Lists.{keep}
use comandas_multitenant_off.Prelude.{
  ℕ, ◌≡◌, refl, String, Bool, List, [], ◌∷◌, map, not, true, false, ◌&&◌, ◌||◌, ◌==◌, leb,
  if◌then◌else◌,
}

-- ECMAScript's WhiteSpace and LineTerminator
is_space : ℕ → Bool
is_space c =
    (leb 9 c && leb c 13)
    || c == 32
    || c == 160
    || c == 0x1680
    || (leb 0x2000 c && leb c 0x200a)
    || c == 0x2028
    || c == 0x2029
    || c == 0x202f
    || c == 0x205f
    || c == 0x3000
    || c == 0xfeff

abbrev pub is_blank : String → Bool
is_blank String.[] = true
is_blank (String.◌∷◌ c s) = false

trim_start : String → String
unfolding is_space
trim_start String.[] = ""
trim_start (String.◌∷◌ c s) = if is_space (code c) then trim_start s else String.◌∷◌ c s

trim_end : String → String
unfolding is_space
trim_end String.[] = ""
trim_end (String.◌∷◌ c s) =
    let r = trim_end s in if is_blank r && is_space (code c) then "" else String.◌∷◌ c r

unfoldable pub trim : String → String
unfolding trim_start trim_end
trim s = trim_end (trim_start s)

trim_key : trim "  k 1 " ≡ "k 1"
unfolding trim
trim_key = refl

put_first : Char → List String → List String
put_first c [] = String.◌∷◌ c "" ∷ []
put_first c (t ∷ ts) = String.◌∷◌ c t ∷ ts

-- `String.prototype.split(',')`
unfoldable pub split_commas : String → List String
unfolding put_first
split_commas String.[] = "" ∷ []
split_commas (String.◌∷◌ c s) =
    let rest = split_commas s in if code c == 44 then "" ∷ rest else put_first c rest

-- `.split(',').map((t) => t.trim()).filter(Boolean)`
unfoldable pub split_list : String → List String
split_list s = keep (λ t. not (is_blank t)) (map trim (split_commas s))
