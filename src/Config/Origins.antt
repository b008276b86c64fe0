-- ===== src/Config/Origins.antt =====
-- What a checked configuration excludes: backend/src/config.utils.ts.
use comandas_multitenant_off.Prelude.{
  ◌≡◌, String, false, some, List, [], ◌∷◌, arith, inl, inr, Bool-cases,
}
use comandas_multitenant_off.Prelude.Trim.{trim, is_blank, split_list}
use comandas_multitenant_off.Config.{
  accepted, includes, parse_cors_origins, allows_origin, restricted,
}

restricted_lem :
    (os origins : List String)
    → restricted os ≡ accepted origins
    → (origins ≡ os) × (includes "*" os ≡ false)
unfolding restricted
restricted_lem [] origins e = absurd (ground arith)
restricted_lem (o ∷ os) origins e = elim (Bool-cases (includes "*" (o ∷ os))) [
  | inl wild ↦ absurd (ground arith)
  | inr tame ↦ (ground arith, tame)
]

-- The origins of an accepted configuration are those of its list, and none is the wildcard.
pub parse_cors_origins_lem :
    (text : String) (origins : List String)
    → parse_cors_origins (some text) ≡ accepted origins
    → (origins ≡ split_list text) × (allows_origin origins (some "*") ≡ false)
unfolding parse_cors_origins allows_origin
parse_cors_origins_lem text origins e = elim (Bool-cases (is_blank (trim text))) [
  | inl blank ↦ absurd (ground arith)
  | inr given ↦
      let (same, tame) = restricted_lem (split_list text) origins (ground arith) in
      (same, rw same tame)
]
