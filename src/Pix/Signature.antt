-- ===== src/Pix/Signature.antt =====
-- backend/src/pix.controller.ts, `getPixWebhookSecret` and `verifyPixWebhookSignature`. The
-- environment's variable of a provider and the HMAC are parameters. A signature is the bytes that
-- its hexadecimal text decodes to, and a timestamp comes with the integer that `Number` reads in
-- it, if any natural number (a negative one is out of the window); an empty header is a missing one.
use comandas_multitenant_off.Prelude.{
  ℕ, ◌+◌, ◌≤◌, ◌≡◌, inl, inr, refl, String, Bool, true, false, Option, none, some, List, [], ◌∷◌,
  arith, ◌==◌, ◌&&◌, ◌||◌, leb, if◌then◌else◌, Option-cases,
}
use Prim.Native.Char.{code}
use comandas_multitenant_off.Http.{Result, ok, err, forbidden, webhook_denied}

pub record Keys : Type 0 where
  -- `process.env['PIX_WEBHOOK_SECRET_' + ...]` of a provider
  pub secret_of : String → Option String
  -- `createHmac('sha256', secret)` of the timestamp, a dot and the body
  pub hmac : String → String → String → List ℕ

pub record Timestamp : Type 0 where
  pub text : String
  pub seconds : Option ℕ

-- `[a-z0-9]`
is_name_char : ℕ → Bool
is_name_char c = (leb 97 c && leb c 122) || (leb 48 c && leb c 57)

-- The rest of a name after a character of it, or after a dash.
is_name_rest : Bool → String → Bool
unfolding is_name_char
is_name_rest after_char String.[] = after_char
is_name_rest after_char (String.◌∷◌ c s) =
    if is_name_char (code c)
    then is_name_rest true s
    else after_char && (code c == 45) && is_name_rest false s

-- `/^[a-z0-9]+(?:-[a-z0-9]+)*$/`
unfoldable pub is_provider_name : String → Bool
unfolding is_name_rest
is_provider_name s = is_name_rest false s

unfoldable pub get_pix_webhook_secret : Keys → String → Option String
get_pix_webhook_secret keys provider =
    if is_provider_name provider then keys.secret_of provider else none

-- `Math.abs(now - timestampNum) > 300`, the other way round
abbrev pub is_recent : ℕ → Option ℕ → Bool
is_recent now none = false
is_recent now (some t) = leb now (t + 300) && leb t (now + 300)

unfoldable pub same_bytes : List ℕ → List ℕ → Bool
same_bytes [] [] = true
same_bytes (x ∷ xs) (y ∷ ys) = (x == y) && same_bytes xs ys
same_bytes xs ys = false

denied : Result (Unit {0})
denied = err (forbidden webhook_denied)

check_stamped : Keys → String → String → List ℕ → ℕ → Timestamp → Result (Unit {0})
unfolding denied
check_stamped keys secret raw supplied now t =
    if is_recent now t.seconds
    then if same_bytes (keys.hmac secret t.text raw) supplied then ok tt else denied
    else denied

is_empty : String → Bool
is_empty String.[] = true
is_empty (String.◌∷◌ c s) = false

-- `!secret`: an empty secret is a missing one.
check_secret :
    Keys → ℕ → String → Option (List ℕ) → Option Timestamp → Option String → Result (Unit {0})
unfolding is_empty denied check_stamped
check_secret keys now raw signature timestamp none = denied
check_secret keys now raw none timestamp (some secret) = denied
check_secret keys now raw (some supplied) none (some secret) = denied
check_secret keys now raw (some supplied) (some t) (some secret) =
    if is_empty secret then denied else check_stamped keys secret raw supplied now t

unfoldable pub verify_pix_webhook_signature :
    Keys → ℕ → String → String → Option (List ℕ) → Option Timestamp → Result (Unit {0})
unfolding check_secret
verify_pix_webhook_signature keys now provider raw signature timestamp =
    check_secret keys now raw signature timestamp (get_pix_webhook_secret keys provider)

same_bytes_eq : (xs ys : List ℕ) → same_bytes xs ys ≡ true → xs ≡ ys
unfolding same_bytes
same_bytes_eq [] [] h = refl
same_bytes_eq [] (y ∷ ys) h = absurd (ground arith)
same_bytes_eq (x ∷ xs) [] h = absurd (ground arith)
same_bytes_eq (x ∷ xs) (y ∷ ys) h =
    let e : x ≡ y = ground arith in let t : xs ≡ ys = same_bytes_eq xs ys (ground arith) in cc

-- An accepted webhook carries the HMAC of its own timestamp and body under the provider's secret,
-- and its timestamp is at most 300 seconds away from now.
pub accepted_is_signed :
    (keys : Keys) (now : ℕ) (provider raw : String) (signature : Option (List ℕ))
    (timestamp : Option Timestamp)
    → verify_pix_webhook_signature keys now provider raw signature timestamp ≡ ok tt
    → (secret : String) × (t : Timestamp) × (n : ℕ) × (get_pix_webhook_secret keys provider
        ≡ some secret)
      × (timestamp ≡ some t)
      × (t.seconds ≡ some n)
      × (now ≤ n + 300)
      × (n ≤ now + 300)
      × (signature ≡ some (keys.hmac secret t.text raw))
unfolding verify_pix_webhook_signature
accepted_is_signed keys now provider raw signature timestamp h =
    elim (Option-cases (get_pix_webhook_secret keys provider)) [
      | inl n ↦ absurd (ground arith)
      | inr (secret, g) ↦ elim (Option-cases signature) [
        | inl n ↦ absurd (ground arith)
        | inr (supplied, e) ↦ elim (Option-cases timestamp) [
          | inl n ↦ absurd (ground arith)
          | inr (t, f) ↦ elim (Option-cases t.seconds) [
            | inl n ↦ absurd (ground arith)
            | inr (n, w) ↦
                let same : keys.hmac secret t.text raw ≡ supplied =
                  same_bytes_eq _ _ (ground arith) in
                (secret, t, n, g, f, w, ground arith, ground arith, cc)
          ]
        ]
      ]
    ]
