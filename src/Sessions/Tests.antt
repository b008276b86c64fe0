-- ===== src/Sessions/Tests.antt =====
-- Sessions on concrete users and tokens.
use Prim.Native.Char.{code}
use comandas_multitenant_off.Prelude.{
  ℕ, zero, suc, ◌+◌, ◌≡◌, refl, String, true, Option, none, some, List, [], ◌∷◌,
}
use comandas_multitenant_off.Prelude.Dict.{get, put}
use comandas_multitenant_off.Http.{ok, err, unauthorized, bad_session, ◌>>=◌}
use comandas_multitenant_off.Sessions.{
  State, User, RefreshToken, Crypto, Session, malformed, hash_password, verify_password, refresh,
  logout, refresh_found, rotate, claim_token, create_token, revoke_all,
}
use comandas_multitenant_off.Sessions.Rotation.{
  reused_token_signs_out, lost_race_keeps_sessions, token_used_once, signed_out, rest, logs_out,
}

abbrev hash_of : String → ℕ
hash_of String.[] = 0
hash_of (String.◌∷◌ c s) = code c

abbrev bytes : ℕ → List ℕ
bytes zero = []
bytes (suc n) = n ∷ bytes n

abbrev crypto : Crypto
crypto = record {
  scrypt = λ password salt. bytes 64;
  hash_token = hash_of;
  sign = λ id email. email;
}

abbrev ana : User
ana = record { name = "Ana"; email = "ana@bar"; password = malformed }

abbrev token : Option ℕ → RefreshToken
token revoked = record { user = 7; expires_at = 100; revoked_at = revoked; replaced_by = none }

abbrev signed_in : Option ℕ → State
signed_in revoked = record {
  users = (7, ana) ∷ [];
  tokens = (97, token revoked) ∷ (3, token none) ∷ [];
}

abbrev quiet : State → State
quiet s = s

found : get (crypto.hash_token "a") (signed_in none).tokens ≡ some (token none)
unfolding get
found = refl

found_revoked : get (crypto.hash_token "a") (signed_in (some 5)).tokens ≡ some (token (some 5))
unfolding get
found_revoked = refl

revoked_since : get (crypto.hash_token "a") (signed_in (some 9)).tokens ≡ some (token (some 9))
unfolding get
revoked_since = refl

owner : get 7 (signed_in none).users ≡ some ana
unfolding get
owner = refl

password_matches : verify_password crypto "x" (hash_password crypto (bytes 16) "x") ≡ true
unfolding verify_password hash_password
password_matches = refl

reused_token_signs_out_example :
    ((refresh crypto quiet 10 "b" "a" (signed_in (some 5))).0 ≡ err (unauthorized bad_session))
    × (signed_out 7 (refresh crypto quiet 10 "b" "a" (signed_in (some 5))).1 ≡ true)
reused_token_signs_out_example =
    reused_token_signs_out crypto quiet 10 "b" "a" (signed_in (some 5)) (token (some 5)) ana 5
      found_revoked owner refl refl

lost_race_keeps_sessions_example :
    refresh crypto (λ s. signed_in (some 9)) 10 "b" "a" (signed_in none)
    ≡ (err (unauthorized bad_session), signed_in (some 9))
lost_race_keeps_sessions_example =
    lost_race_keeps_sessions crypto (λ s. signed_in (some 9)) 10 "b" "a" (signed_in none)
      (token none) (token (some 9)) ana 9 found owner refl refl revoked_since refl

abbrev rotated : State
rotated = record {
  users = (7, ana) ∷ [];
  tokens =
      (97, record (token none) { revoked_at = some 10; replaced_by = some 98 })
      ∷ (3, token none)
      ∷ (98, record (token none) { expires_at = 10 + 2592000000 })
      ∷ [];
}

abbrev new_session : Session
new_session = record {
  user = 7;
  name = "Ana";
  email = "ana@bar";
  access_token = "ana@bar";
  refresh_token = "b";
}

first_use : refresh crypto quiet 10 "b" "a" (signed_in none) ≡ (ok new_session, rotated)
unfolding refresh refresh_found rotate claim_token create_token revoke_all get put ◌>>=◌
first_use = refl

-- After the rotation its user logs out.
abbrev left : State
left = (logout crypto 15 "b" rotated).1

-- A replay of "a" after that, and one that had looked "a" up before it was used.
token_used_once_example :
    ((refresh crypto quiet 20 "c" "a" left).0 ≡ err (unauthorized bad_session))
    × ((refresh crypto (λ _. left) 20 "c" "a" (signed_in none)).0 ≡ err (unauthorized bad_session))
token_used_once_example =
    token_used_once crypto quiet 10 "b" "a" (signed_in none) rotated left new_session first_use
      (logs_out 15 "b" (rest rotated)) quiet 20 "c" (signed_in none)
