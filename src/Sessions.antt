-- ===== src/Sessions.antt =====
-- backend/src/auth.service.ts and backend/src/auth.utils.ts: login, the rotation of refresh tokens
-- and logout. A token is compared by its hash only, so a row stands under the hash (SHA-256, a
-- parameter), which the schema keeps unique; a generated token is an argument. Signing and scrypt
-- are parameters too. `between` is what other requests commit between the first look at a token
-- and the transaction. The text of a stored password, `scrypt:<salt>:<key>` in hexadecimal, stands
-- as its two byte strings, and an email is looked up after `trim().toLowerCase()`, whose lower case
-- is that of ASCII letters.
pub mod Rotation
mod Tests
use comandas_multitenant_off.Prelude.{
  ℕ, ◌+◌, String, Bool, true, false, Option, none, some, List, [], ◌∷◌, ◌==◌, ◌&&◌, not, leb,
  is_some, if◌then◌else◌,
}
use comandas_multitenant_off.Prelude.Dict.{Dict, get, put, map_rows, find_row}
use comandas_multitenant_off.Prelude.Trim.{trim}
use Prim.Native.Char.{code}
use comandas_multitenant_off.Prelude.Lists.{length}
use comandas_multitenant_off.Http.{
  Result, ok, err, unauthorized, unique_violation, bad_session, Exec, pure, raise, raise_if, gets,
  or_raise, transaction, modify, ◌>>=◌, ◌>>◌,
}

-- `user.password`: a text in the format of `hashPassword`, or any other text
pub data StoredPassword : Type 0 where
  scrypt_text : List ℕ → List ℕ → StoredPassword
  malformed : StoredPassword

pub record User : Type 0 where
  pub name : String
  pub email : String
  pub password : StoredPassword

pub record RefreshToken : Type 0 where
  pub user : ℕ
  pub expires_at : ℕ
  pub revoked_at : Option ℕ
  pub replaced_by : Option ℕ

-- Users by id, and refresh tokens by hash.
pub record State : Type 0 where
  pub users : Dict User
  pub tokens : Dict RefreshToken

-- What the code calls and does not define.
pub record Crypto : Type 0 where
  pub scrypt : String → List ℕ → List ℕ
  pub hash_token : String → ℕ
  pub sign : ℕ → String → String

same_bytes : List ℕ → List ℕ → Bool
same_bytes [] [] = true
same_bytes (x ∷ xs) (y ∷ ys) = (x == y) && same_bytes xs ys
same_bytes xs ys = false

unfoldable pub hash_password : Crypto → List ℕ → String → StoredPassword
hash_password c salt password = scrypt_text salt (c.scrypt password salt)

unfoldable pub verify_password : Crypto → String → StoredPassword → Bool
unfolding same_bytes
verify_password c password malformed = false
verify_password c password (scrypt_text salt expected) =
    (length salt == 16) && (length expected == 64) && same_bytes (c.scrypt password salt) expected

pub record Session : Type 0 where
  pub user : ℕ
  pub name : String
  pub email : String
  pub access_token : String
  pub refresh_token : String

abbrev session_of : Crypto → ℕ → User → String → Session
session_of c id u token = record {
  user = id;
  name = u.name;
  email = u.email;
  access_token = c.sign id u.email;
  refresh_token = token;
}

-- `REFRESH_TOKEN_TTL_MS`
abbrev refresh_token_ttl_ms : ℕ
refresh_token_ttl_ms = 2592000000

abbrev live_token : ℕ → ℕ → RefreshToken
live_token now id = record {
  user = id;
  expires_at = now + refresh_token_ttl_ms;
  revoked_at = none;
  replaced_by = none;
}

-- `refreshToken.create`: the hash is unique
unfoldable pub create_token : ℕ → RefreshToken → Exec State (Unit {0})
create_token h t s = elim (get h s.tokens) [
  | some r ↦ (err unique_violation, s)
  | none ↦ (ok tt, record s { tokens = put h t s.tokens })
]

unfoldable pub issue_session : Crypto → ℕ → String → ℕ → User → Exec State Session
issue_session c now token id u = do
  create_token (c.hash_token token) (live_token now id)
  pure (session_of c id u token)

-- a token that is not revoked, of the user
unfoldable pub is_live : ℕ → ℕ → RefreshToken → Bool
is_live user h t = (t.user == user) && not (is_some t.revoked_at)

unfoldable pub revoke : ℕ → ℕ → ℕ → RefreshToken → RefreshToken
revoke now user h t = if is_live user h t then record t { revoked_at = some now } else t

-- `refreshToken.updateMany({ where: { userId, revokedAt: null }, data: { revokedAt } })`
unfoldable pub revoke_all : ℕ → ℕ → Exec State (Unit {0})
revoke_all now user = modify (λ s. record s { tokens = map_rows (revoke now user) s.tokens })

-- `refreshToken.updateMany({ where: { id, revokedAt: null } })`: one row written or none
unfoldable pub claim_token : ℕ → ℕ → ℕ → Exec State Bool
claim_token now h replacement s = elim (get h s.tokens) [
  | none ↦ (ok false, s)
  | some t ↦ if is_some t.revoked_at then (ok false, s) else (
    ok true,
    record s {
      tokens = put h (record t { revoked_at = some now; replaced_by = some replacement }) s.tokens;
    },
  )
]

deny : Exec State Session
deny = raise (unauthorized bad_session)

-- `toLowerCase` of a character's code
lower_code : ℕ → ℕ
lower_code c = if leb 65 c && leb c 90 then c + 32 else c

-- the stored email is the given text in lower case
pub is_email : String → String → Bool
unfolding lower_code
is_email String.[] String.[] = true
is_email (String.◌∷◌ c s) (String.◌∷◌ d t) = (code c == lower_code (code d)) && is_email s t
is_email s t = false

-- `login`
unfoldable pub login : Crypto → ℕ → String → String → String → Exec State Session
unfolding deny is_email
login c now token email password = do
  found ← gets (λ s. find_row (λ id u. is_email u.email (trim email)) s.users)
  row ← or_raise found (unauthorized bad_session)
  if verify_password c password row.1.password then issue_session c now token row.0 row.1 else deny

revoke_and_deny : ℕ → ℕ → Exec State Session
unfolding deny
revoke_and_deny now user = do revoke_all now user; deny

open_replacement : Crypto → ℕ → String → ℕ → User → Exec State Session
open_replacement c now replacement id u = do
  create_token (c.hash_token replacement) (live_token now id)
  pure (session_of c id u replacement)

-- The transaction of `refresh`.
unfoldable pub rotate : Crypto → ℕ → ℕ → String → ℕ → User → Exec State Session
unfolding revoke_and_deny open_replacement
rotate c now h replacement id u = transaction do
  claimed ← claim_token now h (c.hash_token replacement)
  if claimed then open_replacement c now replacement id u else revoke_and_deny now id

unlocked : (State → State) → Crypto → ℕ → ℕ → String → ℕ → User → Exec State Session
unlocked between c now h replacement id u = do modify between; rotate c now h replacement id u

unfoldable pub refresh_found :
    Crypto → (State → State) → ℕ → ℕ → String → RefreshToken → User → Exec State Session
unfolding deny revoke_and_deny unlocked
refresh_found c between now h replacement t u =
    if leb t.expires_at now
    then deny
    else if is_some t.revoked_at
    then revoke_and_deny now t.user
    else unlocked between c now h replacement t.user u

-- `refresh`: the row comes with its user, which the schema's foreign key keeps.
unfoldable pub refresh : Crypto → (State → State) → ℕ → String → String → Exec State Session
refresh c between now replacement raw = do
  found ← gets (λ s. get (c.hash_token raw) s.tokens)
  t ← or_raise found (unauthorized bad_session)
  owner ← gets (λ s. get t.user s.users)
  u ← or_raise owner (unauthorized bad_session)
  refresh_found c between now (c.hash_token raw) replacement t u

unfoldable pub logout : Crypto → ℕ → String → Exec State (Unit {0})
logout c now raw = do
  found ← gets (λ s. get (c.hash_token raw) s.tokens)
  elim found [ none ↦ pure tt | some t ↦ revoke_all now t.user ]
