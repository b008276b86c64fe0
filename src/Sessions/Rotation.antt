-- ===== src/Sessions/Rotation.antt =====
-- Refresh tokens are used once: backend/src/auth.service.ts, `refresh` and `logout`.
use comandas_multitenant_off.Prelude.{
  ℕ, ◌≡◌, String, Bool, true, false, none, some, arith, not, ltb, is_some,
}
use comandas_multitenant_off.Prelude.Dict.{put, get, find_row, find_row-map_rows}
use comandas_multitenant_off.Prelude.{Option-cases, Bool-cases, inl, inr, refl, leb}
use comandas_multitenant_off.Prelude.Dict.{get-map_rows, get-put}
use comandas_multitenant_off.Prelude.Trim.{trim}
use comandas_multitenant_off.Http.{ok, err, unauthorized, bad_session, ◌>>=◌}
use comandas_multitenant_off.Sessions.{
  live_token, create_token, Session, State, RefreshToken, User, Crypto, revoke_all, claim_token,
  rotate, refresh_found, refresh, is_email, verify_password, login, issue_session, logout, is_live,
  revoke,
}

-- No token of the user is live.
abbrev pub signed_out : ℕ → State → Bool
signed_out user s = not (is_some (find_row (is_live user) s.tokens))

revoke-dead : (now user h : ℕ) (t : RefreshToken) → is_live user h (revoke now user h t) ≡ false
unfolding is_live revoke
revoke-dead now user h t = ground arith

pub revoke_all-signed_out :
    (now user : ℕ) (s s' : State) → revoke_all now user s ≡ (ok tt, s') → signed_out user s' ≡ true
unfolding revoke_all ◌>>=◌
revoke_all-signed_out now user s s' h =
    ground
      (arith, find_row-map_rows (is_live user) (revoke now user) (revoke-dead now user) s.tokens)

-- A token that was found revoked opens no session, and its user is signed out everywhere.
pub reused_token_signs_out :
    (c : Crypto) (between : State → State) (now : ℕ) (new raw : String) (s : State)
    (t : RefreshToken) (u : User) (at : ℕ)
    → get (c.hash_token raw) s.tokens ≡ some t
    → get t.user s.users ≡ some u
    → ltb now t.expires_at ≡ true
    → t.revoked_at ≡ some at
    → ((refresh c between now new raw s).0 ≡ err (unauthorized bad_session))
      × (signed_out t.user (refresh c between now new raw s).1 ≡ true)
unfolding refresh refresh_found revoke_all ◌>>=◌
reused_token_signs_out c between now new raw s t u at h hu he hr = ground (
  arith,
  find_row-map_rows (is_live t.user) (revoke now t.user) (revoke-dead now t.user) s.tokens,
)

-- When another request takes the token between the first look and the transaction, the refresh is
-- refused, and the revocation that the transaction makes is rolled back with the refusal.
pub lost_race_keeps_sessions :
    (c : Crypto) (between : State → State) (now : ℕ) (new raw : String) (s : State)
    (t t' : RefreshToken) (u : User) (at : ℕ)
    → get (c.hash_token raw) s.tokens ≡ some t
    → get t.user s.users ≡ some u
    → ltb now t.expires_at ≡ true
    → t.revoked_at ≡ none
    → get (c.hash_token raw) (between s).tokens ≡ some t'
    → t'.revoked_at ≡ some at
    → refresh c between now new raw s ≡ (err (unauthorized bad_session), between s)
unfolding refresh refresh_found rotate claim_token revoke_all ◌>>=◌
lost_race_keeps_sessions c between now new raw s t t' u at h hu he hr hb ht = ground arith

-- After a logout with a known token no token of its user is live.
pub logout_signs_out :
    (c : Crypto) (now : ℕ) (raw : String) (s : State) (t : RefreshToken)
    → get (c.hash_token raw) s.tokens ≡ some t
    → ((logout c now raw s).0 ≡ ok tt) × (signed_out t.user (logout c now raw s).1 ≡ true)
unfolding logout revoke_all ◌>>=◌
logout_signs_out c now raw s t h = ground (
  arith,
  find_row-map_rows (is_live t.user) (revoke now t.user) (revoke-dead now t.user) s.tokens,
)

-- The token is known, and revoked.
Revoked : ℕ → State → Type 0
Revoked h s = (t : RefreshToken) × (get h s.tokens ≡ some t) × (is_some t.revoked_at ≡ true)

rotate-Revoked :
    (c : Crypto) (now h : ℕ) (new : String) (id : ℕ) (u : User) (s s' : State) (v : Session)
    → rotate c now h new id u s ≡ (ok v, s')
    → Revoked h s'
unfolding rotate claim_token create_token revoke_all ◌>>=◌ Revoked
rotate-Revoked c now h new id u s s' v e = elim (Option-cases (get h s.tokens)) [
  | inl n ↦ ground arith
  | inr (t, g) ↦
      let t' : RefreshToken = record t {
        revoked_at = some now;
        replaced_by = some (c.hash_token new);
      } in
      (
        t',
        ground (
          arith,
          get-put h (c.hash_token new) (live_token now id) (put h t' s.tokens),
          get-put h h t' s.tokens,
          get-put (c.hash_token new) h t' s.tokens,
        ),
        refl,
      )
]

refresh-Revoked :
    (c : Crypto) (between : State → State) (now : ℕ) (new raw : String) (s s' : State) (v : Session)
    → refresh c between now new raw s ≡ (ok v, s')
    → Revoked (c.hash_token raw) s'
unfolding refresh refresh_found revoke_all ◌>>=◌
refresh-Revoked c between now new raw s s' v e =
    elim (Option-cases (get (c.hash_token raw) s.tokens)) [
      | inl n ↦ ground arith
      | inr (t, g) ↦ elim (Option-cases (get t.user s.users)) [
        | inl n ↦ ground arith
        | inr (u, gu) ↦
            rotate-Revoked c now (c.hash_token raw) new t.user u (between s) s' v (ground arith)
      ]
    ]

revoked_refused :
    (c : Crypto) (between : State → State) (now : ℕ) (new raw : String) (s : State)
    (t : RefreshToken)
    → get (c.hash_token raw) s.tokens ≡ some t
    → is_some t.revoked_at ≡ true
    → (refresh c between now new raw s).0 ≡ err (unauthorized bad_session)
unfolding refresh refresh_found revoke_all ◌>>=◌
revoked_refused c between now new raw s t h r = elim (Option-cases (get t.user s.users)) [
  | inl n ↦ ground arith
  | inr (u, gu) ↦ ground arith
]

create_token-Revoked :
    (h k : ℕ) (t : RefreshToken) (s : State) → Revoked h s → Revoked h (create_token k t s).1
unfolding create_token Revoked
create_token-Revoked h k t s (x, g, r) = (x, ground (arith, get-put h k t s.tokens), r)

revoke_all-Revoked :
    (now user h : ℕ) (s : State) → Revoked h s → Revoked h (revoke_all now user s).1
unfolding revoke_all revoke is_live Revoked ◌>>=◌
revoke_all-Revoked now user h s (x, g, r) =
    (x, ground (arith, get-map_rows (revoke now user) h x s.tokens), r)

rotate_state-Revoked :
    (c : Crypto) (now h k : ℕ) (new : String) (id : ℕ) (u : User) (s : State)
    → Revoked h s
    → Revoked h (rotate c now k new id u s).1
unfolding rotate claim_token create_token revoke_all ◌>>=◌ Revoked
rotate_state-Revoked c now h k new id u s (x, g, r) = (
  x,
  elim (Option-cases (get k s.tokens)) [
    | inl n ↦ ground arith
    | inr (t, there) ↦
        let t' : RefreshToken = record t {
          revoked_at = some now;
          replaced_by = some (c.hash_token new);
        } in
        ground (
          arith,
          get-put h (c.hash_token new) (live_token now id) (put k t' s.tokens),
          get-put h k t' s.tokens,
        )
  ],
  r,
)

refresh_state-Revoked :
    (c : Crypto) (between : State → State) (now h : ℕ) (new raw : String) (s : State)
    → Revoked h s
    → Revoked h (between s)
    → Revoked h (refresh c between now new raw s).1
unfolding refresh refresh_found revoke_all ◌>>=◌
refresh_state-Revoked c between now h new raw s before after =
    elim (Option-cases (get (c.hash_token raw) s.tokens)) [
      | inl n ↦ rw n before
      | inr (t, g) ↦ elim (Option-cases (get t.user s.users)) [
        | inl n ↦ rw (g, n) before
        | inr (u, gu) ↦ elim (Bool-cases (leb t.expires_at now)) [
          | inl expired ↦ rw (g, gu, expired) before
          | inr fresh ↦ elim (Bool-cases (is_some t.revoked_at)) [
            | inl dead ↦ rw (g, gu, fresh, dead) (revoke_all-Revoked now t.user h s before)
            | inr live ↦
                rw (g, gu, fresh, live)
                  (rotate_state-Revoked c now h (c.hash_token raw) new t.user u (between s) after)
          ]
        ]
      ]
    ]

issue_session-Revoked :
    (c : Crypto) (now h : ℕ) (token : String) (id : ℕ) (u : User) (s : State)
    → Revoked h s
    → Revoked h (issue_session c now token id u s).1
unfolding issue_session create_token ◌>>=◌ Revoked
issue_session-Revoked c now h token id u s (x, g, r) =
    (x, ground (arith, get-put h (c.hash_token token) (live_token now id) s.tokens), r)

login-Revoked :
    (c : Crypto) (now h : ℕ) (token email password : String) (s : State)
    → Revoked h s
    → Revoked h (login c now token email password s).1
unfolding login issue_session ◌>>=◌
login-Revoked c now h token email password s before =
    elim (Option-cases (find_row (λ id u. is_email u.email (trim email)) s.users)) [
      | inl n ↦ rw n before
      | inr ((id, u), found) ↦ elim (Bool-cases (verify_password c password u.password)) [
        | inr wrong ↦ rw (found, wrong) before
        | inl right ↦ rw (found, right) (issue_session-Revoked c now h token id u s before)
      ]
    ]

logout-Revoked :
    (c : Crypto) (now h : ℕ) (raw : String) (s : State)
    → Revoked h s
    → Revoked h (logout c now raw s).1
unfolding logout ◌>>=◌
logout-Revoked c now h raw s before = elim (Option-cases (get (c.hash_token raw) s.tokens)) [
  | inl n ↦ rw n before
  | inr (t, g) ↦ rw g (revoke_all-Revoked now t.user h s before)
]

-- What the endpoints of the sessions do to the tokens, one request after another; a refresh may
-- have looked its token up before others were served.
pub data Run (c : Crypto) : State → State → Type 0 where
  rest : (s : State) → Run c s s
  logs_in :
      (now : ℕ) (token email password : String) {s u : State}
      → Run c s u
      → Run c s (login c now token email password u).1
  logs_out : (now : ℕ) (raw : String) {s u : State} → Run c s u → Run c s (logout c now raw u).1
  refreshes :
      (now : ℕ) (new raw : String) {s u v : State}
      → Run c s u
      → Run c u v
      → Run c s (refresh c (λ _. v) now new raw u).1

Run-Revoked : (c : Crypto) (h : ℕ) {s u : State} → Run c s u → Revoked h s → Revoked h u
Run-Revoked c h (rest s) before = before
Run-Revoked c h (logs_in now token email password r) before =
    login-Revoked c now h token email password _ (Run-Revoked c h r before)
Run-Revoked c h (logs_out now raw r) before =
    logout-Revoked c now h raw _ (Run-Revoked c h r before)
Run-Revoked c h (refreshes now new raw {v = v} r q) before =
    let here = Run-Revoked c h r before in
    refresh_state-Revoked c (λ _. v) now h new raw _ here (Run-Revoked c h q here)

late_refused :
    (c : Crypto) (now : ℕ) (new raw : String) (start u : State)
    → Revoked (c.hash_token raw) u
    → (refresh c (λ _. u) now new raw start).0 ≡ err (unauthorized bad_session)
unfolding refresh refresh_found rotate claim_token revoke_all ◌>>=◌ Revoked
late_refused c now new raw start u (x, g, r) =
    elim (Option-cases (get (c.hash_token raw) start.tokens)) [
      | inl n ↦ ground arith
      | inr (t, found) ↦ elim (Option-cases (get t.user start.users)) [
        | inl n ↦ ground arith
        | inr (o, owner) ↦ ground arith
      ]
    ]

-- A token that opened a session opens no second one: after any run of logins, logouts and refreshes
-- it is refused, whatever others do meanwhile, and so is a refresh that had looked it up in any
-- earlier state and begins its transaction only then.
pub token_used_once :
    (c : Crypto) (between : State → State) (now : ℕ) (new raw : String) (s s' u : State)
    (v : Session)
    → refresh c between now new raw s ≡ (ok v, s')
    → Run c s' u
    → (later : State → State) (moment : ℕ) (other : String) (start : State)
    → ((refresh c later moment other raw u).0 ≡ err (unauthorized bad_session))
      × ((refresh c (λ _. u) moment other raw start).0 ≡ err (unauthorized bad_session))
unfolding Revoked
token_used_once c between now new raw s s' u v e run later moment other start =
    let dead =
      Run-Revoked c (c.hash_token raw) run (refresh-Revoked c between now new raw s s' v e) in
    let (t, g, r) = dead in
    (revoked_refused c later moment other raw u t g r, late_refused c moment other raw start u dead)
