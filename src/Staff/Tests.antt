-- ===== src/Staff/Tests.antt =====
-- A waiter who is deactivated, and the theorems about the staff at these rows.
use comandas_multitenant_off.Prelude.{◌≡◌, refl, true, false, none, some, [], ◌∷◌}
use comandas_multitenant_off.Prelude.Lists.{All}
use comandas_multitenant_off.Http.{err, forbidden, not_member, ◌>>=◌}
use comandas_multitenant_off.Store.{manager, waiter}
use comandas_multitenant_off.Guards.{
  includes_role, normalized_role, find_membership, bearer, tenant_id, guard,
}
use comandas_multitenant_off.Sessions.{Crypto, malformed}
use comandas_multitenant_off.Staff.{
  Team, Socket, deactivate, change_member, is_member, disconnect_user,
}
use comandas_multitenant_off.Staff.Sockets.{
  Gateway, Handshake, handle_connection, socket_for, access, claimant, live_user,
}
use comandas_multitenant_off.Staff.Members.{HasOnlyMembers, is_of}
use comandas_multitenant_off.Staff.Access.{deactivating, serve_staff, serve_staff-HasOnlyMembers}
use comandas_multitenant_off.Staff.Lockout.{deactivate_locks_out, handshake_race_stays}

abbrev rui : Socket
rui = record { id = 90; user = 6; tenant = 1; role = waiter }

-- Ana manages the bar, and Rui, a waiter, is connected.
abbrev team : Team
team = record {
  next_id = 10;
  users =
      (5, record { name = "Ana"; email = "ana@bar"; password = malformed })
      ∷ (6, record { name = "Rui"; email = "rui@bar"; password = malformed })
      ∷ [];
  memberships =
      record { user = 5; tenant = 1; role = manager; active = true }
      ∷ record { user = 6; tenant = 1; role = waiter; active = true }
      ∷ [];
  sockets = rui ∷ [];
}

abbrev without_rui : Team
without_rui = record team {
  memberships =
      record { user = 5; tenant = 1; role = manager; active = true }
      ∷ record { user = 6; tenant = 1; role = waiter; active = false }
      ∷ [];
  sockets = [];
}

abbrev crypto : Crypto
crypto = record { scrypt = λ s salt. salt; hash_token = λ s. 7; sign = λ id email. email }

abbrev gateway : Gateway
gateway = record {
  allows_origin = λ o. true;
  verify = λ token. some (record { sub = some 6; exp = some 100 });
  now = 1000;
  between = λ t. t;
}

-- While Rui connects, Ana deactivates him.
abbrev busy_gateway : Gateway
busy_gateway = record gateway { between = λ t. without_rui }

abbrev handshake : Handshake
handshake = record { origin = none; token = some "t"; tenant = some 1 }

team-HasOnlyMembers : HasOnlyMembers team
unfolding find_membership
team-HasOnlyMembers = record { all = (refl, tt) }

serve_staff-HasOnlyMembers_example :
    HasOnlyMembers (serve_staff (deactivating 6) crypto [] gateway 1 (some 5) team)
serve_staff-HasOnlyMembers_example =
    serve_staff-HasOnlyMembers (deactivating 6) crypto [] gateway 1 (some 5) team (λ u h. h) tt
      team-HasOnlyMembers

deactivate_locks_out_example :
    All (λ s. is_of 6 1 s ≡ false) without_rui.sockets
    × (guard
          (λ token. some 6)
          (record { memberships = without_rui.memberships; subscriptions = [] })
          0
          (waiter ∷ [])
          none
          (bearer "t")
          (tenant_id 1)
        ≡ err (forbidden not_member))
unfolding deactivate is_member find_membership change_member disconnect_user ◌>>=◌
deactivate_locks_out_example =
    deactivate_locks_out 1 (some 5) 6 team without_rui (λ token. some 6) [] 0 (waiter ∷ []) none "t"
      refl refl

handshake_race_stays_example :
    ¬ (HasOnlyMembers (handle_connection busy_gateway handshake 90 team).1)
unfolding socket_for claimant live_user access find_membership includes_role normalized_role
handshake_race_stays_example = handshake_race_stays busy_gateway handshake 90 rui team refl refl
