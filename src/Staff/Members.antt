-- ===== src/Staff/Members.antt =====
-- Only active members have sockets: backend/src/admin.controller.ts and
-- backend/src/orders.gateway.ts together.
use comandas_multitenant_off.Prelude.{
  ℕ, ◌≡◌, inl, inr, refl, ap, ◌∙◌, Bool, true, false, Option, none, some, List, [], ◌∷◌, ◌++◌,
  arith, ◌==◌, ◌&&◌, not, Bool-cases, Option-cases,
}
use comandas_multitenant_off.Prelude.Lists.{All, keep}
use comandas_multitenant_off.Guards.{Membership, find_membership}
use comandas_multitenant_off.Staff.{Team, Socket, change_member}

abbrev pub is_active : Option Membership → Bool
is_active none = false
is_active (some m) = m.active

-- The user of the socket is an active member of the tenant.
abbrev pub HasMember : List Membership → Socket → Type 0
HasMember ms s = is_active (find_membership s.user s.tenant ms) ≡ true

-- Every socket in a room is that of an active member.
pub record HasOnlyMembers (t : Team) : Type 0 where
  pub all : All (HasMember t.memberships) t.sockets

-- The same user in the same tenant.
abbrev pub is_of : ℕ → ℕ → Socket → Bool
is_of user tenant s = (s.user == user) && (s.tenant == tenant)

pub keep-All :
    (p : Socket → Bool) (P Q : Socket → Type 0) (xs : List Socket)
    → ((x : Socket) → p x ≡ true → P x → Q x)
    → All P xs
    → All Q (keep p xs)
keep-All p P Q [] f h = tt
keep-All p P Q (x ∷ xs) f (h, hs) = elim (Bool-cases (p x)) [
  | inl kept ↦ rw kept (f x kept h, keep-All p P Q xs f hs)
  | inr gone ↦ rw gone (keep-All p P Q xs f hs)
]

pub map-All :
    (P Q : Socket → Type 0) (xs : List Socket) → ((x : Socket) → P x → Q x) → All P xs → All Q xs
map-All P Q [] f h = tt
map-All P Q (x ∷ xs) f (h, hs) = (f x h, map-All P Q xs f hs)

pub append-All :
    (P : Socket → Type 0) (xs : List Socket) (x : Socket) → All P xs → P x → All P (xs ++ x ∷ [])
append-All P [] x h p = (p, tt)
append-All P (y ∷ ys) x (h, hs) p = (h, append-All P ys x hs p)

-- Changing one membership leaves the others.
pub find_membership-change_other :
    (user tenant v w : ℕ) (f : Membership → Membership) (ms : List Membership)
    → ((m : Membership) → ((f m).user ≡ m.user) × ((f m).tenant ≡ m.tenant))
    → ((v == user) && (w == tenant)) ≡ false
    → find_membership v w (change_member user tenant f ms) ≡ find_membership v w ms
unfolding find_membership change_member
find_membership-change_other user tenant v w f [] same other = refl
find_membership-change_other user tenant v w f (m ∷ ms) same other =
    ground (arith, same m, find_membership-change_other user tenant v w f ms same other)

pub find_membership-change :
    (user tenant : ℕ) (f : Membership → Membership) (ms : List Membership)
    → ((m : Membership) → ((f m).user ≡ m.user) × ((f m).tenant ≡ m.tenant))
    → find_membership user tenant (change_member user tenant f ms)
      ≡ elim (find_membership user tenant ms) [ none ↦ none | some m ↦ some (f m) ]
unfolding find_membership change_member
find_membership-change user tenant f [] same = refl
find_membership-change user tenant f (m ∷ ms) same =
    ground (arith, same m, find_membership-change user tenant f ms same)

-- A new row at the end hides none.
pub find_membership-append :
    (v w : ℕ) (ms : List Membership) (n : Membership)
    → is_active (find_membership v w ms) ≡ true
    → is_active (find_membership v w (ms ++ n ∷ [])) ≡ true
unfolding find_membership
find_membership-append v w [] n h = absurd (ground arith)
find_membership-append v w (m ∷ ms) n h = ground (arith, find_membership-append v w ms n)

pub same-HasOnlyMembers :
    (t t' : Team)
    → HasOnlyMembers t
    → t'.memberships ≡ t.memberships
    → t'.sockets ≡ t.sockets
    → HasOnlyMembers t'
same-HasOnlyMembers t t' h ms ss = record { all = rw (ms, ss) h.all }

-- A membership that ends, with its sockets.
pub dropped-HasOnlyMembers :
    (user tenant : ℕ) (f : Membership → Membership) (t t' : Team)
    → ((m : Membership) → ((f m).user ≡ m.user) × ((f m).tenant ≡ m.tenant))
    → HasOnlyMembers t
    → t'.memberships ≡ change_member user tenant f t.memberships
    → t'.sockets ≡ keep (λ s. not ((s.user == user) && (s.tenant == tenant))) t.sockets
    → HasOnlyMembers t'
dropped-HasOnlyMembers user tenant f t t' same h ms ss = record {
  all =
      rw (ms, ss)
        (keep-All (λ s. not ((s.user == user) && (s.tenant == tenant))) (HasMember t.memberships)
          (HasMember (change_member user tenant f t.memberships)) t.sockets
          (λ s other p.
            ap is_active (
              find_membership-change_other user tenant s.user s.tenant f t.memberships same
                (ground arith))
            ∙ p)
          h.all);
}

-- A membership that stays active where it was.
pub kept-HasOnlyMembers :
    (user tenant : ℕ) (f : Membership → Membership) (t t' : Team)
    → ((m : Membership) → ((f m).user ≡ m.user) × ((f m).tenant ≡ m.tenant))
    → ((m : Membership) → m.active ≡ true → (f m).active ≡ true)
    → HasOnlyMembers t
    → t'.memberships ≡ change_member user tenant f t.memberships
    → t'.sockets ≡ t.sockets
    → HasOnlyMembers t'
kept-HasOnlyMembers user tenant f t t' same stays h ms ss = record {
  all =
      rw (ms, ss)
        (map-All (HasMember t.memberships) (HasMember (change_member user tenant f t.memberships))
          t.sockets
          (λ s p. elim (Bool-cases ((s.user == user) && (s.tenant == tenant))) [
            | inr other ↦
                ap is_active (
                  find_membership-change_other user tenant s.user s.tenant f t.memberships same
                    other)
                ∙ p
            | inl own ↦ elim (Option-cases (find_membership s.user s.tenant t.memberships)) [
              | inl lost ↦ absurd (ground arith)
              | inr (m, here) ↦
                  ground (arith, stays m, find_membership-change user tenant f t.memberships same)
            ]
          ])
          h.all);
}

pub added-HasOnlyMembers :
    (n : Membership) (t t' : Team)
    → HasOnlyMembers t
    → t'.memberships ≡ t.memberships ++ n ∷ []
    → t'.sockets ≡ t.sockets
    → HasOnlyMembers t'
added-HasOnlyMembers n t t' h ms ss = record {
  all =
      rw (ms, ss)
        (map-All (HasMember t.memberships) (HasMember (t.memberships ++ n ∷ [])) t.sockets
          (λ s p. find_membership-append s.user s.tenant t.memberships n p) h.all);
}
