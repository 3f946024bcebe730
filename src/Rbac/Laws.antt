-- ===== src/Rbac/Laws.antt =====
-- The authorizer of internal/rbac against what its table grants.
use golang_restapi.Base.{
  String, Bool, true, false, ◌||◌, ◌&&◌, Bool-cases, Option-cases, inl, inr, none, some, List, [],
  ◌∷◌, ◌==◌, nat_eq, string_eq, str_beq_iff, ◌≡◌, refl, ap, ◌↔◌, arith,
}
use golang_restapi.Base.Lists.{any, all}
use golang_restapi.Rbac.{
  Role, Permission, PermissionTable, contains, role_perms, add_perms, merge_role,
  register_permissions, holds_all, can,
}

-- The table grants the permission to the role.
abbrev pub is_granted : PermissionTable → Role → Permission → Bool
is_granted table role p = elim (role_perms table role) [
  | none ↦ false
  | some held ↦ contains held p
]

-- Some entry of the list names the role and the permission.
abbrev pub is_listed : PermissionTable → Role → Permission → Bool
is_listed perms role p = any (λ e. e.0 == role && contains e.1 p) perms

same_text : (s t : String) → s == t ≡ true → s ≡ t
same_text s t = (str_beq_iff s t).0

text_itself : (s t : String) → s ≡ t → s == t ≡ true
text_itself s t = (str_beq_iff s t).1

contains-eq :
    (held : List Permission) (q p : Permission) → q == p ≡ true → contains held q ≡ contains held p
contains-eq held q p e = ap (contains held) (same_text q p e)

contains-add :
    (held ps : List Permission) (p : Permission)
    → contains (add_perms held ps) p ≡ contains held p || contains ps p
unfolding contains add_perms
contains-add held [] p = ground arith
contains-add held (q ∷ ps) p = elim (Bool-cases (contains held q)) [
  | inl has ↦ ground (arith, contains-add held ps p, contains-eq held q p)
  | inr new ↦ ground (arith, contains-add (q ∷ held) ps p)
]

holds_all-all : (held ps : List Permission) → holds_all held ps ≡ all (contains held) ps
unfolding holds_all
holds_all-all held [] = refl
holds_all-all held (p ∷ ps) = ground (arith, holds_all-all held ps)

granted-merge :
    (table : PermissionTable) (r role : Role) (ps : List Permission) (p : Permission)
    → is_granted (merge_role table r ps) role p
      ≡ is_granted table role p || (r == role && contains ps p)
unfolding merge_role role_perms contains
granted-merge [] r role ps p = ground (arith, contains-add [] ps p)
granted-merge ((q, held) ∷ t) r role ps p = elim (Bool-cases (q == r)) [
  | inl e ↦ ground (arith, contains-add held ps p, ap (λ x. x == role) (same_text q r e))
  | inr e ↦ elim (Bool-cases (r == role)) [
    | inl same ↦
        ground (arith, granted-merge t r role ps p, ap (λ x. q == x) (same_text r role same))
    | inr other ↦ ground (arith, granted-merge t r role ps p)
  ]
]

-- After RegisterPermissions, a role has a permission exactly if it had it before or an entry of the
-- argument gives it: registrations add up and take nothing away.
pub granted-register :
    (table perms : PermissionTable) (role : Role) (p : Permission)
    → is_granted (register_permissions table perms) role p
      ≡ is_granted table role p || is_listed perms role p
unfolding register_permissions
granted-register table [] role p = ground arith
granted-register table ((r, ps) ∷ perms) role p =
    ground (
      arith,
      granted-register (merge_role table r ps) perms role p,
      granted-merge table r role ps p,
    )

all-granted :
    (table : PermissionTable) (role : Role) (held : List Permission)
    → role_perms table role ≡ some held
    → (ps : List Permission) → all (is_granted table role) ps ≡ all (contains held) ps
all-granted table role held e [] = refl
all-granted table role held e (p ∷ ps) = ground (arith, e, all-granted table role held e ps)

-- The authorizer lets a role through on a list of permissions, at least one, exactly if the table
-- grants it each of them.
pub can-granted :
    (table : PermissionTable) (role : Role) (p : Permission) (ps : List Permission)
    → (can table role (p ∷ ps) ≡ none) ↔ (all (is_granted table role) (p ∷ ps) ≡ true)
unfolding can
can-granted table role p ps = elim (Option-cases (role_perms table role)) [
  | inl e ↦ ground (arith, e)
  | inr (held, e) ↦ ground (arith, e, holds_all-all held (p ∷ ps), all-granted table role held e ps)
]
