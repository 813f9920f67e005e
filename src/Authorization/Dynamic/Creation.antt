-- ===== src/Authorization/Dynamic/Creation.antt =====
-- Creating permissions, and the groups that they are for.
use mathlib.Core.Path.{subst}
use research_service_workben.Base.{
  ◌≤◌, String, true, false, not, List, [], ◌∷◌, ◌≡◌, refl, sym, inl, inr, Result, ok, err, hang,
  Async, All, any, any-append, includes, promise_all, settle, throw_if, throw_if-ok, bind-ok,
  Bool-cases, arith, ltb, ltb→ge, length, ◌==◌, eq_iff, eq_refl, Error, ◌>>=◌,
}
use research_service_workben.Authorization.Models.{
  AuthenticatedUser, IdentityType, group, user, IdentityPermission,
}
use research_service_workben.Authorization.GroupPlugin.{GroupStatus}
use research_service_workben.Authorization.Groups.{is_active}
use research_service_workben.Authorization.Service.{Plugins, add_group, group_ids_from}
use research_service_workben.Authorization.Dynamic.{
  create_for_statuses, create_permissions, create_identity_permissions,
}
use research_service_workben.Authorization.Dynamic.Access.{with_audit-ok}

settle-ok :
    {A B C : Type 0} (f : A → B → C) (r : Result A) (s : Result B) {c : C}
    → settle f r s ≡ ok c
    → (a : A) × (b : B) × (r ≡ ok a) × (s ≡ ok b) × (f a b ≡ c)
settle-ok f (ok a) (ok b) h = (a, b, refl, refl, cc)
settle-ok f (ok a) (err e) h = cc
settle-ok f (ok a) hang h = cc
settle-ok f (err e) s h = cc
settle-ok f hang s h = cc

-- Each call of a `Promise.all` that returns has returned one of its values.
promise_all-All :
    {W A B : Type 0} (Q : B → Type 0) (f : A → Async W B) (xs : List A) (ys : List B) (w : W)
    → (promise_all f xs w).0 ≡ ok ys
    → All Q ys
    → All (λ x. (w' : W) × (y : B) × ((f x w').0 ≡ ok y) × Q y) xs
promise_all-All Q f [] ys w h q = tt
promise_all-All Q f (x ∷ xs) ys w h q =
    let (y, zs, here, later, e) =
      settle-ok (λ y ys. y ∷ ys) (f x w).0 (promise_all f xs (f x w).1).0 h in
    let (qy, qs) = subst (All Q) (sym e) q in
    ((w, y, here, qy), promise_all-All Q f xs zs (f x w).1 later qs)

All-includes :
    (P : String → Type 0) (k : String) (ids : List String) → All P ids → includes k ids ≡ true → P k
All-includes P k [] h e = cc
All-includes P k (i ∷ ids) (p, h) e = elim (Bool-cases (i == k)) [
  | inl same ↦ subst P ((eq_iff i k).0 same) p
  | inr other ↦ All-includes P k ids h (ground (arith, other))
]

All-active :
    (statuses : List GroupStatus)
    → any (λ s. not (is_active s)) statuses ≡ false
    → All (λ s. s ≡ GroupStatus.active) statuses
All-active [] h = tt
All-active (GroupStatus.active ∷ ss) h = (refl, All-active ss h)
All-active (GroupStatus.delete_pending ∷ ss) h = cc

includes-add_group :
    (k : String) (t : IdentityType) (id : String) (seen : List String)
    → includes k seen ≡ true
    → includes k (add_group t id seen) ≡ true
unfolding add_group
includes-add_group k group id seen h =
    let both = any-append (λ x. x == k) seen (id ∷ []) in ground (arith, both)
includes-add_group k user id seen h = h

includes-add_group_self :
    (id : String) (seen : List String) → includes id (add_group group id seen) ≡ true
unfolding add_group
includes-add_group_self id seen =
    let both = any-append (λ x. x == id) seen (id ∷ []) in ground (arith, both, eq_refl id)

includes-group_ids_from :
    (k : String) (ps : List IdentityPermission) (seen : List String)
    → includes k seen ≡ true
    → includes k (group_ids_from seen ps) ≡ true
unfolding group_ids_from
includes-group_ids_from k [] seen h = h
includes-group_ids_from k (p ∷ ps) seen h =
    includes-group_ids_from k ps (add_group p.identity_type p.identity_id seen)
      (includes-add_group k p.identity_type p.identity_id seen h)

group_ids_from-All :
    (P : String → Type 0) (ps : List IdentityPermission) (seen : List String)
    → All P (group_ids_from seen ps)
    → All (λ p. p.identity_type ≡ group → P p.identity_id) ps
unfolding group_ids_from
group_ids_from-All P [] seen h = tt
group_ids_from-All P (p ∷ ps) seen h = (
  λ e. All-includes P p.identity_id _ h (
      includes-group_ids_from p.identity_id ps (add_group p.identity_type p.identity_id seen)
        (rw e (includes-add_group_self p.identity_id seen))),
  group_ids_from-All P ps (add_group p.identity_type p.identity_id seen) h,
)

module _ {W : Type 0} (s : Plugins W) where
  -- At some moment of the call the group was read as active.
  abbrev pub WasActive : String → Type 0
  WasActive k =
      (w : W) × (status : GroupStatus) × ((s.groups.get_group_status k w).0 ≡ ok status)
      × (status ≡ GroupStatus.active)

  create_for_statuses-All :
      (ps : List IdentityPermission) (statuses : List GroupStatus) {qs : List IdentityPermission}
      (w : W)
      → (create_for_statuses s ps statuses w).0 ≡ ok qs
      → All (λ status. status ≡ GroupStatus.active) statuses
  unfolding create_for_statuses
  create_for_statuses-All ps statuses w h =
      let (done, all, rest) =
        bind-ok (throw_if (any (λ status. not (is_active status)) statuses) Error.group_not_found)
          (λ _. s.permissions.create_identity_permissions ps) w h in
      All-active statuses (throw_if-ok _ Error.group_not_found w all)

  create_permissions-WasActive :
      (ps qs : List IdentityPermission) (w : W)
      → (create_permissions s ps w).0 ≡ ok qs
      → (length ps ≤ 100) × All (λ p. p.identity_type ≡ group → WasActive p.identity_id) ps
  unfolding create_permissions
  create_permissions-WasActive ps qs w h =
      let asking = promise_all s.groups.get_group_status (group_ids_from [] ps) in
      let (done, few, rest) =
        bind-ok (throw_if (ltb 100 (length ps)) Error.throughput_exceeded)
          (λ _. asking >>= create_for_statuses s ps) w h in
      let (statuses, read, more) = bind-ok asking (create_for_statuses s ps) w rest in
      let active = create_for_statuses-All ps statuses (asking w).1 more in
      let ids =
        promise_all-All (λ status. status ≡ GroupStatus.active) s.groups.get_group_status
          (group_ids_from [] ps) statuses w read active in
      (
        ltb→ge 100 (length ps) (throw_if-ok _ Error.throughput_exceeded w few),
        group_ids_from-All WasActive ps [] ids,
      )

  -- A group that is given a permission was active; of a user nothing is asked.
  abbrev pub Checked : IdentityType → String → Type 0
  Checked group id = WasActive id
  Checked user id = Unit

  Checked-intro : (t : IdentityType) (id : String) → (t ≡ group → WasActive id) → Checked t id
  Checked-intro group id h = h refl
  Checked-intro user id h = tt

  All-Checked :
      (ps : List IdentityPermission)
      → All (λ p. p.identity_type ≡ group → WasActive p.identity_id) ps
      → All (λ p. Checked p.identity_type p.identity_id) ps
  All-Checked [] h = tt
  All-Checked (p ∷ ps) (h, hs) = (Checked-intro p.identity_type p.identity_id h, All-Checked ps hs)

  -- `createIdentityPermissions` succeeds only with a hundred permissions at most, and only if each
  -- group that is given a permission was read as active during the call, not as delete_pending.
  pub create_identity_permissions-WasActive :
      (u : AuthenticatedUser) (ps qs : List IdentityPermission) (w : W)
      → (create_identity_permissions s u ps w).0 ≡ ok qs
      → (length ps ≤ 100) × All (λ p. Checked p.identity_type p.identity_id) ps
  unfolding create_identity_permissions
  create_identity_permissions-WasActive u ps qs w h =
      let (few, active) =
        create_permissions-WasActive ps qs w
          (with_audit-ok s u "createIdentityPermissions" (create_permissions s ps) w h) in
      (few, All-Checked ps active)
