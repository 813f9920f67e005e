-- ===== src/Authorization/Groups/Lifecycle.antt =====
-- The life of a group: absent, active, delete_pending, absent again.
use mathlib.Core.Path.{subst}
use research_service_workben.Base.{
  String, Bool, true, ◌||◌, Option, none, some, List, ◌≡◌, ◌≢◌, refl, sym, ap, ◌⊎◌, inl, inr, ok,
  arith, eq_iff, text_cases, Result-cases,
}
use research_service_workben.Authorization.GroupPlugin.{NewStatus}
use research_service_workben.Authorization.Groups.{
  GroupTable, UserManagement, not_exists, has_status, get_group_status, set_group_status,
  ensure_new, create_group, add_user_to_group,
}

-- What DynamoDB documents of reads and conditional writes: `view w k` is the status of the item
-- that the table holds for the group `k`.
pub record IsTable {W : Type 0} (t : GroupTable W) (view : W → String → Option String)
    : Type 0 where
  pub read_same : (k : String) (w : W) (j : String) → view (t.get_status k w).1 j ≡ view w j
  pub read-ok :
      (k : String) (w : W) (s : Option String) → (t.get_status k w).0 ≡ ok s → s ≡ view w k
  pub write-ok :
      (k : String) (c : Option String → Bool) (v : Option String) (w : W)
      → (t.write_if k c v w).0 ≡ ok tt
      → (c (view w k) ≡ true) × (view (t.write_if k c v w).1 k ≡ v)
  pub write_failed :
      (k : String) (c : Option String → Bool) (v : Option String) (w : W)
      → (t.write_if k c v w).0 ≢ ok tt
      → view (t.write_if k c v w).1 k ≡ view w k
  pub write-ne :
      (k : String) (c : Option String → Bool) (v : Option String) (w : W) (j : String)
      → k ≢ j
      → view (t.write_if k c v w).1 j ≡ view w j

-- The roles are not kept in the table.
pub record KeepsView {W : Type 0} (u : UserManagement W) (view : W → String → Option String)
    : Type 0 where
  pub create_role : (k : String) (w : W) (j : String) → view (u.create_role k w).1 j ≡ view w j
  pub delete_role : (k : String) (w : W) (j : String) → view (u.delete_role k w).1 j ≡ view w j
  pub get_user_roles :
      (k : String) (w : W) (j : String) → view (u.get_user_roles k w).1 j ≡ view w j
  pub list_users_for_role :
      (r p : Option String) (w : W) (j : String) → view (u.list_users_for_role r p w).1 j ≡ view w j
  pub add_user_to_role :
      (i k : String) (w : W) (j : String) → view (u.add_user_to_role i k w).1 j ≡ view w j
  pub remove_user_from_role :
      (i k : String) (w : W) (j : String) → view (u.remove_user_from_role i k w).1 j ≡ view w j
  pub validate_user_roles :
      (i : String) (ks : List String) (w : W) (j : String)
      → view (u.validate_user_roles i ks w).1 j ≡ view w j

-- One change of a group's status.
pub data Step (s t : Option String) : Type 0 where
  stay : s ≡ t → Step s t
  activate : s ≡ none → t ≡ some "active" → Step s t
  lock : (s ≡ some "active") ⊎ (s ≡ some "delete_pending") → t ≡ some "delete_pending" → Step s t
  remove : s ≡ some "delete_pending" → t ≡ none → Step s t

has_status-eq : (t : String) (s : Option String) → has_status t s ≡ true → s ≡ some t
has_status-eq t none h = cc
has_status-eq t (some s) h = ap some ((eq_iff s t).0 h)

not_exists-eq : (s : Option String) → not_exists s ≡ true → s ≡ none
not_exists-eq none h = refl
not_exists-eq (some s) h = cc

either-eq :
    (s : Option String)
    → (has_status "active" s || has_status "delete_pending" s) ≡ true
    → (s ≡ some "active") ⊎ (s ≡ some "delete_pending")
either-eq none h = cc
either-eq (some s) h = ground (arith, eq_iff s "active", eq_iff s "delete_pending")

module _ {W : Type 0} (t : GroupTable W) (u : UserManagement W) (view : W → String → Option String)
    (table : IsTable t view) (roles : KeepsView u view) where
  write_if-Step :
      (k : String) (c : Option String → Bool) (v : Option String)
      → ((s : Option String) → c s ≡ true → Step s v)
      → (w : W) (j : String) → Step (view w j) (view (t.write_if k c v w).1 j)
  write_if-Step k c v may w j = elim (text_cases k j) [
    | inr other ↦ stay (sym (table.write-ne k c v w j other))
    | inl same ↦
        subst (λ i. Step (view w i) (view (t.write_if k c v w).1 i)) same
          (elim (Result-cases (t.write_if k c v w).0) [
            | inl (tt, e) ↦
                let (held, now) = table.write-ok k c v w e in
                subst (λ s. Step (view w k) s) (sym now) (may (view w k) held)
            | inr failed ↦ stay (sym (table.write_failed k c v w (failed tt)))
          ])
  ]

  -- A handler that rethrows changes nothing.
  pub set_group_status-Step :
      (k : String) (s : NewStatus) (w : W) (j : String)
      → Step (view w j) (view (set_group_status t u k s w).1 j)
  unfolding set_group_status
  set_group_status-Step k NewStatus.active w j = ground (
    arith,
    write_if-Step k not_exists (some "active") (λ s h. activate (not_exists-eq s h) refl) w j,
  )
  set_group_status-Step k NewStatus.delete_pending w j = ground (
    arith,
    write_if-Step k (λ s. has_status "active" s || has_status "delete_pending" s)
        (some "delete_pending") (λ s h. lock (either-eq s h) refl) w j,
  )
  set_group_status-Step k NewStatus.deleted w j = ground (
    arith,
    write_if-Step k (has_status "delete_pending") none
        (λ s h. remove (has_status-eq "delete_pending" s h) refl) w j,
  )

  pub get_group_status_same :
      (k : String) (w : W) (j : String) → view (get_group_status t u k w).1 j ≡ view w j
  unfolding get_group_status
  get_group_status_same k w j = ground (arith, table.read_same k w j)

  ensure_new_same : (k : String) (w : W) (j : String) → view (ensure_new t u k w).1 j ≡ view w j
  unfolding ensure_new
  ensure_new_same k w j = ground (arith, get_group_status_same k w j)

  pub create_group-Step :
      (k : String) (w : W) (j : String) → Step (view w j) (view (create_group t u k w).1 j)
  unfolding create_group
  create_group-Step k w j =
      let checked = (ensure_new t u k w).1 in
      let made = (u.create_role k checked).1 in
      let unchanged : view w j ≡ view (create_group t u k w).1 j
          → Step (view w j) (view (create_group t u k w).1 j) =
        λ e. stay e in
      ground (
        arith,
        ensure_new_same k w j,
        roles.create_role k checked j,
        set_group_status-Step k NewStatus.active made j,
        unchanged,
      )

  pub add_user_to_group_same :
      (i k : String) (w : W) (j : String) → view (add_user_to_group t u i k w).1 j ≡ view w j
  unfolding add_user_to_group
  add_user_to_group_same i k w j =
      let read = (get_group_status t u k w).1 in
      ground (arith, get_group_status_same k w j, roles.add_user_to_role i k read j)

  -- A change of status sets it where it returns, and leaves it alone where it does not.
  abbrev pub Sets : String → NewStatus → Option String → W → Type 0
  Sets k n v w =
      let (r, w') = set_group_status t u k n w in
      ((m : NewStatus) → r ≡ ok m → view w' k ≡ v)
      × (((m : NewStatus) → r ≢ ok m) → view w' k ≡ view w k)

  pub set_group_status-locks :
      (k : String) (w : W) → Sets k NewStatus.delete_pending (some "delete_pending") w
  unfolding set_group_status
  set_group_status-locks k w =
      let may = λ (s : Option String). has_status "active" s || has_status "delete_pending" s in
      let v : Option String = some "delete_pending" in
      elim (Result-cases (t.write_if k may v w).0) [
        | inl (d, e) ↦
            let now = (table.write-ok k may v w e).1 in
            (λ n h. ground (arith, now), λ h. absurd (h NewStatus.delete_pending (ground arith)))
        | inr failed ↦
            let same = table.write_failed k may v w (failed tt) in
            (λ n h. absurd (failed tt (ground arith)), λ h. ground (arith, same))
      ]

  pub set_group_status-removes : (k : String) (w : W) → Sets k NewStatus.deleted none w
  unfolding set_group_status
  set_group_status-removes k w =
      let may = has_status "delete_pending" in
      elim (Result-cases (t.write_if k may none w).0) [
        | inl (d, e) ↦
            let now = (table.write-ok k may none w e).1 in
            (λ n h. ground (arith, now), λ h. absurd (h NewStatus.deleted (ground arith)))
        | inr failed ↦
            let same = table.write_failed k may none w (failed tt) in
            (λ n h. absurd (failed tt (ground arith)), λ h. ground (arith, same))
      ]
