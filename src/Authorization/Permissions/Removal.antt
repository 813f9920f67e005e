-- ===== src/Authorization/Permissions/Removal.antt =====
-- Removing all permissions on a subject.
use mathlib.Core.Path.{subst}
use mathlib.Core.List.{map-append}
use research_service_workben.Base.{
  ℕ, ◌≤◌, ◌<◌, String, Bool, false, not, ◌&&◌, Option, none, List, [], ◌∷◌, ◌++◌, map, ◌≡◌, refl,
  ok, pure, ◌>>◌, for_each, length, any, All, concat, chunk, concat-chunk, chunk_bounds,
  collect-IsPaged, IsPaged, arith, ◌==◌, ge→ltb, any-append,
}
use research_service_workben.Authorization.Models.{IdentityPermission}
use research_service_workben.Authorization.Keys.{identity_permissions_partition_key}
use research_service_workben.Authorization.Permissions.{
  PermissionTable, deletion_key, delete_identity_permissions, get_identity_permissions_by_subject,
  subject_query, delete_subject_identity_permissions,
}

abbrev pub Key : Type 0
Key = String × String

abbrev pub has_key : String → String → List Key → Bool
has_key pk sk ks = any (λ (k : Key). k.0 == pk && k.1 == sk) ks

abbrev pub Distinct : List Key → Type 0
Distinct [] = Unit
Distinct (k ∷ ks) = (has_key k.0 k.1 ks ≡ false) × Distinct ks

-- What DynamoDB documents of a transaction of deletions while it is available: with at most a
-- hundred distinct keys it commits, and then the items with these keys are gone, and no others.
pub record IsAvailable {W : Type 0} (t : PermissionTable W) (stored : W → String → String → Bool)
    : Type 0 where
  pub commits :
      (ks : List Key) (w : W) → length ks ≤ 100 → Distinct ks → (t.commit_deletes ks w).0 ≡ ok tt
  pub deletes :
      (ks : List Key) (w : W) (pk sk : String)
      → (t.commit_deletes ks w).0 ≡ ok tt
      → stored (t.commit_deletes ks w).1 pk sk ≡ (stored w pk sk && not (has_key pk sk ks))

module _ {W : Type 0} (t : PermissionTable W) (stored : W → String → String → Bool) where
  -- The queries on the subject serve what is stored of it: each page of them is read off the world `w`, and
  -- they come to an end; together they serve each permission once, and exactly those of the subject's key.
  pub record IsServed (subject_type subject_id : String)
      (rest : Option String → List IdentityPermission) (left : Option String → ℕ) (w : W)
      : Type 0 where
    pub paged :
        IsPaged
          (λ token.
            get_identity_permissions_by_subject t (subject_query t subject_type subject_id token))
          rest
          left
          w
    pub distinct : Distinct (map deletion_key (rest none))
    pub serves :
        (pk sk : String)
        → has_key pk sk (map deletion_key (rest none))
          ≡ (stored w pk sk && identity_permissions_partition_key subject_type subject_id == pk)

Distinct-append : (xs ys : List Key) → Distinct (xs ++ ys) → Distinct xs × Distinct ys
Distinct-append [] ys h = (tt, h)
Distinct-append ((pk, sk) ∷ xs) ys (new, h) =
    let (hx, hy) = Distinct-append xs ys h in
    let split = any-append (λ (k : Key). k.0 == pk && k.1 == sk) xs ys in ground (arith)

length-map : {A B : Type 0} (f : A → B) (xs : List A) → length (map f xs) ≡ length xs
length-map f [] = refl
length-map f (x ∷ xs) = omega (arith, length-map f xs)

module _ {W : Type 0} (t : PermissionTable W) (stored : W → String → String → Bool)
    (available : IsAvailable t stored) where
  -- The world after a call, and its keys.
  pub delete_identity_permissions-stored :
      (ps : List IdentityPermission) (w : W) (pk sk : String)
      → length ps ≤ 100
      → Distinct (map deletion_key ps)
      → ((delete_identity_permissions t ps w).0 ≡ ok ps)
        × (stored (delete_identity_permissions t ps w).1 pk sk
            ≡ (stored w pk sk && not (has_key pk sk (map deletion_key ps))))
  unfolding delete_identity_permissions
  delete_identity_permissions-stored ps w pk sk few distinct =
      let done =
        available.commits (map deletion_key ps) w (omega (arith, length-map deletion_key ps))
          distinct in
      ground (
        arith,
        done,
        available.deletes (map deletion_key ps) w pk sk done,
        ge→ltb 100 (length ps) few,
      )

  delete_chunks-stored :
      (css : List (List IdentityPermission)) (w : W) (pk sk : String)
      → All (λ c. length c ≤ 100) css
      → Distinct (map deletion_key (concat css))
      → let (r, w') = for_each (λ ps. delete_identity_permissions t ps >> pure tt) css w in
        (r ≡ ok tt)
        × (stored w' pk sk
            ≡ (stored w pk sk && not (has_key pk sk (map deletion_key (concat css)))))
  delete_chunks-stored [] w pk sk few distinct = (refl, ground arith)
  delete_chunks-stored (ps ∷ css) w pk sk (few, fews) distinct =
      let e = map-append deletion_key ps (concat css) in
      let (d, ds) =
        Distinct-append (map deletion_key ps) (map deletion_key (concat css))
          (subst Distinct e distinct) in
      let now = delete_identity_permissions-stored ps w pk sk few d in
      let next = (delete_identity_permissions t ps w).1 in
      let later = delete_chunks-stored css next pk sk fews ds in
      let both =
        any-append (λ (k : Key). k.0 == pk && k.1 == sk) (map deletion_key ps)
          (map deletion_key (concat css)) in
      ground (arith, now, later, both, e)

  -- All pages are read, and every permission read is deleted, in transactions of at most a hundred: with
  -- fuel for the pages, where the queries serve what is stored when the call begins and the table is
  -- available, the call returns what the queries serve, and of the stored items those of the subject's key
  -- are gone, and no others.
  pub delete_subject_identity_permissions-stored :
      (subject_type subject_id : String) {rest : Option String → List IdentityPermission}
      {left : Option String → ℕ} (fuel : ℕ) (w : W) (pk sk : String)
      → IsServed t stored subject_type subject_id rest left w
      → left none < fuel
      → let (r, w') = delete_subject_identity_permissions t fuel subject_type subject_id w in
        (r ≡ ok (rest none))
        × (stored w' pk sk ≡ (
            stored w pk sk
            && not (identity_permissions_partition_key subject_type subject_id == pk)))
  unfolding delete_subject_identity_permissions
  delete_subject_identity_permissions-stored subject_type subject_id {rest} fuel w pk sk served
        enough =
      let read = collect-IsPaged served.paged fuel none [] enough in
      let whole = concat-chunk 100 (rest none) in
      let deleted =
        delete_chunks-stored (chunk 100 (rest none)) w pk sk
          (chunk_bounds 100 (rest none) (omega arith)) (rw whole served.distinct) in
      ground (arith, read, deleted, whole, served.serves pk sk)
