-- ===== src/Accounts/HostingAccounts/Creation.antt =====
-- When a hosting account is written.
use research_service_workben.Base.{
  String, false, not, List, [], ◌∷◌, ◌≡◌, refl, ap, ◌∙◌, ok, bind-ok, throw_if-ok, Error, throw_if,
  ◌<>◌,
}
use research_service_workben.Accounts.Projects.{Item}
use research_service_workben.Accounts.HostingModels.{Account, AccountStore, CreateAccountRequest}
use research_service_workben.Accounts.HostingAccounts.{
  new_account, no_items, validate_create, store_to_ddb, create,
}

module _ {W : Type 0} (s : AccountStore W) where
  no_row : (items : List Item) → not (no_items items) ≡ false → items ≡ []
  no_row [] h = refl
  no_row (x ∷ xs) h = cc

  -- A call that creates a hosting account returns only if the table had no row for its AWS account, and
  -- then returns what storing the account, as pending, returned.
  pub create-new :
      (id : String) (r : CreateAccountRequest) (w : W) {a : Account}
      → (create s id r w).0 ≡ ok a
      → ((s.query ("AWSACC#" <> r.aws_account_id) w).0 ≡ ok [])
        × ((v : W) × ((store_to_ddb s (new_account id r) v).0 ≡ ok a))
  unfolding create validate_create
  create-new id r w h =
      let (done, checked, stored) =
        bind-ok (validate_create s r.aws_account_id) (λ _. store_to_ddb s (new_account id r)) w h in
      let read = s.query ("AWSACC#" <> r.aws_account_id) in
      let (items, found, rest) =
        bind-ok read (λ items. throw_if (not (no_items items)) Error.bad_request) w checked in
      let absent = throw_if-ok (not (no_items items)) Error.bad_request (read w).1 rest in
      (found ∙ ap ok (no_row items absent), ((validate_create s r.aws_account_id w).1, stored))
