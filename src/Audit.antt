-- ===== src/Audit.antt =====
-- The audit entries that the services write (workbench-core/audit): who did what, and the status
-- code if the service sets one. The bodies are left out. The writer is a parameter.
mod Entries
mod Middleware
mod Defaults
mod Masking
mod Tests
use research_service_workben.Base.{
  ℕ, String, Option, Async, pure, throw, try_catch, ◌>>=◌, ◌>>◌, ◌≡◌, ◌∙◌, ok, bind-ok, rethrow-ok,
}
use research_service_workben.Authorization.Models.{AuthenticatedUser}

pub record Metadata : Type 0 where
  pub actor : AuthenticatedUser
  pub action : String
  pub status_code : Option ℕ

-- `try { r = …; write(success); return r } catch (e) { write(failure); throw e }`
unfoldable pub audited :
    {W A : Type 0} → (Metadata → Async W (Unit {0})) → Metadata → Metadata → Async W A → Async W A
audited write success failure body =
    try_catch (do r ← body; write success; pure r) (λ e. write failure >> throw e)

-- An audited call returns only what its body returned.
pub audited-ok :
    {W A : Type 0} (write : Metadata → Async W (Unit {0})) (success failure : Metadata)
    (body : Async W A) (w : W) {a : A}
    → (audited write success failure body w).0 ≡ ok a
    → (body w).0 ≡ ok a
unfolding audited
audited-ok write success failure body w h =
    let kept = rethrow-ok (do r ← body; write success; pure r) (λ e. write failure) (λ e. e) w h in
    let (r, returned, rest) = bind-ok body (λ r. write success >> pure r) w kept in
    let (u, logged, same) = bind-ok (write success) (λ _. pure r) (body w).1 rest in returned ∙ same
