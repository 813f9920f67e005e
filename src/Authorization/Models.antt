-- ===== src/Authorization/Models.antt =====
-- The models of workbench-core/authorization/src/models and dynamicAuthorization/models.
use research_service_workben.Base.{Bool, String, Option, List, Dict}

-- A JSON value; a number is kept as its text.
mutual
  pub data Json : Type 0 where
    text num : String → Json
    bool : Bool → Json
    arr : Items → Json
    obj : Fields → Json

  pub data Items : Type 0 where
    nil : Items
    cons : Json → Items → Items

  pub data Fields : Type 0 where
    end : Fields
    field : String → Json → Fields → Fields

pub data Action : Type 0 where
  create read update delete : Action

pub data Effect : Type 0 where
  allow deny : Effect

pub data IdentityType : Type 0 where
  group user : IdentityType

pub record AuthenticatedUser : Type 0 where
  pub id : String
  pub roles : List String

-- A permission of the static authorization.
pub record Permission : Type 0 where
  pub effect : Effect
  pub action : Action
  pub subject : String
  pub fields : Option (List String)
  pub reason : Option String

pub record Operation : Type 0 where
  pub action : Action
  pub subject : String
  pub field : Option String

-- `subject` holds `subjectType`, `subjectId` and any further attributes, all texts.
pub record DynamicOperation : Type 0 where
  pub action : Action
  pub subject : Dict String
  pub field : Option String

pub record Identity : Type 0 where
  pub identity_type : IdentityType
  pub identity_id : String

pub record IdentityPermission : Type 0 where
  pub identity_type : IdentityType
  pub identity_id : String
  pub effect : Effect
  pub action : Action
  pub subject_type : String
  pub subject_id : String
  pub fields : Option (List String)
  pub conditions : Option (Dict Json)
  pub description : Option String
