-- ===== src/Lib.antt =====
-- Research Service Workbench: its authorization, authentication, accounts, datasets and environments
-- packages under workbench-core.
--
-- A request meets middlewares: verifyToken asks the identity provider for the user of the
-- cookie's token; withAuth asks the static permissions plugin for the operations of the route and
-- the CASL plugin whether the user's roles permit them. In its place
-- withDynamicAuth asks the dynamic authorization service, behind a rate limiter. The service keeps
-- identity permissions in a DynamoDB table through the permissions
-- plugin and groups through the group management plugin, and checks a user's access to a subject
-- or a route against the permissions of the user and of the user's groups. The accounts package keeps
-- projects, each of a cost center, and lists them filtered, sorted and in pages. The datasets package
-- keeps data sets and their external endpoints, and turns the access that a user or a group is given into
-- identity permissions of the dynamic authorization service. The environments package writes an
-- environment with its relations to a project and data sets in one transaction, and changes its status by
-- events.
--
-- The modules, and the code they model:
--   Base: the helpers that the parts share. Base/Effect is the model of an asynchronous method: a
--     function from a world to a result (a value, an error, or `hang` where fuel is used up) and the
--     world after it, which keeps what was written before an error. Base/Pages is the loop over
--     the pages of a query and the cutting of a list into chunks.
--   Audit: the try/catch with which the services write audit entries. Audit/Entries is
--     workbench-core/audit/src/auditService.ts, which makes, masks and writes an entry; Audit/Middleware is
--     auditMiddleware.ts, baseExtractor.ts and plugins/baseAuditPlugin.ts there.
--   Authorization/Models: workbench-core/authorization/src/models and dynamicAuthorization/models.
--   Authorization/Casl: workbench-core/authorization/src/caslAuthorizationPlugin.ts (isAuthorized, isAuthorizedOnDynamicOperations,
--     _defineAbilitiesForUserPermissions, _defineAbilitiesForIdentityPermissions).
--   Authorization/Static: workbench-core/authorization/src/staticPermissionsPlugin.ts,
--     authorizationService.ts and authorizationMiddleware.ts there.
--   Authorization/GroupPlugin, Authorization/Groups:
--     workbench-core/authorization/src/dynamicAuthorization/groupManagementPlugin.ts and
--     wbcGroupManagementPlugin.ts there, a function per method; Groups/Lifecycle has the step relation.
--   Authorization/PermissionsPlugin, Permissions, Keys:
--     workbench-core/authorization/src/dynamicAuthorization/dynamicAuthorizationPermissionsPlugin.ts and
--     ddbDynamicAuthorizationPermissionsPlugin.ts; Keys has the items' keys.
--   Authorization/Template, Authorization/Service, Authorization/Dynamic:
--     workbench-core/authorization/src/dynamicAuthorization/dynamicAuthorizationService.ts; Template has the
--     regular expression for the variables of a route's subjects. Dynamic/Instance fills the
--     service's interface with the plugin of Authorization/Groups.
--   Authorization/Middleware: workbench-core/authorization/src/dynamicAuthorization/
--     dynamicAuthorizationMiddleware.ts, on top of Authorization/Dynamic.
--   Authentication/Session: workbench-core/authentication/src/authenticationMiddleware.ts over
--     authenticationService.ts; a handler appends to the list of what is done to the response.
--   Accounts/Models, Accounts/Listing: workbench-core/accounts/src/models/projects/project.ts, and, in
--     the same src, utilities/projectUtils.ts (manualSortProjects, manualFilterProjects) and the pages of services/projectService.ts
--     (_buildPageAndPaginationTokenAfterGetItems).
--   Accounts/Projects: the methods of workbench-core/accounts/src/services/projectService.ts on single projects.
--   Accounts/ProjectLists: listProjects of the same file, over Queries and Accounts/Listing.
--   Accounts/HostingModels, HostingAccounts, CostCenters: the models of hosting accounts and cost centers,
--     accountService.ts and costCenterService.ts of workbench-core/accounts/src.
--     Accounts/Instance fills the interface of the projects with the cost centers.
--   Queries: workbench-core/base/src/utilities/queryParamsFiltersUtils.ts, and addPaginationToken of
--     paginationHelper.ts there.
--   Datasets/Models, Datasets/Plugins: workbench-core/datasets/src/models, and the interfaces of the plugins,
--     dataSetMetadataPlugin.ts, dataSetsStoragePlugin.ts and dataSetsAuthorizationPlugin.ts.
--   Datasets/Permissions: workbench-core/datasets/src/wbcDataSetsAuthorizationPlugin.ts, a function per
--     method. Datasets/Instance fills the service's interface with it.
--   Datasets/Service, Datasets/Endpoints: the methods of workbench-core/datasets/src/dataSetService.ts on
--     data sets, and those on external endpoints.
--   Environments/Models, Items, Reading, Service, Listing:
--     workbench-core/environments/src/services/environmentService.ts and the parsers of models/environments;
--     Items has what is written, Reading what is read back, Service the methods, Listing the lists.
--   Environments/StatusHandler: workbench-core/environments/src/handlers/statusHandler.ts.
--   Environments/Types, Environments/TypeConfigs: environmentTypeService.ts and
--     environmentTypeConfigService.ts of workbench-core/environments/src/services.
--   Audit/Tests, Datasets/Samples, Datasets/Tests, Environments/Tests, Accounts/ProjectLists/Tests,
--     Authorization/Samples, Accounts/Tests, Authorization/Tests, Authorization/TableTests,
--     Authentication/Tests: concrete instances and runs.
--
-- Parameters: DynamoDB's reads, conditional writes, queries and transactions; the user management
-- service; @casl/ability; the router of radix3; the matching of regular expressions in routes; the
-- identity provider; the rate limiter; the audit writer and the audit plugin; the merge of lodash; the
-- order of localeCompare; the encoding of page tokens; the cost center service, which
-- Accounts/Instance fills; the formats of a project's texts; the plugins for the metadata and the
-- storage of data sets; the SDK of a hosting account; the parsing of dates; new ids and the time. What
-- is relied on of them are the fields of the records Casl, IsTable, KeepsView, IsAvailable, IsPaged,
-- IsLifecycle, IsEncoding, IsCollation, IsMerge, IsReadOnly (of projects, of environments, and of
-- environment types), IsKeyed, and IsServed (of the lists of projects, and of permissions).
--
-- Fuel: only the loops over pages take it, one unit a page. A table that serves pages whose tokens
-- come to an end (IsPaged) is read in full by any fuel above the number of pages left; a result
-- `hang` stands for a loop that has not ended and is never caught.
--
-- Simplifications: requests are typed, so the parsers at the head of the services' methods accept
-- them (the limit of 55 characters on a role is one of them); Promise.all over calls that do not
-- depend on one another runs them in the order of the list; log output is left out; keys of maps
-- hold no dot, which lodash would read as a path; the stable sort of arrays is a sort by insertion.
--
-- Not modelled: the lifecycle of hosting accounts; the plugins of data sets for DynamoDB and S3; the
-- lifecycle helper of environments; the packages for user management and
-- logging; the AWS clients, the web application's routes, the user interfaces, infrastructure and tooling.
pub mod Base
pub mod Datasets
pub mod Environments
pub mod Queries
pub mod Accounts
pub mod Audit
pub mod Authentication
pub mod Authorization
