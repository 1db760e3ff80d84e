-- ===== src/Lib.antt =====
-- A model of cppadmin, an administration panel written in C++ on the Drogon framework: accounts,
-- roles, permissions, sessions by signed tokens, and the filters that guard each request.
--
-- Controllers call services; services read and write the database through the classes of models/ and the
-- mapper of Drogon; a login hands out a token that the filters verify on later requests.
--
-- Files:
-- Base: byte strings, lists over the native numbers, Boolean tests.
-- Error, Error/Effect: include/AppError.h, and service coroutines as functions from a database
--   state to a result and a state. A coroutine that throws keeps what it has written, as the code
--   opens no transaction. Each coroutine is one step: interleavings of two of them are not modelled.
-- Database: Drogon's mapper and SQL client are outside the repository, so they are a record of
--   operations. Database/Laws says what the code relies on, Database/Memory is an instance.
-- Models/Users, Roles, Permissions, Settings: models/*.h and models/*.cc. A null pointer is `none`.
--   Quoted column names are the columns they quote. Expiry times are natural numbers.
-- Jwt/Base64, Jwt/Library, Jwt/Token: include/helpers/JwtHelper.h. OpenSSL and JsonCpp are a
--   record with laws, which ask for the reader to give back any bytes and natural numbers that were
--   written, more than JsonCpp promises; it does so for UTF-8 texts and 64-bit numbers, which the
--   claims of this program are. Jwt/Base64/Decoder and Jwt/Library/Unary are instances. Times are
--   natural numbers.
-- Services/Bcrypt: vendor/bcrypt/bcrypt.h as a parameter. Services/Mapper: the calls of the mapper
--   and of `execSqlCoro`. Services/UserRows: what inserting and updating a user does to the rows.
-- Services/Auth: services/AuthService.cc, with its one-time passwords in Services/Auth/Otp. The
--   clock, new UUIDs, salts and random numbers are arguments. `decimal` has as much fuel as digits
--   are asked for, which is enough as the number is below that power of ten.
-- Services/Users, Services/Roles, Services/Permissions: services/UserService.cc, RoleService.cc and
--   PermissionService.cc, without their paginated lists.
-- Access/Routes: include/RouteRegistry.h. Access/Rbac: services/RbacHelper.cc and
--   filters/RbacFilter.cc. Access/Authentication: filters/AuthFilter.cc and
--   filters/MethodOverrideFilter.cc. Access/Csrf: filters/CsrfFilter.cc; an hour that is printed has
--   itself as fuel, more than its digits need.
-- Access/Sessions: include/helpers/JwtBlacklist.h and JwtCookieHelper.h, with the tokens and the
--   logout of controllers/web/v1/AuthWebController.cc. A history of the table is a sequence of
--   steps, in each of which time passes or someone logs out.
-- Services/Settings: services/SettingService.cc, with its cache in the state. Services/Settings/Age
--   has the histories of reads, updates and writes of others.
-- Web/HtmlEscape, Web/Flash: include/helpers/HtmlEscape.h and FlashHelper.h. Web/RateLimit:
--   filters/RateLimitFilter.cc, with the counter of Redis as an argument. Web/Pagination:
--   include/helpers/Pagination.h.
-- Web/Form: include/helpers/FormHelper.h, with a position in the body as the rest of the body. The
--   loop over the parts has the length of the rest and one more as fuel, and each round takes a
--   delimiter off. Web/Form/Encoding is the body a browser posts; Access/Csrf/Visitor joins it
--   with the filter, which reads its token from the form.
-- Templates/Slug: the names of include/FeTemplates.h, with slugRe as a matcher from the left.
--   Templates/Store: services/FeTemplateService.cc. Templates/Catalog: services/FeCatalogService.cc.
--   A file that opens is taken to be written whole. The network is a function from addresses to
--   responses; folders are maps; JsonCpp and the sorting are parameters, for which Templates/Plain
--   is an instance. Templates/Catalog/Pages has 32 bits for an int.
-- Storage: include/helpers/Storage.h, its addresses in Storage/Presign and Storage/Objects, and
--   controllers/web/v1/StorageController.cc in Storage/Serving. Storage/Upload:
--   include/helpers/UploadHelper.h. OpenSSL, libcurl, the clock and the canonical paths of the file
--   system are parameters.
--
-- Not modelled: the paginated lists of the services, and the controllers but for that of stored
-- files and the tokens and logout of sessions. Views, start-up and network calls are glue over the
-- framework.
pub mod Base
pub mod Error
pub mod Database
pub mod Models
pub mod Jwt
pub mod Services
pub mod Access
pub mod Web
pub mod Templates
pub mod Storage
