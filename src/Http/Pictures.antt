-- ===== src/Http/Pictures.antt =====
-- changeProfilePicture of internal/transport/http/user_handler.go, and NewParsedFile of uploader.go.
-- What fiber's FormFile returns is a parameter, `none` for its error. A nil user id panics, which
-- ends the request like an error. Closing the file changes nothing that is modelled.
pub mod Laws
use golang_restapi.Base.{ℕ, ◌*◌, String, Bool, not, Option, none, some, List, [], ◌∷◌}
use golang_restapi.Errors.{Err, http, plain, Details}
use golang_restapi.Http.Upload.{FileHeader, ParsedFile}
use golang_restapi.Http.Upload.Mime.{Types}
use golang_restapi.Http.Upload.Validation.{ValidationRules, validate_file}
use golang_restapi.Postgres.Audit.{Ctx}
use golang_restapi.Rbac
use golang_restapi.Rbac.{err_ctx_not_found}
use golang_restapi.User.Service.{UserService, change_profile_picture}
use golang_restapi.World.Action.{⊤, Action, ◌>>=◌, ◌>>◌, throw_if, or_throw}

abbrev pub err_multipart_form : String → Option Details → Err
err_multipart_form message details =
    http (record { message = message; details = details; code = "MULTIPART_FORM"; status = 400 })

abbrev pub new_parsed_file : Option FileHeader → ParsedFile
new_parsed_file none = record {
  header = none;
  filename = "";
  size = 0;
  content_type = "";
  file = none;
}
new_parsed_file (some fh) = record {
  header = some fh;
  filename = fh.filename;
  size = fh.size;
  content_type = fh.content_type;
  file = none;
}

-- the rules of changeProfilePicture, with ImageMIMEs
abbrev pub image_rules : ValidationRules
image_rules = record {
  max_size = 2 * 1_048_576;
  allowed_mimes = "image/jpeg" ∷ "image/png" ∷ "image/webp" ∷ [];
}

module _ (types : Types) {S : Type 0} (s : UserService S) (ctx : Ctx) where
  -- what follows the validation
  unfoldable pub store_validated : ParsedFile → Action S ⊤
  store_validated file = do
    authz ← or_throw ctx.rbac err_ctx_not_found
    user_id ←
        or_throw authz.actor.user_id (plain "invalid memory address or nil pointer dereference")
    change_profile_picture s ctx user_id file

  unfoldable pub change_picture : Bool → Option FileHeader → Action S ⊤
  unfolding store_validated
  change_picture is_multipart form = do
    throw_if (not is_multipart)
        (err_multipart_form "request 'Content-Type' header must be multipart/form-data" none)
    header ← or_throw form (
        err_multipart_form "profile picture is required"
          (some (Details.fields (("key", "image") ∷ []))))
    validated ← validate_file types s.env image_rules (new_parsed_file (some header))
    store_validated validated
