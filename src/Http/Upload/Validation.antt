-- ===== src/Http/Upload/Validation.antt =====
-- ValidateFile of internal/transport/http/uploader.go, and how it reads the file's first bytes. That
-- the claimed and the actual type differ is only logged besides the error.
pub mod Detection
pub mod Laws
pub mod Accepts
pub mod Silence
use golang_restapi.Base.{
  ℕ, zero, suc, ◌+◌, String, Bool, true, false, not, ◌&&◌, ◌||◌, Option, none, some, List, [], ◌∷◌,
  ◌==◌, nat_eq, string_eq, ltb, if◌then◌else◌,
}
use golang_restapi.Errors.{Err, HttpError, http, plain, Details}
use golang_restapi.Http.Upload.{FileHeader, ParsedFile, path_ext}
use golang_restapi.Http.Upload.Mime.{
  Types, is_empty, is_mime_allowed, mime_types_match, is_office_document, extension_matches,
}
use golang_restapi.World.Platform.{Env}
use golang_restapi.World.Action.{⊤, Action, pure, throw, ◌>>=◌, ◌>>◌, throw_if, wrap_err, outside}

pub record ValidationRules : Type 0 where
  pub max_size : ℕ
  pub allowed_mimes : List String

abbrev bad_request : String → String → Option Details → Err
bad_request message code details =
    http (record { message = message; details = details; code = code; status = 400 })

abbrev pub err_upload_max_size : ℕ → ℕ → Err
err_upload_max_size max received =
    bad_request "file size exceeds maximum allowed" "UPLOAD_MAX_SIZE"
      (some (Details.sizes max received))

abbrev pub err_upload_mime_types : String → String → List String → Err
err_upload_mime_types claimed actual allowed =
    bad_request "invalid file mime types" "UPLOAD_MIME_TYPES"
      (some (Details.mimes claimed actual allowed))

abbrev pub err_upload_invalid : Err
err_upload_invalid =
    bad_request "invalid file" "UPLOAD_INVALID" (some (Details.text "what a sus file"))

-- bytes from an offset, and at most so many
unfoldable pub drop : ℕ → List ℕ → List ℕ
drop zero bs = bs
drop (suc n) [] = []
drop (suc n) (b ∷ bs) = drop n bs

unfoldable pub take : ℕ → List ℕ → List ℕ
take zero bs = []
take (suc n) [] = []
take (suc n) (b ∷ bs) = b ∷ take n bs

abbrev pub content_of : Option FileHeader → List ℕ
content_of none = []
content_of (some h) = h.content

abbrev pub is_present : Option FileHeader → Bool
is_present none = false
is_present (some _) = true

module _ (types : Types) {S : Type 0} (env : Env S) where
  -- Open, for a file without an open handle
  abbrev pub open_header : Option FileHeader → ParsedFile → Action S ParsedFile
  open_header none pf = throw (plain "no file available")
  open_header (some h) pf = do outside env; pure (record pf { file = some 0 })

  -- `if pf.file == nil { pf.Open() }`: the file and its offset
  abbrev pub ensure_open : Option ℕ → ParsedFile → Action S (ParsedFile × ℕ)
  ensure_open (some offset) pf = pure (pf, offset)
  ensure_open none pf = do opened ← open_header pf.header pf; pure (opened, 0)

  -- Seek(0, io.SeekCurrent)
  abbrev pub seek_current : ParsedFile → Action S (ParsedFile × ℕ)
  seek_current pf = do at ← ensure_open pf.file pf; outside env; pure at

  -- an empty file is of a generic type
  abbrev pub type_of : List ℕ → String
  type_of [] = "application/octet-stream"
  type_of (b ∷ bs) = types.detect_content_type (b ∷ bs)

  -- detectMIME: seek, read and seek back
  unfoldable pub detect_mime : ParsedFile → Action S (ParsedFile × String)
  unfolding take drop
  detect_mime pf = do
    (opened, offset) ← wrap_err "failed to get current position" (seek_current pf)
    outside env
    let bytes = take 512 (drop offset (content_of opened.header))
    wrap_err "failed to reset file position" (outside env)
    pure (record opened { file = some offset }, type_of bytes)

  -- the checks of an Office document
  abbrev pub check_office : ValidationRules → ParsedFile → String → Action S ⊤
  check_office rules pf actual =
      throw_if
        (not (is_mime_allowed types rules.allowed_mimes pf.content_type)
          && not (is_mime_allowed types rules.allowed_mimes actual))
        (err_upload_mime_types pf.content_type actual rules.allowed_mimes)

  -- and those of any other file
  abbrev pub check_plain : ValidationRules → ParsedFile → String → Action S ⊤
  check_plain rules pf actual = do
    throw_if (not (pf.content_type == "") && not (mime_types_match types pf.content_type actual))
        err_upload_invalid
    throw_if (not (is_mime_allowed types rules.allowed_mimes actual))
        (err_upload_mime_types pf.content_type actual rules.allowed_mimes)
    throw_if (not (extension_matches types (path_ext pf.filename) actual))
        (plain "file extension validation failed")

  -- the checks of the types, of a file whose first bytes were read
  unfoldable pub check_types : ValidationRules → ParsedFile → String → Action S ⊤
  unfolding is_office_document
  check_types rules pf actual =
      if is_office_document types (path_ext pf.filename) actual
      then check_office rules pf actual
      else check_plain rules pf actual

  -- the check of the types, where the rules list some
  abbrev pub check_listed : ValidationRules → ParsedFile → Action S ParsedFile
  check_listed rules pf = do
    (read, actual) ← wrap_err "failed to detect MIME type" (detect_mime pf)
    check_types rules read actual
    pure read

  -- what follows the check of the size: the file as it stands then
  abbrev pub check_content : ValidationRules → ParsedFile → Action S ParsedFile
  check_content rules pf = if is_empty rules.allowed_mimes then pure pf else check_listed rules pf

  -- ValidateFile: the file as it stands after it
  unfoldable pub validate_file : ValidationRules → ParsedFile → Action S ParsedFile
  unfolding detect_mime check_types
  validate_file rules pf = do
    throw_if (not (is_present pf.header)) (plain "no file provided")
    throw_if (ltb 0 rules.max_size && ltb rules.max_size pf.size)
        (err_upload_max_size rules.max_size pf.size)
    check_content rules pf
