-- ===== src/Http/Upload/Validation/Silence.antt =====
-- ValidateFile of internal/transport/http/uploader.go only reads.
use golang_restapi.Base.{ℕ, String, Bool, true, false, Option, none, some, refl, if◌then◌else◌}
use golang_restapi.Http.Upload.{FileHeader, ParsedFile, path_ext}
use golang_restapi.Http.Upload.Mime.{Types, is_office_document, is_empty}
use golang_restapi.Http.Upload.Validation.{
  ValidationRules, ensure_open, open_header, seek_current, detect_mime, check_office, check_plain,
  check_types, check_listed, check_content, validate_file,
}
use golang_restapi.World.Platform.{Env}
use golang_restapi.World.Action.{outside, pure}
use golang_restapi.World.Runs.{Quiet, throw_if-Quiet, wrap_err-Quiet, >>=-Quiet, outside-Quiet}

module _ (types : Types) {S : Type 0} (env : Env S) where
  open_header-Quiet :
      (header : Option FileHeader) (pf : ParsedFile) → Quiet (open_header types env header pf)
  open_header-Quiet none pf = λ w. (refl, refl)
  open_header-Quiet (some h) pf = >>=-Quiet _ _ (outside-Quiet env) λ _ w. (refl, refl)

  ensure_open-Quiet : (file : Option ℕ) (pf : ParsedFile) → Quiet (ensure_open types env file pf)
  ensure_open-Quiet (some offset) pf = λ w. (refl, refl)
  ensure_open-Quiet none pf = >>=-Quiet _ _ (open_header-Quiet pf.header pf) λ _ w. (refl, refl)

  seek_current-Quiet : (pf : ParsedFile) → Quiet (seek_current types env pf)
  seek_current-Quiet pf =
      >>=-Quiet _ _ (ensure_open-Quiet pf.file pf)
        λ _. >>=-Quiet _ _ (outside-Quiet env) λ _ w. (refl, refl)

  detect_mime-Quiet : (pf : ParsedFile) → Quiet (detect_mime types env pf)
  unfolding detect_mime
  detect_mime-Quiet pf =
      >>=-Quiet _ _
        (wrap_err-Quiet "failed to get current position" (seek_current types env pf)
          (seek_current-Quiet pf))
        λ _. >>=-Quiet _ _ (outside-Quiet env) λ _.
          >>=-Quiet _ _
            (wrap_err-Quiet "failed to reset file position" (outside env) (outside-Quiet env))
            λ _ w. (refl, refl)

  check_types-Quiet :
      (rules : ValidationRules) (pf : ParsedFile) (actual : String)
      → Quiet (check_types types env rules pf actual)
  unfolding check_types
  check_types-Quiet rules pf actual = go (is_office_document types (path_ext pf.filename) actual)
    where
      go :
          (office : Bool)
          → Quiet (
              if office
              then check_office types env rules pf actual
              else check_plain types env rules pf actual)
      go true = throw_if-Quiet _ _
      go false =
          >>=-Quiet _ _ (throw_if-Quiet _ _)
            λ _. >>=-Quiet _ _ (throw_if-Quiet _ _) λ _. throw_if-Quiet _ _

  check_content-Quiet :
      (rules : ValidationRules) (pf : ParsedFile) → Quiet (check_content types env rules pf)
  check_content-Quiet rules pf = go (is_empty rules.allowed_mimes)
    where
      listed : Quiet (check_listed types env rules pf)
      listed =
          >>=-Quiet _ _
            (wrap_err-Quiet "failed to detect MIME type" (detect_mime types env pf)
              (detect_mime-Quiet pf))
            λ (read, actual).
              >>=-Quiet _ _ (check_types-Quiet rules read actual) λ _ w. (refl, refl)

      go : (unlisted : Bool) → Quiet (if unlisted then pure pf else check_listed types env rules pf)
      go true = λ w. (refl, refl)
      go false = listed

  pub validate_file-Quiet :
      (rules : ValidationRules) (pf : ParsedFile) → Quiet (validate_file types env rules pf)
  unfolding validate_file
  validate_file-Quiet rules pf =
      >>=-Quiet _ _ (throw_if-Quiet _ _)
        λ _. >>=-Quiet _ _ (throw_if-Quiet _ _) λ _. check_content-Quiet rules pf
