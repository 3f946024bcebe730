-- ===== src/Http/Upload/Mime.antt =====
-- How internal/transport/http/uploader.go compares content types and extensions.
use golang_restapi.Base.{
  ℕ, String, Bool, true, false, ◌||◌, Option, none, some, List, [], ◌∷◌, ◌==◌, nat_eq, string_eq,
  if◌then◌else◌,
}
use golang_restapi.Base.Lists.{any}
use golang_restapi.Http.Authenticate.{cut_prefix}
use Prim.Native.Char.{code}

-- strings.EqualFold, ToLower and TrimSpace, http.DetectContentType, and mime.ExtensionsByType,
-- `none` for its error.
pub record Types : Type 0 where
  pub equal_fold : String → String → Bool
  pub to_lower : String → String
  pub trim_space : String → String
  pub detect_content_type : List ℕ → String
  pub extensions_by_type : String → Option (List String)

-- the part of strings.Cut before a semicolon
unfoldable pub mime_base : String → String
mime_base String.[] = ""
mime_base (String.◌∷◌ c s) =
    let rest = mime_base s in if code c == 59 then "" else String.◌∷◌ c rest

abbrev is_some_text : Option String → Bool
is_some_text none = false
is_some_text (some _) = true

-- strings.Contains
unfoldable pub contains_text : String → String → Bool
unfolding cut_prefix
contains_text String.[] sub = is_some_text (cut_prefix "" sub)
contains_text (String.◌∷◌ c s) sub =
    let rest = contains_text s sub in is_some_text (cut_prefix (String.◌∷◌ c s) sub) || rest

-- the entry of officeExtensions
abbrev pub office_types : String → Option (List String)
office_types ext =
    if ext == ".xlsx"
    then some (
        "application/zip" ∷ "application/vnd.openxmlformats-officedocument.spreadsheetml.sheet"
        ∷ "application/octet-stream" ∷ [])
    else if ext == ".docx"
    then some (
        "application/zip"
        ∷ "application/vnd.openxmlformats-officedocument.wordprocessingml.document"
        ∷ "application/octet-stream" ∷ [])
    else if ext == ".pptx"
    then some (
        "application/zip"
        ∷ "application/vnd.openxmlformats-officedocument.presentationml.presentation"
        ∷ "application/octet-stream" ∷ [])
    else none

-- the fallback of getExpectedExtensions; an unknown type and one without extensions are both nil
abbrev pub fallback_extensions : String → List String
fallback_extensions base =
    if base == "image/webp"
    then ".webp" ∷ []
    else if base == "image/svg+xml"
    then ".svg" ∷ []
    else if base == "application/wasm"
    then ".wasm" ∷ []
    else if base == "font/woff"
    then ".woff" ∷ []
    else if base == "font/woff2"
    then ".woff2" ∷ []
    else []

abbrev pub or_fallback : String → Option (List String) → List String
or_fallback base none = fallback_extensions base
or_fallback base (some extensions) = extensions

abbrev pub is_empty : List String → Bool
is_empty [] = true
is_empty (_ ∷ _) = false

module _ (types : Types) where
  -- isMIMEAllowed
  unfoldable pub is_mime_allowed : List String → String → Bool
  unfolding mime_base
  is_mime_allowed allowed mime = any (λ a. types.equal_fold (mime_base mime) a) allowed

  -- mimeTypesMatch
  unfoldable pub mime_types_match : String → String → Bool
  unfolding mime_base
  mime_types_match claimed actual =
      types.equal_fold (types.trim_space (mime_base claimed)) (types.trim_space (mime_base actual))

  abbrev is_container : String → Option (List String) → Bool
  is_container actual none = false
  is_container actual (some allowed) = any (contains_text actual) allowed

  -- isOfficeDocument
  unfoldable pub is_office_document : String → String → Bool
  unfolding contains_text
  is_office_document ext actual = is_container actual (office_types (types.to_lower ext))

  -- verifyExtensionMatchesMIME with getExpectedExtensions, without the error's text
  unfoldable pub extension_matches : String → String → Bool
  unfolding mime_base
  extension_matches ext detected =
      let expected =
        or_fallback (mime_base detected) (types.extensions_by_type (mime_base detected)) in
      is_empty expected || any (types.equal_fold ext) expected
