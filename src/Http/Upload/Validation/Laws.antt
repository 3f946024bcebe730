-- ===== src/Http/Upload/Validation/Laws.antt =====
-- Which files ValidateFile of internal/transport/http/uploader.go accepts.
use golang_restapi.Base.{
  ℕ, ◌≤◌, String, Bool, true, false, not, ◌&&◌, some, ◌≡◌, refl, sym, ◌∙◌, arith, ◌⊎◌, inl, inr,
  ◌==◌, string_eq, ltb, if◌then◌else◌,
}
use golang_restapi.Http.Upload.{ParsedFile, path_ext}
use golang_restapi.Http.Upload.Mime.{
  Types, is_mime_allowed, mime_types_match, is_office_document, extension_matches, is_empty,
}
use golang_restapi.Http.Upload.Validation.{
  ValidationRules, is_present, detect_mime, check_office, check_plain, check_types, check_listed,
  validate_file,
}
use golang_restapi.Http.Upload.Validation.Detection.{position, actual_type, detect_mime-ok}
use golang_restapi.World.Platform.{Env}
use golang_restapi.World.State.{World}
use golang_restapi.World.Action.{ok, pure}
use golang_restapi.World.Logic.{>>=-ok, throw_if-ok}
use golang_restapi.World.Runs.{wrap_err-ok}

module _ (types : Types) {S : Type 0} (env : Env S) where
  -- What the detected type is checked for.
  abbrev pub IsOfType : ValidationRules → ParsedFile → String → Type 0
  IsOfType rules pf actual =
      ((is_office_document types (path_ext pf.filename) actual ≡ true)
        × ((is_mime_allowed types rules.allowed_mimes pf.content_type ≡ true)
            ⊎ (is_mime_allowed types rules.allowed_mimes actual ≡ true)))
      ⊎ ((is_mime_allowed types rules.allowed_mimes actual ≡ true)
          × ((pf.content_type == "" ≡ true)
              ⊎ (mime_types_match types pf.content_type actual ≡ true))
          × (extension_matches types (path_ext pf.filename) actual ≡ true))

  allowed_or : (a b : Bool) → not a && not b ≡ false → (a ≡ true) ⊎ (b ≡ true)
  allowed_or true b h = inl refl
  allowed_or false true h = inr refl
  allowed_or false false h = absurd (cc)

  allowed : (a : Bool) → not a ≡ false → a ≡ true
  allowed true h = refl
  allowed false h = absurd (cc)

  check_office-ok :
      (rules : ValidationRules) (pf : ParsedFile) (actual : String) (w : World S) {w' : World S}
      → check_office types env rules pf actual w ≡ (ok tt, w')
      → (is_mime_allowed types rules.allowed_mimes pf.content_type ≡ true)
        ⊎ (is_mime_allowed types rules.allowed_mimes actual ≡ true)
  check_office-ok rules pf actual w h =
      allowed_or (is_mime_allowed types rules.allowed_mimes pf.content_type)
        (is_mime_allowed types rules.allowed_mimes actual) (ground (arith, h))

  check_plain-ok :
      (rules : ValidationRules) (pf : ParsedFile) (actual : String) (w : World S) {w' : World S}
      → check_plain types env rules pf actual w ≡ (ok tt, w')
      → (is_mime_allowed types rules.allowed_mimes actual ≡ true)
        × ((pf.content_type == "" ≡ true) ⊎ (mime_types_match types pf.content_type actual ≡ true))
        × (extension_matches types (path_ext pf.filename) actual ≡ true)
  check_plain-ok rules pf actual w h = throw_if-ok _ _ _ h λ claimed h1.
      throw_if-ok _ _ _ h1 λ known h2. (
        allowed _ known,
        allowed_or (pf.content_type == "") (mime_types_match types pf.content_type actual) claimed,
        allowed (extension_matches types (path_ext pf.filename) actual) (ground (arith, h2)),
      )

  check_types-ok :
      (rules : ValidationRules) (pf : ParsedFile) (actual : String) (w : World S) {w' : World S}
      → check_types types env rules pf actual w ≡ (ok tt, w')
      → IsOfType rules pf actual
  unfolding check_types
  check_types-ok rules pf actual w {w'} h =
      go (is_office_document types (path_ext pf.filename) actual) refl h
    where
      go :
          (office : Bool)
          → is_office_document types (path_ext pf.filename) actual ≡ office
          → (if office
                then check_office types env rules pf actual
                else check_plain types env rules pf actual)
              w
            ≡ (ok tt, w')
          → IsOfType rules pf actual
      go true e h' = inl (e, check_office-ok rules pf actual w h')
      go false e h' = inr (check_plain-ok rules pf actual w h')

  -- A file that ValidateFile accepts is present and no larger than the rules allow. Where they list
  -- types, the type detected in its first bytes is allowed, is the claimed type if one is claimed,
  -- and goes with the file's extension; or the extension is one of an Office document and the
  -- detected type one of its containers, and then it is enough that the claimed type is allowed.
  -- The file stands where it stood before.
  pub validate_file-ok :
      (rules : ValidationRules) (pf : ParsedFile) (w : World S) {pf' : ParsedFile} {w' : World S}
      → validate_file types env rules pf w ≡ (ok pf', w')
      → (is_present pf.header ≡ true)
        × ((rules.max_size ≡ 0) ⊎ (pf.size ≤ rules.max_size))
        × (((is_empty rules.allowed_mimes ≡ true) × (pf' ≡ pf))
            ⊎ ((pf' ≡ record pf { file = some (position pf.file) })
                × IsOfType rules pf (actual_type types env pf)))
  unfolding validate_file
  validate_file-ok rules pf w {pf'} {w'} h = throw_if-ok _ _ _ h λ present h1.
      throw_if-ok _ _ _ h1 λ size h2. (
        allowed _ present,
        limited rules.max_size pf.size size,
        go (is_empty rules.allowed_mimes) refl h2,
      )
    where
      limited : (max n : ℕ) → ltb 0 max && ltb max n ≡ false → (max ≡ 0) ⊎ (n ≤ max)
      limited max n e = ground (arith, e)

      go :
          (unlisted : Bool)
          → is_empty rules.allowed_mimes ≡ unlisted
          → (if unlisted then pure pf else check_listed types env rules pf) w ≡ (ok pf', w')
          → ((is_empty rules.allowed_mimes ≡ true) × (pf' ≡ pf))
            ⊎ ((pf' ≡ record pf { file = some (position pf.file) })
                × IsOfType rules pf (actual_type types env pf))
      go true e h' = inl (e, ground (arith, h'))
      go false e h' = >>=-ok _ _ h' λ (read, actual) w1 e1 h3. >>=-ok _ _ h3 λ _ w2 e2 h4.
          let (same, type) =
            detect_mime-ok types env pf w
              (wrap_err-ok "failed to detect MIME type" (detect_mime types env pf) {w = w} e1) in
          let done : read ≡ pf' = ground (arith, h4) in
          let typed = check_types-ok rules read actual w1 e2 in
          inr (sym done ∙ same, rw (same, type) at typed)
