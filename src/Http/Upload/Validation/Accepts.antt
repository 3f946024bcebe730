-- ===== src/Http/Upload/Validation/Accepts.antt =====
-- Which files ValidateFile of internal/transport/http/uploader.go is sure to accept.
use golang_restapi.Base.{
  ℕ, ◌≤◌, String, Bool, true, false, not, ◌&&◌, Option, none, some, ◌≡◌, refl, ap, ◌∙◌, arith, ◌⊎◌,
  inl, inr, ◌==◌, ltb, string_eq, if◌then◌else◌,
}
use golang_restapi.Http.Upload.{FileHeader, ParsedFile, path_ext}
use golang_restapi.Http.Upload.Mime.{
  Types, is_mime_allowed, mime_types_match, is_office_document, extension_matches, is_empty,
}
use golang_restapi.Http.Upload.Validation.{
  ValidationRules, is_present, ensure_open, open_header, seek_current, detect_mime, check_office,
  check_plain, check_types, check_listed, validate_file,
}
use golang_restapi.Http.Upload.Validation.Detection.{position, actual_type, detect_mime-ok}
use golang_restapi.Http.Upload.Validation.Laws.{IsOfType, validate_file-ok}
use golang_restapi.World.Platform.{Env}
use golang_restapi.World.State.{World}
use golang_restapi.World.Action.{Result, ok, outside}
use golang_restapi.World.Runs.{
  Runs, pure-Runs, throw_if-Runs, wrap_err-Runs, >>=-Runs, outside-Runs, wrap_err-ok,
}

module _ (types : Types) {S : Type 0} (env : Env S) (up : (n : ℕ) → env.fault n ≡ false) where
  open_header-Runs :
      (header : Option FileHeader) (pf : ParsedFile) (w : World S)
      → is_present header ≡ true
      → Runs (open_header types env header pf) w
  open_header-Runs none pf w h = absurd (cc)
  open_header-Runs (some head) pf w h =
      >>=-Runs _ _ w (outside-Runs env up w) λ _ n _. pure-Runs _ _

  ensure_open-Runs :
      (file : Option ℕ) (pf : ParsedFile) (w : World S)
      → is_present pf.header ≡ true
      → Runs (ensure_open types env file pf) w
  ensure_open-Runs (some offset) pf w h = pure-Runs _ w
  ensure_open-Runs none pf w h =
      >>=-Runs _ _ w (open_header-Runs pf.header pf w h) λ _ n _. pure-Runs _ _

  seek_current-Runs :
      (pf : ParsedFile) (w : World S)
      → is_present pf.header ≡ true
      → Runs (seek_current types env pf) w
  seek_current-Runs pf w h =
      >>=-Runs _ _ w (ensure_open-Runs pf.file pf w h)
        λ at n _. >>=-Runs _ _ _ (outside-Runs env up _) λ _ _ _. pure-Runs _ _

  detect_mime-Runs :
      (pf : ParsedFile) (w : World S)
      → is_present pf.header ≡ true
      → Runs (detect_mime types env pf) w
  unfolding detect_mime
  detect_mime-Runs pf w h =
      >>=-Runs _ _ w
        (wrap_err-Runs "failed to get current position" (seek_current types env pf) w
          (seek_current-Runs pf w h))
        λ at n _. >>=-Runs _ _ _ (outside-Runs env up (record w { calls = n })) λ _ n' _.
          >>=-Runs _ _ _
            (wrap_err-Runs "failed to reset file position" (outside env) _
              (outside-Runs env up (record w { calls = n' })))
            λ _ _ _. pure-Runs _ _

  one_allowed : (a b : Bool) → (a ≡ true) ⊎ (b ≡ true) → not a && not b ≡ false
  one_allowed true b h = refl
  one_allowed false true h = refl
  one_allowed false false (inl h) = absurd (cc)
  one_allowed false false (inr h) = absurd (cc)

  negated : (a : Bool) → a ≡ true → not a ≡ false
  negated a h = rw h

  check_plain-Runs :
      (rules : ValidationRules) (pf : ParsedFile) (actual : String) (w : World S)
      → is_mime_allowed types rules.allowed_mimes actual ≡ true
      → (pf.content_type == "" ≡ true) ⊎ (mime_types_match types pf.content_type actual ≡ true)
      → extension_matches types (path_ext pf.filename) actual ≡ true
      → Runs (check_plain types env rules pf actual) w
  check_plain-Runs rules pf actual w known claimed matches =
      >>=-Runs _ _ w (throw_if-Runs _ _ w (one_allowed _ _ claimed)) λ _ _ _.
        >>=-Runs _ _ _ (throw_if-Runs _ _ _ (negated _ known))
          λ _ _ _. throw_if-Runs _ _ _ (negated _ matches)

  check_types-Runs :
      (rules : ValidationRules) (pf : ParsedFile) (actual : String) (w : World S)
      → IsOfType types env rules pf actual
      → Runs (check_types types env rules pf actual) w
  unfolding check_types
  check_types-Runs rules pf actual w h =
      go (is_office_document types (path_ext pf.filename) actual) refl h
    where
      office_runs :
          (is_mime_allowed types rules.allowed_mimes pf.content_type ≡ true)
            ⊎ (is_mime_allowed types rules.allowed_mimes actual ≡ true)
          → Runs (check_office types env rules pf actual) w
      office_runs h' = throw_if-Runs _ _ w (one_allowed _ _ h')

      go :
          (office : Bool)
          → is_office_document types (path_ext pf.filename) actual ≡ office
          → IsOfType types env rules pf actual
          → Runs
              (if office
                then check_office types env rules pf actual
                else check_plain types env rules pf actual)
              w
      go true e (inl (_, h')) = office_runs h'
      go true e (inr (known, _, _)) = office_runs (inr known)
      go false e (inl (office, _)) = absurd (cc)
      go false e (inr (known, claimed, matches)) =
          check_plain-Runs rules pf actual w known claimed matches

  check_listed-Runs :
      (rules : ValidationRules) (pf : ParsedFile) (w : World S)
      → is_present pf.header ≡ true
      → IsOfType types env rules pf (actual_type types env pf)
      → Runs (check_listed types env rules pf) w
  check_listed-Runs rules pf w h typed =
      let detected = detect_mime-Runs pf w h in
      >>=-Runs _ _ w
        (wrap_err-Runs "failed to detect MIME type" (detect_mime types env pf) w detected)
        λ (read, actual) n e.
          let (same, type) =
            detect_mime-ok types env pf w
              (wrap_err-ok "failed to detect MIME type" (detect_mime types env pf) {w = w} e) in
          let typed' : IsOfType types env rules read actual = rw (same, type) typed in
          >>=-Runs _ _ _ (check_types-Runs rules read actual (record w { calls = n }) typed')
            λ _ _ _. pure-Runs read _

  within : (max n : ℕ) → (max ≡ 0) ⊎ (n ≤ max) → ltb 0 max && ltb max n ≡ false
  within max n h = ground (arith, h)

  validate_file-Runs :
      (rules : ValidationRules) (pf : ParsedFile) (w : World S)
      → is_present pf.header ≡ true
      → (rules.max_size ≡ 0) ⊎ (pf.size ≤ rules.max_size)
      → is_empty rules.allowed_mimes ≡ false
      → IsOfType types env rules pf (actual_type types env pf)
      → Runs (validate_file types env rules pf) w
  unfolding validate_file
  validate_file-Runs rules pf w present size listed typed =
      >>=-Runs _ _ w (throw_if-Runs _ _ w (negated _ present)) λ _ n _.
        >>=-Runs _ _ _
          (throw_if-Runs _ _ (record w { calls = n }) (within rules.max_size pf.size size))
          λ _ n' _. rw listed (check_listed-Runs rules pf (record w { calls = n' }) present typed)

  -- Where no call fails, ValidateFile accepts a file that is present, no larger than the rules allow,
  -- and whose detected type passes the checks of the types that the rules list; the file is open and
  -- stands where it stood before, and only the count of the calls has changed.
  pub validate_file-accepts :
      (rules : ValidationRules) (pf : ParsedFile) (w : World S)
      → is_present pf.header ≡ true
      → (rules.max_size ≡ 0) ⊎ (pf.size ≤ rules.max_size)
      → is_empty rules.allowed_mimes ≡ false
      → IsOfType types env rules pf (actual_type types env pf)
      → (n : ℕ) × (validate_file types env rules pf w
          ≡ (ok (record pf { file = some (position pf.file) }), record w { calls = n }))
  validate_file-accepts rules pf w present size listed typed =
      let (pf', n, runs) = validate_file-Runs rules pf w present size listed typed in
      let (_, _, accepted) = validate_file-ok types env rules pf w runs in
      elim accepted [
        | inl (unlisted, _) ↦ absurd (cc)
        | inr (same, _) ↦ (
          n,
          runs ∙ ap {B = Result ParsedFile × World S} (λ x. (ok x, record w { calls = n })) same,
        )
      ]
