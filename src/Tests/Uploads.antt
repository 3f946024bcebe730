-- ===== src/Tests/Uploads.antt =====
-- Files that are validated: a picture, and an archive named as a document that claims to be one.
use golang_restapi.Base.{
  ℕ, String, none, some, List, [], ◌∷◌, true, ◌≡◌, refl, ◌⊎◌, inl, inr, ◌==◌, ◌≤◌, string_eq,
  nat_eq, arith, if◌then◌else◌,
}
use golang_restapi.Http.Upload.{FileHeader, ParsedFile, split_ext}
use golang_restapi.Http.Upload.Mime.{
  Types, is_empty, is_office_document, is_mime_allowed, mime_types_match, extension_matches,
  mime_base, contains_text,
}
use golang_restapi.Http.Upload.Validation.{drop, take, ValidationRules, is_present, validate_file}
use golang_restapi.Http.Upload.Validation.Detection.{actual_type}
use golang_restapi.Http.Upload.Validation.Laws.{IsOfType, validate_file-ok}
use golang_restapi.Http.Upload.Validation.Accepts.{validate_file-accepts}
use golang_restapi.Http.Pictures.{change_picture}
use golang_restapi.Http.Pictures.Laws.{Answered, change_picture-stores_validated}
use golang_restapi.World.State.{World}
use golang_restapi.World.Action.{ok, ◌>>=◌}
use golang_restapi.Tests.Store.{Store}
use golang_restapi.Tests.Fixture.{users, world, as_ann}

abbrev detected : List ℕ → String
detected [] = ""
detected (b ∷ _) =
    if b == 137 then "image/png" else if b == 80 then "application/zip" else "text/plain"

abbrev types : Types
types = record {
  equal_fold = λ a b. a == b;
  to_lower = λ s. s;
  trim_space = λ s. s;
  detect_content_type = detected;
  extensions_by_type = λ t. if t == "image/png" then some (".png" ∷ []) else some [];
}

abbrev pictures : ValidationRules
pictures = record { max_size = 4; allowed_mimes = "image/png" ∷ [] }

abbrev upload : String → List ℕ → ParsedFile
upload name content = record {
  header =
      some (record { filename = name; size = 2; content_type = "image/png"; content = content });
  filename = name;
  size = 2;
  content_type = "image/png";
  file = none;
}

abbrev picture : ParsedFile
picture = upload "ann.png" (137 ∷ 80 ∷ [])

abbrev archive : ParsedFile
archive = upload "ann.docx" (80 ∷ 75 ∷ [])

abbrev checked : World Store
checked = (validate_file types users.env pictures picture world).1

picture_runs :
    validate_file types users.env pictures picture world
    ≡ (ok (record picture { file = some 0 }), checked)
unfolding validate_file ◌>>=◌ split_ext mime_types_match is_office_document is_mime_allowed
    extension_matches mime_base contains_text drop take
picture_runs = refl

validate_file-ok_example :
    (is_present picture.header ≡ true)
    × ((pictures.max_size ≡ 0) ⊎ (picture.size ≤ pictures.max_size))
    × (((is_empty pictures.allowed_mimes ≡ true) × (record picture { file = some 0 } ≡ picture))
        ⊎ ((record picture { file = some 0 } ≡ record picture { file = some 0 })
            × IsOfType types users.env pictures picture (actual_type types users.env picture)))
validate_file-ok_example = validate_file-ok types users.env pictures picture world picture_runs

archive_is_office : IsOfType types users.env pictures archive (actual_type types users.env archive)
unfolding is_office_document is_mime_allowed mime_base contains_text split_ext drop take
archive_is_office = inl (refl, inl refl)

validate_file-accepts_example :
    (n : ℕ) × (validate_file types users.env pictures archive world
      ≡ (ok (record archive { file = some 0 }), record world { calls = n }))
validate_file-accepts_example =
    validate_file-accepts types users.env (λ _. refl) pictures archive world refl
      (inr (omega arith)) refl archive_is_office

abbrev portrait_header : FileHeader
portrait_header = record {
  filename = "ann.png";
  size = 2;
  content_type = "image/png";
  content = 137 ∷ 80 ∷ [];
}

change_picture-stores_validated_example :
    Answered types users as_ann
      (some portrait_header)
      world
      (change_picture types users as_ann true (some portrait_header) world)
change_picture-stores_validated_example =
    change_picture-stores_validated types users as_ann true (some portrait_header) world
