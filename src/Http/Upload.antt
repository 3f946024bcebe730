-- ===== src/Http/Upload.antt =====
-- ParsedFile of internal/transport/http/uploader.go, and path.Ext and strings.TrimSuffix as it
-- uses them: a file's name is cut before its extension.
pub mod Mime
pub mod Validation
use golang_restapi.Base.{
  ℕ, String, Bool, false, ◌&&◌, ◌||◌, not, Option, List, ◌==◌, nat_eq, string_eq, concat,
  if◌then◌else◌,
}
use golang_restapi.Errors.{plain}
use golang_restapi.World.Action.{Result, ok, err}
use Prim.Native.Char.{code}

-- The part of a multipart form that a file comes from.
pub record FileHeader : Type 0 where
  pub filename : String
  pub size : ℕ
  pub content_type : String
  pub content : List ℕ

-- `file` is the offset of the handle, if one is open.
pub record ParsedFile : Type 0 where
  pub header : Option FileHeader
  pub filename : String
  pub size : ℕ
  pub content_type : String
  pub file : Option ℕ

abbrev pub has_slash : String → Bool
has_slash String.[] = false
has_slash (String.◌∷◌ c s) = code c == 47 || has_slash s

-- A name before its extension, and the extension: from the last dot that no slash follows.
unfoldable pub split_ext : String → String × String
split_ext String.[] = ("", "")
split_ext (String.◌∷◌ c s) =
    let (base, ext) = split_ext s in
    if ext == "" && code c == 46 && not (has_slash s)
    then ("", String.◌∷◌ c s)
    else (String.◌∷◌ c base, ext)

-- path.Ext
abbrev pub path_ext : String → String
path_ext name = (split_ext name).1

-- The rest of SetName, for a file whose extension is `ext`: strings.TrimSuffix and `+`.
unfoldable pub renamed : String → String → String
unfolding split_ext
renamed name ext = concat (split_ext name).0 ext

-- ParsedFile.SetName
unfoldable pub set_name : String → ParsedFile → Result ParsedFile
unfolding renamed
set_name name pf =
    if name == ""
    then err (plain "filename cannot be empty")
    else ok (record pf { filename = renamed name (path_ext pf.filename) })
