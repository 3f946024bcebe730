-- ===== src/Http/Upload/Validation/Detection.antt =====
-- What detectMIME of internal/transport/http/uploader.go reads, and where it leaves the file.
use mathlib.Core.Path.{subst}
use golang_restapi.Base.{ℕ, String, Option, none, some, ◌≡◌, refl, sym, ap, ◌∙◌, arith, string_eq}
use golang_restapi.Http.Upload.{FileHeader, ParsedFile}
use golang_restapi.Http.Upload.Mime.{Types}
use golang_restapi.Http.Upload.Validation.{
  drop, take, type_of, content_of, ensure_open, open_header, seek_current, detect_mime,
}
use golang_restapi.World.Platform.{Env}
use golang_restapi.World.State.{World}
use golang_restapi.World.Action.{ok}
use golang_restapi.World.Logic.{>>=-ok}
use golang_restapi.World.Runs.{wrap_err-ok}

-- where an open handle stands; a file is opened at its start
abbrev pub position : Option ℕ → ℕ
position none = 0
position (some offset) = offset

module _ (types : Types) {S : Type 0} (env : Env S) where
  -- The type that is detected in the 512 bytes from where the file stands.
  abbrev pub actual_type : ParsedFile → String
  actual_type pf = type_of types env (take 512 (drop (position pf.file) (content_of pf.header)))

  -- An open file is the same file, at the position where it stood.
  IsOpened : ParsedFile → ParsedFile × ℕ → Type 0
  IsOpened pf (opened, offset) =
      (record opened { file = some offset } ≡ record pf { file = some (position pf.file) })
      × (offset ≡ position pf.file)
      × (opened.header ≡ pf.header)

  open_header-ok :
      (header : Option FileHeader) (pf : ParsedFile) (w : World S) {opened : ParsedFile}
      {w' : World S}
      → open_header types env header pf w ≡ (ok opened, w')
      → opened ≡ record pf { file = some 0 }
  open_header-ok none pf w h = ground (arith, h)
  open_header-ok (some head) pf w h = >>=-ok _ _ h λ _ w1 h1 h2. ground (arith, h2)

  ensure_open-ok :
      (file : Option ℕ) (pf : ParsedFile) (w : World S) {r : ParsedFile × ℕ} {w' : World S}
      → pf.file ≡ file
      → ensure_open types env file pf w ≡ (ok r, w')
      → IsOpened pf r
  unfolding IsOpened
  ensure_open-ok (some offset) pf w {r} e h =
      subst (λ x. IsOpened pf x) value (ap (λ n. record pf { file = some n }) at, at, refl)
    where
      value : (pf, offset) ≡ r
      value = ground (arith, h)

      at : offset ≡ position pf.file
      at = sym (ap position e)
  ensure_open-ok none pf w {r} e h = >>=-ok _ _ h λ opened w1 h1 h2.
      let same = open_header-ok pf.header pf w h1 in
      let value : (opened, 0) ≡ r = ground (arith, h2) in
      let at : 0 ≡ position pf.file = sym (ap position e) in
      subst (λ x. IsOpened pf x) value
        (
          ap {A = ParsedFile} {B = ParsedFile} (λ o. record o { file = some 0 }) same
              ∙ ap {B = ParsedFile} (λ n. record pf { file = some n }) at,
          at,
          ap (λ (o : ParsedFile). o.header) same,
        )

  seek_current-ok :
      (pf : ParsedFile) (w : World S) {r : ParsedFile × ℕ} {w' : World S}
      → seek_current types env pf w ≡ (ok r, w')
      → IsOpened pf r
  seek_current-ok pf w {r} h = >>=-ok _ _ h λ at w1 h1 h2. >>=-ok _ _ h2 λ _ w2 _ h3.
      let same : at ≡ r = ground (arith, h3) in
      subst (λ x. IsOpened pf x) same (ensure_open-ok pf.file pf w refl h1)

  pub detect_mime-ok :
      (pf : ParsedFile) (w : World S) {pf' : ParsedFile} {actual : String} {w' : World S}
      → detect_mime types env pf w ≡ (ok (pf', actual), w')
      → (pf' ≡ record pf { file = some (position pf.file) }) × (actual ≡ actual_type pf)
  unfolding detect_mime IsOpened
  detect_mime-ok pf w {pf'} {actual} {w'} h = >>=-ok _ _ h λ (opened, offset) w1 h1 h2.
      let (moved, stood, header) =
        seek_current-ok pf w
          (wrap_err-ok "failed to get current position" (seek_current types env pf) {w = w} h1) in
      >>=-ok _ _ h2 λ _ w2 _ h3. >>=-ok _ _ h3 λ _ w3 _ h4.
        let same : record opened { file = some offset } ≡ pf' = ground (arith, h4) in
        let type : type_of types env (take 512 (drop offset (content_of opened.header))) ≡ actual =
          ground (arith, h4) in
        (
          sym same ∙ moved,
          sym type
              ∙ ap (λ n. type_of types env (take 512 (drop n (content_of opened.header)))) stood
              ∙ ap (λ h. type_of types env (take 512 (drop (position pf.file) (content_of h))))
                  header,
        )
