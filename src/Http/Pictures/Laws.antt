-- ===== src/Http/Pictures/Laws.antt =====
-- What a request to change a profile picture leaves in the object storage and in the tables.
use mathlib.Core.Path.{subst}
use golang_restapi.Base.{[], ◌∷◌, ℕ, Bool, Option, some, ◌≡◌, ◌≤◌, refl, ◌∙◌, arith, ◌⊎◌, inl, inr}
use golang_restapi.Errors.{Err}
use golang_restapi.Http.Upload.{FileHeader, ParsedFile}
use golang_restapi.Http.Upload.Mime.{Types}
use golang_restapi.Http.Upload.Validation.{ValidationRules, validate_file}
use golang_restapi.Http.Upload.Validation.Detection.{actual_type}
use golang_restapi.Http.Upload.Validation.Laws.{IsOfType, validate_file-ok}
use golang_restapi.Http.Upload.Validation.Silence.{validate_file-Quiet}
use golang_restapi.Http.Pictures.{new_parsed_file, image_rules, store_validated, change_picture}
use golang_restapi.Postgres.Audit.{Ctx}
use golang_restapi.Rbac
use golang_restapi.Rbac.{err_ctx_not_found}
use golang_restapi.User.Service.{UserService}
use golang_restapi.User.Outcomes.Pictures.{Settled, change_profile_picture-settles}
use golang_restapi.World.State.{World}
use golang_restapi.World.Action.{⊤, Result, ok, err, Action, ◌>>=◌}
use golang_restapi.World.Logic.{>>=-outcomes}
use golang_restapi.World.Runs.{Quiet, Quiet-run, throw_if-Quiet, or_throw-Quiet, or_throw-ok}

-- 2 MiB, and the types of pictures
abbrev pub picture_rules : ValidationRules
picture_rules = record {
  max_size = 2_097_152;
  allowed_mimes = "image/jpeg" ∷ "image/png" ∷ "image/webp" ∷ [];
}

module _ (types : Types) {S : Type 0} (s : UserService S) (ctx : Ctx) where
  abbrev pub IsSame : World S → World S → Type 0
  IsSame w1 w = (w1.db ≡ w.db) × (w1.storage ≡ w.storage)

  -- The file of a form passes the rules for pictures.
  abbrev pub IsPicture : FileHeader → Type 0
  IsPicture header =
      (header.size ≤ picture_rules.max_size)
      × IsOfType types s.env picture_rules (new_parsed_file (some header))
          (actual_type types s.env (new_parsed_file (some header)))

  -- Either the request was refused, or its file is a picture and the service was called.
  abbrev pub Answered : Option FileHeader → World S → Result ⊤ × World S → Type 0
  Answered form w r =
      ((e : Err) × (r.0 ≡ err e) × (r.1.db ≡ w.db) × (r.1.storage ≡ w.storage))
      ⊎ ((header : FileHeader) × (form ≡ some header)
          × IsPicture header
          × (authz : Rbac.Context) × (ctx.rbac ≡ some authz)
          × (user_id : ℕ) × (authz.actor.user_id ≡ some user_id)
          × Settled ctx user_id w r)

  -- What a request answers after an action that changes nothing.
  Answered-step :
      {A : Type 0} (form : Option FileHeader) (w0 : World S) (m : Action S A) (f : A → Action S ⊤)
      (w : World S)
      → Quiet m
      → IsSame w w0
      → ((a : A) (w1 : World S) → IsSame w1 w0 → m w ≡ (ok a, w1) → Answered form w0 (f a w1))
      → Answered form w0 ((m >>= f) w)
  Answered-step form w0 m f w q (db, storage) k =
      >>=-outcomes (Answered form w0) m f w
        (λ a w1 h. let (d, c) = Quiet-run m w q h in k a w1 (d ∙ db, c ∙ storage) h)
        (λ e w1 h. let (d, c) = Quiet-run m w q h in inl (e, refl, d ∙ db, c ∙ storage))

  Settled-same :
      (user_id : ℕ) (w w0 : World S) (r : Result ⊤ × World S)
      → IsSame w w0
      → Settled ctx user_id w r
      → Settled ctx user_id w0 r
  Settled-same user_id w w0 r (db, storage) h =
      subst (λ l. Settled ctx user_id (record w { db = w0.db; storage = l }) r) storage
        (subst (λ d. Settled ctx user_id (record w { db = d }) r) db h)

  validated-IsPicture :
      (header : FileHeader) (w : World S) {validated : ParsedFile} {w' : World S}
      → validate_file types s.env image_rules (new_parsed_file (some header)) w ≡ (ok validated, w')
      → IsPicture header
  validated-IsPicture header w h =
      let (_, size, typed) =
        validate_file-ok types s.env image_rules (new_parsed_file (some header)) w h in
      (
        elim size [ inl none_set ↦ absurd (omega (arith, none_set)) | inr at_most ↦ at_most ],
        elim typed [ inl (unlisted, _) ↦ absurd (cc) | inr (_, known) ↦ known ],
      )

  -- Whatever a request to change a profile picture answers: it failed and left the tables and the
  -- object storage as they were; or it carries a file that is at most 2 MiB large and passes the
  -- checks of its type against image/jpeg, image/png and image/webp, its context names a user, and the tables and the
  -- storage are as ChangeProfilePicture leaves them for that user.
  pub change_picture-stores_validated :
      (is_multipart : Bool) (form : Option FileHeader) (w : World S)
      → Answered form w (change_picture types s ctx is_multipart form w)
  unfolding change_picture store_validated
  change_picture-stores_validated is_multipart form w =
      Answered-step form w _ _ w (throw_if-Quiet _ _) (refl, refl)
        λ _ w1 s1 _. Answered-step form w _ _ w1 (or_throw-Quiet form _) s1 λ header w2 s2 h2.
          Answered-step form w _ _ w2
            (validate_file-Quiet types s.env image_rules (new_parsed_file (some header))) s2
            λ validated w3 s3 h3.
              Answered-step form w _ _ w3 (or_throw-Quiet ctx.rbac _) s3 λ authz w4 s4 h4.
                Answered-step form w _ _ w4 (or_throw-Quiet authz.actor.user_id _) s4
                  λ user_id w5 s5 h5. inr (
                    header,
                    or_throw-ok form _ w1 h2,
                    validated-IsPicture header w2 h3,
                    authz,
                    or_throw-ok ctx.rbac _ w3 h4,
                    user_id,
                    or_throw-ok authz.actor.user_id _ w4 h5,
                    Settled-same user_id w5 w _ s5
                        (change_profile_picture-settles s ctx user_id validated w5),
                  )
