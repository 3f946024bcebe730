-- ===== src/User/Outcomes/Pictures.antt =====
-- ChangeProfilePicture of internal/user/service.go: the user's row and the calls of the object
-- storage, whatever the outcome.
use golang_restapi.Base.{
  ℕ, String, List, [], ◌∷◌, ◌++◌, ◌≡◌, refl, ap, sym, ◌∙◌, arith, ◌⊎◌, inl, inr, ◌==◌, string_eq,
  if◌then◌else◌,
}
use golang_restapi.Errors.{Err, fault}
use golang_restapi.Http.Upload.{ParsedFile, set_name}
use golang_restapi.User.Service.{
  UserService, build_image_path, picture_path, with_picture, put_image, delete_image,
  change_picture_tx, delete_previous, clean_up, store_picture, change_profile_picture,
}
use golang_restapi.User.Outcomes.Silence.{
  IsSilent, bind-IsSilent, transact-IsSilent, get_user-IsSilent, update_user-IsSilent,
  record_entry-IsSilent,
}
use golang_restapi.User.Outcomes.Update.{Rewritten}
use golang_restapi.World.State.{World, StorageCall, put, delete}
use golang_restapi.World.Action.{Result, ok, err, Action, ⊤, ◌>>=◌}
use golang_restapi.World.Logic.{>>=-ok, >>=-outcomes}
use golang_restapi.World.Runs.{>>=-read}
use golang_restapi.Postgres.Audit.{Ctx}
use golang_restapi.Postgres.Keeps.Users.{get_user_by_id-Keeps}
use golang_restapi.Postgres.Transact.{transact}
use golang_restapi.Postgres.Transact.Laws.{transact-ok, undone}
use golang_restapi.Postgres.Writes.{update_user-ok, record_entry-ok}

-- The calls of the object storage that clean up after a replaced picture.
abbrev pub stale : String → List StorageCall
stale path = if path == "" then [] else delete path ∷ []

-- The picture was stored before the row named it, and the one that the row named is to be deleted; or
-- the tables are as they were, and either nothing was asked of the storage, or it refused to
-- store the picture, or the picture that it stored is to be deleted.
abbrev pub Settled : {S : Type 0} → Ctx → ℕ → World S → Result ⊤ × World S → Type 0
Settled ctx user_id w (ok _, w') =
    (name : String) × (r : Rewritten ctx "user.change-profile-picture" user_id (with_picture name)
      w.db w'.db)
    × (w'.storage ≡ stale (picture_path r.stored.user) ++ (put (build_image_path name) ∷ w.storage))
Settled ctx user_id w (err e, w') =
    (w'.db ≡ w.db)
    × ((w'.storage ≡ w.storage)
        ⊎ ((path : String) × ((((n : ℕ) × (e ≡ fault n)) × (w'.storage ≡ put path ∷ w.storage))
              ⊎ (w'.storage ≡ delete path ∷ put path ∷ w.storage))))

module _ {S : Type 0} (s : UserService S) (ctx : Ctx) where
  change_picture_tx-IsSilent :
      (user_id : ℕ) (name : String) → IsSilent (change_picture_tx s ctx user_id name)
  unfolding change_picture_tx
  change_picture_tx-IsSilent user_id name = bind-IsSilent _ _ (get_user-IsSilent s.env user_id) λ u.
      bind-IsSilent _ _ (update_user-IsSilent s.env _)
        λ _. bind-IsSilent _ _ (record_entry-IsSilent s.env ctx _) λ _ w. refl

  change_picture_tx-ok :
      (user_id : ℕ) (name : String) (w : World S) {prev : String} {w' : World S}
      → change_picture_tx s ctx user_id name w ≡ (ok prev, w')
      → (r : Rewritten ctx "user.change-profile-picture" user_id (with_picture name) w.db w'.db)
        × (prev ≡ picture_path r.stored.user)
  unfolding change_picture_tx
  change_picture_tx-ok user_id name w {prev} {w'} h =
      >>=-read _ _ _ (λ d. get_user_by_id-Keeps _ s.env _) h
        λ u w1 s1 (db, row, same, found, is) h1. >>=-ok _ _ h1 λ u' w2 e2 h2.
          >>=-ok _ _ h2 λ _ w3 e3 h3.
            let (now, refreshed, d1) = update_user-ok s.env _ w1 e2 in
            let d2 = record_entry-ok s.env ctx _ w2 e3 in
            let end : w3.db ≡ w'.db = ground (arith, h3) in
            let path : picture_path u ≡ prev = ground (arith, h3) in
            (
              record {
                stored = row;
                found = ground (arith, found, same);
                now = now;
                users = rw is (cc (s1, d1, d2, end));
                log = rw is (cc (s1, d1, d2, end, refreshed));
              },
              rw is (sym path),
            )

  delete_image-deletes :
      (path : String) (w : World S)
      → ((delete_image s ctx path w).1.db ≡ w.db)
        × ((delete_image s ctx path w).1.storage ≡ delete path ∷ w.storage)
  unfolding delete_image ◌>>=◌
  delete_image-deletes path w = (ground arith, ground arith)

  delete_previous-deletes :
      (path : String) (w : World S)
      → (w' : World S) × (delete_previous s ctx path w ≡ (ok tt, w'))
        × (w'.db ≡ w.db)
        × (w'.storage ≡ stale path ++ w.storage)
  unfolding delete_image ◌>>=◌
  delete_previous-deletes path w =
      ((delete_previous s ctx path w).1, ground arith, ground arith, ground arith)

  clean_up-settles :
      (user_id : ℕ) (name : String) (w1 : World S)
      → (w : World S) → w1.db ≡ w.db
      → w1.storage ≡ put (build_image_path name) ∷ w.storage
      → Settled ctx user_id w (
          clean_up s ctx
            (build_image_path name)
            (transact s.env (change_picture_tx s ctx user_id name))
            w1)
  unfolding clean_up delete_image ◌>>=◌
  clean_up-settles user_id name w1 w same stored = go (transact s.env tx w1) refl
    where
      tx : Action S String
      tx = change_picture_tx s ctx user_id name

      silent :
          {r : Result String} {w2 : World S}
          → transact s.env tx w1 ≡ (r, w2)
          → w2.storage ≡ put (build_image_path name) ∷ w.storage
      silent h =
          ap (λ (p : Result String × World S). p.1.storage) (sym h)
          ∙ transact-IsSilent s.env tx (change_picture_tx-IsSilent user_id name) w1
          ∙ stored

      go :
          (r : Result String × World S)
          → transact s.env tx w1 ≡ r
          → Settled ctx user_id w (elim r.0 as (λ _. Result ⊤ × World S) [
            | ok prev ↦ delete_previous s ctx prev r.1
            | err e ↦ (err e, (delete_image s ctx (build_image_path name) r.1).1)
          ])
      go (ok prev, w2) h = transact-ok s.env tx w1 h λ wa wb sa ran sb.
          let (w3, run, kept, calls) = delete_previous-deletes prev w2 in
          let begin : wa.db ≡ w.db = sa ∙ same in
          let end : w3.db ≡ wb.db = kept ∙ sb in
          let (r, path) : (r : Rewritten ctx "user.change-profile-picture" user_id
                (with_picture name) w.db w3.db)
              × (prev ≡ picture_path r.stored.user) =
            rw (end, ← begin) (change_picture_tx-ok user_id name wa ran) in
          rw run (name, r, calls ∙ rw (path, silent h) refl)
      go (err e, w2) h =
          let (kept, calls) = delete_image-deletes (build_image_path name) w2 in
          (
            kept ∙ undone s.env tx w1 e w2 h ∙ same,
            inr (
              build_image_path name,
              inr (calls ∙ ap (λ l. delete (build_image_path name) ∷ l) (silent h)),
            ),
          )

  put_image-puts :
      (path : String) (w : World S) {r : Result ⊤} {w' : World S}
      → put_image s ctx path w ≡ (r, w')
      → (w'.db ≡ w.db) × (w'.storage ≡ put path ∷ w.storage)
  unfolding put_image ◌>>=◌
  put_image-puts path w h = (ground arith, ground arith)

  put_image-refused :
      (path : String) (w : World S) {e : Err} {w' : World S}
      → put_image s ctx path w ≡ (err e, w')
      → (n : ℕ) × (e ≡ fault n)
  unfolding put_image ◌>>=◌
  put_image-refused path w h = (w.calls, ground arith)

  store_picture-settles :
      (user_id : ℕ) (file : ParsedFile) (w v : World S)
      → w.db ≡ v.db
      → w.storage ≡ v.storage
      → Settled ctx user_id v (store_picture s ctx user_id file w)
  unfolding store_picture
  store_picture-settles user_id file w v same calls =
      >>=-outcomes (Settled ctx user_id v) _ _ w
        (λ _ w1 h.
          let (kept, stored) = put_image-puts (build_image_path file.filename) w h in
          clean_up-settles user_id file.filename w1 v (kept ∙ same)
            (stored ∙ ap (λ l. put (build_image_path file.filename) ∷ l) calls))
        (λ e w1 h.
          let (kept, stored) = put_image-puts (build_image_path file.filename) w h in
          (
            kept ∙ same,
            inr (
              build_image_path file.filename,
              inl (
                put_image-refused _ w h,
                stored ∙ ap (λ l. put (build_image_path file.filename) ∷ l) calls,
              ),
            ),
          ))

  -- Whatever the outcome of ChangeProfilePicture: if it succeeds, the storage was asked to store the
  -- new picture, the user's row names it, an audit entry says so, and the storage was then asked,
  -- once, to delete the picture that the row named before, if it named one. If it fails, the tables
  -- are as they were, and the storage was not asked for anything, or refused to store the picture,
  -- or was asked to delete the picture that it had stored. Whether a deletion fails is not seen.
  pub change_profile_picture-settles :
      (user_id : ℕ) (file : ParsedFile) (w : World S)
      → Settled ctx user_id w (change_profile_picture s ctx user_id file w)
  unfolding change_profile_picture set_name
  change_profile_picture-settles user_id file w =
      >>=-outcomes (Settled ctx user_id w) _ _ w
        (λ _ w1 h1.
          >>=-outcomes (Settled ctx user_id w) _ _ w1
            (λ n w2 h2.
              >>=-outcomes (Settled ctx user_id w) _ _ w2
                (λ named w3 h3.
                  store_picture-settles user_id named w3 w (ground (arith, h1, h2, h3))
                    (ground (arith, h1, h2, h3)))
                (λ e w3 h3. (ground (arith, h1, h2, h3), inl (ground (arith, h1, h2, h3)))))
            (λ e w2 h2. absurd (cc)))
        (λ e w1 h1. (ground (arith, h1), inl (ground (arith, h1))))
